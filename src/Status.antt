-- ===== src/Status.antt =====
-- The status word of a coroutine: BIT, SETBIT, CLRBIT and TESTBIT of
-- include/dyco/dyco_coroutine.h, and the positions of dyco_coroutine_status.
pub mod Flags
mod Digits
use dyco_coroutine.Base.{ℕ, ◌-◌, ◌^◌, Bool, not, ◌==◌, bit_and, bit_or}

abbrev pub new : ℕ
new = 0

abbrev pub ready : ℕ
ready = 1

abbrev pub exited : ℕ
exited = 2

abbrev pub running : ℕ
running = 3

abbrev pub sleeping : ℕ
sleeping = 4

abbrev pub schedcall : ℕ
schedcall = 5

abbrev pub killed : ℕ
killed = 6

abbrev pub urgent : ℕ
urgent = 7

abbrev pub ownstack : ℕ
ownstack = 8

abbrev pub allocstackmem : ℕ
allocstackmem = 9

abbrev pub waiting : ℕ
waiting = 10

abbrev pub expired : ℕ
expired = 11

abbrev pub iomultiplexing : ℕ
iomultiplexing = 12

abbrev pub waitsignal : ℕ
waitsignal = 13

abbrev pub incoropool : ℕ
incoropool = 14

abbrev pub asymmetric : ℕ
asymmetric = 15

-- `d |= 1 << x`
unfoldable pub setbit : ℕ → ℕ → ℕ
setbit d x = bit_or d (2 ^ x)

-- `d &= ~(1 << x)`, on 32 bits
unfoldable pub clrbit : ℕ → ℕ → ℕ
clrbit d x = bit_and d (2 ^ 32 - 1 - 2 ^ x)

-- `(d & (1 << x)) != 0`
unfoldable pub testbit : ℕ → ℕ → Bool
testbit d x = not (bit_and d (2 ^ x) == 0)
