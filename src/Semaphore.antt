-- ===== src/Semaphore.antt =====
-- src/dyco_semaphore.c: the counting semaphore and its queue of waiters.
-- A waiter's node is known by its address, since `wtail` is compared with `wqueue` as a pointer.
-- The asserts of the file are compiled out (`NDEBUG`), so an asymmetric coroutine waits too.
pub mod Queue
pub mod Calls
pub mod Permits
pub mod Stale
mod Tests
use dyco_coroutine.Base.{
  ℕ, zero, suc, ◌+◌, ◌-◌, ◌^◌, Bool, true, false, not, ◌&&◌, Option, none, some, List, [], ◌∷◌, ltb,
  ◌==◌, if◌then◌else◌, ◌>>=◌, ℤ, pos, minus_one,
}
use dyco_coroutine.Blocking.{Caller, outside, coroutine, is_zero, Notice}

abbrev pub value_max : ℕ
value_max = 0x7fffffff

pub record Node : Type 0 where
  pub addr : ℕ
  pub fd : ℕ

pub record Semaphore : Type 0 where
  pub semval : ℕ
  pub wqueue : List Node
  pub wtail : Option ℕ

pub create : Bool → ℕ → Option Semaphore
create memory value =
    if ltb value_max value
    then none
    else if not memory
    then none
    else some (record { semval = value; wqueue = []; wtail = none })

-- Whether `eventfd_write` succeeds on a descriptor. Where it fails the process exits: `none`.
pub notify : (ℕ → Bool) → ℕ → ℕ → Option Notice
notify writes fd value = if writes fd then some (record { fd = fd; value = value }) else none

-- The loop of `destroy`; the memory of the semaphore is freed behind it.
pub destroy_loop : (ℕ → Bool) → List Node → Option (List Notice)
unfolding notify
destroy_loop writes [] = some []
destroy_loop writes (n ∷ ns) =
    let rest = destroy_loop writes ns in notify writes n.fd 64 >>= λ w. rest >>= λ ws. some (w ∷ ws)

pub destroy : (ℕ → Bool) → Option Semaphore → Option (List Notice)
unfolding destroy_loop
destroy writes none = some []
destroy writes (some s) = destroy_loop writes s.wqueue

-- `wtail->next = wnode`: what stood behind the tail is cut off. `none`: no node has the address.
pub link : ℕ → Node → List Node → Option (List Node)
link tail n [] = none
link tail n (m ∷ ms) =
    let rest = link tail n ms in
    if m.addr == tail then some (m ∷ n ∷ []) else (rest >>= λ ms'. some (m ∷ ms'))

pub enqueue_at : List Node → Option ℕ → Node → Option (List Node)
unfolding link
enqueue_at [] tail n = some (n ∷ [])
enqueue_at (m ∷ ms) none n = none
enqueue_at (m ∷ ms) (some tail) n = link tail n (m ∷ ms)

pub enqueue : Semaphore → Node → Option Semaphore
unfolding enqueue_at
enqueue s n =
    enqueue_at s.wqueue s.wtail n >>= λ q. some (record s { wqueue = q; wtail = some n.addr })

pub data Outcome : Type 0 where
  returned : Semaphore → ℤ → List Notice → Outcome
  -- The call yields until its descriptor is readable or its timeout is over.
  waits : Semaphore → ℕ → Outcome
  -- The process exits, or a NULL or foreign tail is written through.
  exited : Outcome

-- What the kernel and the allocator answer to one call.
pub record Answers : Type 0 where
  pub eventfd : Option ℕ
  pub node : Option ℕ
  pub writes : ℕ → Bool

pub block : Semaphore → Option ℕ → Option ℕ → Outcome
unfolding enqueue
block s none memory = exited
block s (some fd) none = returned s minus_one []
block s (some fd) (some addr) = elim (enqueue s (record { addr = addr; fd = fd })) [
  | none ↦ exited
  | some s' ↦ waits s' fd
]

pub wait_in : Semaphore → Caller → Answers → Outcome
unfolding block
wait_in s outside a = returned s minus_one []
wait_in s (coroutine asymmetric) a = block s a.eventfd a.node

pub wait : Semaphore → ℤ → Caller → Answers → Outcome
unfolding wait_in
wait s timeout caller a =
    if ltb 0 s.semval
    then returned (record s { semval = s.semval - 1 }) (pos 0) []
    else if is_zero timeout
    then (if ltb 0 s.semval
        then returned (record s { semval = s.semval - 1 }) (pos 0) []
        else returned s minus_one [])
    else wait_in s caller a

-- The second half of a wait: the semaphore that it leaves, its result and what it closes.
pub record Ended : Type 0 where
  pub sem : Semaphore
  pub ret : ℤ
  pub closed : ℕ

-- What the read of the descriptor gives; none for EAGAIN.
pub read_result : Option ℕ → ℤ
read_result none = minus_one
read_result (some count) = if count == 1 then pos 0 else minus_one

-- After the yield. The semaphore is not touched.
pub woken : Semaphore → ℕ → Option ℕ → Ended
unfolding read_result
woken s fd read = record { sem = s; ret = read_result read; closed = fd }

-- `wtail == wqueue` compares the addresses.
pub dequeue : Semaphore → Node → List Node → Semaphore
dequeue s n rest = elim s.wtail [
  | none ↦ record s { wqueue = rest }
  | some tail ↦
      if tail == n.addr then record s { wqueue = []; wtail = none } else record s { wqueue = rest }
]

pub signal_in : Semaphore → Node → List Node → Caller → Answers → Outcome
unfolding dequeue notify
signal_in s n rest outside a = returned s minus_one []
signal_in s n rest (coroutine asymmetric) a = elim (notify a.writes n.fd 1) [
  | none ↦ exited
  | some w ↦ returned (dequeue s n rest) (pos 0) (w ∷ [])
]

pub signal_at : Semaphore → List Node → Caller → Answers → Outcome
unfolding signal_in
signal_at s [] caller a = returned (record s { semval = s.semval + 1 }) (pos 0) []
signal_at s (n ∷ rest) caller a = signal_in s n rest caller a

pub signal : Semaphore → Caller → Answers → Outcome
unfolding signal_at
signal s caller a =
    if s.semval == value_max then returned s minus_one [] else signal_at s s.wqueue caller a
