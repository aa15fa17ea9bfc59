-- ===== src/Blocking.antt =====
-- What the synchronisation objects share: who calls, how a call ends, and the notifications that it
-- writes. A call that blocks is cut in two at its `yield`: what it does before, and what it does
-- when it runs again, which may be after any steps of other coroutines.
use dyco_coroutine.Base.{ℕ, zero, Bool, true, false, ℤ, pos}

-- `get_sched()` and `sched->curr_thread`: outside of a running coroutine one of them is NULL.
pub data Caller : Type 0 where
  outside : Caller
  coroutine : Bool → Caller

abbrev pub is_zero : ℤ → Bool
is_zero (pos zero) = true
is_zero _ = false

-- An `eventfd_write`: the descriptor and the value.
pub record Notice : Type 0 where
  pub fd : ℕ
  pub value : ℕ
