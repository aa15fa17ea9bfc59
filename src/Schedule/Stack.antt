-- ===== src/Schedule/Stack.antt =====
-- src/dyco_coroutine.c: the check of the stack and its saving, and what a yield does before its
-- switch and behind it. How deep the stack is, and what `realloc` gives, are arguments.
use dyco_coroutine.Base.{
  ℕ, Bool, true, Option, none, some, if◌then◌else◌, ◌>>=◌, ltb, ℤ, pos, negsuc, int_of, minus, ◌/◌,
}
use dyco_coroutine.Status.{
  exited, running, killed, ownstack, allocstackmem, setbit, clrbit, testbit,
}
use dyco_coroutine.Schedule.{Schedule, has_flag, set_flag, clear_flag, with_coroutine}

-- `total_size < cur_size` on two ints.
abbrev pub below : ℤ → ℕ → Bool
below (pos total) depth = ltb total depth
below (negsuc n) depth = true

-- `total_size >> 3` on an int, which rounds down.
abbrev eighth : ℤ → ℤ
eighth (pos n) = pos (n / 8)
eighth (negsuc n) = negsuc (n / 8)

-- What is on the stack of a coroutine at a yield: the depths in the frames of `checkstk` and of
-- `savestk`, and the block that `realloc` gives.
pub record Frames : Type 0 where
  pub checked : ℕ
  pub saved : ℕ
  pub moved : Option ℕ

module _ {T : Type 0} where
  -- The stack is copied to the block of the coroutine. An assert on `realloc` is compiled out, and
  -- `memcpy` does not survive NULL.
  unfoldable pub save_stack : Frames → Schedule T → ℕ → Option (Schedule T)
  unfolding setbit testbit
  save_stack frames s co =
      let c = s.coroutines co in
      if has_flag s co ownstack
      then some s
      else ((if ltb c.stack_size frames.saved then frames.moved else c.stack) >>= λ block. some (
          with_coroutine s co (record c {
            stack = some block;
            stack_size = frames.saved;
            status = setbit c.status allocstackmem;
          })))

  -- `total_size` of checkstk.
  unfoldable pub total_size : Schedule T → ℕ → ℤ
  unfolding testbit
  total_size s co =
      int_of (if has_flag s co ownstack then (s.coroutines co).stack_size else s.stack_size)

  -- dyco_coroutine_checkStack: 1 where less than an eighth is left. A coroutine that has overflown
  -- its stack is marked and switches back, with no result. Outside of a coroutine the call exits.
  unfoldable check_stack : ℕ → Schedule T → Option (Schedule T × Option ℤ)
  unfolding total_size setbit clrbit
  check_stack depth s = s.curr_thread >>= λ co.
      let total = total_size s co in
      if below total depth
      then some (clear_flag (set_flag s co killed) co running, none)
      else if below (minus total (eighth total)) depth
      then some (s, some (pos 1))
      else some (s, some (pos 0))

  -- Before the switch. A coroutine that has overflown its stack is marked, and not saved.
  unfoldable pub yield_out : Frames → Schedule T → ℕ → Option (Schedule T)
  unfolding save_stack total_size setbit clrbit testbit
  yield_out frames s co =
      if below (total_size s co) frames.checked
      then some (clear_flag (set_flag s co killed) co running)
      else ((if has_flag s co exited then some s else save_stack frames s co) >>= λ s'.
          some (clear_flag s' co running))

  -- Behind it.
  unfoldable pub yield_in : Schedule T → ℕ → Schedule T
  unfolding setbit
  yield_in s co = set_flag s co running
