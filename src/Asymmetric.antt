-- ===== src/Asymmetric.antt =====
-- src/dyco_asymcoro.c: coroutines that one another resume by their id, outside of the queues of the
-- scheduler. What a coroutine does from its resume to its switch back is an argument.
pub mod Turns
pub mod Release
mod Tests
use dyco_coroutine.Base.{
  ℕ, Bool, true, false, not, ◌&&◌, Option, none, some, if◌then◌else◌, ◌>>=◌, ℤ, pos, minus_one,
  minus_two, int_of,
}
use dyco_coroutine.HashTable.{delete, find, dec_int}
use dyco_coroutine.Status.{exited, running, ownstack, asymmetric, setbit, clrbit, testbit}
use dyco_coroutine.Schedule.{Schedule, Kernel, Coroutine, has_flag, set_flag, clear_flag}
use dyco_coroutine.Schedule.Lifecycle.{
  new_coroutine, enlist, set_stack, get_stack, set_udata, get_udata, get_coro_id, unregister,
}
use dyco_coroutine.Schedule.Run.{switch_in}
use dyco_coroutine.Schedule.Calls.{max_stacksize}
use dyco_coroutine.Schedule.Stack.{Frames, save_stack}

abbrev pub is_some {ℓ} : {A : Type ℓ} → Option A → Bool
is_some none = false
is_some (some a) = true

-- `newcoro` with the flag of an asymmetric coroutine.
unfoldable pub asymmetric_coroutine : Coroutine
unfolding new_coroutine setbit
asymmetric_coroutine = record new_coroutine { status = setbit new_coroutine.status asymmetric }

module _ {T : Type 0} where
  -- dyco_asymcoro_create; the address is what `calloc` answers.
  pub create : Kernel → Schedule T → Option ℕ → Option (Schedule T × ℤ)
  unfolding enlist asymmetric_coroutine
  create kernel s none = some (s, minus_two)
  create kernel s (some co) =
      enlist kernel s co asymmetric_coroutine >>= λ r. some (r.0, int_of r.1)

  -- Behind the switch back.
  unfoldable pub resumed : Option ℕ → ℕ → ℕ → Schedule T → Schedule T × ℤ
  unfolding testbit
  resumed co_prev co cid s =
      let s' = record s { curr_thread = co_prev } in
      (s', if has_flag s' co exited then pos 0 else int_of cid)

  module _ (page_size : ℕ) (memory : Option ℕ) (turn : Schedule T → ℕ → Option (Schedule T)) where
    -- A coroutine that is resumed by another one needs a stack of its own.
    unfoldable pub prepare : Schedule T → ℕ → ℕ → Option (Schedule T)
    unfolding set_stack testbit
    prepare s cid co =
        if is_some s.curr_thread && not (has_flag s co ownstack)
        then (set_stack page_size memory s cid none max_stacksize >>= λ r. some r.0)
        else some s

    unfoldable pub resume_coroutine : Schedule T → ℕ → ℕ → Option (Schedule T × ℤ)
    unfolding prepare switch_in resumed setbit
    resume_coroutine s cid co = prepare s cid co >>= λ p.
        turn (set_flag (switch_in p co) co running) co >>= λ t.
        some (resumed s.curr_thread co cid t)

    unfoldable pub resume_found : Schedule T → ℕ → Option ℕ → Option (Schedule T × ℤ)
    unfolding resume_coroutine testbit
    resume_found s cid none = some (s, minus_one)
    resume_found s cid (some co) =
        if not (has_flag s co asymmetric)
        then some (s, minus_one)
        else if has_flag s co exited
        then some (s, pos 0)
        else resume_coroutine s cid co

    -- dyco_asymcororesume.
    pub resume : Schedule T → ℕ → Option (Schedule T × ℤ)
    unfolding resume_found
    resume s cid = find s.cid_co_map cid >>= resume_found s cid

  -- dyco_asymcoroyield up to its switch. It dereferences the current coroutine.
  pub yield_out : Frames → Schedule T → Option (Schedule T)
  unfolding save_stack testbit clrbit
  yield_out frames s = s.curr_thread >>= λ co.
      (if has_flag s co exited then some s else save_stack frames s co) >>= λ s'.
      some (clear_flag s' co running)

  unfoldable pub free_found : Schedule T → Option ℕ → Option (Schedule T)
  unfolding testbit unregister
  free_found s none = some s
  free_found s (some co) = if not (has_flag s co asymmetric) then some s else unregister s co

  -- dyco_asymcoro_free; its assert is compiled out. The block and its stack are freed.
  unfoldable pub free : Schedule T → ℕ → Option (Schedule T)
  unfolding free_found
  free s cid = find s.cid_co_map cid >>= free_found s

  pub is_asymmetric : Option (Schedule T) → ℕ → Option ℤ
  unfolding testbit
  is_asymmetric none cid = some minus_two
  is_asymmetric (some s) cid = find s.cid_co_map cid >>= λ r. elim r [
    | none ↦ some minus_one
    | some co ↦ some (if has_flag s co asymmetric then pos 1 else pos 0)
  ]

  -- The wrappers of the same functions of src/dyco_coroutine.c.
  pub coro_id : Option (Schedule T) → ℤ
  unfolding get_coro_id
  coro_id = get_coro_id

  pub asym_set_stack : ℕ → Option ℕ → Schedule T → ℕ → Option ℕ → ℕ → Option (Schedule T × ℤ)
  unfolding set_stack
  asym_set_stack = set_stack

  pub asym_get_stack : Schedule T → ℕ → Option (Option (Option ℕ × ℕ × Bool))
  unfolding get_stack
  asym_get_stack = get_stack

  pub asym_set_udata : Schedule T → ℕ → Option ℕ → Option (Schedule T × ℤ)
  unfolding set_udata
  asym_set_udata = set_udata

  pub asym_get_udata : Schedule T → ℕ → Option (Option (Option ℕ))
  unfolding get_udata
  asym_get_udata = get_udata
