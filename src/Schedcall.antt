-- ===== src/Schedcall.antt =====
-- src/dyco_schedcall.c: the calls that a coroutine makes into the scheduler, and what the scheduler
-- does for them, with the abort of src/dyco_schedule.c. A call is cut at its switch.
use dyco_coroutine.Base.{
  ℕ, zero, suc, ◌+◌, Bool, true, false, Option, none, some, List, [], ◌∷◌, ◌++◌, get_elem?, ◌==◌,
  if◌then◌else◌, ◌>>=◌, ℤ, pos,
}
use dyco_coroutine.HashTable.{Table, Entry, no_id, find}
use dyco_coroutine.Status.{running, schedcall, incoropool, asymmetric, setbit, clrbit, testbit}
use dyco_coroutine.Schedule.{
  Schedule, Kernel, status_aborted, has_flag, set_flag, clear_flag, update, make_ready,
}
use dyco_coroutine.Schedule.Lifecycle.{free_coroutine}
use dyco_coroutine.Schedule.Calls.{stop}
use dyco_coroutine.Schedule.Stack.{Frames, save_stack}
use dyco_coroutine.Asymmetric.{free}
use dyco_coroutine.Blocking.{Notice}
use dyco_coroutine.CoroPool.{Pool}
use dyco_coroutine.CoroPool.Calls.{give_back}

pub data Callnum : Type 0 where
  call_sigprocmask call_stop call_abort : Callnum

-- The scheduler with its system call, the pools at their addresses, and what returns to a pool have
-- written to its waiters so far.
pub record World (T : Type 0) : Type 0 where
  pub sched : Schedule T
  pub callnum : Callnum
  pub ret : ℤ
  pub pools : ℕ → Pool
  pub told : List Notice

-- What the kernel answers to the scheduler: descriptors that can be written, and `sigprocmask`.
pub record Outside : Type 0 where
  pub kernel : Kernel
  pub writes : ℕ → Bool
  pub mask : ℤ

module _ {T : Type 0} where
  abbrev pub with_sched : World T → Schedule T → World T
  with_sched w s = record w { sched = s }

  -- cp_return to the pool of the coroutine, as dyco_coropool_return calls it.
  unfoldable pub return_to_pool : Outside → World T → ℕ → Option (World T)
  unfolding give_back
  return_to_pool outside w co = elim (w.sched.coroutines co).cpool [
    | none ↦ some w
    | some p ↦ give_back outside.kernel outside.writes w.sched (some co) (some (w.pools p)) >>= λ r.
        r.1 >>= λ cp.
        some (record w { sched = r.0; pools = update w.pools p cp; told = w.told ++ r.2 })
  ]

  -- dyco_asymcpool_return.
  unfoldable pub return_id : Outside → World T → ℕ → Option (World T)
  unfolding return_to_pool
  return_id outside w cid = find w.sched.cid_co_map cid >>= λ r. elim r [
    | none ↦ some w
    | some co ↦ return_to_pool outside w co
  ]

  unfoldable pub coro_abort : Outside → World T → ℕ → Option (World T)
  unfolding return_to_pool return_id free free_coroutine testbit
  coro_abort outside w co =
      let cid = (w.sched.coroutines co).cid in
      if has_flag w.sched co incoropool
      then if has_flag w.sched co asymmetric
        then return_id outside w cid
        else return_to_pool outside w co
      else if has_flag w.sched co asymmetric
      then (free w.sched cid >>= λ s. some (with_sched w s))
      else (free_coroutine outside.kernel w.sched (some co) >>= λ s. some (with_sched w s))

  abbrev pub with_cids : World T → Table ℕ → World T
  with_cids w t = with_sched w (record w.sched { cid_co_map = t })

  -- A callback on the pointer of an entry. coro_abort does not survive NULL.
  unfoldable pub abort_value : Outside → World T → Option ℕ → Option (World T)
  unfolding coro_abort
  abort_value outside w none = none
  abort_value outside w (some co) = coro_abort outside w co

  -- The inner loop of htable_clear_with_freecb. The callback deletes the entry from the table and
  -- frees its block, which the loop then frees again.
  unfoldable pub abort_chain : Outside → World T → List (Entry ℕ) → Option (World T)
  abort_chain outside w [] = some w
  abort_chain outside w (e ∷ es) = none

  -- One bucket. Behind the first callback the loop goes on with the entries that are chained then.
  unfoldable pub abort_bucket : Outside → World T → ℕ → Option (World T)
  unfolding abort_value abort_chain
  abort_bucket outside w i = get_elem? w.sched.cid_co_map.buckets i >>= λ b.
      if b.id == no_id
      then some w
      else (abort_value outside w b.value >>= λ w'.
          get_elem? w'.sched.cid_co_map.buckets i >>= λ b'. abort_chain outside w' b'.next)

  -- The buckets from the i-th on.
  unfoldable pub abort_buckets : Outside → ℕ → ℕ → World T → Option (World T)
  unfolding abort_bucket
  abort_buckets outside zero i w = some w
  abort_buckets outside (suc n) i w =
      abort_bucket outside w i >>= λ w'. abort_buckets outside n (i + 1) w'

  -- schedule_abort; its assert is compiled out. The table is freed.
  unfoldable pub schedule_abort : Outside → World T → Option (World T)
  unfolding abort_buckets
  schedule_abort outside w = abort_buckets outside (w.sched.cid_co_map.mask + 1) 0 w >>= λ w'.
      some (
        with_sched w' (record w'.sched {
          cid_co_map = record { width = 0; mask = 0; count = 0; buckets = [] };
          curr_thread = none;
          status = status_aborted;
        }))

  -- schedule_callexec, with whether the coroutine goes on.
  unfoldable pub callexec : Outside → World T → Option (World T × Bool)
  unfolding schedule_abort stop
  callexec outside w = elim w.callnum [
    | call_sigprocmask ↦ some (record w { ret = outside.mask }, true)
    | call_stop ↦ some (record w { sched = stop w.sched; ret = pos 0 }, false)
    | call_abort ↦ schedule_abort outside w >>= λ w'. some (record w' { ret = pos 0 }, false)
  ]

  -- A system call up to its switch, with whether it switches: outside of a coroutine it returns.
  unfoldable pub enter_call : World T → ℕ → Callnum → World T
  unfolding setbit clrbit
  enter_call w co n =
      record (with_sched w (set_flag (clear_flag w.sched co running) co schedcall)) { callnum = n }

  unfoldable pub sigprocmask_out : Bool → World T → Option (World T × Bool)
  unfolding enter_call
  sigprocmask_out blocks w = elim w.sched.curr_thread [
    | none ↦ some (w, false)
    | some co ↦ if blocks then some (enter_call w co call_sigprocmask, true) else none
  ]

  unfoldable pub stop_out : Frames → World T → Option (World T × Bool)
  unfolding enter_call make_ready save_stack
  stop_out frames w = elim w.sched.curr_thread [
    | none ↦ some (w, false)
    | some co ↦
        let w' = enter_call w co call_stop in
        make_ready w'.sched co >>= λ s.
        save_stack frames s co >>= λ s'. some (with_sched w' s', true)
  ]

  unfoldable pub abort_out : World T → Option (World T × Bool)
  unfolding enter_call
  abort_out w = elim w.sched.curr_thread [
    | none ↦ some (w, false)
    | some co ↦ some (enter_call w co call_abort, true)
  ]

  -- Behind the switch of a system call.
  unfoldable pub call_in : World T → ℕ → World T
  unfolding setbit clrbit
  call_in w co = with_sched w (set_flag (clear_flag w.sched co schedcall) co running)
