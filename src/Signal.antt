-- ===== src/Signal.antt =====
-- src/dyco_signal.c: a coroutine that waits for signals. The calls are cut at their switches, also at
-- that of the scheduler call by which they set the mask.
use dyco_coroutine.Base.{
  ℕ, Bool, not, ◌||◌, Option, none, some, if◌then◌else◌, ◌>>=◌, ℤ, pos, minus_one, less,
}
use dyco_coroutine.Blocking.{is_zero}
use dyco_coroutine.Status.{asymmetric, waitsignal, setbit, clrbit, testbit}
use dyco_coroutine.Schedule.Tree.{SleepTree}
use dyco_coroutine.Schedule.{Schedule, Kernel, has_flag, set_flag, clear_flag, with_coroutine}
use dyco_coroutine.Schedule.Calls.{end_wait}
use dyco_coroutine.Schedcall.{World, with_sched, sigprocmask_out}
use dyco_coroutine.Epoll.{Wait, returned, park}

-- How a call goes on: it has returned, or the coroutine switches to the scheduler.
pub data Step (T : Type 0) : Type 0 where
  ends : World T → ℤ → Step T
  switches : World T → Step T

module _ {T : Type 0} where
  -- The call of dyco_schedcall_sigprocmask; `blocks` tells whether its own `sigprocmask` succeeds.
  unfoldable pub ask : Bool → World T → Option (Step T)
  unfolding sigprocmask_out
  ask blocks w = sigprocmask_out blocks w >>= λ r. some (switches r.0)

  -- dyco_signal_init up to its scheduler call.
  unfoldable pub init : Bool → World T → Option (Step T)
  unfolding ask testbit
  init blocks w = elim w.sched.curr_thread [
    | none ↦ some (ends w minus_one)
    | some co ↦ if has_flag w.sched co waitsignal then some (ends w minus_one) else ask blocks w
  ]

  -- Behind it; `signalfd` must give a descriptor.
  unfoldable pub init_called : Option ℕ → World T → ℕ → Option (World T × ℤ)
  unfolding setbit
  init_called signalfd w co = signalfd >>= λ fd. some (
    with_sched w (
        set_flag (with_coroutine w.sched co (record (w.sched.coroutines co) { sigfd = fd })) co
          waitsignal),
    pos 0,
  )

  -- dyco_signal_destroy up to its scheduler call.
  unfoldable pub destroy : Bool → World T → Option (Step T)
  unfolding ask clrbit testbit
  destroy blocks w = elim w.sched.curr_thread [
    | none ↦ some (ends w (pos 0))
    | some co ↦
        if not (has_flag w.sched co waitsignal)
        then some (ends w (pos 0))
        else ask blocks (with_sched w (clear_flag w.sched co waitsignal))
  ]

  module _ (tree : SleepTree T) where
    -- dyco_signal_wait up to its yield, with what `read` answers; behind it the call reads again.
    unfoldable pub wait : Kernel → ℤ → Schedule T → ℤ → Option (Wait T)
    unfolding park testbit
    wait kernel read s timeout = elim s.curr_thread [
      | none ↦ some (returned s minus_one)
      | some co ↦
          if not (has_flag s co waitsignal)
          then some (returned s minus_one)
          else if is_zero timeout || less (pos 0) read
          then some (returned s read)
          else park tree kernel s co (s.coroutines co).sigfd timeout
    ]

    unfoldable pub wait_woken : Kernel → ℤ → Schedule T → ℕ → Option (Schedule T × ℤ)
    unfolding end_wait
    wait_woken kernel read s co =
        end_wait tree kernel s co (s.coroutines co).sigfd >>= λ s'. some (s', read)

    -- dyco_signal_waitchild up to its scheduler call, with what `waitpid` answers.
    unfoldable pub waitchild : Bool → ℤ → World T → ℤ → Option (Step T)
    unfolding ask testbit
    waitchild blocks waitpid w timeout =
        if is_zero timeout || less (pos 0) waitpid
        then some (ends w waitpid)
        else elim w.sched.curr_thread [
          | none ↦ some (ends w minus_one)
          | some co ↦ if has_flag w.sched co asymmetric then none else ask blocks w
        ]

    -- From there to its yield.
    unfoldable pub waitchild_called : Kernel → Option ℕ → Schedule T → ℕ → ℤ → Option (Wait T)
    unfolding park
    waitchild_called kernel signalfd s co timeout =
        signalfd >>= λ fd. park tree kernel s co fd timeout

    -- And behind it.
    unfoldable pub waitchild_woken : Kernel → ℤ → Schedule T → ℕ → ℕ → Option (Schedule T × ℤ)
    unfolding end_wait
    waitchild_woken kernel waitpid s co fd =
        end_wait tree kernel s co fd >>= λ s'. some (s', waitpid)
