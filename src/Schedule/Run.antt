-- ===== src/Schedule/Run.antt =====
-- src/dyco_schedule.c: the loop of `dyco_schedule_run`, and `resume` of src/dyco_coroutine.c.
-- What a coroutine does from one switch to the next is an argument: the code of its user, and the
-- library's calls in it, up to the switch back.
use dyco_coroutine.Base.{
  ℕ, zero, suc, Bool, true, false, Option, none, some, List, [], ◌∷◌, ◌==◌, if◌then◌else◌, ◌>>=◌,
  length, ℤ, pos, minus_one, minus_two,
}
use dyco_coroutine.HashTable.{inc_int}
use dyco_coroutine.Status.{new, ready, clrbit, testbit}
use dyco_coroutine.Schedule.Tree.{SleepTree}
use dyco_coroutine.Schedule.{
  Schedule, ScheduleStatus, status_ready, status_running, status_stopped, status_aborted,
  status_done, Kernel, clear_flag, with_coroutine, probe_expired,
}
use dyco_coroutine.Schedule.Events.{deliver, is_done, epoll_timeout}

-- `TAILQ_LAST`
abbrev pub last : List ℕ → Option ℕ
last [] = none
last (x ∷ []) = some x
last (x ∷ y ∷ ys) = last (y ∷ ys)

abbrev pub is_last : Option ℕ → ℕ → Bool
is_last none co = false
is_last (some l) co = co == l

abbrev pub urgent_max_exec : ℕ
urgent_max_exec = 128

abbrev pub urgent_max_wait : ℕ
urgent_max_wait = 128

-- How a phase ends: the loop goes on, or `dyco_schedule_run` returns.
pub data Phase : Type 0 where
  continues : Phase
  returns : ℤ → Phase

unfoldable pub after_resume : ScheduleStatus → Phase
after_resume status_stopped = returns (pos 1)
after_resume status_aborted = returns minus_one
after_resume _ = continues

module _ {T : Type 0} where
  -- Before the switch: a coroutine counts its turns and is the current one.
  unfoldable pub switch_in : Schedule T → ℕ → Schedule T
  unfolding clrbit testbit
  switch_in s co =
      let c = s.coroutines co in
      let status = if testbit c.status new then clrbit c.status new else c.status in
      record (with_coroutine s co
        (record c { status = status; sched_count = inc_int c.sched_count })) {
          curr_thread = some co;
        }

  -- Behind the return of `resume`: the checks of the status and of the last coroutine.
  unfoldable pub after_turn :
      Bool → (Schedule T → Option (Schedule T × Phase)) → Schedule T → Option (Schedule T × Phase)
  unfolding after_resume
  after_turn at_last next s = elim (after_resume s.status) [
    | returns r ↦ some (s, returns r)
    | continues ↦ elim at_last [ true ↦ some (s, continues) | false ↦ next s ]
  ]

  module _ (resume : Schedule T → ℕ → Option (Schedule T)) where
    -- Phase B: the head of the queue is taken and resumed.
    unfoldable pub run_urgent : ℕ → Option ℕ → Schedule T → Option (Schedule T × Phase)
    unfolding clrbit after_turn
    run_urgent zero stop s = some (s, continues)
    run_urgent (suc n) stop s = elim s.urgent_ready [
      | [] ↦ some (s, continues)
      | co ∷ queue ↦
          resume (clear_flag (record s { urgent_ready = queue }) co ready) co
          >>= after_turn (is_last stop co) (run_urgent n stop)
    ]

    -- Phase C.
    unfoldable pub run_ready : ℕ → Option ℕ → Schedule T → Option (Schedule T × Phase)
    unfolding clrbit after_turn
    run_ready zero stop s = some (s, continues)
    run_ready (suc n) stop s = elim s.ready [
      | [] ↦ some (s, continues)
      | co ∷ queue ↦
          resume (clear_flag (record s { ready = queue }) co ready) co
          >>= after_turn (is_last stop co) (run_ready n stop)
    ]

    unfoldable pub urgent_phase : Schedule T → Option (Schedule T × Phase)
    unfolding run_urgent
    urgent_phase s = run_urgent urgent_max_exec (last s.urgent_ready) s

    unfoldable pub ready_phase : Schedule T → Option (Schedule T × Phase)
    unfolding run_ready
    ready_phase s = run_ready urgent_max_wait (last s.ready) s

-- What the outside answers in one round of the loop: the clock in each round of phase A, the clock of phase D, the
-- kernel, and the descriptors of the events in the order of `eventlist`.
pub record Round : Type 0 where
  pub probed_at : ℕ → ℕ
  pub waited_at : ℕ
  pub kernel : Kernel
  pub events : List ℕ

module _ {T : Type 0} (tree : SleepTree T) (resume : Schedule T → ℕ → Option (Schedule T)) where
  -- Phase D.
  unfoldable pub event_phase : Round → Schedule T → Option (Schedule T × Phase)
  unfolding epoll_timeout deliver
  event_phase round s = elim (epoll_timeout tree round.waited_at s) [
    | none ↦ some (s, continues)
    | some timeout ↦ deliver round.kernel s round.events >>= λ s'. some (s', continues)
  ]

  -- A phase that returned ends the round.
  unfoldable pub then_phase :
      (Schedule T → Option (Schedule T × Phase)) → Schedule T × Phase → Option (Schedule T × Phase)
  then_phase next (s, returns r) = some (s, returns r)
  then_phase next (s, continues) = next s

  -- One round: the phases A to D.
  unfoldable pub run_round : Round → Schedule T → Option (Schedule T × Phase)
  unfolding probe_expired urgent_phase ready_phase event_phase then_phase
  run_round round s =
      probe_expired tree (length (tree.entries s.sleeping)) round.probed_at s >>= λ a.
      urgent_phase resume a >>= λ b.
      then_phase (ready_phase resume) b >>= λ c. then_phase (event_phase round) c

  -- The loop, over the rounds for which the outside has answers: `none` where they do not suffice.
  unfoldable pub run_rounds : List Round → Schedule T → Option (Schedule T × ℤ)
  unfolding run_round is_done
  run_rounds [] s = if is_done tree s then some (record s { status = status_done }, pos 0) else none
  run_rounds (round ∷ rounds) s = elim (is_done tree s) [
    | true ↦ some (record s { status = status_done }, pos 0)
    | false ↦ run_round round s >>= λ r. elim r.1 [
      | returns code ↦ some (r.0, code)
      | continues ↦ run_rounds rounds r.0
    ]
  ]

  -- dyco_schedule_run. Running the scheduler from inside of a coroutine exits.
  unfoldable pub run_from : ScheduleStatus → List Round → Schedule T → Option (Schedule T × ℤ)
  unfolding run_rounds
  run_from status_running rounds s = none
  run_from status_aborted rounds s = some (s, minus_two)
  run_from status_done rounds s = some (s, pos 0)
  run_from status_ready rounds s = run_rounds rounds (record s { status = status_running })
  run_from status_stopped rounds s = run_rounds rounds (record s { status = status_running })

  unfoldable pub run : List Round → Option (Schedule T) → Option (Option (Schedule T) × ℤ)
  unfolding run_from
  run rounds none = some (none, minus_two)
  run rounds (some s) = run_from s.status rounds s >>= λ r. some (some r.0, r.1)
