-- ===== src/Schedule/Drain/Ending.antt =====
-- The loop of dyco_schedule_run over coroutines that finish: how often it goes round.
use dyco_coroutine.Base.{
  ℕ, zero, suc, ◌*◌, ◌≤◌, ◌≡◌, refl, sym, ap, subst, ◌∙◌, true, false, Option, some, List, [], ◌∷◌,
  take, drop, length, take-drop, length-drop, length-zero, arith, All, inl, inr, pos, ◌&&◌, Bool,
  ◌⊎◌,
}
use dyco_coroutine.Schedule.Tree.{SleepTree}
use dyco_coroutine.Status.{ready}
use dyco_coroutine.Schedule.{Schedule, clear_flag, status_done, status_ready, status_running}
use dyco_coroutine.Schedule.Events.{is_empty, is_done}
use dyco_coroutine.Schedule.Run.{
  Round, continues, after_resume, run_round, run_rounds, run_from, run, urgent_max_wait,
}
use dyco_coroutine.Schedule.Fifo.{IsDistinct, resume_each}
use dyco_coroutine.Schedule.Drain.{Finishes, IsCalm, resume_each-append, run_round-Calm}

drop-All : (P : ℕ → Type 0) (n : ℕ) (xs : List ℕ) → All P xs → All P (drop n xs)
drop-All P zero xs h = h
drop-All P (suc n) [] h = h
drop-All P (suc n) (x ∷ xs) h = drop-All P n xs h.1

drop-IsDistinct : (n : ℕ) (xs : List ℕ) → IsDistinct xs → IsDistinct (drop n xs)
unfolding IsDistinct
drop-IsDistinct zero xs h = h
drop-IsDistinct (suc n) [] h = h
drop-IsDistinct (suc n) (x ∷ xs) h = drop-IsDistinct n xs h.1

and-true : (b : Bool) → (b && true) ≡ b
and-true true = refl
and-true false = refl

is_empty-cases : (xs : List ℕ) → (xs ≡ []) ⊎ (is_empty xs ≡ false)
is_empty-cases [] = inl refl
is_empty-cases (x ∷ xs) = inr refl

module _ {T : Type 0} (tree : SleepTree T) (resume : Schedule T → ℕ → Option (Schedule T))
    (P : Schedule T → Type 0)
    (turns : (s : Schedule T) (co : ℕ) (queue : List ℕ)
      → P s
      → after_resume s.status ≡ continues
      → s.ready ≡ co ∷ queue
      → (s' : Schedule T) × (resume (clear_flag (record s { ready = queue }) co ready) co ≡ some s')
        × Finishes (record s { ready = queue }) s'
        × P s') where
  is_done-Calm : (s : Schedule T) → IsCalm tree s → is_done tree s ≡ is_empty s.ready
  unfolding is_done
  is_done-Calm s calm =
      rw (is_done, calm.waits, calm.entries, calm.urgent_ready) (and-true (is_empty s.ready))

  run_rounds-done :
      (rounds : List Round) (s : Schedule T)
      → is_done tree s ≡ true
      → run_rounds tree resume rounds s ≡ some (record s { status = status_done }, pos 0)
  unfolding run_rounds
  run_rounds-done [] s done = rw done refl
  run_rounds-done (round ∷ rounds) s done = rw (run_rounds, done) refl

  run_rounds-round :
      (round : Round) (rounds : List Round) (s s₁ : Schedule T)
      → is_done tree s ≡ false
      → run_round tree resume round s ≡ some (s₁, continues)
      → run_rounds tree resume (round ∷ rounds) s ≡ run_rounds tree resume rounds s₁
  unfolding run_rounds
  run_rounds-round round rounds s s₁ more run = rw (run_rounds, more, run) refl

  -- Every coroutine of the queue has its turn, and then the loop returns 0.
  Drained : List Round → Schedule T → Type 0
  Drained rounds s =
      (s' : Schedule T) × (resume_each resume s.ready s ≡ some s')
      × (s'.ready ≡ [])
      × (run_rounds tree resume rounds s ≡ some (record s' { status = status_done }, pos 0))

  empty-Drained :
      (rounds : List Round) (s : Schedule T) → IsCalm tree s → s.ready ≡ [] → Drained rounds s
  unfolding Drained resume_each
  empty-Drained rounds s calm queue = (
    s,
    ap (λ q. resume_each resume q s) queue,
    queue,
    run_rounds-done rounds s (is_done-Calm s calm ∙ ap is_empty queue),
  )

  then-Drained :
      (round : Round) (rounds : List Round) (s s₁ : Schedule T)
      → is_done tree s ≡ false
      → resume_each resume (take urgent_max_wait s.ready) s ≡ some s₁
      → run_round tree resume round s ≡ some (s₁, continues)
      → s₁.ready ≡ drop urgent_max_wait s.ready
      → Drained rounds s₁
      → Drained (round ∷ rounds) s
  unfolding Drained
  then-Drained round rounds s s₁ more run₁ once queue₁ (s', run, empty, loop) = (
    s',
    sym (ap (λ q. resume_each resume q s) (take-drop urgent_max_wait s.ready))
        ∙ resume_each-append tree resume P turns (take urgent_max_wait s.ready)
            (drop urgent_max_wait s.ready) s
        ∙ rw run₁ (subst (λ q. resume_each resume q s₁ ≡ some s') queue₁ run),
    empty,
    run_rounds-round round rounds s s₁ more once ∙ loop,
  )

  run_rounds-Drained :
      (rounds : List Round) (s : Schedule T)
      → IsCalm tree s
      → P s
      → IsDistinct s.ready
      → length s.ready ≤ urgent_max_wait * length rounds
      → Drained rounds s
  run_rounds-Drained [] s calm p distinct enough =
      empty-Drained [] s calm (length-zero s.ready (omega (arith, enough)))
  run_rounds-Drained (round ∷ rounds) s calm p distinct enough = elim (is_empty-cases s.ready) [
    | inl queue ↦ empty-Drained (round ∷ rounds) s calm queue
    | inr more ↦
        let (s₁, run₁, once, queue₁, calm₁, p₁) =
          run_round-Calm tree resume P turns round s calm p distinct in
        let distinct₁ : IsDistinct s₁.ready =
          subst IsDistinct (sym queue₁) (drop-IsDistinct urgent_max_wait s.ready distinct) in
        let enough₁ : length s₁.ready ≤ urgent_max_wait * length rounds =
          rw queue₁ (omega (arith, enough, length-drop urgent_max_wait s.ready)) in
        then-Drained round rounds s s₁ (is_done-Calm s calm ∙ more) run₁ once queue₁
          (run_rounds-Drained rounds s₁ calm₁ p₁ distinct₁ enough₁)
  ]

  -- Where nothing sleeps, waits or is urgent, and each turn only takes its coroutine out of the queue,
  -- a run of a new scheduler resumes the coroutines of the queue in its order and returns 0.
  pub run-Drained :
      (rounds : List Round) (s : Schedule T)
      → s.status ≡ status_ready
      → IsCalm tree s
      → P (record s { status = status_running })
      → IsDistinct s.ready
      → length s.ready ≤ urgent_max_wait * length rounds
      → (s' : Schedule T) × (resume_each resume s.ready (record s { status = status_running })
          ≡ some s')
        × (s'.ready ≡ [])
        × (run tree resume rounds (some s)
            ≡ some (some (record s' { status = status_done }), pos 0))
  unfolding run run_from Drained
  run-Drained rounds s fresh calm p distinct enough =
      let started : IsCalm tree (record s { status = status_running }) = record {
        urgent_ready = calm.urgent_ready;
        entries = calm.entries;
        min = calm.min;
        waits = calm.waits;
        status = refl;
      } in
      let (s', each, empty, loop) =
        run_rounds-Drained rounds (record s { status = status_running }) started p distinct
          enough in
      (s', each, empty, rw fresh (rw loop refl))
