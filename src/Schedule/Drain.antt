-- ===== src/Schedule/Drain.antt =====
-- One round of dyco_schedule_run over coroutines that finish, each in its first turn.
pub mod Ending
use dyco_coroutine.Base.{
  ℕ, zero, suc, ◌+◌, ◌*◌, ◌≤◌, ◌≡◌, refl, sym, ap, subst, ◌∙◌, true, false, Option, none, some,
  List, [], ◌∷◌, ◌++◌, take, drop, length, take-drop, ◌>>=◌, arith, All, ◌≢◌, Option-cases, inl,
  inr, OnSome, ◌==◌, ==_refl, pos, ◌&&◌, Bool, ◌⊎◌,
}
use mathlib.Core.List.{append-nil}
use dyco_coroutine.Status.{ready}
use dyco_coroutine.Schedule.Tree.{SleepTree}
use dyco_coroutine.Schedule.{
  Schedule, status_done, status_ready, status_running, clear_flag, get_expired, probe_expired,
}
use dyco_coroutine.Schedule.Events.{is_empty, is_done, epoll_timeout}
use dyco_coroutine.Schedule.Run.{
  Round, Phase, continues, after_resume, urgent_phase, run_urgent, ready_phase, event_phase,
  then_phase, run_round, run_rounds, run_from, run, urgent_max_wait, last, run_ready,
}
use dyco_coroutine.Schedule.Fifo.{
  IsDistinct, Appends, tail_of, resume_each, take-nil, last-cons_ne, after_turn-last,
  after_turn-next,
}

-- A turn that leaves the queues, the sleepers and the waits as they are.
pub record Finishes {T : Type 0} (s s' : Schedule T) : Type 0 where
  pub ready : s'.ready ≡ s.ready
  pub urgent_ready : s'.urgent_ready ≡ s.urgent_ready
  pub sleeping : s'.sleeping ≡ s.sleeping
  pub fd_co_map : s'.fd_co_map ≡ s.fd_co_map
  pub status : after_resume s'.status ≡ continues

-- The loop runs, and nothing but the ready queue has a coroutine.
pub record IsCalm {T : Type 0} (tree : SleepTree T) (s : Schedule T) : Type 0 where
  pub urgent_ready : s.urgent_ready ≡ []
  pub entries : tree.entries s.sleeping ≡ []
  pub min : tree.min s.sleeping ≡ none
  pub waits : s.fd_co_map.count ≡ 0
  pub status : after_resume s.status ≡ continues

drop-nil : (n : ℕ) → drop {A = ℕ} n [] ≡ []
drop-nil zero = refl
drop-nil (suc n) = refl

-- `P` is what the turns need and keep.
module _ {T : Type 0} (tree : SleepTree T) (resume : Schedule T → ℕ → Option (Schedule T))
    (P : Schedule T → Type 0)
    (turns : (s : Schedule T) (co : ℕ) (queue : List ℕ)
      → P s
      → after_resume s.status ≡ continues
      → s.ready ≡ co ∷ queue
      → (s' : Schedule T) × (resume (clear_flag (record s { ready = queue }) co ready) co ≡ some s')
        × Finishes (record s { ready = queue }) s'
        × P s') where
  pub resume_each-append :
      (xs ys : List ℕ) (s : Schedule T)
      → resume_each resume (xs ++ ys) s ≡ (resume_each resume xs s >>= resume_each resume ys)
  unfolding resume_each
  resume_each-append [] ys s = refl
  resume_each-append (x ∷ xs) ys s =
      let first = clear_flag (record s { ready = tail_of s.ready }) x ready in
      elim (Option-cases (resume first x)) [
        | inl fails ↦ rw fails refl
        | inr (s', run) ↦ rw run (resume_each-append xs ys s')
      ]

  Finishes-IsCalm :
      (s s' : Schedule T) (queue : List ℕ)
      → IsCalm tree s
      → Finishes (record s { ready = queue }) s'
      → IsCalm tree s'
  Finishes-IsCalm s s' queue calm f = record {
    urgent_ready = f.urgent_ready ∙ calm.urgent_ready;
    entries = ap tree.entries f.sleeping ∙ calm.entries;
    min = ap tree.min f.sleeping ∙ calm.min;
    waits = ap (λ t. t.count) f.fd_co_map ∙ calm.waits;
    status = f.status;
  }

  -- Phase C resumes the first coroutines of the queue, in its order, and the others stay.
  Turned : ℕ → List ℕ → Schedule T → Type 0
  Turned n queue s =
      (s' : Schedule T) × (resume_each resume (take n queue) s ≡ some s')
      × (run_ready resume n (last queue) s ≡ some (s', continues))
      × (s'.ready ≡ drop n queue)
      × IsCalm tree s'
      × P s'

  run_ready-Turned :
      (n : ℕ) (queue : List ℕ) (s : Schedule T)
      → IsCalm tree s
      → P s
      → s.ready ≡ queue
      → IsDistinct queue
      → Turned n queue s
  unfolding Turned run_ready resume_each IsDistinct
  run_ready-Turned zero queue s calm p q distinct = (s, refl, refl, q, calm, p)
  run_ready-Turned (suc n) [] s calm p q distinct = (s, refl, rw q refl, q, calm, p)
  run_ready-Turned (suc n) (x ∷ []) s calm p q distinct =
      let (s₁, run, f, p₁) = turns s x [] p calm.status q in
      let none_left = drop-nil n in
      (
        s₁,
        rw (q, take-nil n) (rw run refl),
        rw q (
            rw run (
              after_turn-last resume (run_ready resume n (last (x ∷ []))) s₁ f.status (==_refl x))),
        f.ready ∙ sym none_left,
        Finishes-IsCalm s s₁ [] calm f,
        p₁,
      )
  run_ready-Turned (suc n) (x ∷ y ∷ ys) s calm p q distinct =
      let (s₁, run, f, p₁) = turns s x (y ∷ ys) p calm.status q in
      let (s₂, each, runs, queue₂, calm₂, p₂) =
        run_ready-Turned n (y ∷ ys) s₁ (Finishes-IsCalm s s₁ (y ∷ ys) calm f) p₁ f.ready
          distinct.1 in
      (
        s₂,
        rw q (rw run each),
        rw q (
            rw run (
              after_turn-next resume (run_ready resume n (last (x ∷ y ∷ ys))) s₁ f.status
                (last-cons_ne x y ys distinct.0)
              ∙ runs)),
        queue₂,
        calm₂,
        p₂,
      )

  probe-Calm :
      (n : ℕ) (now : ℕ → ℕ) (s : Schedule T) → IsCalm tree s → probe_expired tree n now s ≡ some s
  unfolding probe_expired get_expired
  probe-Calm zero now s calm = rw (probe_expired, get_expired, calm.min) refl
  probe-Calm (suc n) now s calm = rw (probe_expired, get_expired, calm.min) refl

  urgent-Calm : (s : Schedule T) → IsCalm tree s → urgent_phase resume s ≡ some (s, continues)
  unfolding urgent_phase run_urgent
  urgent-Calm s calm =
      rw calm.urgent_ready
        (ap (λ q. some (record s { urgent_ready = q }, continues)) calm.urgent_ready)

  epoll-Calm : (now : ℕ) (s : Schedule T) → IsCalm tree s → epoll_timeout tree now s ≡ none
  unfolding epoll_timeout
  epoll-Calm now s calm = rw (epoll_timeout, calm.waits, calm.entries) refl

  event-Calm :
      (round : Round) (s : Schedule T)
      → IsCalm tree s
      → event_phase tree resume round s ≡ some (s, continues)
  unfolding event_phase
  event-Calm round s calm = rw (event_phase, epoll-Calm round.waited_at s calm) refl

  -- One round is one phase C.
  pub run_round-Calm :
      (round : Round) (s : Schedule T)
      → IsCalm tree s
      → P s
      → IsDistinct s.ready
      → (s' : Schedule T) × (resume_each resume (take urgent_max_wait s.ready) s ≡ some s')
        × (run_round tree resume round s ≡ some (s', continues))
        × (s'.ready ≡ drop urgent_max_wait s.ready)
        × IsCalm tree s'
        × P s'
  unfolding run_round then_phase ready_phase Turned
  run_round-Calm round s calm p distinct =
      let (s', each, run, queue, calm', p') =
        run_ready-Turned urgent_max_wait s.ready s calm p refl distinct in
      (
        s',
        each,
        rw (probe-Calm _ round.probed_at s calm, urgent-Calm s calm, run)
            (event-Calm round s' calm'),
        queue,
        calm',
        p',
      )
