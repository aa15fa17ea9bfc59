-- ===== src/Schedule/Fifo.antt =====
-- Phase C: which coroutines of the ready queue run, and in which order.
use dyco_coroutine.Base.{
  ℕ, zero, suc, ◌≡◌, ◌≢◌, refl, sym, subst, ◌∙◌, inl, inr, Bool, true, false, Option, some, List,
  [], ◌∷◌, ◌++◌, take, ◌>>=◌, arith, Option-cases, All, ne→==, ==_refl, OnSome,
}
use mathlib.Core.List.{append_assoc, append-nil}
use dyco_coroutine.Status.{ready}
use dyco_coroutine.Schedule.{Schedule, clear_flag}
use dyco_coroutine.Schedule.Run.{
  run_ready, ready_phase, last, is_last, Phase, continues, after_resume, after_turn,
  urgent_max_wait,
}

unfoldable pub IsDistinct : List ℕ → Type 0
IsDistinct [] = Unit
IsDistinct (x ∷ xs) = All (λ y. x ≢ y) xs × IsDistinct xs

abbrev pub tail_of : List ℕ → List ℕ
tail_of [] = []
tail_of (x ∷ xs) = xs

-- A turn of a coroutine ends with the scheduler still running, and has only appended to the queue.
pub record Appends {T : Type 0} (s s' : Schedule T) : Type 0 where
  pub added : List ℕ
  pub ready : s'.ready ≡ s.ready ++ added
  pub status : after_resume s'.status ≡ continues

pub take-nil : (n : ℕ) → take {A = ℕ} n [] ≡ []
take-nil zero = refl
take-nil (suc n) = refl

pub last-cons_ne :
    (x y : ℕ) (ys : List ℕ) → All (λ z. x ≢ z) (y ∷ ys) → is_last (last (y ∷ ys)) x ≡ false
last-cons_ne x y [] (ne, rest) = ne→== x y ne
last-cons_ne x y (z ∷ ys) (ne, rest) = last-cons_ne x z ys rest

module _ {T : Type 0} (resume : Schedule T → ℕ → Option (Schedule T)) where
  -- The coroutines are taken from the queue and resumed, one after the other.
  unfoldable pub resume_each : List ℕ → Schedule T → Option (Schedule T)
  resume_each [] s = some s
  resume_each (co ∷ cos) s =
      resume (clear_flag (record s { ready = tail_of s.ready }) co ready) co >>= resume_each cos

  pub after_turn-last :
      {at_last : Bool} (next : Schedule T → Option (Schedule T × Phase)) (s : Schedule T)
      → after_resume s.status ≡ continues
      → at_last ≡ true
      → after_turn at_last next s ≡ some (s, continues)
  unfolding after_turn
  after_turn-last next s goes is_it = rw (after_turn, goes, is_it) refl

  pub after_turn-next :
      {at_last : Bool} (next : Schedule T → Option (Schedule T × Phase)) (s : Schedule T)
      → after_resume s.status ≡ continues
      → at_last ≡ false
      → after_turn at_last next s ≡ next s
  unfolding after_turn
  after_turn-next next s goes is_not = rw (after_turn, goes, is_not) refl

  run_turns :
      (turns : (s : Schedule T) (co : ℕ)
        → after_resume s.status ≡ continues
        → OnSome (Appends s) (resume s co))
      (n : ℕ) (queue added : List ℕ) (s : Schedule T)
      → after_resume s.status ≡ continues
      → s.ready ≡ queue ++ added
      → IsDistinct queue
      → (queue ≡ [] → added ≡ [])
      → run_ready resume n (last queue) s
        ≡ (resume_each (take n queue) s >>= λ s'. some (s', continues))
  unfolding run_ready resume_each IsDistinct
  run_turns turns zero queue added s goes q distinct empty = refl
  run_turns turns (suc n) [] added s goes q distinct empty =
      let e : s.ready ≡ [] = q ∙ empty refl in rw e refl
  run_turns turns (suc n) (x ∷ []) added s goes q distinct empty =
      rw q (elim (Option-cases (resume (clear_flag (record s { ready = added }) x ready) x)) [
        | inl fails ↦ rw fails refl
        | inr (s', run) ↦
            let a =
              subst (OnSome (Appends (clear_flag (record s { ready = added }) x ready))) run
                (turns _ x goes) in
            rw run (
              after_turn-last (run_ready resume n (last (x ∷ []))) s' a.status (==_refl x)
              ∙ rw (take-nil n) refl)
      ])
  run_turns turns (suc n) (x ∷ y ∷ ys) added s goes q distinct empty =
      rw q
        (elim (Option-cases
          (resume (clear_flag (record s { ready = y ∷ ys ++ added }) x ready) x)) [
            | inl fails ↦ rw fails refl
            | inr (s', run) ↦
                let a =
                  subst
                    (OnSome (Appends (clear_flag (record s { ready = y ∷ ys ++ added }) x ready)))
                    run (turns _ x goes) in
                rw run (
                  after_turn-next (run_ready resume n (last (x ∷ y ∷ ys))) s' a.status
                    (last-cons_ne x y ys distinct.0)
                  ∙ (run_turns turns n (y ∷ ys) (added ++ a.added) s' a.status
                      (a.ready ∙ append_assoc (y ∷ ys) added a.added) distinct.1
                      (λ nil. absurd (ground arith))))
          ])

  -- Where turns only append to the queue and leave the scheduler running, and the queue has no
  -- coroutine twice, phase C resumes the coroutines that are in it at the start, in its order and at
  -- most 128 of them, and none that joins behind them.
  pub ready_phase-resume_each :
      (turns : (s : Schedule T) (co : ℕ)
        → after_resume s.status ≡ continues
        → OnSome (Appends s) (resume s co))
      (s : Schedule T)
      → after_resume s.status ≡ continues
      → IsDistinct s.ready
      → ready_phase resume s
        ≡ (resume_each (take urgent_max_wait s.ready) s >>= λ s'. some (s', continues))
  unfolding ready_phase
  ready_phase-resume_each turns s goes distinct =
      run_turns turns urgent_max_wait s.ready [] s goes (sym (append-nil s.ready)) distinct
        (λ e. refl)
