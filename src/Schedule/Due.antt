-- ===== src/Schedule/Due.antt =====
-- Which sleepers are due, and that the wake-up of one leaves the others fit to wake.
use dyco_coroutine.Base.{
  ℕ, suc, ◌≡◌, ◌≢◌, refl, sym, ap, ◌∙◌, inl, inr, Bool, true, false, List, [], ◌∷◌, leb,
  if◌then◌else◌, Bool-cases, All, ne→==,
}
use dyco_coroutine.Status.{urgent, testbit}
use dyco_coroutine.Schedule.Tree.{Sleeper}
use dyco_coroutine.Schedule.{Schedule, has_flag, mem, is_queued}
use dyco_coroutine.Schedule.Wake.{wake, wake-others, wake-free}

-- One time later, in the readings of a clock.
abbrev pub next_reading : (ℕ → ℕ) → ℕ → ℕ
next_reading k i = k (suc i)

-- The sleepers that are due, from the earliest on, each at the reading of its turn, and those that
-- sleep on.
unfoldable pub due : (ℕ → ℕ) → List Sleeper → List Sleeper
due k [] = []
due k (e ∷ es) = if leb e.key (k 0) then e ∷ due (next_reading k) es else []

unfoldable pub later : (ℕ → ℕ) → List Sleeper → List Sleeper
later k [] = []
later k (e ∷ es) = if leb e.key (k 0) then later (next_reading k) es else e ∷ es

unfoldable pub cos : List Sleeper → List ℕ
cos [] = []
cos (e ∷ es) = e.co ∷ cos es

pub All-due : (P : Sleeper → Type 0) (k : ℕ → ℕ) (es : List Sleeper) → All P es → All P (due k es)
unfolding due
All-due P k [] all = tt
All-due P k (e ∷ es) (here, all) = elim (Bool-cases (leb e.key (k 0))) [
  | inl now ↦ rw now (here, All-due P (next_reading k) es all)
  | inr not_yet ↦ rw not_yet tt
]

pub mem-cos_apart : (co : ℕ) (es : List Sleeper) → All (λ x. x.co ≢ co) es → mem co (cos es) ≡ false
unfolding cos
mem-cos_apart co [] apart = refl
mem-cos_apart co (e ∷ es) (other, apart) =
    rw (ne→== co e.co (λ same. other (sym same)), mem-cos_apart co es apart) refl

module _ {T : Type 0} where
  -- Those of the coroutines whose URGENT flag is as asked.
  unfoldable pub with_urgency : Schedule T → Bool → List Sleeper → List ℕ
  unfolding testbit
  with_urgency s u [] = []
  with_urgency s true (e ∷ es) =
      if has_flag s e.co urgent then e.co ∷ with_urgency s true es else with_urgency s true es
  with_urgency s false (e ∷ es) =
      if has_flag s e.co urgent then with_urgency s false es else e.co ∷ with_urgency s false es

  -- The keys in the tree are those of the coroutines, none of which is in a queue or twice in the
  -- tree.
  unfoldable pub IsFit : Schedule T → List Sleeper → Type 0
  IsFit s [] = Unit
  IsFit s (e ∷ es) =
      ((s.coroutines e.co).sleep_usecs ≡ e.key)
      × (is_queued s e.co ≡ false)
      × All (λ x. x.co ≢ e.co) es
      × IsFit s es

  pub wake-IsFit :
      (s : Schedule T) (co : ℕ) (t : T) (es : List Sleeper)
      → All (λ x. x.co ≢ co) es
      → IsFit s es
      → IsFit (wake s co t) es
  unfolding IsFit
  wake-IsFit s co t [] apart fit = tt
  wake-IsFit s co t (e ∷ es) (other, apart) (key, free, distinct, fit) = (
    ap (λ c. c.sleep_usecs) (wake-others s co t e.co other) ∙ key,
    wake-free s co t e.co other free,
    distinct,
    wake-IsFit s co t es apart fit,
  )

  pub wake-with_urgency :
      (s : Schedule T) (co : ℕ) (t : T) (u : Bool) (es : List Sleeper)
      → All (λ x. x.co ≢ co) es
      → with_urgency (wake s co t) u es ≡ with_urgency s u es
  unfolding with_urgency
  wake-with_urgency s co t u [] apart = refl
  wake-with_urgency s co t true (e ∷ es) (other, apart) =
      rw (wake-others s co t e.co other, wake-with_urgency s co t true es apart) refl
  wake-with_urgency s co t false (e ∷ es) (other, apart) =
      rw (wake-others s co t e.co other, wake-with_urgency s co t false es apart) refl
