-- ===== src/Schedule/Expiry.antt =====
-- Phase A: which sleepers wake, in which order, and into which queue.
use dyco_coroutine.Base.{
  ℕ, zero, suc, ◌≤◌, ◌≡◌, ◌≢◌, refl, sym, ap, subst, ◌∙◌, inl, inr, true, false, Option, none, some,
  List, [], ◌∷◌, ◌++◌, length, leb, ◌==◌, if◌then◌else◌, arith, Bool-cases, All, ==_iff, ==_refl,
}
use mathlib.Core.List.{append-nil}
use dyco_coroutine.Status.{sleeping, expired}
use dyco_coroutine.Schedule.Tree.{Sleeper, SleepTree, Laws, remove_co, removed, first_co}
use dyco_coroutine.Schedule.{
  Schedule, get_expired, probe_expired, diff_usecs, mem, is_queued, set_flag, clear_flag,
}
use dyco_coroutine.Schedule.Wake.{
  rouse, wake, make_ready-wake, wake-coroutines, wake-sleeping, wake-urged, wake-plain,
}
use dyco_coroutine.Schedule.Due.{
  next_reading, All-due, IsFit, cos, due, later, mem-cos_apart, wake-IsFit, wake-with_urgency,
  with_urgency,
}

-- Phase A at the times `k`, relative to the birth of the scheduler, over the nodes of the tree.
pub record Probed {T : Type 0} (tree : SleepTree T) (k : ℕ → ℕ) (s : Schedule T) (es : List Sleeper)
    (s' : Schedule T) : Type 0 where
  pub left : tree.entries s'.sleeping ≡ later k es
  pub plain : s'.ready ≡ s.ready ++ with_urgency s false (due k es)
  pub urged : s'.urgent_ready ≡ s.urgent_ready ++ with_urgency s true (due k es)
  pub awake :
      (c : ℕ)
      → s'.coroutines c
        ≡ (if mem c (cos (due k es)) then rouse (s.coroutines c) else s.coroutines c)

module _ {T : Type 0} (tree : SleepTree T) (laws : Laws tree) where
  abbrev Probes : (ℕ → ℕ) → Schedule T → List Sleeper → Option (Schedule T) → Type 0
  Probes k s es o = (s' : Schedule T) × (o ≡ some s') × Probed tree k s es s'

  Probed-wake :
      (k : ℕ → ℕ) (s : Schedule T) (e : Sleeper) (es : List Sleeper) (t : T) (s' : Schedule T)
      → leb e.key (k 0) ≡ true
      → All (λ x. x.co ≢ e.co) es
      → Probed tree (next_reading k) (wake s e.co t) es s'
      → Probed tree k s (e ∷ es) s'
  unfolding due later with_urgency cos
  Probed-wake k s e es t s' now apart p = record {
    left = rw now p.left;
    plain = rw now (
        p.plain
        ∙ ap (◌++◌ (wake s e.co t).ready) (
            wake-with_urgency s e.co t false (due (next_reading k) es)
              (All-due (λ x. x.co ≢ e.co) (next_reading k) es apart))
        ∙ wake-plain s e.co t (with_urgency s false (due (next_reading k) es)));
    urged = rw now (
        p.urged
        ∙ ap (◌++◌ (wake s e.co t).urgent_ready) (
            wake-with_urgency s e.co t true (due (next_reading k) es)
              (All-due (λ x. x.co ≢ e.co) (next_reading k) es apart))
        ∙ wake-urged s e.co t (with_urgency s true (due (next_reading k) es)));
    awake = λ c.
        p.awake c
        ∙ rw now (elim (Bool-cases (c == e.co)) [
          | inl here ↦
              let same : c ≡ e.co = (==_iff c e.co).0 here in
              let gone : mem c (cos (due (next_reading k) es)) ≡ false =
                ap (λ x. mem x (cos (due (next_reading k) es))) same
                ∙ mem-cos_apart e.co (due (next_reading k) es)
                    (All-due (λ x. x.co ≢ e.co) (next_reading k) es apart) in
              rw (wake-coroutines s e.co t c, here, gone)
                (ap (λ x. rouse (s.coroutines x)) (sym same))
          | inr other ↦ rw (wake-coroutines s e.co t c, other) refl
        ]);
  }

  abbrev IsLate : (ℕ → ℕ) → List Sleeper → Type 0
  IsLate k [] = Unit
  IsLate k (e ∷ es) = leb e.key (k 0) ≡ false

  Probed-late :
      (k : ℕ → ℕ) (s : Schedule T) (es : List Sleeper)
      → tree.entries s.sleeping ≡ es
      → IsLate k es
      → Probed tree k s es s
  unfolding due later with_urgency cos
  Probed-late k s [] entries late = record {
    left = entries;
    plain = sym (append-nil s.ready);
    urged = sym (append-nil s.urgent_ready);
    awake = λ c. refl;
  }
  Probed-late k s (e ∷ es) entries late = record {
    left = rw late entries;
    plain = rw late (sym (append-nil s.ready));
    urged = rw late (sym (append-nil s.urgent_ready));
    awake = λ c. rw late refl;
  }

  get_expired-late :
      (now : ℕ) (s : Schedule T) (es : List Sleeper)
      → tree.entries s.sleeping ≡ es
      → IsFit s es
      → IsLate (λ i. diff_usecs s.birth now) es
      → get_expired tree now s ≡ some (none, s)
  unfolding get_expired first_co IsFit
  get_expired-late now s [] entries fit late =
      rw (get_expired, laws.min-first s.sleeping, entries) refl
  get_expired-late now s (e ∷ es) entries fit late =
      rw (get_expired, laws.min-first s.sleeping, entries, fit.0, late) refl

  probe_expired-late :
      (n : ℕ) (now : ℕ → ℕ) (s : Schedule T)
      → get_expired tree (now 0) s ≡ some (none, s)
      → probe_expired tree n now s ≡ some s
  unfolding probe_expired
  probe_expired-late zero now s h = rw h refl
  probe_expired-late (suc n) now s h = rw h refl

  pub get_expired-first :
      (now : ℕ) (s : Schedule T) (e : Sleeper) (es : List Sleeper)
      → tree.entries s.sleeping ≡ e ∷ es
      → (s.coroutines e.co).sleep_usecs ≡ e.key
      → leb e.key (diff_usecs s.birth now) ≡ true
      → (t : T) × (tree.entries t ≡ es)
        × (get_expired tree now s
            ≡ some (
              some e.co,
              set_flag (clear_flag (record s { sleeping = t }) e.co sleeping) e.co expired,
            ))
  unfolding get_expired first_co remove_co
  get_expired-first now s e es entries key early =
      let (t, removal, same) = removed tree es (tree.remove s.sleeping e.co) (
        laws.remove-entries s.sleeping e.co
        ∙ ap (remove_co e.co) entries
        ∙ rw (==_refl e.co) refl) in
      (t, same, rw (get_expired, laws.min-first s.sleeping, entries, key, early, removal) refl)

  probe_expired-first :
      (n : ℕ) (now : ℕ → ℕ) (s : Schedule T) (e : Sleeper) (es : List Sleeper)
      → tree.entries s.sleeping ≡ e ∷ es
      → (s.coroutines e.co).sleep_usecs ≡ e.key
      → leb e.key (diff_usecs s.birth (now 0)) ≡ true
      → is_queued s e.co ≡ false
      → (t : T) × (tree.entries t ≡ es)
        × (probe_expired tree (suc n) now s
            ≡ probe_expired tree n (next_reading now) (wake s e.co t))
  unfolding probe_expired wake
  probe_expired-first n now s e es entries key early free =
      let (t, same, run) = get_expired-first (now 0) s e es entries key early in
      let ready_again = make_ready-wake (record s { sleeping = t }) e.co free in
      (t, same, rw (run, ready_again) refl)

  now-IsLate :
      (k : ℕ → ℕ) (now : ℕ) (es : List Sleeper) → now ≡ k 0 → IsLate k es → IsLate (λ i. now) es
  now-IsLate k now [] time late = tt
  now-IsLate k now (e ∷ es) time late = rw time late

  Probes-late :
      (n : ℕ) (now k : ℕ → ℕ) (s : Schedule T) (es : List Sleeper)
      → ((i : ℕ) → diff_usecs s.birth (now i) ≡ k i)
      → tree.entries s.sleeping ≡ es
      → IsFit s es
      → IsLate k es
      → Probes k s es (probe_expired tree n now s)
  Probes-late n now k s es time entries fit late = (
    s,
    probe_expired-late n now s (
        get_expired-late (now 0) s es entries fit
          (now-IsLate k (diff_usecs s.birth (now 0)) es (time 0) late)),
    Probed-late k s es entries late,
  )

  -- Where the keys of the tree are those of its coroutines and none of them is in a queue or twice
  -- in the tree, phase A ends within as many rounds as there are due sleepers, each of which reads
  -- the clock anew: a sleeper is due if its key and those before it have come by the readings of
  -- their rounds. The due sleepers leave the tree in the order of their keys, each for the end of
  -- the queue of its urgency, with the flags READY and EXPIRED and without SLEEPING; no other
  -- coroutine changes.
  pub probe_expired-Probed :
      (n : ℕ) (now k : ℕ → ℕ) (s : Schedule T) (es : List Sleeper)
      → ((i : ℕ) → diff_usecs s.birth (now i) ≡ k i)
      → tree.entries s.sleeping ≡ es
      → IsFit s es
      → length (due k es) ≤ n
      → (s' : Schedule T) × (probe_expired tree n now s ≡ some s') × Probed tree k s es s'
  unfolding IsFit due
  probe_expired-Probed n now k s [] time entries fit enough =
      Probes-late n now k s [] time entries fit tt
  probe_expired-Probed zero now k s (e ∷ es) time entries fit enough =
      elim (Bool-cases (leb e.key (k 0))) [
        | inr late ↦ Probes-late zero now k s (e ∷ es) time entries fit late
        | inl early ↦
            (let more : suc (length (due (next_reading k) es)) ≤ 0 =
                subst (λ b. length (if b then e ∷ due (next_reading k) es else []) ≤ 0) early
                  enough in
              absurd (omega arith))
      ]
  probe_expired-Probed (suc n) now k s (e ∷ es) time entries fit enough =
      elim (Bool-cases (leb e.key (k 0))) [
        | inr late ↦ Probes-late (suc n) now k s (e ∷ es) time entries fit late
        | inl early ↦
            let more : suc (length (due (next_reading k) es)) ≤ suc n =
              subst (λ b. length (if b then e ∷ due (next_reading k) es else []) ≤ suc n) early
                enough in
            let (key, free, apart, rest) = fit in
            let (t, same, run) =
              probe_expired-first n now s e es entries key (rw (time 0) early) free in
            let (asleep, born) = wake-sleeping s e.co t in
            let (s', run', p) =
              probe_expired-Probed n (next_reading now) (next_reading k) (wake s e.co t) es
                (λ i. ap (λ b. diff_usecs b (now (suc i))) born ∙ time (suc i))
                (ap (λ r. tree.entries r) asleep ∙ same) (wake-IsFit s e.co t es apart rest)
                (omega arith) in
            (s', run ∙ run', Probed-wake k s e es t s' early apart p)
      ]
