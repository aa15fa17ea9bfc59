-- ===== src/Schedule/Robbed.antt =====
-- A sleep whose coroutine has, from its last sleep, the key of another sleeper.
use dyco_coroutine.Base.{
  ℕ, suc, ◌+◌, ◌^◌, ◌≤◌, ◌≡◌, ◌≢◌, refl, sym, ap, subst, ◌∙◌, inl, inr, Bool, true, false, ◌||◌,
  Option, none, some, List, [], ◌∷◌, length, ltb, ◌==◌, arith, pos, Bool-cases, All, ne→==, ==_iff,
  OnSome, OnSome-bind,
}
use mathlib.Core.Option.{some-injective, none-ne-some}
use dyco_coroutine.Status.{sleeping, testbit}
use dyco_coroutine.Schedule.Tree.{
  Sleeper, SleepTree, Laws, find_key, insert_key, remove_co, map_entries,
}
use dyco_coroutine.Schedule.{
  Schedule, sched_sleep, cancel_sleep, diff_usecs, usecs_of, mem, has_flag,
}
use dyco_coroutine.Schedule.Fall.{Forgets, kept, dropped, sched_sleep-Asleep}
use dyco_coroutine.Schedule.Due.{cos}
use dyco_coroutine.Schedule.Fifo.{IsDistinct}

or_false : (a b : Bool) → (a || b) ≡ false → (a ≡ false) × (b ≡ false)
or_false false b h = (refl, h)
or_false true b h = absurd (ground arith)

apart-mem : (c : ℕ) (xs : List ℕ) → All (λ y. c ≢ y) xs → mem c xs ≡ false
apart-mem c [] apart = refl
apart-mem c (x ∷ xs) (other, apart) = rw (ne→== c x other, apart-mem c xs apart) refl

remove_co-gone :
    (c : ℕ) (es : List Sleeper)
    → IsDistinct (cos es)
    → OnSome (λ es'. mem c (cos es') ≡ false) (remove_co c es)
unfolding remove_co cos IsDistinct
remove_co-gone c [] distinct = tt
remove_co-gone c (e ∷ es) (apart, distinct) = elim (Bool-cases (c == e.co)) [
  | inl here ↦
      let same : c ≡ e.co = (==_iff c e.co).0 here in
      rw here (ap (λ x. mem x (cos es)) same ∙ apart-mem e.co (cos es) apart)
  | inr later ↦ rw later (
      OnSome-bind (λ es'. mem c (cos es') ≡ false) (λ es'. mem c (cos es') ≡ false) (remove_co c es)
        _ (remove_co-gone c es distinct) (λ es' gone. rw (later, gone) refl))
]

Forgets-gone :
    {k other : ℕ} {es es' : List Sleeper}
    → Forgets k es es'
    → find_key k es ≡ some other
    → IsDistinct (cos es)
    → mem other (cos es') ≡ false
Forgets-gone {other = other} (kept absent) present distinct =
    absurd (none-ne-some other (sym absent ∙ present))
Forgets-gone {other = other} {es = es} {es' = es'} (dropped c found run) present distinct =
    let same : c ≡ other = some-injective c other (sym found ∙ present) in
    subst (λ x. mem x (cos es') ≡ false) same
      (subst (OnSome (λ r. mem c (cos r) ≡ false)) run (remove_co-gone c es distinct))

insert_key-absent :
    (c : ℕ) (x : Sleeper) (es : List Sleeper)
    → c ≢ x.co
    → mem c (cos es) ≡ false
    → mem c (cos (insert_key x es)) ≡ false
unfolding insert_key cos
insert_key-absent c x [] other gone = rw (ne→== c x.co other) refl
insert_key-absent c x (e ∷ es) other gone = elim (Bool-cases (ltb x.key e.key)) [
  | inl before ↦ rw (before, ne→== c x.co other) gone
  | inr behind ↦
      let (differs, rest) = or_false (c == e.co) (mem c (cos es)) gone in
      rw (behind, differs) (insert_key-absent c x es other rest)
]

absent-remove_co : (c : ℕ) (es : List Sleeper) → mem c (cos es) ≡ false → remove_co c es ≡ none
unfolding cos remove_co
absent-remove_co c [] gone = refl
absent-remove_co c (e ∷ es) gone =
    let (differs, rest) = or_false (c == e.co) (mem c (cos es)) gone in
    rw (differs, absent-remove_co c es rest) refl

module _ {T : Type 0} (tree : SleepTree T) (laws : Laws tree) where
  refused_removal : (o : Option T) → map_entries tree o ≡ none → o ≡ none
  unfolding map_entries
  refused_removal none h = refl
  refused_removal (some t) h = absurd (none-ne-some _ (sym h))

  cancel_sleep-absent :
      (s : Schedule T) (c : ℕ)
      → has_flag s c sleeping ≡ true
      → mem c (cos (tree.entries s.sleeping)) ≡ false
      → cancel_sleep tree s c ≡ none
  unfolding cancel_sleep
  cancel_sleep-absent s c flag gone =
      let failure =
        refused_removal (tree.remove s.sleeping c)
          (laws.remove-entries s.sleeping c ∙ absent-remove_co c (tree.entries s.sleeping) gone) in
      rw (cancel_sleep, flag, failure) refl

  -- If another sleeper, which is in the tree once, has the key of the coroutine's last sleep, then
  -- a sleep of the coroutine takes the other one out of the tree but leaves it marked as asleep:
  -- it has no timeout any more, and to cancel its sleep is undefined.
  pub sched_sleep-robs :
      (now : ℕ) (s : Schedule T) (co other msecs : ℕ)
      → diff_usecs s.birth now + usecs_of (suc msecs) + suc (length (tree.entries s.sleeping))
        ≤ 2 ^ 64
      → find_key (s.coroutines co).sleep_usecs (tree.entries s.sleeping) ≡ some other
      → other ≢ co
      → IsDistinct (cos (tree.entries s.sleeping))
      → has_flag s other sleeping ≡ true
      → (s' : Schedule T) × (sched_sleep tree now s co (pos (suc msecs)) ≡ some s')
        × (mem other (cos (tree.entries s'.sleeping)) ≡ false)
        × (cancel_sleep tree s' other ≡ none)
  sched_sleep-robs now s co other msecs fits same_key differs distinct flag =
      let (t, forgets, (s', run, a)) = sched_sleep-Asleep tree laws now s co msecs fits in
      let gone : mem other (cos (tree.entries s'.sleeping)) ≡ false =
        ap (λ es. mem other (cos es)) a.slept.stored
        ∙ insert_key-absent other _ (tree.entries t) differs
            (Forgets-gone forgets same_key distinct) in
      let marked : has_flag s' other sleeping ≡ true =
        ap (λ c. testbit c.status sleeping) (a.others other differs) ∙ flag in
      (s', run, gone, cancel_sleep-absent s' other marked gone)
