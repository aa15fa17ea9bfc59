-- ===== src/Schedule/Fall.antt =====
-- `schedule_sched_sleep` as a whole.
use dyco_coroutine.Base.{
  ℕ, suc, ◌+◌, ◌%◌, ◌^◌, ◌≤◌, ◌≡◌, ◌≢◌, refl, sym, subst, ◌∙◌, inl, inr, true, false, none, some,
  List, [], ◌∷◌, length, ◌==◌, if◌then◌else◌, ◌>>=◌, arith, pos, Bool-cases, Option-cases, ==_refl,
  ne→==,
}
use mathlib.Core.Option.{some-injective, none-ne-some}
use dyco_coroutine.Status.{sleeping, expired, testbit, setbit, clrbit}
use dyco_coroutine.Status.Flags.{testbit-setbit, testbit-clrbit}
use dyco_coroutine.Schedule.Tree.{Sleeper, SleepTree, Laws, find_key, remove_co, removed}
use dyco_coroutine.Schedule.{
  Schedule, forget_sleep, begin_sleep, sched_sleep, fall_asleep, diff_usecs, usecs_of, has_flag,
}
use dyco_coroutine.Schedule.Sleep.{Slept, count_from-length, insert_sleep-Rests}

-- What `RB_FIND` by a key and `RB_REMOVE` of what it found leave.
pub data Forgets (k : ℕ) (es : List Sleeper) : List Sleeper → Type 0 where
  kept : find_key k es ≡ none → Forgets k es es
  dropped :
      {es' : List Sleeper} (other : ℕ)
      → find_key k es ≡ some other
      → remove_co other es ≡ some es'
      → Forgets k es es'

find_key-remove_co :
    (k co : ℕ) (es : List Sleeper)
    → find_key k es ≡ some co
    → (es' : List Sleeper) × (remove_co co es ≡ some es')
unfolding find_key remove_co
find_key-remove_co k co [] h = absurd (ground arith)
find_key-remove_co k co (e ∷ es) h = elim (Bool-cases (co == e.co)) [
  | inl here ↦ (es, rw here refl)
  | inr other ↦ elim (Bool-cases (k == e.key)) [
    | inl same ↦ absurd (
        let e =
          some-injective e.co co
            (subst (λ b. (if b then some e.co else find_key k es) ≡ some co) same h) in
        ground arith)
    | inr later ↦
        let (es', run) =
          find_key-remove_co k co es
            (subst (λ b. (if b then some e.co else find_key k es) ≡ some co) later h) in
        (e ∷ es', rw (other, run) refl)
  ]
]

remove_co-length :
    (co : ℕ) (es es' : List Sleeper) → remove_co co es ≡ some es' → length es' ≤ length es
unfolding remove_co
remove_co-length co [] es' h = absurd (ground arith)
remove_co-length co (e ∷ es) es' h = elim (Bool-cases (co == e.co)) [
  | inl here ↦
      let h' : some es ≡ some es' =
        subst (λ b. (if b then some es else (remove_co co es >>= λ es₁. some (e ∷ es₁))) ≡ some es')
          here h in
      let same = some-injective es es' h' in rw (sym same) (omega arith)
  | inr other ↦
      let h' : (remove_co co es >>= λ es₁. some (e ∷ es₁)) ≡ some es' =
        subst (λ b. (if b then some es else (remove_co co es >>= λ es₁. some (e ∷ es₁))) ≡ some es')
          other h in
      elim (Option-cases (remove_co co es)) [
        | inl absent ↦
            absurd
              (none-ne-some _ (subst (λ o. (o >>= λ es₁. some (e ∷ es₁)) ≡ some es') absent h'))
        | inr (es₁, run) ↦
            let shorter = remove_co-length co es es₁ run in
            let same =
              some-injective (e ∷ es₁) es'
                (subst (λ o. (o >>= λ es₁. some (e ∷ es₁)) ≡ some es') run h') in
            rw (sym same) (omega arith)
      ]
]

Forgets-length : {k : ℕ} {es es' : List Sleeper} → Forgets k es es' → length es' ≤ length es
Forgets-length (kept absent) = omega arith
Forgets-length {es = es} {es' = es'} (dropped other present run) = remove_co-length other es es' run

module _ {T : Type 0} (tree : SleepTree T) where
  -- The state after a coroutine went to sleep at its key.
  pub record Asleep (now : ℕ) (s : Schedule T) (co msecs : ℕ) (t : T) (s' : Schedule T)
      : Type 0 where
    pub slept :
        Slept tree t
          (diff_usecs s.birth now + usecs_of msecs)
          (suc (length (tree.entries t)))
          co
          s'.sleeping
          (s'.coroutines co).sleep_usecs
    pub asleep : has_flag s' co sleeping ≡ true
    pub fresh : has_flag s' co expired ≡ false
    pub others : (c : ℕ) → c ≢ co → s'.coroutines c ≡ s.coroutines c
    pub queues : (s'.ready ≡ s.ready) × (s'.urgent_ready ≡ s.urgent_ready)

  module _ (laws : Laws tree) where
    pub forget_sleep-Forgets :
        (s : Schedule T) (co : ℕ)
        → (t : T) × (forget_sleep tree s co ≡ some t)
          × Forgets (s.coroutines co).sleep_usecs (tree.entries s.sleeping) (tree.entries t)
    unfolding forget_sleep
    forget_sleep-Forgets s co =
        let k = (s.coroutines co).sleep_usecs in
        let es = tree.entries s.sleeping in
        elim (Option-cases (find_key k es)) [
          | inl absent ↦
              (s.sleeping, rw (forget_sleep, laws.find-key s.sleeping k, absent) refl, kept absent)
          | inr (other, present) ↦
              let (es', run) = find_key-remove_co k other es present in
              let (t, removal, same) =
                removed tree es' (tree.remove s.sleeping other)
                  (laws.remove-entries s.sleeping other ∙ run) in
              (
                t,
                rw (forget_sleep, laws.find-key s.sleeping k, present) removal,
                rw same (dropped other present run),
              )
        ]

    sleeping_set : (w : ℕ) → testbit (clrbit (setbit w sleeping) expired) sleeping ≡ true
    sleeping_set w =
        testbit-clrbit (setbit w sleeping) expired sleeping (omega arith) (omega arith)
        ∙ testbit-setbit w sleeping sleeping

    expired_cleared : (w : ℕ) → testbit (clrbit (setbit w sleeping) expired) expired ≡ false
    expired_cleared w =
        testbit-clrbit (setbit w sleeping) expired expired (omega arith) (omega arith)

    begin_sleep-Asleep :
        (now : ℕ) (s : Schedule T) (co msecs : ℕ) (t : T)
        → diff_usecs s.birth now + usecs_of msecs + suc (length (tree.entries t)) ≤ 2 ^ 64
        → (s' : Schedule T) × (begin_sleep tree now s co t msecs ≡ some s')
          × Asleep now s co msecs t s'
    unfolding begin_sleep
    begin_sleep-Asleep now s co msecs t fits =
        let start = diff_usecs s.birth now + usecs_of msecs in
        let (t', k, run, slept) =
          insert_sleep-Rests tree laws t co (suc (length (tree.entries t))) start
            (omega (arith, count_from-length start (tree.entries t))) fits in
        let exact : start % 2 ^ 64 ≡ start = omega arith in
        (
          fall_asleep s co t' k,
          rw (begin_sleep, exact, run) refl,
          record {
            slept = rw (==_refl co) slept;
            asleep = rw (==_refl co) (sleeping_set (s.coroutines co).status);
            fresh = rw (==_refl co) (expired_cleared (s.coroutines co).status);
            others = λ c different. rw (ne→== c co different) refl;
            queues = (refl, refl);
          },
        )

    -- A sleep of a positive time, where no key can overflow, takes out of the tree what has the key
    -- of the coroutine's last sleep, and succeeds: the coroutine is in the tree at the first free
    -- key from its due time on and marked as asleep; the queues and the others are as they were.
    pub sched_sleep-Asleep :
        (now : ℕ) (s : Schedule T) (co msecs : ℕ)
        → diff_usecs s.birth now + usecs_of (suc msecs) + suc (length (tree.entries s.sleeping))
          ≤ 2 ^ 64
        → (t : T) × Forgets (s.coroutines co).sleep_usecs (tree.entries s.sleeping) (tree.entries t)
          × ((s' : Schedule T) × (sched_sleep tree now s co (pos (suc msecs)) ≡ some s')
              × Asleep now s co (suc msecs) t s')
    unfolding sched_sleep
    sched_sleep-Asleep now s co msecs fits =
        let (t, run, forgets) = forget_sleep-Forgets s co in
        let (s', run', a) =
          begin_sleep-Asleep now s co (suc msecs) t (omega (arith, Forgets-length forgets)) in
        (t, forgets, (s', rw (sched_sleep, run) run', a))
