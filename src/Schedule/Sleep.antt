-- ===== src/Schedule/Sleep.antt =====
-- Sleeping: the loop that looks for a free key, and what it leaves in the tree.
use dyco_coroutine.Base.{
  ℕ, zero, suc, ◌+◌, ◌%◌, ◌^◌, ◌≤◌, ◌<◌, ◌≡◌, ◌≢◌, refl, subst, ◌⊎◌, inl, inr, Option, none, some,
  List, [], ◌∷◌, length, leb, ◌==◌, if◌then◌else◌, arith, to_nat, Bool-cases, ==_iff,
}
use dyco_coroutine.Schedule.Tree.{
  Sleeper, SleepTree, Laws, Inserts, found, added, find_key, insert_key,
}
use dyco_coroutine.Schedule.{insert_sleep}

-- How many nodes have at least a key.
pub count_from : ℕ → List Sleeper → ℕ
count_from k [] = 0
count_from k (e ∷ es) = to_nat (leb k e.key) + count_from k es

count_from-suc_le : (k : ℕ) (es : List Sleeper) → count_from (k + 1) es ≤ count_from k es
unfolding count_from
count_from-suc_le k [] = omega arith
count_from-suc_le k (e ∷ es) = ground (arith, count_from-suc_le k es)

taken-count_from :
    (k co : ℕ) (es : List Sleeper)
    → find_key k es ≡ some co
    → count_from (k + 1) es < count_from k es
unfolding count_from find_key
taken-count_from k co [] h = absurd (ground arith)
taken-count_from k co (e ∷ es) h = elim (Bool-cases (k == e.key)) [
  | inl same ↦ ground (arith, count_from-suc_le k es)
  | inr other ↦ ground (
    arith,
    taken-count_from k co es
        (subst (λ b. (if b then some e.co else find_key k es) ≡ some co) other h),
  )
]

pub count_from-length : (k : ℕ) (es : List Sleeper) → count_from k es ≤ length es
unfolding count_from
count_from-length k [] = omega arith
count_from-length k (e ∷ es) = ground (arith, count_from-length k es)

-- The first key from `start` on that no node has, within `n` keys, and the tree with the coroutine
-- there.
pub record Slept {T : Type 0} (tree : SleepTree T) (t : T) (start n co : ℕ) (t' : T) (k : ℕ)
    : Type 0 where
  pub late : start ≤ k
  pub near : k < start + n
  pub free : find_key k (tree.entries t) ≡ none
  pub taken : (j : ℕ) → start ≤ j → j < k → find_key j (tree.entries t) ≢ none
  pub stored : tree.entries t' ≡ insert_key (record { key = k; co = co }) (tree.entries t)

module _ {T : Type 0} (tree : SleepTree T) (laws : Laws tree) (t : T) (co : ℕ) where
  abbrev Rests : ℕ → ℕ → Option (T × ℕ) → Type 0
  Rests start n o = (t' : T) × (k : ℕ) × (o ≡ some (t', k)) × Slept tree t start n co t' k

  insert-Rests :
      (n key : ℕ) (r : T ⊎ ℕ)
      → Inserts tree t (record { key = key; co = co }) r
      → ((other : ℕ)
          → find_key key (tree.entries t) ≡ some other
          → Rests (key + 1) n (insert_sleep tree n t ((key + 1) % 2 ^ 64) co))
      → Rests key (suc n) (elim r [
        | inl t' ↦ some (t', key)
        | inr other ↦ insert_sleep tree n t ((key + 1) % 2 ^ 64) co
      ])
  insert-Rests n key (inr other) (found taken) next =
      let (t', k, run, s) = next other taken in
      (
        t',
        k,
        run,
        record {
          late = omega (arith, s.late);
          near = omega (arith, s.near);
          free = s.free;
          taken = λ j lo hi. elim (Bool-cases (j == key)) [
            | inl same ↦
                (λ absent. let e = (==_iff j key).0 same in ground (arith, e, absent, taken))
            | inr later ↦ s.taken j (ground arith) hi
          ];
          stored = s.stored;
        },
      )
  insert-Rests n key (inl t') (added free stored) next = (
    t',
    key,
    refl,
    record {
      late = omega arith;
      near = omega arith;
      free = free;
      taken = λ j lo hi. absurd (omega arith);
      stored = stored;
    },
  )

  pub insert_sleep-Rests :
      (n key : ℕ)
      → count_from key (tree.entries t) < n
      → key + n ≤ 2 ^ 64
      → Rests key n (insert_sleep tree n t key co)
  unfolding insert_sleep
  insert_sleep-Rests zero key small fits = absurd (omega arith)
  insert_sleep-Rests (suc n) key small fits =
      insert-Rests n key (tree.insert t key co) (laws.insert-Inserts t key co) (λ other h.
        let fewer = taken-count_from key other (tree.entries t) h in
        let same : (key + 1) % 2 ^ 64 ≡ key + 1 = omega arith in
        rw same (insert_sleep-Rests n (key + 1) (omega arith) (omega arith)))
