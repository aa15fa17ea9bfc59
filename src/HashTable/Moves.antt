-- ===== src/HashTable/Moves.antt =====
-- The loops of htable_resize that move entries to a new array.
use dyco_coroutine.Base.{
  ℕ, ◌+◌, ◌≤◌, ◌<◌, ◌≡◌, refl, ◌∙◌, ◌≢◌, ◌⊎◌, Bool, true, Option, some, List, [], ◌∷◌, ◌++◌, arith,
  ◌==◌, if◌then◌else◌, to_nat, All, inl, inr, Bool-cases, length, set, length-set, get_elem?-get_or,
  get_or-set, All-get_or, All-set, bit_and, bit_and-le, ◌>>=◌,
}
use dyco_coroutine.HashTable.{Entry, Bucket, no_id, empty_bucket}
use dyco_coroutine.HashTable.Growth.{head, place_bucket, place, move_chain, move_head, move_all}
use dyco_coroutine.HashTable.Entries.{
  entries, lookup, occurrences, occurrences-zero, IsTidy, place-IsTidy, occurrences-place,
  lookup-place,
}
use dyco_coroutine.HashTable.Array.{
  bucket_at, all_entries, occurrences-append, lookup-append, occurrences-set, empty_bucket-IsTidy,
  or_found,
}

module _ {V : Type 0} where
  -- `bs'` is `bs` with the entries `es` added, each in the bucket of its id.
  pub record Moved (mask : ℕ) (es : List (Entry V)) (bs bs' : List (Bucket V)) : Type 0 where
    pub sized : length bs' ≡ length bs
    pub tidy : All IsTidy bs'
    pub whole :
        (q : ℕ)
        → occurrences q (all_entries bs') ≡ occurrences q (all_entries bs) + occurrences q es
    pub home :
        (q : ℕ)
        → occurrences q (entries (bucket_at bs' (bit_and q mask)))
          ≡ occurrences q (entries (bucket_at bs (bit_and q mask))) + occurrences q es
    pub reads :
        (q : ℕ)
        → occurrences q (entries (bucket_at bs (bit_and q mask))) + occurrences q es ≤ 1
        → lookup q (entries (bucket_at bs' (bit_and q mask)))
          ≡ or_found (lookup q (entries (bucket_at bs (bit_and q mask)))) (lookup q es)

  abbrev pub Moves : ℕ → List (Entry V) → List (Bucket V) → Option (List (Bucket V)) → Type 0
  Moves mask es bs r = (bs' : List (Bucket V)) × (r ≡ some bs') × Moved mask es bs bs'

  Moved-nil : (mask : ℕ) (bs : List (Bucket V)) → All IsTidy bs → Moved mask [] bs bs
  unfolding occurrences lookup
  Moved-nil mask bs t = record {
    sized = refl;
    tidy = t;
    whole = λ q. omega arith;
    home = λ q. omega arith;
    reads = λ q h. ground arith;
  }

  Moved-append :
      (mask : ℕ) (xs ys : List (Entry V)) (bs₀ bs₁ bs₂ : List (Bucket V))
      → Moved mask xs bs₀ bs₁
      → Moved mask ys bs₁ bs₂
      → Moved mask (xs ++ ys) bs₀ bs₂
  Moved-append mask xs ys bs₀ bs₁ bs₂ m n = record {
    sized = n.sized ∙ m.sized;
    tidy = n.tidy;
    whole = λ q. omega (arith, m.whole q, n.whole q, occurrences-append q xs ys);
    home = λ q. omega (arith, m.home q, n.home q, occurrences-append q xs ys);
    reads = λ q h.
        let sum = occurrences-append q xs ys in
        rw (lookup-append, n.reads q (omega (arith, m.home q)), m.reads q (omega arith))
          (ground arith);
  }

  module _ (mask : ℕ) (e : Entry V) (bs : List (Bucket V)) (room : mask < length bs)
      (t : All IsTidy bs) (h : e.id ≢ no_id) where
    placed : List (Bucket V)
    placed = set bs (bit_and e.id mask) (place_bucket e (bucket_at bs (bit_and e.id mask)))

    target-IsTidy : IsTidy (bucket_at bs (bit_and e.id mask))
    target-IsTidy = All-get_or IsTidy bs (bit_and e.id mask) empty_bucket empty_bucket-IsTidy t

    placed-at :
        (q : ℕ)
        → bucket_at placed (bit_and q mask) ≡ (
            if bit_and q mask == bit_and e.id mask
            then place_bucket e (bucket_at bs (bit_and q mask))
            else bucket_at bs (bit_and q mask))
    unfolding placed
    placed-at q =
        let below : bit_and e.id mask < length bs = omega (arith, bit_and-le e.id mask) in
        rw
          (get_or-set bs (bit_and e.id mask) (bit_and q mask) (place_bucket e _) empty_bucket below)
          (ground arith)

    placed-whole :
        (q : ℕ)
        → occurrences q (all_entries placed) ≡ occurrences q (all_entries bs) + to_nat (e.id == q)
    unfolding placed
    placed-whole q =
        let below : bit_and e.id mask < length bs = omega (arith, bit_and-le e.id mask) in
        omega (
          arith,
          occurrences-set q bs (bit_and e.id mask)
              (place_bucket e (bucket_at bs (bit_and e.id mask))) below,
          occurrences-place e (bucket_at bs (bit_and e.id mask)) q h target-IsTidy,
        )

    -- A key's bucket is the one written to, or the key is another one than the entry's.
    placed-home :
        (q : ℕ)
        → ((bucket_at placed (bit_and q mask) ≡ place_bucket e (bucket_at bs (bit_and q mask)))
            × (IsTidy (bucket_at bs (bit_and q mask))))
          ⊎ ((bucket_at placed (bit_and q mask) ≡ bucket_at bs (bit_and q mask)) × (e.id ≢ q))
    placed-home q = elim (Bool-cases (bit_and q mask == bit_and e.id mask)) [
      | inl k ↦ inl (
        ground (arith, placed-at q),
        All-get_or IsTidy bs (bit_and q mask) empty_bucket empty_bucket-IsTidy t,
      )
      | inr k ↦ inr (ground (arith, placed-at q), λ same. ground arith)
    ]

    placed-Moved : Moved mask (e ∷ []) bs placed
    unfolding occurrences lookup
    placed-Moved = record {
      sized = unfold placed in length-set bs _ _;
      tidy = unfold placed in All-set IsTidy bs _ _ (place-IsTidy e _ h target-IsTidy) t;
      whole = λ q. omega (arith, placed-whole q);
      home = λ q. elim (placed-home q) [
        | inl (same, tidy) ↦ rw same (omega (arith, occurrences-place e _ q h tidy))
        | inr (same, other) ↦ rw same (ground arith)
      ];
      reads = λ q k. elim (placed-home q) [
        | inl (same, tidy) ↦ rw same (
            ground (
              arith,
              lookup-place e (bucket_at bs (bit_and q mask)) q h tidy (ground arith),
              occurrences-zero q (entries (bucket_at bs (bit_and q mask))),
            ))
        | inr (same, other) ↦ rw same (ground arith)
      ];
    }

  place-Moves :
      (mask : ℕ) (e : Entry V) (bs : List (Bucket V))
      → mask < length bs
      → All IsTidy bs
      → e.id ≢ no_id
      → Moves mask (e ∷ []) bs (place mask e bs)
  unfolding place placed
  place-Moves mask e bs room t h = (
    placed mask e bs room t h,
    rw (get_elem?-get_or bs (bit_and e.id mask) empty_bucket (omega (arith, bit_and-le e.id mask))),
    placed-Moved mask e bs room t h,
  )

  move_chain-Moves :
      (mask : ℕ) (es : List (Entry V)) (bs : List (Bucket V))
      → mask < length bs
      → All IsTidy bs
      → All (λ e. e.id ≢ no_id) es
      → Moves mask es bs (move_chain mask es bs)
  unfolding move_chain
  move_chain-Moves mask [] bs room t h = (bs, refl, Moved-nil mask bs t)
  move_chain-Moves mask (e ∷ es) bs room t h =
      let (bs₁, run₁, m₁) = place-Moves mask e bs room t h.0 in
      let (bs₂, run₂, m₂) = move_chain-Moves mask es bs₁ (omega (arith, m₁.sized)) m₁.tidy h.1 in
      (bs₂, rw run₁ run₂, Moved-append mask (e ∷ []) es bs bs₁ bs₂ m₁ m₂)

  move_chain-cons :
      (mask : ℕ) (e : Entry V) (es : List (Entry V)) (bs : List (Bucket V))
      → (place mask e bs >>= move_chain mask es) ≡ move_chain mask (e ∷ es) bs
  unfolding move_chain
  move_chain-cons mask e es bs = refl

  move_head-place :
      (mask : ℕ) (e : Entry V) (bs : List (Bucket V))
      → mask < length bs
      → move_head mask true e bs ≡ place mask e bs
  unfolding move_head
  move_head-place mask e bs room =
      let below : bit_and e.id mask < length bs = omega (arith, bit_and-le e.id mask) in
      rw (get_elem?-get_or bs (bit_and e.id mask) empty_bucket below) (ground arith)

  -- With memory for every head, the loops of a resize place every entry of the old array.
  pub move_all-Moves :
      (mask : ℕ) (moved : ℕ → Bool) (i : ℕ) (old bs : List (Bucket V))
      → ((j : ℕ) → moved j ≡ true)
      → mask < length bs
      → All IsTidy old
      → All IsTidy bs
      → Moves mask (all_entries old) bs (move_all mask moved i old bs)
  unfolding move_all all_entries
  move_all-Moves mask moved i [] bs memory room t u = (bs, refl, Moved-nil mask bs u)
  move_all-Moves mask moved i (b ∷ old) bs memory room t u = elim (Bool-cases (b.id == no_id)) [
    | inl k ↦ rw k (move_all-Moves mask moved (i + 1) old bs memory room t.1 u)
    | inr k ↦
        let (bs₁, run₁, m₁) =
          move_chain-Moves mask (head b ∷ b.next) bs room u (ground arith, t.0.marked) in
        let (bs₂, run₂, m₂) =
          move_all-Moves mask moved (i + 1) old bs₁ memory (omega (arith, m₁.sized)) t.1 m₁.tidy in
        rw (k, memory i, move_head-place mask (head b) bs room)
          (
            bs₂,
            rw (move_chain-cons mask (head b) b.next bs ∙ run₁) run₂,
            Moved-append mask (head b ∷ b.next) (all_entries old) bs bs₁ bs₂ m₁ m₂,
          )
  ]
