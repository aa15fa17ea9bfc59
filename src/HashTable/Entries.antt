-- ===== src/HashTable/Entries.antt =====
-- One bucket as the list of its entries, and what each write to it does to a lookup.
use dyco_coroutine.Base.{
  ℕ, ◌+◌, ◌≤◌, ◌≡◌, refl, ◌≢◌, Bool, true, false, Option, none, some, List, [], ◌∷◌, arith, ◌==◌,
  if◌then◌else◌, to_nat, All, inl, inr, Bool-cases,
}
use dyco_coroutine.HashTable.{
  Entry, Bucket, no_id, find_chain, find_bucket, contains_chain, contains_bucket, erase_chain,
  drop_head,
}
use dyco_coroutine.HashTable.Growth.{head, place_bucket, assign_chain}

module _ {V : Type 0} where
  abbrev pub entries : Bucket V → List (Entry V)
  entries b = if b.id == no_id then [] else head b ∷ b.next

  -- The value of the first entry under an id: `none` where there is no such entry.
  unfoldable pub lookup : ℕ → List (Entry V) → Option (Option V)
  lookup q [] = none
  lookup q (e ∷ es) = if e.id == q then some e.value else lookup q es

  unfoldable pub occurrences : ℕ → List (Entry V) → ℕ
  occurrences q [] = 0
  occurrences q (e ∷ es) = to_nat (e.id == q) + occurrences q es

  -- An empty bucket has no chain, and no chain has an entry that would mark its bucket empty.
  pub record IsTidy (b : Bucket V) : Type 0 where
    pub unchained : b.id ≡ no_id → b.next ≡ []
    pub marked : All (λ e. e.id ≢ no_id) b.next

  abbrev pub or_null : Option (Option V) → Option V
  or_null none = none
  or_null (some v) = v

  abbrev pub is_found : Option (Option V) → Bool
  is_found none = false
  is_found (some v) = true

  pub find_chain-lookup : (q : ℕ) (es : List (Entry V)) → find_chain q es ≡ or_null (lookup q es)
  unfolding find_chain lookup
  find_chain-lookup q [] = refl
  find_chain-lookup q (e ∷ es) = ground (arith, find_chain-lookup q es)

  pub find_bucket-lookup : (q : ℕ) (b : Bucket V) → find_bucket q b ≡ or_null (lookup q (entries b))
  unfolding find_bucket lookup
  find_bucket-lookup q b = ground (arith, find_chain-lookup q b.next)

  pub contains_chain-lookup :
      (q : ℕ) (es : List (Entry V)) → contains_chain q es ≡ is_found (lookup q es)
  unfolding contains_chain lookup
  contains_chain-lookup q [] = refl
  contains_chain-lookup q (e ∷ es) = ground (arith, contains_chain-lookup q es)

  pub contains_bucket-lookup :
      (q : ℕ) (b : Bucket V) → contains_bucket q b ≡ is_found (lookup q (entries b))
  unfolding contains_bucket lookup
  contains_bucket-lookup q b = ground (arith, contains_chain-lookup q b.next)

  pub occurrences-zero : (q : ℕ) (es : List (Entry V)) → occurrences q es ≡ 0 → lookup q es ≡ none
  unfolding lookup occurrences
  occurrences-zero q [] h = refl
  occurrences-zero q (e ∷ es) h = ground (arith, occurrences-zero q es)

  pub lookup-none : (q : ℕ) (es : List (Entry V)) → lookup q es ≡ none → occurrences q es ≡ 0
  unfolding lookup occurrences
  lookup-none q [] h = refl
  lookup-none q (e ∷ es) h = ground (arith, lookup-none q es)

  pub lookup-assign :
      (id q : ℕ) (v : Option V) (es : List (Entry V))
      → contains_chain id es ≡ true
      → lookup q (assign_chain id v es) ≡ (if q == id then some v else lookup q es)
  unfolding lookup assign_chain contains_chain
  lookup-assign id q v [] h = cc
  lookup-assign id q v (e ∷ es) h = ground (arith, lookup-assign id q v es)

  pub occurrences-assign :
      (id q : ℕ) (v : Option V) (es : List (Entry V))
      → occurrences q (assign_chain id v es) ≡ occurrences q es
  unfolding occurrences assign_chain
  occurrences-assign id q v [] = refl
  occurrences-assign id q v (e ∷ es) = ground (arith, occurrences-assign id q v es)

  pub assign-marked :
      (id : ℕ) (v : Option V) (es : List (Entry V))
      → All (λ e. e.id ≢ no_id) es
      → All (λ e. e.id ≢ no_id) (assign_chain id v es)
  unfolding assign_chain
  assign-marked id v [] h = tt
  assign-marked id v (e ∷ es) h = ground (arith, assign-marked id v es h.1)

  pub lookup-erase :
      (id q : ℕ) (es : List (Entry V))
      → occurrences q es ≤ 1
      → lookup q (erase_chain id es) ≡ (if q == id then none else lookup q es)
  unfolding lookup erase_chain occurrences
  lookup-erase id q [] h = ground arith
  lookup-erase id q (e ∷ es) h = ground (arith, lookup-erase id q es, occurrences-zero q es)

  pub occurrences-erase :
      (id q : ℕ) (es : List (Entry V)) → occurrences q (erase_chain id es) ≤ occurrences q es
  unfolding occurrences erase_chain
  occurrences-erase id q [] = omega arith
  occurrences-erase id q (e ∷ es) = ground (arith, occurrences-erase id q es)

  pub erase_others :
      (id q : ℕ) (es : List (Entry V))
      → q ≢ id
      → (occurrences q (erase_chain id es) ≡ occurrences q es)
        × (lookup q (erase_chain id es) ≡ lookup q es)
  unfolding occurrences lookup erase_chain
  erase_others id q [] h = (refl, refl)
  erase_others id q (e ∷ es) h = ground (arith, erase_others id q es h)

  pub erase-marked :
      (id : ℕ) (es : List (Entry V))
      → All (λ e. e.id ≢ no_id) es
      → All (λ e. e.id ≢ no_id) (erase_chain id es)
  unfolding erase_chain
  erase-marked id [] h = tt
  erase-marked id (e ∷ es) h = ground (arith, erase-marked id es h.1)

  pub drop_head-entries :
      (b : Bucket V) (es : List (Entry V))
      → b.next ≡ es
      → All (λ e. e.id ≢ no_id) es
      → entries (drop_head b es) ≡ es
  unfolding drop_head
  drop_head-entries b [] n h = ground arith
  drop_head-entries b (e ∷ es) n h = ground arith

  pub drop_head-IsTidy :
      (b : Bucket V) (es : List (Entry V))
      → b.next ≡ es
      → All (λ e. e.id ≢ no_id) es
      → IsTidy (drop_head b es)
  unfolding drop_head
  drop_head-IsTidy b [] n h = record { unchained = λ _. n; marked = ground arith }
  drop_head-IsTidy b (e ∷ es) n h = record { unchained = λ k. absurd (h.0 k); marked = h.1 }

  -- The effect of placing a node that a resize moves.
  pub place-IsTidy :
      (e : Entry V) (b : Bucket V) → e.id ≢ no_id → IsTidy b → IsTidy (place_bucket e b)
  unfolding place_bucket
  place-IsTidy e b h t = elim (Bool-cases (b.id == no_id)) [
    | inl k ↦ rw k (record { unchained = λ j. absurd (h j); marked = t.marked })
    | inr k ↦ rw k (record { unchained = λ j. ground arith; marked = (h, t.marked) })
  ]

  pub occurrences-place :
      (e : Entry V) (b : Bucket V) (q : ℕ)
      → e.id ≢ no_id
      → IsTidy b
      → occurrences q (entries (place_bucket e b)) ≡ to_nat (e.id == q) + occurrences q (entries b)
  unfolding place_bucket occurrences
  occurrences-place e b q h t = ground (arith, t.unchained)

  pub lookup-place :
      (e : Entry V) (b : Bucket V) (q : ℕ)
      → e.id ≢ no_id
      → IsTidy b
      → (e.id ≡ q → occurrences q (entries b) ≡ 0)
      → lookup q (entries (place_bucket e b))
        ≡ (if e.id == q then some e.value else lookup q (entries b))
  unfolding place_bucket lookup occurrences
  lookup-place e b q h t absent = ground (arith, t.unchained)
