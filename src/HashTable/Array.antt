-- ===== src/HashTable/Array.antt =====
-- The bucket array as one list of entries.
use dyco_coroutine.Base.{
  ℕ, zero, suc, ◌+◌, ◌≤◌, ◌<◌, ◌≡◌, refl, Option, none, some, List, [], ◌∷◌, ◌++◌, arith, length,
  get_or, set,
}
use dyco_coroutine.HashTable.{Entry, Bucket, empty_bucket}
use dyco_coroutine.HashTable.Entries.{entries, lookup, occurrences, occurrences-zero, IsTidy}

module _ {V : Type 0} where
  abbrev pub bucket_at : List (Bucket V) → ℕ → Bucket V
  bucket_at bs i = get_or bs i empty_bucket

  unfoldable pub all_entries : List (Bucket V) → List (Entry V)
  all_entries [] = []
  all_entries (b ∷ bs) = entries b ++ all_entries bs

  abbrev pub or_found : Option (Option V) → Option (Option V) → Option (Option V)
  or_found none r = r
  or_found (some v) r = some v

  pub occurrences-append :
      (q : ℕ) (xs ys : List (Entry V))
      → occurrences q (xs ++ ys) ≡ occurrences q xs + occurrences q ys
  unfolding occurrences
  occurrences-append q [] ys = omega arith
  occurrences-append q (x ∷ xs) ys = omega (arith, occurrences-append q xs ys)

  pub lookup-append :
      (q : ℕ) (xs ys : List (Entry V)) → lookup q (xs ++ ys) ≡ or_found (lookup q xs) (lookup q ys)
  unfolding lookup
  lookup-append q [] ys = refl
  lookup-append q (x ∷ xs) ys = ground (arith, lookup-append q xs ys)

  -- Replacing a bucket changes the whole by the difference of the two.
  pub occurrences-set :
      (q : ℕ) (bs : List (Bucket V)) (i : ℕ) (b : Bucket V)
      → i < length bs
      → occurrences q (all_entries (set bs i b)) + occurrences q (entries (bucket_at bs i))
        ≡ occurrences q (all_entries bs) + occurrences q (entries b)
  unfolding all_entries
  occurrences-set q [] i b h = absurd (omega arith)
  occurrences-set q (x ∷ bs) zero b h = omega (
    arith,
    occurrences-append q (entries b) (all_entries bs),
    occurrences-append q (entries x) (all_entries bs),
  )
  occurrences-set q (x ∷ bs) (suc i) b h = omega (
    arith,
    occurrences-append q (entries x) (all_entries (set bs i b)),
    occurrences-append q (entries x) (all_entries bs),
    occurrences-set q bs i b (omega arith),
  )

  pub occurrences-at-le :
      (q : ℕ) (bs : List (Bucket V)) (i : ℕ)
      → occurrences q (entries (bucket_at bs i)) ≤ occurrences q (all_entries bs)
  unfolding all_entries occurrences
  occurrences-at-le q [] i = omega arith
  occurrences-at-le q (x ∷ bs) zero = rw occurrences-append (omega arith)
  occurrences-at-le q (x ∷ bs) (suc i) =
      rw occurrences-append (omega (arith, occurrences-at-le q bs i))

  -- Where every entry of a key stands in one bucket, that bucket answers for the whole array.
  pub lookup-at :
      (q : ℕ) (bs : List (Bucket V)) (i : ℕ)
      → occurrences q (all_entries bs) ≡ occurrences q (entries (bucket_at bs i))
      → lookup q (all_entries bs) ≡ lookup q (entries (bucket_at bs i))
  unfolding all_entries
  lookup-at q [] i h = refl
  lookup-at q (x ∷ bs) zero h =
      let none_left =
        occurrences-zero q (all_entries bs)
          (omega (arith, occurrences-append q (entries x) (all_entries bs))) in
      rw (lookup-append, none_left) (ground arith)
  lookup-at q (x ∷ bs) (suc i) h =
      let sum = occurrences-append q (entries x) (all_entries bs) in
      let below = occurrences-at-le q bs i in
      rw (lookup-append, occurrences-zero q (entries x) (omega arith))
        (lookup-at q bs i (omega arith))

  pub empty_bucket-IsTidy : IsTidy (empty_bucket {V = V})
  empty_bucket-IsTidy = record { unchained = λ _. refl; marked = tt }
