-- ===== src/HashTable/Resize.antt =====
-- htable_resize: the table that it leaves, and what its initialisation loop does to the new array.
use native.Mathlib.Nat.{one-le-pow}
use dyco_coroutine.Base.{
  ℕ, zero, suc, ◌+◌, ◌-◌, ◌^◌, ◌≤◌, ◌≡◌, refl, ◌≢◌, ◌||◌, true, false, Option, some, List, ◌∷◌,
  arith, ltb, ◌==◌, All, length, replicate, length-replicate, bit_and, pos,
}
use dyco_coroutine.HashTable.{Bucket, Table, max_width, empty_bucket, zeroed_bucket, slot}
use dyco_coroutine.HashTable.Growth.{Alloc, mark_empty, fresh_buckets, resize}
use dyco_coroutine.HashTable.Entries.{entries, lookup, occurrences, occurrences-zero, IsTidy}
use dyco_coroutine.HashTable.Array.{
  bucket_at, all_entries, occurrences-at-le, lookup-at, empty_bucket-IsTidy,
}
use dyco_coroutine.HashTable.Moves.{move_all-Moves}

zeroed-IsTidy : (V : Type 0) (n : ℕ) → All IsTidy (replicate n (zeroed_bucket {V = V}))
zeroed-IsTidy V zero = tt
zeroed-IsTidy V (suc n) = (record { unchained = λ _. refl; marked = tt }, zeroed-IsTidy V n)

zeroed-occurrences :
    (V : Type 0) (n q : ℕ)
    → q ≢ 0
    → occurrences q (all_entries (replicate n (zeroed_bucket {V = V}))) ≡ 0
unfolding all_entries occurrences
zeroed-occurrences V zero q h = refl
zeroed-occurrences V (suc n) q h = ground (arith, zeroed-occurrences V n q h)

module _ {V : Type 0} where
  -- The array has one bucket for each masked id, and its buckets are tidy.
  pub record IsSized (t : Table V) : Type 0 where
    pub power : t.mask + 1 ≡ 2 ^ t.width
    pub full : length t.buckets ≡ t.mask + 1
    pub tidy : All IsTidy t.buckets

  -- All entries under the id stand in its own bucket, and there is at most one.
  pub record IsPlaced (q : ℕ) (t : Table V) : Type 0 where
    pub once : occurrences q (all_entries t.buckets) ≤ 1
    pub home :
        occurrences q (all_entries t.buckets)
        ≡ occurrences q (entries (bucket_at t.buckets (slot t q)))

  -- The table as a partial map from ids to pointers.
  abbrev pub view : Table V → ℕ → Option (Option V)
  view t q = lookup q (entries (bucket_at t.buckets (slot t q)))

  -- The loop writes the first bucket only.
  pub fresh_buckets-suc :
      (n : ℕ) → fresh_buckets (suc n) ≡ empty_bucket {V = V} ∷ replicate n zeroed_bucket
  unfolding fresh_buckets mark_empty
  fresh_buckets-suc n = go n (replicate n zeroed_bucket)
    where
      go : (m : ℕ) (bs : List (Bucket V)) → mark_empty m (empty_bucket ∷ bs) ≡ empty_bucket ∷ bs
      go zero bs = refl
      go (suc m) bs = go m bs

  record IsFresh (size : ℕ) (bs : List (Bucket V)) : Type 0 where
    sized : length bs ≡ size
    tidy : All IsTidy bs
    void : (q : ℕ) → q ≢ 0 → occurrences q (all_entries bs) ≡ 0

  IsFresh-at :
      {size : ℕ} {bs : List (Bucket V)}
      → IsFresh size bs
      → (q i : ℕ) → q ≢ 0
      → occurrences q (entries (bucket_at bs i)) ≡ 0
  IsFresh-at {bs = bs} f q i h = omega (arith, f.void q h, occurrences-at-le q bs i)

  fresh_buckets-IsFresh : (n : ℕ) → IsFresh (suc n) (fresh_buckets {V = V} (suc n))
  unfolding all_entries
  fresh_buckets-IsFresh n = rw (fresh_buckets-suc n) (record {
    sized = omega (arith, length-replicate n (zeroed_bucket {V = V}));
    tidy = (empty_bucket-IsTidy, zeroed-IsTidy V n);
    void = λ q h. zeroed-occurrences V n q h;
  })

  pow-IsFresh : (w : ℕ) → IsFresh (2 ^ w) (fresh_buckets {V = V} (2 ^ w))
  pow-IsFresh w =
      let e : 2 ^ w ≡ suc (2 ^ w - 1) = omega (arith, one-le-pow w 2 (omega arith)) in
      rw e (fresh_buckets-IsFresh (2 ^ w - 1))

  -- What a successful resize leaves: a sized table of the new width, in which every id but 0 is
  -- placed as before and has the value that it had.
  pub record Resized (t : Table V) (w : ℕ) (t' : Table V) : Type 0 where
    pub width : t'.width ≡ w
    pub count : t'.count ≡ t.count
    pub sized : IsSized t'
    pub placed : (q : ℕ) → q ≢ 0 → IsPlaced q t → IsPlaced q t'
    pub reads : (q : ℕ) → q ≢ 0 → IsPlaced q t → view t' q ≡ view t q
    pub whole :
        (q : ℕ)
        → occurrences q (all_entries t'.buckets)
          ≡ occurrences q (all_entries (fresh_buckets {V = V} (2 ^ w)))
            + occurrences q (all_entries t.buckets)
    pub home :
        (q : ℕ)
        → occurrences q (entries (bucket_at t'.buckets (slot t' q)))
          ≡ occurrences q (entries (bucket_at (fresh_buckets {V = V} (2 ^ w)) (slot t' q)))
            + occurrences q (all_entries t.buckets)

  -- With memory, to another width within the limit, a resize succeeds and leaves such a table.
  pub resize-Resized :
      (alloc : Alloc) (t : Table V) (width : ℕ)
      → alloc.table ≡ true
      → ((i : ℕ) → alloc.moved i ≡ true)
      → width ≢ t.width
      → width ≤ max_width
      → IsSized t
      → (t' : Table V) × (resize alloc t width ≡ some (t', pos 0)) × Resized t width t'
  unfolding resize
  resize-Resized alloc t width memory moved other small s =
      let fresh = pow-IsFresh width in
      let p = one-le-pow width 2 (omega arith) in
      let guards : (width == t.width || ltb max_width width) ≡ false = ground arith in
      let (bs, run, m) =
        move_all-Moves (2 ^ width - 1) alloc.moved 0 t.buckets (fresh_buckets (2 ^ width)) moved
          (omega (arith, fresh.sized)) s.tidy fresh.tidy in
      (
        record { width = width; mask = 2 ^ width - 1; count = t.count; buckets = bs },
        rw (guards, memory, run),
        record {
          width = refl;
          count = refl;
          sized = record {
            power = omega arith;
            full = omega (arith, fresh.sized, m.sized);
            tidy = m.tidy;
          };
          placed = λ q h k. record {
            once = omega (arith, m.whole q, fresh.void q h, k.once);
            home = omega (
              arith,
              m.whole q,
              m.home q,
              fresh.void q h,
              IsFresh-at fresh q (bit_and q (2 ^ width - 1)) h,
              k.once,
            );
          };
          reads = λ q h k.
              rw
                (
                  m.reads q
                      (omega (arith, IsFresh-at fresh q (bit_and q (2 ^ width - 1)) h, k.once)),
                  occurrences-zero q _ (IsFresh-at fresh q (bit_and q (2 ^ width - 1)) h),
                )
                (lookup-at q t.buckets (slot t q) k.home);
          whole = m.whole;
          home = m.home;
        },
      )
