-- ===== src/HashTable/Phantom.antt =====
-- The entries with id 0 that the loop of htable_resize leaves in a new array.
use native.Mathlib.Nat.{one-le-pow, two-pow-succ}
use native.Mathlib.Numerals.{add-one}
use dyco_coroutine.Base.{
  ℕ, zero, suc, ◌+◌, ◌-◌, ◌^◌, ◌≤◌, ◌<◌, ◌≡◌, refl, true, some, List, arith, replicate, pos, ◌∙◌,
  ap,
}
use dyco_coroutine.HashTable.{Entry, Table, max_width, zeroed_bucket, contains}
use dyco_coroutine.HashTable.Growth.{Alloc, fresh_buckets, resize}
use dyco_coroutine.HashTable.Entries.{lookup, occurrences, is_found, lookup-none}
use dyco_coroutine.HashTable.Array.{all_entries}
use dyco_coroutine.HashTable.Resize.{IsSized, resize-Resized, fresh_buckets-suc}
use dyco_coroutine.HashTable.Methods.{HasMemory, contains-view}

zeroed-phantoms :
    (V : Type 0) (n : ℕ) → occurrences 0 (all_entries (replicate n (zeroed_bucket {V = V}))) ≡ n
unfolding all_entries occurrences
zeroed-phantoms V zero = refl
zeroed-phantoms V (suc n) = omega (arith, zeroed-phantoms V n)

fresh-phantoms :
    (V : Type 0) (n : ℕ) → occurrences 0 (all_entries (fresh_buckets {V = V} (suc n))) ≡ n
unfolding all_entries
fresh-phantoms V n = rw (fresh_buckets-suc {V = V} n) (zeroed-phantoms V n)

pow-phantoms :
    (V : Type 0) (w : ℕ) → occurrences 0 (all_entries (fresh_buckets {V = V} (2 ^ w))) ≡ 2 ^ w - 1
pow-phantoms V w =
    let e : 2 ^ w ≡ suc (2 ^ w - 1) = omega (arith, one-le-pow w 2 (omega arith)) in
    rw e (fresh-phantoms V (2 ^ w - 1) ∙ omega arith)

module _ {V : Type 0} where
  found-of-occurrences :
      (q : ℕ) (es : List (Entry V)) → 0 < occurrences q es → is_found (lookup q es) ≡ true
  found-of-occurrences q es h = ground (arith, lookup-none q es)

  -- A table that grew twice claims to contain id 0, whatever was in it.
  pub resize_twice-contains :
      (alloc : Alloc) (t : Table V)
      → HasMemory alloc
      → IsSized t
      → t.width + 2 ≤ max_width
      → (t₁ t₂ : Table V) × (resize alloc t (t.width + 1) ≡ some (t₁, pos 0))
        × (resize alloc t₁ (t.width + 2) ≡ some (t₂, pos 0))
        × (t₂.count ≡ t.count)
        × (contains t₂ 0 ≡ some true)
  resize_twice-contains alloc t memory s small =
      let (t₁, run₁, r₁) =
        resize-Resized alloc t (t.width + 1) memory.table memory.moved (omega arith) (omega arith)
          s in
      let (t₂, run₂, r₂) =
        resize-Resized alloc t₁ (t.width + 2) memory.table memory.moved (omega (arith, r₁.width))
          (omega arith) r₁.sized in
      let phantoms = pow-phantoms V (t.width + 1) in
      let wide : 2 ≤ 2 ^ (t.width + 1) =
        rw (add-one t.width, two-pow-succ t.width)
          (omega (arith, one-le-pow t.width 2 (omega arith))) in
      (
        t₁,
        t₂,
        run₁,
        run₂,
        r₂.count ∙ r₁.count,
        contains-view t₂ 0 r₂.sized
            ∙ ap some
                (found-of-occurrences 0 _ (omega (arith, r₂.home 0, r₁.whole 0, phantoms, wide))),
      )
