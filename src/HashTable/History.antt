-- ===== src/HashTable/History.antt =====
-- Every history of inserts and deletes against a partial map.
use dyco_coroutine.Base.{
  ℕ, ◌<◌, ◌≡◌, refl, ◌∙◌, ◌≢◌, Option, none, some, arith, ◌==◌, if◌then◌else◌, inl, ℤ, pos, negsuc,
  ap, ◌≤◌, replicate, All, suc, zero, ◌^◌, length-replicate,
}
use native.Mathlib.Nat.{one-le-pow}
use dyco_coroutine.HashTable.{
  Table, no_id, max_width, init_width, init, delete, find, contains, empty_bucket, slot,
}
use dyco_coroutine.HashTable.Growth.{Alloc, insert}
use dyco_coroutine.HashTable.Entries.{
  or_null, is_found, IsTidy, occurrences, occurrences-zero, entries,
}
use dyco_coroutine.HashTable.Array.{all_entries, bucket_at, empty_bucket-IsTidy, occurrences-at-le}
use dyco_coroutine.HashTable.Resize.{IsSized, IsPlaced, view}
use dyco_coroutine.HashTable.Methods.{HasMemory, insert-Inserted, find-view, contains-view}
use dyco_coroutine.HashTable.Removal.{delete-Deleted}

init_width-le : (w : ℤ) → init_width w ≤ max_width
unfolding init_width
init_width-le (negsuc n) = omega arith
init_width-le (pos zero) = omega arith
init_width-le (pos (suc n)) = ground arith

module _ (V : Type 0) where
  empty_buckets-IsTidy : (n : ℕ) → All IsTidy (replicate n (empty_bucket {V = V}))
  empty_buckets-IsTidy zero = tt
  empty_buckets-IsTidy (suc n) = (empty_bucket-IsTidy, empty_buckets-IsTidy n)

  empty_buckets-occurrences :
      (q n : ℕ) → occurrences q (all_entries (replicate n (empty_bucket {V = V}))) ≡ 0
  unfolding occurrences all_entries
  empty_buckets-occurrences q zero = refl
  empty_buckets-occurrences q (suc n) = empty_buckets-occurrences q n

  init-void : (w : ℤ) (q : ℕ) → occurrences q (all_entries (init {V = V} w).buckets) ≡ 0
  unfolding init
  init-void w q = empty_buckets-occurrences q (2 ^ init_width w)

  init-at : (w : ℤ) (q i : ℕ) → occurrences q (entries (bucket_at (init {V = V} w).buckets i)) ≡ 0
  init-at w q i = omega (arith, init-void w q, occurrences-at-le q (init {V = V} w).buckets i)

module _ {V : Type 0} where
  pub init-IsSized : (w : ℤ) → IsSized (init {V = V} w)
  unfolding init
  init-IsSized w = record {
    power = omega (arith, one-le-pow (init_width w) 2 (omega arith));
    full = omega (
      arith,
      length-replicate (2 ^ init_width w) (empty_bucket {V = V}),
      one-le-pow (init_width w) 2 (omega arith),
    );
    tidy = empty_buckets-IsTidy V (2 ^ init_width w);
  }

  pub init-IsPlaced : (w : ℤ) (q : ℕ) → IsPlaced q (init {V = V} w)
  init-IsPlaced w q = record {
    once = omega (arith, init-void V w q);
    home = omega (arith, init-void V w q, init-at V w q (slot (init {V = V} w) q));
  }

  pub init-view : (w : ℤ) (q : ℕ) → view (init {V = V} w) q ≡ none
  init-view w q = occurrences-zero q _ (init-at V w q (slot (init {V = V} w) q))

  abbrev pub update : (ℕ → Option (Option V)) → ℕ → Option (Option V) → ℕ → Option (Option V)
  update f id r q = if q == id then r else f q

  -- The tables that come about by successful calls with ids other than -1, below the widest array,
  -- with the partial map that the calls describe.
  pub data History : Table V → (ℕ → Option (Option V)) → Type 0 where
    created : (w : ℤ) → History (init w) (λ _. none)
    inserted :
        {t : Table V} {f : ℕ → Option (Option V)} (alloc : Alloc) (id : ℕ) (v : Option V)
        (t' : Table V) (r : ℤ)
        → History t f
        → HasMemory alloc
        → t.width < max_width
        → id ≢ no_id
        → insert alloc t id v ≡ some (t', r)
        → History t' (update f id (some v))
    deleted :
        {t : Table V} {f : ℕ → Option (Option V)} (id : ℕ) (t' : Table V) (r : ℤ)
        (out : Option (Option V))
        → History t f
        → id ≢ no_id
        → delete t id ≡ some (t', r, out)
        → History t' (update f id none)

  record Models (t : Table V) (f : ℕ → Option (Option V)) : Type 0 where
    sized : IsSized t
    placed : (q : ℕ) → q ≢ 0 → IsPlaced q t
    reads : (q : ℕ) → q ≢ 0 → view t q ≡ f q

  History-Models : {t : Table V} {f : ℕ → Option (Option V)} → History t f → Models t f
  History-Models (created w) = record {
    sized = init-IsSized w;
    placed = λ q _. init-IsPlaced w q;
    reads = λ q _. init-view w q;
  }
  History-Models (inserted {t = t} {f = f} alloc id v t' r h memory small valid run) =
      let m = History-Models h in
      let (t₁, r₁, run₁, i) = insert-Inserted alloc t id v memory small m.sized valid in
      let same : t' ≡ t₁ = cc (run, run₁) in
      rw same (record {
        sized = i.sized;
        placed = λ q n. i.placed q (inl n) (m.placed q n);
        reads = λ q n. rw (i.reads q (inl n) (m.placed q n), m.reads q n);
      })
  History-Models (deleted {t = t} {f = f} id t' r out h valid run) =
      let m = History-Models h in
      let (t₁, r₁, out₁, run₁, d) = delete-Deleted t id m.sized valid in
      let same : t' ≡ t₁ = cc (run, run₁) in
      rw same (record {
        sized = d.sized;
        placed = λ q n. d.placed q (m.placed q n);
        reads = λ q n. rw (d.reads q (m.placed q n), m.reads q n);
      })

  -- A table comes from htable_init by any sequence of inserts and deletes of ids other than -1, in
  -- which every insert has memory and finds the table below its widest of 24 bits. Then, growth
  -- included, find and contains answer for every id but 0 as the partial map that the calls
  -- describe, and stay inside the array.
  pub History-refines :
      {t : Table V} {f : ℕ → Option (Option V)}
      → History t f
      → (q : ℕ) → q ≢ 0
      → (find t q ≡ some (or_null (f q))) × (contains t q ≡ some (is_found (f q)))
  History-refines {t} h q n =
      let m = History-Models h in
      (
        find-view t q m.sized ∙ ap (λ r. some (or_null r)) (m.reads q n),
        contains-view t q m.sized ∙ ap (λ r. some (is_found r)) (m.reads q n),
      )
