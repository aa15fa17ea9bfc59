-- ===== src/HashTable/Methods.antt =====
-- The operations of the table against its view as a partial map.
use dyco_coroutine.Base.{
  ℕ, ◌+◌, ◌*◌, ◌<◌, ◌≡◌, refl, sym, ◌∙◌, ◌≢◌, ◌⊎◌, true, false, Option, some, arith, ◌==◌,
  if◌then◌else◌, inl, inr, Bool-cases, get_elem?, set, get_elem?-get_or, ℤ, pos,
}
use dyco_coroutine.HashTable.{
  Bucket, Table, no_id, max_width, max_alpha, empty_bucket, slot, inc_int, find, contains,
  contains_chain,
}
use dyco_coroutine.HashTable.Growth.{Alloc, insert, grow}
use dyco_coroutine.HashTable.Entries.{
  entries, lookup, or_null, is_found, find_bucket-lookup, contains_bucket-lookup,
  contains_chain-lookup, IsTidy,
}
use dyco_coroutine.HashTable.Array.{bucket_at}
use dyco_coroutine.HashTable.Resize.{IsSized, IsPlaced, view, Resized, resize-Resized}
use dyco_coroutine.HashTable.Writes.{
  Effect, fill-Effect, head-Effect, assign-Effect, push-Effect, Written, slot-lt, bucket-IsTidy,
  written, written-Written,
}

-- What a call of the allocator that never fails answers.
pub record HasMemory (alloc : Alloc) : Type 0 where
  pub node : alloc.node ≡ true
  pub table : alloc.table ≡ true
  pub moved : (i : ℕ) → alloc.moved i ≡ true

module _ {V : Type 0} where
  pub find-view : (t : Table V) (id : ℕ) → IsSized t → find t id ≡ some (or_null (view t id))
  unfolding find
  find-view t id s =
      rw (get_elem?-get_or t.buckets (slot t id) empty_bucket (slot-lt t s id))
        (rw (find_bucket-lookup id (bucket_at t.buckets (slot t id))))

  pub contains-view :
      (t : Table V) (id : ℕ) → IsSized t → contains t id ≡ some (is_found (view t id))
  unfolding contains
  contains-view t id s =
      rw (get_elem?-get_or t.buckets (slot t id) empty_bucket (slot-lt t s id))
        (rw (contains_bucket-lookup id (bucket_at t.buckets (slot t id))))

  -- `t'` is `t`, or `t` moved to a wider array, which keeps every id but 0.
  pub record Grown (t t' : Table V) : Type 0 where
    pub count : t'.count ≡ t.count
    pub sized : IsSized t'
    pub placed : (q : ℕ) → (q ≢ 0) ⊎ (t'.width ≡ t.width) → IsPlaced q t → IsPlaced q t'
    pub reads : (q : ℕ) → (q ≢ 0) ⊎ (t'.width ≡ t.width) → IsPlaced q t → view t' q ≡ view t q

  Resized-Grown : (t t' : Table V) → Resized t (t.width + 1) t' → Grown t t'
  Resized-Grown t t' r = record {
    count = r.count;
    sized = r.sized;
    placed = λ q h p. elim h [
      | inl nonzero ↦ r.placed q nonzero p
      | inr same ↦ absurd (omega (arith, r.width))
    ];
    reads = λ q h p. elim h [
      | inl nonzero ↦ r.reads q nonzero p
      | inr same ↦ absurd (omega (arith, r.width))
    ];
  }

  grow-Grown :
      (alloc : Alloc) (t : Table V)
      → HasMemory alloc
      → t.width < max_width
      → IsSized t
      → (t' : Table V) × (grow alloc t ≡ some (t', pos 1)) × Grown t t'
  unfolding grow
  grow-Grown alloc t memory small s = elim (Bool-cases (t.mask * max_alpha == t.count)) [
    | inl full ↦
        let (t', run, r) =
          resize-Resized alloc t (t.width + 1) memory.table memory.moved (omega arith) (omega arith)
            s in
        (t', rw (full, run), Resized-Grown t t' r)
    | inr room ↦
        (t, rw room, record { count = refl; sized = s; placed = λ q _ p. p; reads = λ q _ p. refl })
  ]

  -- The table after an insert, and what the call returns.
  pub record Inserted (t : Table V) (id : ℕ) (v : Option V) (t' : Table V) (r : ℤ) : Type 0 where
    pub sized : IsSized t'
    pub placed : (q : ℕ) → (q ≢ 0) ⊎ (t'.width ≡ t.width) → IsPlaced q t → IsPlaced q t'
    pub reads :
        (q : ℕ)
        → (q ≢ 0) ⊎ (t'.width ≡ t.width)
        → IsPlaced q t
        → view t' q ≡ (if q == id then some v else view t q)
    pub code : r ≡ (if is_found (view t id) then pos 0 else pos 1)
    pub count : t'.count ≡ (if is_found (view t id) then t.count else inc_int t.count)

  Written-Inserted :
      (t : Table V) (id : ℕ) (v : Option V) (t' : Table V)
      → is_found (view t id) ≡ true
      → Written t id (some v) t'
      → t'.count ≡ t.count
      → Inserted t id v t' (pos 0)
  Written-Inserted t id v t' found w same = record {
    sized = w.sized;
    placed = λ q _ p. w.placed q p;
    reads = λ q _ p. w.reads q p;
    code = rw found;
    count = rw found same;
  }

  Grown-Inserted :
      (t : Table V) (id : ℕ) (v : Option V) (t₁ t' : Table V)
      → is_found (view t id) ≡ false
      → Written t id (some v) t₁
      → t₁.count ≡ inc_int t.count
      → Grown t₁ t'
      → Inserted t id v t' (pos 1)
  Grown-Inserted t id v t₁ t' absent w more g = record {
    sized = g.sized;
    placed = λ q h p. g.placed q (rw w.width h) (w.placed q p);
    reads = λ q h p. g.reads q (rw w.width h) (w.placed q p) ∙ w.reads q p;
    code = rw absent;
    count = rw absent (g.count ∙ more);
  }

  module _ (alloc : Alloc) (t : Table V) (id : ℕ) (v : Option V) (memory : HasMemory alloc)
      (small : t.width < max_width) (s : IsSized t) (valid : id ≢ no_id) where
    b : Bucket V
    b = bucket_at t.buckets (slot t id)

    bucket : get_elem? t.buckets (slot t id) ≡ some b
    unfolding b
    bucket = get_elem?-get_or t.buckets (slot t id) empty_bucket (slot-lt t s id)

    view-b : view t id ≡ lookup id (entries b)
    unfolding b
    view-b = refl

    insert-absent :
        (b' : Bucket V)
        → Effect id (some v) b b'
        → is_found (lookup id (entries b)) ≡ false
        → (t' : Table V) × (grow alloc
              (record t { count = inc_int t.count; buckets = set t.buckets (slot t id) b' })
            ≡ some (t', pos 1))
          × Inserted t id v t' (pos 1)
    unfolding b written
    insert-absent b' e absent =
        let w = written-Written t s id (some v) b' (inc_int t.count) e in
        let (t', run, g) =
          grow-Grown alloc (written t s id (some v) b' (inc_int t.count) e) memory small w.sized in
        (t', run, Grown-Inserted t id v _ t' absent w refl g)

    insert-found :
        (b' : Bucket V)
        → Effect id (some v) b b'
        → is_found (lookup id (entries b)) ≡ true
        → Inserted t id v (record t { buckets = set t.buckets (slot t id) b' }) (pos 0)
    unfolding b written
    insert-found b' e found =
        Written-Inserted t id v _ found (written-Written t s id (some v) b' t.count e) refl

    -- In a sized table below its widest, with memory and an id other than -1, an insert succeeds
    -- and leaves the table sized: it returns 1 and counts the id if the bucket of the id does not
    -- have it, and else returns 0. Of the ids that stand at most once, in their own bucket, the one
    -- that is inserted reads as the pointer then and the others read as before; where the table
    -- grows, this leaves out id 0.
    pub insert-Inserted :
        (t' : Table V) × (r : ℤ) × (insert alloc t id v ≡ some (t', r)) × Inserted t id v t' r
    unfolding insert lookup
    insert-Inserted =
        let tidy : IsTidy b = unfold b in bucket-IsTidy t s id in
        rw bucket (elim (Bool-cases (b.id == no_id)) [
          | inl void ↦
              let (t', run, i) =
                insert-absent _ (fill-Effect id valid b tidy v (ground arith)) (rw void) in
              (t', pos 1, rw void run, i)
          | inr taken ↦ elim (Bool-cases (b.id == id)) [
            | inl here ↦ (
              _,
              pos 0,
              rw (taken, here),
              insert-found _ (head-Effect id valid b tidy v (ground arith) (ground arith))
                  (rw (taken, here)),
            )
            | inr other ↦ elim (Bool-cases (contains_chain id b.next)) [
              | inl chained ↦ (
                _,
                pos 0,
                rw (taken, other, chained),
                insert-found _
                    (assign-Effect id valid b tidy v (ground arith) (ground arith) chained)
                    (rw (taken, other) (sym (contains_chain-lookup id b.next) ∙ chained)),
              )
              | inr fresh ↦
                  let (t', run, i) =
                    insert-absent _
                      (push-Effect id valid b tidy v (ground arith) (ground arith) fresh)
                      (rw (taken, other) (sym (contains_chain-lookup id b.next) ∙ fresh)) in
                  (t', pos 1, rw (taken, other, fresh, memory.node) run, i)
            ]
          ]
        ])
