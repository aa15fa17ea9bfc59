-- ===== src/HashTable/Removal.antt =====
-- htable_delete against the view of the table.
use dyco_coroutine.Base.{
  ℕ, ◌≡◌, sym, ◌≢◌, true, Option, none, some, arith, ◌==◌, if◌then◌else◌, inl, inr, Bool-cases, set,
  get_elem?-get_or, ℤ, pos, minus_one, get_elem?,
}
use dyco_coroutine.HashTable.{
  Bucket, Table, no_id, empty_bucket, slot, dec_int, delete, contains_chain, find_chain,
}
use dyco_coroutine.HashTable.Entries.{
  entries, lookup, is_found, contains_chain-lookup, find_chain-lookup, IsTidy,
}
use dyco_coroutine.HashTable.Array.{bucket_at}
use dyco_coroutine.HashTable.Resize.{IsSized, IsPlaced, view}
use dyco_coroutine.HashTable.Writes.{
  Effect, drop-Effect, erase-Effect, slot-lt, bucket-IsTidy, written, written-Written,
}

module _ {V : Type 0} where
  -- The table after a delete, what the call returns and what it writes through its last argument.
  pub record Deleted (t : Table V) (id : ℕ) (t' : Table V) (r : ℤ) (w : Option (Option V))
      : Type 0 where
    pub sized : IsSized t'
    pub placed : (q : ℕ) → IsPlaced q t → IsPlaced q t'
    pub reads : (q : ℕ) → IsPlaced q t → view t' q ≡ (if q == id then none else view t q)
    pub code : r ≡ (if is_found (view t id) then pos 0 else minus_one)
    pub out : w ≡ view t id
    pub count : t'.count ≡ (if is_found (view t id) then dec_int t.count else t.count)

  module _ (t : Table V) (id : ℕ) (s : IsSized t) (valid : id ≢ no_id) where
    b : Bucket V
    b = bucket_at t.buckets (slot t id)

    bucket : get_elem? t.buckets (slot t id) ≡ some b
    unfolding b
    bucket = get_elem?-get_or t.buckets (slot t id) empty_bucket (slot-lt t s id)

    delete-absent : lookup id (entries b) ≡ none → Deleted t id t minus_one none
    unfolding b
    delete-absent absent = record {
      sized = s;
      placed = λ q p. p;
      reads = λ q p. elim (Bool-cases (q == id)) [
        | inl k ↦ let same : q ≡ id = ground arith in rw (k) (rw same absent)
        | inr k ↦ rw k
      ];
      code = rw absent;
      out = sym absent;
      count = rw absent;
    }

    delete-found :
        (b' : Bucket V) (v : Option V)
        → Effect id none b b'
        → lookup id (entries b) ≡ some v
        → Deleted t id
            (record t { count = dec_int t.count; buckets = set t.buckets (slot t id) b' })
            (pos 0)
            (some v)
    unfolding b written
    delete-found b' v e found =
        let w = written-Written t s id none b' (dec_int t.count) e in
        record {
          sized = w.sized;
          placed = w.placed;
          reads = w.reads;
          code = rw found;
          out = sym found;
          count = rw found;
        }

    chain-lookup :
        (found : contains_chain id b.next ≡ true) → lookup id b.next ≡ some (find_chain id b.next)
    chain-lookup found =
        ground (arith, contains_chain-lookup id b.next, find_chain-lookup id b.next)

    -- In a sized table and for an id other than -1, a delete leaves the table sized. It returns 0,
    -- hands out the pointer and takes one off the count if the bucket of the id has it, and else
    -- returns -1 and hands out nothing. Of the ids that stand at most once, in their own bucket,
    -- the one that is deleted is unmapped then and the others read as before.
    pub delete-Deleted :
        (t' : Table V) × (r : ℤ) × (out : Option (Option V)) × (delete t id ≡ some (t', r, out))
        × Deleted t id t' r out
    unfolding delete lookup
    delete-Deleted =
        let tidy : IsTidy b = unfold b in bucket-IsTidy t s id in
        rw bucket (elim (Bool-cases (b.id == no_id)) [
          | inl void ↦ (t, minus_one, none, rw void, delete-absent (rw void))
          | inr taken ↦ elim (Bool-cases (b.id == id)) [
            | inl here ↦ (
              _,
              pos 0,
              some b.value,
              rw (taken, here),
              delete-found _ b.value (drop-Effect id valid b tidy (ground arith) (ground arith))
                  (rw (taken, here)),
            )
            | inr other ↦ elim (Bool-cases (contains_chain id b.next)) [
              | inl chained ↦ (
                _,
                pos 0,
                some (find_chain id b.next),
                rw (taken, other, chained),
                delete-found _ _ (erase-Effect id valid b tidy (ground arith) (ground arith))
                    (rw (taken, other) (chain-lookup chained)),
              )
              | inr fresh ↦ (
                t,
                minus_one,
                none,
                rw (taken, other, fresh),
                delete-absent (rw (taken, other) (ground (arith, contains_chain-lookup id b.next))),
              )
            ]
          ]
        ])
