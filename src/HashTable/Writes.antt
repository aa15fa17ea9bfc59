-- ===== src/HashTable/Writes.antt =====
-- What a write to one bucket does to the table as a whole.
use dyco_coroutine.Base.{
  ℕ, ◌+◌, ◌≤◌, ◌<◌, ◌≡◌, refl, ◌≢◌, ◌⊎◌, true, false, Option, none, some, ◌∷◌, arith, ◌==◌,
  if◌then◌else◌, inl, inr, Bool-cases, length, ne→==, subst, set, length-set, get_or-set, All-set,
  All-get_or, bit_and-le,
}
use dyco_coroutine.HashTable.{
  Bucket, Table, no_id, empty_bucket, slot, contains_chain, erase_chain, drop_head,
}
use dyco_coroutine.HashTable.Growth.{assign_chain}
use dyco_coroutine.HashTable.Entries.{
  entries, lookup, occurrences, occurrences-zero, lookup-none, IsTidy, contains_chain-lookup,
  lookup-assign, occurrences-assign, assign-marked, lookup-erase, occurrences-erase, erase-marked,
  erase_others, drop_head-entries, drop_head-IsTidy,
}
use dyco_coroutine.HashTable.Array.{bucket_at, all_entries, occurrences-set, empty_bucket-IsTidy}
use dyco_coroutine.HashTable.Resize.{IsSized, IsPlaced, view}

module _ {V : Type 0} where
  -- `b'` has the entries of `b` but for those under `id`, where a lookup now gives `r`.
  pub record Effect (id : ℕ) (r : Option (Option V)) (b b' : Bucket V) : Type 0 where
    pub tidy : IsTidy b'
    pub others : (q : ℕ) → q ≢ id → occurrences q (entries b') ≡ occurrences q (entries b)
    pub others_reads : (q : ℕ) → q ≢ id → lookup q (entries b') ≡ lookup q (entries b)
    pub once : occurrences id (entries b) ≤ 1 → occurrences id (entries b') ≤ 1
    pub reads : occurrences id (entries b) ≤ 1 → lookup id (entries b') ≡ r

  module _ (id : ℕ) (valid : id ≢ no_id) (b : Bucket V) (t : IsTidy b) where
    pub fill-Effect :
        (v : Option V) → b.id ≡ no_id → Effect id (some v) b (record b { id = id; value = v })
    unfolding occurrences lookup
    fill-Effect v k = record {
      tidy = record { unchained = λ j. absurd (valid j); marked = t.marked };
      others = λ q n. ground (arith, t.unchained k);
      others_reads = λ q n. ground (arith, t.unchained k);
      once = λ _. ground (arith, t.unchained k);
      reads = λ _. ground arith;
    }

    pub head-Effect :
        (v : Option V) → b.id ≢ no_id → b.id ≡ id → Effect id (some v) b (record b { value = v })
    unfolding occurrences lookup
    head-Effect v n k = record {
      tidy = record { unchained = λ j. absurd (n j); marked = t.marked };
      others = λ q m. ground arith;
      others_reads = λ q m. ground arith;
      once = λ o. ground arith;
      reads = λ _. ground arith;
    }

    pub assign-Effect :
        (v : Option V)
        → b.id ≢ no_id
        → b.id ≢ id
        → contains_chain id b.next ≡ true
        → Effect id (some v) b (record b { next = assign_chain id v b.next })
    unfolding occurrences lookup
    assign-Effect v n m c = record {
      tidy = record { unchained = λ j. absurd (n j); marked = assign-marked id v b.next t.marked };
      others = λ q k. ground (arith, occurrences-assign id q v b.next);
      others_reads = λ q k. ground (arith, lookup-assign id q v b.next c);
      once = λ o. ground (arith, occurrences-assign id id v b.next);
      reads = λ _. ground (arith, lookup-assign id id v b.next c);
    }

    pub push-Effect :
        (v : Option V)
        → b.id ≢ no_id
        → b.id ≢ id
        → contains_chain id b.next ≡ false
        → Effect id (some v) b (record b { next = record { id = id; value = v } ∷ b.next })
    unfolding occurrences lookup
    push-Effect v n m c = record {
      tidy = record { unchained = λ j. absurd (n j); marked = (valid, t.marked) };
      others = λ q k. ground arith;
      others_reads = λ q k. ground arith;
      once = λ o. ground (arith, lookup-none id b.next, contains_chain-lookup id b.next);
      reads = λ _. ground arith;
    }

    pub drop-Effect : b.id ≢ no_id → b.id ≡ id → Effect id none b (drop_head b b.next)
    unfolding occurrences lookup
    drop-Effect n k = record {
      tidy = drop_head-IsTidy b b.next refl t.marked;
      others = λ q m. rw (drop_head-entries b b.next refl t.marked) (ground arith);
      others_reads = λ q m. rw (drop_head-entries b b.next refl t.marked) (ground arith);
      once = λ o. rw (drop_head-entries b b.next refl t.marked) (ground arith);
      reads = λ o.
          rw (drop_head-entries b b.next refl t.marked)
            (ground (arith, occurrences-zero id b.next));
    }

    pub erase-Effect :
        b.id ≢ no_id → b.id ≢ id → Effect id none b (record b { next = erase_chain id b.next })
    unfolding occurrences lookup
    erase-Effect n m = record {
      tidy = record { unchained = λ j. absurd (n j); marked = erase-marked id b.next t.marked };
      others = λ q k. ground (arith, erase_others id q b.next k);
      others_reads = λ q k. ground (arith, erase_others id q b.next k);
      once = λ o. ground (arith, occurrences-erase id id b.next);
      reads = λ o. ground (arith, lookup-erase id id b.next);
    }

  Effect-once :
      {id : ℕ} {r : Option (Option V)} {b b' : Bucket V}
      → Effect id r b b'
      → (q : ℕ) → occurrences q (entries b) ≤ 1
      → occurrences q (entries b') ≤ 1
  Effect-once {id} {b = b} {b' = b'} e q h = elim (Bool-cases (q == id)) [
    | inl k ↦
        let same : q ≡ id = ground arith in
        rw same (e.once (subst (λ x. occurrences x (entries b) ≤ 1) same h))
    | inr k ↦ let other : q ≢ id = ground arith in omega (arith, e.others q other)
  ]

  Effect-reads :
      {id : ℕ} {r : Option (Option V)} {b b' : Bucket V}
      → Effect id r b b'
      → (q : ℕ) → occurrences q (entries b) ≤ 1
      → lookup q (entries b') ≡ (if q == id then r else lookup q (entries b))
  Effect-reads {id} {b = b} e q h = elim (Bool-cases (q == id)) [
    | inl k ↦
        let same : q ≡ id = ground arith in
        rw k (rw same (e.reads (subst (λ x. occurrences x (entries b) ≤ 1) same h)))
    | inr k ↦ rw k (e.others_reads q (ground arith))
  ]

  -- `t'` is sized like `t`, keeps every key in place, and reads as `t` but for `id`.
  pub record Written (t : Table V) (id : ℕ) (r : Option (Option V)) (t' : Table V) : Type 0 where
    pub width : t'.width ≡ t.width
    pub mask : t'.mask ≡ t.mask
    pub sized : IsSized t'
    pub placed : (q : ℕ) → IsPlaced q t → IsPlaced q t'
    pub reads : (q : ℕ) → IsPlaced q t → view t' q ≡ (if q == id then r else view t q)

  module _ (t : Table V) (s : IsSized t) (id : ℕ) where
    pub slot-lt : slot t id < length t.buckets
    slot-lt = omega (arith, bit_and-le id t.mask, s.full)

    pub bucket-IsTidy : IsTidy (bucket_at t.buckets (slot t id))
    bucket-IsTidy = All-get_or IsTidy t.buckets (slot t id) empty_bucket empty_bucket-IsTidy s.tidy

    module _ (r : Option (Option V)) (b' : Bucket V) (count : ℕ)
        (e : Effect id r (bucket_at t.buckets (slot t id)) b') where
      unfoldable pub written : Table V
      written = record t { count = count; buckets = set t.buckets (slot t id) b' }

      written-home :
          (q : ℕ)
          → ((slot t q ≡ slot t id) × (bucket_at written.buckets (slot written q) ≡ b'))
            ⊎ ((q ≢ id)
                × (bucket_at written.buckets (slot written q) ≡ bucket_at t.buckets (slot t q)))
      unfolding written
      written-home q =
          let at = get_or-set t.buckets (slot t id) (slot t q) b' empty_bucket slot-lt in
          elim (Bool-cases (slot t q == slot t id)) [
            | inl k ↦ inl (ground arith, ground (arith, at))
            | inr k ↦ inr (λ same. ground arith, ground (arith, at))
          ]

      written-whole :
          (q : ℕ)
          → occurrences q (all_entries written.buckets)
              + occurrences q (entries (bucket_at t.buckets (slot t id)))
            ≡ occurrences q (all_entries t.buckets) + occurrences q (entries b')
      unfolding written
      written-whole q = occurrences-set q t.buckets (slot t id) b' slot-lt

      written-IsPlaced : (q : ℕ) → IsPlaced q t → IsPlaced q written
      written-IsPlaced q p = elim (written-home q) [
        | inl (same, now) ↦
            let here : occurrences q (all_entries t.buckets)
                ≡ occurrences q (entries (bucket_at t.buckets (slot t id))) =
              rw (← same) p.home in
            let once = Effect-once e q (omega (arith, p.once)) in
            record {
              once = omega (arith, written-whole q);
              home = rw now (omega (arith, written-whole q));
            }
        | inr (other, now) ↦ record {
          once = omega (arith, written-whole q, e.others q other, p.once);
          home = rw now (omega (arith, written-whole q, e.others q other, p.home));
        }
      ]

      written-view : (q : ℕ) → IsPlaced q t → view written q ≡ (if q == id then r else view t q)
      written-view q p = elim (written-home q) [
        | inl (same, now) ↦
            rw (now, same)
              (Effect-reads e q (
                omega (
                  arith,
                  p.once,
                  let here : occurrences q (all_entries t.buckets)
                          ≡ occurrences q (entries (bucket_at t.buckets (slot t id))) =
                        rw (← same) p.home in
                      here,
                )))
        | inr (other, now) ↦ rw (now, ne→== q id other)
      ]

      pub written-Written : Written t id r written
      unfolding written
      written-Written = record {
        width = refl;
        mask = refl;
        sized = record {
          power = s.power;
          full = omega (arith, length-set t.buckets (slot t id) b', s.full);
          tidy = All-set IsTidy t.buckets (slot t id) b' e.tidy s.tidy;
        };
        placed = written-IsPlaced;
        reads = written-view;
      }
