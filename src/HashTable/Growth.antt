-- ===== src/HashTable/Growth.antt =====
-- include/dyco/dyco_htable.h: htable_insert, and htable_resize, by which it grows.
use dyco_coroutine.Base.{
  ℕ, zero, suc, ◌+◌, ◌-◌, ◌*◌, ◌^◌, bit_and, Bool, not, ◌||◌, Option, none, some, List, [], ◌∷◌,
  ltb, ◌==◌, if◌then◌else◌, ◌>>=◌, get_elem?, set, replicate, ℤ, pos, negsuc, minus_one,
}
use dyco_coroutine.HashTable.{
  Entry, Bucket, Table, no_id, max_width, max_alpha, inc_int, empty_bucket, zeroed_bucket, slot,
  contains_chain,
}

-- What the allocator answers in one call: for a new node, for a new bucket array, and for the node
-- that the head of each old bucket may need in a resize.
pub record Alloc : Type 0 where
  pub node : Bool
  pub table : Bool
  pub moved : ℕ → Bool

module _ {V : Type 0} where
  -- One node goes to its new bucket: into the array where that is free, else behind its head.
  unfoldable pub place_bucket : Entry V → Bucket V → Bucket V
  place_bucket e b =
      if b.id == no_id
      then record b { id = e.id; value = e.value }
      else record b { next = e ∷ b.next }

  unfoldable pub place : ℕ → Entry V → List (Bucket V) → Option (List (Bucket V))
  unfolding place_bucket
  place mask e bs =
      get_elem? bs (bit_and e.id mask) >>= λ b. some (set bs (bit_and e.id mask) (place_bucket e b))

  unfoldable pub move_chain : ℕ → List (Entry V) → List (Bucket V) → Option (List (Bucket V))
  unfolding place
  move_chain mask [] bs = some bs
  move_chain mask (e ∷ es) bs = place mask e bs >>= move_chain mask es

  -- The head of an old bucket lies in the array, so it needs a new node unless its target is free.
  unfoldable pub move_head : ℕ → Bool → Entry V → List (Bucket V) → Option (List (Bucket V))
  unfolding place
  move_head mask moved e bs = get_elem? bs (bit_and e.id mask) >>= λ b.
      if b.id == no_id || moved then place mask e bs else none

  abbrev pub head : Bucket V → Entry V
  head b = record { id = b.id; value = b.value }

  unfoldable pub move_all :
      ℕ → (ℕ → Bool) → ℕ → List (Bucket V) → List (Bucket V) → Option (List (Bucket V))
  unfolding move_head move_chain
  move_all mask moved i [] bs = some bs
  move_all mask moved i (b ∷ old) bs =
      (if b.id == no_id
        then some bs
        else (move_head mask (moved i) (head b) bs >>= move_chain mask b.next))
      >>= move_all mask moved (i + 1) old

  -- The loop that should empty the new array: each of its rounds writes through `newtable->`, which
  -- is the first element.
  unfoldable pub mark_empty : ℕ → List (Bucket V) → List (Bucket V)
  mark_empty zero bs = bs
  mark_empty (suc n) bs = mark_empty n (set bs 0 empty_bucket)

  unfoldable pub fresh_buckets : ℕ → List (Bucket V)
  unfolding mark_empty
  fresh_buckets size = mark_empty size (replicate size zeroed_bucket)

  unfoldable pub resize : Alloc → Table V → ℕ → Option (Table V × ℤ)
  unfolding fresh_buckets move_all
  resize alloc t width =
      if width == t.width || ltb max_width width
      then some (t, minus_one)
      else (if not alloc.table
          then some (t, minus_one)
          else (move_all (2 ^ width - 1) alloc.moved 0 t.buckets (fresh_buckets (2 ^ width))
              >>= λ bs. some (
                record { width = width; mask = 2 ^ width - 1; count = t.count; buckets = bs },
                pos 0,
              )))

  -- `if (mask * MAXALPHA == count && resize(...) < 0) return -1; return 1;`
  unfoldable pub grow : Alloc → Table V → Option (Table V × ℤ)
  unfolding resize
  grow alloc t =
      if t.mask * max_alpha == t.count
      then (resize alloc t (t.width + 1) >>= λ r.
          some (r.0, elim r.1 [ pos n ↦ pos 1 | negsuc n ↦ minus_one ]))
      else some (t, pos 1)

  -- Writes to the first node of the chain that has the id.
  unfoldable pub assign_chain : ℕ → Option V → List (Entry V) → List (Entry V)
  assign_chain id v [] = []
  assign_chain id v (e ∷ es) =
      if e.id == id then record e { value = v } ∷ es else e ∷ assign_chain id v es

  unfoldable pub insert : Alloc → Table V → ℕ → Option V → Option (Table V × ℤ)
  unfolding contains_chain assign_chain grow
  insert alloc t id v = get_elem? t.buckets (slot t id) >>= λ b.
      if b.id == no_id
      then (grow alloc (record t {
        count = inc_int t.count;
        buckets = set t.buckets (slot t id) (record b { id = id; value = v });
      }))
      else if b.id == id
      then some (record t { buckets = set t.buckets (slot t id) (record b { value = v }) }, pos 0)
      else if contains_chain id b.next
      then some (
        record t {
          buckets = set t.buckets (slot t id) (record b { next = assign_chain id v b.next });
        },
        pos 0,
      )
      else if not alloc.node
      then some (t, minus_one)
      else (grow alloc (record t {
        count = inc_int t.count;
        buckets =
            set t.buckets (slot t id) (record b { next = record { id = id; value = v } ∷ b.next });
      }))
