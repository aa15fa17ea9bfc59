-- ===== src/HashTable.antt =====
-- include/dyco/dyco_htable.h: the chained hash table from an int to a pointer.
-- An int id is its 32-bit pattern, so -1, which marks an empty bucket, is 2^32 - 1. A pointer that
-- may be NULL is an `Option`. An operation returns `none` where the C run is undefined: an access
-- outside the bucket array, or a `malloc` that fails in the middle of a resize, which leaves the old
-- chains half relinked. What `malloc` and `calloc` answer is an argument.
pub mod Growth
pub mod Entries
pub mod Array
pub mod Moves
pub mod Resize
pub mod Writes
pub mod Methods
pub mod Removal
pub mod History
pub mod Phantom
mod Lifetime
mod Tests
use dyco_coroutine.Base.{
  ℕ, zero, suc, ◌+◌, ◌-◌, ◌*◌, ◌^◌, ◌%◌, bit_and, Bool, true, false, not, ◌&&◌, ◌||◌, Option, none,
  some, List, [], ◌∷◌, ◌++◌, ltb, ◌==◌, if◌then◌else◌, ◌>>=◌, get_elem?, set, replicate, ℤ, pos,
  negsuc, minus_one,
}

pub record Entry (V : Type 0) : Type 0 where
  pub id : ℕ
  pub value : Option V

-- A node of the bucket array; `next` is its chain.
pub record Bucket (V : Type 0) : Type 0 where
  pub id : ℕ
  pub value : Option V
  pub next : List (Entry V)

pub record Table (V : Type 0) : Type 0 where
  pub width : ℕ
  pub mask : ℕ
  pub count : ℕ
  pub buckets : List (Bucket V)

abbrev pub no_id : ℕ
no_id = 2 ^ 32 - 1

abbrev pub max_width : ℕ
max_width = 24

abbrev pub default_width : ℕ
default_width = 16

abbrev pub max_alpha : ℕ
max_alpha = 2

-- `++` and `--` on an int, as a 32-bit pattern.
abbrev pub inc_int : ℕ → ℕ
inc_int n = (n + 1) % 2 ^ 32

abbrev pub dec_int : ℕ → ℕ
dec_int n = (n + (2 ^ 32 - 1)) % 2 ^ 32

unfoldable pub init_width : ℤ → ℕ
init_width (negsuc n) = default_width
init_width (pos zero) = default_width
init_width (pos (suc n)) = if ltb max_width (suc n) then max_width else suc n

module _ {V : Type 0} where
  abbrev pub empty_bucket : Bucket V
  empty_bucket = record { id = no_id; value = none; next = [] }

  -- What `calloc` leaves in each element.
  abbrev pub zeroed_bucket : Bucket V
  zeroed_bucket = record { id = 0; value = none; next = [] }

  abbrev pub slot : Table V → ℕ → ℕ
  slot t id = bit_and id t.mask

  -- htable_init, where its `calloc` succeeds.
  unfoldable pub init : ℤ → Table V
  unfolding init_width
  init width = record {
    width = init_width width;
    mask = 2 ^ init_width width - 1;
    count = 0;
    buckets = replicate (2 ^ init_width width) empty_bucket;
  }

  unfoldable pub find_chain : ℕ → List (Entry V) → Option V
  find_chain id [] = none
  find_chain id (e ∷ es) = if e.id == id then e.value else find_chain id es

  unfoldable pub find_bucket : ℕ → Bucket V → Option V
  unfolding find_chain
  find_bucket id b =
      if b.id == no_id then none else if b.id == id then b.value else find_chain id b.next

  unfoldable pub find : Table V → ℕ → Option (Option V)
  unfolding find_bucket
  find t id = get_elem? t.buckets (slot t id) >>= λ b. some (find_bucket id b)

  unfoldable pub contains_chain : ℕ → List (Entry V) → Bool
  contains_chain id [] = false
  contains_chain id (e ∷ es) = if e.id == id then true else contains_chain id es

  unfoldable pub contains_bucket : ℕ → Bucket V → Bool
  unfolding contains_chain
  contains_bucket id b =
      if b.id == no_id then false else if b.id == id then true else contains_chain id b.next

  unfoldable pub contains : Table V → ℕ → Option Bool
  unfolding contains_bucket
  contains t id = get_elem? t.buckets (slot t id) >>= λ b. some (contains_bucket id b)

  -- Unlinks the first node of the chain that has the id.
  unfoldable pub erase_chain : ℕ → List (Entry V) → List (Entry V)
  erase_chain id [] = []
  erase_chain id (e ∷ es) = if e.id == id then es else e ∷ erase_chain id es

  -- The head of the chain takes the place of a deleted head of the bucket.
  unfoldable pub drop_head : Bucket V → List (Entry V) → Bucket V
  drop_head b [] = record b { id = no_id; value = none }
  drop_head b (e ∷ es) = record { id = e.id; value = e.value; next = es }

  -- The third part is what the call writes to `*data`, if it writes.
  unfoldable pub delete : Table V → ℕ → Option (Table V × ℤ × Option (Option V))
  unfolding contains_chain find_chain erase_chain drop_head
  delete t id = get_elem? t.buckets (slot t id) >>= λ b.
      if b.id == no_id
      then some (t, minus_one, none)
      else if b.id == id
      then some (
        record t {
          count = dec_int t.count;
          buckets = set t.buckets (slot t id) (drop_head b b.next);
        },
        pos 0,
        some b.value,
      )
      else if contains_chain id b.next
      then some (
        record t {
          count = dec_int t.count;
          buckets = set t.buckets (slot t id) (record b { next = erase_chain id b.next });
        },
        pos 0,
        some (find_chain id b.next),
      )
      else some (t, minus_one, none)

  pub freed_values : List (Entry V) → List (Option V)
  freed_values [] = []
  freed_values (e ∷ es) = e.value ∷ freed_values es

  -- The pointers that `clear_with_freecb` hands to its callback, in order.
  pub clear_calls : List (Bucket V) → List (Option V)
  unfolding freed_values
  clear_calls [] = []
  clear_calls (b ∷ bs) =
      if b.id == no_id then clear_calls bs else (b.value ∷ freed_values b.next) ++ clear_calls bs

  -- The array is freed, so nothing may be read through the table afterwards.
  pub clear : Table V → Table V
  clear t = record { width = 0; mask = 0; count = 0; buckets = [] }

  -- For a callback that leaves the table alone.
  pub clear_with_freecb : Table V → Table V × List (Option V)
  unfolding clear clear_calls
  clear_with_freecb t = (clear t, clear_calls t.buckets)
