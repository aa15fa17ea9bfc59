-- ===== src/HashTable/Lifetime.antt =====
-- include/dyco/dyco_htable.h: tables on the heap. The block of a table is an `Option`, none where
-- there is no block or it has been freed.
use dyco_coroutine.Base.{Bool, Option, none, some, if◌then◌else◌, ℤ}
use dyco_coroutine.HashTable.{Table, init}

module _ {V : Type 0} where
  -- htable_create, where `calloc` succeeds; `memory` says whether `malloc` does.
  unfoldable create : Bool → ℤ → Option (Table V)
  create memory width = if memory then some (init width) else none

  -- htable_free: the chains, the array and the block itself are freed.
  unfoldable free : Option (Table V) → Option (Table V)
  free none = none
  free (some t) = none
