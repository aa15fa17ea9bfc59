-- ===== src/HashTable/Tests.antt =====
-- The hash table at small inputs: runs of the code, and each theorem at a table where it applies.
use dyco_coroutine.Base.{
  ℕ, ◌≡◌, refl, true, Option, none, some, [], ◌∷◌, arith, ℤ, pos, if◌then◌else◌, ◌==◌,
}
use dyco_coroutine.HashTable.{
  Table, init, init_width, delete, find, contains, empty_bucket, zeroed_bucket, clear_with_freecb,
}
use dyco_coroutine.HashTable.Growth.{Alloc, insert, resize, grow}
use dyco_coroutine.HashTable.Resize.{IsSized, Resized, resize-Resized}
use dyco_coroutine.HashTable.Methods.{HasMemory, Inserted, insert-Inserted}
use dyco_coroutine.HashTable.Removal.{Deleted, delete-Deleted}
use dyco_coroutine.HashTable.History.{History, created, inserted, init-IsSized, History-refines}
use dyco_coroutine.HashTable.Phantom.{resize_twice-contains}

abbrev plenty : Alloc
plenty = record { node = true; table = true; moved = λ i. true }

abbrev plenty-HasMemory : HasMemory plenty
plenty-HasMemory = record { node = refl; table = refl; moved = λ i. refl }

-- Two buckets.
abbrev small : Table ℕ
small = record { width = 1; mask = 1; count = 0; buckets = empty_bucket ∷ empty_bucket ∷ [] }

small-init : small ≡ init (pos 1)
unfolding init init_width
small-init = refl

abbrev one_entry : Table ℕ
one_entry = record {
  width = 1;
  mask = 1;
  count = 1;
  buckets = empty_bucket ∷ record { id = 5; value = some 50; next = [] } ∷ [];
}

-- The second new entry fills the table to its limit, so it grows to four buckets; those that
-- nothing is moved to but the first keep the id 0 of `calloc`.
abbrev grown : Table ℕ
grown = record {
  width = 2;
  mask = 3;
  count = 2;
  buckets =
      empty_bucket
      ∷ record { id = 0; value = none; next = record { id = 5; value = some 50 } ∷ [] }
      ∷ zeroed_bucket
      ∷ record { id = 0; value = none; next = record { id = 7; value = some 70 } ∷ [] }
      ∷ [];
}

insert_first : insert plenty small 5 (some 50) ≡ some (one_entry, pos 1)
unfolding insert grow resize
insert_first = refl

insert_grows : insert plenty one_entry 7 (some 70) ≡ some (grown, pos 1)
unfolding insert
insert_grows = refl

delete_last : delete one_entry 5 ≡ some (small, pos 0, some (some 50))
unfolding delete
delete_last = refl

-- The callback is also called on NULL, once for each bucket but the first.
clear_calls_grown : (clear_with_freecb grown).1 ≡ none ∷ some 50 ∷ none ∷ none ∷ some 70 ∷ []
unfolding clear_with_freecb
clear_calls_grown = refl

small-IsSized : IsSized small
unfolding init
small-IsSized = init-IsSized (pos 1)

one_entry-History : History one_entry (λ q. if q == 5 then some (some 50) else none)
unfolding init insert
one_entry-History =
    inserted plenty 5 (some 50) one_entry (pos 1) (created (pos 1)) plenty-HasMemory (omega arith)
      (omega arith) refl

grown-History :
    History grown (λ q. if q == 7 then some (some 70) else if q == 5 then some (some 50) else none)
unfolding insert
grown-History =
    inserted plenty 7 (some 70) grown (pos 1) one_entry-History plenty-HasMemory (omega arith)
      (omega arith) refl

History-refines_example : (find grown 5 ≡ some (some 50)) × (contains grown 5 ≡ some true)
History-refines_example = History-refines grown-History 5 (omega arith)

insert-Inserted_example :
    (t' : Table ℕ) × (r : ℤ) × (insert plenty small 5 (some 50) ≡ some (t', r))
    × Inserted small 5 (some 50) t' r
insert-Inserted_example =
    insert-Inserted plenty small 5 (some 50) plenty-HasMemory (omega arith) small-IsSized
      (omega arith)

delete-Deleted_example :
    (t' : Table ℕ) × (r : ℤ) × (out : Option (Option ℕ)) × (delete small 5 ≡ some (t', r, out))
    × Deleted small 5 t' r out
delete-Deleted_example = delete-Deleted small 5 small-IsSized (omega arith)

resize-Resized_example :
    (t' : Table ℕ) × (resize plenty small 2 ≡ some (t', pos 0)) × Resized small 2 t'
resize-Resized_example =
    resize-Resized plenty small 2 refl (λ i. refl) (omega arith) (omega arith) small-IsSized

resize_twice-contains_example :
    (t₁ t₂ : Table ℕ) × (resize plenty small 2 ≡ some (t₁, pos 0))
    × (resize plenty t₁ 3 ≡ some (t₂, pos 0))
    × (t₂.count ≡ 0)
    × (contains t₂ 0 ≡ some true)
resize_twice-contains_example =
    resize_twice-contains plenty small plenty-HasMemory small-IsSized (omega arith)
