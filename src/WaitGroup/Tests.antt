-- ===== src/WaitGroup/Tests.antt =====
-- A group of two: coroutine 5 is a member, and descriptor 30 waits for all.
use dyco_coroutine.Base.{
  ℕ, ◌*◌, ◌^◌, ◌≤◌, ◌<◌, ◌≡◌, ◌⊎◌, refl, true, none, some, List, [], ◌∷◌, ◌++◌, if◌then◌else◌,
  arith, pos,
}
use dyco_coroutine.HashTable.{empty_bucket, init, init_width, max_width, contains}
use dyco_coroutine.HashTable.Entries.{is_found}
use dyco_coroutine.HashTable.Resize.{view}
use dyco_coroutine.HashTable.History.{init-IsSized, init-IsPlaced}
use dyco_coroutine.HashTable.Growth.{Alloc}
use dyco_coroutine.Blocking.{Notice}
use dyco_coroutine.WaitGroup.{WaitGroup, waits, width_for, add, done, wait_all, woken, read_count}
use dyco_coroutine.WaitGroup.Width.{width_for-least}
use dyco_coroutine.WaitGroup.Members.{Added, add-Added, repeat_done, repeat_done-completes}
use dyco_coroutine.WaitGroup.Subscribers.{wait_all-woken}

abbrev plenty : Alloc
plenty = record { node = true; table = true; moved = λ i. true }

abbrev started : WaitGroup
started = record {
  tot_size = 2;
  finished = 0;
  cid_set = record {
    width = 1;
    mask = 1;
    count = 1;
    buckets = empty_bucket ∷ record { id = 5; value = none; next = [] } ∷ [];
  };
  target_sublist_map = init (pos 2);
  final_sublist = 30 ∷ [];
}

abbrev fresh : WaitGroup
fresh = record started { tot_size = 0; cid_set = init (pos 2) }

width_for-least_example :
    (w : ℕ) × (width_for (pos 9) ≡ some w) × (1 ≤ w) × (9 < 2 ^ w) × ((w ≡ 1) ⊎ (2 ^ w ≤ 9 * 2))
width_for-least_example = width_for-least 8 (omega arith)

narrow : (init {V = ℕ} (pos 2)).width < max_width
unfolding init init_width
narrow = omega arith

add-Added_example :
    (wg' : WaitGroup) × (add plenty (some fresh) 5
      ≡ some (some wg', if is_found (view fresh.cid_set 5) then pos 0 else pos 1))
    × Added fresh 5 wg'
add-Added_example =
    add-Added plenty fresh 5 (record { node = refl; table = refl; moved = λ i. refl })
      (init-IsSized (pos 2)) narrow (ground arith) (ground arith) (init-IsPlaced (pos 2) 5)

five_member : contains started.cid_set 5 ≡ some true
unfolding contains
five_member = refl

repeat_done-completes_example :
    (wg₁ : WaitGroup) × (repeat_done (λ fd. true) 1 started 5 ≡ some wg₁)
    × ((early : List Notice) × (done (λ fd. true) wg₁ (some 5)
          ≡ some (
            record started { finished = 2 },
            pos 1,
            early ++ record { fd = 30; value = 2 } ∷ [],
          )))
repeat_done-completes_example =
    repeat_done-completes (λ fd. true) 1 started 5 (λ fd. refl) five_member (init-IsSized (pos 2))
      refl (omega arith)

wait_all-woken_example :
    (wait_all plenty started 31 true
      ≡ some (waits (record started { final_sublist = 30 ∷ 31 ∷ [] }) 31))
    × (woken plenty (record started { final_sublist = 30 ∷ 31 ∷ [] }) (pos 0) 31 (some 2)
        ≡ some (started, read_count (some 2)))
wait_all-woken_example = wait_all-woken plenty started 31 (some 2) refl (ground arith, tt)
