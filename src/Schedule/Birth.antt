-- ===== src/Schedule/Birth.antt =====
-- The creation of a coroutine: its id, its registration and its place in the queue.
use dyco_coroutine.Base.{
  ℕ, ◌≡◌, ◌≢◌, ◌<◌, refl, ap, ◌∙◌, inl, true, false, Option, none, some, [], ◌∷◌, ◌++◌,
  if◌then◌else◌, ==_refl, ne→==, ℤ, pos, int_of,
}
use dyco_coroutine.HashTable.{find, inc_int, no_id, max_width}
use dyco_coroutine.HashTable.Entries.{or_null, is_found}
use dyco_coroutine.HashTable.Resize.{IsSized, IsPlaced, view}
use dyco_coroutine.HashTable.Methods.{HasMemory, insert-Inserted, find-view}
use dyco_coroutine.Schedule.{Schedule, Kernel, is_queued}
use dyco_coroutine.Schedule.Lifecycle.{
  create, register, registered, cid_of, next_gen, new_coroutine, after_create,
}

-- The id that the next coroutine gets.
abbrev pub next_cid : {T : Type 0} → Schedule T → ℕ
next_cid s = cid_of s.sched_id (next_gen s.cid_gen)

pub record Created {T : Type 0} (s : Schedule T) (co : ℕ) (s' : Schedule T) : Type 0 where
  pub registered : find s'.cid_co_map (next_cid s) ≡ some (some co)
  pub others :
      (q : ℕ)
      → q ≢ 0
      → q ≢ next_cid s
      → IsPlaced q s.cid_co_map
      → view s'.cid_co_map q ≡ view s.cid_co_map q
  pub sized : IsSized s'.cid_co_map
  pub queued : s'.ready ≡ s.ready ++ (co ∷ [])
  pub fresh : s'.coroutines co ≡ record new_coroutine { sched = true; cid = next_cid s }
  pub kept : (c : ℕ) → c ≢ co → s'.coroutines c ≡ s.coroutines c
  pub counted : s'.coro_count ≡ inc_int s.coro_count
  pub status : s'.status ≡ after_create s.status

insert_code :
    (v : Option (Option ℕ)) (r : ℤ)
    → r ≡ (if is_found v then pos 0 else pos 1)
    → (n : ℕ) × (r ≡ pos n)
insert_code none r e = (1, e)
insert_code (some v) r e = (0, e)

module _ {T : Type 0} where
  -- With memory, a table below the widest, an id other than 0 and -1 and an unqueued block, a
  -- creation succeeds with the id: the table maps the id to the coroutine and keeps the others, the
  -- coroutine is new, counted and at the end of the ready queue, and no other changes.
  pub create-Created :
      (kernel : Kernel) (s : Schedule T) (co : ℕ)
      → HasMemory kernel.alloc
      → IsSized s.cid_co_map
      → s.cid_co_map.width < max_width
      → next_cid s ≢ no_id
      → next_cid s ≢ 0
      → IsPlaced (next_cid s) s.cid_co_map
      → is_queued s co ≡ false
      → (s' : Schedule T) × (create kernel s (some co) ≡ some (s', int_of (next_cid s)))
        × Created s co s'
  unfolding create register
  create-Created kernel s co memory sized small valid nonzero placed free =
      let (t, r, run, i) =
        insert-Inserted kernel.alloc s.cid_co_map (next_cid s) (some co) memory small sized valid in
      let (n, code) = insert_code (view s.cid_co_map (next_cid s)) r i.code in
      (
        record (registered s co t) { ready = s.ready ++ (co ∷ []) },
        rw run (rw code (rw free refl)),
        record {
          registered =
              find-view t (next_cid s) i.sized
              ∙ ap (λ v. some (or_null v)) (i.reads (next_cid s) (inl nonzero) placed)
              ∙ rw (==_refl (next_cid s)) refl;
          others =
              λ q n different p. i.reads q (inl n) p ∙ rw (ne→== q (next_cid s) different) refl;
          sized = i.sized;
          queued = refl;
          fresh = rw (==_refl co) refl;
          kept = λ c different. rw (ne→== c co different) refl;
          counted = refl;
          status = refl;
        },
      )
