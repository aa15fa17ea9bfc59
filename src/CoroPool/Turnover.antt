-- ===== src/CoroPool/Turnover.antt =====
-- A coroutine goes out of the pool and comes back.
use dyco_coroutine.Base.{
  ℕ, ◌<◌, ◌≡◌, ◌≢◌, refl, ap, ◌∙◌, true, false, some, List, [], ◌∷◌, ◌++◌, arith, inl, ==_refl,
  ne→==, ℤ, pos, inc, less, int_of,
}
use dyco_coroutine.HashTable.{find, inc_int, no_id, max_width}
use dyco_coroutine.HashTable.Entries.{or_null}
use dyco_coroutine.HashTable.Resize.{IsSized, IsPlaced}
use dyco_coroutine.HashTable.Methods.{HasMemory, insert-Inserted, find-view}
use dyco_coroutine.Schedule.Tree.{SleepTree}
use dyco_coroutine.Schedule.{Schedule, Kernel, is_queued, with_coroutine}
use dyco_coroutine.Schedule.Lifecycle.{enlist, after_create, next_gen}
use dyco_coroutine.Schedule.Birth.{next_cid}
use dyco_coroutine.CoroPool.{Pool, available}
use dyco_coroutine.CoroPool.Calls.{
  returned, Answers, obtained, start, take_first, grant, wait, granted, obtain,
}
use dyco_coroutine.CoroPool.Size.{IsBalanced, available-length}

module _ {T : Type 0} where
  -- The scheduler after a coroutine of a pool has become a new coroutine.
  pub record Obtained (s : Schedule T) (co : ℕ) (s' : Schedule T) : Type 0 where
    pub registered : find s'.cid_co_map (next_cid s) ≡ some (some co)
    pub queued : s'.ready ≡ s.ready ++ (co ∷ [])
    pub fresh :
        s'.coroutines co
        ≡ record (obtained false (s.coroutines co)) { sched = true; cid = next_cid s }
    pub kept : (c : ℕ) → c ≢ co → s'.coroutines c ≡ s.coroutines c
    pub counted : s'.coro_count ≡ inc_int s.coro_count
    pub status : s'.status ≡ after_create s.status

  take_first-Obtained :
      (kernel : Kernel) (s : Schedule T) (cp : Pool) (co : ℕ) (rest : List ℕ)
      → HasMemory kernel.alloc
      → IsSized s.cid_co_map
      → s.cid_co_map.width < max_width
      → next_cid s ≢ no_id
      → next_cid s ≢ 0
      → IsPlaced (next_cid s) s.cid_co_map
      → is_queued s co ≡ false
      → (s' : Schedule T) × (take_first kernel false false s cp (co ∷ rest)
          ≡ some (
            s',
            record cp { activenum = inc cp.activenum; freelist = rest },
            int_of (next_cid s),
          ))
        × Obtained s co s'
  unfolding take_first enlist start
  take_first-Obtained kernel s cp co rest memory sized small valid nonzero placed unqueued =
      let (t, r, run, i) =
        insert-Inserted kernel.alloc s.cid_co_map (next_cid s) (some co) memory small sized valid in
      let s₁ =
        with_coroutine
          (record s {
            cid_gen = next_gen s.cid_gen;
            cid_co_map = t;
            coro_count = inc_int s.coro_count;
          })
          co (record (obtained false (s.coroutines co)) { sched = true; cid = next_cid s }) in
      (
        record s₁ { ready = s.ready ++ (co ∷ []); status = after_create s.status },
        rw run (rw unqueued refl),
        record {
          registered =
              find-view t (next_cid s) i.sized
              ∙ ap (λ v. some (or_null v)) (i.reads (next_cid s) (inl nonzero) placed)
              ∙ rw (==_refl (next_cid s)) refl;
          queued = refl;
          fresh = rw (==_refl co) refl;
          kept = λ c different. rw (ne→== c co different) refl;
          counted = refl;
          status = refl;
        },
      )

  grant-first :
      (kernel : Kernel) (s : Schedule T) (cp : Pool) (freelist : List ℕ)
      → cp.freelist ≡ freelist
      → less (pos 0) (available cp) ≡ true
      → grant kernel false false s cp (available cp) ≡ take_first kernel false false s cp freelist
  unfolding grant
  grant-first kernel s cp freelist free some_free =
      rw some_free (ap (take_first kernel false false s cp) free)

  -- An obtain that is symmetric and not urgent, from a balanced pool with a free coroutine that is
  -- in no queue, with memory, a sized table of the ids below its widest, and a next id that is none
  -- of 0 and -1 and stands at most once in the table, in its own bucket, does not wait and succeeds
  -- with that id: the first free coroutine is registered under it as new, counted, and last in the
  -- ready queue, the others are as they were, and the pool has one free coroutine less and one
  -- active more.
  pub obtain-Obtained :
      (tree : SleepTree T) (kernel : Kernel) (answers : Answers) (s : Schedule T) (cp : Pool)
      (timeout : ℤ) (co : ℕ) (rest : List ℕ)
      → IsBalanced cp
      → cp.freelist ≡ co ∷ rest
      → HasMemory kernel.alloc
      → IsSized s.cid_co_map
      → s.cid_co_map.width < max_width
      → next_cid s ≢ no_id
      → next_cid s ≢ 0
      → IsPlaced (next_cid s) s.cid_co_map
      → is_queued s co ≡ false
      → (s' : Schedule T) × (obtain tree kernel answers false false s cp timeout
          ≡ some (
              returned s'
                (record cp { activenum = inc cp.activenum; freelist = rest })
                (int_of (next_cid s))))
        × Obtained s co s'
  unfolding obtain wait granted
  obtain-Obtained tree kernel answers s cp timeout co rest b free memory sized small valid nonzero
        placed unqueued =
      let (s', run, o) =
        take_first-Obtained kernel s cp co rest memory sized small valid nonzero placed unqueued in
      let some_free : less (pos 0) (available cp) ≡ true =
        ap (less (pos 0)) (available-length cp b) ∙ rw free (ground arith) in
      let g = grant-first kernel s cp (co ∷ rest) free some_free ∙ run in
      (s', rw some_free (rw g refl), o)
