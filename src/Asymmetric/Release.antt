-- ===== src/Asymmetric/Release.antt =====
-- The end of an asymmetric coroutine.
use dyco_coroutine.Base.{
  ℕ, ◌≡◌, ◌≢◌, refl, sym, ap, ◌∙◌, true, Option, none, some, ==_refl, ne→==, minus_one,
}
use dyco_coroutine.HashTable.{find, dec_int, no_id}
use dyco_coroutine.HashTable.Entries.{or_null}
use dyco_coroutine.HashTable.Resize.{IsSized, IsPlaced}
use dyco_coroutine.HashTable.Methods.{find-view}
use dyco_coroutine.HashTable.Removal.{delete-Deleted}
use dyco_coroutine.Status.{asymmetric}
use dyco_coroutine.Schedule.{Schedule, has_flag}
use dyco_coroutine.Schedule.Lifecycle.{
  get_stack, get_udata, set_stack, set_udata, with_cid, unregister,
}
use dyco_coroutine.Asymmetric.{
  free, resume, free_found, resume_found, asym_set_stack, asym_set_udata, asym_get_stack,
  asym_get_udata,
}

module _ {T : Type 0} where
  -- The calls dyco_asymcoro_* on the id have no effect, and those with a result say so.
  pub record Dead (s : Schedule T) (cid : ℕ) : Type 0 where
    pub resumes :
        (page_size : ℕ) (memory : Option ℕ) (turn : Schedule T → ℕ → Option (Schedule T))
        → resume page_size memory turn s cid ≡ some (s, minus_one)
    pub frees : free s cid ≡ some s
    pub stacks :
        (page_size : ℕ) (memory stackptr : Option ℕ) (size : ℕ)
        → asym_set_stack page_size memory s cid stackptr size ≡ some (s, minus_one)
    pub udata : (u : Option ℕ) → asym_set_udata s cid u ≡ some (s, minus_one)
    pub get_stacks : asym_get_stack s cid ≡ some none
    pub get_udatas : asym_get_udata s cid ≡ some none

  absent-Dead : (s : Schedule T) (cid : ℕ) → find s.cid_co_map cid ≡ some none → Dead s cid
  unfolding asym_get_stack asym_get_udata get_stack get_udata resume free asym_set_stack
      asym_set_udata set_stack set_udata with_cid free_found resume_found
  absent-Dead s cid absent = record {
    resumes = λ page_size memory turn. rw absent refl;
    frees = rw absent refl;
    stacks = λ page_size memory stackptr size. rw absent refl;
    udata = λ u. rw absent refl;
    get_stacks = rw absent refl;
    get_udatas = rw absent refl;
  }

  -- An asymmetric coroutine is registered under its id, which is not -1 and occurs once in a sized
  -- table. Freeing it by the id succeeds and takes it off the count and the table, in which the other
  -- ids keep their coroutines. In every later state in which the table still has no coroutine under
  -- the id, resume, setStack, setUdata, getStack and getUdata of the id fail, and these and a second
  -- release change nothing.
  pub free-Dead :
      (s : Schedule T) (cid co : ℕ)
      → IsSized s.cid_co_map
      → IsPlaced cid s.cid_co_map
      → cid ≢ no_id
      → find s.cid_co_map cid ≡ some (some co)
      → has_flag s co asymmetric ≡ true
      → (s.coroutines co).sched ≡ true
      → (s.coroutines co).cid ≡ cid
      → (s' : Schedule T) × (free s cid ≡ some s')
        × ((s'' : Schedule T) → find s''.cid_co_map cid ≡ find s'.cid_co_map cid → Dead s'' cid)
        × (s'.coro_count ≡ dec_int s.coro_count)
        × ((q : ℕ) → q ≢ cid → IsPlaced q s.cid_co_map → find s'.cid_co_map q ≡ find s.cid_co_map q)
  unfolding free free_found unregister
  free-Dead s cid co sized placed valid known kind placed_by same =
      let (t, r, out, run, d) = delete-Deleted s.cid_co_map cid sized valid in
      let s' = record s { coro_count = dec_int s.coro_count; cid_co_map = t } in
      let absent : find t cid ≡ some none =
        find-view t cid d.sized
        ∙ ap (λ v. some (or_null v)) (d.reads cid placed)
        ∙ rw (==_refl cid) refl in
      (
        s',
        rw known (rw kind (rw placed_by (rw same (rw run refl)))),
        λ s'' same_entry. absent-Dead s'' cid (same_entry ∙ absent),
        refl,
        λ q different p.
            find-view t q d.sized
            ∙ ap (λ v. some (or_null v)) (d.reads q p)
            ∙ rw (ne→== q cid different) (sym (find-view s.cid_co_map q sized)),
      )
