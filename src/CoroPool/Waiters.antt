-- ===== src/CoroPool/Waiters.antt =====
-- The waiters of a pool: whom a return wakes, and what the woken one may find.
use dyco_coroutine.Base.{
  ℕ, ◌≡◌, ◌≢◌, refl, ap, subst, ◌∙◌, Bool, true, false, Option, none, some, List, [], ◌∷◌, ◌>>=◌,
  arith, inl, inr, Option-cases, if◌then◌else◌, OnSome, length, ==_refl, ne→==, ℤ, pos, dec, less,
}
use dyco_coroutine.Blocking.{Notice}
use dyco_coroutine.HashTable.{Table, delete, find, dec_int, no_id}
use dyco_coroutine.HashTable.Entries.{or_null}
use dyco_coroutine.HashTable.Resize.{IsSized, IsPlaced}
use dyco_coroutine.HashTable.Methods.{find-view}
use dyco_coroutine.HashTable.Removal.{delete-Deleted}
use dyco_coroutine.Status.{urgent, iomultiplexing}
use dyco_coroutine.Status.Flags.{testbit-clrbit}
use dyco_coroutine.Schedule.Tree.{SleepTree}
use dyco_coroutine.Schedule.{Schedule, Kernel, has_flag, clear_flag}
use dyco_coroutine.Schedule.Lifecycle.{enlist, unregister, close_epoll}
use dyco_coroutine.Schedule.Fifo.{tail_of}
use dyco_coroutine.Schedule.Calls.{end_wait}
use dyco_coroutine.CoroPool.{Pool, Sublist, available, notify_first}
use dyco_coroutine.CoroPool.Calls.{
  Entry, returned, Answers, obtained, start, take_first, grant, give_back, wait, wait_woken,
  granted, obtain, obtain_woken,
}
use dyco_coroutine.CoroPool.Size.{
  IsBalanced, available-length, pool_of, give_back-IsBalanced, GivenBack,
}
use dyco_coroutine.CoroPool.History.{Entered, obtain-IsBalanced}
use dyco_coroutine.CoroPool.Resizing.{Told, notify_first-IsAlike}

notify_first-first :
    (writes : ℕ → Bool) (cp : Pool) (first : Sublist) (others : List Sublist)
    → cp.sublist ≡ first ∷ others
    → writes first.notifyfd ≡ true
    → notify_first writes cp
      ≡ some (record cp { sublist = others }, record { fd = first.notifyfd; value = 1 } ∷ [])
unfolding notify_first
notify_first-first writes cp first others queue works =
    ap
      (λ ws. elim ws [
        | [] ↦ some (cp, [])
        | head ∷ rest ↦
            if writes head.notifyfd
            then some (record cp { sublist = rest }, record { fd = head.notifyfd; value = 1 } ∷ [])
            else none
      ])
      queue
    ∙ rw works refl

module _ {T : Type 0} where
  -- The scheduler without the coroutine that was returned.
  pub record Released (s : Schedule T) (co : ℕ) (s' : Schedule T) : Type 0 where
    pub unregistered : find s'.cid_co_map (s.coroutines co).cid ≡ some none
    pub counted : s'.coro_count ≡ dec_int s.coro_count
    pub calm : has_flag s' co urgent ≡ false
    pub kept : (c : ℕ) → c ≢ co → s'.coroutines c ≡ s.coroutines c
    pub ready : s'.ready ≡ s.ready
    pub urgent_ready : s'.urgent_ready ≡ s.urgent_ready

  pub unregister-deleted :
      (s : Schedule T) (co : ℕ) (t : Table ℕ) (r : ℤ) (out : Option (Option ℕ))
      → (s.coroutines co).sched ≡ true
      → delete s.cid_co_map (s.coroutines co).cid ≡ some (t, r, out)
      → unregister s co ≡ some (record s { coro_count = dec_int s.coro_count; cid_co_map = t })
  unfolding unregister
  unregister-deleted s co t r out set run = rw set (rw run refl)

  pub close_epoll-plain :
      (kernel : Kernel) (s : Schedule T) (co : ℕ)
      → has_flag s co iomultiplexing ≡ false
      → close_epoll kernel s co ≡ some s
  unfolding close_epoll
  close_epoll-plain kernel s co plain = rw plain refl

  -- A return of a registered coroutine that has no epoll descriptor of its own succeeds where the
  -- descriptor of the first waiter can be written. It unregisters the coroutine, puts it first in
  -- the free list, and writes to the waiter who came first, whom it takes from the list, and to
  -- nobody else.
  pub give_back-Released :
      (kernel : Kernel) (writes : ℕ → Bool) (s : Schedule T) (co : ℕ) (cp : Pool) (first : Sublist)
      (others : List Sublist)
      → (s.coroutines co).sched ≡ true
      → (s.coroutines co).cid ≢ no_id
      → IsSized s.cid_co_map
      → IsPlaced (s.coroutines co).cid s.cid_co_map
      → has_flag s co iomultiplexing ≡ false
      → cp.sublist ≡ first ∷ others
      → writes first.notifyfd ≡ true
      → (s' : Schedule T) × (give_back kernel writes s (some co) (some cp)
          ≡ some (
            s',
            some (record cp {
              freelist = co ∷ cp.freelist;
              activenum = dec cp.activenum;
              sublist = others;
            }),
            record { fd = first.notifyfd; value = 1 } ∷ [],
          ))
        × Released s co s'
  unfolding give_back
  give_back-Released kernel writes s co cp first others set valid sized placed plain queue works =
      let id = (s.coroutines co).cid in
      let (t, r, out, run, d) = delete-Deleted s.cid_co_map id sized valid in
      let s₁ = record s { coro_count = dec_int s.coro_count; cid_co_map = t } in
      let cp₁ = record cp { freelist = co ∷ cp.freelist; activenum = dec cp.activenum } in
      let told = notify_first-first writes cp₁ first others queue works in
      (
        clear_flag s₁ co urgent,
        rw (unregister-deleted s co t r out set run)
            (rw (close_epoll-plain kernel s₁ co plain) (rw told refl)),
        record {
          unregistered =
              find-view t id d.sized
              ∙ ap (λ v. some (or_null v)) (d.reads id placed)
              ∙ rw (==_refl id) refl;
          counted = refl;
          calm =
              rw (==_refl co)
                (testbit-clrbit (s.coroutines co).status urgent urgent (omega arith) (omega arith));
          kept = λ c h. rw (ne→== c co h) refl;
          ready = refl;
          urgent_ready = refl;
        },
      )

  -- A waiter that was woken, in a pool where no coroutine is free any more, gets 0.
  woken-nothing :
      (tree : SleepTree T) (kernel : Kernel) (a u : Bool) (s s' : Schedule T) (cp : Pool) (co : ℕ)
      (notify : Sublist)
      → end_wait tree kernel s co notify.notifyfd ≡ some s'
      → available cp ≡ pos 0
      → obtain_woken tree kernel true a u s cp co notify ≡ some (s', cp, pos 0)
  unfolding obtain_woken wait_woken grant
  woken-nothing tree kernel a u s s' cp co notify ended nothing = rw ended (rw nothing refl)

  abbrev Gives : ℕ → Pool → Schedule T × Option Pool × List Notice → Type 0
  Gives co cp (s', cp', ns) = OnSome (λ (c : Pool). c.freelist ≡ co ∷ cp.freelist) cp'

  give_back-Gives :
      (kernel : Kernel) (writes : ℕ → Bool) (s : Schedule T) (co : ℕ) (cp : Pool)
      → OnSome (Gives co cp) (give_back kernel writes s (some co) (some cp))
  unfolding give_back
  give_back-Gives kernel writes s co cp = elim (Option-cases (unregister s co)) [
    | inl fails ↦ rw fails tt
    | inr (s₁, gone) ↦ rw gone (elim (Option-cases (close_epoll kernel s₁ co)) [
      | inl fails ↦ rw fails tt
      | inr (s₂, closed) ↦
          let cp₁ = record cp { freelist = co ∷ cp.freelist; activenum = dec cp.activenum } in
          let alike = notify_first-IsAlike writes cp₁ in
          rw closed (elim (Option-cases (notify_first writes cp₁)) [
            | inl fails ↦ rw fails tt
            | inr (r, told) ↦
                let same = subst (OnSome (Told cp₁)) told alike in rw told same.freelist
          ])
    ])
  ]

  abbrev Takes : List ℕ → Entry T → Type 0
  Takes rest e = (pool_of e).freelist ≡ rest

  obtain-Takes :
      (tree : SleepTree T) (kernel : Kernel) (answers : Answers) (a u : Bool) (s : Schedule T)
      (cp : Pool) (timeout : ℤ) (co : ℕ) (rest : List ℕ)
      → IsBalanced cp
      → cp.freelist ≡ co ∷ rest
      → OnSome (Takes rest) (obtain tree kernel answers a u s cp timeout)
  unfolding obtain wait granted take_first grant
  obtain-Takes tree kernel answers a u s cp timeout co rest b free =
      let some_free : less (pos 0) (available cp) ≡ true =
        ap (less (pos 0)) (available-length cp b) ∙ rw free (ground arith) in
      rw some_free (rw some_free (taken cp.freelist free))
    where
      taken :
          (freelist : List ℕ)
          → freelist ≡ co ∷ rest
          → OnSome
              (Takes rest)
              (take_first kernel a u s cp freelist >>= λ r. some (returned r.0 r.1 r.2))
      taken [] e = tt
      taken (c ∷ cs) e = elim (Option-cases (enlist kernel s c (obtained a (s.coroutines c)))) [
        | inl fails ↦ rw fails tt
        | inr (r, some_id) ↦ rw some_id (elim (Option-cases (start a u r.0 c)) [
          | inl fails ↦ rw fails tt
          | inr (s', queued) ↦ rw queued (ap tail_of e)
        ])
      ]

  -- A balanced pool has no free coroutine, and an active one is returned. If another coroutine
  -- obtains it before a waiter that was woken ends its wait, the waiter gets 0 in place of a
  -- coroutine, although its time is not over.
  pub obtain_woken-robbed :
      (tree : SleepTree T) (k₁ k₂ k₃ : Kernel) (writes : ℕ → Bool) (answers : Answers)
      (a u a' u' : Bool) (s s₁ s₂ s₃ s₄ s₅ : Schedule T) (cp cp₁ cp₂ : Pool) (co waiter : ℕ)
      (notify : Sublist) (ns : List Notice) (timeout ret : ℤ)
      → IsBalanced cp
      → cp.freelist ≡ []
      → less (pos 0) cp.activenum ≡ true
      → give_back k₁ writes s (some co) (some cp) ≡ some (s₁, some cp₁, ns)
      → obtain tree k₂ answers a u s₂ cp₁ timeout ≡ some (returned s₃ cp₂ ret)
      → end_wait tree k₃ s₄ waiter notify.notifyfd ≡ some s₅
      → obtain_woken tree k₃ true a' u' s₄ cp₂ waiter notify ≡ some (s₅, cp₂, pos 0)
  obtain_woken-robbed tree k₁ k₂ k₃ writes answers a u a' u' s s₁ s₂ s₃ s₄ s₅ cp cp₁ cp₂ co waiter
        notify ns timeout ret b empty busy gives takes ended =
      let b₁ = subst (OnSome GivenBack) gives (give_back-IsBalanced k₁ writes s co cp busy b) in
      let f₁ =
        subst (OnSome (Gives co cp)) gives (give_back-Gives k₁ writes s co cp)
        ∙ ap (◌∷◌ co) empty in
      let b₂ =
        subst (OnSome (Entered tree)) takes
          (obtain-IsBalanced tree k₂ answers a u s₂ cp₁ timeout b₁) in
      let f₂ =
        subst (OnSome (Takes [])) takes
          (obtain-Takes tree k₂ answers a u s₂ cp₁ timeout co [] b₁ f₁) in
      woken-nothing tree k₃ a' u' s₄ s₅ cp₂ waiter notify ended
        (available-length cp₂ b₂ ∙ ap (λ fl. pos (length fl)) f₂)
