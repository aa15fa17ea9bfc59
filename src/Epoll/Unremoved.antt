-- ===== src/Epoll/Unremoved.antt =====
-- A coroutine that ends while it has an epoll descriptor of its own.
use dyco_coroutine.Base.{
  ℕ, ◌≡◌, refl, sym, subst, ap, ◌∙◌, OnSome, arith, Bool, true, false, ◌⊎◌, inl, inr, none, some,
  Option-cases, Bool-cases,
}
use dyco_coroutine.HashTable.{delete}
use dyco_coroutine.Status.{exited, killed, sleeping, waiting, incoropool, iomultiplexing, testbit}
use dyco_coroutine.Schedule.Tree.{SleepTree}
use dyco_coroutine.Schedule.{Schedule, Coroutine, Kernel, has_flag, cancel_sleep}
use dyco_coroutine.Schedule.Events.{cancel_wait}
use dyco_coroutine.Schedule.Lifecycle.{unregister, close_epoll, free_coroutine}
use dyco_coroutine.CoroPool.{Pool}
use dyco_coroutine.CoroPool.Calls.{give_back}
use dyco_coroutine.Schedcall.{World, Outside, with_sched, return_to_pool}
use dyco_coroutine.Resume.{settle}

module _ {T : Type 0} where
  -- Marked as multiplexing and not as waiting.
  record Multiplexes (s : Schedule T) (co : ℕ) : Type 0 where
    marked : has_flag s co iomultiplexing ≡ true
    idle : has_flag s co waiting ≡ false

  close_epoll-unknown :
      (kernel : Kernel) (s : Schedule T) (co : ℕ)
      → Multiplexes s co
      → kernel.ctl_del (s.coroutines co).epollfd ≡ false
      → close_epoll kernel s co ≡ none
  unfolding close_epoll cancel_wait
  close_epoll-unknown kernel s co m unknown = rw m.marked (rw m.idle (rw unknown refl))

  unregister-kept :
      (s s' : Schedule T) (co : ℕ) → unregister s co ≡ some s' → s'.coroutines ≡ s.coroutines
  unfolding unregister
  unregister-kept s s' co run =
      sym (subst (OnSome (λ (z : Schedule T). s.coroutines ≡ z.coroutines)) run at)
    where
      at : OnSome (λ (z : Schedule T). s.coroutines ≡ z.coroutines) (unregister s co)
      at = elim (Bool-cases (s.coroutines co).sched) [
        | inr unset ↦ rw unset tt
        | inl set ↦ rw set (elim (Option-cases (delete s.cid_co_map (s.coroutines co).cid)) [
          | inl fails ↦ rw fails tt
          | inr (r, gone) ↦ rw gone refl
        ])
      ]

  unregistered-unknown :
      (kernel : Kernel) (s s' : Schedule T) (co : ℕ)
      → Multiplexes s co
      → kernel.ctl_del (s.coroutines co).epollfd ≡ false
      → unregister s co ≡ some s'
      → close_epoll kernel s' co ≡ none
  unregistered-unknown kernel s s' co m unknown run =
      let e : s'.coroutines co ≡ s.coroutines co = ap (λ f. f co) (unregister-kept s s' co run) in
      close_epoll-unknown kernel s' co
        (record {
          marked = ap (λ (c : Coroutine). testbit c.status iomultiplexing) e ∙ m.marked;
          idle = ap (λ (c : Coroutine). testbit c.status waiting) e ∙ m.idle;
        })
        (ap (λ (c : Coroutine). kernel.ctl_del c.epollfd) e ∙ unknown)

  free_coroutine-unknown :
      (kernel : Kernel) (s : Schedule T) (co : ℕ)
      → Multiplexes s co
      → kernel.ctl_del (s.coroutines co).epollfd ≡ false
      → free_coroutine kernel s (some co) ≡ none
  unfolding free_coroutine
  free_coroutine-unknown kernel s co m unknown = elim (Option-cases (unregister s co)) [
    | inl fails ↦ rw fails refl
    | inr (s', run) ↦ rw run (unregistered-unknown kernel s s' co m unknown run)
  ]

  give_back-unknown :
      (kernel : Kernel) (writes : ℕ → Bool) (s : Schedule T) (co : ℕ) (cp : Pool)
      → Multiplexes s co
      → kernel.ctl_del (s.coroutines co).epollfd ≡ false
      → give_back kernel writes s (some co) (some cp) ≡ none
  unfolding give_back
  give_back-unknown kernel writes s co cp m unknown = elim (Option-cases (unregister s co)) [
    | inl fails ↦ rw fails refl
    | inr (s', run) ↦ rw run (rw (unregistered-unknown kernel s s' co m unknown run) refl)
  ]

  return_to_pool-unknown :
      (outside : Outside) (w : World T) (co p : ℕ)
      → (w.sched.coroutines co).cpool ≡ some p
      → Multiplexes w.sched co
      → outside.kernel.ctl_del (w.sched.coroutines co).epollfd ≡ false
      → return_to_pool outside w co ≡ none
  unfolding return_to_pool
  return_to_pool-unknown outside w co p of_pool m unknown =
      rw (return_to_pool, of_pool)
        (rw (give_back-unknown outside.kernel outside.writes w.sched co (w.pools p) m unknown) refl)

  -- A coroutine has called dyco_epoll_init and not dyco_epoll_destroy. Its function is over, and it
  -- is awake and waits for nothing, so that its epoll descriptor is not in the set of the scheduler,
  -- out of which the kernel refuses to take it. Then the end of its resume ends the process, whether
  -- it belongs to a pool or not.
  pub settle-Multiplexes :
      (tree : SleepTree T) (outside : Outside) (w : World T) (co : ℕ)
      → has_flag w.sched co killed ≡ false
      → has_flag w.sched co exited ≡ true
      → has_flag w.sched co sleeping ≡ false
      → has_flag w.sched co waiting ≡ false
      → has_flag w.sched co iomultiplexing ≡ true
      → (has_flag w.sched co incoropool ≡ false)
        ⊎ ((p : ℕ) × ((w.sched.coroutines co).cpool ≡ some p))
      → outside.kernel.ctl_del (w.sched.coroutines co).epollfd ≡ false
      → settle tree outside w co ≡ none
  unfolding settle cancel_sleep
  settle-Multiplexes tree outside w co alive over up idle marked whose unknown =
      let s = record w.sched { curr_thread = none } in
      let m : Multiplexes s co = record { marked = marked; idle = idle } in
      let alone = free_coroutine-unknown outside.kernel s co m unknown in
      elim (Bool-cases (has_flag w.sched co incoropool)) [
        | inr single ↦ rw (alive, over) (rw up (rw single (rw alone refl)))
        | inl pooled ↦ elim whose [
          | inl single ↦ absurd (ground (arith, pooled, single))
          | inr (p, of_pool) ↦
              let back = return_to_pool-unknown outside (with_sched w s) co p of_pool m unknown in
              rw (alive, over) (rw up (rw pooled (rw back refl)))
        ]
      ]
