-- ===== src/CoroPool/History.antt =====
-- Every history of a pool: what its calls, cut at their waits, do to its sizes in any order.
use dyco_coroutine.Base.{
  ℕ, ◌≡◌, subst, Bool, true, false, ◌||◌, Option, none, some, List, ◌>>=◌, inl, inr, Bool-cases,
  Option-cases, if◌then◌else◌, OnSome, ℤ, pos, less,
}
use dyco_coroutine.Blocking.{Notice, is_zero}
use dyco_coroutine.Status.{asymmetric}
use dyco_coroutine.Schedule.Tree.{SleepTree}
use dyco_coroutine.Schedule.{Schedule, Kernel, has_flag, sched_sleep}
use dyco_coroutine.Schedule.Events.{sched_wait}
use dyco_coroutine.Schedule.Calls.{end_wait}
use dyco_coroutine.CoroPool.{Pool, Sublist, Block, available, resize}
use dyco_coroutine.CoroPool.Calls.{
  Entry, returned, waits, Answers, leave, grant, give_back, join, wait, wait_woken, granted, obtain,
  obtain_woken,
}
use dyco_coroutine.CoroPool.Size.{
  IsBalanced, pool_of, with_sublist, Granted, GivenBack, grant-IsBalanced, give_back-IsBalanced,
}
use dyco_coroutine.CoroPool.Resizing.{Resized, resize-IsBalanced}

module _ {T : Type 0} (tree : SleepTree T) where
  abbrev pub Entered : Entry T → Type 0
  Entered e = IsBalanced (pool_of e)

  join-IsBalanced :
      (kernel : Kernel) (s : Schedule T) (cp : Pool) (co : ℕ) (notify : Sublist) (timeout : ℤ)
      → IsBalanced cp
      → OnSome Entered (join tree kernel s cp co notify timeout)
  unfolding join
  join-IsBalanced kernel s cp co notify timeout b =
      elim (Option-cases (sched_wait kernel s co notify.notifyfd)) [
        | inl fails ↦ rw fails tt
        | inr (s₁, waiting) ↦
            rw waiting (elim (Option-cases (sched_sleep tree kernel.usec_now s₁ co timeout)) [
              | inl fails ↦ rw fails tt
              | inr (s₂, asleep) ↦ rw asleep (with_sublist cp _ b)
            ])
      ]

  wait-IsBalanced :
      (kernel : Kernel) (answers : Answers) (s : Schedule T) (cp : Pool) (timeout : ℤ)
      → IsBalanced cp
      → OnSome Entered (wait tree kernel answers s cp timeout)
  unfolding wait
  wait-IsBalanced kernel answers s cp timeout b =
      elim (Bool-cases (less (pos 0) (available cp) || is_zero timeout)) [
        | inl at_once ↦ rw at_once b
        | inr patient ↦ rw patient (inside s.curr_thread)
      ]
    where
      noded :
          (co fd : ℕ) (node : Option ℕ)
          → OnSome Entered (elim node [
            | none ↦ some (returned s cp (pos 0))
            | some addr ↦ join tree kernel s cp co (record { addr = addr; notifyfd = fd }) timeout
          ])
      noded co fd none = b
      noded co fd (some addr) =
          join-IsBalanced kernel s cp co (record { addr = addr; notifyfd = fd }) timeout b

      opened :
          (co : ℕ) (eventfd : Option ℕ)
          → OnSome Entered (
              eventfd >>= λ fd. elim answers.node [
                | none ↦ some (returned s cp (pos 0))
                | some addr ↦
                    join tree kernel s cp co (record { addr = addr; notifyfd = fd }) timeout
              ])
      opened co none = tt
      opened co (some fd) = noded co fd answers.node

      inside :
          (current : Option ℕ)
          → OnSome Entered (
              current >>= λ co.
              if has_flag s co asymmetric
              then none
              else (answers.eventfd >>= λ fd. elim answers.node [
                | none ↦ some (returned s cp (pos 0))
                | some addr ↦
                    join tree kernel s cp co (record { addr = addr; notifyfd = fd }) timeout
              ]))
      inside none = tt
      inside (some co) = elim (Bool-cases (has_flag s co asymmetric)) [
        | inl refused ↦ rw refused tt
        | inr symmetric ↦ rw symmetric (opened co answers.eventfd)
      ]

  granted-IsBalanced :
      (kernel : Kernel) (a u : Bool) (e : Entry T)
      → IsBalanced (pool_of e)
      → OnSome Entered (granted tree kernel a u e)
  unfolding granted
  granted-IsBalanced kernel a u (waits s cp notify) b = b
  granted-IsBalanced kernel a u (returned s cp ret) b =
      let kept = grant-IsBalanced kernel a u s cp ret b in
      elim (Option-cases (grant kernel a u s cp ret)) [
        | inl fails ↦ rw fails tt
        | inr (r, runs) ↦ rw runs (subst (OnSome Granted) runs kept)
      ]

  pub obtain-IsBalanced :
      (kernel : Kernel) (answers : Answers) (a u : Bool) (s : Schedule T) (cp : Pool) (timeout : ℤ)
      → IsBalanced cp
      → OnSome Entered (obtain tree kernel answers a u s cp timeout)
  unfolding obtain
  obtain-IsBalanced kernel answers a u s cp timeout b =
      let kept = wait-IsBalanced kernel answers s cp timeout b in
      elim (Option-cases (wait tree kernel answers s cp timeout)) [
        | inl fails ↦ rw fails tt
        | inr (e, runs) ↦
            rw runs (granted-IsBalanced kernel a u e (subst (OnSome Entered) runs kept))
      ]

  obtain_woken-IsBalanced :
      (kernel : Kernel) (read a u : Bool) (s : Schedule T) (cp : Pool) (co : ℕ) (notify : Sublist)
      → IsBalanced cp
      → OnSome Granted (obtain_woken tree kernel read a u s cp co notify)
  unfolding obtain_woken wait_woken
  obtain_woken-IsBalanced kernel read a u s cp co notify b =
      let list = if read then some cp.sublist else leave notify.addr cp.sublist in
      elim (Option-cases (end_wait tree kernel s co notify.notifyfd)) [
        | inl fails ↦ rw fails tt
        | inr (s', ended) ↦ rw ended (elim (Option-cases list) [
          | inl fails ↦ rw fails tt
          | inr (ws, left) ↦
              let cp' = record cp { sublist = ws } in
              rw left (grant-IsBalanced kernel a u s' cp' (available cp') (with_sublist cp ws b))
        ])
      ]

  -- One call, or the end of one that waited. Between two of them the scheduler may have changed in
  -- any way. Only coroutines that were obtained are returned, and no resize goes below their number.
  pub data Step (cp : Pool) : Pool → Type 0 where
    obtains :
        (kernel : Kernel) (answers : Answers) (a u : Bool) (s s' : Schedule T) (timeout : ℤ)
        (cp' : Pool) (ret : ℤ)
        → obtain tree kernel answers a u s cp timeout ≡ some (returned s' cp' ret)
        → Step cp cp'
    blocks :
        (kernel : Kernel) (answers : Answers) (a u : Bool) (s s' : Schedule T) (timeout : ℤ)
        (cp' : Pool) (notify : Sublist)
        → obtain tree kernel answers a u s cp timeout ≡ some (waits s' cp' notify)
        → Step cp cp'
    wakes :
        (kernel : Kernel) (read a u : Bool) (s s' : Schedule T) (co : ℕ) (notify : Sublist)
        (cp' : Pool) (ret : ℤ)
        → obtain_woken tree kernel read a u s cp co notify ≡ some (s', cp', ret)
        → Step cp cp'
    returns :
        (kernel : Kernel) (writes : ℕ → Bool) (s s' : Schedule T) (co : ℕ) (cp' : Pool)
        (notices : List Notice)
        → less (pos 0) cp.activenum ≡ true
        → give_back kernel writes s (some co) (some cp) ≡ some (s', some cp', notices)
        → Step cp cp'
    resizes :
        (kernel : Kernel) (page_size : ℕ) (a : Bool) (pool : ℕ) (memory : ℕ → Block)
        (writes : ℕ → Bool) (s s' : Schedule T) (newsize : ℤ) (cp' : Pool) (notices : List Notice)
        → less newsize cp.activenum ≡ false
        → resize kernel page_size a pool memory writes s cp newsize ≡ some (s', cp', notices)
        → Step cp cp'

  Step-IsBalanced : {cp cp' : Pool} → Step cp cp' → IsBalanced cp → IsBalanced cp'
  Step-IsBalanced {cp} (obtains kernel answers a u s s' timeout cp' ret run) b =
      subst (OnSome Entered) run (obtain-IsBalanced kernel answers a u s cp timeout b)
  Step-IsBalanced {cp} (blocks kernel answers a u s s' timeout cp' notify run) b =
      subst (OnSome Entered) run (obtain-IsBalanced kernel answers a u s cp timeout b)
  Step-IsBalanced {cp} (wakes kernel read a u s s' co notify cp' ret run) b =
      subst (OnSome Granted) run (obtain_woken-IsBalanced kernel read a u s cp co notify b)
  Step-IsBalanced {cp} (returns kernel writes s s' co cp' notices busy run) b =
      subst (OnSome GivenBack) run (give_back-IsBalanced kernel writes s co cp busy b)
  Step-IsBalanced {cp}
        (resizes kernel page_size a pool memory writes s s' newsize cp' notices enough run) b =
      subst (OnSome Resized) run
        (resize-IsBalanced kernel page_size a pool memory writes s cp newsize enough b)

  pub data Run (cp : Pool) : Pool → Type 0 where
    here : Run cp cp
    next : {p q : Pool} → Run cp p → Step p q → Run cp q

  -- After any history of calls, in which only obtained coroutines are returned and no resize goes
  -- below their number, every coroutine of the pool is free or active: the total is the length of
  -- the free list and the number of the active ones.
  pub Run-IsBalanced : {cp cp' : Pool} → Run cp cp' → IsBalanced cp → IsBalanced cp'
  Run-IsBalanced here b = b
  Run-IsBalanced (next run step) b = Step-IsBalanced step (Run-IsBalanced run b)
