-- ===== src/CoroPool/Calls.antt =====
-- src/dyco_coropool.c: the calls that take a coroutine out of a pool and give it back.
use dyco_coroutine.Base.{
  ℕ, Bool, ◌||◌, Option, none, some, List, [], ◌∷◌, ◌++◌, ◌==◌, if◌then◌else◌, ◌>>=◌, ℤ, pos,
  int_of, inc, dec, less,
}
use dyco_coroutine.HashTable.{find, no_id}
use dyco_coroutine.Blocking.{Notice, is_zero}
use dyco_coroutine.Status.{
  new, ready, urgent, ownstack, allocstackmem, incoropool, asymmetric, setbit, clrbit, testbit,
}
use dyco_coroutine.Schedule.Tree.{SleepTree}
use dyco_coroutine.Schedule.{
  Schedule, Coroutine, Kernel, has_flag, set_flag, clear_flag, is_queued, sched_sleep,
}
use dyco_coroutine.Schedule.Events.{sched_wait}
use dyco_coroutine.Schedule.Calls.{end_wait}
use dyco_coroutine.Schedule.Lifecycle.{enlist, unregister, close_epoll, after_create}
use dyco_coroutine.CoroPool.{Pool, Sublist, available, notify_first}

unfoldable pub leave_tail : ℕ → List Sublist → List Sublist
leave_tail addr [] = []
leave_tail addr (x ∷ xs) = if x.addr == addr then xs else x ∷ leave_tail addr xs

-- A waiter that timed out takes its own node out. The search starts by a look behind the first.
unfoldable pub leave : ℕ → List Sublist → Option (List Sublist)
unfolding leave_tail
leave addr [] = none
leave addr (x ∷ xs) = some (if x.addr == addr then xs else x ∷ leave_tail addr xs)

-- `newstatus` of cp_obtain.
unfoldable pub obtained_status : Bool → ℕ → ℕ
unfolding setbit testbit
obtained_status isasymmetric status =
    let w₀ = setbit (setbit (setbit 0 new) ready) incoropool in
    let w₁ = if testbit status ownstack then setbit w₀ ownstack else w₀ in
    let w₂ = if testbit status allocstackmem then setbit w₁ allocstackmem else w₁ in
    if isasymmetric then setbit w₂ asymmetric else w₂

unfoldable pub obtained : Bool → Coroutine → Coroutine
unfolding obtained_status
obtained isasymmetric c = record c {
  status = obtained_status isasymmetric c.status;
  sched_count = 0;
  sleep_usecs = 0;
  udata = none;
  epollfd = no_id;
  sigfd = no_id;
}

-- How a call that may wait ends: it has returned, or its coroutine yields with a node in the list.
pub data Entry (T : Type 0) : Type 0 where
  returned : Schedule T → Pool → ℤ → Entry T
  waits : Schedule T → Pool → Sublist → Entry T

-- What `eventfd` and `malloc` answer to a waiter.
pub record Answers : Type 0 where
  pub eventfd : Option ℕ
  pub node : Option ℕ

module _ {T : Type 0} where
  -- The queue of a coroutine that was obtained; an asymmetric one has none.
  unfoldable pub start : Bool → Bool → Schedule T → ℕ → Option (Schedule T)
  unfolding setbit
  start isasymmetric isurgent s co =
      if isasymmetric
      then some s
      else if is_queued s co
      then none
      else if isurgent
      then some (record (set_flag s co urgent) {
        urgent_ready = s.urgent_ready ++ (co ∷ []);
        status = after_create s.status;
      })
      else some (record s { ready = s.ready ++ (co ∷ []); status = after_create s.status })

  unfoldable pub take_first :
      Kernel → Bool → Bool → Schedule T → Pool → List ℕ → Option (Schedule T × Pool × ℤ)
  unfolding enlist start obtained after_create
  take_first kernel isasymmetric isurgent s cp [] = none
  take_first kernel isasymmetric isurgent s cp (co ∷ freelist) =
      enlist kernel s co (obtained isasymmetric (s.coroutines co)) >>= λ r.
      start isasymmetric isurgent r.0 co >>= λ s'.
      some (s', record cp { activenum = inc cp.activenum; freelist = freelist }, int_of r.1)

  -- cp_obtain behind its call of cp_wait, whose result is `ret`.
  unfoldable pub grant :
      Kernel → Bool → Bool → Schedule T → Pool → ℤ → Option (Schedule T × Pool × ℤ)
  unfolding take_first
  grant kernel isasymmetric isurgent s cp ret =
      if less (pos 0) ret
      then take_first kernel isasymmetric isurgent s cp cp.freelist
      else some (s, cp, ret)

  -- cp_return to the pool that `co->cpool` points to; NULL is `none`.
  unfoldable pub give_back :
      Kernel
      → (ℕ → Bool)
      → Schedule T
      → Option ℕ
      → Option Pool
      → Option (Schedule T × Option Pool × List Notice)
  unfolding unregister close_epoll notify_first clrbit
  give_back kernel writes s none cp = some (s, cp, [])
  give_back kernel writes s (some co) none = some (s, none, [])
  give_back kernel writes s (some co) (some cp) = unregister s co >>= λ s₁.
      close_epoll kernel s₁ co >>= λ s₂.
      notify_first writes (record cp { freelist = co ∷ cp.freelist; activenum = dec cp.activenum })
      >>= λ r. some (clear_flag s₂ co urgent, some r.0, r.1)

  -- dyco_asymcpool_return, for a coroutine of the pool.
  pub give_back_id :
      Kernel
      → (ℕ → Bool)
      → Schedule T
      → ℕ
      → Option Pool
      → Option (Schedule T × Option Pool × List Notice)
  unfolding give_back
  give_back_id kernel writes s cid cp =
      find s.cid_co_map cid >>= λ co. give_back kernel writes s co cp

  module _ (tree : SleepTree T) where
    -- The node goes to the end of the list, and the coroutine waits for its descriptor.
    unfoldable pub join : Kernel → Schedule T → Pool → ℕ → Sublist → ℤ → Option (Entry T)
    unfolding sched_wait sched_sleep
    join kernel s cp co notify timeout = sched_wait kernel s co notify.notifyfd >>= λ s₁.
        sched_sleep tree kernel.usec_now s₁ co timeout >>= λ s₂.
        some (waits s₂ (record cp { sublist = cp.sublist ++ (notify ∷ []) }) notify)

    -- cp_wait up to its yield. Only a symmetric coroutine may wait.
    unfoldable pub wait : Kernel → Answers → Schedule T → Pool → ℤ → Option (Entry T)
    unfolding join testbit
    wait kernel answers s cp timeout =
        let remain = available cp in
        if less (pos 0) remain || is_zero timeout
        then some (returned s cp remain)
        else (s.curr_thread >>= λ co.
            if has_flag s co asymmetric
            then none
            else (answers.eventfd >>= λ fd. elim answers.node [
              | none ↦ some (returned s cp (pos 0))
              | some addr ↦ join kernel s cp co (record { addr = addr; notifyfd = fd }) timeout
            ]))

    -- Behind the yield, with the answer of `eventfd_read`, which fails where the wait timed out.
    unfoldable pub wait_woken :
        Kernel → Bool → Schedule T → Pool → ℕ → Sublist → Option (Schedule T × Pool × ℤ)
    unfolding end_wait leave
    wait_woken kernel read s cp co notify = end_wait tree kernel s co notify.notifyfd >>= λ s'.
        (if read then some cp.sublist else leave notify.addr cp.sublist) >>= λ sublist.
        (let cp' = record cp { sublist = sublist } in some (s', cp', available cp'))

    unfoldable pub granted : Kernel → Bool → Bool → Entry T → Option (Entry T)
    unfolding grant
    granted kernel isasymmetric isurgent (waits s cp notify) = some (waits s cp notify)
    granted kernel isasymmetric isurgent (returned s cp ret) =
        grant kernel isasymmetric isurgent s cp ret >>= λ r. some (returned r.0 r.1 r.2)

    -- cp_obtain up to the yield of its wait, if it waits.
    unfoldable pub obtain :
        Kernel → Answers → Bool → Bool → Schedule T → Pool → ℤ → Option (Entry T)
    unfolding wait granted
    obtain kernel answers isasymmetric isurgent s cp timeout =
        wait kernel answers s cp timeout >>= granted kernel isasymmetric isurgent

    -- And behind it.
    unfoldable pub obtain_woken :
        Kernel
        → Bool
        → Bool
        → Bool
        → Schedule T
        → Pool
        → ℕ
        → Sublist
        → Option (Schedule T × Pool × ℤ)
    unfolding wait_woken grant
    obtain_woken kernel read isasymmetric isurgent s cp co notify =
        wait_woken kernel read s cp co notify >>= λ r.
        grant kernel isasymmetric isurgent r.0 r.1 r.2
