-- ===== src/Schedule/Lifecycle.antt =====
-- src/dyco_coroutine.c: the creation, the end and the attributes of a coroutine.
use dyco_coroutine.Base.{
  ℕ, ◌+◌, ◌*◌, ◌^◌, ◌%◌, bit_and, bit_or, Bool, true, false, not, Option, none, some, [], ◌∷◌, ◌++◌,
  ◌==◌, if◌then◌else◌, ◌>>=◌, ℤ, pos, negsuc, minus_one, minus_two, int_of,
}
use dyco_coroutine.HashTable.{Table, delete, find, inc_int, dec_int, no_id}
use dyco_coroutine.HashTable.Growth.{insert}
use dyco_coroutine.Status.{
  new, ready, urgent, ownstack, allocstackmem, iomultiplexing, setbit, clrbit, testbit,
}
use dyco_coroutine.Schedule.{
  Schedule, Coroutine, ScheduleStatus, status_ready, status_done, Kernel, set_flag, clear_flag,
  has_flag, with_coroutine, is_queued,
}
use dyco_coroutine.Schedule.Events.{cancel_wait}

-- What `newcoro` leaves in the block; an `int` of -1 is its pattern.
unfoldable pub new_coroutine : Coroutine
unfolding setbit
new_coroutine = record {
  sched = false;
  stack = none;
  stack_size = 0;
  status = bit_or (2 ^ new) (2 ^ ready);
  sched_count = 0;
  sleep_usecs = 0;
  cid = 0;
  udata = none;
  epollfd = no_id;
  sigfd = no_id;
  cpool = none;
}

abbrev pub next_gen : ℕ → ℕ
next_gen gen = bit_and ((gen + 1) % 2 ^ 32) 0xffffff

abbrev pub cid_of : ℕ → ℕ → ℕ
cid_of sched_id gen = bit_or (bit_and sched_id 0xff * 2 ^ 24) gen

unfoldable pub after_create : ScheduleStatus → ScheduleStatus
after_create status_done = status_ready
after_create s = s

-- The stack of a coroutine that has not run yet. The memory is what `posix_memalign` gives; an assert
-- on its result is compiled out.
unfoldable pub new_stack : ℕ → Option ℕ → Coroutine → Option ℕ → ℕ → Coroutine × ℤ
unfolding setbit clrbit
new_stack page_size memory c stackptr stacksize =
    if stacksize == 0
    then (record c { stack = none; stack_size = 0; status = clrbit c.status ownstack }, pos 0)
    else elim stackptr [
      | none ↦ (
        record c {
          stack = memory;
          stack_size = (stacksize + stacksize % page_size) % 2 ^ 64;
          status = setbit (setbit c.status ownstack) allocstackmem;
        },
        pos 1,
      )
      | some p ↦ (
        record c { stack = some p; stack_size = stacksize; status = setbit c.status ownstack },
        pos 1,
      )
    ]

module _ {T : Type 0} where
  -- The next id, its registration and the count of a block that is `c` so far. The assert on the
  -- insertion is compiled out.
  unfoldable pub enlist : Kernel → Schedule T → ℕ → Coroutine → Option (Schedule T × ℕ)
  enlist kernel s co c =
      let gen = next_gen s.cid_gen in
      let cid = cid_of s.sched_id gen in
      insert kernel.alloc s.cid_co_map cid (some co) >>= λ r. some (
        with_coroutine
            (record s { cid_gen = gen; cid_co_map = r.0; coro_count = inc_int s.coro_count }) co
            (record c { sched = true; cid = cid }),
        cid,
      )

  -- The scheduler with the new coroutine, whose id the table has.
  abbrev pub registered : Schedule T → ℕ → Table ℕ → Schedule T
  registered s co cids =
      let gen = next_gen s.cid_gen in
      with_coroutine
        (record s {
          cid_gen = gen;
          cid_co_map = cids;
          coro_count = inc_int s.coro_count;
          status = after_create s.status;
        })
        co (record new_coroutine { sched = true; cid = cid_of s.sched_id gen })

  -- A failed insertion exits.
  unfoldable pub register : Kernel → Schedule T → ℕ → Option (Schedule T × ℕ)
  unfolding new_coroutine
  register kernel s co =
      let cid = cid_of s.sched_id (next_gen s.cid_gen) in
      insert kernel.alloc s.cid_co_map cid (some co) >>= λ r. elim r.1 [
        | negsuc n ↦ none
        | pos n ↦ some (registered s co r.0, cid)
      ]

  -- The address is what `calloc` answers. A block that is still in a queue is not free, so the
  -- insertion always succeeds in C; here it is defined where that holds.
  unfoldable pub create : Kernel → Schedule T → Option ℕ → Option (Schedule T × ℤ)
  unfolding register
  create kernel s none = some (s, minus_two)
  create kernel s (some co) = register kernel s co >>= λ r.
      if is_queued r.0 co
      then none
      else some (record r.0 { ready = r.0.ready ++ (co ∷ []) }, int_of r.1)

  unfoldable pub create_urgent : Kernel → Schedule T → Option ℕ → Option (Schedule T × ℤ)
  unfolding register setbit
  create_urgent kernel s none = some (s, minus_two)
  create_urgent kernel s (some co) = register kernel s co >>= λ r.
      if is_queued r.0 co
      then none
      else some (
        record (set_flag r.0 co urgent) { urgent_ready = r.0.urgent_ready ++ (co ∷ []) },
        int_of r.1,
      )

  -- The epoll descriptor of a coroutine that multiplexes is removed a second time.
  unfoldable pub close_epoll : Kernel → Schedule T → ℕ → Option (Schedule T)
  unfolding cancel_wait testbit
  close_epoll kernel s co =
      if has_flag s co iomultiplexing
      then (cancel_wait kernel s co (s.coroutines co).epollfd >>= λ r.
          if kernel.ctl_del (s.coroutines co).epollfd then some r.0 else none)
      else some s

  -- The count and the table without the coroutine, through `co->sched`, which may be NULL.
  unfoldable pub unregister : Schedule T → ℕ → Option (Schedule T)
  unregister s co =
      if not (s.coroutines co).sched
      then none
      else (delete s.cid_co_map (s.coroutines co).cid >>= λ r.
          some (record s { coro_count = dec_int s.coro_count; cid_co_map = r.0 }))

  -- What `freecoro` leaves of the scheduler. The block itself and its stack are freed.
  unfoldable pub free_coroutine : Kernel → Schedule T → Option ℕ → Option (Schedule T)
  unfolding unregister close_epoll
  free_coroutine kernel s none = some s
  free_coroutine kernel s (some co) = unregister s co >>= λ s'. close_epoll kernel s' co

  -- The lookup by which the attribute functions begin: -1 without such a coroutine.
  unfoldable pub with_cid : Schedule T → ℕ → (ℕ → Option (Schedule T × ℤ)) → Option (Schedule T × ℤ)
  with_cid s cid act =
      find s.cid_co_map cid >>= λ r. elim r [ none ↦ some (s, minus_one) | some co ↦ act co ]

  unfoldable pub set_stack : ℕ → Option ℕ → Schedule T → ℕ → Option ℕ → ℕ → Option (Schedule T × ℤ)
  unfolding with_cid new_stack testbit
  set_stack page_size memory s cid stackptr stacksize = with_cid s cid (λ co.
      if not (has_flag s co new)
      then some (s, minus_one)
      else (let r = new_stack page_size memory (s.coroutines co) stackptr stacksize in
          some (with_coroutine s co r.0, r.1)))

  unfoldable pub set_udata : Schedule T → ℕ → Option ℕ → Option (Schedule T × ℤ)
  unfolding with_cid
  set_udata s cid udata =
      with_cid s cid
        (λ co. some (with_coroutine s co (record (s.coroutines co) { udata = udata }), pos 0))

  pub set_urgent : Schedule T → ℕ → Option (Schedule T × ℤ)
  unfolding with_cid setbit
  set_urgent s cid = with_cid s cid (λ co. some (set_flag s co urgent, pos 0))

  pub unset_urgent : Schedule T → ℕ → Option (Schedule T × ℤ)
  unfolding with_cid clrbit
  unset_urgent s cid = with_cid s cid (λ co. some (clear_flag s co urgent, pos 0))

  pub get_sched_count : Schedule T → ℕ → Option (Schedule T × ℤ)
  unfolding with_cid
  get_sched_count s cid = with_cid s cid (λ co. some (s, int_of (s.coroutines co).sched_count))

  -- `*stackptr` and `*stacksize` with the result, which is 1 where the stack is its own.
  unfoldable pub get_stack : Schedule T → ℕ → Option (Option (Option ℕ × ℕ × Bool))
  unfolding testbit
  get_stack s cid = find s.cid_co_map cid >>= λ r. elim r [
    | none ↦ some none
    | some co ↦
        let c = s.coroutines co in some (some (c.stack, c.stack_size, testbit c.status ownstack))
  ]

  unfoldable pub get_coro_id : Option (Schedule T) → ℤ
  get_coro_id none = minus_one
  get_coro_id (some s) = elim s.curr_thread [
    | none ↦ minus_one
    | some co ↦ int_of (s.coroutines co).cid
  ]

  unfoldable pub get_udata : Schedule T → ℕ → Option (Option (Option ℕ))
  get_udata s cid = find s.cid_co_map cid >>= λ r. elim r [
    | none ↦ some none
    | some co ↦ some (some (s.coroutines co).udata)
  ]
