-- ===== src/Schedule.antt =====
-- src/dyco_schedule.c and the parts of src/dyco_coroutine.c that it calls: the containers of the
-- coroutines and how a coroutine moves between them.
-- A coroutine is known by its address and read through the heap of the scheduler. What the process
-- cannot survive, by `exit` or by undefined behaviour, is `none`.
pub mod Tree
pub mod Sleep
pub mod Fall
pub mod Wake
pub mod Due
pub mod Expiry
pub mod Twice
pub mod Fifo
pub mod Drain
pub mod Birth
pub mod Waiting
pub mod Robbed
pub mod Calls
pub mod Events
pub mod Lifecycle
pub mod Stack
pub mod Run
pub mod Listed
pub mod Samples
mod Tests
use dyco_coroutine.Base.{
  ℕ, zero, suc, ◌+◌, ◌-◌, ◌*◌, ◌/◌, ◌%◌, ◌^◌, bit_and, bit_or, Bool, true, false, not, ◌||◌, ◌&&◌,
  Option, none, some, List, [], ◌∷◌, ◌++◌, length, ltb, leb, ◌==◌, if◌then◌else◌, ◌>>=◌, ℤ, pos,
  negsuc, inl, inr,
}
use dyco_coroutine.HashTable.{Table, delete, find}
use dyco_coroutine.HashTable.Growth.{Alloc, insert}
use dyco_coroutine.Status.{
  new, ready, sleeping, urgent, waiting, expired, iomultiplexing, setbit, clrbit, testbit,
}
use Tree.{SleepTree}

-- `sched` tells whether the pointer `co->sched` is set, which is NULL up to the registration.
pub record Coroutine : Type 0 where
  pub sched : Bool
  pub stack : Option ℕ
  pub stack_size : ℕ
  pub status : ℕ
  pub sched_count : ℕ
  pub sleep_usecs : ℕ
  pub cid : ℕ
  pub udata : Option ℕ
  pub epollfd : ℕ
  pub sigfd : ℕ
  pub cpool : Option ℕ

pub data ScheduleStatus : Type 0 where
  status_ready status_running status_stopped status_aborted status_done : ScheduleStatus

-- `T` is the red-black tree, which stands for the nodes and for their keys.
pub record Schedule (T : Type 0) : Type 0 where
  pub stack_size : ℕ
  pub sched_id : ℕ
  pub loopwait_timeout : ℕ
  pub birth : ℕ
  pub coro_count : ℕ
  pub cid_gen : ℕ
  pub curr_thread : Option ℕ
  pub status : ScheduleStatus
  pub udata : Option ℕ
  pub urgent_ready : List ℕ
  pub ready : List ℕ
  pub sleeping : T
  pub fd_co_map : Table ℕ
  pub cid_co_map : Table ℕ
  pub coroutines : ℕ → Coroutine

-- The answers of the clock, of `epoll_ctl` for a descriptor, and of the allocator.
pub record Kernel : Type 0 where
  pub usec_now : ℕ
  pub ctl_add : ℕ → Bool
  pub ctl_del : ℕ → Bool
  pub alloc : Alloc

abbrev pub diff_usecs : ℕ → ℕ → ℕ
diff_usecs t1 t2 = (t2 + 2 ^ 64 - t1) % 2 ^ 64

-- `msecs * 1000u` is an unsigned int.
abbrev pub usecs_of : ℕ → ℕ
usecs_of msecs = msecs * 1000 % 2 ^ 32

abbrev pub mem : ℕ → List ℕ → Bool
mem x [] = false
mem x (y ∷ ys) = (x == y) || mem x ys

abbrev pub update {ℓ} : {A : Type ℓ} → (ℕ → A) → ℕ → A → ℕ → A
update f i a j = if j == i then a else f j

module _ {T : Type 0} where
  abbrev pub with_coroutine : Schedule T → ℕ → Coroutine → Schedule T
  with_coroutine s co c = record s { coroutines = update s.coroutines co c }

  abbrev pub set_status : Schedule T → ℕ → ℕ → Schedule T
  set_status s co w = with_coroutine s co (record (s.coroutines co) { status = w })

  abbrev pub has_flag : Schedule T → ℕ → ℕ → Bool
  has_flag s co flag = testbit (s.coroutines co).status flag

  abbrev pub set_flag : Schedule T → ℕ → ℕ → Schedule T
  set_flag s co flag = set_status s co (setbit (s.coroutines co).status flag)

  abbrev pub clear_flag : Schedule T → ℕ → ℕ → Schedule T
  clear_flag s co flag = set_status s co (clrbit (s.coroutines co).status flag)

  -- Both queues link a coroutine through its one field `ready_next`.
  abbrev pub is_queued : Schedule T → ℕ → Bool
  is_queued s co = mem co s.urgent_ready || mem co s.ready

  -- `TAILQ_INSERT_TAIL` into the queue of the URGENT flag; a second insertion breaks the links.
  unfoldable pub enqueue : Schedule T → ℕ → Option (Schedule T)
  unfolding testbit
  enqueue s co =
      if is_queued s co
      then none
      else if has_flag s co urgent
      then some (record s { urgent_ready = s.urgent_ready ++ (co ∷ []) })
      else some (record s { ready = s.ready ++ (co ∷ []) })

  -- `SETBIT(co->status, COROUTINE_STATUS_READY)` and the insertion.
  unfoldable pub make_ready : Schedule T → ℕ → Option (Schedule T)
  unfolding enqueue setbit
  make_ready s co = enqueue (set_flag s co ready) co

  abbrev pub fall_asleep : Schedule T → ℕ → T → ℕ → Schedule T
  fall_asleep s co t key =
      let s' =
        with_coroutine (record s { sleeping = t }) co
          (record (s.coroutines co) { sleep_usecs = key }) in
      clear_flag (set_flag s' co sleeping) co expired

  module _ (tree : SleepTree T) where
    -- schedule_get_expired. The coroutine is NULL where the earliest one sleeps on.
    pub get_expired : ℕ → Schedule T → Option (Option ℕ × Schedule T)
    unfolding setbit clrbit
    get_expired now s = elim (tree.min s.sleeping) [
      | none ↦ some (none, s)
      | some co ↦
          if leb (s.coroutines co).sleep_usecs (diff_usecs s.birth now)
          then (tree.remove s.sleeping co >>= λ t.
              some
                (some co, set_flag (clear_flag (record s { sleeping = t }) co sleeping) co expired))
          else some (none, s)
    ]

    pub min_timeout : ℕ → Schedule T → ℕ
    min_timeout now s = elim (tree.min s.sleeping) [
      | none ↦ s.loopwait_timeout
      | some co ↦
          let key = (s.coroutines co).sleep_usecs in
          let elapsed = diff_usecs s.birth now in if ltb elapsed key then key - elapsed else 0
    ]

    -- The loop of phase A, in which at most `n` rounds find a coroutine. `now i` is what the clock says
    -- in the round i.
    pub probe_expired : ℕ → (ℕ → ℕ) → Schedule T → Option (Schedule T)
    unfolding get_expired make_ready
    probe_expired zero now s =
        get_expired (now 0) s >>= λ r. elim r.0 [ none ↦ some s | some co ↦ none ]
    probe_expired (suc n) now s = get_expired (now 0) s >>= λ r. elim r.0 [
      | none ↦ some s
      | some co ↦ make_ready r.1 co >>= probe_expired n (λ i. now (suc i))
    ]

    -- The loop of `schedule_sched_sleep`, in which `co->sleep_usecs` grows until the key is free.
    pub insert_sleep : ℕ → T → ℕ → ℕ → Option (T × ℕ)
    insert_sleep zero t key co = none
    insert_sleep (suc n) t key co = elim (tree.insert t key co) [
      | inl t' ↦ some (t', key)
      | inr other ↦ insert_sleep n t ((key + 1) % 2 ^ 64) co
    ]

    -- `RB_FIND` looks for the key that the coroutine has from its last sleep.
    pub forget_sleep : Schedule T → ℕ → Option T
    forget_sleep s co = elim (tree.find s.sleeping (s.coroutines co).sleep_usecs) [
      | none ↦ some s.sleeping
      | some other ↦ tree.remove s.sleeping other
    ]

    pub begin_sleep : ℕ → Schedule T → ℕ → T → ℕ → Option (Schedule T)
    unfolding insert_sleep setbit clrbit
    begin_sleep now s co t msecs =
        insert_sleep (suc (length (tree.entries t))) t
          ((diff_usecs s.birth now + usecs_of msecs) % 2 ^ 64) co
        >>= λ r. some (fall_asleep s co r.0 r.1)

    unfoldable pub sched_sleep : ℕ → Schedule T → ℕ → ℤ → Option (Schedule T)
    unfolding forget_sleep begin_sleep
    sched_sleep now s co (negsuc m) = forget_sleep s co >>= λ t. some (record s { sleeping = t })
    sched_sleep now s co (pos zero) = forget_sleep s co >>= λ t. some (record s { sleeping = t })
    sched_sleep now s co (pos (suc m)) = forget_sleep s co >>= λ t. begin_sleep now s co t (suc m)

    unfoldable pub cancel_sleep : Schedule T → ℕ → Option (Schedule T)
    unfolding testbit clrbit
    cancel_sleep s co =
        if has_flag s co sleeping
        then (tree.remove s.sleeping co >>= λ t.
            some (clear_flag (record s { sleeping = t }) co sleeping))
        else some s
