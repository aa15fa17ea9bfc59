-- ===== src/Schedule/Calls.antt =====
-- src/dyco_coroutine.c and src/dyco_schedule.c: what a running coroutine calls, up to its yield and
-- behind it, and the creation of a scheduler.
use dyco_coroutine.Base.{
  ◌+◌, ◌-◌, ℕ, ◌^◌, ◌%◌, ◌*◌, ◌≤◌, ◌<◌, ◌≡◌, refl, false, Option, none, some, [], ◌==◌,
  if◌then◌else◌, ◌>>=◌, ℤ, pos, minus_one, int_of, ltb, arith,
}
use dyco_coroutine.HashTable.{init, clear}
use dyco_coroutine.Status.{asymmetric, testbit}
use dyco_coroutine.Schedule.Tree.{SleepTree, Laws, find_key}
use dyco_coroutine.Schedule.{
  Schedule, Coroutine, Kernel, status_ready, status_stopped, has_flag, make_ready, sched_sleep,
  forget_sleep, cancel_sleep,
}
use dyco_coroutine.Schedule.Events.{sched_wait, cancel_wait}

abbrev pub or_default : ℕ → ℕ → ℕ
or_default n d = if n == 0 then d else n

-- A `size_t` that goes through an `int`.
pub through_int : ℕ → ℕ
through_int n = let w = n % 2 ^ 32 in if ltb w (2 ^ 31) then w else w + (2 ^ 64 - 2 ^ 32)

abbrev pub max_stacksize : ℕ
max_stacksize = 64 * 1024

abbrev pub default_timeout : ℕ
default_timeout = 10000000

module _ {T : Type 0} where
  -- dyco_schedule_create, where the allocations succeed. `coroutines` is the heap, which has none.
  pub create_schedule : T → (ℕ → Coroutine) → ℕ → ℕ → ℕ → ℕ → Schedule T
  unfolding through_int
  create_schedule empty coroutines id now stack_size loopwait_timeout = record {
    stack_size = through_int (or_default stack_size max_stacksize);
    sched_id = id;
    loopwait_timeout = or_default loopwait_timeout default_timeout;
    birth = now;
    coro_count = 0;
    cid_gen = 0;
    curr_thread = none;
    status = status_ready;
    udata = none;
    urgent_ready = [];
    ready = [];
    sleeping = empty;
    fd_co_map = init (pos 0);
    cid_co_map = init (pos 0);
    coroutines = coroutines;
  }

  -- dyco_schedule_free, but for the blocks of the scheduler and of its stack: the tables are cleared,
  -- and the coroutines that they led to stay allocated.
  unfoldable free_schedule : Schedule T → Schedule T
  free_schedule s = record s { fd_co_map = clear s.fd_co_map; cid_co_map = clear s.cid_co_map }

  pub get_schedule_udata : Option (Schedule T) → ℤ × Option (Option ℕ)
  get_schedule_udata none = (minus_one, none)
  get_schedule_udata (some s) = (pos 0, some s.udata)

  pub get_sched_id : Option (Schedule T) → ℤ
  get_sched_id none = minus_one
  get_sched_id (some s) = int_of s.sched_id

  unfoldable pub stop : Schedule T → Schedule T
  stop s = record s { status = status_stopped; curr_thread = none }

  pub get_coro_count : Option (Schedule T) → ℤ
  get_coro_count none = minus_one
  get_coro_count (some s) = int_of s.coro_count

  pub set_schedule_udata : Option (Schedule T) → Option ℕ → Option (Schedule T) × ℤ
  set_schedule_udata none udata = (none, minus_one)
  set_schedule_udata (some s) udata = (some (record s { udata = udata }), pos 0)

  module _ (tree : SleepTree T) where
    -- dyco_coroutine_sleep up to its yield; the `uint32_t` becomes an `int` in the call of
    -- schedule_sched_sleep. An asymmetric coroutine exits.
    pub coroutine_sleep : ℕ → Schedule T → ℕ → ℕ → Option (Schedule T)
    unfolding make_ready sched_sleep testbit
    coroutine_sleep now s co msecs =
        if has_flag s co asymmetric
        then none
        else if msecs == 0
        then make_ready s co
        else sched_sleep tree now s co (int_of msecs)

    -- `waitev` where `poll` finds nothing and the timeout is not 0: up to its yield.
    pub begin_wait : Kernel → Schedule T → ℕ → ℕ → ℤ → Option (Schedule T)
    unfolding sched_wait sched_sleep testbit
    begin_wait kernel s co fd timeout =
        if has_flag s co asymmetric
        then none
        else (sched_wait kernel s co fd >>= λ s'. sched_sleep tree kernel.usec_now s' co timeout)

    -- Behind its yield.
    unfoldable pub end_wait : Kernel → Schedule T → ℕ → ℕ → Option (Schedule T)
    unfolding cancel_sleep cancel_wait
    end_wait kernel s co fd =
        cancel_sleep tree s co >>= λ s'. cancel_wait kernel s' co fd >>= λ r. some r.0

    -- A call of sleep for 2^31 milliseconds or more, by a symmetric coroutine whose last key is in
    -- no node of the tree, yields and leaves the scheduler as it is: it puts the coroutine neither
    -- into a queue nor into the tree.
    pub long_sleep-lost :
        Laws tree
        → (now : ℕ) (s : Schedule T) (co msecs : ℕ) → 2 ^ 31 ≤ msecs
        → msecs < 2 ^ 32
        → has_flag s co asymmetric ≡ false
        → find_key (s.coroutines co).sleep_usecs (tree.entries s.sleeping) ≡ none
        → coroutine_sleep now s co msecs ≡ some s
    unfolding coroutine_sleep sched_sleep forget_sleep
    long_sleep-lost laws now s co msecs low high symmetric free =
        let w : msecs % 2 ^ 32 ≡ msecs = omega arith in
        let some_time : (msecs == 0) ≡ false = ground arith in
        let negative : ltb msecs (2 ^ 31) ≡ false = ground arith in
        rw
          (
            coroutine_sleep,
            symmetric,
            some_time,
            w,
            negative,
            sched_sleep,
            forget_sleep,
            laws.find-key s.sleeping (s.coroutines co).sleep_usecs,
            free,
          )
          refl
