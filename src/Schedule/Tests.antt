-- ===== src/Schedule/Tests.antt =====
-- Concrete schedulers, over a sorted list as the tree, and each theorem at one of them.
use dyco_coroutine.Base.{
  ℕ, ◌-◌, ◌^◌, ◌≤◌, ◌==◌, true, false, if◌then◌else◌, length, pos, arith, ◌++◌, ◌>>=◌, ◌≡◌, refl,
  Option, none, some, List, [], ◌∷◌,
}
use dyco_coroutine.Schedule.Tree.{Sleeper, find_key}
use dyco_coroutine.Base.{◌+◌, ◌*◌, ◌<◌, int_of, OnSome}
use dyco_coroutine.HashTable.{Table, empty_bucket, init, init_width, max_width, find, delete}
use dyco_coroutine.HashTable.History.{init-IsSized, init-IsPlaced}
use dyco_coroutine.Base.{false}
use dyco_coroutine.Schedule.Calls.{coroutine_sleep, long_sleep-lost}
use dyco_coroutine.Status.{asymmetric, testbit, setbit}
use dyco_coroutine.Schedule.{
  Schedule, Coroutine, Kernel, status_running, sched_sleep, probe_expired, make_ready,
}
use dyco_coroutine.Schedule.Events.{get_waitco, deliver_one, cancel_wait, epoll_timeout}
use dyco_coroutine.Schedule.Lifecycle.{create}
use dyco_coroutine.Schedule.Run.{continues, after_resume, ready_phase}
use dyco_coroutine.Schedule.Twice.{deliver_one-probe_expired}
use dyco_coroutine.Schedule.Fifo.{IsDistinct, Appends, resume_each, ready_phase-resume_each}
use dyco_coroutine.Schedule.Birth.{Created, next_cid, create-Created}
use dyco_coroutine.Status.{sleeping}
use dyco_coroutine.Schedule.{cancel_sleep, mem}
use dyco_coroutine.Schedule.Due.{cos}
use dyco_coroutine.Schedule.Robbed.{sched_sleep-robs}
use dyco_coroutine.Schedule.Listed.{listed, listed-Laws}
use dyco_coroutine.Schedule.Waiting.{remaining, epoll_timeout-remaining}
use dyco_coroutine.Schedule.Fall.{Forgets, Asleep, sched_sleep-Asleep}
use dyco_coroutine.Schedule.Due.{IsFit, due}
use dyco_coroutine.Schedule.Expiry.{Probed, probe_expired-Probed}

abbrev sleeper : ℕ → ℕ → Coroutine
sleeper key status = record {
  sched = true;
  stack = none;
  stack_size = 0;
  status = status;
  sched_count = 1;
  sleep_usecs = key;
  cid = 0x1000001;
  udata = none;
  epollfd = 2 ^ 32 - 1;
  sigfd = 2 ^ 32 - 1;
  cpool = none;
}

-- 7 sleeps and is urgent, 8 sleeps.
abbrev coroutine_at : ℕ → Coroutine
coroutine_at c =
    if c == 7 then sleeper 500 0x98 else if c == 8 then sleeper 600 0x18 else sleeper 0 0x8

abbrev waits_for_five : Table ℕ
waits_for_five = record {
  width = 1;
  mask = 1;
  count = 1;
  buckets = empty_bucket ∷ record { id = 5; value = some 7; next = [] } ∷ [];
}

abbrev idle : List Sleeper → List ℕ → Schedule (List Sleeper)
idle sleepers queue = record {
  stack_size = 0x10000;
  sched_id = 1;
  loopwait_timeout = 10000000;
  birth = 1000;
  coro_count = 3;
  cid_gen = 3;
  curr_thread = none;
  status = status_running;
  udata = none;
  urgent_ready = [];
  ready = queue;
  sleeping = sleepers;
  fd_co_map = waits_for_five;
  cid_co_map = init (pos 2);
  coroutines = coroutine_at;
}

abbrev three_sleepers : List Sleeper
three_sleepers =
    record { key = 500; co = 7 } ∷ record { key = 600; co = 8 } ∷ record { key = 4000; co = 9 } ∷ []

-- The due time of coroutine 10 is the key of 9.
sched_sleep-Asleep_example :
    (t : List Sleeper) × Forgets 0 three_sleepers t
    × ((s' : Schedule (List Sleeper)) × (sched_sleep listed 2000 (idle three_sleepers []) 10 (pos 3)
          ≡ some s')
        × Asleep listed 2000 (idle three_sleepers []) 10 3 t s')
sched_sleep-Asleep_example =
    sched_sleep-Asleep listed listed-Laws 2000 (idle three_sleepers []) 10 2 (omega arith)

abbrev asleep_state : Schedule (List Sleeper)
asleep_state = record (idle [] []) {
  sleeping = three_sleepers;
  coroutines = λ c. if c == 9 then sleeper 4000 0x18 else coroutine_at c;
}

asleep_state-IsFit : IsFit asleep_state three_sleepers
unfolding IsFit
asleep_state-IsFit = (
  refl,
  refl,
  (ground arith, (ground arith, tt)),
  (refl, refl, (ground arith, tt), (refl, refl, tt, tt)),
)

three_due : length (due (λ i. 700) three_sleepers) ≤ 3
unfolding due
three_due = omega arith

probe_expired-Probed_example :
    (s' : Schedule (List Sleeper)) × (probe_expired listed 3 (λ i. 1700) asleep_state ≡ some s')
    × Probed listed (λ i. 700) asleep_state three_sleepers s'
probe_expired-Probed_example =
    probe_expired-Probed listed listed-Laws 3 (λ i. 1700) (λ i. 700) asleep_state three_sleepers
      (λ i. refl) refl asleep_state-IsFit three_due

abbrev plenty : Kernel
plenty = record {
  usec_now = 1700;
  ctl_add = λ fd. true;
  ctl_del = λ fd. true;
  alloc = record { node = true; table = true; moved = λ i. true };
}

five_waits : get_waitco asleep_state 5 ≡ some (some 7)
unfolding get_waitco find
five_waits = refl

deliver_seven : (s' : Schedule (List Sleeper)) × (deliver_one plenty asleep_state 5 ≡ some s')
unfolding deliver_one cancel_wait make_ready delete testbit setbit find
deliver_seven = (_, refl)

deliver_one-probe_expired_example : probe_expired listed 3 (λ i. 1700) deliver_seven.0 ≡ none
deliver_one-probe_expired_example =
    deliver_one-probe_expired listed listed-Laws plenty 3 (λ i. 1700) 5 asleep_state deliver_seven.0
      (record { key = 500; co = 7 })
      (record { key = 600; co = 8 } ∷ record { key = 4000; co = 9 } ∷ []) five_waits refl refl refl
      deliver_seven.1

-- Every turn ends with the coroutine at the end of the queue again.
abbrev again : Schedule (List Sleeper) → ℕ → Option (Schedule (List Sleeper))
again s co = some (record s { ready = s.ready ++ (co ∷ []) })

again-Appends :
    (s : Schedule (List Sleeper)) (co : ℕ)
    → after_resume s.status ≡ continues
    → OnSome (Appends s) (again s co)
again-Appends s co goes = record { added = co ∷ []; ready = refl; status = goes }

two_queued-IsDistinct : IsDistinct (7 ∷ 8 ∷ [])
unfolding IsDistinct
two_queued-IsDistinct = ((ground arith, tt), (tt, tt))

running_continues : after_resume status_running ≡ continues
unfolding after_resume
running_continues = refl

ready_phase-resume_each_example :
    ready_phase again (idle [] (7 ∷ 8 ∷ []))
    ≡ (resume_each again (7 ∷ 8 ∷ []) (idle [] (7 ∷ 8 ∷ [])) >>= λ s'. some (s', continues))
ready_phase-resume_each_example =
    ready_phase-resume_each again again-Appends (idle [] (7 ∷ 8 ∷ [])) running_continues
      two_queued-IsDistinct

new_table-narrow : (init {V = ℕ} (pos 2)).width < max_width
unfolding init init_width
new_table-narrow = omega arith

create-Created_example :
    (s' : Schedule (List Sleeper)) × (create plenty (idle [] []) (some 10)
      ≡ some (s', int_of (next_cid (idle [] []))))
    × Created (idle [] []) 10 s'
create-Created_example =
    create-Created plenty (idle [] []) 10 (record { node = refl; table = refl; moved = λ i. refl })
      (init-IsSized (pos 2)) new_table-narrow (ground arith) (ground arith)
      (init-IsPlaced (pos 2) (next_cid (idle [] []))) refl

soon : remaining 500 100 < 2 ^ 31 * 1000
unfolding remaining
soon = omega arith

epoll_timeout-remaining_example :
    (ms : ℕ) × (epoll_timeout listed 1100 asleep_state ≡ some ms)
    × (ms < 2 ^ 31)
    × (ms * 1000 ≤ remaining 500 100)
    × (remaining 500 100 < (ms + 1) * 1000)
epoll_timeout-remaining_example =
    epoll_timeout-remaining listed listed-Laws 1100 asleep_state (record { key = 500; co = 7 })
      (record { key = 600; co = 8 } ∷ record { key = 4000; co = 9 } ∷ []) refl refl refl refl soon

symmetric : testbit 0x8 asymmetric ≡ false
unfolding testbit
symmetric = refl

long_sleep-lost_example :
    coroutine_sleep listed 1700 (idle three_sleepers []) 10 (2 ^ 31) ≡ some (idle three_sleepers [])
unfolding find_key
long_sleep-lost_example =
    long_sleep-lost listed listed-Laws 1700 (idle three_sleepers []) 10 (2 ^ 31) (omega arith)
      (omega arith) symmetric refl

-- The last sleep of coroutine 9 had the key of 7.
abbrev stale_key : Schedule (List Sleeper)
stale_key = record (idle (record { key = 500; co = 7 } ∷ []) []) {
  coroutines = λ c. if c == 9 then sleeper 500 0x8 else coroutine_at c;
}

one_sleeper-IsDistinct : IsDistinct (cos (record { key = 500; co = 7 } ∷ []))
unfolding IsDistinct cos
one_sleeper-IsDistinct = (tt, tt)

seven_sleeps : testbit 0x98 sleeping ≡ true
unfolding testbit
seven_sleeps = refl

seven_found : find_key 500 (record { key = 500; co = 7 } ∷ []) ≡ some 7
unfolding find_key
seven_found = refl

sched_sleep-robs_example :
    (s' : Schedule (List Sleeper)) × (sched_sleep listed 1200 stale_key 9 (pos 3) ≡ some s')
    × (mem 7 (cos s'.sleeping) ≡ false)
    × (cancel_sleep listed s' 7 ≡ none)
sched_sleep-robs_example =
    sched_sleep-robs listed listed-Laws 1200 stale_key 9 7 2 (omega arith) seven_found
      (ground arith) one_sleeper-IsDistinct seven_sleeps
