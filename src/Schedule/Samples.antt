-- ===== src/Schedule/Samples.antt =====
-- A concrete scheduler for the tests of the modules that work on one.
use dyco_coroutine.Base.{ℕ, ◌-◌, ◌^◌, refl, true, none, some, List, [], ◌∷◌, arith}
use dyco_coroutine.HashTable.{Table, empty_bucket}
use dyco_coroutine.HashTable.Resize.{IsSized, IsPlaced}
use dyco_coroutine.HashTable.Array.{all_entries}
use dyco_coroutine.HashTable.Entries.{occurrences}
use dyco_coroutine.HashTable.Methods.{HasMemory}
use dyco_coroutine.Schedule.{Schedule, Coroutine, Kernel, status_running}
use dyco_coroutine.Schedule.Tree.{Sleeper}

-- One coroutine, at the address 7 and with the id 5.
abbrev pub one_id : Table ℕ
one_id = record {
  width = 1;
  mask = 1;
  count = 1;
  buckets = empty_bucket ∷ record { id = 5; value = some 7; next = [] } ∷ [];
}

abbrev pub no_ids : Table ℕ
no_ids = record { width = 1; mask = 1; count = 0; buckets = empty_bucket ∷ empty_bucket ∷ [] }

pub one_id-IsSized : IsSized one_id
one_id-IsSized = record {
  power = refl;
  full = refl;
  tidy = (
    record { unchained = λ _. refl; marked = tt },
    (record { unchained = λ _. refl; marked = tt }, tt),
  );
}

pub one_id-IsPlaced : IsPlaced 5 one_id
unfolding occurrences all_entries
one_id-IsPlaced = record { once = omega arith; home = refl }

abbrev pub coroutine_with : ℕ → Coroutine
coroutine_with status = record {
  sched = true;
  stack = none;
  stack_size = 0;
  status = status;
  sched_count = 1;
  sleep_usecs = 0;
  cid = 5;
  udata = none;
  epollfd = 2 ^ 32 - 1;
  sigfd = 2 ^ 32 - 1;
  cpool = none;
}

-- The coroutines have the status word, and 8 is current.
abbrev pub running_with : ℕ → Table ℕ → Schedule (List Sleeper)
running_with status cids = record {
  stack_size = 0x10000;
  sched_id = 1;
  loopwait_timeout = 10000000;
  birth = 1000;
  coro_count = 3;
  cid_gen = 3;
  curr_thread = some 8;
  status = status_running;
  udata = none;
  urgent_ready = [];
  ready = [];
  sleeping = [];
  fd_co_map = no_ids;
  cid_co_map = cids;
  coroutines = λ c. coroutine_with status;
}

abbrev pub able : Kernel
able = record {
  usec_now = 1700;
  ctl_add = λ fd. true;
  ctl_del = λ fd. true;
  alloc = record { node = true; table = true; moved = λ i. true };
}

abbrev pub able-HasMemory : HasMemory able.alloc
able-HasMemory = record { node = refl; table = refl; moved = λ i. refl }
