-- ===== src/CoroPool/Tests.antt =====
-- Each theorem at a small pool.
use dyco_coroutine.Base.{
  ℕ, ◌+◌, ◌≡◌, refl, true, false, none, some, List, [], ◌∷◌, All, length, arith, ℤ, pos, int_of,
}
use dyco_coroutine.Blocking.{Notice}
use dyco_coroutine.HashTable.{delete}
use dyco_coroutine.HashTable.Growth.{insert}
use dyco_coroutine.HashTable.Resize.{IsSized, IsPlaced}
use dyco_coroutine.HashTable.Array.{all_entries}
use dyco_coroutine.HashTable.Entries.{occurrences}
use dyco_coroutine.Status.{testbit}
use dyco_coroutine.Schedule.Tree.{Sleeper}
use dyco_coroutine.Schedule.Listed.{listed}
use dyco_coroutine.Schedule.{Schedule, cancel_sleep}
use dyco_coroutine.Schedule.Birth.{next_cid}
use dyco_coroutine.Schedule.Events.{cancel_wait}
use dyco_coroutine.Schedule.Calls.{end_wait}
use dyco_coroutine.Schedule.Lifecycle.{unregister, close_epoll}
use dyco_coroutine.Schedule.Samples.{one_id, no_ids, running_with, able, able-HasMemory}
use dyco_coroutine.CoroPool.{Pool, available, notify_first, create, resize, destroy}
use dyco_coroutine.CoroPool.Calls.{returned, obtain, obtain_woken, give_back}
use dyco_coroutine.CoroPool.Size.{IsBalanced}
use dyco_coroutine.CoroPool.Creation.{IsPooled, create-Filled}
use dyco_coroutine.CoroPool.Turnover.{Obtained, obtain-Obtained}
use dyco_coroutine.CoroPool.Waiters.{obtain_woken-robbed}
use dyco_coroutine.CoroPool.History.{here, next, returns, Run-IsBalanced}
use dyco_coroutine.CoroPool.Release.{resize-unset}

-- Idle coroutines of a pool, with the id 5.
abbrev pooled : Schedule (List Sleeper)
pooled = running_with 0x4002 one_id

abbrev pool_of_two : Pool
pool_of_two = record {
  totalsize = pos 2;
  activenum = pos 1;
  stacksize = pos 0;
  sublist = record { addr = 30; notifyfd = 9 } ∷ [];
  freelist = 7 ∷ [];
}

abbrev pool_of_two-IsBalanced : IsBalanced pool_of_two
pool_of_two-IsBalanced = record { active = 1; activenum = refl; totalsize = refl }

create-Filled_example :
    (s' : Schedule (List Sleeper)) × (cp : Pool) × (create 4096
        (λ i. record { address = some (100 + i); stack = some 0x9000 })
        (some 3)
        pooled
        (pos 2)
        0x4000
        true
      ≡ some (s', some cp))
    × IsBalanced cp
    × (length cp.freelist ≡ 2)
    × (available cp ≡ pos 2)
    × (cp.sublist ≡ [])
    × All (IsPooled 3 s') cp.freelist
create-Filled_example =
    create-Filled 4096 true 0x4000 3 (λ i. record { address = some (100 + i); stack = some 0x9000 })
      (λ i. 100 + i) pooled 1 (λ j. refl)

no_ids-IsSized : IsSized no_ids
no_ids-IsSized = record {
  power = refl;
  full = refl;
  tidy = (
    record { unchained = λ _. refl; marked = tt },
    (record { unchained = λ _. refl; marked = tt }, tt),
  );
}

abbrev blank : Schedule (List Sleeper)
blank = running_with 0x4002 no_ids

no_ids-IsPlaced : IsPlaced (next_cid blank) no_ids
unfolding occurrences all_entries
no_ids-IsPlaced = record { once = omega arith; home = refl }

obtain-Obtained_example :
    (s' : Schedule (List Sleeper)) × (obtain listed able
        (record { eventfd = none; node = none })
        false
        false
        blank
        pool_of_two
        (pos 10)
      ≡ some (
          returned s'
            (record pool_of_two { activenum = pos 2; freelist = [] })
            (int_of (next_cid blank))))
    × Obtained blank 7 s'
obtain-Obtained_example =
    obtain-Obtained listed able (record { eventfd = none; node = none }) blank pool_of_two (pos 10)
      7 [] pool_of_two-IsBalanced refl able-HasMemory no_ids-IsSized (omega arith) (ground arith)
      (ground arith) no_ids-IsPlaced refl

give_back_pool :
    (s' : Schedule (List Sleeper)) × (cp' : Pool) × (ns : List Notice) × (give_back able
        (λ fd. true)
        pooled
        (some 8)
        (some pool_of_two)
      ≡ some (s', some cp', ns))
unfolding give_back unregister delete close_epoll notify_first testbit
give_back_pool = (_, _, _, refl)

Run-IsBalanced_example : IsBalanced give_back_pool.1
Run-IsBalanced_example =
    Run-IsBalanced listed
      (next here (
        returns able (λ fd. true) pooled give_back_pool.0 8 give_back_pool.1 give_back_pool.2 refl
          give_back_pool.3))
      pool_of_two-IsBalanced

-- All are active, and one waits.
abbrev exhausted : Pool
exhausted = record {
  totalsize = pos 1;
  activenum = pos 1;
  stacksize = pos 0;
  sublist = record { addr = 30; notifyfd = 9 } ∷ [];
  freelist = [];
}

exhausted_returned :
    (s' : Schedule (List Sleeper)) × (cp' : Pool) × (ns : List Notice) × (give_back able
        (λ fd. true)
        pooled
        (some 7)
        (some exhausted)
      ≡ some (s', some cp', ns))
unfolding give_back unregister delete close_epoll notify_first testbit
exhausted_returned = (_, _, _, refl)

exhausted_obtained :
    (s' : Schedule (List Sleeper)) × (cp' : Pool) × (ret : ℤ) × (obtain listed able
        (record { eventfd = none; node = none })
        false
        false
        blank
        exhausted_returned.1
        (pos 0)
      ≡ some (returned s' cp' ret))
unfolding obtain exhausted_returned insert
exhausted_obtained = (_, _, _, refl)

waiter_runs : (s' : Schedule (List Sleeper)) × (end_wait listed able blank 8 9 ≡ some s')
unfolding end_wait cancel_sleep cancel_wait testbit
waiter_runs = (_, refl)

obtain_woken-robbed_example :
    obtain_woken listed able true false false blank exhausted_obtained.1 8
      (record { addr = 30; notifyfd = 9 })
    ≡ some (waiter_runs.0, exhausted_obtained.1, pos 0)
obtain_woken-robbed_example =
    obtain_woken-robbed listed able able able (λ fd. true) (record { eventfd = none; node = none })
      false false false false pooled exhausted_returned.0 blank exhausted_obtained.0 blank
      waiter_runs.0 exhausted exhausted_returned.1 exhausted_obtained.1 7 8
      (record { addr = 30; notifyfd = 9 }) exhausted_returned.2 (pos 0) exhausted_obtained.2
      (record { active = 1; activenum = refl; totalsize = refl }) refl refl exhausted_returned.3
      exhausted_obtained.3 waiter_runs.1

-- A coroutine that no scheduler has seen.
abbrev unseen : Schedule (List Sleeper)
unseen = record blank { coroutines = λ c. record (blank.coroutines c) { sched = false } }

resize-unset_example :
    (resize able 4096 true 3
        (λ i. record { address = none; stack = none })
        (λ fd. true)
        unseen
        pool_of_two
        (pos 1)
      ≡ none)
    × (◌≡◌ {A = ℕ} 1 0 → destroy able true unseen (some pool_of_two) ≡ none)
resize-unset_example =
    resize-unset able 4096 3 (λ i. record { address = none; stack = none }) (λ fd. true) unseen
      pool_of_two 7 1 [] pool_of_two-IsBalanced refl refl (omega arith) (omega arith)
