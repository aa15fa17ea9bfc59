-- ===== src/Resume/Tests.antt =====
-- Each theorem at a world with one registered coroutine.
use dyco_coroutine.Base.{
  ℕ, ◌≡◌, refl, true, false, Option, none, some, List, [], ◌∷◌, ◌>>=◌, arith, pos, minus_one,
}
use dyco_coroutine.Status.{
  exited, killed, schedcall, sleeping, urgent, ownstack, incoropool, asymmetric, iomultiplexing,
  testbit,
}
use dyco_coroutine.HashTable.{Entry, empty_bucket}
use dyco_coroutine.Schedule.Tree.{Sleeper}
use dyco_coroutine.Schedule.Listed.{listed}
use dyco_coroutine.Schedule.{has_flag}
use dyco_coroutine.Schedule.Stack.{Frames}
use dyco_coroutine.Schedule.Samples.{
  one_id, one_id-IsSized, one_id-IsPlaced, running_with, coroutine_with, able,
}
use dyco_coroutine.CoroPool.{Pool}
use dyco_coroutine.Schedcall.{World, Outside, call_sigprocmask, stop_out}
use dyco_coroutine.Resume.{resume, settle}
use dyco_coroutine.Resume.Stop.{Stopped, resume-Stopped}
use dyco_coroutine.Resume.Ends.{Returned, resume-Returned}
use dyco_coroutine.Resume.Killed.{AreApart, Killed, settle-Killed}

abbrev busy_pool : Pool
busy_pool = record {
  totalsize = pos 1;
  activenum = pos 1;
  stacksize = pos 0;
  sublist = record { addr = 30; notifyfd = 9 } ∷ [];
  freelist = [];
}

-- All coroutines have the status word and belong to the pool at 3.
abbrev world : ℕ → World (List Sleeper)
world status = record {
  sched = record (running_with status one_id) {
    coroutines = λ c. record (coroutine_with status) { cpool = some 3 };
  };
  callnum = call_sigprocmask;
  ret = pos 0;
  pools = λ p. busy_pool;
  told = [];
}

abbrev calm : Outside
calm = record { kernel = able; writes = λ fd. true; mask = pos 0 }

abbrev frames : Frames
frames = record { checked = 0; saved = 0; moved = none }

abbrev stops : World (List Sleeper) → Option (World (List Sleeper))
stops w = stop_out frames (world 0x108) >>= λ r. some r.0

not_urgent : has_flag (world 0x108).sched 8 urgent ≡ false
unfolding testbit
not_urgent = refl

own_stack : has_flag (world 0x108).sched 8 ownstack ≡ true
unfolding testbit
own_stack = refl

resume-Stopped_example :
    (w' : World (List Sleeper)) × (resume listed ((stops, calm) ∷ []) (world 0x109) 8
      ≡ some (w', pos 1))
    × Stopped 8 (world 0x108) w'
resume-Stopped_example =
    resume-Stopped listed stops calm [] frames (world 0x109) (world 0x108) 8 refl refl refl
      not_urgent own_stack

abbrev over : World (List Sleeper)
over = world 0x4004

over_flags :
    (has_flag over.sched 7 schedcall ≡ false)
    × (has_flag over.sched 7 killed ≡ false)
    × (has_flag over.sched 7 exited ≡ true)
    × (has_flag over.sched 7 sleeping ≡ false)
    × (has_flag over.sched 7 incoropool ≡ true)
    × (has_flag over.sched 7 iomultiplexing ≡ false)
unfolding testbit
over_flags = (refl, refl, refl, refl, refl, refl)

abbrev exits : World (List Sleeper) → Option (World (List Sleeper))
exits w = some over

resume-Returned_example :
    (w' : World (List Sleeper)) × (resume listed ((exits, calm) ∷ []) (world 0x4009) 7
      ≡ some (w', minus_one))
    × Returned 7 3 (record { addr = 30; notifyfd = 9 }) [] over w'
resume-Returned_example =
    resume-Returned listed exits calm [] (world 0x4009) over 7 3
      (record { addr = 30; notifyfd = 9 }) [] refl over_flags.0 over_flags.1 over_flags.2
      over_flags.3 over_flags.4 over_flags.5 refl refl (omega arith) one_id-IsSized one_id-IsPlaced
      refl refl

abbrev behind : List (Entry ℕ)
behind = record { id = 3; value = some 8 } ∷ []

-- 7 is killed, and the entry of another coroutine follows in its bucket.
abbrev crowded : World (List Sleeper)
crowded = record (world 0x40) {
  sched = running_with 0x40 (record one_id {
    buckets = empty_bucket ∷ record { id = 5; value = some 7; next = behind } ∷ [];
  });
}

dead_flags :
    (has_flag crowded.sched 7 killed ≡ true)
    × (has_flag crowded.sched 7 sleeping ≡ false)
    × (has_flag crowded.sched 7 incoropool ≡ false)
    × (has_flag crowded.sched 7 asymmetric ≡ false)
    × (has_flag crowded.sched 7 iomultiplexing ≡ false)
unfolding testbit
dead_flags = (refl, refl, refl, refl, refl)

behind-AreApart : AreApart behind
unfolding AreApart
behind-AreApart = (tt, tt)

settle-Killed_example : Killed crowded behind (settle listed calm crowded 7)
settle-Killed_example =
    settle-Killed listed calm crowded 7 behind dead_flags.0 dead_flags.1
      (record {
        pooled = dead_flags.2;
        asymmetric = dead_flags.3;
        plain = dead_flags.4;
        set = refl;
        valid = omega arith;
        head = refl;
      })
      behind-AreApart
