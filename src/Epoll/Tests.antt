-- ===== src/Epoll/Tests.antt =====
-- A coroutine that multiplexes and whose function is over.
use dyco_coroutine.Base.{◌≡◌, refl, true, false, inl, none, [], List, pos}
use dyco_coroutine.Status.{exited, killed, sleeping, waiting, incoropool, iomultiplexing, testbit}
use dyco_coroutine.Schedule.{has_flag}
use dyco_coroutine.Schedule.Tree.{Sleeper}
use dyco_coroutine.Schedule.Listed.{listed}
use dyco_coroutine.Schedule.Samples.{one_id, running_with, able}
use dyco_coroutine.Schedcall.{World, Outside, call_sigprocmask}
use dyco_coroutine.Resume.{settle}
use dyco_coroutine.Epoll.Unremoved.{settle-Multiplexes}

abbrev over : World (List Sleeper)
over = record {
  sched = running_with 0x1004 one_id;
  callnum = call_sigprocmask;
  ret = pos 0;
  pools = λ p. record {
    totalsize = pos 0;
    activenum = pos 0;
    stacksize = pos 0;
    sublist = [];
    freelist = [];
  };
  told = [];
}

-- The set of the scheduler has no descriptor.
abbrev empty_set : Outside
empty_set = record {
  kernel = record able { ctl_del = λ fd. false };
  writes = λ fd. true;
  mask = pos 0;
}

over_flags :
    (has_flag over.sched 7 killed ≡ false)
    × (has_flag over.sched 7 exited ≡ true)
    × (has_flag over.sched 7 sleeping ≡ false)
    × (has_flag over.sched 7 waiting ≡ false)
    × (has_flag over.sched 7 iomultiplexing ≡ true)
    × (has_flag over.sched 7 incoropool ≡ false)
unfolding testbit
over_flags = (refl, refl, refl, refl, refl, refl)

settle-Multiplexes_example : settle listed empty_set over 7 ≡ none
settle-Multiplexes_example =
    settle-Multiplexes listed empty_set over 7 over_flags.0 over_flags.1 over_flags.2 over_flags.3
      over_flags.4 (inl over_flags.5) refl
