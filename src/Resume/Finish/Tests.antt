-- ===== src/Resume/Finish/Tests.antt =====
-- A run of two coroutines whose functions return.
use dyco_coroutine.Base.{ℕ, ◌≡◌, refl, true, Option, none, some, List, [], ◌∷◌, ◌>>=◌, arith, pos}
use dyco_coroutine.Status.{testbit}
use dyco_coroutine.Schedule.Tree.{Sleeper, first_co}
use dyco_coroutine.Schedule.Listed.{listed}
use dyco_coroutine.Schedule.{Schedule, status_ready, status_running, status_done}
use dyco_coroutine.Schedule.Run.{Round, run, after_resume}
use dyco_coroutine.Schedule.Fifo.{IsDistinct, resume_each}
use dyco_coroutine.Schedule.Drain.{IsCalm}
use dyco_coroutine.Schedule.Samples.{one_id, one_id-IsSized, running_with, able, coroutine_with}
use dyco_coroutine.CoroPool.{Pool}
use dyco_coroutine.Schedcall.{World, Outside, with_sched, call_sigprocmask}
use dyco_coroutine.Resume.Plain.{IsPlain}
use dyco_coroutine.Resume.Finish.{IsFit, finished, resume_one, run-Finished}

abbrev two_ready : Schedule (List Sleeper)
two_ready = record (running_with 0x3 one_id) {
  status = status_ready;
  curr_thread = none;
  ready = 7 ∷ 8 ∷ [];
}

abbrev no_pool : Pool
no_pool = record {
  totalsize = pos 0;
  activenum = pos 0;
  stacksize = pos 0;
  sublist = [];
  freelist = [];
}

abbrev world : World (List Sleeper)
world = record {
  sched = two_ready;
  callnum = call_sigprocmask;
  ret = pos 0;
  pools = λ p. no_pool;
  told = [];
}

abbrev calm : Outside
calm = record { kernel = able; writes = λ fd. true; mask = pos 0 }

abbrev returns_at_once : World (List Sleeper) → Option (World (List Sleeper))
returns_at_once v = v.sched.curr_thread >>= λ co. some (with_sched v (finished v.sched co))

returns_at_once-ends :
    (v : World (List Sleeper)) (co : ℕ)
    → v.sched.curr_thread ≡ some co
    → returns_at_once v ≡ some (with_sched v (finished v.sched co))
returns_at_once-ends v co current = rw (current) refl

abbrev one_round : List Round
one_round = record { probed_at = λ i. 2000; waited_at = 2000; kernel = able; events = [] } ∷ []

two_ready-IsCalm : IsCalm listed two_ready
unfolding after_resume first_co
two_ready-IsCalm = record {
  urgent_ready = refl;
  entries = refl;
  min = refl;
  waits = refl;
  status = refl;
}

sample-IsPlain : IsPlain (coroutine_with 0x3)
unfolding testbit
sample-IsPlain = record {
  calm = refl;
  alive = refl;
  awake = refl;
  pooled = refl;
  plain = refl;
  set = refl;
  valid = omega arith;
}

two_ready-IsFit : IsFit two_ready
unfolding IsDistinct
two_ready-IsFit = record {
  sized = one_id-IsSized;
  distinct = ((ground arith, tt), (tt, tt));
  plain = (sample-IsPlain, (sample-IsPlain, tt));
}

run-Finished_example :
    (s' : Schedule (List Sleeper)) × (resume_each
        (resume_one listed returns_at_once calm world)
        two_ready.ready
        (record two_ready { status = status_running })
      ≡ some s')
    × (s'.ready ≡ [])
    × (run listed (resume_one listed returns_at_once calm world) one_round (some two_ready)
        ≡ some (some (record s' { status = status_done }), pos 0))
run-Finished_example =
    run-Finished listed returns_at_once calm world returns_at_once-ends one_round two_ready refl
      two_ready-IsCalm two_ready-IsFit (omega arith)
