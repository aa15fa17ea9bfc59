-- ===== src/Asymmetric/Tests.antt =====
-- Each theorem at a scheduler with one asymmetric coroutine.
use dyco_coroutine.Base.{
  ℕ, ◌≡◌, ◌≢◌, refl, true, false, Option, some, List, if◌then◌else◌, pos, int_of, arith,
}
use dyco_coroutine.HashTable.{find, dec_int}
use dyco_coroutine.HashTable.Resize.{IsPlaced}
use dyco_coroutine.Status.{exited, asymmetric, testbit}
use dyco_coroutine.Schedule.{Schedule, has_flag}
use dyco_coroutine.Schedule.Tree.{Sleeper}
use dyco_coroutine.Schedule.Samples.{one_id, one_id-IsSized, one_id-IsPlaced, running_with}
use dyco_coroutine.Asymmetric.{free, resume}
use dyco_coroutine.Asymmetric.Turns.{Entered, resume-Entered}
use dyco_coroutine.Asymmetric.Release.{Dead, free-Dead}

-- New and asymmetric.
abbrev fresh : Schedule (List Sleeper)
fresh = running_with 0x8001 one_id

five_known : find one_id 5 ≡ some (some 7)
unfolding find
five_known = refl

seven_asymmetric : has_flag fresh 7 asymmetric ≡ true
unfolding testbit
seven_asymmetric = refl

seven_alive : has_flag fresh 7 exited ≡ false
unfolding testbit
seven_alive = refl

-- A turn that ends at once.
abbrev idle_turn : Schedule (List Sleeper) → ℕ → Option (Schedule (List Sleeper))
idle_turn s co = some s

resume-Entered_example :
    (e : Schedule (List Sleeper)) × Entered fresh 7 e
    × ((t : Schedule (List Sleeper))
        → idle_turn e 7 ≡ some t
        → resume 4096 (some 0x9000) idle_turn fresh 5
          ≡ some
              (record t { curr_thread = some 8 }, if has_flag t 7 exited then pos 0 else int_of 5))
resume-Entered_example =
    resume-Entered 4096 (some 0x9000) idle_turn fresh 5 7 five_known seven_asymmetric seven_alive

free-Dead_example :
    (s' : Schedule (List Sleeper)) × (free fresh 5 ≡ some s')
    × ((s'' : Schedule (List Sleeper)) → find s''.cid_co_map 5 ≡ find s'.cid_co_map 5 → Dead s'' 5)
    × (s'.coro_count ≡ dec_int fresh.coro_count)
    × ((q : ℕ) → q ≢ 5 → IsPlaced q one_id → find s'.cid_co_map q ≡ find one_id q)
free-Dead_example =
    free-Dead fresh 5 7 one_id-IsSized one_id-IsPlaced (omega arith) five_known seven_asymmetric
      refl refl
