-- ===== src/Resume/Stop.antt =====
-- A coroutine that stops the scheduler.
use dyco_coroutine.Base.{
  ℕ, ◌≡◌, refl, ap, ◌∙◌, true, false, ◌||◌, Option, none, some, List, [], ◌∷◌, ◌++◌, ◌>>=◌, arith,
  ==_refl, ne→==, ◌≢◌, ◌==◌, pos,
}
use dyco_coroutine.Status.{ready, running, schedcall, urgent, ownstack, setbit, clrbit, testbit}
use dyco_coroutine.Status.Flags.{testbit-setbit, testbit-clrbit}
use dyco_coroutine.Schedule.Tree.{SleepTree}
use dyco_coroutine.Schedule.{
  Schedule, has_flag, set_flag, clear_flag, is_queued, make_ready, enqueue,
}
use dyco_coroutine.Schedule.Run.{switch_in, after_resume, returns}
use dyco_coroutine.Schedule.Calls.{stop}
use dyco_coroutine.Schedule.Stack.{Frames, save_stack}
use dyco_coroutine.Schedcall.{World, Outside, with_sched, call_stop, enter_call, stop_out, callexec}
use dyco_coroutine.Resume.{resume, switches}

-- The status word of a coroutine that has called dyco_schedcall_stop.
stopping : ℕ → ℕ
stopping w = setbit (setbit (clrbit w running) schedcall) ready

stopping-kept :
    (w x : ℕ)
    → testbit (stopping w) x ≡ ((ready == x) || ((schedcall == x) || testbit (clrbit w running) x))
unfolding stopping
stopping-kept w x =
    testbit-setbit (setbit (clrbit w running) schedcall) ready x
    ∙ ap (λ b. (ready == x) || b) (testbit-setbit (clrbit w running) schedcall x)

stopping-schedcall : (w : ℕ) → testbit (stopping w) schedcall ≡ true
stopping-schedcall w = stopping-kept w schedcall

stopping-ready : (w : ℕ) → testbit (stopping w) ready ≡ true
stopping-ready w = stopping-kept w ready

stopping-urgent : (w : ℕ) → testbit (stopping w) urgent ≡ testbit w urgent
stopping-urgent w =
    stopping-kept w urgent ∙ testbit-clrbit w running urgent (omega arith) (omega arith)

stopping-ownstack : (w : ℕ) → testbit (stopping w) ownstack ≡ testbit w ownstack
stopping-ownstack w =
    stopping-kept w ownstack ∙ testbit-clrbit w running ownstack (omega arith) (omega arith)

module _ {T : Type 0} where
  -- The scheduler at the switch of dyco_schedcall_stop.
  asleep_in_call : Schedule T → ℕ → Schedule T
  asleep_in_call s co = set_flag (set_flag (clear_flag s co running) co schedcall) co ready

  stop_out-Queued :
      (frames : Frames) (w : World T) (co : ℕ)
      → w.sched.curr_thread ≡ some co
      → is_queued w.sched co ≡ false
      → has_flag w.sched co urgent ≡ false
      → has_flag w.sched co ownstack ≡ true
      → stop_out frames w
        ≡ some (
          record w {
            sched = record (asleep_in_call w.sched co) { ready = w.sched.ready ++ (co ∷ []) };
            callnum = call_stop;
          },
          true,
        )
  unfolding stop_out enter_call make_ready enqueue save_stack asleep_in_call
  stop_out-Queued frames w co current unqueued calm own =
      let s = asleep_in_call w.sched co in
      let calm' : has_flag s co urgent ≡ false =
        rw (==_refl co)
          (unfold stopping in stopping-urgent (w.sched.coroutines co).status ∙ calm) in
      let own' : has_flag s co ownstack ≡ true =
        rw (==_refl co)
          (unfold stopping in stopping-ownstack (w.sched.coroutines co).status ∙ own) in
      rw current (rw unqueued (rw calm' (rw own' refl)))

  -- The world behind the stop.
  pub record Stopped (co : ℕ) (w w' : World T) : Type 0 where
    pub queued : w'.sched.ready ≡ w.sched.ready ++ (co ∷ [])
    pub urgent_ready : w'.sched.urgent_ready ≡ w.sched.urgent_ready
    pub current : w'.sched.curr_thread ≡ none
    pub status : after_resume w'.sched.status ≡ returns (pos 1)
    pub marked : has_flag w'.sched co ready ≡ true
    pub in_call : has_flag w'.sched co schedcall ≡ true
    pub others : (c : ℕ) → c ≢ co → w'.sched.coroutines c ≡ w.sched.coroutines c

  -- The turn of a coroutine ends with a call of dyco_schedcall_stop by that coroutine, which is
  -- current, in no queue, not urgent and on a stack of its own. Then resume returns 1 at once and
  -- makes dyco_schedule_run return 1; no coroutine is current, and the one that stopped is marked
  -- ready and the last of the ready queue.
  pub resume-Stopped :
      (tree : SleepTree T) (turn : World T → Option (World T)) (outside : Outside)
      (rest : List ((World T → Option (World T)) × Outside)) (frames : Frames) (w w₁ : World T)
      (co : ℕ)
      → turn (with_sched w (switch_in w.sched co)) ≡ (stop_out frames w₁ >>= λ r. some r.0)
      → w₁.sched.curr_thread ≡ some co
      → is_queued w₁.sched co ≡ false
      → has_flag w₁.sched co urgent ≡ false
      → has_flag w₁.sched co ownstack ≡ true
      → (w' : World T) × (resume tree ((turn, outside) ∷ rest) w co ≡ some (w', pos 1))
        × Stopped co w₁ w'
  unfolding resume switches callexec stop after_resume asleep_in_call
  resume-Stopped tree turn outside rest frames w w₁ co ends current unqueued calm own =
      let s = asleep_in_call w₁.sched co in
      let w₂ : World T = record w₁ {
        sched = record s { ready = w₁.sched.ready ++ (co ∷ []) };
        callnum = call_stop;
      } in
      let to_call : turn (with_sched w (switch_in w.sched co)) ≡ some w₂ =
        ends
        ∙ ap (λ o. o >>= λ r. some r.0) (stop_out-Queued frames w₁ co current unqueued calm own) in
      let called : has_flag s co schedcall ≡ true =
        rw (==_refl co) (unfold stopping in stopping-schedcall (w₁.sched.coroutines co).status) in
      let marked : has_flag s co ready ≡ true =
        rw (==_refl co) (unfold stopping in stopping-ready (w₁.sched.coroutines co).status) in
      (
        record w₂ { sched = stop w₂.sched; ret = pos 0 },
        rw to_call (rw called refl),
        record {
          queued = refl;
          urgent_ready = refl;
          current = refl;
          status = refl;
          marked = marked;
          in_call = called;
          others = λ c h. rw (ne→== c co h) refl;
        },
      )
