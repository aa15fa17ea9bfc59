-- ===== src/Resume/Finish.antt =====
-- A run of coroutines whose functions return: the loop of dyco_schedule_run over `resume`.
mod Tests
use dyco_coroutine.Base.{
  ℕ, ◌*◌, ◌<◌, ◌≤◌, ◌≡◌, ◌≢◌, refl, sym, ap, subst, ◌∙◌, true, false, Option, none, some, List, [],
  ◌∷◌, ◌==◌, if◌then◌else◌, ◌>>=◌, All, length, arith, ==_refl, ne→==, inl, inr, Bool-cases, ℤ, pos,
  minus_one,
}
use dyco_coroutine.HashTable.{Table, delete, no_id, dec_int}
use dyco_coroutine.HashTable.Resize.{IsSized}
use dyco_coroutine.HashTable.Removal.{delete-Deleted}
use dyco_coroutine.Status.{
  new, ready, exited, schedcall, killed, sleeping, incoropool, iomultiplexing, setbit, clrbit,
  testbit,
}
use dyco_coroutine.Status.Flags.{testbit-setbit, testbit-clrbit}
use dyco_coroutine.Schedule.Tree.{SleepTree}
use dyco_coroutine.Schedule.{
  Schedule, Coroutine, status_ready, status_running, status_done, has_flag, set_flag, clear_flag,
  cancel_sleep,
}
use dyco_coroutine.Schedule.Lifecycle.{free_coroutine, close_epoll}
use dyco_coroutine.Schedule.Run.{Round, run, switch_in, continues, after_resume, urgent_max_wait}
use dyco_coroutine.Schedule.Fifo.{IsDistinct, resume_each}
use dyco_coroutine.Schedule.Drain.{Finishes, IsCalm}
use dyco_coroutine.Schedule.Drain.Ending.{run-Drained}
use dyco_coroutine.CoroPool.Waiters.{unregister-deleted, close_epoll-plain}
use dyco_coroutine.Schedcall.{World, Outside, with_sched}
use dyco_coroutine.Resume.{resume, settle}
use dyco_coroutine.Resume.Ends.{awake, switches-settle}
use dyco_coroutine.Resume.Plain.{ended, ended-kept, ended-exited, IsPlain, All-moved}

module _ {T : Type 0} where
  -- What a turn of a function that returns does to the scheduler.
  abbrev pub finished : Schedule T → ℕ → Schedule T
  finished s co = set_flag s co exited

  -- The table of the ids is in order, and the queue has distinct coroutines on their own.
  pub record IsFit (s : Schedule T) : Type 0 where
    pub sized : IsSized s.cid_co_map
    pub distinct : IsDistinct s.ready
    pub plain : All (λ c. IsPlain (s.coroutines c)) s.ready

  settle-alone :
      (tree : SleepTree T) (outside : Outside) (w : World T) (s' : Schedule T) (co : ℕ)
      → has_flag w.sched co killed ≡ false
      → has_flag w.sched co exited ≡ true
      → has_flag w.sched co sleeping ≡ false
      → has_flag w.sched co incoropool ≡ false
      → free_coroutine outside.kernel (record w.sched { curr_thread = none }) (some co) ≡ some s'
      → settle tree outside w co ≡ some (with_sched w s', minus_one)
  unfolding settle
  settle-alone tree outside w s' co alive over up single run =
      rw (alive, over)
        (rw (awake tree (record w.sched { curr_thread = none }) co up) (rw single (rw run refl)))

  -- `resume` as the loop calls it, for coroutines that leave the pools of the world alone.
  abbrev pub resume_one :
      SleepTree T
      → (World T → Option (World T))
      → Outside
      → World T
      → Schedule T
      → ℕ
      → Option (Schedule T)
  resume_one tree turn outside w s co =
      resume tree ((turn, outside) ∷ []) (with_sched w s) co >>= λ r. some r.0.sched

  module _ (tree : SleepTree T) (turn : World T → Option (World T)) (outside : Outside)
      (w : World T)
      (ends : (v : World T) (co : ℕ)
        → v.sched.curr_thread ≡ some co
        → turn v ≡ some (with_sched v (finished v.sched co))) where
    -- The scheduler behind the turn of a coroutine that was taken from the queue.
    turned : Schedule T → ℕ → List ℕ → Schedule T
    turned s co queue =
        finished (switch_in (clear_flag (record s { ready = queue }) co ready) co) co

    turned-status :
        (s : Schedule T) (co : ℕ) (queue : List ℕ)
        → ((turned s co queue).coroutines co).status ≡ ended (s.coroutines co).status
    unfolding turned switch_in ended
    turned-status s co queue = rw (==_refl co) refl

    turned-flag :
        (s : Schedule T) (co : ℕ) (queue : List ℕ) (x : ℕ)
        → x < 32
        → (ready == x) ≡ false
        → (new == x) ≡ false
        → (exited == x) ≡ false
        → testbit (s.coroutines co).status x ≡ false
        → has_flag (turned s co queue) co x ≡ false
    turned-flag s co queue x small r n e off =
        ap (λ v. testbit v x) (turned-status s co queue)
        ∙ ended-kept (s.coroutines co).status x small r n e
        ∙ off

    turned-others :
        (s : Schedule T) (co : ℕ) (queue : List ℕ) (c : ℕ)
        → c ≢ co
        → (turned s co queue).coroutines c ≡ s.coroutines c
    unfolding turned switch_in
    turned-others s co queue c other = rw (ne→== c co other) refl

    turned-own :
        (s : Schedule T) (co : ℕ) (queue : List ℕ)
        → (((turned s co queue).coroutines co).sched ≡ (s.coroutines co).sched)
          × (((turned s co queue).coroutines co).cid ≡ (s.coroutines co).cid)
    unfolding turned switch_in
    turned-own s co queue = (rw (==_refl co) refl, rw (==_refl co) refl)

    turned-freed :
        (s : Schedule T) (co : ℕ) (queue : List ℕ) (t : Table ℕ) (r : ℤ) (out : Option (Option ℕ))
        → IsPlain (s.coroutines co)
        → delete s.cid_co_map (s.coroutines co).cid ≡ some (t, r, out)
        → free_coroutine outside.kernel
            (record (turned s co queue) { curr_thread = none })
            (some co)
          ≡ some (record (turned s co queue) {
            curr_thread = none;
            coro_count = dec_int s.coro_count;
            cid_co_map = t;
          })
    unfolding turned switch_in free_coroutine
    turned-freed s co queue t r out p run =
        let s₁ = record (turned s co queue) { curr_thread = none } in
        let (set, cid) = turned-own s co queue in
        let gone =
          unregister-deleted s₁ co t r out (set ∙ p.set) (ap (delete s.cid_co_map) cid ∙ run) in
        ap (λ o. o >>= λ s'. close_epoll outside.kernel s' co) gone
        ∙ close_epoll-plain outside.kernel
            (record s₁ { coro_count = dec_int s.coro_count; cid_co_map = t }) co
            (turned-flag s co queue iomultiplexing (omega arith) refl refl refl p.plain)

    resume_one-turned :
        (s s' : Schedule T) (co : ℕ) (queue : List ℕ)
        → IsPlain (s.coroutines co)
        → free_coroutine outside.kernel
            (record (turned s co queue) { curr_thread = none })
            (some co)
          ≡ some s'
        → resume_one tree turn outside w (clear_flag (record s { ready = queue }) co ready) co
          ≡ some s'
    unfolding resume turned switch_in
    resume_one-turned s s' co queue p freed =
        let s₀ = switch_in (clear_flag (record s { ready = queue }) co ready) co in
        let w₁ = with_sched w (turned s co queue) in
        let flag = turned-flag s co queue in
        ap (λ o. o >>= λ r. some r.0.sched)
          (switches-settle tree turn outside [] (with_sched w s₀) w₁ (with_sched w s') co minus_one
            (ends (with_sched w s₀) co refl) (flag schedcall (omega arith) refl refl refl p.calm)
            (settle-alone tree outside w₁ s' co (flag killed (omega arith) refl refl refl p.alive)
              (ap (λ v. testbit v exited) (turned-status s co queue)
                ∙ ended-exited (s.coroutines co).status)
              (flag sleeping (omega arith) refl refl refl p.awake)
              (flag incoropool (omega arith) refl refl refl p.pooled) freed))

    resume_one-Finishes :
        (s : Schedule T) (co : ℕ) (queue : List ℕ)
        → IsFit s
        → after_resume s.status ≡ continues
        → s.ready ≡ co ∷ queue
        → (s' : Schedule T) × (resume_one tree turn outside w
              (clear_flag (record s { ready = queue }) co ready)
              co
            ≡ some s')
          × Finishes (record s { ready = queue }) s'
          × IsFit s'
    unfolding IsDistinct
    resume_one-Finishes s co queue fit goes q =
        let plain = subst (λ l. All (λ c. IsPlain (s.coroutines c)) l) q fit.plain in
        let distinct = subst IsDistinct q fit.distinct in
        let (t, r, out, run, d) =
          delete-Deleted s.cid_co_map (s.coroutines co).cid fit.sized plain.0.valid in
        let s' = record (turned s co queue) {
          curr_thread = none;
          coro_count = dec_int s.coro_count;
          cid_co_map = t;
        } in
        (
          s',
          resume_one-turned s s' co queue plain.0 (turned-freed s co queue t r out plain.0 run),
          unfold turned switch_in in
              record {
                ready = refl;
                urgent_ready = refl;
                sleeping = refl;
                fd_co_map = refl;
                status = goes;
              },
          record {
            sized = d.sized;
            distinct = unfold turned switch_in in distinct.1;
            plain =
                unfold turned switch_in in
                All-moved s.coroutines (turned s co queue).coroutines co queue
                  (turned-others s co queue) distinct.0 plain.1;
          },
        )

    -- The turn of each coroutine ends with the return of its function, which has called nothing of
    -- the library. The coroutines of the ready queue are distinct, registered, on their own, awake,
    -- not killed, in no scheduler call and without an epoll descriptor, and their ids are not -1;
    -- no coroutine sleeps, waits or is urgent, and the table of the ids is sized. Then
    -- dyco_schedule_run of a new scheduler, over the resume of the library, ends within one round
    -- for each 128 coroutines of the queue: they are all resumed, each once and in the order of the
    -- queue, which is empty then, and the result is 0 and the status DONE.
    pub run-Finished :
        (rounds : List Round) (s : Schedule T)
        → s.status ≡ status_ready
        → IsCalm tree s
        → IsFit s
        → length s.ready ≤ urgent_max_wait * length rounds
        → (s' : Schedule T) × (resume_each
              (resume_one tree turn outside w)
              s.ready
              (record s { status = status_running })
            ≡ some s')
          × (s'.ready ≡ [])
          × (run tree (resume_one tree turn outside w) rounds (some s)
              ≡ some (some (record s' { status = status_done }), pos 0))
    run-Finished rounds s fresh calm fit enough =
        run-Drained tree (resume_one tree turn outside w) IsFit resume_one-Finishes rounds s fresh
          calm (record { sized = fit.sized; distinct = fit.distinct; plain = fit.plain })
          fit.distinct enough
