-- ===== src/Resume/Ends.antt =====
-- A coroutine of a pool that comes to its end.
use dyco_coroutine.Base.{
  ℕ, ◌≡◌, ◌≢◌, refl, true, false, Option, none, some, List, ◌∷◌, [], ◌++◌, ==_refl, ne→==, ℤ,
  minus_one, dec,
}
use dyco_coroutine.Blocking.{Notice}
use dyco_coroutine.HashTable.{no_id}
use dyco_coroutine.HashTable.Resize.{IsSized, IsPlaced}
use dyco_coroutine.Status.{exited, killed, schedcall, sleeping, incoropool, iomultiplexing}
use dyco_coroutine.Schedule.Tree.{SleepTree}
use dyco_coroutine.Schedule.{Schedule, has_flag, update, cancel_sleep}
use dyco_coroutine.Schedule.Run.{switch_in}
use dyco_coroutine.CoroPool.{Pool, Sublist}
use dyco_coroutine.CoroPool.Calls.{give_back}
use dyco_coroutine.CoroPool.Waiters.{Released, give_back-Released}
use dyco_coroutine.Schedcall.{World, Outside, with_sched, return_to_pool}
use dyco_coroutine.Resume.{settle, switches, resume}

module _ {T : Type 0} where
  return_to_pool-given :
      (outside : Outside) (w : World T) (co p : ℕ) (s' : Schedule T) (cp : Pool) (ns : List Notice)
      → (w.sched.coroutines co).cpool ≡ some p
      → give_back outside.kernel outside.writes w.sched (some co) (some (w.pools p))
        ≡ some (s', some cp, ns)
      → return_to_pool outside w co
        ≡ some (record w { sched = s'; pools = update w.pools p cp; told = w.told ++ ns })
  unfolding return_to_pool
  return_to_pool-given outside w co p s' cp ns of_pool run =
      rw (return_to_pool, of_pool) (rw run refl)

  pub awake :
      (tree : SleepTree T) (s : Schedule T) (co : ℕ)
      → has_flag s co sleeping ≡ false
      → cancel_sleep tree s co ≡ some s
  unfolding cancel_sleep
  awake tree s co up = rw up refl

  settle-pooled :
      (tree : SleepTree T) (outside : Outside) (w w' : World T) (co : ℕ)
      → has_flag w.sched co killed ≡ false
      → has_flag w.sched co exited ≡ true
      → has_flag w.sched co sleeping ≡ false
      → has_flag w.sched co incoropool ≡ true
      → return_to_pool outside (with_sched w (record w.sched { curr_thread = none })) co ≡ some w'
      → settle tree outside w co ≡ some (w', minus_one)
  unfolding settle
  settle-pooled tree outside w w' co alive over up pooled run =
      rw (alive, over)
        (rw (awake tree (record w.sched { curr_thread = none }) co up) (rw pooled (rw run refl)))

  pub switches-settle :
      (tree : SleepTree T) (turn : World T → Option (World T)) (outside : Outside)
      (rest : List ((World T → Option (World T)) × Outside)) (w w₁ w' : World T) (co : ℕ) (r : ℤ)
      → turn w ≡ some w₁
      → has_flag w₁.sched co schedcall ≡ false
      → settle tree outside w₁ co ≡ some (w', r)
      → switches tree ((turn, outside) ∷ rest) w co ≡ some (w', r)
  unfolding switches
  switches-settle tree turn outside rest w w₁ w' co r runs no_call settles =
      rw runs (rw no_call settles)

  -- What the end of a coroutine does to its pool at `p`.
  pub record Returned (co p : ℕ) (first : Sublist) (others : List Sublist) (w w' : World T)
      : Type 0 where
    pub released : Released (record w.sched { curr_thread = none }) co w'.sched
    pub pool : w'.pools p ≡ record (w.pools p) {
      freelist = co ∷ (w.pools p).freelist;
      activenum = dec (w.pools p).activenum;
      sublist = others;
    }
    pub told : w'.told ≡ w.told ++ record { fd = first.notifyfd; value = 1 } ∷ []
    pub other_pools : (q : ℕ) → q ≢ p → w'.pools q ≡ w.pools q

  -- The function of a coroutine from a pool is over: its turn ends marked as exited, awake and
  -- without a system call. Where it is registered in a sized table under an id that is not -1 and
  -- stands at most once, in its own bucket, has no epoll descriptor of its own, and the first
  -- waiter of its pool can be told, resume returns -1: the coroutine is out of the table and of the
  -- count, and is the first free one of its pool, whose first waiter is taken from the list; 1 is
  -- written to the descriptor of that waiter and to nothing else; no other pool changes.
  pub resume-Returned :
      (tree : SleepTree T) (turn : World T → Option (World T)) (outside : Outside)
      (rest : List ((World T → Option (World T)) × Outside)) (w w₁ : World T) (co p : ℕ)
      (first : Sublist) (others : List Sublist)
      → turn (with_sched w (switch_in w.sched co)) ≡ some w₁
      → has_flag w₁.sched co schedcall ≡ false
      → has_flag w₁.sched co killed ≡ false
      → has_flag w₁.sched co exited ≡ true
      → has_flag w₁.sched co sleeping ≡ false
      → has_flag w₁.sched co incoropool ≡ true
      → has_flag w₁.sched co iomultiplexing ≡ false
      → (w₁.sched.coroutines co).cpool ≡ some p
      → (w₁.sched.coroutines co).sched ≡ true
      → (w₁.sched.coroutines co).cid ≢ no_id
      → IsSized w₁.sched.cid_co_map
      → IsPlaced (w₁.sched.coroutines co).cid w₁.sched.cid_co_map
      → (w₁.pools p).sublist ≡ first ∷ others
      → outside.writes first.notifyfd ≡ true
      → (w' : World T) × (resume tree ((turn, outside) ∷ rest) w co ≡ some (w', minus_one))
        × Returned co p first others w₁ w'
  unfolding resume
  resume-Returned tree turn outside rest w w₁ co p first others runs no_call alive over up pooled
        plain of_pool set valid sized placed queue works =
      let s = record w₁.sched { curr_thread = none } in
      let (s', run, released) =
        give_back-Released outside.kernel outside.writes s co (w₁.pools p) first others set valid
          sized placed plain queue works in
      let cp : Pool = record (w₁.pools p) {
        freelist = co ∷ (w₁.pools p).freelist;
        activenum = dec (w₁.pools p).activenum;
        sublist = others;
      } in
      let w' : World T = record w₁ {
        sched = s';
        pools = update w₁.pools p cp;
        told = w₁.told ++ record { fd = first.notifyfd; value = 1 } ∷ [];
      } in
      let back = return_to_pool-given outside (with_sched w₁ s) co p s' cp _ of_pool run in
      (
        w',
        switches-settle tree turn outside rest (with_sched w (switch_in w.sched co)) w₁ w' co
            minus_one runs no_call (settle-pooled tree outside w₁ w' co alive over up pooled back),
        record {
          released = released;
          pool = rw (==_refl p) refl;
          told = refl;
          other_pools = λ q h. rw (ne→== q p h) refl;
        },
      )
