-- ===== src/Asymmetric/Turns.antt =====
-- One resume of an asymmetric coroutine: what its turn starts from, and what the caller finds.
use dyco_coroutine.Base.{
  ℕ, ◌≡◌, ◌≢◌, refl, ap, ◌∙◌, true, false, Option, none, some, arith, inl, inr, Bool-cases,
  if◌then◌else◌, ==_refl, ne→==, pos, int_of,
}
use dyco_coroutine.HashTable.{find, inc_int}
use dyco_coroutine.Status.{
  new, running, exited, ownstack, allocstackmem, asymmetric, setbit, clrbit, testbit,
}
use dyco_coroutine.Status.Flags.{testbit-setbit, testbit-clrbit}
use dyco_coroutine.Schedule.{Schedule, with_coroutine, has_flag, set_flag}
use dyco_coroutine.Schedule.Lifecycle.{set_stack, with_cid, new_stack}
use dyco_coroutine.Schedule.Run.{switch_in}
use dyco_coroutine.Schedule.Calls.{max_stacksize}
use dyco_coroutine.Asymmetric.{is_some, prepare, resume, resume_coroutine, resumed, resume_found}

-- The status behind SETBIT RUNNING.
entered_status : ℕ → ℕ
entered_status w = setbit (if testbit w new then clrbit w new else w) running

entered_status-new : (w : ℕ) → testbit (entered_status w) new ≡ false
unfolding entered_status
entered_status-new w = elim (Bool-cases (testbit w new)) [
  | inl fresh ↦ rw fresh (
      testbit-setbit (clrbit w new) running new
      ∙ testbit-clrbit w new new (omega arith) (omega arith))
  | inr old ↦ rw old (testbit-setbit w running new ∙ old)
]

entered_status-ownstack :
    (w : ℕ) → testbit w ownstack ≡ true → testbit (entered_status w) ownstack ≡ true
unfolding entered_status
entered_status-ownstack w own = elim (Bool-cases (testbit w new)) [
  | inl fresh ↦ rw fresh (
      testbit-setbit (clrbit w new) running ownstack
      ∙ testbit-clrbit w new ownstack (omega arith) (omega arith)
      ∙ own)
  | inr old ↦ rw old (testbit-setbit w running ownstack ∙ own)
]

module _ {T : Type 0} where
  -- The scheduler in which the turn starts.
  pub record Entered (s : Schedule T) (co : ℕ) (e : Schedule T) : Type 0 where
    pub current : e.curr_thread ≡ some co
    pub marked : has_flag e co running ≡ true
    pub started : has_flag e co new ≡ false
    pub counted : (e.coroutines co).sched_count ≡ inc_int (s.coroutines co).sched_count
    pub stacked :
        is_some s.curr_thread ≡ true → has_flag s co new ≡ true → has_flag e co ownstack ≡ true
    pub others : (c : ℕ) → c ≢ co → e.coroutines c ≡ s.coroutines c
    pub ready : e.ready ≡ s.ready
    pub urgent_ready : e.urgent_ready ≡ s.urgent_ready
    pub cids : e.cid_co_map ≡ s.cid_co_map

  record Prepared (s : Schedule T) (co : ℕ) (p : Schedule T) : Type 0 where
    counted : (p.coroutines co).sched_count ≡ (s.coroutines co).sched_count
    stacked :
        is_some s.curr_thread ≡ true → has_flag s co new ≡ true → has_flag p co ownstack ≡ true
    others : (c : ℕ) → c ≢ co → p.coroutines c ≡ s.coroutines c
    ready : p.ready ≡ s.ready
    urgent_ready : p.urgent_ready ≡ s.urgent_ready
    cids : p.cid_co_map ≡ s.cid_co_map

  unstacked :
      (s : Schedule T) (co : ℕ)
      → (is_some s.curr_thread ≡ true → has_flag s co new ≡ true → has_flag s co ownstack ≡ true)
      → Prepared s co s
  unstacked s co h = record {
    counted = refl;
    stacked = h;
    others = λ c _. refl;
    ready = refl;
    urgent_ready = refl;
    cids = refl;
  }

  prepare-Prepared :
      (page_size : ℕ) (memory : Option ℕ) (turn : Schedule T → ℕ → Option (Schedule T))
      (s : Schedule T) (cid co : ℕ)
      → find s.cid_co_map cid ≡ some (some co)
      → (p : Schedule T) × (prepare page_size memory turn s cid co ≡ some p) × Prepared s co p
  unfolding prepare set_stack with_cid new_stack
  prepare-Prepared page_size memory turn s cid co known =
      elim (Bool-cases (is_some s.curr_thread)) [
        | inr outer ↦ (s, rw outer, unstacked s co (λ a b. absurd (ground arith)))
        | inl nested ↦ elim (Bool-cases (has_flag s co ownstack)) [
          | inl own ↦ (s, rw (nested, own), unstacked s co (λ a b. own))
          | inr shared ↦ elim (Bool-cases (has_flag s co new)) [
            | inr old ↦
                (s, rw (nested, shared, known, old), unstacked s co (λ a b. absurd (ground arith)))
            | inl fresh ↦ (
              with_coroutine s co
                  (new_stack page_size memory (s.coroutines co) none max_stacksize).0,
              rw (nested, shared, known, fresh) refl,
              record {
                counted = rw (==_refl co) refl;
                stacked = λ a b. rw (==_refl co) (
                    testbit-setbit (setbit (s.coroutines co).status ownstack) allocstackmem ownstack
                    ∙ testbit-setbit (s.coroutines co).status ownstack ownstack);
                others = λ c h. rw (ne→== c co h) refl;
                ready = refl;
                urgent_ready = refl;
                cids = refl;
              },
            )
          ]
        ]
      ]

  Prepared-Entered :
      (s : Schedule T) (co : ℕ) (p : Schedule T)
      → Prepared s co p
      → Entered s co (set_flag (switch_in p co) co running)
  unfolding switch_in
  Prepared-Entered s co p h = record {
    current = refl;
    marked = rw (==_refl co) (
        testbit-setbit
          (if testbit (p.coroutines co).status new
            then clrbit (p.coroutines co).status new
            else (p.coroutines co).status)
          running running);
    started =
        rw (==_refl co) (unfold entered_status in entered_status-new (p.coroutines co).status);
    counted = rw (==_refl co) (ap inc_int h.counted);
    stacked = λ a b.
        rw (==_refl co) (
          unfold entered_status in
          entered_status-ownstack (p.coroutines co).status (h.stacked a b));
    others = λ c n. rw (ne→== c co n) (h.others c n);
    ready = h.ready;
    urgent_ready = h.urgent_ready;
    cids = h.cids;
  }

  module _ (page_size : ℕ) (memory : Option ℕ) (turn : Schedule T → ℕ → Option (Schedule T))
      (s : Schedule T) (cid co : ℕ) where
    -- The id of an asymmetric coroutine that has not exited is resumed: its turn starts with the
    -- coroutine current, running, no longer new, counted once more and, if another one resumed it
    -- first, with a stack of its own; no other coroutine and no queue changed. However the turn
    -- ends, the caller is current again, and gets the id, or 0 from a coroutine that has exited.
    pub resume-Entered :
        find s.cid_co_map cid ≡ some (some co)
        → has_flag s co asymmetric ≡ true
        → has_flag s co exited ≡ false
        → (e : Schedule T) × Entered s co e
          × ((t : Schedule T)
              → turn e co ≡ some t
              → resume page_size memory turn s cid
                ≡ some (
                  record t { curr_thread = s.curr_thread },
                  if has_flag t co exited then pos 0 else int_of cid,
                ))
    unfolding resume resume_coroutine resumed resume_found
    resume-Entered known kind alive =
        let (p, run, h) = prepare-Prepared page_size memory turn s cid co known in
        (
          set_flag (switch_in p co) co running,
          Prepared-Entered s co p h,
          λ t ends. rw known (rw kind (rw alive (rw run (rw ends refl)))),
        )
