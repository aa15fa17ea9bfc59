-- ===== src/Schedule/Wake.antt =====
-- What the wake-up of one sleeper makes of the scheduler.
use mathlib.Core.List.{append_assoc}
use dyco_coroutine.Base.{
  ℕ, ◌≡◌, ◌≢◌, refl, ap, ◌∙◌, inl, inr, false, ◌||◌, some, List, [], ◌∷◌, ◌++◌, ◌==◌, if◌then◌else◌,
  arith, Bool-cases, ==_refl, ne→==,
}
use mathlib.Core.Path.{fun_ext}
use dyco_coroutine.Status.{sleeping, expired, ready, urgent, testbit, setbit, clrbit}
use dyco_coroutine.Status.Flags.{testbit-setbit, testbit-clrbit}
use dyco_coroutine.Schedule.{
  Schedule, Coroutine, make_ready, enqueue, has_flag, mem, is_queued, set_flag, clear_flag,
  set_status, update,
}

-- What the wake-up makes of a coroutine.
pub rouse : Coroutine → Coroutine
unfolding setbit clrbit
rouse c = record c { status = setbit (setbit (clrbit c.status sleeping) expired) ready }

rouse-urgent : (c : Coroutine) → testbit (rouse c).status urgent ≡ testbit c.status urgent
unfolding rouse
rouse-urgent c =
    testbit-setbit (setbit (clrbit c.status sleeping) expired) ready urgent
    ∙ testbit-setbit (clrbit c.status sleeping) expired urgent
    ∙ testbit-clrbit c.status sleeping urgent (omega arith) (omega arith)

update_twice :
    (f : ℕ → Coroutine) (co j w w' : ℕ)
    → update
        (update f co (record (f co) { status = w }))
        co
        (record (update f co (record (f co) { status = w }) co) { status = w' })
        j
      ≡ update f co (record (f co) { status = w' }) j
update_twice f co j w w' =
    rw (==_refl co)
      (elim (Bool-cases (j == co)) [ inl here ↦ rw here refl | inr other ↦ rw other refl ])

mem-append_last : (x co : ℕ) (q : List ℕ) → x ≢ co → mem x (q ++ (co ∷ [])) ≡ mem x q
mem-append_last x co [] other = rw (ne→== x co other) refl
mem-append_last x co (y ∷ q) other = ap (λ b. (x == y) || b) (mem-append_last x co q other)

module _ {T : Type 0} where
  -- One sleeper wakes, which leaves the tree `t`.
  unfoldable pub wake : Schedule T → ℕ → T → Schedule T
  unfolding testbit rouse
  wake s co t =
      let s' = record s {
        sleeping = t;
        coroutines = update s.coroutines co (rouse (s.coroutines co));
      } in
      if has_flag s co urgent
      then record s' { urgent_ready = s.urgent_ready ++ (co ∷ []) }
      else record s' { ready = s.ready ++ (co ∷ []) }

  set_status_twice :
      (s : Schedule T) (co w w' : ℕ) → set_status (set_status s co w) co w' ≡ set_status s co w'
  set_status_twice s co w w' =
      ap (λ f. record s { coroutines = f }) (fun_ext (λ j. update_twice s.coroutines co j w w'))

  status_of : (s : Schedule T) (co w : ℕ) → ((set_status s co w).coroutines co).status ≡ w
  status_of s co w = rw (==_refl co) refl

  set_flag-set_status :
      (s : Schedule T) (co w flag : ℕ)
      → set_flag (set_status s co w) co flag ≡ set_status s co (setbit w flag)
  set_flag-set_status s co w flag =
      ap (λ v. set_status (set_status s co w) co (setbit v flag)) (status_of s co w)
      ∙ set_status_twice s co w (setbit w flag)

  roused :
      (s : Schedule T) (co : ℕ)
      → set_flag (set_flag (clear_flag s co sleeping) co expired) co ready
        ≡ record s { coroutines = update s.coroutines co (rouse (s.coroutines co)) }
  unfolding rouse
  roused s co =
      let w = clrbit (s.coroutines co).status sleeping in
      ap (λ r. set_flag r co ready) (set_flag-set_status s co w expired)
      ∙ set_flag-set_status s co (setbit w expired) ready

  enqueue-roused :
      (s : Schedule T) (co : ℕ)
      → is_queued s co ≡ false
      → enqueue (record s { coroutines = update s.coroutines co (rouse (s.coroutines co)) }) co
        ≡ some (wake s co s.sleeping)
  unfolding enqueue wake
  enqueue-roused s co free =
      rw (free, ==_refl co, rouse-urgent (s.coroutines co))
        (elim (Bool-cases (has_flag s co urgent)) [ inl u ↦ rw u refl | inr u ↦ rw u refl ])

  -- The flags of the expired one are set as `get_expired` and the loop set them.
  pub make_ready-wake :
      (s : Schedule T) (co : ℕ)
      → is_queued s co ≡ false
      → make_ready (set_flag (clear_flag s co sleeping) co expired) co ≡ some (wake s co s.sleeping)
  unfolding make_ready
  make_ready-wake s co free = ap (λ r. enqueue r co) (roused s co) ∙ enqueue-roused s co free

  pub wake-coroutines :
      (s : Schedule T) (co : ℕ) (t : T) (c : ℕ)
      → (wake s co t).coroutines c ≡ (if c == co then rouse (s.coroutines co) else s.coroutines c)
  unfolding wake
  wake-coroutines s co t c = elim (Bool-cases (has_flag s co urgent)) [
    | inl u ↦ rw u refl
    | inr u ↦ rw u refl
  ]

  pub wake-others :
      (s : Schedule T) (co : ℕ) (t : T) (c : ℕ)
      → c ≢ co
      → (wake s co t).coroutines c ≡ s.coroutines c
  wake-others s co t c other = wake-coroutines s co t c ∙ rw (ne→== c co other) refl

  pub wake-sleeping :
      (s : Schedule T) (co : ℕ) (t : T)
      → ((wake s co t).sleeping ≡ t) × ((wake s co t).birth ≡ s.birth)
  unfolding wake
  wake-sleeping s co t = elim (Bool-cases (has_flag s co urgent)) [
    | inl u ↦ rw u (refl, refl)
    | inr u ↦ rw u (refl, refl)
  ]

  pub wake-free :
      (s : Schedule T) (co : ℕ) (t : T) (x : ℕ)
      → x ≢ co
      → is_queued s x ≡ false
      → is_queued (wake s co t) x ≡ false
  unfolding wake
  wake-free s co t x other free = elim (Bool-cases (has_flag s co urgent)) [
    | inl u ↦ rw (u, mem-append_last x co s.urgent_ready other) free
    | inr u ↦ rw (u, mem-append_last x co s.ready other) free
  ]

  pub wake-urged :
      (s : Schedule T) (co : ℕ) (t : T) (xs : List ℕ)
      → (wake s co t).urgent_ready ++ xs
        ≡ s.urgent_ready ++ (if has_flag s co urgent then co ∷ xs else xs)
  unfolding wake
  wake-urged s co t xs = elim (Bool-cases (has_flag s co urgent)) [
    | inl u ↦ rw u (append_assoc s.urgent_ready (co ∷ []) xs)
    | inr u ↦ rw u refl
  ]

  pub wake-plain :
      (s : Schedule T) (co : ℕ) (t : T) (xs : List ℕ)
      → (wake s co t).ready ++ xs ≡ s.ready ++ (if has_flag s co urgent then xs else co ∷ xs)
  unfolding wake
  wake-plain s co t xs = elim (Bool-cases (has_flag s co urgent)) [
    | inl u ↦ rw u refl
    | inr u ↦ rw u (append_assoc s.ready (co ∷ []) xs)
  ]
