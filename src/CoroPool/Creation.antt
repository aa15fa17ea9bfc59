-- ===== src/CoroPool/Creation.antt =====
-- A new pool.
use dyco_coroutine.Base.{
  size_of, less, int_of, ℤ, ℕ, zero, suc, ◌+◌, ◌≡◌, ◌≢◌, refl, sym, subst, ap, ◌∙◌, Bool, true,
  false, Option, none, some, List, [], ◌∷◌, arith, inl, inr, Bool-cases, if◌then◌else◌, length, All,
  ◌==◌, less, int_of, ==_refl, ne→==, ==_iff, pos,
}
use dyco_coroutine.Status.{new, incoropool, asymmetric, testbit}
use dyco_coroutine.Status.Flags.{testbit-setbit}
use dyco_coroutine.Schedule.{Schedule, Coroutine, has_flag, set_flag, with_coroutine}
use dyco_coroutine.Schedule.Lifecycle.{new_coroutine}
use dyco_coroutine.CoroPool.{
  Pool, Block, available, coro_setstack, fill_one, fill, create, new_for_pool, enter_pool,
}
use dyco_coroutine.CoroPool.Size.{IsBalanced}

module _ {T : Type 0} where
  -- A coroutine that says that it belongs to the pool.
  pub record IsPooled (pool : ℕ) (s : Schedule T) (co : ℕ) : Type 0 where
    pub flagged : has_flag s co incoropool ≡ true
    pub cpool : (s.coroutines co).cpool ≡ some pool

  coro_setstack-other :
      (page_size : ℕ) (memory : Option ℕ) (s : Schedule T) (co stacksize c : ℕ)
      → c ≢ co
      → (coro_setstack page_size memory s (some co) none stacksize).0.coroutines c ≡ s.coroutines c
  unfolding coro_setstack
  coro_setstack-other page_size memory s co stacksize c h = elim (Bool-cases (has_flag s co new)) [
    | inl fresh ↦ rw fresh (rw (ne→== c co h) refl)
    | inr old ↦ rw old refl
  ]

  coro_setstack_if-other :
      (page_size : ℕ) (memory : Option ℕ) (s₁ s : Schedule T) (co stacksize c : ℕ) (b : Bool)
      → c ≢ co
      → s₁.coroutines c ≡ s.coroutines c
      → (if b
            then (coro_setstack page_size memory s₁ (some co) none stacksize).0
            else s₁).coroutines
          c
        ≡ s.coroutines c
  coro_setstack_if-other page_size memory s₁ s co stacksize c true h e =
      coro_setstack-other page_size memory s₁ co stacksize c h ∙ e
  coro_setstack_if-other page_size memory s₁ s co stacksize c false h e = e

  new_for_pool-other :
      (page_size : ℕ) (a : Bool) (stacksize : ℤ) (memory : Option ℕ) (s : Schedule T) (co c : ℕ)
      → c ≢ co
      → (new_for_pool page_size a stacksize memory s co).coroutines c ≡ s.coroutines c
  unfolding new_for_pool
  new_for_pool-other page_size true stacksize memory s co c h =
      coro_setstack_if-other page_size memory
        (set_flag (with_coroutine s co new_coroutine) co asymmetric) s co (size_of stacksize) c true
        h (rw (ne→== c co h) refl)
  new_for_pool-other page_size false stacksize memory s co c h =
      coro_setstack_if-other page_size memory (with_coroutine s co new_coroutine) s co
        (size_of stacksize) c (less (pos 0) stacksize) h (rw (ne→== c co h) refl)

  enter_pool-IsPooled :
      (pool : ℕ) (s : Schedule T) (co : ℕ) → IsPooled pool (enter_pool pool s co) co
  unfolding enter_pool
  enter_pool-IsPooled pool s co = record {
    flagged = rw (==_refl co) (testbit-setbit (s.coroutines co).status incoropool incoropool);
    cpool = rw (==_refl co) refl;
  }

  enter_pool-other :
      (pool : ℕ) (s : Schedule T) (co c : ℕ)
      → c ≢ co
      → (enter_pool pool s co).coroutines c ≡ s.coroutines c
  unfolding enter_pool
  enter_pool-other pool s co c h = rw (ne→== c co h) refl

  module _ (page_size : ℕ) (a : Bool) (stacksize : ℤ) (pool : ℕ) where
    filled : Block → Schedule T → ℕ → Schedule T
    filled b s co = enter_pool pool (new_for_pool page_size a stacksize b.stack s co) co

    fill_one-filled :
        (b : Block) (s : Schedule T) (co : ℕ)
        → b.address ≡ some co
        → fill_one page_size a stacksize pool b s ≡ some (filled b s co, co)
    unfolding fill_one filled
    fill_one-filled b s co e = rw e refl

    filled-IsPooled :
        (b : Block) (s : Schedule T) (co c : ℕ)
        → (c ≢ co → IsPooled pool s c)
        → IsPooled pool (filled b s co) c
    unfolding filled
    filled-IsPooled b s co c h =
        let own = enter_pool-IsPooled pool (new_for_pool page_size a stacksize b.stack s co) co in
        elim (Bool-cases (c == co)) [
          | inl same ↦ subst (IsPooled pool (filled b s co)) (sym ((==_iff c co).0 same)) own
          | inr other ↦
              let ne : c ≢ co = λ e. ground (arith, other, e) in
              let e =
                enter_pool-other pool (new_for_pool page_size a stacksize b.stack s co) co c ne
                ∙ new_for_pool-other page_size a stacksize b.stack s co c ne in
              record {
                flagged = ap (λ (k : Coroutine). testbit k.status incoropool) e ∙ (h ne).flagged;
                cpool = ap (λ (k : Coroutine). k.cpool) e ∙ (h ne).cpool;
              }
        ]

    filled-All :
        (b : Block) (s : Schedule T) (co : ℕ) (freelist : List ℕ)
        → All (IsPooled pool s) freelist
        → All (IsPooled pool (filled b s co)) freelist
    filled-All b s co [] h = tt
    filled-All b s co (c ∷ freelist) h =
        (filled-IsPooled b s co c (λ _. h.0), filled-All b s co freelist h.1)

    fill-All :
        (blocks : ℕ → Block) (address : ℕ → ℕ) (n i : ℕ) (s : Schedule T) (freelist : List ℕ)
        → ((j : ℕ) → (blocks j).address ≡ some (address j))
        → All (IsPooled pool s) freelist
        → (s' : Schedule T) × (rest : List ℕ) × (fill page_size a stacksize pool blocks n i s
              freelist
            ≡ some (s', rest))
          × (length rest ≡ n + length freelist)
          × All (IsPooled pool s') rest
    unfolding fill
    fill-All blocks address zero i s freelist memory h = (s, freelist, refl, omega arith, h)
    fill-All blocks address (suc n) i s freelist memory h =
        let co = address i in
        let (s', rest, run, len, all) =
          fill-All blocks address n (i + 1) (filled (blocks i) s co) (co ∷ freelist) memory (
            filled-IsPooled (blocks i) s co co (λ ne. absurd (ne refl)),
            filled-All (blocks i) s co freelist h,
          ) in
        (s', rest, rw (fill_one-filled (blocks i) s co (memory i)) run, omega (arith, len), all)

  -- With memory for all, a positive size makes a pool of that many free coroutines, each of which
  -- is marked as belonging to it, with nobody active and nobody waiting.
  pub create-Filled :
      (page_size : ℕ) (a : Bool) (stacksize pool : ℕ) (blocks : ℕ → Block) (address : ℕ → ℕ)
      (s : Schedule T) (n : ℕ)
      → ((j : ℕ) → (blocks j).address ≡ some (address j))
      → (s' : Schedule T) × (cp : Pool) × (create page_size blocks
            (some pool)
            s
            (pos (suc n))
            stacksize
            a
          ≡ some (s', some cp))
        × IsBalanced cp
        × (length cp.freelist ≡ suc n)
        × (available cp ≡ pos (suc n))
        × (cp.sublist ≡ [])
        × All (IsPooled pool s') cp.freelist
  unfolding create
  create-Filled page_size a stacksize pool blocks address s n memory =
      let (s', rest, run, len, all) =
        fill-All page_size a (pos stacksize) pool blocks address (suc n) 0 s [] memory tt in
      let cp : Pool = record {
        totalsize = pos (suc n);
        activenum = pos 0;
        stacksize = int_of stacksize;
        sublist = [];
        freelist = rest;
      } in
      (
        s',
        cp,
        rw run refl,
        record { active = 0; activenum = refl; totalsize = ap pos (omega (arith, len)) },
        omega (arith, len),
        ground arith,
        refl,
        all,
      )
