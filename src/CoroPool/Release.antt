-- ===== src/CoroPool/Release.antt =====
-- A pool that gets smaller or is destroyed: its loops call the function of the other kind of
-- coroutine.
use dyco_coroutine.Base.{
  ℕ, zero, suc, ◌+◌, ◌<◌, ◌≤◌, ◌≡◌, refl, ap, ◌∙◌, Bool, true, false, none, some, List, ◌∷◌, arith,
  length, ℤ, pos, minus, less, count_of, difference,
}
use dyco_coroutine.Schedule.{Schedule, Kernel}
use dyco_coroutine.Schedule.Lifecycle.{free_coroutine, unregister}
use dyco_coroutine.Asymmetric.{free}
use dyco_coroutine.CoroPool.{Pool, Block, surplus, shrink, free_one, resize, destroy}
use dyco_coroutine.CoroPool.Size.{IsBalanced}

module _ {T : Type 0} where
  -- `freecoro` on a coroutine that was never obtained dereferences its NULL `sched`.
  shrink-unset :
      (kernel : Kernel) (n : ℕ) (s : Schedule T) (co : ℕ) (rest freelist : List ℕ)
      → freelist ≡ co ∷ rest
      → (s.coroutines co).sched ≡ false
      → shrink kernel true (suc n) s freelist ≡ none
  unfolding shrink free_one free_coroutine unregister
  shrink-unset kernel n s co rest freelist e unset =
      ap (shrink kernel true (suc n) s) e ∙ rw unset refl

  shrink-positive :
      (kernel : Kernel) (n : ℕ) (s : Schedule T) (co : ℕ) (rest freelist : List ℕ)
      → 0 < n
      → freelist ≡ co ∷ rest
      → (s.coroutines co).sched ≡ false
      → shrink kernel true n s freelist ≡ none
  shrink-positive kernel zero s co rest freelist some_turn e unset = absurd (omega arith)
  shrink-positive kernel (suc n) s co rest freelist some_turn e unset =
      shrink-unset kernel n s co rest freelist e unset

  resize-shrinks :
      (kernel : Kernel) (page_size : ℕ) (a : Bool) (pool : ℕ) (blocks : ℕ → Block)
      (writes : ℕ → Bool) (s : Schedule T) (cp : Pool) (newsize : ℤ)
      → less cp.totalsize newsize ≡ false
      → less newsize cp.totalsize ≡ true
      → shrink kernel a (count_of (surplus cp newsize)) s cp.freelist ≡ none
      → resize kernel page_size a pool blocks writes s cp newsize ≡ none
  unfolding resize
  resize-shrinks kernel page_size a pool blocks writes s cp newsize not_more fewer fails =
      rw (not_more, fewer) (rw fails refl)

  destroy-shrinks :
      (kernel : Kernel) (a : Bool) (s : Schedule T) (cp : Pool)
      → cp.activenum ≡ pos 0
      → shrink kernel a (count_of cp.totalsize) s cp.freelist ≡ none
      → destroy kernel a s (some cp) ≡ none
  unfolding destroy
  destroy-shrinks kernel a s cp idle fails = rw idle (rw fails refl)

  -- A balanced pool of asymmetric coroutines whose first free coroutine was never obtained cannot be
  -- made smaller, to any size from the number of its active ones on, and, where none is active, not
  -- be destroyed: either call ends the process.
  pub resize-unset :
      (kernel : Kernel) (page_size pool : ℕ) (blocks : ℕ → Block) (writes : ℕ → Bool)
      (s : Schedule T) (cp : Pool) (co m : ℕ) (rest : List ℕ)
      → (b : IsBalanced cp) → cp.freelist ≡ co ∷ rest
      → (s.coroutines co).sched ≡ false
      → b.active ≤ m
      → m < length cp.freelist + b.active
      → (resize kernel page_size true pool blocks writes s cp (pos m) ≡ none)
        × (b.active ≡ 0 → destroy kernel true s (some cp) ≡ none)
  unfolding surplus
  resize-unset kernel page_size pool blocks writes s cp co m rest b free unset low high =
      let t = length cp.freelist + b.active in
      let not_more : less cp.totalsize (pos m) ≡ false =
        ap (λ z. less z (pos m)) b.totalsize ∙ ground arith in
      let fewer : less (pos m) cp.totalsize ≡ true = ap (less (pos m)) b.totalsize ∙ ground arith in
      let enough : less (pos m) cp.activenum ≡ false =
        ap (less (pos m)) b.activenum ∙ ground arith in
      let turns : count_of (surplus cp (pos m)) ≡ count_of (difference t m) =
        rw enough (ap (λ z. count_of (minus z (pos m))) b.totalsize) in
      let some_turn : 0 < count_of (surplus cp (pos m)) = rw turns (ground arith) in
      let full : 0 < count_of cp.totalsize = rw b.totalsize (omega arith) in
      (
        resize-shrinks kernel page_size true pool blocks writes s cp (pos m) not_more fewer
            (shrink-positive kernel _ s co rest cp.freelist some_turn free unset),
        λ idle.
            destroy-shrinks kernel true s cp (b.activenum ∙ ap pos idle)
              (shrink-positive kernel _ s co rest cp.freelist full free unset),
      )
