-- ===== src/Resume/Plain.antt =====
-- Coroutines on their own, and the status word behind the turn of one whose function is over.
use dyco_coroutine.Base.{
  ℕ, ◌<◌, ◌≡◌, ◌≢◌, refl, sym, subst, ◌∙◌, true, false, List, [], ◌∷◌, ◌==◌, if◌then◌else◌, All,
  arith, inl, inr, Bool-cases,
}
use dyco_coroutine.HashTable.{no_id}
use dyco_coroutine.Status.{
  new, ready, exited, schedcall, killed, sleeping, incoropool, iomultiplexing, setbit, clrbit,
  testbit,
}
use dyco_coroutine.Status.Flags.{testbit-setbit, testbit-clrbit}
use dyco_coroutine.Schedule.{Coroutine}

-- The status word of a coroutine that was resumed from the ready queue and whose function is over.
unfoldable pub ended : ℕ → ℕ
ended w = let v = clrbit w ready in setbit (if testbit v new then clrbit v new else v) exited

pub ended-kept :
    (w x : ℕ)
    → x < 32
    → (ready == x) ≡ false
    → (new == x) ≡ false
    → (exited == x) ≡ false
    → testbit (ended w) x ≡ testbit w x
unfolding ended
ended-kept w x small r n e =
    let v = clrbit w ready in
    let kept : testbit v x ≡ testbit w x =
      testbit-clrbit w ready x (omega arith) small ∙ rw r refl in
    testbit-setbit (if testbit v new then clrbit v new else v) exited x
    ∙ rw e (elim (Bool-cases (testbit v new)) [
      | inl fresh ↦ rw fresh (testbit-clrbit v new x (omega arith) small ∙ rw n kept)
      | inr old ↦ rw old kept
    ])

pub ended-exited : (w : ℕ) → testbit (ended w) exited ≡ true
unfolding ended
ended-exited w =
    let v = clrbit w ready in
    testbit-setbit (if testbit v new then clrbit v new else v) exited exited

-- A registered coroutine on its own, awake, and without an epoll descriptor.
pub record IsPlain (c : Coroutine) : Type 0 where
  pub calm : testbit c.status schedcall ≡ false
  pub alive : testbit c.status killed ≡ false
  pub awake : testbit c.status sleeping ≡ false
  pub pooled : testbit c.status incoropool ≡ false
  pub plain : testbit c.status iomultiplexing ≡ false
  pub set : c.sched ≡ true
  pub valid : c.cid ≢ no_id

pub All-moved :
    (f g : ℕ → Coroutine) (co : ℕ) (xs : List ℕ)
    → ((c : ℕ) → c ≢ co → g c ≡ f c)
    → All (λ y. co ≢ y) xs
    → All (λ c. IsPlain (f c)) xs
    → All (λ c. IsPlain (g c)) xs
All-moved f g co [] same apart all = tt
All-moved f g co (x ∷ xs) same (other, apart) (here, all) =
    (subst IsPlain (sym (same x (λ e. other (sym e)))) here, All-moved f g co xs same apart all)
