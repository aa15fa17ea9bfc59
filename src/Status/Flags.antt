-- ===== src/Status/Flags.antt =====
-- Each flag of a status word is its own.
use Prim.Native.Nat.{max}
use native.Mathlib.Nat.{one-le-pow}
use dyco_coroutine.Base.{
  ℕ, ◌-◌, ◌*◌, ◌^◌, ◌<◌, ◌≡◌, sym, ap, ◌∙◌, Bool, true, false, not, ◌||◌, ◌&&◌, arith, ◌==◌, min,
  to_nat, bit_and, bit_or, inl, inr,
}
use dyco_coroutine.Status.{setbit, clrbit, testbit}
use dyco_coroutine.Status.Digits.{
  bit, bit-or, bit-and, bit-pow, bit_and-pow, bit-lt, bit-cases, mask_bits,
}

abbrev pub is_one : ℕ → Bool
is_one v = v == 1

testbit-bit : (d x : ℕ) → testbit d x ≡ is_one (bit d x)
unfolding testbit
testbit-bit d x =
    let h = bit_and-pow x d in
    let p = one-le-pow x 2 (omega arith) in
    elim (bit-cases d x) [
      | inl e ↦ (let z : bit_and d (2 ^ x) ≡ 0 * 2 ^ x = h ∙ ap (λ k. k * 2 ^ x) e in ground arith)
      | inr e ↦ (let z : bit_and d (2 ^ x) ≡ 1 * 2 ^ x = h ∙ ap (λ k. k * 2 ^ x) e in ground arith)
    ]

max_one : (v w : ℕ) (b : Bool) → v < 2 → w ≡ max v (to_nat b) → is_one w ≡ (b || is_one v)
max_one v w true h e = ground arith
max_one v w false h e = ground arith

min_one : (v w : ℕ) (b : Bool) → v < 2 → w ≡ min v (1 - to_nat b) → is_one w ≡ (not b && is_one v)
min_one v w true h e = ground arith
min_one v w false h e = ground arith

pub testbit-setbit : (d x y : ℕ) → testbit (setbit d x) y ≡ ((x == y) || testbit d y)
unfolding setbit
testbit-setbit d x y =
    testbit-bit (bit_or d (2 ^ x)) y
    ∙ max_one (bit d y) _ (x == y) (bit-lt d y)
        (bit-or d (2 ^ x) y ∙ ap (max (bit d y)) (bit-pow x y))
    ∙ ap (λ r. (x == y) || r) (sym (testbit-bit d y))

pub testbit-clrbit :
    (d x y : ℕ) → x < 32 → y < 32 → testbit (clrbit d x) y ≡ (not (x == y) && testbit d y)
unfolding clrbit
testbit-clrbit d x y p q =
    testbit-bit (bit_and d (2 ^ 32 - 1 - 2 ^ x)) y
    ∙ min_one (bit d y) _ (x == y) (bit-lt d y)
        (bit-and d (2 ^ 32 - 1 - 2 ^ x) y ∙ ap (min (bit d y)) (mask_bits x y p q))
    ∙ ap (λ r. not (x == y) && r) (sym (testbit-bit d y))
