-- ===== src/WaitGroup/Width.antt =====
-- The width that `dyco_waitgroup_create` chooses.
use dyco_coroutine.Base.{
  ℕ, zero, suc, ◌+◌, ◌*◌, ◌/◌, ◌^◌, ◌≤◌, ◌<◌, ◌≡◌, ◌↔◌, refl, subst, inl, inr, ◌⊎◌, true, false,
  ltb→lt, some, ltb, ◌==◌, arith, pos, Bool-cases,
}
use native.Mathlib.Nat.{pow-suc, one-le-pow, div-lt_iff_lt-mul}
use dyco_coroutine.WaitGroup.{widen, width_for}

fits_iff : (size w : ℕ) → (size / 2 ^ w < 1) ↔ (size < 1 * 2 ^ w)
fits_iff size w = div-lt_iff_lt-mul (omega (arith, one-le-pow w 2 (omega arith)))

true_fits : (size w : ℕ) → (size / 2 ^ w == 0) ≡ true → size < 2 ^ w
true_fits size w h =
    let small : size / 2 ^ w < 1 = ground arith in omega (arith, (fits_iff size w).0 small)

fits_true : (size w : ℕ) → size < 2 ^ w → (size / 2 ^ w == 0) ≡ true
fits_true size w h = let small = (fits_iff size w).1 (omega arith) in ground arith

over_fits : (size w : ℕ) → (size / 2 ^ w == 0) ≡ false → 2 ^ w ≤ size
over_fits size w h = elim (Bool-cases (ltb size (2 ^ w))) [
  | inl small ↦ (let fits = fits_true size w (ltb→lt size (2 ^ w) small) in ground arith)
  | inr large ↦ ground arith
]

-- The loop finds the first width, from its start on, whose range has the size.
widen_first :
    (n size width : ℕ)
    → size < 2 ^ (width + n)
    → (w : ℕ) × (widen n size width ≡ some w)
      × (width ≤ w)
      × (size < 2 ^ w)
      × ((w ≡ width) ⊎ (2 ^ w ≤ size * 2))
unfolding widen
widen_first zero size width h =
    let same : width + 0 ≡ width = omega arith in
    let small : size < 2 ^ width = subst (λ k. size < 2 ^ k) same h in
    (width, rw (widen, fits_true size width small) refl, omega arith, small, inl refl)
widen_first (suc n) size width h = elim (Bool-cases (size / 2 ^ width == 0)) [
  | inl fits ↦ (width, rw (widen, fits) refl, omega arith, true_fits size width fits, inl refl)
  | inr over ↦
      let same : width + suc n ≡ suc width + n = omega arith in
      let (w, run, late, small, first) =
        widen_first n size (suc width) (subst (λ k. size < 2 ^ k) same h) in
      (
        w,
        rw (widen, over) run,
        omega arith,
        small,
        inr (elim first [
          | inl here ↦
              (let low = over_fits size width over in rw here (omega (arith, pow-suc 2 width)))
          | inr tight ↦ tight
        ]),
      )
]

-- For a suggested size from 1 to 65536 the loop ends, with the least positive width whose range has
-- more numbers than the size.
pub width_for-least :
    (n : ℕ)
    → n < 65536
    → (w : ℕ) × (width_for (pos (suc n)) ≡ some w)
      × (1 ≤ w)
      × (suc n < 2 ^ w)
      × ((w ≡ 1) ⊎ (2 ^ w ≤ suc n * 2))
unfolding width_for
width_for-least n h =
    let within : ltb 65536 (suc n) ≡ false = ground arith in
    let (w, run, late, small, first) = widen_first 32 (suc n) 1 (omega arith) in
    (w, rw (width_for, within) run, late, small, first)
