-- ===== src/Status/Digits.antt =====
-- The binary digits of the native bitwise operations.
use Prim.Native.Nat.{digits, bitwise, bit_and-bitwise, bit_or-bitwise, max}
use native.Mathlib.Nat.{pow-suc}
use dyco_coroutine.Base.{
  ℕ, zero, suc, ◌+◌, ◌-◌, ◌*◌, ◌/◌, ◌%◌, ◌^◌, ◌≤◌, ◌<◌, ◌≡◌, refl, sym, ◌∙◌, Bool, true, false,
  ◌&&◌, arith, ◌==◌, min, bit_and, bit_or, ap, ==_iff, Bool-cases, bit_and-le, subst, ◌⊎◌, inl, inr,
  to_nat,
}

-- The operations on digits recurse on a count that may be larger than the first number.
module _ (rest : ℕ → ℕ) (pick : ℕ → ℕ → ℕ) where
  one_more : (n a b : ℕ) → a ≤ n → digits rest pick (suc n) a b ≡ digits rest pick n a b
  one_more zero zero b h = refl
  one_more zero (suc a) b h = absurd (omega arith)
  one_more (suc n) zero b h = refl
  one_more (suc n) (suc a) b h =
      ap (λ r. r * 2 + pick (suc a % 2) (b % 2)) (one_more n (suc a / 2) (b / 2) (omega arith))

  surplus : (n a b : ℕ) → a ≤ n → digits rest pick n a b ≡ bitwise rest pick a b
  surplus zero zero b h = refl
  surplus zero (suc a) b h = absurd (omega arith)
  surplus (suc n) a b h = elim (Bool-cases (a == suc n)) [
    | inl same ↦
        let e : a ≡ suc n = (==_iff a (suc n)).0 same in ap (λ k. digits rest pick k a b) (sym e)
    | inr smaller ↦ one_more n a b (ground arith) ∙ surplus n a b (ground arith)
  ]

  -- The lowest digits, and the operation on what is above them.
  bitwise-halves :
      (a b : ℕ)
      → rest b ≡ rest (b / 2) * 2 + pick 0 (b % 2)
      → bitwise rest pick a b ≡ bitwise rest pick (a / 2) (b / 2) * 2 + pick (a % 2) (b % 2)
  bitwise-halves zero b h = h
  bitwise-halves (suc a) b h =
      ap (λ r. r * 2 + pick (suc a % 2) (b % 2)) (surplus a (suc a / 2) (b / 2) (omega arith))

bit_and-halves : (a b : ℕ) → bit_and a b ≡ bit_and (a / 2) (b / 2) * 2 + min (a % 2) (b % 2)
bit_and-halves a b =
    let upper = bit_and-bitwise (a / 2) (b / 2) in
    bit_and-bitwise a b
    ∙ bitwise-halves (λ b. zero) min a b (omega arith)
    ∙ ap (λ r. r * 2 + min (a % 2) (b % 2)) (sym upper)

bit_or-halves : (a b : ℕ) → bit_or a b ≡ bit_or (a / 2) (b / 2) * 2 + max (a % 2) (b % 2)
bit_or-halves a b =
    let upper = bit_or-bitwise (a / 2) (b / 2) in
    bit_or-bitwise a b
    ∙ bitwise-halves (λ b. b) max a b (omega arith)
    ∙ ap (λ r. r * 2 + max (a % 2) (b % 2)) (sym upper)

-- The digit at a position.
pub bit : ℕ → ℕ → ℕ
bit d zero = d % 2
bit d (suc x) = bit (d / 2) x

pub bit-lt : (d x : ℕ) → bit d x < 2
unfolding bit
bit-lt d zero = omega arith
bit-lt d (suc x) = bit-lt (d / 2) x

pub bit-cases : (d x : ℕ) → (bit d x ≡ 0) ⊎ (bit d x ≡ 1)
bit-cases d x = let h = bit-lt d x in ground arith

pub bit-or : (a b x : ℕ) → bit (bit_or a b) x ≡ max (bit a x) (bit b x)
unfolding bit
bit-or a b zero = omega (arith, bit_or-halves a b)
bit-or a b (suc x) =
    let e : bit_or a b / 2 ≡ bit_or (a / 2) (b / 2) = omega (arith, bit_or-halves a b) in
    rw e (bit-or (a / 2) (b / 2) x)

pub bit-and : (a b x : ℕ) → bit (bit_and a b) x ≡ min (bit a x) (bit b x)
unfolding bit
bit-and a b zero = omega (arith, bit_and-halves a b)
bit-and a b (suc x) =
    let e : bit_and a b / 2 ≡ bit_and (a / 2) (b / 2) = omega (arith, bit_and-halves a b) in
    rw e (bit-and (a / 2) (b / 2) x)

zero-bit : (x : ℕ) → bit 0 x ≡ 0
unfolding bit
zero-bit zero = refl
zero-bit (suc x) = zero-bit x

pub bit-pow : (a x : ℕ) → bit (2 ^ a) x ≡ to_nat (a == x)
unfolding bit
bit-pow zero zero = refl
bit-pow zero (suc x) = zero-bit x ∙ ground arith
bit-pow (suc a) zero = ground (arith, pow-suc 2 a)
bit-pow (suc a) (suc x) =
    let e : 2 ^ suc a / 2 ≡ 2 ^ a = omega (arith, pow-suc 2 a) in rw e (bit-pow a x ∙ ground arith)

even-step : (w h b p m : ℕ) → w ≡ h * 2 + min m (p * 2 % 2) → h ≡ b * p → w ≡ b * (p * 2)
even-step w h b p m e f =
    let q : p * 2 % 2 ≡ 0 = omega arith in
    let g : w ≡ h * 2 = ground (arith, q, e) in g ∙ ap (λ k. k * 2) f ∙ grind arith

pub bit_and-pow : (x d : ℕ) → bit_and d (2 ^ x) ≡ bit d x * 2 ^ x
unfolding bit
bit_and-pow zero d = omega (arith, bit_and-halves d 1, bit_and-le (d / 2) 0)
bit_and-pow (suc x) d =
    let p = pow-suc 2 x in
    let e : 2 ^ x * 2 / 2 ≡ 2 ^ x = omega arith in
    let h = bit_and-halves d (2 ^ x * 2) in
    let h' : bit_and d (2 ^ x * 2) ≡ bit_and (d / 2) (2 ^ x) * 2 + min (d % 2) (2 ^ x * 2 % 2) =
      subst (λ r. bit_and d (2 ^ x * 2) ≡ bit_and (d / 2) r * 2 + min (d % 2) (2 ^ x * 2 % 2)) e
        h in
    rw p (
      even-step (bit_and d (2 ^ x * 2)) (bit_and (d / 2) (2 ^ x)) (bit d (suc x)) (2 ^ x) (d % 2) h'
        (bit_and-pow x (d / 2)))

mask_row : ℕ → ℕ → Bool
mask_row x zero = true
mask_row x (suc b) = (bit (2 ^ 32 - 1 - 2 ^ x) b == (1 - to_nat (x == b))) && mask_row x b

mask_table : ℕ → Bool
mask_table zero = true
mask_table (suc x) = mask_row x 32 && mask_table x

mask_table-holds : mask_table 32 ≡ true
unfolding bit mask_row mask_table
mask_table-holds = refl

&&-both : (p q : Bool) → (p && q) ≡ true → (p ≡ true) × (q ≡ true)
&&-both true q h = (refl, h)
&&-both false q h = absurd (ground arith)

mask_row-at :
    (x n b : ℕ) → mask_row x n ≡ true → b < n → bit (2 ^ 32 - 1 - 2 ^ x) b ≡ 1 - to_nat (x == b)
unfolding mask_row
mask_row-at x zero b h p = absurd (omega arith)
mask_row-at x (suc n) b h p =
    let (here, below) =
      &&-both (bit (2 ^ 32 - 1 - 2 ^ x) n == (1 - to_nat (x == n))) (mask_row x n) h in
    elim (Bool-cases (b == n)) [
      | inl e ↦
          subst (λ k. bit (2 ^ 32 - 1 - 2 ^ x) k ≡ 1 - to_nat (x == k)) (sym ((==_iff b n).0 e))
            ((==_iff (bit (2 ^ 32 - 1 - 2 ^ x) n) _).0 here)
      | inr e ↦ mask_row-at x n b below (ground arith)
    ]

mask_table-at : (n x : ℕ) → mask_table n ≡ true → x < n → mask_row x 32 ≡ true
unfolding mask_table
mask_table-at zero x h p = absurd (omega arith)
mask_table-at (suc n) x h p =
    let (here, below) = &&-both (mask_row n 32) (mask_table n) h in
    elim (Bool-cases (x == n)) [
      | inl e ↦ subst (λ k. mask_row k 32 ≡ true) (sym ((==_iff x n).0 e)) here
      | inr e ↦ mask_table-at n x below (ground arith)
    ]

-- The complement of one bit among 32.
pub mask_bits : (x b : ℕ) → x < 32 → b < 32 → bit (2 ^ 32 - 1 - 2 ^ x) b ≡ 1 - to_nat (x == b)
mask_bits x b p q = mask_row-at x 32 b (mask_table-at 32 x mask_table-holds p) q
