-- ===== src/Socket/Sent.antt =====
-- What a sending call has given to the kernel when it ends, and when it ends.
use dyco_coroutine.Base.{
  ℕ, zero, suc, ◌+◌, ◌-◌, ◌^◌, ◌≤◌, ◌<◌, ◌≡◌, refl, subst, sym, ap, ◌∙◌, Bool, true, false, ◌⊎◌,
  List, [], ◌∷◌, ◌++◌, length, length-take_le, not, ◌&&◌, take, drop, arith, inl, inr, Bool-cases,
  ltb, ℤ, pos, negsuc, count_of,
}
use dyco_coroutine.Socket.{
  Answer, Errno, eagain, einprogress, econnreset, another, Progress, waiting, ended, undefined,
  as_int, is_positive, finish, failed_turn, send_turn, send_loop, send_first, send,
}

-- The kernel takes no more bytes than it is offered, `left` of which are not sent yet.
unfoldable pub IsHonest : ℕ → List Answer → Type 0
IsHonest left [] = Unit
IsHonest left (a ∷ rest) = (count_of a.ret ≤ left) × IsHonest (left - count_of a.ret) rest

abbrev pub is_reset : Errno → Bool
is_reset econnreset = true
is_reset _ = false

-- No call finds that the peer has reset the connection.
unfoldable pub is_unbroken : List Answer → Bool
is_unbroken [] = true
is_unbroken (a ∷ rest) = not (is_reset a.errno) && is_unbroken rest

-- The bytes that a call has given to the kernel are the first ones of the buffer. Their number is its
-- result, unless there are none and the result is that of a failed call.
unfoldable pub Delivers : List ℕ → Progress → Type 0
Delivers buf (waiting taken) = taken ≡ take (length taken) buf
Delivers buf (ended ret taken rest) =
    (taken ≡ take (length taken) buf)
    × ((ret ≡ pos (length taken)) ⊎ ((taken ≡ []) × (is_positive ret ≡ false)))
Delivers buf undefined = ⊥

pub take-nil : {A : Type 0} (n : ℕ) → take {A = A} n [] ≡ []
take-nil zero = refl
take-nil (suc n) = refl

pub take-add :
    {A : Type 0} (n k : ℕ) (xs : List A) → take n xs ++ take k (drop n xs) ≡ take (n + k) xs
take-add zero k xs = ap (λ m. take m xs) (omega arith)
take-add (suc n) k [] = take-nil k ∙ sym (take-nil (suc n + k))
take-add (suc n) k (x ∷ xs) =
    ap (◌∷◌ x) (take-add n k xs) ∙ ap (λ m. take m (x ∷ xs)) {x = suc (n + k)} (omega arith)

pub as_int-small : (r : ℤ) → count_of r < 2 ^ 31 → as_int r ≡ r
as_int-small (pos n) h = ground arith
as_int-small (negsuc n) h = refl

pub and-right : (a b : Bool) → (a && b) ≡ true → b ≡ true
and-right true b h = h
and-right false b h = absurd (ground (arith, h))

pub and-left : (a b : Bool) → (a && b) ≡ true → a ≡ true
and-left true b h = refl
and-left false b h = h

pub not-true : (a : Bool) → not a ≡ true → a ≡ false
not-true true h = sym h
not-true false h = refl

finish-cases :
    (sent : ℕ) (ret : ℤ)
    → (finish sent ret ≡ pos sent) ⊎ ((sent ≡ 0) × (is_positive (finish sent ret) ≡ false))
unfolding finish
finish-cases zero (pos zero) = inl refl
finish-cases zero (pos (suc n)) = inl refl
finish-cases zero (negsuc n) = inr (refl, refl)
finish-cases (suc s) (pos zero) = inl (ground arith)
finish-cases (suc s) (pos (suc n)) = inl (ground arith)
finish-cases (suc s) (negsuc n) = inl (ground arith)

-- The loop has sent the first bytes.
pub record IsSent (buf : List ℕ) (sent : ℕ) (taken : List ℕ) : Type 0 where
  pub within : sent ≤ length buf
  pub bytes : taken ≡ take sent buf

IsSent-length : {buf taken : List ℕ} {sent : ℕ} → IsSent buf sent taken → length taken ≡ sent
IsSent-length {buf} {taken} {sent} i = ap length i.bytes ∙ length-take_le sent buf i.within

IsSent-bytes :
    {buf taken : List ℕ} {sent : ℕ} → IsSent buf sent taken → taken ≡ take (length taken) buf
IsSent-bytes {buf} i = i.bytes ∙ ap (λ n. take n buf) (sym (IsSent-length i))

finish-Delivers :
    (buf : List ℕ) (sent : ℕ) (ret : ℤ) (taken : List ℕ) (rest : List Answer)
    → IsSent buf sent taken
    → Delivers buf (ended (finish sent ret) taken rest)
unfolding Delivers
finish-Delivers buf sent ret taken rest i = (
  IsSent-bytes i,
  elim (finish-cases sent ret) [
    | inl whole ↦ inl (whole ∙ ap pos (sym (IsSent-length i)))
    | inr (none, failed) ↦ inr (i.bytes ∙ ap (λ n. take n buf) none, failed)
  ],
)

waiting-Delivers :
    (buf : List ℕ) (sent : ℕ) (taken : List ℕ)
    → IsSent buf sent taken
    → Delivers buf (waiting taken)
unfolding Delivers
waiting-Delivers buf sent taken i = IsSent-bytes i

-- One turn of the loop, where the later ones are as they should be.
module _ (buf : List ℕ) (sent : ℕ) (taken : List ℕ) (a : Answer) (rest : List Answer)
    (short : length buf < 2 ^ 31) (fits_in : count_of a.ret ≤ length buf - sent)
    (honest : IsHonest (length buf - sent - count_of a.ret) rest) (calm : is_reset a.errno ≡ false)
    (i : IsSent buf sent taken)
    (again : (sent' : ℕ) (ret' : ℤ) (taken' : List ℕ)
      → IsHonest (length buf - sent') rest
      → IsSent buf sent' taken'
      → Delivers buf (send_loop buf sent' ret' taken' rest)) where
  counted : count_of (as_int a.ret) ≡ count_of a.ret
  counted = ap count_of (as_int-small a.ret (omega (arith, fits_in)))

  failed_turn-Delivers :
      (r : ℤ)
      → count_of a.ret ≡ 0
      → (e : Errno) → is_reset e ≡ false
      → Delivers buf (failed_turn (send_loop buf sent r taken rest) sent taken rest r e)
  unfolding failed_turn
  failed_turn-Delivers r none eagain h =
      again sent r taken (subst (λ n. IsHonest n rest) (omega (arith, none)) honest) i
  failed_turn-Delivers r none econnreset h = absurd (ground (arith, h))
  failed_turn-Delivers r none einprogress h = finish-Delivers buf sent r taken rest i
  failed_turn-Delivers r none another h = finish-Delivers buf sent r taken rest i

  send_turn-Delivers :
      (r : ℤ)
      → as_int a.ret ≡ r
      → Delivers buf (send_turn (λ s r' t. send_loop buf s r' t rest) buf sent taken rest a.errno r)
  unfolding send_turn
  send_turn-Delivers (negsuc n) e =
      failed_turn-Delivers (negsuc n) (sym counted ∙ ap count_of e) a.errno calm
  send_turn-Delivers (pos zero) e =
      failed_turn-Delivers (pos zero) (sym counted ∙ ap count_of e) a.errno calm
  send_turn-Delivers (pos (suc n)) e =
      let c : count_of a.ret ≡ suc n = sym counted ∙ ap count_of e in
      let k : suc n ≤ length buf - sent = omega (arith, fits_in, c) in
      let fits : ltb (sent + suc n) (2 ^ 31) ≡ true = ground arith in
      rw fits (
        again (sent + suc n) (pos (suc n)) (taken ++ take (suc n) (drop sent buf))
          (subst (λ m. IsHonest m rest) (omega (arith, c)) honest)
          (record {
            within = omega arith;
            bytes =
                ap (λ xs. xs ++ take (suc n) (drop sent buf)) i.bytes ∙ take-add sent (suc n) buf;
          }))

send_loop-Delivers :
    (buf : List ℕ) (sent : ℕ) (ret : ℤ) (taken : List ℕ) (answers : List Answer)
    → length buf < 2 ^ 31
    → IsHonest (length buf - sent) answers
    → is_unbroken answers ≡ true
    → IsSent buf sent taken
    → Delivers buf (send_loop buf sent ret taken answers)
unfolding send_loop IsHonest is_unbroken
send_loop-Delivers buf sent ret taken [] short honest unbroken i =
    elim (Bool-cases (ltb sent (length buf))) [
      | inl more ↦ rw more (waiting-Delivers buf sent taken i)
      | inr done ↦ rw done (finish-Delivers buf sent ret taken [] i)
    ]
send_loop-Delivers buf sent ret taken (a ∷ rest) short honest unbroken i =
    let calm =
      not-true (is_reset a.errno) (and-left (not (is_reset a.errno)) (is_unbroken rest) unbroken) in
    let on = and-right (not (is_reset a.errno)) (is_unbroken rest) unbroken in
    elim (Bool-cases (ltb sent (length buf))) [
      | inl more ↦ rw more (
          send_turn-Delivers buf sent taken a rest short honest.0 honest.1 calm i
            (λ sent' ret' taken' h k. send_loop-Delivers buf sent' ret' taken' rest short h on k)
            (as_int a.ret) refl)
      | inr done ↦ rw done (finish-Delivers buf sent ret taken (a ∷ rest) i)
    ]

nothing-Delivers : (buf : List ℕ) → Delivers buf (waiting [])
unfolding Delivers
nothing-Delivers buf = refl

zero-Delivers : (buf : List ℕ) (rest : List Answer) → Delivers buf (ended (pos 0) [] rest)
unfolding Delivers
zero-Delivers buf rest = (refl, inl refl)

send_first-Delivers :
    (buf : List ℕ) (accepted : ℕ) (rest : List Answer) (r : ℤ)
    → length buf < 2 ^ 31
    → accepted ≤ length buf
    → IsHonest (length buf - accepted) rest
    → is_unbroken rest ≡ true
    → count_of r ≡ accepted
    → Delivers buf (send_first buf rest r)
unfolding send_first
send_first-Delivers buf accepted rest (negsuc n) short fits honest on e =
    send_loop-Delivers buf 0 (negsuc n) [] rest short
      (subst (λ m. IsHonest m rest) (omega (arith, e)) honest) on
      (record { within = omega arith; bytes = refl })
send_first-Delivers buf accepted rest (pos zero) short fits honest on e = zero-Delivers buf rest
send_first-Delivers buf accepted rest (pos (suc n)) short fits honest on e =
    send_loop-Delivers buf (suc n) (pos (suc n)) (take (suc n) buf) rest short
      (subst (λ m. IsHonest m rest) (omega (arith, e)) honest) on
      (record { within = omega (arith, e); bytes = refl })

-- With a buffer shorter than 2^31, a kernel that takes no more than it is offered and no reset of the
-- connection, a send gives the kernel the first bytes of the buffer, in order and each once, and its
-- sum never overflows. When it ends, its result is their number, unless there are none and the
-- result is that of a failed call.
pub send-Delivers :
    (buf : List ℕ) (answers : List Answer)
    → length buf < 2 ^ 31
    → IsHonest (length buf) answers
    → is_unbroken answers ≡ true
    → Delivers buf (send buf answers)
unfolding send IsHonest is_unbroken
send-Delivers buf [] short honest unbroken = nothing-Delivers buf
send-Delivers buf (a ∷ rest) short honest unbroken =
    send_first-Delivers buf (count_of a.ret) rest (as_int a.ret) short honest.0 honest.1
      (and-right (not (is_reset a.errno)) (is_unbroken rest) unbroken)
      (ap count_of (as_int-small a.ret (omega (arith, honest.0))))
