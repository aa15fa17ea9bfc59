-- ===== src/Socket/Completion.antt =====
-- When a sending call ends.
use dyco_coroutine.Base.{
  ℕ, zero, suc, ◌+◌, ◌-◌, ◌^◌, ◌≤◌, ◌<◌, ◌≡◌, refl, subst, ap, ◌∙◌, Bool, true, false, ◌&&◌, ◌||◌,
  List, [], ◌∷◌, ◌++◌, length, take, drop, arith, inl, inr, Bool-cases, ltb, ℤ, pos, negsuc,
  count_of,
}
use dyco_coroutine.Socket.{
  Answer, Errno, eagain, einprogress, econnreset, another, Progress, ended, is_positive, finish,
  failed_turn, send_turn, send_loop, send_first, send, is_minus_one, is_eagain,
}
use dyco_coroutine.Socket.Sent.{IsHonest, IsSent, take-add, as_int-small, and-right, and-left}

-- Each call takes something or finds that it would block.
unfoldable pub is_willing : List Answer → Bool
is_willing [] = true
is_willing (a ∷ rest) =
    (is_positive a.ret || (is_minus_one a.ret && is_eagain a.errno)) && is_willing rest

-- How many bytes the calls take.
unfoldable pub total : List Answer → ℕ
total [] = 0
total (a ∷ rest) = count_of a.ret + total rest

take-length : {A : Type 0} (xs : List A) → take (length xs) xs ≡ xs
take-length [] = refl
take-length (x ∷ xs) = ap (◌∷◌ x) (take-length xs)

-- The call has sent all.
abbrev Completes : List ℕ → Progress → Type 0
Completes buf p = (rest : List Answer) × (p ≡ ended (pos (length buf)) buf rest)

finish-all : (sent : ℕ) (ret : ℤ) → 0 < sent → finish sent ret ≡ pos sent
unfolding finish
finish-all sent ret h = ground arith

all-Completes :
    (buf : List ℕ) (sent : ℕ) (ret : ℤ) (taken : List ℕ) (rest : List Answer)
    → 0 < length buf
    → sent ≡ length buf
    → taken ≡ take sent buf
    → Completes buf (ended (finish sent ret) taken rest)
all-Completes buf sent ret taken rest some_bytes all e = (
  rest,
  ap (λ r. ended r taken rest) (finish-all sent ret (omega (arith, all)) ∙ ap pos all)
      ∙ ap (λ t. ended (pos (length buf)) t rest) (e ∙ ap (λ n. take n buf) all ∙ take-length buf),
)

module _ (buf : List ℕ) (sent : ℕ) (taken : List ℕ) (a : Answer) (rest : List Answer)
    (short : length buf < 2 ^ 31) (fits_in : count_of a.ret ≤ length buf - sent)
    (i : IsSent buf sent taken)
    (again : (sent' : ℕ) (ret' : ℤ) (taken' : List ℕ)
      → sent' ≡ sent + count_of a.ret
      → IsSent buf sent' taken'
      → Completes buf (send_loop buf sent' ret' taken' rest)) where
  send_turn-Completes :
      (r : ℤ)
      → a.ret ≡ r
      → (e : Errno) → (is_positive r || (is_minus_one r && is_eagain e)) ≡ true
      → Completes buf (send_turn (λ s r' t. send_loop buf s r' t rest) buf sent taken rest e r)
  unfolding send_turn failed_turn
  send_turn-Completes (negsuc zero) k eagain h =
      again sent (negsuc 0) taken (omega (arith, ap count_of k)) i
  send_turn-Completes (negsuc zero) k econnreset h = absurd (ground (arith, h))
  send_turn-Completes (negsuc zero) k einprogress h = absurd (ground (arith, h))
  send_turn-Completes (negsuc zero) k another h = absurd (ground (arith, h))
  send_turn-Completes (negsuc (suc n)) k e h = absurd (ground (arith, h))
  send_turn-Completes (pos zero) k e h = absurd (ground (arith, h))
  send_turn-Completes (pos (suc n)) k e h =
      let c : count_of a.ret ≡ suc n = ap count_of k in
      let m : suc n ≤ length buf - sent = omega (arith, fits_in, c) in
      let fits : ltb (sent + suc n) (2 ^ 31) ≡ true = ground arith in
      rw fits (
        again (sent + suc n) (pos (suc n)) (taken ++ take (suc n) (drop sent buf))
          (omega (arith, c))
          (record {
            within = omega arith;
            bytes =
                ap (λ xs. xs ++ take (suc n) (drop sent buf)) i.bytes ∙ take-add sent (suc n) buf;
          }))

send_loop-Completes :
    (buf : List ℕ) (sent : ℕ) (ret : ℤ) (taken : List ℕ) (answers : List Answer)
    → 0 < length buf
    → length buf < 2 ^ 31
    → IsHonest (length buf - sent) answers
    → is_willing answers ≡ true
    → total answers ≡ length buf - sent
    → IsSent buf sent taken
    → Completes buf (send_loop buf sent ret taken answers)
unfolding send_loop IsHonest is_willing total
send_loop-Completes buf sent ret taken [] some_bytes short honest willing sum i =
    let done : ltb sent (length buf) ≡ false = ground (arith, sum) in
    rw done (all-Completes buf sent ret taken [] some_bytes (omega (arith, sum, i.within)) i.bytes)
send_loop-Completes buf sent ret taken (a ∷ rest) some_bytes short honest willing sum i =
    let able =
      and-left (is_positive a.ret || (is_minus_one a.ret && is_eagain a.errno)) (is_willing rest)
        willing in
    let on =
      and-right (is_positive a.ret || (is_minus_one a.ret && is_eagain a.errno)) (is_willing rest)
        willing in
    elim (Bool-cases (ltb sent (length buf))) [
      | inl more ↦
          let r = as_int-small a.ret (omega (arith, honest.0)) in
          rw (more, r)
            (send_turn-Completes buf sent taken a rest short honest.0 i
              (λ sent' ret' taken' e k.
                send_loop-Completes buf sent' ret' taken' rest some_bytes short
                  (subst (λ m. IsHonest m rest) (omega (arith, e)) honest.1) on
                  (omega (arith, e, sum, honest.0)) k)
              a.ret refl a.errno able)
      | inr done ↦ rw done (
          all-Completes buf sent ret taken (a ∷ rest) some_bytes (ground (arith, i.within, done))
            i.bytes)
    ]

send_first-Completes :
    (buf : List ℕ) (rest : List Answer) (r : ℤ) (e : Errno)
    → 0 < length buf
    → length buf < 2 ^ 31
    → count_of r ≤ length buf
    → IsHonest (length buf - count_of r) rest
    → (is_positive r || (is_minus_one r && is_eagain e)) ≡ true
    → is_willing rest ≡ true
    → count_of r + total rest ≡ length buf
    → Completes buf (send_first buf rest r)
unfolding send_first
send_first-Completes buf rest (negsuc n) e some_bytes short fits honest able on sum =
    send_loop-Completes buf 0 (negsuc n) [] rest some_bytes short
      (subst (λ m. IsHonest m rest) (omega arith) honest) on (omega (arith, sum))
      (record { within = omega arith; bytes = refl })
send_first-Completes buf rest (pos zero) e some_bytes short fits honest able on sum =
    absurd (ground (arith, able))
send_first-Completes buf rest (pos (suc n)) e some_bytes short fits honest able on sum =
    send_loop-Completes buf (suc n) (pos (suc n)) (take (suc n) buf) rest some_bytes short honest on
      (omega (arith, sum)) (record { within = fits; bytes = refl })

-- If the buffer is shorter than 2^31 and not empty, and each call of the kernel takes some of the
-- bytes that it is offered or says that it would block, then, however often it says so, a send ends
-- once all bytes are taken: its result is their number, and the kernel has the whole buffer.
pub send-Completes :
    (buf : List ℕ) (answers : List Answer)
    → 0 < length buf
    → length buf < 2 ^ 31
    → IsHonest (length buf) answers
    → is_willing answers ≡ true
    → total answers ≡ length buf
    → Completes buf (send buf answers)
unfolding send IsHonest is_willing total
send-Completes buf [] some_bytes short honest willing sum = absurd (omega (arith, sum))
send-Completes buf (a ∷ rest) some_bytes short honest willing sum =
    let able = is_positive a.ret || (is_minus_one a.ret && is_eagain a.errno) in
    rw (as_int-small a.ret (omega (arith, honest.0))) (
      send_first-Completes buf rest a.ret a.errno some_bytes short honest.0 honest.1
        (and-left able (is_willing rest) willing) (and-right able (is_willing rest) willing) sum)
