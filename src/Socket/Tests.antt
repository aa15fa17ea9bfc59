-- ===== src/Socket/Tests.antt =====
-- Each theorem at a few answers of the kernel.
use dyco_coroutine.Base.{ℕ, ◌≡◌, refl, true, List, [], ◌∷◌, arith, pos, minus_one}
use dyco_coroutine.Socket.{Answer, eagain, another, ended, send}
use dyco_coroutine.Socket.Sent.{IsHonest, is_unbroken, Delivers, send-Delivers}
use dyco_coroutine.Socket.Completion.{is_willing, total, send-Completes}

abbrev blocked : Answer
blocked = record { ret = minus_one; errno = eagain }

abbrev takes : ℕ → Answer
takes n = record { ret = pos n; errno = another }

abbrev three_bytes : List ℕ
three_bytes = 10 ∷ 11 ∷ 12 ∷ []

-- Two bytes, a full buffer, and the last byte.
abbrev slow : List Answer
slow = takes 2 ∷ blocked ∷ takes 1 ∷ []

slow-IsHonest : IsHonest 3 slow
unfolding IsHonest
slow-IsHonest = (omega arith, (omega arith, (omega arith, tt)))

slow_unbroken : is_unbroken slow ≡ true
unfolding is_unbroken
slow_unbroken = refl

slow_willing : is_willing slow ≡ true
unfolding is_willing
slow_willing = refl

slow-total : total slow ≡ 3
unfolding total
slow-total = refl

send-Delivers_example : Delivers three_bytes (send three_bytes slow)
send-Delivers_example = send-Delivers three_bytes slow (omega arith) slow-IsHonest slow_unbroken

send-Completes_example :
    (rest : List Answer) × (send three_bytes slow ≡ ended (pos 3) three_bytes rest)
send-Completes_example =
    send-Completes three_bytes slow (omega arith) (omega arith) slow-IsHonest slow_willing
      slow-total
