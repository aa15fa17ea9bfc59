-- ===== src/Ssl/Claims.antt =====
-- What the results of a handshake and of a read say of what OpenSSL answered.
use dyco_coroutine.Base.{
  ◌≡◌, refl, ap, Bool, true, false, not, ◌||◌, Option, some, List, [], ◌∷◌, All, ℤ, pos, less,
  if◌then◌else◌, ◌>>=◌, negsuc, zero, suc, arith, minus_one,
}
use dyco_coroutine.Ssl.{
  Round, SslError, error_none, error_want_read, error_want_write, error_other, is_one, is_minus_one,
  wants, connect, accept, read,
}

-- OpenSSL wants more to read or write only where its call has returned -1.
abbrev pub is_sound : Round → Bool
is_sound r = not (wants r.error) || is_minus_one r.ret

-- What dyco_SSL_connect makes of a result of dyco_SSL_accept.
abbrev pub blurred : ℤ → ℤ
blurred r = if is_minus_one r then minus_one else pos 1

-- One round of the two loops, where `c` and `a` are what their other rounds give.
same_round :
    (ready : Bool) (ret : ℤ) (more : Bool) (c a : Option ℤ)
    → c ≡ (a >>= λ r. some (blurred r))
    → (not more || is_minus_one ret) ≡ true
    → (if not ready
        then some minus_one
        else if is_minus_one ret
        then if more then c else some minus_one
        else some (pos 1))
      ≡ ((if not ready
            then some minus_one
            else if is_one ret
            then some (pos 1)
            else if more
            then a
            else some ret)
          >>= λ r. some (blurred r))
same_round false ret more c a same sound = refl
same_round true (pos zero) false c a same sound = refl
same_round true (pos zero) true c a same sound = absurd (ground arith)
same_round true (pos (suc zero)) more c a same sound = refl
same_round true (pos (suc (suc n))) false c a same sound = refl
same_round true (pos (suc (suc n))) true c a same sound = absurd (ground arith)
same_round true (negsuc zero) false c a same sound = refl
same_round true (negsuc zero) true c a same sound = same
same_round true (negsuc (suc n)) false c a same sound = refl
same_round true (negsuc (suc n)) true c a same sound = absurd (ground arith)

-- Where OpenSSL wants more only behind a call that returned -1, dyco_SSL_connect and dyco_SSL_accept
-- take the same rounds, whatever the waits and OpenSSL answer. dyco_SSL_connect returns -1 where
-- dyco_SSL_accept does, and 1 wherever that returns another number, be it 1 or a failure like 0.
pub connect-accept :
    (rounds : List Round)
    → All (λ r. is_sound r ≡ true) rounds
    → connect rounds ≡ (accept rounds >>= λ r. some (blurred r))
unfolding connect accept
connect-accept [] sound = refl
connect-accept (r ∷ rounds) (sound, rest) =
    same_round (less (pos 0) r.waited) r.ret (wants r.error) (connect rounds) (accept rounds)
      (connect-accept rounds rest) sound

abbrev changed : (ℤ → ℤ) → SslError → ℤ → ℤ
changed change error_none ret = change ret
changed change error_want_read ret = ret
changed change error_want_write ret = ret
changed change error_other ret = ret

-- Rounds in which each successful call of SSL_read gives another number of bytes.
abbrev with_bytes : (ℤ → ℤ) → List Round → List Round
with_bytes change [] = []
with_bytes change (r ∷ rounds) =
    record r { ret = changed change r.error r.ret } ∷ with_bytes change rounds

abbrev answered : ℤ → SslError → ℤ → Option ℤ → Option ℤ
answered num e ret rest = elim e [ error_none ↦ some num | error_want_read ↦ rest | _ ↦ some ret ]

same_read :
    (change : ℤ → ℤ) (num ret : ℤ) (e : SslError) (rest rest' : Option ℤ)
    → rest' ≡ rest
    → answered num e (changed change e ret) rest' ≡ answered num e ret rest
same_read change num ret error_none rest rest' same = refl
same_read change num ret error_want_read rest rest' same = same
same_read change num ret error_want_write rest rest' same = refl
same_read change num ret error_other rest rest' same = refl

-- The result of dyco_SSL_read is the same however many bytes its successful call of SSL_read gives.
read-with_bytes :
    (change : ℤ → ℤ) (num : ℤ) (rounds : List Round)
    → read num (with_bytes change rounds) ≡ read num rounds
unfolding read
read-with_bytes change num [] = refl
read-with_bytes change num (r ∷ rounds) =
    ap (λ o. if not (less (pos 0) r.waited) then some minus_one else o)
      (same_read change num r.ret r.error (read num rounds) (read num (with_bytes change rounds))
        (read-with_bytes change num rounds))
