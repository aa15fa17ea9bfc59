-- ===== src/Ssl.antt =====
-- src/dyco_ssl.c: the loops around the calls of OpenSSL. What each round finds is a parameter: the
-- result of the wait for the descriptor, what the call of OpenSSL returns, and its SSL_get_error. A
-- loop whose rounds are used up is still waiting, which is `none`.
pub mod Claims
mod Tests
use dyco_coroutine.Base.{
  ℕ, zero, suc, Bool, true, false, not, Option, none, some, List, [], ◌∷◌, if◌then◌else◌, ℤ, pos,
  negsuc, minus_one, less,
}

pub data SslError : Type 0 where
  error_none error_want_read error_want_write error_other : SslError

pub record Round : Type 0 where
  pub waited : ℤ
  pub ret : ℤ
  pub error : SslError

abbrev pub is_one : ℤ → Bool
is_one (pos (suc zero)) = true
is_one _ = false

abbrev pub is_minus_one : ℤ → Bool
is_minus_one (negsuc zero) = true
is_minus_one _ = false

abbrev pub wants : SslError → Bool
wants error_want_read = true
wants error_want_write = true
wants _ = false

-- dyco_SSL_accept.
unfoldable pub accept : List Round → Option ℤ
accept [] = none
accept (r ∷ rest) =
    let again = accept rest in
    if not (less (pos 0) r.waited)
    then some minus_one
    else if is_one r.ret
    then some (pos 1)
    else if wants r.error
    then again
    else some r.ret

-- dyco_SSL_connect.
unfoldable pub connect : List Round → Option ℤ
connect [] = none
connect (r ∷ rest) =
    let again = connect rest in
    if not (less (pos 0) r.waited)
    then some minus_one
    else if is_minus_one r.ret
    then if wants r.error then again else some minus_one
    else some (pos 1)

-- dyco_SSL_read of `num` bytes.
unfoldable pub read : ℤ → List Round → Option ℤ
read num [] = none
read num (r ∷ rest) =
    let again = read num rest in
    if not (less (pos 0) r.waited)
    then some minus_one
    else elim r.error [ error_none ↦ some num | error_want_read ↦ again | _ ↦ some r.ret ]

-- dyco_SSL_write of `num` bytes.
unfoldable pub write : ℤ → List Round → Option ℤ
write num [] = none
write num (r ∷ rest) =
    let again = write num rest in
    if not (less (pos 0) r.waited)
    then some minus_one
    else elim r.error [ error_none ↦ some num | error_want_write ↦ again | _ ↦ some r.ret ]
