-- ===== src/Ssl/Tests.antt =====
-- A refused handshake after a round that was not ready.
use dyco_coroutine.Base.{◌≡◌, refl, ◌>>=◌, some, List, [], ◌∷◌, pos, minus_one}
use dyco_coroutine.Ssl.{Round, error_want_read, error_other, connect, accept}
use dyco_coroutine.Ssl.Claims.{blurred, connect-accept}

abbrev unready : Round
unready = record { waited = pos 1; ret = minus_one; error = error_want_read }

-- A handshake that the peer has shut down.
abbrev refused : List Round
refused = unready ∷ record { waited = pos 1; ret = pos 0; error = error_other } ∷ []

refused-accept : accept refused ≡ some (pos 0)
unfolding accept
refused-accept = refl

connect-accept_example : connect refused ≡ (accept refused >>= λ r. some (blurred r))
connect-accept_example = connect-accept refused (refl, (refl, tt))
