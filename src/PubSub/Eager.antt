-- ===== src/PubSub/Eager.antt =====
-- Polling a new channel.
use dyco_coroutine.Base.{ℕ, ◌≡◌, refl, subst, Bool, true, false, Option, none, some, List, ltb, pos}
use mathlib.Core.Option.{some-injective}
use dyco_coroutine.Blocking.{Caller}
use dyco_coroutine.PubSub.{Channel, create, subscribe, subscribe_at, receive, pub_notify, no_fd}

-- A subscription with timeout 0 to a channel that was just created ends the process, where the
-- descriptor -1 cannot be written.
pub create-subscribe :
    (writes : ℕ → Bool) (buffer : ℕ → List ℕ) (size maxsize : ℕ) (caller : Caller) (fd : Option ℕ)
    (ch : Channel)
    → create true (some buffer) size ≡ some ch
    → writes no_fd ≡ false
    → ltb maxsize ch.maxsize ≡ false
    → subscribe writes (some ch) maxsize (pos 0) caller fd ≡ none
unfolding create subscribe subscribe_at receive pub_notify
create-subscribe writes buffer size maxsize caller fd ch made closed room =
    subst
      (λ c.
        ltb maxsize c.maxsize ≡ false → subscribe writes (some c) maxsize (pos 0) caller fd ≡ none)
      (some-injective _ _ made) (λ h. rw (subscribe, h, closed) refl) room
