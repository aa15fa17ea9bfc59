-- ===== src/PubSub/Tests.antt =====
-- A channel of four bytes with two subscribers, 8 and 9.
use dyco_coroutine.Base.{
  ℕ, ◌≡◌, refl, Bool, true, false, none, some, [], ◌∷◌, ◌==◌, not, replicate, pos,
}
use dyco_coroutine.Blocking.{coroutine}
use dyco_coroutine.PubSub.{Channel, empty, create, subscribe, no_fd}
use dyco_coroutine.PubSub.Eager.{create-subscribe}

abbrev two_listen : Channel
two_listen = record {
  maxsize = 4;
  msglen = 0;
  msg = 0 ∷ 0 ∷ 0 ∷ 0 ∷ [];
  pub_notifyfd = no_fd;
  sub_num = 2;
  ack_rem = 0;
  sublist = 9 ∷ 8 ∷ [];
  status = empty;
}

abbrev writes : ℕ → Bool
writes fd = not (fd == no_fd)

abbrev new_channel : Channel
new_channel = record two_listen { sub_num = 0; sublist = [] }

new_channel-create : create true (some (λ n. replicate n 0)) 4 ≡ some new_channel
unfolding create
new_channel-create = refl

create-subscribe_example :
    subscribe writes (some new_channel) 4 (pos 0) (coroutine false) none ≡ none
create-subscribe_example =
    create-subscribe writes (λ n. replicate n 0) 4 4 (coroutine false) none new_channel
      new_channel-create refl refl
