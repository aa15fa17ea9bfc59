-- ===== src/PubSub/Delivery.antt =====
-- A published message and its subscribers.
use dyco_coroutine.Base.{
  ℕ, Bool, Option, none, some, List, [], ◌∷◌, ◌++◌, ◌>>=◌, replicate, ℤ, int_of,
}
use dyco_coroutine.Blocking.{Notice}
use dyco_coroutine.PubSub.{Channel, Outcome, returned, waits, refused, dec_size, subscribe_woken}

-- What a subscriber gets, the result of its call and the bytes in its buffer, and what it writes.
pub record Received : Type 0 where
  pub ret : ℤ
  pub copied : List ℕ
  pub notices : List Notice

-- The subscribers run one after the other, each having read the number of TRANS.
pub record Run : Type 0 where
  pub channel : Channel
  pub received : List Received

pub then_run : (Channel → Option Run) → Outcome → Option Run
then_run rest (returned ch r c ns) = rest ch >>= λ run. some (record {
  channel = run.channel;
  received = record { ret = r; copied = c; notices = ns } ∷ run.received;
})
then_run rest (refused r) = none
then_run rest (waits ch fd ns) = none

pub wake_all : (ℕ → Bool) → List ℕ → Channel → Option Run
unfolding then_run
wake_all writes [] ch = some (record { channel = ch; received = [] })
wake_all writes (fd ∷ fds) ch =
    subscribe_woken writes ch fd (some 2) >>= then_run (wake_all writes fds)

abbrev left : Channel → List ℕ → ℕ → Channel
left ch fds n = record ch { sublist = fds; sub_num = dec_size ch.sub_num; ack_rem = n }

-- Where `n` subscribers write nothing, and a last one writes to `fd`.
abbrev pub answers : ℤ → List ℕ → ℕ → ℕ → ℕ → List Received
answers ret bytes fd value n =
    replicate n (record { ret = ret; copied = bytes; notices = [] })
    ++ record { ret = ret; copied = bytes; notices = record { fd = fd; value = value } ∷ [] } ∷ []

abbrev all_answered : Channel → ℕ → ℕ → ℕ → List ℕ → Option Run
all_answered ch fd size n bytes =
    some (record { channel = ch; received = answers (int_of size) bytes fd 2 n })
