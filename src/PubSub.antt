-- ===== src/PubSub.antt =====
-- src/dyco_pubsub.c: the publish-subscribe channel. A subscriber is known by its descriptor.
-- `publish` and `subscribe` are the code up to its wait, `publish_woken` and `subscribe_woken` the
-- code behind it. `none` is an exit of the process, or an access through NULL.
pub mod Delivery
pub mod Eager
mod Tests
use dyco_coroutine.Base.{
  ℕ, zero, suc, ◌+◌, ◌-◌, ◌^◌, ◌%◌, Bool, true, false, not, ◌||◌, Option, none, some, List, [], ◌∷◌,
  ◌++◌, map, ltb, ◌==◌, if◌then◌else◌, ◌>>=◌, take, drop, ℤ, pos, minus_one, minus_two, int_of,
}
use dyco_coroutine.Blocking.{Caller, outside, coroutine, is_zero, Notice}

pub data Status : Type 0 where
  nop empty trans close : Status

-- The values of the C enumeration, and the conversion back.
abbrev pub code : Status → ℕ
code nop = 0
code empty = 1
code trans = 2
code close = 3

pub record Channel : Type 0 where
  pub maxsize : ℕ
  pub msglen : ℕ
  pub msg : List ℕ
  pub pub_notifyfd : ℕ
  pub sub_num : ℕ
  pub ack_rem : ℕ
  pub sublist : List ℕ
  pub status : Status

abbrev pub default_size : ℕ
default_size = 256

-- A descriptor of -1 is its 32-bit pattern.
abbrev pub no_fd : ℕ
no_fd = 2 ^ 32 - 1

abbrev pub dec_size : ℕ → ℕ
dec_size n = (n + (2 ^ 64 - 1)) % 2 ^ 64

-- `buffer` is what the second `malloc` answers, with the contents of the block.
pub create : Bool → Option (ℕ → List ℕ) → ℕ → Option Channel
create false buffer size = none
create true none size = none
create true (some buffer) size =
    let maxsize = if ltb 0 size then size else default_size in
    some (record {
      maxsize = maxsize;
      msglen = 0;
      msg = buffer maxsize;
      pub_notifyfd = no_fd;
      sub_num = 0;
      ack_rem = 0;
      sublist = [];
      status = empty;
    })

-- The writes to the subscribers, whose results are not looked at.
pub sub_notices : Channel → List Notice
sub_notices ch = map (λ fd. record { fd = fd; value = code ch.status }) ch.sublist

pub sub_notify : Channel → Channel
sub_notify ch = record ch { ack_rem = ch.sub_num }

-- Whether a descriptor can be written; if not, the process exits.
pub pub_notify : (ℕ → Bool) → Channel → Option Notice
pub_notify writes ch =
    if writes ch.pub_notifyfd
    then some (record { fd = ch.pub_notifyfd; value = code ch.status })
    else none

pub data Outcome : Type 0 where
  refused : ℤ → Outcome
  -- The result, what was copied to the caller's buffer, and what was written.
  returned : Channel → ℤ → List ℕ → List Notice → Outcome
  waits : Channel → ℕ → List Notice → Outcome

-- Behind the wait of the publisher; what `psc_pubwait` returns is not used.
pub publish_woken : Channel → ℕ → Outcome
publish_woken ch size = returned (record ch { status = empty }) (int_of size) [] []

pub store : Channel → List ℕ → ℕ → Channel
store ch buf size = record ch {
  msglen = size;
  msg = take size buf ++ drop size ch.msg;
  status = trans;
}

-- How psc_pubwait goes on: it returns at once, or its coroutine yields.
pub data PubWait : Type 0 where
  at_once : Channel → PubWait
  yields : Channel → ℕ → PubWait

-- psc_pubwait up to its yield; `fd` is the new eventfd, without which the process exits.
pub pub_wait : Channel → ℤ → Caller → Option ℕ → Option PubWait
pub_wait ch timeout outside fd = some (at_once ch)
pub_wait ch timeout (coroutine asymmetric) none =
    if is_zero timeout then some (at_once ch) else none
pub_wait ch timeout (coroutine asymmetric) (some fd) =
    if is_zero timeout
    then some (at_once ch)
    else some (yields (record ch { pub_notifyfd = fd }) fd)

pub publish_to : Channel → List ℕ → ℕ → Caller → Option ℕ → Option Outcome
unfolding store sub_notify sub_notices pub_wait
publish_to ch buf size caller fd =
    let ch' = sub_notify (store ch buf size) in
    pub_wait ch' minus_one caller fd >>= λ w. elim w [
      | at_once c ↦ some (returned (record c { status = empty }) (int_of size) [] (sub_notices ch'))
      | yields c notifyfd ↦ some (waits c notifyfd (sub_notices ch'))
    ]

pub is_empty : Status → Bool
is_empty empty = true
is_empty _ = false

pub publish : Option Channel → List ℕ → ℕ → Caller → Option ℕ → Option Outcome
unfolding publish_to is_empty
publish none buf size caller fd = some (refused minus_two)
publish (some ch) buf size caller fd =
    if not (is_empty ch.status) || (ltb ch.maxsize size || (size == 0))
    then some (refused minus_two)
    else if ch.sub_num == 0
    then some (refused (pos 0))
    else publish_to ch buf size caller fd

-- `memcpy(buf, ps_chan->msg, ret)`
pub stored : Channel → List ℕ
stored ch = take ch.msglen ch.msg

-- The inner switch of `subscribe`, on what `psc_subwait` returns.
pub receive : (ℕ → Bool) → Channel → Status → Option Outcome
unfolding stored pub_notify
receive writes ch empty =
    pub_notify writes ch >>= λ w. some (returned ch (int_of ch.msglen) (stored ch) (w ∷ []))
receive writes ch trans = some (returned ch (int_of ch.msglen) (stored ch) [])
receive writes ch close = some (returned ch minus_one [] [])
receive writes ch nop = some (returned ch minus_two [] [])

-- The subscriber joins at the head.
pub join : Channel → ℕ → Channel
join ch fd = record ch { sublist = fd ∷ ch.sublist; sub_num = (ch.sub_num + 1) % 2 ^ 64 }

pub subscribe_in : (ℕ → Bool) → Channel → Caller → Option ℕ → Option Outcome
unfolding receive join
subscribe_in writes ch outside fd = receive writes ch ch.status
subscribe_in writes ch (coroutine asymmetric) none = none
subscribe_in writes ch (coroutine asymmetric) (some fd) = some (waits (join ch fd) fd [])

pub subscribe_at : Status → (ℕ → Bool) → Channel → ℤ → Caller → Option ℕ → Option Outcome
unfolding receive subscribe_in
subscribe_at close writes ch timeout caller fd = some (returned ch minus_one [] [])
subscribe_at nop writes ch timeout caller fd = some (returned ch minus_one [] [])
subscribe_at empty writes ch timeout caller fd =
    if is_zero timeout then receive writes ch empty else subscribe_in writes ch caller fd
subscribe_at trans writes ch timeout caller fd =
    if is_zero timeout then receive writes ch trans else subscribe_in writes ch caller fd

pub subscribe : (ℕ → Bool) → Option Channel → ℕ → ℤ → Caller → Option ℕ → Option Outcome
unfolding subscribe_at
subscribe writes none maxsize timeout caller fd = some (refused minus_two)
subscribe writes (some ch) maxsize timeout caller fd =
    if ltb maxsize ch.maxsize
    then some (refused minus_two)
    else subscribe_at ch.status writes ch timeout caller fd

pub leave_tail : ℕ → List ℕ → List ℕ
leave_tail fd [] = []
leave_tail fd (x ∷ xs) = if x == fd then xs else x ∷ leave_tail fd xs

-- The head is read without a test for NULL.
pub leave : ℕ → List ℕ → Option (List ℕ)
unfolding leave_tail
leave fd [] = none
leave fd (x ∷ xs) = if x == fd then some xs else some (x ∷ leave_tail fd xs)

-- A number that was read from the descriptor, as a status.
pub status_of : ℕ → Status
status_of zero = nop
status_of (suc zero) = empty
status_of (suc (suc zero)) = trans
status_of (suc (suc (suc zero))) = close
status_of (suc (suc (suc (suc n)))) = nop

pub acknowledge : (ℕ → Bool) → Channel → ℕ → Option Outcome
unfolding receive status_of
acknowledge writes ch count =
    let ch' = record ch { ack_rem = dec_size ch.ack_rem } in
    if ch'.ack_rem == 0 then receive writes ch' empty else receive writes ch' (status_of count)

-- Behind the wait of a subscriber; `read` is what the descriptor gives, none for EAGAIN.
pub subscribe_woken : (ℕ → Bool) → Channel → ℕ → Option ℕ → Option Outcome
unfolding leave acknowledge receive
subscribe_woken writes ch fd read = leave fd ch.sublist >>= λ fds.
    let ch' = record ch { sublist = fds; sub_num = dec_size ch.sub_num } in
    elim read [ none ↦ receive writes ch' nop | some count ↦ acknowledge writes ch' count ]

-- `*ps_chan` after `dyco_pubsub_destroy`: NULL, or the wait behind which it is freed.
pub data Destroyed : Type 0 where
  freed : List Notice → Destroyed
  closing : Channel → ℕ → List Notice → Destroyed

pub destroy_in : Channel → Caller → Option ℕ → Option Destroyed
unfolding sub_notify sub_notices pub_wait
destroy_in ch caller fd = pub_wait (sub_notify ch) minus_one caller fd >>= λ w. elim w [
  | at_once c ↦ some (freed (sub_notices ch))
  | yields c notifyfd ↦ some (closing c notifyfd (sub_notices ch))
]

pub destroy : Option Channel → Caller → Option ℕ → Option Destroyed
unfolding destroy_in
destroy none caller fd = some (freed [])
destroy (some ch) caller fd =
    if ch.sub_num == 0 then some (freed []) else destroy_in (record ch { status = close }) caller fd
