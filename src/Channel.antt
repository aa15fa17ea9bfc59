-- ===== src/Channel.antt =====
-- src/dyco_channel.c: the half duplex channel.
-- A byte is a number and the message buffer a list of them. `send` and `recv` are the code up to
-- its end or its wait in `hdc_wait`; `send_woken` and `recv_woken` are the inner switches, which run
-- when the wait is over. What `hdc_wait` returns is not used by its callers, so a wait ends in the
-- same way by a notification and by its timeout.
pub mod Content
pub mod Send
pub mod Receive
pub mod Order
pub mod Close
mod Tests
use dyco_coroutine.Base.{
  ℕ, zero, suc, ◌<◌, Bool, true, false, ◌||◌, Option, none, some, List, [], ◌∷◌, ◌++◌, ltb, ◌==◌,
  if◌then◌else◌, take, drop, ℤ, pos, minus_one, minus_two, int_of,
}
use dyco_coroutine.Blocking.{Caller, outside, coroutine, is_zero, Notice}

pub data Status : Type 0 where
  nop empty full want_read want_write want_close can_close : Status

-- The values of the C enumeration.
abbrev pub code : Status → ℕ
code nop = 0
code empty = 1
code full = 2
code want_read = 3
code want_write = 4
code want_close = 5
code can_close = 6

pub record Channel : Type 0 where
  pub maxsize : ℕ
  pub msglen : ℕ
  pub msg : List ℕ
  pub r_notifyfd : ℕ
  pub w_notifyfd : ℕ
  pub status : Status

abbrev pub default_size : ℕ
default_size = 256

-- `buffer` is what `malloc` answers, with the contents of the block, and `fds` the two descriptors.
pub create : Option (ℕ → List ℕ) → ℕ → ℕ → ℕ → Option Channel
create none r w size = none
create (some buffer) r w size =
    let maxsize = if ltb 0 size then size else default_size in
    some (record {
      maxsize = maxsize;
      msglen = 0;
      msg = buffer maxsize;
      r_notifyfd = r;
      w_notifyfd = w;
      status = empty;
    })

pub notify : Channel → ℕ → Notice
notify ch fd = record { fd = fd; value = code ch.status }

-- How `hdc_wait` begins: it returns at once, it yields until `fd` is readable, or the process ends.
pub data Wait : Type 0 where
  at_once exits : Wait
  yields : ℕ → Wait

pub begin_wait : ℕ → ℤ → Caller → Wait
begin_wait fd timeout outside = at_once
begin_wait fd timeout (coroutine asymmetric) =
    if is_zero timeout then at_once else if asymmetric then exits else yields fd

-- How a call ends: it returns with a value, what it copied to its caller's buffer and what it wrote
-- to descriptors; or it waits on a descriptor.
pub record Return : Type 0 where
  pub channel : Channel
  pub ret : ℤ
  pub copied : List ℕ
  pub notices : List Notice

pub data Outcome : Type 0 where
  refused : ℤ → Outcome
  returned : Return → Outcome
  waits : Channel → ℕ → Outcome
  exited : Outcome

-- `memcpy(channel->msg, buf, size)`
pub store : Channel → List ℕ → ℕ → Channel
store ch buf size = record ch {
  msglen = size;
  msg = take size buf ++ drop size ch.msg;
  status = full;
}

-- `memcpy(buf, channel->msg, channel->msglen)`
pub stored : Channel → List ℕ
stored ch = take ch.msglen ch.msg

abbrev pub with_status : Channel → Status → Channel
with_status ch s = record ch { status = s }

abbrev pub plain : Channel → ℤ → Return
plain ch r = record { channel = ch; ret = r; copied = []; notices = [] }

pub send_stored : Channel → ℕ → List Notice → Return
send_stored ch size ns = record { channel = ch; ret = int_of size; copied = []; notices = ns }

pub send_woken_at : Status → Channel → List ℕ → ℕ → Return
unfolding store send_stored notify
send_woken_at empty ch buf size = send_stored (store ch buf size) size []
send_woken_at full ch buf size = plain ch minus_two
send_woken_at want_read ch buf size =
    let ch' = store ch buf size in send_stored ch' size (notify ch' ch.r_notifyfd ∷ [])
send_woken_at want_write ch buf size = plain (with_status ch full) (pos 0)
send_woken_at want_close ch buf size =
    let ch' = with_status ch can_close in
    record { channel = ch'; ret = minus_one; copied = []; notices = notify ch' ch.r_notifyfd ∷ [] }
send_woken_at nop ch buf size = plain ch minus_one
send_woken_at can_close ch buf size = plain ch minus_one

pub send_woken : Channel → List ℕ → ℕ → Return
unfolding send_woken_at
send_woken ch buf size = send_woken_at ch.status ch buf size

pub send_at : Status → Channel → List ℕ → ℕ → ℤ → Caller → Outcome
unfolding store send_stored notify begin_wait send_woken
send_at empty ch buf size timeout caller = returned (send_stored (store ch buf size) size [])
send_at full ch buf size timeout caller =
    let ch' = with_status ch want_write in
    elim (begin_wait ch.w_notifyfd timeout caller) [
      | at_once ↦ returned (send_woken ch' buf size)
      | exits ↦ exited
      | yields fd ↦ waits ch' fd
    ]
send_at want_read ch buf size timeout caller =
    let ch' = store ch buf size in returned (send_stored ch' size (notify ch' ch.r_notifyfd ∷ []))
send_at want_write ch buf size timeout caller = returned (plain ch minus_two)
send_at want_close ch buf size timeout caller = returned (plain ch minus_one)
send_at nop ch buf size timeout caller = returned (plain ch minus_two)
send_at can_close ch buf size timeout caller = returned (plain ch minus_two)

pub send : Option Channel → List ℕ → ℕ → ℤ → Caller → Outcome
unfolding send_at
send none buf size timeout caller = refused minus_two
send (some ch) buf size timeout caller =
    if ltb ch.maxsize size || (size == 0)
    then refused minus_two
    else send_at ch.status ch buf size timeout caller

-- The message goes to the caller and the channel is empty.
pub recv_stored : Channel → List Notice → Return
unfolding stored
recv_stored ch ns = record {
  channel = with_status ch empty;
  ret = int_of ch.msglen;
  copied = stored ch;
  notices = ns;
}

pub recv_woken_at : Status → Channel → Return
unfolding recv_stored notify
recv_woken_at empty ch = plain ch minus_two
recv_woken_at full ch = recv_stored ch []
recv_woken_at want_read ch = plain (with_status ch empty) (pos 0)
recv_woken_at want_write ch = recv_stored ch (notify (with_status ch empty) ch.w_notifyfd ∷ [])
recv_woken_at want_close ch =
    let ch' = with_status ch can_close in
    record { channel = ch'; ret = minus_one; copied = []; notices = notify ch' ch.w_notifyfd ∷ [] }
recv_woken_at nop ch = plain ch minus_one
recv_woken_at can_close ch = plain ch minus_one

pub recv_woken : Channel → Return
unfolding recv_woken_at
recv_woken ch = recv_woken_at ch.status ch

pub recv_at : Status → Channel → ℤ → Caller → Outcome
unfolding recv_stored notify begin_wait recv_woken
recv_at empty ch timeout caller =
    let ch' = with_status ch want_read in
    elim (begin_wait ch.r_notifyfd timeout caller) [
      | at_once ↦ returned (recv_woken ch')
      | exits ↦ exited
      | yields fd ↦ waits ch' fd
    ]
recv_at full ch timeout caller = returned (recv_stored ch [])
recv_at want_read ch timeout caller = returned (plain ch minus_two)
recv_at want_write ch timeout caller =
    returned (recv_stored ch (notify (with_status ch empty) ch.w_notifyfd ∷ []))
recv_at want_close ch timeout caller = returned (plain ch minus_one)
recv_at nop ch timeout caller = returned (plain ch minus_two)
recv_at can_close ch timeout caller = returned (plain ch minus_two)

-- `maxsize` is the room in the caller's buffer.
pub recv : Option Channel → ℕ → ℤ → Caller → Outcome
unfolding recv_at
recv none maxsize timeout caller = refused minus_two
recv (some ch) maxsize timeout caller =
    if ltb maxsize ch.maxsize then refused minus_two else recv_at ch.status ch timeout caller

-- `*chan` and the channel after `dyco_channel_destroy`.
pub data Destroyed : Type 0 where
  -- The call returned: `*chan` is NULL if the channel was freed.
  left : Option Channel → List Notice → Destroyed
  -- It waits, and closes and frees when it runs again.
  closing : Channel → ℕ → Notice → Destroyed
  ended : Destroyed

-- From the second `if` of the function on.
pub close_at : Status → Channel → Caller → Destroyed
unfolding notify begin_wait
close_at want_read ch caller =
    let ch' = with_status ch want_close in
    elim (begin_wait ch.w_notifyfd minus_one caller) [
      | at_once ↦ left none (notify ch' ch.r_notifyfd ∷ [])
      | exits ↦ ended
      | yields fd ↦ closing ch' fd (notify ch' ch.r_notifyfd)
    ]
close_at want_write ch caller =
    let ch' = with_status ch want_close in
    elim (begin_wait ch.r_notifyfd minus_one caller) [
      | at_once ↦ left none (notify ch' ch.w_notifyfd ∷ [])
      | exits ↦ ended
      | yields fd ↦ closing ch' fd (notify ch' ch.w_notifyfd)
    ]
close_at _ ch caller = left none []

-- The condition assigns: `channel->status = HDC_STATUS_WANTCLOSE`, whose value is 5.
pub destroy : Option Channel → Caller → Destroyed
unfolding close_at
destroy none caller = left none []
destroy (some ch) caller =
    let ch' = with_status ch want_close in
    if code ch'.status == 0 then close_at ch'.status ch' caller else left (some ch') []
