-- ===== src/Channel/Order.antt =====
-- Messages through the channel: none is lost, duplicated, altered or overtaken.
use dyco_coroutine.Base.{ℕ, ◌≤◌, ◌≡◌, sym, ◌∙◌, ap, subst, some, List, ◌++◌, take, length, ℤ}
use mathlib.Core.List.{append_assoc}
use dyco_coroutine.Blocking.{Caller}
use dyco_coroutine.Channel.{Channel, Return, returned, waits, send_woken, send, recv_woken, recv}
use dyco_coroutine.Channel.Content.{
  content, IsValid, IsMessage, if_sent, Sent, Received, Kept, Sends, Receives,
}
use dyco_coroutine.Channel.Send.{send_woken-Sent, send-Sends}
use dyco_coroutine.Channel.Receive.{recv_woken-Received, recv-Receives}

-- The channel with the messages that sends have reported as sent and receives have handed out.
pub record System : Type 0 where
  pub channel : Channel
  pub sent : List (List ℕ)
  pub received : List (List ℕ)

abbrev pub after_send : System → List ℕ → Return → System
after_send s m r = record s { channel = r.channel; sent = s.sent ++ if_sent r.ret m }

abbrev pub after_recv : System → Return → System
after_recv s r = record s { channel = r.channel; received = s.received ++ if_sent r.ret r.copied }

-- One piece of a call of any coroutine: to its return or its wait, or from its wait to its return.
-- A wait may end at any time, by a notification, by its timeout, or because a stale notification
-- was there.
pub data Step (s : System) : System → Type 0 where
  send_returns :
      (buf : List ℕ) (size : ℕ) (timeout : ℤ) (caller : Caller) (r : Return)
      → size ≤ length buf
      → send (some s.channel) buf size timeout caller ≡ returned r
      → Step s (after_send s (take size buf) r)
  send_waits :
      (buf : List ℕ) (size : ℕ) (timeout : ℤ) (caller : Caller) (ch : Channel) (fd : ℕ)
      → size ≤ length buf
      → send (some s.channel) buf size timeout caller ≡ waits ch fd
      → Step s (record s { channel = ch })
  send_resumes :
      (buf : List ℕ) (size : ℕ)
      → IsMessage s.channel buf size
      → Step s (after_send s (take size buf) (send_woken s.channel buf size))
  recv_returns :
      (maxsize : ℕ) (timeout : ℤ) (caller : Caller) (r : Return)
      → recv (some s.channel) maxsize timeout caller ≡ returned r
      → Step s (after_recv s r)
  recv_waits :
      (maxsize : ℕ) (timeout : ℤ) (caller : Caller) (ch : Channel) (fd : ℕ)
      → recv (some s.channel) maxsize timeout caller ≡ waits ch fd
      → Step s (record s { channel = ch })
  recv_resumes : Step s (after_recv s (recv_woken s.channel))

pub data Run (s : System) : System → Type 0 where
  here : Run s s
  next : {t u : System} → Run s t → Step t u → Run s u

pub record InOrder (s : System) : Type 0 where
  pub valid : IsValid s.channel
  pub order : s.sent ≡ s.received ++ content s.channel

after_send-InOrder :
    (s : System) (m : List ℕ) (r : Return)
    → InOrder s
    → Sent s.channel m r
    → InOrder (after_send s m r)
after_send-InOrder s m r i e = record {
  valid = e.valid;
  order = rw (e.content, i.order) (append_assoc s.received (content s.channel) (if_sent r.ret m));
}

after_recv-InOrder :
    (s : System) (r : Return) → InOrder s → Received s.channel r → InOrder (after_recv s r)
after_recv-InOrder s r i e = record {
  valid = e.valid;
  order =
      i.order
      ∙ ap (◌++◌ s.received) e.content
      ∙ sym (append_assoc s.received (if_sent r.ret r.copied) (content r.channel));
}

Kept-InOrder :
    (s : System) (ch : Channel)
    → InOrder s
    → Kept s.channel ch
    → InOrder (record s { channel = ch })
Kept-InOrder s ch i k = record { valid = k.valid; order = rw k.content i.order }

Step-InOrder : {s t : System} → Step s t → InOrder s → InOrder t
Step-InOrder {s} (send_returns buf size timeout caller r present run) i =
    after_send-InOrder s (take size buf) r i (
      subst (Sends s.channel (take size buf)) run
        (send-Sends s.channel buf size timeout caller i.valid present))
Step-InOrder {s} (send_waits buf size timeout caller ch fd present run) i = Kept-InOrder s ch i (
    subst (Sends s.channel (take size buf)) run
      (send-Sends s.channel buf size timeout caller i.valid present))
Step-InOrder {s} (send_resumes buf size m) i =
    after_send-InOrder s (take size buf) _ i (send_woken-Sent s.channel buf size m i.valid)
Step-InOrder {s} (recv_returns maxsize timeout caller r run) i =
    after_recv-InOrder s r i
      (subst (Receives s.channel) run (recv-Receives s.channel timeout caller i.valid maxsize))
Step-InOrder {s} (recv_waits maxsize timeout caller ch fd run) i =
    Kept-InOrder s ch i
      (subst (Receives s.channel) run (recv-Receives s.channel timeout caller i.valid maxsize))
Step-InOrder {s} recv_resumes i = after_recv-InOrder s _ i (recv_woken-Received s.channel i.valid)

-- In every interleaving of sends and receives, what was sent is what was received, in order,
-- followed by the message that the channel holds.
pub Run-InOrder : {s t : System} → InOrder s → Run s t → InOrder t
Run-InOrder i here = i
Run-InOrder i (next r st) = Step-InOrder st (Run-InOrder i r)
