-- ===== src/Channel/Receive.antt =====
-- dyco_channel_recv: what it takes from the channel, on every branch.
use dyco_coroutine.Base.{
  ℕ, ◌≡◌, refl, true, false, Bool-cases, inl, inr, some, List, [], arith, ltb, ℤ, minus_one,
  minus_two,
}
use dyco_coroutine.Blocking.{Caller, Notice}
use dyco_coroutine.Channel.{
  Status, nop, empty, full, want_read, want_write, want_close, can_close, Channel, Wait, at_once,
  exits, yields, begin_wait, returned, waits, exited, with_status, plain, recv_stored,
  recv_woken_at, recv_woken, recv_at, recv,
}
use dyco_coroutine.Channel.Content.{
  holds_message, IsValid, is_positive, Received, int_of-positive, Receives, with_status-Kept,
  Kept-Received,
}

plain-Received :
    (ch : Channel) (r : ℤ) → IsValid ch → is_positive r ≡ false → Received ch (plain ch r)
plain-Received ch r v n = record { valid = v; maxsize = refl; content = rw n }

module _ (ch : Channel) (v : IsValid ch) where
  stored-Received :
      (ns : List Notice) → holds_message ch.status ≡ true → Received ch (recv_stored ch ns)
  unfolding recv_stored
  stored-Received ns h = record {
    valid = record { int_size = v.int_size; buffer = v.buffer; fits = v.fits; nonempty = λ k. cc };
    maxsize = refl;
    content = rw (h, int_of-positive ch.msglen (v.nonempty h) (omega (arith, v.fits, v.int_size)));
  }

  recv_woken_at-Received : (s : Status) → ch.status ≡ s → Received ch (recv_woken_at s ch)
  unfolding recv_woken_at
  recv_woken_at-Received nop e = plain-Received ch minus_one v refl
  recv_woken_at-Received empty e = plain-Received ch minus_two v refl
  recv_woken_at-Received full e = stored-Received [] (rw e)
  recv_woken_at-Received want_read e = record {
    valid = record { int_size = v.int_size; buffer = v.buffer; fits = v.fits; nonempty = λ k. cc };
    maxsize = refl;
    content = rw e;
  }
  recv_woken_at-Received want_write e = stored-Received _ (rw e)
  recv_woken_at-Received want_close e = record {
    valid = record { int_size = v.int_size; buffer = v.buffer; fits = v.fits; nonempty = λ k. cc };
    maxsize = refl;
    content = rw e;
  }
  recv_woken_at-Received can_close e = plain-Received ch minus_one v refl

  pub recv_woken-Received : Received ch (recv_woken ch)
  unfolding recv_woken
  recv_woken-Received = recv_woken_at-Received ch.status refl

module _ (ch : Channel) (timeout : ℤ) (caller : Caller) (v : IsValid ch) where
  wait-Receives :
      (w : Wait)
      → ch.status ≡ empty
      → Receives ch (elim w [
        | at_once ↦ returned (recv_woken (with_status ch want_read))
        | exits ↦ exited
        | yields fd ↦ waits (with_status ch want_read) fd
      ])
  wait-Receives at_once e =
      let k = with_status-Kept ch want_read v (rw e) in
      Kept-Received k (recv_woken-Received (with_status ch want_read) k.valid)
  wait-Receives exits e = tt
  wait-Receives (yields fd) e = with_status-Kept ch want_read v (rw e)

  recv_at-Receives : (s : Status) → ch.status ≡ s → Receives ch (recv_at s ch timeout caller)
  unfolding recv_at
  recv_at-Receives nop e = plain-Received ch minus_two v refl
  recv_at-Receives empty e = wait-Receives (begin_wait ch.r_notifyfd timeout caller) e
  recv_at-Receives full e = stored-Received ch v [] (rw e)
  recv_at-Receives want_read e = plain-Received ch minus_two v refl
  recv_at-Receives want_write e = stored-Received ch v _ (rw e)
  recv_at-Receives want_close e = plain-Received ch minus_one v refl
  recv_at-Receives can_close e = plain-Received ch minus_two v refl

  -- Whatever the state of the channel, a receive takes the front message exactly if it reports a
  -- length, and then has copied that message.
  pub recv-Receives : (maxsize : ℕ) → Receives ch (recv (some ch) maxsize timeout caller)
  unfolding recv
  recv-Receives maxsize = elim (Bool-cases (ltb maxsize ch.maxsize)) [
    | inl bad ↦ rw bad refl
    | inr good ↦ rw good (recv_at-Receives ch.status refl)
  ]
