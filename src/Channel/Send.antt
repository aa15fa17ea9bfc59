-- ===== src/Channel/Send.antt =====
-- dyco_channel_send: what it puts into the channel, on every branch.
use dyco_coroutine.Base.{
  length-drop, ℕ, ◌≤◌, ◌≡◌, refl, sym, false, ◌||◌, Bool-cases, inl, inr, some, List, [], ◌∷◌,
  arith, ltb, ◌==◌, take, drop, length, length-append, length-take_le, take-append_take, ℤ,
  minus_one, minus_two,
}
use mathlib.Core.List.{append-nil}
use dyco_coroutine.Blocking.{Caller, Notice}
use dyco_coroutine.Channel.{
  Status, nop, empty, full, want_read, want_write, want_close, can_close, Channel, Wait, at_once,
  exits, yields, begin_wait, returned, waits, exited, store, stored, with_status, plain,
  send_stored, send_woken_at, send_woken, send_at, send,
}
use dyco_coroutine.Channel.Content.{
  content, IsValid, is_positive, IsMessage, Sent, int_of-positive, Sends, with_status-Kept,
  Kept-Sent,
}

module _ (ch : Channel) (buf : List ℕ) (size : ℕ) (m : IsMessage ch buf size) (v : IsValid ch) where
  store-IsValid : IsValid (store ch buf size)
  unfolding store
  store-IsValid = record {
    int_size = v.int_size;
    buffer = omega (
      arith,
      length-append (take size buf) (drop size ch.msg),
      length-take_le size buf m.present,
      length-drop size ch.msg,
      m.fits,
      v.buffer,
    );
    fits = m.fits;
    nonempty = λ _. m.positive;
  }

  store-content : content (store ch buf size) ≡ take size buf ∷ []
  unfolding store stored
  store-content = rw (take-append_take size buf (drop size ch.msg) m.present)

  stored-Sent :
      (ns : List Notice)
      → content ch ≡ []
      → Sent ch (take size buf) (send_stored (store ch buf size) size ns)
  unfolding send_stored
  stored-Sent ns void = record {
    valid = store-IsValid;
    maxsize = unfold store in refl;
    content =
        rw (int_of-positive size m.positive (omega (arith, m.fits, v.int_size)), void)
          store-content;
  }

plain-Sent :
    (ch : Channel) (msg : List ℕ) (r : ℤ)
    → IsValid ch
    → is_positive r ≡ false
    → Sent ch msg (plain ch r)
plain-Sent ch msg r v n = record { valid = v; maxsize = refl; content = rw n (sym (append-nil _)) }

module _ (ch : Channel) (buf : List ℕ) (size : ℕ) (m : IsMessage ch buf size) (v : IsValid ch) where
  send_woken_at-Sent :
      (s : Status) → ch.status ≡ s → Sent ch (take size buf) (send_woken_at s ch buf size)
  unfolding send_woken_at stored
  send_woken_at-Sent nop e = plain-Sent ch _ minus_one v refl
  send_woken_at-Sent empty e = stored-Sent ch buf size m v [] (rw e)
  send_woken_at-Sent full e = plain-Sent ch _ minus_two v refl
  send_woken_at-Sent want_read e = stored-Sent ch buf size m v _ (rw e)
  send_woken_at-Sent want_write e = record {
    valid = record {
      int_size = v.int_size;
      buffer = v.buffer;
      fits = v.fits;
      nonempty = λ _. v.nonempty (rw e);
    };
    maxsize = refl;
    content = rw e;
  }
  send_woken_at-Sent want_close e = record {
    valid = record { int_size = v.int_size; buffer = v.buffer; fits = v.fits; nonempty = λ k. cc };
    maxsize = refl;
    content = rw e;
  }
  send_woken_at-Sent can_close e = plain-Sent ch _ minus_one v refl

  pub send_woken-Sent : Sent ch (take size buf) (send_woken ch buf size)
  unfolding send_woken
  send_woken-Sent = send_woken_at-Sent ch.status refl

module _ (ch : Channel) (buf : List ℕ) (size : ℕ) (timeout : ℤ) (caller : Caller)
    (v : IsValid ch) where
  wait-Sends :
      (w : Wait)
      → ch.status ≡ full
      → IsMessage ch buf size
      → Sends ch (take size buf) (elim w [
        | at_once ↦ returned (send_woken (with_status ch want_write) buf size)
        | exits ↦ exited
        | yields fd ↦ waits (with_status ch want_write) fd
      ])
  wait-Sends at_once e m =
      let k = with_status-Kept ch want_write v (rw e) in
      Kept-Sent k (
        send_woken-Sent (with_status ch want_write) buf size
          (record { positive = m.positive; fits = m.fits; present = m.present }) k.valid)
  wait-Sends exits e m = tt
  wait-Sends (yields fd) e m = with_status-Kept ch want_write v (rw e)

  send_at-Sends :
      (s : Status)
      → ch.status ≡ s
      → IsMessage ch buf size
      → Sends ch (take size buf) (send_at s ch buf size timeout caller)
  unfolding send_at
  send_at-Sends nop e m = plain-Sent ch _ minus_two v refl
  send_at-Sends empty e m = stored-Sent ch buf size m v [] (rw e)
  send_at-Sends full e m = wait-Sends (begin_wait ch.w_notifyfd timeout caller) e m
  send_at-Sends want_read e m = stored-Sent ch buf size m v _ (rw e)
  send_at-Sends want_write e m = plain-Sent ch _ minus_two v refl
  send_at-Sends want_close e m = plain-Sent ch _ minus_one v refl
  send_at-Sends can_close e m = plain-Sent ch _ minus_two v refl

  -- Whatever the state of the channel, a send puts its bytes behind the content exactly if it
  -- reports a length.
  pub send-Sends :
      size ≤ length buf → Sends ch (take size buf) (send (some ch) buf size timeout caller)
  unfolding send
  send-Sends present = elim (Bool-cases (ltb ch.maxsize size || (size == 0))) [
    | inl bad ↦ rw bad refl
    | inr good ↦ rw good (
        send_at-Sends ch.status refl
          (record { positive = ground arith; fits = ground arith; present = present }))
  ]
