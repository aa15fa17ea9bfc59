-- ===== src/Channel/Tests.antt =====
-- The channel at small inputs: a run of two senders and a receiver, and each theorem at it.
use dyco_coroutine.Base.{
  ℕ, ◌≡◌, refl, false, some, ◌⊎◌, List, [], ◌∷◌, arith, ℤ, pos, minus_one, minus_two, take,
}
use dyco_coroutine.Blocking.{Caller, coroutine}
use dyco_coroutine.Channel.{
  empty, full, want_close, Channel, create, send, send_woken, recv, destroy, left, returned,
  refused, with_status, plain, store, stored, send_at, recv_at, send_stored, recv_stored, notify,
  begin_wait,
}
use dyco_coroutine.Channel.Content.{content, IsValid, Sends, Receives}
use dyco_coroutine.Channel.Send.{send-Sends}
use dyco_coroutine.Channel.Receive.{recv-Receives}
use dyco_coroutine.Channel.Order.{
  System, Run, here, next, send_returns, send_waits, recv_returns, send_resumes, InOrder,
  Run-InOrder,
}
use dyco_coroutine.Channel.Close.{destroy_closes}

-- Four bytes, descriptors 8 for the reader and 9 for the writer.
abbrev idle : Channel
idle = record {
  maxsize = 4;
  msglen = 0;
  msg = 0 ∷ 0 ∷ 0 ∷ 0 ∷ [];
  r_notifyfd = 8;
  w_notifyfd = 9;
  status = empty;
}

abbrev holding : Channel
holding = record idle { msglen = 2; msg = 1 ∷ 2 ∷ 0 ∷ 0 ∷ []; status = full }

idle-IsValid : IsValid idle
idle-IsValid = record {
  int_size = omega arith;
  buffer = refl;
  fits = omega arith;
  nonempty = λ h. cc;
}

holding-IsValid : IsValid holding
holding-IsValid = record {
  int_size = omega arith;
  buffer = refl;
  fits = omega arith;
  nonempty = λ h. omega arith;
}

created : create (some (λ n. 0 ∷ 0 ∷ 0 ∷ 0 ∷ [])) 8 9 4 ≡ some idle
unfolding create
created = refl

abbrev me : Caller
me = coroutine false

abbrev start : System
start = record { channel = idle; sent = []; received = [] }

abbrev finish : System
finish = record {
  channel = record idle { msglen = 1; msg = 7 ∷ 2 ∷ 0 ∷ 0 ∷ []; status = full };
  sent = (1 ∷ 2 ∷ []) ∷ (7 ∷ []) ∷ [];
  received = (1 ∷ 2 ∷ []) ∷ [];
}

-- A second send waits for the reader, who takes the first message; then it stores its own.
overlap : Run start finish
unfolding send send_at recv recv_at store stored send_woken send_stored recv_stored notify
    begin_wait
overlap =
    next
      (next
        (next (next here (send_returns (1 ∷ 2 ∷ []) 2 minus_one me _ (omega arith) refl))
          (send_waits (7 ∷ []) 1 minus_one me _ 9 (omega arith) refl))
        (recv_returns 4 minus_one me _ refl))
      (send_resumes (7 ∷ []) 1
        (record { positive = omega arith; fits = omega arith; present = omega arith }))

Run-InOrder_example : InOrder finish
Run-InOrder_example = Run-InOrder (record { valid = idle-IsValid; order = refl }) overlap

send-Sends_example : Sends holding (take 1 (7 ∷ [])) (send (some holding) (7 ∷ []) 1 (pos 0) me)
send-Sends_example = send-Sends holding (7 ∷ []) 1 (pos 0) me holding-IsValid (omega arith)

recv-Receives_example : Receives holding (recv (some holding) 4 minus_one me)
recv-Receives_example = recv-Receives holding minus_one me holding-IsValid 4

destroy_closes_example :
    (destroy (some holding) me ≡ left (some (with_status holding want_close)) [])
    × (content (with_status holding want_close) ≡ [])
    × ((buf : List ℕ) (size : ℕ) (timeout : ℤ) (c : Caller)
        → (send (some (with_status holding want_close)) buf size timeout c
            ≡ returned (plain (with_status holding want_close) minus_one))
          ⊎ (send (some (with_status holding want_close)) buf size timeout c ≡ refused minus_two))
    × ((maxsize : ℕ) (timeout : ℤ) (c : Caller)
        → (recv (some (with_status holding want_close)) maxsize timeout c
            ≡ returned (plain (with_status holding want_close) minus_one))
          ⊎ (recv (some (with_status holding want_close)) maxsize timeout c ≡ refused minus_two))
destroy_closes_example = destroy_closes holding me

-- A send that does not wait restores the full channel and returns 0.
send_full_at_once : send (some holding) (7 ∷ []) 1 (pos 0) me ≡ returned (plain holding (pos 0))
unfolding send send_at send_woken begin_wait
send_full_at_once = refl
