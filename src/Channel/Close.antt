-- ===== src/Channel/Close.antt =====
-- dyco_channel_destroy, whose first condition assigns the status where it should compare it.
use dyco_coroutine.Base.{
  ℕ, ◌≡◌, refl, ◌⊎◌, inl, inr, ◌||◌, Bool-cases, some, List, [], ltb, ◌==◌, ℤ, minus_one, minus_two,
}
use dyco_coroutine.Blocking.{Caller}
use dyco_coroutine.Channel.{
  want_close, Channel, refused, returned, with_status, plain, send_at, send, recv_at, recv, left,
  destroy,
}
use dyco_coroutine.Channel.Content.{content}

-- Destroying a channel in any state frees nothing, wakes nobody and drops the message that it
-- holds: the channel is left in `HDC_STATUS_WANTCLOSE`, in which every call fails.
pub destroy_closes :
    (ch : Channel) (caller : Caller)
    → (destroy (some ch) caller ≡ left (some (with_status ch want_close)) [])
      × (content (with_status ch want_close) ≡ [])
      × ((buf : List ℕ) (size : ℕ) (timeout : ℤ) (c : Caller)
          → (send (some (with_status ch want_close)) buf size timeout c
              ≡ returned (plain (with_status ch want_close) minus_one))
            ⊎ (send (some (with_status ch want_close)) buf size timeout c ≡ refused minus_two))
      × ((maxsize : ℕ) (timeout : ℤ) (c : Caller)
          → (recv (some (with_status ch want_close)) maxsize timeout c
              ≡ returned (plain (with_status ch want_close) minus_one))
            ⊎ (recv (some (with_status ch want_close)) maxsize timeout c ≡ refused minus_two))
unfolding destroy send recv send_at recv_at
destroy_closes ch caller = (
  refl,
  refl,
  λ buf size timeout c. elim (Bool-cases (ltb ch.maxsize size || (size == 0))) [
    | inl bad ↦ inr (rw bad)
    | inr good ↦ inl (rw good)
  ],
  λ maxsize timeout c. elim (Bool-cases (ltb maxsize ch.maxsize)) [
    | inl bad ↦ inr (rw bad)
    | inr good ↦ inl (rw good)
  ],
)
