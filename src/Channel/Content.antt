-- ===== src/Channel/Content.antt =====
-- What a channel holds, and what each call may do to it.
use dyco_coroutine.Base.{
  ℕ, zero, suc, ◌%◌, lt→ltb, ◌≤◌, ◌<◌, ◌^◌, ◌≡◌, refl, sym, ◌∙◌, Bool, true, false, List, [], ◌∷◌,
  ◌++◌, arith, if◌then◌else◌, length, ℤ, pos, negsuc, int_of,
}
use dyco_coroutine.Channel.{
  Status, full, want_write, Channel, Return, Outcome, refused, returned, waits, exited, stored,
  with_status,
}

abbrev pub holds_message : Status → Bool
holds_message full = true
holds_message want_write = true
holds_message _ = false

-- The message in the channel: at most one.
abbrev pub content : Channel → List (List ℕ)
content ch = if holds_message ch.status then stored ch ∷ [] else []

-- An `int` carries every length.
pub record IsValid (ch : Channel) : Type 0 where
  pub int_size : ch.maxsize < 2 ^ 31
  pub buffer : length ch.msg ≡ ch.maxsize
  pub fits : ch.msglen ≤ ch.maxsize
  pub nonempty : holds_message ch.status ≡ true → 0 < ch.msglen

abbrev pub is_positive : ℤ → Bool
is_positive (pos zero) = false
is_positive (pos (suc n)) = true
is_positive (negsuc n) = false

-- The arguments of a call that passed the guard of `send`, over a buffer that has the bytes.
pub record IsMessage (ch : Channel) (buf : List ℕ) (size : ℕ) : Type 0 where
  pub positive : 0 < size
  pub fits : size ≤ ch.maxsize
  pub present : size ≤ length buf

abbrev pub if_sent : ℤ → List ℕ → List (List ℕ)
if_sent r m = if is_positive r then m ∷ [] else []

-- A send that reports a length has put that message behind what was there; any other put none.
pub record Sent (ch : Channel) (m : List ℕ) (r : Return) : Type 0 where
  pub valid : IsValid r.channel
  pub maxsize : r.channel.maxsize ≡ ch.maxsize
  pub content : content r.channel ≡ content ch ++ if_sent r.ret m

-- A receive that reports a length has taken the front message; any other took none.
pub record Received (ch : Channel) (r : Return) : Type 0 where
  pub valid : IsValid r.channel
  pub maxsize : r.channel.maxsize ≡ ch.maxsize
  pub content : content ch ≡ if_sent r.ret r.copied ++ content r.channel

pub int_of-pos : (n : ℕ) → n < 2 ^ 31 → int_of n ≡ pos n
int_of-pos n k = let e : n % 2 ^ 32 ≡ n = omega arith in rw (e, lt→ltb n (2 ^ 31) k)

pub int_of-positive : (n : ℕ) → 0 < n → n < 2 ^ 31 → is_positive (int_of n) ≡ true
int_of-positive zero h k = absurd (omega arith)
int_of-positive (suc n) h k = rw (int_of-pos (suc n) k)

-- A call that waits has only changed the status.
pub record Kept (ch ch' : Channel) : Type 0 where
  pub valid : IsValid ch'
  pub maxsize : ch'.maxsize ≡ ch.maxsize
  pub content : content ch' ≡ content ch

abbrev pub Sends : Channel → List ℕ → Outcome → Type 0
Sends ch m (refused r) = is_positive r ≡ false
Sends ch m (returned r) = Sent ch m r
Sends ch m (waits ch' fd) = Kept ch ch'
Sends ch m exited = Unit

abbrev pub Receives : Channel → Outcome → Type 0
Receives ch (refused r) = is_positive r ≡ false
Receives ch (returned r) = Received ch r
Receives ch (waits ch' fd) = Kept ch ch'
Receives ch exited = Unit

pub with_status-Kept :
    (ch : Channel) (s : Status)
    → IsValid ch
    → holds_message s ≡ holds_message ch.status
    → Kept ch (with_status ch s)
unfolding stored
with_status-Kept ch s v e = record {
  valid = record {
    int_size = v.int_size;
    buffer = v.buffer;
    fits = v.fits;
    nonempty = λ k. v.nonempty (sym e ∙ k);
  };
  maxsize = refl;
  content = rw e;
}

pub Kept-Sent :
    {ch ch' : Channel} {m : List ℕ} {r : Return} → Kept ch ch' → Sent ch' m r → Sent ch m r
Kept-Sent k s = record {
  valid = s.valid;
  maxsize = s.maxsize ∙ k.maxsize;
  content = rw (← k.content) s.content;
}

pub Kept-Received : {ch ch' : Channel} {r : Return} → Kept ch ch' → Received ch' r → Received ch r
Kept-Received k s = record {
  valid = s.valid;
  maxsize = s.maxsize ∙ k.maxsize;
  content = sym k.content ∙ s.content;
}
