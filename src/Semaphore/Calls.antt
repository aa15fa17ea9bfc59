-- ===== src/Semaphore/Calls.antt =====
-- What one wait or one signal may do, on all branches.
use dyco_coroutine.Base.{
  ℕ, ◌+◌, ◌-◌, ◌<◌, ◌≡◌, ◌≢◌, refl, ◌⊎◌, Option, none, some, List, [], ◌∷◌, arith, ltb, ◌==◌, inl,
  inr, Bool-cases, ℤ, pos, minus_one,
}
use dyco_coroutine.Blocking.{Caller, outside, coroutine, is_zero}
use dyco_coroutine.Semaphore.{
  Node, Semaphore, value_max, notify, Outcome, returned, waits, exited, Answers, enqueue, block,
  wait_in, wait, dequeue, signal_in, signal_at, signal,
}

-- What a wait may do.
abbrev pub Waits : Semaphore → Answers → Outcome → Type 0
Waits s a (returned s' r ws) =
    ((r ≡ pos 0) × (s' ≡ record s { semval = s.semval - 1 }) × (0 < s.semval))
    ⊎ ((r ≡ minus_one) × (s' ≡ s))
Waits s a (waits s' fd) =
    (addr : ℕ) × (a.node ≡ some addr)
    × (s.semval ≡ 0)
    × (enqueue s (record { addr = addr; fd = fd }) ≡ some s')
Waits s a exited = Unit

block-Waits :
    (s : Semaphore) (a : Answers) (fd addr : Option ℕ)
    → a.node ≡ addr
    → s.semval ≡ 0
    → Waits s a (block s fd addr)
unfolding block
block-Waits s a none addr e z = tt
block-Waits s a (some fd) none e z = inr (refl, refl)
block-Waits s a (some fd) (some addr) e z = go (enqueue s (record { addr = addr; fd = fd })) refl
  where
    go :
        (o : Option Semaphore)
        → enqueue s (record { addr = addr; fd = fd }) ≡ o
        → Waits s a (elim o [ none ↦ exited | some s' ↦ waits s' fd ])
    go none k = tt
    go (some s') k = (addr, e, z, k)

pub wait-Waits :
    (s : Semaphore) (timeout : ℤ) (caller : Caller) (a : Answers)
    → Waits s a (wait s timeout caller a)
unfolding wait wait_in
wait-Waits s timeout caller a = elim (Bool-cases (ltb 0 s.semval)) [
  | inl free ↦ rw free (inl (refl, refl, ground arith))
  | inr busy ↦ elim (Bool-cases (is_zero timeout)) [
    | inl poll ↦ rw (busy, poll) (inr (refl, refl))
    | inr patient ↦ rw (busy, patient) (at caller (ground arith))
  ]
]
  where
    at : (c : Caller) → s.semval ≡ 0 → Waits s a (wait_in s c a)
    at outside z = inr (refl, refl)
    at (coroutine asymmetric) z = block-Waits s a a.eventfd a.node refl z

-- What a signal may do.
abbrev pub Signals : Semaphore → Outcome → Type 0
Signals s (returned s' r ws) =
    ((r ≡ pos 0)
      × (s.semval ≢ value_max)
      × (((s.wqueue ≡ []) × (s' ≡ record s { semval = s.semval + 1 }) × (ws ≡ []))
          ⊎ ((n : Node) × (rest : List Node) × (s.wqueue ≡ n ∷ rest)
              × (s' ≡ dequeue s n rest)
              × (ws ≡ record { fd = n.fd; value = 1 } ∷ []))))
    ⊎ ((r ≡ minus_one) × (s' ≡ s))
Signals s (waits s' fd) = ⊥
Signals s exited = Unit

signal_at-Signals :
    (s : Semaphore) (q : List Node) (caller : Caller) (a : Answers)
    → s.wqueue ≡ q
    → s.semval ≢ value_max
    → Signals s (signal_at s q caller a)
unfolding signal_at signal_in notify
signal_at-Signals s [] caller a e m = inl (refl, m, inl (e, refl, refl))
signal_at-Signals s (n ∷ rest) outside a e m = inr (refl, refl)
signal_at-Signals s (n ∷ rest) (coroutine asymmetric) a e m = elim (Bool-cases (a.writes n.fd)) [
  | inl works ↦ rw (works, Signals) (inl (refl, m, inr (n, rest, e, refl, refl)))
  | inr broken ↦ rw (broken, Signals) tt
]

pub signal-Signals : (s : Semaphore) (caller : Caller) (a : Answers) → Signals s (signal s caller a)
unfolding signal
signal-Signals s caller a = elim (Bool-cases (s.semval == value_max)) [
  | inl top ↦ rw top (inr (refl, refl))
  | inr below ↦ rw below (signal_at-Signals s s.wqueue caller a refl (λ e. ground arith))
]
