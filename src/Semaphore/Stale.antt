-- ===== src/Semaphore/Stale.antt =====
-- What a wait that timed out leaves behind.
use dyco_coroutine.Base.{
  ℕ, ◌≡◌, refl, subst, Bool, none, some, [], ◌∷◌, inl, inr, Bool-cases, ℤ, if◌then◌else◌, ==_refl,
  pos, minus_one,
}
use dyco_coroutine.Blocking.{Caller, coroutine}
use dyco_coroutine.Semaphore.{
  Node, Semaphore, notify, returned, waits, exited, Answers, enqueue, enqueue_at, wait, woken,
  read_result, dequeue, signal_in, signal_at, signal,
}
use dyco_coroutine.Semaphore.Queue.{enqueued}
use dyco_coroutine.Semaphore.Calls.{Waits, wait-Waits}

enqueue-empty : (s : Semaphore) (n : Node) → s.wqueue ≡ [] → enqueue s n ≡ some (enqueued s n)
unfolding enqueue enqueue_at
enqueue-empty s n e = rw e

signal_waiter :
    (s : Semaphore) (n : Node) (asymmetric : Bool) (b : Answers)
    → s.wqueue ≡ []
    → s.semval ≡ 0
    → signal (enqueued s n) (coroutine asymmetric) b ≡ (
        if b.writes n.fd
        then returned
            (record { semval = 0; wqueue = []; wtail = none })
            (pos 0)
            (record { fd = n.fd; value = 1 } ∷ [])
        else exited)
unfolding signal signal_at signal_in notify dequeue
signal_waiter s n asymmetric b e z = elim (Bool-cases (b.writes n.fd)) [
  | inl works ↦ rw (e, z) (rw (signal_in, notify, works) (rw (==_refl n.addr) refl))
  | inr broken ↦ rw (e, z) (rw (signal_in, notify, broken) refl)
]

-- A wait on an empty queue blocks and runs out of time. Its second half gives -1, closes its
-- descriptor and leaves its node in the queue: if the write to the closed descriptor works, for
-- example since its number is in use again, the next signal of a coroutine writes to it, takes the
-- node out, returns 0 and leaves the value 0, and else it exits.
pub timed_out-signal :
    (s s' : Semaphore) (timeout : ℤ) (caller : Caller) (a b : Answers) (asymmetric : Bool) (fd : ℕ)
    → s.wqueue ≡ []
    → wait s timeout caller a ≡ waits s' fd
    → ((woken s' fd none).ret ≡ minus_one)
      × ((woken s' fd none).closed ≡ fd)
      × (signal (woken s' fd none).sem (coroutine asymmetric) b ≡ (
          if b.writes fd
          then returned
              (record { semval = 0; wqueue = []; wtail = none })
              (pos 0)
              (record { fd = fd; value = 1 } ∷ [])
          else exited))
unfolding woken read_result
timed_out-signal s s' timeout caller a b asymmetric fd empty run =
    let (addr, _, zero_now, put) = subst (Waits s a) run (wait-Waits s timeout caller a) in
    let n : Node = record { addr = addr; fd = fd } in
    let here : s' ≡ enqueued s n = cc (put, enqueue-empty s n empty) in
    (refl, refl, rw here (signal_waiter s n asymmetric b empty zero_now))
