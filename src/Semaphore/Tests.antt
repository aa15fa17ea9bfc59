-- ===== src/Semaphore/Tests.antt =====
-- The semaphore at small inputs: a run with two waiters, and the theorems at it.
use dyco_coroutine.Base.{ℕ, ◌≡◌, refl, true, false, none, some, [], ◌∷◌, arith, pos, minus_one}
use dyco_coroutine.Blocking.{Caller, coroutine}
use dyco_coroutine.Semaphore.{
  Node, Semaphore, create, Answers, returned, wait, wait_in, block, enqueue, enqueue_at, link,
  woken, signal, signal_at, signal_in, dequeue, notify, destroy,
}
use dyco_coroutine.Semaphore.Permits.{
  System, Run, here, next, takes, blocks, signals, IsFair, fresh_system, Run-IsFair,
}
use dyco_coroutine.Semaphore.Stale.{timed_out-signal}

abbrev me : Caller
me = coroutine false

abbrev answers : ℕ → ℕ → Answers
answers fd addr = record { eventfd = some fd; node = some addr; writes = λ d. true }

abbrev one_permit : Semaphore
one_permit = record { semval = 1; wqueue = []; wtail = none }

abbrev spent : Semaphore
spent = record { semval = 0; wqueue = []; wtail = none }

abbrev first : Node
first = record { addr = 100; fd = 8 }

abbrev second : Node
second = record { addr = 200; fd = 9 }

abbrev one_waiter : Semaphore
one_waiter = record { semval = 0; wqueue = first ∷ []; wtail = some 100 }

-- One permit taken, two waiters queued, and the first of them woken.
abbrev finish : System
finish = record {
  sem = record { semval = 0; wqueue = second ∷ []; wtail = some 200 };
  taken = 1;
  signals = 1;
  arrived = 8 ∷ 9 ∷ [];
  written = 8 ∷ [];
}

contended : Run (fresh_system one_permit) finish
unfolding wait wait_in block enqueue enqueue_at link signal signal_at signal_in dequeue notify
contended =
    next
      (next
        (next (next here (takes minus_one me (answers 8 100) spent [] refl))
          (blocks minus_one me (answers 8 100) 100 one_waiter 8 refl tt refl))
        (blocks minus_one me (answers 9 200) 200 _ 9 refl (omega arith, tt) refl))
      (signals me (answers 0 0) _ _ refl)

Run-IsFair_example : IsFair 1 finish
Run-IsFair_example = Run-IsFair 1 one_permit finish (unfold create in refl) contended

timed_out-signal_example :
    ((woken one_waiter 8 none).ret ≡ minus_one)
    × ((woken one_waiter 8 none).closed ≡ 8)
    × (signal (woken one_waiter 8 none).sem me (answers 0 0)
        ≡ returned spent (pos 0) (record { fd = 8; value = 1 } ∷ []))
timed_out-signal_example =
    timed_out-signal spent one_waiter minus_one me (answers 8 100) (answers 0 0) false 8 refl
      (unfold wait wait_in block enqueue enqueue_at in refl)

destroy_notifies : destroy (λ d. true) (some finish.sem) ≡ some (record { fd = 9; value = 64 } ∷ [])
unfolding destroy
destroy_notifies = refl
