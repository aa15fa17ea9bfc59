-- ===== src/Semaphore/Queue.antt =====
-- The linked queue of waiters with its tail pointer is a first-in first-out list.
use dyco_coroutine.Base.{
  ℕ, ◌≡◌, ◌≢◌, refl, sym, Option, none, some, List, [], ◌∷◌, ◌++◌, ==_refl, ne→==, All,
}
use dyco_coroutine.Semaphore.{Node, Semaphore, link, enqueue_at, enqueue, dequeue}

-- The last node, and no other, has the address.
abbrev pub IsTail : List Node → ℕ → Type 0
IsTail [] a = ⊥
IsTail (n ∷ []) a = n.addr ≡ a
IsTail (n ∷ m ∷ ms) a = (n.addr ≢ a) × IsTail (m ∷ ms) a

abbrev pub IsLinked : List Node → Option ℕ → Type 0
IsLinked [] tail = tail ≡ none
IsLinked (n ∷ ns) none = ⊥
IsLinked (n ∷ ns) (some a) = IsTail (n ∷ ns) a

-- `malloc` answers with an address that no node of the queue has.
abbrev pub IsFresh : ℕ → List Node → Type 0
IsFresh addr = All (λ n. n.addr ≢ addr)

link-append : (ns : List Node) (a : ℕ) (n : Node) → IsTail ns a → link a n ns ≡ some (ns ++ n ∷ [])
unfolding link
link-append [] a n h = absurd h
link-append (m ∷ []) a n h = rw (h, ==_refl a)
link-append (m ∷ k ∷ ms) a n h = rw (ne→== m.addr a h.0, link-append (k ∷ ms) a n h.1)

IsTail-append : (ns : List Node) (n : Node) → IsFresh n.addr ns → IsTail (ns ++ n ∷ []) n.addr
IsTail-append [] n h = refl
IsTail-append (m ∷ []) n h = (h.0, refl)
IsTail-append (m ∷ k ∷ ms) n h = (h.0, IsTail-append (k ∷ ms) n h.1)

IsLinked-append :
    (ns : List Node) (n : Node) → IsFresh n.addr ns → IsLinked (ns ++ n ∷ []) (some n.addr)
IsLinked-append [] n h = refl
IsLinked-append (m ∷ ms) n h = IsTail-append (m ∷ ms) n h

enqueue_at-append :
    (ns : List Node) (tail : Option ℕ) (n : Node)
    → IsLinked ns tail
    → enqueue_at ns tail n ≡ some (ns ++ n ∷ [])
unfolding enqueue_at
enqueue_at-append [] tail n h = refl
enqueue_at-append (m ∷ ms) none n h = absurd h
enqueue_at-append (m ∷ ms) (some a) n h = link-append (m ∷ ms) a n h

abbrev pub enqueued : Semaphore → Node → Semaphore
enqueued s n = record s { wqueue = s.wqueue ++ n ∷ []; wtail = some n.addr }

pub enqueue-append :
    (s : Semaphore) (n : Node)
    → IsLinked s.wqueue s.wtail
    → IsFresh n.addr s.wqueue
    → (enqueue s n ≡ some (enqueued s n)) × IsLinked (s.wqueue ++ n ∷ []) (some n.addr)
unfolding enqueue
enqueue-append s n h f = (rw (enqueue_at-append s.wqueue s.wtail n h), IsLinked-append s.wqueue n f)

-- Taking the head leaves the rest, with the tail pointer cleared exactly with the last node.
pub dequeue_rest :
    (s : Semaphore) (n : Node) (rest : List Node) (tail : Option ℕ)
    → s.wtail ≡ tail
    → IsLinked (n ∷ rest) tail
    → ((dequeue s n rest).wqueue ≡ rest)
      × ((dequeue s n rest).semval ≡ s.semval)
      × IsLinked rest (dequeue s n rest).wtail
unfolding dequeue
dequeue_rest s n rest none e h = absurd h
dequeue_rest s n [] (some a) e h = rw (e, h, ==_refl a) (refl, refl, refl)
dequeue_rest s n (m ∷ ms) (some a) e h = rw (e, ne→== a n.addr (λ k. h.0 (sym k))) (refl, refl, h.1)
