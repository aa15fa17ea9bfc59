-- ===== src/Semaphore/Permits.antt =====
-- Permits and waiters over every run of the semaphore.
use dyco_coroutine.Base.{
  ℕ, ◌+◌, ◌-◌, ◌≤◌, ◌<◌, ◌≡◌, ◌≢◌, refl, sym, ap, subst, ◌∙◌, ◌⊎◌, true, Option, none, some, List,
  [], ◌∷◌, ◌++◌, arith, ltb, inl, inr, Bool-cases, map, length, length-append, ℤ, pos, minus_one,
}
use mathlib.Core.List.{append-nil, append_assoc, map-append}
use dyco_coroutine.Blocking.{Caller, Notice}
use dyco_coroutine.Semaphore.{
  Node, Semaphore, value_max, create, returned, waits, Answers, enqueue, wait, woken, dequeue,
  signal,
}
use dyco_coroutine.Semaphore.Queue.{IsLinked, IsFresh, enqueue-append, enqueued, dequeue_rest}
use dyco_coroutine.Semaphore.Calls.{Waits, wait-Waits, Signals, signal-Signals}

-- A semaphore with what has happened to it: the waits that returned at once with a permit, the
-- signals that succeeded, the descriptors of the waits that blocked, and the descriptors that signals
-- wrote to, each in order.
pub record System : Type 0 where
  pub sem : Semaphore
  pub taken : ℕ
  pub signals : ℕ
  pub arrived : List ℕ
  pub written : List ℕ

abbrev pub descriptors : List Notice → List ℕ
descriptors = map (λ (w : Notice). w.fd)

-- Waits of any coroutine up to their yield and behind it, woken or out of time, and signals.
pub data Step (s : System) : System → Type 0 where
  takes :
      (timeout : ℤ) (caller : Caller) (a : Answers) (sem : Semaphore) (ws : List Notice)
      → wait s.sem timeout caller a ≡ returned sem (pos 0) ws
      → Step s (record s { sem = sem; taken = s.taken + 1 })
  fails :
      (timeout : ℤ) (caller : Caller) (a : Answers) (sem : Semaphore) (ws : List Notice)
      → wait s.sem timeout caller a ≡ returned sem minus_one ws
      → Step s (record s { sem = sem })
  blocks :
      (timeout : ℤ) (caller : Caller) (a : Answers) (addr : ℕ) (sem : Semaphore) (fd : ℕ)
      → a.node ≡ some addr
      → IsFresh addr s.sem.wqueue
      → wait s.sem timeout caller a ≡ waits sem fd
      → Step s (record s { sem = sem; arrived = s.arrived ++ fd ∷ [] })
  ends : (fd : ℕ) (read : Option ℕ) → Step s (record s { sem = (woken s.sem fd read).sem })
  signals :
      (caller : Caller) (a : Answers) (sem : Semaphore) (ws : List Notice)
      → signal s.sem caller a ≡ returned sem (pos 0) ws
      → Step s
          (record s { sem = sem; signals = s.signals + 1; written = s.written ++ descriptors ws })
  signal_fails :
      (caller : Caller) (a : Answers) (sem : Semaphore) (ws : List Notice)
      → signal s.sem caller a ≡ returned sem minus_one ws
      → Step s (record s { sem = sem })

pub data Run (s : System) : System → Type 0 where
  here : Run s s
  next : {t u : System} → Run s t → Step t u → Run s u

abbrev pub fds : List Node → List ℕ
fds = map (λ (n : Node). n.fd)

-- `value` is the number of permits at the start.
pub record IsFair (value : ℕ) (s : System) : Type 0 where
  pub linked : IsLinked s.sem.wqueue s.sem.wtail
  -- Every permit is in the semaphore, or was taken at once, or went into a write to a descriptor.
  pub permits : value + s.signals ≡ s.sem.semval + s.taken + length s.written
  -- Signals write to the waiters in the order of their arrival.
  pub order : s.arrived ≡ s.written ++ fds s.sem.wqueue
  -- Nobody is queued while there is a permit.
  pub idle : (s.sem.semval ≡ 0) ⊎ (s.sem.wqueue ≡ [])
  pub bounded : s.sem.semval ≤ value_max

module _ (value : ℕ) (s : System) (i : IsFair value s) where
  take-IsFair :
      0 < s.sem.semval
      → IsFair value
          (record s { sem = record (s.sem) { semval = s.sem.semval - 1 }; taken = s.taken + 1 })
  take-IsFair h = record {
    linked = i.linked;
    permits = omega (arith, i.permits);
    order = i.order;
    idle = elim i.idle [ inl z ↦ absurd (omega arith) | inr e ↦ inr e ];
    bounded = omega (arith, i.bounded);
  }

  block-IsFair :
      (n : Node)
      → IsFresh n.addr s.sem.wqueue
      → s.sem.semval ≡ 0
      → IsFair value (record s { sem = enqueued s.sem n; arrived = s.arrived ++ n.fd ∷ [] })
  block-IsFair n f z = record {
    linked = (enqueue-append s.sem n i.linked f).1;
    permits = i.permits;
    order = rw (map-append, i.order) (append_assoc s.written (fds s.sem.wqueue) (n.fd ∷ []));
    idle = inl z;
    bounded = i.bounded;
  }

  raise-IsFair :
      s.sem.wqueue ≡ []
      → s.sem.semval ≢ value_max
      → IsFair value (record s {
        sem = record (s.sem) { semval = s.sem.semval + 1 };
        signals = s.signals + 1;
        written = s.written ++ [];
      })
  raise-IsFair e m = record {
    linked = i.linked;
    permits = rw append-nil (omega (arith, i.permits));
    order = rw append-nil i.order;
    idle = inr e;
    bounded = omega (arith, i.bounded);
  }

  wake-IsFair :
      (n : Node) (rest : List Node)
      → s.sem.wqueue ≡ n ∷ rest
      → IsFair value (record s {
        sem = dequeue s.sem n rest;
        signals = s.signals + 1;
        written = s.written ++ n.fd ∷ [];
      })
  wake-IsFair n rest e =
      let (queue, val, linked) =
        dequeue_rest s.sem n rest s.sem.wtail refl
          (subst (λ q. IsLinked q s.sem.wtail) e i.linked) in
      record {
        linked = rw queue linked;
        permits = omega (arith, i.permits, val, length-append s.written (n.fd ∷ []));
        order = rw queue (
            i.order
            ∙ ap (λ q. s.written ++ fds q) e
            ∙ sym (append_assoc s.written (n.fd ∷ []) (fds rest)));
        idle = elim i.idle [ inl z ↦ inl (val ∙ z) | inr k ↦ absurd (cc) ];
        bounded = omega (arith, val, i.bounded);
      }

Step-IsFair : (value : ℕ) {s t : System} → Step s t → IsFair value s → IsFair value t
unfolding woken
Step-IsFair value {s} (takes timeout caller a sem ws run) i =
    elim (subst (Waits s.sem a) run (wait-Waits s.sem timeout caller a)) [
      | inl (_, e, h) ↦ rw e (take-IsFair value s i h)
      | inr (e, _) ↦ absurd (cc)
    ]
Step-IsFair value {s} (fails timeout caller a sem ws run) i =
    elim (subst (Waits s.sem a) run (wait-Waits s.sem timeout caller a)) [
      | inl (e, _, _) ↦ absurd (cc)
      | inr (_, e) ↦ rw e i
    ]
Step-IsFair value {s} (blocks timeout caller a addr sem fd node fresh run) i =
    let (addr', node', zero_now, put) =
      subst (Waits s.sem a) run (wait-Waits s.sem timeout caller a) in
    let same : addr' ≡ addr = cc (node, node') in
    let n : Node = record { addr = addr; fd = fd } in
    let done : sem ≡ enqueued s.sem n = cc (
      put,
      ap (λ x. enqueue s.sem (record { addr = x; fd = fd })) same,
      (enqueue-append s.sem n i.linked fresh).0,
    ) in
    rw done (block-IsFair value s i n fresh zero_now)
Step-IsFair value {s} (ends fd read) i = i
Step-IsFair value {s} (signals caller a sem ws run) i =
    elim (subst (Signals s.sem) run (signal-Signals s.sem caller a)) [
      | inl (_, m, inl (e, done, silent)) ↦ rw (done, silent) (raise-IsFair value s i e m)
      | inl (_, m, inr (n, rest, e, done, told)) ↦ rw (done, told) (wake-IsFair value s i n rest e)
      | inr (e, _) ↦ absurd (cc)
    ]
Step-IsFair value {s} (signal_fails caller a sem ws run) i =
    elim (subst (Signals s.sem) run (signal-Signals s.sem caller a)) [
      | inl (e, _, _) ↦ absurd (cc)
      | inr (_, e) ↦ rw e i
    ]

abbrev pub fresh_system : Semaphore → System
fresh_system sem = record { sem = sem; taken = 0; signals = 0; arrived = []; written = [] }

create-IsFair :
    (value : ℕ) (sem : Semaphore) → create true value ≡ some sem → IsFair value (fresh_system sem)
unfolding create
create-IsFair value sem e = elim (Bool-cases (ltb value_max value)) [
  | inl big ↦ absurd (let k : none ≡ some sem = rw big at e in cc)
  | inr fits ↦
      let here : sem ≡ record { semval = value; wqueue = []; wtail = none } = ground arith in
      rw here (record {
        linked = refl;
        permits = omega arith;
        order = refl;
        idle = inr refl;
        bounded = ground arith;
      })
]

Run-keeps : (value : ℕ) {s t : System} → IsFair value s → Run s t → IsFair value t
Run-keeps value i here = i
Run-keeps value i (next r st) = Step-IsFair value st (Run-keeps value i r)

-- In every run of waits, of their ends, be they woken or out of time, and of signals from a new
-- semaphore, the value at its creation with the number of the successful signals is the value now
-- with the number of the waits that took a permit at once and of the writes of signals. The
-- descriptors that signals have written to, followed by those in the queue, are those of the waits
-- that blocked, in their order. Nobody is queued while the value is positive, and the queue is well
-- linked. A wait that has timed out stays in the queue, and a write to its descriptor counts as any
-- other.
pub Run-IsFair :
    (value : ℕ) (sem : Semaphore) (s : System)
    → create true value ≡ some sem
    → Run (fresh_system sem) s
    → IsFair value s
Run-IsFair value sem s e r = Run-keeps value (create-IsFair value sem e) r
