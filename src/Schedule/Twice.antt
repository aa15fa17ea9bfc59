-- ===== src/Schedule/Twice.antt =====
-- A waiter with a timeout whose event comes first: it is queued, and still in the tree.
use dyco_coroutine.Base.{
  ℕ, zero, suc, ◌≡◌, refl, ap, subst, ◌∙◌, inl, inr, Bool, true, false, ◌||◌, Option, none, some,
  List, [], ◌∷◌, ◌++◌, leb, ◌==◌, Bool-cases, ==_refl, OnSome, OnSome-bind,
}
use dyco_coroutine.HashTable.{Table, delete}
use dyco_coroutine.Status.{ready, waiting, urgent}
use dyco_coroutine.Schedule.Tree.{Sleeper, SleepTree, Laws}
use dyco_coroutine.Schedule.{
  Schedule, Kernel, make_ready, enqueue, probe_expired, is_queued, mem, has_flag, set_flag,
  clear_flag, diff_usecs,
}
use dyco_coroutine.Schedule.Events.{deliver_one, cancel_wait, get_waitco}
use dyco_coroutine.Schedule.Expiry.{get_expired-first}

mem-last : (co : ℕ) (q : List ℕ) → mem co (q ++ (co ∷ [])) ≡ true
mem-last co [] = rw (==_refl co) refl
mem-last co (x ∷ q) = elim (Bool-cases (co == x)) [
  | inl here ↦ rw here refl
  | inr other ↦ rw other (mem-last co q)
]

or_true : (b : Bool) → (b || true) ≡ true
or_true true = refl
or_true false = refl

anything {ℓ} : {A : Type ℓ} (o : Option A) → OnSome (λ _. Unit) o
anything none = tt
anything (some a) = tt

module _ {T : Type 0} where
  -- What the delivery of an event leaves as it was, and that the coroutine is in a queue.
  record Queued (s : Schedule T) (co : ℕ) (s' : Schedule T) : Type 0 where
    tree_kept : s'.sleeping ≡ s.sleeping
    birth_kept : s'.birth ≡ s.birth
    key_kept : (s'.coroutines co).sleep_usecs ≡ (s.coroutines co).sleep_usecs
    queued : is_queued s' co ≡ true

  enqueue-Queued :
      (s s' : Schedule T) (co : ℕ)
      → s'.sleeping ≡ s.sleeping
      → s'.birth ≡ s.birth
      → (s'.coroutines co).sleep_usecs ≡ (s.coroutines co).sleep_usecs
      → OnSome (Queued s co) (enqueue s' co)
  unfolding enqueue
  enqueue-Queued s s' co tree birth key = elim (Bool-cases (is_queued s' co)) [
    | inl already ↦ rw already tt
    | inr free ↦ elim (Bool-cases (has_flag s' co urgent)) [
      | inl u ↦
          rw (free, u)
            (record {
              tree_kept = tree;
              birth_kept = birth;
              key_kept = key;
              queued = rw (mem-last co s'.urgent_ready) refl;
            })
      | inr u ↦
          rw (free, u)
            (record {
              tree_kept = tree;
              birth_kept = birth;
              key_kept = key;
              queued = rw (mem-last co s'.ready) (or_true (mem co s'.urgent_ready));
            })
    ]
  ]

  make_ready-Queued : (s : Schedule T) (co : ℕ) → OnSome (Queued s co) (make_ready s co)
  unfolding make_ready
  make_ready-Queued s co =
      enqueue-Queued s (set_flag s co ready) co refl refl (rw (==_refl co) refl)

  clear_flag-Queued :
      (s s' : Schedule T) (co flag : ℕ) (fds : Table ℕ)
      → Queued s co s'
      → Queued s co (clear_flag (record s' { fd_co_map = fds }) co flag)
  clear_flag-Queued s s' co flag fds q = record {
    tree_kept = q.tree_kept;
    birth_kept = q.birth_kept;
    key_kept = rw (==_refl co) q.key_kept;
    queued = q.queued;
  }

  cancel_wait-Queued :
      (kernel : Kernel) (s s' : Schedule T) (co fd : ℕ)
      → Queued s co s'
      → OnSome (λ r. Queued s co r.0) (cancel_wait kernel s' co fd)
  unfolding cancel_wait
  cancel_wait-Queued kernel s s' co fd q = elim (Bool-cases (has_flag s' co waiting)) [
    | inl waits ↦ rw waits (
        OnSome-bind (λ _. Unit) (λ r. Queued s co r.0) (delete s'.fd_co_map fd) _ (anything _)
          (λ r _. elim (Bool-cases (kernel.ctl_del fd)) [
            | inl ok ↦ rw ok (clear_flag-Queued s s' co waiting r.0 q)
            | inr bad ↦ rw bad tt
          ]))
    | inr free ↦ rw free q
  ]

  deliver_one-Queued :
      (kernel : Kernel) (s : Schedule T) (co fd : ℕ)
      → get_waitco s fd ≡ some (some co)
      → OnSome (Queued s co) (deliver_one kernel s fd)
  unfolding deliver_one
  deliver_one-Queued kernel s co fd found = rw found (
      OnSome-bind (Queued s co) (Queued s co) (make_ready s co) _ (make_ready-Queued s co) (λ s' q.
        OnSome-bind (λ r. Queued s co r.0) (Queued s co) (cancel_wait kernel s' co fd) _
          (cancel_wait-Queued kernel s s' co fd q) (λ r q'. q')))

module _ {T : Type 0} (tree : SleepTree T) (laws : Laws tree) where
  queued_expires :
      (n : ℕ) (now : ℕ → ℕ) (s : Schedule T) (e : Sleeper) (es : List Sleeper)
      → tree.entries s.sleeping ≡ e ∷ es
      → (s.coroutines e.co).sleep_usecs ≡ e.key
      → leb e.key (diff_usecs s.birth (now 0)) ≡ true
      → is_queued s e.co ≡ true
      → probe_expired tree n now s ≡ none
  unfolding probe_expired make_ready enqueue
  queued_expires zero now s e es entries key early queued =
      let (t, same, run) = get_expired-first tree laws (now 0) s e es entries key early in
      rw run refl
  queued_expires (suc n) now s e es entries key early queued =
      let (t, same, run) = get_expired-first tree laws (now 0) s e es entries key early in
      rw (run, queued) refl

  -- If an event is delivered to the first sleeper, and its time is over when the loop looks at the
  -- tree again, phase A inserts it into a queue that it is in already: the run is undefined.
  pub deliver_one-probe_expired :
      (kernel : Kernel) (n : ℕ) (now : ℕ → ℕ) (fd : ℕ) (s s' : Schedule T) (e : Sleeper)
      (es : List Sleeper)
      → get_waitco s fd ≡ some (some e.co)
      → tree.entries s.sleeping ≡ e ∷ es
      → (s.coroutines e.co).sleep_usecs ≡ e.key
      → leb e.key (diff_usecs s.birth (now 0)) ≡ true
      → deliver_one kernel s fd ≡ some s'
      → probe_expired tree n now s' ≡ none
  deliver_one-probe_expired kernel n now fd s s' e es waits entries key early run =
      let q = subst (OnSome (Queued s e.co)) run (deliver_one-Queued kernel s e.co fd waits) in
      queued_expires n now s' e es (ap tree.entries q.tree_kept ∙ entries) (q.key_kept ∙ key)
        (ap (λ b. leb e.key (diff_usecs b (now 0))) q.birth_kept ∙ early) q.queued
