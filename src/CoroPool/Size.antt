-- ===== src/CoroPool/Size.antt =====
-- The sizes of a pool through all its calls.
use dyco_coroutine.Base.{
  ℕ, zero, suc, ◌+◌, ◌≡◌, refl, ap, subst, ◌∙◌, Bool, true, Option, none, some, List, [], ◌∷◌,
  arith, inl, inr, Bool-cases, if◌then◌else◌, OnSome, Option-cases, length, ℤ, pos, minus, inc, dec,
  less, minus-pos,
}
use dyco_coroutine.Blocking.{Notice}
use dyco_coroutine.Schedule.{Schedule, Kernel}
use dyco_coroutine.Schedule.Lifecycle.{enlist, unregister, close_epoll}
use dyco_coroutine.CoroPool.{Pool, Sublist, available, notify_first}
use dyco_coroutine.CoroPool.Calls.{
  obtained, start, Entry, returned, waits, take_first, grant, give_back,
}

-- Each coroutine of the pool is free or active.
pub record IsBalanced (cp : Pool) : Type 0 where
  pub active : ℕ
  pub activenum : cp.activenum ≡ pos active
  pub totalsize : cp.totalsize ≡ pos (length cp.freelist + active)

pub available-length : (cp : Pool) → IsBalanced cp → available cp ≡ pos (length cp.freelist)
available-length cp b =
    ap (λ t. minus t cp.activenum) b.totalsize
    ∙ ap (minus (pos (length cp.freelist + b.active))) b.activenum
    ∙ minus-pos (length cp.freelist) b.active

-- Another list of waiters.
pub with_sublist :
    (cp : Pool) (ws : List Sublist) → IsBalanced cp → IsBalanced (record cp { sublist = ws })
with_sublist cp ws b = record {
  active = b.active;
  activenum = b.activenum;
  totalsize = b.totalsize;
}

abbrev Notified : Pool × List Notice → Type 0
Notified (cp, ns) = IsBalanced cp

notify_first-IsBalanced :
    (writes : ℕ → Bool) (cp : Pool) → IsBalanced cp → OnSome Notified (notify_first writes cp)
unfolding notify_first
notify_first-IsBalanced writes cp b = go cp.sublist
  where
    go :
        (ws : List Sublist)
        → OnSome Notified (elim ws [
          | [] ↦ some (cp, [])
          | head ∷ rest ↦
              if writes head.notifyfd
              then some
                  (record cp { sublist = rest }, record { fd = head.notifyfd; value = 1 } ∷ [])
              else none
        ])
    go [] = b
    go (head ∷ rest) = elim (Bool-cases (writes head.notifyfd)) [
      | inl works ↦ rw works (with_sublist cp rest b)
      | inr broken ↦ rw broken tt
    ]

abbrev pub pool_of : {T : Type 0} → Entry T → Pool
pool_of (returned s cp ret) = cp
pool_of (waits s cp notify) = cp

module _ {T : Type 0} where
  abbrev pub Granted : Schedule T × Pool × ℤ → Type 0
  Granted (s, cp, ret) = IsBalanced cp

  abbrev pub GivenBack : Schedule T × Option Pool × List Notice → Type 0
  GivenBack (s, cp, ns) = OnSome IsBalanced cp

  take_first-IsBalanced :
      (kernel : Kernel) (a u : Bool) (s : Schedule T) (cp : Pool) (freelist : List ℕ)
      → cp.freelist ≡ freelist
      → IsBalanced cp
      → OnSome Granted (take_first kernel a u s cp freelist)
  unfolding take_first
  take_first-IsBalanced kernel a u s cp [] e b = tt
  take_first-IsBalanced kernel a u s cp (co ∷ freelist) e b =
      elim (Option-cases (enlist kernel s co (obtained a (s.coroutines co)))) [
        | inl fails ↦ rw fails tt
        | inr (r, some_id) ↦ rw some_id (elim (Option-cases (start a u r.0 co)) [
          | inl fails ↦ rw fails tt
          | inr (s', queued) ↦ rw queued (record {
            active = suc b.active;
            activenum = ap inc b.activenum;
            totalsize = b.totalsize ∙ ap (λ l. pos (length l + b.active)) e ∙ ap pos (omega arith);
          })
        ])
      ]

  pub grant-IsBalanced :
      (kernel : Kernel) (a u : Bool) (s : Schedule T) (cp : Pool) (ret : ℤ)
      → IsBalanced cp
      → OnSome Granted (grant kernel a u s cp ret)
  unfolding grant
  grant-IsBalanced kernel a u s cp ret b = elim (Bool-cases (less (pos 0) ret)) [
    | inl some_free ↦ rw some_free (take_first-IsBalanced kernel a u s cp cp.freelist refl b)
    | inr not_free ↦ rw not_free b
  ]

  pub give_back-IsBalanced :
      (kernel : Kernel) (writes : ℕ → Bool) (s : Schedule T) (co : ℕ) (cp : Pool)
      → less (pos 0) cp.activenum ≡ true
      → IsBalanced cp
      → OnSome GivenBack (give_back kernel writes s (some co) (some cp))
  unfolding give_back
  give_back-IsBalanced kernel writes s co cp busy b = elim (Option-cases (unregister s co)) [
    | inl fails ↦ rw fails tt
    | inr (s₁, gone) ↦ rw gone (elim (Option-cases (close_epoll kernel s₁ co)) [
      | inl fails ↦ rw fails tt
      | inr (s₂, closed) ↦
          let cp' = record cp { freelist = co ∷ cp.freelist; activenum = dec cp.activenum } in
          let kept =
            notify_first-IsBalanced writes cp' (released b.active b.activenum b.totalsize) in
          rw closed (elim (Option-cases (notify_first writes cp')) [
            | inl fails ↦ rw fails tt
            | inr (r, told) ↦ rw told (subst (OnSome Notified) told kept)
          ])
    ])
  ]
    where
      released :
          (n : ℕ)
          → cp.activenum ≡ pos n
          → cp.totalsize ≡ pos (length cp.freelist + n)
          → IsBalanced (record cp { freelist = co ∷ cp.freelist; activenum = dec cp.activenum })
      released zero e t = absurd (
          let k : less (pos 0) (pos 0) ≡ true = subst (λ z. less (pos 0) z ≡ true) e busy in
          ground arith)
      released (suc n) e t = record {
        active = n;
        activenum = ap dec e;
        totalsize = t ∙ ap pos (omega arith);
      }
