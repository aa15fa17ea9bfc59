-- ===== src/CoroPool/Resizing.antt =====
-- The loops that fill a pool, make it larger and make it smaller.
use dyco_coroutine.Base.{
  ℕ, zero, suc, ◌+◌, ◌≡◌, refl, sym, ap, subst, ◌∙◌, Bool, true, false, Option, none, some, List,
  [], ◌∷◌, ◌++◌, ◌>>=◌, arith, inl, inr, Bool-cases, Option-cases, if◌then◌else◌, OnSome, length,
  ltb, ℤ, pos, negsuc, minus, less, count_of, difference,
}
use dyco_coroutine.Blocking.{Notice}
use dyco_coroutine.Schedule.{Schedule, Kernel}
use dyco_coroutine.CoroPool.{
  Pool, Sublist, Block, notify_first, fill_one, grow, shrink, surplus, resize, free_one,
}
use dyco_coroutine.CoroPool.Size.{IsBalanced}

-- What a notification leaves as it is.
pub record IsAlike (cp cp' : Pool) : Type 0 where
  pub activenum : cp'.activenum ≡ cp.activenum
  pub totalsize : cp'.totalsize ≡ cp.totalsize
  pub freelist : cp'.freelist ≡ cp.freelist

abbrev pub Told : Pool → Pool × List Notice → Type 0
Told cp (cp', ns) = IsAlike cp cp'

pub notify_first-IsAlike :
    (writes : ℕ → Bool) (cp : Pool) → OnSome (Told cp) (notify_first writes cp)
unfolding notify_first
notify_first-IsAlike writes cp = go cp.sublist
  where
    go :
        (ws : List Sublist)
        → OnSome (Told cp) (elim ws [
          | [] ↦ some (cp, [])
          | head ∷ rest ↦
              if writes head.notifyfd
              then some
                  (record cp { sublist = rest }, record { fd = head.notifyfd; value = 1 } ∷ [])
              else none
        ])
    go [] = record { activenum = refl; totalsize = refl; freelist = refl }
    go (head ∷ rest) = elim (Bool-cases (writes head.notifyfd)) [
      | inl works ↦ rw works (record { activenum = refl; totalsize = refl; freelist = refl })
      | inr broken ↦ rw broken tt
    ]

-- A pool with `n` more free coroutines.
record Larger (n : ℕ) (cp cp' : Pool) : Type 0 where
  activenum : cp'.activenum ≡ cp.activenum
  totalsize : cp'.totalsize ≡ cp.totalsize
  free : length cp'.freelist ≡ n + length cp.freelist

module _ {T : Type 0} where
  abbrev Grown : ℕ → Pool → Schedule T × Pool × List Notice → Type 0
  Grown n cp (s, cp', ns) = Larger n cp cp'

  grow-Larger :
      (page_size : ℕ) (a : Bool) (pool : ℕ) (blocks : ℕ → Block) (writes : ℕ → Bool) (n i : ℕ)
      (s : Schedule T) (cp : Pool) (ns : List Notice)
      → OnSome (Grown n cp) (grow page_size a pool blocks writes n i s cp ns)
  unfolding grow
  grow-Larger page_size a pool blocks writes zero i s cp ns = record {
    activenum = refl;
    totalsize = refl;
    free = omega arith;
  }
  grow-Larger page_size a pool blocks writes (suc n) i s cp ns =
      elim (Option-cases (fill_one page_size a cp.stacksize pool (blocks i) s)) [
        | inl fails ↦ rw fails tt
        | inr (r, filled) ↦
            let cp₁ = record cp { freelist = r.1 ∷ cp.freelist } in
            let alike = notify_first-IsAlike writes cp₁ in
            rw filled (elim (Option-cases (notify_first writes cp₁)) [
              | inl fails ↦ rw fails tt
              | inr (c, told) ↦
                  let same = subst (OnSome (Told cp₁)) told alike in
                  rw told (
                    longer (grow page_size a pool blocks writes n (i + 1) r.0 c.0 (ns ++ c.1)) same
                      (grow-Larger page_size a pool blocks writes n (i + 1) r.0 c.0 (ns ++ c.1)))
            ])
      ]
    where
      longer :
          {co : ℕ} {cp₂ : Pool} (o : Option (Schedule T × Pool × List Notice))
          → IsAlike (record cp { freelist = co ∷ cp.freelist }) cp₂
          → OnSome (Grown n cp₂) o
          → OnSome (Grown (suc n) cp) o
      longer none same l = tt
      longer (some r) same l = record {
        activenum = l.activenum ∙ same.activenum;
        totalsize = l.totalsize ∙ same.totalsize;
        free = l.free ∙ ap (λ fl. n + length fl) same.freelist ∙ omega arith;
      }

  abbrev Shorter : ℕ → List ℕ → Schedule T × List ℕ → Type 0
  Shorter n freelist (s, rest) = length rest + n ≡ length freelist

  shrink-Shorter :
      (kernel : Kernel) (a : Bool) (n : ℕ) (s : Schedule T) (freelist : List ℕ)
      → OnSome (Shorter n freelist) (shrink kernel a n s freelist)
  unfolding shrink
  shrink-Shorter kernel a zero s freelist = omega arith
  shrink-Shorter kernel a (suc n) s [] = tt
  shrink-Shorter kernel a (suc n) s (co ∷ freelist) = elim (Option-cases (free_one kernel a s co)) [
    | inl fails ↦ rw fails tt
    | inr (s', freed) ↦
        rw freed (longer (shrink kernel a n s' freelist) (shrink-Shorter kernel a n s' freelist))
  ]
    where
      longer :
          (o : Option (Schedule T × List ℕ))
          → OnSome (Shorter n freelist) o
          → OnSome (Shorter (suc n) (co ∷ freelist)) o
      longer none l = tt
      longer (some r) l = omega (arith, l)

  abbrev pub Resized : Schedule T × Pool × List Notice → Type 0
  Resized (s, cp, ns) = IsBalanced cp

  larger :
      (cp : Pool) (m n : ℕ) (b : IsBalanced cp)
      → n ≡ count_of (minus (pos m) cp.totalsize)
      → less cp.totalsize (pos m) ≡ true
      → (o : Option (Schedule T × Pool × List Notice)) → OnSome (Grown n cp) o
      → OnSome Resized (o >>= λ r. some (r.0, record r.1 { totalsize = pos m }, r.2))
  larger cp m n b steps more none g = tt
  larger cp m n b steps more (some r) g =
      let t = length cp.freelist + b.active in
      let k : n ≡ count_of (difference m t) =
        steps ∙ ap (λ z. count_of (minus (pos m) z)) b.totalsize in
      let h : ltb t m ≡ true = sym (ap (λ z. less z (pos m)) b.totalsize) ∙ more in
      record {
        active = b.active;
        activenum = g.activenum ∙ b.activenum;
        totalsize = ap pos (ground (arith, k, h, g.free));
      }

  smaller :
      (cp : Pool) (m n : ℕ) (b : IsBalanced cp)
      → n ≡ count_of (surplus cp (pos m))
      → less (pos m) cp.activenum ≡ false
      → less (pos m) cp.totalsize ≡ true
      → (o : Option (Schedule T × List ℕ)) → OnSome (Shorter n cp.freelist) o
      → OnSome Resized (o >>= λ r. some (r.0, record cp { totalsize = pos m; freelist = r.1 }, []))
  unfolding surplus
  smaller cp m n b steps enough fewer none g = tt
  smaller cp m n b steps enough fewer (some r) g =
      let t = length cp.freelist + b.active in
      let e : ltb m b.active ≡ false = sym (ap (less (pos m)) b.activenum) ∙ enough in
      let h : ltb m t ≡ true = sym (ap (less (pos m)) b.totalsize) ∙ fewer in
      let k : n ≡ count_of (difference t m) =
        steps ∙ rw enough (ap (λ z. count_of (minus z (pos m))) b.totalsize) in
      record {
        active = b.active;
        activenum = b.activenum;
        totalsize = ap pos (ground (arith, k, h, e, g));
      }

  -- A resize to no less than the active coroutines keeps the balance.
  pub resize-IsBalanced :
      (kernel : Kernel) (page_size : ℕ) (a : Bool) (pool : ℕ) (blocks : ℕ → Block)
      (writes : ℕ → Bool) (s : Schedule T) (cp : Pool) (newsize : ℤ)
      → less newsize cp.activenum ≡ false
      → IsBalanced cp
      → OnSome Resized (resize kernel page_size a pool blocks writes s cp newsize)
  unfolding resize
  resize-IsBalanced kernel page_size a pool blocks writes s cp (negsuc m) enough b =
      let h : less (negsuc m) (pos b.active) ≡ false =
        sym (ap (less (negsuc m)) b.activenum) ∙ enough in
      absurd (ground (arith, h))
  resize-IsBalanced kernel page_size a pool blocks writes s cp (pos m) enough b =
      elim (Bool-cases (less cp.totalsize (pos m))) [
        | inl more ↦ rw more (
            larger cp m (count_of (minus (pos m) cp.totalsize)) b refl more _ (
              grow-Larger page_size a pool blocks writes (count_of (minus (pos m) cp.totalsize)) 0 s
                cp []))
        | inr not_more ↦ elim (Bool-cases (less (pos m) cp.totalsize)) [
          | inl fewer ↦
              rw (not_more, fewer)
                (smaller cp m (count_of (surplus cp (pos m))) b refl enough fewer _
                  (shrink-Shorter kernel a (count_of (surplus cp (pos m))) s cp.freelist))
          | inr same ↦ rw (not_more, same) b
        ]
      ]
