-- ===== src/WaitGroup/Members.antt =====
-- Adding members, and counting those that are done.
use dyco_coroutine.Base.{
  Bool, ◌∷◌, inl, inr, map, ℕ, zero, suc, ◌+◌, ◌^◌, ◌≡◌, ◌≢◌, ◌<◌, refl, sym, ap, ◌∙◌, true, Option,
  none, some, List, [], ◌++◌, ◌==◌, if◌then◌else◌, ◌>>=◌, arith, pos, Bool-cases, ==_refl, ne→==,
}
use dyco_coroutine.HashTable.{contains, inc_int, no_id, max_width}
use dyco_coroutine.HashTable.Growth.{Alloc}
use dyco_coroutine.HashTable.Entries.{or_null, is_found}
use dyco_coroutine.HashTable.Resize.{IsSized, IsPlaced, view}
use dyco_coroutine.HashTable.Methods.{HasMemory, insert-Inserted, contains-view, find-view}
use dyco_coroutine.Blocking.{Notice}
use dyco_coroutine.WaitGroup.{WaitGroup, add, done, done_notices, notify, told, subscribers}

pub record Added (wg : WaitGroup) (cid : ℕ) (wg' : WaitGroup) : Type 0 where
  pub member : contains wg'.cid_set cid ≡ some true
  pub others :
      (q : ℕ)
      → q ≢ 0
      → q ≢ cid
      → IsPlaced q wg.cid_set
      → contains wg'.cid_set q ≡ contains wg.cid_set q
  pub size :
      wg'.tot_size ≡ (if is_found (view wg.cid_set cid) then wg.tot_size else inc_int wg.tot_size)
  pub sized : IsSized wg'.cid_set

-- With memory, a table below the widest and an id other than 0 and -1, an addition makes the id a
-- member and keeps the others; the size grows, and the result is 1, exactly if it was none before.
pub add-Added :
    (alloc : Alloc) (wg : WaitGroup) (cid : ℕ)
    → HasMemory alloc
    → IsSized wg.cid_set
    → wg.cid_set.width < max_width
    → cid ≢ no_id
    → cid ≢ 0
    → IsPlaced cid wg.cid_set
    → (wg' : WaitGroup) × (add alloc (some wg) cid
        ≡ some (some wg', if is_found (view wg.cid_set cid) then pos 0 else pos 1))
      × Added wg cid wg'
unfolding add
add-Added alloc wg cid memory sized small valid nonzero placed =
    let (t, r, run, i) = insert-Inserted alloc wg.cid_set cid none memory small sized valid in
    let seen = is_found (view wg.cid_set cid) in
    (
      record wg { cid_set = t; tot_size = if seen then wg.tot_size else inc_int wg.tot_size },
      elim (Bool-cases seen) [
        | inl old ↦ rw (add, run, i.code, old) refl
        | inr new ↦ rw (add, run, i.code, new) refl
      ],
      record {
        member =
            contains-view t cid i.sized
            ∙ ap (λ v. some (is_found v)) (i.reads cid (inl nonzero) placed)
            ∙ rw (==_refl cid) refl;
        others = λ q n different p.
            contains-view t q i.sized
            ∙ ap (λ v. some (is_found v)) (i.reads q (inl n) p)
            ∙ rw (ne→== q cid different) (sym (contains-view wg.cid_set q sized));
        size = refl;
        sized = i.sized;
      },
    )

notify-told :
    (writes : ℕ → Bool) (n : ℕ) (fds : List ℕ)
    → ((fd : ℕ) → writes fd ≡ true)
    → notify writes n fds ≡ some (told n fds)
unfolding notify
notify-told writes n [] open_fds = refl
notify-told writes n (fd ∷ fds) open_fds =
    rw (open_fds fd) (rw (notify-told writes n fds open_fds) refl)

-- What those get that wait for all, when the count comes to `n`.
final_told : WaitGroup → ℕ → List Notice
final_told wg n = if n == wg.tot_size then told n wg.final_sublist else []

done-counts :
    (writes : ℕ → Bool) (wg : WaitGroup) (cid : ℕ)
    → ((fd : ℕ) → writes fd ≡ true)
    → contains wg.cid_set cid ≡ some true
    → IsSized wg.target_sublist_map
    → done writes wg (some cid)
      ≡ some (
        record wg { finished = inc_int wg.finished },
        pos 1,
        told
              (inc_int wg.finished)
              (subscribers (or_null (view wg.target_sublist_map (inc_int wg.finished))))
            ++ final_told wg (inc_int wg.finished),
      )
unfolding done done_notices final_told
done-counts writes wg cid open_fds member sized =
    let n = inc_int wg.finished in
    rw (member, find-view wg.target_sublist_map n sized)
      (rw (notify-told writes n (subscribers (or_null (view wg.target_sublist_map n))) open_fds)
        (elim (Bool-cases (n == wg.tot_size)) [
          | inl all ↦ rw all (rw (notify-told writes n wg.final_sublist open_fds) refl)
          | inr some_left ↦ rw some_left refl
        ]))

-- One coroutine calls `done` again and again.
pub repeat_done : (ℕ → Bool) → ℕ → WaitGroup → ℕ → Option WaitGroup
repeat_done writes zero wg cid = some wg
repeat_done writes (suc n) wg cid = done writes wg (some cid) >>= λ r. repeat_done writes n r.0 cid

repeat_done-counts :
    (writes : ℕ → Bool) (n : ℕ) (wg : WaitGroup) (cid : ℕ)
    → ((fd : ℕ) → writes fd ≡ true)
    → contains wg.cid_set cid ≡ some true
    → IsSized wg.target_sublist_map
    → wg.finished + n < 2 ^ 32
    → repeat_done writes n wg cid ≡ some (record wg { finished = wg.finished + n })
unfolding repeat_done
repeat_done-counts writes zero wg cid open_fds member sized small =
    let same : wg.finished + 0 ≡ wg.finished = omega arith in rw same refl
repeat_done-counts writes (suc n) wg cid open_fds member sized small =
    let next : inc_int wg.finished ≡ wg.finished + 1 = omega arith in
    let sum : wg.finished + 1 + n ≡ wg.finished + suc n = omega arith in
    ap (λ o. o >>= λ r. repeat_done writes n r.0 cid)
      (done-counts writes wg cid open_fds member sized)
    ∙ rw next (
        repeat_done-counts writes n (record wg { finished = wg.finished + 1 }) cid open_fds member
          sized (omega arith))
    ∙ ap (λ k. some (record wg { finished = k })) sum

-- Where all descriptors can be written, a single member that calls `done` as often as members are
-- missing completes the group: its last call returns 1 and notifies all that wait for the whole group.
pub repeat_done-completes :
    (writes : ℕ → Bool) (n : ℕ) (wg : WaitGroup) (cid : ℕ)
    → ((fd : ℕ) → writes fd ≡ true)
    → contains wg.cid_set cid ≡ some true
    → IsSized wg.target_sublist_map
    → wg.finished + suc n ≡ wg.tot_size
    → wg.tot_size < 2 ^ 31
    → (wg₁ : WaitGroup) × (repeat_done writes n wg cid ≡ some wg₁)
      × ((early : List Notice) × (done writes wg₁ (some cid)
            ≡ some (
              record wg { finished = wg.tot_size },
              pos 1,
              early ++ map (λ fd. record { fd = fd; value = wg.tot_size }) wg.final_sublist,
            )))
unfolding final_told
repeat_done-completes writes n wg cid open_fds member sized missing small =
    let wg₁ = record wg { finished = wg.finished + n } in
    let last : inc_int (wg.finished + n) ≡ wg.tot_size = omega arith in
    (
      wg₁,
      repeat_done-counts writes n wg cid open_fds member sized (omega arith),
      (
        told wg.tot_size (subscribers (or_null (view wg.target_sublist_map wg.tot_size))),
        done-counts writes wg₁ cid open_fds member sized ∙ rw (last, ==_refl wg.tot_size) refl,
      ),
    )
