-- ===== src/WaitGroup/Subscribers.antt =====
-- The lists of subscribers: a wait leaves them as they were.
use dyco_coroutine.Base.{
  ℕ, ◌≡◌, ◌≢◌, refl, sym, ap, take, drop, ◌++◌, true, false, Option, some, List, [], ◌∷◌, ◌==◌, All,
  ==_refl, ne→==, pos,
}
use dyco_coroutine.HashTable.Growth.{Alloc}
use dyco_coroutine.WaitGroup.{
  WaitGroup, waits, join, leave, leave_tail, wait_all, woken, read_count,
}

leave-join : (fd : ℕ) (fds : List ℕ) → All (λ x. x ≢ fd) fds → leave fd (join fd fds) ≡ some fds
unfolding leave join leave_tail
leave-join fd [] apart = rw (==_refl fd) refl
leave-join fd (x ∷ xs) (other, apart) = rw (ne→== x fd other, ==_refl fd) refl

join-take : (fd : ℕ) (fds : List ℕ) → join fd fds ≡ take 1 fds ++ (fd ∷ drop 1 fds)
unfolding join
join-take fd [] = refl
join-take fd (x ∷ xs) = refl

-- A wait for all members while some are missing, with memory for its node and a descriptor that is
-- not in the list, puts the descriptor behind the head of the list and nothing else. When it runs
-- again with the group as it left it, the group is the one from before, and the result is the number
-- that was read, or -1.
pub wait_all-woken :
    (alloc : Alloc) (wg : WaitGroup) (fd : ℕ) (read : Option ℕ)
    → (wg.finished == wg.tot_size) ≡ false
    → All (λ x. x ≢ fd) wg.final_sublist
    → (wait_all alloc wg fd true
        ≡ some (
            waits
              (record wg {
                final_sublist = take 1 wg.final_sublist ++ (fd ∷ drop 1 wg.final_sublist);
              })
              fd))
      × (woken alloc
            (record wg {
              final_sublist = take 1 wg.final_sublist ++ (fd ∷ drop 1 wg.final_sublist);
            })
            (pos 0)
            fd
            read
          ≡ some (wg, read_count read))
unfolding wait_all woken
wait_all-woken alloc wg fd read pending apart =
    let same = join-take fd wg.final_sublist in
    (
      rw pending (ap (λ l. some (waits (record wg { final_sublist = l }) fd)) same),
      rw (sym same) (rw (leave-join fd wg.final_sublist apart) refl),
    )
