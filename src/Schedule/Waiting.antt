-- ===== src/Schedule/Waiting.antt =====
-- How long the loop waits for events.
use dyco_coroutine.Base.{
  ℕ, ◌+◌, ◌-◌, ◌*◌, ◌/◌, ◌%◌, ◌^◌, ◌≤◌, ◌<◌, ◌≡◌, refl, inl, inr, Bool, true, false, ◌&&◌, some,
  List, [], ◌∷◌, ltb, ◌==◌, if◌then◌else◌, arith, Bool-cases,
}
use dyco_coroutine.Schedule.Tree.{Sleeper, SleepTree, Laws, first_co}
use dyco_coroutine.Schedule.{Schedule, min_timeout, diff_usecs}
use dyco_coroutine.Schedule.Events.{epoll_timeout}

unfoldable pub remaining : ℕ → ℕ → ℕ
remaining key elapsed = if ltb elapsed key then key - elapsed else 0

and_false : (b : Bool) → (b && false) ≡ false
and_false true = refl
and_false false = refl

module _ {T : Type 0} (tree : SleepTree T) (laws : Laws tree) where
  min_timeout-remaining :
      (now : ℕ) (s : Schedule T) (e : Sleeper) (es : List Sleeper)
      → tree.entries s.sleeping ≡ e ∷ es
      → (s.coroutines e.co).sleep_usecs ≡ e.key
      → min_timeout tree now s ≡ remaining e.key (diff_usecs s.birth now)
  unfolding min_timeout remaining first_co
  min_timeout-remaining now s e es entries key =
      rw (min_timeout, laws.min-first s.sleeping, entries, key) refl

  -- With nothing ready, a tree whose first key is that of its coroutine, and a first sleeper due in
  -- less than 2^31 milliseconds, the timeout is a number of milliseconds below 2^31, which is 0
  -- where less than one is left, and the wait ends within the millisecond before the key, never
  -- behind it.
  pub epoll_timeout-remaining :
      (now : ℕ) (s : Schedule T) (e : Sleeper) (es : List Sleeper)
      → tree.entries s.sleeping ≡ e ∷ es
      → (s.coroutines e.co).sleep_usecs ≡ e.key
      → s.ready ≡ []
      → s.urgent_ready ≡ []
      → remaining e.key (diff_usecs s.birth now) < 2 ^ 31 * 1000
      → (ms : ℕ) × (epoll_timeout tree now s ≡ some ms)
        × (ms < 2 ^ 31)
        × (ms * 1000 ≤ remaining e.key (diff_usecs s.birth now))
        × (remaining e.key (diff_usecs s.birth now) < (ms + 1) * 1000)
  unfolding epoll_timeout
  epoll_timeout-remaining now s e es entries key idle calm short =
      let w = remaining e.key (diff_usecs s.birth now) in
      let m = min_timeout-remaining now s e es entries key in
      elim (Bool-cases (w == 0)) [
        | inl over ↦ (
          0,
          rw (entries, idle, calm, and_false (s.fd_co_map.count == 0), m, over) refl,
          omega arith,
          omega arith,
          ground arith,
        )
        | inr more ↦
            let fit : w / 1000 % 2 ^ 32 ≡ w / 1000 = omega arith in
            (
              w / 1000,
              rw (entries, idle, calm, and_false (s.fd_co_map.count == 0), m, more, fit) refl,
              omega arith,
              omega arith,
              omega arith,
            )
      ]
