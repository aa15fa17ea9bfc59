-- ===== src/Schedule/Events.antt =====
-- src/dyco_schedule.c: coroutines that wait for a descriptor.
use dyco_coroutine.Base.{
  ℕ, ◌/◌, ◌^◌, ◌%◌, Bool, true, false, not, ◌||◌, ◌&&◌, Option, none, some, List, [], ◌∷◌, ◌==◌,
  if◌then◌else◌, ◌>>=◌,
}
use dyco_coroutine.HashTable.{delete, find}
use dyco_coroutine.HashTable.Growth.{insert}
use dyco_coroutine.Status.{waiting, setbit, clrbit, testbit}
use dyco_coroutine.Schedule.Tree.{SleepTree}
use dyco_coroutine.Schedule.{
  Schedule, Kernel, set_flag, clear_flag, has_flag, make_ready, min_timeout,
}

abbrev pub is_empty {ℓ} : {A : Type ℓ} → List A → Bool
is_empty [] = true
is_empty (x ∷ xs) = false

module _ {T : Type 0} where
  -- The flag is set also where `htable_insert` fails, since its assert is compiled out.
  unfoldable pub sched_wait : Kernel → Schedule T → ℕ → ℕ → Option (Schedule T)
  unfolding setbit
  sched_wait kernel s co fd =
      if kernel.ctl_add fd
      then (insert kernel.alloc s.fd_co_map fd (some co) >>= λ r.
          some (set_flag (record s { fd_co_map = r.0 }) co waiting))
      else none

  -- With the returned number.
  unfoldable pub cancel_wait : Kernel → Schedule T → ℕ → ℕ → Option (Schedule T × ℕ)
  unfolding testbit clrbit
  cancel_wait kernel s co fd =
      if has_flag s co waiting
      then (delete s.fd_co_map fd >>= λ r.
          if kernel.ctl_del fd
          then some (clear_flag (record s { fd_co_map = r.0 }) co waiting, 0)
          else none)
      else some (s, 1)

  unfoldable pub get_waitco : Schedule T → ℕ → Option (Option ℕ)
  get_waitco s fd = find s.fd_co_map fd

  -- One event of phase D. An event without a waiting coroutine is dropped.
  unfoldable pub deliver_one : Kernel → Schedule T → ℕ → Option (Schedule T)
  unfolding get_waitco cancel_wait
  deliver_one kernel s fd = get_waitco s fd >>= λ r. elim r [
    | none ↦ some s
    | some co ↦ make_ready s co >>= λ s'. cancel_wait kernel s' co fd >>= λ c. some c.0
  ]

  unfoldable pub deliver : Kernel → Schedule T → List ℕ → Option (Schedule T)
  unfolding deliver_one
  deliver kernel s [] = some s
  deliver kernel s (fd ∷ fds) = deliver_one kernel s fd >>= λ s'. deliver kernel s' fds

  -- The timeout in milliseconds with which `schedule_epoll_wait` calls `epoll_wait`, a C int as its
  -- 32-bit pattern, or `none` where it does not call it.
  unfoldable pub epoll_timeout : SleepTree T → ℕ → Schedule T → Option ℕ
  unfolding min_timeout
  epoll_timeout tree now s =
      if (s.fd_co_map.count == 0) && is_empty (tree.entries s.sleeping)
      then none
      else if not (is_empty s.ready) || not (is_empty s.urgent_ready)
      then some 0
      else (let timeout = min_timeout tree now s in
          if timeout == 0 then some 0 else some (timeout / 1000 % 2 ^ 32))

  -- `SCHEDULE_ISDONE`
  unfoldable pub is_done : SleepTree T → Schedule T → Bool
  is_done tree s =
      (s.fd_co_map.count == 0)
      && (is_empty (tree.entries s.sleeping) && (is_empty s.ready && is_empty s.urgent_ready))
