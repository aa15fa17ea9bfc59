-- ===== src/Epoll.antt =====
-- src/dyco_epoll.c: a coroutine with an epoll descriptor of its own, and the hooks of `epoll_wait`
-- and `poll`. A call that waits is cut at its yield. Without a scheduler each call ends as it does
-- outside of a coroutine. What ends the process is `none`.
pub mod Unremoved
mod Tests
use dyco_coroutine.Base.{
  ℕ, Bool, true, not, ◌&&◌, Option, none, some, List, [], ◌∷◌, if◌then◌else◌, ◌>>=◌, ℤ, pos,
  minus_one,
}
use dyco_coroutine.Blocking.{is_zero}
use dyco_coroutine.Status.{iomultiplexing, setbit, clrbit, testbit}
use dyco_coroutine.Schedule.Tree.{SleepTree}
use dyco_coroutine.Schedule.{
  Schedule, Kernel, has_flag, set_flag, clear_flag, with_coroutine, sched_sleep,
}
use dyco_coroutine.Schedule.Events.{sched_wait}
use dyco_coroutine.Schedule.Calls.{end_wait}

-- How a call that may wait goes on: it has returned, or the coroutine yields.
pub data Wait (T : Type 0) : Type 0 where
  returned : Schedule T → ℤ → Wait T
  waits : Schedule T → ℕ → Wait T

-- What `poll` and `epoll_ctl` answer for one entry of the array of `poll`.
pub record Polled : Type 0 where
  pub added : Bool
  pub removed : Bool

-- The loops over the array, in which every call must succeed.
unfoldable pub all_added : List Polled → Bool
all_added [] = true
all_added (p ∷ ps) = p.added && all_added ps

unfoldable pub all_removed : List Polled → Bool
all_removed [] = true
all_removed (p ∷ ps) = p.removed && all_removed ps

module _ {T : Type 0} where
  -- dyco_epoll_init; `epoll_create` must give a descriptor.
  unfoldable pub init : Option ℕ → Schedule T → Option (Schedule T × ℤ)
  unfolding setbit testbit
  init epfd s = elim s.curr_thread [
    | none ↦ some (s, minus_one)
    | some co ↦
        if has_flag s co iomultiplexing
        then some (s, minus_one)
        else (epfd >>= λ fd. some (
          set_flag (with_coroutine s co (record (s.coroutines co) { epollfd = fd })) co
              iomultiplexing,
          pos 0,
        ))
  ]

  -- dyco_epoll_add, with the answer of `epoll_ctl`, which must succeed.
  unfoldable pub add : Bool → Schedule T → Option (Schedule T × ℤ)
  unfolding testbit
  add ctl s = elim s.curr_thread [
    | none ↦ some (s, minus_one)
    | some co ↦
        if not (has_flag s co iomultiplexing)
        then some (s, minus_one)
        else if ctl
        then some (s, pos 0)
        else none
  ]

  -- dyco_epoll_del has the same body with EPOLL_CTL_DEL.
  pub del : Bool → Schedule T → Option (Schedule T × ℤ)
  unfolding add
  del = add

  -- dyco_epoll_destroy. The descriptor is closed, and its number kept.
  unfoldable pub destroy : Schedule T → Schedule T
  unfolding clrbit testbit
  destroy s = elim s.curr_thread [
    | none ↦ s
    | some co ↦ if has_flag s co iomultiplexing then clear_flag s co iomultiplexing else s
  ]

  module _ (tree : SleepTree T) where
    -- The waits of this file up to their yield; the asserts that forbid them to asymmetric
    -- coroutines are compiled out.
    unfoldable pub park : Kernel → Schedule T → ℕ → ℕ → ℤ → Option (Wait T)
    unfolding sched_wait sched_sleep
    park kernel s co fd timeout = sched_wait kernel s co fd >>= λ s'.
        sched_sleep tree kernel.usec_now s' co timeout >>= λ s''. some (waits s'' co)

    -- dyco_epoll_wait up to its yield, with the events that `epoll_wait` has for so many entries.
    unfoldable pub wait : Kernel → (ℕ → ℤ) → Schedule T → ℕ → ℤ → Option (Wait T)
    unfolding park testbit
    wait kernel polled s maxevents timeout = elim s.curr_thread [
      | none ↦ some (returned s minus_one)
      | some co ↦
          if not (has_flag s co iomultiplexing)
          then none
          else if is_zero timeout
          then some (returned s (polled maxevents))
          else park kernel s co (s.coroutines co).epollfd timeout
    ]

    -- Behind the yield, on the descriptor that the coroutine has then.
    unfoldable pub wait_woken : Kernel → (ℕ → ℤ) → Schedule T → ℕ → ℕ → Option (Schedule T × ℤ)
    unfolding end_wait
    wait_woken kernel polled s co maxevents =
        end_wait tree kernel s co (s.coroutines co).epollfd >>= λ s'. some (s', polled maxevents)

    -- The hook of `epoll_wait`. Where it does not wait, it passes the timeout, 0, as the number of
    -- the entries.
    unfoldable pub hooked_wait : Kernel → (ℕ → ℤ) → Schedule T → ℕ → ℕ → ℤ → Option (Wait T)
    unfolding park
    hooked_wait kernel polled s epfd maxevents timeout =
        if is_zero timeout then some (returned s (polled 0)) else elim s.curr_thread [
          | none ↦ some (returned s minus_one)
          | some co ↦ park kernel s co epfd timeout
        ]

    unfoldable pub hooked_wait_woken :
        Kernel → (ℕ → ℤ) → Schedule T → ℕ → ℕ → ℕ → Option (Schedule T × ℤ)
    unfolding end_wait
    hooked_wait_woken kernel polled s co epfd maxevents =
        end_wait tree kernel s co epfd >>= λ s'. some (s', polled maxevents)

    -- The hook of `poll`, with what the real one answers for a timeout.
    unfoldable pub hooked_poll :
        Kernel → (ℤ → ℤ) → Option ℕ → List Polled → Schedule T → ℤ → Option (Wait T)
    unfolding park all_added
    hooked_poll kernel polled epfd fds s timeout =
        if is_zero timeout then some (returned s (polled (pos 0))) else elim s.curr_thread [
          | none ↦ some (returned s minus_one)
          | some co ↦ epfd >>= λ fd. if all_added fds then park kernel s co fd timeout else none
        ]

    -- Behind its yield: the real one is called with the whole timeout again.
    unfoldable pub hooked_poll_woken :
        Kernel → (ℤ → ℤ) → List Polled → Schedule T → ℕ → ℕ → ℤ → Option (Schedule T × ℤ)
    unfolding end_wait all_removed
    hooked_poll_woken kernel polled fds s co epfd timeout = end_wait tree kernel s co epfd >>= λ s'.
        if all_removed fds then some (s', polled timeout) else none
