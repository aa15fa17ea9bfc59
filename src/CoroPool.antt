-- ===== src/CoroPool.antt =====
-- src/dyco_coropool.c: pools of coroutines that are obtained, run and returned. The list of the
-- free coroutines and the one of the waiters belong to the pool, the coroutines to the scheduler.
-- A call that waits is cut at its yield. What ends the process is `none`.
pub mod Size
pub mod Calls
pub mod Release
pub mod Waiters
pub mod Turnover
pub mod History
pub mod Creation
pub mod Resizing
mod Interface
mod Tests
use dyco_coroutine.Base.{
  size_of, ℕ, zero, suc, ◌+◌, ◌-◌, ◌^◌, int_of, Bool, true, false, not, ◌||◌, ◌&&◌, Option, none,
  some, List, [], ◌∷◌, ◌++◌, ◌==◌, if◌then◌else◌, ◌>>=◌, ℤ, pos, negsuc, minus_one, int_of, minus,
  inc, dec, less, count_of,
}
use dyco_coroutine.HashTable.{find, no_id}
use dyco_coroutine.Blocking.{Notice, is_zero}
use dyco_coroutine.Status.{
  new, ready, urgent, ownstack, allocstackmem, incoropool, asymmetric, setbit, clrbit, testbit,
}
use dyco_coroutine.Schedule.Tree.{SleepTree}
use dyco_coroutine.Schedule.{
  Schedule, Coroutine, Kernel, has_flag, set_flag, clear_flag, with_coroutine, is_queued,
  sched_sleep,
}
use dyco_coroutine.Schedule.Events.{sched_wait}
use dyco_coroutine.Schedule.Calls.{end_wait}
use dyco_coroutine.Schedule.Lifecycle.{
  new_coroutine, new_stack, enlist, unregister, close_epoll, free_coroutine, after_create,
}
use dyco_coroutine.Asymmetric.{free}

-- A waiter: the block of its node and its descriptor.
pub record Sublist : Type 0 where
  pub addr : ℕ
  pub notifyfd : ℕ

pub record Pool : Type 0 where
  pub totalsize : ℤ
  pub activenum : ℤ
  pub stacksize : ℤ
  pub sublist : List Sublist
  pub freelist : List ℕ

-- dyco_coropool_available
abbrev pub available : Pool → ℤ
available cp = minus cp.totalsize cp.activenum

-- What `calloc` and `posix_memalign` answer for one coroutine.
pub record Block : Type 0 where
  pub address : Option ℕ
  pub stack : Option ℕ

-- `n` of cp_resize.
unfoldable pub surplus : Pool → ℤ → ℤ
surplus cp newsize = if less newsize cp.activenum then available cp else minus cp.totalsize newsize

-- cp_notify for the waiter who came first, if there is one.
unfoldable pub notify_first : (ℕ → Bool) → Pool → Option (Pool × List Notice)
notify_first writes cp = elim cp.sublist [
  | [] ↦ some (cp, [])
  | head ∷ rest ↦
      if writes head.notifyfd
      then some (record cp { sublist = rest }, record { fd = head.notifyfd; value = 1 } ∷ [])
      else none
]

module _ {T : Type 0} where
  unfoldable pub coro_setstack :
      ℕ → Option ℕ → Schedule T → Option ℕ → Option ℕ → ℕ → Schedule T × ℤ
  unfolding new_stack testbit
  coro_setstack page_size memory s none stackptr stacksize = (s, minus_one)
  coro_setstack page_size memory s (some co) stackptr stacksize =
      if not (has_flag s co new)
      then (s, minus_one)
      else (let r = new_stack page_size memory (s.coroutines co) stackptr stacksize in
          (with_coroutine s co r.0, r.1))

  -- A new coroutine for a pool, with a stack of its own where the pool gives one.
  unfoldable pub new_for_pool : ℕ → Bool → ℤ → Option ℕ → Schedule T → ℕ → Schedule T
  unfolding new_coroutine coro_setstack setbit
  new_for_pool page_size isasymmetric stacksize memory s co =
      let s₁ = with_coroutine s co new_coroutine in
      let s₂ = if isasymmetric then set_flag s₁ co asymmetric else s₁ in
      if isasymmetric || less (pos 0) stacksize
      then (coro_setstack page_size memory s₂ (some co) none (size_of stacksize)).0
      else s₂

  unfoldable pub enter_pool : ℕ → Schedule T → ℕ → Schedule T
  unfolding setbit
  enter_pool pool s co =
      let s' = set_flag s co incoropool in
      with_coroutine s' co (record (s'.coroutines co) { cpool = some pool })

  -- The body of the loops of cp_create and cp_resize but for its push, for the pool at `pool`.
  -- Without memory for the coroutine the body dereferences NULL.
  unfoldable pub fill_one : ℕ → Bool → ℤ → ℕ → Block → Schedule T → Option (Schedule T × ℕ)
  unfolding new_for_pool enter_pool
  fill_one page_size isasymmetric stacksize pool block s = block.address >>= λ co.
      some (enter_pool pool (new_for_pool page_size isasymmetric stacksize block.stack s co) co, co)

  -- The loop of cp_create, with the blocks from the i-th on.
  unfoldable pub fill :
      ℕ → Bool → ℤ → ℕ → (ℕ → Block) → ℕ → ℕ → Schedule T → List ℕ → Option (Schedule T × List ℕ)
  unfolding fill_one
  fill page_size isasymmetric stacksize pool blocks zero i s freelist = some (s, freelist)
  fill page_size isasymmetric stacksize pool blocks (suc n) i s freelist =
      fill_one page_size isasymmetric stacksize pool (blocks i) s >>= λ r.
      fill page_size isasymmetric stacksize pool blocks n (i + 1) r.0 (r.1 ∷ freelist)

  -- cp_create, where there is a scheduler; `malloc` answers the address of the pool.
  pub create :
      ℕ → (ℕ → Block) → Option ℕ → Schedule T → ℤ → ℕ → Bool → Option (Schedule T × Option Pool)
  unfolding fill
  create page_size blocks memory s (negsuc n) stacksize isasymmetric = some (s, none)
  create page_size blocks memory s (pos zero) stacksize isasymmetric = some (s, none)
  create page_size blocks none s (pos (suc n)) stacksize isasymmetric = some (s, none)
  create page_size blocks (some pool) s (pos (suc n)) stacksize isasymmetric =
      fill page_size isasymmetric (pos stacksize) pool blocks (suc n) 0 s [] >>= λ r. some (
        r.0,
        some (record {
          totalsize = pos (suc n);
          activenum = pos 0;
          stacksize = int_of stacksize;
          sublist = [];
          freelist = r.1;
        }),
      )

  -- The loop of cp_resize that adds coroutines.
  unfoldable pub grow :
      ℕ
      → Bool
      → ℕ
      → (ℕ → Block)
      → (ℕ → Bool)
      → ℕ
      → ℕ
      → Schedule T
      → Pool
      → List Notice
      → Option (Schedule T × Pool × List Notice)
  unfolding fill_one notify_first
  grow page_size isasymmetric pool blocks writes zero i s cp notices = some (s, cp, notices)
  grow page_size isasymmetric pool blocks writes (suc n) i s cp notices =
      fill_one page_size isasymmetric cp.stacksize pool (blocks i) s >>= λ r.
      notify_first writes (record cp { freelist = r.1 ∷ cp.freelist }) >>= λ c.
      grow page_size isasymmetric pool blocks writes n (i + 1) r.0 c.0 (notices ++ c.1)

  -- How the loops of cp_resize and cp_destroy free a coroutine. An asymmetric one goes to
  -- `freecoro`, another one to `dyco_asymcoro_free` by its id.
  unfoldable pub free_one : Kernel → Bool → Schedule T → ℕ → Option (Schedule T)
  unfolding free_coroutine free
  free_one kernel isasymmetric s co =
      if isasymmetric then free_coroutine kernel s (some co) else free s (s.coroutines co).cid

  -- Their loop. The head of an empty list is NULL.
  unfoldable pub shrink : Kernel → Bool → ℕ → Schedule T → List ℕ → Option (Schedule T × List ℕ)
  unfolding free_one
  shrink kernel isasymmetric zero s freelist = some (s, freelist)
  shrink kernel isasymmetric (suc n) s [] = none
  shrink kernel isasymmetric (suc n) s (co ∷ freelist) =
      free_one kernel isasymmetric s co >>= λ s'. shrink kernel isasymmetric n s' freelist

  -- cp_resize of a pool, to another size.
  unfoldable pub resize :
      Kernel
      → ℕ
      → Bool
      → ℕ
      → (ℕ → Block)
      → (ℕ → Bool)
      → Schedule T
      → Pool
      → ℤ
      → Option (Schedule T × Pool × List Notice)
  unfolding grow shrink surplus
  resize kernel page_size isasymmetric pool blocks writes s cp newsize =
      if less cp.totalsize newsize
      then (grow page_size isasymmetric pool blocks writes (count_of (minus newsize cp.totalsize)) 0
            s cp []
          >>= λ r. some (r.0, record r.1 { totalsize = newsize }, r.2))
      else if less newsize cp.totalsize
      then (shrink kernel isasymmetric (count_of (surplus cp newsize)) s cp.freelist >>= λ r.
          some (r.0, record cp { totalsize = newsize; freelist = r.1 }, []))
      else some (s, cp, [])

  -- cp_destroy. The pool itself is freed where the result is 0, and the caller's pointer to it stays.
  pub destroy : Kernel → Bool → Schedule T → Option Pool → Option (Schedule T × ℤ)
  unfolding shrink
  destroy kernel isasymmetric s none = some (s, pos 0)
  destroy kernel isasymmetric s (some cp) = elim cp.activenum [
    | pos zero ↦
        shrink kernel isasymmetric (count_of cp.totalsize) s cp.freelist >>= λ r. some (r.0, pos 0)
    | _ ↦ some (s, minus_one)
  ]
