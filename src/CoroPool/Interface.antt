-- ===== src/CoroPool/Interface.antt =====
-- src/dyco_coropool.c: the calls dyco_coropool_* of a pool of symmetric coroutines, and
-- dyco_asymcpool_* of a pool of asymmetric ones, which share the functions cp_*.
use dyco_coroutine.Base.{ℕ, Bool, true, false, Option, List, ℤ}
use dyco_coroutine.Blocking.{Notice}
use dyco_coroutine.Schedule.Tree.{SleepTree}
use dyco_coroutine.Schedule.{Schedule, Kernel}
use dyco_coroutine.CoroPool.{Pool, Block, available, create, resize, destroy}
use dyco_coroutine.CoroPool.Calls.{Entry, Answers, obtain, give_back}

module _ {T : Type 0} where
  unfoldable coropool_create :
      ℕ → (ℕ → Block) → Option ℕ → Schedule T → ℤ → ℕ → Option (Schedule T × Option Pool)
  coropool_create page_size blocks memory s totalsize stacksize =
      create page_size blocks memory s totalsize stacksize false

  unfoldable asymcpool_create :
      ℕ → (ℕ → Block) → Option ℕ → Schedule T → ℤ → ℕ → Option (Schedule T × Option Pool)
  asymcpool_create page_size blocks memory s totalsize stacksize =
      create page_size blocks memory s totalsize stacksize true

  unfoldable coropool_resize :
      Kernel
      → ℕ
      → ℕ
      → (ℕ → Block)
      → (ℕ → Bool)
      → Schedule T
      → Pool
      → ℤ
      → Option (Schedule T × Pool × List Notice)
  coropool_resize kernel page_size = resize kernel page_size false

  unfoldable asymcpool_resize :
      Kernel
      → ℕ
      → ℕ
      → (ℕ → Block)
      → (ℕ → Bool)
      → Schedule T
      → Pool
      → ℤ
      → Option (Schedule T × Pool × List Notice)
  asymcpool_resize kernel page_size = resize kernel page_size true

  unfoldable coropool_destroy : Kernel → Schedule T → Option Pool → Option (Schedule T × ℤ)
  coropool_destroy kernel = destroy kernel false

  unfoldable asymcpool_destroy : Kernel → Schedule T → Option Pool → Option (Schedule T × ℤ)
  asymcpool_destroy kernel = destroy kernel true

  -- dyco_coropool_return of a coroutine, where `cp` is the pool that it points to.
  unfoldable coropool_return :
      Kernel
      → (ℕ → Bool)
      → Schedule T
      → Option ℕ
      → Option Pool
      → Option (Schedule T × Option Pool × List Notice)
  coropool_return = give_back

  module _ (tree : SleepTree T) where
    -- The calls that obtain a coroutine, up to the yield of their wait.
    unfoldable coropool_obtain : Kernel → Answers → Schedule T → Pool → ℤ → Option (Entry T)
    coropool_obtain kernel answers = obtain tree kernel answers false false

    unfoldable coropool_obtain_urgent : Kernel → Answers → Schedule T → Pool → ℤ → Option (Entry T)
    coropool_obtain_urgent kernel answers = obtain tree kernel answers false true

    unfoldable asymcpool_obtain : Kernel → Answers → Schedule T → Pool → ℤ → Option (Entry T)
    asymcpool_obtain kernel answers = obtain tree kernel answers true false

unfoldable asymcpool_available : Pool → ℤ
asymcpool_available = available
