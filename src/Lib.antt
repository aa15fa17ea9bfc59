-- ===== src/Lib.antt =====
-- dyco-coroutine: a coroutine framework for C with a scheduler per thread, and objects that its
-- coroutines synchronise by.
--
-- * HashTable.antt is include/dyco/dyco_htable.h: `find`, `contains`, `delete`, `init`, `clear` and
--   `clear_with_freecb` are the functions htable_*. Its children: Growth (`insert` and `resize`, which
--   are htable_insert and htable_resize), Lifetime (htable_create and htable_free), Entries (one
--   bucket), Array (the bucket array), Moves (the loops that move entries), Resize, Writes (one write
--   seen from the whole table), Methods (lookup and insert), Removal, History (all histories of calls),
--   Phantom (the entries with id 0 of a resized array).
-- * Channel.antt is src/dyco_channel.c: `create`, `send`, `recv` and `destroy` are dyco_channel_*,
--   `send_woken` and `recv_woken` their inner switches after hdc_wait. Its children: Content (what a
--   channel holds), Send, Receive, Order (runs of many coroutines), Close.
-- * Blocking.antt has what the objects share: who calls, and what is written to descriptors.
-- * Base.antt passes on the library's names and has the shared lists, tests and C integers.
-- * Semaphore.antt is src/dyco_semaphore.c: `create`, `wait`, `signal` and `destroy` are
--   dyco_semaphore_*, `woken` the end of a wait after its yield. Its children: Queue (the linked list
--   of waiters), Calls (one call), Permits (runs of many coroutines), Stale (after a timeout).
-- * Status.antt is the status word of a coroutine in include/dyco/dyco_coroutine.h, with SETBIT, CLRBIT
--   and TESTBIT. Its children: Digits (binary digits), Flags.
-- * Schedule.antt is src/dyco_schedule.c: the containers of the coroutines and the operations
--   schedule_* on them. Its children: Tree (the red-black tree as an interface), Sleep and Fall
--   (schedule_sched_sleep), Wake, Due and Expiry (phase A of dyco_schedule_run), Events (waits for
--   descriptors, phase D), Run (the phases and the loop), Fifo (phase C), Drain (rounds
--   in which coroutines finish), Waiting (how long
--   epoll_wait waits), Stack (savestk, checkstk and yield), Lifecycle (creation, freecoro and
--   attributes, of src/dyco_coroutine.c), Birth (dyco_coroutine_create), Calls (sleep and waitev, and a
--   scheduler from its creation to its release), Twice (an event and a timeout at once), Robbed (a key
--   that two sleepers have).
-- * WaitGroup.antt is src/dyco_waitgroup.c: `create`, `add`, `done`, `wait` and `destroy` are
--   dyco_waitgroup_*, `woken` the end of a wait. Its children: Width, Members, Subscribers.
-- * PubSub.antt is src/dyco_pubsub.c: `create`, `publish`, `subscribe` and `destroy` are dyco_pubsub_*,
--   `publish_woken` and `subscribe_woken` the ends of the waits. Its children: Delivery (one message and
--   all its subscribers), Eager (a subscription that does not wait).
-- * Asymmetric.antt is src/dyco_asymcoro.c: `create`, `resume`, `free` are dyco_asymcoro_create,
--   dyco_asymcororesume and dyco_asymcoro_free, `yield_out` is dyco_asymcoroyield up to its switch. Its
--   children: Turns (one resume), Release.
-- * CoroPool.antt is src/dyco_coropool.c: `create`, `resize` and `destroy` are cp_create, cp_resize and
--   cp_destroy. Its children: Calls (`obtain` with `obtain_woken` behind its wait, and `give_back`, which
--   are cp_obtain and cp_return), Size, Resizing and History (free and active coroutines), Creation,
--   Turnover (one obtain), Waiters (one return), Release (a smaller pool), Interface (dyco_coropool_* and
--   dyco_asymcpool_*).
-- * Socket.antt is src/dyco_socket.c: `send`, `recv`, `socket`, `accept`, `connect` are the functions
--   dyco_*, and with `hooked_` before the name the hooks. Its children: Sent (what the kernel has of
--   a buffer), Completion (when a send ends).
-- * Schedcall.antt is src/dyco_schedcall.c with schedule_abort: `stop_out`, `abort_out` and
--   `sigprocmask_out` are the calls dyco_schedcall_* up to their switch, `call_in` what is behind it, and
--   `callexec` is schedule_callexec.
-- * Resume.antt is `resume` of src/dyco_coroutine.c over the turns of a coroutine, with its end. Its
--   children: Stop (a coroutine that stops the scheduler), Ends (one that goes back to its pool), Killed, Plain and Finish
--   (the loop of the scheduler over `resume`).
-- * Epoll.antt is src/dyco_epoll.c: `init`, `add`, `del`, `wait` and `destroy` are dyco_epoll_*,
--   `hooked_wait` and `hooked_poll` the hooks of epoll_wait and poll, each with its end `_woken` behind the
--   yield. Its child Unremoved has the end of a coroutine with an epoll descriptor.
-- * Signal.antt is src/dyco_signal.c: `init`, `destroy`, `wait` and `waitchild` are dyco_signal_*, with
--   `_called` for what is behind their scheduler call, and `_woken` behind their yield.
-- * Ssl.antt is src/dyco_ssl.c: `accept`, `connect`, `read` and `write` are dyco_SSL_*. Its child Claims
--   has what a handshake and a read report.
--
-- Conventions. A pointer that may be NULL is an `Option`; an int id is its 32-bit pattern, and an int
-- that is returned is an integer `ℤ`. A call that yields is cut in two: what it does up to its
-- `yield`, and what it does when it runs again. Between the two any other coroutine may have run, so
-- the second half takes the state that it then finds. What the kernel and the allocator answer (new
-- descriptors, reads of an eventfd, memory) are arguments, and a write to an eventfd is a value that
-- the call hands out. Loops over lists and buckets are structural recursions.
--
-- Bounds. `probe_expired` and `insert_sleep` run on fuel, which is enough: as many rounds as there
-- are nodes in the tree find a due sleeper, each of which reads a clock that is an argument, and
-- one key more than there are nodes is free. The phases B and C stop after 128 turns as in the
-- code. `run_rounds` goes over a list of what the outside answers.
--
-- Not modelled: the assembly and the contexts of src/uctx_*, so a turn of a coroutine is a parameter
-- of the loop; the hooks of libc.
pub mod Base
pub mod HashTable
pub mod Blocking
pub mod Channel
pub mod Semaphore
pub mod Status
pub mod Schedule
pub mod WaitGroup
pub mod PubSub
pub mod Asymmetric
pub mod CoroPool
pub mod Socket
pub mod Schedcall
pub mod Resume
pub mod Epoll
pub mod Signal
pub mod Ssl
