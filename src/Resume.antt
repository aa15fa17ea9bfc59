-- ===== src/Resume.antt =====
-- src/dyco_coroutine.c: `resume`, with the end of a coroutine. What a coroutine does from one switch
-- to the next is an argument.
pub mod Stop
pub mod Ends
pub mod Killed
pub mod Plain
pub mod Finish
mod Tests
use dyco_coroutine.Base.{
  ℕ, Bool, false, Option, none, some, List, [], ◌∷◌, get_elem?, set, ◌==◌, if◌then◌else◌, ◌>>=◌, ℤ,
  pos, minus_one,
}
use dyco_coroutine.HashTable.{
  drop_head, Bucket, Entry, no_id, slot, dec_int, contains_chain, find_chain, erase_chain,
}
use dyco_coroutine.Status.{exited, running, schedcall, killed, incoropool, setbit, clrbit, testbit}
use dyco_coroutine.Schedule.Tree.{SleepTree}
use dyco_coroutine.Schedule.{has_flag, set_flag, clear_flag, cancel_sleep}
use dyco_coroutine.Schedule.Lifecycle.{free_coroutine}
use dyco_coroutine.Schedule.Run.{switch_in}
use dyco_coroutine.Schedcall.{
  World, Outside, with_sched, with_cids, return_to_pool, coro_abort, callexec,
}

abbrev pub starts_with : ℕ → List (Entry ℕ) → Bool
starts_with id [] = false
starts_with id (e ∷ es) = e.id == id

module _ {T : Type 0} where
  -- dyco_coroutine_abort up to its switch.
  unfoldable pub kill_out : World T → Option (World T)
  unfolding setbit clrbit
  kill_out w = w.sched.curr_thread >>= λ co.
      some (with_sched w (clear_flag (set_flag w.sched co killed) co running))

  abbrev pub drop_count : World T → World T
  drop_count w =
      with_cids w (record w.sched.cid_co_map { count = dec_int w.sched.cid_co_map.count })

  -- The callback where the pointer is not NULL.
  unfoldable pub kill_value : Outside → World T → Option ℕ → Option (World T)
  unfolding coro_abort
  kill_value outside w none = some w
  kill_value outside w (some co) = coro_abort outside w co

  -- The first branch of htable_delete_with_freecb, for the head of a bucket. The pointer to the next
  -- entry is read before the callback, which may delete entries of the bucket. Behind it the bucket is
  -- read again: where that next entry is still the first of the chain it takes the place of the head,
  -- and else its memory has been freed.
  unfoldable pub kill_head : Outside → World T → ℕ → Bucket ℕ → Option (World T)
  unfolding kill_value drop_head
  kill_head outside w i b = kill_value outside w b.value >>= λ w'.
      let t = w'.sched.cid_co_map in
      get_elem? t.buckets i >>= λ b'. elim b.next [
        | [] ↦ some (
            drop_count (
              with_cids w'
                (record t { buckets = set t.buckets i (record b' { id = no_id; value = none }) })))
        | e ∷ es ↦
            if starts_with e.id b'.next
            then some (
                drop_count
                  (with_cids w' (record t { buckets = set t.buckets i (drop_head b' b'.next) })))
            else none
      ]

  -- The second branch, for an entry of the chain, which is unlinked before the callback.
  unfoldable pub kill_chained : Outside → World T → ℕ → ℕ → Bucket ℕ → Option (World T)
  unfolding kill_value contains_chain find_chain erase_chain
  kill_chained outside w i id b =
      if contains_chain id b.next
      then (let t = w.sched.cid_co_map in
          kill_value outside
            (with_cids w
              (record t { buckets = set t.buckets i (record b { next = erase_chain id b.next }) }))
            (find_chain id b.next)
          >>= λ w'. some (drop_count w'))
      else some w

  -- htable_delete_with_freecb on the table of the ids, with coro_abort.
  unfoldable pub kill : Outside → World T → ℕ → Option (World T)
  unfolding kill_head kill_chained
  kill outside w id =
      let i = slot w.sched.cid_co_map id in
      get_elem? w.sched.cid_co_map.buckets i >>= λ b.
      if b.id == no_id
      then some w
      else if b.id == id
      then kill_head outside w i b
      else kill_chained outside w i id b

  module _ (tree : SleepTree T) where
    -- The end of `resume`, behind its last switch.
    unfoldable pub settle : Outside → World T → ℕ → Option (World T × ℤ)
    unfolding kill return_to_pool free_coroutine cancel_sleep testbit
    settle outside w co =
        let s = record w.sched { curr_thread = none } in
        if has_flag s co killed
        then (cancel_sleep tree s co >>= λ s'.
            kill outside (with_sched w s') (s'.coroutines co).cid >>= λ w'. some (w', minus_one))
        else if has_flag s co exited
        then (cancel_sleep tree s co >>= λ s'.
            (if has_flag s' co incoropool
              then return_to_pool outside (with_sched w s') co
              else (free_coroutine outside.kernel s' (some co) >>= λ s''. some (with_sched w s'')))
            >>= λ w'. some (w', minus_one))
        else some (with_sched w s, pos 0)

    -- The switches of one resume, each with what the outside answers behind it.
    unfoldable pub switches :
        List ((World T → Option (World T)) × Outside) → World T → ℕ → Option (World T × ℤ)
    unfolding callexec settle testbit
    switches [] w co = none
    switches ((turn, outside) ∷ rest) w co = turn w >>= λ w'.
        let go_on = λ (w'' : World T). switches rest w'' co in
        if has_flag w'.sched co schedcall
        then (callexec outside w' >>= λ r. if r.1 then go_on r.0 else some (r.0, pos 1))
        else settle outside w' co

    -- resume.
    pub resume : List ((World T → Option (World T)) × Outside) → World T → ℕ → Option (World T × ℤ)
    unfolding switch_in switches
    resume turns w co = switches turns (with_sched w (switch_in w.sched co)) co
