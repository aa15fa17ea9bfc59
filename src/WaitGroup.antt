-- ===== src/WaitGroup.antt =====
-- src/dyco_waitgroup.c: counting the coroutines of a group that are done, and waiting for a number
-- of them. A list of subscribers is the list of their descriptors. `none` is an access through NULL,
-- an exit, or a run that the hash table leaves undefined. The counters are ints as their 32-bit patterns,
-- whose order is that of the ints below 2^31. With a NULL group every call gives -1.
pub mod Width
pub mod Members
pub mod Subscribers
mod Tests
use dyco_coroutine.Base.{
  ℕ, zero, suc, ◌+◌, ◌/◌, ◌^◌, Bool, true, false, not, Option, none, some, List, [], ◌∷◌, ◌++◌, map,
  ltb, leb, ◌==◌, if◌then◌else◌, ◌>>=◌, ℤ, pos, negsuc, minus_one, int_of,
}
use dyco_coroutine.HashTable.{
  Table, default_width, max_width, init, delete, find, contains, clear, clear_with_freecb, inc_int,
}
use dyco_coroutine.HashTable.Growth.{Alloc, insert}
use dyco_coroutine.Blocking.{Caller, outside, coroutine, is_zero, Notice}

pub record WaitGroup : Type 0 where
  pub tot_size : ℕ
  pub finished : ℕ
  pub cid_set : Table ℕ
  pub target_sublist_map : Table (List ℕ)
  pub final_sublist : List ℕ

-- `while ((suggest_size >> width) != 0) ++width;`
pub widen : ℕ → ℕ → ℕ → Option ℕ
widen zero size width = if size / 2 ^ width == 0 then some width else none
widen (suc n) size width = elim (size / 2 ^ width == 0) [
  | true ↦ some width
  | false ↦ widen n size (suc width)
]

pub width_for : ℤ → Option ℕ
unfolding widen
width_for (negsuc n) = some default_width
width_for (pos zero) = some default_width
width_for (pos (suc n)) = if ltb 65536 (suc n) then some max_width else widen 32 (suc n) 1

-- Without memory the call gives NULL.
pub create : Bool → ℤ → Option (Option WaitGroup)
unfolding width_for
create false suggest_size = some none
create true suggest_size = width_for suggest_size >>= λ width. some (
    some (record {
      tot_size = 0;
      finished = 0;
      cid_set = init (pos width);
      target_sublist_map = init (pos width);
      final_sublist = [];
    }))

pub close_all : List (Option (List ℕ)) → List ℕ
close_all [] = []
close_all (none ∷ ls) = close_all ls
close_all (some l ∷ ls) = l ++ close_all ls

-- The descriptors that are closed, in order.
pub destroy : Option WaitGroup → List ℕ
unfolding close_all
destroy none = []
destroy (some wg) = wg.final_sublist ++ close_all (clear_with_freecb wg.target_sublist_map).1

pub add : Alloc → Option WaitGroup → ℕ → Option (Option WaitGroup × ℤ)
add alloc none cid = some (none, minus_one)
add alloc (some wg) cid = insert alloc wg.cid_set cid none >>= λ r. elim r.1 [
  | pos (suc zero) ↦
      some (some (record wg { cid_set = r.0; tot_size = inc_int wg.tot_size }), pos 1)
  | _ ↦ some (some (record wg { cid_set = r.0 }), pos 0)
]

abbrev pub told : ℕ → List ℕ → List Notice
told finished fds = map (λ fd. record { fd = fd; value = finished }) fds

-- wg_notify for each descriptor of a list; a write that fails exits.
pub notify : (ℕ → Bool) → ℕ → List ℕ → Option (List Notice)
notify writes finished [] = some []
notify writes finished (fd ∷ fds) =
    let rest = notify writes finished fds in
    if writes fd then (rest >>= λ ws. some (record { fd = fd; value = finished } ∷ ws)) else none

pub subscribers : Option (List ℕ) → List ℕ
subscribers none = []
subscribers (some fds) = fds

-- What a call of `done` writes: to those that wait for the number, and to those that wait for all.
pub done_notices : (ℕ → Bool) → WaitGroup → Option (List Notice)
unfolding notify subscribers
done_notices writes wg = find wg.target_sublist_map wg.finished >>= λ targets.
    notify writes wg.finished (subscribers targets) >>= λ early.
    (if wg.finished == wg.tot_size then notify writes wg.finished wg.final_sublist else some [])
    >>= λ ws. some (early ++ ws)

-- `cid` is that of the calling coroutine, none outside of one.
pub done : (ℕ → Bool) → WaitGroup → Option ℕ → Option (WaitGroup × ℤ × List Notice)
unfolding done_notices
done writes wg none = some (wg, minus_one, [])
done writes wg (some cid) = contains wg.cid_set cid >>= λ member.
    let wg' = record wg { finished = inc_int wg.finished } in
    if member
    then (done_notices writes wg' >>= λ ws. some (wg', pos 1, ws))
    else some (wg, pos 0, [])

-- A new subscriber stands behind the head.
pub join : ℕ → List ℕ → List ℕ
join fd [] = fd ∷ []
join fd (x ∷ xs) = x ∷ fd ∷ xs

-- `none`: the list is NULL, and its head is read.
pub leave_tail : ℕ → List ℕ → List ℕ
leave_tail fd [] = []
leave_tail fd (x ∷ xs) = if x == fd then xs else x ∷ leave_tail fd xs

pub leave : ℕ → List ℕ → Option (List ℕ)
unfolding leave_tail
leave fd [] = none
leave fd (x ∷ xs) = if x == fd then some xs else some (x ∷ leave_tail fd xs)

pub data Outcome : Type 0 where
  returned : WaitGroup → ℤ → Outcome
  waits : WaitGroup → ℕ → Outcome

-- `fd` is the new eventfd, without which the process exits; `memory` whether the node is allocated.
pub wait_all : Alloc → WaitGroup → ℕ → Bool → Option Outcome
unfolding join
wait_all alloc wg fd memory =
    if wg.finished == wg.tot_size
    then some (returned wg (int_of wg.finished))
    else if not memory
    then some (returned wg minus_one)
    else some (waits (record wg { final_sublist = join fd wg.final_sublist }) fd)

-- What `htable_insert` returns is not looked at.
pub wait_target : Alloc → WaitGroup → ℕ → ℕ → Bool → Option Outcome
unfolding subscribers
wait_target alloc wg target fd memory =
    if leb target wg.finished
    then some (returned wg (int_of target))
    else if not memory
    then some (returned wg minus_one)
    else (find wg.target_sublist_map target >>= λ l.
        insert alloc wg.target_sublist_map target (some (fd ∷ subscribers l)) >>= λ r.
        some (waits (record wg { target_sublist_map = r.0 }) fd))

pub wait_in : Alloc → WaitGroup → ℤ → ℕ → Bool → Option Outcome
unfolding wait_all wait_target
wait_in alloc wg (negsuc n) fd memory = wait_all alloc wg fd memory
wait_in alloc wg (pos zero) fd memory = wait_all alloc wg fd memory
wait_in alloc wg (pos (suc n)) fd memory = wait_target alloc wg (suc n) fd memory

pub wait : Alloc → WaitGroup → ℤ → ℤ → Caller → ℕ → Bool → Option Outcome
unfolding wait_in
wait alloc wg target timeout outside fd memory =
    if is_zero timeout
    then some (returned wg (int_of wg.finished))
    else some (returned wg minus_one)
wait alloc wg target timeout (coroutine asymmetric) fd memory =
    if is_zero timeout
    then some (returned wg (int_of wg.finished))
    else wait_in alloc wg target fd memory

pub leave_target : Alloc → WaitGroup → ℕ → ℕ → List ℕ → Option WaitGroup
unfolding leave
leave_target alloc wg target fd fds = leave fd fds >>= λ rest. elim rest [
  | [] ↦ delete wg.target_sublist_map target >>= λ r. some (record wg { target_sublist_map = r.0 })
  | x ∷ xs ↦ insert alloc wg.target_sublist_map target (some (x ∷ xs)) >>= λ r.
      some (record wg { target_sublist_map = r.0 })
]

-- What the wait gives: the number that was read from the descriptor, -1 if nothing was.
pub read_count : Option ℕ → ℤ
read_count none = minus_one
read_count (some count) = int_of count

-- Behind the yield, where `read` is what the descriptor gives.
pub woken : Alloc → WaitGroup → ℤ → ℕ → Option ℕ → Option (WaitGroup × ℤ)
unfolding leave leave_target read_count
woken alloc wg (pos (suc n)) fd read = find wg.target_sublist_map (suc n) >>= λ l.
    l >>= λ fds. leave_target alloc wg (suc n) fd fds >>= λ wg'. some (wg', read_count read)
woken alloc wg (pos zero) fd read =
    leave fd wg.final_sublist >>= λ fds. some (record wg { final_sublist = fds }, read_count read)
woken alloc wg (negsuc n) fd read =
    leave fd wg.final_sublist >>= λ fds. some (record wg { final_sublist = fds }, read_count read)
