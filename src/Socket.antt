-- ===== src/Socket.antt =====
-- src/dyco_socket.c: the loops around the system calls on sockets. What a system call answers is a
-- parameter, call by call; a loop waits for the descriptor between two calls, and what `waitev`
-- returns is not used. Where the answers are used up the loop is still waiting.
pub mod Sent
pub mod Completion
mod Tests
use dyco_coroutine.Base.{
  ℕ, zero, suc, ◌+◌, ◌^◌, Bool, true, false, not, ◌&&◌, List, [], ◌∷◌, ◌++◌, length, take, drop,
  ltb, ◌==◌, if◌then◌else◌, ℤ, pos, negsuc, minus_one, int_of, count_of,
}

-- On Linux EWOULDBLOCK is EAGAIN.
pub data Errno : Type 0 where
  eagain einprogress econnreset another : Errno

pub record Answer : Type 0 where
  pub ret : ℤ
  pub errno : Errno

-- `int ret = ` the `ssize_t` that the system call returns.
abbrev pub as_int : ℤ → ℤ
as_int (pos n) = int_of n
as_int (negsuc n) = negsuc n

abbrev pub is_positive : ℤ → Bool
is_positive (pos (suc n)) = true
is_positive _ = false

-- How far a sending call got. The bytes are those that the kernel took, in order.
pub data Progress : Type 0 where
  waiting : List ℕ → Progress
  ended : ℤ → List ℕ → List Answer → Progress
  undefined : Progress

-- The end of dyco_send behind its loop.
unfoldable pub finish : ℕ → ℤ → ℤ
finish sent ret = if not (is_positive ret) && (sent == 0) then ret else pos sent

-- What a result that is not positive means: `again` is the next turn of the loop.
unfoldable pub failed_turn : Progress → ℕ → List ℕ → List Answer → ℤ → Errno → Progress
unfolding finish
failed_turn again sent taken rest ret eagain = again
failed_turn again sent taken rest ret econnreset = ended ret taken rest
failed_turn again sent taken rest ret einprogress = ended (finish sent ret) taken rest
failed_turn again sent taken rest ret another = ended (finish sent ret) taken rest

-- The body of the loop behind its call. `sent` is an int, and to pass its largest value is undefined.
unfoldable pub send_turn :
    (ℕ → ℤ → List ℕ → Progress) → List ℕ → ℕ → List ℕ → List Answer → Errno → ℤ → Progress
unfolding failed_turn
send_turn next buf sent taken rest errno (negsuc n) =
    failed_turn (next sent (negsuc n) taken) sent taken rest (negsuc n) errno
send_turn next buf sent taken rest errno (pos zero) =
    failed_turn (next sent (pos 0) taken) sent taken rest (pos 0) errno
send_turn next buf sent taken rest errno (pos (suc n)) =
    if ltb (sent + suc n) (2 ^ 31)
    then next (sent + suc n) (pos (suc n)) (taken ++ take (suc n) (drop sent buf))
    else undefined

-- The loop, with what is sent so far and the last result.
unfoldable pub send_loop : List ℕ → ℕ → ℤ → List ℕ → List Answer → Progress
unfolding finish send_turn
send_loop buf sent ret taken [] =
    if ltb sent (length buf) then waiting taken else ended (finish sent ret) taken []
send_loop buf sent ret taken (a ∷ rest) =
    let next : ℕ → ℤ → List ℕ → Progress = λ s r t. send_loop buf s r t rest in
    if ltb sent (length buf)
    then send_turn next buf sent taken rest a.errno (as_int a.ret)
    else ended (finish sent ret) taken (a ∷ rest)

-- dyco_send. A first call that fails, for whatever reason, goes on to the loop.
unfoldable pub send_first : List ℕ → List Answer → ℤ → Progress
unfolding send_loop
send_first buf rest (negsuc n) = send_loop buf 0 (negsuc n) [] rest
send_first buf rest (pos zero) = ended (pos 0) [] rest
send_first buf rest (pos (suc n)) = send_loop buf (suc n) (pos (suc n)) (take (suc n) buf) rest

unfoldable pub send : List ℕ → List Answer → Progress
unfolding send_first
send buf [] = waiting []
send buf (a ∷ rest) = send_first buf rest (as_int a.ret)

-- dyco_sendto has the same body around `sendto`, as have the hooks `send` and `sendto`.
pub sendto : List ℕ → List Answer → Progress
unfolding send
sendto = send

pub hooked_send : List ℕ → List Answer → Progress
unfolding send
hooked_send = send

pub hooked_sendto : List ℕ → List Answer → Progress
unfolding send
hooked_sendto = send

-- dyco_recv and dyco_recvfrom wait once and pass on what their one call returns.
unfoldable pub recv : Answer → ℤ
recv a = as_int a.ret

pub recvfrom : Answer → ℤ
unfolding recv
recvfrom = recv

pub hooked_recv : Answer → ℤ
unfolding recv
hooked_recv = recv

pub hooked_recvfrom : Answer → ℤ
unfolding recv
hooked_recvfrom = recv

-- What the other calls leave: the result and the descriptors that they closed.
pub data Opened : Type 0 where
  pending : Opened
  opened : ℤ → List ℤ → Opened
  exited : Opened

-- `fcntl` and `setsockopt` on the new descriptor.
pub record Settings : Type 0 where
  pub fcntl : ℤ
  pub setsockopt : ℤ

abbrev pub is_minus_one : ℤ → Bool
is_minus_one (negsuc zero) = true
is_minus_one _ = false

abbrev pub is_zero_int : ℤ → Bool
is_zero_int (pos zero) = true
is_zero_int _ = false

-- dyco_socket. Where `fcntl` fails, it closes the result of `fcntl`.
unfoldable pub socket : ℤ → Settings → Opened
socket fd settings =
    if is_minus_one fd
    then opened minus_one []
    else if is_minus_one settings.fcntl
    then opened minus_one (settings.fcntl ∷ [])
    else if is_zero_int settings.setsockopt
    then opened fd []
    else exited

pub hooked_socket : ℤ → Settings → Opened
unfolding socket
hooked_socket = socket

abbrev pub is_negative : ℤ → Bool
is_negative (pos n) = false
is_negative (negsuc n) = true

abbrev pub is_eagain : Errno → Bool
is_eagain eagain = true
is_eagain _ = false

-- dyco_accept, over the answers of `accept`.
unfoldable pub accept : List Answer → Settings → Opened
accept [] settings = pending
accept (a ∷ rest) settings =
    let again = accept rest settings in
    if is_negative a.ret
    then if is_eagain a.errno then again else opened minus_one []
    else if is_minus_one settings.fcntl
    then opened minus_one (a.ret ∷ [])
    else if is_zero_int settings.setsockopt
    then opened a.ret []
    else exited

pub hooked_accept : List Answer → Settings → Opened
unfolding accept
hooked_accept = accept

abbrev pub is_in_progress : Errno → Bool
is_in_progress eagain = true
is_in_progress einprogress = true
is_in_progress _ = false

-- dyco_connect, over the answers of `connect`.
unfoldable pub connect : List Answer → Opened
connect [] = pending
connect (a ∷ rest) =
    let again = connect rest in
    if is_minus_one a.ret && is_in_progress a.errno then again else opened a.ret []

pub hooked_connect : List Answer → Opened
unfolding connect
hooked_connect = connect
