-- ===== src/Socket.antt =====
-- The set-up of sockets in src/protocol_socket.c (lines 8 to 193) and the sending and receiving of
-- single datagrams. The messages to the console are left out. The addresses that the code fixes
-- are named by numbers; SOCK_DGRAM is 2 and SOCK_STREAM is 1.
pub mod Setup
pub mod Client
pub mod Reconnect
pub mod Frame
mod Tests
use a_test.Base.{ℕ, zero, suc, Bool, List, [], ◌∷◌, Option, none, some, if◌then◌else◌}
use a_test.System.{
  Answer, value, bytes, error, Call, socket, bind, listen, connect, set_nonblock, setsockopt,
  recvfrom, sendto, close, Prog, pure, call, ◌>>=◌, ◌>>◌, failed, fd_of,
}

abbrev pub sock_dgram : ℕ
sock_dgram = 2

abbrev pub sock_stream : ℕ
sock_stream = 1

-- SO_REUSEADDR is 2 and SO_BROADCAST is 6, and so is `SO_BROADCAST | SO_REUSEADDR`.
abbrev pub so_reuseaddr : ℕ
so_reuseaddr = 2

abbrev pub so_broadcast_or_reuseaddr : ℕ
so_broadcast_or_reuseaddr = 6

abbrev pub ip_multicast_loop : ℕ
ip_multicast_loop = 34

abbrev pub ip_add_membership : ℕ
ip_add_membership = 35

-- 192.168.10.43
abbrev pub server_address : ℕ
server_address = 0xC0A80A2B

abbrev pub sock_buf_len : ℕ
sock_buf_len = 10240

-- `if (sockfd == INVALID) return INVALID`
abbrev pub on_socket : Option ℕ → (ℕ → Prog (Option ℕ)) → Prog (Option ℕ)
on_socket none k = pure none
on_socket (some sockfd) k = k sockfd

-- The answer that makes the function close its socket and return INVALID.
abbrev pub or_close : Answer → ℕ → Prog (Option ℕ) → Prog (Option ℕ)
or_close (error e) sockfd k = call (close sockfd) >> pure none
or_close (value n) sockfd k = k
or_close (bytes bs) sockfd k = k

-- The same with the test `!= 0`.
abbrev pub or_close_nonzero : Answer → ℕ → Prog (Option ℕ) → Prog (Option ℕ)
or_close_nonzero (value zero) sockfd k = k
or_close_nonzero (value (suc n)) sockfd k = call (close sockfd) >> pure none
or_close_nonzero (bytes []) sockfd k = k
or_close_nonzero (bytes (b ∷ bs)) sockfd k = call (close sockfd) >> pure none
or_close_nonzero (error e) sockfd k = call (close sockfd) >> pure none

unfoldable pub init_udp : ℕ → Prog (Option ℕ)
init_udp port = do
  s ← call (socket sock_dgram)
  on_socket (fd_of s) (λ sockfd. do
    call (setsockopt sockfd so_broadcast_or_reuseaddr)
    b ← call (bind sockfd port)
    or_close b sockfd (pure (some sockfd)))

unfoldable pub recv_udp_or_udpmulti : ℕ → Prog Answer
recv_udp_or_udpmulti localfd = call (recvfrom localfd sock_buf_len)

unfoldable pub send_udp_or_udpmulti : ℕ → List ℕ → ℕ → Prog Answer
send_udp_or_udpmulti localfd buf remote = call (sendto localfd buf remote)

unfoldable pub init_udpmulti : ℕ → Prog (Option ℕ)
init_udpmulti port = do
  s ← call (socket sock_dgram)
  on_socket (fd_of s) (λ sockfd. do
    b ← call (bind sockfd port)
    or_close b sockfd (do
      call (setsockopt sockfd ip_multicast_loop)
      m ← call (setsockopt sockfd ip_add_membership)
      or_close m sockfd (pure (some sockfd))))

unfoldable pub init_tcpserver : ℕ → Prog (Option ℕ)
init_tcpserver port = do
  s ← call (socket sock_stream)
  on_socket (fd_of s) (λ sockfd. do
    call (set_nonblock sockfd)
    call (setsockopt sockfd so_reuseaddr)
    b ← call (bind sockfd port)
    or_close_nonzero b sockfd
        (do l ← call (listen sockfd 5); or_close_nonzero l sockfd (pure (some sockfd))))

-- The result of connect is not used.
unfoldable pub init_tcpclient : ℕ → Prog (Option ℕ)
init_tcpclient port = do
  s ← call (socket sock_stream)
  on_socket (fd_of s) (λ sockfd. do
    call (set_nonblock sockfd)
    call (setsockopt sockfd so_reuseaddr)
    call (connect sockfd server_address)
    pure (some sockfd))

-- It returns INVALID whatever connect answers.
unfoldable pub tcpconnect : ℕ → ℕ → Prog (Option ℕ)
tcpconnect localfd serversin = do call (connect localfd serversin); pure none
