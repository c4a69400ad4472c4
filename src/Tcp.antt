-- ===== src/Tcp.antt =====
-- The TCP server of src/protocol_socket.c (lines 305 to 532): its table of connections and the three
-- functions that serve them. What accept, select, write and read return is an argument. The
-- connections that select left in its sets are those that were in the copied set and are ready.
pub mod Table
pub mod Accept
pub mod Round
pub mod Serve
mod Tests
use a_test.Base.{
  ℕ, zero, suc, ◌+◌, ◌-◌, ◌≤◌, ◌<◌, Bool, true, false, List, [], ◌∷◌, ◌++◌, Option, none, some,
  ◌==◌, ltb, leb, ◌&&◌, if◌then◌else◌, get_or, set,
}

abbrev pub uart_tcp_client_max : ℕ
uart_tcp_client_max = 16

abbrev pub FdSet : Type 0
FdSet = ℕ → Bool

abbrev pub fd_set : ℕ → FdSet → FdSet
fd_set fd s i = if i == fd then true else s i

abbrev pub fd_clr : ℕ → FdSet → FdSet
fd_clr fd s i = if i == fd then false else s i

-- select_read_set and select_write_set are copies within each call.
pub record Crol : Type 0 where
  pub connfd_alivenum : ℕ
  pub max_fd : ℕ
  pub read_set : FdSet
  pub write_set : FdSet
  pub sockfd : ℕ
  pub connfd_alive : List ℕ

abbrev pub has_free : List ℕ → Bool
has_free [] = false
has_free (fd ∷ fds) = let rest = has_free fds in if fd == 0 then true else rest

unfoldable pub add_conn : ℕ → Crol → Crol
add_conn connfd c = record c {
  connfd_alive = set c.connfd_alive c.connfd_alivenum connfd;
  connfd_alivenum = c.connfd_alivenum + 1;
  read_set = fd_set connfd c.read_set;
  write_set = fd_set connfd c.write_set;
  max_fd = if ltb c.max_fd connfd then connfd else c.max_fd;
}

-- `none` is a negative result of accept.
unfoldable pub accept_tcp_connet : Option ℕ → Crol → Crol
accept_tcp_connet none c = c
accept_tcp_connet (some connfd) c =
    if leb uart_tcp_client_max c.connfd_alivenum
    then c
    else if has_free c.connfd_alive
    then add_conn connfd c
    else c

unfoldable pub close_conn : ℕ → ℕ → Crol → Crol
close_conn i connfd c = record c {
  connfd_alive = set c.connfd_alive i 0;
  connfd_alivenum = c.connfd_alivenum - 1;
  read_set = fd_clr connfd c.read_set;
  write_set = fd_clr connfd c.write_set;
}

-- What read returned: bytes, 0 or an error that is passed over, or another error.
pub data Received : Type 0 where
  bytes : List ℕ → Received
  nothing broken : Received

pub data Event : Type 0 where
  wrote closed : ℕ → Event
  printed : List ℕ → Event

-- What the system answers in one call: both accepts, select, and each connection's write and read.
-- `some_data` is sendLen > 0.
pub record Answers : Type 0 where
  pub accepted : Option ℕ
  pub accepted_again : Option ℕ
  pub selected : Bool
  pub ready_read : FdSet
  pub ready_write : FdSet
  pub some_data : Bool
  pub write_fails : ℕ → Bool
  pub reads : ℕ → Received

-- What follows the read of connection `i`.
abbrev pub take_in : Received → ℕ → ℕ → Crol → Crol × List Event
take_in (bytes bs) i connfd c = (c, printed bs ∷ [])
take_in nothing i connfd c = (c, [])
take_in broken i connfd c = (close_conn i connfd c, closed connfd ∷ [])

-- `select_read_set` is the set that select left.
unfoldable pub recv_conn : Answers → FdSet → ℕ → Crol → Crol × List Event
recv_conn w select_read_set i c =
    let connfd = get_or c.connfd_alive i 0 in
    if select_read_set connfd then take_in (w.reads connfd) i connfd c else (c, [])

unfoldable pub send_conn : Answers → FdSet → ℕ → Crol → Crol × List Event
send_conn w select_write_set i c =
    let connfd = get_or c.connfd_alive i 0 in
    if select_write_set connfd && w.some_data
    then if w.write_fails connfd
      then (close_conn i connfd c, closed connfd ∷ [])
      else (c, wrote connfd ∷ [])
    else (c, [])

-- A failed write ends the round with `continue`.
unfoldable pub rw_conn : Answers → FdSet → FdSet → ℕ → Crol → Crol × List Event
rw_conn w select_read_set select_write_set i c =
    let connfd = get_or c.connfd_alive i 0 in
    let sent = send_conn w select_write_set i c in
    let received = recv_conn w select_read_set i c in
    if select_write_set connfd && w.some_data && w.write_fails connfd
    then sent
    else (received.0, sent.1 ++ received.1)

-- for (i = 0; i < connMax; i++), with `n` rounds left
unfoldable pub for_conns : (ℕ → Crol → Crol × List Event) → ℕ → ℕ → Crol → Crol × List Event
for_conns body zero i c = (c, [])
for_conns body (suc n) i c =
    let r = body i c in let rest = for_conns body n (suc i) r.0 in (rest.0, r.1 ++ rest.1)

abbrev pub left_in : FdSet → FdSet → FdSet
left_in ready s fd = ready fd && s fd

unfoldable pub send_tcpserver : Answers → Crol → Crol × List Event
send_tcpserver w crol =
    let c = accept_tcp_connet w.accepted crol in
    let select_write_set = left_in w.ready_write c.write_set in
    if w.selected then for_conns (send_conn w select_write_set) c.connfd_alivenum 0 c else (c, [])

-- accept again where the listening socket is ready
abbrev pub accept_ready : Answers → FdSet → Crol → Crol
accept_ready w select_read_set c =
    if select_read_set c.sockfd then accept_tcp_connet w.accepted_again c else c

unfoldable pub recv_tcpserver : Answers → Crol → Crol × List Event
recv_tcpserver w crol =
    let c = accept_tcp_connet w.accepted crol in
    let select_read_set = left_in w.ready_read c.read_set in
    if w.selected
    then for_conns (recv_conn w select_read_set) c.connfd_alivenum 0
        (accept_ready w select_read_set c)
    else (c, [])

unfoldable pub rw_tcpserver : Answers → Crol → Crol × List Event
rw_tcpserver w crol =
    let c = accept_tcp_connet w.accepted crol in
    let select_read_set = left_in w.ready_read c.read_set in
    let select_write_set = left_in w.ready_write c.write_set in
    if w.selected
    then for_conns (rw_conn w select_read_set select_write_set) c.connfd_alivenum 0
        (accept_ready w select_read_set c)
    else (c, [])
