-- ===== src/Socket/Client.antt =====
-- The TCP client of src/protocol_socket.c (lines 195 to 299). The answer of getsockopt is the
-- pending error of the socket, `optval`.
use a_test.Base.{ℕ, Bool, true, false, List, [], ◌∷◌, ◌==◌, if◌then◌else◌, ◌||◌}
use a_test.System.{
  Answer, value, bytes, error, getsockopt, write, read, Prog, pure, call, ◌>>=◌, ◌>>◌, broken,
}
use a_test.Socket.{tcpconnect, sock_buf_len}

abbrev pub ealready : ℕ
ealready = 114

abbrev pub einprogress : ℕ
einprogress = 115

-- What getsockopt reports: the call failed, no error, a connection under way, or another error.
pub data Status : Type 0 where
  unknown fine pending lost : Status

abbrev pub status_of : Answer → Status
status_of (error e) = unknown
status_of (bytes bs) = fine
status_of (value optval) =
    if optval == 0
    then fine
    else if optval == ealready || optval == einprogress
    then pending
    else lost

-- What follows the call of getsockopt: `k` on a socket without error.
abbrev pub on_fine {ℓ} : {A : Type ℓ} → Status → ℕ → ℕ → A → Prog A → Prog A
on_fine fine localfd serversin a k = k
on_fine pending localfd serversin a k = pure a
on_fine lost localfd serversin a k = tcpconnect localfd serversin >> pure a
on_fine unknown localfd serversin a k = tcpconnect localfd serversin >> pure a

abbrev pub reconnect_if : Bool → ℕ → ℕ → Prog (Unit {0})
reconnect_if true localfd serversin = tcpconnect localfd serversin >> pure tt
reconnect_if false localfd serversin = pure tt

-- if (sendLen > 0) { if (write(...) < 0 && ...) tcpconnect(...); }
unfoldable pub client_write : ℕ → ℕ → List ℕ → Prog (Unit {0})
client_write localfd serversin [] = pure tt
client_write localfd serversin (b ∷ bs) = do
  w ← call (write localfd (b ∷ bs))
  reconnect_if (broken w) localfd serversin

-- The read, whose result is returned; the initial `rLen` is 0.
unfoldable pub client_read : ℕ → ℕ → Prog Answer
client_read localfd serversin = do
  r ← call (read localfd sock_buf_len)
  reconnect_if (broken r) localfd serversin
  pure r

unfoldable pub rw_tcpclient : ℕ → ℕ → List ℕ → Prog Answer
rw_tcpclient localfd serversin send_buf = do
  s ← call (getsockopt localfd)
  on_fine (status_of s) localfd serversin (value 0)
      (do client_write localfd serversin send_buf; client_read localfd serversin)

unfoldable pub recv_tcpclient : ℕ → ℕ → Prog Answer
recv_tcpclient localfd serversin = do
  s ← call (getsockopt localfd)
  on_fine (status_of s) localfd serversin (value 0) (client_read localfd serversin)

unfoldable pub send_tcpclient : ℕ → ℕ → List ℕ → Prog (Unit {0})
send_tcpclient localfd serversin send_buf = do
  s ← call (getsockopt localfd)
  on_fine (status_of s) localfd serversin tt (client_write localfd serversin send_buf)
