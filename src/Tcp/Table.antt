-- ===== src/Tcp/Table.antt =====
-- The table of connections of the TCP server of src/protocol_socket.c.
use a_test.Base.{ℕ, ◌≤◌, ◌≡◌, true, length}
use a_test.Tcp.{uart_tcp_client_max, Crol}

-- The table has its sixteen places, counts at most that many, and watches no connection above
-- `max_fd`.
pub record IsTable (c : Crol) : Type 0 where
  pub places : length c.connfd_alive ≡ uart_tcp_client_max
  pub bounded : c.connfd_alivenum ≤ uart_tcp_client_max
  pub read_bounded : (fd : ℕ) → c.read_set fd ≡ true → fd ≤ c.max_fd
  pub write_bounded : (fd : ℕ) → c.write_set fd ≡ true → fd ≤ c.max_fd
