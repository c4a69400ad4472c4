-- ===== src/Tcp/Tests.antt =====
-- The TCP server of src/protocol_socket.c with two connections.
use a_test.Base.{false, ℕ, ◌≡◌, refl, Bool, true, [], ◌∷◌, none, some, ◌==◌, ◌||◌, replicate}
use a_test.Tcp.{
  Crol, Answers, nothing, bytes, wrote, printed, rw_conn, for_conns, send_conn, recv_conn,
  accept_tcp_connet, add_conn, rw_tcpserver,
}

abbrev watched : ℕ → Bool
watched fd = fd == 5 || fd == 6

abbrev two_conns : Crol
two_conns = record {
  connfd_alivenum = 2;
  max_fd = 6;
  read_set = watched;
  write_set = watched;
  sockfd = 3;
  connfd_alive = 5 ∷ 6 ∷ replicate 14 0;
}

-- A connection is accepted, both others are ready, and the write to the first one fails.
abbrev answers : Answers
answers = record {
  accepted = some 7;
  accepted_again = none;
  selected = true;
  ready_read = λ fd. true;
  ready_write = λ fd. true;
  some_data = true;
  write_fails = λ fd. fd == 5;
  reads = λ fd. nothing;
}

abbrev free_places : ℕ
free_places = 14

-- The same with no failure, and with a byte from every connection.
abbrev quiet_answers : Answers
quiet_answers = record answers { write_fails = λ fd. false; reads = λ fd. bytes (fd ∷ []) }

-- All three connections are served.
serves_all :
    (rw_tcpserver quiet_answers two_conns).1
    ≡ wrote 5 ∷ printed (5 ∷ []) ∷ wrote 6 ∷ printed (6 ∷ []) ∷ wrote 7 ∷ printed (7 ∷ []) ∷ []
unfolding rw_tcpserver for_conns rw_conn send_conn recv_conn accept_tcp_connet add_conn
serves_all = refl
