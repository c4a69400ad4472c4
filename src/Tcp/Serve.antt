-- ===== src/Tcp/Serve.antt =====
-- A round of the TCP server of src/protocol_socket.c in which no connection breaks.
use a_test.Base.{
  ℕ, ◌-◌, Bool, true, false, List, [], ◌∷◌, ◌++◌, Option, none, some, leb, if◌then◌else◌, length,
}
use a_test.Tcp.{uart_tcp_client_max, FdSet, Crol, accept_tcp_connet, Answers, left_in, accept_ready}
use a_test.Tcp.Accept.{IsCompact}

-- The connections after an accept.
abbrev pub joined : Option ℕ → List ℕ → List ℕ
joined none conns = conns
joined (some fd) conns = if leb uart_tcp_client_max (length conns) then conns else conns ++ fd ∷ []

-- The table whose first places have these connections.
abbrev pub Holds : List ℕ → Crol → Type 0
Holds conns c = IsCompact conns (uart_tcp_client_max - length conns) c

-- The connections after the second accept, where the listening socket is ready.
abbrev pub joined_again : Answers → Bool → List ℕ → List ℕ
joined_again w true conns = joined w.accepted_again conns
joined_again w false conns = conns

abbrev pub accepted_first : Answers → Crol → Crol
accepted_first w crol = accept_tcp_connet w.accepted crol

-- What select left of the sets.
abbrev pub readable : Answers → Crol → FdSet
readable w crol = left_in w.ready_read (accepted_first w crol).read_set

abbrev pub writable : Answers → Crol → FdSet
writable w crol = left_in w.ready_write (accepted_first w crol).write_set

abbrev pub accepted_both : Answers → Crol → Crol
accepted_both w crol = accept_ready w (readable w crol) (accepted_first w crol)

abbrev pub joined_both : Answers → Crol → List ℕ → List ℕ
joined_both w crol conns =
    joined_again w (readable w crol (accepted_first w crol).sockfd) (joined w.accepted conns)
