-- ===== src/Socket/Setup.antt =====
-- The descriptors that the set-up functions of src/protocol_socket.c leave open.
use a_test.Base.{ℕ, ◌≡◌, Option, none, some, ◌∷◌, arith}
use a_test.System.{Trace, Os, live, Phase, unbound, bound, listening, phase}
use a_test.Socket.{init_udp, init_udpmulti, init_tcpserver, init_tcpclient}

-- INVALID leaves the open descriptors as they were, and a descriptor is one more, in the phase `p`.
abbrev pub Opens : Phase → Trace → Option ℕ × Trace → Type 0
Opens p h (none, h') = live h' ≡ live h
Opens p h (some fd, h') = (live h' ≡ fd ∷ live h) × (phase fd h' ≡ p)

init_udp-Opens : (port : ℕ) (os : Os) (h : Trace) → Opens bound h (init_udp port os h)
unfolding init_udp
init_udp-Opens port os h = ground arith

init_udpmulti-Opens : (port : ℕ) (os : Os) (h : Trace) → Opens bound h (init_udpmulti port os h)
unfolding init_udpmulti
init_udpmulti-Opens port os h = ground arith

init_tcpserver-Opens :
    (port : ℕ) (os : Os) (h : Trace) → Opens listening h (init_tcpserver port os h)
unfolding init_tcpserver
init_tcpserver-Opens port os h = ground arith

init_tcpclient-Opens : (port : ℕ) (os : Os) (h : Trace) → Opens unbound h (init_tcpclient port os h)
unfolding init_tcpclient
init_tcpclient-Opens port os h = ground arith

-- Whatever the system answers: where one of the four set-up functions returns INVALID, every
-- socket that it opened is closed again and no other is; where it returns a socket, that one is
-- open in addition, bound for init_udp and init_udpmulti, listening for init_tcpserver, and not
-- bound for init_tcpclient.
pub init-Opens :
    (port : ℕ) (os : Os) (h : Trace)
    → Opens bound h (init_udp port os h)
      × Opens bound h (init_udpmulti port os h)
      × Opens listening h (init_tcpserver port os h)
      × Opens unbound h (init_tcpclient port os h)
init-Opens port os h = (
  init_udp-Opens port os h,
  init_udpmulti-Opens port os h,
  init_tcpserver-Opens port os h,
  init_tcpclient-Opens port os h,
)
