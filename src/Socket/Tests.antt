-- ===== src/Socket/Tests.antt =====
-- The socket functions of src/protocol_socket.c against a concrete system.
use a_test.Base.{List, ℕ, ◌≡◌, refl, [], ◌∷◌, Option, none}
use a_test.System.{
  value, error, socket, bind, setsockopt, getsockopt, write, close, Trace, Os, bound, listening,
  unbound,
}
use a_test.Socket.{init_udp, init_udpmulti, init_tcpserver, init_tcpclient}
use a_test.Memory.{Object, Run, ok, ◌>>=◌, read, store, put}
use a_test.Socket.Frame.{generate_msg, init_dst_addr}
use a_test.Socket.Setup.{Opens, init-Opens}

-- Sockets have the number 3, and bind fails.
abbrev in_use : Os
in_use h (socket k) = value 3
in_use h (bind fd port) = error 98
in_use h _ = value 0

abbrev udp_result : Option ℕ × Trace
udp_result = (
  none,
  (close 3, value 0)
      ∷ (bind 3 20000, error 98)
      ∷ (setsockopt 3 6, value 0)
      ∷ (socket 2, value 3)
      ∷ [],
)

init_udp-in_use : init_udp 20000 in_use [] ≡ udp_result
unfolding init_udp
init_udp-in_use = refl

init-Opens_example :
    Opens bound [] (init_udp 20000 in_use [])
    × Opens bound [] (init_udpmulti 20000 in_use [])
    × Opens listening [] (init_tcpserver 20000 in_use [])
    × Opens unbound [] (init_tcpclient 20000 in_use [])
init-Opens_example = init-Opens 20000 in_use []

-- The socket is without error, and a write is refused with EPIPE.
abbrev reset_peer : Os
reset_peer h (getsockopt fd) = value 0
reset_peer h (write fd bs) = error 32
reset_peer h _ = error 11

abbrev blank : Object
blank = record { size = 24; byte = λ i. 7 }

abbrev sent : Run (List ℕ)
sent = generate_msg blank >>= λ r. ok (read r.0.byte 0 r.1)

abbrev message : Run (List ℕ)
message = ok (
    0xF0 ∷ 0x0F ∷ 10 ∷ 10 ∷ 10 ∷ 10 ∷ 10 ∷ 10 ∷ 10 ∷ 10 ∷ 10 ∷ 10 ∷ 10 ∷ 10 ∷ 10 ∷ 10 ∷ 10 ∷ 7
    ∷ 0x0E ∷ 0xE0 ∷ [])

sent-message : sent ≡ message
unfolding generate_msg store put read
sent-message = refl

abbrev address : Run (List ℕ)
address = init_dst_addr blank >>= λ o. ok (read o.byte 0 9)

abbrev address_bytes : Run (List ℕ)
address_bytes = ok (2 ∷ 0 ∷ 78 ∷ 32 ∷ 192 ∷ 168 ∷ 10 ∷ 43 ∷ 7 ∷ [])

address_filled : address ≡ address_bytes
unfolding init_dst_addr store put read
address_filled = refl
