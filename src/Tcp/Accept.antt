-- ===== src/Tcp/Accept.antt =====
-- Where an accepted connection of the TCP server of src/protocol_socket.c is stored.
use a_test.Base.{
  ℕ, zero, suc, ◌+◌, ◌-◌, ◌<◌, ◌≡◌, refl, ap, true, false, inl, inr, List, [], ◌∷◌, ◌++◌, arith,
  some, leb, set, length, length-append, length-set, ◌⊎◌, get_elem?, replicate, get_elem?-set_self,
}
use a_test.Tcp.{
  uart_tcp_client_max, fd_set, fd_clr, Crol, has_free, add_conn, accept_tcp_connet, close_conn,
}
use a_test.Tcp.Table.{IsTable}

-- The connections stand in the first places, and the `n` others are free.
pub record IsCompact (conns : List ℕ) (n : ℕ) (c : Crol) : Type 0 where
  pub counted : c.connfd_alivenum ≡ length conns
  pub placed : c.connfd_alive ≡ conns ++ replicate n 0
  pub places : length conns + n ≡ uart_tcp_client_max

has_free-append : (xs : List ℕ) (n : ℕ) → has_free (xs ++ replicate (suc n) 0) ≡ true
has_free-append [] n = refl
has_free-append (x ∷ xs) n = ground (arith, has_free-append xs n)

set-append :
    (xs : List ℕ) (n v : ℕ)
    → set (xs ++ replicate (suc n) 0) (length xs) v ≡ (xs ++ v ∷ []) ++ replicate n 0
set-append [] n v = refl
set-append (x ∷ xs) n v = ap (◌∷◌ x) (set-append xs n v)

add_conn-IsCompact :
    (conns : List ℕ) (n fd : ℕ) (c : Crol)
    → IsCompact conns (suc n) c
    → IsCompact (conns ++ fd ∷ []) n (add_conn fd c)
unfolding add_conn
add_conn-IsCompact conns n fd c h = record {
  counted = omega (arith, h.counted, length-append conns (fd ∷ []));
  placed = rw (h.placed, h.counted) (set-append conns n fd);
  places = omega (arith, h.places, length-append conns (fd ∷ []));
}

-- While no place between the connections is free, a connection that is accepted comes behind the
-- others, and with sixteen connections none is accepted.
pub accept-IsCompact :
    (conns : List ℕ) (n fd : ℕ) (c : Crol)
    → IsCompact conns n c
    → ((n ≡ 0) × (accept_tcp_connet (some fd) c ≡ c))
      ⊎ ((left : ℕ) × (n ≡ suc left)
          × IsCompact (conns ++ fd ∷ []) left (accept_tcp_connet (some fd) c))
unfolding accept_tcp_connet
accept-IsCompact conns zero fd c h =
    let full : leb uart_tcp_client_max c.connfd_alivenum ≡ true =
      ground (arith, h.counted, h.places) in
    inl (refl, rw full refl)
accept-IsCompact conns (suc n) fd c h =
    let room : leb uart_tcp_client_max c.connfd_alivenum ≡ false =
      ground (arith, h.counted, h.places) in
    let free : has_free c.connfd_alive ≡ true = rw h.placed (has_free-append conns n) in
    inr (n, refl, rw (room, free) (add_conn-IsCompact conns n fd c h))

has_free-set : (xs : List ℕ) (i : ℕ) → i < length xs → has_free (set xs i 0) ≡ true
has_free-set [] i h = absurd (omega arith)
has_free-set (x ∷ xs) zero h = refl
has_free-set (x ∷ xs) (suc i) h = ground (arith, has_free-set xs i (omega arith))

-- Where a connection is closed that is not the last, the next one to be accepted takes the place of
-- the last: that one is in the table no longer in its place, though it stays watched.
pub close_accept_overwrites :
    (c : Crol) (i last closing fd : ℕ)
    → IsTable c
    → c.connfd_alivenum ≡ suc last
    → i < last
    → (get_elem? (accept_tcp_connet (some fd) (close_conn i closing c)).connfd_alive last ≡ some fd)
      × ((accept_tcp_connet (some fd) (close_conn i closing c)).connfd_alivenum ≡ suc last)
      × ((other : ℕ)
          → (accept_tcp_connet (some fd) (close_conn i closing c)).read_set other
            ≡ fd_set fd (fd_clr closing c.read_set) other)
unfolding accept_tcp_connet close_conn add_conn
close_accept_overwrites c i last closing fd table n before =
    let room : leb uart_tcp_client_max (c.connfd_alivenum - 1) ≡ false =
      ground (arith, table.bounded) in
    let free : has_free (set c.connfd_alive i 0) ≡ true =
      has_free-set c.connfd_alive i (omega (arith, table.places, table.bounded)) in
    let at : c.connfd_alivenum - 1 ≡ last = omega arith in
    let inside : last < length (set c.connfd_alive i 0) =
      omega (arith, length-set c.connfd_alive i 0, table.places, table.bounded) in
    rw (room, free, at)
      (get_elem?-set_self (set c.connfd_alive i 0) last fd inside, omega arith, λ other. refl)
