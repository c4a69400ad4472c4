-- ===== src/Tcp/Round.antt =====
-- The loop over the connections of the TCP server of src/protocol_socket.c, where none breaks.
use a_test.Base.{
  ap, ℕ, zero, suc, ◌≡◌, ◌≢◌, refl, ◌∙◌, false, Bool-cases, inl, inr, List, [], ◌∷◌, ◌++◌, arith,
  ◌&&◌, if◌then◌else◌, get_or, length,
}
use mathlib.Core.List.{}
use a_test.Tcp.{
  FdSet, Crol, take_in, Received, bytes, nothing, broken, Event, wrote, printed, Answers, recv_conn,
  send_conn, rw_conn, for_conns,
}
use a_test.Tcp.Accept.{}

-- No write and no read ends with an error that closes its connection.
pub record IsQuiet (w : Answers) : Type 0 where
  pub writes_go : (fd : ℕ) → w.write_fails fd ≡ false
  pub reads_go : (fd : ℕ) → w.reads fd ≢ broken

-- What a connection gets, and what is printed of what it sends.
abbrev pub sent : Answers → FdSet → ℕ → List Event
sent w ready fd = if ready fd && w.some_data then wrote fd ∷ [] else []

abbrev pub printed_of : Received → List Event
printed_of (bytes bs) = printed bs ∷ []
printed_of nothing = []
printed_of broken = []

abbrev pub got : Answers → FdSet → ℕ → List Event
got w ready fd = if ready fd then printed_of (w.reads fd) else []

abbrev pub each : (ℕ → List Event) → List ℕ → List Event
each ev [] = []
each ev (fd ∷ fds) = ev fd ++ each ev fds

-- The events of `n` places from the place `i` on.
events_from : (ℕ → List Event) → List ℕ → ℕ → ℕ → List Event
events_from ev fds i zero = []
events_from ev fds i (suc n) = ev (get_or fds i 0) ++ events_from ev fds (suc i) n

events_next :
    (ev : ℕ → List Event) (fd : ℕ) (fds : List ℕ) (i n : ℕ)
    → events_from ev (fd ∷ fds) (suc i) n ≡ events_from ev fds i n
unfolding events_from
events_next ev fd fds i zero = refl
events_next ev fd fds i (suc n) =
    ap (λ es. ev (get_or fds i 0) ++ es) (events_next ev fd fds (suc i) n)

events_each :
    (ev : ℕ → List Event) (conns more : List ℕ)
    → events_from ev (conns ++ more) 0 (length conns) ≡ each ev conns
unfolding events_from
events_each ev [] more = refl
events_each ev (fd ∷ conns) more =
    ap (λ es. ev fd ++ es)
      (events_next ev fd (conns ++ more) 0 (length conns) ∙ events_each ev conns more)

-- A body that changes nothing.
for_conns-steady :
    (body : ℕ → Crol → Crol × List Event) (ev : ℕ → List Event) (c : Crol)
    → ((i : ℕ) → body i c ≡ (c, ev (get_or c.connfd_alive i 0)))
    → (n i : ℕ) → for_conns body n i c ≡ (c, events_from ev c.connfd_alive i n)
unfolding for_conns events_from
for_conns-steady body ev c steady zero i = refl
for_conns-steady body ev c steady (suc n) i =
    rw (steady i, for_conns-steady body ev c steady n (suc i)) refl

pub for_conns-each :
    (body : ℕ → Crol → Crol × List Event) (ev : ℕ → List Event) (c : Crol)
    → ((i : ℕ) → body i c ≡ (c, ev (get_or c.connfd_alive i 0)))
    → (conns more : List ℕ) → c.connfd_alive ≡ conns ++ more
    → for_conns body (length conns) 0 c ≡ (c, each ev conns)
for_conns-each body ev c steady conns more places =
    for_conns-steady body ev c steady (length conns) 0
    ∙ ap (λ es. (c, es))
        (ap (λ fds. events_from ev fds 0 (length conns)) places ∙ events_each ev conns more)

take_in-printed_of :
    (r : Received) (i fd : ℕ) (c : Crol) → r ≢ broken → take_in r i fd c ≡ (c, printed_of r)
take_in-printed_of (bytes bs) i fd c ok = refl
take_in-printed_of nothing i fd c ok = refl
take_in-printed_of broken i fd c ok = absurd (ok refl)

module _ (w : Answers) (quiet : IsQuiet w) (c : Crol) where
  pub send_steady :
      (ready : FdSet) (i : ℕ)
      → send_conn w ready i c ≡ (c, sent w ready (get_or c.connfd_alive i 0))
  unfolding send_conn
  send_steady ready i =
      let fd = get_or c.connfd_alive i 0 in
      elim (Bool-cases (ready fd && w.some_data)) [
        | inl e ↦ rw (e, quiet.writes_go fd) refl
        | inr e ↦ rw e refl
      ]

  pub recv_steady :
      (ready : FdSet) (i : ℕ) → recv_conn w ready i c ≡ (c, got w ready (get_or c.connfd_alive i 0))
  unfolding recv_conn
  recv_steady ready i =
      let fd = get_or c.connfd_alive i 0 in
      elim (Bool-cases (ready fd)) [
        | inl e ↦ rw e (take_in-printed_of (w.reads fd) i fd c (quiet.reads_go fd))
        | inr e ↦ rw e refl
      ]

  pub rw_steady :
      (rd wr : FdSet) (i : ℕ)
      → rw_conn w rd wr i c
        ≡ (c, sent w wr (get_or c.connfd_alive i 0) ++ got w rd (get_or c.connfd_alive i 0))
  unfolding rw_conn
  rw_steady rd wr i =
      let fd = get_or c.connfd_alive i 0 in
      let go : (wr fd && w.some_data && w.write_fails fd) ≡ false =
        ground (arith, quiet.writes_go fd) in
      rw (go, send_steady wr i, recv_steady rd i) refl
