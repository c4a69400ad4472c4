-- ===== src/Socket/Reconnect.antt =====
-- When the TCP client of src/protocol_socket.c connects again.
use a_test.Base.{ℕ, suc, ◌+◌, ◌≡◌, Bool, true, false, [], ◌∷◌, ◌==◌, if◌then◌else◌, ◌||◌, ◌&&◌, not}
use a_test.System.{Answer, value, bytes, error, connect, getsockopt, write, read, Trace, live}

abbrev pub connects : Trace → ℕ
connects [] = 0
connects ((connect fd s, a) ∷ h) = suc (connects h)
connects (_ ∷ h) = connects h

abbrev count_if : Bool → ℕ → ℕ
count_if true n = suc n
count_if false n = n

-- On Linux EINTR is 4, EAGAIN and EWOULDBLOCK are 11, EALREADY is 114 and EINPROGRESS is 115.
abbrev count_transfer : Answer → ℕ → ℕ
count_transfer (value m) n = n
count_transfer (bytes bs) n = n
count_transfer (error e) n = if e == 4 || e == 11 then n else suc n

abbrev count_pending : Answer → ℕ → ℕ
count_pending (value optval) n = if optval == 0 || optval == 114 || optval == 115 then n else suc n
count_pending (bytes bs) n = n
count_pending (error e) n = suc n

-- The answers that show a broken connection.
abbrev pub faults : Trace → ℕ
faults [] = 0
faults ((getsockopt fd, a) ∷ h) = count_pending a (faults h)
faults ((write fd bs, a) ∷ h) = count_transfer a (faults h)
faults ((read fd n, a) ∷ h) = count_transfer a (faults h)
faults (_ ∷ h) = faults h

abbrev pub asked : Trace → ℕ
asked [] = 0
asked ((getsockopt fd, a) ∷ h) = suc (asked h)
asked (_ ∷ h) = asked h

abbrev no_error : Answer → Bool
no_error (value optval) = optval == 0
no_error (bytes bs) = true
no_error (error e) = false

-- Whether the newest call of getsockopt reported no error.
abbrev pub was_fine : Trace → Bool
was_fine [] = false
was_fine ((getsockopt fd, a) ∷ h) = no_error a
was_fine (_ ∷ h) = was_fine h

-- The reads and writes where it did not.
abbrev pub unchecked : Trace → ℕ
unchecked [] = 0
unchecked ((write fd bs, a) ∷ h) = count_if (not (was_fine h)) (unchecked h)
unchecked ((read fd n, a) ∷ h) = count_if (not (was_fine h)) (unchecked h)
unchecked (_ ∷ h) = unchecked h

-- The calls on another socket than `fd`, and the connections to another server.
abbrev pub astray : ℕ → ℕ → Trace → ℕ
astray fd server [] = 0
astray fd server ((connect f s, a) ∷ h) =
    count_if (not (f == fd && s == server)) (astray fd server h)
astray fd server ((getsockopt f, a) ∷ h) = count_if (not (f == fd)) (astray fd server h)
astray fd server ((write f bs, a) ∷ h) = count_if (not (f == fd)) (astray fd server h)
astray fd server ((read f n, a) ∷ h) = count_if (not (f == fd)) (astray fd server h)
astray fd server (_ ∷ h) = astray fd server h

-- From the trace `h` to `h'`.
abbrev pub Reconnects : ℕ → ℕ → Trace → Trace → Type 0
Reconnects fd server h h' =
    (connects h' + faults h ≡ connects h + faults h')
    × (asked h' ≡ suc (asked h))
    × (unchecked h' ≡ unchecked h)
    × (astray fd server h' ≡ astray fd server h)
    × (live h' ≡ live h)
