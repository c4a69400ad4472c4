-- ===== src/System.antt =====
-- The calls of the operating system that the repository makes, as a trace. What a call answers is a
-- parameter: `Os` gives the answer for the calls and answers before it. A function of the code that
-- makes calls is a `Prog`, and its calls with their answers are kept newest first.
use a_test.Base.{
  ℕ, Bool, true, false, List, [], ◌∷◌, Option, none, some, ◌==◌, if◌then◌else◌, length,
}

-- A result: a number that is not negative, the bytes that were read, or -1 with errno.
pub data Answer : Type 0 where
  value : ℕ → Answer
  bytes : List ℕ → Answer
  error : ℕ → Answer

-- A descriptor is a number, and so is a port. `connect` and `sendto` name the address by a number.
pub data Call : Type 0 where
  socket : ℕ → Call
  bind : ℕ → ℕ → Call
  listen : ℕ → ℕ → Call
  connect : ℕ → ℕ → Call
  set_nonblock : ℕ → Call
  setsockopt : ℕ → ℕ → Call
  getsockopt : ℕ → Call
  recvfrom : ℕ → ℕ → Call
  sendto : ℕ → List ℕ → ℕ → Call
  write : ℕ → List ℕ → Call
  read : ℕ → ℕ → Call
  close : ℕ → Call
  open_file : List ℕ → Call
  fstat : ℕ → Call
  mmap : ℕ → Call
  munmap : ℕ → Call
  shmget shmat shmdt shmctl_rmid : ℕ → Call
  semget : ℕ → Call
  semctl_setval : ℕ → ℕ → ℕ → Call
  semctl_rmid : ℕ → Call
  semop : ℕ → ℕ → Bool → Call
  pipe fork wait_child getpid : Call
  sleep : ℕ → Call
  fopen_append fopen_write : List ℕ → Call
  ftell fclose : ℕ → Call
  fwrite : ℕ → List ℕ → Call
  system : List ℕ → Call

-- How a function ends: by return, with its result, by exit, with the code, or never.
pub data Ending {ℓ} (A : Type ℓ) : Type ℓ where
  returns : A → Ending A
  exits : ℕ → Ending A
  runs_on : Ending A

abbrev pub Trace : Type 0
Trace = List (Call × Answer)

abbrev pub Os : Type 0
Os = Trace → Call → Answer

abbrev pub Prog {ℓ} : Type ℓ → Type ℓ
Prog A = Os → Trace → A × Trace

abbrev pub pure {ℓ} : {A : Type ℓ} → A → Prog A
pure a os h = (a, h)

abbrev pub call : Call → Prog Answer
call c os h = (os h c, (c, os h c) ∷ h)

infixl 5 ◌>>=◌ ◌>>◌
abbrev pub ◌>>=◌ {ℓ κ} : {A : Type ℓ} {B : Type κ} → Prog A → (A → Prog B) → Prog B
◌>>=◌ m f os h = let r = m os h in f r.0 os r.1

abbrev pub ◌>>◌ {ℓ κ} : {A : Type ℓ} {B : Type κ} → Prog A → Prog B → Prog B
m >> k = m >>= λ _. k

-- A result below 0.
abbrev pub failed : Answer → Bool
failed (value n) = false
failed (bytes bs) = false
failed (error e) = true

-- The result as a descriptor; `none` is INVALID.
abbrev pub fd_of : Answer → Option ℕ
fd_of (value n) = some n
fd_of (bytes bs) = some (length bs)
fd_of (error e) = none

abbrev pub eintr : ℕ
eintr = 4

abbrev pub eagain : ℕ
eagain = 11

-- `ret < 0 && errno != EINTR && errno != EWOULDBLOCK && errno != EAGAIN`; the last two are one
-- number on Linux.
abbrev pub broken : Answer → Bool
broken (value n) = false
broken (bytes bs) = false
broken (error e) = if e == eintr then false else if e == eagain then false else true

abbrev pub remove : ℕ → List ℕ → List ℕ
remove fd [] = []
remove fd (x ∷ xs) = let rest = remove fd xs in if x == fd then xs else x ∷ rest

-- The descriptors that are open after a trace.
abbrev pub live : Trace → List ℕ
live [] = []
live ((socket k, value fd) ∷ h) = fd ∷ live h
live ((socket k, bytes bs) ∷ h) = length bs ∷ live h
live ((open_file p, value fd) ∷ h) = fd ∷ live h
live ((open_file p, bytes bs) ∷ h) = length bs ∷ live h
live ((close fd, a) ∷ h) = remove fd (live h)
live (_ ∷ h) = live h

-- What a socket is ready for.
pub data Phase : Type 0 where
  unbound bound listening : Phase

-- The phase of a socket that was opened in the trace.
abbrev pub phase : ℕ → Trace → Phase
phase fd [] = unbound
phase fd ((bind f p, value n) ∷ h) = let rest = phase fd h in if f == fd then bound else rest
phase fd ((listen f n, value m) ∷ h) = let rest = phase fd h in if f == fd then listening else rest
phase fd ((bind f p, bytes bs) ∷ h) = let rest = phase fd h in if f == fd then bound else rest
phase fd ((listen f n, bytes bs) ∷ h) = let rest = phase fd h in if f == fd then listening else rest
phase fd ((socket k, a) ∷ h) = unbound
phase fd (_ ∷ h) = phase fd h
