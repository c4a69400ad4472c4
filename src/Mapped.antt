-- ===== src/Mapped.antt =====
-- The mapped file of src/process_interactive.c (lines 130 to 207). The memory behind the mapping is
-- the same for both processes. What mmap_read finds there at its polls is an argument; a text is
-- its bytes before the terminating 0. The messages to the console, but the text, are left out.
pub mod Balance
pub mod Delivery
mod Tests
use a_test.Base.{ℕ, zero, suc, Bool, true, false, List, [], ◌∷◌, Option, none, some, ◌==◌}
use a_test.System.{
  Answer, value, bytes, error, Call, open_file, fstat, write, mmap, close, munmap, sleep, Ending,
  returns, exits, runs_on, Prog, pure, call, ◌>>=◌, ◌>>◌, fd_of,
}
use a_test.Exchange.{Text}

-- struct shared_use_st; `number` is the field `data`
pub record SharedUse : Type 0 where
  pub written_by_you : ℕ
  pub number : ℕ
  pub some_text : Text

-- "mmap_mem.txt"
abbrev pub mmap_mem : List ℕ
mmap_mem = 109 ∷ 109 ∷ 97 ∷ 112 ∷ 95 ∷ 109 ∷ 101 ∷ 109 ∷ 46 ∷ 116 ∷ 120 ∷ 116 ∷ []

-- "hello yx.\n"
abbrev pub hello_yx : Text
hello_yx = 104 ∷ 101 ∷ 108 ∷ 108 ∷ 111 ∷ 32 ∷ 121 ∷ 120 ∷ 46 ∷ 10 ∷ []

-- The bytes of `int base = 1`.
abbrev pub base : List ℕ
base = 1 ∷ 0 ∷ 0 ∷ 0 ∷ []

-- `if (fd == -1) return`, with what is returned.
abbrev pub on_open {ℓ} : {A : Type ℓ} → A → Option ℕ → (ℕ → Prog A) → Prog A
on_open a none k = pure a
on_open a (some fd) k = k fd

-- A file of no bytes gets four.
abbrev pub write_base : ℕ → ℕ → Prog (Unit {0})
write_base zero fd = call (write fd base) >> pure tt
write_base (suc size) fd = pure tt

-- fstat answers the size; the descriptor stays open where it fails.
abbrev pub on_stat {ℓ} : {A : Type ℓ} → A → Answer → ℕ → Prog A → Prog A
on_stat a (error e) fd k = pure a
on_stat a (value size) fd k = write_base size fd >> k
on_stat a (bytes bs) fd k = write_base 1 fd >> k

-- `if (shmptr == NULL || shmptr == (void*)-1)`; the descriptor is closed in every case.
abbrev pub on_map {ℓ} : {A : Type ℓ} → A → Answer → ℕ → (ℕ → Prog A) → Prog A
on_map a (error e) fd k = call (close fd) >> pure a
on_map a (bytes bs) fd k = call (close fd) >> pure a
on_map a (value zero) fd k = call (close fd) >> pure a
on_map a (value (suc ptr)) fd k = call (close fd) >> k (suc ptr)

-- The three stores.
abbrev pub fill : SharedUse → SharedUse
fill shm = record shm { written_by_you = 1; number = 2; some_text = hello_yx }

-- What is in the memory afterwards.
unfoldable pub mmap_write : SharedUse → Prog SharedUse
mmap_write shm = do
  f ← call (open_file mmap_mem)
  on_open shm (fd_of f) (λ fd. do
    st ← call (fstat fd)
    on_stat shm st fd
        (do m ← call (mmap fd); on_map shm m fd (λ ptr. do call (munmap ptr); pure (fill shm))))

-- A poll: the text is printed where the flag is up.
abbrev pub on_flag : Bool → Text → Prog (Ending Text) → Prog (Ending Text)
on_flag true text rest = pure (returns text)
on_flag false text rest = rest

-- while (TRUE), for at most so many polls, of which the first finds `shm i`; it runs on where no
-- poll found the flag up.
unfoldable pub poll : ℕ → (ℕ → SharedUse) → ℕ → Prog (Ending Text)
poll zero shm i = pure runs_on
poll (suc fuel) shm i = do
  call (sleep 0)
  on_flag ((shm i).written_by_you == 1) (shm i).some_text (poll fuel shm (suc i))

-- What follows the loop, where it ends.
abbrev pub unmap : ℕ → Ending Text → Prog (Ending (Option Text))
unmap ptr (returns text) = call (munmap ptr) >> pure (returns (some text))
unmap ptr (exits code) = pure (exits code)
unmap ptr runs_on = pure runs_on

-- What follows mmap.
abbrev pub read_map : ℕ → (ℕ → SharedUse) → Answer → ℕ → Prog (Ending (Option Text))
read_map fuel shm m fd = on_map (returns none) m fd (λ ptr. poll fuel shm 0 >>= unmap ptr)

-- What follows open.
abbrev pub read_open : ℕ → (ℕ → SharedUse) → Answer → Prog (Ending (Option Text))
read_open fuel shm f =
    on_open (returns none) (fd_of f) (λ fd. do m ← call (mmap fd); read_map fuel shm m fd)

-- The text that is printed, where it returns.
unfoldable pub mmap_read : ℕ → (ℕ → SharedUse) → Prog (Ending (Option Text))
mmap_read fuel shm = do f ← call (open_file mmap_mem); read_open fuel shm f
