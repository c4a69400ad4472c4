-- ===== src/Multi/Schedule.antt =====
-- The sending half of the multicast protocol of src/protocol_socket.c: `dist_init`,
-- `expire_handle` and `multi_tx`.
use a_test.Base.{
  ℕ, ◌+◌, ◌%◌, ◌≤◌, ◌<◌, ◌≡◌, refl, ap, sym, ◌∙◌, Bool, true, false, List, [], ◌∷◌, arith, some,
  ◌==◌, ltb, ◌||◌, All, map, Bool-cases, if◌then◌else◌, inl, inr,
}
use a_test.Memory.{Run, ok, fault, ◌>>=◌, Object, read, put, copy_fits, read-put_self, length-read}
use a_test.Multi.{
  Multi, MultiFunc, dist_basedata_snd, dist_len_snd, DataBuf, State, snd, collect, multi_tx,
  init_entry, dist_init, expire_entry, expire_all, expire_handle,
}

-- An entry after the tick `icount`: flagged if it was, or if the tick is its 100th of a period.
abbrev pub tick : ℕ → Multi → Multi
tick icount m = record m { flg = m.flg || icount % m.expire == 100 }

expire_all-map :
    (icount : ℕ) (ms : List Multi)
    → All (λ m. 0 < m.expire) ms
    → expire_all icount ms ≡ ok (map (tick icount) ms)
unfolding expire_all expire_entry
expire_all-map icount [] h = refl
expire_all-map icount (m ∷ ms) h =
    let runs : ltb 0 m.expire ≡ true = ground (arith, h.0) in
    elim (Bool-cases (icount % m.expire == 100)) [
      | inl due ↦ rw (runs, due, expire_all-map icount ms h.1) (ground arith)
      | inr early ↦ rw (runs, early, expire_all-map icount ms h.1) (ground arith)
    ]

-- With periods above 0 `expire_handle` runs, flags exactly the entries that are due in this tick on
-- top of those that were flagged before, and changes nothing else.
pub expire_handle_lem :
    (icount : ℕ) (s : State)
    → All (λ m. 0 < m.expire) s.g_multi
    → expire_handle icount s ≡ ok (record s { g_multi = map (tick icount) s.g_multi })
unfolding expire_handle
expire_handle_lem icount s h = rw (expire_all-map icount s.g_multi h)

-- A first period of 0, as it stands in the globals before `dist_init`, is a remainder by 0.
pub expire_handle_zero :
    (icount : ℕ) (s : State) (m : Multi) (ms : List Multi)
    → s.g_multi ≡ m ∷ ms
    → m.expire ≡ 0
    → expire_handle icount s ≡ fault
unfolding expire_handle expire_all expire_entry
expire_handle_zero icount s m ms e zero_period = rw (e, expire_all, zero_period)

-- The ticks of a timer, one after the other.
pub run_ticks : List ℕ → State → Run State
run_ticks [] s = ok s
run_ticks (icount ∷ ts) s = expire_handle icount s >>= run_ticks ts

abbrev pub any_due : List ℕ → Bool
any_due [] = false
any_due (icount ∷ ts) = icount % 10000 == 100 || any_due ts

-- The table as `dist_init` makes it, with both entries flagged alike.
abbrev table : Bool → List Multi
table flg =
    record (init_entry dist_basedata_snd) { flg = flg }
    ∷ record (init_entry dist_len_snd) { flg = flg }
    ∷ []

tick-table :
    (icount : ℕ) (flg : Bool) (s : State)
    → expire_handle icount (record s { g_multi = table flg })
      ≡ ok (record s { g_multi = table (flg || icount % 10000 == 100) })
unfolding expire_handle expire_all expire_entry init_entry
tick-table icount flg s = ground arith

or_assoc : (a b c : Bool) → ((a || b) || c) ≡ (a || (b || c))
or_assoc a b c = ground arith

run_ticks-table :
    (ts : List ℕ) (flg : Bool) (s : State)
    → run_ticks ts (record s { g_multi = table flg })
      ≡ ok (record s { g_multi = table (flg || any_due ts) })
unfolding run_ticks
run_ticks-table [] flg s = ground arith
run_ticks-table (icount ∷ ts) flg s = rw (
  tick-table icount flg s,
  run_ticks-table ts (flg || icount % 10000 == 100) s,
  or_assoc flg (icount % 10000 == 100) (any_due ts),
)

null_faults : (s : State) → multi_tx (record s { g_multi = table true }) ≡ fault
unfolding multi_tx collect snd init_entry
null_faults s = refl

idle_sends_nothing :
    (s : State)
    → multi_tx (record s { g_multi = table false })
      ≡ ok (record s { g_multi = table false; tx = record (s.tx) { len = 0 } }, [])
unfolding multi_tx collect init_entry read
idle_sends_nothing s = refl

-- From `dist_init` on, after any ticks: while none of them was the 100th of a period of 10000,
-- `multi_tx` sends an empty datagram; once one was, every `multi_tx` copies from a NULL pointer,
-- since `dist_init` leaves the entries without data and nothing gives them any.
pub multi_tx_after_ticks :
    (fd : ℕ) (s : State) (ts : List ℕ)
    → (s' s'' : State) × (run_ticks ts (dist_init fd s) ≡ ok s')
      × (multi_tx s' ≡ (if any_due ts then fault else ok (s'', [])))
unfolding dist_init init_entry
multi_tx_after_ticks fd s ts =
    let s₀ = dist_init fd s in
    (
      record s₀ { g_multi = table (any_due ts) },
      record s₀ { g_multi = table false; tx = record (s₀.tx) { len = 0 } },
      run_ticks-table ts false s₀,
      elim (Bool-cases (any_due ts)) [
        | inl due ↦ rw due (null_faults s₀)
        | inr none ↦ rw none (idle_sends_nothing s₀)
      ],
    )

-- The buffer after one entry's data was copied to its start.
abbrev copied : Object → DataBuf → DataBuf
copied o d = record {
  len = d.len + 1;
  buf = record (d.buf) { byte = put d.buf.byte 0 (read o.byte 0 (d.len + 1)) };
}

snd_runs :
    (f : MultiFunc) (o : Object) (d : DataBuf)
    → d.len + 1 ≤ o.size
    → d.len + 1 ≤ d.buf.size
    → snd f (some o) d ≡ ok (copied o d)
unfolding snd
snd_runs f o d h k =
    let runs = copy_fits d.buf o 0 0 (d.len + 1) (omega arith) (omega arith) in rw runs

read-copied :
    (m : ℕ → ℕ) (o : Object) (n : ℕ) → read (put m 0 (read o.byte 0 n)) 0 n ≡ read o.byte 0 n
read-copied m o n =
    ap (read (put m 0 (read o.byte 0 n)) 0) (sym (length-read o.byte 0 n))
    ∙ read-put_self m 0 (read o.byte 0 n)

-- What a datagram holds after both, one or none of the entries were flagged.
abbrev pub datagram : Bool → Bool → Object → Object → List ℕ
datagram false false a b = []
datagram true false a b = read a.byte 0 1
datagram false true a b = read b.byte 0 1
datagram true true a b = read b.byte 0 2

by_flags :
    (s : State) (m₁ m₂ : Multi) (f₁ f₂ : MultiFunc) (a b : Object) (x y : Bool)
    → s.g_multi ≡ m₁ ∷ m₂ ∷ []
    → m₁.flg ≡ x
    → m₂.flg ≡ y
    → m₁.func ≡ some f₁
    → m₂.func ≡ some f₂
    → m₁.payload ≡ some a
    → m₂.payload ≡ some b
    → 2 ≤ a.size
    → 2 ≤ b.size
    → 2 ≤ s.tx.buf.size
    → (s' : State) × (multi_tx s ≡ ok (s', datagram x y a b))
unfolding multi_tx collect
by_flags s m₁ m₂ f₁ f₂ a b false false e x y g₁ g₂ p₁ p₂ ha hb hs =
    (record s { tx = record (s.tx) { len = 0 } }, rw (e, x, y) (unfold read in refl))
by_flags s m₁ m₂ f₁ f₂ a b true false e x y g₁ g₂ p₁ p₂ ha hb hs =
    let d = record (s.tx) { len = 0 } in
    let one = snd_runs f₁ a d (omega arith) (omega arith) in
    let out = read-copied s.tx.buf.byte a 1 in
    (record s { tx = copied a d }, rw (e, x, y, g₁, p₁, one, out))
by_flags s m₁ m₂ f₁ f₂ a b false true e x y g₁ g₂ p₁ p₂ ha hb hs =
    let d = record (s.tx) { len = 0 } in
    let one = snd_runs f₂ b d (omega arith) (omega arith) in
    let out = read-copied s.tx.buf.byte b 1 in
    (record s { tx = copied b d }, rw (e, x, y, g₂, p₂, one, out))
by_flags s m₁ m₂ f₁ f₂ a b true true e x y g₁ g₂ p₁ p₂ ha hb hs =
    let d = record (s.tx) { len = 0 } in
    let one = snd_runs f₁ a d (omega arith) (omega arith) in
    let two = snd_runs f₂ b (copied a d) (omega arith) (omega arith) in
    let out = read-copied (copied a d).buf.byte b 2 in
    (record s { tx = copied b (copied a d) }, rw (e, x, y, g₁, p₁, one, g₂, p₂, two, out))

-- With data for both entries, of two bytes at least, `multi_tx` does not collect it: a single
-- flagged entry sends the first byte of its data, and where both are flagged the second overwrites
-- the first, and the first two bytes of its data are sent.
pub multi_tx-datagram :
    (s : State) (m₁ m₂ : Multi) (f₁ f₂ : MultiFunc) (a b : Object)
    → s.g_multi ≡ m₁ ∷ m₂ ∷ []
    → m₁.func ≡ some f₁
    → m₂.func ≡ some f₂
    → m₁.payload ≡ some a
    → m₂.payload ≡ some b
    → 2 ≤ a.size
    → 2 ≤ b.size
    → 2 ≤ s.tx.buf.size
    → (s' : State) × (multi_tx s ≡ ok (s', datagram m₁.flg m₂.flg a b))
multi_tx-datagram s m₁ m₂ f₁ f₂ a b e g₁ g₂ p₁ p₂ ha hb hs =
    by_flags s m₁ m₂ f₁ f₂ a b m₁.flg m₂.flg e refl refl g₁ g₂ p₁ p₂ ha hb hs
