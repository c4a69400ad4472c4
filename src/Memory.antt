-- ===== src/Memory.antt =====
-- C objects as they are read and written through pointers: an object is a size and its bytes, a
-- pointer is an object and an offset. An access outside of the object is a fault, and a loop whose
-- fuel is used up is `spinning`. `memcpy`, `load` and `store` stand for what the C library and the
-- compiler do; no file of the repository defines them.
use a_test.Base.{
  ℕ, zero, suc, ◌+◌, ◌*◌, ◌≤◌, ◌<◌, ◌≡◌, refl, ap, ◌∙◌, List, [], ◌∷◌, ◌++◌, arith, Bool, true,
  false, leb, ◌==◌, if◌then◌else◌, length, get_or, Option, none, some, ◌⊎◌, inl, inr,
}

pub data Run {ℓ} (A : Type ℓ) : Type ℓ where
  ok : A → Run A
  fault : Run A
  spinning : Run A

infixl 5 ◌>>=◌ ◌>>◌
abbrev pub ◌>>=◌ {ℓ κ} : {A : Type ℓ} {B : Type κ} → Run A → (A → Run B) → Run B
ok a >>= f = f a
fault >>= f = fault
spinning >>= f = spinning

abbrev pub ◌>>◌ {ℓ} : {B : Type ℓ} → Run (Unit {0}) → Run B → Run B
m >> k = m >>= λ _. k

-- What the code leaves unchecked and C leaves undefined.
abbrev pub require : Bool → Run (Unit {0})
require true = ok tt
require false = fault

abbrev pub from_option {ℓ} : {A : Type ℓ} → Option A → Run A
from_option none = fault
from_option (some a) = ok a

-- A chain that ends well has gone well up to its last step.
module _ {κ ℓ} {B : Type κ} {A : Type ℓ} (k : A → Run B) {last : B} where
  pub >>=-eq-ok : (r : Run A) → (r >>= k) ≡ ok last → (x : A) × (r ≡ ok x) × (k x ≡ ok last)
  >>=-eq-ok spinning ends = cc
  >>=-eq-ok fault ends = cc
  >>=-eq-ok (ok x) ends = (x, refl, ends)

pub Run-cases {ℓ} : {A : Type ℓ} (r : Run A) → ((a : A) × (r ≡ ok a)) ⊎ (r ≡ fault) ⊎ (r ≡ spinning)
Run-cases (ok a) = inl (a, refl)
Run-cases fault = inr (inl refl)
Run-cases spinning = inr (inr refl)

-- A result, where there is one, has the property.
abbrev pub Ensures {ℓ κ} : {A : Type ℓ} → (A → Type κ) → Run A → Type κ
Ensures P (ok a) = P a
Ensures P fault = Unit
Ensures P spinning = Unit

pub record Object : Type 0 where
  pub size : ℕ
  pub byte : ℕ → ℕ

-- An object that holds these bytes.
abbrev pub object_of : List ℕ → Object
object_of bs = record { size = length bs; byte = λ i. get_or bs i 0 }

-- `n` bytes from `off` on
unfoldable pub read : (ℕ → ℕ) → ℕ → ℕ → List ℕ
read m off zero = []
read m off (suc n) = m off ∷ read m (suc off) n

unfoldable pub put : (ℕ → ℕ) → ℕ → List ℕ → ℕ → ℕ
put m off [] i = m i
put m off (b ∷ bs) i = if i == off then b else put m (suc off) bs i

unfoldable pub load : Object → ℕ → ℕ → Run (List ℕ)
load o off n = if leb (off + n) o.size then ok (read o.byte off n) else fault

unfoldable pub store : Object → ℕ → List ℕ → Run Object
store o off bs =
    if leb (off + length bs) o.size then ok (record o { byte = put o.byte off bs }) else fault

-- memcpy(dst + doff, src + soff, n)
unfoldable pub memcpy : Object → ℕ → Object → ℕ → ℕ → Run Object
memcpy dst doff src soff n = do bs ← load src soff n; store dst doff bs

-- A 16-bit load on a little-endian machine.
abbrev pub u16_at : (ℕ → ℕ) → ℕ → ℕ
u16_at m off = m off + 256 * m (off + 1)

unfoldable pub load_u16 : Object → ℕ → Run ℕ
load_u16 o off = if leb (off + 2) o.size then ok (u16_at o.byte off) else fault

pub length-read : (m : ℕ → ℕ) (off n : ℕ) → length (read m off n) ≡ n
unfolding read
length-read m off zero = refl
length-read m off (suc n) = ap suc (length-read m (suc off) n)

pub read_congr :
    (m m' : ℕ → ℕ) (off n : ℕ)
    → ((i : ℕ) → off ≤ i → i < off + n → m i ≡ m' i)
    → read m off n ≡ read m' off n
unfolding read
read_congr m m' off zero h = refl
read_congr m m' off (suc n) h = ground (
  arith,
  h off (omega arith) (omega arith),
  read_congr m m' (suc off) n (λ i p q. h i (omega arith) (omega arith)),
)

pub read-append :
    (m : ℕ → ℕ) (off a b : ℕ) → read m off (a + b) ≡ read m off a ++ read m (off + a) b
unfolding read
read-append m off zero b =
    let e : zero + b ≡ b = omega arith in let o : off + zero ≡ off = omega arith in rw (e, o)
read-append m off (suc a) b =
    let e : suc a + b ≡ suc (a + b) = omega arith in
    let o : off + suc a ≡ suc off + a = omega arith in
    rw (e, o) (ap (◌∷◌ (m off)) (read-append m (suc off) a b))

-- The same bytes at two places.
pub read_moved :
    (m m' : ℕ → ℕ) (off off' n : ℕ)
    → ((i : ℕ) → i < n → m (off + i) ≡ m' (off' + i))
    → read m off n ≡ read m' off' n
unfolding read
read_moved m m' off off' zero h = refl
read_moved m m' off off' (suc n) h = ground (
  arith,
  h 0 (omega arith),
  read_moved m m' (suc off) (suc off') n (λ i p. ground (arith, h (suc i) (omega arith))),
)

pub put-below : (m : ℕ → ℕ) (off i : ℕ) (bs : List ℕ) → i < off → put m off bs i ≡ m i
unfolding put
put-below m off i [] h = refl
put-below m off i (b ∷ bs) h = ground (arith, put-below m (suc off) i bs)

pub put-above : (m : ℕ → ℕ) (off i : ℕ) (bs : List ℕ) → off + length bs ≤ i → put m off bs i ≡ m i
unfolding put
put-above m off i [] h = refl
put-above m off i (b ∷ bs) h = ground (arith, put-above m (suc off) i bs)

pub read-put_self : (m : ℕ → ℕ) (off : ℕ) (bs : List ℕ) → read (put m off bs) off (length bs) ≡ bs
unfolding read put
read-put_self m off [] = refl
read-put_self m off (b ∷ bs) =
    let rest =
      read_congr (put m off (b ∷ bs)) (put m (suc off) bs) (suc off) (length bs)
        (λ i p q. ground arith) in
    ground (arith, rest, read-put_self m (suc off) bs)

pub read-put_below :
    (m : ℕ → ℕ) (off n at : ℕ) (bs : List ℕ)
    → off + n ≤ at
    → read (put m at bs) off n ≡ read m off n
read-put_below m off n at bs h =
    read_congr (put m at bs) m off n (λ i p q. put-below m at i bs (omega arith))

-- What an append leaves in the object: the old prefix and then the new bytes.
pub read-put_append :
    (m : ℕ → ℕ) (n : ℕ) (bs : List ℕ) → read (put m n bs) 0 (n + length bs) ≡ read m 0 n ++ bs
read-put_append m n bs =
    read-append (put m n bs) 0 n (length bs)
    ∙ ground (arith, read-put_below m 0 n n bs (omega arith), read-put_self m n bs)

-- A copy within both objects.
pub copy_fits :
    (dst src : Object) (doff off n : ℕ)
    → off + n ≤ src.size
    → doff + n ≤ dst.size
    → memcpy dst doff src off n ≡ ok (record dst { byte = put dst.byte doff (read src.byte off n) })
unfolding memcpy load store
copy_fits dst src doff off n h k = ground (arith, length-read src.byte off n)
