-- ===== src/Prelude/Bytes.antt =====
-- Bytes, little-endian words, and memory as a function from offsets to bytes, as `memcpy` and
-- pointer reads use it.
use Prim.Native.Nat.{ℕ, zero, suc, ◌+◌, ◌-◌, ◌*◌, ◌/◌, ◌%◌, ◌^◌, ◌≤◌, ◌<◌}
use mathlib.Core.Path.{◌≡◌, refl, ap, ap₂, ◌∙◌, subst}
use mathlib.Core.List.{List, [], ◌∷◌, ◌++◌}
use native.Mathlib.Nat.{add-zero}
use native.Mathlib.Omega.{arith}
use ucmq.Prelude.Bools.{◌==◌, if◌then◌else◌}
use ucmq.Prelude.Lists.{All, length, length-append, get_or}

abbrev pub IsByte : ℕ → Type 0
IsByte b = b < 256

abbrev pub u32_mod : ℕ
u32_mod = 2 ^ 32

-- uint32_t addition and subtraction.
abbrev pub add32 : ℕ → ℕ → ℕ
add32 a b = (a + b) % u32_mod

abbrev pub sub32 : ℕ → ℕ → ℕ
sub32 a b = (a + (u32_mod - b % u32_mod)) % u32_mod

abbrev pub u64_mod : ℕ
u64_mod = 2 ^ 64

abbrev pub add64 : ℕ → ℕ → ℕ
add64 a b = (a + b) % u64_mod

abbrev pub sub64 : ℕ → ℕ → ℕ
sub64 a b = (a + (u64_mod - b % u64_mod)) % u64_mod

-- The bytes of a word in memory, lowest first.
abbrev pub le16 : ℕ → List ℕ
le16 n = n % 256 ∷ n / 256 % 256 ∷ []

abbrev pub le32 : ℕ → List ℕ
le32 n = n % 256 ∷ n / 256 % 256 ∷ n / 65536 % 256 ∷ n / 16777216 % 256 ∷ []

-- Memory that a mapping shows: a byte at each offset.
abbrev pub Memory : Type 0
Memory = ℕ → ℕ

abbrev pub get16 : Memory → ℕ → ℕ
get16 m p = m p + 256 * m (p + 1)

abbrev pub get32 : Memory → ℕ → ℕ
get32 m p = m p + 256 * m (p + 1) + 65536 * m (p + 2) + 16777216 * m (p + 3)

-- The bytes from an offset on.
unfoldable pub read_bytes : Memory → ℕ → ℕ → List ℕ
read_bytes m p zero = []
read_bytes m p (suc n) = m p ∷ read_bytes m (p + 1) n

-- memcpy to an offset.
unfoldable pub poke : Memory → ℕ → List ℕ → Memory
poke m p [] = m
poke m p (b ∷ bs) = poke (λ i. if i == p then b else m i) (p + 1) bs

pub length-read_bytes : (m : Memory) (p n : ℕ) → length (read_bytes m p n) ≡ n
unfolding read_bytes
length-read_bytes m p zero = refl
length-read_bytes m p (suc n) = ap suc (length-read_bytes m (p + 1) n)

pub poke_below : (m : Memory) (p : ℕ) (bs : List ℕ) (i : ℕ) → i < p → poke m p bs i ≡ m i
unfolding poke
poke_below m p [] i h = refl
poke_below m p (b ∷ bs) i h =
    poke_below (λ j. if j == p then b else m j) (p + 1) bs i (omega arith) ∙ ground arith

pub poke_above :
    (m : Memory) (p : ℕ) (bs : List ℕ) (i : ℕ) → p + length bs ≤ i → poke m p bs i ≡ m i
unfolding poke
poke_above m p [] i h = refl
poke_above m p (b ∷ bs) i h =
    poke_above (λ j. if j == p then b else m j) (p + 1) bs i (omega arith) ∙ ground arith

pub poke_at :
    (m : Memory) (p : ℕ) (bs : List ℕ) (i : ℕ) → i < length bs → poke m p bs (p + i) ≡ get_or bs i 0
unfolding poke
poke_at m p [] i h = absurd (omega arith)
poke_at m p (b ∷ bs) zero h =
    ap (poke (λ j. if j == p then b else m j) (p + 1) bs) (omega arith)
    ∙ poke_below (λ j. if j == p then b else m j) (p + 1) bs p (omega arith)
    ∙ ground arith
poke_at m p (b ∷ bs) (suc i) h =
    ap (poke (λ j. if j == p then b else m j) (p + 1) bs) (omega arith)
    ∙ poke_at (λ j. if j == p then b else m j) (p + 1) bs i (omega arith)

-- Two memories that agree on a range give the same bytes.
pub read_bytes_agree :
    (m m' : Memory) (p n : ℕ)
    → ((i : ℕ) → p ≤ i → i < p + n → m i ≡ m' i)
    → read_bytes m p n ≡ read_bytes m' p n
unfolding read_bytes
read_bytes_agree m m' p zero h = refl
read_bytes_agree m m' p (suc n) h =
    ap₂ ◌∷◌ (h p (omega arith) (omega arith))
      (read_bytes_agree m m' (p + 1) n (λ i a b. h i (omega arith) (omega arith)))

-- A copied list reads back, and a read of another range is not disturbed.
pub read_bytes-get_or :
    (bs : List ℕ) (m : Memory) (p : ℕ)
    → ((i : ℕ) → i < length bs → m (p + i) ≡ get_or bs i 0)
    → read_bytes m p (length bs) ≡ bs
unfolding read_bytes
read_bytes-get_or [] m p h = refl
read_bytes-get_or (b ∷ bs) m p h =
    ap₂ ◌∷◌ (ap m (omega arith) ∙ h 0 (omega arith))
      (read_bytes-get_or bs m (p + 1) (λ i l. ap m (omega arith) ∙ h (suc i) (omega arith)))

pub read_bytes-poke :
    (m : Memory) (p : ℕ) (bs : List ℕ) → read_bytes (poke m p bs) p (length bs) ≡ bs
read_bytes-poke m p bs = read_bytes-get_or bs (poke m p bs) p (poke_at m p bs)

pub read_bytes-IsByte :
    (m : Memory) (p n : ℕ) → ((i : ℕ) → IsByte (m i)) → All IsByte (read_bytes m p n)
unfolding read_bytes
read_bytes-IsByte m p zero h = tt
read_bytes-IsByte m p (suc n) h = (h p, read_bytes-IsByte m (p + 1) n h)

-- The memory has these bytes at an offset.
abbrev pub Holds : Memory → ℕ → List ℕ → Type 0
Holds m p bs = (i : ℕ) → i < length bs → m (p + i) ≡ get_or bs i 0

get_or_left : (xs ys : List ℕ) (i : ℕ) → i < length xs → get_or (xs ++ ys) i 0 ≡ get_or xs i 0
get_or_left [] ys i h = absurd (omega arith)
get_or_left (x ∷ xs) ys zero h = refl
get_or_left (x ∷ xs) ys (suc i) h = get_or_left xs ys i (omega arith)

get_or_right : (xs ys : List ℕ) (i : ℕ) → get_or (xs ++ ys) (length xs + i) 0 ≡ get_or ys i 0
get_or_right [] ys i = ap (λ k. get_or ys k 0) (omega arith)
get_or_right (x ∷ xs) ys i =
    ap (λ k. get_or (x ∷ xs ++ ys) k 0) {y = suc (length xs + i)} (omega arith)
    ∙ get_or_right xs ys i

pub Holds-left : (m : Memory) (p : ℕ) (xs ys : List ℕ) → Holds m p (xs ++ ys) → Holds m p xs
Holds-left m p xs ys h i l = h i (omega (arith, length-append xs ys)) ∙ get_or_left xs ys i l

pub Holds-right :
    (m : Memory) (p : ℕ) (xs ys : List ℕ) → Holds m p (xs ++ ys) → Holds m (p + length xs) ys
Holds-right m p xs ys h i l =
    ap m (omega arith)
    ∙ h (length xs + i) (omega (arith, length-append xs ys))
    ∙ get_or_right xs ys i

pub Holds-le16 : (m : Memory) (p n : ℕ) → n < 65536 → Holds m p (le16 n) → get16 m p ≡ n
Holds-le16 m p n b h = omega (arith, h 0 (omega arith), h 1 (omega arith), ap m (add-zero p))

pub Holds-le32 : (m : Memory) (p n : ℕ) → n < u32_mod → Holds m p (le32 n) → get32 m p ≡ n
Holds-le32 m p n b h = omega (
  arith,
  h 0 (omega arith),
  h 1 (omega arith),
  h 2 (omega arith),
  h 3 (omega arith),
  ap m (add-zero p),
)

pub Holds-read_bytes :
    (m : Memory) (p : ℕ) (bs : List ℕ) → Holds m p bs → read_bytes m p (length bs) ≡ bs
Holds-read_bytes m p bs h = read_bytes-get_or bs m p h

pub Holds-poke : (m : Memory) (p : ℕ) (bs : List ℕ) → Holds (poke m p bs) p bs
Holds-poke m p bs = poke_at m p bs

-- A copy to another range leaves what the memory has.
pub Holds-poke_above :
    (m : Memory) (p : ℕ) (xs : List ℕ) (q : ℕ) (ys : List ℕ)
    → p + length xs ≤ q
    → Holds m p xs
    → Holds (poke m q ys) p xs
Holds-poke_above m p xs q ys l h i k = poke_below m q ys (p + i) (omega arith) ∙ h i k

pub Holds-poke_below :
    (m : Memory) (p : ℕ) (xs : List ℕ) (q : ℕ) (ys : List ℕ)
    → q + length ys ≤ p
    → Holds m p xs
    → Holds (poke m q ys) p xs
Holds-poke_below m p xs q ys l h i k = poke_above m q ys (p + i) (omega arith) ∙ h i k

pub Holds-at : (m : Memory) (p q : ℕ) (bs : List ℕ) → p ≡ q → Holds m p bs → Holds m q bs
Holds-at m p q bs e h = subst (λ k. Holds m k bs) e h
