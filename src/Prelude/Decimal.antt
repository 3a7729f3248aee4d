-- ===== src/Prelude/Decimal.antt =====
-- Decimal digits, as `printf` writes them with a minimal width and zeros in front.
use Prim.Native.Nat.{ℕ, zero, suc, ◌+◌, ◌/◌, ◌%◌, ◌^◌, ◌≤◌, ◌<◌}
use mathlib.Core.Path.{◌≡◌, refl}
use mathlib.Core.List.{List, [], ◌∷◌, ◌++◌}
use native.Mathlib.Omega.{arith}
use ucmq.Prelude.Bools.{ltb, if◌then◌else◌}
use ucmq.Prelude.Lists.{All, length, length-append}

-- The lowest `w` digits.
unfoldable pub fixed : ℕ → ℕ → List ℕ
fixed zero n = []
fixed (suc w) n = fixed w (n / 10) ++ (48 + n % 10) ∷ []

-- The width that a number needs, if it is more than `w`; 20 digits more hold any word.
width_from : ℕ → ℕ → ℕ → ℕ
width_from zero w n = w
width_from (suc fuel) w n =
    let wider = width_from fuel (w + 1) n in if ltb n (10 ^ w) then w else wider

-- "%0wu"
unfoldable pub padded : ℕ → ℕ → List ℕ
unfolding width_from
padded w n = fixed (width_from 20 w n) n

pub padded-eq-fixed : (w n : ℕ) → n < 10 ^ w → padded w n ≡ fixed w n
unfolding padded
padded-eq-fixed w n h = ground arith

pub length-fixed : (w n : ℕ) → length (fixed w n) ≡ w
unfolding fixed
length-fixed zero n = refl
length-fixed (suc w) n =
    omega (arith, length-append (fixed w (n / 10)) ((48 + n % 10) ∷ []), length-fixed w (n / 10))

abbrev pub IsDigit : ℕ → Type 0
IsDigit c = (48 ≤ c) × (c ≤ 57)

All-IsDigit-append : (xs : List ℕ) (c : ℕ) → All IsDigit xs → IsDigit c → All IsDigit (xs ++ c ∷ [])
All-IsDigit-append [] c h d = (d, tt)
All-IsDigit-append (x ∷ xs) c h d = (h.0, All-IsDigit-append xs c h.1 d)

pub fixed-IsDigit : (w n : ℕ) → All IsDigit (fixed w n)
unfolding fixed
fixed-IsDigit zero n = tt
fixed-IsDigit (suc w) n =
    All-IsDigit-append (fixed w (n / 10)) (48 + n % 10) (fixed-IsDigit w (n / 10)) (omega arith)
