-- ===== src/Prelude/Run.antt =====
-- The outcome of C code that may touch memory that is not there, or that a loop's fuel may stop.
use mathlib.Core.Path.{◌≡◌, refl, subst}

pub data Run {ℓ} (A : Type ℓ) : Type ℓ where
  ret : A → Run A
  fault out_of_fuel : Run A

infixl 5 ◌>>=◌
abbrev pub ◌>>=◌ {ℓ κ} : {A : Type ℓ} {B : Type κ} → Run A → (A → Run B) → Run B
ret a >>= f = f a
fault >>= f = fault
out_of_fuel >>= f = out_of_fuel

-- A property of what a run returns, where it returns.
abbrev pub Held : {A : Type 0} → (A → Type 0) → Run A → Type 0
Held P (ret a) = P a
Held P fault = Unit
Held P out_of_fuel = Unit

pub bind-Held :
    {A B : Type 0} (P : A → Type 0) (Q : B → Type 0) (k : A → Run B) (r : Run A)
    → Held P r
    → ((a : A) → P a → Held Q (k a))
    → Held Q (r >>= k)
bind-Held P Q k (ret a) h keeps = keeps a h
bind-Held P Q k fault h keeps = tt
bind-Held P Q k out_of_fuel h keeps = tt

pub Held-ret : {A : Type 0} (P : A → Type 0) (r : Run A) (a : A) → Held P r → r ≡ ret a → P a
Held-ret P r a h e = subst (Held P) e h

pub Held-any : {A : Type 0} (r : Run A) → Held (λ _. Unit {0}) r
Held-any (ret a) = tt
Held-any fault = tt
Held-any out_of_fuel = tt

pub Held-weaken :
    {A : Type 0} (P Q : A → Type 0) (r : Run A) → Held P r → ((a : A) → P a → Q a) → Held Q r
Held-weaken P Q (ret a) h weaker = weaker a h
Held-weaken P Q fault h weaker = tt
Held-weaken P Q out_of_fuel h weaker = tt

-- What a run returns is what it returns.
pub Held-self : {A : Type 0} (r : Run A) → Held (λ a. r ≡ ret a) r
Held-self (ret a) = refl
Held-self fault = tt
Held-self out_of_fuel = tt

pub Held-both :
    {A : Type 0} (P Q : A → Type 0) (r : Run A) → Held P r → Held Q r → Held (λ a. P a × Q a) r
Held-both P Q (ret a) h k = (h, k)
Held-both P Q fault h k = tt
Held-both P Q out_of_fuel h k = tt
