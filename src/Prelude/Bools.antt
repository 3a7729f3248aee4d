-- ===== src/Prelude/Bools.antt =====
-- Boolean tests on the native numbers, and the conditional.
use Prim.Native.Nat.{ℕ, zero, suc, ◌≤◌, ◌<◌, compare, Ordering}
use mathlib.Core.Path.{◌≡◌, refl, ap, ◌∙◌}
use mathlib.Core.Logic.{◌↔◌, ◌⊎◌, inl, inr}
use mathlib.Core.Bool.{Bool, true, false, ◌&&◌}
use mathlib.Core.Option.{Option, none, some}
use native.Mathlib.Omega.{arith}

abbrev pub ltb : ℕ → ℕ → Bool
ltb a b = elim (compare a b) [ Ordering.lt ↦ true | _ ↦ false ]

abbrev pub leb : ℕ → ℕ → Bool
leb a b = elim (compare a b) [ Ordering.gt ↦ false | _ ↦ true ]

infix 50 ◌==◌
abbrev pub ◌==◌ : ℕ → ℕ → Bool
a == b = elim (compare a b) [ Ordering.eq ↦ true | _ ↦ false ]

infix 1 if◌then◌else◌
abbrev pub if◌then◌else◌ {ℓ} : {A : Type ℓ} → Bool → A → A → A
if true then x else y = x
if false then x else y = y

pub ltb→lt : (a b : ℕ) → ltb a b ≡ true → a < b
ltb→lt a b h = ground arith

pub lt→ltb : (a b : ℕ) → a < b → ltb a b ≡ true
lt→ltb a b h = ground arith

pub le→ltb : (a b : ℕ) → b ≤ a → ltb a b ≡ false
le→ltb a b h = ground arith

pub le→leb : (a b : ℕ) → a ≤ b → leb a b ≡ true
le→leb a b h = ground arith

pub leb→le : (a b : ℕ) → leb a b ≡ true → a ≤ b
leb→le a b h = ground arith

pub ==_iff : (a b : ℕ) → ((a == b) ≡ true) ↔ (a ≡ b)
==_iff a b = ground arith

-- To split on a computed value and keep the equation.
pub Bool_cases : (b : Bool) → (b ≡ true) ⊎ (b ≡ false)
Bool_cases true = inl refl
Bool_cases false = inr refl

pub Option_cases {ℓ} : {A : Type ℓ} (o : Option A) → (o ≡ none) ⊎ ((a : A) × (o ≡ some a))
Option_cases none = inl refl
Option_cases (some a) = inr (a, refl)

-- A test that is passed by all the numbers below a bound, so that a table is settled by evaluation.
unfoldable pub passes : (ℕ → Bool) → ℕ → Bool
passes test zero = true
passes test (suc bound) = passes test bound && test bound

pub passes_each :
    (test : ℕ → Bool) (bound i : ℕ) → i < bound → passes test bound ≡ true → test i ≡ true
unfolding passes
passes_each test zero i below h = absurd (omega arith)
passes_each test (suc bound) i below h = elim (Bool_cases (leb bound i)) [
  | inl top ↦ ap test {y = bound} (ground arith) ∙ ground arith
  | inr low ↦ passes_each test bound i (ground arith) (ground arith)
]

-- A conditional has what both its branches have.
pub either_way {ℓ κ} :
    {A : Type ℓ} {yes no_ : A} (P : A → Type κ)
    → (b : Bool) → P yes
    → P no_
    → P (if b then yes else no_)
either_way P true left right = left
either_way P false left right = right

-- The same, where each branch may use how the test came out.
pub by_test {ℓ κ} :
    {A : Type ℓ} {yes no_ : A} (P : A → Type κ) (b : Bool)
    → (b ≡ true → P yes)
    → (b ≡ false → P no_)
    → P (if b then yes else no_)
by_test P true left right = left refl
by_test P false left right = right refl
