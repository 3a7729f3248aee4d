-- ===== src/Ini/Values/Slots.antt =====
-- source/ini.c: the sizes of an array of values, and its slots against a list.
use ucmq.Prelude.{
  ℕ, zero, suc, ◌*◌, ◌^◌, ◌≤◌, ◌<◌, ◌≡◌, refl, ap, ◌∙◌, Bool_cases, inl, inr, some, none, List, [],
  ◌∷◌, ◌++◌, arith, length, length-append, ltb, ◌==◌, if◌then◌else◌,
}
use native.Mathlib.Nat.{pow-suc, pow-le-pow_right}
use ucmq.Ini.{nth_value}

-- The sizes of an array.
abbrev pub IsPower : ℕ → Type 0
IsPower size = (k : ℕ) × (size ≡ 2 ^ k) × (k ≤ 15)

pub IsPower-small : (size : ℕ) → IsPower size → size ≤ 32768
IsPower-small size (k, e, small) =
    let most : 2 ^ k ≤ 2 ^ 15 = pow-le-pow_right (omega arith) small in omega (arith, e, most)

pub IsPower-twice : (size : ℕ) → IsPower size → size < 32768 → IsPower (size * 2)
IsPower-twice size (k, e, small) less = elim (Bool_cases (ltb k 15)) [
  | inl room ↦ (suc k, omega (arith, e, pow-suc 2 k), ground arith)
  | inr top ↦
      let last : k ≡ 15 = ground (arith, top, small) in
      let full : size ≡ 2 ^ 15 = e ∙ ap (λ n. 2 ^ n) last in absurd (omega (arith, full, less))
]

nth-front :
    (texts : List (List ℕ)) (text : List ℕ) (i : ℕ)
    → i < length texts
    → nth_value (texts ++ text ∷ []) i ≡ nth_value texts i
unfolding nth_value
nth-front [] text i h = absurd (omega arith)
nth-front (t ∷ texts) text zero h = refl
nth-front (t ∷ texts) text (suc i) h = nth-front texts text i (omega arith)

nth-last :
    (texts : List (List ℕ)) (text : List ℕ)
    → nth_value (texts ++ text ∷ []) (length texts) ≡ some text
unfolding nth_value
nth-last [] text = refl
nth-last (t ∷ texts) text = nth-last texts text

pub nth-past : (texts : List (List ℕ)) (i : ℕ) → length texts ≤ i → nth_value texts i ≡ none
unfolding nth_value
nth-past [] i h = refl
nth-past (t ∷ texts) zero h = absurd (omega arith)
nth-past (t ∷ texts) (suc i) h = nth-past texts i (omega arith)

module _ (texts : List (List ℕ)) (text : List ℕ) (slots : ℕ → List ℕ)
    (held : (i : ℕ) → i < length texts → nth_value texts i ≡ some (slots i)) where
  pub all_held :
      (i : ℕ)
      → i < length (texts ++ text ∷ [])
      → nth_value (texts ++ text ∷ []) i ≡ some (if i == length texts then text else slots i)
  all_held i h = elim (Bool_cases (i == length texts)) [
    | inl last ↦
        let at : i ≡ length texts = ground arith in
        rw last (ap (nth_value (texts ++ text ∷ [])) at ∙ nth-last texts text)
    | inr front ↦
        let before : i < length texts = ground (arith, front, h, length-append texts (text ∷ [])) in
        rw front (nth-front texts text i before ∙ held i before)
  ]
