-- ===== src/Ini/Table.antt =====
-- source/ini.c: what `find_key` finds after `add_key_value`.
use ucmq.Prelude.{
  ℕ, ◌≡◌, ap, ap₂, ◌∙◌, sym, true, Bool_cases, inl, inr, List, [], ◌∷◌, ◌++◌, append-nil,
  append_assoc, arith, if◌then◌else◌,
}
use ucmq.QueueManage.Table.{same_name}
use ucmq.QueueManage.Table.Lookup.{same_name_self, same_name_eq}
use ucmq.Ini.{IniKv, add_key_value, find_values}

-- Another name does not match both.
same_name_other : (a b k : List ℕ) → same_name a b ≡ true → same_name a k ≡ same_name b k
same_name_other a b k h = ap (λ t. same_name t k) (same_name_eq a b h)

pub find_values-add_key_value :
    (ini : List IniKv) (key value k : List ℕ)
    → find_values (add_key_value ini key value) k
      ≡ (if same_name key k then find_values ini k ++ value ∷ [] else find_values ini k)
unfolding find_values add_key_value
find_values-add_key_value [] key value k = elim (Bool_cases (same_name key k)) [
  | inl same ↦ ground (arith, same)
  | inr other ↦ ground (arith, other)
]
find_values-add_key_value (kv ∷ ini) key value k = elim (Bool_cases (same_name kv.key key)) [
  | inl here ↦ elim (Bool_cases (same_name key k)) [
    | inl same ↦ ground (arith, here, same, same_name_other kv.key key k here)
    | inr other ↦ ground (arith, here, other, same_name_other kv.key key k here)
  ]
  | inr there ↦ elim (Bool_cases (same_name key k)) [
    | inl same ↦ elim (Bool_cases (same_name kv.key k)) [
      | inl both ↦ absurd (
          ground (
            arith,
            there,
            ap₂ same_name (same_name_eq kv.key k both) (same_name_eq key k same) ∙ same_name_self k,
          ))
      | inr apart ↦ ground (arith, there, same, apart, find_values-add_key_value ini key value k)
    ]
    | inr other ↦ elim (Bool_cases (same_name kv.key k)) [
      | inl both ↦ ground (arith, there, other, both)
      | inr apart ↦ ground (arith, there, other, apart, find_values-add_key_value ini key value k)
    ]
  ]
]

-- The values of a key from pairs in the order of the file.
abbrev add_all : List IniKv → List (List ℕ × List ℕ) → List IniKv
add_all ini [] = ini
add_all ini ((key, value) ∷ pairs) = add_all (add_key_value ini key value) pairs

abbrev values_of : List ℕ → List (List ℕ × List ℕ) → List (List ℕ)
values_of k [] = []
values_of k ((key, value) ∷ pairs) =
    if same_name key k then value ∷ values_of k pairs else values_of k pairs

-- After pairs of keys and values are added to a table, a key has the values it had and then the
-- values of the pairs with that key, in order.
find_values-add_all :
    (ini : List IniKv) (pairs : List (List ℕ × List ℕ)) (k : List ℕ)
    → find_values (add_all ini pairs) k ≡ find_values ini k ++ values_of k pairs
find_values-add_all ini [] k = sym (append-nil (find_values ini k))
find_values-add_all ini ((key, value) ∷ pairs) k = elim (Bool_cases (same_name key k)) [
  | inl same ↦
      find_values-add_all (add_key_value ini key value) pairs k
      ∙ ap (λ t. t ++ values_of k pairs)
          (find_values-add_key_value ini key value k
            ∙ ap (λ b. if b then find_values ini k ++ value ∷ [] else find_values ini k) same)
      ∙ append_assoc (find_values ini k) (value ∷ []) (values_of k pairs)
      ∙ ap (λ b. find_values ini k ++ (if b then value ∷ values_of k pairs else values_of k pairs))
          (sym same)
  | inr other ↦
      find_values-add_all (add_key_value ini key value) pairs k
      ∙ ap (λ t. t ++ values_of k pairs)
          (find_values-add_key_value ini key value k
            ∙ ap (λ b. if b then find_values ini k ++ value ∷ [] else find_values ini k) other)
      ∙ ap (λ b. find_values ini k ++ (if b then value ∷ values_of k pairs else values_of k pairs))
          (sym other)
]
