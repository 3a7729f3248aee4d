-- ===== src/Ini/Values/Refine.antt =====
-- source/ini.c: the array of a key's values against the list of them, and where it ends.
use ucmq.Prelude.{ℕ, ◌≤◌, ◌≡◌, refl, ap, ◌∙◌, sym, append-nil, List, [], ◌∷◌, ◌++◌, arith, length}
use ucmq.Prelude.Run.{ret, fault, ◌>>=◌}
use ucmq.Ini.{nth_value}
use ucmq.Ini.Values.{
  values, IniValues, first_value, make_array, double_array, put_slot, add_value, add_values,
  value_at,
}
use ucmq.Ini.Values.Slots.{IsPower-small}
use ucmq.Ini.Values.Kept.{first_array, found, many_kept}

-- The values of one key, 32768 at most, are added one after the other to the first without a fault,
-- and then are counted in full, and the value at each index is that of the list, or none behind
-- its end.
pub value_at-add_values :
    (text : List ℕ) (texts : List (List ℕ))
    → length (text ∷ texts) ≤ 32768
    → (kv : IniValues) × (add_values texts (first_value text) ≡ ret kv)
      × (kv.value_count ≡ length (text ∷ texts))
      × ((i : ℕ) → value_at kv i ≡ ret (nth_value (text ∷ texts) i))
unfolding add_values
value_at-add_values text texts few =
    let (kv, run, keeps) = many_kept text texts few in
    (
      kv,
      ap (λ t. add_values t (first_value text)) (sym (append-nil texts)) ∙ run [],
      keeps.count,
      λ i. found kv.value_count kv.values_size kv.stored (text ∷ texts) i keeps.count keeps.shape,
    )

-- The size of the full array wraps to 0, so that the value behind the next is put into a new array
-- of 16 slots, at the index 32769.
wraps :
    (count size : ℕ) (slots : ℕ → List ℕ) (a b : List ℕ)
    → count ≡ 32768
    → size ≡ 32768
    → (double_array record { value_count = count; values_size = size; stored = values size slots }
        >>= put_slot a
        >>= add_values (b ∷ []))
      ≡ fault
unfolding double_array put_slot add_values add_value make_array
wraps count size slots a b counts full = rw (counts, full) refl

-- Where a key has 32768 values, the second value that is added to them is written outside the
-- array.
pub add_values_overflow :
    (text a b : List ℕ) (texts : List (List ℕ))
    → length (text ∷ texts) ≡ 32768
    → add_values (texts ++ a ∷ b ∷ []) (first_value text) ≡ fault
unfolding add_values add_value
add_values_overflow text a b texts many =
    let (kv, run, keeps) = many_kept text texts (omega (arith, many)) in
    let (size, slots, made, kept) =
      first_array kv.value_count kv.values_size kv.stored (text ∷ texts) keeps.count keeps.shape in
    let (same, big, power, fits, held) = kept.shape in
    run (a ∷ b ∷ [])
    ∙ ap (λ r. (r >>= λ k. double_array k >>= put_slot a) >>= add_values (b ∷ [])) made
    ∙ wraps (length (text ∷ texts)) size slots a b many
        (omega (arith, IsPower-small size power, fits, many))
