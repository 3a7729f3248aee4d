-- ===== src/Ini/Values/Kept.antt =====
-- source/ini.c: what adding a value keeps: the texts are there, in order, and the size of the array is
-- a power of two.
use ucmq.Prelude.{
  ℕ, ◌+◌, ◌*◌, ◌%◌, ◌^◌, ◌≤◌, ◌<◌, ◌≡◌, refl, ap, ◌∙◌, sym, Bool_cases, subst, append-nil, inl, inr,
  some, List, [], ◌∷◌, ◌++◌, append_assoc, arith, length, length-append, leb, ◌==◌, lt→ltb,
  if◌then◌else◌,
}
use ucmq.Prelude.Run.{ret, ◌>>=◌}
use ucmq.Ini.{nth_value}
use ucmq.Ini.Values.Slots.{IsPower, IsPower-small, IsPower-twice, nth-past, all_held}
use ucmq.Ini.Values.{
  Stored, value, values, IniValues, first_value, make_array, double_array, put_slot, add_value,
  add_values, value_at,
}

-- The texts are there, in order.
abbrev pub Shape : ℕ → Stored → List (List ℕ) → Type 0
Shape size (value p) texts = (size ≡ 0) × (texts ≡ p ∷ [])
Shape size (values room slots) texts =
    (room ≡ size)
    × (1 < size)
    × IsPower size
    × (length texts ≤ size)
    × ((i : ℕ) → i < length texts → nth_value texts i ≡ some (slots i))

pub record Keeps (kv : IniValues) (texts : List (List ℕ)) : Type 0 where
  pub count : kv.value_count ≡ length texts
  pub shape : Shape kv.values_size kv.stored texts

-- An array of `size` slots.
abbrev pub array : List (List ℕ) → ℕ → (ℕ → List ℕ) → IniValues
array texts size slots = record {
  value_count = length texts;
  values_size = size;
  stored = values size slots;
}

-- Less than 65535 values are counted without a wrap.
put_kept :
    (texts : List (List ℕ)) (text : List ℕ) (size : ℕ) (slots : ℕ → List ℕ)
    → Keeps (array texts size slots) texts
    → length texts < size
    → (kv : IniValues) × (put_slot text (array texts size slots) ≡ ret kv)
      × Keeps kv (texts ++ text ∷ [])
unfolding put_slot
put_kept texts text size slots keeps room =
    let (same, big, small, fits, held) = keeps.shape in
    let most = IsPower-small size small in
    let longer = length-append texts (text ∷ []) in
    (
      record {
        value_count = (length texts + 1) % 2 ^ 16;
        values_size = size;
        stored = values size (λ i. if i == length texts then text else slots i);
      },
      rw (lt→ltb (length texts) size room) refl,
      record {
        count = omega (arith, longer);
        shape = (refl, big, small, omega (arith, longer), all_held texts text slots held);
      },
    )

grow_kept :
    (texts : List (List ℕ)) (size : ℕ) (slots : ℕ → List ℕ)
    → Keeps (array texts size slots) texts
    → length texts < 32768
    → (size' : ℕ) × (double_array (array texts size slots) ≡ ret (array texts size' slots))
      × Keeps (array texts size' slots) texts
      × (length texts < size')
unfolding double_array
grow_kept texts size slots keeps few =
    let (same, big, small, fits, held) = keeps.shape in
    elim (Bool_cases (leb size (length texts))) [
      | inl full ↦
          let enough : size ≤ length texts = ground arith in
          let no_wrap : size * 2 % 2 ^ 16 ≡ size * 2 = omega (arith, few, enough) in
          (
            size * 2,
            rw (full, no_wrap) refl,
            record {
              count = refl;
              shape = (
                refl,
                omega arith,
                IsPower-twice size small (omega (arith, enough, few)),
                omega arith,
                held,
              );
            },
            omega arith,
          )
      | inr room ↦ (size, rw room refl, keeps, ground arith)
    ]

-- The text behind the key becomes an array of eight.
pub first_array :
    (count size : ℕ) (stored : Stored) (texts : List (List ℕ))
    → count ≡ length texts
    → Shape size stored texts
    → (size' : ℕ) × (slots : ℕ → List ℕ) × (make_array
          record { value_count = count; values_size = size; stored = stored }
        ≡ ret (array texts size' slots))
      × Keeps (array texts size' slots) texts
unfolding make_array nth_value
first_array count size (value p) texts counts (none_yet, only) =
    let one : length texts ≡ 1 = ap length only in
    let first : (i : ℕ) → i < length texts → nth_value texts i ≡ some p = λ i h.
      ap (nth_value texts) {x = i} {y = 0} (omega (arith, one)) ∙ ap (λ t. nth_value t 0) only in
    (
      8,
      (λ i. p),
      rw (none_yet, counts) refl,
      record {
        count = refl;
        shape = (refl, omega arith, (3, refl, omega arith), omega (arith, one), first);
      },
    )
first_array count size (values room slots) texts counts (same, big, small, fits, held) = (
  size,
  slots,
  rw (same, counts) (ground arith),
  record { count = refl; shape = (refl, big, small, fits, held) },
)

add_kept :
    (kv : IniValues) (texts : List (List ℕ)) (text : List ℕ)
    → Keeps kv texts
    → length texts < 32768
    → (kv' : IniValues) × (add_value text kv ≡ ret kv') × Keeps kv' (texts ++ text ∷ [])
unfolding add_value
add_kept kv texts text keeps few =
    let (size, slots, made, keeps') =
      first_array kv.value_count kv.values_size kv.stored texts keeps.count keeps.shape in
    let (size', doubled, keeps'', room) = grow_kept texts size slots keeps' few in
    let (kv', put, kept) = put_kept texts text size' slots keeps'' room in
    (
      kv',
      ap (λ r. r >>= λ k. double_array k >>= put_slot text) made
          ∙ ap (λ r. r >>= put_slot text) doubled
          ∙ put,
      kept,
    )

all_kept :
    (kv : IniValues) (before texts : List (List ℕ))
    → Keeps kv before
    → length before + length texts ≤ 32768
    → (kv' : IniValues) × ((later : List (List ℕ))
        → add_values (texts ++ later) kv ≡ add_values later kv')
      × Keeps kv' (before ++ texts)
unfolding add_values
all_kept kv before [] keeps few =
    (kv, (λ later. refl), subst (Keeps kv) (sym (append-nil before)) keeps)
all_kept kv before (text ∷ texts) keeps few =
    let (kv', one, keeps') = add_kept kv before text keeps (omega arith) in
    let (kv'', rest, kept) =
      all_kept kv' (before ++ text ∷ []) texts keeps'
        (omega (arith, length-append before (text ∷ []))) in
    (
      kv'',
      λ later. ap (λ r. r >>= add_values (texts ++ later)) one ∙ rest later,
      subst (Keeps kv'') (append_assoc before (text ∷ []) texts) kept,
    )

pub found :
    (count size : ℕ) (stored : Stored) (texts : List (List ℕ)) (i : ℕ)
    → count ≡ length texts
    → Shape size stored texts
    → value_at record { value_count = count; values_size = size; stored = stored } i
      ≡ ret (nth_value texts i)
unfolding value_at nth_value
found count size (value p) texts i counts (none_yet, only) = elim (Bool_cases (leb count i)) [
  | inl past ↦ rw past (ap ret (sym (nth-past texts i (ground arith))))
  | inr there ↦
      let one : length texts ≡ 1 = ap length only in
      let at : i ≡ 0 = ground (arith, there, counts, one) in
      rw (there, none_yet) (ap ret (sym (ap (nth_value texts) at ∙ ap (λ t. nth_value t 0) only)))
]
found count size (values room slots) texts i counts (same, big, small, fits, held) =
    elim (Bool_cases (leb count i)) [
      | inl past ↦ rw past (ap ret (sym (nth-past texts i (ground arith))))
      | inr there ↦
          let inside : i < length texts = ground (arith, there, counts) in
          ground (arith, there, same, held i inside, inside)
    ]

-- After the first value and those behind it.
pub many_kept :
    (text : List ℕ) (texts : List (List ℕ))
    → length (text ∷ texts) ≤ 32768
    → (kv : IniValues) × ((later : List (List ℕ))
        → add_values (texts ++ later) (first_value text) ≡ add_values later kv)
      × Keeps kv (text ∷ texts)
many_kept text texts few =
    all_kept (first_value text) (text ∷ []) texts record { count = refl; shape = (refl, refl) }
      (omega (arith, few))
