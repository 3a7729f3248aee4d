-- ===== src/Ini/Values.antt =====
-- source/ini.c: the values of one key as the library keeps them in memory: one text behind the key, or
-- an array of pointers that `add_key_value` doubles. The numbers of lines, which grow in step, are
-- left out, and there is memory enough. A write or a read outside an array, and a text that is taken
-- for an array, is a fault; a slot that was never written has any text.
pub mod Slots
pub mod Kept
pub mod Refine
use ucmq.Prelude.{
  ℕ, suc, ◌+◌, ◌*◌, ◌%◌, ◌^◌, Option, some, none, List, [], ◌∷◌, ◌==◌, ltb, leb, if◌then◌else◌,
}
use ucmq.Prelude.Run.{Run, ret, fault, ◌>>=◌}

-- The union of `value` and `values`; for an array, how many pointers it has room for.
pub data Stored : Type 0 where
  value : List ℕ → Stored
  values : ℕ → (ℕ → List ℕ) → Stored

-- The rest of `ini_kv_t`.
pub record IniValues : Type 0 where
  pub value_count : ℕ
  pub values_size : ℕ
  pub stored : Stored

-- A key that is new.
abbrev pub first_value : List ℕ → IniValues
first_value text = record { value_count = 1; values_size = 0; stored = value text }

-- The second value makes the array. An array that is taken for a text gives a slot without one.
unfoldable pub make_array : IniValues → Run IniValues
make_array kv =
    if kv.values_size == 0
    then elim kv.stored [
      | value p ↦ ret record kv { values_size = 8; stored = values 8 (λ i. p) }
      | values room texts ↦ ret record kv { values_size = 8; stored = values 8 (λ i. []) }
    ]
    else ret kv

-- A full array is copied to one of twice the size. `values_size` has 16 bits, the size that is asked
-- for has not.
unfoldable pub double_array : IniValues → Run IniValues
double_array kv =
    if leb kv.values_size kv.value_count
    then elim kv.stored [
      | value p ↦ fault
      | values room texts ↦ ret record kv {
        values_size = kv.values_size * 2 % 2 ^ 16;
        stored = values (kv.values_size * 2) texts;
      }
    ]
    else ret kv

unfoldable pub put_slot : List ℕ → IniValues → Run IniValues
put_slot text kv = elim kv.stored [
  | value p ↦ fault
  | values room texts ↦
      if ltb kv.value_count room
      then ret record kv {
        value_count = (kv.value_count + 1) % 2 ^ 16;
        stored = values room (λ i. if i == kv.value_count then text else texts i);
      }
      else fault
]

unfoldable pub add_value : List ℕ → IniValues → Run IniValues
unfolding make_array double_array put_slot
add_value text kv = do kv' ← make_array kv; kv'' ← double_array kv'; put_slot text kv''

-- The values of a key, one after the other.
unfoldable pub add_values : List (List ℕ) → IniValues → Run IniValues
add_values [] kv = ret kv
add_values (text ∷ texts) kv = do kv' ← add_value text kv; add_values texts kv'

-- The end of `find_key`.
unfoldable pub value_at : IniValues → ℕ → Run (Option (List ℕ))
value_at kv idx = if leb kv.value_count idx then ret none else elim kv.stored [
  | value p ↦ if leb kv.values_size 1 then ret (some p) else fault
  | values room texts ↦
      if leb kv.values_size 1 then fault else if ltb idx room then ret (some (texts idx)) else fault
]
