-- ===== src/Ini.antt =====
-- source/ini.c: the table of settings and the loading of a file. The table is a list of keys, each with its
-- values, in the order of insertion, of which there may be any number here (Ini/Values has the array
-- that holds them). There is memory enough. The two formats of the library's
-- `sscanf` are functions of a line.
pub mod Table
pub mod Replace
pub mod Variable
pub mod Values
use ucmq.Prelude.{
  ℕ, zero, suc, ◌+◌, Bool, true, false, ◌&&◌, ◌||◌, Option, none, some, List, [], ◌∷◌, ◌++◌, length,
  take, ltb, leb, ◌==◌, if◌then◌else◌,
}
use ucmq.Prelude.Run.{Run, ret, fault, ◌>>=◌}
use ucmq.QueueManage.Table.{same_name}

-- ini_kv_t
pub record IniKv : Type 0 where
  pub key : List ℕ
  pub values : List (List ℕ)

abbrev pub token_size : ℕ
token_size = 1024

-- `add_key_value`: a new key, or one value more of a key that is there.
unfoldable pub add_key_value : List IniKv → List ℕ → List ℕ → List IniKv
unfolding same_name
add_key_value [] key value = record { key = key; values = value ∷ [] } ∷ []
add_key_value (kv ∷ ini) key value =
    let rest = add_key_value ini key value in
    if same_name kv.key key then record kv { values = kv.values ++ value ∷ [] } ∷ ini else kv ∷ rest

-- HASH_FIND_STR
unfoldable pub find_values : List IniKv → List ℕ → List (List ℕ)
unfolding same_name
find_values [] key = []
find_values (kv ∷ ini) key =
    let rest = find_values ini key in if same_name kv.key key then kv.values else rest

unfoldable pub nth_value : List (List ℕ) → ℕ → Option (List ℕ)
nth_value [] i = none
nth_value (value ∷ values) zero = some value
nth_value (value ∷ values) (suc i) = nth_value values i

-- The value at an index, and how many there are.
unfoldable pub find_key : List IniKv → List ℕ → ℕ → Option (List ℕ) × ℕ
unfolding find_values nth_value
find_key ini key idx = (nth_value (find_values ini key) idx, length (find_values ini key))

-- "section:key", of at most 2048 characters.
unfoldable pub full_key : List ℕ → List ℕ → List ℕ
full_key [] key = key
full_key (c ∷ section) key = take 2048 ((c ∷ section) ++ b':' ∷ key)

unfoldable pub ini_find : List IniKv → List ℕ → List ℕ → ℕ → Option (List ℕ)
unfolding find_key full_key
ini_find ini section key idx = (find_key ini (full_key section key) idx).0

unfoldable pub ini_count : List IniKv → List ℕ → List ℕ → ℕ
unfolding find_key full_key
ini_count ini section key = (find_key ini (full_key section key) 0).1

-- isspace
unfoldable pub is_space : ℕ → Bool
is_space c = c == b' ' || (leb 9 c && leb c 13)

unfoldable pub trim_start : List ℕ → List ℕ
unfolding is_space
trim_start [] = []
trim_start (c ∷ text) = let rest = trim_start text in if is_space c then rest else c ∷ text

unfoldable pub all_space : List ℕ → Bool
unfolding is_space
all_space [] = true
all_space (c ∷ text) = is_space c && all_space text

unfoldable pub drop_end : List ℕ → List ℕ
unfolding all_space
drop_end [] = []
drop_end (c ∷ text) = let rest = drop_end text in if all_space (c ∷ text) then [] else c ∷ rest

-- `trim_str` with both ends. On a text of spaces alone the end is looked for before the buffer.
unfoldable pub trim_both : List ℕ → Run (List ℕ)
unfolding all_space trim_start drop_end
trim_both [] = ret []
trim_both (c ∷ text) =
    if all_space (c ∷ text) then fault else ret (trim_start (drop_end (c ∷ text)))

module _ (scan_section : List ℕ → Option (List ℕ))
    (scan_pair : List ℕ → Option (List ℕ × List ℕ)) where
  -- A key and a value: `sec` is what stands before the key.
  unfoldable pub add_pair :
      List ℕ → List IniKv → Option (List ℕ × List ℕ) → Run (List ℕ × List IniKv)
  unfolding add_key_value trim_both
  add_pair sec ini none = ret (sec, ini)
  add_pair sec ini (some (key, val)) = do
    cur_key ← trim_both (sec ++ key)
    cur_val ← trim_both val
    ret (sec, add_key_value ini cur_key cur_val)

  -- "[section]", or a pair where the bracket starts none.
  unfoldable pub open_section :
      List ℕ → List IniKv → List ℕ → Option (List ℕ) → Run (List ℕ × List IniKv)
  unfolding add_pair
  open_section sec ini text (some name) = ret (name ++ b':' ∷ [], ini)
  open_section sec ini text none = add_pair sec ini (scan_pair text)

  -- The `switch` on the first character of a line.
  unfoldable pub load_text : List ℕ → List IniKv → List ℕ → Run (List ℕ × List IniKv)
  unfolding open_section
  load_text sec ini [] = ret (sec, ini)
  load_text sec ini (c ∷ text) =
      if c == b';' || c == b'#'
      then ret (sec, ini)
      else if c == b'['
      then open_section sec ini (c ∷ text) (scan_section (c ∷ text))
      else add_pair sec ini (scan_pair (c ∷ text))

  -- The loop over the lines of the file.
  unfoldable pub load_lines : List (List ℕ) → List ℕ → List IniKv → Run (List IniKv)
  unfolding load_text trim_start
  load_lines [] sec ini = ret ini
  load_lines (line ∷ lines) sec ini = do
    (sec', ini') ← load_text sec ini (trim_start line)
    load_lines lines sec' ini'
