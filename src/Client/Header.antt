-- ===== src/Client/Header.antt =====
-- client/c/mq_client.c: the text of a reply. The library's `atoi` gives a 32-bit pattern.
pub mod Body
use ucmq.Prelude.{
  ℕ, suc, zero, ◌+◌, ◌-◌, Bool, true, false, ◌&&◌, ◌||◌, Option, none, some, List, [], ◌∷◌, ◌==◌,
  ltb, leb, if◌then◌else◌, length, drop,
}
use ucmq.Prelude.Run.{Run, ret, fault, ◌>>=◌}
use ucmq.StoreFile.Find.{starts_with}
use ucmq.Client.{int_minus_one}

-- The characters before the terminating zero.
unfoldable pub c_str : List ℕ → List ℕ
c_str [] = []
c_str (c ∷ text) = let rest = c_str text in if c == 0 then [] else c ∷ rest

-- tolower
unfoldable pub lower : ℕ → ℕ
lower c = if leb b'A' c && leb c b'Z' then c + 32 else c

-- Whether a text begins with another, letters of both cases alike.
unfoldable pub begins : List ℕ → List ℕ → Bool
unfolding lower
begins text [] = true
begins [] (d ∷ key) = false
begins (c ∷ text) (d ∷ key) =
    let rest = begins text key in if lower c == lower d then rest else false

-- strcasestr: what follows from the first occurrence on.
unfoldable pub strcasestr : List ℕ → List ℕ → Option (List ℕ)
unfolding begins
strcasestr [] key = if begins [] key then some [] else none
strcasestr (c ∷ text) key =
    let rest = strcasestr text key in if begins (c ∷ text) key then some (c ∷ text) else rest

unfoldable pub skip_blanks : List ℕ → List ℕ
skip_blanks [] = []
skip_blanks (c ∷ text) =
    let rest = skip_blanks text in if c == b' ' || c == 9 then rest else c ∷ text

-- A name at the very end of the text is a read behind its zero.
unfoldable pub in_get_header_info_str : List ℕ → List ℕ → Run (Option (List ℕ))
unfolding strcasestr skip_blanks
in_get_header_info_str header key = elim (strcasestr header key) [
  | none ↦ ret none
  | some p ↦
      if length p == length key then fault else ret (some (skip_blanks (drop (length key + 1) p)))
]

module _ (atoi : List ℕ → ℕ) where
  unfoldable pub in_get_header_info_int : List ℕ → List ℕ → Run ℕ
  unfolding in_get_header_info_str
  in_get_header_info_int header key = do
    p ← in_get_header_info_str header key
    ret (elim p [ none ↦ int_minus_one | some text ↦ atoi text ])

abbrev pub empty_line : List ℕ
empty_line = 13 ∷ 10 ∷ 13 ∷ 10 ∷ []

-- What follows the first empty line.
unfoldable pub in_get_data : List ℕ → Option (List ℕ)
unfolding starts_with
in_get_data [] = none
in_get_data (c ∷ text) =
    let rest = in_get_data text in
    if starts_with (c ∷ text) empty_line then some (drop 3 text) else rest

-- The result is 0, where an empty line is in the text.
unfoldable pub in_check_header_finish : List ℕ → Bool
unfolding in_get_data c_str
in_check_header_finish text = elim (in_get_data (c_str text)) [ none ↦ false | some rest ↦ true ]
