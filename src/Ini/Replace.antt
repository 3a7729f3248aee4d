-- ===== src/Ini/Replace.antt =====
-- source/ini.c: variables in values, `$(key)`, are replaced in `find_token`, `replace_in_line` and `replace_var`.
use ucmq.Prelude.{
  ℕ, zero, suc, ◌+◌, Bool, true, false, ◌&&◌, Option, none, some, List, [], ◌∷◌, ◌++◌, length, leb,
  ◌==◌, if◌then◌else◌,
}
use ucmq.Prelude.Run.{Run, ret, out_of_fuel, ◌>>=◌}
use ucmq.Ini.{IniKv, find_key, load_lines}

-- Where `find_token` ends: with an error, at the end of the text, or behind a variable's bracket with its value and what
-- follows; `tokens` are the calls that are left.
pub data Token : Type 0 where
  lost : Token
  at_end : ℕ → List ℕ → Token
  closed : ℕ → List ℕ → List ℕ → Token

-- A value that is alone.
unfoldable pub only_value : Option (List ℕ) × ℕ → Option (List ℕ)
only_value (o, count) = if count == 1 then o else none

-- The whole text is below `max_size`.
unfoldable pub put_value : ℕ → ℕ → ℕ → Option (List ℕ) → List ℕ → Token
put_value max_size tokens before none rest = lost
put_value max_size tokens before (some value) rest =
    if leb max_size (before + length value + length rest) then lost else closed tokens value rest

abbrev pub opens_token : ℕ → List ℕ → Bool
opens_token c [] = false
opens_token c (d ∷ text) = c == b'$' && d == b'('

abbrev pub tail_of : List ℕ → List ℕ
tail_of [] = []
tail_of (d ∷ text) = text

module _ (ini : List IniKv) (max_size : ℕ) where
  -- `--(*tokens) <= 0`
  abbrev pub spend : ℕ → Option ℕ
  spend zero = none
  spend (suc zero) = none
  spend (suc (suc tokens)) = some (suc tokens)

  -- The loop from `rest` on, on the rounds left: `inside` a variable or not, `before` characters stand before the call's
  -- part of the text, of which `done` are read.
  unfoldable pub token_loop : ℕ → Bool → ℕ → ℕ → List ℕ → List ℕ → Run Token
  unfolding only_value put_value find_key
  token_loop zero inside tokens before done rest = out_of_fuel
  token_loop (suc fuel) inside tokens before done [] = ret (at_end tokens done)
  token_loop (suc fuel) inside tokens before done (c ∷ rest) = elim (opens_token c rest) [
    | true ↦ elim (spend tokens) [
      | none ↦ ret lost
      | some left ↦ (do
        inner ←
            token_loop fuel true left (before + length done + (if inside then 2 else 0)) []
              (tail_of rest)
        elim inner [
          | lost ↦ ret lost
          | at_end left' text ↦ ret (at_end left' (done ++ c ∷ b'(' ∷ text))
          | closed left' value after ↦ token_loop fuel inside left' before done (value ++ after)
        ])
    ]
    | false ↦ elim (inside && c == b')') [
      | true ↦ ret (put_value max_size tokens before (only_value (find_key ini done 0)) rest)
      | false ↦ token_loop fuel inside tokens before (done ++ c ∷ []) rest
    ]
  ]

  -- Without an error the value is the text at the end; `none` is an error.
  unfoldable pub text_of_token : Token → Option (List ℕ)
  text_of_token lost = none
  text_of_token (at_end tokens text) = some text
  text_of_token (closed tokens value after) = some (value ++ after)

  unfoldable pub replace_in_line : ℕ → List ℕ → Run (Option (List ℕ))
  unfolding token_loop text_of_token
  replace_in_line fuel str = do
    token ← token_loop fuel false 1023 0 [] str
    ret (text_of_token token)

  -- Every value of a key, one after another.
  unfoldable pub replace_values : ℕ → List (List ℕ) → Run (Option (List (List ℕ)))
  unfolding replace_in_line
  replace_values fuel [] = ret (some [])
  replace_values fuel (value ∷ values) = do
    p ← replace_in_line fuel value
    elim p [
      | none ↦ ret none
      | some new ↦ (do
        rest ← replace_values fuel values
        ret (elim rest [ none ↦ none | some news ↦ some (new ∷ news) ]))
    ]

-- The keys in order; the values before are those replaced already.
unfoldable pub replace_var : ℕ → ℕ → List IniKv → List IniKv → Run (Option (List IniKv))
unfolding replace_values
replace_var max_size fuel done [] = ret (some done)
replace_var max_size fuel done (kv ∷ rest) = do
  values ← replace_values (done ++ kv ∷ rest) max_size fuel kv.values
  elim values [
    | none ↦ ret none
    | some new ↦ replace_var max_size fuel (done ++ record kv { values = new } ∷ []) rest
  ]

-- `ini_load` of a file that opens: `none` where a variable cannot be replaced.
unfoldable pub ini_load :
    (List ℕ → Option (List ℕ))
    → (List ℕ → Option (List ℕ × List ℕ))
    → ℕ
    → List (List ℕ)
    → Run (Option (List IniKv))
unfolding load_lines replace_var
ini_load scan_section scan_pair fuel lines = do
  ini ← load_lines scan_section scan_pair lines [] []
  replace_var 4097 fuel [] ini
