-- ===== src/Ini/Variable.antt =====
-- source/ini.c: the replacement of one variable in a value.
use ucmq.Prelude.{
  ℕ, suc, ◌+◌, ◌-◌, ◌≤◌, ◌<◌, ◌≡◌, refl, sym, ap, ◌∙◌, Bool, true, false, ◌&&◌, some, List, [], ◌∷◌,
  ◌++◌, append-nil, append_assoc, arith, length, length-append, ◌==◌, All,
}
use ucmq.Prelude.Run.{Run, ret, ◌>>=◌}
use ucmq.Ini.{IniKv, find_key}
use ucmq.Ini.Replace.{
  Token, lost, at_end, closed, opens_token, only_value, put_value, token_loop, text_of_token,
  replace_in_line,
}

-- A character that neither begins a variable nor, inside one, ends it.
abbrev pub IsPlain : Bool → ℕ → Type 0
IsPlain inside c = ((c == b'$') ≡ false) × ((inside && c == b')') ≡ false)

plain_opens : (c : ℕ) (text : List ℕ) → (c == b'$') ≡ false → opens_token c text ≡ false
plain_opens c [] h = refl
plain_opens c (d ∷ text) h = ground (arith, h)

module _ (ini : List IniKv) (max_size : ℕ) where
  -- Plain characters are passed over, a round for each.
  skip_plain :
      (inside : Bool) (xs rest done : List ℕ) (fuel tokens before : ℕ)
      → All (IsPlain inside) xs
      → token_loop ini max_size (length xs + fuel) inside tokens before done (xs ++ rest)
        ≡ token_loop ini max_size fuel inside tokens before (done ++ xs) rest
  unfolding token_loop
  skip_plain inside [] rest done fuel tokens before h =
      ap (λ f. token_loop ini max_size f inside tokens before done rest) {y = fuel} (omega arith)
      ∙ ap (λ d. token_loop ini max_size fuel inside tokens before d rest) (sym (append-nil done))
  skip_plain inside (x ∷ xs) rest done fuel tokens before h =
      ap (λ f. token_loop ini max_size f inside tokens before done (x ∷ xs ++ rest))
        {y = suc (length xs + fuel)} (omega arith)
      ∙ ground (
        arith,
        h.0,
        plain_opens x (xs ++ rest) h.0.0,
        skip_plain inside xs rest (done ++ x ∷ []) fuel tokens before h.1,
      )
      ∙ ap (λ d. token_loop ini max_size fuel inside tokens before d rest)
          (append_assoc done (x ∷ []) xs)

  -- The same, with rounds enough.
  skip_enough :
      (inside : Bool) (xs rest done : List ℕ) (fuel tokens before : ℕ)
      → All (IsPlain inside) xs
      → length xs ≤ fuel
      → token_loop ini max_size fuel inside tokens before done (xs ++ rest)
        ≡ token_loop ini max_size (fuel - length xs) inside tokens before (done ++ xs) rest
  skip_enough inside xs rest done fuel tokens before h enough =
      ap (λ f. token_loop ini max_size f inside tokens before done (xs ++ rest))
        {y = length xs + (fuel - length xs)} (omega arith)
      ∙ skip_plain inside xs rest done (fuel - length xs) tokens before h

  -- The text ends.
  ends_plain :
      (inside : Bool) (xs done : List ℕ) (fuel tokens before : ℕ)
      → All (IsPlain inside) xs
      → length xs < fuel
      → token_loop ini max_size fuel inside tokens before done xs ≡ ret (at_end tokens (done ++ xs))
  unfolding token_loop
  ends_plain inside xs done fuel tokens before h enough =
      ap (token_loop ini max_size fuel inside tokens before done) (sym (append-nil xs))
      ∙ skip_enough inside xs [] done fuel tokens before h (omega (arith, enough))
      ∙ ap (λ f. token_loop ini max_size f inside tokens before (done ++ xs) [])
          {y = suc (fuel - length xs - 1)} (omega arith)

  bracket :
      (key rest value : List ℕ) (fuel tokens before : ℕ)
      → find_key ini key 0 ≡ (some value, 1)
      → before + length value + length rest < max_size
      → token_loop ini max_size (suc fuel) true tokens before key (b')' ∷ rest)
        ≡ ret (closed tokens value rest)
  unfolding token_loop put_value only_value
  bracket key rest value fuel tokens before found fits =
      ground (arith, plain_opens b')' rest refl, found, fits)

  -- A variable up to its bracket.
  closes :
      (key rest value : List ℕ) (fuel tokens before : ℕ)
      → All (IsPlain true) key
      → length key < fuel
      → find_key ini key 0 ≡ (some value, 1)
      → before + length value + length rest < max_size
      → token_loop ini max_size fuel true tokens before [] (key ++ b')' ∷ rest)
        ≡ ret (closed tokens value rest)
  unfolding token_loop put_value only_value
  closes key rest value fuel tokens before h enough found fits =
      skip_enough true key (b')' ∷ rest) [] fuel tokens before h (omega (arith, enough))
      ∙ ap (λ f. token_loop ini max_size f true tokens before key (b')' ∷ rest))
          {y = suc (fuel - length key - 1)} (omega arith)
      ∙ bracket key rest value (fuel - length key - 1) tokens before found fits

  -- A variable at the place of the loop, with its value behind.
  one_variable :
      (key rest value done : List ℕ) (fuel : ℕ)
      → All (IsPlain true) key
      → length key < fuel
      → find_key ini key 0 ≡ (some value, 1)
      → length done + length value + length rest < max_size
      → token_loop ini max_size (suc fuel) false 1023 0 done (b'$' ∷ b'(' ∷ (key ++ b')' ∷ rest))
        ≡ token_loop ini max_size fuel false 1022 0 done (value ++ rest)
  unfolding token_loop
  one_variable key rest value done fuel h enough found fits =
      ap
        (λ x. x >>= λ (inner : Token). elim inner as (λ t. Run Token) [
          | lost ↦ ret lost
          | at_end left' text ↦ ret (at_end left' (done ++ b'$' ∷ b'(' ∷ text))
          | closed left' v after ↦ token_loop ini max_size fuel false left' 0 done (v ++ after)
        ])
        (closes key rest value fuel 1022 (0 + length done + 0) h enough found (omega (arith, fits)))

  -- A value with one variable, whose key has one value, becomes the text before the variable, that
  -- value and the text behind: where the text before has no dollar sign, nor the value and the
  -- text behind, the key no dollar sign and no bracket, the result fits the buffer and there are
  -- rounds enough.
  pub replace_in_line_one :
      (start key rest value : List ℕ) (fuel : ℕ)
      → All (IsPlain false) start
      → All (IsPlain true) key
      → All (IsPlain false) (value ++ rest)
      → find_key ini key 0 ≡ (some value, 1)
      → length start + length value + length rest < max_size
      → length start + length key + length value + length rest + 2 < fuel
      → replace_in_line ini max_size fuel (start ++ b'$' ∷ b'(' ∷ (key ++ b')' ∷ rest))
        ≡ ret (some (start ++ (value ++ rest)))
  unfolding replace_in_line text_of_token
  replace_in_line_one start key rest value fuel plain_start plain_key plain_rest found fits enough =
      ap (λ x. x >>= λ token. ret (text_of_token ini max_size token))
        (skip_enough false start _ [] fuel 1023 0 plain_start (omega (arith, enough))
          ∙ ap
              (λ f.
                token_loop ini max_size f false 1023 0 start (b'$' ∷ b'(' ∷ (key ++ b')' ∷ rest)))
              {y = suc (fuel - length start - 1)} (omega (arith, enough))
          ∙ one_variable key rest value start (fuel - length start - 1) plain_key
              (omega (arith, enough)) found fits
          ∙ ends_plain false (value ++ rest) start (fuel - length start - 1) 1022 0 plain_rest
              (omega (arith, enough, length-append value rest)))
