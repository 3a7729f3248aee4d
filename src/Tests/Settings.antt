-- ===== src/Tests/Settings.antt =====
-- source/ini.c: the tests of settings and variables.
use ucmq.Prelude.{ℕ, zero, suc, length, ◌≡◌, refl, some, List, [], ◌∷◌, ◌++◌, arith, codes}
use ucmq.Prelude.Run.{ret, fault}
use ucmq.QueueManage.Table.{same_name}
use ucmq.Ini.{IniKv, find_key, nth_value}
use ucmq.Ini.Values.{IniValues, first_value, add_values, value_at}
use ucmq.Ini.Values.Refine.{value_at-add_values, add_values_overflow}
use ucmq.Ini.Replace.{replace_in_line}
use ucmq.Ini.Variable.{replace_in_line_one}

abbrev home : List IniKv
home = record { key = codes "home"; values = codes "/srv" ∷ [] } ∷ []

home_found : find_key home (codes "home") 0 ≡ (some (codes "/srv"), 1)
unfolding find_key same_name
home_found = refl

replace_in_line_one_example :
    replace_in_line home 4097 40 (codes "a" ++ b'$' ∷ b'(' ∷ (codes "home" ++ b')' ∷ codes "/x"))
    ≡ ret (some (codes "a" ++ (codes "/srv" ++ codes "/x")))
replace_in_line_one_example =
    replace_in_line_one home 4097 (codes "a") (codes "home") (codes "/x") (codes "/srv") 40
      ((refl, refl), tt) ((refl, refl), ((refl, refl), ((refl, refl), ((refl, refl), tt))))
      (
        (refl, refl),
        ((refl, refl), ((refl, refl), ((refl, refl), ((refl, refl), ((refl, refl), tt))))),
      )
      home_found (omega arith) (omega arith)

value_at-add_values_example :
    (kv : IniValues) × (add_values (codes "b" ∷ codes "c" ∷ []) (first_value (codes "a")) ≡ ret kv)
    × (kv.value_count ≡ 3)
    × ((i : ℕ) → value_at kv i ≡ ret (nth_value (codes "a" ∷ codes "b" ∷ codes "c" ∷ []) i))
value_at-add_values_example =
    value_at-add_values (codes "a") (codes "b" ∷ codes "c" ∷ []) (omega arith)

-- So many times the same value.
copies : ℕ → List (List ℕ)
copies zero = []
copies (suc n) = codes "v" ∷ copies n

length-copies : (n : ℕ) → length (copies n) ≡ n
unfolding copies
length-copies zero = refl
length-copies (suc n) = omega (arith, length-copies n)

add_values_overflow_example :
    add_values (copies 32767 ++ codes "a" ∷ codes "b" ∷ []) (first_value (codes "v")) ≡ fault
add_values_overflow_example =
    add_values_overflow (codes "v") (codes "a") (codes "b") (copies 32767)
      (omega (arith, length-copies 32767))
