-- ===== src/Client/Header/Body.antt =====
-- client/c/mq_client.c: where `in_get_data` finds the body.
use ucmq.Prelude.{ℕ, ◌≡◌, refl, ap, ◌∙◌, false, some, List, [], ◌∷◌, ◌++◌, drop, if◌then◌else◌}
use ucmq.StoreFile.Find.{starts_with}
use ucmq.Client.Header.{empty_line, in_get_data}

-- No empty line begins in this part of a text, whatever follows it there.
abbrev NoEmptyLine : List ℕ → List ℕ → Type 0
NoEmptyLine [] rest = Unit
NoEmptyLine (c ∷ head) rest =
    (starts_with (c ∷ head ++ rest) empty_line ≡ false) × NoEmptyLine head rest

-- The body of a reply is all that stands behind the first empty line.
in_get_data_first :
    (head body : List ℕ)
    → NoEmptyLine head (empty_line ++ body)
    → in_get_data (head ++ (empty_line ++ body)) ≡ some body
unfolding in_get_data starts_with
in_get_data_first [] body h = refl
in_get_data_first (c ∷ head) body h =
    ap
      (λ b.
        if b
        then some (drop 3 (head ++ (empty_line ++ body)))
        else in_get_data (head ++ (empty_line ++ body)))
      h.0
    ∙ in_get_data_first head body h.1
