-- ===== src/StoreRtag/Fields.antt =====
-- source/mq_store_rtag.c: the fields of a record line, one by one: `str_to_num`, "%010u" and strtok.
use ucmq.Prelude.{
  ℕ, zero, suc, ◌+◌, ◌-◌, ◌*◌, ◌/◌, ◌%◌, ◌^◌, ◌<◌, ◌≡◌, refl, ap, subst, ◌∙◌, sym, Bool, some, List,
  [], ◌∷◌, ◌++◌, append-nil, append_assoc, arith, length, drop, drop-append, All,
}
use ucmq.Prelude.Bytes.{u32_mod}
use ucmq.Prelude.Decimal.{fixed, padded, padded-eq-fixed, length-fixed, fixed-IsDigit, IsDigit}
use ucmq.Types.{MqQueue}
use native.Mathlib.Nat.{pow-suc}
use ucmq.StoreRtag.{digits_from, str_to_num, str_to_ll, tokens, piece, field_len}

-- The number that a list of digits accumulates.
value : ℕ → List ℕ → ℕ
value num [] = num
value num (c ∷ str) = value ((num * 10 + (c - 48)) % u32_mod) str

digits_from-value :
    (num : ℕ) (ds rest : List ℕ)
    → All IsDigit ds
    → digits_from num (ds ++ rest) (length ds) ≡ some (value num ds)
unfolding digits_from value
digits_from-value num [] rest h = refl
digits_from-value num (c ∷ ds) rest h =
    ground (arith, digits_from-value ((num * 10 + (c - 48)) % u32_mod) ds rest h.1)

value_snoc :
    (num : ℕ) (ds : List ℕ) (c : ℕ)
    → value num (ds ++ c ∷ []) ≡ (value num ds * 10 + (c - 48)) % u32_mod
unfolding value
value_snoc num [] c = refl
value_snoc num (d ∷ ds) c = value_snoc ((num * 10 + (d - 48)) % u32_mod) ds c

value-fixed : (w n : ℕ) → n < 10 ^ w → n < u32_mod → value 0 (fixed w n) ≡ n
unfolding value fixed
value-fixed zero n h b = omega arith
value-fixed (suc w) n h b =
    value_snoc 0 (fixed w (n / 10)) (48 + n % 10)
    ∙ omega (arith, value-fixed w (n / 10) (omega (arith, pow-suc 10 w)) (omega arith))

-- A field of ten digits reads back, whatever follows it.
pub str_to_num-padded :
    (n : ℕ) (rest : List ℕ) → n < u32_mod → str_to_num (padded 10 n ++ rest) field_len ≡ some n
unfolding str_to_num
str_to_num-padded n rest h = rw (padded-eq-fixed 10 n (omega arith)) (
    subst (λ k. digits_from 0 (fixed 10 n ++ rest) k ≡ some n) (length-fixed 10 n)
      (digits_from-value 0 (fixed 10 n) rest (fixed-IsDigit 10 n)
        ∙ ap some (value-fixed 10 n (omega arith) h)))

pub drop-padded :
    (n : ℕ) (rest : List ℕ) → n < u32_mod → drop field_len (padded 10 n ++ rest) ≡ rest
drop-padded n rest h = rw (padded-eq-fixed 10 n (omega arith)) (
    subst (λ k. drop k (fixed 10 n ++ rest) ≡ rest) (length-fixed 10 n)
      (drop-append (fixed 10 n) rest))

pub str_to_ll-padded :
    (assign : MqQueue → ℕ → MqQueue) (next : MqQueue → List ℕ → MqQueue × Bool) (q : MqQueue)
    (n : ℕ) (rest : List ℕ)
    → n < u32_mod
    → str_to_ll assign next q (padded 10 n ++ rest) ≡ next (assign q n) rest
unfolding str_to_ll
str_to_ll-padded assign next q n rest h =
    ground (arith, str_to_num-padded n rest h, drop-padded n rest h)

pub padded-IsDigit : (n : ℕ) → n < u32_mod → All IsDigit (padded 10 n)
padded-IsDigit n h = rw (padded-eq-fixed 10 n (omega arith)) (fixed-IsDigit 10 n)

pub length-padded : (n : ℕ) → n < u32_mod → length (padded 10 n) ≡ 10
length-padded n h = rw (padded-eq-fixed 10 n (omega arith)) (length-fixed 10 n)

-- Digits stay in one piece.
pub tokens_digits :
    (cur ds rest : List ℕ) → All IsDigit ds → tokens cur (ds ++ rest) ≡ tokens (cur ++ ds) rest
unfolding tokens
tokens_digits cur [] rest h = rw (append-nil cur)
tokens_digits cur (c ∷ ds) rest h =
    ground (arith, tokens_digits (cur ++ c ∷ []) ds rest h.1, append_assoc cur (c ∷ []) ds)

pub piece-length : (xs : List ℕ) (rest : List (List ℕ)) → 0 < length xs → piece xs rest ≡ xs ∷ rest
piece-length [] rest h = absurd (omega arith)
piece-length (x ∷ xs) rest h = refl

-- A line of digits is one piece, and so is a last one with no line end.
pub tokens_line :
    (ds rest : List ℕ)
    → All IsDigit ds
    → 0 < length ds
    → tokens [] (ds ++ 10 ∷ rest) ≡ ds ∷ tokens [] rest
unfolding tokens
tokens_line ds rest h n = tokens_digits [] ds (10 ∷ rest) h ∙ piece-length ds (tokens [] rest) n

pub tokens_last : (ds : List ℕ) → All IsDigit ds → 0 < length ds → tokens [] ds ≡ ds ∷ []
unfolding tokens
tokens_last ds h n =
    ap (tokens []) (sym (append-nil ds)) ∙ tokens_digits [] ds [] h ∙ piece-length ds [] n
