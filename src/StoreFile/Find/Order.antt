-- ===== src/StoreFile/Find/Order.antt =====
-- source/mq_store_file.c: the order of file names and the numbers in them.
use native.Mathlib.Omega.{pow_step}
use ucmq.Prelude.{
  ℕ, zero, suc, ◌+◌, ◌/◌, ◌%◌, ◌^◌, ◌<◌, ◌≡◌, refl, sym, ap, ◌∙◌, true, false, Bool_cases, inl, inr,
  List, [], ◌∷◌, ◌++◌, append-nil, append_assoc, arith, length, ltb, ◌==◌, All,
}
use ucmq.Prelude.Decimal.{padded, fixed, padded-eq-fixed, length-fixed, IsDigit, fixed-IsDigit}
use ucmq.Prelude.Run.{ret}
use ucmq.StoreFile.{db_fname}
use ucmq.StoreFile.Find.{name_lt, last_piece, get_id_by_fname}

pub name_lt_irrefl : (xs : List ℕ) → name_lt xs xs ≡ false
unfolding name_lt
name_lt_irrefl [] = refl
name_lt_irrefl (x ∷ xs) = ground (arith, name_lt_irrefl xs)

pub name_lt_trans :
    (xs ys zs : List ℕ) → name_lt xs ys ≡ true → name_lt ys zs ≡ true → name_lt xs zs ≡ true
unfolding name_lt
name_lt_trans xs [] zs h k = absurd (ground arith)
name_lt_trans xs (y ∷ ys) [] h k = absurd (ground arith)
name_lt_trans [] (y ∷ ys) (z ∷ zs) h k = refl
name_lt_trans (x ∷ xs) (y ∷ ys) (z ∷ zs) h k = elim (Bool_cases (name_lt xs ys)) [
  | inl less ↦ elim (Bool_cases (name_lt ys zs)) [
    | inl less' ↦ ground (arith, h, k, less, less', name_lt_trans xs ys zs less less')
    | inr geq' ↦ ground (arith, h, k, less, geq')
  ]
  | inr geq ↦ ground (arith, h, k, geq)
]

pub name_lt_asym : (xs ys : List ℕ) → name_lt xs ys ≡ true → name_lt ys xs ≡ false
name_lt_asym xs ys h = elim (Bool_cases (name_lt ys xs)) [
  | inl back ↦ ground (arith, name_lt_trans xs ys xs h back, name_lt_irrefl xs)
  | inr geq ↦ geq
]

name_lt_prefix : (us xs ys : List ℕ) → name_lt (us ++ xs) (us ++ ys) ≡ name_lt xs ys
unfolding name_lt
name_lt_prefix [] xs ys = refl
name_lt_prefix (u ∷ us) xs ys = ground (arith, name_lt_prefix us xs ys)

name_lt_before :
    (xs ys us vs : List ℕ)
    → length xs ≡ length ys
    → name_lt xs ys ≡ true
    → name_lt (xs ++ us) (ys ++ vs) ≡ true
unfolding name_lt
name_lt_before xs [] us vs l h = absurd (ground arith)
name_lt_before [] (y ∷ ys) us vs l h = absurd (omega arith)
name_lt_before (x ∷ xs) (y ∷ ys) us vs l h = elim (Bool_cases (name_lt xs ys)) [
  | inl less ↦ ground (arith, h, less, name_lt_before xs ys us vs (omega arith) less)
  | inr geq ↦ ground (arith, h, geq)
]

-- Numbers of one width are in order as texts.
fixed_lt : (w a b : ℕ) → a < b → b < 10 ^ w → name_lt (fixed w a) (fixed w b) ≡ true
unfolding fixed name_lt
fixed_lt zero a b h k = absurd (omega arith)
fixed_lt (suc w) a b h k = elim (Bool_cases (ltb (a / 10) (b / 10))) [
  | inl less ↦
      name_lt_before (fixed w (a / 10)) (fixed w (b / 10)) _ _
        (length-fixed w (a / 10) ∙ sym (length-fixed w (b / 10)))
        (fixed_lt w (a / 10) (b / 10) (ground arith) (omega (arith, pow_step 10 w, k)))
  | inr same ↦
      ap (λ t. name_lt (fixed w t ++ (48 + a % 10) ∷ []) (fixed w (b / 10) ++ (48 + b % 10) ∷ []))
        {y = b / 10} (ground arith)
      ∙ name_lt_prefix (fixed w (b / 10)) _ _
      ∙ ground arith
]

db_prefix : (a b : ℕ) → name_lt (db_fname a) (db_fname b) ≡ name_lt (padded 12 a) (padded 12 b)
db_prefix a b = name_lt_prefix (b'd' ∷ b'b' ∷ b'_' ∷ []) (padded 12 a) (padded 12 b)

db_fname_lt : (a b : ℕ) → a < b → b < 10 ^ 12 → name_lt (db_fname a) (db_fname b) ≡ true
db_fname_lt a b h k =
    db_prefix a b
    ∙ ap (λ t. name_lt t (padded 12 b)) (padded-eq-fixed 12 a (omega arith))
    ∙ ap (name_lt (fixed 12 a)) (padded-eq-fixed 12 b k)
    ∙ fixed_lt 12 a b h k

-- The names of data files are ordered as their numbers are, below 10 ^ 12.
db_fname-order : (a b : ℕ) → a < 10 ^ 12 → b < 10 ^ 12 → name_lt (db_fname a) (db_fname b) ≡ ltb a b
db_fname-order a b h k = elim (Bool_cases (ltb a b)) [
  | inl less ↦ db_fname_lt a b (ground arith) k ∙ sym less
  | inr geq ↦ elim (Bool_cases (a == b)) [
    | inl same ↦
        ap (λ t. name_lt (db_fname t) (db_fname b)) {y = b} (ground arith)
        ∙ name_lt_irrefl (db_fname b)
        ∙ sym geq
    | inr apart ↦
        name_lt_asym (db_fname b) (db_fname a) (db_fname_lt b a (ground arith) h) ∙ sym geq
  ]
]

-- Digits have no underscore.
last_piece-digits :
    (last : List ℕ) (c : ℕ) (cur ds : List ℕ)
    → All IsDigit ds
    → last_piece last (c ∷ cur) ds ≡ c ∷ cur ++ ds
unfolding last_piece
last_piece-digits last c cur [] h = ap (λ t. c ∷ t) (sym (append-nil cur))
last_piece-digits last c cur (d ∷ ds) h = elim (Bool_cases (d == b'_')) [
  | inl underscore ↦ absurd (ground arith)
  | inr digit ↦
      ap
        (λ b. elim b as (λ x. List ℕ) [
          | true ↦ last_piece (c ∷ cur) [] ds
          | false ↦ last_piece last (c ∷ cur ++ d ∷ []) ds
        ])
        digit
      ∙ last_piece-digits last c (cur ++ d ∷ []) ds h.1
      ∙ ap (λ t. c ∷ t) (append_assoc cur (d ∷ []) ds)
]

id_digits :
    (atoll : List ℕ → ℕ) (ds : List ℕ)
    → length ds ≡ 12
    → All IsDigit ds
    → get_id_by_fname atoll (b'd' ∷ b'b' ∷ b'_' ∷ ds) ≡ ret (atoll ds)
unfolding get_id_by_fname last_piece
id_digits atoll [] l h = absurd (omega arith)
id_digits atoll (d ∷ ds) l h =
    ground (arith, h.0, l, last_piece-digits (b'd' ∷ b'b' ∷ []) d [] ds h.1)

-- The number of a data file, below 10 ^ 12, is read back from its name, where `atoll` reads back
-- its twelve digits.
get_id_by_fname-db_fname :
    (atoll : List ℕ → ℕ) (n : ℕ)
    → n < 10 ^ 12
    → atoll (padded 12 n) ≡ n
    → get_id_by_fname atoll (db_fname n) ≡ ret n
get_id_by_fname-db_fname atoll n h reads =
    ap (λ t. get_id_by_fname atoll (b'd' ∷ b'b' ∷ b'_' ∷ t)) (padded-eq-fixed 12 n h)
    ∙ id_digits atoll (fixed 12 n) (length-fixed 12 n) (fixed-IsDigit 12 n)
    ∙ ap ret (ap atoll (sym (padded-eq-fixed 12 n h)) ∙ reads)
