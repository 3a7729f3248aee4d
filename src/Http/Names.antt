-- ===== src/Http/Names.antt =====
-- source/mq_evhttp.c: which queue names `req_qname_check` accepts.
use ucmq.Prelude.{
  ℕ, ◌≡◌, ◌≢◌, Bool, true, false, not, ◌&&◌, ◌||◌, some, List, [], ◌∷◌, arith, leb, ◌==◌,
  if◌then◌else◌, length, get_or, All,
}
use ucmq.Http.{name_char, name_chars, req_qname_check, is_end}

-- A letter, a digit or '_'.
abbrev name_byte : ℕ → Bool
name_byte c = name_char c || c == 95

abbrev pub every_name_byte : List ℕ → Bool
every_name_byte [] = true
every_name_byte (c ∷ str) = name_byte c && every_name_byte str

abbrev pub last_or : List ℕ → ℕ → ℕ
last_or [] d = d
last_or (c ∷ []) d = c
last_or (c ∷ b ∷ str) d = last_or (b ∷ str) d

name_char_not : (c : ℕ) → (name_char c && c == 95) ≡ false
unfolding name_char
name_char_not c = ground arith

name_chars_eq :
    (first : Bool) (str : List ℕ)
    → name_chars first str
      ≡ (every_name_byte str && not (first && get_or str 0 48 == 95) && not (last_or str 48 == 95))
unfolding name_chars is_end
name_chars_eq first [] = ground arith
name_chars_eq first (c ∷ []) = one first (name_char c) (c == 95) (name_char_not c)
  where
    one :
        (f n u : Bool)
        → (n && u) ≡ false
        → (if not n then (if not u || (u && f) || (true && u) then false else true) else true)
          ≡ (((n || u) && true) && not (f && u) && not u)
    one f n u h = ground arith
name_chars_eq first (c ∷ d ∷ str) =
    more (every_name_byte (d ∷ str)) (last_or (d ∷ str) 48 == 95) first (name_char c) (c == 95)
      (name_char_not c) (name_chars_eq false (d ∷ str))
  where
    more :
        {rest : Bool} (every last f n u : Bool)
        → (n && u) ≡ false
        → rest ≡ (every && true && not last)
        → (if not n then (if not u || (u && f) || (false && u) then false else rest) else rest)
          ≡ (((n || u) && every) && not (f && u) && not last)
    more every last f n u h k = ground arith

-- A name is accepted exactly if it has 1 to 32 bytes, all of them letters, digits or '_', and
-- neither begins nor ends with '_'.
pub req_qname_check_eq :
    (qname : List ℕ)
    → req_qname_check (some qname) ≡ (
        leb 1 (length qname)
        && leb (length qname) 32
        && every_name_byte qname
        && not (get_or qname 0 48 == 95)
        && not (last_or qname 48 == 95))
unfolding req_qname_check
req_qname_check_eq qname = ground (arith, name_chars_eq true qname)

name_byte_plain : (c : ℕ) → name_byte c ≡ true → (c ≢ 47) × (c ≢ 46) × (c ≢ 0)
unfolding name_char
name_byte_plain c h = (ground arith, ground arith, ground arith)

every_name_byte_plain :
    (str : List ℕ) → every_name_byte str ≡ true → All (λ c. (c ≢ 47) × (c ≢ 46) × (c ≢ 0)) str
every_name_byte_plain [] h = tt
every_name_byte_plain (c ∷ str) h =
    (name_byte_plain c (ground (arith, h)), every_name_byte_plain str (ground (arith, h)))

-- An accepted name has no '/', no '.' and no NUL, so it names a directory below the data
-- directory.
req_qname_check_plain :
    (qname : List ℕ)
    → req_qname_check (some qname) ≡ true
    → All (λ c. (c ≢ 47) × (c ≢ 46) × (c ≢ 0)) qname
req_qname_check_plain qname h =
    every_name_byte_plain qname (ground (arith, req_qname_check_eq qname, h))
