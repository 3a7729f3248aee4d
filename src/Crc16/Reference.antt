-- ===== src/Crc16/Reference.antt =====
-- source/crc16.c: the polynomial division that the table stands for, eight one-bit turns for a
-- byte, beside the table-driven loop.
use ucmq.Prelude.{
  ℕ, ◌+◌, ◌*◌, ◌/◌, ◌%◌, ◌<◌, ◌≡◌, refl, Bool, true, List, [], ◌∷◌, bit_and, bit_xor, arith, subst,
  ◌∙◌, ◌&&◌, ltb, ap, ◌==◌, if◌then◌else◌, get_or, passes, passes_each, All,
}
use ucmq.Prelude.Bytes.{IsByte}
use ucmq.Prelude.Xor.{bit_xor_half, bit_xor-lt, bit_xor_comm, zero_bit_xor}
use ucmq.Crc16.{crc16tab, crc16_turn, crc16_loop, crc16_append}

-- Divides by x ^ 16 + x ^ 15 + x ^ 2 + 1, lowest bit first.
unfoldable pub bit_turn : ℕ → ℕ
bit_turn x = if x % 2 == 1 then bit_xor (x / 2) 0xa001 else x / 2

unfoldable pub byte_turns : ℕ → ℕ
unfolding bit_turn
byte_turns x =
    bit_turn (bit_turn (bit_turn (bit_turn (bit_turn (bit_turn (bit_turn (bit_turn x)))))))

pub reference_loop : ℕ → List ℕ → ℕ
reference_loop c [] = c
reference_loop c (b ∷ bs) = reference_loop (byte_turns (bit_xor c b)) bs

pub reference : List ℕ → ℕ
unfolding reference_loop
reference bs = reference_loop 0 bs

-- What the loop does with the register once the byte is mixed in.
abbrev table_turn : ℕ → ℕ
table_turn x = bit_xor (x / 256) (get_or crc16tab (bit_and x 0xff) 0)

agrees : ℕ → Bool
unfolding byte_turns
agrees x = table_turn x == byte_turns x && ltb (byte_turns x) 65536

-- Every 16-bit register, by evaluation.
agree_table : passes (λ h. passes (λ l. agrees (h * 256 + l)) 256) 256 ≡ true
unfolding passes agrees
agree_table = refl

agree_at : (x : ℕ) → x < 65536 → agrees (x / 256 * 256 + x % 256) ≡ true
agree_at x h =
    passes_each (λ l. agrees (x / 256 * 256 + l)) 256 (x % 256) (omega arith)
      (passes_each (λ k. passes (λ l. agrees (k * 256 + l)) 256) 256 (x / 256) (omega arith)
        agree_table)

split_eq : (x : ℕ) → x / 256 * 256 + x % 256 ≡ x
split_eq x = omega arith

table_turn-eq : (x : ℕ) → x < 65536 → (table_turn x ≡ byte_turns x) × (byte_turns x < 65536)
table_turn-eq x h =
    let e : agrees x ≡ true = subst (λ y. agrees y ≡ true) (split_eq x) (agree_at x h) in
    unfold agrees in ground arith

pub high_bit_xor : (c b : ℕ) → c < 65536 → b < 256 → bit_xor c b / 256 ≡ c / 256
high_bit_xor c b p h = omega (
  arith,
  bit_xor_half c b,
  bit_xor_half (c / 2) (b / 2),
  bit_xor_half (c / 2 / 2) (b / 2 / 2),
  bit_xor_half (c / 2 / 2 / 2) (b / 2 / 2 / 2),
  bit_xor_half (c / 2 / 2 / 2 / 2) (b / 2 / 2 / 2 / 2),
  bit_xor_half (c / 2 / 2 / 2 / 2 / 2) (b / 2 / 2 / 2 / 2 / 2),
  bit_xor_half (c / 2 / 2 / 2 / 2 / 2 / 2) (b / 2 / 2 / 2 / 2 / 2 / 2),
  bit_xor_half (c / 2 / 2 / 2 / 2 / 2 / 2 / 2) (b / 2 / 2 / 2 / 2 / 2 / 2 / 2),
  top-zero,
)
  where
    eighth : ℕ → ℕ
    eighth x = x / 2 / 2 / 2 / 2 / 2 / 2 / 2 / 2

    none_left : eighth b ≡ 0
    none_left = omega arith

    top-zero : bit_xor (eighth c) (eighth b) ≡ eighth c
    top-zero =
        rw none_left
          (bit_xor_comm 16 (eighth c) 0 (omega arith) (omega arith) ∙ zero_bit_xor (eighth c))

turn_eq_table : (c b : ℕ) → c < 65536 → b < 256 → crc16_turn c b ≡ table_turn (bit_xor c b)
unfolding crc16_turn
turn_eq_table c b p h = rw (high_bit_xor c b p h)

-- One turn of the table loop is the eight one-bit turns, and stays a 16-bit number.
pub crc16_turn-eq :
    (c b : ℕ)
    → c < 65536
    → b < 256
    → (crc16_turn c b ≡ byte_turns (bit_xor c b)) × (crc16_turn c b < 65536)
crc16_turn-eq c b p h =
    let t : (table_turn (bit_xor c b) ≡ byte_turns (bit_xor c b))
        × (byte_turns (bit_xor c b) < 65536) =
      table_turn-eq (bit_xor c b) (bit_xor-lt 16 c b p (omega arith)) in
    (turn_eq_table c b p h ∙ t.0, rw (turn_eq_table c b p h, t.0) t.1)

loop-eq-reference :
    (c : ℕ) (bs : List ℕ) → c < 65536 → All IsByte bs → crc16_loop c bs ≡ reference_loop c bs
unfolding crc16_loop reference_loop
loop-eq-reference c [] p h = refl
loop-eq-reference c (b ∷ bs) p h =
    let t = crc16_turn-eq c b p h.0 in
    loop-eq-reference (crc16_turn c b) bs t.1 h.1 ∙ ap (λ d. reference_loop d bs) t.0

-- On every list of bytes, the table-driven loop returns the remainder of the bit-by-bit division.
pub crc16_append-eq-reference : (bs : List ℕ) → All IsByte bs → crc16_append bs ≡ reference bs
unfolding crc16_append reference
crc16_append-eq-reference bs h = loop-eq-reference 0 bs (omega arith) h

crc16_loop-lt : (c : ℕ) (bs : List ℕ) → c < 65536 → All IsByte bs → crc16_loop c bs < 65536
unfolding crc16_loop
crc16_loop-lt c [] p h = p
crc16_loop-lt c (b ∷ bs) p h = crc16_loop-lt (crc16_turn c b) bs (crc16_turn-eq c b p h.0).1 h.1

pub crc16_append-lt : (bs : List ℕ) → All IsByte bs → crc16_append bs < 65536
unfolding crc16_append
crc16_append-lt bs h = crc16_loop-lt 0 bs (omega arith) h
