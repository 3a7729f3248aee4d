-- ===== src/Crc16/Detect.antt =====
-- source/crc16.c: how a changed byte changes the checksum.
use ucmq.Prelude.{
  ℕ, ◌+◌, ◌*◌, ◌/◌, ◌%◌, ◌<◌, ◌≡◌, ◌≢◌, refl, sym, ◌∙◌, ap, subst, Bool, true, List, [], ◌∷◌, ◌++◌,
  bit_xor, arith, leb, ◌==◌, if◌then◌else◌, passes, passes_each, All,
}
use ucmq.Prelude.Bytes.{IsByte}
use ucmq.Prelude.Xor.{bit_xor_cancel, bit_xor_comm, bit_xor-lt}
use ucmq.Crc16.{crc16_turn, crc16_loop, crc16_append}
use ucmq.Crc16.Reference.{byte_turns, crc16_turn-eq}

-- A one-bit turn backwards: the top bit tells whether the polynomial was added.
un_turn : ℕ → ℕ
un_turn y = if leb 0x8000 y then bit_xor y 0xa001 * 2 + 1 else y * 2

un_turns : ℕ → ℕ
unfolding un_turn
un_turns y = un_turn (un_turn (un_turn (un_turn (un_turn (un_turn (un_turn (un_turn y)))))))

-- The register comes back from the turned one, and its low byte from the high byte alone.
goes_back : ℕ → Bool
unfolding un_turns byte_turns
goes_back x = un_turns (byte_turns x) == x

goes_back_table : passes (λ h. passes (λ l. goes_back (h * 256 + l)) 256) 256 ≡ true
unfolding passes goes_back
goes_back_table = refl

goes_back_at : (x : ℕ) → x < 65536 → goes_back (x / 256 * 256 + x % 256) ≡ true
goes_back_at x h =
    passes_each (λ l. goes_back (x / 256 * 256 + l)) 256 (x % 256) (omega arith)
      (passes_each (λ k. passes (λ l. goes_back (k * 256 + l)) 256) 256 (x / 256) (omega arith)
        goes_back_table)

split_eq : (x : ℕ) → x / 256 * 256 + x % 256 ≡ x
split_eq x = omega arith

un_turns-byte_turns : (x : ℕ) → x < 65536 → un_turns (byte_turns x) ≡ x
un_turns-byte_turns x h =
    let e : goes_back x ≡ true = subst (λ y. goes_back y ≡ true) (split_eq x) (goes_back_at x h) in
    unfold goes_back in ground arith

byte_turns_injective : (x y : ℕ) → x < 65536 → y < 65536 → byte_turns x ≡ byte_turns y → x ≡ y
byte_turns_injective x y p q e =
    sym (un_turns-byte_turns x p) ∙ ap un_turns e ∙ un_turns-byte_turns y q

module _ (c b c' b' : ℕ) (pc : c < 65536) (pb : b < 256) (pc' : c' < 65536) (pb' : b' < 256) where
  mixed : crc16_turn c b ≡ crc16_turn c' b' → bit_xor c b ≡ bit_xor c' b'
  mixed e =
      byte_turns_injective (bit_xor c b) (bit_xor c' b') (bit_xor-lt 16 c b pc (omega arith))
        (bit_xor-lt 16 c' b' pc' (omega arith))
        (sym (crc16_turn-eq c b pc pb).0 ∙ e ∙ (crc16_turn-eq c' b' pc' pb').0)

turn_injective_register :
    (c c' b : ℕ) → c < 65536 → c' < 65536 → b < 256 → crc16_turn c b ≡ crc16_turn c' b → c ≡ c'
turn_injective_register c c' b p q h e =
    sym (bit_xor_cancel 16 c b p (omega arith))
    ∙ ap (λ t. bit_xor t b) (mixed c b c' b p h q h e)
    ∙ bit_xor_cancel 16 c' b q (omega arith)

turn_injective_byte :
    (c b b' : ℕ) → c < 65536 → b < 256 → b' < 256 → crc16_turn c b ≡ crc16_turn c b' → b ≡ b'
turn_injective_byte c b b' p h h' e =
    sym (bit_xor_cancel 16 b c (omega arith) p)
    ∙ ap (λ t. bit_xor t c)
        (bit_xor_comm 16 b c (omega arith) p
          ∙ mixed c b c b' p h p h' e
          ∙ bit_xor_comm 16 c b' p (omega arith))
    ∙ bit_xor_cancel 16 b' c (omega arith) p

-- The rest of a message keeps two registers apart.
loop_injective :
    (c c' : ℕ) (bs : List ℕ)
    → c < 65536
    → c' < 65536
    → All IsByte bs
    → crc16_loop c bs ≡ crc16_loop c' bs
    → c ≡ c'
unfolding crc16_loop
loop_injective c c' [] p q h e = e
loop_injective c c' (b ∷ bs) p q h e = turn_injective_register c c' b p q h.0 (
    loop_injective (crc16_turn c b) (crc16_turn c' b) bs (crc16_turn-eq c b p h.0).1
      (crc16_turn-eq c' b q h.0).1 h.1 e)

module _ (b b' : ℕ) (post : List ℕ) (h : IsByte b) (h' : IsByte b') (hs : All IsByte post) where
  byte_from_loop :
      (pre : List ℕ) (c : ℕ)
      → All IsByte pre
      → c < 65536
      → crc16_loop c (pre ++ (b ∷ post)) ≡ crc16_loop c (pre ++ (b' ∷ post))
      → b ≡ b'
  unfolding crc16_loop
  byte_from_loop [] c hp p e = turn_injective_byte c b b' p h h' (
      loop_injective (crc16_turn c b) (crc16_turn c b') post (crc16_turn-eq c b p h).1
        (crc16_turn-eq c b' p h').1 hs e)
  byte_from_loop (a ∷ pre) c hp p e =
      byte_from_loop pre (crc16_turn c a) hp.1 (crc16_turn-eq c a p hp.0).1 e

-- Changing one byte of a message, whichever and however, changes its checksum.
pub crc16_append_detects_byte :
    (pre : List ℕ) (b b' : ℕ) (post : List ℕ)
    → All IsByte pre
    → IsByte b
    → IsByte b'
    → All IsByte post
    → b ≢ b'
    → crc16_append (pre ++ (b ∷ post)) ≢ crc16_append (pre ++ (b' ∷ post))
unfolding crc16_append
crc16_append_detects_byte pre b b' post hp h h' hs ne e =
    ne (byte_from_loop b b' post h h' hs pre 0 hp (omega arith) e)
