-- ===== src/Tests/Checksum.antt =====
-- source/crc16.c on concrete messages.
use ucmq.Prelude.{ℕ, ◌≡◌, ◌≢◌, refl, List, [], ◌∷◌, ◌++◌, arith}
use ucmq.Crc16.{crc16_append}
use ucmq.Crc16.Reference.{reference, crc16_append-eq-reference}
use ucmq.Crc16.Detect.{crc16_append_detects_byte}

-- "123456789", the customary check input.
abbrev check_input : List ℕ
check_input = 0x31 ∷ 0x32 ∷ 0x33 ∷ 0x34 ∷ 0x35 ∷ 0x36 ∷ 0x37 ∷ 0x38 ∷ 0x39 ∷ []

check_value : crc16_append check_input ≡ 0xbb3d
unfolding crc16_append
check_value = refl

crc16_append-eq-reference_example : crc16_append check_input ≡ reference check_input
crc16_append-eq-reference_example = crc16_append-eq-reference check_input (omega arith)

crc16_append_detects_byte_example :
    crc16_append ((7 ∷ 8 ∷ []) ++ (9 ∷ (10 ∷ []))) ≢ crc16_append ((7 ∷ 8 ∷ []) ++ (1 ∷ (10 ∷ [])))
crc16_append_detects_byte_example =
    crc16_append_detects_byte (7 ∷ 8 ∷ []) 9 1 (10 ∷ []) (omega arith) (omega arith) (omega arith)
      (omega arith) (omega arith)
