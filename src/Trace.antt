-- ===== src/Trace.antt =====
-- source/trace.c: `asc_trace`, which writes a buffer as lines of hexadecimal digits and characters. The
-- buffer is its bytes at each index, also behind its end, which the code reads; its size is below
-- 2 ^ 31 - 15. Each `sprintf` ends where `j` is moved to, so the pieces are appended.
pub mod Text
use ucmq.Prelude.{
  ℕ, zero, suc, ◌+◌, ◌-◌, ◌*◌, ◌/◌, ◌%◌, ◌^◌, Bool, true, ◌&&◌, List, [], ◌∷◌, ◌++◌, ltb, leb,
  if◌then◌else◌, codes,
}
use ucmq.Prelude.Bytes.{Memory}

-- The digits of %x from `a`, or of %X, by the code of the digit ten.
unfoldable pub hex_digit : ℕ → ℕ → ℕ
hex_digit ten d = if ltb d 10 then 48 + d else ten + (d - 10)

unfoldable pub hex : ℕ → ℕ → ℕ → List ℕ
unfolding hex_digit
hex ten zero n = []
hex ten (suc w) n = hex ten w (n / 16) ++ hex_digit ten (n % 16) ∷ []

-- "%6.6x" of a 32-bit number.
unfoldable pub offset : ℕ → List ℕ
unfolding hex
offset i = hex 97 (if ltb i (16 ^ 6) then 6 else if ltb i (16 ^ 7) then 7 else 8) i

-- sizeof(ligne) / 64
abbrev pub max_trace_line : ℕ
max_trace_line = 20481 / 64

unfoldable pub nb_bloc : ℕ → ℕ
nb_bloc lg = if ltb max_trace_line ((lg + 15) / 16) then max_trace_line else (lg + 15) / 16

module _ (buffer : Memory) (lg : ℕ) where
  -- "%02X", or two spaces behind the end.
  unfoldable pub pair : ℕ → List ℕ
  unfolding hex
  pair i = if ltb i lg then hex 65 2 (buffer i) else 32 ∷ 32 ∷ []

  -- A round of the loop over the columns: four bytes and a space.
  unfoldable pub column : ℕ → List ℕ
  unfolding pair
  column i = pair i ++ (pair (i + 1) ++ (pair (i + 2) ++ (pair (i + 3) ++ 32 ∷ [])))

  unfoldable pub shown : ℕ → ℕ
  shown i =
      let y = buffer i in if leb 0x21 y && leb y 0x7e then (if leb i lg then y else 46) else 46

  unfoldable pub characters : ℕ → ℕ → List ℕ
  unfolding shown
  characters zero i = []
  characters (suc z) i = shown i ∷ characters z (i + 1)

  unfoldable pub trace_line : ℕ → List ℕ
  unfolding offset column characters
  trace_line i =
      offset i
      ++ (32 ∷ 32 ∷ []
          ++ (column i
              ++ (column (i + 4)
                  ++ (column (i + 8)
                      ++ (column (i + 12)
                          ++ (32 ∷ 124 ∷ [] ++ (characters 16 i ++ 124 ∷ 10 ∷ [])))))))

  -- The blocks from the one at `i` on.
  unfoldable pub trace_lines : ℕ → ℕ → List ℕ
  unfolding trace_line
  trace_lines zero i = []
  trace_lines (suc n) i = trace_line i ++ trace_lines n (i + 16)

  unfoldable pub asc_trace : List ℕ
  unfolding nb_bloc trace_lines
  asc_trace = trace_lines (nb_bloc lg) 0
