-- ===== src/Trace/Text.antt =====
-- source/trace.c: what `asc_trace` writes, and how much.
use ucmq.Prelude.{
  ℕ, zero, suc, ◌+◌, ◌*◌, ◌/◌, ◌%◌, ◌^◌, ◌≤◌, ◌<◌, ◌≡◌, ◌⊎◌, inl, inr, arith, List, [], ◌∷◌, ◌++◌,
  ltb, length, length-append, All, All-append, either_way, lt→ltb, refl, ap,
}
use ucmq.Prelude.Bytes.{Memory}
use ucmq.Trace.{
  hex_digit, hex, offset, nb_bloc, pair, column, shown, characters, trace_line, trace_lines,
  asc_trace,
}

-- A visible character, a space or the end of a line.
abbrev pub IsText : ℕ → Type 0
IsText c = ((32 ≤ c) × (c ≤ 126)) ⊎ (c ≡ 10)

-- Text of a given length.
abbrev pub Block : ℕ → List ℕ → Type 0
Block n cs = (length cs ≡ n) × All IsText cs

Block-append : (m n : ℕ) (xs ys : List ℕ) → Block m xs → Block n ys → Block (m + n) (xs ++ ys)
Block-append m n xs ys (l, h) (k, g) =
    (omega (arith, length-append xs ys), All-append IsText xs ys h g)

two_texts : (a b : ℕ) → IsText a → IsText b → Block 2 (a ∷ b ∷ [])
two_texts a b h k = (refl, (h, (k, tt)))

hex_digit-IsText : (ten d : ℕ) → ten ≤ 97 → 65 ≤ ten → d < 16 → IsText (hex_digit ten d)
unfolding hex_digit
hex_digit-IsText ten d most least small = ground arith

hex-Block : (ten w n : ℕ) → ten ≤ 97 → 65 ≤ ten → Block w (hex ten w n)
unfolding hex
hex-Block ten zero n most least = (refl, tt)
hex-Block ten (suc w) n most least =
    let one = hex_digit-IsText ten (n % 16) most least (omega arith) in
    let (l, h) =
      Block-append w 1 (hex ten w (n / 16)) (hex_digit ten (n % 16) ∷ [])
        (hex-Block ten w (n / 16) most least) (refl, (one, tt)) in
    (omega arith, h)

offset-Block : (i : ℕ) → i < 16 ^ 6 → Block 6 (offset i)
unfolding offset
offset-Block i small = rw (lt→ltb i (16 ^ 6) small) (hex-Block 97 6 i (omega arith) (omega arith))

module _ (buffer : Memory) (lg : ℕ) where
  pair-Block : (i : ℕ) → Block 2 (pair buffer lg i)
  unfolding pair
  pair-Block i =
      either_way (Block 2) (ltb i lg) (hex-Block 65 2 (buffer i) (omega arith) (omega arith))
        (two_texts 32 32 (inl (omega arith)) (inl (omega arith)))

  column-Block : (i : ℕ) → Block 9 (column buffer lg i)
  unfolding column
  column-Block i =
      let p = pair buffer lg in
      let b = pair-Block in
      let end : Block 1 (32 ∷ []) = (refl, (inl (omega arith), tt)) in
      Block-append 2 7 (p i) (p (i + 1) ++ (p (i + 2) ++ (p (i + 3) ++ 32 ∷ []))) (b i) (
        Block-append 2 5 (p (i + 1)) (p (i + 2) ++ (p (i + 3) ++ 32 ∷ [])) (b (i + 1)) (
          Block-append 2 3 (p (i + 2)) (p (i + 3) ++ 32 ∷ []) (b (i + 2))
            (Block-append 2 1 (p (i + 3)) (32 ∷ []) (b (i + 3)) end)))

  shown-IsText : (i : ℕ) → IsText (shown buffer lg i)
  unfolding shown
  shown-IsText i = ground arith

  characters-Block : (z i : ℕ) → Block z (characters buffer lg z i)
  unfolding characters
  characters-Block zero i = (refl, tt)
  characters-Block (suc z) i =
      let (l, h) = characters-Block z (i + 1) in (ap suc l, (shown-IsText i, h))

  trace_line-Block : (i : ℕ) → i < 16 ^ 6 → Block 64 (trace_line buffer lg i)
  unfolding trace_line
  trace_line-Block i small =
      let c = column buffer lg in
      let b = column-Block in
      let text = characters buffer lg 16 i in
      let end = text ++ 124 ∷ 10 ∷ [] in
      let gap : List ℕ = 32 ∷ 124 ∷ [] in
      Block-append 6 58 (offset i)
        (32 ∷ 32 ∷ [] ++ (c i ++ (c (i + 4) ++ (c (i + 8) ++ (c (i + 12) ++ (gap ++ end))))))
        (offset-Block i small)
        (Block-append 2 56 (32 ∷ 32 ∷ [])
          (c i ++ (c (i + 4) ++ (c (i + 8) ++ (c (i + 12) ++ (gap ++ end)))))
          (two_texts 32 32 (inl (omega arith)) (inl (omega arith)))
          (Block-append 9 47 (c i) (c (i + 4) ++ (c (i + 8) ++ (c (i + 12) ++ (gap ++ end)))) (b i)
            (Block-append 9 38 (c (i + 4)) (c (i + 8) ++ (c (i + 12) ++ (gap ++ end))) (b (i + 4)) (
              Block-append 9 29 (c (i + 8)) (c (i + 12) ++ (gap ++ end)) (b (i + 8)) (
                Block-append 9 20 (c (i + 12)) (gap ++ end) (b (i + 12)) (
                  Block-append 2 18 gap end
                    (two_texts 32 124 (inl (omega arith)) (inl (omega arith)))
                    (Block-append 16 2 text (124 ∷ 10 ∷ []) (characters-Block 16 i)
                      (two_texts 124 10 (inl (omega arith)) (inr refl)))))))))

  trace_lines-Block : (n i : ℕ) → i + n * 16 < 16 ^ 6 → Block (64 * n) (trace_lines buffer lg n i)
  unfolding trace_lines
  trace_lines-Block zero i small = (omega arith, tt)
  trace_lines-Block (suc n) i small =
      let (l, h) =
        Block-append 64 (64 * n) (trace_line buffer lg i) (trace_lines buffer lg n (i + 16))
          (trace_line-Block i (omega arith)) (trace_lines-Block n (i + 16) (omega arith)) in
      (omega arith, h)

  -- `asc_trace` writes 64 characters for each block, at most 20480, whatever the buffer holds, so
  -- they and the zero at the end fit its array; all of them are visible characters, spaces and
  -- line ends.
  pub asc_trace_fits :
      (length (asc_trace buffer lg) ≡ 64 * nb_bloc lg)
      × (length (asc_trace buffer lg) ≤ 20480)
      × All IsText (asc_trace buffer lg)
  unfolding asc_trace
  asc_trace_fits =
      let most : nb_bloc lg ≤ 320 = unfold nb_bloc in ground arith in
      let (l, h) = trace_lines-Block (nb_bloc lg) 0 (omega arith) in (l, omega arith, h)
