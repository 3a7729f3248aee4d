-- ===== src/StoreRtag/Recovery.antt =====
-- source/mq_store_rtag.c: what `mq_sm_rtag_read_item` recovers from a record file, whole or with a
-- last line that was cut off.
use ucmq.Prelude.{
  ℕ, suc, ◌+◌, ◌-◌, ◌*◌, ◌≤◌, ◌<◌, ◌≡◌, refl, ap, ◌∙◌, sym, true, false, some, List, [], ◌∷◌, ◌++◌,
  append_assoc, arith, length, drop, take, drop_past, drop_within, All-drop, take_all, length-drop,
  All, ltb, leb, if◌then◌else◌, length-append, le→ltb, le→leb,
}
use ucmq.Prelude.Decimal.{IsDigit}
use ucmq.Types.{MqQueue}
use ucmq.Os.{TailRead, before_start, got}
use ucmq.StoreRtag.{
  tokens, parse_tokens, parse_rtag_item, check_rtag_item, rtag_fields, rtag_item, read_item,
  read_item_from, judge_line, set_wpos,
}
use ucmq.StoreRtag.Fields.{tokens_line, tokens_last}
use ucmq.StoreRtag.RoundTrip.{
  FieldsFit, restored, length-rtag_fields, rtag_fields-IsDigit, parse_fields_token,
  parse_rtag_item-rtag_item,
}

-- lseek and a whole read on a regular file: up to 122 bytes from 61 * i before its end.
abbrev pub file_tail : List ℕ → ℕ → TailRead
file_tail file i =
    if ltb (length file) (61 * i)
    then before_start
    else got (take 122 (drop (length file - 61 * i) file))

-- Where `post` ends the file, the seek lands inside it.
tail_is :
    (pre post : List ℕ) (i n : ℕ)
    → length post ≡ 61 * i + n
    → 61 * i ≤ 122
    → file_tail (pre ++ post) i ≡ got (drop n post)
tail_is pre post i n e le =
    rw (le→ltb (length (pre ++ post)) (61 * i) (omega (arith, length-append pre post))) (
      ap got (
        ap (λ k. take 122 (drop k (pre ++ post))) skip
        ∙ ap (take 122) (drop_past pre post n)
        ∙ take_all 122 (drop n post) (omega (arith, length-drop n post))))
  where
    skip : length (pre ++ post) - 61 * i ≡ length pre + n
    skip = omega (arith, length-append pre post)

module _ (max dm dd : ℕ) (read_tail : ℕ → TailRead) (fuel i : ℕ) (q0 : MqQueue) where
  read_step :
      (line : List ℕ)
      → read_tail i ≡ got line
      → leb 61 (length line) ≡ true
      → read_item_from max dm dd read_tail (suc fuel) i q0
        ≡ judge_line max i
            (read_item_from max dm dd read_tail fuel (i + 1))
            (parse_rtag_item max q0 line)
  unfolding read_item_from
  read_step line e l = ground arith

pub length-rtag_item : (q : MqQueue) → FieldsFit q → length (rtag_item q) ≡ 61
length-rtag_item q f =
    omega (arith, length-append (rtag_fields q) (10 ∷ []), length-rtag_fields q f)

-- Whatever stands before it in the file, a whole last record with fields of 32 bits that pass the
-- check gives its positions and settings back, in one round or more.
pub read_item_last :
    (max dm dd : ℕ) (read_tail : ℕ → TailRead) (fuel : ℕ) (pre : List ℕ) (q q0 : MqQueue)
    → ((i : ℕ) → read_tail i ≡ file_tail (pre ++ rtag_item q) i)
    → FieldsFit q
    → check_rtag_item max q ≡ true
    → read_item max dm dd read_tail (suc fuel) q0 ≡ some (restored q0 q, true)
unfolding read_item
read_item_last max dm dd read_tail fuel pre q q0 reads f c =
    read_step max dm dd read_tail fuel 1 q0 (rtag_item q)
      (reads 1 ∙ tail_is pre (rtag_item q) 1 0 (omega (arith, length-rtag_item q f)) (omega arith))
      (le→leb 61 (length (rtag_item q)) (omega (arith, length-rtag_item q f)))
    ∙ ap (judge_line max 1 (read_item_from max dm dd read_tail fuel 2))
        (parse_rtag_item-rtag_item q f max q0 c)

parse_short :
    (max : ℕ) (q0 : MqQueue) (t : List ℕ) (rest : List (List ℕ))
    → length t < 60
    → parse_tokens max (t ∷ rest) q0 ≡ parse_tokens max rest q0
unfolding parse_tokens
parse_short max q0 t rest h = ground arith

no_tokens : (max : ℕ) (q0 : MqQueue) → parse_tokens max [] q0 ≡ (q0, false)
unfolding parse_tokens
no_tokens max q0 = refl

module _ (q : MqQueue) (f : FieldsFit q) (k : ℕ) (cut : k < 60) where
  tail_of_item :
      (rest : List ℕ) → drop k (rtag_item q ++ rest) ≡ drop k (rtag_fields q) ++ 10 ∷ rest
  tail_of_item rest =
      ap (drop k) (append_assoc (rtag_fields q) (10 ∷ []) rest)
      ∙ drop_within k (rtag_fields q) (10 ∷ rest) (omega (arith, length-rtag_fields q f))

  -- What is left of a line is one piece, too short to count.
  skip_tail :
      (max : ℕ) (q0 : MqQueue) (rest : List ℕ)
      → 0 < k
      → parse_rtag_item max q0 (drop k (rtag_item q ++ rest)) ≡ parse_tokens max (tokens [] rest) q0
  unfolding parse_rtag_item
  skip_tail max q0 rest pos =
      ap (λ t. parse_tokens max (tokens [] t) q0) (tail_of_item rest)
      ∙ ap (λ ts. parse_tokens max ts q0)
          (tokens_line (drop k (rtag_fields q)) rest
            (All-drop IsDigit k (rtag_fields q) (rtag_fields-IsDigit q f))
            (omega (arith, length-drop k (rtag_fields q), length-rtag_fields q f)))
      ∙ parse_short max q0 (drop k (rtag_fields q)) (tokens [] rest)
          (omega (arith, length-drop k (rtag_fields q), length-rtag_fields q f))

-- If the last line was cut off after between 1 and 59 digits, and the line before it is a record
-- of a queue that passes the check, with another record before that, two rounds or more read that
-- record, with the write position set to the end of the file, so that the next put starts a new
-- file.
pub read_item_torn :
    (max dm dd : ℕ) (read_tail : ℕ → TailRead) (fuel : ℕ) (pre torn : List ℕ) (p q q0 : MqQueue)
    → ((i : ℕ) → read_tail i ≡ file_tail (pre ++ (rtag_item p ++ (rtag_item q ++ torn))) i)
    → All IsDigit torn
    → 0 < length torn
    → length torn < 60
    → FieldsFit p
    → FieldsFit q
    → check_rtag_item max q ≡ true
    → read_item max dm dd read_tail (suc (suc fuel)) q0 ≡ some (set_wpos (restored q0 q) max, true)
unfolding read_item
read_item_torn max dm dd read_tail fuel pre torn p q q0 reads ds pos cut fp fq c =
    read_step max dm dd read_tail (suc fuel) 1 q0 (drop k (rtag_item q ++ torn))
      (reads 1
        ∙ ap (λ t. file_tail t 1) (sym (append_assoc pre (rtag_item p) (rtag_item q ++ torn)))
        ∙ tail_is (pre ++ rtag_item p) (rtag_item q ++ torn) 1 k (omega (arith, sizes))
            (omega arith))
      (le→leb 61 (length (drop k (rtag_item q ++ torn)))
        (omega (arith, sizes, length-drop k (rtag_item q ++ torn))))
    ∙ ap (judge_line max 1 (read_item_from max dm dd read_tail (suc fuel) 2)) first_fails
    ∙ read_step max dm dd read_tail fuel 2 q0 (drop k (rtag_item p ++ (rtag_item q ++ torn)))
        (reads 2
          ∙ tail_is pre (rtag_item p ++ (rtag_item q ++ torn)) 2 k (omega (arith, sizes, all_sizes))
              (omega arith))
        (le→leb 61 (length (drop k (rtag_item p ++ (rtag_item q ++ torn))))
          (omega (arith, sizes, all_sizes, length-drop k (rtag_item p ++ (rtag_item q ++ torn)))))
    ∙ ap (judge_line max 2 (read_item_from max dm dd read_tail fuel 3)) second_reads
  where
    k : ℕ
    k = length torn

    sizes : length (rtag_item q ++ torn) ≡ 61 + length torn
    sizes = omega (arith, length-append (rtag_item q) torn, length-rtag_item q fq)

    all_sizes : length (rtag_item p ++ (rtag_item q ++ torn)) ≡ 122 + length torn
    all_sizes =
        omega
          (arith, sizes, length-append (rtag_item p) (rtag_item q ++ torn), length-rtag_item p fp)

    first_fails : parse_rtag_item max q0 (drop k (rtag_item q ++ torn)) ≡ (q0, false)
    first_fails =
        skip_tail q fq k cut max q0 torn pos
        ∙ ap (λ ts. parse_tokens max ts q0) (tokens_last torn ds pos)
        ∙ parse_short max q0 torn [] cut
        ∙ no_tokens max q0

    second_reads :
        parse_rtag_item max q0 (drop k (rtag_item p ++ (rtag_item q ++ torn)))
        ≡ (restored q0 q, true)
    second_reads =
        skip_tail p fp k cut max q0 (rtag_item q ++ torn) pos
        ∙ ap (λ t. parse_tokens max (tokens [] t) q0) (append_assoc (rtag_fields q) (10 ∷ []) torn)
        ∙ ap (λ ts. parse_tokens max ts q0)
            (tokens_line (rtag_fields q) torn (rtag_fields-IsDigit q fq)
              (omega (arith, length-rtag_fields q fq)))
        ∙ parse_fields_token q fq max q0 (tokens [] torn) c
