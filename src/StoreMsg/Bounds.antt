-- ===== src/StoreMsg/Bounds.antt =====
-- source/mq_store_msg.c: `mq_sm_db_parse_msg` and `mq_sm_db_cal_msg_count` on any file content,
-- damaged files included.
use ucmq.Prelude.{
  ℕ, zero, suc, ◌+◌, ◌*◌, ◌^◌, ◌≤◌, ◌<◌, ◌≡◌, ◌≢◌, inl, inr, refl, ◌∙◌, true, false, Option, none,
  some, arith, ltb, leb, Bool_cases,
}
use ucmq.Prelude.Bytes.{Memory, u32_mod, add32, read_bytes_agree}
use ucmq.Types.{MsgItem, msg_head_len}
use ucmq.StoreMsg.{
  MsgCheckRet, ok, msg_err, mag_num_err, parse_msg, parse_msg_head, check_head, check_body,
  build_msg_crc16, cal_msg_count, count_round, cal_msg_count_from,
}

module _ (max : ℕ) (mem mem' : Memory) (p : ℕ) (small : max ≤ 2 ^ 26)
    (same : (i : ℕ) → i < max → mem i ≡ mem' i) where
  head_agree : p + 12 < max → parse_msg_head mem p ≡ parse_msg_head mem' p
  unfolding parse_msg_head
  head_agree h = ground (
    arith,
    same p,
    same (p + 1),
    same (p + 2),
    same (p + 2 + 1),
    same (p + 2 + 2),
    same (p + 2 + 3),
    same (p + 6),
    same (p + 6 + 1),
    same (p + 8),
    same (p + 8 + 1),
    same (p + 8 + 2),
    same (p + 8 + 3),
  )

  body_agree :
      (item : MsgItem)
      → p + 12 < max
      → ltb max (add32 (add32 p item.len) msg_head_len) ≡ false
      → check_body mem (p + 12) item ≡ check_body mem' (p + 12) item
  unfolding check_body build_msg_crc16
  body_agree item h t = elim (Bool_cases (leb (2 ^ 31) item.len)) [
    | inl big ↦ ground arith
    | inr fits ↦ ground (
      arith,
      read_bytes_agree mem mem' (p + 12) item.len (λ i a b. same i (room i b (in_file fits))),
    )
  ]
    where
      in_file : leb (2 ^ 31) item.len ≡ false → p + 12 + item.len ≤ max
      in_file f = ground arith

      room : (i : ℕ) → i < p + 12 + item.len → p + 12 + item.len ≤ max → i < max
      room i b r = omega arith

  checked_agree :
      (item : Option MsgItem)
      → p + 12 < max
      → check_head max mem p item ≡ check_head max mem' p item
  unfolding check_head
  checked_agree none h = refl
  checked_agree (some item) h = ground (arith, body_agree item h)

  -- For a mapping of at most 64 MB and a position with p + 12 below 2 ^ 32, two memories that
  -- agree below the mapping's end parse alike, whatever the bytes: parsing depends on no byte
  -- outside the mapping.
  pub parse_msg_agree : p + 12 < u32_mod → parse_msg max (some mem) p ≡ parse_msg max (some mem') p
  unfolding parse_msg
  parse_msg_agree h =
      ground (arith, same p, same (p + 1), head_agree, checked_agree (parse_msg_head mem' p))

-- A message that parses at a position with p + 12 below 2 ^ 32, in a mapping of at most 64 MB,
-- lies within the mapping, its head and its body.
pub parse_msg_fits :
    (max : ℕ) (mem : Memory) (p : ℕ) {item : MsgItem}
    → max ≤ 2 ^ 26
    → p + 12 < u32_mod
    → parse_msg max (some mem) p ≡ ok item
    → p + 12 + item.len ≤ max
unfolding parse_msg check_head check_body build_msg_crc16 parse_msg_head
parse_msg_fits max mem p small h e = ground arith

mapped_ne_msg_err : (max : ℕ) (mem : Memory) (p : ℕ) → parse_msg max (some mem) p ≢ msg_err
unfolding parse_msg check_head check_body
mapped_ne_msg_err max mem p e = ground arith

-- A round moves on, stays within a byte of the file's end, and counts at most one message for each
-- head that it passes.
abbrev Round : ℕ → ℕ → ℕ → Option (ℕ × ℕ) → Type 0
Round max p n r =
    (p' : ℕ) × (n' : ℕ) × (r ≡ some (p', n'))
    × (p < p')
    × (p' ≤ max + 1)
    × (n ≤ n')
    × (12 * n' + p ≤ 12 * n + p')

module _ (max : ℕ) (mem : Memory) (p n : ℕ) (small : max ≤ 2 ^ 26) (h : p < max) where
  round_moves :
      (r : MsgCheckRet) → parse_msg max (some mem) p ≡ r → Round max p n (count_round r p n)
  unfolding count_round
  round_moves (ok item) e =
      let f : p + 12 + item.len ≤ max = parse_msg_fits max mem p small (omega arith) e in
      (p + 12 + item.len, n + 1, ground arith, omega arith, omega arith, omega arith, omega arith)
  round_moves msg_err e = absurd (mapped_ne_msg_err max mem p e)
  round_moves mag_num_err e =
      (p + 1, n, ground arith, omega arith, omega arith, omega arith, omega arith)
  round_moves _ e = (p + 2, n, ground arith, omega arith, omega arith, omega arith, omega arith)

module _ (max : ℕ) (mem : Memory) (end_pos fuel p n : ℕ) where
  count_step :
      (p' n' : ℕ)
      → ltb p end_pos ≡ true
      → count_round (parse_msg max (some mem) p) p n ≡ some (p', n')
      → cal_msg_count_from max mem end_pos (suc fuel) p n
        ≡ cal_msg_count_from max mem end_pos fuel p' n'
  unfolding cal_msg_count_from
  count_step p' n' more e = ground arith

  count_stop : ltb p end_pos ≡ false → cal_msg_count_from max mem end_pos (suc fuel) p n ≡ some n
  unfolding cal_msg_count_from
  count_stop done = ground arith

-- The loop of the count ends, on any content of the file, and counts no more messages than heads
-- fit between its position and the file's end.
count_from_ends :
    (fuel max : ℕ) (mem : Memory) (end_pos p n : ℕ)
    → max ≤ 2 ^ 26
    → end_pos ≤ max
    → 0 < fuel
    → end_pos < fuel + p
    → p ≤ max + 1
    → (k : ℕ) × (cal_msg_count_from max mem end_pos fuel p n ≡ some k)
      × (n ≤ k)
      × (12 * k + p ≤ 12 * n + max + 1)
count_from_ends zero max mem end_pos p n small le some_left enough h = absurd (omega arith)
count_from_ends (suc fuel) max mem end_pos p n small le some_left enough h =
    elim (Bool_cases (ltb p end_pos)) [
      | inl more ↦
          let (p', n', e, up, top, nn, heads) =
            round_moves max mem p n small (ground arith) (parse_msg max (some mem) p) refl in
          let (k, r, low, high) =
            count_from_ends fuel max mem end_pos p' n' small le (ground arith) (omega arith) top in
          (k, count_step max mem end_pos fuel p n p' n' more e ∙ r, omega arith, omega arith)
      | inr done ↦ (n, count_stop max mem end_pos fuel p n done, omega arith, omega arith)
    ]

-- Counting the messages of a file of `max` bytes, at most 64 MB, up to any position in it ends,
-- whatever the file holds, and the count is at most (max + 1) / 12.
pub cal_msg_count_ends :
    (max : ℕ) (mem : Memory) (end_pos : ℕ)
    → max ≤ 2 ^ 26
    → end_pos ≤ max
    → (k : ℕ) × (cal_msg_count max mem end_pos ≡ some k) × (12 * k ≤ max + 1)
unfolding cal_msg_count
cal_msg_count_ends max mem end_pos small le =
    let (k, r, low, high) =
      count_from_ends (end_pos + 1) max mem end_pos 0 0 small le (omega arith) (omega arith)
        (omega arith) in
    (k, r, omega arith)
