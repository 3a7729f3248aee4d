-- ===== src/StoreMsg/Layout.antt =====
-- source/mq_store_msg.c: the bytes that `mq_sm_db_write_msg` lays down against the fields that
-- `mq_sm_db_parse_msg` finds.
use ucmq.Prelude.{
  ℕ, ◌+◌, ◌^◌, ◌≤◌, ◌<◌, ◌≡◌, ap, ◌∙◌, some, List, [], ◌∷◌, ◌++◌, arith, length, All,
}
use ucmq.Prelude.Bytes.{
  IsByte, Memory, u32_mod, le16, le32, Holds, Holds-at, Holds-left, Holds-right, Holds-le16,
  Holds-le32, Holds-read_bytes,
}
use ucmq.Crc16.{crc16_append}
use ucmq.Crc16.Reference.{crc16_append-lt}
use ucmq.Types.{MsgItem, msg_head_of_first_magic_num, msg_head_of_second_magic_num}
use ucmq.StoreMsg.{ok, parse_msg, parse_msg_head, check_body, build_msg_crc16, msg_bytes}

-- A message as it was put: the second of its arrival and its body.
pub record Entry : Type 0 where
  pub time : ℕ
  pub body : List ℕ

-- What `mq_qm_push_item` and `mq_sm_put_data` fill in.
abbrev pub item_of : Entry → MsgItem
item_of e = record {
  magic_num1 = msg_head_of_first_magic_num;
  magic_num2 = msg_head_of_second_magic_num;
  delay = e.time;
  crc16 = crc16_append e.body;
  len = length e.body;
  msg = e.body;
}

pub record IsEntry (e : Entry) : Type 0 where
  pub time_fits : e.time < u32_mod
  pub bytes : All IsByte e.body
  pub short : length e.body < 2 ^ 31

module _ (mem : Memory) (p : ℕ) (e : Entry) (h : Holds mem p (msg_bytes (item_of e))) where
  magic : List ℕ
  magic = msg_head_of_first_magic_num ∷ msg_head_of_second_magic_num ∷ []

  crc_on : List ℕ
  crc_on = le16 (crc16_append e.body) ++ (le32 (length e.body) ++ e.body)

  from_time : Holds mem (p + 2) (le32 e.time ++ crc_on)
  unfolding crc_on
  from_time =
      Holds-right mem p (msg_head_of_first_magic_num ∷ msg_head_of_second_magic_num ∷ [])
        (le32 e.time ++ crc_on) h

  from_crc : Holds mem (p + 6) crc_on
  from_crc =
      Holds-at mem (p + 2 + 4) (p + 6) crc_on (omega arith)
        (Holds-right mem (p + 2) (le32 e.time) crc_on from_time)

  from_len : Holds mem (p + 8) (le32 (length e.body) ++ e.body)
  unfolding crc_on
  from_len = Holds-at mem (p + 6 + 2) (p + 8) (le32 (length e.body) ++ e.body) (omega arith) (
      Holds-right mem (p + 6) (le16 (crc16_append e.body)) (le32 (length e.body) ++ e.body)
        from_crc)

  pub body_at : Holds mem (p + 12) e.body
  body_at =
      Holds-at mem (p + 8 + 4) (p + 12) e.body (omega arith)
        (Holds-right mem (p + 8) (le32 (length e.body)) e.body from_len)

  pub magic_at :
      (mem p ≡ msg_head_of_first_magic_num) × (mem (p + 1) ≡ msg_head_of_second_magic_num)
  magic_at = (ap mem (omega arith) ∙ h 0 (omega arith), h 1 (omega arith))

  module _ (v : IsEntry e) where
    pub head_item : parse_msg_head mem p ≡ some (record (item_of e) { msg = [] })
    unfolding parse_msg_head crc_on
    head_item = ground (
      arith,
      magic_at,
      Holds-le32 mem (p + 2) e.time v.time_fits
          (Holds-left mem (p + 2) (le32 e.time) crc_on from_time),
      Holds-le16 mem (p + 6) (crc16_append e.body) (crc16_append-lt e.body v.bytes) (
          Holds-left mem (p + 6) (le16 (crc16_append e.body)) (le32 (length e.body) ++ e.body)
            from_crc),
      Holds-le32 mem (p + 8) (length e.body) (omega (arith, v.short))
          (Holds-left mem (p + 8) (le32 (length e.body)) e.body from_len),
    )

    body_checked : check_body mem (p + 12) (record (item_of e) { msg = [] }) ≡ ok (item_of e)
    unfolding check_body build_msg_crc16
    body_checked = ground (arith, v.short, Holds-read_bytes mem (p + 12) e.body body_at)

    -- Where the bytes of a message lie in a mapped file of at most 64 MB, with an end in the file
    -- and at least one byte of body there or behind, parsing at that position gives the message:
    -- time, checksum, length and body.
    pub parse_msg-msg_bytes :
        (max : ℕ)
        → max ≤ 2 ^ 26
        → p + 12 < max
        → p + 12 + length e.body ≤ max
        → parse_msg max (some mem) p ≡ ok (item_of e)
    unfolding parse_msg
    parse_msg-msg_bytes max small inside room = ground (arith, magic_at, head_item, body_checked)
