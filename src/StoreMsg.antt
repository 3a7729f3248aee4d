-- ===== src/StoreMsg.antt =====
-- source/mq_store_msg.c: the layout of a message in a data file, its checks and the count of the
-- messages of a file. A data file is the memory that its mapping shows; `max` stands for
-- MAX_DB_FILE_SIZE, and words lie in memory lowest byte first. What writes to a queue's
-- mapping (`mq_sm_db_write_msg`) stands in StoreFile, beside the file switch that it calls.
pub mod Layout
pub mod Bounds
use ucmq.Prelude.{
  ℕ, zero, suc, ◌+◌, ◌^◌, Bool, true, false, not, ◌||◌, Option, none, some, List, [], ◌∷◌, ◌++◌,
  ltb, leb, ◌==◌, if◌then◌else◌, replicate,
}
use ucmq.Prelude.Bytes.{Memory, add32, le16, le32, get16, get32, read_bytes}
use ucmq.Prelude.Decimal.{padded}
use ucmq.Crc16.{crc16_append}
use ucmq.Types.{
  MsgItem, msg_head_len, msg_head_of_first_magic_num, msg_head_of_second_magic_num, db_file_version,
}

-- msg_check_ret_e; a parsed message comes with MSG_CHECK_RET_OK.
pub data MsgCheckRet : Type 0 where
  ok : MsgItem → MsgCheckRet
  msg_err mag_num_err parse_err crc_err len_bey : MsgCheckRet

-- `len` is an `int`: a pattern from 2 ^ 31 on is negative.
unfoldable pub build_msg_crc16 : Memory → ℕ → ℕ → Option ℕ
build_msg_crc16 mem start len =
    if leb (2 ^ 31) len then none else some (crc16_append (read_bytes mem start len))

-- The body is not read here: `msg` is filled in by the caller.
unfoldable pub parse_msg_head : Memory → ℕ → Option MsgItem
parse_msg_head mem p = some (record {
  magic_num1 = mem p;
  magic_num2 = mem (p + 1);
  delay = get32 mem (p + 2);
  crc16 = get16 mem (p + 6);
  len = get32 mem (p + 8);
  msg = [];
})

-- The comparison of the checksums, and the body.
check_body : Memory → ℕ → MsgItem → MsgCheckRet
check_body mem start item = elim (build_msg_crc16 mem start item.len) [
  | none ↦ crc_err
  | some tmp_crc16 ↦
      if item.crc16 == tmp_crc16
      then ok (record item { msg = read_bytes mem start item.len })
      else crc_err
]

check_head : ℕ → Memory → ℕ → Option MsgItem → MsgCheckRet
check_head max mem cur_pos none = parse_err
check_head max mem cur_pos (some item) =
    if ltb max (add32 (add32 cur_pos item.len) msg_head_len)
    then len_bey
    else check_body mem (cur_pos + msg_head_len) item

unfoldable pub parse_msg : ℕ → Option Memory → ℕ → MsgCheckRet
unfolding check_head check_body
parse_msg max none cur_pos = msg_err
parse_msg max (some mem) cur_pos =
    if leb max (add32 cur_pos msg_head_len)
    then len_bey
    else if not (mem cur_pos == msg_head_of_first_magic_num)
        || not (mem (cur_pos + 1) == msg_head_of_second_magic_num)
    then mag_num_err
    else check_head max mem cur_pos (parse_msg_head mem cur_pos)

-- The bytes that the copies of `mq_sm_db_write_msg` put down, in their order.
abbrev pub msg_bytes : MsgItem → List ℕ
msg_bytes item =
    item.magic_num1
    ∷ item.magic_num2
    ∷ (le32 item.delay ++ (le16 item.crc16 ++ (le32 item.len ++ item.msg)))

-- The block that `mq_sm_db_write_file_head` copies: thirteen digits, the rest zero.
abbrev pub file_head_bytes : ℕ → List ℕ
file_head_bytes opt_count = padded 1 db_file_version ++ (padded 12 opt_count ++ replicate 115 0)

-- One round of `mq_sm_db_cal_msg_count` below `end_pos`: the next position and count; `none` is
-- the `break`.
count_round : MsgCheckRet → ℕ → ℕ → Option (ℕ × ℕ)
count_round (ok item) curr_file_pos db_count =
    some (add32 curr_file_pos (add32 msg_head_len item.len), db_count + 1)
count_round mag_num_err curr_file_pos db_count = some (add32 curr_file_pos 1, db_count)
count_round parse_err curr_file_pos db_count = some (add32 curr_file_pos 2, db_count)
count_round crc_err curr_file_pos db_count = some (add32 curr_file_pos 2, db_count)
count_round msg_err curr_file_pos db_count = none
count_round len_bey curr_file_pos db_count = some (add32 curr_file_pos 2, db_count)

-- The loop, on the rounds left; `none` means that they ran out.
cal_msg_count_from : ℕ → Memory → ℕ → ℕ → ℕ → ℕ → Option ℕ
cal_msg_count_from max mem end_pos zero curr_file_pos db_count = none
cal_msg_count_from max mem end_pos (suc fuel) curr_file_pos db_count =
    elim (ltb curr_file_pos end_pos) [
      | false ↦ some db_count
      | true ↦ elim (count_round (parse_msg max (some mem) curr_file_pos) curr_file_pos db_count) [
        | none ↦ some db_count
        | some (pos, count) ↦ cal_msg_count_from max mem end_pos fuel pos count
      ]
    ]

unfoldable pub cal_msg_count : ℕ → Memory → ℕ → Option ℕ
unfolding cal_msg_count_from count_round
cal_msg_count max mem end_pos = cal_msg_count_from max mem end_pos (end_pos + 1) 0 0
