-- ===== src/Types.antt =====
-- source/mq_util.h, source/mq_queue_manage.h: the constants and the structures of a queue and of a
-- message. An `int` is its 32-bit pattern; a file descriptor is `none` where the C value is
-- negative, and a mapping is `none` where the pointer is NULL.
use ucmq.Prelude.{ℕ, Option, List}

abbrev pub db_file_head_len : ℕ
db_file_head_len = 128

abbrev pub db_file_version : ℕ
db_file_version = 1

abbrev pub msg_head_len : ℕ
msg_head_len = 12

abbrev pub msg_head_of_first_magic_num : ℕ
msg_head_of_first_magic_num = 0xfe

abbrev pub msg_head_of_second_magic_num : ℕ
msg_head_of_second_magic_num = 0xac

-- mq_db_map_t. The field `stat` is used nowhere in the source and left out.
pub record DbMap : Type 0 where
  pub fd : Option ℕ
  pub flag : ℕ
  pub map_mem : Option ℕ
  pub pos : ℕ
  pub opt_count : ℕ
  pub cur_index : ℕ

-- mq_queue_t
pub record MqQueue : Type 0 where
  pub qname : List ℕ
  pub rtag_fd : Option ℕ
  pub wlock : ℕ
  pub sync_intv : ℕ
  pub delay : ℕ
  pub maxque : ℕ
  pub put_num : ℕ
  pub get_num : ℕ
  pub unread_count : ℕ
  pub cur_rdb : DbMap
  pub cur_wdb : DbMap

-- msg_item_t; `msg` holds the bytes that the pointer leads to.
pub record MsgItem : Type 0 where
  pub magic_num1 : ℕ
  pub magic_num2 : ℕ
  pub delay : ℕ
  pub crc16 : ℕ
  pub len : ℕ
  pub msg : List ℕ

-- queue_file_t
pub record QueueFile : Type 0 where
  pub rtag_name : List ℕ
  pub read_name : List ℕ
  pub write_name : List ℕ
  pub rtag_fid : ℕ
  pub read_fid : ℕ
  pub write_fid : ℕ
