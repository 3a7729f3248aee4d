-- ===== src/StoreManage/GetData.antt =====
-- source/mq_store_manage.c: `mq_sm_get_data`, the read loop.
use ucmq.Prelude.{
  ℕ, zero, suc, Bool, true, false, ◌&&◌, Option, none, some, ltb, leb, not, ◌==◌, if◌then◌else◌,
}
use ucmq.Prelude.Bytes.{add32, sub32, add64, sub64}
use ucmq.Prelude.Run.{Run, ret, fault, out_of_fuel, ◌>>=◌}
use ucmq.Config.{UcmqConf, max_db_file_size}
use ucmq.Types.{MqQueue, MsgItem, msg_head_len}
use ucmq.Os.{Os}
use ucmq.StoreMsg.{MsgCheckRet, ok, msg_err, mag_num_err, parse_err, crc_err, len_bey, parse_msg}
use ucmq.StoreFile.ReadFile.{get_next_read_file}

-- `if (rpos + MSG_HEAD_LEN >= wpos)` in the file that is written.
unfoldable pub at_end : MqQueue → Bool
at_end q =
    q.cur_rdb.cur_index == q.cur_wdb.cur_index
    && leb q.cur_wdb.pos (add32 q.cur_rdb.pos msg_head_len)

-- The read position is moved past bytes that are no message.
unfoldable pub skip : ℕ → MqQueue → MqQueue
skip n q = record q { cur_rdb = record (q.cur_rdb) { pos = add32 q.cur_rdb.pos n } }

-- A message that is due is taken.
unfoldable pub taken : MsgItem → MqQueue → MqQueue
taken item q = record q {
  cur_rdb = record (q.cur_rdb) {
    pos = add32 q.cur_rdb.pos (add32 item.len msg_head_len);
    opt_count = add32 q.cur_rdb.opt_count 1;
  };
  get_num = add64 q.get_num 1;
  unread_count = sub64 q.unread_count 1;
}

-- Whether a message has to wait: the age is a `uint32_t`.
unfoldable pub too_early : ℕ → MqQueue → MsgItem → Bool
too_early now q item = not (q.delay == 0) && ltb (sub32 now item.delay) q.delay

module _ (os : Os) (conf : UcmqConf) where
  open os use {Sys}

  -- A round ends the call, with a message or without, or goes on.
  pub data Round : Type 0 where
    leave : Sys → MqQueue → Option MsgItem → Round
    again : Sys → MqQueue → Round

  unfoldable pub next_file : Sys × MqQueue × Bool → Round
  next_file (s, q, true) = again s q
  next_file (s, q, false) = leave s q none

  unfoldable pub act : ℕ → MqQueue → Sys → MsgCheckRet → Round
  unfolding next_file too_early taken skip get_next_read_file
  act now q s (ok item) =
      if too_early now q item then leave s q none else leave s (taken item q) (some item)
  act now q s mag_num_err = again s (skip 1 q)
  act now q s parse_err = again s (skip 2 q)
  act now q s crc_err = again s (skip 2 q)
  act now q s msg_err = next_file (get_next_read_file os conf q s)
  act now q s len_bey = next_file (get_next_read_file os conf q s)

  -- The message at the read position. A mapping that is not there is a fault.
  unfoldable pub message_at : MqQueue → Sys → Run MsgCheckRet
  message_at q s = elim (q.cur_rdb.map_mem) [
    | none ↦ ret msg_err
    | some m ↦
        if leb (max_db_file_size conf) (os.mapped s m)
        then ret (parse_msg (max_db_file_size conf) (some (os.load s m)) q.cur_rdb.pos)
        else fault
  ]

  unfoldable pub get_round : ℕ → MqQueue → Sys → Run Round
  get_round now q s =
      if at_end q
      then ret (
          leave s
            (record q { cur_rdb = record (q.cur_rdb) { pos = q.cur_wdb.pos }; unread_count = 0 })
            none)
      else (do found ← message_at q s; ret (act now q s found))

  -- The `while (1)` on the rounds left. `now` is the clock of the round that finds a message, the only
  -- one that reads it.
  unfoldable pub get_data : ℕ → ℕ → MqQueue → Sys → Run (Sys × MqQueue × Option MsgItem)
  get_data zero now q s = out_of_fuel
  get_data (suc fuel) now q s = elim (get_round now q s) [
    | fault ↦ fault
    | out_of_fuel ↦ out_of_fuel
    | ret (leave s' q' found) ↦ ret (s', q', found)
    | ret (again s' q') ↦ get_data fuel now q' s'
  ]
