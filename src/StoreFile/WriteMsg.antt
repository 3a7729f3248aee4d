-- ===== src/StoreFile/WriteMsg.antt =====
-- source/mq_store_msg.c: `mq_sm_db_write_msg`.
use ucmq.Prelude.{Bool, true, false, ltb, if◌then◌else◌}
use ucmq.Prelude.Bytes.{add32, add64}
use ucmq.Prelude.Run.{Run, ret, ◌>>=◌}
use ucmq.Config.{UcmqConf, max_db_file_size}
use ucmq.Types.{MqQueue, MsgItem, msg_head_len}
use ucmq.Os.{Os}
use ucmq.StoreMsg.{msg_bytes}
use ucmq.StoreFile.{copy_to_map, write_file_head, get_next_write_file}

module _ (os : Os) (conf : UcmqConf) where
  open os use {Sys}

  -- The copies and the counters.
  unfoldable pub append_msg : MqQueue → MsgItem → Sys → Run (Sys × MqQueue × Bool)
  unfolding copy_to_map
  append_msg q item s = do
    s' ← copy_to_map os conf q.cur_wdb.map_mem q.cur_wdb.pos (msg_bytes item) s
    ret (
      s',
      record q {
        cur_wdb = record (q.cur_wdb) {
          pos = add32 q.cur_wdb.pos (add32 item.len msg_head_len);
          opt_count = add32 q.cur_wdb.opt_count 1;
        };
        put_num = add64 q.put_num 1;
      },
      true,
    )

  unfoldable pub append_if : MsgItem → Sys × MqQueue × Bool → Run (Sys × MqQueue × Bool)
  unfolding append_msg
  append_if item (s, q, true) = append_msg q item s
  append_if item (s, q, false) = ret (s, q, false)

  unfoldable pub write_msg : MqQueue → MsgItem → Sys → Run (Sys × MqQueue × Bool)
  unfolding append_if write_file_head get_next_write_file
  write_msg q item s =
      if ltb (max_db_file_size conf) (add32 (add32 q.cur_wdb.pos item.len) msg_head_len)
      then (do
        s' ← write_file_head os conf q s
        next ← get_next_write_file os conf q s'
        append_if item next)
      else append_msg q item s
