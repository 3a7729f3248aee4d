-- ===== src/QueueManage.antt =====
-- source/mq_queue_manage.c: putting into and getting from one queue, and its settings. The clock
-- is an argument, a `uint32_t`; an `int` is its 32-bit pattern.
pub mod Table
pub mod Locks
pub mod Queue
pub mod Answers
pub mod Start
use ucmq.Prelude.{
  ℕ, ◌+◌, ◌-◌, ◌^◌, Bool, true, false, not, ◌&&◌, ◌||◌, Option, none, some, List, [], leb, ltb,
  ◌==◌, if◌then◌else◌, length,
}
use ucmq.Prelude.Bytes.{add32, add64, sub32, u32_mod}
use ucmq.Prelude.Run.{Run, ret, fault, out_of_fuel, ◌>>=◌}
use ucmq.Config.{UcmqConf}
use ucmq.Types.{
  MqQueue, DbMap, MsgItem, msg_head_of_first_magic_num, msg_head_of_second_magic_num,
  db_file_head_len,
}
use ucmq.Os.{Os}
use ucmq.StoreRtag.{rtag_write_item}
use ucmq.StoreManage.{put_data}
use ucmq.StoreManage.GetData.{get_data}

-- queue_put_ret_e
pub data QueuePutRet : Type 0 where
  put_ok full wlock put_error : QueuePutRet

-- queue_get_ret_e; the message comes with QUEUE_GET_OK.
pub data QueueGetRet : Type 0 where
  get_ok : MsgItem → QueueGetRet
  get_end get_error : QueueGetRet

-- The pattern of -1, and `x > 0` for an `int`.
abbrev pub minus_one : ℕ
minus_one = u32_mod - 1

abbrev pub positive_int : ℕ → Bool
positive_int x = ltb 0 x && ltb x (2 ^ 31)

unfoldable pub is_full : MqQueue → Bool
is_full q = not (q.maxque == 0) && ltb q.maxque (add64 q.unread_count 1)

unfoldable pub is_wlocked : MqQueue → ℕ → Bool
is_wlocked q now = q.wlock == minus_one || ltb now q.wlock

-- What the handler and `mq_qm_push_item` fill in; the checksum is not set yet.
abbrev pub new_item : ℕ → List ℕ → MsgItem
new_item now body = record {
  magic_num1 = msg_head_of_first_magic_num;
  magic_num2 = msg_head_of_second_magic_num;
  delay = now;
  crc16 = 0;
  len = length body;
  msg = body;
}

unfoldable pub init_queue : UcmqConf → MqQueue → MqQueue
init_queue conf q = record q {
  cur_rdb = record (q.cur_rdb) { pos = db_file_head_len; opt_count = 0 };
  cur_wdb = record (q.cur_wdb) { pos = db_file_head_len; opt_count = 0 };
  delay = conf.def_delay;
  maxque = conf.def_max_queue;
  put_num = 0;
  get_num = 0;
  unread_count = 0;
  wlock = 0;
}

module _ (os : Os) (conf : UcmqConf) where
  open os use {Sys}

  unfoldable pub db_sync : MqQueue → Sys → Sys
  db_sync q s = (os.msync s q.cur_wdb.map_mem q.cur_wdb.pos).0

  -- `sync_intv` counts down to a synchronisation, if it counts at all.
  unfoldable pub count_sync : MqQueue → Sys → Sys × MqQueue
  unfolding db_sync
  count_sync q s =
      if positive_int q.sync_intv
      then (if q.sync_intv == 1
          then (
            db_sync q s,
            record q {
              sync_intv = if positive_int conf.sync_interval then conf.sync_interval else 10;
            },
          )
          else (s, record q { sync_intv = q.sync_intv - 1 }))
      else (s, q)

  pushed : Sys × MqQueue × Bool → Run (Sys × MqQueue × QueuePutRet)
  unfolding count_sync rtag_write_item
  pushed (s, q, false) = ret (s, q, put_error)
  pushed (s, q, true) =
      let (s', q') = count_sync q (rtag_write_item os q s).0 in ret (s', q', put_ok)

  unfoldable pub push_item : ℕ → List ℕ → MqQueue → Sys → Run (Sys × MqQueue × QueuePutRet)
  unfolding pushed is_full is_wlocked
  push_item now body q s =
      if is_full q
      then ret (s, q, full)
      else if is_wlocked q now
      then ret (s, q, wlock)
      else (do done ← put_data os conf (new_item now body) q s; pushed done)

  popped : Sys × MqQueue × Option MsgItem → Run (Sys × MqQueue × QueueGetRet)
  unfolding rtag_write_item
  popped (s, q, none) = ret (s, q, get_end)
  popped (s, q, some item) = ret ((rtag_write_item os q s).0, q, get_ok item)

  unfoldable pub pop_item : ℕ → ℕ → MqQueue → Sys → Run (Sys × MqQueue × QueueGetRet)
  unfolding popped
  pop_item fuel now q s =
      if ltb q.unread_count 1
      then ret (s, q, get_end)
      else (do found ← get_data os conf fuel now q s; popped found)

  -- The settings: a queue that is not there gives false. The record is written, and a failure to write
  -- it is only logged.
  saved : MqQueue → Sys → Sys × Option MqQueue × Bool
  unfolding rtag_write_item
  saved q s = ((rtag_write_item os q s).0, some q, true)

  unfoldable pub set_maxqueue : Option MqQueue → ℕ → Sys → Sys × Option MqQueue × Bool
  unfolding saved
  set_maxqueue none max_queue s = (s, none, false)
  set_maxqueue (some q) max_queue s = saved (record q { maxque = max_queue }) s

  unfoldable pub set_delay : Option MqQueue → ℕ → Sys → Sys × Option MqQueue × Bool
  unfolding saved
  set_delay none dest_delay s = (s, none, false)
  set_delay (some q) dest_delay s = saved (record q { delay = dest_delay }) s

  -- -1 locks for good, 0 unlocks, anything else locks for that many seconds.
  unfoldable pub set_wlock : ℕ → Option MqQueue → ℕ → Sys → Sys × Option MqQueue × Bool
  unfolding saved
  set_wlock now none write_lock s = (s, none, false)
  set_wlock now (some q) write_lock s =
      let until =
        if write_lock == minus_one
        then minus_one
        else if write_lock == 0
        then 0
        else add32 now write_lock in
      saved (record q { wlock = until }) s

-- `mq_qm_set_synctime`, on the pattern of an `int`.
unfoldable pub set_synctime : UcmqConf → ℕ → UcmqConf × Bool
set_synctime conf sync_interval =
    if ltb sync_interval (2 ^ 31)
    then (record conf { sync_time_interval = sync_interval }, true)
    else (conf, false)
