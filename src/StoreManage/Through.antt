-- ===== src/StoreManage/Through.antt =====
-- source/mq_store_manage.c: a message that was put into the next file is got from it.
use ucmq.Prelude.{ℕ, suc, ◌+◌, ◌-◌, ◌≤◌, ◌<◌, ◌≡◌, ◌≢◌, true, false, Option, some, [], length, ltb}
use ucmq.Prelude.Bytes.{add64, u32_mod, u64_mod}
use ucmq.Prelude.Run.{ret}
use ucmq.Config.{UcmqConf, max_db_file_size}
use ucmq.Types.{MqQueue, db_file_head_len}
use ucmq.Os.{Os, IsLawful, KeepsMaps}
use ucmq.StoreMsg.Layout.{Entry, IsEntry, item_of}
use ucmq.StoreFile.{
  open_db_file, get_storage_free, gen_rtag_full_path_by_qname_index,
  gen_data_full_path_by_qname_index,
}
use ucmq.StoreManage.{put_data}
use ucmq.StoreManage.GetData.{taken, too_early, get_data}
use ucmq.StoreManage.Fifo.{size, Represents}
use ucmq.StoreManage.Put.{appended}
use ucmq.StoreManage.TwoFiles.{Blank}
use ucmq.StoreManage.Switch.{switched, get_data_switches}
use ucmq.StoreManage.NextFile.{entered, head_put}
use ucmq.StoreManage.Rollover.{put_data_rolls_over}

module _ (os : Os) (conf : UcmqConf) (law : IsLawful os) (keeps : KeepsMaps os) where
  -- A message that does not fit the rest of the one file of a queue with nothing left to read,
  -- where no message begins behind the write position, is put into the next file, if there is
  -- storage, the data file opens, the record file opens in whatever state and with whatever
  -- descriptor, and the message fits the new file; a get, where the
  -- message is due and with rounds enough for the blank rest, gives that message from there, and
  -- leaves an empty queue in the next file.
  pub put_data-get_data :
      (m k : ℕ) (s : os.Sys) (q : MqQueue) (e : Entry)
      → Represents os conf m s q []
      → Blank (os.load s m) q.cur_wdb.pos (max_db_file_size conf)
      → IsEntry e
      → 0 < length e.body
      → max_db_file_size conf < q.cur_wdb.pos + size e
      → db_file_head_len + size e ≤ max_db_file_size conf
      → q.cur_wdb.opt_count < u32_mod
      → q.cur_wdb.cur_index + 2 < u64_mod
      → ltb
          (get_storage_free os conf (head_put os conf s m q.cur_wdb.opt_count))
          conf.res_store_space
        ≡ false
      → m ≢ k
      → (s2 : os.Sys) (fd : Option ℕ)
      → open_db_file os conf
          (gen_data_full_path_by_qname_index conf q.qname (add64 q.cur_wdb.cur_index 1))
          true
          (head_put os conf s m q.cur_wdb.opt_count)
        ≡ (s2, fd, some k)
      → max_db_file_size conf ≤ os.mapped s2 k
      → os.load s2 m ≡ os.load (head_put os conf s m q.cur_wdb.opt_count) m
      → os.mapped s2 m ≡ os.mapped (head_put os conf s m q.cur_wdb.opt_count) m
      → ((t : os.Sys)
          → (n : ℕ) × ((os.open_file t
                (gen_rtag_full_path_by_qname_index conf q.qname (add64 q.cur_rdb.cur_index 1))
                true).1
              ≡ some n))
      → (now fuel crc16 : ℕ) → too_early now q (item_of e) ≡ false
      → (s' : os.Sys) × (s'' : os.Sys) × (n : ℕ) × (put_data os conf
            (record (item_of e) { crc16 = crc16 })
            q
            s
          ≡ ret (s', appended (entered q fd k) e, true))
        × (get_data os conf
              (max_db_file_size conf - 12 - q.cur_rdb.pos + suc (suc fuel))
              now
              (appended (entered q fd k) e)
              s'
            ≡ ret (
              s'',
              taken (item_of e) (switched (appended (entered q fd k) e) n),
              some (item_of e),
            ))
        × Represents os conf k s'' (taken (item_of e) (switched (appended (entered q fd k) e) n)) []
  unfolding too_early
  put_data-get_data m k s q e r blank v some_ full fits counted last space apart s2 fd opens
        new_mapped old_load old_mapped opens_rtag now fuel crc16 due =
      let (s', puts, two) =
        put_data_rolls_over os conf m k s q [] e r s2 fd counted opens space new_mapped fits full
          law apart old_load old_mapped blank v some_ last crc16 in
      let (n, opened) = opens_rtag s' in
      let (s'', gets, left) =
        get_data_switches os conf law keeps m k s' (appended (entered q fd k) e) now fuel n e [] two
          opened due in
      (s', s'', n, puts, gets, left)
