-- ===== src/StoreManage.antt =====
-- source/mq_store_manage.c: messages into and out of a queue's data files, and the files of a queue
-- as a whole.
pub mod GetData
pub mod Fifo
pub mod Put
pub mod Get
pub mod Ends
pub mod TwoFiles
pub mod Switch
pub mod NextFile
pub mod Rollover
pub mod Through
pub mod Count
use ucmq.Prelude.{
  ℕ, ◌+◌, Bool, true, false, not, ◌||◌, Option, none, some, List, [], ◌∷◌, ltb, leb, ◌==◌,
  if◌then◌else◌, get_or,
}
use ucmq.Prelude.Run.{Run, ret, fault, ◌>>=◌}
use ucmq.Config.{UcmqConf, max_db_file_size}
use ucmq.Types.{MqQueue, DbMap, MsgItem, QueueFile}
use ucmq.Os.{Os, made, exists, refused}
use ucmq.StoreMsg.{build_msg_crc16}
use ucmq.StoreRtag.{rtag_write_item}
use ucmq.StoreFile.{
  open_db_file, get_storage_free, gen_queue_path_by_qname, gen_data_full_path_by_fname,
  gen_rtag_full_path_by_qname_index, gen_data_full_path_by_qname_index,
}
use ucmq.StoreFile.WriteMsg.{write_msg}

module _ (os : Os) (conf : UcmqConf) where
  open os use {Sys}

  unfoldable pub put_data : MsgItem → MqQueue → Sys → Run (Sys × MqQueue × Bool)
  unfolding build_msg_crc16 write_msg
  put_data item q s = elim (build_msg_crc16 (λ i. get_or item.msg i 0) 0 item.len) [
    | none ↦ ret (s, q, false)
    | some crc16 ↦ write_msg os conf q (record item { crc16 = crc16 }) s
  ]

  unfoldable pub close_db_file : Option ℕ → Option ℕ → Sys → Sys
  close_db_file map_mem fd s =
      let max = max_db_file_size conf in
      let s' : Sys = elim map_mem [
        | none ↦ s
        | some m ↦ os.munmap (os.msync s (some m) max).0 (some m)
      ] in
      os.close (os.fsync s' fd).0 fd

  unfoldable pub close_db : MqQueue → Sys → Sys × MqQueue
  unfolding close_db_file
  close_db q s =
      let s' =
        if q.cur_rdb.cur_index == q.cur_wdb.cur_index
        then s
        else close_db_file q.cur_rdb.map_mem q.cur_rdb.fd s in
      (
        close_db_file q.cur_wdb.map_mem q.cur_wdb.fd s',
        record q {
          cur_rdb = record (q.cur_rdb) { flag = 0 };
          cur_wdb = record (q.cur_wdb) { flag = 0 };
        },
      )

  unfoldable pub remove_db : MqQueue → Sys → Sys × Bool
  remove_db q s =
      let queue_db_path = gen_queue_path_by_qname conf q.qname in
      if os.access s queue_db_path then (os.delete_file s queue_db_path, true) else (s, false)

  -- Both files are mapped, if they are two.
  both_open : MqQueue → Sys → Sys × MqQueue × Bool
  both_open q s = (
    s,
    record q {
      cur_rdb = record (q.cur_rdb) { flag = 1 };
      cur_wdb = record (q.cur_wdb) { flag = 1 };
    },
    true,
  )

  opened_read : MqQueue → Sys × Option ℕ × Option ℕ → Sys × MqQueue × Bool
  unfolding both_open close_db_file
  opened_read q (s, fd, none) = (
    close_db_file q.cur_wdb.map_mem q.cur_wdb.fd s,
    record q { cur_rdb = record (q.cur_rdb) { fd = fd; map_mem = none } },
    false,
  )
  opened_read q (s, fd, some m) =
      both_open (record q { cur_rdb = record (q.cur_rdb) { fd = fd; map_mem = some m } }) s

  -- After the write file: the read file shares its mapping or is opened too.
  open_read : QueueFile → MqQueue → Sys → Sys × MqQueue × Bool
  unfolding opened_read
  open_read file q s =
      if q.cur_rdb.cur_index == q.cur_wdb.cur_index
      then both_open
          (record q {
            cur_rdb = record (q.cur_rdb) { map_mem = q.cur_wdb.map_mem; fd = q.cur_wdb.fd };
          })
          s
      else if not (q.cur_rdb.flag == 0)
      then (close_db_file q.cur_wdb.map_mem q.cur_wdb.fd s, q, false)
      else opened_read q
          (open_db_file os conf (gen_data_full_path_by_fname conf q.qname file.read_name) false s)

  opened_write : QueueFile → MqQueue → Sys × Option ℕ × Option ℕ → Sys × MqQueue × Bool
  unfolding open_read
  opened_write file q (s, fd, none) =
      (s, record q { cur_wdb = record (q.cur_wdb) { fd = fd; map_mem = none } }, false)
  opened_write file q (s, fd, some m) =
      open_read file (record q { cur_wdb = record (q.cur_wdb) { fd = fd; map_mem = some m } }) s

  unfoldable pub open_db : MqQueue → QueueFile → Sys → Sys × MqQueue × Bool
  unfolding opened_write open_db_file
  open_db q0 file s =
      let q : MqQueue = record q0 {
        cur_rdb = record (q0.cur_rdb) { cur_index = file.read_fid };
        cur_wdb = record (q0.cur_wdb) { cur_index = file.write_fid };
      } in
      if not (q.cur_wdb.flag == 0)
      then (s, q, false)
      else opened_write file q
          (open_db_file os conf (gen_data_full_path_by_fname conf q.qname file.write_name) false s)

  -- The data file of a new queue is open: the settings, the record, and one mapping for both ends.
  created_db : MqQueue → Sys × Option ℕ × Option ℕ → Sys × MqQueue × Bool
  unfolding rtag_write_item
  created_db q (s, fd, none) = (
    os.close s q.rtag_fd,
    record q { cur_wdb = record (q.cur_wdb) { fd = fd; map_mem = none } },
    false,
  )
  created_db q (s, fd, some m) =
      let q1 : MqQueue = record q {
        cur_wdb = record (q.cur_wdb) { fd = fd; map_mem = some m };
        maxque = conf.def_max_queue;
        delay = conf.def_delay;
      } in
      (
        (rtag_write_item os q1 s).0,
        record q1 {
          cur_wdb = record (q1.cur_wdb) { cur_index = 1; flag = 1 };
          cur_rdb = record (q1.cur_rdb) { cur_index = 1; flag = 1; map_mem = some m; fd = fd };
        },
        true,
      )

  create_files : MqQueue → Sys → Sys × MqQueue × Bool
  unfolding created_db open_db_file
  create_files q s =
      let (s', rtag_fd) = os.open_file s (gen_rtag_full_path_by_qname_index conf q.qname 1) true in
      elim rtag_fd [
        | none ↦ (s', record q { rtag_fd = none }, false)
        | some n ↦
            created_db (record q { rtag_fd = some n })
              (open_db_file os conf (gen_data_full_path_by_qname_index conf q.qname 1) true s')
      ]

  -- An old directory of that name is removed first.
  unfoldable pub creat_db : MqQueue → Sys → Sys × MqQueue × Bool
  unfolding create_files get_storage_free
  creat_db q s =
      let queue_db_path = gen_queue_path_by_qname conf q.qname in
      let s1 = if os.access s queue_db_path then os.delete_file s queue_db_path else s in
      if ltb (get_storage_free os conf s) conf.res_store_space
      then (s, q, false)
      else (let (s2, made_dir) = os.mkdir s1 queue_db_path in
          elim made_dir [
            | refused ↦ (s2, q, false)
            | made ↦ create_files q s2
            | exists ↦ create_files q s2
          ])
