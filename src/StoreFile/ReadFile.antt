-- ===== src/StoreFile/ReadFile.antt =====
-- source/mq_store_file.c: `get_next_read_file`.
use ucmq.Prelude.{ℕ, Bool, true, false, Option, none, some, ltb, ◌==◌, if◌then◌else◌}
use ucmq.Prelude.Bytes.{add64}
use ucmq.Config.{UcmqConf, max_db_file_size}
use ucmq.Types.{MqQueue, db_file_head_len}
use ucmq.Os.{Os}
use ucmq.StoreRtag.{rtag_open_next_file, rtag_write_item}
use ucmq.StoreFile.{
  open_db_file, gen_rtag_full_path_by_qname_index, gen_data_full_path_by_qname_index,
}

module _ (os : Os) (conf : UcmqConf) where
  open os use {Sys}

  -- Steps 4 and 5: the record file and the data file that were read are closed and removed.
  unfoldable pub drop_read_files : MqQueue → Sys → Sys
  drop_read_files old s =
      let max = max_db_file_size conf in
      let rtag_name = gen_rtag_full_path_by_qname_index conf old.qname old.cur_rdb.cur_index in
      let db_name = gen_data_full_path_by_qname_index conf old.qname old.cur_rdb.cur_index in
      let s1 = os.unlink (os.close s old.rtag_fd) rtag_name in
      let s2 = os.munmap (os.msync s1 old.cur_rdb.map_mem max).0 old.cur_rdb.map_mem in
      os.unlink (os.close s2 old.cur_rdb.fd) db_name

  -- The outcome of step 6 for a file that is not the write file.
  opened_read_file : MqQueue → Sys × Option ℕ × Option ℕ → Sys × MqQueue × Bool
  opened_read_file q (s, fd, none) = (
    os.close s q.rtag_fd,
    record q { cur_rdb = record (q.cur_rdb) { fd = fd; map_mem = none } },
    false,
  )
  opened_read_file q (s, fd, some m) =
      (s, record q { cur_rdb = record (q.cur_rdb) { fd = fd; map_mem = some m; flag = 1 } }, true)

  -- Step 6: the write file's mapping, or a mapping of the file's own.
  unfoldable pub enter_read_file : MqQueue → Sys → Sys × MqQueue × Bool
  unfolding opened_read_file
  enter_read_file q s =
      if q.cur_rdb.cur_index == q.cur_wdb.cur_index
      then (
        s,
        record q {
          cur_rdb = record (q.cur_rdb) { map_mem = q.cur_wdb.map_mem; fd = q.cur_wdb.fd; flag = 1 };
        },
        true,
      )
      else opened_read_file q (
          open_db_file os conf (gen_data_full_path_by_qname_index conf q.qname q.cur_rdb.cur_index)
            false s)

  -- Steps 2 to 6, once the next record file is open.
  unfoldable pub switch_read_file : MqQueue → ℕ → Option ℕ → Sys → Sys × MqQueue × Bool
  unfolding enter_read_file drop_read_files rtag_write_item
  switch_read_file q next_index rtag_fd s =
      let q' : MqQueue = record q {
        rtag_fd = rtag_fd;
        cur_rdb = record (q.cur_rdb) {
          flag = 0;
          cur_index = next_index;
          opt_count = 0;
          pos = db_file_head_len;
        };
      } in
      enter_read_file q' (drop_read_files q (rtag_write_item os q' s).0)

  unfoldable pub get_next_read_file : MqQueue → Sys → Sys × MqQueue × Bool
  unfolding switch_read_file rtag_open_next_file
  get_next_read_file q s =
      let next_index = add64 q.cur_rdb.cur_index 1 in
      let new_rtag_fname = gen_rtag_full_path_by_qname_index conf q.qname next_index in
      if ltb q.cur_wdb.cur_index next_index
      then (s, record q { cur_rdb = record (q.cur_rdb) { cur_index = q.cur_wdb.cur_index } }, false)
      else (let (s', rtag_fd) = rtag_open_next_file os new_rtag_fname s in
          elim rtag_fd [
            | none ↦
                (s', record q { rtag_fd = none; cur_rdb = record (q.cur_rdb) { flag = 0 } }, false)
            | some n ↦ switch_read_file q next_index (some n) s'
          ])
