-- ===== src/StoreFile.antt =====
-- source/mq_store_file.c, source/mq_store_file.h: paths, data files and the switch to the next read
-- and write file; with them `mq_sm_db_write_file_head` and `mq_sm_db_write_msg` of
-- source/mq_store_msg.c, which write to the mapping, and `get_storage_free` and
-- `extend_file_size` of source/mq_util.c.

pub mod ReadFile
pub mod WriteMsg
pub mod Find
use ucmq.Prelude.{
  ℕ, zero, suc, ◌+◌, ◌-◌, ◌*◌, ◌/◌, ◌%◌, ◌^◌, Bool, true, false, not, ◌&&◌, Option, none, some,
  List, [], ◌∷◌, ◌++◌, leb, ltb, ◌==◌, if◌then◌else◌, length, take,
}
use ucmq.Prelude.Bytes.{add32, add64, u64_mod}
use ucmq.Prelude.Decimal.{padded}
use ucmq.Prelude.Run.{Run, ret, fault, out_of_fuel, ◌>>=◌}
use ucmq.Config.{UcmqConf, max_db_file_size}
use ucmq.Types.{MqQueue, DbMap, MsgItem, msg_head_len, db_file_head_len}
use ucmq.Os.{Os}
use ucmq.StoreMsg.{msg_bytes, file_head_bytes}
use ucmq.StoreRtag.{rtag_open_next_file, rtag_write_item}

-- snprintf(path, 128, …) keeps 127 characters, snprintf(full_name, 256, …) keeps 255.
abbrev pub gen_queue_path_by_qname : UcmqConf → List ℕ → List ℕ
gen_queue_path_by_qname conf qname = take 127 (conf.data_file_path ++ (b'/' ∷ qname))

abbrev pub gen_data_full_path_by_fname : UcmqConf → List ℕ → List ℕ → List ℕ
gen_data_full_path_by_fname conf qname fname =
    take 255 (conf.data_file_path ++ (b'/' ∷ qname ++ (b'/' ∷ fname)))

abbrev pub rtag_fname : ℕ → List ℕ
rtag_fname index = b'r' ∷ b't' ∷ b'a' ∷ b'g' ∷ b'_' ∷ padded 12 index

abbrev pub db_fname : ℕ → List ℕ
db_fname index = b'd' ∷ b'b' ∷ b'_' ∷ padded 12 index

abbrev pub gen_rtag_full_path_by_qname_index : UcmqConf → List ℕ → ℕ → List ℕ
gen_rtag_full_path_by_qname_index conf qname index =
    gen_data_full_path_by_fname conf qname (rtag_fname index)

abbrev pub gen_data_full_path_by_qname_index : UcmqConf → List ℕ → ℕ → List ℕ
gen_data_full_path_by_qname_index conf qname index =
    gen_data_full_path_by_fname conf qname (db_fname index)

module _ (os : Os) (conf : UcmqConf) where
  open os use {Sys}

  -- An `int` of gigabytes, compared as a `uint64_t`.
  unfoldable pub get_storage_free : Sys → ℕ
  get_storage_free s =
      let free_gb = os.free_bytes s conf.data_file_path % u64_mod / 1073741824 % 2 ^ 32 in
      if ltb free_gb (2 ^ 31) then free_gb else u64_mod - 2 ^ 32 + free_gb

  -- A failed ftruncate is only logged; the byte is the first of "0x00".
  unfoldable pub extend_file_size : Option ℕ → ℕ → Sys → Sys × Bool
  extend_file_size fd len s =
      let (s', sought) = os.seek_last (os.ftruncate s fd len) fd in
      if sought then (os.write_byte s' fd b'0', true) else (s', false)

  map_file : Option ℕ → Sys → Sys × Option ℕ × Option ℕ
  map_file fd s =
      let (s', map_mem) = os.mmap s fd (max_db_file_size conf) in
      elim map_mem [ none ↦ (os.close s' fd, fd, none) | some m ↦ (s', fd, some m) ]

  sized_file : List ℕ → Option ℕ → Bool → Sys → Sys × Option ℕ × Option ℕ
  sized_file fname fd true s =
      let (s', extended) = extend_file_size fd (max_db_file_size conf) s in
      if extended then map_file fd s' else (os.close s' fd, fd, none)
  sized_file fname fd false s =
      let sized : Bool = elim (os.file_size s fname) [
        | none ↦ false
        | some n ↦ n == max_db_file_size conf
      ] in
      if sized then map_file fd s else (os.close s fd, fd, none)

  -- The descriptor comes back even where the file was closed again, as `*fd` does.
  unfoldable pub open_db_file : List ℕ → Bool → Sys → Sys × Option ℕ × Option ℕ
  unfolding sized_file map_file extend_file_size
  open_db_file fname create s =
      let (s', fd) = os.open_file s fname create in
      elim fd [ none ↦ (s', none, none) | some n ↦ sized_file fname (some n) create s' ]

  -- memcpy to an offset of a mapping: a fault outside what is mapped.
  unfoldable pub copy_to_map : Option ℕ → ℕ → List ℕ → Sys → Run Sys
  copy_to_map none p bs s = fault
  copy_to_map (some m) p bs s =
      if leb (p + length bs) (os.mapped s m) then ret (os.store s m p bs) else fault

  unfoldable pub write_file_head : MqQueue → Sys → Run Sys
  unfolding copy_to_map
  write_file_head q s = do
    s' ← copy_to_map q.cur_wdb.map_mem 0 (file_head_bytes q.cur_wdb.opt_count) s
    ret (os.msync s' q.cur_wdb.map_mem db_file_head_len).0

  -- The write file is unmapped and closed unless it is the read file too.
  unfoldable pub leave_write_file : MqQueue → Sys → Sys × MqQueue
  leave_write_file q s =
      if ltb q.cur_rdb.cur_index q.cur_wdb.cur_index
      then (
        os.close
            (os.munmap (os.msync s q.cur_wdb.map_mem (max_db_file_size conf)).0 q.cur_wdb.map_mem)
            q.cur_wdb.fd,
        record q { cur_wdb = record (q.cur_wdb) { flag = 0 } },
      )
      else (s, q)

  -- The new write file is there: its counters, its head and the record.
  unfoldable pub enter_write_file : ℕ → MqQueue → Sys → Run (Sys × MqQueue × Bool)
  unfolding write_file_head rtag_write_item
  enter_write_file next_index q s =
      let q' : MqQueue = record q {
        cur_wdb = record (q.cur_wdb) {
          opt_count = 0;
          flag = 1;
          pos = db_file_head_len;
          cur_index = next_index;
        };
      } in
      do s' ← write_file_head q' s; ret ((rtag_write_item os q' s').0, q', true)

  unfoldable pub create_write_file : ℕ → List ℕ → MqQueue → Sys → Run (Sys × MqQueue × Bool)
  unfolding open_db_file enter_write_file
  create_write_file next_index new_db_fname q s =
      let (s', fd, map_mem) = open_db_file new_db_fname true s in
      let q' : MqQueue = record q { cur_wdb = record (q.cur_wdb) { fd = fd; map_mem = map_mem } } in
      elim map_mem [ none ↦ ret (s', q', false) | some m ↦ enter_write_file next_index q' s' ]

  unfoldable pub get_next_write_file : MqQueue → Sys → Run (Sys × MqQueue × Bool)
  unfolding leave_write_file create_write_file get_storage_free
  get_next_write_file q s =
      let next_index = add64 q.cur_wdb.cur_index 1 in
      let new_db_fname = gen_data_full_path_by_qname_index conf q.qname next_index in
      let (s', q') = leave_write_file q s in
      if ltb (get_storage_free s') conf.res_store_space
      then ret (s', q', false)
      else create_write_file next_index new_db_fname q' s'
