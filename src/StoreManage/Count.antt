-- ===== src/StoreManage/Count.antt =====
-- source/mq_store_manage.c: `mq_sm_get_msg_count`. The library's `atoi` gives a 32-bit pattern.
pub mod Sum
use ucmq.Prelude.{
  ℕ, ◌+◌, ◌-◌, ◌/◌, ◌^◌, Bool, true, false, not, ◌&&◌, ◌||◌, Option, none, some, List, [], ◌∷◌, ltb,
  leb, ◌==◌, if◌then◌else◌,
}
use ucmq.Prelude.Bytes.{add64, u64_mod}
use ucmq.Prelude.Run.{Run, ret, fault, out_of_fuel, ◌>>=◌}
use ucmq.Config.{UcmqConf, max_db_file_size}
use ucmq.Types.{MqQueue, DbMap, msg_head_len}
use ucmq.Os.{Os, Dirs, Dirent, FileType, dt_reg, dt_dir, dt_other}
use ucmq.StoreMsg.{cal_msg_count}
use ucmq.StoreFile.{gen_queue_path_by_qname, gen_data_full_path_by_fname}
use ucmq.StoreFile.Find.{starts_with, is_hidden, db_file_pattern}

-- An `int` that is added to a `uint64_t`.
abbrev pub to_u64 : ℕ → ℕ
to_u64 n = if ltb n (2 ^ 31) then n else u64_mod - 2 ^ 32 + n

module _ (os : Os) (dirs : Dirs os) (conf : UcmqConf) (atoi : List ℕ → ℕ) where
  open os use {Sys}

  -- The count of the head is used if it is not 0 and, as an `int`, below what a file can hold.
  unfoldable pub usable : ℕ → Bool
  usable count =
      not (count == 0) && (leb (2 ^ 31) count || ltb count (max_db_file_size conf / msg_head_len))

  counted_map : ℕ → Sys × Option ℕ → Run (Sys × ℕ)
  counted_map end_pos (s, none) = ret (s, 2 ^ 32 - 1)
  counted_map end_pos (s, some m) =
      if leb (max_db_file_size conf) (os.mapped s m)
      then elim (cal_msg_count (max_db_file_size conf) (os.load s m) end_pos) [
        | none ↦ out_of_fuel
        | some count ↦ ret (os.munmap s (some m), count)
      ]
      else fault

  -- `mq_sm_db_cal_msg_count` of an open file: -1 if it cannot be mapped.
  unfoldable pub count_in_file : Option ℕ → ℕ → Sys → Run (Sys × ℕ)
  unfolding counted_map
  count_in_file fd end_pos s = counted_map end_pos (os.mmap s fd (max_db_file_size conf))

  -- The count of one data file that is open, added to the sum.
  unfoldable pub add_count : MqQueue → Option ℕ → ℕ → Option (List ℕ) → Sys → Run (Sys × ℕ)
  unfolding usable count_in_file
  add_count q fd all none s = ret (os.close s fd, all)
  add_count q fd all (some line) s =
      if usable (atoi line) then ret (os.close s fd, add64 all (to_u64 (atoi line))) else (do
        (s', count) ←
            count_in_file fd
              (if q.cur_wdb.cur_index == q.cur_rdb.cur_index
                then q.cur_wdb.pos
                else max_db_file_size conf)
              s
        ret (os.close s' fd, add64 all (to_u64 count)))

  unfoldable pub opened_count : MqQueue → ℕ → Sys × Option ℕ → Run (Sys × ℕ)
  unfolding add_count
  opened_count q all (s, none) = ret (s, all)
  opened_count q all (s, some n) = add_count q (some n) all (dirs.read_at s (some n) 1 12) s

  unfoldable pub count_db : MqQueue → List ℕ → ℕ → Sys → Run (Sys × ℕ)
  unfolding opened_count
  count_db q d_name all s =
      if starts_with d_name db_file_pattern
      then opened_count q all
          (os.open_file s (gen_data_full_path_by_fname conf q.qname d_name) false)
      else ret (s, all)

  unfoldable pub count_entry : MqQueue → FileType → List ℕ → ℕ → Sys → Run (Sys × ℕ)
  unfolding count_db
  count_entry q dt_reg d_name all s =
      if is_hidden d_name then ret (s, all) else count_db q d_name all s
  count_entry q dt_dir d_name all s = ret (s, all)
  count_entry q dt_other d_name all s = ret (s, all)

  unfoldable pub count_entries : MqQueue → List Dirent → ℕ → Sys → Run (Sys × ℕ)
  unfolding count_entry
  count_entries q [] all s = ret (s, all)
  count_entries q (ent ∷ ents) all s = do
    (s', all') ← count_entry q ent.d_type ent.d_name all s
    count_entries q ents all' s'

  unfoldable pub set_counts : MqQueue → ℕ → MqQueue
  set_counts q all = record q {
    get_num = q.cur_rdb.opt_count;
    put_num = all;
    unread_count = if leb q.cur_rdb.opt_count all then all - q.cur_rdb.opt_count else 0;
  }

  -- The count is kept in the queue; -1 if the directory cannot be read.
  unfoldable pub get_msg_count : MqQueue → Sys → Run (Sys × MqQueue × ℕ)
  unfolding count_entries set_counts
  get_msg_count q s =
      if not (q.unread_count == 0)
      then ret (s, q, q.unread_count)
      else elim (dirs.read_dir s (gen_queue_path_by_qname conf q.qname)) [
        | none ↦ ret (s, q, u64_mod - 1)
        | some ents ↦ (do
          (s', all) ← count_entries q ents 0 s
          ret (s', set_counts q all, (set_counts q all).unread_count))
      ]
