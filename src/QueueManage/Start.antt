-- ===== src/QueueManage/Start.antt =====
-- source/mq_queue_manage.c: `mq_qm_open_store`, which opens the queues of the data path when the
-- program starts, and `mq_qm_get_store_count`. The libraries' `atoi` and `atoll` give patterns of 32 and 64 bits.
use ucmq.Prelude.{
  ℕ, Bool, true, false, Option, none, some, List, [], ◌∷◌, ltb, if◌then◌else◌, length, take,
}
use ucmq.Prelude.Bytes.{add64}
use ucmq.Prelude.Run.{Run, ret, fault, out_of_fuel, ◌>>=◌}
use ucmq.Config.{UcmqConf, max_db_file_size}
use ucmq.Types.{MqQueue, QueueFile}
use ucmq.Os.{Os, Dirs, Dirent, FileType, dt_reg, dt_dir, dt_other}
use ucmq.StoreRtag.{read_item, rtag_open_file}
use ucmq.StoreFile.{gen_data_full_path_by_fname}
use ucmq.StoreFile.Find.{is_hidden, find_handle_file, touch_data_path}
use ucmq.StoreManage.{open_db}
use ucmq.StoreManage.Count.{get_msg_count}
use ucmq.QueueManage.Table.{QueueList, hash_add_queue_kv, zero_queue}

abbrev pub zero_file : QueueFile
zero_file = record {
  rtag_name = [];
  read_name = [];
  write_name = [];
  rtag_fid = 0;
  read_fid = 0;
  write_fid = 0;
}

module _ (os : Os) (dirs : Dirs os) (conf : UcmqConf) (atoi atoll : List ℕ → ℕ) (fuel : ℕ) where
  open os use {Sys}

  -- `hash_add_queue_kv` copies the name to 33 bytes.
  unfoldable pub store_opened : List ℕ → QueueList → Sys × MqQueue × Bool → Run (Sys × QueueList)
  unfolding hash_add_queue_kv
  store_opened d_name qlist (s, q, false) = ret (s, qlist)
  store_opened d_name qlist (s, q, true) =
      if ltb 32 (length d_name) then fault else ret (s, hash_add_queue_kv d_name q qlist)

  unfoldable pub item_read :
      QueueFile → List ℕ → QueueList → Sys → Option (MqQueue × Bool) → Run (Sys × QueueList)
  unfolding store_opened open_db
  item_read file d_name qlist s none = out_of_fuel
  item_read file d_name qlist s (some (q, false)) = ret (s, qlist)
  item_read file d_name qlist s (some (q, true)) =
      store_opened d_name qlist (open_db os conf q file s)

  unfoldable pub rtag_opened :
      QueueFile → List ℕ → QueueList → Sys × MqQueue × Bool → Run (Sys × QueueList)
  unfolding item_read read_item
  rtag_opened file d_name qlist (s, q, false) = ret (s, qlist)
  rtag_opened file d_name qlist (s, q, true) = item_read file d_name qlist s (
      read_item (max_db_file_size conf) conf.def_max_queue conf.def_delay (os.read_tail s q.rtag_fd)
        fuel q)

  unfoldable pub files_found : List ℕ → QueueList → Sys × QueueFile × Bool → Run (Sys × QueueList)
  unfolding rtag_opened rtag_open_file
  files_found d_name qlist (s, file, false) = ret (s, qlist)
  files_found d_name qlist (s, file, true) = rtag_opened file d_name qlist (
      rtag_open_file os (gen_data_full_path_by_fname conf (take 32 d_name) file.rtag_name)
        (zero_queue d_name) s)

  -- One round of the loop: a queue that cannot be opened is left out.
  unfoldable pub open_queue : FileType → List ℕ → QueueList → Sys → Run (Sys × QueueList)
  unfolding files_found find_handle_file is_hidden
  open_queue dt_reg d_name qlist s = ret (s, qlist)
  open_queue dt_other d_name qlist s = ret (s, qlist)
  open_queue dt_dir d_name qlist s = if is_hidden d_name then ret (s, qlist) else (do
    found ← find_handle_file os dirs conf atoll zero_file (take 32 d_name) s
    files_found d_name qlist found)

  unfoldable pub open_queues : List Dirent → QueueList → Sys → Run (Sys × QueueList)
  unfolding open_queue
  open_queues [] qlist s = ret (s, qlist)
  open_queues (ent ∷ ents) qlist s = do
    (s', qlist') ← open_queue ent.d_type ent.d_name qlist s
    open_queues ents qlist' s'

  unfoldable pub open_listed : QueueList → Sys → Run (Sys × QueueList × Bool)
  unfolding open_queues
  open_listed qlist s = elim (dirs.read_dir s conf.data_file_path) [
    | none ↦ ret (s, qlist, false)
    | some ents ↦ (do (s', qlist') ← open_queues ents qlist s; ret (s', qlist', true))
  ]

  unfoldable pub open_store : QueueList → Sys → Run (Sys × QueueList × Bool)
  unfolding open_listed touch_data_path
  open_store qlist s =
      let (s', touched) = touch_data_path os dirs conf conf.data_file_path s in
      if touched then open_listed qlist s' else ret (s', qlist, false)

  -- `queue_count < 0` never holds of a `uint64_t`.
  unfoldable pub get_store_count : QueueList → Sys → Run (Sys × QueueList × ℕ)
  unfolding get_msg_count
  get_store_count [] s = ret (s, [], 0)
  get_store_count ((key, q) ∷ qlist) s = do
    (s', q', queue_count) ← get_msg_count os dirs conf atoi q s
    (s'', qlist', all_count) ← get_store_count qlist s'
    ret (s'', (key, q') ∷ qlist', add64 queue_count all_count)
