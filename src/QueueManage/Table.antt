-- ===== src/QueueManage/Table.antt =====
-- source/mq_queue_manage.c: the table of queues, and the calls that add, remove, synchronise and
-- close queues. The hash table (source/uthash.h) is a list of names and queues in the order of
-- insertion, the order in which the source walks through it.
pub mod Lookup
pub mod Closed
use ucmq.Prelude.{
  ℕ, suc, ◌+◌, Bool, true, false, ◌&&◌, Option, none, some, List, [], ◌∷◌, ◌++◌, leb, ◌==◌,
  if◌then◌else◌, length, take,
}
use ucmq.Prelude.Run.{Run, ret, fault, ◌>>=◌}
use ucmq.Config.{UcmqConf}
use ucmq.Types.{MqQueue, DbMap}
use ucmq.Os.{Os}
use ucmq.StoreRtag.{rtag_close_file}
use ucmq.StoreManage.{creat_db, close_db, remove_db}
use ucmq.QueueManage.{init_queue}

-- g_mq_qlist
abbrev pub QueueList : Type 0
QueueList = List (List ℕ × MqQueue)

-- strcmp(a, b) == 0
unfoldable pub same_name : List ℕ → List ℕ → Bool
same_name [] [] = true
same_name [] (b ∷ bs) = false
same_name (a ∷ as_) [] = false
same_name (a ∷ as_) (b ∷ bs) = a == b && same_name as_ bs

-- HASH_ADD_STR appends, without looking for the key.
unfoldable pub hash_add_queue_kv : List ℕ → MqQueue → QueueList → QueueList
hash_add_queue_kv qname q qlist = qlist ++ (qname, q) ∷ []

unfoldable pub hash_get_queue_num : QueueList → ℕ
hash_get_queue_num qlist = length qlist

unfoldable pub hash_find_queue_by_key : List ℕ → QueueList → Option MqQueue
unfolding same_name
hash_find_queue_by_key qname [] = none
hash_find_queue_by_key qname ((key, q) ∷ qlist) =
    if same_name key qname then some q else hash_find_queue_by_key qname qlist

unfoldable pub hash_del_queue : List ℕ → QueueList → QueueList
unfolding same_name
hash_del_queue qname [] = []
hash_del_queue qname ((key, q) ∷ qlist) =
    if same_name key qname then qlist else (key, q) ∷ hash_del_queue qname qlist

-- What a pointer into the table does: the first queue of that name is changed in place.
unfoldable pub put_back : List ℕ → MqQueue → QueueList → QueueList
unfolding same_name
put_back qname q' [] = []
put_back qname q' ((key, q) ∷ qlist) =
    if same_name key qname then (key, q') ∷ qlist else (key, q) ∷ put_back qname q' qlist

-- memset(&mq_queue, 0, …): descriptor 0 and no mapping.
abbrev pub zero_db : DbMap
zero_db = record { fd = some 0; flag = 0; map_mem = none; pos = 0; opt_count = 0; cur_index = 0 }

abbrev pub zero_queue : List ℕ → MqQueue
zero_queue qname = record {
  qname = take 32 qname;
  rtag_fd = some 0;
  wlock = 0;
  sync_intv = 0;
  delay = 0;
  maxque = 0;
  put_num = 0;
  get_num = 0;
  unread_count = 0;
  cur_rdb = zero_db;
  cur_wdb = zero_db;
}

unfoldable pub find_queue : List ℕ → QueueList → Option MqQueue
unfolding hash_find_queue_by_key
find_queue qname qlist = hash_find_queue_by_key qname qlist

module _ (os : Os) (conf : UcmqConf) where
  open os use {Sys}

  unfoldable pub added : List ℕ → QueueList → Sys × MqQueue × Bool → Sys × QueueList × Bool
  unfolding hash_add_queue_kv init_queue
  added qname qlist (s, q, false) = (s, qlist, false)
  added qname qlist (s, q, true) = (s, hash_add_queue_kv qname (init_queue conf q) qlist, true)

  -- The Boolean says that the pointer is not NULL.
  unfoldable pub add_queue : List ℕ → QueueList → Sys → Sys × QueueList × Bool
  unfolding added creat_db hash_get_queue_num
  add_queue qname qlist s =
      if leb conf.max_qlist_itmes (hash_get_queue_num qlist)
      then (s, qlist, false)
      else added qname qlist (creat_db os conf (zero_queue qname) s)

  removed : List ℕ → QueueList → Sys × Bool → Sys × QueueList × Bool
  unfolding hash_del_queue
  removed qname qlist (s, false) = (s, qlist, false)
  removed qname qlist (s, true) = (s, hash_del_queue qname qlist, true)

  -- A queue that is not there is a NULL pointer for `mq_sm_close_db`. If the directory is not
  -- removed, the closed queue stays in the table.
  unfoldable pub del_queue : List ℕ → QueueList → Sys → Run (Sys × QueueList × Bool)
  unfolding removed close_db remove_db hash_find_queue_by_key put_back
  del_queue qname qlist s = elim (hash_find_queue_by_key qname qlist) [
    | none ↦ fault
    | some q ↦
        let (s', q') = close_db os conf q s in
        ret (removed qname (put_back qname q' qlist) (remove_db os conf q' s'))
  ]

  -- The first queue with no write mapping ends the loop.
  unfoldable pub sync_store : QueueList → Sys → Sys
  sync_store [] s = s
  sync_store ((key, q) ∷ qlist) s =
      let s1 = (os.fsync s q.rtag_fd).0 in
      elim (q.cur_wdb.map_mem) [
        | none ↦ s1
        | some m ↦ sync_store qlist (os.fsync (os.msync s1 (some m) q.cur_wdb.pos).0 q.cur_wdb.fd).0
      ]

  unfoldable pub close_all : QueueList → Sys → Sys
  unfolding rtag_close_file close_db
  close_all [] s = s
  close_all ((key, q) ∷ qlist) s = close_all qlist (close_db os conf q (rtag_close_file os q s).0).0

  unfoldable pub close_store : QueueList → Sys → Sys × QueueList
  unfolding close_all
  close_store qlist s = (close_all qlist s, [])
