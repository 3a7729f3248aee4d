-- ===== src/Tests/World.antt =====
-- A small world for the tests: mappings in memory, and an operating system that does nothing else.
use ucmq.Prelude.{ℕ, refl, true, none, some, List, [], ◌∷◌, arith, ◌==◌, if◌then◌else◌}
use ucmq.Prelude.Bytes.{Memory, poke}
use ucmq.Config.{UcmqConf}
use ucmq.Types.{MqQueue, DbMap}
use ucmq.Os.{Os, IsLawful, KeepsMaps, failed, made}
use ucmq.StoreManage.Fifo.{Represents}
use ucmq.Http.{Request, AppInfo, Server}

abbrev pub world : Os
world = record {
  Sys = ℕ → Memory;
  mapped = λ s k. 1048576;
  load = λ s k. s k;
  store = λ s m p bs k. if k == m then poke (s m) p bs else s k;
  open_file = λ s f c. (s, some 3);
  close = λ s fd. s;
  ftruncate = λ s fd n. s;
  seek_last = λ s fd. (s, true);
  write_byte = λ s fd b. s;
  file_size = λ s f. some 1048576;
  mmap = λ s fd n. (s, some 1);
  munmap = λ s m. s;
  msync = λ s m n. (s, true);
  fsync = λ s fd. (s, true);
  unlink = λ s f. s;
  write_n = λ s fd bs. (s, true);
  read_tail = λ s fd i. failed;
  free_bytes = λ s p. 1000000000000;
  access = λ s p. true;
  mkdir = λ s p. (s, made);
  delete_file = λ s p. s;
}

pub world-IsLawful : IsLawful world
world-IsLawful = record {
  load_store = λ s m p bs. ground arith;
  load_store_ne = λ s m k p bs n. ground arith;
  mapped_store = λ s m k p bs. refl;
  load_write = λ s fd bs k. refl;
  mapped_write = λ s fd bs k. refl;
  load_msync = λ s m n k. refl;
  mapped_msync = λ s m n k. refl;
}

pub world-KeepsMaps : KeepsMaps world
world-KeepsMaps = record {
  load_munmap = λ s m k n. refl;
  mapped_munmap = λ s m k n. refl;
  load_close = λ s fd k. refl;
  mapped_close = λ s fd k. refl;
  load_unlink = λ s f k. refl;
  mapped_unlink = λ s f k. refl;
  load_open_file = λ s f c k. refl;
  mapped_open_file = λ s f c k. refl;
}

abbrev pub conf : UcmqConf
conf = record {
  http_listen_addr = [];
  http_listen_port = 1818;
  allow_exec_ip = [];
  output_log_path = [];
  output_log_level = [];
  binlog_file_path = [];
  keep_alive = [];
  conf_file = [];
  pid_file = [];
  res_store_space = 1;
  max_qlist_itmes = 10;
  sync_interval = 100;
  sync_time_interval = 0;
  def_max_queue = 100;
  def_delay = 0;
  data_file_path = 100 ∷ [];
  db_file_max_size = 1;
}

abbrev pub db : DbMap
db = record { fd = some 5; flag = 1; map_mem = some 0; pos = 128; opt_count = 0; cur_index = 1 }

-- An empty queue named "a".
abbrev pub queue : MqQueue
queue = record {
  qname = 97 ∷ [];
  rtag_fd = some 4;
  wlock = 0;
  sync_intv = 0;
  delay = 0;
  maxque = 100;
  put_num = 0;
  get_num = 0;
  unread_count = 0;
  cur_rdb = db;
  cur_wdb = db;
}

abbrev pub blank : ℕ → Memory
blank k i = 0

pub queue-Represents : Represents world conf 0 blank queue []
queue-Represents = record {
  small = omega arith;
  same_file = refl;
  read_map = refl;
  write_map = refl;
  all_mapped = omega arith;
  after_head = omega arith;
  within = omega arith;
  laid = refl;
}

abbrev pub no_info : AppInfo
no_info = record {
  put = 0;
  get = 0;
  times = 0;
  total_time = 0;
  max_time = 0;
  count = 0;
  put_size = 0;
}

abbrev pub server : Server world
server = record { sys = blank; qlist = (97 ∷ [], queue) ∷ []; info = no_info; conf = conf }

-- opt=delay&name=a&num=…, with the number's text.
abbrev pub delay_request : List ℕ → Request
delay_request num = record {
  ver = none;
  opt = some (100 ∷ 101 ∷ 108 ∷ 97 ∷ 121 ∷ []);
  name = some (97 ∷ []);
  data_arg = none;
  num = some num;
  input_buffer = [];
}

-- A reader of one digit, or of "-1".
abbrev pub small_atoi : List ℕ → ℕ
small_atoi [] = 0
small_atoi (c ∷ str) = if c == 45 then 4294967295 else c
