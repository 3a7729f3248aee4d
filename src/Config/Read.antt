-- ===== src/Config/Read.antt =====
-- source/mq_config.c, source/mq_config.h: the defaults and `read_conf_file`; `is_num_str` of source/mq_util.c.
-- The ini library is a function from sections and keys to values; the C library's `atoi` and `atoll` give patterns of 32 and 64 bits.
use ucmq.Prelude.{
  ℕ, ◌^◌, ◌≤◌, ◌<◌, ◌≡◌, refl, ap, Bool, true, false, ◌&&◌, Bool_cases, inl, inr, ◌⊎◌, Option, none,
  some, List, [], ◌∷◌, codes, arith, take, ltb, leb, if◌then◌else◌,
}
use ucmq.Prelude.Run.{Run, ret, fault, ◌>>=◌}
use ucmq.Config.{UcmqConf, max_db_file_size}

-- g_mq_conf
abbrev pub default_conf : UcmqConf
default_conf = record {
  http_listen_addr = codes "0.0.0.0";
  http_listen_port = 1818;
  allow_exec_ip = codes "0";
  output_log_path = codes "../log";
  output_log_level = codes "info";
  binlog_file_path = codes "../binlog";
  keep_alive = codes "300";
  conf_file = codes "../conf/ucmq.ini";
  pid_file = codes "./ucmq_1818.pid";
  res_store_space = 4;
  max_qlist_itmes = 32;
  sync_interval = 100;
  sync_time_interval = 100;
  def_max_queue = 10000000;
  def_delay = 0;
  data_file_path = codes "../data";
  db_file_max_size = 64;
}

unfoldable pub is_num_str : List ℕ → Bool
is_num_str [] = true
is_num_str (c ∷ s) = (leb b'0' c && leb c b'9') && is_num_str s

-- strncpy to a field of so many characters and a zero.
unfoldable pub text_param : ℕ → List ℕ → Option (List ℕ) → List ℕ
text_param size old none = old
text_param size old (some param) = take size param

unfoldable pub num_param : (List ℕ → ℕ) → ℕ → Option (List ℕ) → ℕ
unfolding is_num_str
num_param parse old none = old
num_param parse old (some param) = if is_num_str param then parse param else old

abbrev pub max_db_file_size_limit : ℕ
max_db_file_size_limit = 64

-- The assertion is on an `int`.
unfoldable pub size_param : (List ℕ → ℕ) → ℕ → Option (List ℕ) → Run ℕ
unfolding is_num_str
size_param atoi old none = ret old
size_param atoi old (some param) =
    if is_num_str param
    then (if ltb max_db_file_size_limit (atoi param) && ltb (atoi param) (2 ^ 31)
        then fault
        else ret (atoi param))
    else ret old

module _ (atoi atoll : List ℕ → ℕ) (ini_find : List ℕ → List ℕ → Option (List ℕ)) where
  -- All but the last setting.
  unfoldable pub read_params : UcmqConf → UcmqConf
  unfolding text_param num_param
  read_params conf = record conf {
    http_listen_addr =
        text_param 15 conf.http_listen_addr (ini_find (codes "server") (codes "http_listen_addr"));
    http_listen_port =
        num_param atoi conf.http_listen_port (ini_find (codes "server") (codes "http_listen_port"));
    allow_exec_ip =
        text_param 15 conf.allow_exec_ip (ini_find (codes "server") (codes "allow_exec_ip"));
    output_log_path =
        text_param 127 conf.output_log_path (ini_find (codes "server") (codes "output_log_path"));
    output_log_level =
        text_param 15 conf.output_log_level (ini_find (codes "server") (codes "output_log_level"));
    binlog_file_path =
        text_param 127 conf.binlog_file_path (ini_find (codes "server") (codes "binlog_file_path"));
    keep_alive = text_param 15 conf.keep_alive (ini_find (codes "server") (codes "keep_alive"));
    conf_file = text_param 127 conf.conf_file (ini_find (codes "server") (codes "conf_file"));
    pid_file = text_param 127 conf.pid_file (ini_find (codes "server") (codes "pid_file"));
    res_store_space =
        num_param atoll conf.res_store_space (ini_find (codes "server") (codes "res_store_space"));
    max_qlist_itmes =
        num_param atoi conf.max_qlist_itmes (ini_find (codes "server") (codes "max_qlist_itmes"));
    sync_interval =
        num_param atoi conf.sync_interval (ini_find (codes "rtag") (codes "sync_interval"));
    sync_time_interval =
        num_param atoi conf.sync_time_interval
          (ini_find (codes "rtag") (codes "sync_time_interval"));
    def_max_queue =
        num_param atoi conf.def_max_queue (ini_find (codes "queue") (codes "def_max_queue"));
    def_delay = num_param atoi conf.def_delay (ini_find (codes "queue") (codes "def_delay"));
    data_file_path =
        text_param 127 conf.data_file_path (ini_find (codes "db") (codes "data_file_path"));
  }

  -- The file is loaded.
  unfoldable pub read_conf_file : UcmqConf → Run UcmqConf
  unfolding read_params size_param
  read_conf_file conf = do
    size ← size_param atoi conf.db_file_max_size (ini_find (codes "db") (codes "db_file_max_size"))
    ret (record (read_params conf) { db_file_max_size = size })

  abbrev size_text : Option (List ℕ)
  size_text = ini_find (codes "db") (codes "db_file_max_size")

  -- The setting is a number above the limit.
  abbrev pub IsTooLarge : Option (List ℕ) → Type 0
  IsTooLarge none = ⊥
  IsTooLarge (some text) =
      (is_num_str text ≡ true) × (max_db_file_size_limit < atoi text) × (atoi text < 2 ^ 31)

  -- The setting is digits that `atoi` makes a negative `int` of.
  abbrev pub IsNegative : Option (List ℕ) → ℕ → Type 0
  IsNegative none n = ⊥
  IsNegative (some text) n = (is_num_str text ≡ true) × (2 ^ 31 ≤ n) × (n ≡ atoi text)

  -- A setting that is not digits changes nothing.
  abbrev pub IsKept : ℕ → Option (List ℕ) → ℕ → Type 0
  IsKept old none n = n ≡ old
  IsKept old (some text) n =
      ((is_num_str text ≡ false) × (n ≡ old)) ⊎ ((is_num_str text ≡ true) × (n ≡ atoi text))

  size_param_cases :
      (old : ℕ) (o : Option (List ℕ))
      → old ≤ max_db_file_size_limit
      → (IsTooLarge o × (size_param atoi old o ≡ fault))
        ⊎ ((n : ℕ) × (size_param atoi old o ≡ ret n)
            × (((n ≤ max_db_file_size_limit) × IsKept old o n) ⊎ IsNegative o n))
  unfolding size_param
  size_param_cases old none h = inr (old, refl, inl (h, refl))
  size_param_cases old (some text) h = elim (Bool_cases (is_num_str text)) [
    | inr other ↦ inr (old, ground (arith, other), inl (h, inl (other, refl)))
    | inl number ↦ elim (Bool_cases (ltb max_db_file_size_limit (atoi text))) [
      | inl large ↦ elim (Bool_cases (ltb (atoi text) (2 ^ 31))) [
        | inl short ↦
            inl ((number, ground arith, ground arith), ground (arith, number, large, short))
        | inr over ↦
            inr (atoi text, ground (arith, number, large, over), inr (number, ground arith, refl))
      ]
      | inr small ↦ inr (
        atoi text,
        ground (arith, number, small),
        inl (ground (arith, small), inr (number, refl)),
      )
    ]
  ]

  -- Reading the settings from the defaults stops at a file size that is given as digits, above 64
  -- and an `int` for `atoi`, and otherwise ends. The size is then at most 64, so that a file has at
  -- most 2 ^ 26 bytes, and it is what the digits say, or 64 where there are none; or else `atoi` has
  -- made a negative `int` of the digits, which passes the test and is the size.
  pub read_conf_file_cases :
      (IsTooLarge size_text × (read_conf_file default_conf ≡ fault))
      ⊎ ((conf : UcmqConf) × (read_conf_file default_conf ≡ ret conf)
          × (((max_db_file_size conf ≤ 2 ^ 26) × IsKept 64 size_text conf.db_file_max_size)
              ⊎ IsNegative size_text conf.db_file_max_size))
  unfolding read_conf_file
  read_conf_file_cases =
      let with_size : Run ℕ → Run UcmqConf =
        λ r. r >>= λ size. ret (record (read_params default_conf) { db_file_max_size = size }) in
      elim (size_param_cases 64 size_text (omega arith)) [
        | inl (large, stops) ↦ inl (large, ap with_size stops)
        | inr (n, reads, inl (top, kept)) ↦ inr (
          record (read_params default_conf) { db_file_max_size = n },
          ap with_size reads,
          inl (omega (arith, top), kept),
        )
        | inr (n, reads, inr negative) ↦ inr (
          record (read_params default_conf) { db_file_max_size = n },
          ap with_size reads,
          inr negative,
        )
      ]
