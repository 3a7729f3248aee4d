-- ===== src/Config.antt =====
-- source/mq_config.h, source/mq_config.c: the settings that the store and the handlers read.
pub mod Read
use ucmq.Prelude.{ℕ, ◌*◌, List}

-- ucmq_conf_t
pub record UcmqConf : Type 0 where
  pub http_listen_addr : List ℕ
  pub http_listen_port : ℕ
  pub allow_exec_ip : List ℕ
  pub output_log_path : List ℕ
  pub output_log_level : List ℕ
  pub binlog_file_path : List ℕ
  pub keep_alive : List ℕ
  pub conf_file : List ℕ
  pub pid_file : List ℕ
  pub res_store_space : ℕ
  pub max_qlist_itmes : ℕ
  pub sync_interval : ℕ
  pub sync_time_interval : ℕ
  pub def_max_queue : ℕ
  pub def_delay : ℕ
  pub data_file_path : List ℕ
  pub db_file_max_size : ℕ

-- MAX_DB_FILE_SIZE
abbrev pub max_db_file_size : UcmqConf → ℕ
max_db_file_size conf = conf.db_file_max_size * 1048576
