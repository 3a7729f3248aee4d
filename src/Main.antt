-- ===== src/Main.antt =====
-- source/main.c, and the set-up of the server in source/mq_evhttp.c (`mq_http_init`, `mq_http_start`,
-- `mq_http_stop`): the options, the life of the store and of the event loop. libevent is a record of
-- operations; its loop runs the handlers, which change the server. The process id file, signals, the
-- fork into the background and the log lines are left out.
pub mod Life
use ucmq.Prelude.{
  ℕ, ◌%◌, ◌^◌, Bool, true, false, not, Option, none, some, List, [], ◌∷◌, codes, take, ◌==◌,
  if◌then◌else◌,
}
use ucmq.Prelude.Run.{Run, ret, ◌>>=◌}
use ucmq.Config.{UcmqConf}
use ucmq.Os.{Os, Dirs}
use ucmq.QueueManage.Table.{QueueList, same_name, close_store}
use ucmq.QueueManage.Start.{open_store, get_store_count}
use ucmq.Http.{AppInfo, Server}
use ucmq.Io.{Host}
use ucmq.Log.{LogConfig, LogCalls, log_init_config}
use ucmq.Util.{Calls}

-- ucmq_run_step_e
abbrev pub run_step_store_init : ℕ
run_step_store_init = 2

abbrev pub run_step_store_end : ℕ
run_step_store_end = 3

abbrev pub run_step_event_init : ℕ
run_step_event_init = 4

abbrev pub run_step_http_server_create : ℕ
run_step_http_server_create = 5

abbrev pub run_step_addr_port_bind : ℕ
run_step_addr_port_bind = 6

abbrev pub run_step_pipe_create : ℕ
run_step_pipe_create = 7

abbrev pub run_step_event_end : ℕ
run_step_event_end = 8

abbrev pub run_step_end : ℕ
run_step_end = 0

-- What getopt_long gives; `help` is also every other option.
pub data Opt : Type 0 where
  config : List ℕ → Opt
  daemon version help : Opt

-- The loop over the options: the path of the configuration, cut to 127 bytes, and whether to run in
-- the background. `none` where a text is printed and the program ends.
unfoldable pub read_options : List Opt → UcmqConf → Bool → Option (UcmqConf × Bool)
read_options [] conf daemon_flag = some (conf, daemon_flag)
read_options (config path ∷ opts) conf daemon_flag =
    read_options opts (record conf { conf_file = take 127 path }) daemon_flag
read_options (daemon ∷ opts) conf daemon_flag = read_options opts conf true
read_options (version ∷ opts) conf daemon_flag = none
read_options (help ∷ opts) conf daemon_flag = none

-- The chain of tests on the level's name.
unfoldable pub log_level_of : List ℕ → ℕ
unfolding same_name
log_level_of name =
    if same_name name (codes "TRACE")
    then 0
    else if same_name name (codes "DEBUG")
    then 10
    else if same_name name (codes "INFO")
    then 100
    else if same_name name (codes "WARN")
    then 1000
    else if same_name name (codes "ERROR")
    then 10000
    else if same_name name (codes "FATAL")
    then 65535
    else 100

-- The log's settings.
unfoldable pub log_settings : UcmqConf → LogConfig → LogConfig
unfolding log_level_of
log_settings conf base = record base {
  log_path = conf.output_log_path;
  log_file = codes "ucmq_log";
  log_level = log_level_of conf.output_log_level;
}

abbrev pub zero_info : AppInfo
zero_info = record {
  put = 0;
  get = 0;
  times = 0;
  total_time = 0;
  max_time = 0;
  count = 0;
  put_size = 0;
}

-- libevent and the pipe. A Boolean says that a call succeeded.
pub record Events (os : Os) : Type 1 where
  pub Loop : Type 0
  pub event_init : Loop → Loop × Bool
  pub evhttp_new : Loop → Loop × Bool
  pub bind_socket : Loop → List ℕ → ℕ → Loop × Bool
  -- The time-out and the three callbacks.
  pub set_callbacks : Loop → ℕ → Loop
  pub make_pipe : Loop → Loop × Bool
  -- The event of the pipe and the two timers, of one second.
  pub add_events : Loop → Loop
  pub base_free : Loop → Loop
  pub http_free : Loop → Loop
  pub close_pipe : Loop → Loop
  -- The loop until it ends, with its exit code.
  pub dispatch : Loop → Server os → Run (Loop × Server os × ℕ)

module _ (os : Os) (dirs : Dirs os) (events : Events os) (atoi atoll : List ℕ → ℕ) (fuel : ℕ) where
  open events use {Loop}

  unfoldable pub mq_http_init : UcmqConf → Loop → Loop × ℕ
  mq_http_init conf e =
      let (e1, init) = events.event_init e in
      if not init
      then (e1, run_step_event_init)
      else (let (e2, made) = events.evhttp_new e1 in
          if not made
          then (events.base_free e2, run_step_http_server_create)
          else (let (e3, bound) =
                events.bind_socket e2 conf.http_listen_addr (conf.http_listen_port % 2 ^ 16) in
              if not bound
              then (events.http_free (events.base_free e3), run_step_addr_port_bind)
              else (let (e4, piped) =
                    events.make_pipe (events.set_callbacks e3 (atoi conf.keep_alive)) in
                  if not piped
                  then (events.http_free (events.base_free e4), run_step_pipe_create)
                  else (events.add_events e4, run_step_event_end))))

  unfoldable pub mq_http_stop : Loop → Server os → Loop × Server os
  mq_http_stop e sv = (
    events.close_pipe (events.http_free (events.base_free e)),
    record sv { sys = os.unlink sv.sys sv.conf.pid_file },
  )

  -- The sum of the queues, or a failure.
  unfoldable pub counted_store : Server os → os.Sys × QueueList × Bool → Run (Server os × ℕ)
  unfolding get_store_count
  counted_store sv (s, qlist, false) =
      ret (record sv { sys = s; qlist = qlist }, run_step_store_init)
  counted_store sv (s, qlist, true) = do
    (s', qlist', count) ← get_store_count os dirs sv.conf atoi atoll fuel qlist s
    ret (
      record sv { sys = s'; qlist = qlist'; info = record (sv.info) { count = count } },
      run_step_store_end,
    )

  unfoldable pub mq_init_store : Server os → Run (Server os × ℕ)
  unfolding open_store counted_store
  mq_init_store sv = do
    opened ← open_store os dirs sv.conf atoi atoll fuel sv.qlist sv.sys
    counted_store (record sv { info = zero_info }) opened

  unfoldable pub mq_store_destroy : Server os → Server os
  unfolding close_store
  mq_store_destroy sv =
      let (s', qlist') = close_store os sv.conf sv.qlist sv.sys in
      record sv { sys = s'; qlist = qlist' }

  -- The loop has ended: the store is closed before the server.
  unfoldable pub stopped : Loop × Server os × ℕ → Loop × Server os × ℕ
  unfolding mq_store_destroy mq_http_stop
  stopped (e, sv, ret_code) =
      let (e', sv') = mq_http_stop e (mq_store_destroy sv) in
      (e', sv', if ret_code == 0 then run_step_event_end else run_step_end)

  unfoldable pub after_init : Server os → Loop × ℕ → Run (Loop × Server os × ℕ)
  unfolding mq_store_destroy stopped
  after_init sv (e, exit_code) =
      if not (exit_code == run_step_event_end)
      then ret (e, mq_store_destroy sv, exit_code)
      else (do r ← events.dispatch e sv; ret (stopped r))

  -- The store is open, or it could not be opened.
  unfoldable pub after_store : Loop → Server os × ℕ → Run (Loop × Server os × ℕ)
  unfolding mq_http_init after_init
  after_store e (sv, exit_code) =
      if not (exit_code == run_step_store_end)
      then ret (e, sv, exit_code)
      else after_init sv (mq_http_init sv.conf e)

  unfoldable pub main_entrance : Loop → Server os → Run (Loop × Server os × ℕ)
  unfolding mq_init_store after_store
  main_entrance e sv = do r ← mq_init_store sv; after_store e r

  -- The settings are read, or not.
  unfoldable pub with_conf : Loop → Server os → Option UcmqConf → Run (Loop × Server os × ℕ)
  unfolding main_entrance
  with_conf e sv none = ret (e, sv, 1)
  with_conf e sv (some conf) = main_entrance e (record sv { conf = conf })

  unfoldable pub main :
      (UcmqConf → Run (Option UcmqConf)) → List Opt → Loop → Server os → Run (Loop × Server os × ℕ)
  unfolding read_options with_conf
  main read_conf_file opts e sv = elim (read_options opts sv.conf false) [
    | none ↦ ret (e, sv, 0)
    | some (conf, daemon_flag) ↦ do read ← read_conf_file conf; with_conf e sv read
  ]
