-- ===== src/Log.antt =====
-- source/log.c: the log. Its static variables are a record, as one thread uses them: another thread's
-- claim on the file, for which a writer spins, is not modelled. The text of the message is what its
-- format and arguments give.
pub mod Clock
use ucmq.Prelude.{
  ℕ, zero, suc, ◌+◌, ◌-◌, ◌*◌, ◌/◌, ◌%◌, ◌^◌, Bool, true, false, not, ◌&&◌, ◌||◌, Option, none,
  some, List, [], ◌∷◌, ◌++◌, codes, ltb, leb, ◌==◌, if◌then◌else◌, length, replicate, take,
}
use ucmq.Prelude.Bytes.{sub32}
use ucmq.Prelude.Decimal.{padded}
use ucmq.Prelude.Run.{Run, ret, fault, out_of_fuel, ◌>>=◌}
use ucmq.Io.{Timespec, Host, is_negative, eintr}
use ucmq.Io.Transfer.{write_again}
use ucmq.Util.{Calls}
use ucmq.Util.Directories.{do_mkdir}
use ucmq.Log.Clock.{TimeInfo, Kept, get_time}

-- log_config_t
pub record LogConfig : Type 0 where
  pub log_path : List ℕ
  pub log_file : List ℕ
  pub log_level : ℕ
  pub time_zone : ℕ

-- What the log calls besides.
pub record LogCalls (host : Host) : Type 0 where
  -- tz_minuteswest, where gettimeofday gives 0.
  pub minutes_west : host.Sys → Option ℕ
  -- CLOCK_REALTIME
  pub real_time : host.Sys → host.Sys × Timespec
  -- localtime: the year, the month from 1 and the day.
  pub today : host.Sys → ℕ × ℕ × ℕ
  pub open_append : host.Sys → List ℕ → host.Sys × Option ℕ
  -- The result is not negative.
  pub close : host.Sys → ℕ → host.Sys × Bool
  pub getpid : host.Sys → ℕ
  pub gettid : host.Sys → ℕ

-- `-tz.tz_minuteswest/60`, rounded towards 0.
unfoldable pub zone_of : ℕ → ℕ
zone_of minutes_west =
    let east = sub32 0 minutes_west in
    if is_negative east then sub32 0 ((2 ^ 32 - east) / 60) else east / 60

-- "%5d" of a number that is not negative.
unfoldable pub spaced : ℕ → ℕ → List ℕ
spaced width n = let digits = padded 1 n in replicate (width - length digits) 32 ++ digits

-- The names of LOG_TRACE to LOG_FATAL; another level is printed with five digits.
unfoldable pub level_str : ℕ → List ℕ
level_str level =
    if level == 0
    then codes "TRACE"
    else if level == 10
    then codes "DEBUG"
    else if level == 100
    then codes "INFO "
    else if level == 1000
    then codes "WARN "
    else if level == 10000
    then codes "ERROR"
    else if level == 65535
    then codes "FATAL"
    else padded 5 level

-- "[ %s %5d %02d:%02d:%02d.%03d %s:%d ] "
unfoldable pub log_prefix : ℕ → ℕ → TimeInfo → List ℕ → ℕ → List ℕ
unfolding level_str spaced
log_prefix level id ti file line =
    codes "[ "
    ++ (level_str level
        ++ (32 ∷ spaced 5 id
            ++ (32 ∷ padded 2 ti.hour
                ++ (58 ∷ padded 2 ti.min
                    ++ (58 ∷ padded 2 ti.sec
                        ++ (46 ∷ padded 3 ti.msec
                            ++ (32 ∷ file ++ (58 ∷ padded 1 line ++ codes " ] "))))))))

-- Whether the last byte is the end of a line.
unfoldable pub ends_line : List ℕ → Bool
ends_line [] = false
ends_line (c ∷ []) = c == 10
ends_line (c ∷ d ∷ cs) = ends_line (d ∷ cs)

-- What is written for a prefix, which sprintf puts into 4096 bytes, and a message; a longer one is
-- dropped.
unfoldable pub log_line : List ℕ → List ℕ → Run (Option (List ℕ))
unfolding ends_line
log_line prefix message =
    let text = prefix ++ message in
    if leb 4096 (length prefix)
    then fault
    else if ltb 0 (length text) && ltb (length text) 4094
    then ret (some (if ends_line text then text else text ++ 10 ∷ []))
    else ret none

module _ (host : Host) (calls : Calls host) (logs : LogCalls host) where
  -- The static variables; -1 is `none`.
  pub record LogState : Type 0 where
    pub sys : host.Sys
    pub g_config : LogConfig
    pub g_has_init : ℕ
    pub g_has_fork : Bool
    pub g_pid : ℕ
    pub last_day : Option ℕ
    pub log_fd : Option ℕ
    pub kept : Kept

  unfoldable pub log_init_config : host.Sys → LogConfig
  unfolding zone_of
  log_init_config s = record {
    log_path = codes "./";
    log_file = codes "log";
    log_level = 0;
    time_zone = elim (logs.minutes_west s) [ none ↦ 0 | some west ↦ zone_of west ];
  }

  -- The case LOG_HAS_INIT: the process is another one than before.
  unfoldable pub note_fork : LogState → LogState
  note_fork st =
      let cur = logs.getpid st.sys in
      if not (st.g_pid == 2 ^ 32 - 1) && not (st.g_pid == cur)
      then record st { g_pid = cur; g_has_fork = true }
      else st

  -- -(ENOENT)
  abbrev pub mq_enoent : ℕ
  mq_enoent = sub32 0 2

  -- LOG_INIT_ING waits for another thread; other values are not stored.
  unfoldable pub log_init : LogConfig → LogState → Run (LogState × ℕ)
  unfolding note_fork do_mkdir
  log_init config st =
      if st.g_has_init == 0
      then (let (s', result) = do_mkdir host calls config.log_path 504 st.sys in
          let st' = record st { sys = s'; g_config = config } in
          if is_negative result
          then ret (st', mq_enoent)
          else ret (note_fork (record st' { g_has_init = 2 }), 0))
      else if st.g_has_init == 1
      then out_of_fuel
      else if st.g_has_init == 2
      then ret (note_fork st, 0)
      else ret (st, 2 ^ 32 - 1)

  -- The loop of `open_log` that closes the file before.
  unfoldable pub close_again : ℕ → ℕ → host.Sys → Run host.Sys
  close_again zero fd s = out_of_fuel
  close_again (suc fuel) fd s =
      let (s', closed) = logs.close s fd in
      elim closed [
        | true ↦ ret s'
        | false ↦ elim (host.errno s' == eintr) [ true ↦ close_again fuel fd s' | false ↦ ret s' ]
      ]

  -- "%s/%s_%04d%02d%02d.log", of which PATH_MAX - 2 bytes are kept.
  unfoldable pub log_name : LogConfig → ℕ × ℕ × ℕ → List ℕ
  log_name config (year, month, day) = take 4094 (
      config.log_path
      ++ (47 ∷ config.log_file
          ++ (95 ∷ padded 4 year ++ (padded 2 month ++ (padded 2 day ++ codes ".log")))))

  -- A file for the day; where it cannot be opened, the one before goes on.
  unfoldable pub open_log : ℕ → ℕ → LogState → Run LogState
  unfolding log_name close_again
  open_log fuel day st =
      let (s', new_fd) = logs.open_append st.sys (log_name st.g_config (logs.today st.sys)) in
      elim new_fd [
        | none ↦ ret (record st { sys = s' })
        | some n ↦ elim (st.log_fd) [
          | none ↦ ret (record st { sys = s'; log_fd = some n; last_day = some day })
          | some old ↦ do
            s'' ← close_again fuel old s'
            ret (record st { sys = s''; log_fd = some n; last_day = some day })
        ]
      ]

  unfoldable pub is_day : Option ℕ → ℕ → Bool
  is_day none day = false
  is_day (some last) day = last == day

  -- A new file each day.
  unfoldable pub daily : ℕ → ℕ → LogState → Run LogState
  unfolding is_day open_log
  daily fuel day st =
      if st.g_has_init == 2 && not (is_day st.last_day day) then open_log fuel day st else ret st

  -- `write_2_file` to the log, or to descriptor 2 before the log is set up.
  unfoldable pub put_line : ℕ → LogState → Option (List ℕ) → Run LogState
  unfolding write_again
  put_line fuel st none = ret st
  put_line fuel st (some line) = do
    (s', r) ←
        write_again host fuel (if st.g_has_init == 2 then st.log_fd else some 2) fuel line st.sys
    ret (record st { sys = s' })

  -- `log_write`, down to `log_write_impl`.
  unfoldable pub log_write : ℕ → List ℕ → ℕ → ℕ → List ℕ → LogState → Run LogState
  unfolding get_time daily log_prefix log_line put_line
  log_write fuel file line level message st = if ltb level st.g_config.log_level then ret st else do
    let (s', cur) = logs.real_time st.sys
    let (kept', ti) = get_time st.g_config.time_zone cur st.kept
    let id = if st.g_has_fork then st.g_pid else logs.gettid s'
    st' ← daily fuel ti.day (record st { sys = s'; kept = kept' })
    text ← log_line (log_prefix level id ti file line) message
    put_line fuel st' text
