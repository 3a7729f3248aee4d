-- ===== src/Log/Clock.antt =====
-- source/log.c: `get_time`, the time of a log line, which is kept from call to call. The time zone is
-- the 32-bit pattern of hours east of Greenwich.
pub mod Day
use ucmq.Prelude.{ℕ, ◌+◌, ◌-◌, ◌*◌, ◌/◌, ◌%◌, ◌^◌, Bool, not, ◌&&◌, leb, ◌==◌, if◌then◌else◌}
use ucmq.Prelude.Bytes.{add32}
use ucmq.Io.{Timespec, is_negative}

-- time_info: the fields of the structure.
pub record TimeInfo : Type 0 where
  pub day : ℕ
  pub msec : ℕ
  pub hour : ℕ
  pub min : ℕ
  pub sec : ℕ

-- The static variables `g_sec` and `g_info`.
pub record Kept : Type 0 where
  pub g_sec : ℕ
  pub g_info : TimeInfo

-- The hour of the day, and the day that it belongs to: 1, 0 or the pattern of -1 more. The two tests
-- come one after the other.
unfoldable pub past_midnight : ℕ → ℕ × ℕ
past_midnight hour = if not (is_negative hour) && leb 24 hour then (hour - 24, 1) else (hour, 0)

unfoldable pub before_midnight : ℕ × ℕ → ℕ × ℕ
before_midnight (hour, day) = if is_negative hour then (add32 hour 24, 2 ^ 32 - 1) else (hour, day)

unfoldable pub within_day : ℕ → ℕ × ℕ
unfolding past_midnight before_midnight
within_day hour = before_midnight (past_midnight hour)

-- The new `hour` and `day`, where the hour is not the one that was kept.
unfoldable pub dated : ℕ → ℕ × ℕ → TimeInfo → TimeInfo
dated tv_sec (hour, day) info =
    if hour == info.hour
    then info
    else record info { hour = hour % 256; day = (day + tv_sec / 86400) % 65536 }

-- The time of a new second; the milliseconds are set.
unfoldable pub set_time : ℕ → ℕ → TimeInfo → TimeInfo
unfolding within_day dated
set_time time_zone tv_sec ti =
    let t = tv_sec % 86400 in
    let on_day = dated tv_sec (within_day (add32 (t / 3600) time_zone)) ti in
    record on_day { min = t % 3600 / 60; sec = t % 3600 % 60 }

unfoldable pub get_time : ℕ → Timespec → Kept → Kept × TimeInfo
unfolding set_time
get_time time_zone cur kept =
    let ti = record (kept.g_info) { msec = cur.tv_nsec / 1000000 % 65536 } in
    let ti' = set_time time_zone cur.tv_sec ti in
    if kept.g_sec == cur.tv_sec
    then (kept, ti)
    else (record { g_sec = cur.tv_sec; g_info = ti' }, ti')
