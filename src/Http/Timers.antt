-- ===== src/Http/Timers.antt =====
-- source/mq_evhttp.c: `mq_evhttp_cb_do_sync` and `mq_evhttp_cb_do_dump`, the timers. Their static
-- variables are arguments and results; a time is in whole seconds. The log lines are left out.
use ucmq.Prelude.{ℕ, ◌+◌, not, leb, ◌==◌, if◌then◌else◌}
use ucmq.Prelude.Bytes.{sub64}
use ucmq.Os.{Os}
use ucmq.QueueManage.Table.{sync_store}
use ucmq.Http.{AppInfo, Server}

abbrev pub dump_info_interval : ℕ
dump_info_interval = 60

-- The new `g_info`: the sums start again, the count of messages stays.
unfoldable pub dumped : AppInfo → AppInfo
dumped info = record info {
  put = 0;
  get = 0;
  put_size = 0;
  total_time = 0;
  times = 0;
  max_time = 0;
}

-- `g_info`, `g_last_info` and `next_dump`.
pub record Dump : Type 0 where
  pub info : AppInfo
  pub last_info : AppInfo
  pub next_dump : ℕ

-- The seconds to the next call come with the state.
unfoldable pub cb_do_dump : ℕ → Dump → Dump × ℕ
unfolding dumped
cb_do_dump now d =
    let next = if d.next_dump == 0 then now + dump_info_interval else d.next_dump in
    if leb next now
    then (
      record { info = dumped d.info; last_info = d.info; next_dump = next + dump_info_interval },
      sub64 (next + dump_info_interval) now,
    )
    else (record d { next_dump = next }, sub64 next now)

-- `last_sync` is 0 before the first call.
unfoldable pub cb_do_sync : (os : Os) → ℕ → ℕ × Server os → (ℕ × Server os) × ℕ
unfolding sync_store
cb_do_sync os now (last_sync, sv) =
    let last = if last_sync == 0 then now else last_sync in
    if not (sv.conf.sync_time_interval == 0)
    then (if leb (last + sv.conf.sync_time_interval) now
        then (
          (now, record sv { sys = sync_store os sv.conf sv.qlist sv.sys }),
          sv.conf.sync_time_interval,
        )
        else ((now, sv), sv.conf.sync_time_interval))
    else ((last, sv), 10)
