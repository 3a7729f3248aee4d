-- ===== src/Client/Receive/Time.antt =====
-- client/c/mq_client.c: `comm_get_rest_time` against the time that is really left.
use ucmq.Prelude.{ℕ, ◌+◌, ◌-◌, ◌*◌, ◌/◌, ◌≤◌, ◌<◌, arith}
use ucmq.Client.{Timespec}
use ucmq.Client.Receive.{rest_of}

-- The nanoseconds between two times.
abbrev elapsed_ns : Timespec → Timespec → ℕ
elapsed_ns start now = (now.tv_sec - start.tv_sec) * 1000000000 + now.tv_nsec - start.tv_nsec

-- The time that is left is that of the clock, 0 at least, within 48 milliseconds either way, for
-- times in order.
rest_of_close :
    (timeout : ℕ) (start now : Timespec)
    → start.tv_sec ≤ now.tv_sec
    → start.tv_nsec < 1000000000
    → now.tv_nsec < 1000000000
    → start.tv_nsec ≤ (now.tv_sec - start.tv_sec) * 1000000000 + now.tv_nsec
    → (timeout ≤ rest_of timeout start now + elapsed_ns start now / 1000000 + 48)
      × (rest_of timeout start now ≤ timeout - elapsed_ns start now / 1000000 + 48)
unfolding rest_of
rest_of_close timeout start now secs start_ns now_ns after = (omega arith, omega arith)
