-- ===== src/Io.antt =====
-- source/mq_errno.c, the times of source/util.c, and of source/file.c the parts that reading and writing
-- share. The system is a record of operations; an `int` is its 32-bit pattern, and the parts of a
-- `struct timespec` are 64-bit patterns. The double arithmetic of `get_rel_time` is a parameter; the theorems on
-- time-outs ask only that it is positive before the target time.
pub mod Transfer
pub mod Frame
pub mod Prefix
pub mod Ready
use ucmq.Prelude.{
  ℕ, zero, suc, ◌+◌, ◌-◌, ◌*◌, ◌/◌, ◌%◌, ◌^◌, Bool, true, false, not, ◌&&◌, ◌||◌, Option, none,
  some, List, ltb, leb, ◌==◌, if◌then◌else◌,
}
use ucmq.Prelude.Bytes.{add64, sub64, sub32}
use ucmq.Prelude.Run.{Run, ret, out_of_fuel, ◌>>=◌}

-- struct timespec
pub record Timespec : Type 0 where
  pub tv_sec : ℕ
  pub tv_nsec : ℕ

-- poll gives -1, or at least 0 with the events of the one descriptor.
pub data PollRet : Type 0 where
  polled : ℕ → PollRet
  poll_failed : PollRet

-- read and write give -1, or what was read and how much was written.
pub data ReadRet : Type 0 where
  gave : List ℕ → ReadRet
  read_failed : ReadRet

pub data WriteRet : Type 0 where
  took : ℕ → WriteRet
  write_failed : WriteRet

-- A call that gives -1 leaves its reason in `errno`. A negative descriptor is `none`.
pub record Host : Type 1 where
  pub Sys : Type 0
  pub errno : Sys → ℕ
  pub store_errno : Sys → ℕ → Sys
  -- CLOCK_MONOTONIC
  pub clock : Sys → Sys × Timespec
  pub poll : Sys → Option ℕ → ℕ → ℕ → Sys × PollRet
  pub read : Sys → Option ℕ → ℕ → Sys × ReadRet
  pub write : Sys → Option ℕ → List ℕ → Sys × WriteRet
  -- fcntl(fd, F_GETFL, 0): `none` where it is negative, else whether it has O_NONBLOCK.
  pub get_flags : Sys → Option ℕ → Option Bool
  -- S_2_MS of the seconds from the second time to the first and NS_2_MS of the nanoseconds, as an
  -- `int32_t`.
  pub ms_between : Timespec → Timespec → ℕ

-- `x < 0` and `x <= 0` for an `int`.
abbrev pub is_negative : ℕ → Bool
is_negative x = leb (2 ^ 31) x

abbrev pub at_most_zero : ℕ → Bool
at_most_zero x = x == 0 || is_negative x

abbrev pub eintr : ℕ
eintr = 4

abbrev pub eagain : ℕ
eagain = 11

-- -(EINVAL) and -(ETIMEDOUT)
abbrev pub mq_einval : ℕ
mq_einval = sub32 0 22

abbrev pub mq_etimedout : ℕ
mq_etimedout = sub32 0 110

abbrev pub pollin : ℕ
pollin = 1

abbrev pub pollout : ℕ
pollout = 4

-- fd_block_e, and a value that is none of these.
pub data FdBlock : Type 0 where
  fd_block fd_nonblock fd_unknown fd_other : FdBlock

-- The arithmetic of `get_abs_time`; division rounds towards 0.
unfoldable pub later_by : ℕ → Timespec → Timespec
later_by ms ts =
    if is_negative ms
    then record {
      tv_sec = sub64 ts.tv_sec ((2 ^ 32 - ms) / 1000);
      tv_nsec = sub64 ts.tv_nsec ((2 ^ 32 - ms) % 1000 * 1000000);
    }
    else record {
      tv_sec = add64 ts.tv_sec (ms / 1000);
      tv_nsec = add64 ts.tv_nsec (ms % 1000 * 1000000);
    }

-- `timeout > 0 && next_to <= 0`
unfoldable pub expired : ℕ → ℕ → Bool
expired timeout next_to = not (at_most_zero timeout) && at_most_zero next_to

-- A round of a loop sets `exit_loop`, with its result (`none` for -1), or comes to the loop's test.
pub data Turn (S A : Type 0) : Type 0 where
  stop : S → Option A → Turn S A
  more : S → A → Turn S A

module _ (host : Host) where
  open host use {Sys}

  unfoldable pub mq_errno : Sys → ℕ
  mq_errno s = let tmp = host.errno s in if at_most_zero tmp then tmp else sub32 0 tmp

  -- The result is the number before.
  unfoldable pub set_errno : ℕ → Sys → Sys × ℕ
  set_errno error_number s = (
    host.store_errno s (if at_most_zero error_number then error_number else sub32 0 error_number),
    host.errno s,
  )

  unfoldable pub get_abs_time : ℕ → Sys → Sys × Timespec
  unfolding later_by
  get_abs_time time_after s = let (s', ts) = host.clock s in (s', later_by time_after ts)

  unfoldable pub get_rel_time : Timespec → Sys → Sys × ℕ
  get_rel_time abs_time s = let (s', now) = host.clock s in (s', host.ms_between abs_time now)

  -- The loop of `wait_fd`, on the rounds left; `none` stands for -1.
  unfoldable pub poll_again : ℕ → Option ℕ → ℕ → ℕ → Sys → Run (Sys × Option ℕ)
  poll_again zero fd events timeout s = out_of_fuel
  poll_again (suc fuel) fd events timeout s =
      let (s', r) = host.poll s fd events timeout in
      elim r [
        | polled revents ↦ ret (s', some revents)
        | poll_failed ↦ elim (host.errno s' == eintr) [
          | true ↦ poll_again fuel fd events timeout s'
          | false ↦ ret (s', none)
        ]
      ]

  unfoldable pub wait_fd : ℕ → Option ℕ → ℕ → ℕ → Sys → Run (Sys × Option ℕ)
  unfolding poll_again
  wait_fd fuel fd events timeout s = poll_again fuel fd events timeout (host.store_errno s 0)

  -- `none` stands for -1.
  unfoldable pub is_nonblock : Option ℕ → FdBlock → Sys → Sys × Option Bool
  unfolding set_errno
  is_nonblock fd fd_block s = (s, some false)
  is_nonblock fd fd_nonblock s = (s, some true)
  is_nonblock fd fd_unknown s = (s, host.get_flags s fd)
  is_nonblock fd fd_other s = ((set_errno mq_einval s).0, none)

  unfoldable pub timed_out : {A : Type 0} → Sys → Turn Sys A
  unfolding set_errno
  timed_out s = stop (set_errno mq_etimedout s).0 none

  -- The end of a round: the test of the loop on the size so far.
  unfoldable pub end_round :
      {A : Type 0}
      → ℕ
      → ℕ
      → (A → ℕ)
      → (A → Sys → Run (Sys × Option A))
      → Turn Sys A
      → Run (Sys × Option A)
  end_round size timeout count again (stop s total) = ret (s, total)
  end_round size timeout count again (more s a) =
      if ltb (count a) size && not (timeout == 0) then again a s else ret (s, some a)

  -- A `do` loop of source/file.c on the rounds left; `count` is the size so far.
  unfoldable pub rounds_of :
      {A : Type 0}
      → ℕ
      → ℕ
      → (A → ℕ)
      → (A → Sys → Run (Turn Sys A))
      → ℕ
      → A
      → Sys
      → Run (Sys × Option A)
  unfolding end_round
  rounds_of size timeout count turn zero a s = out_of_fuel
  rounds_of size timeout count turn (suc rounds) a s = do
    r ← turn a s
    end_round size timeout count (rounds_of size timeout count turn rounds) r
