-- ===== src/Util.antt =====
-- source/util.c, source/mq_util.c: files and directories, random numbers, sleeping and numbers in text.
-- The calls are a record on the system of source/file.c; a path is the list of its bytes, without the
-- zero at its end.
pub mod Directories
pub mod Mkdir
use ucmq.Prelude.{
  ℕ, zero, suc, ◌+◌, ◌-◌, ◌*◌, ◌/◌, ◌%◌, ◌^◌, Bool, true, false, not, ◌&&◌, ◌||◌, Option, none,
  some, List, [], ◌∷◌, ◌++◌, ltb, leb, ◌==◌, if◌then◌else◌, length, get_or, bit_and, codes,
}
use ucmq.Prelude.Bytes.{add64, sub64, get32, u64_mod}
use ucmq.Prelude.Run.{Run, ret, out_of_fuel, ◌>>=◌}
use ucmq.Os.{FileType, Dirent}
use ucmq.Io.{Timespec, Host, ReadRet, gave, read_failed, is_negative, eintr, mq_einval, mq_errno}

-- What the utilities call besides. A call's Boolean says that it succeeds.
pub record Calls (host : Host) : Type 0 where
  pub mkdir : host.Sys → List ℕ → ℕ → host.Sys × Bool
  pub rmdir : host.Sys → List ℕ → host.Sys
  pub remove : host.Sys → List ℕ → host.Sys
  pub open_read : host.Sys → List ℕ → host.Sys × Option ℕ
  pub close : host.Sys → ℕ → host.Sys
  -- stat: the size; lstat: the type.
  pub stat_size : host.Sys → List ℕ → Option ℕ
  pub lstat_type : host.Sys → List ℕ → Option FileType
  -- What readdir gives one after another: `none` where opendir fails.
  pub read_dir : host.Sys → List ℕ → Option (List Dirent)
  -- The time that is left where it was interrupted.
  pub nanosleep : host.Sys → Timespec → host.Sys × Bool × Timespec
  pub strerror : ℕ → List ℕ
  -- The bytes behind the number, its 64-bit pattern, and `errno`.
  pub strtoll : List ℕ → List ℕ × ℕ × ℕ

-- EEXIST
abbrev pub eexist : ℕ
eexist = 17

-- ERANGE
abbrev pub erange : ℕ
erange = 34

-- An `int64_t` difference, by its pattern.
unfoldable pub get_time_diff_nsec : Timespec → Timespec → ℕ
get_time_diff_nsec start end =
    sub64 (add64 (sub64 end.tv_sec start.tv_sec * 1000000000 % u64_mod) end.tv_nsec) start.tv_nsec

-- The 64-bit pattern of -1.
abbrev pub ll_minus_one : ℕ
ll_minus_one = sub64 0 1

-- The three tests of `str_to_ll` on what strtoll gives.
unfoldable pub converted : List ℕ → List ℕ × ℕ × ℕ → ℕ
converted str (rest, t_val, errno) =
    if errno == erange && (t_val == 2 ^ 63 - 1 || t_val == 2 ^ 63) || not (errno == 0) && t_val == 0
    then ll_minus_one
    else if length rest == length str
    then ll_minus_one
    else if not (length rest == 0)
    then ll_minus_one
    else t_val

unfoldable pub str_to_ll : (List ℕ → List ℕ × ℕ × ℕ) → Option (List ℕ) → ℕ
unfolding converted
str_to_ll strtoll none = ll_minus_one
str_to_ll strtoll (some str) = converted str (strtoll str)

-- What the buffer holds, and the size that was read; `none` for a negative result, with a message.
-- snprintf keeps one byte less than the buffer has.
pub record FileText : Type 0 where
  pub size : Option ℕ
  pub buffer : List ℕ

module _ (host : Host) (calls : Calls host) where
  open host use {Sys}

  -- `fd` is the static descriptor, `none` for -1; it is kept.
  unfoldable pub rand_from : ℕ → Option ℕ → Sys × ReadRet → (Sys × Option ℕ) × ℕ
  unfolding mq_errno
  rand_from size fd (s, read_failed) = ((s, fd), mq_errno host s)
  rand_from size fd (s, gave bytes) =
      if length bytes == size
      then ((s, fd), bit_and (get32 (λ i. get_or bytes i 0) 0) 0x7fffffff)
      else ((s, fd), mq_errno host s)

  unfoldable pub set_rand : Sys × Option ℕ → (Sys × Option ℕ) × ℕ
  unfolding mq_errno rand_from
  set_rand (s, some fd) = rand_from 4 (some fd) (host.read s (some fd) 4)
  set_rand (s, none) =
      let (s', tmp) = calls.open_read s (codes "/dev/urandom") in
      elim tmp [
        | none ↦ ((s', none), mq_errno host s')
        | some fd ↦ rand_from 4 (some fd) (host.read s' (some fd) 4)
      ]

  -- The loop of `do_sleep` on the rounds left.
  unfoldable pub sleep_again : ℕ → Timespec → Sys → Run (Sys × ℕ)
  unfolding mq_errno
  sleep_again zero ts s = out_of_fuel
  sleep_again (suc fuel) ts s =
      let (s', slept, rest) = calls.nanosleep s ts in
      elim slept [
        | true ↦ ret (s', 0)
        | false ↦ elim (host.errno s' == eintr) [
          | true ↦ sleep_again fuel rest s'
          | false ↦ ret (s', mq_errno host s')
        ]
      ]

  unfoldable pub do_sleep : ℕ → ℕ → Sys → Run (Sys × ℕ)
  unfolding sleep_again
  do_sleep fuel timeout s =
      if is_negative timeout
      then ret (s, mq_einval)
      else sleep_again fuel (record { tv_sec = timeout / 1000; tv_nsec = timeout % 1000 * 1000000 })
          s

  -- The pattern of the size, and of -1 where there is none; `int` keeps 32 bits.
  unfoldable pub get_file_size : List ℕ → Sys → ℕ
  get_file_size path s = elim (calls.stat_size s path) [ none ↦ 2 ^ 32 - 1 | some n ↦ n % 2 ^ 32 ]

  unfoldable pub text_of_read : List ℕ → Sys × ReadRet → FileText
  text_of_read message (s, gave bytes) = record { size = some (length bytes); buffer = bytes }
  text_of_read message (s, read_failed) = record { size = none; buffer = message }

  unfoldable pub read_file : (List ℕ → ℕ → List ℕ → List ℕ) → ℕ → List ℕ → Sys → Sys × FileText
  unfolding text_of_read
  read_file message size path s =
      let (s', fd) = calls.open_read s path in
      elim fd [
        | none ↦ (
          s',
          record {
            size = none;
            buffer = message path (host.errno s') (calls.strerror (host.errno s'));
          },
        )
        | some n ↦
            let (s'', r) = host.read s' (some n) size in
            (
              calls.close s'' n,
              text_of_read (message path (host.errno s'') (calls.strerror (host.errno s'')))
                  (s'', r),
            )
      ]
