-- ===== src/Io/Transfer.antt =====
-- source/file.c: `read_n` and `write_n`, on blocking and on non-blocking descriptors. The size of the
-- buffer is that of the bytes to write; what is read so far is a list. `fuel` bounds the loops over
-- interrupted calls, `rounds` the main loop.
use ucmq.Prelude.{
  ℕ, zero, suc, ◌+◌, ◌-◌, Bool, true, false, ◌||◌, Option, none, some, List, [], ◌∷◌, ◌++◌, ◌==◌,
  if◌then◌else◌, length, drop,
}
use ucmq.Prelude.Run.{Run, ret, out_of_fuel, ◌>>=◌}
use ucmq.Io.{
  Timespec, ReadRet, gave, read_failed, WriteRet, took, write_failed, Host, is_negative,
  at_most_zero, eintr, eagain, pollin, pollout, FdBlock, expired, Turn, stop, more, get_abs_time,
  get_rel_time, wait_fd, is_nonblock, timed_out, rounds_of,
}

module _ (host : Host) (fuel : ℕ) (fd : Option ℕ) where
  open host use {Sys}

  -- `read` and `write` until they are not interrupted.
  unfoldable pub read_again : ℕ → ℕ → Sys → Run (Sys × ReadRet)
  read_again zero size s = out_of_fuel
  read_again (suc rounds) size s =
      let (s', r) = host.read s fd size in
      elim r [
        | gave bytes ↦ ret (s', gave bytes)
        | read_failed ↦ elim (host.errno s' == eintr) [
          | true ↦ read_again rounds size s'
          | false ↦ ret (s', read_failed)
        ]
      ]

  unfoldable pub write_again : ℕ → List ℕ → Sys → Run (Sys × WriteRet)
  write_again zero bytes s = out_of_fuel
  write_again (suc rounds) bytes s =
      let (s', r) = host.write s fd bytes in
      elim r [
        | took n ↦ ret (s', took n)
        | write_failed ↦ elim (host.errno s' == eintr) [
          | true ↦ write_again rounds bytes s'
          | false ↦ ret (s', write_failed)
        ]
      ]

  -- What was read or written so far, after the call.
  unfoldable pub after_read : List ℕ → Sys × ReadRet → Turn Sys (List ℕ)
  after_read text (s, read_failed) = stop s none
  after_read text (s, gave []) = stop s (some text)
  after_read text (s, gave (b ∷ bytes)) = more s (text ++ b ∷ bytes)

  unfoldable pub after_write : ℕ → Sys × WriteRet → Turn Sys ℕ
  after_write total (s, write_failed) = stop s none
  after_write total (s, took zero) = stop s (some total)
  after_write total (s, took (suc n)) = more s (total + suc n)

  module _ (timeout : ℕ) (abs_to : Timespec) where
    -- The events that a blocking loop waits for have come, or not.
    unfoldable pub on_events :
        {A : Type 0} → ℕ → (Sys → Run (Turn Sys A)) → Sys × Option ℕ → Run (Turn Sys A)
    unfolding timed_out
    on_events events act (s, none) = ret (stop s none)
    on_events events act (s, some revents) =
        if revents == events
        then act s
        else if revents == 0
        then ret (timed_out host s)
        else ret (stop s none)

    -- A round of a blocking loop, up to the call.
    unfoldable pub block_turn : {A : Type 0} → ℕ → (Sys → Run (Turn Sys A)) → Sys → Run (Turn Sys A)
    unfolding get_rel_time expired timed_out wait_fd on_events
    block_turn events act s =
        let (s', next_to) = get_rel_time host abs_to s in
        if expired timeout next_to then ret (timed_out host s') else do
          w ← wait_fd host fuel fd events (if at_most_zero timeout then timeout else next_to) s'
          on_events events act w

    unfoldable pub block_read_turn : ℕ → List ℕ → Sys → Run (Turn Sys (List ℕ))
    unfolding block_turn read_again after_read
    block_read_turn size text =
        block_turn pollin
          λ s. do r ← read_again fuel (size - length text) s; ret (after_read text r)

    unfoldable pub block_write_turn : List ℕ → ℕ → Sys → Run (Turn Sys ℕ)
    unfolding block_turn write_again after_write
    block_write_turn buf total =
        block_turn pollout
          λ s. do r ← write_again fuel (drop total buf) s; ret (after_write total r)

    -- After EAGAIN a non-blocking loop waits for the events and goes on with what it has.
    unfoldable pub would_block : {A : Type 0} → ℕ → A → Sys → Run (Turn Sys A)
    unfolding get_rel_time expired timed_out wait_fd on_events
    would_block events total s =
        let (s', next_to) = get_rel_time host abs_to s in
        if timeout == 0 || expired timeout next_to then ret (timed_out host s') else do
          w ← wait_fd host fuel fd events (if is_negative timeout then timeout else next_to) s'
          on_events events (λ s''. ret (more s'' total)) w

    -- A failed call of a non-blocking loop.
    unfoldable pub on_errno : {A : Type 0} → ℕ → A → Sys → Run (Turn Sys A)
    unfolding would_block
    on_errno events total s =
        if host.errno s == eintr
        then ret (more s total)
        else if host.errno s == eagain
        then would_block events total s
        else ret (stop s none)

    unfoldable pub nonblock_read_turn : ℕ → List ℕ → Sys → Run (Turn Sys (List ℕ))
    unfolding after_read on_errno
    nonblock_read_turn size text s =
        let (s', r) = host.read s fd (size - length text) in
        elim r [
          | gave bytes ↦ ret (after_read text (s', gave bytes))
          | read_failed ↦ on_errno pollin text s'
        ]

    unfoldable pub nonblock_write_turn : List ℕ → ℕ → Sys → Run (Turn Sys ℕ)
    unfolding after_write on_errno
    nonblock_write_turn buf total s =
        let (s', r) = host.write s fd (drop total buf) in
        elim r [
          | took n ↦ ret (after_write total (s', took n))
          | write_failed ↦ on_errno pollout total s'
        ]

  module _ (rounds timeout : ℕ) where
    unfoldable pub block_read_n : ℕ → Sys → Run (Sys × Option (List ℕ))
    unfolding get_abs_time rounds_of block_read_turn
    block_read_n size s =
        let (s', abs_to) = get_abs_time host timeout s in
        rounds_of host size timeout (λ (t : List ℕ). length t) (block_read_turn timeout abs_to size)
          rounds [] s'

    unfoldable pub nonblock_read_n : ℕ → Sys → Run (Sys × Option (List ℕ))
    unfolding get_abs_time rounds_of nonblock_read_turn
    nonblock_read_n size s =
        let (s', abs_to) = get_abs_time host timeout s in
        rounds_of host size timeout (λ (t : List ℕ). length t)
          (nonblock_read_turn timeout abs_to size) rounds [] s'

    unfoldable pub block_write_n : List ℕ → Sys → Run (Sys × Option ℕ)
    unfolding get_abs_time rounds_of block_write_turn
    block_write_n buf s =
        let (s', abs_to) = get_abs_time host timeout s in
        rounds_of host (length buf) timeout (λ (n : ℕ). n) (block_write_turn timeout abs_to buf)
          rounds 0 s'

    unfoldable pub nonblock_write_n : List ℕ → Sys → Run (Sys × Option ℕ)
    unfolding get_abs_time rounds_of nonblock_write_turn
    nonblock_write_n buf s =
        let (s', abs_to) = get_abs_time host timeout s in
        rounds_of host (length buf) timeout (λ (n : ℕ). n) (nonblock_write_turn timeout abs_to buf)
          rounds 0 s'

    -- The answer of `is_nonblock` chooses the loop.
    unfoldable pub by_mode :
        {A : Type 0}
        → (Sys → Run (Sys × Option A))
        → (Sys → Run (Sys × Option A))
        → Sys × Option Bool
        → Run (Sys × Option A)
    by_mode block nonblock (s, none) = ret (s, none)
    by_mode block nonblock (s, some true) = nonblock s
    by_mode block nonblock (s, some false) = block s

    unfoldable pub read_n : FdBlock → ℕ → Sys → Run (Sys × Option (List ℕ))
    unfolding is_nonblock by_mode block_read_n nonblock_read_n
    read_n block_type size s =
        by_mode (block_read_n size) (nonblock_read_n size) (is_nonblock host fd block_type s)

    unfoldable pub write_n : FdBlock → List ℕ → Sys → Run (Sys × Option ℕ)
    unfolding is_nonblock by_mode block_write_n nonblock_write_n
    write_n block_type buf s =
        by_mode (block_write_n buf) (nonblock_write_n buf) (is_nonblock host fd block_type s)
