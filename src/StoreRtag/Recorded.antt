-- ===== src/StoreRtag/Recorded.antt =====
-- source/mq_store_rtag.c, source/file.c: a record that `write_n` appends is the one that
-- `mq_sm_rtag_read_item` finds.
use ucmq.Prelude.{ℕ, suc, ◌≤◌, ◌≡◌, ap, ◌∙◌, Bool, true, false, ◌==◌, Option, some, arith, length}
use ucmq.Prelude.Run.{ret}
use ucmq.Types.{MqQueue}
use ucmq.Os.{TailRead}
use ucmq.Io.{Host, FdBlock, is_nonblock}
use ucmq.Io.Transfer.{write_n}
use ucmq.Io.Prefix.{Appends}
use ucmq.Io.Ready.{IsReady, HasTime, write_n_ready}
use ucmq.StoreRtag.{check_rtag_item, rtag_item, read_item}
use ucmq.StoreRtag.RoundTrip.{FieldsFit, restored}
use ucmq.StoreRtag.Recovery.{file_tail, length-rtag_item, read_item_last}

-- A descriptor that is ready, with time left for so many writes as there may be rounds, 61 or
-- more, takes the whole record of a queue within these rounds, whatever the file holds, and
-- `mq_sm_rtag_read_item` on the file it leaves gives the positions and the settings of that
-- queue back in one round or more, where its fields have 32 bits and pass the check. The
-- descriptor is ready where its mode is known, the time-out is not 0, and every call takes at
-- least one byte, with room.
pub write_n-read_item :
    (host : Host) (fd : Option ℕ) (timeout : ℕ) (file : Appends host fd)
    (ready : IsReady host fd timeout) (fuel rounds : ℕ) (block_type : FdBlock) (s : host.Sys)
    (mode : Bool) (max dm dd tail_fuel : ℕ) (read_tail : host.Sys → ℕ → TailRead) (q q0 : MqQueue)
    → (is_nonblock host fd block_type s).1 ≡ some mode
    → (timeout == 0) ≡ false
    → 61 ≤ rounds
    → HasTime host fd timeout ready rounds (is_nonblock host fd block_type s).0
    → ((s' : host.Sys) (i : ℕ) → read_tail s' i ≡ file_tail (file.written s') i)
    → FieldsFit q
    → check_rtag_item max q ≡ true
    → (s' : host.Sys) × (write_n host (suc fuel) fd rounds timeout block_type (rtag_item q) s
        ≡ ret (s', some 61))
      × (read_item max dm dd (read_tail s') (suc tail_fuel) q0 ≡ some (restored q0 q, true))
write_n-read_item host fd timeout file ready fuel rounds block_type s mode max dm dd tail_fuel
      read_tail q q0 known wait enough left reads fits checks =
    let size : length (rtag_item q) ≡ 61 = length-rtag_item q fits in
    let (s', runs, text) =
      write_n_ready host fd timeout file ready fuel rounds block_type (rtag_item q) s mode known
        wait (omega (arith, size)) (omega (arith, size)) left in
    (
      s',
      runs ∙ ap (λ n. ret (s', some n)) size,
      read_item_last max dm dd (read_tail s') tail_fuel (file.written s) q q0
          (λ i. reads s' i ∙ ap (λ t. file_tail t i) text) fits checks,
    )
