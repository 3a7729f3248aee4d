-- ===== src/Tests/Files.antt =====
-- source/mq_store_msg.c, source/mq_store_rtag.c: a message in a file, and records.
use ucmq.Prelude.{
  ℕ, ◌≤◌, ◌<◌, ◌≡◌, refl, true, some, List, [], ◌∷◌, ◌++◌, arith, ◌*◌, ◌+◌, ltb, lt→ltb,
  if◌then◌else◌,
}
use ucmq.Prelude.Bytes.{Memory, poke, Holds-poke}
use ucmq.Types.{MqQueue}
use ucmq.StoreMsg.{ok, parse_msg, msg_bytes, cal_msg_count}
use ucmq.StoreMsg.Layout.{Entry, IsEntry, item_of, parse_msg-msg_bytes}
use ucmq.StoreMsg.Bounds.{parse_msg_agree, parse_msg_fits, cal_msg_count_ends}
use ucmq.StoreRtag.{check_rtag_item, parse_rtag_item, rtag_item, read_item, set_wpos}
use ucmq.StoreRtag.RoundTrip.{FieldsFit, restored, parse_rtag_item-rtag_item}
use ucmq.StoreRtag.Recovery.{file_tail, read_item_torn}
use ucmq.Tests.World.{queue}

abbrev entry : Entry
entry = record { time = 1000; body = 1 ∷ 2 ∷ 3 ∷ [] }

entry-IsEntry : IsEntry entry
entry-IsEntry = record {
  time_fits = omega arith;
  bytes = (omega arith, (omega arith, (omega arith, tt)));
  short = omega arith;
}

abbrev file : Memory
file = poke (λ i. 0) 128 (msg_bytes (item_of entry))

parse_msg-msg_bytes_example : parse_msg 1048576 (some file) 128 ≡ ok (item_of entry)
parse_msg-msg_bytes_example =
    parse_msg-msg_bytes file 128 entry (Holds-poke (λ i. 0) 128 (msg_bytes (item_of entry)))
      entry-IsEntry 1048576 (omega arith) (omega arith) (omega arith)

parse_msg_fits_example : 128 + 12 + 3 ≤ 1048576
parse_msg_fits_example =
    parse_msg_fits 1048576 file 128 {item = item_of entry} (omega arith) (omega arith)
      parse_msg-msg_bytes_example

-- A file, and the same file with other bytes behind it.
abbrev behind : Memory
behind i = if ltb i 1024 then file i else 7

same_inside : (i : ℕ) → i < 1024 → file i ≡ behind i
same_inside i h = ground (arith, lt→ltb i 1024 h)

parse_msg_agree_example : parse_msg 1024 (some file) 128 ≡ parse_msg 1024 (some behind) 128
parse_msg_agree_example =
    parse_msg_agree 1024 file behind 128 (omega arith) same_inside (omega arith)

cal_msg_count_ends_example :
    (k : ℕ) × (cal_msg_count 1048576 file 143 ≡ some k) × (12 * k ≤ 1048576 + 1)
cal_msg_count_ends_example = cal_msg_count_ends 1048576 file 143 (omega arith) (omega arith)

pub queue-FieldsFit : FieldsFit queue
queue-FieldsFit = record {
  rcount_fits = omega arith;
  rpos_fits = omega arith;
  wpos_fits = omega arith;
  maxque_fits = omega arith;
  delay_fits = omega arith;
  wlock_fits = omega arith;
}

pub queue_checks : check_rtag_item 1048576 queue ≡ true
unfolding check_rtag_item
queue_checks = refl

-- The queue of another run.
abbrev pub other : MqQueue
other = record queue { maxque = 5; delay = 9 }

parse_rtag_item-rtag_item_example :
    parse_rtag_item 1048576 other (rtag_item queue) ≡ (restored other queue, true)
parse_rtag_item-rtag_item_example =
    parse_rtag_item-rtag_item queue queue-FieldsFit 1048576 other queue_checks

-- Three digits of the last line were written.
abbrev torn : List ℕ
torn = 48 ∷ 48 ∷ 49 ∷ []

read_item_torn_example :
    read_item 1048576 100 0
      (file_tail ([] ++ (rtag_item queue ++ (rtag_item queue ++ torn))))
      2
      other
    ≡ some (set_wpos (restored other queue) 1048576, true)
read_item_torn_example =
    read_item_torn 1048576 100 0 (file_tail ([] ++ (rtag_item queue ++ (rtag_item queue ++ torn))))
      0 [] torn queue queue other (λ i. refl)
      ((omega arith, omega arith), ((omega arith, omega arith), ((omega arith, omega arith), tt)))
      (omega arith) (omega arith) queue-FieldsFit queue-FieldsFit queue_checks
