-- ===== src/Tests/Rolls.antt =====
-- source/mq_store_file.c, source/mq_store_msg.c: the tests of a queue that goes over to its next file.
use ucmq.Prelude.{ℕ, ltb, ◌≡◌, refl, some, true, false, [], ◌∷◌, arith}
use ucmq.Prelude.Bytes.{add64, Holds-poke}
use ucmq.Prelude.Run.{ret}
use ucmq.Types.{MqQueue, DbMap}
use ucmq.StoreMsg.{msg_bytes}
use ucmq.StoreMsg.Layout.{Entry, IsEntry, item_of}
use ucmq.StoreFile.{gen_data_full_path_by_qname_index, open_db_file, get_storage_free}
use ucmq.StoreManage.{put_data}
use ucmq.StoreManage.GetData.{too_early, taken, get_data}
use ucmq.StoreManage.Fifo.{Represents}
use ucmq.StoreManage.Put.{appended}
use ucmq.StoreManage.TwoFiles.{TwoFiles}
use ucmq.StoreManage.Switch.{switched, get_data_switches}
use ucmq.StoreManage.NextFile.{head_put, entered}
use ucmq.StoreManage.Rollover.{put_data_rolls_over}
use ucmq.StoreManage.Through.{put_data-get_data}
use ucmq.Tests.World.{world, world-IsLawful, world-KeepsMaps, conf, db, queue, blank}

abbrev entry : Entry
entry = record { time = 0; body = 7 ∷ [] }

entry-IsEntry : IsEntry entry
entry-IsEntry = record { time_fits = omega arith; bytes = (omega arith, tt); short = omega arith }

-- Ten bytes are left.
abbrev full_db : DbMap
full_db = record db { pos = 1048566 }

abbrev full_queue : MqQueue
full_queue = record queue { cur_rdb = full_db; cur_wdb = full_db }

full_queue-Represents : Represents world conf 0 blank full_queue []
full_queue-Represents = record {
  small = omega arith;
  same_file = refl;
  read_map = refl;
  write_map = refl;
  all_mapped = omega arith;
  after_head = omega arith;
  within = omega arith;
  laid = refl;
}

opened :
    open_db_file world conf
      (gen_data_full_path_by_qname_index conf full_queue.qname (add64 1 1))
      true
      (head_put world conf blank 0 0)
    ≡ (head_put world conf blank 0 0, some 3, some 1)
unfolding open_db_file
opened = refl

spacious : ltb (get_storage_free world conf (head_put world conf blank 0 0)) 1 ≡ false
unfolding get_storage_free
spacious = refl

put_data_rolls_over_example :
    (s' : world.Sys) × (put_data world conf (item_of entry) full_queue blank
      ≡ ret (s', appended (entered full_queue (some 3) 1) entry, true))
    × TwoFiles world conf 0 1 s' (appended (entered full_queue (some 3) 1) entry) [] (entry ∷ [])
put_data_rolls_over_example =
    put_data_rolls_over world conf 0 1 blank full_queue [] entry full_queue-Represents
      (head_put world conf blank 0 0) (some 3) (omega arith) opened spacious (omega arith)
      (omega arith) (omega arith) world-IsLawful (omega arith) refl refl (λ i a b. omega arith)
      entry-IsEntry (omega arith) (omega arith) (item_of entry).crc16

-- A blank file that is read near its end, and a file with one message that is written.
abbrev two_queue : MqQueue
two_queue = record queue {
  cur_rdb = record db { pos = 1048560 };
  cur_wdb = record db { pos = 141; map_mem = some 1; cur_index = 2 };
}

abbrev two_files : world.Sys
two_files = world.store blank 1 128 (msg_bytes (item_of entry))

two_queue-TwoFiles : TwoFiles world conf 0 1 two_files two_queue [] (entry ∷ [])
two_queue-TwoFiles = record {
  small = omega arith;
  next_index = refl;
  not_last = omega arith;
  apart = omega arith;
  read_map = refl;
  write_map = refl;
  read_mapped = omega arith;
  write_mapped = omega arith;
  after_head = omega arith;
  within = omega arith;
  stop = 1048560;
  stop_within = omega arith;
  laid_read = refl;
  blank = λ i a b. omega arith;
  laid_write =
      (entry-IsEntry, omega arith, Holds-poke (blank 1) 128 (msg_bytes (item_of entry)), refl);
}

due : too_early 0 two_queue (item_of entry) ≡ false
unfolding too_early
due = refl

get_data_switches_example :
    (s' : world.Sys) × (get_data world conf 6 0 two_queue two_files
      ≡ ret (s', taken (item_of entry) (switched two_queue 3), some (item_of entry)))
    × Represents world conf 1 s' (taken (item_of entry) (switched two_queue 3)) []
get_data_switches_example =
    get_data_switches world conf world-IsLawful world-KeepsMaps 0 1 two_files two_queue 0 0 3 entry
      [] two_queue-TwoFiles refl due

full_due : too_early 0 full_queue (item_of entry) ≡ false
unfolding too_early
full_due = refl

put_data-get_data_example :
    (s' : world.Sys) × (s'' : world.Sys) × (n : ℕ) × (put_data world conf
        (item_of entry)
        full_queue
        blank
      ≡ ret (s', appended (entered full_queue (some 3) 1) entry, true))
    × (get_data world conf 2 0 (appended (entered full_queue (some 3) 1) entry) s'
        ≡ ret (
          s'',
          taken (item_of entry) (switched (appended (entered full_queue (some 3) 1) entry) n),
          some (item_of entry),
        ))
    × Represents world conf 1 s''
        (taken (item_of entry) (switched (appended (entered full_queue (some 3) 1) entry) n))
        []
put_data-get_data_example =
    put_data-get_data world conf world-IsLawful world-KeepsMaps 0 1 blank full_queue entry
      full_queue-Represents (λ i a b. omega arith) entry-IsEntry (omega arith) (omega arith)
      (omega arith) (omega arith) (omega arith) spacious (omega arith)
      (head_put world conf blank 0 0) (some 3) opened (omega arith) refl refl (λ t. (3, refl)) 0 0
      (item_of entry).crc16 full_due
