-- ===== src/Tests/Queues.antt =====
-- source/mq_queue_manage.c, source/mq_store_manage.c: a small queue.
use ucmq.Prelude.{
  ℕ, ◌≡◌, ◌⊎◌, refl, false, ◌||◌, some, List, [], ◌∷◌, arith, ltb, ◌==◌, if◌then◌else◌, ◌+◌,
}
use ucmq.Prelude.Bytes.{Memory, poke}
use ucmq.Prelude.Run.{ret}
use ucmq.Types.{MqQueue}
use ucmq.StoreMsg.{msg_bytes}
use ucmq.StoreMsg.Layout.{Entry, IsEntry, item_of}
use ucmq.StoreManage.GetData.{get_data, too_early, taken}
use ucmq.StoreManage.Fifo.{Represents}
use ucmq.StoreManage.Put.{appended, appended-Represents}
use ucmq.StoreManage.Ends.{OneFile, Ended, get_data_ends}
use ucmq.QueueManage.{
  put_ok, full, wlock, get_ok, is_full, is_wlocked, minus_one, push_item, pop_item, set_wlock,
}
use ucmq.QueueManage.Answers.{IsAtBound, IsBelowBound, IsLockedAt, IsOpenAt, push_item-answer}
use ucmq.QueueManage.Queue.{Synced, push_item-Represents, pop_item-Represents}
use ucmq.QueueManage.Locks.{locked_at, set_wlock-is_wlocked}
use ucmq.Http.Trace.{Call, put, get, serve_all, spec_all}
use ucmq.Http.Trace.Steps.{Serves}
use ucmq.Http.Trace.Refine.{serve_all-spec_all}
use ucmq.Tests.World.{world, world-IsLawful, conf, queue, blank, queue-Represents}

abbrev body : List ℕ
body = 7 ∷ 8 ∷ []

abbrev calls : List Call
calls = put 10 body ∷ get 11 ∷ get 12 ∷ []

serve_all-spec_all_example :
    (s' : ℕ → Memory) × (q' : MqQueue) × (serve_all world conf calls (blank, queue)
      ≡ ret ((s', q'), (spec_all 100 0 0 calls []).1))
    × Serves world conf world-IsLawful 0 queue s' q' (spec_all 100 0 0 calls []).0
serve_all-spec_all_example =
    serve_all-spec_all world conf world-IsLawful 0 queue calls blank queue []
      (record {
        represents = queue-Represents;
        unread = refl;
        same_maxque = refl;
        same_wlock = refl;
        same_delay = refl;
      })
      ((omega arith, (omega arith, (omega arith, tt)), omega arith, omega arith), (tt, (tt, tt)))
      (omega arith)

abbrev first : Entry
first = record { time = 10; body = body }

first-IsEntry : IsEntry first
first-IsEntry = record {
  time_fits = omega arith;
  bytes = (omega arith, (omega arith, tt));
  short = omega arith;
}

open_queue : is_full queue ≡ false
unfolding is_full
open_queue = refl

unlocked_queue : is_wlocked queue 10 ≡ false
unfolding is_wlocked
unlocked_queue = refl

push_item-Represents_example :
    (s' : ℕ → Memory) × (q' : MqQueue) × (push_item world conf 10 body queue blank
      ≡ ret (s', q', put_ok))
    × Represents world conf 0 s' q' (first ∷ [])
    × Synced world conf world-IsLawful 0 (appended queue first) q'
push_item-Represents_example =
    push_item-Represents world conf world-IsLawful 0 10 body queue blank [] queue-Represents
      first-IsEntry (omega arith) (omega arith) open_queue unlocked_queue

abbrev locked_queue : MqQueue
locked_queue = record queue { wlock = 50 }

locked_queue-Represents : Represents world conf 0 blank locked_queue []
locked_queue-Represents = record {
  small = omega arith;
  same_file = refl;
  read_map = refl;
  write_map = refl;
  all_mapped = omega arith;
  after_head = omega arith;
  within = omega arith;
  laid = refl;
}

push_item-answer_example :
    (IsAtBound locked_queue
      × (push_item world conf 10 body locked_queue blank ≡ ret (blank, locked_queue, full)))
    ⊎ (IsBelowBound locked_queue
        × IsLockedAt locked_queue 10
        × (push_item world conf 10 body locked_queue blank ≡ ret (blank, locked_queue, wlock)))
    ⊎ (IsBelowBound locked_queue
        × IsOpenAt locked_queue 10
        × ((s' : ℕ → Memory) × (q' : MqQueue) × (push_item world conf 10 body locked_queue blank
              ≡ ret (s', q', put_ok))
            × Represents world conf 0 s' q' (first ∷ [])))
push_item-answer_example =
    push_item-answer world conf world-IsLawful 0 10 body locked_queue blank []
      locked_queue-Represents first-IsEntry (omega arith) (omega arith) (omega arith)

-- The queue with that message in it, counted.
abbrev put_memory : ℕ → Memory
put_memory k = if k == 0 then poke (blank 0) 128 (msg_bytes (item_of first)) else blank k

abbrev put_queue : MqQueue
put_queue = record (appended queue first) { unread_count = 1 }

put_queue-Represents : Represents world conf 0 put_memory put_queue (first ∷ [])
put_queue-Represents =
    let r =
      appended-Represents world conf 0 blank queue [] first queue-Represents first-IsEntry
        (omega arith) world-IsLawful (omega arith) in
    record {
      small = r.small;
      same_file = r.same_file;
      read_map = r.read_map;
      write_map = r.write_map;
      all_mapped = r.all_mapped;
      after_head = r.after_head;
      within = r.within;
      laid = r.laid;
    }

due : too_early 11 put_queue (item_of first) ≡ false
unfolding too_early
due = refl

pop_item-Represents_example :
    (s' : ℕ → Memory) × (pop_item world conf 1 11 put_queue put_memory
      ≡ ret (s', taken (item_of first) put_queue, get_ok (item_of first)))
    × Represents world conf 0 s' (taken (item_of first) put_queue) []
pop_item-Represents_example =
    pop_item-Represents world conf world-IsLawful 0 0 11 put_queue put_memory first []
      put_queue-Represents (omega arith) due

set_wlock-is_wlocked_example :
    locked_at (set_wlock world conf 100 (some queue) 60 blank).1 130
    ≡ (60 == minus_one || ltb 130 (100 + 60))
set_wlock-is_wlocked_example =
    set_wlock-is_wlocked world conf 100 130 60 queue blank (omega arith) refl

-- Eight bytes too many, all zero, are no message.
abbrev damaged_queue : MqQueue
damaged_queue = record queue { cur_wdb = record (queue.cur_wdb) { pos = 148 }; unread_count = 1 }

damaged-OneFile : OneFile world conf 0 10 blank damaged_queue
damaged-OneFile = record {
  small = omega arith;
  same_file = refl;
  not_last = omega arith;
  read_map = refl;
  all_mapped = omega arith;
  within = omega arith;
}

get_data_ends_example : Ended world conf 0 10 blank (get_data world conf 21 10 damaged_queue blank)
get_data_ends_example =
    get_data_ends world conf 0 10 blank 21 damaged_queue damaged-OneFile (omega arith) (omega arith)
      (omega arith)
