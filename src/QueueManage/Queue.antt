-- ===== src/QueueManage/Queue.antt =====
-- source/mq_queue_manage.c: `mq_qm_push_item` and `mq_qm_pop_item` on a queue whose messages lie in
-- one data file.
use ucmq.Prelude.{
  ℕ, suc, ◌+◌, ◌≤◌, ◌<◌, ◌≡◌, refl, sym, subst, true, false, ◌||◌, List, [], ◌∷◌, ◌++◌, arith,
  length, ◌==◌, if◌then◌else◌, either_way,
}
use ucmq.Prelude.Run.{ret}
use ucmq.Config.{UcmqConf, max_db_file_size}
use ucmq.Types.{MqQueue}
use ucmq.Os.{Os, IsLawful}
use ucmq.StoreRtag.{rtag_write_item}
use ucmq.StoreMsg.Layout.{Entry, IsEntry, item_of}
use ucmq.StoreManage.GetData.{too_early, taken}
use ucmq.StoreManage.Fifo.{Laid, Represents}
use ucmq.StoreManage.Put.{stored, appended, put_data_fits, appended-Represents}
use ucmq.StoreManage.Get.{get_data_first, get_data_waits, taken-Represents}
use ucmq.QueueManage.{
  put_ok, full, wlock, get_ok, get_end, is_full, is_wlocked, positive_int, db_sync, count_sync,
  pushed, push_item, popped, pop_item,
}

module _ (os : Os) (conf : UcmqConf) (law : IsLawful os) (m : ℕ) where
  -- A call that leaves memory alone keeps the messages.
  Represents-moved :
      (s s' : os.Sys) (q : MqQueue) (es : List Entry)
      → os.load s' m ≡ os.load s m
      → os.mapped s' m ≡ os.mapped s m
      → Represents os conf m s q es
      → Represents os conf m s' q es
  Represents-moved s s' q es same_load same_mapped r = record {
    small = r.small;
    same_file = r.same_file;
    read_map = r.read_map;
    write_map = r.write_map;
    all_mapped = subst (λ n. max_db_file_size conf ≤ n) (sym same_mapped) r.all_mapped;
    after_head = r.after_head;
    within = r.within;
    laid = subst (λ mem. Laid mem q.cur_rdb.pos es q.cur_wdb.pos) (sym same_load) r.laid;
  }

  rtag_write_item-Represents :
      (s : os.Sys) (q : MqQueue) (es : List Entry)
      → Represents os conf m s q es
      → Represents os conf m (rtag_write_item os q s).0 q es
  unfolding rtag_write_item
  rtag_write_item-Represents s q es r =
      Represents-moved s (rtag_write_item os q s).0 q es (law.load_write s q.rtag_fd _ m)
        (law.mapped_write s q.rtag_fd _ m) r

  db_sync-Represents :
      (s : os.Sys) (q p : MqQueue) (es : List Entry)
      → Represents os conf m s q es
      → Represents os conf m (db_sync os conf p s) q es
  unfolding db_sync
  db_sync-Represents s q p es r =
      Represents-moved s (db_sync os conf p s) q es
        (law.load_msync s p.cur_wdb.map_mem p.cur_wdb.pos m)
        (law.mapped_msync s p.cur_wdb.map_mem p.cur_wdb.pos m) r

  -- What the counter of synchronisations leaves as it is.
  abbrev pub Synced : MqQueue → MqQueue → Type 0
  Synced q q' =
      (q'.unread_count ≡ q.unread_count)
      × (q'.maxque ≡ q.maxque)
      × (q'.delay ≡ q.delay)
      × (q'.wlock ≡ q.wlock)
      × (q'.cur_wdb.pos ≡ q.cur_wdb.pos)

  Represents-synced :
      (s : os.Sys) (q : MqQueue) (n : ℕ) (es : List Entry)
      → Represents os conf m s q es
      → Represents os conf m s (record q { sync_intv = n }) es
  Represents-synced s q n es r = record {
    small = r.small;
    same_file = r.same_file;
    read_map = r.read_map;
    write_map = r.write_map;
    all_mapped = r.all_mapped;
    after_head = r.after_head;
    within = r.within;
    laid = r.laid;
  }

  count_sync-Represents :
      (s : os.Sys) (q : MqQueue) (es : List Entry)
      → Represents os conf m s q es
      → Represents os conf m (count_sync os conf q s).0 (count_sync os conf q s).1 es
        × Synced q (count_sync os conf q s).1
  unfolding count_sync
  count_sync-Represents s q es r =
      either_way Good (positive_int q.sync_intv)
        (either_way Good (q.sync_intv == 1)
          (
            Represents-synced (db_sync os conf q s) q _ es (db_sync-Represents s q q es r),
            (refl, refl, refl, refl, refl),
          )
          (Represents-synced s q _ es r, (refl, refl, refl, refl, refl)))
        (r, (refl, refl, refl, refl, refl))
    where
      Good : os.Sys × MqQueue → Type 0
      Good (s', q') = Represents os conf m s' q' es × Synced q q'

  -- A queue that is full, or else locked, refuses the message with that answer, and neither the
  -- queue nor the system changes.
  pub push_item_refused :
      (now : ℕ) (body : List ℕ) (q : MqQueue) (s : os.Sys)
      → (is_full q || is_wlocked q now) ≡ true
      → push_item os conf now body q s ≡ ret (s, q, if is_full q then full else wlock)
  unfolding push_item
  push_item_refused now body q s h = ground arith

  -- A message of one byte or more, below 2 ^ 31, is put into a queue that is neither full nor
  -- locked and whose file has room for it: the call succeeds, the message is the last one in the
  -- queue then, and the count of unread messages, the settings and the write position are those of
  -- an appended message.
  pub push_item-Represents :
      (now : ℕ) (body : List ℕ) (q : MqQueue) (s : os.Sys) (es : List Entry)
      → Represents os conf m s q es
      → IsEntry (record { time = now; body = body })
      → 0 < length body
      → q.cur_wdb.pos + (12 + length body) ≤ max_db_file_size conf
      → is_full q ≡ false
      → is_wlocked q now ≡ false
      → (s' : os.Sys) × (q' : MqQueue) × (push_item os conf now body q s ≡ ret (s', q', put_ok))
        × Represents os conf m s' q' (es ++ record { time = now; body = body } ∷ [])
        × Synced (appended q (record { time = now; body = body })) q'
  unfolding push_item pushed
  push_item-Represents now body q s es r v n room open_ unlocked = (
    after.0,
    after.1,
    ground (arith, open_, unlocked, put_data_fits os conf m s q es e r v room 0),
    good.0,
    good.1,
  )
    where
      e : Entry
      e = record { time = now; body = body }

      put : os.Sys
      put = stored os conf m s q es e r v room

      after : os.Sys × MqQueue
      after = count_sync os conf (appended q e) (rtag_write_item os (appended q e) put).0

      good : Represents os conf m after.0 after.1 (es ++ e ∷ []) × Synced (appended q e) after.1
      good =
          count_sync-Represents (rtag_write_item os (appended q e) put).0 (appended q e)
            (es ++ e ∷ [])
            (rtag_write_item-Represents put (appended q e) (es ++ e ∷ [])
              (appended-Represents os conf m s q es e r v room law n))

  -- The first message of a queue that counts at least one comes out if its delay is over: the call
  -- gives it with its time, checksum, length and body, and the queue holds the others then.
  pub pop_item-Represents :
      (fuel now : ℕ) (q : MqQueue) (s : os.Sys) (e : Entry) (es : List Entry)
      → Represents os conf m s q (e ∷ es)
      → 0 < q.unread_count
      → too_early now q (item_of e) ≡ false
      → (s' : os.Sys) × (pop_item os conf (suc fuel) now q s
          ≡ ret (s', taken (item_of e) q, get_ok (item_of e)))
        × Represents os conf m s' (taken (item_of e) q) es
  unfolding pop_item popped
  pop_item-Represents fuel now q s e es r unread due = (
    (rtag_write_item os (taken (item_of e) q) s).0,
    ground (arith, get_data_first os conf m s q fuel now e es r due),
    rtag_write_item-Represents s (taken (item_of e) q) es
        (taken-Represents os conf m s q fuel now e es r),
  )

  pub pop_item_waits :
      (fuel now : ℕ) (q : MqQueue) (s : os.Sys) (e : Entry) (es : List Entry)
      → Represents os conf m s q (e ∷ es)
      → too_early now q (item_of e) ≡ true
      → pop_item os conf (suc fuel) now q s ≡ ret (s, q, get_end)
  unfolding pop_item popped
  pop_item_waits fuel now q s e es r early =
      ground (arith, get_data_waits os conf m s q fuel now e es r early)
