-- ===== src/StoreManage/Get.antt =====
-- source/mq_store_manage.c: `mq_sm_get_data` where the read file is the write file.
use ucmq.Prelude.{
  ℕ, suc, ◌+◌, ◌≤◌, ◌≡◌, refl, subst, true, false, none, some, List, [], ◌∷◌, arith, length,
}
use ucmq.Prelude.Bytes.{add32}
use ucmq.Prelude.Run.{ret}
use ucmq.Config.{UcmqConf, max_db_file_size}
use ucmq.Types.{MqQueue, msg_head_len, db_file_head_len}
use ucmq.Os.{Os}
use ucmq.StoreMsg.{ok}
use ucmq.StoreMsg.Layout.{Entry, item_of, parse_msg-msg_bytes}
use ucmq.StoreManage.GetData.{get_data, get_round, message_at, act, at_end, taken, too_early}
use ucmq.StoreManage.Fifo.{size, Laid, Laid-le, Represents}

-- The queue after a call that found the end.
abbrev pub drained : MqQueue → MqQueue
drained q = record q { cur_rdb = record (q.cur_rdb) { pos = q.cur_wdb.pos }; unread_count = 0 }

module _ (os : Os) (conf : UcmqConf) (m : ℕ) (s : os.Sys) (q : MqQueue) (fuel now : ℕ) where
  -- At the end a get finds nothing, and the read position and the count of unread messages are set.
  pub get_data_empty :
      Represents os conf m s q [] → get_data os conf (suc fuel) now q s ≡ ret (s, drained q, none)
  unfolding get_data get_round at_end
  get_data_empty r = ground (arith, r.laid, r.same_file, r.small, r.within)

  pub drained-Represents : Represents os conf m s q [] → Represents os conf m s (drained q) []
  drained-Represents r = record {
    small = r.small;
    same_file = r.same_file;
    read_map = r.read_map;
    write_map = r.write_map;
    all_mapped = r.all_mapped;
    after_head = subst (λ p. db_file_head_len ≤ p) r.laid r.after_head;
    within = r.within;
    laid = refl;
  }

  module _ (e : Entry) (es : List Entry) (r : Represents os conf m s q (e ∷ es)) where
    ends : q.cur_rdb.pos + size e ≤ q.cur_wdb.pos
    ends = Laid-le (os.load s m) (q.cur_rdb.pos + size e) es q.cur_wdb.pos r.laid.3

    not_at_end : at_end q ≡ false
    unfolding at_end
    not_at_end = ground (arith, ends, r.same_file, r.small, r.within, r.laid.1)

    found : message_at os conf q s ≡ ret (ok (item_of e))
    unfolding message_at
    found = ground (
      arith,
      r.read_map,
      r.all_mapped,
      parse_msg-msg_bytes (os.load s m) q.cur_rdb.pos e r.laid.2 r.laid.0 (max_db_file_size conf)
          r.small (omega (arith, ends, r.within, r.laid.1)) (omega (arith, ends, r.within)),
    )

    round : get_round os conf now q s ≡ ret (act os conf now q s (ok (item_of e)))
    unfolding get_round
    round = ground (arith, not_at_end, found)

    -- The first message is taken once its delay is over.
    pub get_data_first :
        too_early now q (item_of e) ≡ false
        → get_data os conf (suc fuel) now q s ≡ ret (s, taken (item_of e) q, some (item_of e))
    unfolding get_data act
    get_data_first due = ground (arith, round, due)

    -- Until then nothing changes.
    pub get_data_waits :
        too_early now q (item_of e) ≡ true → get_data os conf (suc fuel) now q s ≡ ret (s, q, none)
    unfolding get_data act
    get_data_waits early = ground (arith, round, early)

    pub taken-Represents : Represents os conf m s (taken (item_of e) q) es
    unfolding taken
    taken-Represents = record {
      small = r.small;
      same_file = r.same_file;
      read_map = r.read_map;
      write_map = r.write_map;
      all_mapped = r.all_mapped;
      after_head = omega (arith, r.after_head, ends, r.within, r.small);
      within = r.within;
      laid = subst (λ p. Laid (os.load s m) p es q.cur_wdb.pos) moved r.laid.3;
    }
      where
        moved : q.cur_rdb.pos + size e ≡ add32 q.cur_rdb.pos (add32 (length e.body) msg_head_len)
        moved = omega (arith, ends, r.within, r.small)
