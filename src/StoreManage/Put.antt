-- ===== src/StoreManage/Put.antt =====
-- source/mq_store_manage.c: `mq_sm_put_data` where the message fits the write file.
use ucmq.Prelude.{ℕ, ◌+◌, ◌≤◌, ◌<◌, ◌≡◌, ap, true, some, List, [], ◌∷◌, ◌++◌, arith, length, get_or}
use ucmq.Prelude.Bytes.{add32, add64, poke, Holds-poke, read_bytes-get_or}
use ucmq.Prelude.Run.{ret}
use ucmq.Config.{UcmqConf, max_db_file_size}
use ucmq.Types.{MqQueue}
use ucmq.Os.{Os, IsLawful}
use ucmq.Crc16.{crc16_append}
use ucmq.StoreMsg.{msg_bytes, build_msg_crc16}
use ucmq.StoreMsg.Layout.{Entry, IsEntry, item_of}
use ucmq.StoreFile.WriteMsg.{append_msg, write_msg}
use ucmq.StoreManage.{put_data}
use ucmq.StoreManage.Fifo.{size, Laid-poke, Laid-snoc, Represents}

-- The counters and the write position after a put.
abbrev pub appended : MqQueue → Entry → MqQueue
appended q e = record q {
  cur_wdb = record (q.cur_wdb) {
    pos = q.cur_wdb.pos + size e;
    opt_count = add32 q.cur_wdb.opt_count 1;
  };
  put_num = add64 q.put_num 1;
}

pub own_crc :
    (e : Entry)
    → IsEntry e
    → build_msg_crc16 (λ i. get_or e.body i 0) 0 (length e.body) ≡ some (crc16_append e.body)
unfolding build_msg_crc16
own_crc e v = ground (
  arith,
  v.short,
  read_bytes-get_or e.body (λ i. get_or e.body i 0) 0
      (λ i l. ap (λ k. get_or e.body k 0) (omega arith)),
)

module _ (os : Os) (conf : UcmqConf) (m : ℕ) (s : os.Sys) (q : MqQueue) (es : List Entry)
    (e : Entry) (r : Represents os conf m s q es) (v : IsEntry e)
    (room : q.cur_wdb.pos + size e ≤ max_db_file_size conf) where
  abbrev pub stored : os.Sys
  stored = os.store s m q.cur_wdb.pos (msg_bytes (item_of e))

  append_fits : append_msg os conf q (item_of e) s ≡ ret (stored, appended q e, true)
  unfolding append_msg
  append_fits = ground (arith, r.write_map, r.all_mapped, r.small)

  write_fits : write_msg os conf q (item_of e) s ≡ append_msg os conf q (item_of e) s
  unfolding write_msg
  write_fits = ground (arith, r.small)

  pub put_data_fits :
      (crc16 : ℕ)
      → put_data os conf (record (item_of e) { crc16 = crc16 }) q s
        ≡ ret (stored, appended q e, true)
  unfolding put_data
  put_data_fits crc16 = ground (arith, own_crc e v, write_fits, append_fits)

  pub appended-Represents :
      IsLawful os → 0 < length e.body → Represents os conf m stored (appended q e) (es ++ e ∷ [])
  appended-Represents law n = record {
    small = r.small;
    same_file = r.same_file;
    read_map = r.read_map;
    write_map = r.write_map;
    all_mapped = rw law.mapped_store r.all_mapped;
    after_head = r.after_head;
    within = room;
    laid = rw law.load_store (
        Laid-snoc (poke (os.load s m) q.cur_wdb.pos (msg_bytes (item_of e))) q.cur_rdb.pos es
          q.cur_wdb.pos e
          (Laid-poke (os.load s m) q.cur_rdb.pos es q.cur_wdb.pos (msg_bytes (item_of e)) r.laid) v
          n (Holds-poke (os.load s m) q.cur_wdb.pos (msg_bytes (item_of e))));
  }
