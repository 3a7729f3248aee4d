-- ===== src/StoreManage/Rollover.antt =====
-- source/mq_store_msg.c, source/mq_store_file.c: a put that does not fit the write file, where that is
-- the read file too, goes to the next file.
use ucmq.Prelude.{
  ℕ, ◌+◌, ◌≤◌, ◌<◌, ◌≡◌, ◌≢◌, refl, sym, ap, subst, ◌∙◌, true, false, Option, some, List, [], ◌∷◌,
  arith, length, ltb, if◌then◌else◌,
}
use ucmq.Prelude.Bytes.{add32, add64, u32_mod, u64_mod, poke, poke_above, Holds, Holds-poke}
use ucmq.Prelude.Run.{ret, ◌>>=◌}
use ucmq.Config.{UcmqConf, max_db_file_size}
use ucmq.Types.{MqQueue, db_file_head_len}
use ucmq.Os.{Os, IsLawful}
use ucmq.StoreMsg.{msg_bytes, file_head_bytes}
use ucmq.StoreMsg.Layout.{Entry, IsEntry, item_of}
use ucmq.StoreRtag.{rtag_write_item}
use ucmq.StoreFile.{
  write_file_head, open_db_file, get_storage_free, gen_data_full_path_by_qname_index,
  get_next_write_file, enter_write_file, leave_write_file,
}
use ucmq.StoreFile.WriteMsg.{append_msg, append_if, write_msg}
use ucmq.StoreManage.{put_data}
use ucmq.StoreManage.Fifo.{size, Laid, Laid-le, Laid-poke_below, Represents}
use ucmq.StoreManage.Put.{own_crc, appended}
use ucmq.StoreManage.TwoFiles.{Blank, TwoFiles}
use ucmq.StoreManage.NextFile.{
  length-file_head_bytes, entered, copied, head_put, head_fits, created_file, new_file,
}

module _ (os : Os) (conf : UcmqConf) (m k : ℕ) (s : os.Sys) (q : MqQueue) (es : List Entry)
    (e : Entry) (r : Represents os conf m s q es) (s2 : os.Sys) (fd : Option ℕ)
    (counted : q.cur_wdb.opt_count < u32_mod)
    (opens : open_db_file os conf
        (gen_data_full_path_by_qname_index conf q.qname (add64 q.cur_wdb.cur_index 1))
        true
        (head_put os conf s m q.cur_wdb.opt_count)
      ≡ (s2, fd, some k))
    (space : ltb
        (get_storage_free os conf (head_put os conf s m q.cur_wdb.opt_count))
        conf.res_store_space
      ≡ false)
    (new_mapped : max_db_file_size conf ≤ os.mapped s2 k)
    (fits_new : db_file_head_len + size e ≤ max_db_file_size conf)
    (full : max_db_file_size conf < q.cur_wdb.pos + size e) where
  abbrev headed : os.Sys
  headed = head_put os conf s2 k 0

  abbrev recorded : os.Sys
  recorded = (rtag_write_item os (entered q fd k) headed).0

  abbrev pub rolled : os.Sys
  rolled = os.store recorded k db_file_head_len (msg_bytes (item_of e))

  entered_new :
      enter_write_file os conf
        (add64 q.cur_wdb.cur_index 1)
        (record q { cur_wdb = record (q.cur_wdb) { fd = fd; map_mem = some k } })
        s2
      ≡ ret (recorded, entered q fd k, true)
  unfolding enter_write_file
  entered_new =
      ap (λ x. x >>= λ s'. ret ((rtag_write_item os (entered q fd k) s').0, entered q fd k, true))
        (head_fits os conf k (entered q fd k) s2 refl (omega arith)
          (omega (arith, new_mapped, fits_new)))

  stays :
      leave_write_file os conf q (head_put os conf s m q.cur_wdb.opt_count)
      ≡ (head_put os conf s m q.cur_wdb.opt_count, q)
  unfolding leave_write_file
  stays = ground (arith, r.same_file)

  next_write :
      get_next_write_file os conf q (head_put os conf s m q.cur_wdb.opt_count)
      ≡ ret (recorded, entered q fd k, true)
  next_write =
      new_file os conf q (head_put os conf s m q.cur_wdb.opt_count) stays space
      ∙ created_file os conf _ _ q (head_put os conf s m q.cur_wdb.opt_count) s2 fd k opens
      ∙ entered_new

  mapped_recorded : IsLawful os → os.mapped recorded k ≡ os.mapped s2 k
  unfolding rtag_write_item
  mapped_recorded law =
      law.mapped_write _ _ _ k
      ∙ law.mapped_msync _ _ _ k
      ∙ law.mapped_store s2 k k 0 (file_head_bytes 0)

  load_recorded : IsLawful os → m ≢ k → os.load recorded m ≡ os.load s2 m
  unfolding rtag_write_item
  load_recorded law apart =
      law.load_write _ _ _ m
      ∙ law.load_msync _ _ _ m
      ∙ law.load_store_ne s2 k m 0 (file_head_bytes 0) (λ p. apart (sym p))

  abbrev ended : ℕ → MqQueue
  ended p = record (appended (entered q fd k) e) {
    cur_wdb = record ((appended (entered q fd k) e).cur_wdb) { pos = p };
  }

  append_new :
      IsLawful os
      → append_msg os conf (entered q fd k) (item_of e) recorded
        ≡ ret (rolled, appended (entered q fd k) e, true)
  unfolding append_msg
  append_new law =
      ap
        (λ x. x >>= λ s'. ret (s', ended (add32 db_file_head_len (add32 (length e.body) 12)), true))
        (copied os conf k db_file_head_len (msg_bytes (item_of e)) recorded
          (omega (arith, mapped_recorded law, new_mapped, fits_new)))
      ∙ ap (λ p. ret (rolled, ended p, true)) (omega (arith, fits_new, r.small))

  write_rolls :
      IsLawful os
      → write_msg os conf q (item_of e) s ≡ ret (rolled, appended (entered q fd k) e, true)
  unfolding write_msg append_if
  write_rolls law =
      ap
        (λ b.
          if b
          then (write_file_head os conf q s >>= λ s'.
              get_next_write_file os conf q s' >>= append_if os conf (item_of e))
          else append_msg os conf q (item_of e) s)
        {x = ltb (max_db_file_size conf) (add32 (add32 q.cur_wdb.pos (length e.body)) 12)}
        {y = true} (ground (arith, full, r.within, r.small, fits_new))
      ∙ ap (λ x. x >>= λ s'. get_next_write_file os conf q s' >>= append_if os conf (item_of e))
          (head_fits os conf m q s r.write_map counted (omega (arith, r.all_mapped, fits_new)))
      ∙ ap (λ x. x >>= append_if os conf (item_of e)) next_write
      ∙ append_new law

  pub put_data_rolls :
      IsLawful os
      → IsEntry e
      → (crc16 : ℕ)
      → put_data os conf (record (item_of e) { crc16 = crc16 }) q s
        ≡ ret (rolled, appended (entered q fd k) e, true)
  unfolding put_data
  put_data_rolls law v crc16 = ground (arith, own_crc e v, write_rolls law)

  module _ (law : IsLawful os) (apart : m ≢ k)
      (old_load : os.load s2 m ≡ os.load (head_put os conf s m q.cur_wdb.opt_count) m)
      (old_mapped : os.mapped s2 m ≡ os.mapped (head_put os conf s m q.cur_wdb.opt_count) m) where
    old_file : os.load rolled m ≡ poke (os.load s m) 0 (file_head_bytes q.cur_wdb.opt_count)
    old_file =
        law.load_store_ne recorded k m db_file_head_len (msg_bytes (item_of e)) (λ p. apart (sym p))
        ∙ load_recorded law apart
        ∙ old_load
        ∙ law.load_msync _ _ _ m
        ∙ law.load_store s m 0 (file_head_bytes q.cur_wdb.opt_count)

    old_room : os.mapped rolled m ≡ os.mapped s m
    unfolding rtag_write_item
    old_room =
        law.mapped_store _ _ m _ _
        ∙ law.mapped_write _ _ _ m
        ∙ law.mapped_msync _ _ _ m
        ∙ law.mapped_store _ _ m _ _
        ∙ old_mapped
        ∙ law.mapped_msync _ _ _ m
        ∙ law.mapped_store s m m 0 _

    new_room : os.mapped rolled k ≡ os.mapped s2 k
    new_room = law.mapped_store _ _ k _ _ ∙ mapped_recorded law

    pub rolled-TwoFiles :
        Blank (os.load s m) q.cur_wdb.pos (max_db_file_size conf)
        → IsEntry e
        → 0 < length e.body
        → q.cur_wdb.cur_index + 2 < u64_mod
        → TwoFiles os conf m k rolled (appended (entered q fd k) e) es (e ∷ [])
    rolled-TwoFiles blank v n last = record {
      small = r.small;
      next_index = omega (arith, r.same_file);
      not_last = omega arith;
      apart = apart;
      read_map = r.read_map;
      write_map = refl;
      read_mapped = omega (arith, old_room, r.all_mapped);
      write_mapped = omega (arith, new_room, new_mapped);
      after_head = r.after_head;
      within = fits_new;
      stop = q.cur_wdb.pos;
      stop_within = r.within;
      laid_read =
          subst (λ mem. Laid mem q.cur_rdb.pos es q.cur_wdb.pos) (sym old_file)
            (Laid-poke_below (os.load s m) q.cur_rdb.pos es q.cur_wdb.pos 0
              (file_head_bytes q.cur_wdb.opt_count)
              (omega (arith, length-file_head_bytes q.cur_wdb.opt_count counted, r.after_head))
              r.laid);
      blank = λ i a b x. blank i a b (
          sym (
            ap (λ f. f i) old_file
            ∙ poke_above (os.load s m) 0 (file_head_bytes q.cur_wdb.opt_count) i (
                omega (
                  arith,
                  length-file_head_bytes q.cur_wdb.opt_count counted,
                  r.after_head,
                  Laid-le (os.load s m) q.cur_rdb.pos es q.cur_wdb.pos r.laid,
                )))
          ∙ x);
      laid_write = (
        v,
        n,
        subst (λ mem. Holds mem db_file_head_len (msg_bytes (item_of e)))
            (sym (law.load_store recorded k db_file_head_len (msg_bytes (item_of e))))
            (Holds-poke (os.load recorded k) db_file_head_len (msg_bytes (item_of e))),
        refl,
      );
    }

    -- A put that does not fit the rest of the one file that a queue reads and writes, where no
    -- message begins behind the write position, goes to the next file, if there is storage, the
    -- file opens and the message fits it: the call succeeds, and the queue then has its old
    -- entries in the read file and the message in the new write file, each byte of the old entries
    -- as it was.
    pub put_data_rolls_over :
        Blank (os.load s m) q.cur_wdb.pos (max_db_file_size conf)
        → IsEntry e
        → 0 < length e.body
        → q.cur_wdb.cur_index + 2 < u64_mod
        → (crc16 : ℕ)
        → (s' : os.Sys) × (put_data os conf (record (item_of e) { crc16 = crc16 }) q s
            ≡ ret (s', appended (entered q fd k) e, true))
          × TwoFiles os conf m k s' (appended (entered q fd k) e) es (e ∷ [])
    put_data_rolls_over blank v n last crc16 =
        (rolled, put_data_rolls law v crc16, rolled-TwoFiles blank v n last)
