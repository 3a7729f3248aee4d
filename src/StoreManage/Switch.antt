-- ===== src/StoreManage/Switch.antt =====
-- source/mq_store_manage.c, source/mq_store_file.c: the switch from a read
-- file at its end to the file that is written.
use ucmq.Prelude.{
  ℕ, suc, ◌+◌, ◌-◌, ◌≤◌, ◌≡◌, ◌≢◌, refl, sym, ap, subst, ◌∙◌, true, false, Option, some, List, [],
  ◌∷◌, arith, leb, Bool_cases, inl, inr,
}
use ucmq.Prelude.Bytes.{add64}
use ucmq.Prelude.Run.{ret}
use ucmq.Config.{UcmqConf, max_db_file_size}
use ucmq.Types.{MqQueue, db_file_head_len}
use ucmq.Os.{Os, IsLawful, KeepsMaps}
use ucmq.StoreMsg.Layout.{Entry, item_of}
use ucmq.StoreFile.{gen_rtag_full_path_by_qname_index}
use ucmq.StoreFile.ReadFile.{drop_read_files, enter_read_file, switch_read_file, get_next_read_file}
use ucmq.StoreRtag.{rtag_write_item, rtag_open_next_file}
use ucmq.StoreManage.GetData.{taken, too_early, next_file, get_data}
use ucmq.StoreManage.Get.{get_data_first, taken-Represents}
use ucmq.StoreManage.Fifo.{Laid, Represents}
use ucmq.StoreManage.TwoFiles.{TwoFiles, at_pos, moved-TwoFiles, skip_blank, end_round_two}

-- The queue when its write file has become its read file too.
abbrev pub switched : MqQueue → ℕ → MqQueue
switched q n = record q {
  rtag_fd = some n;
  cur_rdb = record (q.cur_rdb) {
    fd = q.cur_wdb.fd;
    flag = 1;
    map_mem = q.cur_wdb.map_mem;
    pos = db_file_head_len;
    opt_count = 0;
    cur_index = q.cur_wdb.cur_index;
  };
}

module _ (os : Os) (conf : UcmqConf) (law : IsLawful os) (keeps : KeepsMaps os) (m k : ℕ) where
  load_unmapped :
      (s : os.Sys) (o : Option ℕ) → m ≢ k → o ≡ some m → os.load (os.munmap s o) k ≡ os.load s k
  load_unmapped s o apart e =
      subst (λ x. os.load (os.munmap s x) k ≡ os.load s k) (sym e) (keeps.load_munmap s m k apart)

  mapped_unmapped :
      (s : os.Sys) (o : Option ℕ) → m ≢ k → o ≡ some m → os.mapped (os.munmap s o) k ≡ os.mapped s k
  mapped_unmapped s o apart e =
      subst (λ x. os.mapped (os.munmap s x) k ≡ os.mapped s k) (sym e)
        (keeps.mapped_munmap s m k apart)

  load-drop_read_files :
      (q : MqQueue) (s : os.Sys)
      → m ≢ k
      → q.cur_rdb.map_mem ≡ some m
      → os.load (drop_read_files os conf q s) k ≡ os.load s k
  unfolding drop_read_files
  load-drop_read_files q s apart e =
      keeps.load_unlink _ _ k
      ∙ keeps.load_close _ _ k
      ∙ load_unmapped _ _ apart e
      ∙ law.load_msync _ _ _ k
      ∙ keeps.load_unlink _ _ k
      ∙ keeps.load_close s q.rtag_fd k

  mapped-drop_read_files :
      (q : MqQueue) (s : os.Sys)
      → m ≢ k
      → q.cur_rdb.map_mem ≡ some m
      → os.mapped (drop_read_files os conf q s) k ≡ os.mapped s k
  unfolding drop_read_files
  mapped-drop_read_files q s apart e =
      keeps.mapped_unlink _ _ k
      ∙ keeps.mapped_close _ _ k
      ∙ mapped_unmapped _ _ apart e
      ∙ law.mapped_msync _ _ _ k
      ∙ keeps.mapped_unlink _ _ k
      ∙ keeps.mapped_close s q.rtag_fd k

  module _ (s : os.Sys) (q : MqQueue) (fs : List Entry) (n : ℕ)
      (r : TwoFiles os conf m k s q [] fs) where
    next_rtag : List ℕ
    next_rtag = gen_rtag_full_path_by_qname_index conf q.qname (add64 q.cur_rdb.cur_index 1)

    -- The record of the switch and the files that are dropped.
    after_switch : os.Sys
    unfolding next_rtag
    after_switch =
        drop_read_files os conf q
          (rtag_write_item os
            (record q {
              rtag_fd = some n;
              cur_rdb = record (q.cur_rdb) {
                flag = 0;
                cur_index = add64 q.cur_rdb.cur_index 1;
                opt_count = 0;
                pos = db_file_head_len;
              };
            })
            (os.open_file s next_rtag true).0).0

    load-after_switch : os.load after_switch k ≡ os.load s k
    unfolding after_switch rtag_write_item
    load-after_switch =
        load-drop_read_files q _ r.apart r.read_map
        ∙ law.load_write _ _ _ k
        ∙ keeps.load_open_file s next_rtag true k

    mapped-after_switch : os.mapped after_switch k ≡ os.mapped s k
    unfolding after_switch rtag_write_item
    mapped-after_switch =
        mapped-drop_read_files q _ r.apart r.read_map
        ∙ law.mapped_write _ _ _ k
        ∙ keeps.mapped_open_file s next_rtag true k

    next_read_file :
        (os.open_file s next_rtag true).1 ≡ some n
        → get_next_read_file os conf q s ≡ (after_switch, switched q n, true)
    unfolding get_next_read_file switch_read_file enter_read_file rtag_open_next_file after_switch
    next_read_file opens = ground (arith, opens, r.next_index, r.not_last)

    switched-Represents : Represents os conf k after_switch (switched q n) fs
    switched-Represents = record {
      small = r.small;
      same_file = refl;
      read_map = r.write_map;
      write_map = r.write_map;
      all_mapped = subst (λ l. max_db_file_size conf ≤ l) (sym mapped-after_switch) r.write_mapped;
      after_head = omega arith;
      within = r.within;
      laid =
          subst (λ mem. Laid mem db_file_head_len fs q.cur_wdb.pos) (sym load-after_switch)
            r.laid_write;
    }

-- How many bytes of a file are passed over before no head fits.
abbrev gap : ℕ → ℕ → ℕ
gap max p = max - 12 - p

module _ (os : Os) (conf : UcmqConf) (law : IsLawful os) (keeps : KeepsMaps os) (m k : ℕ) where
  module _ (s : os.Sys) (q : MqQueue) (now fuel n : ℕ) (f : Entry) (fs : List Entry)
      (r : TwoFiles os conf m k s q [] (f ∷ fs)) where
    -- The queue at the last position where a head fits.
    last : MqQueue
    last = at_pos q (q.cur_rdb.pos + gap (max_db_file_size conf) q.cur_rdb.pos)

    rpos_within : q.cur_rdb.pos ≤ max_db_file_size conf
    rpos_within = omega (arith, r.laid_read, r.stop_within)

    last-TwoFiles : TwoFiles os conf m k s last [] (f ∷ fs)
    unfolding last
    last-TwoFiles =
        moved-TwoFiles os conf m k s now q (f ∷ fs)
          (q.cur_rdb.pos + gap (max_db_file_size conf) q.cur_rdb.pos) r (omega arith)
          (omega (arith, rpos_within))

    past :
        get_data os conf (gap (max_db_file_size conf) q.cur_rdb.pos + suc (suc fuel)) now q s
        ≡ get_data os conf (suc (suc fuel)) now last s
    unfolding last
    past = elim (Bool_cases (leb (q.cur_rdb.pos + 12) (max_db_file_size conf))) [
      | inl fits ↦
          skip_blank os conf m k s now (gap (max_db_file_size conf) q.cur_rdb.pos) (suc (suc fuel))
            q (f ∷ fs) r (ground arith)
      | inr none_fits ↦
          ap (λ t. get_data os conf t now q s) {y = suc (suc fuel)} (ground arith)
          ∙ ap (λ p. get_data os conf (suc (suc fuel)) now (at_pos q p) s) {x = q.cur_rdb.pos}
              (ground arith)
    ]

    module _
        (opens : (os.open_file s
            (gen_rtag_full_path_by_qname_index conf q.qname (add64 q.cur_rdb.cur_index 1))
            true).1
          ≡ some n) where
      moved_file : os.Sys
      unfolding last
      moved_file = after_switch os conf law keeps m k s last (f ∷ fs) n last-TwoFiles

      round_two :
          get_data os conf (suc (suc fuel)) now last s
          ≡ get_data os conf (suc fuel) now (switched q n) moved_file
      unfolding get_data last next_file next_rtag moved_file
      round_two = ground (
        arith,
        end_round_two os conf m k s now last (f ∷ fs) last-TwoFiles (omega (arith, rpos_within)),
        next_read_file os conf law keeps m k s last (f ∷ fs) n last-TwoFiles opens,
      )

      now_one : Represents os conf k moved_file (switched q n) (f ∷ fs)
      unfolding moved_file last
      now_one = switched-Represents os conf law keeps m k s last (f ∷ fs) n last-TwoFiles

      -- A queue with nothing more in its read file, and at least one entry, due, in the next file,
      -- which is its write file: with enough rounds for the blank rest of the read file, and the
      -- next record file opened, a get switches to that file, gives its first entry, and leaves a
      -- queue in one file that holds the other entries.
      pub get_data_switches :
          too_early now q (item_of f) ≡ false
          → (s' : os.Sys) × (get_data os conf
                (max_db_file_size conf - 12 - q.cur_rdb.pos + suc (suc fuel))
                now
                q
                s
              ≡ ret (s', taken (item_of f) (switched q n), some (item_of f)))
            × Represents os conf k s' (taken (item_of f) (switched q n)) fs
      unfolding too_early
      get_data_switches due = (
        moved_file,
        past
            ∙ round_two
            ∙ get_data_first os conf k moved_file (switched q n) fuel now f fs now_one due,
        taken-Represents os conf k moved_file (switched q n) fuel now f fs now_one,
      )
