-- ===== src/StoreManage/NextFile.antt =====
-- source/mq_store_msg.c, source/mq_store_file.c: the next write file, where the write file
-- is the read file too.
use ucmq.Prelude.{
  ℕ, Bool, zero, suc, ◌+◌, ◌≤◌, ◌<◌, ◌≡◌, refl, ap, ◌∙◌, true, false, Option, none, some, List,
  ◌++◌, arith, length, length-append, ltb, replicate,
}
use ucmq.Prelude.Bytes.{add64, u32_mod}
use ucmq.Prelude.Decimal.{padded, padded-eq-fixed, length-fixed}
use ucmq.Prelude.Run.{Run, ret, ◌>>=◌}
use ucmq.Config.{UcmqConf}
use ucmq.Types.{MqQueue, db_file_head_len, db_file_version}
use ucmq.Os.{Os}
use ucmq.StoreMsg.{file_head_bytes}
use ucmq.StoreFile.{
  copy_to_map, write_file_head, open_db_file, get_storage_free, gen_data_full_path_by_qname_index,
  get_next_write_file, create_write_file, enter_write_file, leave_write_file,
}

length-replicate : (n a : ℕ) → length (replicate n a) ≡ n
length-replicate zero a = refl
length-replicate (suc n) a = ap suc (length-replicate n a)

-- The head is 128 bytes for a 32-bit count.
pub length-file_head_bytes : (n : ℕ) → n < u32_mod → length (file_head_bytes n) ≡ 128
length-file_head_bytes n h = omega (
  arith,
  length-append (padded 1 db_file_version) (padded 12 n ++ replicate 115 0),
  length-append (padded 12 n) (replicate 115 0),
  length-replicate 115 0,
  ap length (padded-eq-fixed 1 db_file_version (omega arith)),
  length-fixed 1 db_file_version,
  ap length (padded-eq-fixed 12 n (omega arith)),
  length-fixed 12 n,
)

-- A queue whose write file is a new one, with nothing in it.
abbrev pub entered : MqQueue → Option ℕ → ℕ → MqQueue
entered q fd k = record q {
  cur_wdb = record (q.cur_wdb) {
    fd = fd;
    map_mem = some k;
    opt_count = 0;
    flag = 1;
    pos = db_file_head_len;
    cur_index = add64 q.cur_wdb.cur_index 1;
  };
}

module _ (os : Os) (conf : UcmqConf) where
  pub copied :
      (m p : ℕ) (bs : List ℕ) (s : os.Sys)
      → p + length bs ≤ os.mapped s m
      → copy_to_map os conf (some m) p bs s ≡ ret (os.store s m p bs)
  unfolding copy_to_map
  copied m p bs s h = ground arith

  abbrev pub head_put : os.Sys → ℕ → ℕ → os.Sys
  head_put s m n = (os.msync (os.store s m 0 (file_head_bytes n)) (some m) db_file_head_len).0

  pub head_fits :
      (m : ℕ) (q : MqQueue) (s : os.Sys)
      → q.cur_wdb.map_mem ≡ some m
      → q.cur_wdb.opt_count < u32_mod
      → db_file_head_len ≤ os.mapped s m
      → write_file_head os conf q s ≡ ret (head_put s m q.cur_wdb.opt_count)
  unfolding write_file_head
  head_fits m q s w c h =
      ap
        (λ o. copy_to_map os conf o 0 (file_head_bytes q.cur_wdb.opt_count) s >>= λ s'.
          ret (os.msync s' o db_file_head_len).0)
        w
      ∙ ap (λ x. x >>= λ s'. ret (os.msync s' (some m) db_file_head_len).0)
          (copied m 0 (file_head_bytes q.cur_wdb.opt_count) s
            (omega (arith, length-file_head_bytes q.cur_wdb.opt_count c)))

  pub created_file :
      (next : ℕ) (name : List ℕ) (q : MqQueue) (s s2 : os.Sys) (fd : Option ℕ) (k : ℕ)
      → open_db_file os conf name true s ≡ (s2, fd, some k)
      → create_write_file os conf next name q s
        ≡ enter_write_file os conf next
            (record q { cur_wdb = record (q.cur_wdb) { fd = fd; map_mem = some k } })
            s2
  unfolding create_write_file
  created_file next name q s s2 fd k h =
      ap
        (λ (t : os.Sys × Option ℕ × Option ℕ). elim t.2 as (λ x. Run (os.Sys × MqQueue × Bool)) [
          | none ↦
              ret
                (t.0, record q { cur_wdb = record (q.cur_wdb) { fd = t.1; map_mem = t.2 } }, false)
          | some x ↦
              enter_write_file os conf next
                (record q { cur_wdb = record (q.cur_wdb) { fd = t.1; map_mem = t.2 } }) t.0
        ])
        h

  pub new_file :
      (q : MqQueue) (s : os.Sys)
      → leave_write_file os conf q s ≡ (s, q)
      → ltb (get_storage_free os conf s) conf.res_store_space ≡ false
      → get_next_write_file os conf q s
        ≡ create_write_file os conf
            (add64 q.cur_wdb.cur_index 1)
            (gen_data_full_path_by_qname_index conf q.qname (add64 q.cur_wdb.cur_index 1))
            q
            s
  unfolding get_next_write_file
  new_file q s h f = rw h (rw f refl)
