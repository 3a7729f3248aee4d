-- ===== src/StoreManage/TwoFiles.antt =====
-- source/mq_store_manage.c, source/mq_store_file.c: a queue whose messages lie in two files, the file that
-- is read and the next one, which is written.
use ucmq.Prelude.{
  ℕ, zero, suc, ◌+◌, ◌^◌, ◌≤◌, ◌<◌, ◌≡◌, ◌≢◌, refl, ap, subst, ◌∙◌, false, some, List, [], ◌∷◌,
  arith, length,
}
use ucmq.Prelude.Bytes.{Memory, add32, u64_mod}
use ucmq.Prelude.Run.{ret}
use ucmq.Config.{UcmqConf, max_db_file_size}
use ucmq.Types.{MqQueue, msg_head_len, db_file_head_len, msg_head_of_first_magic_num}
use ucmq.Os.{Os}
use ucmq.StoreMsg.{ok, parse_msg}
use ucmq.StoreMsg.Layout.{Entry, item_of, parse_msg-msg_bytes}
use ucmq.StoreFile.ReadFile.{get_next_read_file}
use ucmq.StoreManage.GetData.{
  at_end, skip, taken, too_early, again, next_file, act, message_at, get_round, get_data,
}
use ucmq.StoreManage.Fifo.{size, Laid, Laid-le}

-- No message begins between these positions.
abbrev pub Blank : Memory → ℕ → ℕ → Type 0
Blank mem p max = (i : ℕ) → p ≤ i → i < max → mem i ≢ msg_head_of_first_magic_num

module _ (os : Os) (conf : UcmqConf) where
  -- `es` are left in the read file, before a blank rest, and `fs` are in the write file.
  pub record TwoFiles (m k : ℕ) (s : os.Sys) (q : MqQueue) (es fs : List Entry) : Type 0 where
    pub small : max_db_file_size conf ≤ 2 ^ 26
    pub next_index : q.cur_wdb.cur_index ≡ q.cur_rdb.cur_index + 1
    pub not_last : q.cur_wdb.cur_index + 1 < u64_mod
    pub apart : m ≢ k
    pub read_map : q.cur_rdb.map_mem ≡ some m
    pub write_map : q.cur_wdb.map_mem ≡ some k
    pub read_mapped : max_db_file_size conf ≤ os.mapped s m
    pub write_mapped : max_db_file_size conf ≤ os.mapped s k
    pub after_head : db_file_head_len ≤ q.cur_rdb.pos
    pub within : q.cur_wdb.pos ≤ max_db_file_size conf
    pub stop : ℕ
    pub stop_within : stop ≤ max_db_file_size conf
    pub laid_read : Laid (os.load s m) q.cur_rdb.pos es stop
    pub blank : Blank (os.load s m) stop (max_db_file_size conf)
    pub laid_write : Laid (os.load s k) db_file_head_len fs q.cur_wdb.pos

module _ (os : Os) (conf : UcmqConf) (m k : ℕ) (s : os.Sys) (q : MqQueue) (now : ℕ) where
  module _ (e : Entry) (es fs : List Entry) (r : TwoFiles os conf m k s q (e ∷ es) fs) where
    ends : q.cur_rdb.pos + size e ≤ r.stop
    ends = Laid-le (os.load s m) (q.cur_rdb.pos + size e) es r.stop r.laid_read.3

    elsewhere : at_end q ≡ false
    unfolding at_end
    elsewhere = ground (arith, r.next_index)

    found : message_at os conf q s ≡ ret (ok (item_of e))
    unfolding message_at
    found = ground (
      arith,
      r.read_map,
      r.read_mapped,
      parse_msg-msg_bytes (os.load s m) q.cur_rdb.pos e r.laid_read.2 r.laid_read.0
          (max_db_file_size conf) r.small (omega (arith, ends, r.stop_within, r.laid_read.1))
          (omega (arith, ends, r.stop_within)),
    )

    pub first_round : get_round os conf now q s ≡ ret (act os conf now q s (ok (item_of e)))
    unfolding get_round
    first_round = ground (arith, elsewhere, found)

    pub taken-TwoFiles : TwoFiles os conf m k s (taken (item_of e) q) es fs
    unfolding taken
    taken-TwoFiles = record {
      small = r.small;
      next_index = r.next_index;
      not_last = r.not_last;
      apart = r.apart;
      read_map = r.read_map;
      write_map = r.write_map;
      read_mapped = r.read_mapped;
      write_mapped = r.write_mapped;
      after_head = omega (arith, r.after_head, ends, r.stop_within, r.small);
      within = r.within;
      stop = r.stop;
      stop_within = r.stop_within;
      laid_read = subst (λ p. Laid (os.load s m) p es r.stop) moved r.laid_read.3;
      blank = r.blank;
      laid_write = r.laid_write;
    }
      where
        moved : q.cur_rdb.pos + size e ≡ add32 q.cur_rdb.pos (add32 (length e.body) msg_head_len)
        moved = omega (arith, ends, r.stop_within, r.small)

    -- A message that is due is taken from the read file.
    pub get_data_two :
        (fuel : ℕ)
        → too_early now q (item_of e) ≡ false
        → get_data os conf (suc fuel) now q s ≡ ret (s, taken (item_of e) q, some (item_of e))
    unfolding get_data act
    get_data_two fuel due = ground (arith, first_round, due)

-- The read position moved.
abbrev pub at_pos : MqQueue → ℕ → MqQueue
at_pos q p = record q { cur_rdb = record (q.cur_rdb) { pos = p } }

module _ (os : Os) (conf : UcmqConf) (m k : ℕ) (s : os.Sys) (now : ℕ) where
  -- A byte that begins no message is passed over.
  blank_round :
      (q : MqQueue) (fs : List Entry)
      → TwoFiles os conf m k s q [] fs
      → q.cur_rdb.pos + 12 < max_db_file_size conf
      → get_round os conf now q s ≡ ret (again s (at_pos q (q.cur_rdb.pos + 1)))
  unfolding get_round message_at act skip at_end parse_msg
  blank_round q fs r room = ground (
    arith,
    r.next_index,
    r.read_map,
    r.read_mapped,
    r.small,
    r.blank q.cur_rdb.pos (omega (arith, r.laid_read)) (omega arith),
  )

  pub moved-TwoFiles :
      (q : MqQueue) (fs : List Entry) (p : ℕ)
      → TwoFiles os conf m k s q [] fs
      → q.cur_rdb.pos ≤ p
      → p ≤ max_db_file_size conf
      → TwoFiles os conf m k s (at_pos q p) [] fs
  moved-TwoFiles q fs p r le top = record {
    small = r.small;
    next_index = r.next_index;
    not_last = r.not_last;
    apart = r.apart;
    read_map = r.read_map;
    write_map = r.write_map;
    read_mapped = r.read_mapped;
    write_mapped = r.write_mapped;
    after_head = omega (arith, r.after_head);
    within = r.within;
    stop = p;
    stop_within = top;
    laid_read = refl;
    blank = λ i a b. r.blank i (omega (arith, r.laid_read)) b;
    laid_write = r.laid_write;
  }

  step_blank :
      (fuel : ℕ) (q : MqQueue) (fs : List Entry)
      → TwoFiles os conf m k s q [] fs
      → q.cur_rdb.pos + 12 < max_db_file_size conf
      → get_data os conf (suc fuel) now q s
        ≡ get_data os conf fuel now (at_pos q (q.cur_rdb.pos + 1)) s
  unfolding get_data
  step_blank fuel q fs r room = ground (arith, blank_round q fs r room)

  -- The blank rest of the read file is passed over, a round for each byte.
  pub skip_blank :
      (n fuel : ℕ) (q : MqQueue) (fs : List Entry)
      → TwoFiles os conf m k s q [] fs
      → q.cur_rdb.pos + n + 12 ≤ max_db_file_size conf
      → get_data os conf (n + fuel) now q s
        ≡ get_data os conf fuel now (at_pos q (q.cur_rdb.pos + n)) s
  skip_blank zero fuel q fs r room =
      ap (λ f. get_data os conf f now q s) {y = fuel} (omega arith)
      ∙ ap (λ p. get_data os conf fuel now (at_pos q p) s) {x = q.cur_rdb.pos} (omega arith)
  skip_blank (suc n) fuel q fs r room =
      ap (λ f. get_data os conf f now q s) {y = suc (n + fuel)} (omega arith)
      ∙ step_blank (n + fuel) q fs r (omega arith)
      ∙ skip_blank n fuel (at_pos q (q.cur_rdb.pos + 1)) fs
          (moved-TwoFiles q fs (q.cur_rdb.pos + 1) r (omega arith) (omega arith)) (omega arith)
      ∙ ap (λ p. get_data os conf fuel now (at_pos q p) s) {x = q.cur_rdb.pos + 1 + n} (omega arith)

  -- Where no head fits any more, the next file is read.
  pub end_round_two :
      (q : MqQueue) (fs : List Entry)
      → TwoFiles os conf m k s q [] fs
      → max_db_file_size conf ≤ q.cur_rdb.pos + 12
      → get_round os conf now q s ≡ ret (next_file os conf (get_next_read_file os conf q s))
  unfolding get_round message_at act at_end parse_msg
  end_round_two q fs r full =
      ground (arith, r.next_index, r.read_map, r.read_mapped, r.small, r.stop_within, r.laid_read)
