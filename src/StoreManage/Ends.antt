-- ===== src/StoreManage/Ends.antt =====
-- source/mq_store_manage.c: the `while (1)` of `mq_sm_get_data` on any content of the file that is
-- written, damaged files included.
use ucmq.Prelude.{
  ℕ, zero, suc, ◌+◌, ◌^◌, ◌≤◌, ◌<◌, ◌≡◌, ◌⊎◌, refl, true, false, Option, none, some, arith,
  Bool_cases, inl, inr,
}
use ucmq.Prelude.Bytes.{add32, u64_mod}
use ucmq.Prelude.Run.{Run, ret}
use ucmq.Config.{UcmqConf, max_db_file_size}
use ucmq.Types.{MqQueue, MsgItem}
use ucmq.Os.{Os}
use ucmq.StoreMsg.{MsgCheckRet, ok, msg_err, mag_num_err, parse_err, crc_err, len_bey, parse_msg}
use ucmq.StoreFile.ReadFile.{get_next_read_file}
use ucmq.StoreManage.GetData.{
  at_end, skip, taken, too_early, Round, leave, again, next_file, act, message_at, get_round,
  get_data,
}

module _ (os : Os) (conf : UcmqConf) (m now : ℕ) (s : os.Sys) where
  -- Both ends are in one mapped file of at most 64 MB, whose bytes may be anything.
  pub record OneFile (q : MqQueue) : Type 0 where
    pub small : max_db_file_size conf ≤ 2 ^ 26
    pub same_file : q.cur_rdb.cur_index ≡ q.cur_wdb.cur_index
    pub not_last : q.cur_wdb.cur_index + 1 < u64_mod
    pub read_map : q.cur_rdb.map_mem ≡ some m
    pub all_mapped : max_db_file_size conf ≤ os.mapped s m
    pub within : q.cur_wdb.pos ≤ max_db_file_size conf

  -- A call ends, with a message or without, and without a fault.
  abbrev pub Ended : Run (os.Sys × MqQueue × Option MsgItem) → Type 0
  Ended r = (done : os.Sys × MqQueue × Option MsgItem) × (r ≡ ret done)

  -- There is no next file to read.
  stays :
      (q : MqQueue)
      → OneFile q
      → (q' : MqQueue) × (next_file os conf (get_next_read_file os conf q s) ≡ leave s q' none)
  unfolding get_next_read_file next_file
  stays q f = (
    record q { cur_rdb = record (q.cur_rdb) { cur_index = q.cur_wdb.cur_index } },
    ground (arith, f.same_file, f.not_last),
  )

  -- A round on a message check leaves, or skips one or two bytes.
  Acts : MqQueue → Round os conf → Type 0
  Acts q r =
      ((done : os.Sys × MqQueue × Option MsgItem) × (r ≡ leave done.0 done.1 done.2))
      ⊎ ((n : ℕ) × (0 < n) × (n ≤ 2) × (r ≡ again s (skip n q)))

  act_cases : (q : MqQueue) → OneFile q → (found : MsgCheckRet) → Acts q (act os conf now q s found)
  unfolding Acts act
  act_cases q f (ok item) = elim (Bool_cases (too_early now q item)) [
    | inl early ↦ inl ((s, q, none), ground (arith, early))
    | inr due ↦ inl ((s, taken item q, some item), ground (arith, due))
  ]
  act_cases q f mag_num_err = inr (1, omega arith, omega arith, refl)
  act_cases q f parse_err = inr (2, omega arith, omega arith, refl)
  act_cases q f crc_err = inr (2, omega arith, omega arith, refl)
  act_cases q f msg_err = inl ((s, (stays q f).0, none), (stays q f).1)
  act_cases q f len_bey = inl ((s, (stays q f).0, none), (stays q f).1)

  found_at : (q : MqQueue) → OneFile q → MsgCheckRet
  found_at q f = parse_msg (max_db_file_size conf) (some (os.load s m)) q.cur_rdb.pos

  round_is :
      (q : MqQueue) (f : OneFile q)
      → at_end q ≡ false
      → get_round os conf now q s ≡ ret (act os conf now q s (found_at q f))
  unfolding get_round message_at found_at
  round_is q f more = ground (arith, more, f.read_map, f.all_mapped)

  skipped : (q : MqQueue) (n : ℕ) → OneFile q → OneFile (skip n q)
  unfolding skip
  skipped q n f = record {
    small = f.small;
    same_file = f.same_file;
    not_last = f.not_last;
    read_map = f.read_map;
    all_mapped = f.all_mapped;
    within = f.within;
  }

  moved_on :
      (q : MqQueue) (n fuel : ℕ)
      → OneFile q
      → at_end q ≡ false
      → n ≤ 2
      → 0 < n
      → q.cur_wdb.pos < suc fuel + q.cur_rdb.pos
      → q.cur_rdb.pos < 2 ^ 31
      → ((skip n q).cur_wdb.pos < fuel + (skip n q).cur_rdb.pos)
        × ((skip n q).cur_rdb.pos < 2 ^ 31)
        × (0 < fuel)
  unfolding skip at_end
  moved_on q n fuel f more top pos enough small = (
    omega (arith, f.small, f.within, not_end),
    omega (arith, f.small, f.within, not_end),
    omega (arith, f.small, f.within, not_end),
  )
    where
      not_end : add32 q.cur_rdb.pos 12 < q.cur_wdb.pos
      not_end = ground (arith, more, f.same_file)

  ended : MqQueue → os.Sys × MqQueue × Option MsgItem
  ended q =
      (s, record q { cur_rdb = record (q.cur_rdb) { pos = q.cur_wdb.pos }; unread_count = 0 }, none)

  end_round :
      (q : MqQueue)
      → at_end q ≡ true
      → get_round os conf now q s ≡ ret (leave (ended q).0 (ended q).1 (ended q).2)
  unfolding get_round ended
  end_round q done = ground (arith, done)

  -- Where both ends of a queue are in one mapped file of at most 64 MB, which is not the last
  -- one that 64 bits can number, a get ends without a fault, whatever bytes the file holds,
  -- within any number of rounds that is more than the write position less the read position and
  -- not 0. The read position is below 2 ^ 31.
  pub get_data_ends :
      (fuel : ℕ) (q : MqQueue)
      → OneFile q
      → q.cur_rdb.pos < 2 ^ 31
      → 0 < fuel
      → q.cur_wdb.pos < fuel + q.cur_rdb.pos
      → Ended (get_data os conf fuel now q s)
  unfolding get_data Acts
  get_data_ends zero q f small some_left enough = absurd (omega arith)
  get_data_ends (suc fuel) q f small some_left enough = elim (Bool_cases (at_end q)) [
    | inl done ↦ (ended q, ground (arith, end_round q done))
    | inr more ↦ elim (act_cases q f (found_at q f)) [
      | inl (d, e) ↦ (d, ground (arith, round_is q f more, e))
      | inr (n, pos, top, e) ↦
          let (enough', small', some_left') = moved_on q n fuel f more top pos enough small in
          let (d, rest) = get_data_ends fuel (skip n q) (skipped q n f) small' some_left' enough' in
          (d, ground (arith, round_is q f more, e, rest))
    ]
  ]
