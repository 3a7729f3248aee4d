-- ===== src/StoreRtag/RoundTrip.antt =====
-- source/mq_store_rtag.c: printing a record against parsing it.
use ucmq.Prelude.{
  ℕ, ◌<◌, ◌≡◌, ap, ◌∙◌, sym, true, List, [], ◌∷◌, ◌++◌, append-nil, arith, length, All, All-append,
  length-append,
}
use ucmq.Prelude.Bytes.{u32_mod}
use ucmq.Prelude.Decimal.{padded, IsDigit}
use ucmq.Types.{MqQueue}
use ucmq.StoreRtag.{
  tokens, parse_fields, parse_tokens, parse_rtag_item, check_rtag_item, rtag_fields, rtag_item,
  set_rcount, set_rpos, set_wpos, set_maxque, set_delay, set_wlock, all_read, from_rpos, from_wpos,
  from_maxque, from_delay, from_wlock,
}
use ucmq.StoreRtag.Fields.{str_to_ll-padded, padded-IsDigit, length-padded, tokens_line}

-- The fields of a record are 32-bit words.
pub record FieldsFit (q : MqQueue) : Type 0 where
  pub rcount_fits : q.cur_rdb.opt_count < u32_mod
  pub rpos_fits : q.cur_rdb.pos < u32_mod
  pub wpos_fits : q.cur_wdb.pos < u32_mod
  pub maxque_fits : q.maxque < u32_mod
  pub delay_fits : q.delay < u32_mod
  pub wlock_fits : q.wlock < u32_mod

-- The positions and settings of one queue put into another.
abbrev pub restored : MqQueue → MqQueue → MqQueue
restored q0 q = record q0 {
  cur_rdb = record (q0.cur_rdb) { opt_count = q.cur_rdb.opt_count; pos = q.cur_rdb.pos };
  cur_wdb = record (q0.cur_wdb) { pos = q.cur_wdb.pos };
  maxque = q.maxque;
  delay = q.delay;
  wlock = q.wlock;
}

module _ (q : MqQueue) (f : FieldsFit q) where
  parse_fields-rtag_fields :
      (q0 : MqQueue) → parse_fields q0 (rtag_fields q) ≡ (restored q0 q, true)
  unfolding parse_fields
  parse_fields-rtag_fields q0 =
      let q1 = set_rcount q0 q.cur_rdb.opt_count in
      let q2 = set_rpos q1 q.cur_rdb.pos in
      let q3 = set_wpos q2 q.cur_wdb.pos in
      let q4 = set_maxque q3 q.maxque in
      let q5 = set_delay q4 q.delay in
      let t5 = padded 10 q.wlock in
      let t4 = padded 10 q.delay ++ t5 in
      let t3 = padded 10 q.maxque ++ t4 in
      let t2 = padded 10 q.cur_wdb.pos ++ t3 in
      let t1 = padded 10 q.cur_rdb.pos ++ t2 in
      str_to_ll-padded set_rcount from_rpos q0 q.cur_rdb.opt_count t1 f.rcount_fits
      ∙ str_to_ll-padded set_rpos from_wpos q1 q.cur_rdb.pos t2 f.rpos_fits
      ∙ str_to_ll-padded set_wpos from_maxque q2 q.cur_wdb.pos t3 f.wpos_fits
      ∙ str_to_ll-padded set_maxque from_delay q3 q.maxque t4 f.maxque_fits
      ∙ str_to_ll-padded set_delay from_wlock q4 q.delay t5 f.delay_fits
      ∙ ap (from_wlock q5) (sym (append-nil t5))
      ∙ str_to_ll-padded set_wlock all_read q5 q.wlock [] f.wlock_fits

  pub length-rtag_fields : length (rtag_fields q) ≡ 60
  length-rtag_fields = simp (length-append) (
      omega (
        arith,
        length-padded q.cur_rdb.opt_count f.rcount_fits,
        length-padded q.cur_rdb.pos f.rpos_fits,
        length-padded q.cur_wdb.pos f.wpos_fits,
        length-padded q.maxque f.maxque_fits,
        length-padded q.delay f.delay_fits,
        length-padded q.wlock f.wlock_fits,
      ))

  pub rtag_fields-IsDigit : All IsDigit (rtag_fields q)
  rtag_fields-IsDigit =
      All-append IsDigit (padded 10 q.cur_rdb.opt_count) _
        (padded-IsDigit q.cur_rdb.opt_count f.rcount_fits)
        (All-append IsDigit (padded 10 q.cur_rdb.pos) _ (padded-IsDigit q.cur_rdb.pos f.rpos_fits) (
          All-append IsDigit (padded 10 q.cur_wdb.pos) _ (padded-IsDigit q.cur_wdb.pos f.wpos_fits)
            (All-append IsDigit (padded 10 q.maxque) _ (padded-IsDigit q.maxque f.maxque_fits) (
              All-append IsDigit (padded 10 q.delay) _ (padded-IsDigit q.delay f.delay_fits)
                (padded-IsDigit q.wlock f.wlock_fits)))))

  -- The piece that a record's fields make is accepted.
  pub parse_fields_token :
      (max : ℕ) (q0 : MqQueue) (rest : List (List ℕ))
      → check_rtag_item max q ≡ true
      → parse_tokens max (rtag_fields q ∷ rest) q0 ≡ (restored q0 q, true)
  unfolding parse_tokens check_rtag_item
  parse_fields_token max q0 rest c = ground (arith, length-rtag_fields, parse_fields-rtag_fields q0)

  -- A record line that was printed from a queue whose fields are of 32 bits and pass the check is
  -- parsed to these fields, whatever queue they are read into.
  pub parse_rtag_item-rtag_item :
      (max : ℕ) (q0 : MqQueue)
      → check_rtag_item max q ≡ true
      → parse_rtag_item max q0 (rtag_item q) ≡ (restored q0 q, true)
  unfolding parse_rtag_item
  parse_rtag_item-rtag_item max q0 c =
      ap (λ ts. parse_tokens max ts q0)
        (tokens_line (rtag_fields q) [] rtag_fields-IsDigit (omega (arith, length-rtag_fields)))
      ∙ parse_fields_token max q0 (tokens [] []) c
