-- ===== src/StoreRtag.antt =====
-- source/mq_store_rtag.c: the record of a queue's positions and settings, one line of six decimal
-- fields, its parser and the search for the last readable line. `max` is MAX_DB_FILE_SIZE.
pub mod Fields
pub mod RoundTrip
pub mod Recovery
pub mod Recorded
use ucmq.Prelude.{
  ℕ, zero, suc, ◌+◌, ◌-◌, ◌*◌, ◌/◌, ◌%◌, Bool, true, false, not, ◌&&◌, Option, none, some, List, [],
  ◌∷◌, ◌++◌, leb, ltb, ◌==◌, if◌then◌else◌, length, drop,
}
use ucmq.Prelude.Bytes.{u32_mod}
use ucmq.Prelude.Decimal.{padded}
use ucmq.Types.{MqQueue, DbMap, msg_head_len}
use ucmq.Os.{Os, TailRead, before_start, failed, got}

abbrev pub rtag_item_len : ℕ
rtag_item_len = 60

-- RCOUNT_LEN, RPOS_LEN, WPOS_LEN, QUEUE_MAX_SIZE_LEN, DELAY_LEN, WLOCK_LEN
abbrev pub field_len : ℕ
field_len = 10

-- The six fields that `mq_sm_rtag_write_item` prints, and the line.
abbrev pub rtag_fields : MqQueue → List ℕ
rtag_fields q =
    padded 10 q.cur_rdb.opt_count
    ++ (padded 10 q.cur_rdb.pos
        ++ (padded 10 q.cur_wdb.pos
            ++ (padded 10 q.maxque ++ (padded 10 q.delay ++ padded 10 q.wlock))))

abbrev pub rtag_item : MqQueue → List ℕ
rtag_item q = rtag_fields q ++ 10 ∷ []

-- The loop of `str_to_num`; a `uint32_t` accumulates.
digits_from : ℕ → List ℕ → ℕ → Option ℕ
digits_from num str zero = some num
digits_from num [] (suc len) = none
digits_from num (c ∷ str) (suc len) =
    let rest = digits_from ((num * 10 + (c - 48)) % u32_mod) str len in
    if leb 48 c && leb c 57 then rest else none

unfoldable pub str_to_num : List ℕ → ℕ → Option ℕ
unfolding digits_from
str_to_num str len = if len == 0 then none else digits_from 0 str len

-- STR_TO_LL and the step to the next field. What an earlier field assigned stays assigned.
pub str_to_ll :
    (MqQueue → ℕ → MqQueue)
    → (MqQueue → List ℕ → MqQueue × Bool)
    → MqQueue
    → List ℕ
    → MqQueue × Bool
str_to_ll assign next q str = elim (str_to_num str field_len) [
  | none ↦ (q, false)
  | some num ↦ next (assign q num) (drop field_len str)
]

-- The six assignments, and the parser from each field on.
abbrev pub set_rcount : MqQueue → ℕ → MqQueue
set_rcount q num = record q { cur_rdb = record (q.cur_rdb) { opt_count = num } }

abbrev pub set_rpos : MqQueue → ℕ → MqQueue
set_rpos q num = record q { cur_rdb = record (q.cur_rdb) { pos = num } }

abbrev pub set_wpos : MqQueue → ℕ → MqQueue
set_wpos q num = record q { cur_wdb = record (q.cur_wdb) { pos = num } }

abbrev pub set_maxque : MqQueue → ℕ → MqQueue
set_maxque q num = record q { maxque = num }

abbrev pub set_delay : MqQueue → ℕ → MqQueue
set_delay q num = record q { delay = num }

abbrev pub set_wlock : MqQueue → ℕ → MqQueue
set_wlock q num = record q { wlock = num }

abbrev pub all_read : MqQueue → List ℕ → MqQueue × Bool
all_read q str = (q, true)

abbrev pub from_wlock : MqQueue → List ℕ → MqQueue × Bool
from_wlock q str = str_to_ll set_wlock all_read q str

abbrev pub from_delay : MqQueue → List ℕ → MqQueue × Bool
from_delay q str = str_to_ll set_delay from_wlock q str

abbrev pub from_maxque : MqQueue → List ℕ → MqQueue × Bool
from_maxque q str = str_to_ll set_maxque from_delay q str

abbrev pub from_wpos : MqQueue → List ℕ → MqQueue × Bool
from_wpos q str = str_to_ll set_wpos from_maxque q str

abbrev pub from_rpos : MqQueue → List ℕ → MqQueue × Bool
from_rpos q str = str_to_ll set_rpos from_wpos q str

abbrev pub from_rcount : MqQueue → List ℕ → MqQueue × Bool
from_rcount q str = str_to_ll set_rcount from_rpos q str

unfoldable pub parse_fields : MqQueue → List ℕ → MqQueue × Bool
unfolding str_to_ll
parse_fields q str = from_rcount q str

-- The tests on `maxque`, `delay` and `wlock`, and those below 0, never hold for their C types.
unfoldable pub check_rtag_item : ℕ → MqQueue → Bool
check_rtag_item max q =
    leb q.cur_rdb.opt_count (max / msg_head_len) && (leb q.cur_rdb.pos max && leb q.cur_wdb.pos max)

-- strtok(…, "\n"): the non-empty pieces up to the terminating zero; `cur` is the piece read so far.
abbrev pub piece : List ℕ → List (List ℕ) → List (List ℕ)
piece [] rest = rest
piece (c ∷ cs) rest = (c ∷ cs) ∷ rest

pub tokens : List ℕ → List ℕ → List (List ℕ)
tokens cur [] = piece cur []
tokens cur (c ∷ str) = elim (c == 0) [
  | true ↦ piece cur []
  | false ↦ elim (c == 10) [ true ↦ piece cur (tokens [] str) | false ↦ tokens (cur ++ c ∷ []) str ]
]

-- What follows a piece whose fields are read: the end at a bad field or a good record, else the
-- next piece.
abbrev pub judge_token : ℕ → (MqQueue → MqQueue × Bool) → MqQueue × Bool → MqQueue × Bool
judge_token max rest (q, false) = (q, false)
judge_token max rest (q, true) = elim (check_rtag_item max q) [ true ↦ (q, true) | false ↦ rest q ]

pub parse_tokens : ℕ → List (List ℕ) → MqQueue → MqQueue × Bool
parse_tokens max [] q = (q, false)
parse_tokens max (token ∷ rest) q = elim (leb rtag_item_len (length token)) [
  | false ↦ parse_tokens max rest q
  | true ↦ judge_token max (parse_tokens max rest) (parse_fields q token)
]

unfoldable pub parse_rtag_item : ℕ → MqQueue → List ℕ → MqQueue × Bool
unfolding parse_tokens tokens
parse_rtag_item max q rtag_str = parse_tokens max (tokens [] rtag_str) q

-- What a queue gets if no line is left to try.
default_item : ℕ → ℕ → ℕ → MqQueue → MqQueue
default_item max def_max_queue def_delay q = record q {
  cur_rdb = record (q.cur_rdb) { opt_count = 0; pos = 0 };
  cur_wdb = record (q.cur_wdb) { pos = max };
  maxque = def_max_queue;
  delay = def_delay;
  wlock = 0;
}

-- The `do` loop of `mq_sm_rtag_read_item` on the rounds left, from the `i`-th record before the
-- end; `none` means that they ran out.
abbrev pub judge_line :
    ℕ → ℕ → (MqQueue → Option (MqQueue × Bool)) → MqQueue × Bool → Option (MqQueue × Bool)
judge_line max i next (q, true) =
    some (if ltb 1 i then record q { cur_wdb = record (q.cur_wdb) { pos = max } } else q, true)
judge_line max i next (q, false) = next q

module _ (max def_max_queue def_delay : ℕ) (read_tail : ℕ → TailRead) where
  read_item_from : ℕ → ℕ → MqQueue → Option (MqQueue × Bool)
  read_item_from zero i q = none
  read_item_from (suc fuel) i q = elim (read_tail i) [
    | before_start ↦ some (default_item max def_max_queue def_delay q, true)
    | failed ↦ some (q, false)
    | got line ↦ elim (leb (rtag_item_len + 1) (length line)) [
      | false ↦ read_item_from fuel (i + 1) q
      | true ↦ judge_line max i (read_item_from fuel (i + 1)) (parse_rtag_item max q line)
    ]
  ]

  unfoldable pub read_item : ℕ → MqQueue → Option (MqQueue × Bool)
  unfolding read_item_from parse_rtag_item default_item
  read_item fuel q = read_item_from fuel 1 q

module _ (os : Os) where
  open os use {Sys}

  unfoldable pub rtag_open_next_file : List ℕ → Sys → Sys × Option ℕ
  rtag_open_next_file file_name s = os.open_file s file_name true

  -- The name is the file's path under the queue's directory.
  unfoldable pub rtag_open_file : List ℕ → MqQueue → Sys → Sys × MqQueue × Bool
  rtag_open_file rtag_file_name q s = elim (os.file_size s rtag_file_name) [
    | none ↦ (s, q, false)
    | some size ↦
        if size == 0
        then (s, q, false)
        else (let (s', fd) = os.open_file s rtag_file_name false in
            elim fd [ none ↦ (s', q, false) | some n ↦ (s', record q { rtag_fd = some n }, true) ])
  ]

  unfoldable pub rtag_close_file : MqQueue → Sys → Sys × Bool
  rtag_close_file q s = elim (q.rtag_fd) [
    | none ↦ (s, true)
    | some n ↦ (os.close (os.fsync s (some n)).0 (some n), true)
  ]

  unfoldable pub rtag_write_item : MqQueue → Sys → Sys × Bool
  rtag_write_item q s = os.write_n s q.rtag_fd (rtag_item q)
