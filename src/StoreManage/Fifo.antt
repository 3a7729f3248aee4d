-- ===== src/StoreManage/Fifo.antt =====
-- source/mq_store_manage.c, source/mq_store_msg.c: the entries that a data file holds between the
-- positions of its queue, where it is read and written at once.
use ucmq.Prelude.{ℕ, ◌+◌, ◌^◌, ◌≤◌, ◌<◌, ◌≡◌, sym, ap, some, List, [], ◌∷◌, ◌++◌, arith, length}
use ucmq.Prelude.Bytes.{Memory, poke, Holds, Holds-poke_above, Holds-poke_below, Holds-at}
use ucmq.Config.{UcmqConf, max_db_file_size}
use ucmq.Types.{MqQueue, db_file_head_len}
use ucmq.Os.{Os}
use ucmq.StoreMsg.{msg_bytes}
use ucmq.StoreMsg.Layout.{Entry, IsEntry, item_of}

-- What a message takes up in the file.
abbrev pub size : Entry → ℕ
size e = 12 + length e.body

-- The messages lie one after another from a position to another.
abbrev pub Laid : Memory → ℕ → List Entry → ℕ → Type 0
Laid mem p [] q = p ≡ q
Laid mem p (e ∷ es) q =
    IsEntry e
    × (0 < length e.body)
    × Holds mem p (msg_bytes (item_of e))
    × Laid mem (p + size e) es q

length-msg_bytes : (e : Entry) → length (msg_bytes (item_of e)) ≡ size e
length-msg_bytes e = omega arith

pub Laid-le : (mem : Memory) (p : ℕ) (es : List Entry) (q : ℕ) → Laid mem p es q → p ≤ q
Laid-le mem p [] q h = omega arith
Laid-le mem p (e ∷ es) q h = omega (arith, Laid-le mem (p + size e) es q h.3)

pub Laid-poke :
    (mem : Memory) (p : ℕ) (es : List Entry) (q : ℕ) (bs : List ℕ)
    → Laid mem p es q
    → Laid (poke mem q bs) p es q
Laid-poke mem p [] q bs h = h
Laid-poke mem p (e ∷ es) q bs h = (
  h.0,
  h.1,
  Holds-poke_above mem p (msg_bytes (item_of e)) q bs
      (omega (arith, Laid-le mem (p + size e) es q h.3)) h.2,
  Laid-poke mem (p + size e) es q bs h.3,
)

pub Laid-poke_below :
    (mem : Memory) (p : ℕ) (es : List Entry) (q : ℕ) (at_ : ℕ) (bs : List ℕ)
    → at_ + length bs ≤ p
    → Laid mem p es q
    → Laid (poke mem at_ bs) p es q
Laid-poke_below mem p [] q at_ bs l h = h
Laid-poke_below mem p (e ∷ es) q at_ bs l h = (
  h.0,
  h.1,
  Holds-poke_below mem p (msg_bytes (item_of e)) at_ bs l h.2,
  Laid-poke_below mem (p + size e) es q at_ bs (omega arith) h.3,
)

pub Laid-snoc :
    (mem : Memory) (p : ℕ) (es : List Entry) (q : ℕ) (e : Entry)
    → Laid mem p es q
    → IsEntry e
    → 0 < length e.body
    → Holds mem q (msg_bytes (item_of e))
    → Laid mem p (es ++ e ∷ []) (q + size e)
Laid-snoc mem p [] q e h v n k =
    (v, n, Holds-at mem q p (msg_bytes (item_of e)) (sym h) k, ap (λ t. t + size e) h)
Laid-snoc mem p (x ∷ es) q e h v n k = (h.0, h.1, h.2, Laid-snoc mem (p + size x) es q e h.3 v n k)

module _ (os : Os) (conf : UcmqConf) where
  -- The queue's read and write ends are in one mapped file of at most 64 MB, and the bytes
  -- between them are these messages.
  pub record Represents (m : ℕ) (s : os.Sys) (q : MqQueue) (es : List Entry) : Type 0 where
    pub small : max_db_file_size conf ≤ 2 ^ 26
    pub same_file : q.cur_rdb.cur_index ≡ q.cur_wdb.cur_index
    pub read_map : q.cur_rdb.map_mem ≡ some m
    pub write_map : q.cur_wdb.map_mem ≡ some m
    pub all_mapped : max_db_file_size conf ≤ os.mapped s m
    pub after_head : db_file_head_len ≤ q.cur_rdb.pos
    pub within : q.cur_wdb.pos ≤ max_db_file_size conf
    pub laid : Laid (os.load s m) q.cur_rdb.pos es q.cur_wdb.pos
