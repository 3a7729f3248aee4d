-- ===== src/Http/Trace.antt =====
-- source/mq_evhttp.c, source/mq_queue_manage.c: the puts and gets that the handlers make on one queue,
-- against a queue of entries that knows neither files nor positions.
pub mod Steps
pub mod Refine
use ucmq.Prelude.{
  ℕ, zero, suc, ◌+◌, ◌-◌, ◌*◌, ◌^◌, ◌≤◌, ◌<◌, ◌≡◌, refl, sym, ap, subst, ◌∙◌, Bool, true, false,
  not, ◌&&◌, ◌||◌, Option, none, some, List, [], ◌∷◌, ◌++◌, arith, length, length-append, ltb, ◌==◌,
  if◌then◌else◌, All, Bool_cases, inl, inr, ◌⊎◌,
}
use ucmq.Prelude.Bytes.{IsByte, Memory, u32_mod, add32, add64, sub32, sub64}
use ucmq.Prelude.Run.{Run, ret, ◌>>=◌}
use ucmq.Config.{UcmqConf, max_db_file_size}
use ucmq.Types.{MqQueue}
use ucmq.Os.{Os, IsLawful}
use ucmq.StoreMsg.Layout.{Entry, IsEntry, item_of}
use ucmq.StoreManage.GetData.{too_early, taken}
use ucmq.StoreManage.Fifo.{size, Laid, Represents}
use ucmq.StoreManage.Put.{appended}
use ucmq.QueueManage.{
  QueuePutRet, put_ok, full, wlock, QueueGetRet, get_ok, get_end, is_full, is_wlocked, minus_one,
  push_item, pop_item,
}
use ucmq.QueueManage.Queue.{
  Synced, push_item_refused, push_item-Represents, pop_item-Represents, pop_item_waits,
}
use ucmq.Http.Put.{counted}

-- A call on the queue, with the second at which it comes.
pub data Call : Type 0 where
  put : ℕ → List ℕ → Call
  get : ℕ → Call

abbrev pub Answer : Type 0
Answer = QueuePutRet ⊎ QueueGetRet

abbrev pub entry : ℕ → List ℕ → Entry
entry now body = record { time = now; body = body }

-- What `http_opt_put` and `http_opt_get` do to the queue.
module _ (os : Os) (conf : UcmqConf) where
  unfoldable pub put_done : os.Sys × MqQueue × QueuePutRet → (os.Sys × MqQueue) × Answer
  unfolding counted
  put_done (s, q, result) = ((s, counted result q), inl result)

  unfoldable pub get_done : os.Sys × MqQueue × QueueGetRet → (os.Sys × MqQueue) × Answer
  get_done (s, q, result) = ((s, q), inr result)

  unfoldable pub serve : Call → os.Sys × MqQueue → Run ((os.Sys × MqQueue) × Answer)
  unfolding put_done get_done push_item pop_item
  serve (put now body) (s, q) = do done ← push_item os conf now body q s; ret (put_done done)
  serve (get now) (s, q) = do done ← pop_item os conf 1 now q s; ret (get_done done)

  unfoldable pub serve_all : List Call → os.Sys × MqQueue → Run ((os.Sys × MqQueue) × List Answer)
  unfolding serve
  serve_all [] sq = ret (sq, [])
  serve_all (call ∷ calls) sq = do
    (sq', answer) ← serve call sq
    (sq'', answers) ← serve_all calls sq'
    ret (sq'', answer ∷ answers)

-- The specification: a bound, a lock and a delay, and a list of entries.
module _ (maxque lock delay : ℕ) where
  unfoldable pub spec : Call → List Entry → List Entry × Answer
  spec (put now body) es =
      if not (maxque == 0) && ltb maxque (length es + 1)
      then (es, inl full)
      else if lock == minus_one || ltb now lock
      then (es, inl wlock)
      else (es ++ entry now body ∷ [], inl put_ok)
  spec (get now) [] = ([], inr get_end)
  spec (get now) (e ∷ es) =
      if not (delay == 0) && ltb (sub32 now e.time) delay
      then (e ∷ es, inr get_end)
      else (es, inr (get_ok (item_of e)))

  unfoldable pub spec_all : List Call → List Entry → List Entry × List Answer
  unfolding spec
  spec_all [] es = (es, [])
  spec_all (call ∷ calls) es =
      let (es', answer) = spec call es in
      let (es'', answers) = spec_all calls es' in (es'', answer ∷ answers)

-- The bytes of the file that the puts need at most.
abbrev pub needs : Call → ℕ
needs (put now body) = 12 + length body
needs (get now) = 0

abbrev pub needs_all : List Call → ℕ
needs_all [] = 0
needs_all (call ∷ calls) = needs call + needs_all calls

-- A put of bytes, at least one, at a second that fits its field.
abbrev pub IsCall : Call → Type 0
IsCall (put now body) =
    (now < u32_mod) × All IsByte body × (0 < length body) × (length body < 2 ^ 31)
IsCall (get now) = Unit
