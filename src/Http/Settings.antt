-- ===== src/Http/Settings.antt =====
-- source/mq_evhttp.c: `http_opt_maxqueue`, `http_opt_delay`, `http_opt_wlock`, `http_opt_synctime`.
use ucmq.Prelude.{
  ℕ, Bool, not, ◌&&◌, ◌||◌, Option, none, some, List, [], ◌∷◌, ◌++◌, ltb, ◌==◌, if◌then◌else◌,
  String,
}
use ucmq.Prelude.Run.{Run, ret}
use ucmq.Types.{MqQueue}
use ucmq.Os.{Os}
use ucmq.QueueManage.{minus_one, set_maxqueue, set_delay, set_wlock, set_synctime}
use ucmq.Http.{
  Request, Reply, Server, do_reply, do_and_reply, http_badrequest, with_name, dest_num,
  negative_int, find_queue_by_qname, touch_queue_by_qname, with_queue,
}

abbrev pub queue_max_size : ℕ
queue_max_size = 1000000000

-- The words of a handler: of version 1 if it works and if it does not, and of both versions for a
-- setting that is refused.
pub record Words : Type 0 where
  pub done : String
  pub cancel : String
  pub reason : String
  pub refused : String

abbrev pub maxqueue_words : Words
maxqueue_words = record {
  done = "HTTPSQS_MAXQUEUE_OK";
  cancel = "HTTPSQS_MAXQUEUE_CANCEL";
  reason = "Set maxqueue error";
  refused = "UCMQ_HTTP_ERR_MAXQUE_ERR";
}

abbrev pub delay_words : Words
delay_words = record {
  done = "HTTPSQS_DELAY_OK";
  cancel = "HTTPSQS_DELAY_CANCEL";
  reason = "Set delay error";
  refused = "UCMQ_HTTP_ERR_DELAY_ERR";
}

abbrev pub wlock_words : Words
wlock_words = record {
  done = "HTTPSQS_READONLY_OK";
  cancel = "HTTPSQS_READONLY_CANCEL";
  reason = "Set readonly error";
  refused = "UCMQ_HTTP_ERR_WLOCK_ERR";
}

abbrev pub synctime_words : Words
synctime_words = record {
  done = "HTTPSQS_SYNC_TIME_OK";
  cancel = "HTTPSQS_SYNC_TIME_CANCEL";
  reason = "Set sync time error";
  refused = "UCMQ_HTTP_ERR_SYNC_TIEM_ERR";
}

module _ (w : Words) (ver : Option (List ℕ)) where
  unfoldable pub bad_name : Reply
  unfolding do_reply
  bad_name =
      do_reply http_badrequest "Invalid requst, Can't find name" w.cancel "UCMQ_HTTP_ERR_INV_NAME"
        ver

  unfoldable pub bad_num : Reply
  unfolding do_reply
  bad_num =
      do_reply http_badrequest "Invalid requst, Invalid dest number" w.cancel
        "UCMQ_HTTP_ERR_INV_NUM" ver

  unfoldable pub no_add : Reply
  unfolding do_reply
  no_add = do_reply http_badrequest "Create queue fail" w.cancel "UCMQ_HTTP_ERR_QUE_ADD_ERR" ver

  unfoldable pub set_reply : Bool → Reply
  unfolding do_and_reply
  set_reply result =
      do_and_reply result w.done "UCMQ_HTTP_OK" http_badrequest w.reason w.cancel w.refused ver

module _ (os : Os) where
  open os use {Sys}

  -- The setter has run on the queue; `sent` are the replies so far.
  unfoldable pub finish_set :
      Words
      → Request
      → List ℕ
      → List Reply
      → Server os
      → Sys × Option MqQueue × Bool
      → Run (Server os × List Reply)
  unfolding set_reply with_queue
  finish_set w req qname sent sv (s, none, result) =
      ret (record sv { sys = s }, sent ++ set_reply w req.ver result ∷ [])
  finish_set w req qname sent sv (s, some q, result) =
      ret (with_queue os qname s q sv, sent ++ set_reply w req.ver result ∷ [])

  -- The end of a handler: the queue, or the reply that there is none.
  unfoldable pub set_on :
      Words
      → Request
      → List ℕ
      → List Reply
      → (Option MqQueue → Sys → Sys × Option MqQueue × Bool)
      → Server os × Option MqQueue
      → Run (Server os × List Reply)
  unfolding finish_set no_add
  set_on w req qname sent set (sv, none) = ret (sv, sent ++ no_add w req.ver ∷ [])
  set_on w req qname sent set (sv, some q) = finish_set w req qname sent sv (set (some q) sv.sys)

  unfoldable pub http_opt_maxqueue :
      (List ℕ → ℕ) → Request → Server os → Run (Server os × List Reply)
  unfolding bad_name bad_num set_on dest_num with_name touch_queue_by_qname set_maxqueue
  http_opt_maxqueue atoi req sv =
      let dest = dest_num atoi req.num in
      let refused = ret (sv, bad_name maxqueue_words req.ver ∷ []) in
      with_name req.name refused (λ qname.
        if negative_int dest || ltb queue_max_size dest
        then ret (sv, bad_num maxqueue_words req.ver ∷ [])
        else set_on maxqueue_words req qname [] (λ q s. set_maxqueue os sv.conf q dest s)
            (touch_queue_by_qname os qname sv))

  -- A negative number is answered, and the handler goes on.
  unfoldable pub http_opt_delay : (List ℕ → ℕ) → Request → Server os → Run (Server os × List Reply)
  unfolding bad_name bad_num set_on dest_num with_name touch_queue_by_qname set_delay
  http_opt_delay atoi req sv =
      let dest = dest_num atoi req.num in
      let refused = ret (sv, bad_name delay_words req.ver ∷ []) in
      with_name req.name refused (λ qname.
        set_on delay_words req qname
          (if negative_int dest then bad_num delay_words req.ver ∷ [] else [])
          (λ q s. set_delay os sv.conf q dest s) (touch_queue_by_qname os qname sv))

  unfoldable pub http_opt_wlock :
      ℕ → (List ℕ → ℕ) → Request → Server os → Run (Server os × List Reply)
  unfolding bad_name bad_num set_on dest_num with_name find_queue_by_qname set_wlock
  http_opt_wlock now atoi req sv =
      let dest = dest_num atoi req.num in
      let refused = ret (sv, bad_name wlock_words req.ver ∷ []) in
      with_name req.name refused (λ qname.
        set_on wlock_words req qname
          (if negative_int dest && not (dest == minus_one)
            then bad_num wlock_words req.ver ∷ []
            else [])
          (λ q s. set_wlock os sv.conf now q dest s) (sv, find_queue_by_qname os qname sv))

  unfoldable pub http_opt_synctime :
      (List ℕ → ℕ) → Request → Server os → Run (Server os × List Reply)
  unfolding bad_num set_reply dest_num set_synctime
  http_opt_synctime atoi req sv =
      let dest = dest_num atoi req.num in
      let sent =
        if negative_int dest && not (dest == minus_one)
        then bad_num synctime_words req.ver ∷ []
        else [] in
      let (conf, result) = set_synctime sv.conf dest in
      ret (record sv { conf = conf }, sent ++ set_reply synctime_words req.ver result ∷ [])
