-- ===== src/Http/Get.antt =====
-- source/mq_evhttp.c: `http_opt_get`, `http_opt_status`, `http_opt_status_json`.
use ucmq.Prelude.{ℕ, ◌%◌, Option, none, some, List, [], ◌∷◌, String}
use ucmq.Prelude.Bytes.{u32_mod, add32, sub64}
use ucmq.Prelude.Run.{Run, ret, ◌>>=◌}
use ucmq.Types.{MqQueue}
use ucmq.Os.{Os}
use ucmq.QueueManage.{QueueGetRet, get_ok, get_end, get_error, pop_item}
use ucmq.Http.{
  Request, Reply, message, status, status_json, AppInfo, Server, do_reply, is_v2, http_ok,
  http_badrequest, http_notfound, with_name, find_queue_by_qname, with_queue, get_rtag_info,
}

unfoldable pub get_info : QueueGetRet → AppInfo → AppInfo
get_info (get_ok item) info = record info { get = add32 info.get 1; count = sub64 info.count 1 }
get_info get_end info = info
get_info get_error info = info

-- The `switch`.
unfoldable pub get_reply : Option (List ℕ) → QueueGetRet → MqQueue → Reply
unfolding do_reply is_v2
get_reply ver get_end q =
    do_reply http_notfound "queue is empty" "HTTPSQS_GET_END" "UCMQ_HTTP_ERR_QUE_EMPTY" ver
get_reply ver (get_ok item) q = record {
  code = http_ok;
  reason = "OK";
  content = message (is_v2 ver) item.msg;
  position = some (q.get_num % u32_mod);
}
get_reply ver get_error q =
    do_reply http_badrequest "Get error" "HTTPSQS_GET_ERROR" "UCMQ_HTTP_ERR_GET_ERR" ver

-- The two refusals that the handlers share, with the handler's words for version 1.
unfoldable pub no_name : Option (List ℕ) → String → Reply
unfolding do_reply
no_name ver v1 =
    do_reply http_badrequest "Invalid requst, Can't find name" v1 "UCMQ_HTTP_ERR_INV_NAME" ver

unfoldable pub no_queue : Option (List ℕ) → String → Reply
unfolding do_reply
no_queue ver v1 = do_reply http_badrequest "Can't find queue" v1 "UCMQ_HTTP_ERR_QUE_NO_EXIST" ver

module _ (os : Os) where
  open os use {Sys}

  -- What the handlers do that only work on a queue that is there.
  unfoldable pub on_queue :
      String
      → Request
      → Server os
      → (List ℕ → MqQueue → Run (Server os × List Reply))
      → Run (Server os × List Reply)
  unfolding no_name no_queue with_name find_queue_by_qname
  on_queue v1 req sv act = with_name req.name (ret (sv, no_name req.ver v1 ∷ [])) (λ qname.
      (elim (find_queue_by_qname os qname sv) [
        | none ↦ ret (sv, no_queue req.ver v1 ∷ [])
        | some q ↦ act qname q
      ]))

  unfoldable pub finish_get :
      Request → List ℕ → Server os → Sys × MqQueue × QueueGetRet → Run (Server os × List Reply)
  unfolding get_info get_reply with_queue
  finish_get req qname sv (s, q, result) = ret (
    record (with_queue os qname s q sv) { info = get_info result sv.info },
    get_reply req.ver result q ∷ [],
  )

  unfoldable pub http_opt_get : ℕ → ℕ → Request → Server os → Run (Server os × List Reply)
  unfolding on_queue finish_get pop_item
  http_opt_get fuel now req sv = on_queue "HTTPSQS_GET_ERROR" req sv (λ qname q. (do
    popped ← pop_item os sv.conf fuel now q sv.sys
    finish_get req qname sv popped))

  unfoldable pub http_opt_status : Request → Server os → Run (Server os × List Reply)
  unfolding on_queue get_rtag_info
  http_opt_status req sv = on_queue "HTTPSQS_ERROR" req sv (λ qname q. ret (
    sv,
    record {
      code = http_ok;
      reason = "OK";
      content = status q.qname (get_rtag_info q);
      position = none;
    }
        ∷ [],
  ))

  unfoldable pub http_opt_status_json : Request → Server os → Run (Server os × List Reply)
  unfolding on_queue get_rtag_info
  http_opt_status_json req sv = on_queue "HTTPSQS_ERROR" req sv (λ qname q. ret (
    sv,
    record {
      code = http_ok;
      reason = "OK";
      content = status_json q.qname (get_rtag_info q);
      position = none;
    }
        ∷ [],
  ))
