-- ===== src/Http/Put.antt =====
-- source/mq_evhttp.c: `http_opt_put`.
use ucmq.Prelude.{
  ℕ, ◌%◌, Bool, true, false, not, ◌&&◌, ◌||◌, Option, none, some, List, [], ◌∷◌, ltb, ◌==◌,
  if◌then◌else◌, length,
}
use ucmq.Prelude.Bytes.{u32_mod, add32, add64, sub32}
use ucmq.Prelude.Run.{Run, ret, ◌>>=◌}
use ucmq.Config.{UcmqConf, max_db_file_size}
use ucmq.Types.{MqQueue, db_file_head_len, msg_head_len}
use ucmq.Os.{Os}
use ucmq.QueueManage.{QueuePutRet, put_ok, full, wlock, put_error, positive_int, push_item}
use ucmq.Http.{
  Request, Reply, AppInfo, Server, do_reply, http_ok, http_badrequest, with_name,
  touch_queue_by_qname, with_queue,
}

abbrev pub is_some : Option (List ℕ) → Bool
is_some none = false
is_some (some data_arg) = true

-- The first check: a body and an argument, or neither.
unfoldable pub put_arg_bad : Request → Bool
put_arg_bad req =
    let buffer_size = length req.input_buffer % u32_mod in
    (positive_int buffer_size && is_some req.data_arg)
    || (not (positive_int buffer_size) && not (is_some req.data_arg))

-- `msg_item.msg`; the argument counts if it is there.
abbrev pub put_body : Request → List ℕ
put_body req = elim req.data_arg [ none ↦ req.input_buffer | some data_arg ↦ data_arg ]

-- The second check: the length, a `uint32_t`.
unfoldable pub put_len_bad : UcmqConf → ℕ → Bool
put_len_bad conf len =
    len == 0
    || ltb (sub32 (sub32 (max_db_file_size conf % u32_mod) db_file_head_len) msg_head_len) len

unfoldable pub counted : QueuePutRet → MqQueue → MqQueue
counted put_ok q = record q { unread_count = add64 q.unread_count 1 }
counted full q = q
counted wlock q = q
counted put_error q = q

unfoldable pub put_info : ℕ → QueuePutRet → AppInfo → AppInfo
put_info buffer_size put_ok info = record info {
  put_size = add64 info.put_size buffer_size;
  put = add32 info.put 1;
  count = add64 info.count 1;
}
put_info buffer_size full info = info
put_info buffer_size wlock info = info
put_info buffer_size put_error info = info

-- The `switch`; the queue has been counted.
unfoldable pub put_reply : Option (List ℕ) → QueuePutRet → MqQueue → Reply
unfolding do_reply
put_reply ver wlock q =
    do_reply http_badrequest "Put error, queue is write lock" "HTTPSQS_PUT_READONLY"
      "UCMQ_HTTP_ERR_WLOCK" ver
put_reply ver full q =
    do_reply http_badrequest "Put error, queue is full" "HTTPSQS_PUT_FULL" "UCMQ_HTTP_ERR_QUE_FULL"
      ver
put_reply ver put_ok q = record (do_reply http_ok "OK" "HTTPSQS_PUT_OK" "UCMQ_HTTP_OK" ver) {
  position = some (q.put_num % u32_mod);
}
put_reply ver put_error q =
    do_reply http_badrequest "Put error" "HTTPSQS_PUT_ERROR" "UCMQ_HTTP_ERR_PUT_ERR" ver

module _ (os : Os) where
  open os use {Sys}

  unfoldable pub finish_put :
      Request → List ℕ → Server os → Sys × MqQueue × QueuePutRet → Run (Server os × List Reply)
  unfolding counted put_info put_reply with_queue
  finish_put req qname sv (s, q, result) =
      let q' = counted result q in
      ret (
        record (with_queue os qname s q' sv) {
          info = put_info (length (put_body req) % u32_mod) result sv.info;
        },
        put_reply req.ver result q' ∷ [],
      )

  unfoldable pub write_message :
      ℕ → Request → List ℕ → Server os × Option MqQueue → Run (Server os × List Reply)
  unfolding finish_put push_item
  write_message now req qname (sv, none) = ret (
    sv,
    do_reply http_badrequest "Create queue fail" "HTTPSQS_PUT_ERROR" "UCMQ_HTTP_ERR_QUE_ADD_ERR"
          req.ver
        ∷ [],
  )
  write_message now req qname (sv, some q) = do
    done ← push_item os sv.conf now (put_body req) q sv.sys
    finish_put req qname sv done

  unfoldable pub http_opt_put : ℕ → Request → Server os → Run (Server os × List Reply)
  unfolding with_name put_arg_bad put_len_bad write_message touch_queue_by_qname do_reply
  http_opt_put now req sv =
      let bad_data =
        do_reply http_badrequest "Invalid requst, Invalid requst" "HTTPSQS_PUT_ERROR"
          "UCMQ_HTTP_ERR_INV_DATA" req.ver in
      let bad_name =
        do_reply http_badrequest "Invalid requst, Can't find name" "HTTPSQS_PUT_ERROR"
          "UCMQ_HTTP_ERR_INV_NAME" req.ver in
      with_name req.name (ret (sv, bad_name ∷ [])) (λ qname.
        if put_arg_bad req || put_len_bad sv.conf (length (put_body req) % u32_mod)
        then ret (sv, bad_data ∷ [])
        else write_message now req qname (touch_queue_by_qname os qname sv))
