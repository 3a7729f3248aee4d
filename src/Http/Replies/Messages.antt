-- ===== src/Http/Replies/Messages.antt =====
-- source/mq_evhttp.c: the replies to put, get, status, status_json, remove and reset.
use ucmq.Prelude.{
  ℕ, ◌%◌, refl, Bool, ◌||◌, Option, none, some, List, [], ◌∷◌, length, either_way, String,
}
use ucmq.Prelude.Bytes.{u32_mod}
use ucmq.Prelude.Run.{Run, ret}
use ucmq.Types.{MqQueue}
use ucmq.Os.{Os}
use ucmq.QueueManage.{QueuePutRet, QueueGetRet}
use ucmq.QueueManage.Table.{QueueList}
use ucmq.Http.{Request, Reply, Server, find_queue_by_qname, touch_queue_by_qname}
use ucmq.Http.Put.{put_arg_bad, put_len_bad, put_body, http_opt_put, finish_put, write_message}
use ucmq.Http.Get.{
  no_name, no_queue, on_queue, finish_get, http_opt_get, http_opt_status, http_opt_status_json,
}
use ucmq.Http.Remove.{finish_remove, finish_reset, add_again, http_opt_remove, http_opt_reset}
use ucmq.Http.Replies.{
  Sends, Sends-bind, Sends-named, Sends-ret, do_and_reply-Answered, get_reply-Answered,
  plain_Answered, put_reply-Answered, reply_one,
}

module _ (os : Os) where
  finish_put-Sends :
      (req : Request) (qname : List ℕ) (sv : Server os) (done : os.Sys × MqQueue × QueuePutRet)
      → Sends os req.ver 1 (finish_put os req qname sv done)
  unfolding finish_put
  finish_put-Sends req qname sv (s, q, result) =
      Sends-ret os req.ver 1 _ _ (put_reply-Answered req.ver result _)

  write_message-Sends :
      (now : ℕ) (req : Request) (qname : List ℕ) (found : Server os × Option MqQueue)
      → Sends os req.ver 1 (write_message os now req qname found)
  unfolding write_message
  write_message-Sends now req qname (sv, none) = reply_one os sv _ _ _ _ req.ver
  write_message-Sends now req qname (sv, some q) =
      Sends-bind os req.ver 1 _ (finish_put os req qname sv) (finish_put-Sends req qname sv)

  pub put_Sends :
      (now : ℕ) (req : Request) (sv : Server os) → Sends os req.ver 1 (http_opt_put os now req sv)
  unfolding http_opt_put
  put_Sends now req sv =
      Sends-named os req.ver 1 req.name _ _ (reply_one os sv _ _ _ _ req.ver) (λ qname.
        either_way (Sends os req.ver 1)
          (put_arg_bad req || put_len_bad sv.conf (length (put_body req) % u32_mod))
          (reply_one os sv _ _ _ _ req.ver)
          (write_message-Sends now req qname (touch_queue_by_qname os qname sv)))

  on_queue-Sends :
      (v1 : String) (req : Request) (sv : Server os)
      (act : List ℕ → MqQueue → Run (Server os × List Reply))
      → ((qname : List ℕ) (q : MqQueue) → Sends os req.ver 1 (act qname q))
      → Sends os req.ver 1 (on_queue os v1 req sv act)
  unfolding on_queue no_name no_queue
  on_queue-Sends v1 req sv act h =
      Sends-named os req.ver 1 req.name _ _ (reply_one os sv _ _ _ _ req.ver)
        (λ qname. found qname (find_queue_by_qname os qname sv))
    where
      found :
          (qname : List ℕ) (o : Option MqQueue)
          → Sends os req.ver 1
              (elim o [ none ↦ ret (sv, no_queue req.ver v1 ∷ []) | some q ↦ act qname q ])
      found qname none = reply_one os sv _ _ _ _ req.ver
      found qname (some q) = h qname q

  finish_get-Sends :
      (req : Request) (qname : List ℕ) (sv : Server os) (done : os.Sys × MqQueue × QueueGetRet)
      → Sends os req.ver 1 (finish_get os req qname sv done)
  unfolding finish_get
  finish_get-Sends req qname sv (s, q, result) =
      Sends-ret os req.ver 1 _ _ (get_reply-Answered req.ver result q)

  pub get_Sends :
      (fuel now : ℕ) (req : Request) (sv : Server os)
      → Sends os req.ver 1 (http_opt_get os fuel now req sv)
  unfolding http_opt_get
  get_Sends fuel now req sv = on_queue-Sends _ req sv _ (λ qname q.
      Sends-bind os req.ver 1 _ (finish_get os req qname sv) (finish_get-Sends req qname sv))

  pub status_Sends :
      (req : Request) (sv : Server os) → Sends os req.ver 1 (http_opt_status os req sv)
  unfolding http_opt_status
  status_Sends req sv =
      on_queue-Sends _ req sv _
        (λ qname q. Sends-ret os req.ver 1 sv _ (plain_Answered req.ver _ refl))

  pub status_json_Sends :
      (req : Request) (sv : Server os) → Sends os req.ver 1 (http_opt_status_json os req sv)
  unfolding http_opt_status_json
  status_json_Sends req sv =
      on_queue-Sends _ req sv _
        (λ qname q. Sends-ret os req.ver 1 sv _ (plain_Answered req.ver _ refl))

  pub remove_Sends :
      (req : Request) (sv : Server os) → Sends os req.ver 1 (http_opt_remove os req sv)
  unfolding http_opt_remove finish_remove
  remove_Sends req sv = on_queue-Sends _ req sv _ (λ qname q.
      Sends-bind os req.ver 1 _ (λ done. ret (finish_remove os req sv done))
        (λ (s, qlist, result).
          Sends-ret os req.ver 1 _ _ (do_and_reply-Answered result _ _ _ _ _ _ req.ver)))

  add_again-Sends :
      (req : Request) (qname : List ℕ) (sv : Server os) (done : os.Sys × QueueList × Bool)
      → Sends os req.ver 1 (ret (add_again os req qname sv done))
  unfolding add_again finish_reset
  add_again-Sends req qname sv done =
      Sends-ret os req.ver 1 _ _ (do_and_reply-Answered _ _ _ _ _ _ _ req.ver)

  pub reset_Sends : (req : Request) (sv : Server os) → Sends os req.ver 1 (http_opt_reset os req sv)
  unfolding http_opt_reset
  reset_Sends req sv = on_queue-Sends _ req sv _ (λ qname q.
      Sends-bind os req.ver 1 _ (λ done. ret (add_again os req qname sv done))
        (add_again-Sends req qname sv))
