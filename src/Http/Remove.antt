-- ===== src/Http/Remove.antt =====
-- source/mq_evhttp.c: `http_opt_remove`, `http_opt_reset`.
use ucmq.Prelude.{ℕ, Bool, List, [], ◌∷◌}
use ucmq.Prelude.Run.{Run, ret, ◌>>=◌}
use ucmq.Os.{Os}
use ucmq.QueueManage.Table.{QueueList, add_queue, del_queue}
use ucmq.Http.{Request, Reply, Server, do_and_reply, http_badrequest}
use ucmq.Http.Get.{on_queue}

module _ (os : Os) where
  open os use {Sys}

  unfoldable pub finish_remove :
      Request → Server os → Sys × QueueList × Bool → Server os × List Reply
  unfolding do_and_reply
  finish_remove req sv (s, qlist, result) = (
    record sv { sys = s; qlist = qlist },
    do_and_reply result "HTTPSQS_REMOVE_OK" "UCMQ_HTTP_OK" http_badrequest "Remove error"
          "HTTPSQS_REMOVE_ERROR" "UCMQ_HTTP_ERR_REMOVE_ERR" req.ver
        ∷ [],
  )

  unfoldable pub http_opt_remove : Request → Server os → Run (Server os × List Reply)
  unfolding on_queue finish_remove del_queue
  http_opt_remove req sv = on_queue os "HTTPSQS_REMOVE_ERROR" req sv (λ qname q. (do
    done ← del_queue os sv.conf qname sv.qlist sv.sys
    ret (finish_remove req sv done)))

  unfoldable pub finish_reset :
      Request → Server os → Sys × QueueList × Bool → Server os × List Reply
  unfolding do_and_reply
  finish_reset req sv (s, qlist, result) = (
    record sv { sys = s; qlist = qlist },
    do_and_reply result "HTTPSQS_RESET_OK" "UCMQ_HTTP_OK" http_badrequest "Reset error"
          "HTTPSQS_RESET_ERROR" "UCMQ_HTTP_ERR_RESET_ERR" req.ver
        ∷ [],
  )

  -- The queue is deleted, whatever that gives, and added again.
  unfoldable pub add_again :
      Request → List ℕ → Server os → Sys × QueueList × Bool → Server os × List Reply
  unfolding finish_reset add_queue
  add_again req qname sv (s, qlist, removed) =
      finish_reset req sv (add_queue os sv.conf qname qlist s)

  unfoldable pub http_opt_reset : Request → Server os → Run (Server os × List Reply)
  unfolding on_queue add_again del_queue
  http_opt_reset req sv = on_queue os "HTTPSQS_RESET_ERROR" req sv (λ qname q. (do
    done ← del_queue os sv.conf qname sv.qlist sv.sys
    ret (add_again req qname sv done)))
