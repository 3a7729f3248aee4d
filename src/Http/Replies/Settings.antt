-- ===== src/Http/Replies/Settings.antt =====
-- source/mq_evhttp.c: the replies to maxqueue, delay, wlock and synctime, and to any request.
use ucmq.Prelude.{
  ℕ, ◌+◌, ◌≡◌, subst, sym, Bool, true, Option, none, some, List, [], ◌∷◌, if◌then◌else◌,
}
use ucmq.Prelude.Run.{Run}
use ucmq.Types.{MqQueue}
use ucmq.Os.{Os}
use ucmq.QueueManage.{set_delay}
use ucmq.Http.{
  Request, Reply, Server, dest_num, negative_int, req_qname_check, touch_queue_by_qname,
}
use ucmq.Http.Settings.{
  Words, bad_num, no_add, set_reply, finish_set, set_on, delay_words, http_opt_delay,
}
use ucmq.Http.Replies.{
  Answered, Sends, Sends-accepted, Sends-ret, append_Answered, bad_num-Answered,
  do_and_reply-Answered, do_reply-Answered,
}

module _ (os : Os) where
  finish_set-Sends :
      (w : Words) (req : Request) (qname : List ℕ) (n : ℕ) (sent : List Reply) (sv : Server os)
      (done : os.Sys × Option MqQueue × Bool)
      → Answered req.ver n sent
      → Sends os req.ver (n + 1) (finish_set os w req qname sent sv done)
  unfolding finish_set set_reply
  finish_set-Sends w req qname n sent sv (s, none, result) h =
      Sends-ret os req.ver (n + 1) _ _
        (append_Answered req.ver n sent _ h (do_and_reply-Answered result _ _ _ _ _ _ req.ver))
  finish_set-Sends w req qname n sent sv (s, some q, result) h =
      Sends-ret os req.ver (n + 1) _ _
        (append_Answered req.ver n sent _ h (do_and_reply-Answered result _ _ _ _ _ _ req.ver))

  set_on-Sends :
      (w : Words) (req : Request) (qname : List ℕ) (n : ℕ) (sent : List Reply)
      (set : Option MqQueue → os.Sys → os.Sys × Option MqQueue × Bool)
      (found : Server os × Option MqQueue)
      → Answered req.ver n sent
      → Sends os req.ver (n + 1) (set_on os w req qname sent set found)
  unfolding set_on no_add
  set_on-Sends w req qname n sent set (sv, none) h =
      Sends-ret os req.ver (n + 1) _ _
        (append_Answered req.ver n sent _ h (do_reply-Answered _ _ _ _ req.ver))
  set_on-Sends w req qname n sent set (sv, some q) h =
      finish_set-Sends w req qname n sent sv (set (some q) sv.sys) h

  module _ (atoi : List ℕ → ℕ) (req : Request) (sv : Server os) where
    -- A request to set a negative delay, under a name that the check accepts, is answered twice:
    -- the handler goes on after the refusal.
    http_opt_delay_twice :
        (qname : List ℕ)
        → req.name ≡ some qname
        → req_qname_check (some qname) ≡ true
        → negative_int (dest_num atoi req.num) ≡ true
        → Sends os req.ver 2 (http_opt_delay os atoi req sv)
    unfolding http_opt_delay
    http_opt_delay_twice qname named accepted negative =
        Sends-accepted os req.ver 2 req.name _ _ qname named accepted (
          set_on-Sends delay_words req qname 1
            (if negative_int (dest_num atoi req.num) then bad_num delay_words req.ver ∷ [] else [])
            (λ q s. set_delay os sv.conf q (dest_num atoi req.num) s)
            (touch_queue_by_qname os qname sv)
            (subst (λ x. Answered req.ver 1 (if x then bad_num delay_words req.ver ∷ [] else []))
              (sym negative) (bad_num-Answered delay_words req.ver)))
