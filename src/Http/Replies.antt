-- ===== src/Http/Replies.antt =====
-- source/mq_evhttp.c: how many replies a request gets, and with which code.
pub mod Messages
pub mod Settings
use ucmq.Prelude.{
  ℕ, ◌+◌, ◌%◌, ◌≡◌, refl, subst, sym, ap, Bool, true, false, not, ◌&&◌, ◌||◌, Option, none, some,
  List, [], ◌∷◌, ◌++◌, All, arith, length, length-append, All-append, ltb, ◌==◌, if◌then◌else◌,
  Bool_cases, either_way, inl, inr, codes, String,
}
use ucmq.Prelude.Bytes.{u32_mod}
use ucmq.Prelude.Run.{Run, ret, fault, out_of_fuel, ◌>>=◌}
use ucmq.Types.{MqQueue}
use ucmq.Os.{Os}
use ucmq.QueueManage.{
  QueuePutRet, put_ok, full, wlock, put_error, QueueGetRet, get_ok, get_end, get_error, minus_one,
  set_maxqueue, set_delay, set_wlock,
}
use ucmq.QueueManage.Table.{same_name, QueueList}
use ucmq.Http.{
  Request, Reply, Server, is_v2, do_reply, do_and_reply, http_ok, dest_num, negative_int,
  req_qname_check, with_name, find_queue_by_qname, touch_queue_by_qname,
}
use ucmq.Http.Put.{
  put_arg_bad, put_len_bad, put_body, http_opt_put, put_reply, finish_put, write_message,
}
use ucmq.Http.Get.{
  no_name, no_queue, on_queue, get_reply, finish_get, http_opt_get, http_opt_status,
  http_opt_status_json,
}
use ucmq.Http.Settings.{
  Words, bad_name, bad_num, no_add, set_reply, finish_set, set_on, queue_max_size, maxqueue_words,
  delay_words, wlock_words, synctime_words, http_opt_maxqueue, http_opt_delay, http_opt_wlock,
  http_opt_synctime,
}
use ucmq.Http.Remove.{finish_remove, finish_reset, add_again, http_opt_remove, http_opt_reset}
use ucmq.Http.Entry.{http_unknown_opt, do_opt}

-- So many replies, and each with the code 200 if the request is of version 2.
unfoldable pub Answered : Option (List ℕ) → ℕ → List Reply → Type 0
Answered ver n replies =
    (length replies ≡ n) × All (λ reply. (not (is_v2 ver) || reply.code == http_ok) ≡ true) replies

pub do_reply-Answered :
    (hc : ℕ) (hr v1 v2 : String) (ver : Option (List ℕ))
    → Answered ver 1 (do_reply hc hr v1 v2 ver ∷ [])
unfolding do_reply Answered
do_reply-Answered hc hr v1 v2 ver = elim (Bool_cases (is_v2 ver)) [
  | inl h ↦ (refl, (ground (arith, h), tt))
  | inr h ↦ (refl, (ground (arith, h), tt))
]

pub plain_Answered :
    (ver : Option (List ℕ)) (reply : Reply) → reply.code ≡ http_ok → Answered ver 1 (reply ∷ [])
unfolding Answered
plain_Answered ver reply h = (refl, (ground (arith, h), tt))

pub do_and_reply-Answered :
    (x : Bool) (m1 m2 : String) (hc : ℕ) (hr v1 v2 : String) (ver : Option (List ℕ))
    → Answered ver 1 (do_and_reply x m1 m2 hc hr v1 v2 ver ∷ [])
unfolding do_and_reply
do_and_reply-Answered true m1 m2 hc hr v1 v2 ver = do_reply-Answered http_ok "OK" m1 m2 ver
do_and_reply-Answered false m1 m2 hc hr v1 v2 ver = do_reply-Answered hc hr v1 v2 ver

pub bad_num-Answered : (w : Words) (ver : Option (List ℕ)) → Answered ver 1 (bad_num w ver ∷ [])
unfolding bad_num
bad_num-Answered w ver = do_reply-Answered _ _ _ _ ver

pub put_reply-Answered :
    (ver : Option (List ℕ)) (result : QueuePutRet) (q : MqQueue)
    → Answered ver 1 (put_reply ver result q ∷ [])
unfolding put_reply do_reply Answered
put_reply-Answered ver put_ok q = elim (Bool_cases (is_v2 ver)) [
  | inl h ↦ (refl, (ground (arith, h), tt))
  | inr h ↦ (refl, (ground (arith, h), tt))
]
put_reply-Answered ver full q = do_reply-Answered _ _ _ _ ver
put_reply-Answered ver wlock q = do_reply-Answered _ _ _ _ ver
put_reply-Answered ver put_error q = do_reply-Answered _ _ _ _ ver

pub get_reply-Answered :
    (ver : Option (List ℕ)) (result : QueueGetRet) (q : MqQueue)
    → Answered ver 1 (get_reply ver result q ∷ [])
unfolding get_reply
get_reply-Answered ver (get_ok item) q = plain_Answered ver (get_reply ver (get_ok item) q) refl
get_reply-Answered ver get_end q = do_reply-Answered _ _ _ _ ver
get_reply-Answered ver get_error q = do_reply-Answered _ _ _ _ ver

-- One more reply behind those that are sent.
pub append_Answered :
    (ver : Option (List ℕ)) (n : ℕ) (sent : List Reply) (reply : Reply)
    → Answered ver n sent
    → Answered ver 1 (reply ∷ [])
    → Answered ver (n + 1) (sent ++ reply ∷ [])
unfolding Answered
append_Answered ver n sent reply h k =
    (omega (arith, length-append sent (reply ∷ []), h.0), All-append _ sent (reply ∷ []) h.1 k.1)

module _ (os : Os) where
  -- What a handler sends, if it ends.
  unfoldable pub Sends : Option (List ℕ) → ℕ → Run (Server os × List Reply) → Type 0
  unfolding Answered
  Sends ver n (ret (sv, replies)) = Answered ver n replies
  Sends ver n fault = Unit
  Sends ver n out_of_fuel = Unit

  pub Sends-ret :
      (ver : Option (List ℕ)) (n : ℕ) (sv : Server os) (replies : List Reply)
      → Answered ver n replies
      → Sends ver n (ret (sv, replies))
  unfolding Sends
  Sends-ret ver n sv replies h = h

  pub reply_one :
      (sv : Server os) (hc : ℕ) (hr v1 v2 : String) (ver : Option (List ℕ))
      → Sends ver 1 (ret (sv, do_reply hc hr v1 v2 ver ∷ []))
  reply_one sv hc hr v1 v2 ver = Sends-ret ver 1 sv _ (do_reply-Answered hc hr v1 v2 ver)

  pub Sends-bind {ℓ} :
      {A : Type ℓ} (ver : Option (List ℕ)) (n : ℕ) (r : Run A)
      (f : A → Run (Server os × List Reply))
      → ((a : A) → Sends ver n (f a))
      → Sends ver n (r >>= f)
  unfolding Sends
  Sends-bind ver n (ret a) f h = h a
  Sends-bind ver n fault f h = tt
  Sends-bind ver n out_of_fuel f h = tt

  pub Sends-named :
      (ver : Option (List ℕ)) (n : ℕ) (name : Option (List ℕ)) (x : Run (Server os × List Reply))
      (f : List ℕ → Run (Server os × List Reply))
      → Sends ver n x
      → ((qname : List ℕ) → Sends ver n (f qname))
      → Sends ver n (with_name name x f)
  unfolding with_name
  Sends-named ver n none x f h k = h
  Sends-named ver n (some qname) x f h k =
      either_way (Sends ver n) (not (req_qname_check (some qname))) h (k qname)

  pub Sends-accepted :
      (ver : Option (List ℕ)) (n : ℕ) (name : Option (List ℕ)) (x : Run (Server os × List Reply))
      (f : List ℕ → Run (Server os × List Reply)) (qname : List ℕ)
      → name ≡ some qname
      → req_qname_check (some qname) ≡ true
      → Sends ver n (f qname)
      → Sends ver n (with_name name x f)
  unfolding with_name
  Sends-accepted ver n name x f qname e accepted h =
      subst (λ o. Sends ver n (with_name o x f)) (sym e)
        (subst (λ b. Sends ver n (if not b then x else f qname)) (sym accepted) h)
