-- ===== src/Http/Entry.antt =====
-- source/mq_evhttp.c: `mq_evhttp_cb_do_opt_entry`, the entry of every request that is not for /stat or
-- /exec. The headers of the replies are left out.
use ucmq.Prelude.{ℕ, ◌||◌, Option, none, some, List, [], ◌∷◌, ltb, if◌then◌else◌, codes}
use ucmq.Prelude.Bytes.{add32}
use ucmq.Prelude.Run.{Run, ret, ◌>>=◌}
use ucmq.Os.{Os}
use ucmq.QueueManage.Table.{same_name}
use ucmq.Http.{Request, Reply, AppInfo, Server, do_reply}
use ucmq.Http.Put.{http_opt_put}
use ucmq.Http.Get.{http_opt_get, http_opt_status, http_opt_status_json}
use ucmq.Http.Settings.{http_opt_maxqueue, http_opt_delay, http_opt_wlock, http_opt_synctime}
use ucmq.Http.Remove.{http_opt_remove, http_opt_reset}

unfoldable pub http_unknown_opt : Option (List ℕ) → Reply
unfolding do_reply
http_unknown_opt ver =
    do_reply 405 "Unknown option" "HTTPSQS_UNKNWON_OPT" "UCMQ_HTTP_ERR_UNKNOWN_OPT" ver

unfoldable pub http_unparse_req : Option (List ℕ) → Reply
unfolding do_reply
http_unparse_req ver = do_reply 400 "Bad Request" "HTTPSQS_UNPARSE_URI" "UCMQ_HTTP_ERR_BAD_REQ" ver

-- The processing time of a request, the pattern of an `int`; the maximum is an `uint32_t` and the
-- comparison is unsigned.
unfoldable pub timed : ℕ → AppInfo → AppInfo
timed cur_time info = record info {
  times = add32 info.times 1;
  total_time = add32 info.total_time cur_time;
  max_time = if ltb info.max_time cur_time then cur_time else info.max_time;
}

module _ (os : Os) (atoi : List ℕ → ℕ) (fuel now : ℕ) where
  -- The chain of tests on `opt`.
  unfoldable pub do_opt : List ℕ → Request → Server os → Run (Server os × List Reply)
  unfolding same_name http_unknown_opt http_opt_put http_opt_get http_opt_status
      http_opt_status_json http_opt_maxqueue http_opt_delay http_opt_wlock http_opt_synctime
      http_opt_remove http_opt_reset
  do_opt opt req sv =
      if same_name opt (codes "put")
      then http_opt_put os now req sv
      else if same_name opt (codes "get")
      then http_opt_get os fuel now req sv
      else if same_name opt (codes "status")
      then http_opt_status os req sv
      else if same_name opt (codes "status_json")
      then http_opt_status_json os req sv
      else if same_name opt (codes "maxqueue")
      then http_opt_maxqueue os atoi req sv
      else if same_name opt (codes "delay")
      then http_opt_delay os atoi req sv
      else if same_name opt (codes "wlock") || same_name opt (codes "readonly")
      then http_opt_wlock os now atoi req sv
      else if same_name opt (codes "remove")
      then http_opt_remove os req sv
      else if same_name opt (codes "reset")
      then http_opt_reset os req sv
      else if same_name opt (codes "synctime")
      then http_opt_synctime os atoi req sv
      else ret (sv, http_unknown_opt req.ver ∷ [])

  opt_entry : Request → Server os → Run (Server os × List Reply)
  unfolding do_opt http_unknown_opt
  opt_entry req sv = elim req.opt [
    | none ↦ ret (sv, http_unknown_opt req.ver ∷ [])
    | some opt ↦ do_opt opt req sv
  ]

  -- `none` is a query that cannot be parsed; it is answered without its variables and not timed.
  unfoldable pub cb_do_opt_entry : ℕ → Option Request → Server os → Run (Server os × List Reply)
  unfolding opt_entry http_unparse_req timed
  cb_do_opt_entry cur_time none sv = ret (sv, http_unparse_req none ∷ [])
  cb_do_opt_entry cur_time (some req) sv = do
    (sv', replies) ← opt_entry req sv
    ret (record sv' { info = timed cur_time sv'.info }, replies)
