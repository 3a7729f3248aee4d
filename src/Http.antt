-- ===== src/Http.antt =====
-- source/mq_evhttp.c: what the request handlers share. libevent's requests and replies are values: a
-- request's query variables, and the replies that a handler sends, in their order. `atoi` of libc is a
-- parameter that gives the 32-bit pattern of an `int`.
pub mod Put
pub mod Get
pub mod Settings
pub mod Remove
pub mod Entry
pub mod Timers
pub mod Exec
pub mod Pages
pub mod Names
pub mod Replies
pub mod Touch
pub mod Trace
use ucmq.Prelude.{
  ℕ, ◌+◌, ◌^◌, Bool, true, false, not, ◌&&◌, ◌||◌, Option, none, some, List, [], ◌∷◌, leb, ltb,
  ◌==◌, if◌then◌else◌, length, String, codes,
}
use ucmq.Config.{UcmqConf}
use ucmq.Types.{MqQueue, DbMap}
use ucmq.Os.{Os}
use ucmq.QueueManage.{minus_one}
use ucmq.QueueManage.Table.{QueueList, same_name, find_queue, add_queue, put_back}

-- The query variables that the handlers look up, and the body of a POST.
pub record Request : Type 0 where
  pub ver : Option (List ℕ)
  pub opt : Option (List ℕ)
  pub name : Option (List ℕ)
  pub data_arg : Option (List ℕ)
  pub num : Option (List ℕ)
  pub input_buffer : List ℕ

-- app_info_t
pub record AppInfo : Type 0 where
  pub put : ℕ
  pub get : ℕ
  pub times : ℕ
  pub total_time : ℕ
  pub max_time : ℕ
  pub count : ℕ
  pub put_size : ℕ

-- rtag_item_t
pub record RtagItem : Type 0 where
  pub rcount : ℕ
  pub wpos : ℕ
  pub rpos : ℕ
  pub unread : ℕ
  pub put_num : ℕ
  pub get_num : ℕ
  pub maxqueue : ℕ
  pub delay : ℕ
  pub wlock : ℕ

unfoldable pub get_rtag_info : MqQueue → RtagItem
get_rtag_info q = record {
  rcount = q.cur_rdb.opt_count;
  rpos = q.cur_rdb.pos;
  wpos = q.cur_wdb.pos;
  put_num = q.put_num;
  get_num = q.get_num;
  unread = q.unread_count;
  maxqueue = q.maxque;
  delay = q.delay;
  wlock = q.wlock;
}

-- What a reply carries: a line, a message (with the line UCMQ_HTTP_OK in front for version 2), or the
-- values that the status texts print.
pub data Content : Type 0 where
  line : String → Content
  message : Bool → List ℕ → Content
  status status_json : List ℕ → RtagItem → Content

-- `position` is the header "Pos".
pub record Reply : Type 0 where
  pub code : ℕ
  pub reason : String
  pub content : Content
  pub position : Option ℕ

abbrev pub http_ok : ℕ
http_ok = 200

abbrev pub http_badrequest : ℕ
http_badrequest = 400

abbrev pub http_notfound : ℕ
http_notfound = 404

-- `ver != NULL && strcmp(ver, "2") == 0`
unfoldable pub is_v2 : Option (List ℕ) → Bool
is_v2 none = false
is_v2 (some ver) = same_name ver (50 ∷ [])

-- MQ_DO_REPLY
unfoldable pub do_reply : ℕ → String → String → String → Option (List ℕ) → Reply
unfolding is_v2
do_reply hc hr v1 v2 ver =
    if is_v2 ver
    then record { code = http_ok; reason = "OK"; content = line v2; position = none }
    else record { code = hc; reason = hr; content = line v1; position = none }

-- MQ_DO_AND_REPLY
unfoldable pub do_and_reply :
    Bool → String → String → ℕ → String → String → String → Option (List ℕ) → Reply
unfolding do_reply
do_and_reply true m1 m2 hc hr v1 v2 ver = do_reply http_ok "OK" m1 m2 ver
do_and_reply false m1 m2 hc hr v1 v2 ver = do_reply hc hr v1 v2 ver

abbrev pub max_queue_name_len : ℕ
max_queue_name_len = 32

abbrev pub between : ℕ → ℕ → ℕ → Bool
between a b c = leb a c && leb c b

unfoldable pub name_char : ℕ → Bool
name_char c = between 48 57 c || between 97 122 c || between 65 90 c

unfoldable pub is_end : List ℕ → Bool
is_end [] = true
is_end (c ∷ str) = false

-- The loop of `req_qname_check`; `first` is `i == 0`.
unfoldable pub name_chars : Bool → List ℕ → Bool
unfolding name_char is_end
name_chars first [] = true
name_chars first (c ∷ str) =
    let rest = name_chars false str in
    if not (name_char c)
    then (if not (c == 95) || (c == 95 && first) || (is_end str && c == 95) then false else rest)
    else rest

unfoldable pub req_qname_check : Option (List ℕ) → Bool
unfolding name_chars
req_qname_check none = false
req_qname_check (some qname) =
    if leb (length qname) 0 || ltb max_queue_name_len (length qname)
    then false
    else name_chars true qname

-- The check of the name that the handlers begin with: a refusal, or the rest on the name.
unfoldable pub with_name {ℓ} : {A : Type ℓ} → Option (List ℕ) → A → (List ℕ → A) → A
unfolding req_qname_check
with_name none refusal rest = refusal
with_name (some qname) refusal rest =
    if not (req_qname_check (some qname)) then refusal else rest qname

-- `dest_num`: -1 if the request has no number.
unfoldable pub dest_num : (List ℕ → ℕ) → Option (List ℕ) → ℕ
dest_num atoi none = minus_one
dest_num atoi (some num) = atoi num

-- `x < 0` for an `int`.
abbrev pub negative_int : ℕ → Bool
negative_int x = leb (2 ^ 31) x

module _ (os : Os) where
  -- What the handlers change.
  pub record Server : Type 0 where
    pub sys : os.Sys
    pub qlist : QueueList
    pub info : AppInfo
    pub conf : UcmqConf

  unfoldable pub find_queue_by_qname : List ℕ → Server → Option MqQueue
  unfolding find_queue
  find_queue_by_qname qname sv = find_queue qname sv.qlist

  unfoldable pub touched : List ℕ → Server → os.Sys × QueueList × Bool → Server × Option MqQueue
  unfolding find_queue
  touched qname sv (s, qlist, false) = (record sv { sys = s; qlist = qlist }, none)
  touched qname sv (s, qlist, true) = (record sv { sys = s; qlist = qlist }, find_queue qname qlist)

  -- A queue that is not there is created.
  unfoldable pub touch_queue_by_qname : List ℕ → Server → Server × Option MqQueue
  unfolding touched find_queue_by_qname add_queue
  touch_queue_by_qname qname sv = elim (find_queue_by_qname qname sv) [
    | some q ↦ (sv, some q)
    | none ↦ touched qname sv (add_queue os sv.conf qname sv.qlist sv.sys)
  ]

  -- A handler has changed the queue that its pointer leads to.
  unfoldable pub with_queue : List ℕ → os.Sys → MqQueue → Server → Server
  unfolding put_back
  with_queue qname s q sv = record sv { sys = s; qlist = put_back qname q sv.qlist }
