-- ===== src/Http/Exec.antt =====
-- source/mq_evhttp.c: `mq_evhttp_set_headers`, and /exec (`mq_evhttp_cb_do_exec`): a command of an
-- administrator. A page is its headers and bytes. What `read_file` of source/mq_util.c gives for a path
-- and strtoll are arguments. The log lines are left out.
pub mod Allowed
use ucmq.Prelude.{
  ℕ, ◌+◌, Bool, true, false, not, ◌&&◌, Option, none, some, List, [], ◌∷◌, ◌++◌, String, codes, leb,
  ◌==◌, if◌then◌else◌, length, take,
}
use ucmq.Prelude.Decimal.{padded}
use ucmq.Prelude.Run.{Run, ret, ◌>>=◌}
use ucmq.Config.{UcmqConf}
use ucmq.Config.Read.{read_conf_file}
use ucmq.Os.{Os}
use ucmq.Io.{Host}
use ucmq.Util.{FileText, str_to_ll}
use ucmq.QueueManage.Table.{same_name, sync_store}
use ucmq.Http.{Server}

-- "%d", "%u", "%llu" of a number that is not negative.
abbrev pub dec : ℕ → List ℕ
dec n = padded 1 n

abbrev pub crlf : List ℕ
crlf = 13 ∷ 10 ∷ []

-- A reply with its headers, as they are added.
pub record Page : Type 0 where
  pub code : ℕ
  pub reason : String
  pub headers : List (String × List ℕ)
  pub body : List ℕ

abbrev pub max_charset_size : ℕ
max_charset_size = 40

-- The value of Content-Type; the buffer of 64 bytes has room for every type in use.
unfoldable pub content_type : List ℕ → Option (List ℕ) → List ℕ
content_type type none = type
content_type type (some charset) =
    if not (length charset == 0) && leb (length charset) max_charset_size
    then type ++ (codes "; charset=" ++ charset)
    else type

-- A letter in lower case, as strncasecmp compares.
unfoldable pub to_lower : ℕ → ℕ
to_lower c = if leb 65 c && leb c 90 then c + 32 else c

unfoldable pub lower_all : List ℕ → List ℕ
unfolding to_lower
lower_all [] = []
lower_all (c ∷ cs) = to_lower c ∷ lower_all cs

unfoldable pub is_keep_alive : Option (List ℕ) → Bool
unfolding lower_all same_name
is_keep_alive none = false
is_keep_alive (some connection) = same_name (lower_all (take 10 connection)) (codes "keep-alive")

unfoldable pub set_headers :
    List ℕ → Option (List ℕ) → List ℕ → Option (List ℕ) → Bool → List (String × List ℕ)
unfolding content_type is_keep_alive
set_headers keep_alive connection type charset force_close =
    ("Content-Type", content_type type charset)
    ∷ ("Cache-Control", codes "no-cache")
    ∷ (if not force_close && is_keep_alive connection
        then ("Connection", codes "keep-alive") ∷ ("keep-alive", keep_alive) ∷ []
        else ("Connection", codes "close") ∷ [])

-- A request to /exec or /stat: the peer, and the variables and headers that are looked up.
pub record AdminRequest : Type 0 where
  pub ip : List ℕ
  pub port : ℕ
  pub cmd : Option (List ℕ)
  pub file : Option (List ℕ)
  pub type_arg : Option (List ℕ)
  pub charset : Option (List ℕ)
  pub connection : Option (List ℕ)

-- PATH_MAX - 2 characters and a zero are kept.
unfoldable pub proc_path : ℕ → List ℕ → List ℕ
proc_path pid file = take 4094 (codes "/proc/" ++ (dec pid ++ (codes "/" ++ file)))

-- What was read, or the message and the end of a line.
unfoldable pub file_body : FileText → List ℕ
file_body t = elim (t.size) [ none ↦ t.buffer ++ crlf | some n ↦ take n t.buffer ]

module _ (os : Os) where
  -- The server, and what was written to the pipe that ends it.
  abbrev pub Admin : Type 0
  Admin = Server os × List (List ℕ)

  -- The test on the address of the peer.
  unfoldable pub refuses : (List ℕ → List ℕ × ℕ × ℕ) → AdminRequest → Server os → Bool
  unfolding same_name str_to_ll
  refuses strtoll req sv =
      not (same_name sv.conf.allow_exec_ip req.ip)
      && not (str_to_ll strtoll (some (sv.conf.allow_exec_ip)) == 0)

  unfoldable pub refused : AdminRequest → Page
  refused req = record {
    code = 401;
    reason = "Unauthorized";
    headers = [];
    body = codes "You can not exec cmd from " ++ (req.ip ++ (codes " " ++ crlf));
  }

  unfoldable pub no_cmd : Page
  no_cmd = record {
    code = 400;
    reason = "Unknown cmd";
    headers = [];
    body = codes "You can not find exec cmd " ++ crlf;
  }

  unfoldable pub exec_page : AdminRequest → Server os → List ℕ → Page
  unfolding set_headers
  exec_page req sv text = record {
    code = 200;
    reason = "OK";
    headers = set_headers sv.conf.keep_alive req.connection (codes "text/plain") req.charset true;
    body = text;
  }

  unfoldable pub exec_ok : AdminRequest → List ℕ → List ℕ
  exec_ok req cmd =
      codes "Exec cmd : "
      ++ (cmd
          ++ (codes " from "
              ++ (req.ip
                  ++ (codes ":"
                      ++ (dec req.port
                          ++ (codes " " ++ (crlf ++ (codes "Exec cmd result : ok" ++ crlf))))))))

  module _ (pid : ℕ) (read_file : os.Sys → List ℕ → FileText)
      (read_conf : UcmqConf → Run UcmqConf) where
    unfoldable pub get_text : AdminRequest → Server os → List ℕ
    unfolding proc_path file_body
    get_text req sv = elim (req.file) [
      | none ↦ codes "no files" ++ crlf
      | some file ↦ file_body (read_file sv.sys (proc_path pid file))
    ]

    -- The commands; at most one of the three tests holds.
    unfoldable pub exec_cmd : List ℕ → AdminRequest → Admin → Run (Admin × Page)
    unfolding same_name sync_store exec_page exec_ok get_text
    exec_cmd cmd req (sv, pipe) =
        if same_name cmd (codes "kill")
        then ret (
          (
            record sv { sys = sync_store os sv.conf sv.qlist sv.sys },
            pipe ++ codes "kill by remote request" ∷ [],
          ),
          exec_page req sv (exec_ok req cmd),
        )
        else if same_name cmd (codes "reload")
        then (do
          conf ← read_conf sv.conf
          ret ((record sv { conf = conf }, pipe), exec_page req sv (exec_ok req cmd)))
        else if same_name cmd (codes "get")
        then ret ((sv, pipe), exec_page req sv (get_text req sv))
        else ret ((sv, pipe), exec_page req sv (codes "Unknown cmd : " ++ (cmd ++ crlf)))

    unfoldable pub with_cmd : Option (List ℕ) → AdminRequest → Admin → Run (Admin × Page)
    unfolding no_cmd exec_cmd
    with_cmd none req st = ret (st, no_cmd)
    with_cmd (some cmd) req st = exec_cmd cmd req st

    unfoldable pub cb_do_exec :
        (List ℕ → List ℕ × ℕ × ℕ) → AdminRequest → Admin → Run (Admin × Page)
    unfolding refuses refused with_cmd
    cb_do_exec strtoll req (sv, pipe) =
        if refuses strtoll req sv
        then ret ((sv, pipe), refused req)
        else with_cmd req.cmd req (sv, pipe)
