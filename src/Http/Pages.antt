-- ===== src/Http/Pages.antt =====
-- source/mq_evhttp.c: the pages of /stat (`mq_evhttp_cb_do_view_stat`) and their tables of queues. The
-- texts of the build (version, date and time), of numbers of type double, and the results of
-- sscanf are arguments.
use ucmq.Prelude.{
  ℕ, ◌+◌, ◌*◌, ◌/◌, ◌%◌, ◌^◌, Bool, true, false, Option, none, some, List, [], ◌∷◌, ◌++◌, codes,
  ◌==◌, if◌then◌else◌, get_or, take,
}
use ucmq.Types.{MqQueue}
use ucmq.Os.{Os}
use ucmq.Util.{FileText}
use ucmq.QueueManage.Table.{QueueList}
use ucmq.Http.{AppInfo, RtagItem, Server, get_rtag_info}
use ucmq.Http.Exec.{dec, crlf, Page, set_headers, AdminRequest, proc_path}

-- What the program prints and does not compute with integers.
pub record Texts : Type 0 where
  pub version : List ℕ
  -- __DATE__, a space and __TIME__.
  pub built : List ℕ
  -- "%.1f" of the first number times 100.0 by the second.
  pub percent : ℕ → ℕ → List ℕ
  -- "%f" of 0.000001 times the first number by the second.
  pub ms_each : ℕ → ℕ → List ℕ
  -- The numbers that sscanf finds behind so many words, as 64-bit patterns.
  pub numbers : ℕ → List ℕ → List ℕ

-- strncmp(str, prefix, strlen(prefix)) == 0
unfoldable pub begins : List ℕ → List ℕ → Bool
begins [] str = true
begins (c ∷ prefix) [] = false
begins (c ∷ prefix) (d ∷ str) = if c == d then begins prefix str else false

unfoldable pub drop_one : List ℕ → List ℕ
drop_one [] = []
drop_one (n ∷ values) = values

module _ (t : Texts) where
  -- "%"PRIu64" (%.1f%%)"
  unfoldable pub unread_text : RtagItem → List ℕ
  unread_text info =
      dec info.unread ++ (codes " (" ++ (t.percent info.unread info.maxqueue ++ codes "%)"))

  abbrev pub cell : List ℕ → List ℕ
  cell text = codes "<TD align=center>" ++ (text ++ codes "</TD>")

  -- A number of an unsigned type is never negative, so no cell is "N/A".
  unfoldable pub get_queue_stat : MqQueue → List ℕ
  unfolding unread_text get_rtag_info
  get_queue_stat q =
      let info = get_rtag_info q in
      codes "<TR><TD align=left>"
      ++ (q.qname
          ++ (codes "</TD>"
              ++ (cell (dec info.put_num)
                  ++ (cell (dec info.get_num)
                      ++ (cell (unread_text info)
                          ++ (cell (dec info.maxqueue)
                              ++ (cell (dec info.delay)
                                  ++ (cell (dec info.wlock) ++ (codes "</TR>" ++ crlf)))))))))

  -- "\"key\":\"text\""
  abbrev pub field : List ℕ → List ℕ → List ℕ
  field key text = 34 ∷ key ++ (34 ∷ 58 ∷ 34 ∷ text ++ 34 ∷ [])

  unfoldable pub queue_fields : MqQueue → List ℕ
  unfolding unread_text get_rtag_info
  queue_fields q =
      let info = get_rtag_info q in
      123 ∷ field (codes "name") q.qname
      ++ (44 ∷ field (codes "putnum") (dec info.put_num)
          ++ (44 ∷ field (codes "getnum") (dec info.get_num)
              ++ (44 ∷ field (codes "unread") (unread_text info)
                  ++ (44 ∷ field (codes "maxqueue") (dec info.maxqueue)
                      ++ (44 ∷ field (codes "delay") (dec info.delay)
                          ++ (44 ∷ field (codes "wlock") (dec info.wlock) ++ 125 ∷ []))))))

  -- A comma stands before every queue but the first.
  unfoldable pub get_queue_stat_json : MqQueue → ℕ → List ℕ
  unfolding queue_fields
  get_queue_stat_json q qlist_index =
      if qlist_index == 0 then queue_fields q else 44 ∷ queue_fields q

  unfoldable pub get_all_queue_stat : QueueList → List ℕ
  unfolding get_queue_stat
  get_all_queue_stat [] = []
  get_all_queue_stat ((key, q) ∷ qlist) = get_queue_stat q ++ get_all_queue_stat qlist

  -- The loop, from a queue and its index on.
  unfoldable pub all_json_from : ℕ → QueueList → List ℕ
  unfolding get_queue_stat_json
  all_json_from qlist_index [] = []
  all_json_from qlist_index ((key, q) ∷ qlist) =
      get_queue_stat_json q qlist_index ++ all_json_from (qlist_index + 1) qlist

  unfoldable pub get_all_queue_stat_json : QueueList → List ℕ
  unfolding all_json_from
  get_all_queue_stat_json qlist = all_json_from 0 qlist

  -- The page of a browser; the line breaks of the source inside the texts are spaces.
  unfoldable pub html_page : QueueList → List ℕ
  unfolding get_all_queue_stat
  html_page qlist =
      codes "<HTML>"
      ++ (crlf
          ++ (codes "<HEAD>"
              ++ (crlf
                  ++ (codes "<TITLE>UCMQ STAT INFORMATION v"
                      ++ (t.version
                          ++ (codes " ("
                              ++ (t.built
                                  ++ (codes ")</TITLE>"
                                      ++ (crlf
                                          ++ (codes "<META HTTP-EQUIV=\"refresh\" CONTENT=\"5\">"
                                              ++ (crlf
                                                  ++ (codes "</HEAD>"
                                                      ++ (crlf
                                                          ++ (codes
                                                            "<BODY style=\"font-family:verdana\">"
                                                            ++ (crlf
                                                            ++ (codes
                                                            "<TABLE width=90% align=center border=1 cellspacing=0>"
                                                            ++ (crlf
                                                            ++ (codes
                                                            "<TR bgcolor=yellow>                 <TH width=20% align=left>QUEUE NAME</TH>                 <TH align=center>WRITE_POS</TH>                 <TH align=center>READ_POS</TH>                 <TH align=center>UNREAD(%)</TH>                 <TH align=center>MAXQUEUE</TH>                 <TH align=center>DELAY</TH>                 <TH align=center>WLOCK</TH>                 </TR>"
                                                            ++ (crlf
                                                            ++ (get_all_queue_stat qlist
                                                            ++ (codes "</TABLE>"
                                                            ++ (crlf
                                                            ++ (codes "</BODY>"
                                                            ++ (crlf
                                                            ++ codes
                                                            "</HTML>"))))))))))))))))))))))))

  -- The sums of the last minute; `put` and `get` are `uint32_t`.
  unfoldable pub info_page : AppInfo → List ℕ
  info_page last =
      codes "{\"put\":\""
      ++ (dec last.put
          ++ (codes "\",\"get\":"
              ++ (dec last.get
                  ++ (codes ",\"avg size\":"
                      ++ (dec (if last.put == 0 then 0 else last.put_size / last.put % 2 ^ 32)
                          ++ (codes ",\"avg op time\":"
                              ++ ((if last.times == 0
                                    then t.ms_each 0 1
                                    else t.ms_each last.total_time last.times)
                                  ++ (codes ",\"max op time\":"
                                      ++ (t.ms_each last.max_time 1 ++ codes "}")))))))))

  -- The names of the values, the first one quoted.
  unfoldable pub values_from : List (List ℕ) → List ℕ → ℕ → List ℕ
  unfolding drop_one
  values_from [] values shift = codes "}"
  values_from (key ∷ keys) values shift =
      44 ∷ 34 ∷ key
      ++ (34 ∷ 58 ∷ dec (get_or values 0 0 * shift % 2 ^ 64)
          ++ values_from keys (drop_one values) shift)

  unfoldable pub values_text : List ℕ → List (List ℕ) → List ℕ → ℕ → List ℕ
  unfolding values_from drop_one
  values_text first keys values shift =
      123 ∷ 34 ∷ first
      ++ (34 ∷ 58 ∷ 34 ∷ dec (get_or values 0 0 * shift % 2 ^ 64)
          ++ (34 ∷ values_from keys (drop_one values) shift))

  -- A page of /proc that cannot be read is the message and the end of a line.
  unfoldable pub mem_page : FileText → List ℕ
  unfolding values_text
  mem_page statm = elim (statm.size) [
    | none ↦ statm.buffer ++ crlf
    | some n ↦
        values_text (codes "virt")
          (codes "res" ∷ codes "shr" ∷ codes "trs" ∷ codes "lrs" ∷ codes "drs" ∷ codes "dt" ∷ [])
          (t.numbers 0 statm.buffer) 4
  ]

  unfoldable pub failed_text : FileText → List ℕ
  failed_text text = elim (text.size) [ none ↦ text.buffer ++ crlf | some n ↦ [] ]

  unfoldable pub both_read : FileText → FileText → Bool
  both_read stat all_stat = elim (stat.size) [
    | none ↦ false
    | some n ↦ elim (all_stat.size) [ none ↦ false | some m ↦ true ]
  ]

  -- Four values of the process, and nine of the machine.
  unfoldable pub cpu_page : FileText → FileText → List ℕ
  unfolding failed_text both_read values_text
  cpu_page stat all_stat =
      failed_text stat
      ++ (failed_text all_stat
          ++ (if both_read stat all_stat
              then values_text (codes "utime")
                  (codes "stime"
                    ∷ codes "cutime"
                    ∷ codes "cstime"
                    ∷ codes "user"
                    ∷ codes "nice"
                    ∷ codes "system"
                    ∷ codes "idle"
                    ∷ codes "iowait"
                    ∷ codes "irq"
                    ∷ codes "softirq"
                    ∷ codes "steal"
                    ∷ codes "guest"
                    ∷ [])
                  (take 4 (t.numbers 13 stat.buffer ++ (0 ∷ 0 ∷ 0 ∷ 0 ∷ []))
                    ++ take 9 (t.numbers 1 all_stat.buffer))
                  1
              else []))

  module _ (os : Os) (pid : ℕ) (read_file : os.Sys → List ℕ → FileText) where
    unfoldable pub stat_text : AppInfo → Option (List ℕ) → Server os → List ℕ
    unfolding html_page get_all_queue_stat_json info_page mem_page cpu_page begins proc_path
    stat_text last_info none sv = html_page sv.qlist
    stat_text last_info (some type) sv =
        if begins (codes "json") type
        then 91 ∷ get_all_queue_stat_json sv.qlist ++ 93 ∷ []
        else if begins (codes "info") type
        then info_page last_info
        else if begins (codes "mem") type
        then mem_page (read_file sv.sys (proc_path pid (codes "statm")))
        else if begins (codes "cpu") type
        then cpu_page (read_file sv.sys (proc_path pid (codes "stat")))
            (read_file sv.sys (codes "/proc/stat"))
        else []

    unfoldable pub cb_do_view_stat : AppInfo → AdminRequest → Server os → Page
    unfolding stat_text set_headers
    cb_do_view_stat last_info req sv = record {
      code = 200;
      reason = "OK";
      headers = set_headers sv.conf.keep_alive req.connection (codes "text/html") none false;
      body = stat_text last_info req.type_arg sv;
    }
