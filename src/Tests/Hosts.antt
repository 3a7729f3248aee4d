-- ===== src/Tests/Hosts.antt =====
-- source/file.c, source/util.c, source/log.c, source/trace.c, source/mq_evhttp.c (/exec):
-- the tests on a small host.
use ucmq.Prelude.{
  ℕ, suc, ◌+◌, ◌-◌, ◌*◌, ◌/◌, ◌%◌, ◌^◌, ◌≤◌, ◌<◌, ◌≡◌, ◌≢◌, ◌⊎◌, inl, inr, refl, ap, true, false,
  some, none, List, [], ◌∷◌, ◌++◌, arith, length, take, codes, All,
}
use ucmq.Prelude.Run.{ret}
use ucmq.Io.{
  Timespec, Host, polled, gave, took, write_failed, fd_unknown, is_nonblock, is_negative, expired,
  later_by,
}
use ucmq.Io.Transfer.{write_n}
use ucmq.Io.Prefix.{Appends, Totals, write_n-take}
use ucmq.Io.Ready.{IsReady, HasTime, write_n_ready}
use ucmq.Log.Clock.{Kept, get_time}
use ucmq.Log.Clock.Day.{IsTime, get_time-IsTime, get_time_stale}
use ucmq.Trace.{asc_trace, nb_bloc}
use ucmq.Trace.Text.{IsText, asc_trace_fits}
use ucmq.Util.{Calls, FileText}
use ucmq.Util.Directories.{do_mkdir}
use ucmq.Util.Mkdir.{IsMkdir, do_mkdir-Exists}
use ucmq.Http.Exec.{AdminRequest, Admin, refused, cb_do_exec}
use ucmq.Http.Exec.Allowed.{IsAllowed, Changes, cb_do_exec-IsAllowed}
use ucmq.Tests.Files.{other, queue-FieldsFit, queue_checks}
use ucmq.StoreRtag.{rtag_item, read_item}
use ucmq.StoreRtag.RoundTrip.{restored}
use ucmq.StoreRtag.Recovery.{file_tail}
use ucmq.StoreRtag.Recorded.{write_n-read_item}
use ucmq.Tests.World.{queue, world, server}

abbrev second : Timespec
second = record { tv_sec = 1; tv_nsec = 0 }

-- A file that takes two bytes at each call, and so many milliseconds on the clock.
abbrev OneFile : Type 0
OneFile = List ℕ × ℕ

abbrev at_ms : ℕ → Timespec
at_ms ms = record { tv_sec = 0; tv_nsec = ms * 1000000 }

abbrev ms_of : Timespec → ℕ
ms_of ts = ts.tv_sec * 1000 + ts.tv_nsec / 1000000

-- Each write takes a millisecond.
abbrev host : Host
host = record {
  Sys = OneFile;
  errno = λ s. 0;
  store_errno = λ s e. s;
  clock = λ s. (s, at_ms s.1);
  poll = λ s fd events t. (s, polled events);
  read = λ s fd n. (s, gave []);
  write = λ s fd bs. ((s.0 ++ take 2 bs, suc s.1), took (length (take 2 bs)));
  get_flags = λ s fd. some true;
  ms_between = λ later now. (ms_of later + 2 ^ 32 - ms_of now) % 2 ^ 32;
}

two_taken :
    (s bs : List ℕ) (n : ℕ)
    → took (length (take 2 bs)) ≡ took n
    → (n ≤ length bs) × (s ++ take 2 bs ≡ s ++ take n bs)
two_taken s [] n e =
    let k : n ≡ 0 = ground arith in
    (omega arith, ap (λ m. s ++ take m []) {x = 0} {y = n} (omega arith))
two_taken s (a ∷ []) n e =
    let k : n ≡ 1 = ground arith in
    (omega arith, ap (λ m. s ++ take m (a ∷ [])) {x = 1} {y = n} (omega arith))
two_taken s (a ∷ b ∷ bs) n e =
    let k : n ≡ 2 = ground arith in
    (omega arith, ap (λ m. s ++ take m (a ∷ b ∷ bs)) {x = 2} {y = n} (omega arith))

not_failed : (s bs : List ℕ) → took (length (take 2 bs)) ≡ write_failed → s ++ take 2 bs ≡ s
not_failed s bs e = cc

abbrev file : Appends host (some 3)
file = record {
  written = λ s. s.0;
  took_front = λ s. two_taken s.0;
  failed = λ s. not_failed s.0;
  errno_written = λ s e. refl;
  clock_written = λ s. refl;
  poll_written = λ s fd' events t. refl;
}

some_taken :
    (bs : List ℕ) → 0 < length bs → took (length (take 2 bs)) ≡ took (suc (length (take 2 bs) - 1))
some_taken [] h = absurd (omega arith)
some_taken (a ∷ []) h = refl
some_taken (a ∷ b ∷ bs) h = refl

-- So many milliseconds are left at `now`.
abbrev Left : Timespec → ℕ → ℕ → Type 0
Left target k now = (now + k < ms_of target + 1) × (ms_of target < 2 ^ 31)

not_over :
    (target : Timespec) (k now : ℕ)
    → Left target (suc k) now
    → expired 100 ((ms_of target + 2 ^ 32 - ms_of (at_ms now)) % 2 ^ 32) ≡ false
unfolding expired
not_over target k now (some_, small) =
    let whole : ms_of (at_ms now) ≡ now = omega arith in
    let left : (ms_of target + 2 ^ 32 - now) % 2 ^ 32 ≡ ms_of target - now = omega arith in
    rw (whole, left) (ground arith)

abbrev ready : IsReady host (some 3) 100
ready = record {
  takes = λ s bs. length (take 2 bs) - 1;
  takes_some = λ s bs h. some_taken bs h;
  has_room = λ s t. refl;
  Before = λ target k s. Left target k s.1;
  in_time = λ target k s. not_over target k s.1;
  before_clock = λ target k s h. h;
  before_errno = λ target k s e h. h;
  before_poll = λ target k s t h. h;
  before_write = λ target k s bs h. (omega (arith, h.0), h.1);
}

abbrev start : OneFile
start = (9 ∷ [], 0)

three_written :
    write_n host 1 (some 3) 3 5 fd_unknown (1 ∷ 2 ∷ 3 ∷ []) start
    ≡ ret ((9 ∷ 1 ∷ 2 ∷ 3 ∷ [], 2), some 3)
unfolding write_n
three_written = refl

write_n-take_example :
    (n : ℕ) × (n ≤ 3)
    × (◌≡◌ {A = List ℕ} (9 ∷ 1 ∷ 2 ∷ 3 ∷ []) ((9 ∷ []) ++ take n (1 ∷ 2 ∷ 3 ∷ [])))
    × Totals (some 3) n
write_n-take_example =
    write_n-take host (some 3) file 1 3 5 fd_unknown (1 ∷ 2 ∷ 3 ∷ []) start (9 ∷ 1 ∷ 2 ∷ 3 ∷ [], 2)
      (some 3) three_written

mode : (is_nonblock host (some 3) fd_unknown start).1 ≡ some true
unfolding is_nonblock
mode = refl

time_left : HasTime host (some 3) 100 ready 61 (is_nonblock host (some 3) fd_unknown start).0
unfolding is_nonblock later_by
time_left = (omega arith, omega arith)

write_n_ready_example :
    (s' : OneFile) × (write_n host 1 (some 3) 61 100 fd_unknown (1 ∷ 2 ∷ 3 ∷ []) start
      ≡ ret (s', some 3))
    × (s'.0 ≡ (9 ∷ []) ++ (1 ∷ 2 ∷ 3 ∷ []))
write_n_ready_example =
    write_n_ready host (some 3) 100 file ready 0 61 fd_unknown (1 ∷ 2 ∷ 3 ∷ []) start true mode refl
      (omega arith) (omega arith) time_left

write_n-read_item_example :
    (s' : OneFile) × (write_n host 1 (some 3) 61 100 fd_unknown (rtag_item queue) start
      ≡ ret (s', some 61))
    × (read_item 1048576 100 0 (file_tail s'.0) 1 other ≡ some (restored other queue, true))
write_n-read_item_example =
    write_n-read_item host (some 3) 100 file ready 0 61 fd_unknown start true 1048576 100 0 0
      (λ s'. file_tail s'.0) queue other mode refl (omega arith) time_left (λ s' i. refl)
      queue-FieldsFit queue_checks

-- 8 hours east, at the second 100000.
abbrev kept : Kept
kept = record {
  g_sec = 100000;
  g_info = record { day = 1; msec = 0; hour = 11; min = 46; sec = 40 };
}

kept-IsTime : IsTime 8 100000 kept.g_info
kept-IsTime = record { day = refl; hour = refl; min = refl; sec = refl }

abbrev at : ℕ → Timespec
at sec = record { tv_sec = sec; tv_nsec = 5000000 }

get_time-IsTime_example :
    let (kept', ti) = get_time 8 (at 150000) kept in
    IsTime 8 150000 ti × IsTime 8 kept'.g_sec kept'.g_info × (kept'.g_sec ≡ 150000)
get_time-IsTime_example =
    get_time-IsTime 8 (at 150000) kept (inl (omega arith)) (omega arith) kept-IsTime (omega arith)
      (omega arith) (omega arith)

get_time_stale_example :
    let (kept', ti) = get_time 8 (at 186400) kept in (ti.day ≡ 1) × ¬ IsTime 8 186400 ti
get_time_stale_example =
    get_time_stale 8 (at 186400) kept (inl (omega arith)) (omega arith) kept-IsTime (omega arith)
      refl

asc_trace_fits_example :
    (length (asc_trace (λ i. 65 + i) 20) ≡ 64 * nb_bloc 20)
    × (length (asc_trace (λ i. 65 + i) 20) ≤ 20480)
    × All IsText (asc_trace (λ i. 65 + i) 20)
asc_trace_fits_example = asc_trace_fits (λ i. 65 + i) 20

-- The directories that were made.
abbrev Made : Type 0
Made = List (List ℕ)

abbrev In : List ℕ → Made → Type 0
In p [] = ⊥
In p (q ∷ s) = (q ≡ p) ⊎ In p s

abbrev dir_host : Host
dir_host = record {
  Sys = Made;
  errno = λ s. 13;
  store_errno = λ s e. s;
  clock = λ s. (s, second);
  poll = λ s fd events t. (s, polled events);
  read = λ s fd n. (s, gave []);
  write = λ s fd bs. (s, took 0);
  get_flags = λ s fd. some true;
  ms_between = λ later now. 1;
}

abbrev dir_calls : Calls dir_host
dir_calls = record {
  mkdir = λ s dir mode. (dir ∷ s, true);
  rmdir = λ s dir. s;
  remove = λ s path. s;
  open_read = λ s path. (s, none);
  close = λ s fd. s;
  stat_size = λ s path. none;
  lstat_type = λ s path. none;
  read_dir = λ s path. none;
  nanosleep = λ s ts. (s, true, ts);
  strerror = λ e. [];
  strtoll = λ str. (str, 0, 0);
}

not_true {ℓ} : {A : Type ℓ} → true ≡ false → A
not_true e = absurd (cc)

abbrev dir_law : IsMkdir dir_host dir_calls
dir_law = record {
  Exists = λ s dir. In dir s;
  made = λ s dir mode e. inl refl;
  there = λ s dir mode e. not_true e;
  kept = λ s dir other mode h. inr h;
  reason = λ s dir mode e. not_true e;
}

do_mkdir-Exists_example :
    let (s', result) = do_mkdir dir_host dir_calls (codes "a/b") 504 [] in
    ((result ≡ 0)
      × In (codes "a/b") s'
      × ((p q : List ℕ) → codes "a/b" ≡ p ++ 47 ∷ q → 0 < length p → In p s'))
    ⊎ (is_negative result ≡ true)
do_mkdir-Exists_example = do_mkdir-Exists dir_host dir_calls dir_law 504 (codes "a/b") []

abbrev kill_request : AdminRequest
kill_request = record {
  ip = codes "10.0.0.1";
  port = 80;
  cmd = some (codes "kill");
  file = none;
  type_arg = none;
  charset = none;
  connection = none;
}

-- No number is found in the empty setting.
abbrev no_number : List ℕ → List ℕ × ℕ × ℕ
no_number str = (str, 0, 0)

abbrev no_file : world.Sys → List ℕ → FileText
no_file s path = record { size = none; buffer = [] }

kill_refused :
    cb_do_exec world 7 no_file (λ c. ret c) no_number kill_request (server, [])
    ≡ ret ((server, []), refused world kill_request)
unfolding cb_do_exec
kill_refused = refl

cb_do_exec-IsAllowed_example :
    (((refused world kill_request).code ≡ 401)
      × ◌≡◌ {A = Admin world} (server, []) (server, [])
      × ¬ IsAllowed world no_number kill_request server)
    ⊎ (((refused world kill_request).code ≢ 401)
        × IsAllowed world no_number kill_request server
        × (◌≡◌ {A = Admin world} (server, []) (server, []) ⊎ Changes kill_request))
cb_do_exec-IsAllowed_example =
    cb_do_exec-IsAllowed world 7 no_file (λ c. ret c) no_number kill_request server [] (server, [])
      (refused world kill_request) kill_refused
