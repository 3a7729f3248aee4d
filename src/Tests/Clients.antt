-- ===== src/Tests/Clients.antt =====
-- client/c/mq_client.c: the tests of the client on a small network.
use ucmq.Prelude.{
  ℕ, zero, suc, ◌≤◌, ◌<◌, ◌≡◌, refl, ap, true, false, some, none, Option, List, [], ◌∷◌, ◌++◌,
  arith, length, take, drop, codes,
}
use ucmq.Prelude.Run.{ret}
use ucmq.Client.{
  Net, MqSrv, MqOptInfo, Timespec, init_return, received, sent, polled, connect_failed,
}
use ucmq.Client.Receive.{comm_recv_n}
use ucmq.Client.Receive.Stream.{Streams, comm_recv_n-take}
use ucmq.Client.Operate.{State}
use ucmq.Client.Failover.{shuffle, in_do_operate}
use ucmq.Client.Failover.Shuffle.{IsOrder, shuffled-IsOrder}
use ucmq.Client.Failover.Down.{Unanswered, in_do_operate_down}

abbrev time : ℕ → ℕ → Timespec
time sec nsec = record { tv_sec = sec; tv_nsec = nsec }

-- The state is what is still to be received; no socket can be made.
abbrev wire : Net
wire = record {
  Sys = List ℕ;
  errno = λ s. 111;
  set_errno = λ s n. s;
  clock_gettime = λ s. (s, time 0 0);
  rand = λ s. (s, 5);
  poll_out = λ s fd t. (s, polled true);
  poll_in = λ s fd t. (s, polled true);
  socket = λ s. (s, none);
  set_nonblock = λ s fd. (s, true);
  connect = λ s fd d p. (s, connect_failed);
  so_error = λ s fd. (s, some 0);
  writev = λ s fd text. (s, sent (length text));
  recv = λ s fd n. (drop n s, received (take n s));
  close = λ s fd. s;
}

take_some : (n : ℕ) (s : List ℕ) → 0 < n → 0 < length s → 0 < length (take n s)
take_some zero s h k = absurd (omega arith)
take_some (suc n) [] h k = absurd (omega arith)
take_some (suc n) (c ∷ s) h k = omega arith

take_most : (n : ℕ) (s : List ℕ) → length (take n s) ≤ n
take_most zero s = omega arith
take_most (suc n) [] = omega arith
take_most (suc n) (c ∷ s) = omega (arith, take_most n s)

take-drop : (n : ℕ) (s : List ℕ) → take n s ++ drop n s ≡ s
take-drop zero s = refl
take-drop (suc n) [] = refl
take-drop (suc n) (c ∷ s) = ap (λ t. c ∷ t) (take-drop n s)

abbrev wire-Streams : Streams wire (some 3)
wire-Streams = record {
  pending = λ s. s;
  bytes = λ s n. take n s;
  gives = λ s n h k. refl;
  some_bytes = λ s n. take_some n s;
  at_most = λ s n. take_most n s;
  rest = λ s n h k. take-drop n s;
}

comm_recv_n-take_example :
    (s' : List ℕ) × (comm_recv_n wire 9 1000
        (time 0 0)
        (some 3)
        5
        false
        4
        (codes "a")
        (codes "bcdef")
      ≡ ret (s', some (codes "a" ++ take 4 (codes "bcdef"))))
    × (s' ≡ drop 4 (codes "bcdef"))
comm_recv_n-take_example =
    comm_recv_n-take wire 9 1000 (time 0 0) (some 3) 5 wire-Streams 4 (codes "a") (codes "bcdef")
      (omega arith) (omega arith) (omega arith)

shuffled-IsOrder_example : IsOrder 3 (shuffle wire 3 2 (λ i. i) []).1
shuffled-IsOrder_example = shuffled-IsOrder wire 3 [] (omega arith)

abbrev port_of : List ℕ → ℕ
port_of text = 1818

abbrev idle_srv : MqSrv
idle_srv = record {
  mq_dest = codes "10.0.0.1:1818";
  port = 1818;
  domain = codes "10.0.0.1";
  fd = none;
  last_use = 0;
  timeout = 0;
}

abbrev get_info : MqOptInfo
get_info = record {
  opt = codes "get";
  name = codes "a";
  num = none;
  data_ = none;
  charset = none;
  mq_dest = [];
  time_start = time 0 0;
}

abbrev no_status : List ℕ → Option ℕ
no_status text = none

abbrev asking : State wire port_of no_status 9
asking = record {
  sys = [];
  mq = record { timeout = 0; look_up = 1; keep_alive = 1; conn_list = idle_srv ∷ idle_srv ∷ [] };
  info = get_info;
  answer = init_return;
}

in_do_operate_down_example :
    (st' : State wire port_of no_status 9) × (in_do_operate wire port_of no_status 9 asking
      ≡ ret st')
    × Unanswered wire (λ s. refl) port_of no_status 9 asking st'
    × (st'.answer.index < 2)
in_do_operate_down_example =
    in_do_operate_down wire (λ s. refl) port_of no_status 9 asking (omega arith) (refl, (refl, tt))
