-- ===== src/Client/Failover/Down.antt =====
-- client/c/mq_client.c: a request where no server can be reached.
use ucmq.Prelude.{
  ℕ, suc, zero, ◌+◌, ◌-◌, ◌<◌, ◌≡◌, refl, sym, ap, ◌∙◌, subst, Bool, true, false, not, ◌&&◌,
  Bool_cases, either_way, inl, inr, Option, none, some, List, [], ◌∷◌, length, arith, ◌==◌,
  if◌then◌else◌, All,
}
use ucmq.Prelude.Run.{ret, ◌>>=◌}
use ucmq.Client.{Net, MqSrv, mq_true, Timespec, mq_get_msg_end, mq_lookup_random, srv_at}
use ucmq.Client.Socket.{
  same_fd, in_del_from_list, in_get_from_list, comm_create_socket, comm_get_socket, request_socket,
  create_at, created, got_socket, without_list,
}
use ucmq.Client.Operate.{failed, State, with_result, finish, with_socket, in_mq_operate}
use ucmq.Client.Failover.{
  Order, set_dest, set_index, try_server, try_all, order_of, shuffle, in_do_operate,
}
use ucmq.Client.Failover.Shuffle.{shuffled-IsOrder}

-- No connection is open.
abbrev pub IsIdle : List MqSrv → Type 0
IsIdle list = All (λ srv. srv.fd ≡ none) list

find_srv :
    (list : List MqSrv) (i : ℕ)
    → i < length list
    → IsIdle list
    → (srv : MqSrv) × (srv_at list i ≡ some srv) × (srv.fd ≡ none)
unfolding srv_at
find_srv [] i h idle = absurd (omega arith)
find_srv (srv ∷ list) zero h idle = (srv, refl, idle.0)
find_srv (srv ∷ list) (suc i) h idle = find_srv list i (omega arith) idle.1

same_none : (o : Option ℕ) → same_fd o none ≡ false
unfolding same_fd
same_none none = refl
same_none (some n) = refl

module _ (net : Net) where
  del_none : (list : List MqSrv) (s : net.Sys) → in_del_from_list net none list s ≡ (s, list)
  unfolding in_del_from_list
  del_none [] s = refl
  del_none (srv ∷ list) s = ground (arith, same_none srv.fd, del_none list s)

  module _ (refuses : (s : net.Sys) → (net.socket s).1 ≡ none) (fuel timeout curr : ℕ)
      (dest : List ℕ) (list : List MqSrv) (room : curr < length list) (idle : IsIdle list) where
    create_refused :
        (time_start : Timespec) (s : net.Sys)
        → create_at net fuel timeout curr time_start list s ≡ ret ((net.socket s).0, none)
    unfolding create_at comm_create_socket
    create_refused time_start s =
        let (srv, found, shut) = find_srv list curr room idle in ground (arith, found, refuses s)

    socket_refused :
        (keep : Bool) (time_start : Timespec) (s : net.Sys)
        → request_socket net fuel keep timeout curr dest time_start list s
          ≡ ret ((net.socket s).0, list, none)
    unfolding request_socket comm_get_socket in_get_from_list got_socket created without_list
    socket_refused true time_start s =
        let (srv, found, shut) = find_srv list curr room idle in
        ground (arith, found, shut, create_refused time_start s)
    socket_refused false time_start s = ground (arith, create_refused time_start s)

module _ (net : Net) (refuses : (s : net.Sys) → (net.socket s).1 ≡ none) (atoi : List ℕ → ℕ)
    (sscanf : List ℕ → Option ℕ) (fuel : ℕ) where
  finish-none :
      (st : State net atoi sscanf fuel) (ok : Bool)
      → finish net atoi sscanf fuel none (st, ok) ≡ (st, ok)
  unfolding finish
  finish-none st ok =
      either_way (λ (t : State net atoi sscanf fuel × Bool). t ≡ (st, ok))
        (not (st.answer.result == mq_get_msg_end) && (st.mq.keep_alive == mq_true && not ok))
        (ap
          (λ (k : net.Sys × List MqSrv).
            (record st { sys = k.0; mq = record (st.mq) { conn_list = k.1 } }, ok))
          (del_none net st.mq.conn_list st.sys))
        refl

  -- The connections, what was received and the position are those before.
  abbrev pub Unanswered : State net atoi sscanf fuel → State net atoi sscanf fuel → Type 0
  Unanswered st st' = (st'.mq.conn_list ≡ st.mq.conn_list) × (st'.answer.data_ ≡ st.answer.data_)

  -- The state when the time is taken, and when there is no socket.
  abbrev begun : State net atoi sscanf fuel → State net atoi sscanf fuel
  begun st = record st {
    sys = (net.clock_gettime st.sys).0;
    mq = record (st.mq) { timeout = if st.mq.timeout == 0 then 1000 else st.mq.timeout };
    info = record (st.info) { time_start = (net.clock_gettime st.sys).1 };
  }

  abbrev no_socket : State net atoi sscanf fuel → State net atoi sscanf fuel
  no_socket st =
      let s = (net.socket (begun st).sys).0 in
      with_result net atoi sscanf fuel (net.errno s) (record (begun st) { sys = s })

  operate_down :
      (curr : ℕ) (st : State net atoi sscanf fuel)
      → curr < length st.mq.conn_list
      → IsIdle st.mq.conn_list
      → in_mq_operate net atoi sscanf fuel curr st ≡ ret (no_socket st, false)
  unfolding in_mq_operate with_socket failed
  operate_down curr st room idle =
      ap (λ x. x >>= with_socket net atoi sscanf fuel (begun st))
        (socket_refused net refuses fuel (begun st).mq.timeout curr st.info.mq_dest st.mq.conn_list
          room idle (st.mq.keep_alive == mq_true) (begun st).info.time_start (begun st).sys)
      ∙ ap ret (finish-none (no_socket st) false)

  try_down :
      (curr : ℕ) (st : State net atoi sscanf fuel)
      → curr < length st.mq.conn_list
      → IsIdle st.mq.conn_list
      → (st' : State net atoi sscanf fuel) × (try_server net atoi sscanf fuel curr st
          ≡ ret (st', false))
        × Unanswered st st'
  unfolding try_server
  try_down curr st room idle =
      let (srv, found, shut) = find_srv st.mq.conn_list curr room idle in
      let st1 : State net atoi sscanf fuel = set_dest net atoi sscanf fuel srv.mq_dest st in
      (no_socket st1, ground (arith, found, operate_down curr st1 room idle), (refl, refl))

  not_zero : (x y n : ℕ) → 0 < n → (if n == 0 then x else y) ≡ y
  not_zero x y n h = ground arith

  at_last :
      (a : Order) (count left loop : ℕ)
      → loop + suc left ≡ count
      → (if left == 0 then a loop else a (count - 1)) ≡ a (count - 1)
  at_last a count left loop sums = elim (Bool_cases (left == 0)) [
    | inl none_left ↦ ground (arith, none_left, ap a {x = loop} {y = count - 1} (ground arith))
    | inr more_left ↦ ground (arith, more_left)
  ]

  -- From a place on, every server is tried, and the index is that of the last one.
  all_down :
      (a : Order) (count left loop curr : ℕ) (st : State net atoi sscanf fuel)
      → ((i : ℕ) → i < count → a i < count)
      → loop + left ≡ count
      → length st.mq.conn_list ≡ count
      → IsIdle st.mq.conn_list
      → (st' : State net atoi sscanf fuel) × (try_all net atoi sscanf fuel a left loop curr st
          ≡ ret st')
        × Unanswered st st'
        × (st'.answer.index ≡ (if left == 0 then curr else a (count - 1)))
  unfolding try_all
  all_down a count zero loop curr st below sums same idle =
      (set_index net atoi sscanf fuel curr st, refl, (refl, refl), refl)
  all_down a count (suc left) loop curr st below sums same idle =
      let (st1, tried, (lists, data1)) =
        try_down (a loop) st (omega (arith, below loop (omega arith))) idle in
      let (st2, rest, (lists2, data2), last) =
        all_down a count left (suc loop) (a loop) st1 below (omega arith)
          (omega (arith, ap length lists)) (subst IsIdle (sym lists) idle) in
      (
        st2,
        ground (arith, tried, rest),
        (lists2 ∙ lists, data2 ∙ data1),
        last
            ∙ at_last a count left loop sums
            ∙ sym (not_zero curr (a (count - 1)) (suc left) (omega arith)),
      )

  -- If no socket can be made and no connection is open, a request to one server or more ends
  -- without a fault, in either order of the servers: nothing is received, the list of connections
  -- is as before, and the index is that of a server.
  pub in_do_operate_down :
      (st : State net atoi sscanf fuel)
      → 0 < length st.mq.conn_list
      → IsIdle st.mq.conn_list
      → (st' : State net atoi sscanf fuel) × (in_do_operate net atoi sscanf fuel st ≡ ret st')
        × Unanswered st st'
        × (st'.answer.index < length st.mq.conn_list)
  unfolding in_do_operate order_of
  in_do_operate_down st some_ idle = elim (Bool_cases (st.mq.look_up == mq_lookup_random)) [
    | inl random ↦
        let count = length st.mq.conn_list in
        let (s, a) = shuffle net count (count - 1) (λ i. i) st.sys in
        let (st', runs, same, last) =
          all_down a count count 0 0 (record st { sys = s })
            (shuffled-IsOrder net count st.sys some_).below (omega arith) refl idle in
        (
          st',
          ground (arith, random, runs),
          same,
          subst (λ i. i < count) (sym (last ∙ not_zero 0 (a (count - 1)) count some_))
              ((shuffled-IsOrder net count st.sys some_).below (count - 1) (omega arith)),
        )
    | inr ordered ↦
        let count = length st.mq.conn_list in
        let (st', runs, same, last) =
          all_down (λ i. i) count count 0 0 st (λ i h. h) (omega arith) refl idle in
        (
          st',
          ground (arith, ordered, runs),
          same,
          omega (arith, last ∙ not_zero 0 (count - 1) count some_),
        )
  ]
