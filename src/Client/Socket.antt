-- ===== src/Client/Socket.antt =====
-- client/c/mq_client.c: the sockets to the servers.
use ucmq.Prelude.{
  ℕ, suc, zero, Bool, true, false, Option, none, some, List, [], ◌∷◌, ◌==◌, if◌then◌else◌,
}
use ucmq.Prelude.Run.{Run, ret, fault, out_of_fuel, ◌>>=◌}
use ucmq.QueueManage.Table.{same_name}
use ucmq.Client.{
  Net, MqSrv, Timespec, connected, in_progress, is_connected, connect_interrupted, connect_failed,
  srv_at, set_srv,
}
use ucmq.Client.Receive.{etimedout, comm_get_rest_time, wait_in, wait_out}

-- fd == fd' of two descriptors, -1 apart.
unfoldable pub same_fd : Option ℕ → Option ℕ → Bool
same_fd none o = false
same_fd (some n) none = false
same_fd (some n) (some m) = n == m

-- `comm_set_timeout_by_fd`: the first connection with the descriptor.
unfoldable pub comm_set_timeout_by_fd : Option ℕ → ℕ → List MqSrv → List MqSrv
unfolding same_fd
comm_set_timeout_by_fd fd timeout [] = []
comm_set_timeout_by_fd fd timeout (srv ∷ list) =
    let rest = comm_set_timeout_by_fd fd timeout list in
    if same_fd srv.fd fd then record srv { timeout = timeout } ∷ list else srv ∷ rest

module _ (net : Net) where
  open net use {Sys}

  close_of : Sys → Option ℕ → Sys
  close_of s none = s
  close_of s (some n) = net.close s (some n)

  -- `in_del_from_list`: every connection with the descriptor is closed.
  unfoldable pub in_del_from_list : Option ℕ → List MqSrv → Sys → Sys × List MqSrv
  unfolding same_fd
  in_del_from_list fd [] s = (s, [])
  in_del_from_list fd (srv ∷ list) s =
      let hit = same_fd srv.fd fd in
      let (s', list') = in_del_from_list fd list (if hit then net.close s srv.fd else s) in
      (s', (if hit then record srv { fd = none } else srv) ∷ list')

  -- `in_del_list`
  unfoldable pub in_del_list : List MqSrv → Sys → Sys
  unfolding close_of
  in_del_list [] s = s
  in_del_list (srv ∷ list) s = in_del_list list (close_of s srv.fd)

  unfoldable pub in_add_to_list :
      ℕ → Option ℕ → List ℕ → ℕ → List MqSrv → Sys → Run (Sys × List MqSrv)
  unfolding close_of srv_at set_srv
  in_add_to_list curr fd dest sec_now list s = elim (srv_at list curr) [
    | none ↦ fault
    | some srv ↦ ret (
      close_of s srv.fd,
      set_srv list curr
          (record srv { fd = fd; last_use = sec_now; timeout = 3600; mq_dest = dest }),
    )
  ]

  -- The connection is used again if nothing has come in on it, not even an error.
  reuse : ℕ → MqSrv → Option ℕ → ℕ → List MqSrv → Sys × Bool → Sys × List MqSrv × Option ℕ
  unfolding set_srv
  reuse curr srv fd sec_now list (s, false) =
      (s, set_srv list curr (record srv { last_use = sec_now }), fd)
  reuse curr srv fd sec_now list (s, true) =
      (net.close s fd, set_srv list curr (record srv { fd = none }), none)

  unfoldable pub in_get_from_list :
      ℕ → ℕ → List ℕ → ℕ → List MqSrv → Sys → Run (Sys × List MqSrv × Option ℕ)
  unfolding reuse srv_at same_name wait_in
  in_get_from_list fuel curr dest sec_now list s = elim (srv_at list curr) [
    | none ↦ fault
    | some srv ↦ elim (srv.fd) [
      | none ↦ ret (s, list, none)
      | some n ↦ elim (same_name dest srv.mq_dest) [
        | false ↦ ret (s, list, none)
        | true ↦ (do
          events ← wait_in net fuel (some n) 0 s
          ret (reuse curr srv (some n) sec_now list events))
      ]
    ]
  ]

  -- getsockopt of a socket that became ready.
  ready : Option ℕ → Sys × Option ℕ → Sys × Option ℕ
  ready fd (s, none) = (net.close (net.set_errno s 4294967295) fd, none)
  ready fd (s, some error) =
      if error == 0 then (s, fd) else (net.close (net.set_errno s error) fd, none)

  progressed : Option ℕ → Sys × Bool → Sys × Option ℕ
  unfolding ready
  progressed fd (s, true) = ready fd (net.so_error s fd)
  progressed fd (s, false) = (net.close (net.set_errno s etimedout) fd, none)

  -- The loop of connect on the rounds left. Even if connect succeeds at once, the result is -1 and
  -- the socket is not closed.
  unfoldable pub connect_loop : ℕ → ℕ → ℕ → Timespec → Option ℕ → MqSrv → Sys → Run (Sys × Option ℕ)
  unfolding progressed comm_get_rest_time wait_out
  connect_loop zero fuel timeout time_start fd srv s = out_of_fuel
  connect_loop (suc rounds) fuel timeout time_start fd srv s =
      let (s', r) = net.connect s fd srv.domain srv.port in
      elim r [
        | connected ↦ ret (s', none)
        | in_progress ↦
            let (s'', rest_time) = comm_get_rest_time net timeout time_start s' in
            (do w ← wait_out net fuel fd rest_time s''; ret (progressed fd w))
        | is_connected ↦ ret (s', fd)
        | connect_interrupted ↦ connect_loop rounds fuel timeout time_start fd srv s'
        | connect_failed ↦ ret (net.close s' fd, none)
      ]

  nonblocking : ℕ → ℕ → Timespec → Option ℕ → MqSrv → Sys × Bool → Run (Sys × Option ℕ)
  unfolding connect_loop
  nonblocking fuel timeout time_start fd srv (s, false) = ret (net.close s fd, none)
  nonblocking fuel timeout time_start fd srv (s, true) =
      connect_loop fuel fuel timeout time_start fd srv s

  unfoldable pub comm_create_socket : ℕ → ℕ → Timespec → MqSrv → Sys → Run (Sys × Option ℕ)
  unfolding nonblocking
  comm_create_socket fuel timeout time_start srv s =
      let (s', fd) = net.socket s in
      elim fd [
        | none ↦ ret (s', none)
        | some n ↦ nonblocking fuel timeout time_start (some n) srv (net.set_nonblock s' (some n))
      ]

  -- A new socket is put into the list.
  unfoldable pub created :
      ℕ → List ℕ → Timespec → List MqSrv → Sys × Option ℕ → Run (Sys × List MqSrv × Option ℕ)
  unfolding in_add_to_list
  created curr dest time_start list (s, none) = ret (s, list, none)
  created curr dest time_start list (s, some n) = do
    (s', list') ← in_add_to_list curr (some n) dest time_start.tv_sec list s
    ret (s', list', some n)

  unfoldable pub create_at : ℕ → ℕ → ℕ → Timespec → List MqSrv → Sys → Run (Sys × Option ℕ)
  unfolding comm_create_socket srv_at
  create_at fuel timeout curr time_start list s = elim (srv_at list curr) [
    | none ↦ fault
    | some srv ↦ comm_create_socket fuel timeout time_start srv s
  ]

  unfoldable pub got_socket :
      ℕ
      → ℕ
      → ℕ
      → List ℕ
      → Timespec
      → Sys × List MqSrv × Option ℕ
      → Run (Sys × List MqSrv × Option ℕ)
  unfolding create_at created
  got_socket fuel timeout curr dest time_start (s, list, some n) = ret (s, list, some n)
  got_socket fuel timeout curr dest time_start (s, list, none) = do
    made ← create_at fuel timeout curr time_start list s
    created curr dest time_start list made

  unfoldable pub comm_get_socket :
      ℕ → ℕ → ℕ → List ℕ → Timespec → List MqSrv → Sys → Run (Sys × List MqSrv × Option ℕ)
  unfolding got_socket in_get_from_list
  comm_get_socket fuel timeout curr dest time_start list s = do
    got ← in_get_from_list fuel curr dest time_start.tv_sec list s
    got_socket fuel timeout curr dest time_start got

  unfoldable pub without_list : List MqSrv → Sys × Option ℕ → Sys × List MqSrv × Option ℕ
  without_list list (s, fd) = (s, list, fd)

  -- The socket for a request: a kept one, or one for this request alone.
  unfoldable pub request_socket :
      ℕ → Bool → ℕ → ℕ → List ℕ → Timespec → List MqSrv → Sys → Run (Sys × List MqSrv × Option ℕ)
  unfolding comm_get_socket create_at without_list
  request_socket fuel true timeout curr dest time_start list s =
      comm_get_socket fuel timeout curr dest time_start list s
  request_socket fuel false timeout curr dest time_start list s = do
    made ← create_at fuel timeout curr time_start list s
    ret (without_list list made)
