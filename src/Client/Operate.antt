-- ===== src/Client/Operate.antt =====
-- client/c/mq_client.c: `in_mq_operate`, one request to one server. The library's `atoi` gives a 32-bit
-- pattern, and its `sscanf` of the first line gives the status, where there is one.
use ucmq.Prelude.{
  ℕ, ◌-◌, ◌^◌, Bool, true, false, not, ◌&&◌, Option, none, some, List, [], ◌++◌, codes, length,
  drop, ltb, leb, ◌==◌, if◌then◌else◌,
}
use ucmq.Prelude.Run.{Run, ret, ◌>>=◌}
use ucmq.Client.{Net, MqSrv, MqObject, MqOptInfo, MqReturn, mq_true, mq_false, mq_get_msg_end}
use ucmq.Client.Header.{c_str, in_get_data, in_get_header_info_int}
use ucmq.Client.Request.{comm_send_http_req}
use ucmq.Client.Receive.{comm_recv_n}
use ucmq.Client.Socket.{comm_set_timeout_by_fd, in_del_from_list, request_socket}

module _ (net : Net) (atoi : List ℕ → ℕ) (sscanf : List ℕ → Option ℕ) (fuel : ℕ) where
  open net use {Sys}

  -- What the body of the function works on: the client, the request and the answer.
  pub record State : Type 0 where
    pub sys : Sys
    pub mq : MqObject
    pub info : MqOptInfo
    pub answer : MqReturn

  abbrev pub with_result : ℕ → State → State
  with_result result st = record st { answer = record (st.answer) { result = result } }

  unfoldable pub failed : State → State × Bool
  failed st = (st, false)

  -- The message, up to a zero in it, is the answer's.
  unfoldable pub store_body : List ℕ → State → State × Bool
  unfolding c_str
  store_body body st =
      (record st { answer = record (st.answer) { data_ = some (c_str body) } }, true)

  -- The bytes of the body that were not received with the header.
  rest_received : List ℕ → ℕ → State → Sys × Option (List ℕ) → State × Bool
  unfolding store_body failed
  rest_received had missing st (s, none) = failed (record st { sys = s })
  rest_received had missing st (s, some bytes) =
      if length bytes == missing
      then store_body (had ++ bytes) (record st { sys = s })
      else failed (record st { sys = s })

  unfoldable pub read_body : Option ℕ → ℕ → List ℕ → State → Run (State × Bool)
  unfolding rest_received store_body failed comm_recv_n
  read_body fd body_len had st =
      if ltb body_len (length had)
      then ret (failed st)
      else if length had == body_len
      then ret (store_body had st)
      else (do
        done ←
            comm_recv_n net fuel st.mq.timeout st.info.time_start fd (body_len - length had) false
              fuel [] st.sys
        ret (rest_received had (body_len - length had) st done))

  unfoldable pub set_timeout : Option ℕ → ℕ → State → State
  unfolding comm_set_timeout_by_fd
  set_timeout fd timeout st =
      if not (timeout == 0) && ltb timeout (2 ^ 31)
      then record st {
        mq = record (st.mq) { conn_list = comm_set_timeout_by_fd fd timeout st.mq.conn_list };
      }
      else st

  with_length : Option ℕ → List ℕ → List ℕ → ℕ → State → Run (State × Bool)
  unfolding read_body set_timeout in_get_header_info_int failed
  with_length fd buffer had body_len st = if leb (2 ^ 31) body_len then ret (failed st) else (do
    timeout ← in_get_header_info_int atoi (c_str buffer) (codes "\nkeep-alive")
    read_body fd body_len had (set_timeout fd timeout st))

  -- After the first line: the position, the length, the time to keep the connection, the body.
  unfoldable pub read_reply : Option ℕ → List ℕ → List ℕ → State → Run (State × Bool)
  unfolding with_length in_get_header_info_int
  read_reply fd buffer had st = do
    pos ← in_get_header_info_int atoi (c_str buffer) (codes "Pos")
    body_len ← in_get_header_info_int atoi (c_str buffer) (codes "Content-Length")
    with_length fd buffer had body_len (record st { answer = record (st.answer) { pos = pos } })

  -- The status; the body begins behind the empty line.
  unfoldable pub got_header : Option ℕ → List ℕ → State → Run (State × Bool)
  unfolding read_reply in_get_data c_str failed
  got_header fd buffer st = elim (in_get_data (c_str buffer)) [
    | none ↦ ret (failed (with_result (net.errno st.sys) st))
    | some text ↦
        let status : ℕ = elim (sscanf (c_str buffer)) [ none ↦ st.answer.result | some n ↦ n ] in
        if status == mq_get_msg_end
        then ret (failed (with_result status st))
        else read_reply fd buffer (drop (length (c_str buffer) - length text) buffer)
            (with_result status st)
  ]

  -- A reply that cannot be received is an empty text.
  received_of : Option (List ℕ) → List ℕ
  received_of none = []
  received_of (some text) = text

  unfoldable pub read_header : Option ℕ → State → Sys × Bool → Run (State × Bool)
  unfolding got_header received_of comm_recv_n failed
  read_header fd st (s, false) = ret (failed (with_result (net.errno s) (record st { sys = s })))
  read_header fd st (s, true) = do
    (s', got) ← comm_recv_n net fuel st.mq.timeout st.info.time_start fd 1023 true fuel [] s
    got_header fd (received_of got) (record st { sys = s' })

  -- The end of the function: the socket is closed or leaves the list.
  unfoldable pub finish : Option ℕ → State × Bool → State × Bool
  unfolding in_del_from_list
  finish fd (st, ok) =
      let s : Sys = elim fd [
        | none ↦ st.sys
        | some n ↦ if st.mq.keep_alive == mq_false then net.close st.sys (some n) else st.sys
      ] in
      let kept = in_del_from_list net fd st.mq.conn_list s in
      if not (st.answer.result == mq_get_msg_end) && (st.mq.keep_alive == mq_true && not ok)
      then (record st { sys = kept.0; mq = record (st.mq) { conn_list = kept.1 } }, ok)
      else (record st { sys = s }, ok)

  unfoldable pub with_socket : State → Sys × List MqSrv × Option ℕ → Run (State × Bool)
  unfolding finish read_header comm_send_http_req failed
  with_socket st (s, list, none) = ret (
      finish none (
        failed (
          with_result (net.errno s)
            (record st { sys = s; mq = record (st.mq) { conn_list = list } }))))
  with_socket st (s, list, some n) =
      let st' : State = record st { sys = s; mq = record (st.mq) { conn_list = list } } in
      (do
        did_send ← comm_send_http_req net fuel (some n) st'.info s
        done ← read_header (some n) st' did_send
        ret (finish (some n) done))

  -- The Boolean says that the result is MQ_OK.
  unfoldable pub in_mq_operate : ℕ → State → Run (State × Bool)
  unfolding with_socket request_socket
  in_mq_operate curr st =
      let timeout = if st.mq.timeout == 0 then 1000 else st.mq.timeout in
      let (s, time_start) = net.clock_gettime st.sys in
      let st' : State = record st {
        sys = s;
        mq = record (st.mq) { timeout = timeout };
        info = record (st.info) { time_start = time_start };
      } in
      (do
        socket ←
            request_socket net fuel (st.mq.keep_alive == mq_true) timeout curr st'.info.mq_dest
              time_start st'.mq.conn_list s
        with_socket st' socket)
