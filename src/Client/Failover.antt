-- ===== src/Client/Failover.antt =====
-- client/c/mq_client.c: `in_do_operate`, which tries the servers in turn, and the calls of the library.
pub mod Shuffle
pub mod Down
use ucmq.Prelude.{
  ℕ, suc, zero, ◌+◌, ◌-◌, ◌%◌, Bool, true, false, Option, none, some, List, [], ◌∷◌, ◌++◌, codes,
  length, ◌==◌, if◌then◌else◌,
}
use ucmq.Prelude.Bytes.{le32}
use ucmq.Prelude.Run.{Run, ret, fault, ◌>>=◌}
use ucmq.QueueManage.Table.{same_name}
use ucmq.Client.{
  Net, MqSrv, MqObject, MqOptInfo, MqReturn, Timespec, mq_lookup_order, mq_lookup_random,
  init_return, srv_at,
}
use ucmq.Client.Request.{print_int}
use ucmq.Client.Operate.{State, in_mq_operate}

-- The array of `in_do_operate`: an `int` for each place.
abbrev pub Order : Type 0
Order = ℕ → ℕ

unfoldable pub swap : ℕ → ℕ → Order → Order
swap i j a k = if k == i then a j else if k == j then a i else a k

-- The places from `j` down to 1 are swapped with random places.
unfoldable pub shuffle : (net : Net) → ℕ → ℕ → Order → net.Sys → net.Sys × Order
unfolding swap
shuffle net count zero a s = (s, a)
shuffle net count (suc j) a s =
    let (s', r) = net.rand s in shuffle net count j (swap (suc j) (r % count) a) s'

module _ (net : Net) (atoi : List ℕ → ℕ) (sscanf : List ℕ → Option ℕ) (fuel : ℕ) where
  open net use {Sys}

  abbrev pub ClientState : Type 0
  ClientState = State net atoi sscanf fuel

  abbrev pub set_dest : List ℕ → ClientState → ClientState
  set_dest dest st = record st { info = record (st.info) { mq_dest = dest } }

  -- One server, with its address as the destination.
  unfoldable pub try_server : ℕ → ClientState → Run (ClientState × Bool)
  unfolding in_mq_operate srv_at
  try_server curr st = elim (srv_at st.mq.conn_list curr) [
    | none ↦ fault
    | some srv ↦ in_mq_operate net atoi sscanf fuel curr (set_dest srv.mq_dest st)
  ]

  abbrev pub set_index : ℕ → ClientState → ClientState
  set_index curr st = record st { answer = record (st.answer) { index = curr } }

  -- The loop from the place `loop` on, with `left` places left; `curr` is the last server tried.
  unfoldable pub try_all : Order → ℕ → ℕ → ℕ → ClientState → Run ClientState
  unfolding try_server
  try_all a zero loop curr st = ret (set_index curr st)
  try_all a (suc left) loop curr st = do
    (st', ok) ← try_server (a loop) st
    elim ok [ true ↦ ret (set_index (a loop) st') | false ↦ try_all a left (suc loop) (a loop) st' ]

  -- `curr = loop`, or the place's number in the shuffled array.
  unfoldable pub order_of : ClientState → ClientState × Order
  unfolding shuffle
  order_of st =
      if st.mq.look_up == mq_lookup_random
      then (let (s, a) =
            shuffle net (length st.mq.conn_list) (length st.mq.conn_list - 1) (λ i. i) st.sys in
          (record st { sys = s }, a))
      else (st, λ i. i)

  unfoldable pub in_do_operate : ClientState → Run ClientState
  unfolding order_of try_all
  in_do_operate st = let (st', a) = order_of st in try_all a (length st.mq.conn_list) 0 0 st'

  abbrev pub no_time : Timespec
  no_time = record { tv_sec = 0; tv_nsec = 0 }

  abbrev start_state : MqObject → MqOptInfo → MqReturn → Sys → ClientState
  start_state mq info answer s = record { sys = s; mq = mq; info = info; answer = answer }

  -- Every pointer but the character set is there.
  unfoldable pub mq_put_msg : MqObject → List ℕ → List ℕ → Option (List ℕ) → Sys → Run ClientState
  unfolding in_do_operate
  mq_put_msg mq name message charset s = in_do_operate (
      start_state mq
        (record {
          opt = codes "put";
          name = name;
          num = some [];
          data_ = some message;
          charset = charset;
          mq_dest = [];
          time_start = no_time;
        })
        init_return s)

  unfoldable pub mq_get_msg : MqObject → List ℕ → Option (List ℕ) → Sys → Run ClientState
  unfolding in_do_operate
  mq_get_msg mq name charset s = in_do_operate (
      start_state mq
        (record {
          opt = codes "get";
          name = name;
          num = none;
          data_ = none;
          charset = charset;
          mq_dest = [];
          time_start = no_time;
        })
        init_return s)

  abbrev set_info : List ℕ → List ℕ → ℕ → Option (List ℕ) → Bool → MqOptInfo
  set_info opt name value charset numbered = record {
    opt = opt;
    name = name;
    num = some (if numbered then codes "num=" ++ print_int value else []);
    data_ = some (le32 value);
    charset = charset;
    mq_dest = [];
    time_start = no_time;
  }

  -- The `switch` of `mq_all_set_opt` and `mq_set_opt`: MQ_OPT_REMOVE has no `break` and goes on to
  -- "delay".
  unfoldable pub set_request : List ℕ → ℕ → ℕ → Option (List ℕ) → Option MqOptInfo
  unfolding print_int
  set_request name opt value charset =
      if opt == 10
      then some (set_info (codes "reset") name value charset false)
      else if opt == 11
      then some (set_info (codes "maxqueue") name value charset true)
      else if opt == 12
      then some (set_info (codes "synctime") name value charset true)
      else if opt == 13
      then some (set_info (codes "delay") name value charset false)
      else if opt == 14
      then some (set_info (codes "delay") name value charset true)
      else if opt == 15
      then some (set_info (codes "readonly") name value charset true)
      else none

  -- The `switch` of `mq_get_opt`. "view" sends a buffer that was never written, so it has no model.
  unfoldable pub get_request : List ℕ → ℕ → ℕ → Option (List ℕ) → Run (Option MqOptInfo)
  get_request name opt value charset =
      if opt == 0
      then ret (some (set_info (codes "status") name value charset false))
      else if opt == 1
      then ret (some (set_info (codes "status_json") name value charset false))
      else if opt == 2
      then fault
      else ret none

  abbrev opt_return : ℕ → MqReturn
  opt_return opt = record init_return { opt_value = opt }

  unknown_opt : MqObject → MqOptInfo → ℕ → Sys → ClientState
  unknown_opt mq info opt s = start_state mq info (record (opt_return opt) { result = 22 }) s

  unfoldable pub mq_all_set_opt :
      MqObject → List ℕ → ℕ → ℕ → Option (List ℕ) → Sys → Run ClientState
  unfolding set_request in_do_operate unknown_opt
  mq_all_set_opt mq name opt value charset s = elim (set_request name opt value charset) [
    | none ↦ ret (unknown_opt mq (set_info [] name value charset true) opt s)
    | some info ↦
        in_do_operate
          (start_state (record mq { look_up = mq_lookup_order }) info (opt_return opt) s)
  ]

  first_named : List ℕ → ℕ → List MqSrv → Option ℕ
  unfolding same_name
  first_named server i [] = none
  first_named server i (srv ∷ list) =
      let rest = first_named server (suc i) list in
      if same_name srv.mq_dest server then some i else rest

  -- The request goes to the first server of that address, if there is one.
  unfoldable pub to_server : List ℕ → ClientState → Run ClientState
  unfolding first_named try_server
  to_server server st = elim (first_named server 0 st.mq.conn_list) [
    | none ↦ ret st
    | some i ↦ (do (st', ok) ← try_server i st; ret st')
  ]

  unfoldable pub mq_set_opt :
      MqObject → List ℕ → List ℕ → ℕ → ℕ → Option (List ℕ) → Sys → Run ClientState
  unfolding set_request to_server unknown_opt
  mq_set_opt mq server name opt value charset s = elim (set_request name opt value charset) [
    | none ↦ ret (unknown_opt mq (set_info [] name value charset true) opt s)
    | some info ↦ to_server server (start_state mq info (opt_return opt) s)
  ]

  unfoldable pub mq_get_opt :
      MqObject → List ℕ → List ℕ → ℕ → ℕ → Option (List ℕ) → Sys → Run ClientState
  unfolding get_request to_server unknown_opt
  mq_get_opt mq server name opt value charset s = do
    request ← get_request name opt value charset
    elim request [
      | none ↦ ret (unknown_opt mq (set_info [] name value charset false) opt s)
      | some info ↦ to_server server (start_state mq info (opt_return opt) s)
    ]
