-- ===== src/Client.antt =====
-- client/c/mq_client.c, client/c/object.h, client/c/mq_client.h: the client's data. The network and the clock
-- are parameters. A socket is `none` where the descriptor is negative; an `int` is its 32-bit
-- pattern. The texts of errors are left out.
pub mod Header
pub mod Request
pub mod Receive
pub mod Socket
pub mod Operate
pub mod Failover
pub mod Init
use ucmq.Prelude.{
  ℕ, suc, zero, Bool, true, false, ◌&&◌, Option, none, some, List, [], ◌∷◌, ◌==◌, if◌then◌else◌,
}

abbrev pub mq_true : ℕ
mq_true = 1

abbrev pub mq_false : ℕ
mq_false = 0

abbrev pub mq_lookup_order : ℕ
mq_lookup_order = 0

abbrev pub mq_lookup_random : ℕ
mq_lookup_random = 1

abbrev pub mq_get_msg_end : ℕ
mq_get_msg_end = 404

-- -1
abbrev pub int_minus_one : ℕ
int_minus_one = 4294967295

-- struct timespec
pub record Timespec : Type 0 where
  pub tv_sec : ℕ
  pub tv_nsec : ℕ

-- struct mq_srv
pub record MqSrv : Type 0 where
  pub mq_dest : List ℕ
  pub port : ℕ
  pub domain : List ℕ
  pub fd : Option ℕ
  pub last_use : ℕ
  pub timeout : ℕ

-- struct mq_object; `count` is the length of the list.
pub record MqObject : Type 0 where
  pub timeout : ℕ
  pub look_up : ℕ
  pub keep_alive : ℕ
  pub conn_list : List MqSrv

-- struct mq_opt_info with the character set of `conf`; a pointer is `none` where it is NULL.
pub record MqOptInfo : Type 0 where
  pub opt : List ℕ
  pub name : List ℕ
  pub num : Option (List ℕ)
  pub data_ : Option (List ℕ)
  pub charset : Option (List ℕ)
  pub mq_dest : List ℕ
  pub time_start : Timespec

-- struct mq_return
pub record MqReturn : Type 0 where
  pub pos : ℕ
  pub result : ℕ
  pub data_ : Option (List ℕ)
  pub index : ℕ
  pub opt_value : ℕ

pub data PollRet : Type 0 where
  poll_interrupted poll_failed : PollRet
  -- The returned events are not empty.
  polled : Bool → PollRet

pub data ConnectRet : Type 0 where
  connected in_progress is_connected connect_interrupted connect_failed : ConnectRet

pub data RecvRet : Type 0 where
  received : List ℕ → RecvRet
  closed would_block recv_interrupted recv_failed : RecvRet

pub data WriteRet : Type 0 where
  sent : ℕ → WriteRet
  write_again write_failed : WriteRet

-- What the client calls.
pub record Net : Type 1 where
  pub Sys : Type 0
  pub errno : Sys → ℕ
  pub set_errno : Sys → ℕ → Sys
  pub clock_gettime : Sys → Sys × Timespec
  pub rand : Sys → Sys × ℕ
  -- poll for output, or for input or an error, with a time in milliseconds.
  pub poll_out : Sys → Option ℕ → ℕ → Sys × PollRet
  pub poll_in : Sys → Option ℕ → ℕ → Sys × PollRet
  pub socket : Sys → Sys × Option ℕ
  -- fcntl to non-blocking mode gives 0.
  pub set_nonblock : Sys → Option ℕ → Sys × Bool
  pub connect : Sys → Option ℕ → List ℕ → ℕ → Sys × ConnectRet
  -- getsockopt(…, SO_ERROR, …): `none` where it fails.
  pub so_error : Sys → Option ℕ → Sys × Option ℕ
  pub writev : Sys → Option ℕ → List ℕ → Sys × WriteRet
  pub recv : Sys → Option ℕ → ℕ → Sys × RecvRet
  pub close : Sys → Option ℕ → Sys

-- conn_list[i]
unfoldable pub srv_at : List MqSrv → ℕ → Option MqSrv
srv_at [] i = none
srv_at (srv ∷ list) zero = some srv
srv_at (srv ∷ list) (suc i) = srv_at list i

unfoldable pub set_srv : List MqSrv → ℕ → MqSrv → List MqSrv
set_srv [] i srv' = []
set_srv (srv ∷ list) zero srv' = srv' ∷ list
set_srv (srv ∷ list) (suc i) srv' = srv ∷ set_srv list i srv'

-- ret->… of `in_init_return`.
abbrev pub init_return : MqReturn
init_return = record {
  pos = int_minus_one;
  result = int_minus_one;
  data_ = none;
  index = int_minus_one;
  opt_value = int_minus_one;
}
