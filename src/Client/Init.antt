-- ===== src/Client/Init.antt =====
-- client/c/mq_client.c: `mq_init`, `mq_fini` and the addresses of the servers. The library's `atoi` gives a
-- 32-bit pattern, and its `inet_addr` tells whether the text is an address. There is memory enough.
pub mod Addresses
use ucmq.Prelude.{
  ℕ, ◌+◌, ◌-◌, Bool, true, false, ◌&&◌, ◌||◌, Option, none, some, List, [], ◌∷◌, length, take, ltb,
  leb, ◌==◌, if◌then◌else◌,
}
use ucmq.Prelude.Run.{Run, ret, fault, ◌>>=◌}
use ucmq.Client.{Net, MqSrv, MqObject}
use ucmq.Client.Socket.{in_del_list}

unfoldable pub address_char : ℕ → Bool
address_char c = c == b'.' || (leb b'0' c && leb c b'9')

unfoldable pub address_chars : List ℕ → List ℕ
unfolding address_char
address_chars [] = []
address_chars (c ∷ text) =
    let rest = address_chars text in if address_char c then c ∷ rest else rest

-- Characters that no address has are left out. 32 others leave no place for the zero in `tmp`.
unfoldable pub str2ip : (List ℕ → Bool) → List ℕ → Run Bool
unfolding address_chars
str2ip inet_addr ip_str =
    if leb 32 (length (address_chars ip_str)) then fault else ret (inet_addr (address_chars ip_str))

-- strchr(addr, ':'): what is before and behind it.
unfoldable pub split_colon : List ℕ → Option (List ℕ × List ℕ)
split_colon [] = none
split_colon (c ∷ addr) =
    let rest = split_colon addr in
    if c == b':'
    then some ([], addr)
    else elim rest [ none ↦ none | some (domain, port) ↦ some (c ∷ domain, port) ]

module _ (inet_addr : List ℕ → Bool) (atoi : List ℕ → ℕ) where
  unfoldable pub with_address : List ℕ → List ℕ → List ℕ → Bool → Run (Option MqSrv)
  with_address addr domain port false = ret none
  with_address addr domain port true =
      if ltb 64 (length domain)
      then fault
      else ret (
          some (record {
            mq_dest = addr;
            port = atoi port;
            domain = domain;
            fd = none;
            last_use = 0;
            timeout = 0;
          }))

  -- The fields hold 70 and 64 characters.
  unfoldable pub init_srv : List ℕ → Run (Option MqSrv)
  unfolding with_address split_colon str2ip
  init_srv addr = if ltb 70 (length addr) then fault else elim (split_colon addr) [
    | none ↦ ret none
    | some (domain, port) ↦ (do
      valid ← str2ip inet_addr domain
      with_address addr domain port valid)
  ]

  unfoldable pub joined : Option MqSrv → Option (List MqSrv) → Option (List MqSrv)
  joined none list = none
  joined (some srv) none = none
  joined (some srv) (some list) = some (srv ∷ list)

  -- The first bad address ends the loop.
  unfoldable pub init_list : List (List ℕ) → Run (Option (List MqSrv))
  unfolding init_srv joined
  init_list [] = ret (some [])
  init_list (addr ∷ server_group) = do
    srv ← init_srv addr
    elim srv [
      | none ↦ ret none
      | some s ↦ (do list ← init_list server_group; ret (joined (some s) list))
    ]

  unfoldable pub object_of : ℕ → ℕ → ℕ → Option (List MqSrv) → Option MqObject
  object_of look_up timeout keep_alive none = none
  object_of look_up timeout keep_alive (some list) =
      some
        (record { timeout = timeout; look_up = look_up; keep_alive = keep_alive; conn_list = list })

  unfoldable pub mq_init : List (List ℕ) → ℕ → ℕ → ℕ → Run (Option MqObject)
  unfolding init_list object_of
  mq_init server_group look_up timeout keep_alive = do
    list ← init_list server_group
    ret (object_of look_up timeout keep_alive list)

unfoldable pub mq_fini : (net : Net) → MqObject → net.Sys → net.Sys
unfolding in_del_list
mq_fini net mq s = in_del_list net mq.conn_list s
