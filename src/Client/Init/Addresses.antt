-- ===== src/Client/Init/Addresses.antt =====
-- client/c/mq_client.c: a client whose servers' addresses are good.
use ucmq.Prelude.{
  ℕ, ◌≤◌, ◌<◌, ◌≡◌, refl, ap, true, Bool, none, some, List, [], ◌∷◌, arith, length, map, All,
}
use ucmq.Prelude.Run.{ret}
use ucmq.Client.{MqSrv, MqObject}
use ucmq.Client.Init.{
  address_chars, str2ip, split_colon, with_address, init_srv, joined, init_list, object_of, mq_init,
}
use ucmq.Client.Failover.Down.{IsIdle}

module _ (inet_addr : List ℕ → Bool) (atoi : List ℕ → ℕ) where
  -- A host and a port that fit their fields, and a host that is an address.
  record IsAddress (addr : List ℕ) : Type 0 where
    pub domain : List ℕ
    pub port : List ℕ
    pub splits : split_colon addr ≡ some (domain, port)
    pub short : length addr ≤ 70
    pub short_domain : length domain ≤ 64
    pub few : length (address_chars domain) < 32
    pub valid : inet_addr (address_chars domain) ≡ true

  -- The connection of an address: its host, its port and no socket yet.
  abbrev srv_of : (addr : List ℕ) → IsAddress addr → MqSrv
  srv_of addr v = record {
    mq_dest = addr;
    port = atoi v.port;
    domain = v.domain;
    fd = none;
    last_use = 0;
    timeout = 0;
  }

  srv_good :
      (addr : List ℕ) (v : IsAddress addr)
      → init_srv inet_addr atoi addr ≡ ret (some (srv_of addr v))
  unfolding init_srv str2ip with_address
  srv_good addr v = ground (arith, v.splits, v.short, v.short_domain, v.few, v.valid)

  list_good :
      (group : List (List ℕ))
      → All IsAddress group
      → (list : List MqSrv) × (init_list inet_addr atoi group ≡ ret (some list))
        × IsIdle list
        × (map (λ srv. srv.mq_dest) list ≡ group)
  unfolding init_list joined
  list_good [] v = ([], refl, tt, refl)
  list_good (addr ∷ group) v =
      let (list, inits, idle, dests) = list_good group v.1 in
      (
        srv_of addr v.0 ∷ list,
        ground (arith, srv_good addr v.0, inits),
        (refl, idle),
        ap (λ t. addr ∷ t) dests,
      )

  -- From good addresses `mq_init` makes a client that has them all, in order, and no open
  -- connection.
  mq_init_good :
      (group : List (List ℕ)) (look_up timeout keep_alive : ℕ)
      → All IsAddress group
      → (mq : MqObject) × (mq_init inet_addr atoi group look_up timeout keep_alive ≡ ret (some mq))
        × IsIdle mq.conn_list
        × (map (λ srv. srv.mq_dest) mq.conn_list ≡ group)
  unfolding mq_init object_of
  mq_init_good group look_up timeout keep_alive v =
      let (list, inits, idle, dests) = list_good group v in
      (
        record { timeout = timeout; look_up = look_up; keep_alive = keep_alive; conn_list = list },
        ground (arith, inits),
        idle,
        dests,
      )
