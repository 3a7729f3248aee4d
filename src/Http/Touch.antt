-- ===== src/Http/Touch.antt =====
-- source/mq_evhttp.c: `touch_queue_by_qname` and the names in the table.
use ucmq.Prelude.{
  ℕ, ◌≡◌, refl, sym, subst, Bool, true, false, none, some, List, arith, leb, Option_cases, inl, inr,
  either_way,
}
use ucmq.Types.{MqQueue}
use ucmq.Os.{Os}
use ucmq.StoreManage.{creat_db}
use ucmq.QueueManage.{init_queue}
use ucmq.QueueManage.Table.{
  QueueList, find_queue, hash_find_queue_by_key, add_queue, added, hash_get_queue_num, zero_queue,
}
use ucmq.QueueManage.Table.Lookup.{Unique, add_queue_kv-Unique}
use ucmq.Http.{Server, find_queue_by_qname, touch_queue_by_qname, touched}

module _ (os : Os) (qname : List ℕ) (sv : Server os) where
  added-Unique :
      (done : os.Sys × MqQueue × Bool)
      → Unique sv.qlist
      → hash_find_queue_by_key qname sv.qlist ≡ none
      → Unique (added os sv.conf qname sv.qlist done).1
  unfolding added
  added-Unique (s, q, false) u n = u
  added-Unique (s, q, true) u n = add_queue_kv-Unique qname (init_queue sv.conf q) sv.qlist u n

  add_queue-Unique :
      Unique sv.qlist
      → hash_find_queue_by_key qname sv.qlist ≡ none
      → Unique (add_queue os sv.conf qname sv.qlist sv.sys).1
  unfolding add_queue
  add_queue-Unique u n =
      either_way Good (leb sv.conf.max_qlist_itmes (hash_get_queue_num sv.qlist)) u
        (added-Unique (creat_db os sv.conf (zero_queue qname) sv.sys) u n)
    where
      Good : os.Sys × QueueList × Bool → Type 0
      Good done = Unique done.1

  touched_qlist : (done : os.Sys × QueueList × Bool) → (touched os qname sv done).0.qlist ≡ done.1
  unfolding touched
  touched_qlist (s, qlist, false) = refl
  touched_qlist (s, qlist, true) = refl

  created :
      hash_find_queue_by_key qname sv.qlist ≡ none
      → (touch_queue_by_qname os qname sv).0.qlist ≡ (add_queue os sv.conf qname sv.qlist sv.sys).1
  unfolding touch_queue_by_qname find_queue_by_qname find_queue
  created n = ground (arith, n, touched_qlist (add_queue os sv.conf qname sv.qlist sv.sys))

  kept :
      (q : MqQueue)
      → hash_find_queue_by_key qname sv.qlist ≡ some q
      → (touch_queue_by_qname os qname sv).0.qlist ≡ sv.qlist
  unfolding touch_queue_by_qname find_queue_by_qname find_queue
  kept q f = ground (arith, f)

  -- If no name is in the table twice, that is so after a queue is found or created.
  pub touch_queue_by_qname-Unique :
      Unique sv.qlist → Unique (touch_queue_by_qname os qname sv).0.qlist
  touch_queue_by_qname-Unique u = elim (Option_cases (hash_find_queue_by_key qname sv.qlist)) [
    | inl n ↦ subst Unique (sym (created n)) (add_queue-Unique u n)
    | inr (q, f) ↦ subst Unique (sym (kept q f)) u
  ]
