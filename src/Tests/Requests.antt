-- ===== src/Tests/Requests.antt =====
-- source/mq_evhttp.c: requests to a server with one queue.
use ucmq.Prelude.{◌≡◌, refl, true, not, ◌&&◌, some, [], ◌∷◌, leb, ◌==◌}
use ucmq.QueueManage.Table.{hash_find_queue_by_key}
use ucmq.QueueManage.Table.Lookup.{Unique}
use ucmq.Http.{negative_int, dest_num, req_qname_check, touch_queue_by_qname, name_chars, name_char}
use ucmq.Http.Names.{every_name_byte, req_qname_check_eq}
use ucmq.Http.Touch.{touch_queue_by_qname-Unique}
use ucmq.Tests.World.{world, server, small_atoi}

negative : negative_int (dest_num small_atoi (some (45 ∷ 49 ∷ []))) ≡ true
unfolding dest_num
negative = refl

accepted : req_qname_check (some (97 ∷ [])) ≡ true
unfolding req_qname_check name_chars name_char
accepted = refl

-- "a_" ends with '_'.
req_qname_check_eq_example :
    req_qname_check (some (97 ∷ 95 ∷ []))
    ≡ (leb 1 2 && leb 2 32 && every_name_byte (97 ∷ 95 ∷ []) && not (97 == 95) && not (95 == 95))
req_qname_check_eq_example = req_qname_check_eq (97 ∷ 95 ∷ [])

server-Unique : Unique server.qlist
unfolding hash_find_queue_by_key
server-Unique = (refl, tt)

touch_queue_by_qname-Unique_example : Unique (touch_queue_by_qname world (98 ∷ []) server).0.qlist
touch_queue_by_qname-Unique_example =
    touch_queue_by_qname-Unique world (98 ∷ []) server server-Unique
