-- ===== src/QueueManage/Table/Lookup.antt =====
-- source/mq_queue_manage.c: the table of queues as a map from names to queues.
use ucmq.Prelude.{
  ℕ, ◌≡◌, refl, sym, ap, ap₂, Bool, true, false, ◌&&◌, Option, none, some, List, [], ◌∷◌, arith,
  if◌then◌else◌, Bool_cases, inl, inr,
}
use ucmq.Types.{MqQueue}
use ucmq.QueueManage.Table.{
  QueueList, same_name, hash_add_queue_kv, hash_find_queue_by_key, hash_del_queue, put_back,
}

pub same_name_self : (a : List ℕ) → same_name a a ≡ true
unfolding same_name
same_name_self [] = refl
same_name_self (x ∷ a) = ground (arith, same_name_self a)

pub same_name_eq : (a b : List ℕ) → same_name a b ≡ true → a ≡ b
unfolding same_name
same_name_eq [] [] h = refl
same_name_eq [] (y ∷ b) h = absurd (ground arith)
same_name_eq (x ∷ a) [] h = absurd (ground arith)
same_name_eq (x ∷ a) (y ∷ b) h = ap₂ ◌∷◌ (ground arith) (same_name_eq a b (ground arith))

-- No name is in the table twice.
abbrev pub Unique : QueueList → Type 0
Unique [] = Unit
Unique ((key, q) ∷ qlist) = (hash_find_queue_by_key key qlist ≡ none) × Unique qlist

abbrev is_there : Option MqQueue → Bool
is_there none = false
is_there (some q) = true

same_name_comm : (a b : List ℕ) → same_name a b ≡ same_name b a
unfolding same_name
same_name_comm [] [] = refl
same_name_comm [] (y ∷ b) = refl
same_name_comm (x ∷ a) [] = refl
same_name_comm (x ∷ a) (y ∷ b) = ground (arith, same_name_comm a b)

-- Equal names are equal to the same names, and find the same queue.
same_name_left : (a b k : List ℕ) → same_name a b ≡ true → same_name b k ≡ same_name a k
same_name_left a b k h = ap (λ t. same_name t k) (sym (same_name_eq a b h))

find_same :
    (a b : List ℕ) (qlist : QueueList)
    → same_name a b ≡ true
    → hash_find_queue_by_key b qlist ≡ hash_find_queue_by_key a qlist
find_same a b qlist h = ap (λ t. hash_find_queue_by_key t qlist) (sym (same_name_eq a b h))

-- In a table with no name twice, a deletion takes away the queue of that name and no other.
find_del_queue :
    (qname k : List ℕ) (qlist : QueueList)
    → Unique qlist
    → hash_find_queue_by_key k (hash_del_queue qname qlist)
      ≡ (if same_name qname k then none else hash_find_queue_by_key k qlist)
unfolding hash_del_queue hash_find_queue_by_key
find_del_queue qname k [] u = elim (Bool_cases (same_name qname k)) [
  | inl h ↦ ground (arith, h)
  | inr h ↦ ground (arith, h)
]
find_del_queue qname k ((key, q) ∷ qlist) u = elim (Bool_cases (same_name key qname)) [
  | inl h ↦ elim (Bool_cases (same_name key k)) [
    | inl g ↦ ground (arith, h, g, same_name_left key qname k h, find_same key k qlist g, u.0)
    | inr g ↦ ground (arith, h, g, same_name_left key qname k h)
  ]
  | inr h ↦ elim (Bool_cases (same_name key k)) [
    | inl g ↦ ground (arith, h, g, same_name_left key k qname g, same_name_comm k qname)
    | inr g ↦ ground (arith, h, g, find_del_queue qname k qlist u.1)
  ]
]

-- A change in place replaces the queue of that name, if there is one, and no other.
find_put_back :
    (qname k : List ℕ) (q' : MqQueue) (qlist : QueueList)
    → hash_find_queue_by_key k (put_back qname q' qlist) ≡ (
        if same_name qname k && is_there (hash_find_queue_by_key k qlist)
        then some q'
        else hash_find_queue_by_key k qlist)
unfolding put_back hash_find_queue_by_key
find_put_back qname k q' [] = elim (Bool_cases (same_name qname k)) [
  | inl h ↦ ground (arith, h)
  | inr h ↦ ground (arith, h)
]
find_put_back qname k q' ((key, q) ∷ qlist) = elim (Bool_cases (same_name key qname)) [
  | inl h ↦ elim (Bool_cases (same_name key k)) [
    | inl g ↦ ground (arith, h, g, same_name_left key qname k h)
    | inr g ↦ ground (arith, h, g, same_name_left key qname k h)
  ]
  | inr h ↦ elim (Bool_cases (same_name key k)) [
    | inl g ↦ ground (arith, h, g, same_name_left key k qname g, same_name_comm k qname)
    | inr g ↦ ground (arith, h, g, find_put_back qname k q' qlist)
  ]
]

-- A queue that is added is found if its name was not there, and no other name is affected.
pub find_add_queue_kv :
    (qname k : List ℕ) (q' : MqQueue) (qlist : QueueList)
    → hash_find_queue_by_key k (hash_add_queue_kv qname q' qlist) ≡ (
        if is_there (hash_find_queue_by_key k qlist)
        then hash_find_queue_by_key k qlist
        else if same_name qname k
        then some q'
        else none)
unfolding hash_add_queue_kv hash_find_queue_by_key
find_add_queue_kv qname k q' [] = refl
find_add_queue_kv qname k q' ((key, q) ∷ qlist) = elim (Bool_cases (same_name key k)) [
  | inl g ↦ ground (arith, g)
  | inr g ↦ ground (arith, g, find_add_queue_kv qname k q' qlist)
]

pub add_queue_kv-Unique :
    (qname : List ℕ) (q' : MqQueue) (qlist : QueueList)
    → Unique qlist
    → hash_find_queue_by_key qname qlist ≡ none
    → Unique (hash_add_queue_kv qname q' qlist)
unfolding hash_add_queue_kv hash_find_queue_by_key
add_queue_kv-Unique qname q' [] u n = (refl, tt)
add_queue_kv-Unique qname q' ((key, q) ∷ qlist) u n = (
  ground (arith, find_add_queue_kv qname key q' qlist, u.0, same_name_comm qname key, n),
  add_queue_kv-Unique qname q' qlist u.1 (ground (arith, n)),
)
