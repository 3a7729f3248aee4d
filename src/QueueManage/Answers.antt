-- ===== src/QueueManage/Answers.antt =====
-- source/mq_queue_manage.c: which answer `mq_qm_push_item` gives, by the numbers of the queue.
use ucmq.Prelude.{
  ℕ, ◌+◌, ◌^◌, ◌≤◌, ◌<◌, ◌≡◌, ◌≢◌, ◌⊎◌, inl, inr, Bool_cases, true, false, ◌==◌, ltb, List, [], ◌∷◌,
  ◌++◌, arith, length,
}
use ucmq.Prelude.Run.{ret}
use ucmq.Config.{UcmqConf, max_db_file_size}
use ucmq.Types.{MqQueue}
use ucmq.Os.{Os, IsLawful}
use ucmq.StoreMsg.Layout.{Entry, IsEntry}
use ucmq.StoreManage.Fifo.{Represents}
use ucmq.QueueManage.{put_ok, full, wlock, is_full, is_wlocked, push_item}
use ucmq.QueueManage.Queue.{push_item-Represents, push_item_refused}

-- There is a bound, and so many messages are unread.
abbrev pub IsAtBound : MqQueue → Type 0
IsAtBound q = (0 < q.maxque) × (q.maxque ≤ q.unread_count)

abbrev pub IsBelowBound : MqQueue → Type 0
IsBelowBound q = (q.maxque ≡ 0) ⊎ (q.unread_count < q.maxque)

-- Locked for ever, or up to a later time.
abbrev pub IsLockedAt : MqQueue → ℕ → Type 0
IsLockedAt q now = (q.wlock ≡ 4294967295) ⊎ (now < q.wlock)

abbrev pub IsOpenAt : MqQueue → ℕ → Type 0
IsOpenAt q now = (q.wlock ≢ 4294967295) × (q.wlock ≤ now)

full_cases :
    (q : MqQueue)
    → q.unread_count + 1 < 2 ^ 64
    → (IsAtBound q × (is_full q ≡ true)) ⊎ (IsBelowBound q × (is_full q ≡ false))
unfolding is_full
full_cases q counted = elim (Bool_cases (q.maxque == 0)) [
  | inl none_set ↦ inr (inl (ground arith), ground (arith, none_set))
  | inr set ↦ elim (Bool_cases (ltb q.maxque (q.unread_count + 1))) [
    | inl over ↦ inl ((ground arith, ground arith), ground (arith, set, over, counted))
    | inr below ↦ inr (inr (ground arith), ground (arith, set, below, counted))
  ]
]

locked_cases :
    (q : MqQueue) (now : ℕ)
    → (IsLockedAt q now × (is_wlocked q now ≡ true)) ⊎ (IsOpenAt q now × (is_wlocked q now ≡ false))
unfolding is_wlocked
locked_cases q now = elim (Bool_cases (q.wlock == 4294967295)) [
  | inl for_ever ↦ inl (inl (ground arith), ground (arith, for_ever))
  | inr other ↦ elim (Bool_cases (ltb now q.wlock)) [
    | inl later ↦ inl (inr (ground arith), ground (arith, other, later))
    | inr over ↦ inr ((λ e. ground arith, ground arith), ground (arith, other, over))
  ]
]

module _ (os : Os) (conf : UcmqConf) (law : IsLawful os) (m : ℕ) where
  -- A message of one byte or more, below 2 ^ 31, for a queue whose file has room for it and that
  -- counts less than 2 ^ 64 - 1 unread messages, has one of three answers. A queue with a bound that
  -- its unread messages have reached answers that it is full; else one that is locked for ever, or
  -- to a time after this one, answers that it is locked; and both stay as they were, with the
  -- system. Any other queue takes the message as its last.
  pub push_item-answer :
      (now : ℕ) (body : List ℕ) (q : MqQueue) (s : os.Sys) (es : List Entry)
      → Represents os conf m s q es
      → IsEntry (record { time = now; body = body })
      → 0 < length body
      → q.cur_wdb.pos + (12 + length body) ≤ max_db_file_size conf
      → q.unread_count + 1 < 2 ^ 64
      → (IsAtBound q × (push_item os conf now body q s ≡ ret (s, q, full)))
        ⊎ (IsBelowBound q × IsLockedAt q now × (push_item os conf now body q s ≡ ret (s, q, wlock)))
        ⊎ (IsBelowBound q
            × IsOpenAt q now
            × ((s' : os.Sys) × (q' : MqQueue) × (push_item os conf now body q s
                  ≡ ret (s', q', put_ok))
                × Represents os conf m s' q' (es ++ record { time = now; body = body } ∷ [])))
  push_item-answer now body q s es r v some_ room counted = elim (full_cases q counted) [
    | inl (at, e) ↦
        inl
          (at, ground (arith, e, push_item_refused os conf law m now body q s (ground (arith, e))))
    | inr (below, e) ↦ elim (locked_cases q now) [
      | inl (locked, l) ↦ inr (
          inl (
            below,
            locked,
            ground
                (arith, e, l, push_item_refused os conf law m now body q s (ground (arith, e, l))),
          ))
      | inr (opened, l) ↦
          let (s', q', runs, kept, rest) =
            push_item-Represents os conf law m now body q s es r v some_ room e l in
          inr (inr (below, opened, (s', q', runs, kept)))
    ]
  ]
