-- ===== src/QueueManage/Locks.antt =====
-- source/mq_queue_manage.c: how long `mq_qm_set_wlock` locks a queue for `mq_qm_push_item`.
use ucmq.Prelude.{
  ℕ, ◌+◌, ◌≤◌, ◌≡◌, Bool, true, false, ◌||◌, Option, none, some, arith, ltb, ◌==◌, Bool_cases, inl,
  inr,
}
use ucmq.Config.{UcmqConf}
use ucmq.Types.{MqQueue}
use ucmq.Os.{Os}
use ucmq.QueueManage.{minus_one, is_wlocked, saved, set_wlock}

abbrev pub locked_at : Option MqQueue → ℕ → Bool
locked_at none t = false
locked_at (some q) t = is_wlocked q t

-- After a lock is set to `n` at the time `now`, the queue is locked at a time `t` from then on if
-- `n` is -1, and otherwise exactly while `t < now + n`, so never for 0, provided that `now + n` is
-- below 2 ^ 32 - 1.
pub set_wlock-is_wlocked :
    (os : Os) (conf : UcmqConf) (now t n : ℕ) (q : MqQueue) (s : os.Sys)
    → now ≤ t
    → (n == minus_one || ltb (now + n) minus_one) ≡ true
    → locked_at (set_wlock os conf now (some q) n s).1 t ≡ (n == minus_one || ltb t (now + n))
unfolding set_wlock saved is_wlocked
set_wlock-is_wlocked os conf now t n q s later fits = elim (Bool_cases (n == minus_one)) [
  | inl h ↦ ground (arith, h)
  | inr h ↦ elim (Bool_cases (n == 0)) [
    | inl z ↦ ground (arith, h, z)
    | inr z ↦ ground (arith, h, z)
  ]
]
