-- ===== src/Io/Frame.antt =====
-- source/file.c: what holds before and after a loop, whatever the calls answer.
use ucmq.Prelude.{
  ℕ, zero, suc, not, ◌&&◌, ◌||◌, ◌==◌, ltb, Option, none, some, arith, either_way, if◌then◌else◌,
}
use ucmq.Prelude.Run.{Run, ret, ◌>>=◌, Held, bind-Held}
use ucmq.Io.{
  Timespec, Host, at_most_zero, is_negative, eintr, eagain, mq_etimedout, expired, Turn, stop, more,
  poll_again, wait_fd, set_errno, timed_out, get_rel_time, rounds_of, end_round,
}
use ucmq.Io.Transfer.{on_events, block_turn, would_block, on_errno}

module _ (host : Host) where
  open host use {Sys}

  -- What holds of a state and is left alone by `errno`, the clock and poll.
  pub record IsFrame (Q : Sys → Type 0) : Type 0 where
    pub store_errno : (s : Sys) (e : ℕ) → Q s → Q (host.store_errno s e)
    pub clock : (s : Sys) → Q s → Q (host.clock s).0
    pub poll : (s : Sys) (fd : Option ℕ) (events t : ℕ) → Q s → Q (host.poll s fd events t).0

  abbrev pub Taken : {A : Type 0} → (Option A → Sys → Type 0) → Turn Sys A → Type 0
  Taken P (stop s o) = P o s
  Taken P (more s a) = P (some a) s

  poll_again-Held :
      (Q : Sys → Type 0)
      → IsFrame Q
      → (fuel : ℕ) (fd : Option ℕ) (events t : ℕ) (s : Sys) → Q s
      → Held (λ (w : Sys × Option ℕ). Q w.0) (poll_again host fuel fd events t s)
  unfolding poll_again
  poll_again-Held Q f zero fd events t s h = tt
  poll_again-Held Q f (suc fuel) fd events t s h =
      let again =
        poll_again-Held Q f fuel fd events t (host.poll s fd events t).0 (f.poll s fd events t h) in
      let now = f.poll s fd events t h in ground (arith)

  module _ {A : Type 0} (P : Option A → Sys → Type 0) where
    end_round-Held :
        (size timeout : ℕ) (count : A → ℕ) (again : A → Sys → Run (Sys × Option A))
        → ((a : A) (s : Sys) → P (some a) s → Held (λ (w : Sys × Option A). P w.1 w.0) (again a s))
        → (t : Turn Sys A) → Taken P t
        → Held (λ (w : Sys × Option A). P w.1 w.0) (end_round host size timeout count again t)
    unfolding end_round
    end_round-Held size timeout count again keeps (stop s o) h = h
    end_round-Held size timeout count again keeps (more s a) h =
        either_way (Held λ (w : Sys × Option A). P w.1 w.0)
          (ltb (count a) size && not (timeout == 0)) (keeps a s h) h

    -- What each round keeps, the loop has at its end.
    pub rounds_of-Held :
        (size timeout : ℕ) (count : A → ℕ) (turn : A → Sys → Run (Turn Sys A))
        → ((a : A) (s : Sys) → P (some a) s → Held (Taken P) (turn a s))
        → (rounds : ℕ) (a : A) (s : Sys) → P (some a) s
        → Held
            (λ (w : Sys × Option A). P w.1 w.0)
            (rounds_of host size timeout count turn rounds a s)
    unfolding rounds_of
    rounds_of-Held size timeout count turn keeps zero a s h = tt
    rounds_of-Held size timeout count turn keeps (suc rounds) a s h =
        bind-Held (Taken P) (λ w. P w.1 w.0)
          (end_round host size timeout count (rounds_of host size timeout count turn rounds))
          (turn a s) (keeps a s h)
          (end_round-Held size timeout count (rounds_of host size timeout count turn rounds)
            (rounds_of-Held size timeout count turn keeps rounds))

    module _ (frame : (o : Option A) → IsFrame (P o))
        (drops : (a : A) (s : Sys) → P (some a) s → P none s) (fuel : ℕ) (fd : Option ℕ)
        (timeout : ℕ) (abs_to : Timespec) where
      timed_out-Taken : (s : Sys) → P none s → Taken P (timed_out host s)
      unfolding timed_out set_errno
      timed_out-Taken s h = (frame none).store_errno s mq_etimedout h

      on_events-Held :
          (events : ℕ) (act : Sys → Run (Turn Sys A)) (w : Sys × Option ℕ)
          → P none w.0
          → Held (Taken P) (act w.0)
          → Held (Taken P) (on_events host fuel fd timeout abs_to events act w)
      unfolding on_events
      on_events-Held events act (s, none) h acts = h
      on_events-Held events act (s, some revents) h acts =
          either_way (Held (Taken P)) (revents == events) acts
            (either_way (Held (Taken P)) (revents == 0) (timed_out-Taken s h) h)

      wait-Held :
          (events t : ℕ) (a : A) (act : Sys → Run (Turn Sys A))
          → ((s : Sys) → P (some a) s → Held (Taken P) (act s))
          → (s : Sys) → P (some a) s
          → Held
              (Taken P)
              (wait_fd host fuel fd events t s >>= on_events host fuel fd timeout abs_to events act)
      unfolding wait_fd
      wait-Held events t a act acts s h =
          bind-Held (λ (w : Sys × Option ℕ). P (some a) w.0) (Taken P)
            (on_events host fuel fd timeout abs_to events act) (wait_fd host fuel fd events t s)
            (poll_again-Held (P (some a)) (frame (some a)) fuel fd events t (host.store_errno s 0)
              ((frame (some a)).store_errno s 0 h))
            (λ w h'. on_events-Held events act w (drops a w.0 h') (acts w.0 h'))

      pub block_turn-Held :
          (events : ℕ) (a : A) (act : Sys → Run (Turn Sys A))
          → ((s : Sys) → P (some a) s → Held (Taken P) (act s))
          → (s : Sys) → P (some a) s
          → Held (Taken P) (block_turn host fuel fd timeout abs_to events act s)
      unfolding block_turn get_rel_time
      block_turn-Held events a act acts s h =
          let (s', now) = host.clock s in
          let h' = (frame (some a)).clock s h in
          let next_to = host.ms_between abs_to now in
          either_way (Held (Taken P)) (expired timeout next_to) (timed_out-Taken s' (drops a s' h'))
            (wait-Held events (if at_most_zero timeout then timeout else next_to) a act acts s' h')

      pub on_errno-Held :
          (events : ℕ) (a : A) (s : Sys)
          → P (some a) s
          → Held (Taken P) (on_errno host fuel fd timeout abs_to events a s)
      unfolding on_errno would_block get_rel_time
      on_errno-Held events a s h =
          let (s', now) = host.clock s in
          let h' = (frame (some a)).clock s h in
          let next_to = host.ms_between abs_to now in
          either_way (Held (Taken P)) (host.errno s == eintr) h (
            either_way (Held (Taken P)) (host.errno s == eagain)
              (either_way (Held (Taken P)) (timeout == 0 || expired timeout next_to)
                (timed_out-Taken s' (drops a s' h'))
                (wait-Held events (if is_negative timeout then timeout else next_to) a
                  (λ s''. ret (more s'' a)) (λ s'' k. k) s' h'))
              (drops a s h))
