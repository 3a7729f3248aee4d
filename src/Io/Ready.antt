-- ===== src/Io/Ready.antt =====
-- source/file.c: `write_n` on a descriptor that takes at least one byte at each call.
use ucmq.Prelude.{
  ℕ, zero, suc, ◌+◌, ◌≤◌, ◌<◌, ◌≡◌, refl, sym, ap, ◌∙◌, Bool, true, false, ◌==◌, ltb, ltb→lt,
  Bool_cases, inl, inr, Option, some, none, List, ◌++◌, append-nil, append_assoc, arith, length,
  length-drop, take, take_all, drop, if◌then◌else◌,
}
use ucmq.Prelude.Run.{Run, ret}
use ucmq.Io.{
  Timespec, polled, took, Host, at_most_zero, pollout, FdBlock, expired, Turn, more, later_by,
  poll_again, wait_fd, get_abs_time, get_rel_time, is_nonblock, end_round, rounds_of,
}
use ucmq.Io.Transfer.{
  write_again, after_write, on_events, block_turn, block_write_turn, nonblock_write_turn, by_mode,
  block_write_n, nonblock_write_n, write_n,
}
use ucmq.Io.Prefix.{Appends, take_step, mode_written}

-- Every call takes at least one byte and poll says that there is room. `Before target k s` says that
-- at `s` so many writes end before the target time: it is then not over, and only a write uses it
-- up.
pub record IsReady (host : Host) (fd : Option ℕ) (timeout : ℕ) : Type 1 where
  pub takes : host.Sys → List ℕ → ℕ
  pub takes_some :
      (s : host.Sys) (bs : List ℕ)
      → 0 < length bs
      → (host.write s fd bs).1 ≡ took (suc (takes s bs))
  pub has_room : (s : host.Sys) (t : ℕ) → (host.poll s fd pollout t).1 ≡ polled pollout
  pub Before : Timespec → ℕ → host.Sys → Type 0
  pub in_time :
      (target : Timespec) (k : ℕ) (s : host.Sys)
      → Before target (suc k) s
      → expired timeout (host.ms_between target (host.clock s).1) ≡ false
  pub before_clock :
      (target : Timespec) (k : ℕ) (s : host.Sys)
      → Before target k s
      → Before target k (host.clock s).0
  pub before_errno :
      (target : Timespec) (k : ℕ) (s : host.Sys) (e : ℕ)
      → Before target k s
      → Before target k (host.store_errno s e)
  pub before_poll :
      (target : Timespec) (k : ℕ) (s : host.Sys) (t : ℕ)
      → Before target k s
      → Before target k (host.poll s fd pollout t).0
  pub before_write :
      (target : Timespec) (k : ℕ) (s : host.Sys) (bs : List ℕ)
      → Before target (suc k) s
      → Before target k (host.write s fd bs).0

-- From a state on, so many writes end before the target time that the time-out sets there.
abbrev pub HasTime :
    (host : Host) (fd : Option ℕ) (timeout : ℕ) → IsReady host fd timeout → ℕ → host.Sys → Type 0
HasTime host fd timeout ready rounds s =
    let (s', now) = host.clock s in ready.Before (later_by timeout now) rounds s'

module _ (host : Host) (fd : Option ℕ) (timeout : ℕ) (file : Appends host fd)
    (ready : IsReady host fd timeout) (buf before : List ℕ) where
  open host use {Sys}

  -- So many bytes are written.
  abbrev Has : ℕ → Sys → Type 0
  Has total s = (total ≤ length buf) × (file.written s ≡ before ++ take total buf)

  -- A round that writes more, with time left for so many.
  abbrev Advances : Timespec → ℕ → ℕ → Run (Turn Sys ℕ) → Type 0
  Advances abs_to k total r =
      (n : ℕ) × (s' : Sys) × (r ≡ ret (more s' (total + suc n)))
      × Has (total + suc n) s'
      × ready.Before abs_to k s'

  -- The time-out is not 0, so the loop goes on while bytes are missing.
  all_written :
      (abs_to : Timespec) (turn : ℕ → Sys → Run (Turn Sys ℕ))
      → ((total k : ℕ) (s : Sys)
          → total < length buf
          → Has total s
          → ready.Before abs_to (suc k) s
          → Advances abs_to k total (turn total s))
      → (timeout == 0) ≡ false
      → (rounds total : ℕ) (s : Sys) → total < length buf
      → length buf ≤ total + rounds
      → Has total s
      → ready.Before abs_to rounds s
      → (s' : Sys) × (rounds_of host (length buf) timeout (λ n. n) turn rounds total s
          ≡ ret (s', some (length buf)))
        × (file.written s' ≡ before ++ buf)
  unfolding rounds_of end_round
  all_written abs_to turn step wait zero total s room enough h b = absurd (omega arith)
  all_written abs_to turn step wait (suc rounds) total s room enough h b =
      let (n, s', e, h', b') = step total rounds s room h b in
      elim (Bool_cases (ltb (total + suc n) (length buf))) [
        | inl less ↦
            let (s'', runs, same) =
              all_written abs_to turn step wait rounds (total + suc n) s' (ltb→lt _ _ less)
                (omega arith) h' b' in
            (s'', rw (e, rounds_of) (rw (less, wait) runs), same)
        | inr geq ↦
            let full : total + suc n ≡ length buf = ground (arith, geq, h'.0) in
            (
              s',
              rw (e, rounds_of) (rw geq (ap (λ k. ret (s', some k)) full)),
              h'.1
                  ∙ ap (λ k. before ++ take k buf) full
                  ∙ ap (λ t. before ++ t) (take_all (length buf) buf (omega arith)),
            )
      ]

  writes :
      (total : ℕ) (s : Sys)
      → total < length buf
      → Has total s
      → Has (total + suc (ready.takes s (drop total buf))) (host.write s fd (drop total buf)).0
  writes total s room (most, text) =
      let n = ready.takes s (drop total buf) in
      let left = length-drop total buf in
      let (fits, more_text) =
        file.took_front s (drop total buf) (suc n)
          (ready.takes_some s (drop total buf) (omega (arith, left))) in
      (
        omega (arith, left),
        more_text
            ∙ ap (λ t. t ++ take (suc n) (drop total buf)) text
            ∙ append_assoc before (take total buf) (take (suc n) (drop total buf))
            ∙ ap (λ t. before ++ t) (take_step total (suc n) buf (omega arith)),
      )

  module _ (fuel : ℕ) (abs_to : Timespec) where
    nonblock_step :
        (total k : ℕ) (s : Sys)
        → total < length buf
        → Has total s
        → ready.Before abs_to (suc k) s
        → Advances abs_to k total (nonblock_write_turn host fuel fd timeout abs_to buf total s)
    unfolding nonblock_write_turn after_write
    nonblock_step total k s room h b =
        let e = ready.takes_some s (drop total buf) (omega (arith, length-drop total buf)) in
        (
          ready.takes s (drop total buf),
          (host.write s fd (drop total buf)).0,
          rw (e, nonblock_write_turn) refl,
          writes total s room h,
          ready.before_write abs_to k s (drop total buf) b,
        )

    block_step :
        (total k : ℕ) (s : Sys)
        → total < length buf
        → Has total s
        → ready.Before abs_to (suc k) s
        → Advances abs_to k total (block_write_turn host (suc fuel) fd timeout abs_to buf total s)
    unfolding block_write_turn block_turn get_rel_time wait_fd poll_again on_events write_again
        after_write
    block_step total k s room h b =
        let on = ready.in_time abs_to k s b in
        let next_to = host.ms_between abs_to (host.clock s).1 in
        let t = if at_most_zero timeout then timeout else next_to in
        let s0 = host.store_errno (host.clock s).0 0 in
        let there = ready.has_room s0 t in
        let s' = (host.poll s0 fd pollout t).0 in
        let e = ready.takes_some s' (drop total buf) (omega (arith, length-drop total buf)) in
        let h' : Has total s' = (
          h.0,
          file.poll_written s0 fd pollout t
              ∙ file.errno_written (host.clock s).0 0
              ∙ file.clock_written s
              ∙ h.1,
        ) in
        (
          ready.takes s' (drop total buf),
          (host.write s' fd (drop total buf)).0,
          ground (arith, e, there, on),
          writes total s' room h',
          ready.before_write abs_to k s' (drop total buf) (
              ready.before_poll abs_to (suc k) s0 t (
                ready.before_errno abs_to (suc k) (host.clock s).0 0
                  (ready.before_clock abs_to (suc k) s b))),
        )

  by_mode_all :
      (fuel rounds : ℕ) (w : Sys × Option Bool) (b : Bool)
      → w.1 ≡ some b
      → (timeout == 0) ≡ false
      → 0 < length buf
      → length buf ≤ rounds
      → file.written w.0 ≡ before
      → ready.Before (later_by timeout (host.clock w.0).1) rounds (host.clock w.0).0
      → (s' : Sys) × (by_mode host
            (suc fuel)
            fd
            rounds
            timeout
            (block_write_n host (suc fuel) fd rounds timeout buf)
            (nonblock_write_n host (suc fuel) fd rounds timeout buf)
            w
          ≡ ret (s', some (length buf)))
        × (file.written s' ≡ before ++ buf)
  unfolding by_mode block_write_n nonblock_write_n get_abs_time
  by_mode_all fuel rounds (s, none) b known wait some_ enough e left = cc known
  by_mode_all fuel rounds (s, some true) b known wait some_ enough e left =
      let abs_to = later_by timeout (host.clock s).1 in
      all_written abs_to (nonblock_write_turn host (suc fuel) fd timeout abs_to buf)
        (nonblock_step (suc fuel) abs_to) wait rounds 0 (host.clock s).0 some_ (omega arith)
        (omega arith, file.clock_written s ∙ e ∙ sym (append-nil before)) left
  by_mode_all fuel rounds (s, some false) b known wait some_ enough e left =
      let abs_to = later_by timeout (host.clock s).1 in
      all_written abs_to (block_write_turn host (suc fuel) fd timeout abs_to buf)
        (block_step fuel abs_to) wait rounds 0 (host.clock s).0 some_ (omega arith)
        (omega arith, file.clock_written s ∙ e ∙ sym (append-nil before)) left

-- Where the mode of the descriptor is known, the time-out is not 0, every call takes at least one
-- byte, with room, and so many writes as there may be rounds, one for each byte or more, end before
-- the time-out, `write_n` of one byte or more ends within these rounds with the size of the buffer
-- as its result, and has written all of it behind what was there, in either mode.
pub write_n_ready :
    (host : Host) (fd : Option ℕ) (timeout : ℕ) (file : Appends host fd)
    (ready : IsReady host fd timeout) (fuel rounds : ℕ) (block_type : FdBlock) (buf : List ℕ)
    (s : host.Sys) (mode : Bool)
    → (is_nonblock host fd block_type s).1 ≡ some mode
    → (timeout == 0) ≡ false
    → 0 < length buf
    → length buf ≤ rounds
    → HasTime host fd timeout ready rounds (is_nonblock host fd block_type s).0
    → (s' : host.Sys) × (write_n host (suc fuel) fd rounds timeout block_type buf s
        ≡ ret (s', some (length buf)))
      × (file.written s' ≡ file.written s ++ buf)
unfolding write_n
write_n_ready host fd timeout file ready fuel rounds block_type buf s mode known wait some_ enough
      left =
    by_mode_all host fd timeout file ready buf (file.written s) fuel rounds
      (is_nonblock host fd block_type s) mode known wait some_ enough
      (mode_written host fd file buf (file.written s) (suc fuel) rounds timeout block_type s) left
