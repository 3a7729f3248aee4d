-- ===== src/Io/Prefix.antt =====
-- source/file.c: whatever the calls answer, `write_n` writes a part of the buffer from its start.
use ucmq.Prelude.{
  ℕ, zero, suc, ◌+◌, ◌≤◌, ◌≡◌, refl, sym, subst, ap, ◌∙◌, Bool, true, false, ◌==◌, Option, none,
  some, List, [], ◌∷◌, ◌++◌, append-nil, append_assoc, arith, length, take, drop, length-drop,
  Bool_cases, inl, inr, ◌⊎◌,
}
use ucmq.Prelude.Run.{ret, ◌>>=◌, Held, bind-Held, Held-ret}
use ucmq.Io.{
  Timespec, WriteRet, took, write_failed, Host, eintr, pollout, FdBlock, fd_block, fd_nonblock,
  fd_unknown, fd_other, later_by, mq_einval, set_errno, is_nonblock, get_abs_time,
}
use ucmq.Io.Transfer.{
  write_again, after_write, block_write_turn, nonblock_write_turn, by_mode, write_n, block_write_n,
  nonblock_write_n,
}
use ucmq.Io.Frame.{IsFrame, Taken, rounds_of-Held, block_turn-Held, on_errno-Held}

-- A write takes bytes from the front of those that it is given, and appends them; reading takes bytes
-- from a stream. Failed calls, the clock and poll do neither.
pub record Appends (host : Host) (fd : Option ℕ) : Type 0 where
  pub written : host.Sys → List ℕ
  pub took_front :
      (s : host.Sys) (bs : List ℕ) (n : ℕ)
      → (host.write s fd bs).1 ≡ took n
      → (n ≤ length bs) × (written (host.write s fd bs).0 ≡ written s ++ take n bs)
  pub failed :
      (s : host.Sys) (bs : List ℕ)
      → (host.write s fd bs).1 ≡ write_failed
      → written (host.write s fd bs).0 ≡ written s
  pub errno_written : (s : host.Sys) (e : ℕ) → written (host.store_errno s e) ≡ written s
  pub clock_written : (s : host.Sys) → written (host.clock s).0 ≡ written s
  pub poll_written :
      (s : host.Sys) (fd' : Option ℕ) (events t : ℕ)
      → written (host.poll s fd' events t).0 ≡ written s

-- The result is the size that was written.
abbrev pub Totals : Option ℕ → ℕ → Type 0
Totals none n = Unit
Totals (some total) n = total ≡ n

pub take_step :
    (n k : ℕ) (bs : List ℕ) → n ≤ length bs → take n bs ++ take k (drop n bs) ≡ take (n + k) bs
take_step zero k bs h = ap (λ t. take t bs) (omega arith)
take_step (suc n) k [] h = absurd (omega arith)
take_step (suc n) k (b ∷ bs) h =
    ap (λ t. b ∷ t) (take_step n k bs (omega arith))
    ∙ ap (λ t. take t (b ∷ bs)) {x = suc (n + k)} (omega arith)

written_cases : (r : WriteRet) → (r ≡ write_failed) ⊎ ((n : ℕ) × (r ≡ took n))
written_cases write_failed = inl refl
written_cases (took n) = inr (n, refl)

module _ (host : Host) (fd : Option ℕ) (file : Appends host fd) (buf before : List ℕ) where
  open host use {Sys}

  abbrev pub IsPrefix : Option ℕ → Sys → Type 0
  IsPrefix o s = (n : ℕ) × (n ≤ length buf) × (file.written s ≡ before ++ take n buf) × Totals o n

  frame : (o : Option ℕ) → IsFrame host (IsPrefix o)
  frame o = record {
    store_errno = λ s e h. (h.0, h.1, file.errno_written s e ∙ h.2, h.3);
    clock = λ s h. (h.0, h.1, file.clock_written s ∙ h.2, h.3);
    poll = λ s fd' events t h. (h.0, h.1, file.poll_written s fd' events t ∙ h.2, h.3);
  }

  drops : (total : ℕ) (s : Sys) → IsPrefix (some total) s → IsPrefix none s
  drops total s h = (h.0, h.1, h.2, tt)

  took-IsPrefix :
      (total n : ℕ) (s : Sys)
      → IsPrefix (some total) s
      → (host.write s fd (drop total buf)).1 ≡ took n
      → IsPrefix (some (total + n)) (host.write s fd (drop total buf)).0
  took-IsPrefix total n s (m, most, text, same) e =
      let (fits, more_text) = file.took_front s (drop total buf) n e in
      (
        total + n,
        omega (arith, length-drop total buf),
        more_text
            ∙ ap (λ t. t ++ take n (drop total buf)) text
            ∙ ap (λ k. (before ++ take k buf) ++ take n (drop total buf)) (sym same)
            ∙ append_assoc before (take total buf) (take n (drop total buf))
            ∙ ap (λ t. before ++ t) (take_step total n buf (omega arith)),
        refl,
      )

  failed-IsPrefix :
      (total : ℕ) (s : Sys)
      → IsPrefix (some total) s
      → (host.write s fd (drop total buf)).1 ≡ write_failed
      → IsPrefix (some total) (host.write s fd (drop total buf)).0
  failed-IsPrefix total s (m, most, text, same) e =
      (m, most, file.failed s (drop total buf) e ∙ text, same)

  module _ (fuel : ℕ) where
    write_again-Held :
        (rounds total : ℕ) (s : Sys)
        → IsPrefix (some total) s
        → Held
            (λ (w : Sys × WriteRet). Taken host IsPrefix (after_write host fuel fd total w))
            (write_again host fuel fd rounds (drop total buf) s)
    unfolding write_again after_write
    write_again-Held zero total s h = tt
    write_again-Held (suc rounds) total s h =
        let s' = (host.write s fd (drop total buf)).0 in
        elim (written_cases (host.write s fd (drop total buf)).1) [
          | inl e ↦
              let h' = failed-IsPrefix total s h e in
              elim (Bool_cases (host.errno s' == eintr)) [
                | inl again ↦
                    let rest = write_again-Held rounds total s' h' in
                    rw (e, write_again) (rw again rest)
                | inr other ↦ rw (e, write_again) (rw other (drops total s' h'))
              ]
          | inr (zero, e) ↦
              rw (e, write_again)
                (subst (λ k. IsPrefix (some k) s') (omega arith) (took-IsPrefix total 0 s h e))
          | inr (suc n, e) ↦ rw (e, write_again) (took-IsPrefix total (suc n) s h e)
        ]

    -- A write of a non-blocking round.
    once-Held :
        (timeout : ℕ) (abs_to : Timespec) (total : ℕ) (s : Sys)
        → IsPrefix (some total) s
        → Held (Taken host IsPrefix) (nonblock_write_turn host fuel fd timeout abs_to buf total s)
    unfolding nonblock_write_turn after_write
    once-Held timeout abs_to total s h =
        let s' = (host.write s fd (drop total buf)).0 in
        elim (written_cases (host.write s fd (drop total buf)).1) [
          | inl e ↦
              rw (e, nonblock_write_turn)
                (on_errno-Held host IsPrefix frame drops fuel fd timeout abs_to pollout total s'
                  (failed-IsPrefix total s h e))
          | inr (zero, e) ↦
              rw (e, nonblock_write_turn)
                (subst (λ k. IsPrefix (some k) s') (omega arith) (took-IsPrefix total 0 s h e))
          | inr (suc n, e) ↦ rw (e, nonblock_write_turn) (took-IsPrefix total (suc n) s h e)
        ]

    block-Held :
        (timeout : ℕ) (abs_to : Timespec) (total : ℕ) (s : Sys)
        → IsPrefix (some total) s
        → Held (Taken host IsPrefix) (block_write_turn host fuel fd timeout abs_to buf total s)
    unfolding block_write_turn
    block-Held timeout abs_to total s h =
        block_turn-Held host IsPrefix frame drops fuel fd timeout abs_to pollout total
          (λ s'. write_again host fuel fd fuel (drop total buf) s' >>= λ r.
            ret (after_write host fuel fd total r))
          (λ s' h'.
            bind-Held
              (λ (w : Sys × WriteRet). Taken host IsPrefix (after_write host fuel fd total w))
              (Taken host IsPrefix) (λ r. ret (after_write host fuel fd total r))
              (write_again host fuel fd fuel (drop total buf) s')
              (write_again-Held fuel total s' h') (λ w k. k))
          s h

    start : (s : Sys) → file.written s ≡ before → IsPrefix (some 0) (host.clock s).0
    start s e = (0, omega arith, file.clock_written s ∙ e ∙ sym (append-nil before), refl)

    module _ (rounds timeout : ℕ) where
      by_mode-Held :
          (w : Sys × Option Bool)
          → file.written w.0 ≡ before
          → Held
              (λ (w' : Sys × Option ℕ). IsPrefix w'.1 w'.0)
              (by_mode host fuel fd rounds timeout
                (block_write_n host fuel fd rounds timeout buf)
                (nonblock_write_n host fuel fd rounds timeout buf)
                w)
      unfolding by_mode block_write_n nonblock_write_n get_abs_time
      by_mode-Held (s, none) e = (0, omega arith, e ∙ sym (append-nil before), tt)
      by_mode-Held (s, some true) e =
          let abs_to = later_by timeout (host.clock s).1 in
          rounds_of-Held host IsPrefix (length buf) timeout (λ n. n)
            (nonblock_write_turn host fuel fd timeout abs_to buf) (once-Held timeout abs_to) rounds
            0 (host.clock s).0 (start s e)
      by_mode-Held (s, some false) e =
          let abs_to = later_by timeout (host.clock s).1 in
          rounds_of-Held host IsPrefix (length buf) timeout (λ n. n)
            (block_write_turn host fuel fd timeout abs_to buf) (block-Held timeout abs_to) rounds 0
            (host.clock s).0 (start s e)

      pub mode_written :
          (block_type : FdBlock) (s : Sys)
          → file.written (is_nonblock host fd block_type s).0 ≡ file.written s
      unfolding is_nonblock set_errno
      mode_written fd_block s = refl
      mode_written fd_nonblock s = refl
      mode_written fd_unknown s = refl
      mode_written fd_other s = file.errno_written s mq_einval

-- Whatever the calls answer, if a write takes bytes from the front of those that it is given, and
-- failed calls, the clock, `errno` and poll write nothing, then where `write_n` ends it has
-- written a part of the buffer from its start, and a result that is not -1 is the size of that
-- part.
pub write_n-take :
    (host : Host) (fd : Option ℕ) (file : Appends host fd) (fuel rounds timeout : ℕ)
    (block_type : FdBlock) (buf : List ℕ) (s s' : host.Sys) (o : Option ℕ)
    → write_n host fuel fd rounds timeout block_type buf s ≡ ret (s', o)
    → (n : ℕ) × (n ≤ length buf) × (file.written s' ≡ file.written s ++ take n buf) × Totals o n
unfolding write_n
write_n-take host fd file fuel rounds timeout block_type buf s s' o e =
    Held-ret (λ (w : host.Sys × Option ℕ). IsPrefix host fd file buf (file.written s) w.1 w.0)
      (write_n host fuel fd rounds timeout block_type buf s) (s', o)
      (by_mode-Held host fd file buf (file.written s) fuel rounds timeout
        (is_nonblock host fd block_type s)
        (mode_written host fd file buf (file.written s) fuel rounds timeout block_type s))
      e
