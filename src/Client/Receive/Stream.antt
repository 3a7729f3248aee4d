-- ===== src/Client/Receive/Stream.antt =====
-- client/c/mq_client.c: `comm_recv_n` on a stream of bytes that is cut into pieces.
use ucmq.Prelude.{
  ℕ, suc, zero, ◌+◌, ◌-◌, ◌≤◌, ◌<◌, ◌≡◌, sym, ap, ◌∙◌, Bool_cases, inl, inr, false, Option, some,
  List, [], ◌∷◌, ◌++◌, append-nil, append_assoc, arith, length, length-append, take, drop,
  drop_past, ltb, ltb→lt, Bool, if◌then◌else◌,
}
use ucmq.Prelude.Run.{Run, ret}
use ucmq.Client.{Net, Timespec, received}
use ucmq.Client.Receive.{more, goes_on, recv_round, comm_recv_n}

-- The bytes that a socket will give: each call takes at least one of them, and no more than asked for.
pub record Streams (net : Net) (fd : Option ℕ) : Type 0 where
  pub pending : net.Sys → List ℕ
  pub bytes : net.Sys → ℕ → List ℕ
  pub gives :
      (s : net.Sys) (n : ℕ)
      → 0 < n
      → 0 < length (pending s)
      → (net.recv s fd n).1 ≡ received (bytes s n)
  pub some_bytes : (s : net.Sys) (n : ℕ) → 0 < n → 0 < length (pending s) → 0 < length (bytes s n)
  pub at_most : (s : net.Sys) (n : ℕ) → length (bytes s n) ≤ n
  pub rest :
      (s : net.Sys) (n : ℕ)
      → 0 < n
      → 0 < length (pending s)
      → bytes s n ++ pending (net.recv s fd n).0 ≡ pending s

take_past : (xs ys : List ℕ) (n k : ℕ) → n ≡ length xs + k → take n (xs ++ ys) ≡ xs ++ take k ys
take_past [] ys n k h = ap (λ t. take t ys) (omega arith)
take_past (x ∷ xs) ys zero k h = absurd (omega arith)
take_past (x ∷ xs) ys (suc n) k h = ap (λ t. x ∷ t) (take_past xs ys n k (omega arith))

drop_by : (xs ys : List ℕ) (n k : ℕ) → n ≡ length xs + k → drop n (xs ++ ys) ≡ drop k ys
drop_by xs ys n k h = ap (λ t. drop t (xs ++ ys)) h ∙ drop_past xs ys k

module _ (net : Net) (fuel timeout : ℕ) (time_start : Timespec) (fd : Option ℕ) (count : ℕ)
    (stream : Streams net fd) where
  -- What a call gives where so many bytes are missing.
  abbrev given : List ℕ → net.Sys → List ℕ
  given text s = stream.bytes s (count - length text)

  abbrev after : List ℕ → net.Sys → net.Sys
  after text s = (net.recv s fd (count - length text)).0

  round_received :
      (text : List ℕ) (s : net.Sys)
      → length text < count
      → 0 < length (stream.pending s)
      → recv_round net fuel timeout time_start fd count false text s
        ≡ ret (more (after text s) (text ++ given text s))
  unfolding recv_round
  round_received text s room there =
      ground (arith, stream.gives s (count - length text) (omega arith) there)

  abbrev pick : ℕ → List ℕ → net.Sys → Bool → Run (net.Sys × Option (List ℕ))
  pick rounds text s less =
      if less
      then comm_recv_n net fuel timeout time_start fd count false rounds (text ++ given text s)
          (after text s)
      else ret (after text s, some (text ++ given text s))

  one_round :
      (rounds : ℕ) (text : List ℕ) (s : net.Sys)
      → length text < count
      → 0 < length (stream.pending s)
      → comm_recv_n net fuel timeout time_start fd count false (suc rounds) text s
        ≡ pick rounds text s (ltb (length (text ++ given text s)) count)
  unfolding comm_recv_n goes_on
  one_round rounds text s room there =
      elim (Bool_cases (ltb (length (text ++ given text s)) count)) [
        | inl less ↦ ground (arith, round_received text s room there, less)
        | inr geq ↦ ground (arith, round_received text s room there, geq)
      ]

  -- On a stream that has all the bytes that are missing and gives at least one at each call,
  -- `comm_recv_n` without a test for the end of a head (`is_finish` is NULL) ends after at most
  -- so many rounds, with exactly those bytes behind the ones it had, and leaves the rest of the
  -- stream.
  pub comm_recv_n-take :
      (rounds : ℕ) (text : List ℕ) (s : net.Sys)
      → length text < count
      → count ≤ length text + rounds
      → count ≤ length text + length (stream.pending s)
      → (s' : net.Sys) × (comm_recv_n net fuel timeout time_start fd count false rounds text s
          ≡ ret (s', some (text ++ take (count - length text) (stream.pending s))))
        × (stream.pending s' ≡ drop (count - length text) (stream.pending s))
  comm_recv_n-take zero text s room enough there = absurd (omega arith)
  comm_recv_n-take (suc rounds) text s room enough there =
      let bs = given text s in
      let later = stream.pending (after text s) in
      let left = count - length (text ++ bs) in
      let some_ = stream.some_bytes s (count - length text) (omega arith) (omega arith) in
      let top = stream.at_most s (count - length text) in
      let sums = length-append text bs in
      let parts = stream.rest s (count - length text) (omega arith) (omega arith) in
      let total = ap length (sym parts) ∙ length-append bs later in
      let split : count - length text ≡ length bs + left = omega (arith, sums, top) in
      let front =
        sym (take_past bs later (count - length text) left split)
        ∙ ap (take (count - length text)) parts in
      let back =
        sym (drop_by bs later (count - length text) left split)
        ∙ ap (drop (count - length text)) parts in
      let one = one_round rounds text s room (omega arith) in
      elim (Bool_cases (ltb (length (text ++ bs)) count)) [
        | inl less ↦
            let (s', runs, pends) =
              comm_recv_n-take rounds (text ++ bs) (after text s)
                (ltb→lt (length (text ++ bs)) count less) (omega (arith, sums, some_))
                (omega (arith, sums, total)) in
            (
              s',
              one
                  ∙ ap (pick rounds text s) less
                  ∙ runs
                  ∙ ap (λ t. ret (s', some t))
                      (append_assoc text bs (take left later) ∙ ap (λ t. text ++ t) front),
              pends ∙ back,
            )
        | inr geq ↦
            let none_left : left ≡ 0 = ground (arith, geq) in
            (
              after text s,
              one
                  ∙ ap (pick rounds text s) geq
                  ∙ ap (λ t. ret (after text s, some (text ++ t)))
                      (sym (append-nil bs) ∙ ap (λ k. bs ++ take k later) (sym none_left) ∙ front),
              ap (λ k. drop k later) (sym none_left) ∙ back,
            )
      ]
