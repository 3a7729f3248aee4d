-- ===== src/Client/Receive.antt =====
-- client/c/mq_client.c: the time that is left, waiting for a socket, and receiving.
pub mod Stream
pub mod Time
use ucmq.Prelude.{
  ℕ, suc, zero, ◌+◌, ◌-◌, ◌*◌, ◌/◌, ◌^◌, Bool, true, false, not, ◌&&◌, Option, none, some, List, [],
  ◌∷◌, ◌++◌, ◌==◌, ltb, if◌then◌else◌, length,
}
use ucmq.Prelude.Run.{Run, ret, out_of_fuel, ◌>>=◌}
use ucmq.Client.{
  Net, Timespec, PollRet, polled, poll_interrupted, poll_failed, RecvRet, received, closed,
  would_block, recv_interrupted, recv_failed,
}
use ucmq.Client.Header.{in_check_header_finish}

-- The milliseconds that are left, 0 at least. A shift by 20 bits of a difference that may be
-- negative is a division rounded down: 954 of its units are added before and taken away after.
unfoldable pub rest_of : ℕ → Timespec → Timespec → ℕ
rest_of timeout start now =
    timeout
    + 954
    - ((now.tv_sec - start.tv_sec) * 1000 + (now.tv_nsec + 954 * 2 ^ 20 - start.tv_nsec) / 2 ^ 20)

-- ETIMEDOUT
abbrev pub etimedout : ℕ
etimedout = 110

module _ (net : Net) where
  open net use {Sys}

  unfoldable pub comm_get_rest_time : ℕ → Timespec → Sys → Sys × ℕ
  unfolding rest_of
  comm_get_rest_time timeout time_start s =
      let (s', tm) = net.clock_gettime s in (s', rest_of timeout time_start tm)

  -- `comm_wait_fd` for input on the rounds left; the result is not 0.
  unfoldable pub wait_in : ℕ → Option ℕ → ℕ → Sys → Run (Sys × Bool)
  wait_in zero fd timeout s = out_of_fuel
  wait_in (suc fuel) fd timeout s =
      let (s', r) = net.poll_in s fd timeout in
      elim r [
        | polled events ↦ ret (s', events)
        | poll_interrupted ↦ wait_in fuel fd timeout s'
        | poll_failed ↦ ret (s', true)
      ]

  unfoldable pub wait_out : ℕ → Option ℕ → ℕ → Sys → Run (Sys × Bool)
  wait_out zero fd timeout s = out_of_fuel
  wait_out (suc fuel) fd timeout s =
      let (s', r) = net.poll_out s fd timeout in
      elim r [
        | polled events ↦ ret (s', events)
        | poll_interrupted ↦ wait_out fuel fd timeout s'
        | poll_failed ↦ ret (s', true)
      ]

  -- A round of `comm_recv_n` ends the call, or goes on with what was received.
  pub data Recv : Type 0 where
    stop : Sys → Option (List ℕ) → Recv
    more : Sys → List ℕ → Recv

  unfoldable pub waited : List ℕ → Sys × Bool → Recv
  waited text (s, true) = more s text
  waited text (s, false) = stop (net.set_errno s etimedout) (some text)

  module _ (fuel timeout : ℕ) (time_start : Timespec) (fd : Option ℕ) (count : ℕ)
      (to_header : Bool) where
    unfoldable pub recv_round : List ℕ → Sys → Run Recv
    unfolding waited wait_in comm_get_rest_time
    recv_round text s =
        let (s', r) = net.recv s fd (count - length text) in
        elim r [
          | received bytes ↦ ret (more s' (text ++ bytes))
          | closed ↦ ret (stop s' (some text))
          | recv_failed ↦ ret (stop s' none)
          | recv_interrupted ↦ ret (more s' text)
          | would_block ↦
              let (s'', rest_time) = comm_get_rest_time timeout time_start s' in
              (do w ← wait_in fuel fd rest_time s''; ret (waited text w))
        ]

    -- `is_finish` is NULL or `in_check_header_finish`.
    unfoldable pub goes_on : List ℕ → Bool
    goes_on text = ltb (length text) count && not (to_header && in_check_header_finish text)

    -- `comm_recv_n` on the rounds left.
    unfoldable pub comm_recv_n : ℕ → List ℕ → Sys → Run (Sys × Option (List ℕ))
    unfolding recv_round goes_on
    comm_recv_n zero text s = out_of_fuel
    comm_recv_n (suc rounds) text s = do
      r ← recv_round text s
      elim r [
        | stop s' got ↦ ret (s', got)
        | more s' text' ↦ elim (goes_on text') [
          | false ↦ ret (s', some text')
          | true ↦ comm_recv_n rounds text' s'
        ]
      ]
