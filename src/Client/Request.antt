-- ===== src/Client/Request.antt =====
-- client/c/mq_client.c: the text of a request and the operations' settings.
use ucmq.Prelude.{
  ℕ, suc, zero, ◌-◌, ◌^◌, Bool, true, false, Option, none, some, List, [], ◌∷◌, ◌++◌, ◌==◌, ltb,
  if◌then◌else◌, length, codes,
}
use ucmq.Prelude.Decimal.{padded}
use ucmq.Prelude.Run.{Run, ret, out_of_fuel, ◌>>=◌}
use ucmq.Client.{Net, MqOptInfo, sent, write_again, write_failed}

-- "%d"
unfoldable pub print_int : ℕ → List ℕ
print_int n = if ltb n (2 ^ 31) then padded 1 n else b'-' ∷ padded 1 (2 ^ 32 - n)

-- SET_IOV of a pointer that may be NULL.
abbrev pub text_of : Option (List ℕ) → List ℕ
text_of none = []
text_of (some text) = text

abbrev pub optional_part : List ℕ → Option (List ℕ) → List ℕ
optional_part before none = []
optional_part before (some text) = before ++ text

unfoldable pub target : MqOptInfo → List ℕ
target info =
    codes "/?name="
    ++ (info.name
        ++ (codes "&opt="
            ++ (info.opt
                ++ (optional_part (codes "&charset=") info.charset
                    ++ (optional_part (codes "&") info.num
                        ++ (codes " HTTP/1.1\r\nHost: " ++ info.mq_dest))))))

-- The parts of the request together: a POST where there is data.
unfoldable pub request_text : MqOptInfo → List ℕ
unfolding target print_int
request_text info = elim (info.data_) [
  | none ↦ codes "GET " ++ (target info ++ codes "\r\nConnection: keep-alive\r\n\r\n")
  | some [] ↦ codes "GET " ++ (target info ++ codes "\r\nConnection: keep-alive\r\n\r\n")
  | some (c ∷ body) ↦
      codes "POST "
      ++ (target info
          ++ (codes "\r\nContent-Length: "
              ++ (print_int (length (c ∷ body))
                  ++ (codes "\r\nConnection: keep-alive\r\n\r\n" ++ c ∷ body))))
]

module _ (net : Net) where
  open net use {Sys}

  -- The loop of writev on the rounds left: the number of bytes sent, or `none` for -1.
  unfoldable pub send_loop : ℕ → Option ℕ → List ℕ → Sys → Run (Sys × Option ℕ)
  send_loop zero fd text s = out_of_fuel
  send_loop (suc fuel) fd text s =
      let (s', wrote) = net.writev s fd text in
      elim wrote [
        | sent size ↦ ret (s', some size)
        | write_again ↦ send_loop fuel fd text s'
        | write_failed ↦ ret (s', none)
      ]

  -- All the bytes are sent at once, or errno is 70.
  unfoldable pub comm_send_http_req : ℕ → Option ℕ → MqOptInfo → Sys → Run (Sys × Bool)
  unfolding send_loop request_text
  comm_send_http_req fuel fd info s = do
    (s', send_size) ← send_loop fuel fd (request_text info) s
    ret (
        if elim send_size [ none ↦ false | some size ↦ size == length (request_text info) ]
        then (s', true)
        else (net.set_errno s' 70, false))
