-- ===== src/Http/Exec/Allowed.antt =====
-- source/mq_evhttp.c: who may do what by /exec.
use ucmq.Prelude.{
  ℕ, by_test, ◌≡◌, ◌≢◌, ◌⊎◌, inl, inr, refl, Bool, true, false, not, ◌&&◌, Option, none, some, List,
  codes, arith, ◌==◌,
}
use ucmq.Prelude.Run.{Run, ret, Held, bind-Held, Held-ret, Held-any, Held-weaken}
use ucmq.Config.{UcmqConf}
use ucmq.Os.{Os}
use ucmq.Util.{FileText, str_to_ll}
use ucmq.QueueManage.Table.{same_name}
use ucmq.Http.{Server}
use ucmq.Http.Exec.{
  Page, AdminRequest, Admin, refuses, refused, no_cmd, with_cmd, exec_page, exec_cmd, cb_do_exec,
}

one_of :
    (same : Bool) (n : ℕ)
    → ((not same && not (n == 0)) ≡ true → ¬ ((same ≡ true) ⊎ (n ≡ 0)))
      × ((not same && not (n == 0)) ≡ false → (same ≡ true) ⊎ (n ≡ 0))
one_of true n = (λ h. cc, λ h. inl refl)
one_of false n = (λ h k. ground arith, λ h. ground arith)

-- The command is one of the two that change something.
abbrev pub Changes : AdminRequest → Type 0
Changes req =
    (cmd : List ℕ) × (req.cmd ≡ some cmd)
    × ((same_name cmd (codes "kill") ≡ true) ⊎ (same_name cmd (codes "reload") ≡ true))

-- The peer has the address that may use /exec, or every address may.
abbrev pub IsAllowed : (os : Os) → (List ℕ → List ℕ × ℕ × ℕ) → AdminRequest → Server os → Type 0
IsAllowed os strtoll req sv =
    (same_name sv.conf.allow_exec_ip req.ip ≡ true)
    ⊎ (str_to_ll strtoll (some (sv.conf.allow_exec_ip)) ≡ 0)

module _ (os : Os) (pid : ℕ) (read_file : os.Sys → List ℕ → FileText)
    (read_conf : UcmqConf → Run UcmqConf) (strtoll : List ℕ → List ℕ × ℕ × ℕ) where
  -- What a run of a command may give.
  abbrev Given : AdminRequest → Admin os → Admin os × Page → Type 0
  Given req before (after, page) = (page.code ≢ 401) × ((after ≡ before) ⊎ Changes req)

  exec_cmd-Given :
      (cmd : List ℕ) (req : AdminRequest) (sv : Server os) (pipe : List (List ℕ))
      → req.cmd ≡ some cmd
      → Held (Given req (sv, pipe)) (exec_cmd os pid read_file read_conf cmd req (sv, pipe))
  unfolding exec_cmd exec_page
  exec_cmd-Given cmd req sv pipe e =
      by_test (Held (Given req (sv, pipe))) (same_name cmd (codes "kill"))
        (λ kill. (λ is. omega (arith, is), inr (cmd, e, inl kill)))
        (λ _.
          by_test (Held (Given req (sv, pipe))) (same_name cmd (codes "reload"))
            (λ reload.
              bind-Held (λ _. Unit {0}) (Given req (sv, pipe)) _ (read_conf sv.conf)
                (Held-any (read_conf sv.conf))
                (λ conf _. (λ is. omega (arith, is), inr (cmd, e, inr reload))))
            (λ _.
              by_test (Held (Given req (sv, pipe))) (same_name cmd (codes "get"))
                (λ _. (λ is. omega (arith, is), inl refl))
                (λ _. (λ is. omega (arith, is), inl refl))))

  with_cmd-Given :
      (cmd : Option (List ℕ)) (req : AdminRequest) (sv : Server os) (pipe : List (List ℕ))
      → req.cmd ≡ cmd
      → Held (Given req (sv, pipe)) (with_cmd os pid read_file read_conf cmd req (sv, pipe))
  unfolding with_cmd no_cmd
  with_cmd-Given none req sv pipe e = (λ is. omega (arith, is), inl refl)
  with_cmd-Given (some cmd) req sv pipe e = exec_cmd-Given cmd req sv pipe e

  abbrev Outcome : AdminRequest → Server os → List (List ℕ) → Admin os × Page → Type 0
  Outcome req sv pipe (after, page) =
      ((page.code ≡ 401) × (after ≡ (sv, pipe)) × ¬ IsAllowed os strtoll req sv)
      ⊎ ((page.code ≢ 401) × IsAllowed os strtoll req sv × ((after ≡ (sv, pipe)) ⊎ Changes req))

  refuses-IsAllowed :
      (req : AdminRequest) (sv : Server os)
      → ((refuses os strtoll req sv ≡ true) → ¬ IsAllowed os strtoll req sv)
        × ((refuses os strtoll req sv ≡ false) → IsAllowed os strtoll req sv)
  unfolding refuses
  refuses-IsAllowed req sv =
      one_of (same_name sv.conf.allow_exec_ip req.ip)
        (str_to_ll strtoll (some (sv.conf.allow_exec_ip)))

  allowed :
      (req : AdminRequest) (sv : Server os) (pipe : List (List ℕ)) (w : Admin os × Page)
      → IsAllowed os strtoll req sv
      → Given req (sv, pipe) w
      → Outcome req sv pipe w
  allowed req sv pipe w may (code, after) = inr (code, may, after)

  cb_do_exec-Outcome :
      (req : AdminRequest) (sv : Server os) (pipe : List (List ℕ))
      → Held (Outcome req sv pipe) (cb_do_exec os pid read_file read_conf strtoll req (sv, pipe))
  unfolding cb_do_exec refused no_cmd
  cb_do_exec-Outcome req sv pipe =
      by_test (Held (Outcome req sv pipe)) (refuses os strtoll req sv)
        (λ is. inl (refl, refl, (refuses-IsAllowed req sv).0 is))
        (λ is.
          Held-weaken (Given req (sv, pipe)) (Outcome req sv pipe)
            (with_cmd os pid read_file read_conf req.cmd req (sv, pipe))
            (with_cmd-Given req.cmd req sv pipe refl)
            (λ w. allowed req sv pipe w ((refuses-IsAllowed req sv).1 is)))

  -- Where a request to /exec ends, it is refused with the code 401 and changes nothing if neither
  -- its peer has the address that is set nor `str_to_ll` of that setting is 0; otherwise it is
  -- answered with another code, and only the commands kill and reload change anything.
  pub cb_do_exec-IsAllowed :
      (req : AdminRequest) (sv : Server os) (pipe : List (List ℕ)) (after : Admin os) (page : Page)
      → cb_do_exec os pid read_file read_conf strtoll req (sv, pipe) ≡ ret (after, page)
      → ((page.code ≡ 401) × (after ≡ (sv, pipe)) × ¬ IsAllowed os strtoll req sv)
        ⊎ ((page.code ≢ 401) × IsAllowed os strtoll req sv × ((after ≡ (sv, pipe)) ⊎ Changes req))
  cb_do_exec-IsAllowed req sv pipe after page h =
      Held-ret (Outcome req sv pipe) (cb_do_exec os pid read_file read_conf strtoll req (sv, pipe))
        (after, page) (cb_do_exec-Outcome req sv pipe) h
