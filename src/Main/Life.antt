-- ===== src/Main/Life.antt =====
-- source/main.c: how the program ends.
use ucmq.Prelude.{
  ℕ, ◌≡◌, ◌≢◌, ◌⊎◌, inl, inr, refl, ap, ◌∙◌, by_test, ==_iff, ◌==◌, not, ◌≤◌, Bool, true, false,
  List, [], arith,
}
use ucmq.Prelude.Run.{ret, Held, Held-ret, Held-any, Held-self, Held-both, Held-weaken, bind-Held}
use ucmq.Os.{Os, Dirs}
use ucmq.Http.{Server}
use ucmq.Config.{UcmqConf}
use ucmq.QueueManage.Start.{open_store, get_store_count}
use ucmq.QueueManage.Table.{close_store, QueueList}
use ucmq.QueueManage.Table.Closed.{IsFreeing, AllFree, close_store-AllFree, unlink-AllFree}
use ucmq.Main.{
  Events, zero_info, mq_http_init, mq_http_stop, counted_store, mq_init_store, mq_store_destroy,
  stopped, after_init, after_store, main_entrance,
}

module _ (os : Os) (events : Events os) (law : IsFreeing os) where
  open events use {Loop}

  -- The loop ran on the opened store and left a server, whose queues have all been given back; the
  -- program's code is 8 if the loop's is 0, and else 0.
  abbrev pub Ran : Server os → os.Sys → ℕ → Type 0
  Ran opened s code =
      (e e' : Loop) × (sv' : Server os) × (ret_code : ℕ) × (events.dispatch e opened
        ≡ ret (e', sv', ret_code))
      × AllFree os law sv'.qlist s
      × (((ret_code ≡ 0) × (code ≡ 8)) ⊎ ((ret_code ≢ 0) × (code ≡ 0)))

  -- The server was not set up, and the queues of the opened store have all been given back.
  abbrev pub NotSetUp : Server os → os.Sys → ℕ → Type 0
  NotSetUp opened s code = (4 ≤ code) × (code ≤ 7) × AllFree os law opened.qlist s

  abbrev Ended : Server os → Loop × Server os × ℕ → Type 0
  Ended opened (e, sv, code) =
      (sv.qlist ≡ []) × (NotSetUp opened sv.sys code ⊎ Ran opened sv.sys code)

module _ (os : Os) (dirs : Dirs os) (events : Events os) (atoi atoll : List ℕ → ℕ)
    (law : IsFreeing os) (fuel : ℕ) where
  open events use {Loop}

  stopped-Ended :
      (e e' : Loop) (opened sv' : Server os) (ret_code : ℕ)
      → events.dispatch e opened ≡ ret (e', sv', ret_code)
      → Ended os events law opened (stopped os dirs events atoi atoll fuel (e', sv', ret_code))
  unfolding stopped mq_store_destroy mq_http_stop close_store
  stopped-Ended e e' opened sv' ret_code ran =
      let free =
        unlink-AllFree os law sv'.qlist _ sv'.conf.pid_file
          (close_store-AllFree os law sv'.conf sv'.qlist sv'.sys) in
      (
        refl,
        inr (
          e,
          e',
          sv',
          ret_code,
          ran,
          free,
          by_test (λ code. ((ret_code ≡ 0) × (code ≡ 8)) ⊎ ((ret_code ≢ 0) × (code ≡ 0)))
              (ret_code == 0) (λ is. inl ((==_iff ret_code 0).0 is, refl))
              (λ is. inr ((λ z. ground arith), refl)),
        ),
      )

  mq_http_init-code :
      (conf : UcmqConf) (e : Loop)
      → let (e', code) = mq_http_init os dirs events atoi atoll fuel conf e in
        (4 ≤ code) × (code ≤ 8)
  unfolding mq_http_init
  mq_http_init-code conf e = ground arith

  after_init-Ended :
      (opened : Server os) (r : Loop × ℕ)
      → (4 ≤ r.1) × (r.1 ≤ 8)
      → Held (Ended os events law opened) (after_init os dirs events atoi atoll fuel opened r)
  unfolding after_init mq_store_destroy close_store
  after_init-Ended opened (e, code) range =
      by_test (Held (Ended os events law opened)) (not (code == 8))
        (λ other. (
          refl,
          inl (
            range.0,
            ground arith,
            close_store-AllFree os law opened.conf opened.qlist opened.sys,
          ),
        ))
        (λ is.
          bind-Held (λ r. events.dispatch e opened ≡ ret r) (Ended os events law opened)
            (λ r. ret (stopped os dirs events atoi atoll fuel r)) (events.dispatch e opened)
            (Held-self (events.dispatch e opened))
            (λ r ran. stopped-Ended e r.0 opened r.1 r.2 ran))

  -- The store could not be opened, or it was.
  abbrev Program : Server os → Loop × Server os × ℕ → Type 0
  Program sv r =
      (r.2 ≡ 2)
      ⊎ ((opened : Server os) × (mq_init_store os dirs events atoi atoll fuel sv ≡ ret (opened, 3))
          × Ended os events law opened r)

  after_store-Program :
      (e : Loop) (sv : Server os) (w : Server os × ℕ)
      → mq_init_store os dirs events atoi atoll fuel sv ≡ ret w
      → (w.1 ≡ 2) ⊎ (w.1 ≡ 3)
      → Held (Program sv) (after_store os dirs events atoi atoll fuel e w)
  unfolding after_store
  after_store-Program e sv (opened, code) init codes =
      by_test (Held (Program sv)) (not (code == 3)) (λ other. inl (ground arith))
        (λ is.
          let three : code ≡ 3 = ground arith in
          Held-weaken (Ended os events law opened) (Program sv) _
            (after_init-Ended opened (mq_http_init os dirs events atoi atoll fuel opened.conf e)
              (mq_http_init-code opened.conf e))
            (λ r ended. inr (opened, init ∙ ap (λ c. ret (opened, c)) three, ended)))

  counted-code :
      (sv : Server os) (w : os.Sys × QueueList × Bool)
      → Held
          (λ (r : Server os × ℕ). (r.1 ≡ 2) ⊎ (r.1 ≡ 3))
          (counted_store os dirs events atoi atoll fuel sv w)
  unfolding counted_store
  counted-code sv (s, qlist, false) = inl refl
  counted-code sv (s, qlist, true) =
      bind-Held (λ _. Unit {0}) (λ (r : Server os × ℕ). (r.1 ≡ 2) ⊎ (r.1 ≡ 3)) _
        (get_store_count os dirs sv.conf atoi atoll fuel qlist s)
        (Held-any (get_store_count os dirs sv.conf atoi atoll fuel qlist s)) (λ _ _. inr refl)

  init-code :
      (sv : Server os)
      → Held
          (λ (r : Server os × ℕ). (r.1 ≡ 2) ⊎ (r.1 ≡ 3))
          (mq_init_store os dirs events atoi atoll fuel sv)
  unfolding mq_init_store
  init-code sv =
      bind-Held (λ _. Unit {0}) (λ (r : Server os × ℕ). (r.1 ≡ 2) ⊎ (r.1 ≡ 3))
        (counted_store os dirs events atoi atoll fuel (record sv { info = zero_info }))
        (open_store os dirs sv.conf atoi atoll fuel sv.qlist sv.sys)
        (Held-any (open_store os dirs sv.conf atoi atoll fuel sv.qlist sv.sys))
        (λ w _. counted-code (record sv { info = zero_info }) w)

  -- Where the program ends, its code is 2, or its store was opened and its table of queues is empty
  -- at the end. Then either the code is from 4 to 7, and every mapping and descriptor of the queues
  -- that were opened has been given back, or the event loop ran, the same holds of the queues that
  -- it left, and the code is 8 if the loop gave 0, and 0 if it gave an error. munmap and close give
  -- back what they are given, and no call of the end takes it again.
  pub main_entrance_ends :
      (e e' : Loop) (sv sv' : Server os) (code : ℕ)
      → main_entrance os dirs events atoi atoll fuel e sv ≡ ret (e', sv', code)
      → (code ≡ 2)
        ⊎ ((opened : Server os) × (mq_init_store os dirs events atoi atoll fuel sv
              ≡ ret (opened, 3))
            × ((sv'.qlist ≡ [])
                × (NotSetUp os events law opened sv'.sys code
                    ⊎ Ran os events law opened sv'.sys code)))
  unfolding main_entrance
  main_entrance_ends e e' sv sv' code h =
      Held-ret (Program sv) (main_entrance os dirs events atoi atoll fuel e sv) (e', sv', code)
        (bind-Held
          (λ w. (mq_init_store os dirs events atoi atoll fuel sv ≡ ret w) × ((w.1 ≡ 2) ⊎ (w.1 ≡ 3)))
          (Program sv) (after_store os dirs events atoi atoll fuel e)
          (mq_init_store os dirs events atoi atoll fuel sv)
          (Held-both _ (λ w. (w.1 ≡ 2) ⊎ (w.1 ≡ 3))
            (mq_init_store os dirs events atoi atoll fuel sv)
            (Held-self (mq_init_store os dirs events atoi atoll fuel sv)) (init-code sv))
          (λ w k. after_store-Program e sv w k.0 k.1))
        h
