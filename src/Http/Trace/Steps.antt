-- ===== src/Http/Trace/Steps.antt =====
-- source/mq_evhttp.c, source/mq_queue_manage.c: one put or get on a queue, and the specification's answer.
use ucmq.Prelude.{
  ℕ, ◌+◌, ◌^◌, ◌≤◌, ◌≡◌, sym, ap, subst, ◌∙◌, true, false, not, ◌&&◌, ◌||◌, List, [], ◌∷◌, ◌++◌,
  arith, length, length-append, ltb, ◌==◌, Bool_cases, inl, inr,
}
use ucmq.Prelude.Bytes.{Memory, add64, sub32}
use ucmq.Prelude.Run.{ret}
use ucmq.Config.{UcmqConf, max_db_file_size}
use ucmq.Types.{MqQueue}
use ucmq.Os.{Os, IsLawful}
use ucmq.StoreMsg.Layout.{Entry, item_of}
use ucmq.StoreManage.GetData.{too_early, taken}
use ucmq.StoreManage.Fifo.{size, Laid, Represents}
use ucmq.QueueManage.{
  put_ok, full, wlock, get_ok, get_end, is_full, is_wlocked, minus_one, pop_item,
}
use ucmq.QueueManage.Queue.{
  push_item_refused, push_item-Represents, pop_item-Represents, pop_item_waits,
}
use ucmq.Http.Put.{counted}
use ucmq.Http.Trace.{Call, put, get, Answer, entry, put_done, get_done, serve, spec, needs, IsCall}

Laid-length : (mem : Memory) (p : ℕ) (es : List Entry) (q : ℕ) → Laid mem p es q → p + length es ≤ q
Laid-length mem p [] q h = omega arith
Laid-length mem p (e ∷ es) q h = omega (arith, Laid-length mem (p + size e) es q h.3)

module _ (os : Os) (conf : UcmqConf) (law : IsLawful os) (m : ℕ) where
  -- The queue holds these entries, counts them, and has the settings of its start.
  pub record Serves (q0 : MqQueue) (s : os.Sys) (q : MqQueue) (es : List Entry) : Type 0 where
    pub represents : Represents os conf m s q es
    pub unread : q.unread_count ≡ length es
    pub same_maxque : q.maxque ≡ q0.maxque
    pub same_wlock : q.wlock ≡ q0.wlock
    pub same_delay : q.delay ≡ q0.delay

  Represents-recounted :
      (s : os.Sys) (q : MqQueue) (n : ℕ) (es : List Entry)
      → Represents os conf m s q es
      → Represents os conf m s (record q { unread_count = n }) es
  Represents-recounted s q n es r = record {
    small = r.small;
    same_file = r.same_file;
    read_map = r.read_map;
    write_map = r.write_map;
    all_mapped = r.all_mapped;
    after_head = r.after_head;
    within = r.within;
    laid = r.laid;
  }

  few :
      (q0 : MqQueue) (s : os.Sys) (q : MqQueue) (es : List Entry)
      → Serves q0 s q es
      → length es ≤ 2 ^ 26
  few q0 s q es v = omega (
    arith,
    Laid-length (os.load s m) q.cur_rdb.pos es q.cur_wdb.pos v.represents.laid,
    v.represents.within,
    v.represents.small,
  )

  -- A call ends with this answer, and with these entries left.
  unfoldable pub Ends : MqQueue → os.Sys → MqQueue → Call → List Entry × Answer → Type 0
  Ends q0 s q call (es, answer) =
      (s' : os.Sys) × (q' : MqQueue) × (serve os conf call (s, q) ≡ ret ((s', q'), answer))
      × Serves q0 s' q' es
      × (q'.cur_wdb.pos ≤ q.cur_wdb.pos + needs call)

  module _ (q0 : MqQueue) (s : os.Sys) (q : MqQueue) where
    spec_is_full :
        (es : List Entry)
        → Serves q0 s q es
        → (not (q0.maxque == 0) && ltb q0.maxque (length es + 1)) ≡ is_full q
    unfolding is_full
    spec_is_full es v = ground (arith, v.unread, v.same_maxque, few q0 s q es v)

    spec_is_wlocked :
        (es : List Entry) (now : ℕ)
        → Serves q0 s q es
        → (q0.wlock == minus_one || ltb now q0.wlock) ≡ is_wlocked q now
    unfolding is_wlocked
    spec_is_wlocked es now v = ap (λ l. l == minus_one || ltb now l) (sym v.same_wlock)

    spec_too_early :
        (es : List Entry) (now : ℕ) (e : Entry)
        → Serves q0 s q es
        → (not (q0.delay == 0) && ltb (sub32 now e.time) q0.delay) ≡ too_early now q (item_of e)
    unfolding too_early
    spec_too_early es now e v =
        ap (λ d. not (d == 0) && ltb (sub32 now e.time) d) (sym v.same_delay)

    module _ (now : ℕ) (body : List ℕ) (es : List Entry) (v : Serves q0 s q es) where
      -- What a put comes to by the specification.
      spec_full :
          is_full q ≡ true → spec q0.maxque q0.wlock q0.delay (put now body) es ≡ (es, inl full)
      unfolding spec
      spec_full f = ground (arith, spec_is_full es v, f)

      spec_wlock :
          is_full q ≡ false
          → is_wlocked q now ≡ true
          → spec q0.maxque q0.wlock q0.delay (put now body) es ≡ (es, inl wlock)
      unfolding spec
      spec_wlock f l = ground (arith, spec_is_full es v, f, spec_is_wlocked es now v, l)

      spec_put :
          is_full q ≡ false
          → is_wlocked q now ≡ false
          → spec q0.maxque q0.wlock q0.delay (put now body) es
            ≡ (es ++ entry now body ∷ [], inl put_ok)
      unfolding spec
      spec_put f l = ground (arith, spec_is_full es v, f, spec_is_wlocked es now v, l)

      Ends-full : is_full q ≡ true → Ends q0 s q (put now body) (es, inl full)
      unfolding Ends serve put_done counted
      Ends-full f =
          (s, q, ground (arith, f, push_item_refused os conf law m now body q s), v, omega arith)

      Ends-wlock :
          is_full q ≡ false → is_wlocked q now ≡ true → Ends q0 s q (put now body) (es, inl wlock)
      unfolding Ends serve put_done counted
      Ends-wlock f l =
          (s, q, ground (arith, f, l, push_item_refused os conf law m now body q s), v, omega arith)

      Ends-put :
          IsCall (put now body)
          → q.cur_wdb.pos + needs (put now body) ≤ max_db_file_size conf
          → is_full q ≡ false
          → is_wlocked q now ≡ false
          → Ends q0 s q (put now body) (es ++ entry now body ∷ [], inl put_ok)
      unfolding Ends serve put_done counted
      Ends-put c room f l =
          let (s', q', pushed, r, (unread, maxque, delay, lock, pos)) =
            push_item-Represents os conf law m now body q s es v.represents
              (record { time_fits = c.0; bytes = c.1; short = c.3 }) c.2 room f l in
          (
            s',
            record q' { unread_count = add64 q'.unread_count 1 },
            ground (arith, pushed),
            record {
              represents =
                  Represents-recounted s' q' (add64 q'.unread_count 1) (es ++ entry now body ∷ [])
                    r;
              unread = omega (
                arith,
                unread,
                v.unread,
                few q0 s q es v,
                length-append es (entry now body ∷ []),
              );
              same_maxque = maxque ∙ v.same_maxque;
              same_wlock = lock ∙ v.same_wlock;
              same_delay = delay ∙ v.same_delay;
            },
            omega (arith, pos),
          )

      put-Ends :
          IsCall (put now body)
          → q.cur_wdb.pos + needs (put now body) ≤ max_db_file_size conf
          → Ends q0 s q (put now body) (spec q0.maxque q0.wlock q0.delay (put now body) es)
      put-Ends c room = elim (Bool_cases (is_full q)) [
        | inl f ↦ subst (Ends q0 s q (put now body)) (sym (spec_full f)) (Ends-full f)
        | inr f ↦ elim (Bool_cases (is_wlocked q now)) [
          | inl l ↦ subst (Ends q0 s q (put now body)) (sym (spec_wlock f l)) (Ends-wlock f l)
          | inr l ↦ subst (Ends q0 s q (put now body)) (sym (spec_put f l)) (Ends-put c room f l)
        ]
      ]

    get_none : (now : ℕ) → Serves q0 s q [] → Ends q0 s q (get now) ([], inr get_end)
    unfolding Ends serve get_done pop_item
    get_none now v = (s, q, ground (arith, v.unread), v, omega arith)

    module _ (now : ℕ) (e : Entry) (es : List Entry) (v : Serves q0 s q (e ∷ es)) where
      Ends-early : too_early now q (item_of e) ≡ true → Ends q0 s q (get now) (e ∷ es, inr get_end)
      unfolding Ends serve get_done
      Ends-early w = (
        s,
        q,
        ground (arith, pop_item_waits os conf law m 0 now q s e es v.represents w),
        v,
        omega arith,
      )

      Ends-get :
          too_early now q (item_of e) ≡ false → Ends q0 s q (get now) (es, inr (get_ok (item_of e)))
      unfolding Ends serve get_done taken
      Ends-get w =
          let (s', popped, r) =
            pop_item-Represents os conf law m 0 now q s e es v.represents (omega (arith, v.unread))
              w in
          (
            s',
            taken (item_of e) q,
            ground (arith, popped),
            record {
              represents = r;
              unread = omega (arith, v.unread, few q0 s q (e ∷ es) v);
              same_maxque = v.same_maxque;
              same_wlock = v.same_wlock;
              same_delay = v.same_delay;
            },
            omega arith,
          )

      get-Ends : Ends q0 s q (get now) (spec q0.maxque q0.wlock q0.delay (get now) (e ∷ es))
      unfolding spec
      get-Ends = elim (Bool_cases (too_early now q (item_of e))) [
        | inl w ↦
            subst (Ends q0 s q (get now)) (ground (arith, spec_too_early (e ∷ es) now e v, w))
              (Ends-early w)
        | inr w ↦
            subst (Ends q0 s q (get now)) (ground (arith, spec_too_early (e ∷ es) now e v, w))
              (Ends-get w)
      ]

    pub call-Ends :
        (call : Call) (es : List Entry)
        → Serves q0 s q es
        → IsCall call
        → q.cur_wdb.pos + needs call ≤ max_db_file_size conf
        → Ends q0 s q call (spec q0.maxque q0.wlock q0.delay call es)
    unfolding spec
    call-Ends (put now body) es v c room = put-Ends now body es v c room
    call-Ends (get now) [] v c room = get_none now v
    call-Ends (get now) (e ∷ es) v c room = get-Ends now e es v
