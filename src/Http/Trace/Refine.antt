-- ===== src/Http/Trace/Refine.antt =====
-- source/mq_evhttp.c, source/mq_queue_manage.c: a sequence of puts and gets against the specification.
use ucmq.Prelude.{ℕ, ◌+◌, ◌≤◌, ◌≡◌, refl, List, [], ◌∷◌, arith, All}
use ucmq.Prelude.Run.{ret}
use ucmq.Config.{UcmqConf, max_db_file_size}
use ucmq.Types.{MqQueue}
use ucmq.Os.{Os, IsLawful}
use ucmq.StoreMsg.Layout.{Entry}
use ucmq.Http.Trace.{Call, serve_all, spec, spec_all, needs_all, IsCall}
use ucmq.Http.Trace.Steps.{Serves, Ends, call-Ends}

module _ (os : Os) (conf : UcmqConf) (law : IsLawful os) (m : ℕ) where
  -- Any sequence of puts and gets on a queue that holds `es`, counts them, and lies in one mapped
  -- file of at most 64 MB with room for all the puts, ends without a fault, gets the answers of
  -- the specification, and leaves a queue that holds the specification's entries. The puts are of
  -- one byte or more, below 2 ^ 31, at 32-bit times.
  pub serve_all-spec_all :
      (q0 : MqQueue) (calls : List Call) (s : os.Sys) (q : MqQueue) (es : List Entry)
      → Serves os conf law m q0 s q es
      → All IsCall calls
      → q.cur_wdb.pos + needs_all calls ≤ max_db_file_size conf
      → (s' : os.Sys) × (q' : MqQueue) × (serve_all os conf calls (s, q)
          ≡ ret ((s', q'), (spec_all q0.maxque q0.wlock q0.delay calls es).1))
        × Serves os conf law m q0 s' q' (spec_all q0.maxque q0.wlock q0.delay calls es).0
  unfolding serve_all spec_all Ends
  serve_all-spec_all q0 [] s q es v c room = (s, q, refl, v)
  serve_all-spec_all q0 (call ∷ calls) s q es v c room =
      let (s1, q1, served, v1, pos) = call-Ends os conf law m q0 s q call es v c.0 (omega arith) in
      let (s2, q2, rest, v2) =
        serve_all-spec_all q0 calls s1 q1 (spec q0.maxque q0.wlock q0.delay call es).0 v1 c.1
          (omega (arith, pos)) in
      (s2, q2, ground (arith, served, rest), v2)
