-- ===== src/Async/Order/Yields.antt =====
-- What one call does to the completions that a service of include/amy/impl/mysql_service.ipp
-- posts in the end.
use mathlib.Core.List.{append-nil}
use amy.Prelude.{ℕ, ◌≡◌, refl, sym, subst, ap, ◌∙◌, inl, inr, true, Option, List, [], arith, ==_iff}
use amy.Errors.{ErrorCode}
use amy.Client.{ClientLib, Bytes}
use amy.Auth.{AuthInfo, Endpoint, copy}
use amy.Results.{ResultSet}
use amy.Service
use amy.Service.{Conn}
use amy.Async.{
  System, Task, connects, queries, stores, Completion, perform, run_job, drain, enqueue,
  async_connect, async_query, async_store_result, run_jobs, work_step,
}
use amy.Async.Blocking.{
  perform_stores, connect_open-copy, async_connect-connect, async_query-query,
  async_store_result-store_result,
}
use amy.Async.Completions.{
  Action, connects_async, queries_async, stores_async, cancels, closes, works, step,
}
use amy.Async.Jobs.{drain-work_step, drain-enqueue, drain-keeps}
use amy.Async.Order.{completion, blocking, Admits, Runs, Yields, job}

module _ (L : ClientLib) (operation_aborted : ErrorCode) where
  -- A handler that is queued on an open connection.
  enqueue-Yields :
      (handler : ℕ) (task : Task) (s : System L)
      → let d = drain L operation_aborted s in
        let (ec, rs, c') = perform L operation_aborted task d.conn in
        Yields L operation_aborted s
          (completion L operation_aborted handler ec rs, c')
          (enqueue L operation_aborted (job L operation_aborted s handler task) s)
  unfolding run_job
  enqueue-Yields handler task s =
      let d = drain L operation_aborted s in
      let same : d.conn.cancelation_token ≡ s.conn.cancelation_token =
        (drain-keeps L operation_aborted s).0 in
      rw (drain-enqueue L operation_aborted (job L operation_aborted s handler task) s)
        (ground (arith, ==_iff s.conn.cancelation_token d.conn.cancelation_token))

  query_opened :
      (stmt : Bytes) (c : Conn L)
      → c.initialized ≡ true
      → Service.query L stmt c ≡ Service.run_query L stmt c
  unfolding Service.query
  query_opened stmt c opened = ground arith

  connect_opened :
      (endpoint : Endpoint) (auth : AuthInfo) (database : Bytes) (flags : ℕ) (c : Conn L)
      → c.initialized ≡ true
      → Service.connect L endpoint auth database flags c
        ≡ Service.connect_open L endpoint (copy auth) database flags c
  unfolding Service.connect
  connect_opened endpoint auth database flags c opened =
      ground (arith, connect_open-copy L operation_aborted endpoint auth database flags c)

  pub async_query_opened :
      (stmt : Bytes) (handler : ℕ) (s : System L)
      → s.conn.initialized ≡ true
      → s.work_io_service ≡ true
      → async_query L operation_aborted stmt handler s
        ≡ enqueue L operation_aborted (job L operation_aborted s handler (queries stmt)) s
  unfolding async_query
  async_query_opened stmt handler s opened live = rw (opened, live) refl

  pub async_store_result_opened :
      (handler : ℕ) (s : System L)
      → s.conn.initialized ≡ true
      → s.work_io_service ≡ true
      → async_store_result L operation_aborted handler s
        ≡ enqueue L operation_aborted (job L operation_aborted s handler stores) s
  unfolding async_store_result
  async_store_result_opened handler s opened live = rw (opened, live) refl

  pub async_connect_opened :
      (endpoint : Endpoint) (auth : AuthInfo) (database : Bytes) (flags handler : ℕ) (s : System L)
      → s.conn.initialized ≡ true
      → s.work_io_service ≡ true
      → async_connect L operation_aborted endpoint auth database flags handler s
        ≡ enqueue L operation_aborted
            (job L operation_aborted s handler (connects endpoint (copy auth) database flags))
            s
  unfolding async_connect
  async_connect_opened endpoint auth database flags handler s opened live = rw (opened, live) refl

  pub drain_idle : (s : System L) → s.work ≡ [] → drain L operation_aborted s ≡ s
  unfolding drain run_jobs
  drain_idle s idle = rw idle refl

  -- A path of the pair of completions and connection, on an empty queue.
  parts :
      {ks : List Completion} {c : Conn L} (s : System L)
      → ◌≡◌ {A = List Completion × Conn L} (s.posted, s.conn) (ks, c)
      → (s.posted ≡ ks) × (s.conn ≡ c)
  parts s e =
      (ap (λ (x : List Completion × Conn L). x.0) e, ap (λ (x : List Completion × Conn L). x.1) e)

  works-Yields :
      (s : System L)
      → Yields L operation_aborted s
          ([], (drain L operation_aborted s).conn)
          (work_step L operation_aborted s)
  works-Yields s =
      let same = drain-work_step L operation_aborted s in
      (
        ap (λ (d : System L). d.posted) same
            ∙ sym (append-nil (drain L operation_aborted s).posted),
        ap (λ (d : System L). d.conn) same,
      )

  opened-Yields :
      (s : System L) (a : Action)
      → s.work_io_service ≡ true
      → s.conn.initialized ≡ true
      → Admits L operation_aborted (drain L operation_aborted s).conn a
      → Yields L operation_aborted s
          (blocking L operation_aborted (drain L operation_aborted s).conn a)
          (step L operation_aborted s a)
  unfolding blocking step perform
  opened-Yields s (connects_async endpoint auth database flags handler) live opened _ =
      let d = drain L operation_aborted s in
      rw
        (
          async_connect_opened endpoint auth database flags handler s opened live,
          connect_opened endpoint auth database flags d.conn
              ((drain-keeps L operation_aborted s).1 ∙ opened),
        )
        (enqueue-Yields handler (connects endpoint (copy auth) database flags) s)
  opened-Yields s (queries_async stmt handler) live opened _ =
      let d = drain L operation_aborted s in
      rw
        (
          async_query_opened stmt handler s opened live,
          query_opened stmt d.conn ((drain-keeps L operation_aborted s).1 ∙ opened),
        )
        (enqueue-Yields handler (queries stmt) s)
  opened-Yields s (stores_async handler) live opened _ =
      let d = drain L operation_aborted s in
      rw (async_store_result_opened handler s opened live) (
        subst
          (λ (x : ErrorCode × Option ResultSet × Conn L).
            Yields L operation_aborted s (completion L operation_aborted handler x.0 x.1, x.2)
              (enqueue L operation_aborted (job L operation_aborted s handler stores) s))
          (perform_stores L operation_aborted d.conn) (enqueue-Yields handler stores s))
  opened-Yields s cancels live opened admits = elim admits [ ]
  opened-Yields s closes live opened admits = elim admits [ ]
  opened-Yields s works live opened _ = works-Yields s

  unopened-Yields :
      (s : System L) (a : Action)
      → s.work_io_service ≡ true
      → s.work ≡ []
      → Admits L operation_aborted (drain L operation_aborted s).conn a
      → Yields L operation_aborted s
          (blocking L operation_aborted (drain L operation_aborted s).conn a)
          (step L operation_aborted s a)
  unfolding blocking step
  unopened-Yields s (connects_async endpoint auth database flags handler) live idle _ =
      rw (drain_idle s idle) (
        parts
          (drain L operation_aborted
            (async_connect L operation_aborted endpoint auth database flags handler s))
          (async_connect-connect L operation_aborted endpoint auth database flags handler s idle
            live))
  unopened-Yields s (queries_async stmt handler) live idle _ = rw (drain_idle s idle) (
      parts (drain L operation_aborted (async_query L operation_aborted stmt handler s))
        (async_query-query L operation_aborted stmt handler s idle live))
  unopened-Yields s (stores_async handler) live idle opened = rw (drain_idle s idle) (
      parts (drain L operation_aborted (async_store_result L operation_aborted handler s)) (
        async_store_result-store_result L operation_aborted handler s idle live
          (ap (λ (d : System L). d.conn.initialized) (sym (drain_idle s idle)) ∙ opened)))
  unopened-Yields s cancels live idle admits = elim admits [ ]
  unopened-Yields s closes live idle admits = elim admits [ ]
  unopened-Yields s works live idle _ = works-Yields s

  pub step-Yields :
      (s : System L) (a : Action)
      → Runs L operation_aborted s
      → Admits L operation_aborted (drain L operation_aborted s).conn a
      → Yields L operation_aborted s
          (blocking L operation_aborted (drain L operation_aborted s).conn a)
          (step L operation_aborted s a)
  step-Yields s a (live, inl opened) admits = opened-Yields s a live opened admits
  step-Yields s a (live, inr idle) admits = unopened-Yields s a live idle admits
