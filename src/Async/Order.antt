-- ===== src/Async/Order.antt =====
-- The asynchronous calls of include/amy/impl/mysql_service.ipp, interleaved with the work
-- thread, against the blocking calls one after the other.
pub mod Yields
pub mod Runs
pub mod Drain
use mathlib.Core.List.{append-nil, append_assoc}
use amy.Prelude.{
  ℕ, ◌≡◌, refl, sym, subst, ap, ◌∙◌, ◌⊎◌, inl, inr, true, false, Option, none, some, List, [], ◌∷◌,
  ◌++◌, arith, Bool-cases, ==_iff, if◌then◌else◌,
}
use amy.Errors.{ErrorCode, success, is_error}
use amy.Client.{ClientLib, Bytes}
use amy.Auth.{AuthInfo, Endpoint, copy}
use amy.Ops.{mysql_init}
use amy.Results.{ResultSet}
use amy.Service
use amy.Service.{Conn}
use amy.Async
use amy.Async.{
  System, Job, Task, connects, queries, stores, Completion, perform, run_job, drain, enqueue, post,
  async_connect, async_query, async_store_result, run_jobs, work_step,
}
use amy.Async.Blocking.{
  perform_stores, connect_open-copy, async_connect-connect, async_query-query,
  async_store_result-store_result,
}
use amy.Async.Completions.{
  Action, connects_async, queries_async, stores_async, cancels, closes, works, step, run,
}
use amy.Async.Jobs.{
  then_run, drain-work_step, drain-enqueue, drain-keeps, work_step-keeps, work_step_idle,
}

module _ (L : ClientLib) (operation_aborted : ErrorCode) where
  abbrev pub completion : ℕ → ErrorCode → Option ResultSet → List Completion
  completion handler ec rs = record { handler = handler; ec = ec; result = rs } ∷ []

  -- What the blocking functions make of a call: what its handler would be called with, and the
  -- connection.
  unfoldable pub blocking : Conn L → Action → List Completion × Conn L
  blocking c (connects_async endpoint auth database flags handler) =
      let (ec, c') = Service.connect L endpoint auth database flags c in
      (completion handler ec none, c')
  blocking c (queries_async stmt handler) =
      let (ec, c') = Service.query L stmt c in (completion handler ec none, c')
  blocking c (stores_async handler) =
      let (rs, ec, c') = Service.store_result L success c in (completion handler ec (some rs), c')
  blocking c cancels = ([], Service.cancel L c)
  blocking c closes = ([], Service.close L c)
  blocking c works = ([], c)

  unfoldable pub blocking_run : Conn L → List Action → List Completion × Conn L
  unfolding blocking
  blocking_run c [] = ([], c)
  blocking_run c (a ∷ rest) =
      let (ks, c₁) = blocking c a in let (ks', c₂) = blocking_run c₁ rest in (ks ++ ks', c₂)

  -- The user neither cancels nor closes, and stores a result of an open connection.
  abbrev pub Admits : Conn L → Action → Type 0
  Admits c (connects_async endpoint auth database flags handler) = Unit
  Admits c (queries_async stmt handler) = Unit
  Admits c (stores_async handler) = c.initialized ≡ true
  Admits c cancels = ⊥
  Admits c closes = ⊥
  Admits c works = Unit

  unfoldable pub AdmitsAll : Conn L → List Action → Type 0
  unfolding blocking
  AdmitsAll c [] = Unit
  AdmitsAll c (a ∷ rest) = Admits c a × AdmitsAll (blocking c a).1 rest

  -- The service is not shut down, and nothing is queued while the connection is not open.
  abbrev pub Runs : System L → Type 0
  Runs s = (s.work_io_service ≡ true) × ((s.conn.initialized ≡ true) ⊎ (s.work ≡ []))

  -- Once the queue has been run, there are these completions after those of `s`, and this connection.
  abbrev pub Yields : System L → List Completion × Conn L → System L → Type 0
  Yields s (ks, c) s' =
      let d = drain L operation_aborted s in
      let d' = drain L operation_aborted s' in (d'.posted ≡ d.posted ++ ks) × (d'.conn ≡ c)

  abbrev pub job : System L → ℕ → Task → Job
  job s handler task = record {
    handler = handler;
    cancelation_token = s.conn.cancelation_token;
    task = task;
  }
