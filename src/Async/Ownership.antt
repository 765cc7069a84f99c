-- ===== src/Async/Ownership.antt =====
-- The results of the client library under asynchronous calls.
use amy.Prelude.{
  ℕ, ◌≡◌, refl, true, false, Bool, not, List, [], ◌∷◌, ◌++◌, none, ◌==◌, if◌then◌else◌,
}
use amy.Errors.{ErrorCode, success, is_error}
use amy.Client.{ClientLib, Bytes}
use amy.Auth.{AuthInfo, Endpoint}
use amy.Results.{ResultSet}
use amy.Service
use amy.Service.{Conn, new_conn, advance, retrieve}
use amy.Service.Ownership.{
  IsOwned, new_conn-IsOwned, advance-IsOwned, retrieve-IsOwned, cancel-IsOwned, close-IsOwned,
  run_query-IsOwned, open_conn-IsOwned, connect_open-IsOwned, destroy-empty,
}
use amy.Async.{
  System, Job, Task, Completion, connects, queries, stores, async_connect, async_query,
  async_store_result, perform, run_store_result, run_job, run_jobs, drain, work_step, cancel, close,
}
use amy.Async.Completions.{
  Action, connects_async, queries_async, stores_async, cancels, closes, works, step, run,
}

module _ (L : ClientLib) (operation_aborted : ErrorCode) where
  either-IsOwned :
      {A : Type 0} (f : A → Conn L) (b : Bool) (x y : A)
      → IsOwned L (f x)
      → IsOwned L (f y)
      → IsOwned L (f (if b then x else y))
  either-IsOwned f true x y h k = h
  either-IsOwned f false x y h k = k

  abbrev conn_of : System L → Conn L
  conn_of s = s.conn

  run_store_result-IsOwned :
      (c : Conn L) → IsOwned L c → IsOwned L (run_store_result L operation_aborted c).2
  unfolding run_store_result
  run_store_result-IsOwned c o =
      let a = advance-IsOwned L success c o in
      either-IsOwned (λ (x : ResultSet × ErrorCode × Conn L). x.2)
        (is_error (advance L success c).0) _ _ a (retrieve-IsOwned L _ a)

  perform-IsOwned :
      (t : Task) (c : Conn L) → IsOwned L c → IsOwned L (perform L operation_aborted t c).2
  unfolding perform
  perform-IsOwned (connects endpoint auth database flags) c o =
      connect_open-IsOwned L endpoint auth database flags c o
  perform-IsOwned (queries stmt) c o = run_query-IsOwned L stmt c o
  perform-IsOwned stores c o = run_store_result-IsOwned c o

  run_job-IsOwned :
      (j : Job) (c : Conn L) → IsOwned L c → IsOwned L (run_job L operation_aborted j c).1
  unfolding run_job
  run_job-IsOwned j c o =
      either-IsOwned (λ (x : Completion × Conn L). x.1) (j.cancelation_token == c.cancelation_token)
        _ _ (perform-IsOwned j.task c o) o

  work_step-IsOwned :
      (js : List Job) (s : System L)
      → s.work ≡ js
      → IsOwned L s.conn
      → IsOwned L (work_step L operation_aborted s).conn
  unfolding work_step
  work_step-IsOwned [] s e o = rw (e, work_step) o
  work_step-IsOwned (j ∷ js) s e o = rw (e, work_step) (run_job-IsOwned j s.conn o)

  async_connect-IsOwned :
      (endpoint : Endpoint) (auth : AuthInfo) (database : Bytes) (flags handler : ℕ) (s : System L)
      → IsOwned L s.conn
      → IsOwned L (async_connect L operation_aborted endpoint auth database flags handler s).conn
  unfolding async_connect
  async_connect-IsOwned endpoint auth database flags handler s o =
      let opened = open_conn-IsOwned L s.conn o in
      either-IsOwned conn_of (Service.is_open L s.conn) _ _
        (either-IsOwned conn_of s.work_io_service _ _ o o)
        (either-IsOwned conn_of (is_error (Service.open_conn L s.conn).0) _ _ opened
          (either-IsOwned conn_of s.work_io_service _ _ opened opened))

  step-IsOwned :
      (s : System L) (a : Action) → IsOwned L s.conn → IsOwned L (step L operation_aborted s a).conn
  unfolding step async_query async_store_result cancel close
  step-IsOwned s (connects_async endpoint auth database flags handler) o =
      async_connect-IsOwned endpoint auth database flags handler s o
  step-IsOwned s (queries_async stmt handler) o =
      either-IsOwned conn_of (not (Service.is_open L s.conn)) _ _ o
        (either-IsOwned conn_of s.work_io_service _ _ o o)
  step-IsOwned s (stores_async handler) o =
      either-IsOwned conn_of (not (Service.is_open L s.conn)) _ _ o
        (either-IsOwned conn_of s.work_io_service _ _ o o)
  step-IsOwned s cancels o = cancel-IsOwned L s.conn o
  step-IsOwned s closes o = close-IsOwned L s.conn o
  step-IsOwned s works o = work_step-IsOwned s.work s refl o

  run-IsOwned :
      (s : System L) (actions : List Action)
      → IsOwned L s.conn
      → IsOwned L (run L operation_aborted s actions).conn
  unfolding run
  run-IsOwned s [] o = o
  run-IsOwned s (a ∷ rest) o = run-IsOwned (step L operation_aborted s a) rest (step-IsOwned s a o)

  run_jobs-IsOwned :
      (js : List Job) (s : System L)
      → IsOwned L s.conn
      → IsOwned L (run_jobs L operation_aborted js s).conn
  unfolding run_jobs
  run_jobs-IsOwned [] s o = o
  run_jobs-IsOwned (j ∷ js) s o =
      let (k, c) = run_job L operation_aborted j s.conn in
      run_jobs-IsOwned js (record s { conn = c; posted = s.posted ++ (k ∷ []) })
        (run_job-IsOwned j s.conn o)

  -- On a connection that starts new, however asynchronous calls, cancelations and closes interleave
  -- with the work thread, and whatever the library answers, after each of these the results that it
  -- has allocated and that are not freed are exactly the one that `last_result` owns; and once the work thread has run all that is queued, the destructor leaves none allocated.
  pub run-IsOwned_async :
      (s : System L) (actions : List Action)
      → s.conn ≡ new_conn L
      → let now = run L operation_aborted s actions in
        IsOwned L now.conn
        × ((a : ℕ) → (Service.destroy L (drain L operation_aborted now).conn).results a ≡ none)
  unfolding drain
  run-IsOwned_async s actions fresh =
      let now = run L operation_aborted s actions in
      let o : IsOwned L now.conn = run-IsOwned s actions (rw fresh (new_conn-IsOwned L)) in
      (o, destroy-empty L _ (run_jobs-IsOwned now.work (record now { work = [] }) o))
