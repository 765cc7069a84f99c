-- ===== src/Connector/AsyncExecute.antt =====
-- `async_execute` of include/amy/execute.hpp over the asynchronous functions of `mysql_service`.
use amy.Prelude.{ℕ, ◌≡◌, ◌≢◌, true, List, [], ◌∷◌, map, arith, if◌then◌else◌}
use amy.Errors.{ErrorCode, is_error}
use amy.Client.{ClientLib, Bytes}
use amy.Service
use amy.Service.{Conn, affected_rows}
use amy.Async
use amy.Async.{System, Completion, drain}
use amy.Async.Blocking.{async_query-query}
use amy.Connector.Execute.{execute_ec, execute_handler, execute_handler-ne-execute_ec}

module _ (L : ClientLib) (operation_aborted : ErrorCode) where
  -- `async_execute(connector, stmt, handler)`: the completion of its query goes through
  -- `execute_handler`.
  unfoldable pub async_execute : Bytes → ℕ → System L → System L
  async_execute stmt handler s = Async.async_query L operation_aborted stmt handler s

  -- What the user's handlers are called with, when the posted completions of `async_execute` run on
  -- the connection `c`.
  abbrev pub executed : Conn L → List Completion → List (ErrorCode × ℕ)
  executed c posted = map (λ (k : Completion). execute_handler L k.ec c) posted

  -- With an empty work queue, `async_execute` calls the user's handler once, with the code of
  -- `execute(connector, stmt, ec)`, and leaves the connection as that does; but wherever rows are
  -- affected, the count is not that of `execute`: the affected rows when there is an error, and 0 when
  -- there is none.
  pub async_execute-ne-execute_ec :
      (stmt : Bytes) (handler : ℕ) (s : System L)
      → s.work ≡ []
      → s.posted ≡ []
      → s.work_io_service ≡ true
      → affected_rows L (Service.query L stmt s.conn).1 ≢ 0
      → let s' = drain L operation_aborted (async_execute stmt handler s) in
        let (rows, ec, c) = execute_ec L stmt s.conn in
        let count = if is_error ec then affected_rows L c else 0 in
        (executed s'.conn s'.posted ≡ (ec, count) ∷ []) × (s'.conn ≡ c) × (count ≢ rows)
  unfolding async_execute execute_handler execute_ec
  async_execute-ne-execute_ec stmt handler s idle none_posted live affected =
      let same = async_query-query L operation_aborted stmt handler s idle live in
      (
        ground (arith, same),
        ground (arith, same),
        execute_handler-ne-execute_ec L stmt s.conn affected,
      )
