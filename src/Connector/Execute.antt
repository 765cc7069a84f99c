-- ===== src/Connector/Execute.antt =====
-- include/amy/execute.hpp and include/amy/detail/execute_handler.hpp
use amy.Prelude.{ℕ, ◌≢◌, arith, if◌then◌else◌}
use amy.Errors.{ErrorCode, is_error, Outcome, throw_error}
use amy.Client.{ClientLib, Bytes}
use amy.Service.{Conn, query, affected_rows}

module _ (L : ClientLib) where
  -- `execute(connector, stmt, ec)`.
  unfoldable pub execute_ec : Bytes → Conn L → ℕ × ErrorCode × Conn L
  execute_ec stmt c =
      let (ec, c') = query L stmt c in ((if is_error ec then 0 else affected_rows L c'), ec, c')

  -- `execute(connector, stmt)`.
  unfoldable pub execute : Bytes → Conn L → Outcome ℕ × Conn L
  unfolding execute_ec throw_error
  execute stmt c =
      let (rows, ec, c') = execute_ec stmt c in (throw_error ec (L.error c'.mysql) rows, c')

  -- `execute_handler::operator()`: the arguments of the user's handler when the query has completed
  -- with `ec` and left the connection `c`.
  unfoldable pub execute_handler : ErrorCode → Conn L → ErrorCode × ℕ
  execute_handler ec c = (ec, (if is_error ec then affected_rows L c else 0))

  -- Wherever a statement affects rows, `async_execute` reports another count than `execute` does for
  -- the same completed query: it has the branches the wrong way round.
  pub execute_handler-ne-execute_ec :
      (stmt : Bytes) (c : Conn L)
      → affected_rows L (query L stmt c).1 ≢ 0
      → (execute_handler (query L stmt c).0 (query L stmt c).1).1 ≢ (execute_ec stmt c).0
  unfolding execute_handler execute_ec
  execute_handler-ne-execute_ec stmt c h = ground arith
