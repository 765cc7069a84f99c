-- ===== src/Maria/Query.antt =====
-- `async_query` and the composed operation `query_handler` of
-- include/amy/impl/mariadb_service.ipp.
pub mod Agreement
use amy.Prelude.{ℕ, ◌==◌, Bool, true, false, not, none, if◌then◌else◌}
use amy.Prelude.Int.{ℤ, negsuc}
use amy.Errors.{ErrorCode, success, is_error, misc_error, not_initialized}
use amy.Client.{ClientLib, Bytes}
use amy.Service
use amy.Service.{Conn}
use amy.Maria.{
  NonBlocking, MariaConn, Next, invokes, mysql_start, mysql_continue, after_call, int_failed,
}
use amy.Maria.Ops.{mysql_real_query_start, mysql_real_query_cont}

-- `query_handler::state`; `token` is what its weak pointer was made from.
pub record QueryOp : Type 0 where
  pub step : ℕ
  pub token : ℕ
  pub stmt : Bytes
  pub result : ℤ

module _ (L : ClientLib) (N : NonBlocking L) (operation_aborted : ErrorCode) where
  -- What follows the call in case 1: `p.step = 1`, and the end or a wait.
  abbrev pub after_query : QueryOp → ℕ × ErrorCode × ℤ × L.Handle → MariaConn L → Next L QueryOp
  after_query op (status, ec, result, m) c =
      after_call L N (record op { step = 1; result = result }) status ec
        (record c { conn = record (c.conn) { mysql = m } })

  -- Case 0, which falls through to case 1.
  unfoldable pub query_begin : QueryOp → MariaConn L → Next L QueryOp
  unfolding mysql_start mysql_continue
  query_begin op c =
      let freed : Conn L = record (Service.free_result L c.conn) { first_result_stored = false } in
      after_query op (mysql_real_query_start L N op.stmt op.result freed.mysql)
        (record c { conn = freed })

  -- Case 1 on a call that was started before.
  unfoldable pub query_continue : QueryOp → ℕ → MariaConn L → Next L QueryOp
  unfolding mysql_start mysql_continue
  query_continue op status c =
      after_query op (mysql_real_query_cont L N status op.result c.conn.mysql) c

  -- `query_handler::operator()`.
  unfoldable pub query_resume : QueryOp → ErrorCode → ℕ → MariaConn L → Next L QueryOp
  unfolding query_begin query_continue
  query_resume op ec status c =
      if not (op.token == c.conn.cancelation_token)
      then invokes operation_aborted none c
      else if is_error ec
      then invokes ec none c
      else if op.step == 0
      then query_begin op c
      else query_continue op status c

  -- `mariadb_service::async_query`.
  unfoldable pub async_query : Bytes → MariaConn L → Next L QueryOp
  unfolding query_resume
  async_query stmt c =
      let op : QueryOp = record {
        step = 0;
        token = c.conn.cancelation_token;
        stmt = stmt;
        result = negsuc 0;
      } in
      if not (Service.is_open L c.conn)
      then invokes (misc_error not_initialized) none c
      else query_resume op success 0 c
