-- ===== src/Maria/Reactor/Ownership/QueryResult.antt =====
-- `query_result_handler`.
use amy.Prelude.{
  ℕ, ◌≡◌, ◌==◌, refl, zero, suc, arith, true, false, not, Option, none, some, inl, inr, Bool-cases,
}
use amy.Prelude.Int.{ℤ, negsuc}
use amy.Errors.{ErrorCode, is_error, success}
use amy.Client.{ClientLib, Bytes}
use amy.Service
use amy.Service.{Conn}
use amy.Service.Ownership.{
  IsOwned, SameResults-IsOwned, free_result-IsOwned, assign_last-IsOwned, reset_result-IsOwned,
}
use amy.Maria.{
  NonBlocking, MariaConn, async_wait_mysql, call_error, wrap, option_failed, mysql_start,
  mysql_continue,
}
use amy.Maria.Ops.{mysql_real_query_start, mysql_real_query_cont}
use amy.Maria.QueryResult.{
  ResultOp, ResultStep, q_entry, q_store_start, q_cont_store, q_wait_query, q_cont_query,
  finish_result, after_result, result_begin, after_statement, result_entry, result_switch,
  result_resume, async_query_result,
}
use amy.Maria.Reactor.Ownership.Store.{finish_conn-IsOwned, finish_conn-failed}
use amy.Maria.Reactor.Ownership.OneCall.{Owned, either-Owned, when-Owned, mysql-IsOwned}

module _ (L : ClientLib) (N : NonBlocking L) (operation_aborted : ErrorCode) where
  finish_result-Owned :
      (op : ResultOp L) (ec : ErrorCode) (c : MariaConn L)
      → is_error ec ≡ true
      → IsOwned L c.conn
      → Owned L (finish_result L N operation_aborted op ec c)
  unfolding finish_result
  finish_result-Owned op ec c e o =
      finish_conn-failed L N operation_aborted op.address ec c.conn e o

  -- As in `store_result_handler`.
  after_result-Owned :
      (op : ResultOp L) (status : ℕ) (r : Option L.Res) (m : L.Handle) (c : MariaConn L)
      → IsOwned L c.conn
      → Owned L (
          after_result L N operation_aborted op
            (status, call_error L N status (option_failed r) m, r, m)
            c)
  unfolding after_result async_wait_mysql Service.allocate finish_result call_error
  after_result-Owned op zero none m c o =
      let o' = mysql-IsOwned L c.conn m o in
      let ec = wrap L N true m success in
      elim (Bool-cases (is_error ec)) [
        | inl e ↦ rw e o'
        | inr clean ↦ rw clean (assign_last-IsOwned L ec _ (reset_result-IsOwned L none _ o'))
      ]
  after_result-Owned op zero (some r) m c o =
      finish_conn-IsOwned L N operation_aborted (some r) success _ refl (mysql-IsOwned L c.conn m o)
  after_result-Owned op (suc status) r m c o =
      let o' = mysql-IsOwned L c.conn m o in
      let moves : (suc status == 0) ≡ false = ground arith in
      elim (Bool-cases (is_error (call_error L N (suc status) (option_failed r) m))) [
        | inl e ↦ rw (moves, rw moves at e) o'
        | inr clean ↦ rw (moves, rw moves at clean) o'
      ]

  result_begin-Owned :
      (op : ResultOp L) (c : MariaConn L)
      → IsOwned L c.conn
      → Owned L (result_begin L N operation_aborted op c)
  unfolding result_begin mysql_start mysql_continue
  result_begin-Owned op c o =
      let stored : Conn L = record (Service.free_result L c.conn) { first_result_stored = true } in
      let (status, r, m) = N.store_start op.result stored.mysql in
      after_result-Owned op status r m (record c { conn = stored })
        (SameResults-IsOwned L {c = Service.free_result L c.conn} (refl, refl, refl)
          (free_result-IsOwned L c.conn o))

  after_statement-Owned :
      (op : ResultOp L) (r : ℕ × ErrorCode × ℤ × L.Handle) (c : MariaConn L)
      → IsOwned L c.conn
      → Owned L (after_statement L N operation_aborted op r c)
  unfolding after_statement async_wait_mysql
  after_statement-Owned op (status, ec, v, m) c o =
      let o' = mysql-IsOwned L c.conn m o in
      let c' : MariaConn L = record c { conn = record (c.conn) { mysql = m } } in
      let op' : ResultOp L = record op { step = q_cont_query; query_result = v } in
      when-Owned L (is_error ec) _ _ (λ e. finish_result-Owned op' ec c' e o')
        (λ _. either-Owned L (status == 0) _ _ (result_begin-Owned op' c' o') o')

  result_entry-Owned :
      (op : ResultOp L) (c : MariaConn L)
      → IsOwned L c.conn
      → Owned L (result_entry L N operation_aborted op c)
  unfolding result_entry
  result_entry-Owned op c o =
      let freed : Conn L = record (Service.free_result L c.conn) { first_result_stored = false } in
      after_statement-Owned op (mysql_real_query_start L N op.stmt op.query_result freed.mysql)
        (record c { conn = freed })
        (SameResults-IsOwned L {c = Service.free_result L c.conn} (refl, refl, refl)
          (free_result-IsOwned L c.conn o))

  result_switch-Owned :
      (step : ResultStep) (op : ResultOp L) (status : ℕ) (c : MariaConn L)
      → op.step ≡ step
      → IsOwned L c.conn
      → Owned L (result_switch L N operation_aborted op status c)
  unfolding result_switch async_wait_mysql mysql_start mysql_continue
  result_switch-Owned q_entry op status c e o = rw e (result_entry-Owned op c o)
  result_switch-Owned q_store_start op status c e o = rw e (result_begin-Owned op c o)
  result_switch-Owned q_cont_store op status c e o =
      let (status', r, m) = N.store_cont status op.result c.conn.mysql in
      rw e (after_result-Owned op status' r m c o)
  result_switch-Owned q_cont_query op status c e o =
      rw e (
        after_statement-Owned op (mysql_real_query_cont L N status op.query_result c.conn.mysql) c
          o)
  result_switch-Owned q_wait_query op status c e o = rw e (
      either-Owned L (status == 0) _ _ (result_begin-Owned (record op { step = q_cont_query }) c o)
        o)

  pub result_resume-Owned :
      (op : ResultOp L) (ec : ErrorCode) (status : ℕ) (c : MariaConn L)
      → is_error operation_aborted ≡ true
      → IsOwned L c.conn
      → Owned L (result_resume L N operation_aborted op ec status c)
  unfolding result_resume
  result_resume-Owned op ec status c aborts o =
      either-Owned L (not (op.token == c.conn.cancelation_token)) _ _
        (finish_result-Owned op operation_aborted c aborts o)
        (when-Owned L (is_error ec) _ _ (λ e. finish_result-Owned op ec c e o)
          (λ _. result_switch-Owned op.step op status c refl o))

  pub async_query_result-Owned :
      (stmt : Bytes) (c : MariaConn L)
      → is_error operation_aborted ≡ true
      → IsOwned L c.conn
      → Owned L (async_query_result L N operation_aborted stmt c)
  unfolding async_query_result
  async_query_result-Owned stmt c aborts o =
      let op : ResultOp L = record {
        step = q_entry;
        token = c.conn.cancelation_token;
        stmt = stmt;
        query_result = negsuc 0;
        result = none;
        address = none;
      } in
      either-Owned L (not (Service.is_open L c.conn)) _ _ o
        (result_resume-Owned op success 0 c aborts o)
