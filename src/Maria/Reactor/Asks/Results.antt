-- ===== src/Maria/Reactor/Asks/Results.antt =====
-- `store_result_handler` and `query_result_handler`.
use amy.Prelude.{
  ℕ, zero, suc, ◌≡◌, ◌==◌, ◌||◌, refl, true, false, not, Option, none, arith, Bool, if◌then◌else◌,
}
use amy.Prelude.Int.{ℤ, negsuc}
use amy.Errors.{ErrorCode, is_error, success}
use amy.Client.{ClientLib, Bytes}
use amy.Service
use amy.Service.{Conn}
use amy.Maria.{NonBlocking, MariaConn, Next, waits, async_wait_mysql, mysql_start, mysql_continue}
use amy.Maria.Ops.{
  mysql_store_result_start, mysql_store_result_cont, mysql_next_result_start,
  mysql_next_result_cont, mysql_real_query_start, mysql_real_query_cont,
}
use amy.Maria.Store.{
  StoreOp, StoreStep, s_entry, s_cont_store, s_store_start, s_cont_next, s_wait_next, finish,
  after_store, store_begin, after_next, store_entry, store_switch, store_resume, async_store_result,
}
use amy.Maria.QueryResult.{
  ResultOp, ResultStep, q_entry, q_store_start, q_cont_store, q_wait_query, q_cont_query,
  finish_result, after_result, result_begin, after_statement, result_entry, result_switch,
  result_resume, async_query_result,
}
use amy.Maria.Reactor.Asks.{Asks, AsksEvents, Resumable, either-Resumable, wait_for-Asks}

module _ (L : ClientLib) (N : NonBlocking L) (operation_aborted : ErrorCode)
    (events : AsksEvents L N) where
  -- A call that has ended goes on, and one that is suspended waits.
  waits-Resumable :
      {S : Type 0} (status : ℕ) (x : Next L S) (op : S) (c : MariaConn L)
      → Asks L N status
      → (status ≡ 0 → Resumable L N x)
      → let (w, c') = async_wait_mysql L N status c in
        Resumable L N (if status == 0 then x else waits w op c')
  unfolding async_wait_mysql
  waits-Resumable zero x op c asks goes = goes refl
  waits-Resumable (suc status) x op c asks goes =
      let moves : (suc status == 0) ≡ false = ground arith in
      rw moves (wait_for-Asks L N (suc status) (omega arith) asks)

  -- A call that has failed or ended goes on with `x`, and one that is suspended waits.
  ends-Resumable :
      {S : Type 0} (b : Bool) (status : ℕ) (x : Next L S) (op : S) (c : MariaConn L)
      → Asks L N status
      → Resumable L N x
      → let (w, c') = async_wait_mysql L N status c in
        Resumable L N (if b || status == 0 then x else waits w op c')
  unfolding async_wait_mysql
  ends-Resumable true status x op c asks goes = goes
  ends-Resumable false status x op c asks goes = waits-Resumable status x op c asks (λ _. goes)

  after_store-Resumable :
      (op : StoreOp L) (call : ℕ × ErrorCode × Option L.Res × L.Handle) (c : MariaConn L)
      → Asks L N call.0
      → Resumable L N (after_store L N operation_aborted op call c)
  unfolding after_store finish
  after_store-Resumable op (status, ec, r, m) c asks =
      ends-Resumable (is_error ec) status _ _ _ asks tt

  store_begin-Resumable :
      (op : StoreOp L) (c : MariaConn L) → Resumable L N (store_begin L N operation_aborted op c)
  unfolding store_begin mysql_start mysql_continue
  store_begin-Resumable op c =
      let freed : Conn L = Service.free_result L c.conn in
      after_store-Resumable op (mysql_store_result_start L N op.result freed.mysql)
        (record c { conn = freed }) (events.store op.result freed.mysql)

  after_next-Resumable :
      (op : StoreOp L) (call : ℕ × ErrorCode × ℤ × L.Handle) (c : MariaConn L)
      → Asks L N call.0
      → Resumable L N (after_next L N operation_aborted op call c)
  unfolding after_next finish
  after_next-Resumable op (status, ec, v, m) c asks =
      let c' : MariaConn L = record c { conn = record (c.conn) { mysql = m } } in
      let op' : StoreOp L = record op { step = s_cont_next; next_result = v } in
      either-Resumable L N (is_error ec) _ _ tt (
        waits-Resumable status (store_begin L N operation_aborted op' c') op' c' asks
          (λ _. store_begin-Resumable op' c'))

  store_entry-Resumable :
      (op : StoreOp L) (c : MariaConn L) → Resumable L N (store_entry L N operation_aborted op c)
  unfolding store_entry mysql_start mysql_continue finish
  store_entry-Resumable op c =
      let freed : Conn L = Service.free_result L c.conn in
      either-Resumable L N (not c.conn.first_result_stored) _ _
        (store_begin-Resumable op
          (record c { conn = record (c.conn) { first_result_stored = true } }))
        (either-Resumable L N (Service.has_more_results L freed) _ _
          (after_next-Resumable op (mysql_next_result_start L N op.next_result freed.mysql)
            (record c { conn = freed }) (events.next op.next_result freed.mysql))
          tt)

  store_switch-Resumable :
      (step : StoreStep) (op : StoreOp L) (status : ℕ) (c : MariaConn L)
      → op.step ≡ step
      → Asks L N status
      → Resumable L N (store_switch L N operation_aborted op status c)
  unfolding store_switch mysql_start mysql_continue
  store_switch-Resumable s_entry op status c e asks = rw e (store_entry-Resumable op c)
  store_switch-Resumable s_store_start op status c e asks = rw e (store_begin-Resumable op c)
  store_switch-Resumable s_cont_store op status c e asks = rw e (
      after_store-Resumable op (mysql_store_result_cont L N status op.result c.conn.mysql) c
        (events.store_more status op.result c.conn.mysql))
  store_switch-Resumable s_cont_next op status c e asks = rw e (
      after_next-Resumable op (mysql_next_result_cont L N status op.next_result c.conn.mysql) c
        (events.next_more status op.next_result c.conn.mysql))
  store_switch-Resumable s_wait_next op status c e asks =
      let op' : StoreOp L = record op { step = s_cont_next } in
      rw e (
        waits-Resumable status (store_begin L N operation_aborted op' c) op' c asks
          (λ _. store_begin-Resumable op' c))

  pub store_resume-Resumable :
      (op : StoreOp L) (ec : ErrorCode) (status : ℕ) (c : MariaConn L)
      → Asks L N status
      → Resumable L N (store_resume L N operation_aborted op ec status c)
  unfolding store_resume finish
  store_resume-Resumable op ec status c asks =
      either-Resumable L N (not (op.token == c.conn.cancelation_token)) _ _ tt (
        either-Resumable L N (is_error ec) _ _ tt
          (store_switch-Resumable op.step op status c refl asks))

  pub async_store_result-Resumable :
      (c : MariaConn L) → Resumable L N (async_store_result L N operation_aborted c)
  unfolding async_store_result
  async_store_result-Resumable c =
      let op : StoreOp L = record {
        step = s_entry;
        token = c.conn.cancelation_token;
        next_result = negsuc 0;
        result = none;
        address = none;
      } in
      either-Resumable L N (not (Service.is_open L c.conn)) _ _ tt
        (store_resume-Resumable op success 0 c (λ moves. absurd (moves refl)))

  after_result-Resumable :
      (op : ResultOp L) (call : ℕ × ErrorCode × Option L.Res × L.Handle) (c : MariaConn L)
      → Asks L N call.0
      → Resumable L N (after_result L N operation_aborted op call c)
  unfolding after_result finish_result
  after_result-Resumable op (status, ec, r, m) c asks =
      ends-Resumable (is_error ec) status _ _ _ asks tt

  result_begin-Resumable :
      (op : ResultOp L) (c : MariaConn L) → Resumable L N (result_begin L N operation_aborted op c)
  unfolding result_begin mysql_start mysql_continue
  result_begin-Resumable op c =
      let stored : Conn L = record (Service.free_result L c.conn) { first_result_stored = true } in
      after_result-Resumable op (mysql_store_result_start L N op.result stored.mysql)
        (record c { conn = stored }) (events.store op.result stored.mysql)

  after_statement-Resumable :
      (op : ResultOp L) (call : ℕ × ErrorCode × ℤ × L.Handle) (c : MariaConn L)
      → Asks L N call.0
      → Resumable L N (after_statement L N operation_aborted op call c)
  unfolding after_statement finish_result
  after_statement-Resumable op (status, ec, v, m) c asks =
      let c' : MariaConn L = record c { conn = record (c.conn) { mysql = m } } in
      let op' : ResultOp L = record op { step = q_cont_query; query_result = v } in
      either-Resumable L N (is_error ec) _ _ tt (
        waits-Resumable status (result_begin L N operation_aborted op' c') op' c' asks
          (λ _. result_begin-Resumable op' c'))

  result_entry-Resumable :
      (op : ResultOp L) (c : MariaConn L) → Resumable L N (result_entry L N operation_aborted op c)
  unfolding result_entry mysql_start mysql_continue
  result_entry-Resumable op c =
      let freed : Conn L = record (Service.free_result L c.conn) { first_result_stored = false } in
      after_statement-Resumable op (mysql_real_query_start L N op.stmt op.query_result freed.mysql)
        (record c { conn = freed }) (events.query op.stmt op.query_result freed.mysql)

  result_switch-Resumable :
      (step : ResultStep) (op : ResultOp L) (status : ℕ) (c : MariaConn L)
      → op.step ≡ step
      → Asks L N status
      → Resumable L N (result_switch L N operation_aborted op status c)
  unfolding result_switch mysql_start mysql_continue
  result_switch-Resumable q_entry op status c e asks = rw e (result_entry-Resumable op c)
  result_switch-Resumable q_store_start op status c e asks = rw e (result_begin-Resumable op c)
  result_switch-Resumable q_cont_store op status c e asks = rw e (
      after_result-Resumable op (mysql_store_result_cont L N status op.result c.conn.mysql) c
        (events.store_more status op.result c.conn.mysql))
  result_switch-Resumable q_cont_query op status c e asks = rw e (
      after_statement-Resumable op (mysql_real_query_cont L N status op.query_result c.conn.mysql) c
        (events.query_more status op.query_result c.conn.mysql))
  result_switch-Resumable q_wait_query op status c e asks =
      let op' : ResultOp L = record op { step = q_cont_query } in
      rw e (
        waits-Resumable status (result_begin L N operation_aborted op' c) op' c asks
          (λ _. result_begin-Resumable op' c))

  pub result_resume-Resumable :
      (op : ResultOp L) (ec : ErrorCode) (status : ℕ) (c : MariaConn L)
      → Asks L N status
      → Resumable L N (result_resume L N operation_aborted op ec status c)
  unfolding result_resume finish_result
  result_resume-Resumable op ec status c asks =
      either-Resumable L N (not (op.token == c.conn.cancelation_token)) _ _ tt (
        either-Resumable L N (is_error ec) _ _ tt
          (result_switch-Resumable op.step op status c refl asks))

  pub async_query_result-Resumable :
      (stmt : Bytes) (c : MariaConn L)
      → Resumable L N (async_query_result L N operation_aborted stmt c)
  unfolding async_query_result
  async_query_result-Resumable stmt c =
      let op : ResultOp L = record {
        step = q_entry;
        token = c.conn.cancelation_token;
        stmt = stmt;
        query_result = negsuc 0;
        result = none;
        address = none;
      } in
      either-Resumable L N (not (Service.is_open L c.conn)) _ _ tt
        (result_resume-Resumable op success 0 c (λ moves. absurd (moves refl)))
