-- ===== src/Maria/QueryResult.antt =====
-- `async_query_result` and the composed operation `query_result_handler` of
-- include/amy/impl/mariadb_service.ipp. A `continue` of its loop finds the token and `ec` as they
-- were, so what it goes on with is called at once.
pub mod Calls
pub mod Agreement
use amy.Prelude.{ℕ, ◌==◌, ◌||◌, Bool, true, false, not, Option, none, some, if◌then◌else◌}
use amy.Prelude.Int.{ℤ, negsuc}
use amy.Errors.{ErrorCode, success, is_error, misc_error, not_initialized}
use amy.Client.{ClientLib, Bytes}
use amy.Results.{empty_set}
use amy.Service
use amy.Service.{Conn}
use amy.Maria.{
  NonBlocking, MariaConn, Next, invokes, waits, mysql_start, mysql_continue, async_wait_mysql,
}
use amy.Maria.Ops.{
  mysql_real_query_start, mysql_real_query_cont, mysql_store_result_start, mysql_store_result_cont,
}
use amy.Maria.Store.{finish_conn}

-- The values that `p.step` takes.
pub data ResultStep : Type 0 where
  q_entry q_store_start q_cont_store q_wait_query q_cont_query : ResultStep

-- `query_result_handler::state`, with the result and its address as in `store_result_handler`.
pub record ResultOp (L : ClientLib) : Type 0 where
  pub step : ResultStep
  pub token : ℕ
  pub stmt : Bytes
  pub query_result : ℤ
  pub result : Option L.Res
  pub address : Option ℕ

module _ (L : ClientLib) (N : NonBlocking L) (operation_aborted : ErrorCode) where
  -- What follows the switch, which is written as in `store_result_handler`.
  unfoldable pub finish_result : ResultOp L → ErrorCode → MariaConn L → Next L (ResultOp L)
  unfolding finish_conn
  finish_result op ec c =
      let (rs, ec', c') = finish_conn L N operation_aborted op.address ec c.conn in
      invokes ec' (some rs) (record c { conn = c' })

  -- `async_wait_mysql(status, p, *this)`.
  abbrev pub wait_result : ResultOp L → ℕ → MariaConn L → Next L (ResultOp L)
  wait_result op status c = let (w, c') = async_wait_mysql L N status c in waits w op c'

  -- The end of a call of `mysql_store_result_start` or `mysql_store_result_cont`.
  unfoldable pub after_result :
      ResultOp L → ℕ × ErrorCode × Option L.Res × L.Handle → MariaConn L → Next L (ResultOp L)
  unfolding finish_result
  after_result op (status, ec, r, m) c =
      let done : Option L.Res = if status == 0 then r else none in
      let (p, stored) = Service.allocate L done (record (c.conn) { mysql = m }) in
      let c' : MariaConn L = record c { conn = stored } in
      let op' : ResultOp L = record op { step = q_cont_store; result = r; address = p } in
      if is_error ec || status == 0 then finish_result op' ec c' else wait_result op' status c'

  -- Case S_STORE_START.
  unfoldable pub result_begin : ResultOp L → MariaConn L → Next L (ResultOp L)
  unfolding after_result mysql_start mysql_continue
  result_begin op c =
      let stored : Conn L = record (Service.free_result L c.conn) { first_result_stored = true } in
      after_result op (mysql_store_result_start L N op.result stored.mysql)
        (record c { conn = stored })

  -- The end of a call of `mysql_real_query_start` or `mysql_real_query_cont`.
  unfoldable pub after_statement :
      ResultOp L → ℕ × ErrorCode × ℤ × L.Handle → MariaConn L → Next L (ResultOp L)
  unfolding result_begin finish_result
  after_statement op (status, ec, v, m) c =
      let c' : MariaConn L = record c { conn = record (c.conn) { mysql = m } } in
      let op' : ResultOp L = record op { step = q_cont_query; query_result = v } in
      if is_error ec
      then finish_result op' ec c'
      else if status == 0
      then result_begin op' c'
      else wait_result op' status c'

  -- Case S_ENTRY.
  unfoldable pub result_entry : ResultOp L → MariaConn L → Next L (ResultOp L)
  unfolding after_statement mysql_start mysql_continue
  result_entry op c =
      let freed : Conn L = record (Service.free_result L c.conn) { first_result_stored = false } in
      after_statement op (mysql_real_query_start L N op.stmt op.query_result freed.mysql)
        (record c { conn = freed })

  -- The switch on `p.step`, where `ec` is clear.
  unfoldable pub result_switch : ResultOp L → ℕ → MariaConn L → Next L (ResultOp L)
  unfolding result_entry result_begin after_result after_statement mysql_start mysql_continue
  result_switch op status c = elim op.step [
    | q_entry ↦ result_entry op c
    | q_store_start ↦ result_begin op c
    | q_cont_store ↦ after_result op (mysql_store_result_cont L N status op.result c.conn.mysql) c
    | q_cont_query ↦
        after_statement op (mysql_real_query_cont L N status op.query_result c.conn.mysql) c
    | q_wait_query ↦
        if status == 0
        then result_begin (record op { step = q_cont_query }) c
        else wait_result (record op { step = q_cont_query }) status c
  ]

  -- `query_result_handler::operator()`.
  unfoldable pub result_resume : ResultOp L → ErrorCode → ℕ → MariaConn L → Next L (ResultOp L)
  unfolding result_switch finish_result
  result_resume op ec status c =
      if not (op.token == c.conn.cancelation_token)
      then finish_result op operation_aborted c
      else if is_error ec
      then finish_result op ec c
      else result_switch op status c

  -- `mariadb_service::async_query_result`.
  unfoldable pub async_query_result : Bytes → MariaConn L → Next L (ResultOp L)
  unfolding result_resume
  async_query_result stmt c =
      let op : ResultOp L = record {
        step = q_entry;
        token = c.conn.cancelation_token;
        stmt = stmt;
        query_result = negsuc 0;
        result = none;
        address = none;
      } in
      if not (Service.is_open L c.conn)
      then invokes (misc_error not_initialized) (some empty_set) c
      else result_resume op success 0 c
