-- ===== src/Maria/Store.antt =====
-- `async_store_result` and the composed operation `store_result_handler` of
-- include/amy/impl/mariadb_service.ipp. A `continue` of its loop finds the token and `ec` as they
-- were, so what it goes on with is called at once.
pub mod Calls
pub mod Agreement
pub mod NextResult
use amy.Prelude.{ℕ, ◌==◌, ◌||◌, Bool, true, false, not, Option, none, some, if◌then◌else◌}
use amy.Prelude.Int.{ℤ, negsuc}
use amy.Errors.{ErrorCode, success, is_error, misc_error, not_initialized, no_more_results}
use amy.Client.{ClientLib}
use amy.Results.{ResultSet, empty_set}
use amy.Service
use amy.Service.{Conn}
use amy.Maria.{
  NonBlocking, MariaConn, Next, invokes, waits, mysql_start, mysql_continue, async_wait_mysql,
  int_failed, option_failed,
}
use amy.Maria.Ops.{
  mysql_store_result_start, mysql_store_result_cont, mysql_next_result_start,
  mysql_next_result_cont,
}

-- The values that `p.step` takes.
pub data StoreStep : Type 0 where
  s_entry s_cont_store s_store_start s_cont_next s_wait_next : StoreStep

-- `store_result_handler::state`: `result` is what the library has written to `p.result_`, and
-- `address` where it is, once the call that allocates it has ended.
pub record StoreOp (L : ClientLib) : Type 0 where
  pub step : StoreStep
  pub token : ℕ
  pub next_result : ℤ
  pub result : Option L.Res
  pub address : Option ℕ

module _ (L : ClientLib) (N : NonBlocking L) (operation_aborted : ErrorCode) where
  -- What follows the switch, on the connection: the result set and the code for the user's handler.
  unfoldable pub finish_conn : Option ℕ → ErrorCode → Conn L → ResultSet × ErrorCode × Conn L
  finish_conn p ec c =
      if is_error ec
      then (empty_set, ec, c)
      else Service.assign_last L ec (Service.reset_result L p c)

  unfoldable pub finish : StoreOp L → ErrorCode → MariaConn L → Next L (StoreOp L)
  unfolding finish_conn
  finish op ec c =
      let (rs, ec', c') = finish_conn op.address ec c.conn in
      invokes ec' (some rs) (record c { conn = c' })

  -- `async_wait_mysql(status, p, *this)`.
  abbrev pub wait : StoreOp L → ℕ → MariaConn L → Next L (StoreOp L)
  wait op status c = let (w, c') = async_wait_mysql L N status c in waits w op c'

  -- The end of a call of `mysql_store_result_start` or `mysql_store_result_cont`: the library has
  -- allocated the result of a call that is not suspended.
  unfoldable pub after_store :
      StoreOp L → ℕ × ErrorCode × Option L.Res × L.Handle → MariaConn L → Next L (StoreOp L)
  unfolding finish
  after_store op (status, ec, r, m) c =
      let done : Option L.Res = if status == 0 then r else none in
      let (p, stored) = Service.allocate L done (record (c.conn) { mysql = m }) in
      let c' : MariaConn L = record c { conn = stored } in
      let op' : StoreOp L = record op { step = s_cont_store; result = r; address = p } in
      if is_error ec || status == 0 then finish op' ec c' else wait op' status c'

  -- Case S_STORE_START.
  unfoldable pub store_begin : StoreOp L → MariaConn L → Next L (StoreOp L)
  unfolding after_store mysql_start mysql_continue
  store_begin op c =
      let freed : Conn L = Service.free_result L c.conn in
      after_store op (mysql_store_result_start L N op.result freed.mysql)
        (record c { conn = freed })

  -- The end of a call of `mysql_next_result_start` or `mysql_next_result_cont`.
  unfoldable pub after_next :
      StoreOp L → ℕ × ErrorCode × ℤ × L.Handle → MariaConn L → Next L (StoreOp L)
  unfolding store_begin finish
  after_next op (status, ec, r, m) c =
      let c' : MariaConn L = record c { conn = record (c.conn) { mysql = m } } in
      let op' : StoreOp L = record op { step = s_cont_next; next_result = r } in
      if is_error ec
      then finish op' ec c'
      else if status == 0
      then store_begin op' c'
      else wait op' status c'

  -- Case S_ENTRY.
  unfoldable pub store_entry : StoreOp L → MariaConn L → Next L (StoreOp L)
  unfolding after_next store_begin mysql_start mysql_continue finish
  store_entry op c =
      let freed : Conn L = Service.free_result L c.conn in
      if not c.conn.first_result_stored
      then store_begin op (record c { conn = record (c.conn) { first_result_stored = true } })
      else if Service.has_more_results L freed
      then after_next op (mysql_next_result_start L N op.next_result freed.mysql)
          (record c { conn = freed })
      else finish op (misc_error no_more_results) (record c { conn = freed })

  -- The switch on `p.step`, where `ec` is clear.
  unfoldable pub store_switch : StoreOp L → ℕ → MariaConn L → Next L (StoreOp L)
  unfolding store_entry store_begin after_store after_next mysql_start mysql_continue
  store_switch op status c = elim op.step [
    | s_entry ↦ store_entry op c
    | s_store_start ↦ store_begin op c
    | s_cont_store ↦ after_store op (mysql_store_result_cont L N status op.result c.conn.mysql) c
    | s_cont_next ↦ after_next op (mysql_next_result_cont L N status op.next_result c.conn.mysql) c
    | s_wait_next ↦
        if status == 0
        then store_begin (record op { step = s_cont_next }) c
        else wait (record op { step = s_cont_next }) status c
  ]

  -- `store_result_handler::operator()`.
  unfoldable pub store_resume : StoreOp L → ErrorCode → ℕ → MariaConn L → Next L (StoreOp L)
  unfolding store_switch finish
  store_resume op ec status c =
      if not (op.token == c.conn.cancelation_token)
      then finish op operation_aborted c
      else if is_error ec
      then finish op ec c
      else store_switch op status c

  -- `mariadb_service::async_store_result`.
  unfoldable pub async_store_result : MariaConn L → Next L (StoreOp L)
  unfolding store_resume
  async_store_result c =
      let op : StoreOp L = record {
        step = s_entry;
        token = c.conn.cancelation_token;
        next_result = negsuc 0;
        result = none;
        address = none;
      } in
      if not (Service.is_open L c.conn)
      then invokes (misc_error not_initialized) (some empty_set) c
      else store_resume op success 0 c
