-- ===== src/Maria/Connect.antt =====
-- `async_connect` and the composed operation `connect_handler` of
-- include/amy/impl/mariadb_service.ipp.
pub mod Agreement
use amy.Prelude.{ℕ, Bool, true, false, ◌==◌, not, none, if◌then◌else◌}
use amy.Errors.{ErrorCode, is_error, success}
use amy.Client.{ClientLib, Bytes, ConnectArgs, null}
use amy.Auth.{AuthInfo, Endpoint, copy, connect_args}
use amy.Service
use amy.Service.{Conn}
use amy.Maria.{
  NonBlocking, MariaConn, Next, invokes, mysql_start, mysql_continue, after_call, set_option,
}
use amy.Maria.Ops.{mysql_real_connect_start, mysql_real_connect_cont}

-- `connect_handler::state`: `result` says whether `result_` is set, and `args` is what the endpoint,
-- the copied auth_info, the database and the flags come to as arguments.
pub record ConnectOp : Type 0 where
  pub step : ℕ
  pub token : ℕ
  pub args : ConnectArgs
  pub result : Bool

module _ (L : ClientLib) (N : NonBlocking L) (operation_aborted : ErrorCode) (nonblock : ℕ) where
  -- What follows the call in case 1: `p.step = 1`, and the end or a wait.
  abbrev pub after_connect :
      ConnectOp → ℕ × ErrorCode × Bool × L.Handle → MariaConn L → Next L ConnectOp
  after_connect op (status, ec, result, m) c =
      after_call L N (record op { step = 1; result = result }) status ec
        (record c { conn = record (c.conn) { mysql = m } })

  -- Case 0, which falls through to case 1.
  unfoldable pub connect_begin : ConnectOp → MariaConn L → Next L ConnectOp
  unfolding mysql_start mysql_continue
  connect_begin op c =
      after_connect op (mysql_real_connect_start L N op.args op.result c.conn.mysql)
        (record c { conn = record (c.conn) { flags = op.args.client_flag } })

  -- Case 1 on a call that was started before.
  unfoldable pub connect_continue : ConnectOp → ℕ → MariaConn L → Next L ConnectOp
  unfolding mysql_start mysql_continue
  connect_continue op status c =
      after_connect op (mysql_real_connect_cont L N status op.result c.conn.mysql) c

  -- `connect_handler::operator()`.
  unfoldable pub connect_resume : ConnectOp → ErrorCode → ℕ → MariaConn L → Next L ConnectOp
  unfolding connect_begin connect_continue
  connect_resume op ec status c =
      if not (op.token == c.conn.cancelation_token)
      then invokes operation_aborted none c
      else if is_error ec
      then invokes ec none c
      else if op.step == 0
      then connect_begin op c
      else connect_continue op status c

  -- `async_connect` after the connection was opened. `nonblock` is MYSQL_OPT_NONBLOCK, which
  -- `options::nonblock_default` sets with a null pointer.
  unfoldable pub start_connect : Endpoint → AuthInfo → Bytes → ℕ → MariaConn L → Next L ConnectOp
  unfolding connect_resume
  start_connect endpoint auth database flags c =
      let (ec, c') = set_option L N nonblock null c in
      let op : ConnectOp = record {
        step = 0;
        token = c'.conn.cancelation_token;
        args = connect_args endpoint (copy auth) database flags;
        result = false;
      } in
      if is_error ec then invokes ec none c' else connect_resume op ec 0 c'

  -- `mariadb_service::async_connect`.
  unfoldable pub async_connect : Endpoint → AuthInfo → Bytes → ℕ → MariaConn L → Next L ConnectOp
  unfolding start_connect
  async_connect endpoint auth database flags c =
      let (ec, c') = Service.open_conn L c.conn in
      if Service.is_open L c.conn
      then start_connect endpoint auth database flags c
      else if is_error ec
      then invokes ec none (record c { conn = c' })
      else start_connect endpoint auth database flags (record c { conn = c' })
