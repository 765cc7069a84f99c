-- ===== src/Maria/Reactor/Ownership/OneCall.antt =====
-- `connect_handler` and `query_handler`, the composed operations of one call.
use amy.Prelude.{ℕ, ◌==◌, ◌||◌, ◌≡◌, refl, Bool, true, false, not, arith, if◌then◌else◌}
use amy.Prelude.Int.{negsuc}
use amy.Errors.{ErrorCode, is_error, success}
use amy.Client.{ClientLib, Bytes, OptionData, null}
use amy.Auth.{AuthInfo, Endpoint, copy, connect_args}
use amy.Service
use amy.Service.{Conn}
use amy.Service.Ownership.{IsOwned, SameResults-IsOwned, free_result-IsOwned, open_conn-IsOwned}
use amy.Maria.{
  NonBlocking, MariaConn, Next, invokes, waits, after_call, async_wait_mysql, set_option,
}
use amy.Maria.Connect.{
  ConnectOp, connect_begin, connect_continue, connect_resume, start_connect, async_connect,
}
use amy.Maria.Query.{QueryOp, query_begin, query_continue, query_resume, async_query}

module _ (L : ClientLib) where
  abbrev pub Owned : {S : Type 0} → Next L S → Type 0
  Owned (invokes ec rs c) = IsOwned L c.conn
  Owned (waits w s c) = IsOwned L c.conn

  pub either-Owned :
      {S : Type 0} (b : Bool) (x y : Next L S) → Owned x → Owned y → Owned (if b then x else y)
  either-Owned true x y p q = p
  either-Owned false x y p q = q

  -- The same where each side may use which one it is.
  pub when-Owned :
      {S : Type 0} (b : Bool) (x y : Next L S)
      → (b ≡ true → Owned x)
      → (b ≡ false → Owned y)
      → Owned (if b then x else y)
  when-Owned true x y p q = p refl
  when-Owned false x y p q = q refl

  -- The library's own state is not a result.
  pub mysql-IsOwned : (c : Conn L) (m : L.Handle) → IsOwned L c → IsOwned L (record c { mysql = m })
  mysql-IsOwned c m o = SameResults-IsOwned L {c = c} (refl, refl, refl) o

module _ (L : ClientLib) (N : NonBlocking L) (operation_aborted : ErrorCode) where
  pub after_call-Owned :
      {S : Type 0} (s : S) (status : ℕ) (ec : ErrorCode) (c : MariaConn L)
      → IsOwned L c.conn
      → Owned L (after_call L N s status ec c)
  unfolding after_call async_wait_mysql
  after_call-Owned s status ec c o = either-Owned L (status == 0 || is_error ec) _ _ o o

  query_begin-Owned :
      (op : QueryOp) (c : MariaConn L)
      → IsOwned L c.conn
      → Owned L (query_begin L N operation_aborted op c)
  unfolding query_begin
  query_begin-Owned op c o = after_call-Owned _ _ _ _ (
      SameResults-IsOwned L {c = Service.free_result L c.conn} (refl, refl, refl)
        (free_result-IsOwned L c.conn o))

  pub query_resume-Owned :
      (op : QueryOp) (ec : ErrorCode) (status : ℕ) (c : MariaConn L)
      → IsOwned L c.conn
      → Owned L (query_resume L N operation_aborted op ec status c)
  unfolding query_resume query_continue
  query_resume-Owned op ec status c o =
      either-Owned L (not (op.token == c.conn.cancelation_token)) _ _ o (
        either-Owned L (is_error ec) _ _ o (
          either-Owned L (op.step == 0) _ _ (query_begin-Owned op c o)
            (after_call-Owned _ _ _ _ (mysql-IsOwned L c.conn _ o))))

  pub async_query-Owned :
      (stmt : Bytes) (c : MariaConn L)
      → IsOwned L c.conn
      → Owned L (async_query L N operation_aborted stmt c)
  unfolding async_query
  async_query-Owned stmt c o =
      let op : QueryOp = record {
        step = 0;
        token = c.conn.cancelation_token;
        stmt = stmt;
        result = negsuc 0;
      } in
      either-Owned L (not (Service.is_open L c.conn)) _ _ o (query_resume-Owned op success 0 c o)

module _ (L : ClientLib) (N : NonBlocking L) (operation_aborted : ErrorCode) (nonblock : ℕ) where
  connect_begin-Owned :
      (op : ConnectOp) (c : MariaConn L)
      → IsOwned L c.conn
      → Owned L (connect_begin L N operation_aborted nonblock op c)
  unfolding connect_begin
  connect_begin-Owned op c o =
      after_call-Owned L N operation_aborted _ _ _ _
        (SameResults-IsOwned L {c = c.conn} (refl, refl, refl) o)

  pub connect_resume-Owned :
      (op : ConnectOp) (ec : ErrorCode) (status : ℕ) (c : MariaConn L)
      → IsOwned L c.conn
      → Owned L (connect_resume L N operation_aborted nonblock op ec status c)
  unfolding connect_resume connect_continue
  connect_resume-Owned op ec status c o =
      either-Owned L (not (op.token == c.conn.cancelation_token)) _ _ o (
        either-Owned L (is_error ec) _ _ o (
          either-Owned L (op.step == 0) _ _ (connect_begin-Owned op c o)
            (after_call-Owned L N operation_aborted _ _ _ _ (mysql-IsOwned L c.conn _ o))))

  set_option-IsOwned :
      (option : ℕ) (arg : OptionData) (c : MariaConn L)
      → IsOwned L c.conn
      → IsOwned L (set_option L N option arg c).1.conn
  unfolding set_option
  set_option-IsOwned option arg c o =
      SameResults-IsOwned L {c = c.conn} (ground arith, ground arith, ground arith) o

  start_connect-Owned :
      (endpoint : Endpoint) (auth : AuthInfo) (database : Bytes) (flags : ℕ) (c : MariaConn L)
      → IsOwned L c.conn
      → Owned L (start_connect L N operation_aborted nonblock endpoint auth database flags c)
  unfolding start_connect
  start_connect-Owned endpoint auth database flags c o =
      let (ec, c') = set_option L N nonblock null c in
      let o' = set_option-IsOwned nonblock null c o in
      let op : ConnectOp = record {
        step = 0;
        token = c'.conn.cancelation_token;
        args = connect_args endpoint (copy auth) database flags;
        result = false;
      } in
      either-Owned L (is_error ec) _ _ o' (connect_resume-Owned op ec 0 c' o')

  pub async_connect-Owned :
      (endpoint : Endpoint) (auth : AuthInfo) (database : Bytes) (flags : ℕ) (c : MariaConn L)
      → IsOwned L c.conn
      → Owned L (async_connect L N operation_aborted nonblock endpoint auth database flags c)
  unfolding async_connect
  async_connect-Owned endpoint auth database flags c o =
      let (ec, c') = Service.open_conn L c.conn in
      let o' = open_conn-IsOwned L c.conn o in
      either-Owned L (Service.is_open L c.conn) _ _
        (start_connect-Owned endpoint auth database flags c o)
        (either-Owned L (is_error ec) _ _ o'
          (start_connect-Owned endpoint auth database flags (record c { conn = c' }) o'))
