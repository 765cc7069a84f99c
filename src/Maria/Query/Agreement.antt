-- ===== src/Maria/Query/Agreement.antt =====
-- `query_handler` of include/amy/impl/mariadb_service.ipp against the blocking `query`.
use amy.Prelude.{ℕ, ◌≡◌, ◌<◌, true, false, none, arith, ==_iff}
use amy.Prelude.Int.{ℤ, negsuc}
use amy.Errors.{ErrorCode, success}
use amy.Client.{ClientLib, Bytes}
use amy.Ops.{mysql_real_query}
use amy.Service
use amy.Service.{Conn}
use amy.Maria.{
  MariaConn, after_call, drive, NonBlocking, int_failed, call_error, mysql_start, mysql_continue,
  wrap,
}
use amy.Maria.Chain.{free_result-token, Completes, Ends, set_mysql, drive_call}
use amy.Maria.Query.{QueryOp, query_begin, query_continue, query_resume, async_query}

module _ (L : ClientLib) (N : NonBlocking L) (operation_aborted : ErrorCode) where
  abbrev pub query_op : ℕ → Bytes → ℤ → QueryOp
  query_op token stmt result = record { step = 1; token = token; stmt = stmt; result = result }

  query_continues :
      (token : ℕ) (stmt : Bytes) (result : ℤ) (status : ℕ) (c : MariaConn L)
      → c.conn.cancelation_token ≡ token
      → let (status', r', m') = N.query_cont status result c.conn.mysql in
        query_resume L N operation_aborted (query_op token stmt result) success status c
        ≡ after_call L N
            (query_op token stmt r')
            status'
            (call_error L N status' (int_failed r') m')
            (set_mysql L N m' c)
  unfolding query_resume query_continue mysql_start mysql_continue
  query_continues token stmt result status c fresh =
      ground (arith, ==_iff token c.conn.cancelation_token)

  -- The connection that `query_handler` starts the call on.
  abbrev pub freed : Conn L → Conn L
  freed c = record (Service.free_result L c) { first_result_stored = false }

  pub async_query_begins :
      (stmt : Bytes) (c : MariaConn L)
      → c.conn.initialized ≡ true
      → let (status, r, m) = N.query_start stmt (negsuc 0) (freed c.conn).mysql in
        async_query L N operation_aborted stmt c
        ≡ after_call L N
            (query_op c.conn.cancelation_token stmt r)
            status
            (call_error L N status (int_failed r) m)
            (set_mysql L N m (record c { conn = freed c.conn }))
  unfolding async_query query_resume query_begin mysql_start mysql_continue
  async_query_begins stmt c opened =
      ground (arith, ==_iff c.conn.cancelation_token c.conn.cancelation_token)

  query-wrap :
      (stmt : Bytes) (c : Conn L)
      → c.initialized ≡ true
      → let (v, m) = L.real_query stmt (freed c).mysql in
        Service.query L stmt c ≡ (wrap L N (int_failed v) m success, record (freed c) { mysql = m })
  unfolding Service.query Service.run_query mysql_real_query
  query-wrap stmt c opened = ground arith

  -- On an open connection `async_query` ends with the code of the blocking `query` and the connection
  -- that this leaves, where the client library's suspended call comes to what its blocking call comes
  -- to; fuel above the number of suspensions is enough.
  pub async_query_agrees :
      (stmt : Bytes) (n fuel : ℕ) (c : MariaConn L)
      → c.conn.initialized ≡ true
      → let m = (freed c.conn).mysql in
        let (result, m') = L.real_query stmt m in
        let (status, r, started) = N.query_start stmt (negsuc 0) m in
        Completes L N int_failed N.query_cont result m' n status r started
        → n < fuel
        → let (ec, c') = Service.query L stmt c.conn in
          Ends L N ec none c' (
            drive L N
              (query_resume L N operation_aborted)
              fuel
              (async_query L N operation_aborted stmt c))
  async_query_agrees stmt n fuel c opened completes h =
      let c1 : MariaConn L = record c { conn = freed c.conn } in
      let t = c.conn.cancelation_token in
      let driven =
        drive_call L N (query_resume L N operation_aborted) (query_op t stmt) int_failed
          N.query_cont t (query_continues t stmt) fuel c1 completes (free_result-token L N c.conn)
          h in
      rw (async_query_begins stmt c opened, query-wrap stmt c.conn opened) driven
