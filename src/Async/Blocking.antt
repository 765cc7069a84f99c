-- ===== src/Async/Blocking.antt =====
-- The asynchronous functions against the blocking ones.
use amy.Prelude.{ℕ, ◌≡◌, true, Option, none, some, List, [], ◌∷◌, ◌++◌, arith, ==_iff}
use amy.Errors.{ErrorCode, success}
use amy.Client.{ClientLib, Bytes}
use amy.Auth.{AuthInfo, Endpoint, copy, connect_args-copy}
use amy.Results.{ResultSet}
use amy.Service
use amy.Service.{Conn}
use amy.Async
use amy.Async.{
  System, Completion, async_connect, async_query, async_store_result, stores, run_job, drain,
}

module _ (L : ClientLib) (operation_aborted : ErrorCode) where
  -- The system after one completion and the given connection.
  abbrev pub completes :
      System L → ℕ → ErrorCode → Option ResultSet → Conn L → List Completion × Conn L
  completes s handler ec rs c =
      (s.posted ++ (record { handler = handler; ec = ec; result = rs } ∷ []), c)

  -- With an empty work queue and a service that is not shut down, `async_query` completes with the
  -- code of the blocking `query` and leaves the connection as that does, open or not.
  pub async_query-query :
      (stmt : Bytes) (handler : ℕ) (s : System L)
      → s.work ≡ []
      → s.work_io_service ≡ true
      → let s' = drain L operation_aborted (async_query L operation_aborted stmt handler s) in
        let (ec, c) = Service.query L stmt s.conn in
        (s'.posted, s'.conn) ≡ completes s handler ec none c
  unfolding async_query drain run_job Service.query
  async_query-query stmt handler s idle live =
      ground (arith, ==_iff s.conn.cancelation_token s.conn.cancelation_token)

  -- On an open connection `async_store_result` completes, under the same conditions, with the result
  -- set and the code that the blocking `store_result` gives with a clear `ec`.
  pub async_store_result-store_result :
      (handler : ℕ) (s : System L)
      → s.work ≡ []
      → s.work_io_service ≡ true
      → s.conn.initialized ≡ true
      → let s' = drain L operation_aborted (async_store_result L operation_aborted handler s) in
        let (rs, ec, c) = Service.store_result L success s.conn in
        (s'.posted, s'.conn) ≡ completes s handler ec (some rs) c
  unfolding async_store_result drain run_job Service.store_result
  async_store_result-store_result handler s idle live opened =
      ground (arith, ==_iff s.conn.cancelation_token s.conn.cancelation_token)

  pub perform_stores :
      (c : Conn L)
      → let (rs, ec, c') = Service.store_result L success c in
        Async.perform L operation_aborted stores c ≡ (ec, some rs, c')
  unfolding Async.perform Service.store_result
  perform_stores c = ground arith

  pub connect_open-copy :
      (endpoint : Endpoint) (auth : AuthInfo) (database : Bytes) (flags : ℕ) (c : Conn L)
      → Service.connect_open L endpoint (copy auth) database flags c
        ≡ Service.connect_open L endpoint auth database flags c
  unfolding Service.connect_open
  connect_open-copy endpoint auth database flags c =
      rw (connect_args-copy auth endpoint database flags)

  -- `async_connect` completes, under the same conditions, with the code of the blocking `connect`,
  -- and leaves the connection as that does, also when the connection had to be opened first or could
  -- not be.
  pub async_connect-connect :
      (endpoint : Endpoint) (auth : AuthInfo) (database : Bytes) (flags handler : ℕ) (s : System L)
      → s.work ≡ []
      → s.work_io_service ≡ true
      → let s' =
          drain L operation_aborted
            (async_connect L operation_aborted endpoint auth database flags handler s) in
        let (ec, c) = Service.connect L endpoint auth database flags s.conn in
        (s'.posted, s'.conn) ≡ completes s handler ec none c
  unfolding async_connect drain run_job Service.connect
  async_connect-connect endpoint auth database flags handler s idle live =
      let c = (Service.open_conn L s.conn).1 in
      ground (
        arith,
        ==_iff s.conn.cancelation_token s.conn.cancelation_token,
        ==_iff c.cancelation_token c.cancelation_token,
        connect_open-copy endpoint auth database flags s.conn,
        connect_open-copy endpoint auth database flags c,
      )
