-- ===== src/Maria/Reactor/Asks.antt =====
-- The composed operations of include/amy/impl/mariadb_service.ipp where the client library, whenever it
-- suspends a call, asks for an event that `async_wait_mysql` knows.
pub mod Results
use amy.Prelude.{
  ℕ, zero, suc, ◌≡◌, ◌≢◌, ◌==◌, ◌||◌, refl, Bool, true, false, not, Option, if◌then◌else◌, arith,
  inl, inr, Bool-cases,
}
use amy.Prelude.Int.{ℤ, negsuc}
use amy.Errors.{ErrorCode, is_error, success}
use amy.Client.{ClientLib, Bytes, ConnectArgs, null}
use amy.Auth.{AuthInfo, Endpoint, copy, connect_args}
use amy.Service
use amy.Service.{Conn}
use amy.Maria.{
  NonBlocking, MariaConn, Wait, nothing, read, write, timeout, Next, invokes, waits, after_call,
  async_wait_mysql, has, wait_for, event_status, mysql_start, mysql_continue, set_option,
}
use amy.Maria.Connect.{
  ConnectOp, connect_begin, connect_continue, connect_resume, start_connect, async_connect,
}
use amy.Maria.Query.{QueryOp, query_begin, query_continue, query_resume, async_query}

module _ (L : ClientLib) (N : NonBlocking L) where
  -- The status 0 of a call that is not suspended, or one with the bit of an event.
  abbrev pub Asks : ℕ → Type 0
  Asks status =
      status ≢ 0
      → (has L N status N.wait_read || has L N status N.wait_write || has L N status N.wait_timeout)
        ≡ true

  -- A suspended call asks for a read, a write or a timeout, as do the constants themselves.
  pub record AsksEvents : Type 0 where
    pub reads : Asks N.wait_read
    pub writes : Asks N.wait_write
    pub times : Asks N.wait_timeout
    pub connect : (args : ConnectArgs) (r : Bool) (m : L.Handle) → Asks (N.connect_start args r m).0
    pub connect_more : (s : ℕ) (r : Bool) (m : L.Handle) → Asks (N.connect_cont s r m).0
    pub query : (stmt : Bytes) (r : ℤ) (m : L.Handle) → Asks (N.query_start stmt r m).0
    pub query_more : (s : ℕ) (r : ℤ) (m : L.Handle) → Asks (N.query_cont s r m).0
    pub store : (r : Option L.Res) (m : L.Handle) → Asks (N.store_start r m).0
    pub store_more : (s : ℕ) (r : Option L.Res) (m : L.Handle) → Asks (N.store_cont s r m).0
    pub next : (r : ℤ) (m : L.Handle) → Asks (N.next_start r m).0
    pub next_more : (s : ℕ) (r : ℤ) (m : L.Handle) → Asks (N.next_cont s r m).0

  -- The operation calls its handler, or waits for an event.
  abbrev pub Resumable : {S : Type 0} → Next L S → Type 0
  Resumable (invokes ec rs c) = Unit
  Resumable (waits w s c) = w ≢ nothing

  pub either-Resumable :
      {S : Type 0} (b : Bool) (x y : Next L S)
      → Resumable x
      → Resumable y
      → Resumable (if b then x else y)
  either-Resumable true x y p q = p
  either-Resumable false x y p q = q

  pub wait_for-Asks : (status : ℕ) → status ≢ 0 → Asks status → wait_for L N status ≢ nothing
  unfolding wait_for
  wait_for-Asks status moves asks = ground (arith, asks moves)

  -- What `async_wait_mysql` hands to the operation when an event has happened.
  pub event_status-Asks : (w : Wait) → AsksEvents → Asks (event_status L N w)
  event_status-Asks read events = events.reads
  event_status-Asks write events = events.writes
  event_status-Asks timeout events = events.times
  event_status-Asks nothing events = λ moves. absurd (moves refl)

  pub after_call-Resumable :
      {S : Type 0} (s : S) (status : ℕ) (ec : ErrorCode) (c : MariaConn L)
      → Asks status
      → Resumable (after_call L N s status ec c)
  unfolding after_call async_wait_mysql
  after_call-Resumable s zero ec c asks = tt
  after_call-Resumable s (suc status) ec c asks =
      let moves : (suc status == 0) ≡ false = ground arith in
      rw moves
        (either-Resumable (is_error ec) _ _ tt (wait_for-Asks (suc status) (omega arith) asks))

module _ (L : ClientLib) (N : NonBlocking L) (operation_aborted : ErrorCode)
    (events : AsksEvents L N) where
  query_begin-Resumable :
      (op : QueryOp) (c : MariaConn L) → Resumable L N (query_begin L N operation_aborted op c)
  unfolding query_begin mysql_start mysql_continue
  query_begin-Resumable op c =
      after_call-Resumable L N _ _ _ _
        (events.query op.stmt op.result (Service.free_result L c.conn).mysql)

  pub query_resume-Resumable :
      (op : QueryOp) (ec : ErrorCode) (status : ℕ) (c : MariaConn L)
      → Resumable L N (query_resume L N operation_aborted op ec status c)
  unfolding query_resume query_continue mysql_start mysql_continue
  query_resume-Resumable op ec status c =
      either-Resumable L N (not (op.token == c.conn.cancelation_token)) _ _ tt (
        either-Resumable L N (is_error ec) _ _ tt (
          either-Resumable L N (op.step == 0) _ _ (query_begin-Resumable op c)
            (after_call-Resumable L N _ _ _ _ (events.query_more status op.result c.conn.mysql))))

  pub async_query-Resumable :
      (stmt : Bytes) (c : MariaConn L) → Resumable L N (async_query L N operation_aborted stmt c)
  unfolding async_query
  async_query-Resumable stmt c =
      let op : QueryOp = record {
        step = 0;
        token = c.conn.cancelation_token;
        stmt = stmt;
        result = negsuc 0;
      } in
      either-Resumable L N (not (Service.is_open L c.conn)) _ _ tt
        (query_resume-Resumable op success 0 c)

module _ (L : ClientLib) (N : NonBlocking L) (operation_aborted : ErrorCode) (nonblock : ℕ)
    (events : AsksEvents L N) where
  connect_begin-Resumable :
      (op : ConnectOp) (c : MariaConn L)
      → Resumable L N (connect_begin L N operation_aborted nonblock op c)
  unfolding connect_begin mysql_start mysql_continue
  connect_begin-Resumable op c =
      after_call-Resumable L N _ _ _ _ (events.connect op.args op.result c.conn.mysql)

  pub connect_resume-Resumable :
      (op : ConnectOp) (ec : ErrorCode) (status : ℕ) (c : MariaConn L)
      → Resumable L N (connect_resume L N operation_aborted nonblock op ec status c)
  unfolding connect_resume connect_continue mysql_start mysql_continue
  connect_resume-Resumable op ec status c =
      either-Resumable L N (not (op.token == c.conn.cancelation_token)) _ _ tt (
        either-Resumable L N (is_error ec) _ _ tt (
          either-Resumable L N (op.step == 0) _ _ (connect_begin-Resumable op c)
            (after_call-Resumable L N _ _ _ _ (events.connect_more status op.result c.conn.mysql))))

  start_connect-Resumable :
      (endpoint : Endpoint) (auth : AuthInfo) (database : Bytes) (flags : ℕ) (c : MariaConn L)
      → Resumable L N (start_connect L N operation_aborted nonblock endpoint auth database flags c)
  unfolding start_connect
  start_connect-Resumable endpoint auth database flags c =
      let (ec, c') = set_option L N nonblock null c in
      let op : ConnectOp = record {
        step = 0;
        token = c'.conn.cancelation_token;
        args = connect_args endpoint (copy auth) database flags;
        result = false;
      } in
      either-Resumable L N (is_error ec) _ _ tt (connect_resume-Resumable op ec 0 c')

  pub async_connect-Resumable :
      (endpoint : Endpoint) (auth : AuthInfo) (database : Bytes) (flags : ℕ) (c : MariaConn L)
      → Resumable L N (async_connect L N operation_aborted nonblock endpoint auth database flags c)
  unfolding async_connect
  async_connect-Resumable endpoint auth database flags c =
      let (ec, c') = Service.open_conn L c.conn in
      either-Resumable L N (Service.is_open L c.conn) _ _
        (start_connect-Resumable endpoint auth database flags c)
        (either-Resumable L N (is_error ec) _ _ tt
          (start_connect-Resumable endpoint auth database flags (record c { conn = c' })))
