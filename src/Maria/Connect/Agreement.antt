-- ===== src/Maria/Connect/Agreement.antt =====
-- `connect_handler` of include/amy/impl/mariadb_service.ipp against the blocking `connect`.
use amy.Prelude.{
  ℕ, ◌≡◌, ◌≢◌, ◌<◌, refl, Bool, true, false, not, none, arith, ==_iff, Bool-cases, inl, inr, ap,
  ◌∙◌,
}
use amy.Errors.{ErrorCode, success}
use amy.Client.{ClientLib, Bytes, ConnectArgs, null}
use amy.Auth.{AuthInfo, Endpoint, connect_args, connect_args-copy}
use amy.Ops.{mysql_init, mysql_real_connect}
use amy.Service
use amy.Service.{Conn}
use amy.Maria.{
  MariaConn, invokes, after_call, drive, NonBlocking, call_error, mysql_start, mysql_continue,
  set_option, wrap,
}
use amy.Maria.Chain.{
  Completes, Completes-clean, Ends, suspends, set_mysql, after_call_waits, after_call_done,
  call_error_done, drive_call,
}
use amy.Maria.Connect.{
  ConnectOp, connect_begin, connect_continue, connect_resume, start_connect, async_connect,
}

module _ (L : ClientLib) (N : NonBlocking L) (operation_aborted : ErrorCode) (nonblock : ℕ) where
  abbrev connect_op : ℕ → ConnectArgs → Bool → ConnectOp
  connect_op token args result = record { step = 1; token = token; args = args; result = result }

  connect_continues :
      (token : ℕ) (args : ConnectArgs) (result : Bool) (status : ℕ) (c : MariaConn L)
      → c.conn.cancelation_token ≡ token
      → let (status', r', m') = N.connect_cont status result c.conn.mysql in
        connect_resume L N operation_aborted nonblock
          (connect_op token args result)
          success
          status
          c
        ≡ after_call L N
            (connect_op token args r')
            status'
            (call_error L N status' (not r') m')
            (set_mysql L N m' c)
  unfolding connect_resume connect_continue mysql_start mysql_continue
  connect_continues token args result status c fresh =
      ground (arith, ==_iff token c.conn.cancelation_token)

  -- The connection that `connect_handler` starts the call on, but for the flags: opened, and with
  -- the option set.
  abbrev pub prepared : Conn L → Conn L
  prepared c = (Service.set_option L nonblock null (Service.open_conn L c).1).1

  open_conn_opens :
      (c : Conn L)
      → (Service.open_conn L c).0 ≡ success
      → (Service.open_conn L c).1.initialized ≡ true
  unfolding Service.open_conn mysql_init
  open_conn_opens c h = ground arith

  set_option_keeps :
      (c : Conn L)
      → ((Service.set_option L nonblock null c).1.cancelation_token ≡ c.cancelation_token)
        × ((Service.set_option L nonblock null c).1.initialized ≡ c.initialized)
  unfolding Service.set_option
  set_option_keeps c = (refl, refl)

  open_conn_kept : (c : Conn L) → c.initialized ≡ true → (Service.open_conn L c).1 ≡ c
  unfolding Service.open_conn
  open_conn_kept c h = ground arith

  async_connect-start_connect :
      (endpoint : Endpoint) (auth : AuthInfo) (database : Bytes) (flags : ℕ) (c : MariaConn L)
      → (Service.open_conn L c.conn).0 ≡ success
      → async_connect L N operation_aborted nonblock endpoint auth database flags c
        ≡ start_connect L N operation_aborted nonblock endpoint auth database flags
            (record c { conn = (Service.open_conn L c.conn).1 })
  unfolding async_connect
  async_connect-start_connect endpoint auth database flags c h =
      elim (Bool-cases c.conn.initialized) [
        | inl o ↦ ground (arith, open_conn_kept c.conn o)
        | inr o ↦ ground arith
      ]

  start_connect_begins :
      (endpoint : Endpoint) (auth : AuthInfo) (database : Bytes) (flags : ℕ) (c : MariaConn L)
      → c.conn.initialized ≡ true
      → (Service.set_option L nonblock null c.conn).0 ≡ success
      → let args = connect_args endpoint auth database flags in
        let c1 : Conn L = (Service.set_option L nonblock null c.conn).1 in
        let (status, r, m) = N.connect_start args false c1.mysql in
        start_connect L N operation_aborted nonblock endpoint auth database flags c
        ≡ after_call L N
            (connect_op c.conn.cancelation_token args r)
            status
            (call_error L N status (not r) m)
            (set_mysql L N m (record c { conn = record c1 { flags = args.client_flag } }))
  unfolding start_connect connect_resume connect_begin mysql_start mysql_continue set_option
      Service.set_option
  start_connect_begins endpoint auth database flags c opened accepted = ground (
    arith,
    connect_args-copy auth endpoint database flags,
    ==_iff c.conn.cancelation_token c.conn.cancelation_token,
  )

  connect-wrap :
      (endpoint : Endpoint) (auth : AuthInfo) (database : Bytes) (flags : ℕ) (c : Conn L)
      → c.initialized ≡ true
      → let args = connect_args endpoint auth database flags in
        let (v, m) = L.real_connect args c.mysql in
        Service.connect L endpoint auth database flags c
        ≡ (wrap L N (not v) m success, record c { mysql = m; flags = flags })
  unfolding Service.connect Service.connect_open mysql_real_connect
  connect-wrap endpoint auth database flags c opened = ground arith

  pub prepared-opens :
      (c : Conn L) → (Service.open_conn L c).0 ≡ success → (prepared c).initialized ≡ true
  prepared-opens c opens = (set_option_keeps (Service.open_conn L c).1).1 ∙ open_conn_opens c opens

  -- Where the client library's call is suspended, `async_connect` returns before it is done.
  pub async_connect-suspends :
      (endpoint : Endpoint) (auth : AuthInfo) (database : Bytes) (flags n : ℕ) (c : MariaConn L)
      → (Service.open_conn L c.conn).0 ≡ success
      → (Service.set_option L nonblock null (Service.open_conn L c.conn).1).0 ≡ success
      → let args = connect_args endpoint auth database flags in
        let m = (prepared c.conn).mysql in
        let (connected, m') = L.real_connect args m in
        let (status, r, started) = N.connect_start args false m in
        Completes L N not N.connect_cont connected m' n status r started
        → status ≢ 0
        → suspends (async_connect L N operation_aborted nonblock endpoint auth database flags c)
          ≡ true
  unfolding connect_args
  async_connect-suspends endpoint auth database flags n c opens accepts completes waiting =
      let args = connect_args endpoint auth database flags in
      let c0 : MariaConn L = record c { conn = (Service.open_conn L c.conn).1 } in
      let c1 : Conn L = record (prepared c.conn) { flags = args.client_flag } in
      let (status, r, m) = N.connect_start args false (prepared c.conn).mysql in
      rw
        (
          async_connect-start_connect endpoint auth database flags c opens,
          start_connect_begins endpoint auth database flags c0 (open_conn_opens c.conn opens)
              accepts,
          after_call_waits L N (connect_op c0.conn.cancelation_token args r) status
              (call_error L N status (not r) m) (set_mysql L N m (record c0 { conn = c1 })) waiting
              (Completes-clean L N completes waiting),
        )
        refl

  -- Where the client library's call is done at once, `async_connect` calls its handler itself.
  pub async_connect_done :
      (endpoint : Endpoint) (auth : AuthInfo) (database : Bytes) (flags : ℕ) (connected : Bool)
      (m' : L.Handle) (c : MariaConn L)
      → (Service.open_conn L c.conn).0 ≡ success
      → (Service.set_option L nonblock null (Service.open_conn L c.conn).1).0 ≡ success
      → N.connect_start (connect_args endpoint auth database flags) false (prepared c.conn).mysql
        ≡ (0, connected, m')
      → async_connect L N operation_aborted nonblock endpoint auth database flags c
        ≡ invokes
            (wrap L N (not connected) m' success)
            none
            (record c { conn = record (prepared c.conn) { mysql = m'; flags = flags } })
  unfolding connect_args
  async_connect_done endpoint auth database flags connected m' c opens accepts done =
      let args = connect_args endpoint auth database flags in
      let c0 : MariaConn L = record c { conn = (Service.open_conn L c.conn).1 } in
      let c1 : MariaConn L = record c0 { conn = record (prepared c.conn) { flags = flags } } in
      async_connect-start_connect endpoint auth database flags c opens
      ∙ start_connect_begins endpoint auth database flags c0 (open_conn_opens c.conn opens) accepts
      ∙ rw done (
          ap
            (λ ec.
              after_call L N (connect_op c0.conn.cancelation_token args connected) 0 ec
                (set_mysql L N m' c1))
            (call_error_done L N 0 (not connected) m' refl)
          ∙ after_call_done L N (connect_op c0.conn.cancelation_token args connected) 0
              (wrap L N (not connected) m' success) (set_mysql L N m' c1) refl)

  -- `async_connect` ends with the code of the blocking `connect` and the connection that this leaves,
  -- on the connection that it has opened where need be and set to be non-blocking, provided that both
  -- of these succeed and that the client library's suspended call comes to what its blocking call
  -- comes to; fuel above the number of suspensions is enough.
  pub async_connect_agrees :
      (endpoint : Endpoint) (auth : AuthInfo) (database : Bytes) (flags n fuel : ℕ)
      (c : MariaConn L)
      → (Service.open_conn L c.conn).0 ≡ success
      → (Service.set_option L nonblock null (Service.open_conn L c.conn).1).0 ≡ success
      → let args = connect_args endpoint auth database flags in
        let m = (prepared c.conn).mysql in
        let (connected, m') = L.real_connect args m in
        let (status, r, started) = N.connect_start args false m in
        Completes L N not N.connect_cont connected m' n status r started
        → n < fuel
        → let (ec, c') = Service.connect L endpoint auth database flags (prepared c.conn) in
          Ends L N ec none c' (
            drive L N
              (connect_resume L N operation_aborted nonblock)
              fuel
              (async_connect L N operation_aborted nonblock endpoint auth database flags c))
  unfolding connect_args
  async_connect_agrees endpoint auth database flags n fuel c opens accepts completes h =
      let args = connect_args endpoint auth database flags in
      let c0 : MariaConn L = record c { conn = (Service.open_conn L c.conn).1 } in
      let c1 : Conn L = record (prepared c.conn) { flags = args.client_flag } in
      let t = c0.conn.cancelation_token in
      let opened = open_conn_opens c.conn opens in
      let driven =
        drive_call L N (connect_resume L N operation_aborted nonblock) (connect_op t args) not
          N.connect_cont t (connect_continues t args) fuel (record c0 { conn = c1 }) completes
          (set_option_keeps c0.conn).0 h in
      rw
        (
          async_connect-start_connect endpoint auth database flags c opens,
          start_connect_begins endpoint auth database flags c0 opened accepts,
          connect-wrap endpoint auth database flags (prepared c.conn)
              ((set_option_keeps c0.conn).1 ∙ opened),
        )
        driven
