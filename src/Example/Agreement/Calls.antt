-- ===== src/Example/Agreement/Calls.antt =====
-- The calls of the programs that connect and send a statement: the blocking ones as what the service
-- does on an open connection, and the asynchronous ones as the task that is queued.
use amy.Prelude.{ℕ, ◌≡◌, refl, ap, true, false, none, [], ◌∷◌, arith}
use amy.Errors.{ErrorCode, is_error}
use amy.Client.{ClientLib, Bytes}
use amy.Auth.{copy}
use amy.Ops.{mysql_init}
use amy.Service
use amy.Service.{Conn}
use amy.Async
use amy.Async.{System, queries, connects, async_connect}
use amy.Async.Blocking.{connect_open-copy}
use amy.Connector
use amy.Example.Blocking.{Options}
use amy.Example.Async.{start, connecting, handle_connect}
use amy.Example.Async.Steps.{running}

module _ (L : ClientLib) (operation_aborted : ErrorCode) (opts : Options) (stmt : Bytes)
    (flags : ℕ) where
  pub query_open :
      (c : Conn L)
      → c.initialized ≡ true
      → Connector.query L stmt c ≡ Connector.throwing L (Service.run_query L stmt c)
  unfolding Connector.query Service.query
  query_open c opened = ap (Connector.throwing L) (ground arith)

  pub perform_queries :
      (c : Conn L)
      → Async.perform L operation_aborted (queries stmt) c
        ≡ ((Service.run_query L stmt c).0, none, (Service.run_query L stmt c).1)
  unfolding Async.perform
  perform_queries c = refl

  abbrev pub opened_connect : Conn L → ErrorCode × Conn L
  opened_connect = Service.connect_open L opts.tcp_endpoint opts.auth_info opts.schema flags

  -- The task of `async_connect`.
  abbrev pub connecting_task : Async.Task
  connecting_task = connects opts.tcp_endpoint (copy opts.auth_info) opts.schema flags

  pub perform_connects :
      (c : Conn L)
      → Async.perform L operation_aborted connecting_task c
        ≡ ((opened_connect c).0, none, (opened_connect c).1)
  unfolding Async.perform
  perform_connects c =
      ap (λ x. (x.0, none, x.1))
        (connect_open-copy L operation_aborted opts.tcp_endpoint opts.auth_info opts.schema flags c)

  pub connect_open-keeps :
      (c : Conn L)
      → ((opened_connect c).1.initialized ≡ c.initialized) × ((opened_connect c).1.flags ≡ flags)
  unfolding Service.connect_open
  connect_open-keeps c = (refl, refl)

  -- A clear code of `open_conn` comes with an open connection.
  pub open_conn-opens :
      (c : Conn L)
      → is_error (Service.open_conn L c).0 ≡ false
      → (Service.open_conn L c).1.initialized ≡ true
  unfolding Service.open_conn mysql_init
  open_conn-opens c clean = ground arith

  -- `async_connect` on a connection that is not open.
  pub connecting-failed :
      (c : Conn L)
      → c.initialized ≡ false
      → let (ec, c') = Service.open_conn L c in
        is_error ec ≡ true
        → connecting L operation_aborted opts stmt flags c ≡ record (start L operation_aborted c') {
          posted = record { handler = handle_connect; ec = ec; result = none } ∷ [];
        }
  unfolding async_connect
  connecting-failed c closed e = ground arith

  pub connecting-opened :
      (c : Conn L)
      → c.initialized ≡ false
      → let (ec, c') = Service.open_conn L c in
        is_error ec ≡ false
        → connecting L operation_aborted opts stmt flags c
          ≡ running L operation_aborted handle_connect connecting_task c'
  unfolding async_connect
  connecting-opened c closed clean = ground arith

  pub connect_failed :
      (c : Conn L)
      → c.initialized ≡ false
      → is_error (Service.open_conn L c).0 ≡ true
      → Connector.connect L opts.tcp_endpoint opts.auth_info opts.schema flags c
        ≡ Connector.throwing L (Service.open_conn L c)
  unfolding Connector.connect Service.connect
  connect_failed c closed e = ap (Connector.throwing L) (ground arith)

  pub connect_opened :
      (c : Conn L)
      → c.initialized ≡ false
      → is_error (Service.open_conn L c).0 ≡ false
      → Connector.connect L opts.tcp_endpoint opts.auth_info opts.schema flags c
        ≡ Connector.throwing L (opened_connect (Service.open_conn L c).1)
  unfolding Connector.connect Service.connect
  connect_opened c closed clean = ap (Connector.throwing L) (ground arith)

  -- The statement leaves an open connection with the same flags, and no result stored.
  pub run_query-keeps :
      (c : Conn L)
      → let c' = (Service.run_query L stmt c).1 in
        (c'.initialized ≡ c.initialized) × (c'.flags ≡ c.flags) × (c'.first_result_stored ≡ false)
  unfolding Service.run_query
  run_query-keeps c = ground arith
