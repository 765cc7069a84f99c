-- ===== src/Example/Maria/Uncaught.antt =====
-- The exceptions that `main` of the programs over mariadb_service does not catch:
-- `async_connect` stands before the `try` that holds `io_service.run()`, and may call its
-- handler itself.
use amy.Prelude.{ℕ, suc, ◌≡◌, ◌≢◌, refl, false, true, none, some, [], arith}
use amy.Errors.{ErrorCode, success, is_error, client_error, is_error-client_error}
use amy.Client.{ClientLib, Bytes, null}
use amy.Auth.{connect_args}
use amy.Service
use amy.Service.{Conn}
use amy.Maria.{NonBlocking, MariaConn, set_option}
use amy.Maria.Connect.{async_connect}
use amy.Maria.Connect.Agreement.{prepared, prepared-opens, async_connect_done}
use amy.Example.{uncaught, failed, without_text, Ran}
use amy.Example.Agreement.{try_failed}
use amy.Connector
use amy.Ops.{mysql_real_connect}
use amy.Example.Blocking.{Options, connect_query, blocking_multi_query}
use amy.Example.Async.{handle_connect}
use amy.Example.Maria.{
  Handlers, connect_posts, main, lift, multi_handlers, mariadb_async_multi_query,
}
use amy.Example.Maria.Steps.{run, run-invokes}
use amy.Maria.Reactor.{connecting}
use amy.Example.Maria.Start.{StartsWith}
use amy.Example.Maria.Multi.Shown.{multi_starts}

module _ (L : ClientLib) (N : NonBlocking L) (operation_aborted : ErrorCode) (nonblock : ℕ)
    (opts : Options) where
  connect_posts_not :
      (c : MariaConn L)
      → (Service.open_conn L c.conn).0 ≡ success
      → (Service.set_option L nonblock null (Service.open_conn L c.conn).1).0 ≡ success
      → connect_posts L N operation_aborted nonblock c ≡ false
  unfolding connect_posts set_option Service.set_option Service.open_conn
  connect_posts_not c opens accepts = ground arith

  -- The connection that the failed call leaves.
  abbrev pub refused : ℕ → L.Handle → Conn L → Conn L
  refused flags m c = record (prepared L N operation_aborted nonblock c) {
    mysql = m;
    flags = flags;
  }

  main-run :
      (stmt : Bytes) (handlers : Handlers L) (flags fuel : ℕ) (c : MariaConn L)
      → main L N operation_aborted nonblock opts stmt handlers flags fuel c
        ≡ run L N operation_aborted nonblock handlers fuel
            (connect_posts L N operation_aborted nonblock c)
            handle_connect
            (lift connecting (
              async_connect L N operation_aborted nonblock opts.tcp_endpoint opts.auth_info
                opts.schema flags c))
  unfolding main
  main-run stmt handlers flags fuel c = refl

  main_uncaught :
      (stmt : Bytes) (handlers : Handlers L)
      → StartsWith L N operation_aborted nonblock stmt handlers
      → (flags fuel : ℕ) (m' : L.Handle) (c : MariaConn L)
      → (Service.open_conn L c.conn).0 ≡ success
      → (Service.set_option L nonblock null (Service.open_conn L c.conn).1).0 ≡ success
      → N.connect_start
          (connect_args opts.tcp_endpoint opts.auth_info opts.schema flags)
          false
          (prepared L N operation_aborted nonblock c.conn).mysql
        ≡ (0, false, m')
      → L.errno m' ≢ 0
      → main L N operation_aborted nonblock opts stmt handlers flags (suc fuel) c
        ≡ some ([], uncaught, refused flags m' c.conn)
  main_uncaught stmt handlers starting flags fuel m' c opens accepts done fails =
      let ec = client_error (L.errno m') in
      let c' : MariaConn L = record c { conn = refused flags m' c.conn } in
      let bad : is_error ec ≡ true = ground (arith, is_error-client_error (L.errno m')) in
      rw
        (
          main-run stmt handlers flags (suc fuel) c,
          async_connect_done L N operation_aborted nonblock opts.tcp_endpoint opts.auth_info
              opts.schema flags false m' c opens accepts done,
          connect_posts_not c opens accepts,
          run-invokes L N operation_aborted nonblock handlers fuel false handle_connect ec none c',
          starting.fails handle_connect ec none c' bad,
        )
        refl

  connect_fails :
      (flags : ℕ) (m' : L.Handle) (c : Conn L)
      → c.initialized ≡ true
      → L.real_connect (connect_args opts.tcp_endpoint opts.auth_info opts.schema flags) c.mysql
        ≡ (false, m')
      → Service.connect L opts.tcp_endpoint opts.auth_info opts.schema flags c
        ≡ (client_error (L.errno m'), record c { mysql = m'; flags = flags })
  unfolding Service.connect Service.connect_open mysql_real_connect connect_args
  connect_fails flags m' c opened e = ground arith

  blocking_fails :
      (stmt : Bytes) (flags : ℕ) (rest : Conn L → Ran L) (m' : L.Handle) (c : Conn L)
      → c.initialized ≡ true
      → L.real_connect (connect_args opts.tcp_endpoint opts.auth_info opts.schema flags) c.mysql
        ≡ (false, m')
      → L.errno m' ≢ 0
      → without_text L (connect_query L opts stmt flags rest c)
        ≡ some ([], failed (client_error (L.errno m')) none, record c { mysql = m'; flags = flags })
  unfolding connect_query Connector.connect
  blocking_fails stmt flags rest m' c opened e fails =
      let ec = client_error (L.errno m') in
      let bad : is_error ec ≡ true = ground (arith, is_error-client_error (L.errno m')) in
      rw (connect_fails flags m' c opened e)
        (try_failed L ec (record c { mysql = m'; flags = flags }) _ bad)

  -- Where the client library's call that connects fails without being suspended, the exception of
  -- mariadb_async_multi_query leaves `main`, since `async_connect` calls the handler before
  -- `io_service.run()`; blocking_multi_query, whose call fails in the same way, reports the error and
  -- ends. The opening and the option must succeed.
  pub mariadb_async_multi_query-uncaught :
      (stmt : Bytes) (n fuel : ℕ) (m' : L.Handle) (c : MariaConn L)
      → (Service.open_conn L c.conn).0 ≡ success
      → (Service.set_option L nonblock null (Service.open_conn L c.conn).1).0 ≡ success
      → let c₀ = prepared L N operation_aborted nonblock c.conn in
        let flags = L.client_multi_statements in
        let args = connect_args opts.tcp_endpoint opts.auth_info opts.schema flags in
        N.connect_start args false c₀.mysql ≡ (0, false, m')
        → L.real_connect args c₀.mysql ≡ (false, m')
        → L.errno m' ≢ 0
        → (mariadb_async_multi_query L N operation_aborted nonblock opts stmt (suc fuel) c
            ≡ some ([], uncaught, refused flags m' c.conn))
          × (without_text L (blocking_multi_query L opts stmt n c₀)
              ≡ some ([], failed (client_error (L.errno m')) none, refused flags m' c.conn))
  unfolding mariadb_async_multi_query blocking_multi_query
  mariadb_async_multi_query-uncaught stmt n fuel m' c opens accepts done refuses fails = (
    main_uncaught stmt (multi_handlers L N operation_aborted nonblock opts stmt)
        (multi_starts L N operation_aborted nonblock opts stmt) L.client_multi_statements fuel m' c
        opens accepts done fails,
    blocking_fails stmt L.client_multi_statements _ m'
        (prepared L N operation_aborted nonblock c.conn)
        (prepared-opens L N operation_aborted nonblock c.conn opens) refuses fails,
  )
