-- ===== src/Example/Maria/Connection.antt =====
-- The connection and the statement of the programs over mariadb_service, against
-- `connector.connect(…)` and `connector.query(…)`.
use amy.Prelude.{
  ℕ, zero, suc, ◌+◌, ◌≤◌, ◌≡◌, ◌≢◌, refl, sym, ap, subst, ◌∙◌, not, true, false, none, arith,
}
use amy.Errors.{ErrorCode, success}
use amy.Client.{ClientLib, Bytes, null}
use amy.Auth.{connect_args}
use amy.Service
use amy.Service.{Conn}
use amy.Connector
use amy.Maria.{NonBlocking, MariaConn, invokes}
use amy.Maria.Chain.{Completes}
use amy.Maria.Connect.{connect_resume, async_connect}
use amy.Maria.Connect.Agreement.{
  prepared, prepared-opens, async_connect_agrees, async_connect-suspends,
}
use amy.Maria.Query.{query_resume, async_query}
use amy.Maria.Query.Agreement.{async_query_agrees, freed}
use amy.Maria.Store.{async_store_result}
use amy.Maria.Reactor.{connecting, querying, storing}
use amy.Example.{Ran}
use amy.Example.Blocking.{Options, try, connect_query}
use amy.Example.Async.{handle_connect, handle_query, handle_store_result}
use amy.Example.Agreement.{Matches}
use amy.Example.Agreement.Start.{Ready}
use amy.Example.Output.{queried-keeps}
use amy.Example.Maria.{Handlers, lift, connect_posts, main}
use amy.Example.Maria.Steps.{run, run-drive, run-suspended, resume-connecting, resume-querying}
use amy.Maria.Answers.{Answers}
use amy.Example.Maria.Start.{StartsWith, run_connected, run_queried, called-Matches}

module _ (L : ClientLib) (N : NonBlocking L) (operation_aborted : ErrorCode) (nonblock : ℕ)
    (opts : Options) (stmt : Bytes) (flags : ℕ) (handlers : Handlers L)
    (starting : StartsWith L N operation_aborted nonblock stmt handlers) where
  module _ (rest : Conn L → Ran L) (k more : ℕ) (answers : Answers L N k)
      (agrees : (c : MariaConn L) (fuel : ℕ)
        → Ready L operation_aborted opts stmt flags c.conn
        → more ≤ fuel
        → Matches L (rest c.conn) (
            run L N operation_aborted nonblock handlers fuel true handle_store_result
              (lift storing (async_store_result L N operation_aborted c)))) where
    queried-Matches :
        (left : ℕ) (ec : ErrorCode) (c : MariaConn L) (c' : Conn L)
        → c.conn ≡ c'
        → Ready L operation_aborted opts stmt flags c'
        → suc more ≤ left
        → Matches L
            (try L (Connector.throwing L (ec, c')) (λ _ c'. rest c'))
            (run L N operation_aborted nonblock handlers left true handle_query (invokes ec none c))
    queried-Matches zero ec c c' same ready bound = absurd (omega arith)
    queried-Matches (suc left) ec c c' same ready bound =
        let ran =
          run L N operation_aborted nonblock handlers (suc left) true handle_query
            (invokes ec none c) in
        subst (λ x. Matches L (try L (Connector.throwing L (ec, x)) (λ _ c'. rest c')) ran) same
          (called-Matches L N operation_aborted nonblock opts stmt flags handlers starting rest left
            handle_query ec c
            (λ clean.
              rw
                (run_queried L N operation_aborted nonblock opts stmt flags handlers starting left
                  ec c clean)
                (agrees c left (subst (Ready L operation_aborted opts stmt flags) (sym same) ready)
                  (omega arith))))

    abbrev query_rest : Conn L → Ran L
    query_rest c = try L (Connector.query L stmt c) (λ _ c'. rest c')

    query-throwing :
        (c : Conn L) → Connector.query L stmt c ≡ Connector.throwing L (Service.query L stmt c)
    unfolding Connector.query
    query-throwing c = refl

    -- From the statement on.
    query-Matches :
        (c : MariaConn L) (fuel : ℕ)
        → c.conn.initialized ≡ true
        → c.conn.flags ≡ flags
        → suc k + suc more ≤ fuel
        → Matches L (query_rest c.conn) (
            run L N operation_aborted nonblock handlers fuel true handle_query
              (lift querying (async_query L N operation_aborted stmt c)))
    query-Matches c fuel opened flagged bound =
        let (ec, c₁) = Service.query L stmt c.conn in
        let (still, keeps, first) = queried-keeps L opts stmt c.conn opened in
        rw (query-throwing c.conn) (
          run-drive L N operation_aborted nonblock handlers querying
            (query_resume L N operation_aborted)
            (resume-querying L N operation_aborted nonblock handlers)
            (Matches L (try L (Connector.throwing L (ec, c₁)) (λ _ c'. rest c'))) handle_query
            (suc more) ec none c₁ (suc k) fuel (async_query L N operation_aborted stmt c)
            (async_query_agrees L N operation_aborted stmt k (suc k) c opened
              (answers.queries stmt (freed L N operation_aborted c.conn).mysql) (omega arith))
            bound
            (λ left c' enough same.
              queried-Matches left ec c' c₁ same (still, keeps ∙ flagged, first) enough))

    -- From the connection on.
    connected-Matches :
        (left : ℕ) (ec : ErrorCode) (c : MariaConn L) (c' : Conn L)
        → c.conn ≡ c'
        → c'.initialized ≡ true
        → c'.flags ≡ flags
        → suc (suc k + suc more) ≤ left
        → Matches L (try L (Connector.throwing L (ec, c')) (λ _ c'. query_rest c')) (
            run L N operation_aborted nonblock handlers left true handle_connect
              (invokes ec none c))
    connected-Matches zero ec c c' same opened flagged bound = absurd (omega arith)
    connected-Matches (suc left) ec c c' same opened flagged bound =
        let ran =
          run L N operation_aborted nonblock handlers (suc left) true handle_connect
            (invokes ec none c) in
        subst (λ x. Matches L (try L (Connector.throwing L (ec, x)) (λ _ c'. query_rest c')) ran)
          same
          (called-Matches L N operation_aborted nonblock opts stmt flags handlers starting
            query_rest left handle_connect ec c
            (λ clean.
              rw
                (run_connected L N operation_aborted nonblock opts stmt flags handlers starting left
                  ec c clean)
                (query-Matches c left (ap (λ (c : Conn L). c.initialized) same ∙ opened)
                  (ap (λ (c : Conn L). c.flags) same ∙ flagged) (omega arith))))

    blocking_connects :
        (c : Conn L)
        → connect_query L opts stmt flags rest c
          ≡ try L
              (Connector.throwing L
                (Service.connect L opts.tcp_endpoint opts.auth_info opts.schema flags c))
              (λ _ c'. query_rest c')
    unfolding connect_query Connector.connect
    blocking_connects c = refl

    connect-keeps :
        (c : Conn L)
        → c.initialized ≡ true
        → let c' = (Service.connect L opts.tcp_endpoint opts.auth_info opts.schema flags c).1 in
          (c'.initialized ≡ true) × (c'.flags ≡ flags)
    unfolding Service.connect Service.connect_open
    connect-keeps c opened = ground arith

    -- Where reading the results agrees, the whole programs do, from a connection that can be opened
    -- and set to be non-blocking, and whose call is suspended at first.
    pub main-Matches :
        (n fuel : ℕ) (c : MariaConn L)
        → (Service.open_conn L c.conn).0 ≡ success
        → (Service.set_option L nonblock null (Service.open_conn L c.conn).1).0 ≡ success
        → let args = connect_args opts.tcp_endpoint opts.auth_info opts.schema flags in
          let m = (prepared L N operation_aborted nonblock c.conn).mysql in
          let (connected, m') = L.real_connect args m in
          let (status, r, started) = N.connect_start args false m in
          Completes L N not N.connect_cont connected m' n status r started
          → status ≢ 0
          → suc n + suc (suc k + suc more) ≤ fuel
          → Matches L
              (connect_query L opts stmt flags rest
                (prepared L N operation_aborted nonblock c.conn))
              (main L N operation_aborted nonblock opts stmt handlers flags fuel c)
    unfolding main
    main-Matches n fuel c opens accepts completes waiting bound =
        let c₀ = prepared L N operation_aborted nonblock c.conn in
        let (ec, c₁) = Service.connect L opts.tcp_endpoint opts.auth_info opts.schema flags c₀ in
        let call =
          async_connect L N operation_aborted nonblock opts.tcp_endpoint opts.auth_info opts.schema
            flags c in
        let (opened, flagged) =
          connect-keeps c₀ (prepared-opens L N operation_aborted nonblock c.conn opens) in
        rw
          (
            blocking_connects c₀,
            run-suspended L N operation_aborted nonblock handlers connecting fuel
                (connect_posts L N operation_aborted nonblock c) handle_connect call
                (async_connect-suspends L N operation_aborted nonblock opts.tcp_endpoint
                  opts.auth_info opts.schema flags n c opens accepts completes waiting),
          )
          (run-drive L N operation_aborted nonblock handlers connecting
            (connect_resume L N operation_aborted nonblock)
            (resume-connecting L N operation_aborted nonblock handlers)
            (Matches L (try L (Connector.throwing L (ec, c₁)) (λ _ c'. query_rest c')))
            handle_connect (suc (suc k + suc more)) ec none c₁ (suc n) fuel call
            (async_connect_agrees L N operation_aborted nonblock opts.tcp_endpoint opts.auth_info
              opts.schema flags n (suc n) c opens accepts completes (omega arith))
            bound
            (λ left c' enough same. connected-Matches left ec c' c₁ same opened flagged enough))
