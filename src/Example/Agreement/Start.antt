-- ===== src/Example/Agreement/Start.antt =====
-- What async_multi_query.cpp and async_single_query.cpp have in common: the connection, the statement
-- and the first `async_store_result`, against `connector.connect(…)` and `connector.query(…)`.
use amy.Prelude.{
  ℕ, suc, ◌≡◌, refl, sym, ap, ◌∙◌, inl, inr, true, false, Option, none, some, [], ◌∷◌, Bool-cases,
}
use amy.Errors.{ErrorCode, is_error}
use amy.Client.{ClientLib, Bytes}
use amy.Results.{ResultSet}
use amy.Service
use amy.Service.{Conn}
use amy.Async.{System, queries}
use amy.Connector
use amy.Example.{failed, Ran, prepend, without_text}
use amy.Example.Blocking.{Options, try, connect_query}
use amy.Example.Async.{Handlers, start, connecting, io_run, handle_connect, handle_query}
use amy.Example.Async.Steps.{idle, running, storing, io_run-running, io_run-posted}
use amy.Example.Agreement.{twice, prepend-nil, try_failed, try_returned}
use amy.Example.Agreement.Calls.{
  query_open, perform_queries, opened_connect, connecting_task, perform_connects,
  connect_open-keeps, open_conn-opens, connecting-failed, connecting-opened, connect_failed,
  connect_opened, run_query-keeps,
}

-- Handlers that check their code, send the statement when the connection is there, and store the first
-- result when the statement is through.
pub record StartsWith (L : ClientLib) (operation_aborted : ErrorCode) (stmt : Bytes)
    (handlers : Handlers L) : Type 0 where
  pub fails :
      (h : ℕ) (ec : ErrorCode) (rs : Option ResultSet) (s : System L)
      → is_error ec ≡ true
      → handlers h ec rs s ≡ ([], some (failed ec (Service.message L ec)), s)
  pub connected :
      (ec : ErrorCode) (c : Conn L)
      → is_error ec ≡ false
      → c.initialized ≡ true
      → handlers handle_connect ec none (idle L operation_aborted c)
        ≡ ([], none, running L operation_aborted handle_query (queries stmt) c)
  pub queried :
      (ec : ErrorCode) (c : Conn L)
      → is_error ec ≡ false
      → c.initialized ≡ true
      → handlers handle_query ec none (idle L operation_aborted c)
        ≡ ([], none, storing L operation_aborted c)

module _ (L : ClientLib) (operation_aborted : ErrorCode) (opts : Options) (stmt : Bytes)
    (flags : ℕ) where
  -- The connection from which the results are read.
  abbrev pub Ready : Conn L → Type 0
  Ready c = (c.initialized ≡ true) × (c.flags ≡ flags) × (c.first_result_stored ≡ false)

  module _ (handlers : Handlers L) (starts : StartsWith L operation_aborted stmt handlers) where
    abbrev run : ℕ → System L → Ran L
    run = io_run L operation_aborted handlers

    -- A step of `io_run` that prints nothing.
    silent :
        (fuel : ℕ) (r : Ran L) (s : System L)
        → without_text L r ≡ without_text L (run fuel s)
        → without_text L r ≡ without_text L (prepend L [] (run fuel s))
    silent fuel r s e = e ∙ ap (without_text L) (sym (prepend-nil L (run fuel s)))

    module _ (rest : Conn L → Ran L) (fuel : ℕ)
        (agrees : (c : Conn L)
          → Ready c
          → without_text L (rest c)
            ≡ without_text L (run (twice fuel) (storing L operation_aborted c))) where
      query_agrees :
          (c : Conn L)
          → c.initialized ≡ true
          → c.flags ≡ flags
          → without_text L (try L (Connector.query L stmt c) (λ _ c'. rest c'))
            ≡ without_text L
                (run (twice (suc fuel)) (running L operation_aborted handle_query (queries stmt) c))
      query_agrees c opened flagged =
          let (ec, c') = Service.run_query L stmt c in
          let (keeps, keeps_flags, first) = run_query-keeps L operation_aborted opts stmt flags c in
          let opened' = keeps ∙ opened in
          let ran =
            io_run-running L operation_aborted handlers (twice fuel) handle_query (queries stmt) c
              (ec, none, c') (perform_queries L operation_aborted opts stmt flags c) in
          elim (Bool-cases (is_error ec)) [
            | inl e ↦
                rw
                  (
                    query_open L operation_aborted opts stmt flags c opened,
                    ran,
                    starts.fails handle_query ec none (idle L operation_aborted c') e,
                  )
                  (try_failed L ec c' rest e)
            | inr clean ↦
                rw
                  (
                    query_open L operation_aborted opts stmt flags c opened,
                    ran,
                    starts.queried ec c' clean opened',
                    try_returned L ec c' rest clean,
                  )
                  (silent (twice fuel) (rest c') (storing L operation_aborted c')
                    (agrees c' (opened', keeps_flags ∙ flagged, first)))
          ]

      abbrev query_rest : Conn L → Ran L
      query_rest c = try L (Connector.query L stmt c) (λ _ c'. rest c')

      -- From an open connection on.
      connected_agrees :
          (c : Conn L)
          → c.initialized ≡ true
          → without_text L (
              try L
                (Connector.throwing L (opened_connect L operation_aborted opts stmt flags c))
                (λ _ c'. query_rest c'))
            ≡ without_text L (
                run (twice (suc (suc fuel))) (
                  running L operation_aborted handle_connect
                    (connecting_task L operation_aborted opts stmt flags)
                    c))
      connected_agrees c opened =
          let (ec, c') = opened_connect L operation_aborted opts stmt flags c in
          let (keeps, sets) = connect_open-keeps L operation_aborted opts stmt flags c in
          let opened' = keeps ∙ opened in
          let ran =
            io_run-running L operation_aborted handlers (twice (suc fuel)) handle_connect
              (connecting_task L operation_aborted opts stmt flags) c (ec, none, c')
              (perform_connects L operation_aborted opts stmt flags c) in
          elim (Bool-cases (is_error ec)) [
            | inl e ↦
                rw (ran, starts.fails handle_connect ec none (idle L operation_aborted c') e)
                  (try_failed L ec c' query_rest e)
            | inr clean ↦
                rw
                  (ran, starts.connected ec c' clean opened', try_returned L ec c' query_rest clean)
                  (silent (twice (suc fuel)) (query_rest c')
                    (running L operation_aborted handle_query (queries stmt) c')
                    (query_agrees c' opened' sets))
          ]

      posted_failed :
          (fuel : ℕ) (ec : ErrorCode) (c : Conn L)
          → is_error ec ≡ true
          → without_text L (
              run (suc fuel) (record (start L operation_aborted c) {
                posted = record { handler = handle_connect; ec = ec; result = none } ∷ [];
              }))
            ≡ some ([], failed ec none, c)
      posted_failed fuel ec c e =
          ap (without_text L) (
            io_run-posted L operation_aborted handlers fuel
              (record { handler = handle_connect; ec = ec; result = none })
              (start L operation_aborted c))
          ∙ rw (starts.fails handle_connect ec none (start L operation_aborted c) e) refl

      blocking_connects :
          (c : Conn L)
          → connect_query L opts stmt flags rest c
            ≡ try L
                (Connector.connect L opts.tcp_endpoint opts.auth_info opts.schema flags c)
                (λ _ c'. query_rest c')
      unfolding connect_query
      blocking_connects c = refl

      -- Where reading the results agrees, the whole programs do.
      pub connect_query-agrees :
          (c : Conn L)
          → c.initialized ≡ false
          → without_text L (connect_query L opts stmt flags rest c)
            ≡ without_text L
                (run (twice (suc (suc fuel))) (connecting L operation_aborted opts stmt flags c))
      connect_query-agrees c closed =
          let (ec, c') = Service.open_conn L c in
          elim (Bool-cases (is_error ec)) [
            | inl e ↦
                rw
                  (
                    blocking_connects c,
                    connect_failed L operation_aborted opts stmt flags c closed e,
                    connecting-failed L operation_aborted opts stmt flags c closed e,
                  )
                  (try_failed L ec c' query_rest e
                    ∙ sym (posted_failed (suc (twice (suc fuel))) ec c' e))
            | inr clean ↦
                rw
                  (
                    blocking_connects c,
                    connect_opened L operation_aborted opts stmt flags c closed clean,
                    connecting-opened L operation_aborted opts stmt flags c closed clean,
                  )
                  (connected_agrees c'
                    (open_conn-opens L operation_aborted opts stmt flags c clean))
          ]
