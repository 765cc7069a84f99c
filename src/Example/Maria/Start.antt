-- ===== src/Example/Maria/Start.antt =====
-- What the handlers of the programs over mariadb_service have in common, up to the first
-- `async_store_result`.
use amy.Prelude.{ℕ, suc, ◌≡◌, refl, ◌∙◌, inl, inr, true, false, Option, none, some, [], Bool-cases}
use amy.Errors.{ErrorCode, is_error}
use amy.Client.{ClientLib, Bytes}
use amy.Results.{ResultSet}
use amy.Service
use amy.Service.{Conn}
use amy.Connector
use amy.Maria.{NonBlocking, MariaConn, invokes}
use amy.Maria.Query.{async_query}
use amy.Maria.Store.{async_store_result}
use amy.Maria.Reactor.{querying, storing}
use amy.Example.{failed, Ran}
use amy.Example.Blocking.{Options, try}
use amy.Example.Async.{handle_connect, handle_query, handle_store_result}
use amy.Example.Agreement.{prepend-nil, try_failed, try_returned, Matches, same-Matches}
use amy.Example.Maria.{Handlers, throws, starts, lift, start_query, start_store_result}
use amy.Example.Maria.Steps.{run, run-invokes}

module _ (L : ClientLib) (N : NonBlocking L) (operation_aborted : ErrorCode) (nonblock : ℕ) where
  -- Handlers that check their code, send the statement when the connection is there, and store the
  -- first result when the statement is through.
  pub record StartsWith (stmt : Bytes) (handlers : Handlers L) : Type 0 where
    pub fails :
        (h : ℕ) (ec : ErrorCode) (rs : Option ResultSet) (c : MariaConn L)
        → is_error ec ≡ true
        → handlers h ec rs c ≡ ([], throws (failed ec (Service.message L ec)))
    pub connected :
        (ec : ErrorCode) (c : MariaConn L)
        → is_error ec ≡ false
        → handlers handle_connect ec none c
          ≡ ([], starts (start_query L N operation_aborted nonblock stmt c))
    pub queried :
        (ec : ErrorCode) (c : MariaConn L)
        → is_error ec ≡ false
        → handlers handle_query ec none c
          ≡ ([], starts (start_store_result L N operation_aborted nonblock c))

module _ (L : ClientLib) (N : NonBlocking L) (operation_aborted : ErrorCode) (nonblock : ℕ)
    (opts : Options) (stmt : Bytes) (flags : ℕ) (handlers : Handlers L)
    (starting : StartsWith L N operation_aborted nonblock stmt handlers) where
  -- A handler that is called with an error.
  pub run_failed :
      (fuel h : ℕ) (ec : ErrorCode) (rs : Option ResultSet) (c : MariaConn L)
      → is_error ec ≡ true
      → run L N operation_aborted nonblock handlers (suc fuel) true h (invokes ec rs c)
        ≡ some ([], failed ec (Service.message L ec), c.conn)
  run_failed fuel h ec rs c e =
      run-invokes L N operation_aborted nonblock handlers fuel true h ec rs c
      ∙ rw (starting.fails h ec rs c e) refl

  pub run_connected :
      (fuel : ℕ) (ec : ErrorCode) (c : MariaConn L)
      → is_error ec ≡ false
      → run L N operation_aborted nonblock handlers
          (suc fuel)
          true
          handle_connect
          (invokes ec none c)
        ≡ run L N operation_aborted nonblock handlers fuel true handle_query
            (lift querying (async_query L N operation_aborted stmt c))
  unfolding start_query
  run_connected fuel ec c clean =
      run-invokes L N operation_aborted nonblock handlers fuel true handle_connect ec none c
      ∙ rw (starting.connected ec c clean) (prepend-nil L _)

  pub run_queried :
      (fuel : ℕ) (ec : ErrorCode) (c : MariaConn L)
      → is_error ec ≡ false
      → run L N operation_aborted nonblock handlers (suc fuel) true handle_query (invokes ec none c)
        ≡ run L N operation_aborted nonblock handlers fuel true handle_store_result
            (lift storing (async_store_result L N operation_aborted c))
  unfolding start_store_result
  run_queried fuel ec c clean =
      run-invokes L N operation_aborted nonblock handlers fuel true handle_query ec none c
      ∙ rw (starting.queried ec c clean) (prepend-nil L _)

  -- A handler's call against a statement of the blocking program that may throw.
  pub called-Matches :
      (rest : Conn L → Ran L) (fuel h : ℕ) (ec : ErrorCode) (c : MariaConn L)
      → (is_error ec ≡ false
          → Matches L
              (rest c.conn)
              (run L N operation_aborted nonblock handlers (suc fuel) true h (invokes ec none c)))
      → Matches L
          (try L (Connector.throwing L (ec, c.conn)) (λ _ c'. rest c'))
          (run L N operation_aborted nonblock handlers (suc fuel) true h (invokes ec none c))
  called-Matches rest fuel h ec c goes_on = elim (Bool-cases (is_error ec)) [
    | inl e ↦ rw (run_failed fuel h ec none c e) (
        same-Matches L (try L (Connector.throwing L (ec, c.conn)) (λ _ c'. rest c'))
          (some ([], failed ec (Service.message L ec), c.conn)) (try_failed L ec c.conn rest e))
    | inr clean ↦ rw (try_returned L ec c.conn rest clean) (goes_on clean)
  ]
