-- ===== src/Maria/Cancel.antt =====
-- Closing a connection while a composed operation of include/amy/impl/mariadb_service.ipp waits.
use amy.Prelude.{ℕ, ◌≡◌, true, none, some, suc, arith}
use amy.Errors.{ErrorCode, is_error}
use amy.Client.{ClientLib}
use amy.Service
use amy.Maria.{NonBlocking, MariaConn, invokes, close, close_impl}
use amy.Results.{empty_set}
use amy.Maria.Store.{StoreOp, store_resume, finish, finish_conn}
use amy.Maria.QueryResult.{ResultOp, result_resume, finish_result}
use amy.Maria.Query.{QueryOp, query_resume}
use amy.Maria.Connect.{ConnectOp, connect_resume}

module _ (L : ClientLib) (N : NonBlocking L) (operation_aborted : ErrorCode) where
  close-token :
      (c : MariaConn L)
      → c.conn.initialized ≡ true
      → (close L N c).conn.cancelation_token ≡ suc c.conn.cancelation_token
  unfolding close close_impl Service.cancel Service.free_result Service.end_session
  close-token c opened = ground arith

  -- When an open connection is closed, the next event of each of the four composed operations that was
  -- begun on it, whatever its error code, only makes the user's handler run with `operation_aborted`,
  -- and with an empty set where the handler takes a result set: none of them calls the client library
  -- again, and the connection stays as `close` left it.
  pub close_aborts :
      (nonblock : ℕ) (query : QueryOp) (connect : ConnectOp) (store : StoreOp L)
      (result : ResultOp L) (ec : ErrorCode) (status : ℕ) (c : MariaConn L)
      → is_error operation_aborted ≡ true
      → c.conn.initialized ≡ true
      → query.token ≡ c.conn.cancelation_token
      → connect.token ≡ c.conn.cancelation_token
      → store.token ≡ c.conn.cancelation_token
      → result.token ≡ c.conn.cancelation_token
      → let closed = close L N c in
        (query_resume L N operation_aborted query ec status closed
          ≡ invokes operation_aborted none closed)
        × (connect_resume L N operation_aborted nonblock connect ec status closed
            ≡ invokes operation_aborted none closed)
        × (store_resume L N operation_aborted store ec status closed
            ≡ invokes operation_aborted (some empty_set) closed)
        × (result_resume L N operation_aborted result ec status closed
            ≡ invokes operation_aborted (some empty_set) closed)
  unfolding query_resume connect_resume store_resume finish result_resume finish_result finish_conn
  close_aborts nonblock query connect store result ec status c is_err opened eq ek es er =
      let t = close-token c opened in (ground arith, ground arith, ground arith, ground arith)
