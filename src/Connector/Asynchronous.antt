-- ===== src/Connector/Asynchronous.antt =====
-- The asynchronous functions of include/amy/basic_connector.hpp, which pass the call on to the service.
-- `mysql_service` has no `async_query_result`, so that the template is instantiated for
-- `mariadb_service` alone.
use amy.Prelude.{ℕ}
use amy.Errors.{ErrorCode}
use amy.Client.{ClientLib, Bytes}
use amy.Auth.{AuthInfo, Endpoint}
use amy.Async
use amy.Async.{System}
use amy.Maria.{NonBlocking, MariaConn, Next}
use amy.Maria.QueryResult
use amy.Maria.QueryResult.{ResultOp}

module _ (L : ClientLib) (operation_aborted : ErrorCode) where
  abbrev pub async_connect : Endpoint → AuthInfo → Bytes → ℕ → ℕ → System L → System L
  async_connect = Async.async_connect L operation_aborted

  abbrev pub async_query : Bytes → ℕ → System L → System L
  async_query = Async.async_query L operation_aborted

  abbrev pub async_store_result : ℕ → System L → System L
  async_store_result = Async.async_store_result L operation_aborted

  abbrev pub async_query_result : NonBlocking L → Bytes → MariaConn L → Next L (ResultOp L)
  async_query_result N = QueryResult.async_query_result L N operation_aborted
