-- ===== src/Maria/Store/Agreement.antt =====
-- `store_result_handler` of include/amy/impl/mariadb_service.ipp against the blocking `store_result`.
use amy.Prelude.{ℕ, ◌≡◌, ◌<◌, refl, true, false, none, some, arith, ==_iff}
use amy.Prelude.Int.{negsuc}
use amy.Errors.{ErrorCode, success}
use amy.Client.{ClientLib}
use amy.Service
use amy.Service.{Conn}
use amy.Maria.{MariaConn, drive, NonBlocking, option_failed}
use amy.Maria.Chain.{Completes, Ends}
use amy.Maria.Store.{
  StoreOp, s_entry, store_begin, store_entry, store_switch, store_resume, async_store_result,
}
use amy.Maria.Store.Calls.{drive-store_begin}

module _ (L : ClientLib) (N : NonBlocking L) (operation_aborted : ErrorCode) where
  abbrev entry_op : ℕ → StoreOp L
  entry_op token = record {
    step = s_entry;
    token = token;
    next_result = negsuc 0;
    result = none;
    address = none;
  }

  async_store_result-store_begin :
      (c : MariaConn L)
      → c.conn.initialized ≡ true
      → c.conn.first_result_stored ≡ false
      → async_store_result L N operation_aborted c
        ≡ store_begin L N operation_aborted
            (entry_op c.conn.cancelation_token)
            (record c { conn = record (c.conn) { first_result_stored = true } })
  unfolding async_store_result store_resume store_switch store_entry
  async_store_result-store_begin c opened unstored =
      ground (arith, ==_iff c.conn.cancelation_token c.conn.cancelation_token)

  store_result-retrieve :
      (c : Conn L)
      → c.first_result_stored ≡ false
      → Service.store_result L success c
        ≡ Service.retrieve L (record c { first_result_stored = true })
  unfolding Service.store_result Service.advance
  store_result-retrieve c unstored = ground arith

  -- On an open connection without a stored first result, `async_store_result` ends with the result
  -- set, the code and the connection of the blocking `store_result` with a clear `ec`, where the
  -- suspended `mysql_store_result` comes to what the blocking one comes to; fuel above the number of
  -- suspensions is enough.
  pub async_store_result_first :
      (n fuel : ℕ) (c : MariaConn L)
      → c.conn.initialized ≡ true
      → c.conn.first_result_stored ≡ false
      → let (r', m') = L.store_result c.conn.mysql in
        let (status, r, m) = N.store_start none c.conn.mysql in
        Completes L N option_failed N.store_cont r' m' n status r m
        → n < fuel
        → let (rs, ec, c') = Service.store_result L success c.conn in
          Ends L N ec (some rs) c' (
            drive L N
              (store_resume L N operation_aborted)
              fuel
              (async_store_result L N operation_aborted c))
  async_store_result_first n fuel c opened unstored completes h =
      let started : Conn L = record (c.conn) { first_result_stored = true } in
      rw (async_store_result-store_begin c opened unstored, store_result-retrieve c.conn unstored)
        (drive-store_begin L N operation_aborted (entry_op c.conn.cancelation_token) n fuel
          (record c { conn = started }) refl refl completes h)
