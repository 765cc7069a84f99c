-- ===== src/Maria/Answers.antt =====
-- What is assumed of all suspended calls of a client library, and the composed operations of
-- include/amy/impl/mariadb_service.ipp under these assumptions.
use amy.Prelude.{
  ℕ, suc, ◌+◌, ◌≡◌, true, none, some, inl, inr, arith, refl, false, ==_iff, Bool-cases,
}
use amy.Prelude.Int.{negsuc}
use amy.Errors.{ErrorCode, success, misc_error, no_more_results, not_initialized}
use amy.Client.{ClientLib, Bytes}
use amy.Results.{empty_set}
use amy.Service
use amy.Service.{Conn}
use amy.Maria.{NonBlocking, MariaConn, drive, invokes, int_failed, option_failed}
use amy.Maria.Chain.{Completes, Ends, drive_invokes}
use amy.Connector.{query_result_ec}
use amy.Maria.Query.{query_resume, async_query}
use amy.Maria.Query.Agreement.{freed, async_query_agrees}
use amy.Maria.QueryResult.{result_resume, async_query_result}
use amy.Maria.QueryResult.Agreement.{cleared, async_query_result_agrees}
use amy.Maria.Store.{
  store_resume, async_store_result, store_switch, store_entry, finish, finish_conn,
}
use amy.Maria.Store.Agreement.{async_store_result_first}
use amy.Maria.Store.NextResult.{async_store_result_next}

-- Each suspended call but that of the connection comes to what the blocking call comes to, after at
-- most k suspensions.
pub record Answers (L : ClientLib) (N : NonBlocking L) (k : ℕ) : Type 0 where
  pub queries :
      (stmt : Bytes) (m : L.Handle)
      → Completes L N int_failed N.query_cont
          (L.real_query stmt m).0
          (L.real_query stmt m).1
          k
          (N.query_start stmt (negsuc 0) m).0
          (N.query_start stmt (negsuc 0) m).1
          (N.query_start stmt (negsuc 0) m).2
  pub stores :
      (m : L.Handle)
      → Completes L N option_failed N.store_cont
          (L.store_result m).0
          (L.store_result m).1
          k
          (N.store_start none m).0
          (N.store_start none m).1
          (N.store_start none m).2
  pub advances :
      (m : L.Handle)
      → Completes L N int_failed N.next_cont
          (L.next_result m).0
          (L.next_result m).1
          k
          (N.next_start (negsuc 0) m).0
          (N.next_start (negsuc 0) m).1
          (N.next_start (negsuc 0) m).2

module _ (L : ClientLib) (N : NonBlocking L) (operation_aborted : ErrorCode) where
  store_result_exhausted :
      (c : Conn L)
      → c.first_result_stored ≡ true
      → Service.has_more_results L (Service.free_result L c) ≡ false
      → Service.store_result L success c
        ≡ (empty_set, misc_error no_more_results, Service.free_result L c)
  unfolding Service.store_result Service.advance
  store_result_exhausted c stored over = ground arith

  async_store_result_exhausted :
      (c : MariaConn L)
      → c.conn.initialized ≡ true
      → c.conn.first_result_stored ≡ true
      → Service.has_more_results L (Service.free_result L c.conn) ≡ false
      → async_store_result L N operation_aborted c
        ≡ invokes
            (misc_error no_more_results)
            (some empty_set)
            (record c { conn = Service.free_result L c.conn })
  unfolding async_store_result store_resume store_switch store_entry finish finish_conn
  async_store_result_exhausted c opened stored over =
      ground (arith, ==_iff c.conn.cancelation_token c.conn.cancelation_token)

  -- `async_store_result` on an open connection, with more results or not, against `store_result`.
  pub async_store_result-Ends :
      (k : ℕ) (c : MariaConn L)
      → Answers L N k
      → c.conn.initialized ≡ true
      → let (rs, ec, c') = Service.store_result L success c.conn in
        Ends L N ec (some rs) c' (
          drive L N
            (store_resume L N operation_aborted)
            (suc (k + k))
            (async_store_result L N operation_aborted c))
  async_store_result-Ends k c answers opened =
      let freed = Service.free_result L c.conn in
      elim (Bool-cases c.conn.first_result_stored) [
        | inl stored ↦ elim (Bool-cases (Service.has_more_results L freed)) [
          | inl more ↦
              async_store_result_next L N operation_aborted k k (suc (k + k)) c opened stored more
                (answers.advances freed.mysql) (answers.stores (L.next_result freed.mysql).1)
                (omega arith)
          | inr over ↦
              rw
                (
                  async_store_result_exhausted c opened stored over,
                  store_result_exhausted c.conn stored over,
                  drive_invokes L N (store_resume L N operation_aborted) (suc (k + k))
                      (misc_error no_more_results) (some empty_set) (record c { conn = freed }),
                )
                (refl, refl, refl)
        ]
        | inr first ↦
            async_store_result_first L N operation_aborted k (suc (k + k)) c opened first
              (answers.stores c.conn.mysql) (omega arith)
      ]

  async_query_closed :
      (stmt : Bytes) (c : MariaConn L)
      → c.conn.initialized ≡ false
      → async_query L N operation_aborted stmt c ≡ invokes (misc_error not_initialized) none c
  unfolding async_query
  async_query_closed stmt c closed = rw closed refl

  query_closed :
      (stmt : Bytes) (c : Conn L)
      → c.initialized ≡ false
      → Service.query L stmt c ≡ (misc_error not_initialized, c)
  unfolding Service.query
  query_closed stmt c closed = rw closed refl

  async_query_result_closed :
      (stmt : Bytes) (c : MariaConn L)
      → c.conn.initialized ≡ false
      → async_query_result L N operation_aborted stmt c
        ≡ invokes (misc_error not_initialized) (some empty_set) c
  unfolding async_query_result
  async_query_result_closed stmt c closed = rw closed refl

  query_result_ec_closed :
      (stmt : Bytes) (c : Conn L)
      → c.initialized ≡ false
      → query_result_ec L stmt c ≡ (empty_set, misc_error not_initialized, c)
  unfolding query_result_ec
  query_result_ec_closed stmt c closed = ground (arith, query_closed stmt c closed)

  -- `async_query` on any connection against `query`.
  pub async_query-Ends :
      (k : ℕ) (stmt : Bytes) (c : MariaConn L)
      → Answers L N k
      → let (ec, c') = Service.query L stmt c.conn in
        Ends L N ec none c' (
          drive L N
            (query_resume L N operation_aborted)
            (suc k)
            (async_query L N operation_aborted stmt c))
  async_query-Ends k stmt c answers = elim (Bool-cases c.conn.initialized) [
    | inl opened ↦
        async_query_agrees L N operation_aborted stmt k (suc k) c opened
          (answers.queries stmt (freed L N operation_aborted c.conn).mysql) (omega arith)
    | inr closed ↦
        rw
          (
            async_query_closed stmt c closed,
            query_closed stmt c.conn closed,
            drive_invokes L N (query_resume L N operation_aborted) (suc k)
                (misc_error not_initialized) none c,
          )
          (refl, refl, refl)
  ]

  -- `async_query_result` on any connection against `query_result`.
  pub async_query_result-Ends :
      (k : ℕ) (stmt : Bytes) (c : MariaConn L)
      → Answers L N k
      → let (rs, ec, c') = query_result_ec L stmt c.conn in
        Ends L N ec (some rs) c' (
          drive L N
            (result_resume L N operation_aborted)
            (suc (k + k))
            (async_query_result L N operation_aborted stmt c))
  async_query_result-Ends k stmt c answers =
      let m = (cleared L N operation_aborted c.conn).mysql in
      elim (Bool-cases c.conn.initialized) [
        | inl opened ↦
            async_query_result_agrees L N operation_aborted stmt k k (suc (k + k)) c opened
              (answers.queries stmt m) (answers.stores (L.real_query stmt m).1) (omega arith)
        | inr closed ↦
            rw
              (
                async_query_result_closed stmt c closed,
                query_result_ec_closed stmt c.conn closed,
                drive_invokes L N (result_resume L N operation_aborted) (suc (k + k))
                    (misc_error not_initialized) (some empty_set) c,
              )
              (refl, refl, refl)
      ]
