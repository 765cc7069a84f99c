-- ===== src/Maria/QueryResult/Agreement.antt =====
-- `query_result_handler` of include/amy/impl/mariadb_service.ipp against `query_result` of
-- include/amy/basic_connector.hpp, which runs the blocking functions.
use amy.Prelude.{
  subst, sym, ap, ◌∙◌, ℕ, ◌+◌, ◌≡◌, ◌≢◌, ◌<◌, refl, true, false, none, some, arith, ◌==◌, ==_iff,
  Bool-cases, inl, inr, if◌then◌else◌,
}
use amy.Prelude.Int.{ℤ, negsuc}
use amy.Errors.{ErrorCode, success, is_error}
use amy.Client.{ClientLib, Bytes}
use amy.Results.{ResultSet, empty_set}
use amy.Ops.{mysql_real_query}
use amy.Service
use amy.Service.{Conn}
use amy.Connector.{query_result_ec, store_result_clean}
use amy.Maria.{
  MariaConn, Next, waits, drive, NonBlocking, int_failed, call_error, mysql_start, mysql_continue,
  wrap, wait_for, async_wait_mysql,
}
use amy.Maria.Chain.{free_result-token, Completes, Ends, set_mysql, drive_through, call_error_done}
use amy.Maria.Store.Calls.{EndsWith}
use amy.Maria.Store.NextResult.{finish_conn_failed, Stores}
use amy.Maria.QueryResult.{
  ResultOp, q_cont_query, finish_result, result_begin, after_statement, result_entry, result_switch,
  result_resume, async_query_result,
}
use amy.Maria.QueryResult.Calls.{drive-result_begin, finish_result_ends}

module _ (L : ClientLib) (N : NonBlocking L) (operation_aborted : ErrorCode) where
  abbrev statement_op : ℕ → Bytes → ℤ → ResultOp L
  statement_op token stmt v = record {
    step = q_cont_query;
    token = token;
    stmt = stmt;
    query_result = v;
    result = none;
    address = none;
  }

  -- The operation after a part of `mysql_real_query` has returned, on the connection c.
  abbrev after_query_part : ℕ → Bytes → ℕ → ℤ → L.Handle → MariaConn L → Next L (ResultOp L)
  after_query_part token stmt status v m c =
      after_statement L N operation_aborted (statement_op token stmt v)
        (status, call_error L N status (int_failed v) m, v, m) c

  -- What the operation goes on with once `mysql_real_query` has returned v.
  abbrev query_ending : ℕ → Bytes → ℤ → ErrorCode → MariaConn L → Next L (ResultOp L)
  query_ending token stmt v ec c =
      if is_error ec
      then finish_result L N operation_aborted (statement_op token stmt v) ec c
      else result_begin L N operation_aborted (statement_op token stmt v) c

  module _ (token : ℕ) (stmt : Bytes) where
    query_continues :
        (v : ℤ) (status : ℕ) (c : MariaConn L)
        → c.conn.cancelation_token ≡ token
        → let (status', v', m') = N.query_cont status v c.conn.mysql in
          result_resume L N operation_aborted (statement_op token stmt v) success status c
          ≡ after_query_part token stmt status' v' m' c
    unfolding result_resume result_switch mysql_start mysql_continue after_statement
    query_continues v status c fresh = ground (arith, ==_iff token c.conn.cancelation_token)

    after_query_part_done :
        (status : ℕ) (v : ℤ) (m : L.Handle) (c : MariaConn L)
        → status ≡ 0
        → after_query_part token stmt status v m c
          ≡ query_ending token stmt v (wrap L N (int_failed v) m success) (set_mysql L N m c)
    unfolding after_statement
    after_query_part_done status v m c z =
        rw (call_error_done L N status (int_failed v) m z, z) refl

    after_query_part_waits :
        (status : ℕ) (v : ℤ) (m : L.Handle) (c : MariaConn L)
        → status ≢ 0
        → is_error (call_error L N status (int_failed v) m) ≡ false
        → after_query_part token stmt status v m c
          ≡ waits
              (wait_for L N status)
              (statement_op token stmt v)
              (async_wait_mysql L N status (set_mysql L N m c)).1
    unfolding after_statement async_wait_mysql
    after_query_part_waits status v m c waiting clean =
        let moves : (status == 0) ≡ false = ground arith in rw (clean, moves) refl

  finish_failed_ends :
      (op : ResultOp L) (ec : ErrorCode) (fuel : ℕ) (c : MariaConn L)
      → is_error ec ≡ true
      → EndsWith L N operation_aborted
          (empty_set, ec, c.conn)
          (drive L N
            (result_resume L N operation_aborted)
            fuel
            (finish_result L N operation_aborted op ec c))
  finish_failed_ends op ec fuel c bad =
      let ended =
        drive L N (result_resume L N operation_aborted) fuel
          (finish_result L N operation_aborted op ec c) in
      subst (λ e. EndsWith L N operation_aborted e ended)
        (finish_conn_failed L N operation_aborted op.address ec c.conn bad)
        (finish_result_ends L N operation_aborted op ec fuel c)

  -- What `query_result` comes to after `mysql_real_query` has returned v and m.
  unfoldable after_query : ℤ → L.Handle → Conn L → ResultSet × ErrorCode × Conn L
  after_query v m c =
      let ec = wrap L N (int_failed v) m success in
      let moved : Conn L = record c { mysql = m } in
      if is_error ec
      then (empty_set, ec, moved)
      else Service.retrieve L (record moved { first_result_stored = true })

  query_ends :
      (token : ℕ) (stmt : Bytes) (left k : ℕ) (v : ℤ) (m : L.Handle) (c c' : MariaConn L)
      → c.conn.cancelation_token ≡ token
      → Stores L N operation_aborted k m
      → k < left
      → c'.conn ≡ record (c.conn) { mysql = m }
      → EndsWith L N operation_aborted (after_query v m c.conn) (
          drive L N
            (result_resume L N operation_aborted)
            left
            (query_ending token stmt v (wrap L N (int_failed v) m success) c'))
  unfolding after_query
  query_ends token stmt left k v m c c' fresh stores h same =
      let ec = wrap L N (int_failed v) m success in
      elim (Bool-cases (is_error ec)) [
        | inl bad ↦ rw (bad, ← same) (finish_failed_ends (statement_op token stmt v) ec left c' bad)
        | inr good ↦
            let op = statement_op token stmt v in
            let resume = result_resume L N operation_aborted in
            let stored =
              drive-result_begin L N operation_aborted op k left c'
                (sym fresh ∙ ap (λ (c : Conn L). c.cancelation_token) (sym same)) refl
                (subst (λ (c : Conn L). Stores L N operation_aborted k c.mysql) (sym same) stores)
                h in
            rw good (
              subst
                (λ (x : Conn L).
                  EndsWith L N operation_aborted
                    (Service.retrieve L (record x { first_result_stored = true }))
                    (drive L N resume left (result_begin L N operation_aborted op c')))
                same stored)
      ]

  -- The connection that the call of `mysql_real_query` starts on.
  abbrev pub cleared : Conn L → Conn L
  cleared c = record (Service.free_result L c) { first_result_stored = false }

  async_query_result-after_query_part :
      (stmt : Bytes) (c : MariaConn L)
      → c.conn.initialized ≡ true
      → let (status, v, m) = N.query_start stmt (negsuc 0) (cleared c.conn).mysql in
        async_query_result L N operation_aborted stmt c
        ≡ after_query_part c.conn.cancelation_token stmt status v m
            (record c { conn = cleared c.conn })
  unfolding async_query_result result_resume result_switch result_entry after_statement mysql_start
      mysql_continue
  async_query_result-after_query_part stmt c opened =
      ground (arith, ==_iff c.conn.cancelation_token c.conn.cancelation_token)

  query_result_ec-after_query :
      (stmt : Bytes) (c : Conn L)
      → c.initialized ≡ true
      → let (v, m) = L.real_query stmt (cleared c).mysql in
        query_result_ec L stmt c ≡ after_query v m (cleared c)
  unfolding query_result_ec Service.query Service.run_query mysql_real_query after_query
  query_result_ec-after_query stmt c opened =
      let (v, m) = L.real_query stmt (cleared c).mysql in
      let ec = wrap L N (int_failed v) m success in
      ground (arith, store_result_clean L ec (record (cleared c) { mysql = m }) refl)

  -- On an open connection `async_query_result` ends with the result set, the code and the connection
  -- of `query_result(stmt, ec)`, also where the query fails, provided that the suspended
  -- `mysql_real_query` and `mysql_store_result` come to what the blocking ones come to; fuel above the
  -- number of suspensions of both is enough.
  pub async_query_result_agrees :
      (stmt : Bytes) (n k fuel : ℕ) (c : MariaConn L)
      → c.conn.initialized ≡ true
      → let (v', m') = L.real_query stmt (cleared c.conn).mysql in
        let (status, v, m) = N.query_start stmt (negsuc 0) (cleared c.conn).mysql in
        Completes L N int_failed N.query_cont v' m' n status v m
        → Stores L N operation_aborted k (L.real_query stmt (cleared c.conn).mysql).1
        → n + k < fuel
        → let (rs, ec, c') = query_result_ec L stmt c.conn in
          Ends L N ec (some rs) c' (
            drive L N
              (result_resume L N operation_aborted)
              fuel
              (async_query_result L N operation_aborted stmt c))
  async_query_result_agrees stmt n k fuel c opened completes stores h =
      let t = c.conn.cancelation_token in
      let c1 : MariaConn L = record c { conn = cleared c.conn } in
      let (v', m') = L.real_query stmt (cleared c.conn).mysql in
      rw
        (
          async_query_result-after_query_part stmt c opened,
          query_result_ec-after_query stmt c.conn opened,
        )
        (drive_through L N (result_resume L N operation_aborted) (statement_op t stmt) int_failed
          N.query_cont t (after_query_part t stmt) (query_ending t stmt) (query_continues t stmt)
          (after_query_part_done t stmt) (after_query_part_waits t stmt)
          (EndsWith L N operation_aborted (after_query v' m' (cleared c.conn))) k fuel c1 completes
          (free_result-token L N c.conn) h
          (λ left c' h same.
            query_ends t stmt left k v' m' c1 c' (free_result-token L N c.conn) stores h same))
