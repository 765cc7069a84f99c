-- ===== src/Maria/QueryResult/Calls.antt =====
-- The suspended `mysql_store_result` of `query_result_handler` in
-- include/amy/impl/mariadb_service.ipp, and what the handler makes of its value.
use amy.Prelude.{
  subst, sym, ap, ◌∙◌, ℕ, ◌≡◌, ◌≢◌, ◌<◌, refl, true, false, Option, none, some, arith, ◌==◌, ==_iff,
}
use amy.Prelude.Int.{ℤ}
use amy.Errors.{ErrorCode, success, is_error}
use amy.Client.{ClientLib, Bytes}
use amy.Service
use amy.Service.{Conn}
use amy.Maria.{
  MariaConn, Next, waits, drive, NonBlocking, option_failed, call_error, mysql_start,
  mysql_continue, wrap, wait_for, async_wait_mysql,
}
use amy.Maria.Chain.{
  free_result-token, Completes, set_mysql, drive_through, drive_invokes, call_error_done,
}
use amy.Maria.Store.{finish_conn}
use amy.Maria.Store.Calls.{EndsWith, finish_stored, finish_conn-retrieve, free_result-mysql}
use amy.Maria.Store.NextResult.{Stores}
use amy.Maria.QueryResult.{
  ResultOp, q_cont_store, finish_result, after_result, result_begin, result_switch, result_resume,
}

module _ (L : ClientLib) (N : NonBlocking L) (operation_aborted : ErrorCode) where
  abbrev stored_op : ℕ → Bytes → ℤ → Option L.Res → ResultOp L
  stored_op token stmt v result = record {
    step = q_cont_store;
    token = token;
    stmt = stmt;
    query_result = v;
    result = result;
    address = none;
  }

  -- The operation after a part of `mysql_store_result` has returned, on the connection c.
  abbrev after_part :
      ℕ → Bytes → ℤ → ℕ → Option L.Res → L.Handle → MariaConn L → Next L (ResultOp L)
  after_part token stmt v status r m c =
      after_result L N operation_aborted (stored_op token stmt v r)
        (status, call_error L N status (option_failed r) m, r, m) c

  abbrev stored_ending :
      ℕ → Bytes → ℤ → Option L.Res → ErrorCode → MariaConn L → Next L (ResultOp L)
  stored_ending token stmt v r ec c =
      let (p, stored) = Service.allocate L r c.conn in
      finish_result L N operation_aborted (record (stored_op token stmt v r) { address = p }) ec
        (record c { conn = stored })

  module _ (token : ℕ) (stmt : Bytes) where
    stored_continues :
        (v : ℤ) (result : Option L.Res) (status : ℕ) (c : MariaConn L)
        → c.conn.cancelation_token ≡ token
        → let (status', r', m') = N.store_cont status result c.conn.mysql in
          result_resume L N operation_aborted (stored_op token stmt v result) success status c
          ≡ after_part token stmt v status' r' m' c
    unfolding result_resume result_switch mysql_start mysql_continue after_result
    stored_continues v result status c fresh = ground (arith, ==_iff token c.conn.cancelation_token)

    after_part_done :
        (v : ℤ) (status : ℕ) (r : Option L.Res) (m : L.Handle) (c : MariaConn L)
        → status ≡ 0
        → after_part token stmt v status r m c
          ≡ stored_ending token stmt v r (wrap L N (option_failed r) m success) (set_mysql L N m c)
    unfolding after_result
    after_part_done v status r m c z =
        rw (call_error_done L N status (option_failed r) m z, z) (ground arith)

    after_part_waits :
        (v : ℤ) (status : ℕ) (r : Option L.Res) (m : L.Handle) (c : MariaConn L)
        → status ≢ 0
        → is_error (call_error L N status (option_failed r) m) ≡ false
        → after_part token stmt v status r m c
          ≡ waits
              (wait_for L N status)
              (stored_op token stmt v r)
              (async_wait_mysql L N status (set_mysql L N m c)).1
    unfolding after_result async_wait_mysql Service.allocate
    after_part_waits v status r m c waiting clean =
        let moves : (status == 0) ≡ false = ground arith in rw (moves, clean) refl

  pub finish_result_ends :
      (op : ResultOp L) (ec : ErrorCode) (fuel : ℕ) (c : MariaConn L)
      → EndsWith L N operation_aborted (finish_conn L N operation_aborted op.address ec c.conn) (
          drive L N
            (result_resume L N operation_aborted)
            fuel
            (finish_result L N operation_aborted op ec c))
  unfolding finish_result
  finish_result_ends op ec fuel c =
      let (rs, ec', c') = finish_conn L N operation_aborted op.address ec c.conn in
      rw
        (drive_invokes L N (result_resume L N operation_aborted) fuel ec' (some rs)
          (record c { conn = c' }))
        (refl, refl, refl)

  -- The connection that the call of `mysql_store_result` starts on.
  abbrev marked : Conn L → Conn L
  marked c = record (Service.free_result L c) { first_result_stored = true }

  marked-free_result :
      (c : Conn L) → marked c ≡ Service.free_result L (record c { first_result_stored = true })
  unfolding Service.free_result
  marked-free_result c = ground arith

  finish_marked :
      (c : Conn L)
      → let (r, m) = L.store_result c.mysql in
        finish_stored L N operation_aborted r
          (wrap L N (option_failed r) m success)
          (record (marked c) { mysql = m })
        ≡ Service.retrieve L (record c { first_result_stored = true })
  finish_marked c =
      let started : Conn L = record c { first_result_stored = true } in
      let (r, m) = L.store_result c.mysql in
      let at_free =
        rw (free_result-mysql L N operation_aborted started) at
          (finish_conn-retrieve L N operation_aborted started) in
      subst
        (λ (x : Conn L).
          finish_stored L N operation_aborted r (wrap L N (option_failed r) m success)
            (record x { mysql = m })
          ≡ Service.retrieve L started)
        (sym (marked-free_result c)) at_free

  result_begin-after_part :
      (op : ResultOp L) (c : MariaConn L)
      → op.result ≡ none
      → let (status, r, m) = N.store_start none (marked c.conn).mysql in
        result_begin L N operation_aborted op c
        ≡ after_part op.token op.stmt op.query_result status r m (record c { conn = marked c.conn })
  unfolding result_begin after_result mysql_start mysql_continue
  result_begin-after_part op c er = rw er refl

  pub drive-result_begin :
      (op : ResultOp L) (k fuel : ℕ) (c : MariaConn L)
      → op.token ≡ c.conn.cancelation_token
      → op.result ≡ none
      → Stores L N operation_aborted k c.conn.mysql
      → k < fuel
      → EndsWith L N operation_aborted
          (Service.retrieve L (record (c.conn) { first_result_stored = true }))
          (drive L N
            (result_resume L N operation_aborted)
            fuel
            (result_begin L N operation_aborted op c))
  drive-result_begin op k fuel c et er stores h =
      let (r', m') = L.store_result c.conn.mysql in
      let ec = wrap L N (option_failed r') m' success in
      let started : Conn L = record (c.conn) { first_result_stored = true } in
      let resume = result_resume L N operation_aborted in
      let completes : Completes L N option_failed N.store_cont r' m' k
          (N.store_start none (marked c.conn).mysql).0 (N.store_start none (marked c.conn).mysql).1
          (N.store_start none (marked c.conn).mysql).2 =
        rw (free_result-mysql L N operation_aborted c.conn) stores in
      rw (result_begin-after_part op c er) (
        drive_through L N resume (stored_op op.token op.stmt op.query_result) option_failed
          N.store_cont op.token (after_part op.token op.stmt op.query_result)
          (stored_ending op.token op.stmt op.query_result)
          (stored_continues op.token op.stmt op.query_result)
          (after_part_done op.token op.stmt op.query_result)
          (after_part_waits op.token op.stmt op.query_result)
          (EndsWith L N operation_aborted (Service.retrieve L started)) 0 fuel
          (record c { conn = marked c.conn }) completes (free_result-token L N c.conn ∙ sym et)
          (omega arith)
          (λ left c' _ same.
            let (p, stored) = Service.allocate L r' c'.conn in
            let c₁ : MariaConn L = record c' { conn = stored } in
            let op' : ResultOp L = record (stored_op op.token op.stmt op.query_result r') {
              address = p;
            } in
            subst
              (λ e.
                EndsWith L N operation_aborted e
                  (drive L N resume left (finish_result L N operation_aborted op' ec c₁)))
              (ap (finish_stored L N operation_aborted r' ec) same ∙ finish_marked c.conn)
              (finish_result_ends op' ec left c₁)))
