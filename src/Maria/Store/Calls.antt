-- ===== src/Maria/Store/Calls.antt =====
-- The suspended `mysql_store_result` of `store_result_handler` in
-- include/amy/impl/mariadb_service.ipp, and what the handler makes of its value.
use amy.Prelude.{
  ℕ, ◌≡◌, ◌≢◌, ◌<◌, refl, false, Option, none, some, arith, ◌==◌, ==_iff, ◌∙◌, sym, if◌then◌else◌,
}
use amy.Prelude.Int.{ℤ}
use amy.Errors.{ErrorCode, success, is_error}
use amy.Client.{ClientLib}
use amy.Results.{ResultSet, empty_set}
use amy.Service.Allocation.{kept, reset_result-allocate, retrieve_kept, retrieve-kept}
use amy.Ops.{mysql_store_result, wrap_option}
use amy.Service
use amy.Service.{Conn}
use amy.Maria.{
  MariaConn, Next, waits, drive, NonBlocking, option_failed, call_error, mysql_start,
  mysql_continue, wrap, wait_for, async_wait_mysql,
}
use amy.Maria.Chain.{
  free_result-token, Completes, Ends, set_mysql, drive_through, drive_invokes, call_error_done,
}
use amy.Maria.Store.{
  StoreOp, s_cont_store, finish_conn, finish, after_store, store_begin, store_switch, store_resume,
}

module _ (L : ClientLib) (N : NonBlocking L) (operation_aborted : ErrorCode) where
  abbrev store_op : ℕ → ℤ → Option L.Res → StoreOp L
  store_op token v result = record {
    step = s_cont_store;
    token = token;
    next_result = v;
    result = result;
    address = none;
  }

  -- The operation after a part of the call has returned, on the connection c.
  abbrev after_part : ℕ → ℤ → ℕ → Option L.Res → L.Handle → MariaConn L → Next L (StoreOp L)
  after_part token v status r m c =
      after_store L N operation_aborted (store_op token v r)
        (status, call_error L N status (option_failed r) m, r, m) c

  store_continues :
      (token : ℕ) (v : ℤ) (result : Option L.Res) (status : ℕ) (c : MariaConn L)
      → c.conn.cancelation_token ≡ token
      → let (status', r', m') = N.store_cont status result c.conn.mysql in
        store_resume L N operation_aborted (store_op token v result) success status c
        ≡ after_part token v status' r' m' c
  unfolding store_resume store_switch mysql_start mysql_continue after_store
  store_continues token v result status c fresh =
      ground (arith, ==_iff token c.conn.cancelation_token)

  -- The handler's result set, code and connection, where the library has just allocated r.
  abbrev pub finish_stored : Option L.Res → ErrorCode → Conn L → ResultSet × ErrorCode × Conn L
  finish_stored r ec c =
      let (p, stored) = Service.allocate L r c in finish_conn L N operation_aborted p ec stored

  abbrev store_ending : ℕ → ℤ → Option L.Res → ErrorCode → MariaConn L → Next L (StoreOp L)
  store_ending token v r ec c =
      let (p, stored) = Service.allocate L r c.conn in
      finish L N operation_aborted (record (store_op token v r) { address = p }) ec
        (record c { conn = stored })

  after_part_done :
      (token : ℕ) (v : ℤ) (status : ℕ) (r : Option L.Res) (m : L.Handle) (c : MariaConn L)
      → status ≡ 0
      → after_part token v status r m c
        ≡ store_ending token v r (wrap L N (option_failed r) m success) (set_mysql L N m c)
  unfolding after_store
  after_part_done token v status r m c z =
      rw (call_error_done L N status (option_failed r) m z, z) (ground arith)

  after_part_waits :
      (token : ℕ) (v : ℤ) (status : ℕ) (r : Option L.Res) (m : L.Handle) (c : MariaConn L)
      → status ≢ 0
      → is_error (call_error L N status (option_failed r) m) ≡ false
      → after_part token v status r m c
        ≡ waits
            (wait_for L N status)
            (store_op token v r)
            (async_wait_mysql L N status (set_mysql L N m c)).1
  unfolding after_store async_wait_mysql Service.allocate
  after_part_waits token v status r m c waiting clean =
      let moves : (status == 0) ≡ false = ground arith in rw (moves, clean) refl

  -- The operation ends with what `finish_conn` makes of the call's value.
  abbrev pub EndsWith :
      ResultSet × ErrorCode × Conn L → Option (ErrorCode × Option ResultSet × MariaConn L) → Type 0
  EndsWith (rs, ec, c) ended = Ends L N ec (some rs) c ended

  pub finish_ends :
      (op : StoreOp L) (ec : ErrorCode) (fuel : ℕ) (c : MariaConn L)
      → EndsWith (finish_conn L N operation_aborted op.address ec c.conn) (
          drive L N
            (store_resume L N operation_aborted)
            fuel
            (finish L N operation_aborted op ec c))
  unfolding finish
  finish_ends op ec fuel c =
      let (rs, ec', c') = finish_conn L N operation_aborted op.address ec c.conn in
      rw
        (drive_invokes L N (store_resume L N operation_aborted) fuel ec' (some rs)
          (record c { conn = c' }))
        (refl, refl, refl)

  drive_store :
      {r' : Option L.Res} {m' : L.Handle} {n status : ℕ} {r : Option L.Res} {m : L.Handle}
      (token : ℕ) (v : ℤ) (fuel : ℕ) (c : MariaConn L)
      → Completes L N option_failed N.store_cont r' m' n status r m
      → c.conn.cancelation_token ≡ token
      → n < fuel
      → EndsWith
          (finish_stored r'
            (wrap L N (option_failed r') m' success)
            (record (c.conn) { mysql = m' }))
          (drive L N (store_resume L N operation_aborted) fuel (after_part token v status r m c))
  drive_store {r'} {m'} token v fuel c completes fresh h =
      let ended =
        finish_stored r' (wrap L N (option_failed r') m' success)
          (record (c.conn) { mysql = m' }) in
      drive_through L N (store_resume L N operation_aborted) (store_op token v) option_failed
        N.store_cont token (after_part token v) (store_ending token v) (store_continues token v)
        (after_part_done token v) (after_part_waits token v) (EndsWith ended) 0 fuel c completes
        fresh (omega arith)
        (λ left c' _ same.
          let ec = wrap L N (option_failed r') m' success in
          let (p, stored) = Service.allocate L r' c'.conn in
          rw (← same) (
            finish_ends (record (store_op token v r') { address = p }) ec left
              (record c' { conn = stored })))

  store_begin-after_part :
      (token : ℕ) (v : ℤ) (op : StoreOp L) (c : MariaConn L)
      → op.token ≡ token
      → op.next_result ≡ v
      → op.result ≡ none
      → let c1 : Conn L = Service.free_result L c.conn in
        let (status, r, m) = N.store_start none c1.mysql in
        store_begin L N operation_aborted op c
        ≡ after_part token v status r m (record c { conn = c1 })
  unfolding store_begin after_store mysql_start mysql_continue
  store_begin-after_part token v op c et ev er = rw (er, et, ev) refl

  pub free_result-mysql : (c : Conn L) → (Service.free_result L c).mysql ≡ c.mysql
  unfolding Service.free_result
  free_result-mysql c = ground arith

  kept-assign_last :
      (r : Option L.Res) (m : L.Handle) (c : Conn L)
      → let ec = wrap L N (option_failed r) m success in
        let freed : Conn L = record (Service.free_result L c) { mysql = m } in
        (if is_error ec then (empty_set, ec, freed) else Service.assign_last L ec (kept L r freed))
        ≡ Service.assign_last L (wrap_option L r m success) (kept L r (record c { mysql = m }))
  unfolding Service.assign_last Service.free_result
  kept-assign_last none m c = ground arith
  kept-assign_last (some r) m c = ground arith

  finish_conn-assign_last :
      (r : Option L.Res) (m : L.Handle) (c : Conn L)
      → finish_stored r
          (wrap L N (option_failed r) m success)
          (record (Service.free_result L c) { mysql = m })
        ≡ Service.assign_last L (wrap_option L r m success) (kept L r (record c { mysql = m }))
  unfolding finish_conn Service.allocate
  finish_conn-assign_last none m c =
      let freed : Conn L = record (Service.free_result L c) { mysql = m } in
      rw (reset_result-allocate L none freed) (kept-assign_last none m c)
  finish_conn-assign_last (some r) m c =
      let freed : Conn L = record (Service.free_result L c) { mysql = m } in
      rw (reset_result-allocate L (some r) freed) (kept-assign_last (some r) m c)

  -- `finish_conn` on what the blocking call returned comes to the second half of `store_result`.
  pub finish_conn-retrieve :
      (c : Conn L)
      → let (r, m) = L.store_result (Service.free_result L c).mysql in
        finish_stored r
          (wrap L N (option_failed r) m success)
          (record (Service.free_result L c) { mysql = m })
        ≡ Service.retrieve L c
  unfolding retrieve_kept mysql_store_result
  finish_conn-retrieve c =
      let (r, m) = L.store_result c.mysql in
      rw (free_result-mysql c) (finish_conn-assign_last r m c) ∙ sym (retrieve-kept L c)

  pub drive-store_begin :
      (op : StoreOp L) (n fuel : ℕ) (c : MariaConn L)
      → op.token ≡ c.conn.cancelation_token
      → op.result ≡ none
      → let (r', m') = L.store_result c.conn.mysql in
        let (status, r, m) = N.store_start none c.conn.mysql in
        Completes L N option_failed N.store_cont r' m' n status r m
        → n < fuel
        → EndsWith (Service.retrieve L c.conn) (
            drive L N
              (store_resume L N operation_aborted)
              fuel
              (store_begin L N operation_aborted op c))
  drive-store_begin op n fuel c et er completes h =
      let t = c.conn.cancelation_token in
      let v = op.next_result in
      let c1 : Conn L = Service.free_result L c.conn in
      let whole : Completes L N option_failed N.store_cont (L.store_result c1.mysql).0
          (L.store_result c1.mysql).1 n (N.store_start none c1.mysql).0
          (N.store_start none c1.mysql).1 (N.store_start none c1.mysql).2 =
        rw (free_result-mysql c.conn) completes in
      let driven =
        drive_store t v fuel (record c { conn = c1 }) whole (free_result-token L N c.conn) h in
      rw (store_begin-after_part t v op c et refl er, ← finish_conn-retrieve c.conn) driven
