-- ===== src/Maria/Store/NextResult.antt =====
-- `store_result_handler` of include/amy/impl/mariadb_service.ipp on the results after the first.
use amy.Prelude.{
  subst, sym, ap, ◌∙◌, ℕ, ◌+◌, ◌≡◌, ◌≢◌, ◌<◌, refl, true, false, Option, none, some, arith, ◌==◌,
  ==_iff, Bool-cases, inl, inr, if◌then◌else◌,
}
use amy.Prelude.Int.{ℤ, negsuc}
use amy.Errors.{ErrorCode, success, is_error}
use amy.Client.{ClientLib}
use amy.Results.{ResultSet, empty_set}
use amy.Ops.{mysql_next_result}
use amy.Service
use amy.Service.{Conn}
use amy.Maria.{
  MariaConn, Next, waits, drive, NonBlocking, option_failed, int_failed, call_error, mysql_start,
  mysql_continue, wrap, wait_for, async_wait_mysql,
}
use amy.Maria.Chain.{free_result-token, Completes, Ends, set_mysql, drive_through, call_error_done}
use amy.Maria.Store.{
  StoreOp, s_cont_next, finish_conn, finish, after_next, store_begin, store_entry, store_switch,
  store_resume, async_store_result,
}
use amy.Maria.Store.Calls.{EndsWith, drive-store_begin, finish_ends}

module _ (L : ClientLib) (N : NonBlocking L) (operation_aborted : ErrorCode) where
  abbrev next_op : ℕ → ℤ → StoreOp L
  next_op token v = record {
    step = s_cont_next;
    token = token;
    next_result = v;
    result = none;
    address = none;
  }

  -- The operation after a part of `mysql_next_result` has returned, on the connection c.
  abbrev after_next_part : ℕ → ℕ → ℤ → L.Handle → MariaConn L → Next L (StoreOp L)
  after_next_part token status v m c =
      after_next L N operation_aborted (next_op token v)
        (status, call_error L N status (int_failed v) m, v, m) c

  next_continues :
      (token : ℕ) (v : ℤ) (status : ℕ) (c : MariaConn L)
      → c.conn.cancelation_token ≡ token
      → let (status', v', m') = N.next_cont status v c.conn.mysql in
        store_resume L N operation_aborted (next_op token v) success status c
        ≡ after_next_part token status' v' m' c
  unfolding store_resume store_switch mysql_start mysql_continue after_next
  next_continues token v status c fresh = ground (arith, ==_iff token c.conn.cancelation_token)

  after_next_part_waits :
      (token status : ℕ) (v : ℤ) (m : L.Handle) (c : MariaConn L)
      → status ≢ 0
      → is_error (call_error L N status (int_failed v) m) ≡ false
      → after_next_part token status v m c
        ≡ waits
            (wait_for L N status)
            (next_op token v)
            (async_wait_mysql L N status (set_mysql L N m c)).1
  unfolding after_next async_wait_mysql
  after_next_part_waits token status v m c waiting clean =
      let moves : (status == 0) ≡ false = ground arith in rw (clean, moves) refl

  -- What the operation goes on with once `mysql_next_result` has returned v.
  abbrev next_ending : ℕ → ℤ → ErrorCode → MariaConn L → Next L (StoreOp L)
  next_ending token v ec c =
      if is_error ec
      then finish L N operation_aborted (next_op token v) ec c
      else store_begin L N operation_aborted (next_op token v) c

  after_next_part_done :
      (token status : ℕ) (v : ℤ) (m : L.Handle) (c : MariaConn L)
      → status ≡ 0
      → after_next_part token status v m c
        ≡ next_ending token v (wrap L N (int_failed v) m success) (set_mysql L N m c)
  unfolding after_next
  after_next_part_done token status v m c z =
      rw (call_error_done L N status (int_failed v) m z, z) refl

  pub finish_conn_failed :
      (p : Option ℕ) (ec : ErrorCode) (c : Conn L)
      → is_error ec ≡ true
      → finish_conn L N operation_aborted p ec c ≡ (empty_set, ec, c)
  unfolding finish_conn
  finish_conn_failed p ec c bad = rw bad refl

  finish_failed_ends :
      (op : StoreOp L) (ec : ErrorCode) (fuel : ℕ) (c : MariaConn L)
      → is_error ec ≡ true
      → EndsWith L N operation_aborted
          (empty_set, ec, c.conn)
          (drive L N
            (store_resume L N operation_aborted)
            fuel
            (finish L N operation_aborted op ec c))
  finish_failed_ends op ec fuel c bad =
      let ended =
        drive L N (store_resume L N operation_aborted) fuel
          (finish L N operation_aborted op ec c) in
      subst (λ e. EndsWith L N operation_aborted e ended)
        (finish_conn_failed op.address ec c.conn bad)
        (finish_ends L N operation_aborted op ec fuel c)

  -- What the blocking `store_result` comes to after `mysql_next_result` has returned v and m.
  unfoldable after_advance : ℤ → L.Handle → Conn L → ResultSet × ErrorCode × Conn L
  after_advance v m c =
      let ec = wrap L N (int_failed v) m success in
      let moved : Conn L = record c { mysql = m } in
      if is_error ec then (empty_set, ec, moved) else Service.retrieve L moved

  -- The suspended `mysql_store_result` on the connection m comes to what the blocking one comes to.
  abbrev pub Stores : ℕ → L.Handle → Type 0
  Stores k m =
      Completes L N option_failed N.store_cont (L.store_result m).0 (L.store_result m).1 k
        (N.store_start none m).0 (N.store_start none m).1 (N.store_start none m).2

  next_ends :
      (token left k : ℕ) (v : ℤ) (m : L.Handle) (c c' : MariaConn L)
      → c.conn.cancelation_token ≡ token
      → Stores k m
      → k < left
      → c'.conn ≡ record (c.conn) { mysql = m }
      → EndsWith L N operation_aborted (after_advance v m c.conn) (
          drive L N
            (store_resume L N operation_aborted)
            left
            (next_ending token v (wrap L N (int_failed v) m success) c'))
  unfolding after_advance
  next_ends token left k v m c c' fresh stores h same =
      let ec = wrap L N (int_failed v) m success in
      elim (Bool-cases (is_error ec)) [
        | inl bad ↦ rw (bad, ← same) (finish_failed_ends (next_op token v) ec left c' bad)
        | inr good ↦
            rw (good, ← same)
              (drive-store_begin L N operation_aborted (next_op token v) k left c'
                (sym fresh ∙ ap (λ (c : Conn L). c.cancelation_token) (sym same)) refl
                (subst (λ (c : Conn L). Stores k c.mysql) (sym same) stores) h)
      ]

  drive_next :
      {v' : ℤ} {m' : L.Handle} {n status : ℕ} {v : ℤ} {m : L.Handle} (token fuel k : ℕ)
      (c : MariaConn L)
      → Completes L N int_failed N.next_cont v' m' n status v m
      → c.conn.cancelation_token ≡ token
      → Stores k m'
      → n + k < fuel
      → EndsWith L N operation_aborted
          (after_advance v' m' c.conn)
          (drive L N (store_resume L N operation_aborted) fuel (after_next_part token status v m c))
  drive_next {v'} {m'} token fuel k c completes fresh stores h =
      drive_through L N (store_resume L N operation_aborted) (next_op token) int_failed N.next_cont
        token (after_next_part token) (next_ending token) (next_continues token)
        (after_next_part_done token) (after_next_part_waits token)
        (EndsWith L N operation_aborted (after_advance v' m' c.conn)) k fuel c completes fresh h
        (λ left c' h same. next_ends token left k v' m' c c' fresh stores h same)

  async_store_result-after_next :
      (c : MariaConn L)
      → c.conn.initialized ≡ true
      → c.conn.first_result_stored ≡ true
      → Service.has_more_results L (Service.free_result L c.conn) ≡ true
      → let freed : Conn L = Service.free_result L c.conn in
        let (status, v, m) = N.next_start (negsuc 0) freed.mysql in
        async_store_result L N operation_aborted c
        ≡ after_next_part c.conn.cancelation_token status v m (record c { conn = freed })
  unfolding async_store_result store_resume store_switch store_entry after_next mysql_start
      mysql_continue
  async_store_result-after_next c opened stored more =
      ground (arith, ==_iff c.conn.cancelation_token c.conn.cancelation_token)

  store_result-after_advance :
      (c : Conn L)
      → c.first_result_stored ≡ true
      → Service.has_more_results L (Service.free_result L c) ≡ true
      → let freed : Conn L = Service.free_result L c in
        let (v, m) = L.next_result freed.mysql in
        Service.store_result L success c ≡ after_advance v m freed
  unfolding Service.store_result Service.advance after_advance mysql_next_result
  store_result-after_advance c stored more = ground arith

  -- On an open connection with a stored first result and more to come, `async_store_result` ends with
  -- the result set, the code and the connection of the blocking `store_result` with a clear `ec`, also
  -- where the move to the next result fails, provided that the suspended `mysql_next_result` and
  -- `mysql_store_result` come to what the blocking ones come to; fuel above the number of suspensions
  -- of both is enough.
  pub async_store_result_next :
      (n k fuel : ℕ) (c : MariaConn L)
      → c.conn.initialized ≡ true
      → c.conn.first_result_stored ≡ true
      → Service.has_more_results L (Service.free_result L c.conn) ≡ true
      → let (v', m') = L.next_result (Service.free_result L c.conn).mysql in
        let (status, v, m) = N.next_start (negsuc 0) (Service.free_result L c.conn).mysql in
        Completes L N int_failed N.next_cont v' m' n status v m
        → Stores k (L.next_result (Service.free_result L c.conn).mysql).1
        → n + k < fuel
        → let (rs, ec, c') = Service.store_result L success c.conn in
          Ends L N ec (some rs) c' (
            drive L N
              (store_resume L N operation_aborted)
              fuel
              (async_store_result L N operation_aborted c))
  async_store_result_next n k fuel c opened stored more completes stores h =
      let freed : Conn L = Service.free_result L c.conn in
      rw
        (
          async_store_result-after_next c opened stored more,
          store_result-after_advance c.conn stored more,
        )
        (drive_next c.conn.cancelation_token fuel k (record c { conn = freed }) completes
          (free_result-token L N c.conn) stores h)
