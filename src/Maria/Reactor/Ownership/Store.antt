-- ===== src/Maria/Reactor/Ownership/Store.antt =====
-- `store_result_handler`.
use amy.Prelude.{
  ℕ, ◌≡◌, ◌==◌, refl, zero, suc, arith, true, false, not, Option, none, some, inl, inr, Bool-cases,
}
use amy.Prelude.Int.{ℤ, negsuc}
use amy.Errors.{ErrorCode, is_error, success, misc_error, no_more_results}
use amy.Client.{ClientLib}
use amy.Service
use amy.Service.{Conn}
use amy.Service.Ownership.{
  IsOwned, SameResults-IsOwned, free_result-IsOwned, reset_result-IsOwned, assign_last-IsOwned,
}
use amy.Maria.{
  NonBlocking, MariaConn, async_wait_mysql, call_error, wrap, option_failed, mysql_start,
  mysql_continue,
}
use amy.Maria.Ops.{mysql_next_result_start, mysql_next_result_cont}
use amy.Maria.Store.{
  StoreOp, StoreStep, s_entry, s_cont_store, s_store_start, s_cont_next, s_wait_next, finish_conn,
  finish, after_store, store_begin, after_next, store_entry, store_switch, store_resume,
  async_store_result,
}
use amy.Maria.Reactor.Ownership.OneCall.{Owned, either-Owned, when-Owned, mysql-IsOwned}

module _ (L : ClientLib) (N : NonBlocking L) (operation_aborted : ErrorCode) where
  -- Where the operation fails, it does not keep a result.
  pub finish_conn-failed :
      (p : Option ℕ) (ec : ErrorCode) (c : Conn L)
      → is_error ec ≡ true
      → IsOwned L c
      → IsOwned L (finish_conn L N operation_aborted p ec c).2
  unfolding finish_conn
  finish_conn-failed p ec c e o = rw e o

  -- Where it ends without an error, it keeps the result that the library has just allocated.
  pub finish_conn-IsOwned :
      (r : Option L.Res) (ec : ErrorCode) (c : Conn L)
      → is_error ec ≡ false
      → IsOwned L c
      → let (p, stored) = Service.allocate L r c in
        IsOwned L (finish_conn L N operation_aborted p ec stored).2
  unfolding finish_conn
  finish_conn-IsOwned r ec c e o = rw e (assign_last-IsOwned L ec _ (reset_result-IsOwned L r c o))

  finish-Owned :
      (op : StoreOp L) (ec : ErrorCode) (c : MariaConn L)
      → is_error ec ≡ true
      → IsOwned L c.conn
      → Owned L (finish L N operation_aborted op ec c)
  unfolding finish
  finish-Owned op ec c e o = finish_conn-failed op.address ec c.conn e o

  -- A call that is suspended has allocated nothing, and the result of a call that has ended without an
  -- error is kept; a call that fails has returned a null pointer.
  after_store-Owned :
      (op : StoreOp L) (status : ℕ) (r : Option L.Res) (m : L.Handle) (c : MariaConn L)
      → IsOwned L c.conn
      → Owned L (
          after_store L N operation_aborted op
            (status, call_error L N status (option_failed r) m, r, m)
            c)
  unfolding after_store async_wait_mysql Service.allocate finish call_error
  after_store-Owned op zero none m c o =
      let o' = mysql-IsOwned L c.conn m o in
      let ec = wrap L N true m success in
      elim (Bool-cases (is_error ec)) [
        | inl e ↦ rw e o'
        | inr clean ↦ rw clean (assign_last-IsOwned L ec _ (reset_result-IsOwned L none _ o'))
      ]
  after_store-Owned op zero (some r) m c o =
      finish_conn-IsOwned (some r) success _ refl (mysql-IsOwned L c.conn m o)
  after_store-Owned op (suc status) r m c o =
      let o' = mysql-IsOwned L c.conn m o in
      let moves : (suc status == 0) ≡ false = ground arith in
      elim (Bool-cases (is_error (call_error L N (suc status) (option_failed r) m))) [
        | inl e ↦ rw (moves, rw moves at e) o'
        | inr clean ↦ rw (moves, rw moves at clean) o'
      ]

  store_begin-Owned :
      (op : StoreOp L) (c : MariaConn L)
      → IsOwned L c.conn
      → Owned L (store_begin L N operation_aborted op c)
  unfolding store_begin mysql_start mysql_continue
  store_begin-Owned op c o =
      let freed : Conn L = Service.free_result L c.conn in
      let (status, r, m) = N.store_start op.result freed.mysql in
      after_store-Owned op status r m (record c { conn = freed }) (free_result-IsOwned L c.conn o)

  after_next-Owned :
      (op : StoreOp L) (r : ℕ × ErrorCode × ℤ × L.Handle) (c : MariaConn L)
      → IsOwned L c.conn
      → Owned L (after_next L N operation_aborted op r c)
  unfolding after_next async_wait_mysql
  after_next-Owned op (status, ec, r, m) c o =
      let o' = mysql-IsOwned L c.conn m o in
      let c' : MariaConn L = record c { conn = record (c.conn) { mysql = m } } in
      let op' : StoreOp L = record op { step = s_cont_next; next_result = r } in
      when-Owned L (is_error ec) _ _ (λ e. finish-Owned op' ec c' e o')
        (λ _. either-Owned L (status == 0) _ _ (store_begin-Owned op' c' o') o')

  store_entry-Owned :
      (op : StoreOp L) (c : MariaConn L)
      → IsOwned L c.conn
      → Owned L (store_entry L N operation_aborted op c)
  unfolding store_entry
  store_entry-Owned op c o =
      let freed : Conn L = Service.free_result L c.conn in
      let owned = free_result-IsOwned L c.conn o in
      either-Owned L (not c.conn.first_result_stored) _ _
        (store_begin-Owned op (record c { conn = record (c.conn) { first_result_stored = true } })
          (SameResults-IsOwned L {c = c.conn} (refl, refl, refl) o))
        (either-Owned L (Service.has_more_results L freed) _ _
          (after_next-Owned op (mysql_next_result_start L N op.next_result freed.mysql)
            (record c { conn = freed }) owned)
          (finish-Owned op (misc_error no_more_results) (record c { conn = freed }) refl owned))

  store_switch-Owned :
      (step : StoreStep) (op : StoreOp L) (status : ℕ) (c : MariaConn L)
      → op.step ≡ step
      → IsOwned L c.conn
      → Owned L (store_switch L N operation_aborted op status c)
  unfolding store_switch async_wait_mysql mysql_start mysql_continue
  store_switch-Owned s_entry op status c e o = rw e (store_entry-Owned op c o)
  store_switch-Owned s_store_start op status c e o = rw e (store_begin-Owned op c o)
  store_switch-Owned s_cont_store op status c e o =
      let (status', r, m) = N.store_cont status op.result c.conn.mysql in
      rw e (after_store-Owned op status' r m c o)
  store_switch-Owned s_cont_next op status c e o =
      rw e (after_next-Owned op (mysql_next_result_cont L N status op.next_result c.conn.mysql) c o)
  store_switch-Owned s_wait_next op status c e o = rw e (
      either-Owned L (status == 0) _ _ (store_begin-Owned (record op { step = s_cont_next }) c o) o)

  pub store_resume-Owned :
      (op : StoreOp L) (ec : ErrorCode) (status : ℕ) (c : MariaConn L)
      → is_error operation_aborted ≡ true
      → IsOwned L c.conn
      → Owned L (store_resume L N operation_aborted op ec status c)
  unfolding store_resume
  store_resume-Owned op ec status c aborts o =
      either-Owned L (not (op.token == c.conn.cancelation_token)) _ _
        (finish-Owned op operation_aborted c aborts o)
        (when-Owned L (is_error ec) _ _ (λ e. finish-Owned op ec c e o)
          (λ _. store_switch-Owned op.step op status c refl o))

  pub async_store_result-Owned :
      (c : MariaConn L)
      → is_error operation_aborted ≡ true
      → IsOwned L c.conn
      → Owned L (async_store_result L N operation_aborted c)
  unfolding async_store_result
  async_store_result-Owned c aborts o =
      let op : StoreOp L = record {
        step = s_entry;
        token = c.conn.cancelation_token;
        next_result = negsuc 0;
        result = none;
        address = none;
      } in
      either-Owned L (not (Service.is_open L c.conn)) _ _ o
        (store_resume-Owned op success 0 c aborts o)
