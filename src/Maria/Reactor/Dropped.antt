-- ===== src/Maria/Reactor/Dropped.antt =====
-- `async_wait_mysql` of include/amy/impl/mariadb_service.ipp where it waits for nothing: the operation
-- that was moved into it is destroyed with its handler.
use amy.Prelude.{ℕ, ◌≡◌, ◌≢◌, ◌↔◌, refl, true, [], bit_and, arith}
use amy.Prelude.Int.{ℤ, negsuc}
use amy.Errors.{ErrorCode}
use amy.Client.{ClientLib, Bytes}
use amy.Maria.{
  NonBlocking, MariaConn, Wait, read, write, timeout, nothing, waits, int_failed, wait_for,
  call_error, async_wait_mysql,
}
use amy.Maria.Chain.{after_call_waits, call_error_suspended, set_mysql}
use amy.Maria.Query.Agreement.{freed, query_op, async_query_begins}
use amy.Maria.Reactor.{Operation, Reactor, queries, settle, step, querying}

module _ (L : ClientLib) (N : NonBlocking L) (operation_aborted : ErrorCode) (nonblock : ℕ) where
  wait_for-nothing :
      (status : ℕ)
      → wait_for L N status ≡ nothing ↔ (
          (bit_and status N.wait_read ≡ 0)
          × (bit_and status N.wait_write ≡ 0)
          × (bit_and status N.wait_timeout ≡ 0))
  unfolding wait_for
  wait_for-nothing status = (
    λ e. (ground (arith, e), ground (arith, e), ground (arith, e)),
    λ (r, w, t). ground (arith, r, w, t),
  )

  settle-pending :
      {S : Type 0} (operation : S → Operation L) (handler : ℕ) (w : Wait) (op : S) (c : MariaConn L)
      (s : Reactor L)
      → s.pending ≡ []
      → let s' = settle L N operation_aborted nonblock operation handler (waits w op c) s in
        (s'.called ≡ s.called) × (s'.pending ≡ [] ↔ w ≡ nothing)
  unfolding settle
  settle-pending operation handler nothing op c s e = (refl, (λ _. refl, λ _. e))
  settle-pending operation handler read op c s e = rw e (refl, (λ x. cc, λ x. cc))
  settle-pending operation handler write op c s e = rw e (refl, (λ x. cc, λ x. cc))
  settle-pending operation handler timeout op c s e = rw e (refl, (λ x. cc, λ x. cc))

  -- Where the client library suspends the query of an open connection on which no operation waits,
  -- `async_query` calls no handler, and it keeps the handler, in an operation that waits, exactly if
  -- the status asks for a read, a write or a timeout: otherwise (for an exceptional event alone) the
  -- operation is destroyed, and its handler is lost. The call has written no value that reads as a
  -- success, and reports no error.
  pub async_query-dropped :
      (stmt : Bytes) (handler status : ℕ) (r : ℤ) (m : L.Handle) (s : Reactor L)
      → s.conn.conn.initialized ≡ true
      → s.pending ≡ []
      → N.query_start stmt (negsuc 0) (freed L N operation_aborted s.conn.conn).mysql
        ≡ (status, r, m)
      → status ≢ 0
      → int_failed r ≡ true
      → L.errno m ≡ 0
      → let s' = step L N operation_aborted nonblock s (queries stmt handler) in
        (s'.called ≡ s.called)
        × (s'.pending ≡ [] ↔ (
            (bit_and status N.wait_read ≡ 0)
            × (bit_and status N.wait_write ≡ 0)
            × (bit_and status N.wait_timeout ≡ 0)))
  unfolding step
  async_query-dropped stmt handler status r m s opened idle e waiting fails quiet =
      let c : MariaConn L =
        set_mysql L N m (record (s.conn) { conn = freed L N operation_aborted s.conn.conn }) in
      let op = query_op L N operation_aborted s.conn.conn.cancelation_token stmt r in
      let ec = call_error L N status (int_failed r) m in
      let (called, (to, from)) =
        settle-pending querying handler (wait_for L N status) op (async_wait_mysql L N status c).1 s
          idle in
      let (there, back) = wait_for-nothing status in
      rw
        (
          async_query_begins L N operation_aborted stmt s.conn opened,
          e,
          after_call_waits L N op status ec c waiting
              (call_error_suspended L N status (int_failed r) m waiting fails quiet),
        )
        (called, (λ x. there (to x), λ x. from (back x)))
