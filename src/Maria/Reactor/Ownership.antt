-- ===== src/Maria/Reactor/Ownership.antt =====
-- The results that are allocated while composed operations of one connection interleave.
pub mod OneCall
pub mod Store
pub mod QueryResult
use amy.Prelude.{
  ℕ, ◌≡◌, refl, Bool, if◌then◌else◌, true, false, Option, none, some, List, [], ◌∷◌, arith, inl,
  inr, Bool-cases,
}
use amy.Errors.{ErrorCode, is_error}
use amy.Client.{ClientLib}
use amy.Service
use amy.Service.Ownership.{
  IsOwned, SameResults-IsOwned, free_result-IsOwned, end_session-IsOwned, cancel-IsOwned,
  new_conn-IsOwned,
}
use amy.Maria.{
  NonBlocking, MariaConn, read, write, timeout, nothing, Next, invokes, waits, event_status, close,
  close_impl, construct,
}
use amy.Maria.Blocking.{cancel}
use amy.Maria.Reactor.{
  Operation, connecting, querying, storing, reading, Pending, Reactor, Happening, connects, queries,
  stores, queries_result, cancels, closes, happens, taken, settle, resume, happened, step, run,
  new_reactor,
}
use amy.Maria.Reactor.Ownership.OneCall.{
  Owned, query_resume-Owned, async_query-Owned, connect_resume-Owned, async_connect-Owned,
}
use amy.Maria.Reactor.Ownership.Store.{store_resume-Owned, async_store_result-Owned}
use amy.Maria.Reactor.Ownership.QueryResult.{result_resume-Owned, async_query_result-Owned}

module _ (L : ClientLib) (N : NonBlocking L) (operation_aborted : ErrorCode) (nonblock : ℕ) where
  settle-IsOwned :
      {S : Type 0} (operation : S → Operation L) (handler : ℕ) (n : Next L S) (s : Reactor L)
      → Owned L n
      → IsOwned L (settle L N operation_aborted nonblock operation handler n s).conn.conn
  unfolding settle
  settle-IsOwned operation handler (invokes ec rs c) s o = o
  settle-IsOwned operation handler (waits nothing op c) s o = o
  settle-IsOwned operation handler (waits read op c) s o = o
  settle-IsOwned operation handler (waits write op c) s o = o
  settle-IsOwned operation handler (waits timeout op c) s o = o

  resume-IsOwned :
      (operation : Operation L) (p : Pending L) (ec : ErrorCode) (s : Reactor L)
      → p.operation ≡ operation
      → is_error operation_aborted ≡ true
      → IsOwned L s.conn.conn
      → IsOwned L (resume L N operation_aborted nonblock p ec s).conn.conn
  unfolding resume
  resume-IsOwned (connecting op) p ec s e aborts o = rw e (
      settle-IsOwned connecting p.handler _ s (
        connect_resume-Owned L N operation_aborted nonblock op ec (event_status L N p.wait) s.conn
          o))
  resume-IsOwned (querying op) p ec s e aborts o = rw e (
      settle-IsOwned querying p.handler _ s
        (query_resume-Owned L N operation_aborted op ec (event_status L N p.wait) s.conn o))
  resume-IsOwned (storing op) p ec s e aborts o = rw e (
      settle-IsOwned storing p.handler _ s
        (store_resume-Owned L N operation_aborted op ec (event_status L N p.wait) s.conn aborts o))
  resume-IsOwned (reading op) p ec s e aborts o = rw e (
      settle-IsOwned reading p.handler _ s
        (result_resume-Owned L N operation_aborted op ec (event_status L N p.wait) s.conn aborts o))

  happened-IsOwned :
      (x : Option (Pending L × List (Pending L))) (ec : ErrorCode) (s : Reactor L)
      → is_error operation_aborted ≡ true
      → IsOwned L s.conn.conn
      → IsOwned L (happened L N operation_aborted nonblock x ec s).conn.conn
  unfolding happened
  happened-IsOwned none ec s aborts o = o
  happened-IsOwned (some (p, rest)) ec s aborts o =
      resume-IsOwned p.operation p ec (record s { pending = rest }) refl aborts o

  close_impl-IsOwned : (c : MariaConn L) → IsOwned L c.conn → IsOwned L (close_impl L N c).conn
  unfolding close_impl
  close_impl-IsOwned c o =
      let ended = Service.end_session L c.conn in
      cancel-IsOwned L (Service.free_result L ended)
        (free_result-IsOwned L ended (end_session-IsOwned L c.conn o))

  close-IsOwned : (c : MariaConn L) → IsOwned L c.conn → IsOwned L (close L N c).conn
  unfolding close
  close-IsOwned c o = choose (Service.is_open L c.conn)
    where
      choose : (b : Bool) → IsOwned L (if b then close_impl L N c else c).conn
      choose true = close_impl-IsOwned c o
      choose false = o

  cancel_maria-IsOwned : (c : MariaConn L) → IsOwned L c.conn → IsOwned L (cancel L N c).conn
  unfolding cancel
  cancel_maria-IsOwned c o = SameResults-IsOwned L {c = c.conn} (refl, refl, refl) o

  step-IsOwned :
      (s : Reactor L) (h : Happening)
      → is_error operation_aborted ≡ true
      → IsOwned L s.conn.conn
      → IsOwned L (step L N operation_aborted nonblock s h).conn.conn
  unfolding step
  step-IsOwned s (connects endpoint auth database flags handler) aborts o =
      settle-IsOwned connecting handler _ s
        (async_connect-Owned L N operation_aborted nonblock endpoint auth database flags s.conn o)
  step-IsOwned s (queries stmt handler) aborts o =
      settle-IsOwned querying handler _ s (async_query-Owned L N operation_aborted stmt s.conn o)
  step-IsOwned s (stores handler) aborts o =
      settle-IsOwned storing handler _ s
        (async_store_result-Owned L N operation_aborted s.conn aborts o)
  step-IsOwned s (queries_result stmt handler) aborts o =
      settle-IsOwned reading handler _ s
        (async_query_result-Owned L N operation_aborted stmt s.conn aborts o)
  step-IsOwned s cancels aborts o = cancel_maria-IsOwned s.conn o
  step-IsOwned s closes aborts o = close-IsOwned s.conn o
  step-IsOwned s (happens i ec) aborts o = happened-IsOwned (taken s.pending i) ec s aborts o

  run-IsOwned :
      (s : Reactor L) (hs : List Happening)
      → is_error operation_aborted ≡ true
      → IsOwned L s.conn.conn
      → IsOwned L (run L N operation_aborted nonblock s hs).conn.conn
  unfolding run
  run-IsOwned s [] aborts o = o
  run-IsOwned s (h ∷ hs) aborts o =
      run-IsOwned (step L N operation_aborted nonblock s h) hs aborts (step-IsOwned s h aborts o)

  -- On a new connection of `mariadb_service`, however the composed operations, the events that they
  -- wait for, cancelations and closes interleave, and whatever the client library answers, the results
  -- that it has allocated, from the end of the call that returns one, and that are not freed are
  -- exactly the one that `last_result` owns: the handlers leak none. The code `operation_aborted` is an error.
  pub run-construct-IsOwned :
      (hs : List Happening)
      → is_error operation_aborted ≡ true
      → IsOwned L (run L N operation_aborted nonblock (new_reactor L (construct L N)) hs).conn.conn
  unfolding construct
  run-construct-IsOwned hs aborts =
      run-IsOwned (new_reactor L (construct L N)) hs aborts (new_conn-IsOwned L)
