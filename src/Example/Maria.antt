-- ===== src/Example/Maria.antt =====
-- example/mariadb_async_multi_query.cpp and mariadb_async_single_query.cpp: the handlers of the
-- programs, and `io_service.run()` with the composed operation of `mariadb_service` that is under way.
-- The handlers that `std::bind` makes are numbers, as in Example.Async.
pub mod Steps
pub mod Start
pub mod Connection
pub mod Multi
pub mod Single
pub mod Output
pub mod Uncaught
use amy.Prelude.{
  ℕ, zero, suc, ◌==◌, ◌||◌, not, Bool, true, false, Option, none, some, List, [], if◌then◌else◌,
}
use amy.Errors.{ErrorCode, is_error, success}
use amy.Client.{ClientLib, Bytes, null}
use amy.Results.{ResultSet}
use amy.Service
use amy.Service.{Conn, default_flags}
use amy.Maria
use amy.Maria.{NonBlocking, MariaConn, Next, invokes, waits, nothing, event_status, set_option}
use amy.Maria.Blocking
use amy.Maria.Connect.{connect_resume, async_connect}
use amy.Maria.Query.{query_resume, async_query}
use amy.Maria.Store.{store_resume, async_store_result}
use amy.Maria.QueryResult.{result_resume}
use amy.Maria.Reactor.{Operation, connecting, querying, storing, reading}
use amy.Example.{Line, Ending, finished, failed, range_error, uncaught, Ran, prepend, Printed}
use amy.Example.Print.{print_result_set, print_pairs}
use amy.Example.Blocking.{Options}
use amy.Example.Async.{handle_connect, handle_query, handle_store_result, set_of}

-- An initiating function has been called with this handler: it posts the handler, or runs the composed
-- operation.
pub record Started (L : ClientLib) : Type 0 where
  pub handler : ℕ
  pub posted : Bool
  pub call : Next L (Operation L)

-- What a handler comes to after it has printed: an exception, its end, or another call.
pub data Then (L : ClientLib) : Type 0 where
  throws : Ending → Then L
  over : Then L
  starts : Started L → Then L

abbrev pub Handlers : ClientLib → Type 0
Handlers L = ℕ → ErrorCode → Option ResultSet → MariaConn L → List Line × Then L

-- An exception, within `io_service.run()` or before it: only the call of that stands in a `try`.
abbrev pub leaves : Bool → Ending → Ending
leaves true e = e
leaves false (failed ec text) = uncaught
leaves false range_error = uncaught
leaves false e = e

abbrev pub lift : {L : ClientLib} {S : Type 0} → (S → Operation L) → Next L S → Next L (Operation L)
lift operation (invokes ec rs c) = invokes ec rs c
lift operation (waits w s c) = waits w (operation s) c

module _ (L : ClientLib) (N : NonBlocking L) (operation_aborted : ErrorCode) (nonblock : ℕ) where
  -- `operator()` of the composed operation.
  unfoldable pub resume : Operation L → ErrorCode → ℕ → MariaConn L → Next L (Operation L)
  resume (connecting op) ec status c =
      lift connecting (connect_resume L N operation_aborted nonblock op ec status c)
  resume (querying op) ec status c =
      lift querying (query_resume L N operation_aborted op ec status c)
  resume (storing op) ec status c = lift storing (store_resume L N operation_aborted op ec status c)
  resume (reading op) ec status c =
      lift reading (result_resume L N operation_aborted op ec status c)

  -- The program from a call on, with fuel; the `Bool` says whether `io_service.run()` has been called.
  -- An operation calls its handler at once where none of its calls is suspended. Else it waits, which
  -- ends without an error, and `operator()` is called by `io_service.run()`. That ends where nothing
  -- is left to wait for.
  unfoldable pub io_run : Handlers L → ℕ → Bool → ℕ → Next L (Operation L) → Ran L
  unfolding resume
  io_run handlers zero inside h next = none
  io_run handlers (suc fuel) inside h (waits nothing op c) = some ([], finished, c.conn)
  io_run handlers (suc fuel) inside h (waits w op c) =
      io_run handlers fuel true h (resume op success (event_status L N w) c)
  io_run handlers (suc fuel) inside h (invokes ec rs c) =
      let (ls, next) = handlers h ec rs c in
      elim next [
        | throws e ↦ some (ls, leaves inside e, c.conn)
        | over ↦ some (ls, finished, c.conn)
        | starts s ↦ prepend L ls (io_run handlers fuel (inside || s.posted) s.handler s.call)
      ]

  -- `check_error(ec)`, before the rest of a handler. Its `what()` is the message of the code.
  abbrev pub check_error : ErrorCode → List Line × Then L → List Line × Then L
  check_error ec rest =
      if is_error ec then ([], throws (failed ec (Service.message L ec))) else rest

  -- What follows the output of a handler.
  abbrev pub shown : Printed → Then L → List Line × Then L
  shown (ls, some e) next = (ls, throws e)
  shown (ls, none) next = (ls, next)

  -- Whether `async_connect` posts its handler: where the connection cannot be opened, or the option
  -- cannot be set.
  unfoldable pub connect_posts : MariaConn L → Bool
  unfolding set_option Service.open_conn
  connect_posts c =
      let (ec, c') = Service.open_conn L c.conn in
      if Service.is_open L c.conn
      then is_error (set_option L N nonblock null c).0
      else is_error ec || is_error (set_option L N nonblock null (record c { conn = c' })).0

  -- Each of the programs calls these in one way.
  unfoldable pub start_query : Bytes → MariaConn L → Started L
  unfolding async_query
  start_query stmt c = record {
    handler = handle_query;
    posted = not (Service.is_open L c.conn);
    call = lift querying (async_query L N operation_aborted stmt c);
  }

  unfoldable pub start_store_result : MariaConn L → Started L
  unfolding async_store_result
  start_store_result c = record {
    handler = handle_store_result;
    posted = not (Service.is_open L c.conn);
    call = lift storing (async_store_result L N operation_aborted c);
  }

  module _ (opts : Options) (stmt : Bytes) where
    -- The handlers of mariadb_async_multi_query.cpp.
    unfoldable pub multi_handlers : Handlers L
    unfolding start_query start_store_result print_result_set Maria.Blocking.has_more_results
    multi_handlers h ec rs c = check_error ec (
        if h == handle_connect
        then ([], starts (start_query stmt c))
        else if h == handle_query
        then ([], starts (start_store_result c))
        else shown (print_result_set L c.conn (set_of L operation_aborted rs))
            (if Maria.Blocking.has_more_results L N c then starts (start_store_result c) else over))

    -- The handlers of mariadb_async_single_query.cpp.
    unfoldable pub single_handlers : Handlers L
    unfolding start_query start_store_result print_pairs
    single_handlers h ec rs c = check_error ec (
        if h == handle_connect
        then ([], starts (start_query stmt c))
        else if h == handle_query
        then ([], starts (start_store_result c))
        else shown (print_pairs L c.conn (set_of L operation_aborted rs)) over)

    -- `main`, with the handlers and the flags.
    unfoldable pub main : Handlers L → ℕ → ℕ → MariaConn L → Ran L
    unfolding io_run connect_posts async_connect
    main handlers flags fuel c = io_run handlers fuel (connect_posts c) handle_connect (
        lift connecting (
          async_connect L N operation_aborted nonblock opts.tcp_endpoint opts.auth_info opts.schema
            flags c))

    unfoldable pub mariadb_async_multi_query : ℕ → MariaConn L → Ran L
    unfolding main multi_handlers
    mariadb_async_multi_query = main multi_handlers L.client_multi_statements

    unfoldable pub mariadb_async_single_query : ℕ → MariaConn L → Ran L
    unfolding main single_handlers
    mariadb_async_single_query = main single_handlers default_flags
