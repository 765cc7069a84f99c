-- ===== src/Example/Async.antt =====
-- example/async_multi_query.cpp, async_single_query.cpp, async_execute.cpp and async_connect.cpp: the
-- handlers of the programs, and `io_service.run()` with the work thread of `mysql_service` beside it.
-- The handlers that `std::bind` makes are numbers.
pub mod Steps
use amy.Prelude.{
  ℕ, zero, suc, ◌≡◌, ◌==◌, Bool, true, false, Option, none, some, List, [], ◌∷◌, ◌++◌,
  if◌then◌else◌,
}
use amy.Errors.{ErrorCode, is_error}
use amy.Client.{ClientLib, Bytes}
use amy.Results.{ResultSet, empty_set}
use amy.Service
use amy.Service.{Conn, default_flags}
use amy.Async
use amy.Async.{System, Completion, work_step}
use amy.Connector.Asynchronous.{async_connect, async_query, async_store_result}
use amy.Connector.Execute.{execute_handler}
use amy.Connector.AsyncExecute.{async_execute}
use amy.Example.{Line, affected, connected_line, Ending, finished, failed, Ran, prepend, Printed}
use amy.Example.Print.{print_result_set, print_pairs}
use amy.Example.Blocking.{Options}

abbrev pub handle_connect : ℕ
handle_connect = 0

abbrev pub handle_query : ℕ
handle_query = 1

abbrev pub handle_store_result : ℕ
handle_store_result = 2

abbrev pub handle_execute : ℕ
handle_execute = 3

-- What a handler has printed, how the program ends if it does, and the system after it.
abbrev pub Handled : ClientLib → Type 0
Handled L = List Line × Option Ending × System L

-- A handler of the user, called by a completion.
abbrev pub Handlers : ClientLib → Type 0
Handlers L = ℕ → ErrorCode → Option ResultSet → System L → Handled L

module _ (L : ClientLib) (operation_aborted : ErrorCode) where
  -- `check_error(ec)`, before the rest of a handler: the exception leaves `io_service.run()`. Its
  -- `what()` is the message of the code.
  abbrev pub check_error : ErrorCode → System L → Handled L → Handled L
  check_error ec s rest =
      if is_error ec then ([], some (failed ec (Service.message L ec)), s) else rest

  -- The result set of a completion.
  abbrev pub set_of : Option ResultSet → ResultSet
  set_of none = empty_set
  set_of (some rs) = rs

  -- `io_service.run()`, with fuel: a completion calls its handler, and while there is none the work
  -- thread runs its first handler. It ends when there is neither.
  unfoldable pub io_run : Handlers L → ℕ → System L → Ran L
  unfolding work_step
  io_run handlers zero s = none
  io_run handlers (suc fuel) s = elim s.posted [
    | k ∷ ks ↦
        let (ls, over, s') = handlers k.handler k.ec k.result (record s { posted = ks }) in
        let rest = io_run handlers fuel s' in
        elim over [ some e ↦ some (ls, e, s'.conn) | none ↦ prepend L ls rest ]
    | [] ↦
        let rest = io_run handlers fuel (work_step L operation_aborted s) in
        elim s.work [ [] ↦ some ([], finished, s.conn) | _ ∷ _ ↦ rest ]
  ]

  -- A system whose service has done nothing yet.
  abbrev pub start : Conn L → System L
  start c = record { conn = c; work_io_service = true; work_thread = false; work = []; posted = [] }

  module _ (opts : Options) (stmt : Bytes) where
    -- `main`, up to the handler of the connection.
    abbrev pub connecting : ℕ → Conn L → System L
    connecting flags c =
        async_connect L operation_aborted opts.tcp_endpoint opts.auth_info opts.schema flags
          handle_connect (start c)

    -- The handlers of async_multi_query.cpp.
    unfoldable pub multi_handlers : Handlers L
    unfolding Async.async_query Async.async_store_result print_result_set
    multi_handlers h ec rs s = check_error ec s (
        if h == handle_connect
        then ([], none, async_query L operation_aborted stmt handle_query s)
        else if h == handle_query
        then ([], none, async_store_result L operation_aborted handle_store_result s)
        else (let (ls, over) = print_result_set L s.conn (set_of rs) in
            (
              ls,
              over,
              (if Service.has_more_results L s.conn
                  then async_store_result L operation_aborted handle_store_result s
                  else s),
            )))

    -- The handlers of async_single_query.cpp.
    unfoldable pub single_handlers : Handlers L
    unfolding Async.async_query Async.async_store_result print_pairs
    single_handlers h ec rs s = check_error ec s (
        if h == handle_connect
        then ([], none, async_query L operation_aborted stmt handle_query s)
        else if h == handle_query
        then ([], none, async_store_result L operation_aborted handle_store_result s)
        else (let (ls, over) = print_pairs L s.conn (set_of rs) in (ls, over, s)))

    -- The handlers of async_execute.cpp; that of the statement is called through `execute_handler`.
    unfoldable pub execute_handlers : Handlers L
    unfolding async_execute execute_handler
    execute_handlers h ec rs s =
        let (ec', rows) = execute_handler L ec s.conn in
        if h == handle_connect
        then check_error ec s ([], none, async_execute L operation_aborted stmt handle_execute s)
        else check_error ec' s (affected rows ∷ [], none, s)

    -- The handler of async_connect.cpp.
    unfoldable pub connect_handlers : Handlers L
    connect_handlers h ec rs s = check_error ec s (connected_line ∷ [], none, s)

    -- `main` of the four programs.
    unfoldable pub async_multi_query : ℕ → Conn L → Ran L
    unfolding io_run multi_handlers Async.async_connect
    async_multi_query fuel c = io_run multi_handlers fuel (connecting L.client_multi_statements c)

    unfoldable pub async_single_query : ℕ → Conn L → Ran L
    unfolding io_run single_handlers Async.async_connect
    async_single_query fuel c = io_run single_handlers fuel (connecting default_flags c)

    unfoldable pub async_execute_main : ℕ → Conn L → Ran L
    unfolding io_run execute_handlers Async.async_connect
    async_execute_main fuel c = io_run execute_handlers fuel (connecting default_flags c)

    unfoldable pub async_connect_main : ℕ → Conn L → Ran L
    unfolding io_run connect_handlers Async.async_connect
    async_connect_main fuel c = io_run connect_handlers fuel (connecting default_flags c)
