-- ===== src/Lib.antt =====
-- amy: a header-only C++ client for MySQL and MariaDB, blocking and asynchronous, over Asio.
--
-- The parts. A connector (include/amy/basic_connector.hpp) belongs to the user and passes each call on
-- to a service, with the connection that it owns. The service is mysql_service
-- (include/amy/mysql_service.hpp, include/amy/impl/mysql_service.ipp), whose asynchronous functions
-- run the blocking calls of the client library on a thread of their own, or mariadb_service
-- (include/amy/mariadb_service.hpp, include/amy/impl/mariadb_service.ipp), whose asynchronous
-- functions are composed operations over the non-blocking calls of MariaDB's library. Both call the
-- client library through include/amy/detail/mysql_ops.hpp and include/amy/detail/mariadb_ops.hpp,
-- which turn its errors into error codes (include/amy/error.hpp). store_result hands out result sets
-- of rows and fields (include/amy/result_set.hpp, row.hpp, field.hpp). On top of a connector stand an
-- iterator over results (basic_results_iterator.hpp), a scoped transaction
-- (basic_scoped_transaction.hpp) and execute (execute.hpp).
--
-- The files.
--   Prelude: shared names, tests on numbers, list lemmas, signed integers.
--   Errors: error.hpp and detail/throw_error.hpp: the two enumerations (ClientError, MiscError), the
--     messages of the two categories, exceptions as values (Outcome). Errors.SystemError:
--     system_error.hpp.
--   Client: the client library as a record of functions over unknown types, what its manual says of
--     results (Protocol), and a library with a scripted server that meets it (Scripted).
--   Auth: auth_info.hpp and endpoint_traits.hpp.
--   Ops: detail/mysql_ops.hpp, a function of the same name for each wrapper.
--   Results: field, row, result_set and result_set::assign; Results.Fetch, Results.Shape and
--     Results.Termination on its loops. Results.Access: at of a row and printing; an access is a
--     value, an exception or undefined (Access). Results.FieldInfo: field_info.hpp, where the bits of
--     the flags are parameters.
--   Service: the implementation struct as the record Conn, with the results that the library has
--     allocated for it, and each blocking function of mysql_service under its own name: new_conn is
--     the constructor, open_conn is open. store_result is advance and then retrieve.
--     The library allocates a result when its call returns (allocate), also in the handlers of Maria,
--     whose operations keep its address until last_result takes it. Service.Allocation is on the two
--     steps together, Service.MoreResults on stepping through the results, Service.Ownership on what
--     is allocated,
--     Service.Expiry on result sets that outlive their result, Service.Closed on closed connections
--     and messages. Service.Access: the accessors of result_set.hpp; Service.Cells and
--     Service.Printing on what is reached through them. Service.Typed: programs over the functions,
--     indexed by what is known of the connection.
--   Async: the work queue, the work thread and the handlers of mysql_service. Async.Blocking compares
--     them with the blocking functions; Async.Completions, Async.Cancel and Async.Tokens are on
--     interleavings of the user's calls with the work thread, Async.Order and Async.Jobs on their
--     order, Async.Ownership on the results under them.
--   Maria: mysql_start, mysql_continue, async_wait_mysql and the connection of mariadb_service;
--     Maria.Connect, Maria.Query and Maria.Store: connect_handler, query_handler and
--     store_result_handler, each with a comparison with the blocking function in Agreement
--     (Maria.Store.NextResult for the results after the first); Maria.Chain on suspended calls,
--     Maria.Cancel on closing. Maria.QueryResult: query_result_handler, compared with query and
--     store_result in turn. Maria.Reactor: all composed operations of one connection, with their
--     events in any order; Maria.Reactor.Ownership on the results, Maria.Reactor.Completions on
--     the handlers, where the library asks for events that are known (Maria.Reactor.Asks),
--     Maria.Reactor.Dropped on an operation that waits for nothing, Maria.Reactor.Waiting and Maria.Reactor.Sequence on calls that are made one
--     after the other. Maria.Answers: what is assumed of all suspended calls, and what the
--     operations then do. Maria.Ops: detail/mariadb_ops.hpp, two functions for each call.
--     Maria.Blocking: the blocking functions, compared with those of mysql_service for any
--     sequence of calls.
--   Values: detail/value_cast.hpp and field::as, with the integer types of sql_types.hpp;
--     Values.Digits is on decimal text, Values.RoundTrip on text that a server sends,
--     Values.Saturation on integers that the type does not have. Values.Time: the conversions that other libraries do, which are
--     parameters, and the sign of a TIME.
--   Connector: both overloads of each call, and query_result; Connector.Iterator,
--     Connector.Transaction and Connector.Execute for the three headers above, with async_execute in
--     Connector.AsyncExecute; Connector.Asynchronous for the asynchronous functions; Connector.Cells
--     on a value of a result.
--   Options: detail/mysql_option.hpp, options.hpp and mariadb_options.hpp, with the numbers as
--     parameters.
--   LibInit: detail/mysql_lib_init.hpp.
--   Example: the programs of example/, as what they print and how they end. Example.CommandLine:
--     their options and the statement that they read (utils.cpp). Example.Print: what they print
--     of a result set. Example.Blocking and Example.Async: a function for each main, and for the
--     handlers, with io_service.run() and the work thread as io_run. Example.Agreement compares
--     the two ways of waiting; Example.Text, Example.Results and Example.Output are on what is
--     printed of the answers of a server. Example.Maria: the two programs over mariadb_service,
--     with io_service.run() on the composed operation under way; its modules compare them with the
--     blocking programs (Multi, Single, and Start and Connection for what these share), say what
--     is printed (Output), and follow an exception out of main (Uncaught).
--   Tests: runs over the scripted library, and the theorems of the list below at concrete data.
--
-- State and errors. A function takes the old value of the connection and returns the new one. A
-- function that writes its error code on every path does not take the old code; store_result reads it,
-- and takes it. Exceptions are the constructor thrown of Outcome. A weak pointer is expired when the
-- number of the control block it was made from has changed (cancelation_token) or the result at its
-- address has been freed (result sets). A handler of the user is a number, and what is posted to the
-- user's io_service is a list of completions.
--
-- Fuel. fetch_rows and fetch_fields make at most num_rows + 1 and num_fields + 1 calls, as many as the
-- loops make on a stored result. for_each, a loop over an iterator, takes more than the number of
-- results, as does visit, the same loop in the programs; io_run, twice that and four; and drive, the
-- event loop on a composed operation, more than the number of its suspensions. io_run of Example.Maria
-- takes a step for each suspension and each handler, wait_all one for each event; the bounds stand in
-- the theorems.
--
-- Parameters. The client library, the values of its CR_* macros and of two client flags, the messages
-- of the system category, Asio's operation_aborted, the numbers of options and flags of columns, and
-- what strtod, strtof and the streams of Boost.Date_Time read; for the programs, the statement and
-- what getopt_long, atoi and Asio's addresses return. What the theorems assume of the library is in
-- Client.Protocol, in Completes of Maria.Chain, in Maria.Answers and in AsksEvents of
-- Maria.Reactor.Asks.
--
-- Not modelled. A handler on the work thread is one step, so the user's thread does not touch the
-- connection while a handler runs. Two copies of a result set share their rows in the source; the rows
-- are not changed after assign, so a copy is a value here. `errno = 0` is left out, since nothing
-- reads errno. The iterators of rows and fields are those of std::vector. mysql_library_end runs at
-- exit. What stands on the standard input is a parameter. In Example.Maria each
-- wait ends without an error, since only one operation of the program waits. Includes and tests have
-- no logic of their own.
pub mod Prelude
pub mod Errors
pub mod Client
pub mod Auth
pub mod Ops
pub mod Results
pub mod Service
pub mod Connector
pub mod Async
pub mod Maria
pub mod Options
pub mod Values
pub mod LibInit
pub mod Example
mod Tests
