-- ===== src/Tests/Example/Maria.antt =====
-- The programs over mariadb_service over the scripted library.
use amy.Prelude.{◌≡◌, refl, none, some, [], ◌∷◌, map, true, false, arith}
use amy.Errors.{client_error}
use amy.Client.{ClientLib}
use amy.Client.Scripted.{Session, scripted, delivery, protocol, open_table}
use amy.Service
use amy.Service.{Conn, new_conn}
use amy.Service.MoreResults.{table}
use amy.Maria.{NonBlocking, MariaConn, wait_for, nothing}
use amy.Maria.Chain.{Completes}
use amy.Maria.Connect.Agreement.{prepared}
use amy.Example.{counts, row_line, finished, uncaught, failed, without_text}
use amy.Example.Print.{print_result_set}
use amy.Example.Blocking.{blocking_multi_query, blocking_single_query}
use amy.Example.Agreement.{Matches}
use amy.Example.Results.{Prints}
use amy.Example.Maria.{mariadb_async_multi_query, mariadb_async_single_query}
use amy.Example.Maria.Multi.{mariadb_async_multi_query-Matches}
use amy.Example.Maria.Single.{mariadb_async_single_query-blocking_single_query}
use amy.Example.Maria.Output.{mariadb_async_multi_query-Prints}
use amy.Example.Maria.Uncaught.{refused, mariadb_async_multi_query-uncaught}
use amy.Tests.{lib, session, numbers, names}
use amy.Tests.Example.{opts, seen, charsets}
use amy.Tests.Async.{canceled}
use amy.Tests.Maria.{
  waiting, closed_maria, prompt, suspending, suspending_asks_read, suspending-Answers,
}

mariadb_async_multi_query_run :
    seen (mariadb_async_multi_query lib (waiting 1) canceled 6000 opts [] 20 closed_maria)
    ≡ some (
      counts 7 3 2
          ∷ row_line (b'1' ∷ b' ' ∷ b'n' ∷ b'u' ∷ b'l' ∷ b'l' ∷ b' ' ∷ [])
          ∷ row_line (b'2' ∷ b' ' ∷ b'x' ∷ b'y' ∷ b' ' ∷ [])
          ∷ counts 7 2 0
          ∷ counts 7 1 1
          ∷ row_line (b'a' ∷ b' ' ∷ [])
          ∷ [],
      finished,
    )
unfolding mariadb_async_multi_query new_conn print_result_set amy.Maria.after_call Service.allocate
    client_error amy.Maria.async_wait_mysql Service.free_result Service.assign_last
    Service.reset_result amy.Results.fetch_rows amy.Results.fetch_fields
    amy.Results.Access.then_access amy.Service.Access.print_row Service.multi_results
    amy.Auth.connect_args Service.has_more_results Service.size
mariadb_async_multi_query_run = refl

-- A library that cannot connect.
abbrev offline : ClientLib
offline = record lib { real_connect = λ args m. (false, record m { last_errno = 2003 }) }

abbrev closed : (s : Session) → MariaConn (scripted s)
closed s = record { conn = new_conn (scripted s); ev = none; timer = true }

mariadb_async_multi_query-Matches_example :
    Matches lib
      (blocking_multi_query lib opts [] 5
        (prepared lib (suspending session) canceled 6000 (new_conn lib)))
      (mariadb_async_multi_query lib (suspending session) canceled 6000 opts [] 30 (closed session))
unfolding new_conn Service.open_conn Service.set_option Service.multi_results amy.Ops.mysql_init
    amy.Ops.mysql_options
mariadb_async_multi_query-Matches_example =
    mariadb_async_multi_query-Matches lib (suspending session) canceled 6000 opts [] 1 5 1 30
      (closed session) (suspending-Answers session) refl refl refl
      (Completes.suspended (omega arith) (suspending_asks_read session) refl refl
        (Completes.done refl refl refl))
      (omega arith) (omega arith)

mariadb_async_single_query-blocking_single_query_example :
    let L = scripted charsets in
    without_text L (
      blocking_single_query L opts [] (prepared L (suspending charsets) canceled 6000 (new_conn L)))
    ≡ without_text L (
        mariadb_async_single_query L
          (suspending charsets)
          canceled
          6000
          opts
          []
          9
          (closed charsets))
unfolding new_conn Service.open_conn Service.set_option amy.Ops.mysql_init amy.Ops.mysql_options
mariadb_async_single_query-blocking_single_query_example =
    mariadb_async_single_query-blocking_single_query (scripted charsets) (suspending charsets)
      canceled 6000 opts [] 1 1 9 (closed charsets) (suspending-Answers charsets) refl refl
      (Completes.suspended (omega arith) (suspending_asks_read charsets) refl refl
        (Completes.done refl refl refl))
      (omega arith) (omega arith)

mariadb_async_multi_query-Prints_example :
    Prints lib
      (map
        (table lib (delivery session))
        (some (open_table numbers) ∷ none ∷ some (open_table names) ∷ []))
      (mariadb_async_multi_query lib (suspending session) canceled 6000 opts [] 30 (closed session))
unfolding new_conn Service.open_conn Service.set_option Service.multi_results Service.connect
    Service.query amy.Ops.mysql_init amy.Ops.mysql_options
mariadb_async_multi_query-Prints_example =
    mariadb_async_multi_query-Prints lib (suspending session) (delivery session) (protocol session)
      canceled 6000 opts [] 1 1 30 (some (open_table numbers)) (none ∷ some (open_table names) ∷ [])
      (closed session) (suspending-Answers session) refl refl refl
      (Completes.suspended (omega arith) (suspending_asks_read session) refl refl
        (Completes.done refl refl refl))
      (omega arith) refl refl refl (omega arith, (tt, (omega arith, tt))) (omega arith)

abbrev offline_maria : MariaConn offline
offline_maria = record { conn = new_conn offline; ev = none; timer = true }

abbrev unreached : Session
unreached = record session { last_errno = 2003 }

mariadb_async_multi_query-uncaught_example :
    let after =
      refused offline (prompt offline) canceled 6000 opts 65536 unreached (new_conn offline) in
    (mariadb_async_multi_query offline (prompt offline) canceled 6000 opts [] 1 offline_maria
      ≡ some ([], uncaught, after))
    × (without_text offline (
          blocking_multi_query offline opts [] 5
            (prepared offline (prompt offline) canceled 6000 (new_conn offline)))
        ≡ some ([], failed (client_error 2003) none, after))
unfolding new_conn Service.open_conn Service.set_option amy.Ops.mysql_init amy.Ops.mysql_options
mariadb_async_multi_query-uncaught_example =
    mariadb_async_multi_query-uncaught offline (prompt offline) canceled 6000 opts [] 5 0 unreached
      offline_maria refl refl refl refl (omega arith)
