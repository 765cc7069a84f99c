-- ===== src/Tests/Example.antt =====
-- The programs of example/ over the scripted library.
mod Maria
use amy.Prelude.{◌≡◌, refl, Option, none, List, some, [], ◌∷◌, map, arith}
use amy.Prelude.Int.{pos}
use amy.Errors.{client_error}
use amy.Auth.{with_password, tcp}
use amy.Client.{ClientLib, FieldDef}
use amy.Client.Scripted.{Session, refuses, answers, scripted, delivery, protocol, open_table}
use amy.Service
use amy.Service.{new_conn}
use amy.Service.MoreResults.{table}
use amy.Example.{
  Ran, Line, counts, row_line, pairs, affected, connected_line, Ending, finished, failed,
  without_text,
}
use amy.Values.{value_cast_string, value_cast_long}
use amy.Example.Print.{print_result_set}
use amy.Example.Blocking.{
  Options, blocking_multi_query, blocking_single_query, blocking_execute, blocking_connect,
}
use amy.Example.Async.{
  async_multi_query, async_single_query, async_execute_main, async_connect_main,
}
use amy.Example.Agreement.Multi.{async_multi_query-blocking_multi_query}
use amy.Example.Agreement.Single.{async_single_query-blocking_single_query}
use amy.Example.Results.{Prints}
use amy.Example.Output.{multi_query-Prints}
use amy.Tests.{lib, session, numbers, names}
use amy.Tests.Async.{canceled}

abbrev opts : Options
opts = record { tcp_endpoint = tcp [] 3306; auth_info = with_password [] []; schema = [] }

-- What a run has printed and how it has ended.
abbrev seen : {L : ClientLib} → Ran L → Option (List Line × Ending)
seen none = none
seen (some (ls, e, c)) = some (ls, e)

blocking_multi_query_run :
    seen (blocking_multi_query lib opts [] 5 (new_conn lib))
    ≡ some (
      counts 7 3 2
          ∷ row_line (b'1' ∷ b' ' ∷ b'n' ∷ b'u' ∷ b'l' ∷ b'l' ∷ b' ' ∷ [])
          ∷ row_line (b'2' ∷ b' ' ∷ b'x' ∷ b'y' ∷ b' ' ∷ [])
          ∷ counts 7 2 0
          ∷ counts 7 1 1
          ∷ row_line (b'a' ∷ b' ' ∷ [])
          ∷ [],
      finished,
    )
unfolding blocking_multi_query new_conn amy.Connector.throwing Service.connect Service.query
    Service.has_more_results Service.store_result amy.Results.fetch_rows amy.Results.fetch_fields
    client_error print_result_set amy.Results.Access.then_access amy.Service.Access.print_row
    Service.size
blocking_multi_query_run = refl

-- A server that refuses the statement, and one that answers with a column of text and one of numbers.
abbrev refusing : Session
refusing = record session { replies = refuses 1064 ∷ [] }

abbrev column : FieldDef
column = record { name = b'n' ∷ 0 ∷ []; name_length = 1; length = 4; max_length = 4; flags = 0 }

abbrev charsets : Session
charsets = record session {
  replies =
      answers (
        some (record {
          width = 2;
          columns = column ∷ column ∷ [];
          rows = (some (b'u' ∷ []) ∷ some (b'4' ∷ []) ∷ []) ∷ [];
        })
        ∷ [])
      ∷ [];
}

async_multi_query_refused :
    seen (async_multi_query (scripted refusing) canceled opts [] 14 (new_conn (scripted refusing)))
    ≡ some ([], failed (client_error 1064) (some "Unknown error"))
unfolding async_multi_query new_conn Service.open_conn Service.connect_open Service.run_query
    client_error Service.message amy.Errors.ClientCode.cases amy.Errors.Messages.position
async_multi_query_refused = refl

async_single_query_run :
    seen (async_single_query (scripted charsets) canceled opts [] 8 (new_conn (scripted charsets)))
    ≡ some (counts 7 1 1 ∷ pairs (b'n' ∷ []) (b'u' ∷ []) (b'n' ∷ []) (pos 4) ∷ [], finished)
unfolding async_single_query new_conn Service.open_conn Service.connect_open Service.run_query
    Service.advance Service.retrieve amy.Results.fetch_rows amy.Results.fetch_fields client_error
    amy.Results.Access.then_access Service.size amy.Results.FieldInfo.name value_cast_string
    value_cast_long
async_single_query_run = refl

-- `execute` prints the affected rows, and `async_execute` none.
execute_runs :
    (seen (blocking_execute lib opts [] (new_conn lib)) ≡ some (affected 7 ∷ [], finished))
    × (seen (async_execute_main lib canceled opts [] 9 (new_conn lib))
        ≡ some (affected 0 ∷ [], finished))
unfolding blocking_execute async_execute_main new_conn amy.Connector.throwing Service.connect
    Service.query Service.affected_rows amy.Async.async_query
execute_runs = (refl, refl)

async_multi_query-blocking_multi_query_example :
    without_text lib (blocking_multi_query lib opts [] 5 (new_conn lib))
    ≡ without_text lib (async_multi_query lib canceled opts [] 14 (new_conn lib))
unfolding new_conn Service.multi_results
async_multi_query-blocking_multi_query_example =
    async_multi_query-blocking_multi_query lib canceled opts [] 5 (new_conn lib) refl refl

async_single_query-blocking_single_query_example :
    let L = scripted charsets in
    without_text L (blocking_single_query L opts [] (new_conn L))
    ≡ without_text L (async_single_query L canceled opts [] 8 (new_conn L))
unfolding new_conn
async_single_query-blocking_single_query_example =
    async_single_query-blocking_single_query (scripted charsets) canceled opts [] 0
      (new_conn (scripted charsets)) refl

multi_query-Prints_example :
    let sets =
      map
        (table lib (delivery session))
        (some (open_table numbers) ∷ none ∷ some (open_table names) ∷ []) in
    Prints lib sets (blocking_multi_query lib opts [] 5 (new_conn lib))
    × Prints lib sets (async_multi_query lib canceled opts [] 14 (new_conn lib))
unfolding new_conn Service.connect Service.query Service.multi_results
multi_query-Prints_example =
    multi_query-Prints lib (delivery session) (protocol session) canceled opts [] 5
      (some (open_table numbers)) (none ∷ some (open_table names) ∷ []) (new_conn lib) refl refl
      refl refl refl (omega arith, (tt, (omega arith, tt))) (omega arith)

connect_runs :
    (seen (blocking_connect lib opts [] (new_conn lib)) ≡ some (connected_line ∷ [], finished))
    × (seen (async_connect_main lib canceled opts [] 9 (new_conn lib))
        ≡ some (connected_line ∷ [], finished))
unfolding blocking_connect async_connect_main new_conn amy.Connector.throwing Service.connect
connect_runs = (refl, refl)
