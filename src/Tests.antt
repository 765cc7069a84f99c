-- ===== src/Tests.antt =====
-- Runs over the scripted library, and the theorems at concrete data.
mod Async
mod Cells
mod Example
mod Maria
mod Reactor
mod Typed
mod Values
use amy.Prelude.{
  ◌≡◌, ◌≢◌, refl, true, false, none, some, [], ◌∷◌, ◌==◌, arith, map, if◌then◌else◌, ◌++◌, ◌≤◌, ◌<◌,
  ◌↔◌, inl,
}
use amy.Prelude.Int.{pos}
use amy.Errors.{
  ErrorCode, system, success, misc_error, not_initialized, no_more_results, commit_error,
  misc_message, client_message, client_error, client_code, is_error, throw_error,
}
use amy.Errors.ClientCode.{ClientError, text}
use amy.Errors.Messages.{
  client_message-code, misc_message-value, misc_message_out_of_bounds, misc_text, position,
  position-injective,
}
use amy.Client.{ClientLib, null}
use amy.Client.Scripted.{
  Table, Session, answers, scripted, delivery, protocol, open_table, Stored, open_tables,
}
use amy.Auth.{with_password, copy, connect_args, connect_args-copy, tcp}
use amy.Results.{ResultSet, new_result_set, empty_set, assign_result, Field}
use amy.Results.Fetch.{view, table_rows, assign_result_complete, assign_result_failed}
use amy.Service
use amy.Service.{
  Conn, new_conn, multi_results, store_result, expired, free_result, set_option, error_message,
  message,
}
use amy.Service.MoreResults.{table, store_result_exhausted}
use amy.Service.Ownership.{
  IsOwned, holds, opens, queries, stores, closes, run, run-new_conn-IsOwned, destroy-run,
}
use amy.Service.Expiry.{expired-query, expired-store_result, expired-store_result_self}
use amy.Service.Closed.{message-codes}
use amy.Connector.{query_result, query_result_ec, query_result-query_result_ec}
use amy.Connector.Iterator.{Visits, begin, for_each, for_each-begin}
use amy.Connector.Transaction
use amy.Connector.Transaction.{
  Transaction, commit_tx, commit_ec, restore_autocommit, destroy-commit_tx, destroy-commit_ec,
}
use amy.Connector.Execute.{execute_handler, execute_ec, execute_handler-ne-execute_ec}

abbrev pub numbers : Table
numbers = record {
  width = 2;
  columns = [];
  rows = (some (49 ∷ []) ∷ none ∷ []) ∷ (some (50 ∷ []) ∷ some (120 ∷ 121 ∷ []) ∷ []) ∷ [];
}

abbrev pub names : Table
names = record { width = 1; columns = []; rows = (some (97 ∷ []) ∷ []) ∷ [] }

-- A session that answers one query with a table, a statement without rows, and a table.
abbrev pub session : Session
session = record {
  replies = answers (some numbers ∷ none ∷ some names ∷ []) ∷ [];
  tables = [];
  last_errno = 0;
  failing = false;
  events = [];
}

abbrev pub lib : ClientLib
lib = scripted session

-- An open connection with `client_multi_statements`, before and after that query.
abbrev pub opened : Conn lib
opened = record {
  mysql = session;
  flags = 65536;
  initialized = true;
  first_result_stored = false;
  last_result = none;
  cancelation_token = 0;
  results = λ _. none;
  next_result = 0;
}

abbrev pub queried : Conn lib
queried = record opened {
  mysql = record session { replies = []; tables = some numbers ∷ none ∷ some names ∷ [] };
}

abbrev pub reading : Conn lib
reading = record queried { first_result_stored = true }

abbrev pub stored_table : Stored
stored_table = open_table numbers

-- A connection that holds the result at address 0.
abbrev holding : Conn lib
holding = record reading {
  last_result = some 0;
  results = λ a. if a == 0 then some stored_table else none;
  next_result = 1;
}

abbrev pub held_set : ResultSet
held_set = record { mysql = true; result_set = some 0; values = some []; fields_info = some [] }

for_each-begin_example :
    let (it, c) = begin lib queried in
    Visits lib
      (delivery session)
      (protocol session)
      (map (table lib (delivery session)) (open_tables (some numbers ∷ none ∷ some names ∷ [])))
      (for_each lib 5 it c)
unfolding multi_results
for_each-begin_example =
    for_each-begin lib (delivery session) (protocol session) 5 (some stored_table)
      (none ∷ some (open_table names) ∷ []) queried refl refl refl refl (omega arith)

run-new_conn-IsOwned_example :
    IsOwned lib
      (run lib (new_conn lib) (opens ∷ queries [] ∷ stores success ∷ stores success ∷ closes ∷ []))
run-new_conn-IsOwned_example =
    run-new_conn-IsOwned lib (opens ∷ queries [] ∷ stores success ∷ stores success ∷ closes ∷ [])

destroy-run_example :
    (Service.destroy lib
        (run lib (new_conn lib) (opens ∷ queries [] ∷ stores success ∷ []))).results
      0
    ≡ none
destroy-run_example = destroy-run lib (opens ∷ queries [] ∷ stores success ∷ []) 0

store_result_exhausted_example :
    let c : Conn lib = record reading { mysql = record session { tables = some names ∷ [] } } in
    (store_result lib success c).1 ≡ misc_error no_more_results
store_result_exhausted_example =
    (store_result_exhausted lib (delivery session) (protocol session) (some (open_table names))
      (record reading { mysql = record session { tables = some names ∷ [] } }) (inl refl) refl).1

assign_result_complete_example :
    view (assign_result lib session 4 stored_table new_result_set success).0
    ≡ table_rows 2 stored_table.rows_left
assign_result_complete_example =
    (assign_result_complete lib (delivery session) session 4 stored_table success refl refl refl).0

holding-IsOwned : IsOwned lib holding
holding-IsOwned = holds 0 stored_table refl (omega arith) (λ a. refl)

expired-store_result_example : expired lib (store_result lib success holding).2 held_set ≡ true
expired-store_result_example =
    expired-store_result lib success holding held_set 0 holding-IsOwned refl refl (omega arith)

abbrev failed_conn : Conn lib
failed_conn = record opened { mysql = record session { last_errno = 2013 } }

destroy-commit_tx_example :
    let (_, tx, _) = commit_tx lib (record { committed = false }) opened in
    let (ec, c) = Service.commit lib opened in
    Transaction.destroy lib tx c
    ≡ restore_autocommit lib (if is_error ec then (Service.rollback lib c).1 else c)
destroy-commit_tx_example = destroy-commit_tx lib (record { committed = false }) opened refl

destroy-commit_ec_example :
    let (ec, tx, c) = commit_ec lib (record { committed = false }) opened in
    Transaction.destroy lib tx c
    ≡ restore_autocommit lib (if is_error ec then c else (Service.rollback lib c).1)
destroy-commit_ec_example = destroy-commit_ec lib (record { committed = false }) opened

lib_codes_distinct : (a b : ClientError) → lib.code a ≡ lib.code b → a ≡ b
lib_codes_distinct a b e = position-injective a b (ground arith)

message-codes_example :
    (message lib (client_code lib.code ClientError.server_gone_error)
      ≡ some (text ClientError.server_gone_error))
    × (message lib (misc_error no_more_results) ≡ some "No more result sets")
unfolding position misc_text
message-codes_example =
    message-codes lib 2000 ClientError.server_gone_error no_more_results lib_codes_distinct refl
      (omega arith)

misc_message_out_of_bounds_example : (misc_message lib.code (pos 9) ≡ none) ↔ ((9 ≤ 9) × (9 < 2000))
unfolding position
misc_message_out_of_bounds_example = misc_message_out_of_bounds lib.code 2000 refl 9
