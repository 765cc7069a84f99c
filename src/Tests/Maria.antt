-- ===== src/Tests/Maria.antt =====
-- The composed operations of `mariadb_service` over the scripted library, where each call is suspended
-- once.
use amy.Prelude.{List, [], ◌∷◌, ℕ, ◌≢◌, ◌≡◌, refl, true, false, none, some, [], arith}
use amy.Prelude.Int.{negsuc}
use amy.Errors.{success, misc_error, not_initialized}
use amy.Client.{ClientLib}
use amy.Client.Scripted.{Session, scripted}
use amy.Maria.Answers.{Answers}
use amy.Auth.{with_password, tcp, connect_args}
use amy.Service
use amy.Service.{new_conn, multi_results}
use amy.Maria.{NonBlocking, MariaConn, invokes, drive, close, wait_for, nothing}
use amy.Maria.Chain.{Completes, Ends}
use amy.Maria.Cancel.{close_aborts}
use amy.Results.{empty_set}
use amy.Maria.Query.{QueryOp, query_resume, async_query}
use amy.Maria.Query.Agreement.{async_query_agrees}
use amy.Maria.Connect.{ConnectOp, connect_resume, async_connect}
use amy.Maria.Connect.Agreement.{async_connect_agrees, prepared}
use amy.Service.Ownership.{Call, opens, closes, queries, stores, sets_option}
use amy.Client.{null}
use amy.Connector.{query_result_ec}
use amy.Maria.Blocking
use amy.Maria.Blocking.Agreement.{
  mysql_call, mysql_run, maria_run, maria_run-mysql_run, set_option_differs,
}
use amy.Maria.QueryResult.{ResultOp, q_cont_query, result_resume, async_query_result}
use amy.Maria.QueryResult.Agreement.{async_query_result_agrees}
use amy.Maria.Store.{StoreOp, s_cont_next, store_resume, async_store_result}
use amy.Maria.Store.NextResult.{async_store_result_next}
use amy.Tests.{lib, opened, queried, reading}
use amy.Tests.Async.{canceled}

-- Each call waits for the given events once and then does what the blocking call does.
abbrev pub waiting : ℕ → NonBlocking lib
waiting events = record {
  wait_read = 1;
  wait_write = 2;
  wait_except = 4;
  wait_timeout = 8;
  get_socket = λ m. some 3;
  connect_start = λ args ret m. (events, ret, m);
  connect_cont = λ status ret m.
      let (v, m') = lib.real_connect (connect_args (tcp [] 3306) (with_password [] []) [] 0) m in
      (0, v, m');
  query_start = λ stmt ret m. (events, ret, m);
  query_cont = λ status ret m. let (v, m') = lib.real_query [] m in (0, v, m');
  store_start = λ ret m. (events, ret, m);
  store_cont = λ status ret m. let (r, m') = lib.store_result m in (0, r, m');
  next_start = λ ret m. (events, ret, m);
  autocommit_start = λ mode ret m. (events, ret, m);
  autocommit_cont = λ status ret m. (0, false, m);
  commit_start = λ ret m. (events, ret, m);
  commit_cont = λ status ret m. let (failed, m') = lib.commit m in (0, failed, m');
  rollback_start = λ ret m. (events, ret, m);
  rollback_cont = λ status ret m. let (failed, m') = lib.rollback m in (0, failed, m');
  fetch_row_start = λ ret r. (events, ret, r);
  fetch_row_cont = λ status ret r. let (row, r') = lib.fetch_row r in (0, row, r');
  next_cont = λ status ret m. let (v, m') = lib.next_result m in (0, v, m');
}

-- Each call is done at once.
abbrev pub prompt : (L : ClientLib) → NonBlocking L
prompt L = record {
  wait_read = 1;
  wait_write = 2;
  wait_except = 4;
  wait_timeout = 8;
  get_socket = λ m. some 3;
  connect_start = λ args ret m. let (v, m') = L.real_connect args m in (0, v, m');
  connect_cont = λ status ret m. (0, ret, m);
  query_start = λ stmt ret m. let (v, m') = L.real_query stmt m in (0, v, m');
  query_cont = λ status ret m. (0, ret, m);
  store_start = λ ret m. let (r, m') = L.store_result m in (0, r, m');
  store_cont = λ status ret m. (0, ret, m);
  next_start = λ ret m. let (v, m') = L.next_result m in (0, v, m');
  next_cont = λ status ret m. (0, ret, m);
  autocommit_start = λ mode ret m. let (v, m') = L.autocommit mode m in (0, v, m');
  autocommit_cont = λ status ret m. (0, ret, m);
  commit_start = λ ret m. let (v, m') = L.commit m in (0, v, m');
  commit_cont = λ status ret m. (0, ret, m);
  rollback_start = λ ret m. let (v, m') = L.rollback m in (0, v, m');
  rollback_cont = λ status ret m. (0, ret, m);
  fetch_row_start = λ ret r. let (v, r') = L.fetch_row r in (0, v, r');
  fetch_row_cont = λ status ret r. (0, ret, r);
}

-- The call that stores a result waits for a read once, and the others are done at once. When it
-- waits it has cleared the connection's error.
abbrev pub waiting_store_result : (s : Session) → NonBlocking (scripted s)
waiting_store_result s = record (prompt (scripted s)) {
  store_start = λ ret m. (1, ret, record m { last_errno = 0 });
  store_cont = λ status ret m. let (r, m') = (scripted s).store_result m in (0, r, m');
}

-- The call that connects waits too.
abbrev pub suspending : (s : Session) → NonBlocking (scripted s)
suspending s = record (waiting_store_result s) {
  connect_start = λ args ret m. (1, ret, m);
  connect_cont = λ status ret m. (0, true, m);
}

store_asks_read : (s : Session) → wait_for (scripted s) (waiting_store_result s) 1 ≢ nothing
unfolding wait_for
store_asks_read s e = cc

pub waiting_store_result-Answers : (s : Session) → Answers (scripted s) (waiting_store_result s) 1
waiting_store_result-Answers s = record {
  queries = λ stmt m. Completes.done refl refl refl;
  stores = λ m.
      Completes.suspended (omega arith) (store_asks_read s) refl refl
        (Completes.done refl refl refl);
  advances = λ m. Completes.done refl refl refl;
}

pub suspending_asks_read : (s : Session) → wait_for (scripted s) (suspending s) 1 ≢ nothing
unfolding wait_for
suspending_asks_read s e = cc

pub suspending-Answers : (s : Session) → Answers (scripted s) (suspending s) 1
suspending-Answers s = record {
  queries = λ stmt m. Completes.done refl refl refl;
  stores = λ m.
      Completes.suspended (omega arith) (suspending_asks_read s) refl refl
        (Completes.done refl refl refl);
  advances = λ m. Completes.done refl refl refl;
}

abbrev pub maria : MariaConn lib
maria = record { conn = opened; ev = none; timer = true }

abbrev pub closed_maria : MariaConn lib
closed_maria = record { conn = new_conn lib; ev = none; timer = true }

asks_read : wait_for lib (waiting 1) 1 ≢ nothing
unfolding wait_for
asks_read e = cc

asks_write : wait_for lib (waiting 2) 2 ≢ nothing
unfolding wait_for
asks_write e = cc

async_query_agrees_example :
    let (ec, c') = Service.query lib [] opened in
    Ends lib (waiting 1) ec none c' (
      drive lib
        (waiting 1)
        (query_resume lib (waiting 1) canceled)
        2
        (async_query lib (waiting 1) canceled [] maria))
unfolding Service.free_result
async_query_agrees_example =
    async_query_agrees lib (waiting 1) canceled [] 1 2 maria refl
      (Completes.suspended (omega arith) asks_read refl refl (Completes.done refl refl refl))
      (omega arith)

async_connect_agrees_example :
    let c0 = prepared lib (waiting 2) canceled 6000 (new_conn lib) in
    let (ec, c') = Service.connect lib (tcp [] 3306) (with_password [] []) [] 0 c0 in
    Ends lib (waiting 2) ec none c' (
      drive lib (waiting 2) (connect_resume lib (waiting 2) canceled 6000) 2 (
        async_connect lib
          (waiting 2)
          canceled
          6000
          (tcp [] 3306)
          (with_password [] [])
          []
          0
          closed_maria))
unfolding new_conn Service.open_conn Service.set_option amy.Ops.mysql_init amy.Ops.mysql_options
async_connect_agrees_example =
    async_connect_agrees lib (waiting 2) canceled 6000 (tcp [] 3306) (with_password [] []) [] 0 1 2
      closed_maria refl refl
      (Completes.suspended (omega arith) asks_write refl refl (Completes.done refl refl refl))
      (omega arith)

abbrev waiting_store : StoreOp lib
waiting_store = record {
  step = s_cont_next;
  token = 0;
  next_result = negsuc 0;
  result = none;
  address = none;
}

abbrev waiting_result : ResultOp lib
waiting_result = record {
  step = q_cont_query;
  token = 0;
  stmt = [];
  query_result = negsuc 0;
  result = none;
  address = none;
}

close_aborts_example :
    let closed = close lib (waiting 1) maria in
    let query : QueryOp = record { step = 1; token = 0; stmt = []; result = negsuc 0 } in
    let connect : ConnectOp = record {
      step = 1;
      token = 0;
      args = connect_args (tcp [] 3306) (with_password [] []) [] 0;
      result = false;
    } in
    (query_resume lib (waiting 1) canceled query success 1 closed ≡ invokes canceled none closed)
    × (connect_resume lib (waiting 1) canceled 6000 connect success 1 closed
        ≡ invokes canceled none closed)
    × (store_resume lib (waiting 1) canceled waiting_store success 1 closed
        ≡ invokes canceled (some empty_set) closed)
    × (result_resume lib (waiting 1) canceled waiting_result success 1 closed
        ≡ invokes canceled (some empty_set) closed)
close_aborts_example =
    close_aborts lib (waiting 1) canceled 6000
      (record { step = 1; token = 0; stmt = []; result = negsuc 0 })
      (record {
        step = 1;
        token = 0;
        args = connect_args (tcp [] 3306) (with_password [] []) [] 0;
        result = false;
      })
      waiting_store waiting_result success 1 maria refl refl refl refl refl refl

-- The connection after its query, before and after the first result.
abbrev queried_maria : MariaConn lib
queried_maria = record { conn = queried; ev = none; timer = true }

abbrev reading_maria : MariaConn lib
reading_maria = record { conn = reading; ev = none; timer = true }

async_store_result_next_example :
    let (rs, ec, c') = Service.store_result lib success reading in
    Ends lib (waiting 1) ec (some rs) c' (
      drive lib
        (waiting 1)
        (store_resume lib (waiting 1) canceled)
        3
        (async_store_result lib (waiting 1) canceled reading_maria))
unfolding Service.free_result multi_results Service.has_more_results
async_store_result_next_example =
    async_store_result_next lib (waiting 1) canceled 1 1 3 reading_maria refl refl refl
      (Completes.suspended (omega arith) asks_read refl refl (Completes.done refl refl refl))
      (Completes.suspended (omega arith) asks_read refl refl (Completes.done refl refl refl))
      (omega arith)

async_query_result_agrees_example :
    let (rs, ec, c') = query_result_ec lib [] opened in
    Ends lib (waiting 1) ec (some rs) c' (
      drive lib
        (waiting 1)
        (result_resume lib (waiting 1) canceled)
        3
        (async_query_result lib (waiting 1) canceled [] maria))
unfolding Service.free_result
async_query_result_agrees_example =
    async_query_result_agrees lib (waiting 1) canceled [] 1 1 3 maria refl
      (Completes.suspended (omega arith) asks_read refl refl (Completes.done refl refl refl))
      (Completes.suspended (omega arith) asks_read refl refl (Completes.done refl refl refl))
      (omega arith)

-- Calls of which the first fails, since nothing is open.
abbrev calls : List (Call lib)
calls = queries [] ∷ opens ∷ sets_option 7 null ∷ queries [] ∷ stores success ∷ closes ∷ []

maria_run-mysql_run_example :
    let (replies, c') = maria_run lib (waiting 1) closed_maria calls in
    let (replies', conn) = mysql_run lib (new_conn lib) calls in
    (replies ≡ replies')
    × (c'.conn ≡ conn)
    × (Blocking.has_more_results lib (waiting 1) c' ≡ Service.has_more_results lib conn)
unfolding mysql_call new_conn Service.query Service.open_conn
maria_run-mysql_run_example =
    maria_run-mysql_run lib (waiting 1) closed_maria calls (tt, (tt, (refl, (tt, (tt, (tt, tt))))))

set_option_differs_example :
    ((Service.set_option lib 7 null (new_conn lib)).0 ≡ success)
    × (amy.Maria.set_option lib (waiting 1) 7 null closed_maria
        ≡ (misc_error not_initialized, closed_maria))
unfolding new_conn
set_option_differs_example = set_option_differs lib (waiting 1) 7 null closed_maria refl refl
