-- ===== src/Tests/Async.antt =====
-- The asynchronous functions of `mysql_service` over the scripted library.
use amy.Prelude.{◌≡◌, ◌≢◌, arith, if◌then◌else◌, refl, true, false, none, List, [], ◌∷◌, ◌++◌, map}
use amy.Prelude.Int.{pos}
use amy.Errors.{ErrorCode, system, is_error}
use amy.Auth.{with_password, tcp}
use amy.Service
use amy.Service.{Conn, new_conn, store_result}
use amy.Async
use amy.Async.{System, async_connect, async_query, async_store_result, drain}
use amy.Async.Cancel.{aborted}
use amy.Async.Completions.{
  Action, connects_async, queries_async, stores_async, cancels, works, posted_count,
  posted_count-drain,
}
use amy.Async.Order.{blocking_run, AdmitsAll}
use amy.Async.Order.Drain.{drain-run-blocking_run}
use amy.Async.Ownership.{run-IsOwned_async}
use amy.Async.Tokens.{drain-cancel-run}
use amy.Connector.Execute.{execute_ec}
use amy.Connector.AsyncExecute.{async_execute, executed, async_execute-ne-execute_ec}
use amy.Tests.{lib, opened}

-- What Asio's `operation_aborted` may be.
abbrev pub canceled : ErrorCode
canceled = record { value = pos 125; category = system }

-- A service on a connection, with nothing queued.
abbrev idle : Conn lib → System lib
idle c = record { conn = c; work_io_service = true; work_thread = false; work = []; posted = [] }

posted_count-drain_example :
    posted_count 7
      (drain lib canceled (
        Async.Completions.run lib canceled
          (idle opened)
          (queries_async [] 7 ∷ stores_async 7 ∷ works ∷ cancels ∷ []))).posted
    ≡ 2
posted_count-drain_example =
    posted_count-drain lib canceled 7 (idle opened)
      (queries_async [] 7 ∷ stores_async 7 ∷ works ∷ cancels ∷ []) refl refl refl

drain-cancel-run_example :
    let now =
      Async.Completions.run lib canceled
        (idle opened)
        (queries_async [] 1 ∷ stores_async 2 ∷ works ∷ []) in
    drain lib canceled (Async.cancel lib canceled now) ≡ record now {
      conn = Service.cancel lib now.conn;
      work = [];
      posted = now.posted ++ map (aborted canceled) now.work;
    }
drain-cancel-run_example =
    drain-cancel-run lib canceled (idle opened) (queries_async [] 1 ∷ stores_async 2 ∷ works ∷ [])
      refl

run-IsOwned_async_example :
    let now = Async.Completions.run lib canceled (idle (new_conn lib)) (
      connects_async (tcp [] 3306) (with_password [] []) [] 65536 1
      ∷ queries_async [] 2
      ∷ stores_async 3
      ∷ works
      ∷ works
      ∷ works
      ∷ stores_async 4
      ∷ []) in
    (Service.destroy lib (drain lib canceled now).conn).results 0 ≡ none
run-IsOwned_async_example =
    (run-IsOwned_async lib canceled (idle (new_conn lib))
        (connects_async (tcp [] 3306) (with_password [] []) [] 65536 1
          ∷ queries_async [] 2
          ∷ stores_async 3
          ∷ works
          ∷ works
          ∷ works
          ∷ stores_async 4
          ∷ [])
        refl).1
      0

async_execute-ne-execute_ec_example :
    let s' = drain lib canceled (async_execute lib canceled [] 6 (idle opened)) in
    let (rows, ec, c) = execute_ec lib [] opened in
    let count = if is_error ec then Service.affected_rows lib c else 0 in
    (executed lib canceled s'.conn s'.posted ≡ (ec, count) ∷ []) × (s'.conn ≡ c) × (count ≢ rows)
unfolding Service.affected_rows
async_execute-ne-execute_ec_example =
    async_execute-ne-execute_ec lib canceled [] 6 (idle opened) refl refl refl
      (λ e. absurd (omega arith))

-- Calls before and after the connection is there, while the work thread runs some of them.
abbrev calls : List Action
calls =
    queries_async [] 1
    ∷ connects_async (tcp [] 3306) (with_password [] []) [] 65536 2
    ∷ queries_async [] 3
    ∷ works
    ∷ stores_async 4
    ∷ stores_async 5
    ∷ works
    ∷ queries_async [] 6
    ∷ []

drain-run-blocking_run_example :
    let d = drain lib canceled (Async.Completions.run lib canceled (idle (new_conn lib)) calls) in
    let (ks, c) = blocking_run lib canceled (new_conn lib) calls in (d.posted ≡ ks) × (d.conn ≡ c)
unfolding AdmitsAll new_conn Service.query Service.connect store_result Service.open_conn
    amy.Ops.mysql_init
drain-run-blocking_run_example =
    drain-run-blocking_run lib canceled (idle (new_conn lib)) calls refl refl
      (tt, (tt, (tt, (tt, (refl, (refl, (tt, (tt, tt))))))))
