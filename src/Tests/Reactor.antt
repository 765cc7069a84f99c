-- ===== src/Tests/Reactor.antt =====
-- Composed operations of one connection that interleave, over the scripted library.
use amy.Prelude.{◌≡◌, ◌+◌, refl, List, [], ◌∷◌, map, arith}
use amy.Errors.{ErrorCode, success}
use amy.Auth.{with_password, tcp}
use amy.Service
use amy.Service.Ownership.{IsOwned}
use amy.Maria.{construct}
use amy.Maria.Reactor.{
  Called, Happening, connects, queries, stores, closes, queries_result, cancels, happens, run,
  new_reactor, step,
}
use amy.Maria.Reactor.Completions.{called_count, pending_count, called_count-run}
use amy.Maria.Reactor.Ownership.{run-construct-IsOwned}
use amy.Maria.Reactor.Asks.{AsksEvents}
use amy.Maria.Reactor.Dropped.{async_query-dropped}
use amy.Prelude.Int.{negsuc}
use amy.Prelude.{◌↔◌, bit_and}
use amy.Maria.Reactor.Sequence.{run_each, blocking_run, AdmitsAll, run_each-blocking_run}
use amy.Maria.Chain.{Completes}
use amy.Service.{new_conn}
use amy.Tests.{lib, session}
use amy.Tests.Async.{canceled}
use amy.Tests.Maria.{
  waiting, maria, closed_maria, waiting_store_result, waiting_store_result-Answers,
}

-- A query and a first result, and then a store and a query at once, of which the query ends and the
-- other is caught by a close.
abbrev plan : List Happening
plan =
    connects (tcp [] 3306) (with_password [] []) [] 65536 1
    ∷ happens 0 success
    ∷ queries [] 2
    ∷ happens 0 success
    ∷ stores 3
    ∷ happens 0 success
    ∷ stores 4
    ∷ queries [] 5
    ∷ happens 1 success
    ∷ closes
    ∷ happens 0 success
    ∷ []

-- Each call asks for a read, and then ends.
waiting-AsksEvents : AsksEvents lib (waiting 1)
waiting-AsksEvents = record {
  reads = λ moves. refl;
  writes = λ moves. refl;
  times = λ moves. refl;
  connect = λ args r m moves. refl;
  connect_more = λ s r m moves. absurd (moves refl);
  query = λ stmt r m moves. refl;
  query_more = λ s r m moves. absurd (moves refl);
  store = λ r m moves. refl;
  store_more = λ s r m moves. absurd (moves refl);
  next = λ r m moves. refl;
  next_more = λ s r m moves. absurd (moves refl);
}

called_count-run_example :
    let s = run lib (waiting 1) canceled 6000 (new_reactor lib closed_maria) plan in
    called_count 4 s.called + pending_count lib 4 s.pending ≡ 1
called_count-run_example =
    called_count-run lib (waiting 1) canceled 6000 4 closed_maria plan waiting-AsksEvents

run-construct-IsOwned_example :
    IsOwned lib
      (run lib
        (waiting 1)
        canceled
        6000
        (new_reactor lib (construct lib (waiting 1)))
        plan).conn.conn
run-construct-IsOwned_example = run-construct-IsOwned lib (waiting 1) canceled 6000 plan refl

handlers_called :
    map
      (λ (k : Called). k.handler)
      (run lib (waiting 1) canceled 6000 (new_reactor lib closed_maria) plan).called
    ≡ 1 ∷ 2 ∷ 3 ∷ 5 ∷ 4 ∷ []
unfolding run amy.Maria.Query.async_query amy.Maria.Store.async_store_result
    amy.Maria.Connect.async_connect Service.new_conn Service.open_conn amy.Maria.set_option
    amy.Maria.after_call Service.allocate amy.Errors.client_error amy.Maria.async_wait_mysql
    Service.free_result Service.assign_last Service.reset_result Service.has_more_results
    amy.Auth.connect_args amy.Maria.close Service.cancel
handlers_called = refl

-- A query on the closed connection, and then one whose results are stored, with one call too many.
abbrev calls : List Happening
calls =
    queries [] 1
    ∷ connects (tcp [] 3306) (with_password [] []) [] 65536 2
    ∷ queries [] 3
    ∷ stores 4
    ∷ stores 5
    ∷ stores 6
    ∷ stores 7
    ∷ cancels
    ∷ queries_result [] 8
    ∷ closes
    ∷ queries [] 9
    ∷ []

run_each-blocking_run_example :
    let N = waiting_store_result session in
    let s = run_each lib N canceled 6000 3 (new_reactor lib closed_maria) calls in
    let (ks, c) = blocking_run lib N canceled 6000 (new_conn lib) calls in
    (s.called ≡ ks) × (s.conn.conn ≡ c) × (s.pending ≡ [])
unfolding AdmitsAll new_conn Service.query Service.open_conn Service.set_option Service.connect
    Service.store_result amy.Ops.mysql_init amy.Ops.mysql_options
run_each-blocking_run_example =
    run_each-blocking_run lib (waiting_store_result session) canceled 6000 1 3 closed_maria calls
      (waiting_store_result-Answers session) (λ args m. Completes.done refl refl refl)
      (tt, ((refl, refl), (tt, (refl, (refl, (refl, (refl, (tt, (tt, (tt, (tt, tt)))))))))))
      (omega arith)

-- A library whose query waits for an exceptional event alone.
async_query-dropped_example :
    let s' = step lib (waiting 4) canceled 6000 (new_reactor lib maria) (queries [] 7) in
    (s'.called ≡ [])
    × (s'.pending ≡ [] ↔ ((bit_and 4 1 ≡ 0) × (bit_and 4 2 ≡ 0) × (bit_and 4 8 ≡ 0)))
unfolding Service.free_result
async_query-dropped_example =
    async_query-dropped lib (waiting 4) canceled 6000 [] 7 4 (negsuc 0) session
      (new_reactor lib maria) refl refl refl (omega arith) refl refl
