-- ===== src/Example/Maria/Multi.antt =====
-- mariadb_async_multi_query.cpp against blocking_multi_query.cpp.
pub mod Shown
use mathlib.Core.List.{append-nil}
use amy.Prelude.{
  ℕ, zero, suc, ◌+◌, ◌≤◌, ◌≡◌, ◌≢◌, refl, subst, inl, inr, not, true, false, none, some, List, [],
  arith, Bool-cases, if◌then◌else◌,
}
use amy.Errors.{ErrorCode, success, is_error, returned, throw_error}
use amy.Client.{ClientLib, Bytes, null}
use amy.Auth.{connect_args}
use amy.Results.{ResultSet, new_result_set}
use amy.Service
use amy.Service.{Conn}
use amy.Connector.Iterator.{Iterator, increment, begin, increment_stored, increment_end, begin_open}
use amy.Maria.{NonBlocking, MariaConn, invokes}
use amy.Maria.Chain.{Completes}
use amy.Maria.Connect.Agreement.{prepared}
use amy.Maria.Blocking.Agreement.{has_more_results-agrees}
use amy.Maria.Store.{store_resume, async_store_result}
use amy.Maria.Reactor.{storing}
use amy.Example.{Line, failed, finished, Ran, prepend, printed, Printed}
use amy.Example.Print.{print_result_set}
use amy.Example.Blocking.{Options, visit, blocking_multi_query}
use amy.Example.Async.{handle_store_result}
use amy.Example.Agreement.{Matches, same-Matches, prepend-Matches, visit_step}
use amy.Example.Agreement.Start.{Ready}
use amy.Example.Agreement.Multi.{
  has_more_results-initialized, increment_failed, visit_failed, Ready-more,
}
use amy.Example.Maria.{
  Handlers, Then, over, starts, lift, shown, start_store_result, multi_handlers,
  mariadb_async_multi_query,
}
use amy.Example.Maria.Steps.{run, after, run-invokes, run-drive, resume-storing}
use amy.Maria.Answers.{Answers, async_store_result-Ends}
use amy.Example.Maria.Start.{StartsWith, run_failed}
use amy.Example.Maria.Connection.{main-Matches}
use amy.Example.Maria.Multi.Shown.{
  handlers, multi_starts, print, runs, Agrees, handlers-stored, shown-Matches,
}

-- The steps for so many rounds of the loop over the results.
abbrev pub rounds : ℕ → ℕ → ℕ
rounds k zero = zero
rounds k (suc n) = suc (k + k) + suc (rounds k n)

module _ (L : ClientLib) (N : NonBlocking L) (operation_aborted : ErrorCode) (nonblock : ℕ)
    (opts : Options) (stmt : Bytes) where
  module _ (k : ℕ) (answers : Answers L N k) where
    -- What a handler of a stored result does, against the rest of the loop.
    stored-Matches :
        (n left : ℕ) (it : Iterator) (ec : ErrorCode) (rs : ResultSet) (c : MariaConn L)
        (c' : Conn L)
        → c.conn ≡ c'
        → is_error ec ≡ false
        → suc (rounds k n) ≤ left
        → ((fuel : ℕ)
            → rounds k n ≤ fuel
            → Agrees L N operation_aborted nonblock opts stmt n fuel it)
        → Matches L
            (printed L
              (print_result_set L c' rs)
              c'
              (visit L (print_result_set L) n (increment L it c')))
            (run L N operation_aborted nonblock
              (handlers L N operation_aborted nonblock opts stmt)
              left
              true
              handle_store_result
              (invokes ec (some rs) c))
    stored-Matches n zero it ec rs c c' same clean bound ih = absurd (omega arith)
    stored-Matches n (suc left) it ec rs c c' same clean bound ih =
        let ran =
          run L N operation_aborted nonblock (handlers L N operation_aborted nonblock opts stmt)
            (suc left) true handle_store_result (invokes ec (some rs) c) in
        subst
          (λ x.
            Matches L
              (printed L (print_result_set L x rs) x
                (visit L (print_result_set L) n (increment L it x)))
              ran)
          same
          (rw
            (
              run-invokes L N operation_aborted nonblock
                  (handlers L N operation_aborted nonblock opts stmt) left true handle_store_result
                  ec (some rs) c,
              handlers-stored L N operation_aborted nonblock opts stmt ec rs c clean,
            )
            (shown-Matches L N operation_aborted nonblock opts stmt n left it
              (print_result_set L c.conn rs) c (ih left (omega arith))))

    failed-Matches :
        (n left : ℕ) (it : Iterator) (ec : ErrorCode) (rs : ResultSet) (text : _) (c : MariaConn L)
        (c' : Conn L)
        → c.conn ≡ c'
        → is_error ec ≡ true
        → suc zero ≤ left
        → Matches L (visit L (print_result_set L) (suc n) (throw_error ec text it, c')) (
            run L N operation_aborted nonblock
              (handlers L N operation_aborted nonblock opts stmt)
              left
              true
              handle_store_result
              (invokes ec (some rs) c))
    failed-Matches n zero it ec rs text c c' same e bound = absurd (omega arith)
    failed-Matches n (suc left) it ec rs text c c' same e bound =
        let failing = visit_failed L operation_aborted opts stmt n it ec text c' e in
        rw
          (
            run_failed L N operation_aborted nonblock opts stmt L.client_multi_statements
                (handlers L N operation_aborted nonblock opts stmt)
                (multi_starts L N operation_aborted nonblock opts stmt) left handle_store_result ec
                (some rs) c e,
            same,
          )
          (same-Matches L (visit L (print_result_set L) (suc n) (throw_error ec text it, c'))
            (some ([], failed ec (Service.message L ec), c')) failing)

    visit-Matches :
        (n : ℕ) (it : Iterator)
        → it.end ≡ false
        → (fuel : ℕ) → rounds k n ≤ fuel
        → Agrees L N operation_aborted nonblock opts stmt n fuel it
    unfolding visit
    visit-Matches zero it live fuel bound c more = tt
    visit-Matches (suc n) it live fuel bound c more =
        let (rs, ec, c₁) = Service.store_result L success c.conn in
        let it' : Iterator = record it { result_set = rs } in
        run-drive L N operation_aborted nonblock (handlers L N operation_aborted nonblock opts stmt)
          storing (store_resume L N operation_aborted)
          (resume-storing L N operation_aborted nonblock
            (handlers L N operation_aborted nonblock opts stmt))
          (Matches L (visit L (print_result_set L) (suc n) (increment L it c.conn)))
          handle_store_result (suc (rounds k n)) ec (some rs) c₁ (suc (k + k)) fuel
          (async_store_result L N operation_aborted c)
          (async_store_result-Ends L N operation_aborted k c answers
            (has_more_results-initialized L c.conn more))
          bound
          (λ left c' enough same. elim (Bool-cases (is_error ec)) [
            | inl e ↦
                rw (increment_failed L it c.conn more e)
                  (failed-Matches n left it ec rs (L.error c₁.mysql) c' c₁ same e (omega arith))
            | inr clean ↦
                rw
                  (
                    increment_stored L it c.conn more clean,
                    visit_step L (print_result_set L) n it' c₁ live,
                  )
                  (stored-Matches n left it' ec rs c' c₁ same clean enough
                    (visit-Matches n it' live))
          ])

    begin-Matches :
        (n : ℕ) (c : MariaConn L) (fuel : ℕ)
        → Service.multi_results L L.client_multi_statements ≡ true
        → Ready L operation_aborted opts stmt L.client_multi_statements c.conn
        → rounds k n ≤ fuel
        → Matches L
            (visit L (print_result_set L) n (begin L c.conn))
            (runs L N operation_aborted nonblock opts stmt fuel c)
    begin-Matches n c fuel multi ready bound =
        let it : Iterator = record { connector = true; result_set = new_result_set; end = false } in
        rw (begin_open L c.conn ready.0) (
          visit-Matches n it refl fuel bound c
            (Ready-more L operation_aborted opts stmt c.conn ready multi))

  -- Let the client library's call that connects be suspended at first and then come to what the
  -- blocking call comes to, and each of its other suspended calls too, after at most k suspensions.
  -- Where blocking_multi_query ends from the connection that was opened and set to be non-blocking,
  -- mariadb_async_multi_query ends too: it prints the same, ends in the same way but for the text of an
  -- exception, and leaves the connection the same, whatever the client library answers. The opening and
  -- the option must succeed, and the flag be one under which the client library returns several
  -- results. A step for each suspension of the connection, k for the statement, twice k and two for
  -- each step of the blocking loop over the results, and four more are enough.
  pub mariadb_async_multi_query-Matches :
      (k n m fuel : ℕ) (c : MariaConn L)
      → Answers L N k
      → Service.multi_results L L.client_multi_statements ≡ true
      → (Service.open_conn L c.conn).0 ≡ success
      → (Service.set_option L nonblock null (Service.open_conn L c.conn).1).0 ≡ success
      → let args =
          connect_args opts.tcp_endpoint opts.auth_info opts.schema L.client_multi_statements in
        let handle = (prepared L N operation_aborted nonblock c.conn).mysql in
        let (connected, handle') = L.real_connect args handle in
        let (status, r, started) = N.connect_start args false handle in
        Completes L N not N.connect_cont connected handle' m status r started
        → status ≢ 0
        → suc m + suc (suc k + suc (rounds k n)) ≤ fuel
        → Matches L
            (blocking_multi_query L opts stmt n (prepared L N operation_aborted nonblock c.conn))
            (mariadb_async_multi_query L N operation_aborted nonblock opts stmt fuel c)
  unfolding blocking_multi_query mariadb_async_multi_query
  mariadb_async_multi_query-Matches k n m fuel c answers multi opens accepts completes waiting
        bound =
      main-Matches L N operation_aborted nonblock opts stmt L.client_multi_statements
        (handlers L N operation_aborted nonblock opts stmt)
        (multi_starts L N operation_aborted nonblock opts stmt)
        (λ c'. visit L (print_result_set L) n (begin L c')) k (rounds k n) answers
        (λ c' left ready enough. begin-Matches k answers n c' left multi ready enough) m fuel c
        opens accepts completes waiting bound
