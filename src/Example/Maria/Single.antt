-- ===== src/Example/Maria/Single.antt =====
-- mariadb_async_single_query.cpp against blocking_single_query.cpp.
use mathlib.Core.List.{append-nil}
use amy.Prelude.{
  ℕ, zero, suc, ◌+◌, ◌≤◌, ◌≡◌, ◌≢◌, refl, inl, inr, not, true, false, none, some, [], arith,
  Bool-cases,
}
use amy.Errors.{ErrorCode, success, is_error, Outcome, returned, thrown}
use amy.Client.{ClientLib, Bytes, null}
use amy.Auth.{connect_args}
use amy.Results.{ResultSet}
use amy.Service
use amy.Service.{Conn, default_flags}
use amy.Connector
use amy.Maria.{NonBlocking, MariaConn, invokes}
use amy.Maria.Chain.{Completes}
use amy.Maria.Connect.Agreement.{prepared}
use amy.Maria.Store.{store_resume, async_store_result}
use amy.Maria.Reactor.{storing}
use amy.Example.{failed, finished, Ran, printed, without_text, Printed}
use amy.Example.Print.{print_pairs}
use amy.Example.Blocking.{Options, try, connect_query, blocking_single_query}
use amy.Example.Async.{handle_store_result}
use amy.Example.Agreement.{Matches, same-Matches, Matches-same}
use amy.Example.Agreement.Start.{Ready}
use amy.Example.Agreement.Single.{stored, stored_failed, stored-printed}
use amy.Example.Maria.{Handlers, over, lift, shown, single_handlers, mariadb_async_single_query}
use amy.Example.Maria.Steps.{run, after, run-invokes, run-drive, resume-storing}
use amy.Maria.Store.Agreement.{async_store_result_first}
use amy.Maria.Answers.{Answers}
use amy.Example.Maria.Start.{StartsWith, run_failed}
use amy.Example.Maria.Connection.{main-Matches}

module _ (L : ClientLib) (N : NonBlocking L) (operation_aborted : ErrorCode) (nonblock : ℕ)
    (opts : Options) (stmt : Bytes) where
  abbrev handlers : Handlers L
  handlers = single_handlers L N operation_aborted nonblock opts stmt

  single_starts : StartsWith L N operation_aborted nonblock stmt handlers
  unfolding single_handlers
  single_starts = record {
    fails = λ h ec rs c e. rw e refl;
    connected = λ ec c clean. rw clean refl;
    queried = λ ec c clean. rw clean refl;
  }

  handlers-stored :
      (ec : ErrorCode) (rs : ResultSet) (c : MariaConn L)
      → is_error ec ≡ false
      → handlers handle_store_result ec (some rs) c
        ≡ shown L N operation_aborted nonblock (print_pairs L c.conn rs) over
  unfolding single_handlers
  handlers-stored ec rs c clean = rw clean refl

  shown-Matches :
      (fuel : ℕ) (p : Printed) (c : Conn L)
      → Matches L (printed L p c (some ([], finished, c))) (
          after L N operation_aborted nonblock handlers fuel true c
            (shown L N operation_aborted nonblock p over))
  shown-Matches fuel (ls, some e) c = refl
  shown-Matches fuel (ls, none) c = rw (append-nil ls) refl

  -- What the handler of the stored result does, against the end of the blocking program.
  called-Matches :
      (left : ℕ) (ec : ErrorCode) (rs : ResultSet) (c : MariaConn L) (c' : Conn L)
      → c.conn ≡ c'
      → is_error ec ≡ false
      → suc zero ≤ left
      → Matches L (printed L (print_pairs L c' rs) c' (some ([], finished, c'))) (
          run L N operation_aborted nonblock handlers left true handle_store_result
            (invokes ec (some rs) c))
  called-Matches zero ec rs c c' same clean bound = absurd (omega arith)
  called-Matches (suc left) ec rs c c' same clean bound =
      rw
        (
          run-invokes L N operation_aborted nonblock handlers left true handle_store_result ec
              (some rs) c,
          handlers-stored ec rs c clean,
          ← same,
        )
        (shown-Matches left (print_pairs L c.conn rs) c.conn)

  failed-Matches :
      (left : ℕ) (ec : ErrorCode) (rs : ResultSet) (r : Ran L) (c : MariaConn L) (c' : Conn L)
      → c.conn ≡ c'
      → is_error ec ≡ true
      → suc zero ≤ left
      → without_text L r ≡ some ([], failed ec none, c')
      → Matches L r (
          run L N operation_aborted nonblock handlers left true handle_store_result
            (invokes ec (some rs) c))
  failed-Matches zero ec rs r c c' same e bound ends = absurd (omega arith)
  failed-Matches (suc left) ec rs r c c' same e bound ends =
      rw
        (
          run_failed L N operation_aborted nonblock opts stmt default_flags handlers single_starts
              left handle_store_result ec (some rs) c e,
          same,
        )
        (same-Matches L r (some ([], failed ec (Service.message L ec), c')) ends)

  stored-Matches :
      (k : ℕ) (c : MariaConn L) (fuel : ℕ)
      → Answers L N k
      → Ready L operation_aborted opts stmt default_flags c.conn
      → suc k + 1 ≤ fuel
      → Matches L (stored L operation_aborted opts stmt c.conn) (
          run L N operation_aborted nonblock handlers fuel true handle_store_result
            (lift storing (async_store_result L N operation_aborted c)))
  stored-Matches k c fuel answers ready bound =
      let (rs, ec, c₁) = Service.store_result L success c.conn in
      let blocking = stored L operation_aborted opts stmt c.conn in
      run-drive L N operation_aborted nonblock handlers storing (store_resume L N operation_aborted)
        (resume-storing L N operation_aborted nonblock handlers) (Matches L blocking)
        handle_store_result 1 ec (some rs) c₁ (suc k) fuel
        (async_store_result L N operation_aborted c)
        (async_store_result_first L N operation_aborted k (suc k) c ready.0 ready.2
          (answers.stores c.conn.mysql) (omega arith))
        bound
        (λ left c' enough same. elim (Bool-cases (is_error ec)) [
          | inl e ↦
              failed-Matches left ec rs blocking c' c₁ same e enough
                (stored_failed L operation_aborted opts stmt c.conn e)
          | inr clean ↦
              rw (stored-printed L operation_aborted opts stmt c.conn clean)
                (called-Matches left ec rs c' c₁ same clean enough)
        ])

  try_ends :
      {A : Type 0} (o : Outcome A × Conn L) (next : A → Conn L → Ran L)
      → ((a : A) (c : Conn L) → next a c ≢ none)
      → try L o next ≢ none
  try_ends (returned a, c) next ends = ends a c
  try_ends (thrown ec text, c) next ends = λ e. cc

  printed_ends : (p : Printed) (c : Conn L) → printed L p c (some ([], finished, c)) ≢ none
  printed_ends (ls, some e) c h = cc
  printed_ends (ls, none) c h = cc

  blocking_single_query_ends : (c : Conn L) → blocking_single_query L opts stmt c ≢ none
  unfolding blocking_single_query connect_query
  blocking_single_query_ends c =
      try_ends (Connector.connect L opts.tcp_endpoint opts.auth_info opts.schema default_flags c) _
        (λ _ c₁. try_ends (Connector.query L stmt c₁) _ (λ _ c₂.
          try_ends (Connector.store_result L c₂) _
            (λ rs c₃. printed_ends (print_pairs L c₃ rs) c₃)))

  -- Let the client library's call that connects be suspended at first and then come to what the
  -- blocking call comes to, and each of its other suspended calls too, after at most k suspensions.
  -- Then mariadb_async_single_query prints what blocking_single_query prints from the connection that
  -- was opened and set to be non-blocking, ends as that ends but for the text of an exception, and
  -- leaves the connection as that does, whatever the client library answers. The opening and the option
  -- must succeed. A step for each suspension of the connection, k for the statement and for the result,
  -- and six more are enough.
  pub mariadb_async_single_query-blocking_single_query :
      (k m fuel : ℕ) (c : MariaConn L)
      → Answers L N k
      → (Service.open_conn L c.conn).0 ≡ success
      → (Service.set_option L nonblock null (Service.open_conn L c.conn).1).0 ≡ success
      → let args = connect_args opts.tcp_endpoint opts.auth_info opts.schema default_flags in
        let handle = (prepared L N operation_aborted nonblock c.conn).mysql in
        let (connected, handle') = L.real_connect args handle in
        let (status, r, started) = N.connect_start args false handle in
        Completes L N not N.connect_cont connected handle' m status r started
        → status ≢ 0
        → m + k + k + 6 ≤ fuel
        → without_text L
            (blocking_single_query L opts stmt (prepared L N operation_aborted nonblock c.conn))
          ≡ without_text L
              (mariadb_async_single_query L N operation_aborted nonblock opts stmt fuel c)
  unfolding blocking_single_query mariadb_async_single_query
  mariadb_async_single_query-blocking_single_query k m fuel c answers opens accepts completes
        waiting bound =
      let c₀ = prepared L N operation_aborted nonblock c.conn in
      Matches-same L (blocking_single_query L opts stmt c₀)
        (mariadb_async_single_query L N operation_aborted nonblock opts stmt fuel c)
        (blocking_single_query_ends c₀)
        (main-Matches L N operation_aborted nonblock opts stmt default_flags handlers single_starts
          (stored L operation_aborted opts stmt) k (suc k + 1) answers
          (λ c' left ready enough. stored-Matches k c' left answers ready enough) m fuel c opens
          accepts completes waiting (omega arith))
