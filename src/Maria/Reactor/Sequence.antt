-- ===== src/Maria/Reactor/Sequence.antt =====
-- Calls on one connection of include/amy/impl/mariadb_service.ipp, each made when the handler of
-- the one before has been called, against the blocking functions of mysql_service.
use mathlib.Core.List.{append_assoc, append-nil}
use amy.Prelude.{
  ℕ, suc, ◌+◌, ◌≤◌, ◌<◌, ◌≡◌, refl, sym, subst, ◌∙◌, ap, not, true, false, Option, none, some, List,
  [], ◌∷◌, ◌++◌, arith,
}
use amy.Errors.{ErrorCode, success}
use amy.Client.{ClientLib, ConnectArgs, null}
use amy.Auth.{connect_args}
use amy.Results.{ResultSet}
use amy.Service
use amy.Service.{Conn}
use amy.Connector.{query_result_ec}
use amy.Maria.{NonBlocking, MariaConn, close, close_impl}
use amy.Maria.Chain.{Completes}
use amy.Maria.Answers.{Answers, async_query-Ends, async_query_result-Ends, async_store_result-Ends}
use amy.Maria.Blocking.{cancel}
use amy.Maria.Connect.{connect_resume, async_connect}
use amy.Maria.Connect.Agreement.{prepared, async_connect_agrees}
use amy.Maria.Query.{query_resume, async_query}
use amy.Maria.Store.{store_resume, async_store_result}
use amy.Maria.QueryResult.{result_resume, async_query_result}
use amy.Maria.Reactor.{
  Called, Reactor, Happening, connects, queries, stores, queries_result, cancels, closes, happens,
  connecting, querying, storing, reading, step, new_reactor,
}
use amy.Maria.Reactor.Waiting.{
  wait_all, quiet, wait_all-quiet, wait_all-Done, resume-connecting, resume-querying,
  resume-storing, resume-reading,
}

module _ (L : ClientLib) (N : NonBlocking L) (operation_aborted : ErrorCode) (nonblock : ℕ) where
  abbrev pub calls : ℕ → ErrorCode → Option ResultSet → List Called
  calls handler ec rs = record { handler = handler; ec = ec; result = rs } ∷ []

  -- What the blocking functions of mysql_service make of a call: what its handler would be called
  -- with, and the connection. `async_connect` is `open`, the option of `nonblock_default`, and
  -- `connect`.
  unfoldable pub blocking : Conn L → Happening → List Called × Conn L
  unfolding query_result_ec
  blocking c (connects endpoint auth database flags handler) =
      let (ec, c') =
        Service.connect L endpoint auth database flags
          (prepared L N operation_aborted nonblock c) in
      (calls handler ec none, c')
  blocking c (queries stmt handler) =
      let (ec, c') = Service.query L stmt c in (calls handler ec none, c')
  blocking c (stores handler) =
      let (rs, ec, c') = Service.store_result L success c in (calls handler ec (some rs), c')
  blocking c (queries_result stmt handler) =
      let (rs, ec, c') = query_result_ec L stmt c in (calls handler ec (some rs), c')
  blocking c cancels = ([], Service.cancel L c)
  blocking c closes = ([], Service.close L c)
  blocking c (happens i ec) = ([], c)

  unfoldable pub blocking_run : Conn L → List Happening → List Called × Conn L
  unfolding blocking
  blocking_run c [] = ([], c)
  blocking_run c (x ∷ xs) =
      let (ks, c₁) = blocking c x in let (ks', c₂) = blocking_run c₁ xs in (ks ++ ks', c₂)

  -- A connection that is to be made can be opened and set to be non-blocking, and `store_result`,
  -- which does not ask whether the connection is open, finds it open.
  abbrev pub Admits : Conn L → Happening → Type 0
  Admits c (connects endpoint auth database flags handler) =
      ((Service.open_conn L c).0 ≡ success)
      × ((Service.set_option L nonblock null (Service.open_conn L c).1).0 ≡ success)
  Admits c (queries stmt handler) = Unit
  Admits c (stores handler) = c.initialized ≡ true
  Admits c (queries_result stmt handler) = Unit
  Admits c cancels = Unit
  Admits c closes = Unit
  Admits c (happens i ec) = ⊥

  unfoldable pub AdmitsAll : Conn L → List Happening → Type 0
  unfolding blocking
  AdmitsAll c [] = Unit
  AdmitsAll c (x ∷ xs) = Admits c x × AdmitsAll (blocking c x).1 xs

  -- Each call, and then the events until nothing waits.
  unfoldable pub run_each : ℕ → Reactor L → List Happening → Reactor L
  unfolding step wait_all
  run_each fuel s [] = s
  run_each fuel s (x ∷ xs) =
      run_each fuel
        (wait_all L N operation_aborted nonblock fuel (step L N operation_aborted nonblock s x)) xs

  abbrev pub Ran : List Called → List Called × Conn L → Reactor L → Type 0
  Ran before (ks, c) s = (s.pending ≡ []) × (s.called ≡ before ++ ks) × (s.conn.conn ≡ c)

  close-conn : (c : MariaConn L) → (close L N c).conn ≡ Service.close L c.conn
  unfolding close close_impl Service.close
  close-conn c = ground arith

  cancel-conn : (c : MariaConn L) → (cancel L N c).conn ≡ Service.cancel L c.conn
  unfolding cancel Service.cancel
  cancel-conn c = refl

  -- The calls after one, where they run as they should when nothing waits.
  rest-Ran :
      (fuel : ℕ) (before ks : List Called) (c₁ : Conn L) (s : Reactor L) (xs : List Happening)
      → Ran before (ks, c₁) s
      → AdmitsAll c₁ xs
      → ((c : MariaConn L) (before : List Called)
          → AdmitsAll c.conn xs
          → Ran before
              (blocking_run c.conn xs)
              (run_each fuel (quiet L N operation_aborted nonblock c before) xs))
      → let (ks', c₂) = blocking_run c₁ xs in Ran before (ks ++ ks', c₂) (run_each fuel s xs)
  rest-Ran fuel before ks c₁ s xs (still, called, conn) admits runs =
      let ran =
        subst
          (λ p.
            Ran s.called (blocking_run s.conn.conn xs)
              (run_each fuel (record { conn = s.conn; pending = p; called = s.called }) xs))
          (sym still) (runs s.conn s.called (subst (λ c. AdmitsAll c xs) (sym conn) admits)) in
      let moved = subst (λ c. Ran s.called (blocking_run c xs) (run_each fuel s xs)) conn ran in
      let (still', called', conn') = moved in
      (
        still',
        called'
            ∙ ap (λ (l : List Called). l ++ (blocking_run c₁ xs).0) called
            ∙ append_assoc before ks (blocking_run c₁ xs).0,
        conn',
      )

  module _ (k : ℕ) (answers : Answers L N k)
      (makes : (args : ConnectArgs) (m : L.Handle)
        → Completes L N not N.connect_cont
            (L.real_connect args m).0
            (L.real_connect args m).1
            k
            (N.connect_start args false m).0
            (N.connect_start args false m).1
            (N.connect_start args false m).2) where
    abbrev after_waiting : ℕ → MariaConn L → List Called → Happening → Reactor L
    after_waiting fuel c before x =
        wait_all L N operation_aborted nonblock fuel
          (step L N operation_aborted nonblock (quiet L N operation_aborted nonblock c before) x)

    call-Ran :
        (fuel : ℕ) (c : MariaConn L) (before : List Called) (x : Happening)
        → Admits c.conn x
        → suc (k + k) ≤ fuel
        → Ran before (blocking c.conn x) (after_waiting fuel c before x)
    unfolding blocking step
    call-Ran fuel c before (connects endpoint auth database flags handler) (opens, accepts) h =
        let c₀ = prepared L N operation_aborted nonblock c.conn in
        let (ec, c') = Service.connect L endpoint auth database flags c₀ in
        wait_all-Done L N operation_aborted nonblock connecting
          (connect_resume L N operation_aborted nonblock)
          (resume-connecting L N operation_aborted nonblock) handler before ec none c' (suc k) fuel
          (async_connect L N operation_aborted nonblock endpoint auth database flags c) c
          (async_connect_agrees L N operation_aborted nonblock endpoint auth database flags k
            (suc k) c opens accepts (makes (connect_args endpoint auth database flags) c₀.mysql)
            (omega arith))
          (omega arith)
    call-Ran fuel c before (queries stmt handler) _ h =
        let (ec, c') = Service.query L stmt c.conn in
        wait_all-Done L N operation_aborted nonblock querying (query_resume L N operation_aborted)
          (resume-querying L N operation_aborted nonblock) handler before ec none c' (suc k) fuel
          (async_query L N operation_aborted stmt c) c
          (async_query-Ends L N operation_aborted k stmt c answers) (omega arith)
    call-Ran fuel c before (stores handler) opened h =
        let (rs, ec, c') = Service.store_result L success c.conn in
        wait_all-Done L N operation_aborted nonblock storing (store_resume L N operation_aborted)
          (resume-storing L N operation_aborted nonblock) handler before ec (some rs) c'
          (suc (k + k)) fuel (async_store_result L N operation_aborted c) c
          (async_store_result-Ends L N operation_aborted k c answers opened) h
    call-Ran fuel c before (queries_result stmt handler) _ h =
        let (rs, ec, c') = query_result_ec L stmt c.conn in
        wait_all-Done L N operation_aborted nonblock reading (result_resume L N operation_aborted)
          (resume-reading L N operation_aborted nonblock) handler before ec (some rs) c'
          (suc (k + k)) fuel (async_query_result L N operation_aborted stmt c) c
          (async_query_result-Ends L N operation_aborted k stmt c answers) h
    call-Ran fuel c before cancels _ h =
        rw (wait_all-quiet L N operation_aborted nonblock fuel (cancel L N c) before)
          (refl, sym (append-nil before), cancel-conn c)
    call-Ran fuel c before closes _ h =
        rw (wait_all-quiet L N operation_aborted nonblock fuel (close L N c) before)
          (refl, sym (append-nil before), close-conn c)
    call-Ran fuel c before (happens i ec) admits h = elim admits [ ]

    run_each-Ran :
        (fuel : ℕ) (c : MariaConn L) (before : List Called) (xs : List Happening)
        → AdmitsAll c.conn xs
        → suc (k + k) ≤ fuel
        → Ran before
            (blocking_run c.conn xs)
            (run_each fuel (quiet L N operation_aborted nonblock c before) xs)
    unfolding run_each blocking_run AdmitsAll
    run_each-Ran fuel c before [] admits h = (refl, sym (append-nil before), refl)
    run_each-Ran fuel c before (x ∷ xs) (admits, rest) h =
        let (ks, c₁) = blocking c.conn x in
        rest-Ran fuel before ks c₁ (after_waiting fuel c before x) xs
          (call-Ran fuel c before x admits h) rest
          (λ c' before' admits'. run_each-Ran fuel c' before' xs admits' h)

  -- Let each suspended call of the client library come to what the blocking call comes to, after at
  -- most k suspensions. For any sequence of calls on one connection of mariadb_service, each made when
  -- nothing waits any more, the handlers are called once each and in order, with the codes and the
  -- result sets that the blocking functions of mysql_service return, and the connection is in the end as
  -- they leave it, closed connections and errors of the library included. A connection that is to be
  -- made can be opened and set to be non-blocking, and a result is stored on an open connection. Fuel
  -- above twice k is enough for each call.
  pub run_each-blocking_run :
      (k fuel : ℕ) (c : MariaConn L) (xs : List Happening)
      → Answers L N k
      → ((args : ConnectArgs) (m : L.Handle)
          → Completes L N not N.connect_cont
              (L.real_connect args m).0
              (L.real_connect args m).1
              k
              (N.connect_start args false m).0
              (N.connect_start args false m).1
              (N.connect_start args false m).2)
      → AdmitsAll c.conn xs
      → k + k < fuel
      → let s = run_each fuel (new_reactor L c) xs in
        (s.called ≡ (blocking_run c.conn xs).0)
        × (s.conn.conn ≡ (blocking_run c.conn xs).1)
        × (s.pending ≡ [])
  run_each-blocking_run k fuel c xs answers makes admits h =
      let (still, called, conn) = run_each-Ran k answers makes fuel c [] xs admits (omega arith) in
      (called, conn, still)
