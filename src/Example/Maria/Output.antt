-- ===== src/Example/Maria/Output.antt =====
-- What mariadb_async_multi_query.cpp prints of a statement that goes through.
use amy.Prelude.{
  ℕ, suc, ◌+◌, ◌≤◌, ◌≡◌, ◌≢◌, not, false, true, Option, none, some, List, ◌∷◌, length, map, arith,
}
use amy.Errors.{ErrorCode, success, is_error}
use amy.Client.{ClientLib, Bytes, null}
use amy.Client.Protocol.{Delivery, Protocol}
use amy.Auth.{connect_args}
use amy.Results.{Field}
use amy.Service
use amy.Service.MoreResults.{table}
use amy.Maria.{NonBlocking, MariaConn}
use amy.Maria.Chain.{Completes}
use amy.Maria.Connect.Agreement.{prepared}
use amy.Example.{Ran}
use amy.Example.Blocking.{Options, blocking_multi_query}
use amy.Example.Agreement.{Matches}
use amy.Example.Results.{AllNarrow, Prints, Prints-without_text}
use amy.Example.Output.{connected, queried, blocking_multi_query-Prints}
use amy.Example.Maria.{mariadb_async_multi_query}
use amy.Maria.Answers.{Answers}
use amy.Example.Maria.Multi.{rounds, mariadb_async_multi_query-Matches}

module _ (L : ClientLib) where
  Prints-Matches :
      (ts : List (List (List Field))) (r r' : Ran L)
      → Matches L r r'
      → Prints L ts r
      → Prints L ts r'
  Prints-Matches ts none r' same p = elim p [ ]
  Prints-Matches ts (some x) r' same p = Prints-without_text L ts (some x) r' same p

module _ (L : ClientLib) (N : NonBlocking L) (D : Delivery L) (P : Protocol L D) where
  -- Let the client library's call that connects be suspended at first and then come to what the
  -- blocking call comes to, and each of its other suspended calls too, after at most k suspensions.
  -- Where the connection is opened, set to be non-blocking and made, and the statement goes through,
  -- with the flag under which the client library returns several results, mariadb_async_multi_query
  -- ends without an exception and prints, for every result of the statement in the server's order, a
  -- line of counts with the number of its rows and then each row with the text of each of its values,
  -- and nothing else; no more results are left. What the line has of the connection, its affected rows
  -- and its field count, is left open. No result may have 2 ^ 31 columns. A step for each suspension of
  -- the connection, k for the statement, twice k and two for each result and one more of these, and
  -- four are enough.
  pub mariadb_async_multi_query-Prints :
      (operation_aborted : ErrorCode) (nonblock : ℕ) (opts : Options) (stmt : Bytes) (k m fuel : ℕ)
      (x : Option L.Res) (rest : List (Option L.Res)) (c : MariaConn L)
      → let c₀ = prepared L N operation_aborted nonblock c.conn in
        let args =
          connect_args opts.tcp_endpoint opts.auth_info opts.schema L.client_multi_statements in
        Answers L N k
        → Service.multi_results L L.client_multi_statements ≡ true
        → (Service.open_conn L c.conn).0 ≡ success
        → (Service.set_option L nonblock null (Service.open_conn L c.conn).1).0 ≡ success
        → Completes L N not N.connect_cont
            (L.real_connect args c₀.mysql).0
            (L.real_connect args c₀.mysql).1
            m
            (N.connect_start args false c₀.mysql).0
            (N.connect_start args false c₀.mysql).1
            (N.connect_start args false c₀.mysql).2
        → (N.connect_start args false c₀.mysql).0 ≢ 0
        → is_error (connected L opts stmt c₀).0 ≡ false
        → is_error (queried L opts stmt c₀).0 ≡ false
        → P.pending (queried L opts stmt c₀).1.mysql ≡ x ∷ rest
        → AllNarrow L D P (x ∷ rest)
        → suc m + suc (suc k + suc (rounds k (suc (suc (length rest))))) ≤ fuel
        → Prints L
            (map (table L D) (x ∷ rest))
            (mariadb_async_multi_query L N operation_aborted nonblock opts stmt fuel c)
  mariadb_async_multi_query-Prints operation_aborted nonblock opts stmt k m fuel x rest c answers
        multi opens accepts completes waiting connects goes_through e narrow bound =
      let n = suc (suc (length rest)) in
      let c₀ = prepared L N operation_aborted nonblock c.conn in
      Prints-Matches L (map (table L D) (x ∷ rest)) (blocking_multi_query L opts stmt n c₀)
        (mariadb_async_multi_query L N operation_aborted nonblock opts stmt fuel c)
        (mariadb_async_multi_query-Matches L N operation_aborted nonblock opts stmt k n m fuel c
          answers multi opens accepts completes waiting bound)
        (blocking_multi_query-Prints L D P opts stmt n x rest c₀ multi connects goes_through e
          narrow (omega arith))
