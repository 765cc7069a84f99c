-- ===== src/Example/Output.antt =====
-- What blocking_multi_query.cpp and async_multi_query.cpp print of a statement that goes through.
use amy.Prelude.{ℕ, suc, ◌≡◌, ◌<◌, ap, ◌∙◌, true, false, Option, List, ◌∷◌, length, map, arith}
use amy.Errors.{ErrorCode, is_error}
use amy.Client.{ClientLib, Bytes}
use amy.Client.Protocol.{Delivery, Protocol}
use amy.Ops.{mysql_init}
use amy.Service
use amy.Service.{Conn}
use amy.Service.MoreResults.{table}
use amy.Connector
use amy.Connector.Iterator.{begin}
use amy.Example.{Ran}
use amy.Example.Print.{print_result_set}
use amy.Example.Blocking.{Options, try, visit, connect_query, blocking_multi_query}
use amy.Example.Async.{async_multi_query}
use amy.Example.Agreement.{twice, try_returned}
use amy.Example.Agreement.Multi.{async_multi_query-blocking_multi_query}
use amy.Example.Results.{AllNarrow, Prints, Prints-without_text, visit_begin}

module _ (L : ClientLib) (opts : Options) (stmt : Bytes) where
  abbrev pub connected : Conn L → ErrorCode × Conn L
  connected =
      Service.connect L opts.tcp_endpoint opts.auth_info opts.schema L.client_multi_statements

  -- The connection after the statement.
  abbrev pub queried : Conn L → ErrorCode × Conn L
  queried c = Service.query L stmt (connected c).1

  connected-opens :
      (c : Conn L)
      → is_error (connected c).0 ≡ false
      → ((connected c).1.initialized ≡ true) × ((connected c).1.flags ≡ L.client_multi_statements)
  unfolding Service.connect Service.open_conn Service.connect_open mysql_init
  connected-opens c clean = ground arith

  pub queried-keeps :
      (c : Conn L)
      → c.initialized ≡ true
      → let c' = (Service.query L stmt c).1 in
        (c'.initialized ≡ true) × (c'.flags ≡ c.flags) × (c'.first_result_stored ≡ false)
  unfolding Service.query Service.run_query
  queried-keeps c opened = ground arith

  try-connect :
      (c : Conn L) (next : Conn L → Ran L)
      → is_error (connected c).0 ≡ false
      → try L
          (Connector.connect L opts.tcp_endpoint opts.auth_info opts.schema
            L.client_multi_statements c)
          (λ _ c'. next c')
        ≡ next (connected c).1
  unfolding Connector.connect
  try-connect c next clean = try_returned L (connected c).0 (connected c).1 next clean

  try-query :
      (c : Conn L) (next : Conn L → Ran L)
      → is_error (Service.query L stmt c).0 ≡ false
      → try L (Connector.query L stmt c) (λ _ c'. next c') ≡ next (Service.query L stmt c).1
  unfolding Connector.query
  try-query c next clean = let (ec, c') = Service.query L stmt c in try_returned L ec c' next clean

module _ (L : ClientLib) (D : Delivery L) (P : Protocol L D) where
  pub blocking_multi_query-Prints :
      (opts : Options) (stmt : Bytes) (fuel : ℕ) (x : Option L.Res) (rest : List (Option L.Res))
      (c : Conn L)
      → Service.multi_results L L.client_multi_statements ≡ true
      → is_error (connected L opts stmt c).0 ≡ false
      → is_error (queried L opts stmt c).0 ≡ false
      → P.pending (queried L opts stmt c).1.mysql ≡ x ∷ rest
      → AllNarrow L D P (x ∷ rest)
      → suc (length rest) < fuel
      → Prints L (map (table L D) (x ∷ rest)) (blocking_multi_query L opts stmt fuel c)
  unfolding blocking_multi_query connect_query
  blocking_multi_query-Prints opts stmt fuel x rest c multi connects answers e narrow h =
      let visits : Conn L → Ran L = λ c'. visit L (print_result_set L) fuel (begin L c') in
      let (opened, flagged) = connected-opens L opts stmt c connects in
      let (still, keeps, first) = queried-keeps L opts stmt (connected L opts stmt c).1 opened in
      rw
        (
          try-connect L opts stmt c (λ c₁. try L (Connector.query L stmt c₁) (λ _ c₂. visits c₂))
              connects,
          try-query L opts stmt (connected L opts stmt c).1 visits answers,
        )
        (visit_begin L D P fuel x rest (queried L opts stmt c).1 e still
          (ap (Service.multi_results L) (keeps ∙ flagged) ∙ multi) first narrow h)

  -- Where the connection is made and the statement goes through on a connection that was not open, with
  -- the flag under which the client library returns several results, blocking_multi_query and
  -- async_multi_query end without an exception, and both print, for every result of the statement in
  -- the server's order, a line of counts with the number of its rows and then each row with the text of
  -- each of its values, and nothing else; no more results are left. What the line has of the
  -- connection, its affected rows and its field count, is left open. No result may have 2 ^ 31 columns.
  -- Fuel above the number of results by one is enough for the one, and twice that and four for the
  -- other.
  pub multi_query-Prints :
      (operation_aborted : ErrorCode) (opts : Options) (stmt : Bytes) (fuel : ℕ) (x : Option L.Res)
      (rest : List (Option L.Res)) (c : Conn L)
      → c.initialized ≡ false
      → Service.multi_results L L.client_multi_statements ≡ true
      → is_error (connected L opts stmt c).0 ≡ false
      → is_error (queried L opts stmt c).0 ≡ false
      → P.pending (queried L opts stmt c).1.mysql ≡ x ∷ rest
      → AllNarrow L D P (x ∷ rest)
      → suc (length rest) < fuel
      → let sets = map (table L D) (x ∷ rest) in
        Prints L sets (blocking_multi_query L opts stmt fuel c)
        × Prints L sets (async_multi_query L operation_aborted opts stmt (twice (suc (suc fuel))) c)
  multi_query-Prints operation_aborted opts stmt fuel x rest c closed multi connects answers e
        narrow h =
      let blocking =
        blocking_multi_query-Prints opts stmt fuel x rest c multi connects answers e narrow h in
      (
        blocking,
        Prints-without_text L (map (table L D) (x ∷ rest)) (blocking_multi_query L opts stmt fuel c)
            (async_multi_query L operation_aborted opts stmt (twice (suc (suc fuel))) c)
            (async_multi_query-blocking_multi_query L operation_aborted opts stmt fuel c closed
              multi)
            blocking,
      )
