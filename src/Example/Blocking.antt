-- ===== src/Example/Blocking.antt =====
-- example/blocking_multi_query.cpp, blocking_single_query.cpp, blocking_execute.cpp and
-- blocking_connect.cpp, from the connection that `connector` has at first. The options of the command
-- line and the statement are parameters.
use amy.Prelude.{ℕ, zero, suc, none, some, [], ◌∷◌, if◌then◌else◌}
use amy.Errors.{Outcome, returned, thrown}
use amy.Client.{ClientLib, Bytes}
use amy.Auth.{AuthInfo, Endpoint}
use amy.Results.{ResultSet}
use amy.Service.{Conn, default_flags}
use amy.Connector
use amy.Connector.Iterator.{Iterator, end_iterator, equal, increment, begin}
use amy.Connector.Execute.{execute}
use amy.Example.{affected, connected_line, finished, failed, Ran, printed, Printed}
use amy.Example.Print.{print_result_set, print_pairs}

-- `opts`, with the functions that make an endpoint and an `auth_info` of it.
pub record Options : Type 0 where
  pub tcp_endpoint : Endpoint
  pub auth_info : AuthInfo
  pub schema : Bytes

module _ (L : ClientLib) where
  -- A statement of `main` that may throw, and what follows it.
  abbrev pub try : {A : Type 0} → Outcome A × Conn L → (A → Conn L → Ran L) → Ran L
  try (returned a, c) next = next a c
  try (thrown ec text, c) next = some ([], failed ec text, c)

  -- `std::for_each(first, last, …)`, which prints, with fuel.
  unfoldable pub visit : (Conn L → ResultSet → Printed) → ℕ → Outcome Iterator × Conn L → Ran L
  unfolding increment
  visit print zero o = none
  visit print (suc fuel) o = try o (λ it c.
      let rest = visit print fuel (increment L it c) in
      if equal it end_iterator
      then some ([], finished, c)
      else printed L (print c it.result_set) c rest)

  module _ (opts : Options) (stmt : Bytes) where
    -- `connector.connect(…)` and `connector.query(…)`, before the rest of `main`.
    unfoldable pub connect_query : ℕ → (Conn L → Ran L) → Conn L → Ran L
    unfolding Connector.connect Connector.query
    connect_query flags rest c =
        try (Connector.connect L opts.tcp_endpoint opts.auth_info opts.schema flags c)
          (λ _ c₁. try (Connector.query L stmt c₁) (λ _ c₂. rest c₂))

    -- `main` of blocking_multi_query.cpp.
    unfoldable pub blocking_multi_query : ℕ → Conn L → Ran L
    unfolding connect_query visit begin
    blocking_multi_query fuel =
        connect_query L.client_multi_statements (λ c. visit (print_result_set L) fuel (begin L c))

    -- `main` of blocking_single_query.cpp.
    unfoldable pub blocking_single_query : Conn L → Ran L
    unfolding connect_query Connector.store_result
    blocking_single_query = connect_query default_flags (λ c.
        try (Connector.store_result L c)
          (λ rs c'. printed L (print_pairs L c' rs) c' (some ([], finished, c'))))

    -- `main` of blocking_connect.cpp.
    unfoldable pub blocking_connect : Conn L → Ran L
    unfolding Connector.connect
    blocking_connect c =
        try (Connector.connect L opts.tcp_endpoint opts.auth_info opts.schema default_flags c)
          (λ _ c'. some (connected_line ∷ [], finished, c'))

    -- `main` of blocking_execute.cpp.
    unfoldable pub blocking_execute : Conn L → Ran L
    unfolding Connector.connect execute
    blocking_execute c =
        try (Connector.connect L opts.tcp_endpoint opts.auth_info opts.schema default_flags c)
          (λ _ c₁. try (execute L stmt c₁) (λ rows c₂. some (affected rows ∷ [], finished, c₂)))
