-- ===== src/Tests/Typed.antt =====
-- A program whose type says where the connection is open.
use amy.Prelude.{◌≡◌, refl, map, false, [], ◌∷◌}
use amy.Errors.{is_error, client_error}
use amy.Auth.{tcp, with_password}
use amy.Service
use amy.Service.{new_conn}
use amy.Service.Typed.{
  Program, ends, connects, queries, stores, commits, closes, asks_more, codes, FindsOpen,
  codes-FindsOpen,
}
use amy.Tests.{lib}

-- A query and its first two results, if the connection can be made.
abbrev program : Program false
program =
    connects (tcp [] 3306) (with_password [] []) [] 65536
      (queries [] (stores (asks_more (stores (commits (closes ends))) ends))) ends

program-codes :
    map is_error (codes lib program (new_conn lib)) ≡ false ∷ false ∷ false ∷ false ∷ false ∷ []
unfolding codes new_conn Service.connect Service.query Service.store_result Service.has_more_results
    amy.Results.fetch_rows amy.Results.fetch_fields client_error Service.commit
program-codes = refl

codes-FindsOpen_example : FindsOpen lib (codes lib program (new_conn lib))
codes-FindsOpen_example = codes-FindsOpen lib program (new_conn lib) (λ k. absurd cc)
