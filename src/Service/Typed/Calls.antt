-- ===== src/Service/Typed/Calls.antt =====
-- What the blocking functions report where the connection is open, or may be: `not_initialized` is not
-- among it. `connect` and `open` leave an open connection after a success.
use amy.Prelude.{
  ℕ, ◌≡◌, ◌≢◌, refl, ◌∙◌, Bool, true, false, Option, none, some, zero, suc, List, arith,
}
use amy.Errors.{ErrorCode, success, is_error, misc_error, client_error, not_initialized}
use amy.Client.{ClientLib, Bytes, OptionData, FieldDef}
use amy.Auth.{AuthInfo, Endpoint}
use amy.Ops.{mysql_init, mysql_options, mysql_store_result}
use amy.Results.{new_result_set, fetch_fields, fetch_rows, assign_result}
use amy.Service.{
  Conn, free_result, allocate, reset_result, open_conn, connect, connect_open, query, run_query,
  advance, retrieve, assign_last, store_result, autocommit, commit, rollback, set_option, cancel,
}

module _ (L : ClientLib) where
  pub open_conn-opened :
      (c : Conn L)
      → let (ec, c') = open_conn L c in
        (ec ≢ misc_error not_initialized) × (is_error ec ≡ false → c'.initialized ≡ true)
  unfolding open_conn mysql_init
  open_conn-opened c = (ground arith, ground arith)

  pub connect-opened :
      (endpoint : Endpoint) (auth : AuthInfo) (database : Bytes) (flags : ℕ) (c : Conn L)
      → let (ec, c') = connect L endpoint auth database flags c in
        (ec ≢ misc_error not_initialized) × (is_error ec ≡ false → c'.initialized ≡ true)
  unfolding connect connect_open open_conn mysql_init client_error
  connect-opened endpoint auth database flags c = (ground arith, ground arith)

  pub query-opened :
      (stmt : Bytes) (c : Conn L)
      → c.initialized ≡ true
      → let (ec, c') = query L stmt c in (ec ≢ misc_error not_initialized) × (c'.initialized ≡ true)
  unfolding query run_query client_error
  query-opened stmt c opened = (ground arith, ground arith)

  pub commit-opened :
      (c : Conn L)
      → c.initialized ≡ true
      → let (ec, c') = commit L c in (ec ≢ misc_error not_initialized) × (c'.initialized ≡ true)
  unfolding commit
  commit-opened c opened = (ground arith, ground arith)

  pub rollback-opened :
      (c : Conn L)
      → c.initialized ≡ true
      → let (ec, c') = rollback L c in (ec ≢ misc_error not_initialized) × (c'.initialized ≡ true)
  unfolding rollback
  rollback-opened c opened = (ground arith, ground arith)

  pub autocommit-opened :
      (mode : Bool) (c : Conn L)
      → let (ec, c') = autocommit L mode c in
        (ec ≢ misc_error not_initialized) × (c'.initialized ≡ c.initialized)
  unfolding autocommit
  autocommit-opened mode c = (ground arith, refl)

  pub set_option-opened :
      (option : ℕ) (arg : OptionData) (c : Conn L)
      → let (ec, c') = set_option L option arg c in
        (ec ≢ misc_error not_initialized) × (c'.initialized ≡ c.initialized)
  unfolding set_option mysql_options client_error
  set_option-opened option arg c = (ground arith, refl)

  fetch_rows-opened :
      (fuel : ℕ) (m : L.Handle) (address : ℕ) (info : List FieldDef) (r : L.Res) (ec : ErrorCode)
      → ec ≢ misc_error not_initialized
      → (fetch_rows L fuel m address info r ec).1 ≢ misc_error not_initialized
  unfolding fetch_rows client_error
  fetch_rows-opened zero m address info r ec fine = fine
  fetch_rows-opened (suc fuel) m address info r ec fine =
      let rest = fetch_rows-opened fuel m address info (L.fetch_row r).1 success (ground arith) in
      ground (arith, rest)

  assign_result-opened :
      (m : L.Handle) (address : ℕ) (r : L.Res) (ec : ErrorCode)
      → ec ≢ misc_error not_initialized
      → (assign_result L m address r new_result_set ec).1 ≢ misc_error not_initialized
  unfolding assign_result
  assign_result-opened m address r ec fine =
      let (info, r₁) = fetch_fields L (suc (L.num_fields r)) r in
      let rows = fetch_rows-opened (suc (L.num_rows r)) m address info r₁ ec fine in
      ground (arith, rows)

  assign_last-opened :
      (ec : ErrorCode) (c : Conn L) (last : Option ℕ)
      → c.last_result ≡ last
      → ec ≢ misc_error not_initialized
      → let (_, ec', c') = assign_last L ec c in
        (ec' ≢ misc_error not_initialized) × (c'.initialized ≡ c.initialized)
  unfolding assign_last
  assign_last-opened ec c none e fine = (ground arith, ground arith)
  assign_last-opened ec c (some a) e fine = by_result (c.results a) refl
    where
      by_result :
          (x : Option L.Res)
          → c.results a ≡ x
          → let (_, ec', c') = assign_last L ec c in
            (ec' ≢ misc_error not_initialized) × (c'.initialized ≡ c.initialized)
      by_result none h = (ground arith, ground arith)
      by_result (some r) h =
          let assigned = assign_result-opened c.mysql a r ec fine in
          (ground (arith, assigned), ground arith)

  reset_result-opened :
      (r : Option L.Res) (c : Conn L)
      → (reset_result L (allocate L r c).0 (allocate L r c).1).initialized ≡ c.initialized
  unfolding reset_result allocate free_result
  reset_result-opened none c = ground arith
  reset_result-opened (some r) c = ground arith

  mysql_store_result-opened :
      (m : L.Handle) → (mysql_store_result L m).1 ≢ misc_error not_initialized
  unfolding mysql_store_result client_error
  mysql_store_result-opened m = ground arith

  retrieve-opened :
      (c : Conn L)
      → let (_, ec, c') = retrieve L c in
        (ec ≢ misc_error not_initialized) × (c'.initialized ≡ c.initialized)
  unfolding retrieve
  retrieve-opened c =
      let (r, ec, m) = mysql_store_result L c.mysql in
      let c' : Conn L =
        reset_result L (allocate L r (record c { mysql = m })).0
          (allocate L r (record c { mysql = m })).1 in
      let (fine, same) =
        assign_last-opened ec c' c'.last_result refl (mysql_store_result-opened c.mysql) in
      (fine, same ∙ reset_result-opened r (record c { mysql = m }))

  advance-opened :
      (c : Conn L)
      → let (ec, c') = advance L success c in
        (ec ≢ misc_error not_initialized) × (c'.initialized ≡ c.initialized)
  unfolding advance free_result client_error
  advance-opened c = (ground arith, ground arith)

  pub store_result-opened :
      (c : Conn L)
      → let (_, ec, c') = store_result L success c in
        (ec ≢ misc_error not_initialized) × (c'.initialized ≡ c.initialized)
  unfolding store_result
  store_result-opened c =
      let moved = advance-opened c in
      let read = retrieve-opened (advance L success c).1 in
      (ground (arith, moved, read), ground (arith, moved, read))

  pub cancel-opened : (c : Conn L) → (cancel L c).initialized ≡ c.initialized
  unfolding cancel
  cancel-opened c = refl
