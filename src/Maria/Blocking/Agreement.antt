-- ===== src/Maria/Blocking/Agreement.antt =====
-- The blocking functions of the two services against each other.
use amy.Prelude.{ℕ, false, ◌≡◌, ap, refl, true, Option, none, some, List, [], ◌∷◌, arith}
use amy.Errors.{ErrorCode, success, misc_error, not_initialized}
use amy.Ops.{mysql_options}
use amy.Prelude.Int.{pos}
use amy.Client.{ClientLib, OptionData}
use amy.Results.{ResultSet}
use amy.Service
use amy.Service.{Conn}
use amy.Service.Ownership.{
  Call, opens, closes, cancels, connects, queries, stores, sets_autocommit, commits, rolls_back,
  sets_option,
}
use amy.Maria
use amy.Maria.{NonBlocking, MariaConn}
use amy.Maria.Blocking

-- What a call returns to its caller: the code, and the result set of `store_result`.
abbrev pub Reply : Type 0
Reply = ErrorCode × Option ResultSet

abbrev coded {ℓ} : {C : Type ℓ} → ErrorCode × C → Reply × C
coded (ec, c) = ((ec, none), c)

abbrev stored {ℓ} : {C : Type ℓ} → ResultSet × ErrorCode × C → Reply × C
stored (rs, ec, c) = ((ec, some rs), c)

module _ (L : ClientLib) where
  -- The calls on a connection of `mysql_service`.
  unfoldable pub mysql_call : Conn L → Call L → Reply × Conn L
  mysql_call c opens = coded (Service.open_conn L c)
  mysql_call c closes = coded (success, Service.close L c)
  mysql_call c cancels = coded (success, Service.cancel L c)
  mysql_call c (connects e a database flags) = coded (Service.connect L e a database flags c)
  mysql_call c (queries stmt) = coded (Service.query L stmt c)
  mysql_call c (stores ec) = stored (Service.store_result L ec c)
  mysql_call c (sets_autocommit mode) = coded (Service.autocommit L mode c)
  mysql_call c commits = coded (Service.commit L c)
  mysql_call c rolls_back = coded (Service.rollback L c)
  mysql_call c (sets_option option arg) = coded (Service.set_option L option arg c)

  unfoldable pub mysql_run : Conn L → List (Call L) → List Reply × Conn L
  unfolding mysql_call
  mysql_run c [] = ([], c)
  mysql_run c (k ∷ ks) =
      let (r, c1) = mysql_call c k in let (rs, c2) = mysql_run c1 ks in (r ∷ rs, c2)

  -- The options are set while the connection is open, as far as these calls go.
  abbrev pub SetsWhileOpen : Conn L → Call L → Type 0
  SetsWhileOpen c (sets_option option arg) = c.initialized ≡ true
  SetsWhileOpen c _ = Unit {0}

  abbrev pub OptionsWhileOpen : Conn L → List (Call L) → Type 0
  OptionsWhileOpen c [] = Unit {0}
  OptionsWhileOpen c (k ∷ ks) = SetsWhileOpen c k × OptionsWhileOpen (mysql_call c k).1 ks

  module _ (N : NonBlocking L) where
    -- The same calls on a connection of `mariadb_service`.
    unfoldable pub maria_call : MariaConn L → Call L → Reply × MariaConn L
    maria_call c opens = coded (Blocking.open_conn L N c)
    maria_call c closes = coded (success, Maria.close L N c)
    maria_call c cancels = coded (success, Blocking.cancel L N c)
    maria_call c (connects e a database flags) = coded (Blocking.connect L N e a database flags c)
    maria_call c (queries stmt) = coded (Blocking.query L N stmt c)
    maria_call c (stores ec) = stored (Blocking.store_result L N ec c)
    maria_call c (sets_autocommit mode) = coded (Blocking.autocommit L N mode c)
    maria_call c commits = coded (Blocking.commit L N c)
    maria_call c rolls_back = coded (Blocking.rollback L N c)
    maria_call c (sets_option option arg) = coded (Maria.set_option L N option arg c)

    unfoldable pub maria_run : MariaConn L → List (Call L) → List Reply × MariaConn L
    unfolding maria_call
    maria_run c [] = ([], c)
    maria_run c (k ∷ ks) =
        let (r, c1) = maria_call c k in let (rs, c2) = maria_run c1 ks in (r ∷ rs, c2)

    pub has_more_results-agrees :
        (c : MariaConn L) → Blocking.has_more_results L N c ≡ Service.has_more_results L c.conn
    unfolding Blocking.has_more_results Service.has_more_results
    has_more_results-agrees c = ground arith

    -- The two services give the same reply and the same connection.
    abbrev Same : Reply × MariaConn L → Reply × Conn L → Type 0
    Same (r, c) (r', c') = (r ≡ r') × (c.conn ≡ c')

    open_conn-agrees :
        (c : MariaConn L)
        → ((Blocking.open_conn L N c).0 ≡ (Service.open_conn L c.conn).0)
          × ((Blocking.open_conn L N c).1.conn ≡ (Service.open_conn L c.conn).1)
    unfolding Blocking.open_conn Service.open_conn
    open_conn-agrees c = ground arith

    advance-agrees :
        (ec : ErrorCode) (c : MariaConn L)
        → ((Blocking.advance L N ec c).0 ≡ (Service.advance L ec c.conn).0)
          × ((Blocking.advance L N ec c).1.conn ≡ (Service.advance L ec c.conn).1)
    unfolding Blocking.advance Service.advance
    advance-agrees ec c =
        ground (arith, has_more_results-agrees (record c { conn = Service.free_result L c.conn }))

    retrieve-agrees :
        (c : MariaConn L)
        → let (rs, ec, c') = Blocking.retrieve L N c in
          (rs, ec, c'.conn) ≡ Service.retrieve L c.conn
    unfolding Blocking.retrieve Service.retrieve
    retrieve-agrees c = refl

    store_result-agrees :
        (ec : ErrorCode) (c : MariaConn L)
        → let (rs, ec', c') = Blocking.store_result L N ec c in
          (rs, ec', c'.conn) ≡ Service.store_result L ec c.conn
    unfolding Blocking.store_result Service.store_result
    store_result-agrees ec c =
        let (code, conn) = advance-agrees ec c in
        let moved = (Blocking.advance L N ec c).1 in
        ground (arith, code, conn, retrieve-agrees moved)

    call-agrees :
        (c : MariaConn L) (k : Call L)
        → SetsWhileOpen c.conn k
        → Same (maria_call c k) (mysql_call c.conn k)
    unfolding maria_call mysql_call
    call-agrees c opens h = ground (arith, open_conn-agrees c)
    call-agrees c closes h =
        unfold Maria.close Maria.close_impl Service.close Service.close_impl in ground arith
    call-agrees c cancels h = unfold Blocking.cancel Service.cancel in (refl, refl)
    call-agrees c (connects e a database flags) h =
        unfold Blocking.connect Blocking.connect_open Service.connect Service.connect_open in
        ground (arith, open_conn-agrees c)
    call-agrees c (queries stmt) h =
        unfold Blocking.query Service.query Service.run_query in ground arith
    call-agrees c (stores ec) h = ground (arith, store_result-agrees ec c)
    call-agrees c (sets_autocommit mode) h =
        unfold Blocking.autocommit Service.autocommit in (refl, refl)
    call-agrees c commits h = unfold Blocking.commit Service.commit in ground arith
    call-agrees c rolls_back h = unfold Blocking.rollback Service.rollback in ground arith
    call-agrees c (sets_option option arg) h =
        unfold Maria.set_option Service.set_option in ground arith

    -- Whatever blocking calls are made on a connection of `mariadb_service`, they return what the same
    -- calls on an equal connection of `mysql_service` return, and leave an equal connection, which
    -- promises further results or not as the other does. Options are set on an open connection only.
    pub maria_run-mysql_run :
        (c : MariaConn L) (ks : List (Call L))
        → OptionsWhileOpen c.conn ks
        → let (replies, c') = maria_run c ks in
          let (replies', conn) = mysql_run c.conn ks in
          (replies ≡ replies')
          × (c'.conn ≡ conn)
          × (Blocking.has_more_results L N c' ≡ Service.has_more_results L conn)
    unfolding maria_run mysql_run
    maria_run-mysql_run c [] h = (refl, refl, has_more_results-agrees c)
    maria_run-mysql_run c (k ∷ ks) (h, hs) =
        let (r, c1) = maria_call c k in
        let (same_reply, same_conn) = call-agrees c k h in
        let rest = maria_run-mysql_run c1 ks (rw same_conn hs) in
        let (replies, conn, more) = rest in
        rw (← same_reply, ← same_conn) (ap (λ (l : List Reply). r ∷ l) replies, conn, more)

    -- On a connection that is not open `set_option` of mysql_service loses its `not_initialized`: where
    -- the client library accepts the option for the handle that is not initialised, it reports success.
    -- `set_option` of mariadb_service reports `not_initialized` and leaves the connection as it was.
    pub set_option_differs :
        (option : ℕ) (arg : OptionData) (c : MariaConn L)
        → c.conn.initialized ≡ false
        → (L.options option arg c.conn.mysql).0 ≡ pos 0
        → ((Service.set_option L option arg c.conn).0 ≡ success)
          × (Maria.set_option L N option arg c ≡ (misc_error not_initialized, c))
    unfolding Service.set_option Maria.set_option mysql_options
    set_option_differs option arg c closed accepted = (ground arith, rw closed refl)
