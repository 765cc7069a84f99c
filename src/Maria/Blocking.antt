-- ===== src/Maria/Blocking.antt =====
-- The blocking functions of include/amy/impl/mariadb_service.ipp.
pub mod Agreement
use amy.Prelude.{
  ℕ, suc, String, Bool, true, false, not, ◌||◌, ◌&&◌, Option, none, some, ◌==◌, if◌then◌else◌,
}
use amy.Prelude.Int.{uint_of_int}
use amy.Errors.{ErrorCode, success, is_error, misc_error, not_initialized, no_more_results}
use amy.Client.{ClientLib, Bytes}
use amy.Auth.{AuthInfo, Endpoint, connect_args}
use amy.Ops.{
  mysql_init, mysql_autocommit, mysql_real_connect, mysql_real_query, mysql_store_result,
  mysql_next_result, mysql_commit, mysql_rollback,
}
use amy.Results.{ResultSet, empty_set}
use amy.Service
use amy.Service.{Conn}
use amy.Maria.{NonBlocking, MariaConn, close, close_impl}

module _ (L : ClientLib) (N : NonBlocking L) where
  -- A connection whose members but `ev_` and `timer_` are those of `conn`.
  abbrev pub with_conn : Conn L → MariaConn L → MariaConn L
  with_conn conn c = record c { conn = conn }

  abbrev pub is_open : MariaConn L → Bool
  is_open c = c.conn.initialized

  -- `mariadb_service::destroy`, and the destructor that follows it.
  unfoldable pub destroy : MariaConn L → MariaConn L
  unfolding close close_impl
  destroy c = close_impl L N (close L N c)

  -- `mariadb_service::cancel`.
  unfoldable pub cancel : MariaConn L → MariaConn L
  cancel c = with_conn (record (c.conn) { cancelation_token = suc c.conn.cancelation_token }) c

  -- `mariadb_service::error_message`.
  unfoldable pub error_message : MariaConn L → ErrorCode → Option String
  error_message c ec =
      if L.errno c.conn.mysql == uint_of_int ec.value
      then some (L.error c.conn.mysql)
      else Service.message L ec

  -- `mariadb_service::open`.
  unfoldable pub open_conn : MariaConn L → ErrorCode × MariaConn L
  unfolding mysql_init
  open_conn c =
      let (ret, ec, m) = mysql_init L c.conn.mysql in
      if not (is_open c)
      then (ec, with_conn (record (c.conn) { mysql = m; initialized = ret }) c)
      else (success, c)

  -- `mariadb_service::connect` after the connection was opened.
  unfoldable pub connect_open :
      Endpoint → AuthInfo → Bytes → ℕ → MariaConn L → ErrorCode × MariaConn L
  unfolding mysql_real_connect
  connect_open endpoint auth database client_flag c =
      let (_, ec, m) =
        mysql_real_connect L (connect_args endpoint auth database client_flag) c.conn.mysql in
      (ec, with_conn (record (c.conn) { mysql = m; flags = client_flag }) c)

  -- `mariadb_service::connect`.
  unfoldable pub connect : Endpoint → AuthInfo → Bytes → ℕ → MariaConn L → ErrorCode × MariaConn L
  unfolding open_conn connect_open
  connect endpoint auth database client_flag c =
      let (ec, opened) = open_conn c in
      if not (is_open c)
      then (if is_error ec
          then (ec, opened)
          else connect_open endpoint auth database client_flag opened)
      else connect_open endpoint auth database client_flag c

  -- `mariadb_service::query`.
  unfoldable pub query : Bytes → MariaConn L → ErrorCode × MariaConn L
  unfolding mysql_real_query
  query stmt c =
      let freed : Conn L = record (Service.free_result L c.conn) { first_result_stored = false } in
      let (_, ec, m) = mysql_real_query L stmt freed.mysql in
      if not (is_open c)
      then (misc_error not_initialized, c)
      else (ec, with_conn (record freed { mysql = m }) c)

  -- `mariadb_service::has_more_results`.
  unfoldable pub has_more_results : MariaConn L → Bool
  has_more_results c =
      let multi_results = Service.multi_results L c.conn.flags in
      let stored = c.conn.first_result_stored in
      if not (is_open c)
      then false
      else if multi_results
      then not stored || L.more_results c.conn.mysql
      else not stored && not (L.field_count c.conn.mysql == 0)

  -- The first half of `store_result`: moves on to the next result unless none was stored yet.
  unfoldable pub advance : ErrorCode → MariaConn L → ErrorCode × MariaConn L
  unfolding has_more_results mysql_next_result
  advance ec c =
      let freed : MariaConn L = with_conn (Service.free_result L c.conn) c in
      let (_, next_ec, m) = mysql_next_result L freed.conn.mysql in
      if c.conn.first_result_stored
      then (if not (has_more_results freed)
          then (misc_error no_more_results, freed)
          else (next_ec, with_conn (record (freed.conn) { mysql = m }) c))
      else (ec, with_conn (record (c.conn) { first_result_stored = true }) c)

  -- The second half: retrieves the result that the connection stands at.
  unfoldable pub retrieve : MariaConn L → ResultSet × ErrorCode × MariaConn L
  unfolding mysql_store_result
  retrieve c =
      let (r, ec, m) = mysql_store_result L c.conn.mysql in
      let (p, stored) = Service.allocate L r (record (c.conn) { mysql = m }) in
      let (rs, ec', c') = Service.assign_last L ec (Service.reset_result L p stored) in
      (rs, ec', with_conn c' c)

  -- `mariadb_service::store_result`. The first half reads the caller's `ec`.
  unfoldable pub store_result : ErrorCode → MariaConn L → ResultSet × ErrorCode × MariaConn L
  unfolding advance retrieve
  store_result ec c =
      let (ec', c') = advance ec c in if is_error ec' then (empty_set, ec', c') else retrieve c'

  -- `mariadb_service::autocommit`, which does not ask whether the connection is open.
  unfoldable pub autocommit : Bool → MariaConn L → ErrorCode × MariaConn L
  unfolding mysql_autocommit
  autocommit mode c =
      let (ec, m) = mysql_autocommit L mode c.conn.mysql in
      (ec, with_conn (record (c.conn) { mysql = m }) c)

  unfoldable pub commit : MariaConn L → ErrorCode × MariaConn L
  unfolding mysql_commit
  commit c =
      let (ec, m) = mysql_commit L c.conn.mysql in
      if not (is_open c)
      then (misc_error not_initialized, c)
      else (ec, with_conn (record (c.conn) { mysql = m }) c)

  unfoldable pub rollback : MariaConn L → ErrorCode × MariaConn L
  unfolding mysql_rollback
  rollback c =
      let (ec, m) = mysql_rollback L c.conn.mysql in
      if not (is_open c)
      then (misc_error not_initialized, c)
      else (ec, with_conn (record (c.conn) { mysql = m }) c)

  unfoldable pub affected_rows : MariaConn L → ℕ
  affected_rows c = L.affected_rows c.conn.mysql
