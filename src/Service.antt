-- ===== src/Service.antt =====
-- include/amy/mysql_service.hpp and the blocking functions of include/amy/impl/mysql_service.ipp.
-- A connection's value is `mysql_service::implementation` with the results that the client library
-- has allocated for it. A function that writes `ec` on every path takes no old value of it.
pub mod Access
pub mod Allocation
pub mod MoreResults
pub mod Printing
pub mod Typed
pub mod Cells
pub mod Closed
pub mod Expiry
pub mod Ownership
use amy.Prelude.{
  ℕ, zero, suc, ◌+◌, String, Bool, true, false, not, ◌&&◌, ◌||◌, Option, none, some, ◌==◌,
  if◌then◌else◌, bit_and, bit_or,
}
use amy.Prelude.Int.{ℤ, uint_of_int}
use amy.Errors.{
  ErrorCode, Category, client, misc, system, success, is_error, misc_error, not_initialized,
  no_more_results, client_message, misc_message,
}
use amy.Client.{ClientLib, Bytes, OptionData}
use amy.Auth.{AuthInfo, Endpoint, connect_args}
use amy.Ops.{
  mysql_init, mysql_autocommit, mysql_real_connect, mysql_real_query, mysql_store_result,
  mysql_next_result, mysql_commit, mysql_rollback, mysql_options,
}
use amy.Results.{ResultSet, new_result_set, empty_set, assign_result}

-- `results` are the allocated MYSQL_RES by address, and `next_result` is the next address.
-- `cancelation_token` numbers the control blocks of that member: a weak pointer to it is expired
-- when the number has changed.
pub record Conn (L : ClientLib) : Type 0 where
  pub mysql : L.Handle
  pub flags : ℕ
  pub initialized : Bool
  pub first_result_stored : Bool
  pub last_result : Option ℕ
  pub cancelation_token : ℕ
  pub results : ℕ → Option L.Res
  pub next_result : ℕ

abbrev pub update {ℓ} : {A : Type ℓ} → (ℕ → A) → ℕ → A → ℕ → A
update f a v b = if b == a then v else f b

-- The enumerator `default_flags`.
abbrev pub default_flags : ℕ
default_flags = 0

module _ (L : ClientLib) where
  -- `implementation::implementation()`.
  unfoldable pub new_conn : Conn L
  new_conn = record {
    mysql = L.blank;
    flags = default_flags;
    initialized = false;
    first_result_stored = false;
    last_result = none;
    cancelation_token = 0;
    results = λ _. none;
    next_result = 0;
  }

  -- `last_result.reset()`: the deleter frees the result that is not null.
  unfoldable pub free_result : Conn L → Conn L
  free_result c = elim c.last_result [
    | none ↦ c
    | some a ↦ record c { last_result = none; results = update c.results a none }
  ]

  -- The library allocates the result that one of its calls returns; `none` is a null pointer.
  unfoldable pub allocate : Option L.Res → Conn L → Option ℕ × Conn L
  allocate none c = (none, c)
  allocate (some r) c = (
    some c.next_result,
    record c { results = update c.results c.next_result (some r); next_result = suc c.next_result },
  )

  -- `last_result.reset(p, result_set_deleter())`: the old result is freed, which is not the one at the
  -- new pointer.
  unfoldable pub reset_result : Option ℕ → Conn L → Conn L
  unfolding free_result
  reset_result none c = free_result c
  reset_result (some a) c =
      let freed : Conn L = free_result c in
      record freed { last_result = some a; results = update freed.results a (c.results a) }

  -- `implementation::cancel`.
  unfoldable pub cancel : Conn L → Conn L
  cancel c = record c { cancelation_token = suc c.cancelation_token }

  -- The first statements of `implementation::close`, which end the session.
  unfoldable pub end_session : Conn L → Conn L
  end_session c = record c {
    mysql = if c.initialized then L.close c.mysql else c.mysql;
    initialized = false;
    first_result_stored = false;
  }

  -- `implementation::close`.
  unfoldable pub close_impl : Conn L → Conn L
  unfolding end_session free_result cancel
  close_impl c = cancel (free_result (end_session c))

  abbrev pub is_open : Conn L → Bool
  is_open c = c.initialized

  -- `mysql_service::close`.
  unfoldable pub close : Conn L → Conn L
  unfolding close_impl
  close c = if is_open c then close_impl c else c

  -- `mysql_service::destroy`, and the destructor that follows it.
  unfoldable pub destroy : Conn L → Conn L
  unfolding close close_impl
  destroy c = close_impl (close c)

  -- `ec.message()`.
  unfoldable pub message : ErrorCode → Option String
  unfolding client_message misc_message
  message ec = elim ec.category [
    | client ↦ some (client_message L.code ec.value)
    | misc ↦ misc_message L.code ec.value
    | system ↦ some (L.system_message ec.value)
  ]

  -- `mysql_service::error_message`.
  unfoldable pub error_message : Conn L → ErrorCode → Option String
  unfolding message
  error_message c ec =
      if L.errno c.mysql == uint_of_int ec.value then some (L.error c.mysql) else message ec

  -- `mysql_service::open`.
  unfoldable pub open_conn : Conn L → ErrorCode × Conn L
  unfolding mysql_init
  open_conn c =
      let (ret, ec, m) = mysql_init L c.mysql in
      if is_open c then (success, c) else (ec, record c { mysql = m; initialized = ret })

  -- `mysql_service::connect` after the connection was opened.
  unfoldable pub connect_open : Endpoint → AuthInfo → Bytes → ℕ → Conn L → ErrorCode × Conn L
  unfolding mysql_real_connect
  connect_open endpoint auth database client_flag c =
      let (_, ec, m) =
        mysql_real_connect L (connect_args endpoint auth database client_flag) c.mysql in
      (ec, record c { mysql = m; flags = client_flag })

  -- `mysql_service::connect`.
  unfoldable pub connect : Endpoint → AuthInfo → Bytes → ℕ → Conn L → ErrorCode × Conn L
  unfolding open_conn connect_open
  connect endpoint auth database client_flag c =
      let (ec, opened) = open_conn c in
      if is_open c
      then connect_open endpoint auth database client_flag c
      else if is_error ec
      then (ec, opened)
      else connect_open endpoint auth database client_flag opened

  -- `free_result(); first_result_stored = false;` and `mysql_real_query`, in `query` and its handler.
  unfoldable pub run_query : Bytes → Conn L → ErrorCode × Conn L
  unfolding free_result mysql_real_query
  run_query stmt c =
      let freed : Conn L = free_result c in
      let (_, ec, m) = mysql_real_query L stmt freed.mysql in
      (ec, record freed { mysql = m; first_result_stored = false })

  -- `mysql_service::query`.
  unfoldable pub query : Bytes → Conn L → ErrorCode × Conn L
  unfolding run_query
  query stmt c = if is_open c then run_query stmt c else (misc_error not_initialized, c)

  -- `impl.flags & (client_multi_results | client_multi_statements)`, as a `bool`.
  unfoldable pub multi_results : ℕ → Bool
  multi_results flags =
      not (bit_and flags (bit_or L.client_multi_results L.client_multi_statements) == 0)

  -- `mysql_service::has_more_results`.
  unfoldable pub has_more_results : Conn L → Bool
  unfolding multi_results
  has_more_results c =
      if not (is_open c)
      then false
      else if multi_results c.flags
      then not c.first_result_stored || L.more_results c.mysql
      else not c.first_result_stored && not (L.field_count c.mysql == 0)

  -- The first half of `store_result`: moves on to the next result unless none was stored yet.
  unfoldable pub advance : ErrorCode → Conn L → ErrorCode × Conn L
  unfolding free_result has_more_results mysql_next_result
  advance ec c =
      let freed : Conn L = free_result c in
      let (_, next_ec, m) = mysql_next_result L freed.mysql in
      if not c.first_result_stored
      then (ec, record c { first_result_stored = true })
      else if has_more_results freed
      then (next_ec, record freed { mysql = m })
      else (misc_error no_more_results, freed)

  -- `rs.assign(&impl.mysql, impl.last_result, ec)` on a fresh result set.
  unfoldable pub assign_last : ErrorCode → Conn L → ResultSet × ErrorCode × Conn L
  unfolding assign_result
  assign_last ec c = elim c.last_result [
    | none ↦ (empty_set, ec, c)
    | some a ↦ elim (c.results a) [
      | none ↦ (empty_set, ec, c)
      | some r ↦
          let (rs, ec', r') = assign_result L c.mysql a r new_result_set ec in
          (rs, ec', record c { results = update c.results a (some r') })
    ]
  ]

  -- The second half: retrieves the result that the connection stands at.
  unfoldable pub retrieve : Conn L → ResultSet × ErrorCode × Conn L
  unfolding mysql_store_result allocate reset_result assign_last
  retrieve c =
      let (r, ec, m) = mysql_store_result L c.mysql in
      let (p, stored) = allocate r (record c { mysql = m }) in
      assign_last ec (reset_result p stored)

  -- `mysql_service::store_result`. The first half reads the caller's `ec`.
  unfoldable pub store_result : ErrorCode → Conn L → ResultSet × ErrorCode × Conn L
  unfolding advance retrieve
  store_result ec c =
      let (ec', c') = advance ec c in if is_error ec' then (empty_set, ec', c') else retrieve c'

  -- `mysql_service::autocommit`, which does not ask whether the connection is open.
  unfoldable pub autocommit : Bool → Conn L → ErrorCode × Conn L
  unfolding mysql_autocommit
  autocommit mode c = let (ec, m) = mysql_autocommit L mode c.mysql in (ec, record c { mysql = m })

  unfoldable pub commit : Conn L → ErrorCode × Conn L
  unfolding mysql_commit
  commit c =
      let (ec, m) = mysql_commit L c.mysql in
      if is_open c then (ec, record c { mysql = m }) else (misc_error not_initialized, c)

  unfoldable pub rollback : Conn L → ErrorCode × Conn L
  unfolding mysql_rollback
  rollback c =
      let (ec, m) = mysql_rollback L c.mysql in
      if is_open c then (ec, record c { mysql = m }) else (misc_error not_initialized, c)

  unfoldable pub affected_rows : Conn L → ℕ
  affected_rows c = L.affected_rows c.mysql

  -- `mysql_service::set_option`. On a closed connection `ec` is set to `not_initialized` first, and
  -- `mysql_options`, which is called all the same, writes it again.
  unfoldable pub set_option : ℕ → OptionData → Conn L → ErrorCode × Conn L
  unfolding mysql_options
  set_option option arg c =
      let (ec, m) = mysql_options L option arg c.mysql in (ec, record c { mysql = m })

  -- What a result set answers while the connection has the value `c`.
  unfoldable pub expired : Conn L → ResultSet → Bool
  expired c rs = elim rs.result_set [
    | none ↦ true
    | some a ↦ elim (c.results a) [ none ↦ true | some _ ↦ false ]
  ]

  unfoldable pub size : Conn L → ResultSet → ℕ
  size c rs = elim rs.result_set [
    | none ↦ 0
    | some a ↦ elim (c.results a) [ none ↦ 0 | some r ↦ L.num_rows r ]
  ]

  unfoldable pub empty : Conn L → ResultSet → Bool
  unfolding expired size
  empty c rs = expired c rs || size c rs == 0
