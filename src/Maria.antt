-- ===== src/Maria.antt =====
-- include/amy/detail/mariadb_ops.hpp and the connection of include/amy/mariadb_service.hpp: calls of
-- the client library that may suspend, and waiting for what they ask for.
pub mod Ops
pub mod Blocking
pub mod Connect
pub mod Query
pub mod Store
pub mod QueryResult
pub mod Chain
pub mod Cancel
pub mod Reactor
pub mod Answers
use amy.Prelude.{
  ℕ, zero, suc, ◌≡◌, Bool, true, false, not, ◌&&◌, ◌||◌, Option, none, some, ◌==◌, if◌then◌else◌,
  bit_and, bit_or,
}
use amy.Prelude.Int.{ℤ, pos, ==ℤ}
use amy.Errors.{ErrorCode, success, is_error, client_error, misc_error, unknown, not_initialized}
use amy.Client.{ClientLib, Bytes, RowData, ConnectArgs, OptionData}
use amy.Ops.{mysql_options}
use amy.Results.{ResultSet}
use amy.Service
use amy.Service.{Conn}

-- The non-blocking calls of the MariaDB client library. Each takes what `ret` points at and the
-- connection, and returns the status (0, or the events that it waits for) with both. A pointer in
-- `ret` is a `Bool` that says whether it is set, or an option.
pub record NonBlocking (L : ClientLib) : Type 0 where
  pub wait_read : ℕ
  pub wait_write : ℕ
  pub wait_except : ℕ
  pub wait_timeout : ℕ
  -- `none` is -1.
  pub get_socket : L.Handle → Option ℕ
  pub connect_start : ConnectArgs → Bool → L.Handle → ℕ × Bool × L.Handle
  pub connect_cont : ℕ → Bool → L.Handle → ℕ × Bool × L.Handle
  pub query_start : Bytes → ℤ → L.Handle → ℕ × ℤ × L.Handle
  pub query_cont : ℕ → ℤ → L.Handle → ℕ × ℤ × L.Handle
  pub store_start : Option L.Res → L.Handle → ℕ × Option L.Res × L.Handle
  pub store_cont : ℕ → Option L.Res → L.Handle → ℕ × Option L.Res × L.Handle
  pub next_start : ℤ → L.Handle → ℕ × ℤ × L.Handle
  pub next_cont : ℕ → ℤ → L.Handle → ℕ × ℤ × L.Handle
  -- A `Bool` in these says that the my_bool is not 0.
  pub autocommit_start : Bool → Bool → L.Handle → ℕ × Bool × L.Handle
  pub autocommit_cont : ℕ → Bool → L.Handle → ℕ × Bool × L.Handle
  pub commit_start : Bool → L.Handle → ℕ × Bool × L.Handle
  pub commit_cont : ℕ → Bool → L.Handle → ℕ × Bool × L.Handle
  pub rollback_start : Bool → L.Handle → ℕ × Bool × L.Handle
  pub rollback_cont : ℕ → Bool → L.Handle → ℕ × Bool × L.Handle
  pub fetch_row_start : Option RowData → L.Res → ℕ × Option RowData × L.Res
  pub fetch_row_cont : ℕ → Option RowData → L.Res → ℕ × Option RowData × L.Res

-- `mariadb_service::implementation`: `ev` is the native handle of the stream descriptor, `none` for
-- -1, and `timer` says whether `timer_` is set.
pub record MariaConn (L : ClientLib) : Type 0 where
  pub conn : Conn L
  pub ev : Option ℕ
  pub timer : Bool

-- When `error_wrapper` takes a value for a failure.
abbrev pub int_failed : ℤ → Bool
int_failed v = not (==ℤ v (pos 0))

abbrev pub option_failed : {A : Type 0} → Option A → Bool
option_failed none = true
option_failed (some a) = false

-- What the operation waits for; `nothing` is no wait at all.
pub data Wait : Type 0 where
  read write timeout nothing : Wait

-- What one call of `operator()` comes to: the user's handler, or a wait with the operation's state.
pub data Next (L : ClientLib) (S : Type 0) : Type 0 where
  invokes : ErrorCode → Option ResultSet → MariaConn L → Next L S
  waits : Wait → S → MariaConn L → Next L S

module _ (L : ClientLib) (N : NonBlocking L) where
  abbrev pub wrap : Bool → L.Handle → ErrorCode → ErrorCode
  wrap failed m ec = if failed then client_error (L.errno m) else ec

  -- The code that `mysql_start` and `mysql_continue` leave in `ec` after a call with this status,
  -- value and connection.
  unfoldable pub call_error : ℕ → Bool → L.Handle → ErrorCode
  call_error status failed m =
      if status == 0
      then wrap failed m success
      else if not (bit_or status N.wait_except == 0)
      then wrap failed m (misc_error unknown)
      else success

  -- `mysql_start` on a call that has returned: status, `ec`, value, connection.
  unfoldable pub mysql_start :
      {R : Type 0} → (R → Bool) → ℕ × R × L.Handle → ℕ × ErrorCode × R × L.Handle
  unfolding call_error
  mysql_start failed (status, r, m) = (status, call_error status (failed r) m, r, m)

  -- `mysql_continue`, likewise.
  unfoldable pub mysql_continue :
      {R : Type 0} → (R → Bool) → ℕ × R × L.Handle → ℕ × ErrorCode × R × L.Handle
  unfolding call_error
  mysql_continue failed (status2, r, m) = (status2, call_error status2 (failed r) m, r, m)

  abbrev pub has : ℕ → ℕ → Bool
  has status events = not (bit_and status events == 0)

  -- The events that `async_wait_mysql` waits for: the first of read, write and timeout.
  unfoldable pub wait_for : ℕ → Wait
  wait_for status =
      if has status N.wait_read
      then read
      else if has status N.wait_write
      then write
      else if has status N.wait_timeout
      then timeout
      else nothing

  -- The status that the wait's handler is called with.
  abbrev pub event_status : Wait → ℕ
  event_status read = N.wait_read
  event_status write = N.wait_write
  event_status timeout = N.wait_timeout
  event_status nothing = 0

  -- `async_wait_mysql` on the connection: the descriptor takes the library's socket when a read or a
  -- write is asked for, and the timer is made when only a timeout is.
  unfoldable pub async_wait_mysql : ℕ → MariaConn L → Wait × MariaConn L
  unfolding wait_for
  async_wait_mysql status c =
      let ev =
        (if has status (bit_or N.wait_read N.wait_write)
          then N.get_socket c.conn.mysql
          else c.ev) in
      let timer : Bool = elim (wait_for status) [ timeout ↦ true | _ ↦ c.timer ] in
      (wait_for status, record c { ev = ev; timer = timer })

  -- The end of `operator()` for a composed operation of one call: it stops when the call has finished
  -- or failed, and else waits.
  unfoldable pub after_call : {S : Type 0} → S → ℕ → ErrorCode → MariaConn L → Next L S
  after_call s status ec c =
      let (w, c') = async_wait_mysql status c in
      if status == 0 || is_error ec then invokes ec none c else waits w s c'

  -- The event loop on one composed operation: each wait ends without an error, and `operator()` is
  -- called again. `none`: a wait for nothing, which is never resumed, or the fuel ran out.
  unfoldable pub drive :
      {S : Type 0}
      → (S → ErrorCode → ℕ → MariaConn L → Next L S)
      → ℕ
      → Next L S
      → Option (ErrorCode × Option ResultSet × MariaConn L)
  drive resume fuel (invokes ec rs c) = some (ec, rs, c)
  drive resume zero (waits w s c) = none
  drive resume (suc fuel) (waits nothing s c) = none
  drive resume (suc fuel) (waits w s c) = drive resume fuel (resume s success (event_status w) c)

  -- `mariadb_service::implementation::close`.
  unfoldable pub close_impl : MariaConn L → MariaConn L
  unfolding Service.end_session
  close_impl c = record c {
    conn = Service.cancel L (Service.free_result L (Service.end_session L c.conn));
    ev = none;
  }

  -- `mariadb_service::close`.
  unfoldable pub close : MariaConn L → MariaConn L
  unfolding close_impl
  close c = if Service.is_open L c.conn then close_impl c else c

  -- `mariadb_service::construct` on a connection that was constructed.
  unfoldable pub construct : MariaConn L
  construct = record { conn = Service.new_conn L; ev = none; timer = true }

  -- `mariadb_service::set_option`.
  unfoldable pub set_option : ℕ → OptionData → MariaConn L → ErrorCode × MariaConn L
  unfolding mysql_options
  set_option option arg c =
      let (ec, m) = mysql_options L option arg c.conn.mysql in
      if Service.is_open L c.conn
      then (ec, record c { conn = record (c.conn) { mysql = m } })
      else (misc_error not_initialized, c)
