-- ===== src/Maria/Ops.antt =====
-- include/amy/detail/mariadb_ops.hpp: the two halves of each non-blocking call, with their errors
-- turned into an error code. Each takes what `ret` points at, and returns the status, `ec`, the new
-- value of `ret` and the connection. The halves of autocommit, commit, rollback and of fetching a row
-- have no caller in the repository.
use amy.Prelude.{ℕ, Bool, not, Option}
use amy.Prelude.Int.{ℤ}
use amy.Errors.{ErrorCode}
use amy.Client.{ClientLib, Bytes, RowData, ConnectArgs}
use amy.Maria.{NonBlocking, mysql_start, mysql_continue, call_error, int_failed, option_failed}

module _ (L : ClientLib) (N : NonBlocking L) where
  abbrev pub mysql_autocommit_start : Bool → Bool → L.Handle → ℕ × ErrorCode × Bool × L.Handle
  mysql_autocommit_start mode ret m =
      mysql_start L N (λ failed. failed) (N.autocommit_start mode ret m)

  abbrev pub mysql_autocommit_cont : ℕ → Bool → L.Handle → ℕ × ErrorCode × Bool × L.Handle
  mysql_autocommit_cont status ret m =
      mysql_continue L N (λ failed. failed) (N.autocommit_cont status ret m)

  abbrev pub mysql_real_connect_start :
      ConnectArgs → Bool → L.Handle → ℕ × ErrorCode × Bool × L.Handle
  mysql_real_connect_start args ret m = mysql_start L N not (N.connect_start args ret m)

  abbrev pub mysql_real_connect_cont : ℕ → Bool → L.Handle → ℕ × ErrorCode × Bool × L.Handle
  mysql_real_connect_cont status ret m = mysql_continue L N not (N.connect_cont status ret m)

  abbrev pub mysql_real_query_start : Bytes → ℤ → L.Handle → ℕ × ErrorCode × ℤ × L.Handle
  mysql_real_query_start stmt ret m = mysql_start L N int_failed (N.query_start stmt ret m)

  abbrev pub mysql_real_query_cont : ℕ → ℤ → L.Handle → ℕ × ErrorCode × ℤ × L.Handle
  mysql_real_query_cont status ret m = mysql_continue L N int_failed (N.query_cont status ret m)

  abbrev pub mysql_store_result_start :
      Option L.Res → L.Handle → ℕ × ErrorCode × Option L.Res × L.Handle
  mysql_store_result_start ret m = mysql_start L N option_failed (N.store_start ret m)

  abbrev pub mysql_store_result_cont :
      ℕ → Option L.Res → L.Handle → ℕ × ErrorCode × Option L.Res × L.Handle
  mysql_store_result_cont status ret m =
      mysql_continue L N option_failed (N.store_cont status ret m)

  abbrev pub mysql_next_result_start : ℤ → L.Handle → ℕ × ErrorCode × ℤ × L.Handle
  mysql_next_result_start ret m = mysql_start L N int_failed (N.next_start ret m)

  abbrev pub mysql_next_result_cont : ℕ → ℤ → L.Handle → ℕ × ErrorCode × ℤ × L.Handle
  mysql_next_result_cont status ret m = mysql_continue L N int_failed (N.next_cont status ret m)

  -- A row is fetched from a result, and the error is read from the connection.
  abbrev pub mysql_fetch_row_start :
      L.Handle → Option RowData → L.Res → ℕ × ErrorCode × Option RowData × L.Res
  mysql_fetch_row_start m ret r =
      let (status, row, r') = N.fetch_row_start ret r in
      (status, call_error L N status (option_failed row) m, row, r')

  abbrev pub mysql_fetch_row_cont :
      L.Handle → ℕ → Option RowData → L.Res → ℕ × ErrorCode × Option RowData × L.Res
  mysql_fetch_row_cont m status ret r =
      let (status', row, r') = N.fetch_row_cont status ret r in
      (status', call_error L N status' (option_failed row) m, row, r')

  abbrev pub mysql_commit_start : Bool → L.Handle → ℕ × ErrorCode × Bool × L.Handle
  mysql_commit_start ret m = mysql_start L N (λ failed. failed) (N.commit_start ret m)

  abbrev pub mysql_commit_cont : ℕ → Bool → L.Handle → ℕ × ErrorCode × Bool × L.Handle
  mysql_commit_cont status ret m =
      mysql_continue L N (λ failed. failed) (N.commit_cont status ret m)

  abbrev pub mysql_rollback_start : Bool → L.Handle → ℕ × ErrorCode × Bool × L.Handle
  mysql_rollback_start ret m = mysql_start L N (λ failed. failed) (N.rollback_start ret m)

  abbrev pub mysql_rollback_cont : ℕ → Bool → L.Handle → ℕ × ErrorCode × Bool × L.Handle
  mysql_rollback_cont status ret m =
      mysql_continue L N (λ failed. failed) (N.rollback_cont status ret m)
