-- ===== src/Ops.antt =====
-- include/amy/detail/mysql_ops.hpp: the calls of the client library with their errors turned into
-- an error code. Each function clears `ec` first, so it takes no old value of it. (`errno = 0` in
-- `clear_error` sets a variable that the code never reads, and is left out.)
use amy.Prelude.{ℕ, Bool, true, false, Option, none, some, if◌then◌else◌}
use amy.Prelude.Int.{ℤ, pos, ==ℤ}
use amy.Errors.{
  ErrorCode, success, client_error, misc_error, initialization_error, autocommit_setting_error,
  commit_error, rollback_error,
}
use amy.Client.{ClientLib, Bytes, RowData, ConnectArgs, OptionData}

module _ (L : ClientLib) where
  -- `error_wrapper` on a pointer, where `false` is null.
  abbrev pub wrap_pointer : Bool → L.Handle → ErrorCode → ErrorCode
  wrap_pointer true m ec = ec
  wrap_pointer false m ec = client_error (L.errno m)

  -- `error_wrapper` on a pointer that is carried as an option.
  abbrev pub wrap_option : {A : Type 0} → Option A → L.Handle → ErrorCode → ErrorCode
  wrap_option (some a) m ec = ec
  wrap_option none m ec = client_error (L.errno m)

  -- `error_wrapper` on an `int`.
  abbrev pub wrap_int : ℤ → L.Handle → ErrorCode → ErrorCode
  wrap_int v m ec = if ==ℤ v (pos 0) then ec else client_error (L.errno m)

  unfoldable pub mysql_init : L.Handle → Bool × ErrorCode × L.Handle
  mysql_init m =
      let (ret, m') = L.init m in
      (ret, (if ret then success else misc_error initialization_error), m')

  unfoldable pub mysql_autocommit : Bool → L.Handle → ErrorCode × L.Handle
  mysql_autocommit mode m =
      let (failed, m') = L.autocommit mode m in
      ((if failed then misc_error autocommit_setting_error else success), m')

  unfoldable pub mysql_real_connect : ConnectArgs → L.Handle → Bool × ErrorCode × L.Handle
  mysql_real_connect args m =
      let (h, m') = L.real_connect args m in (h, wrap_pointer h m' success, m')

  unfoldable pub mysql_real_query : Bytes → L.Handle → ℤ × ErrorCode × L.Handle
  mysql_real_query stmt m = let (v, m') = L.real_query stmt m in (v, wrap_int v m' success, m')

  unfoldable pub mysql_store_result : L.Handle → Option L.Res × ErrorCode × L.Handle
  mysql_store_result m = let (r, m') = L.store_result m in (r, wrap_option r m' success, m')

  unfoldable pub mysql_next_result : L.Handle → ℤ × ErrorCode × L.Handle
  mysql_next_result m = let (v, m') = L.next_result m in (v, wrap_int v m' success, m')

  unfoldable pub mysql_fetch_row : L.Handle → L.Res → Option RowData × ErrorCode × L.Res
  mysql_fetch_row m r = let (row, r') = L.fetch_row r in (row, wrap_option row m success, r')

  unfoldable pub mysql_commit : L.Handle → ErrorCode × L.Handle
  mysql_commit m =
      let (failed, m') = L.commit m in ((if failed then misc_error commit_error else success), m')

  unfoldable pub mysql_rollback : L.Handle → ErrorCode × L.Handle
  mysql_rollback m =
      let (failed, m') = L.rollback m in
      ((if failed then misc_error rollback_error else success), m')

  unfoldable pub mysql_options : ℕ → OptionData → L.Handle → ErrorCode × L.Handle
  mysql_options option arg m = let (v, m') = L.options option arg m in (wrap_int v m' success, m')
