-- ===== src/Service/Closed.antt =====
-- Connections that are not open, and the messages of error codes.
use amy.Prelude.{ℕ, ◌≡◌, ◌<◌, ap, ◌^◌, refl, false, some, arith, ==_iff}
use amy.Prelude.Int.{pos, uint_of_int-int_of_uint}
use amy.Errors.{misc_error, not_initialized, client_error, client_code, MiscError}
use amy.Errors.ClientCode.{ClientError, text}
use amy.Errors.Messages.{AreDistinct, client_message-code, misc_message-value, misc_text}
use amy.Client.{ClientLib, Bytes}
use amy.Service.{Conn, close, query, commit, rollback, has_more_results, error_message, message}

module _ (L : ClientLib) where
  -- On a connection that is not open, `query`, `commit` and `rollback` report `not_initialized`,
  -- there are no more results, and none of these, nor `close`, changes the connection.
  pub closed_rejects :
      (stmt : Bytes) (c : Conn L)
      → c.initialized ≡ false
      → (query L stmt c ≡ (misc_error not_initialized, c))
        × (commit L c ≡ (misc_error not_initialized, c))
        × (rollback L c ≡ (misc_error not_initialized, c))
        × (has_more_results L c ≡ false)
        × (close L c ≡ c)
  unfolding query commit rollback has_more_results close
  closed_rejects stmt c h = ground arith

  -- The code that a failed call of the client library has left is turned back into the library's own
  -- message, for every `unsigned int` that `mysql_errno` may return.
  pub error_message-client_error :
      (c : Conn L)
      → L.errno c.mysql < 2 ^ 32
      → error_message L c (client_error (L.errno c.mysql)) ≡ some (L.error c.mysql)
  unfolding error_message client_error
  error_message-client_error c h = rw (
    uint_of_int-int_of_uint (L.errno c.mysql) h,
    (==_iff (L.errno c.mysql) (L.errno c.mysql)).1 refl,
  )

  -- Every error code that is made of an enumerator, of client_errors or of misc_errors, has the text of
  -- that enumerator as its message, where the values of client_errors are distinct and that of
  -- unknown_error is above 8.
  pub message-codes :
      (n : ℕ) (e : ClientError) (m : MiscError)
      → AreDistinct L.code
      → L.code ClientError.unknown_error ≡ pos n
      → 8 < n
      → (message L (client_code L.code e) ≡ some (text e))
        × (message L (misc_error m) ≡ some (misc_text m))
  unfolding message
  message-codes n e m distinct first h = (
    ap (λ t. some t) (client_message-code L.code distinct e),
    misc_message-value L.code n first h m,
  )
