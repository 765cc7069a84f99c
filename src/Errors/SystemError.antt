-- ===== src/Errors/SystemError.antt =====
-- include/amy/system_error.hpp: the exception that `throw_error` makes of an error code.
use amy.Prelude.{◌≡◌, String, Option, none, some, arith, if◌then◌else◌}
use amy.Errors.{ErrorCode, is_error, is_client, Outcome, returned, thrown, throw_error}

-- The error code is the base class's.
pub record SystemError : Type 0 where
  pub code : ErrorCode
  pub message_ : String

-- The constructor from a code.
abbrev pub of_code : ErrorCode → SystemError
of_code ec = record { code = ec; message_ = "" }

-- The constructor from a code and a message.
abbrev pub of_message : ErrorCode → String → SystemError
of_message ec message = record { code = ec; message_ = message }

abbrev pub what : SystemError → String
what e = e.message_

-- The exception that a call has thrown.
abbrev pub exception : {A : Type 0} → Outcome A → Option SystemError
exception (returned a) = none
exception (thrown ec none) = some (of_code ec)
exception (thrown ec (some text)) = some (of_message ec text)

-- The text of the client library is in the exception for its own codes only.
throw_error-exception :
    {A : Type 0} (ec : ErrorCode) (text : String) (a : A)
    → exception (throw_error ec text a) ≡ (
        if is_error ec
        then some (if is_client ec.category then of_message ec text else of_code ec)
        else none)
unfolding throw_error
throw_error-exception ec text a = ground arith
