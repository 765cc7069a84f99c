-- ===== src/Errors.antt =====
-- include/amy/error.hpp and include/amy/detail/throw_error.hpp: error codes, the two categories of
-- the library with their messages, and the exception that an error code becomes.
pub mod ClientCode
pub mod Messages
pub mod SystemError
use amy.Prelude.{
  ℕ, suc, ◌≡◌, ◌==◌, arith, String, Bool, true, false, not, ◌||◌, Option, none, some, List, [], ◌∷◌,
  if◌then◌else◌, get_elem?,
}
use amy.Prelude.Int.{ℤ, pos, negsuc, ==ℤ, int_of_uint}
use ClientCode.{ClientError, text, cases}

-- The enumerators of `misc_errors`, whose values are 1 to 8 in this order.
pub data MiscError : Type 0 where
  initialization_error not_initialized no_more_results null_field_value : MiscError
  autocommit_setting_error commit_error rollback_error unknown : MiscError

abbrev pub misc_value : MiscError → ℕ
misc_value initialization_error = 1
misc_value not_initialized = 2
misc_value no_more_results = 3
misc_value null_field_value = 4
misc_value autocommit_setting_error = 5
misc_value commit_error = 6
misc_value rollback_error = 7
misc_value unknown = 8

-- The category objects: of the client library, of amy itself, and of the system, where
-- `asio::error::operation_aborted` belongs.
pub data Category : Type 0 where
  client misc system : Category

pub record ErrorCode : Type 0 where
  pub value : ℤ
  pub category : Category

-- A default-constructed code.
abbrev pub success : ErrorCode
success = record { value = pos 0; category = system }

-- The conversion of a code to `bool`.
abbrev pub is_error : ErrorCode → Bool
is_error ec = not (==ℤ ec.value (pos 0))

-- `error_code(::mysql_errno(m), get_client_category())`: the constructor takes an `int`.
unfoldable pub client_error : ℕ → ErrorCode
client_error n = record { value = int_of_uint n; category = client }

-- `make_error_code(client_errors)`, with the values of the enumerators.
abbrev pub client_code : (ClientError → ℤ) → ClientError → ErrorCode
client_code code e = record { value = code e; category = client }

-- `make_error_code(misc_errors)`.
abbrev pub misc_error : MiscError → ErrorCode
misc_error e = record { value = pos (misc_value e); category = misc }

abbrev pub is_client : Category → Bool
is_client client = true
is_client _ = false

-- A `switch` with one case for each listed enumerator.
unfoldable pub switch : (ClientError → ℤ) → ℤ → List ClientError → String
switch code v [] = "Unknown error"
switch code v (e ∷ es) = if ==ℤ v (code e) then text e else switch code v es

-- `client_category::message`.
unfoldable pub client_message : (ClientError → ℤ) → ℤ → String
unfolding switch
client_message code v = switch code v cases

abbrev pub messages : List String
messages =
    "" ∷ "Failed to initialize MySQL handle" ∷ "Connection handle not initialized"
    ∷ "No more result sets" ∷ "Field value is NULL" ∷ "Failed to set autocommit mode"
    ∷ "Failed to commit" ∷ "Failed to rollback" ∷ "Unknown error" ∷ []

abbrev pub lt_ℤ : ℤ → ℤ → Bool
lt_ℤ (pos a) (pos b) = amy.Prelude.ltb a b
lt_ℤ (pos a) (negsuc b) = false
lt_ℤ (negsuc a) (pos b) = true
lt_ℤ (negsuc a) (negsuc b) = amy.Prelude.ltb b a

-- The element of a C array at an `int` index; `none` is a read outside of the array.
abbrev pub at : List String → ℤ → Option String
at xs (pos n) = get_elem? xs n
at xs (negsuc n) = none

-- `misc_category::message`. `unknown_error` there is the enumerator of `client_errors`.
unfoldable pub misc_message : (ClientError → ℤ) → ℤ → Option String
misc_message code v =
    if lt_ℤ v (pos 0) || not (lt_ℤ v (code ClientError.unknown_error))
    then at messages (pos (misc_value unknown))
    else at messages v

-- What a function that may throw has done. The exception is `amy::system_error`, with the text of
-- `mysql_error` when the code is of the client category.
pub data Outcome (A : Type 0) : Type 0 where
  returned : A → Outcome A
  thrown : ErrorCode → Option String → Outcome A

-- `detail::throw_error(ec, m)`, where `text` is `::mysql_error(m)`, before what follows.
unfoldable pub throw_error : {A : Type 0} → ErrorCode → String → A → Outcome A
throw_error ec text a =
    if is_error ec
    then (if is_client ec.category then thrown ec (some text) else thrown ec none)
    else returned a

-- The code made from `mysql_errno` is an error exactly when that is not 0.
pub is_error-client_error : (n : ℕ) → is_error (client_error n) ≡ not (n == 0)
unfolding client_error
is_error-client_error n = ground arith
