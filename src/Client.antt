-- ===== src/Client.antt =====
-- The MySQL C client library, which the repository links against and does not contain: a record of
-- the calls that include/amy/detail/mysql_ops.hpp and its users make, over unknown types for a
-- connection (MYSQL) and a stored result (MYSQL_RES). A call takes the old value of what it works on
-- and returns the new one. The server is part of the connection's value.
pub mod Protocol
pub mod Scripted
use amy.Prelude.{ℕ, String, Bool, Option, List}
use amy.Prelude.Int.{ℤ}
use amy.Errors.ClientCode.{ClientError}

-- The bytes of a `char const*` buffer or a `std::string`.
abbrev pub Bytes : Type 0
Bytes = List ℕ

-- A MYSQL_ROW: the pointer at each index, `none` for a null pointer.
abbrev pub RowData : Type 0
RowData = ℕ → Option Bytes

-- The arguments of `mysql_real_connect`; `none` is a null pointer.
pub record ConnectArgs : Type 0 where
  pub host : Option Bytes
  pub user : Bytes
  pub password : Option Bytes
  pub database : Bytes
  pub port : ℕ
  pub unix_socket : Option Bytes
  pub client_flag : ℕ

-- What the third argument of `mysql_options` points at.
pub data OptionData : Type 0 where
  number : ℕ → OptionData
  chars : Bytes → OptionData
  null : OptionData

-- The members of a MYSQL_FIELD that the code reads.
pub record FieldDef : Type 0 where
  pub name : Bytes
  pub name_length : ℕ
  pub length : ℕ
  pub max_length : ℕ
  pub flags : ℕ

pub record ClientLib : Type 1 where
  pub Handle : Type 0
  pub Res : Type 0
  -- A MYSQL before `mysql_init`.
  pub blank : Handle
  pub errno : Handle → ℕ
  pub error : Handle → String
  -- `false` stands for a null pointer.
  pub init : Handle → Bool × Handle
  pub close : Handle → Handle
  pub options : ℕ → OptionData → Handle → ℤ × Handle
  pub real_connect : ConnectArgs → Handle → Bool × Handle
  pub real_query : Bytes → Handle → ℤ × Handle
  pub field_count : Handle → ℕ
  pub affected_rows : Handle → ℕ
  pub more_results : Handle → Bool
  pub next_result : Handle → ℤ × Handle
  pub store_result : Handle → Option Res × Handle
  -- `true` stands for a my_bool that is not 0.
  pub autocommit : Bool → Handle → Bool × Handle
  pub commit : Handle → Bool × Handle
  pub rollback : Handle → Bool × Handle
  pub num_rows : Res → ℕ
  pub num_fields : Res → ℕ
  pub fetch_field : Res → Option FieldDef × Res
  -- On a stored result; the lengths are those of the row fetched last.
  pub fetch_row : Res → Option RowData × Res
  pub fetch_lengths : Res → ℕ → ℕ
  pub client_multi_results : ℕ
  pub client_multi_statements : ℕ
  -- The CR_* macros, and the messages of the system's error category.
  pub code : ClientError → ℤ
  pub system_message : ℤ → String
