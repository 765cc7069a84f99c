-- ===== src/Options.antt =====
-- include/amy/detail/mysql_option.hpp, options.hpp and mariadb_options.hpp: the options that
-- `set_option` takes.
use amy.Prelude.{ℕ, ◌^◌, ◌%◌, Bool, if◌then◌else◌}
use amy.Client.{ClientLib, Bytes, OptionData, number, chars, null}
use amy.Errors.{Outcome}
use amy.Service.{Conn}
use amy.Connector

-- What `option()` and `data()` return. `data()` points at the value, which is given here.
pub record MysqlOption : Type 0 where
  pub option : ℕ
  pub data_value : OptionData

-- The constructors of the four class templates, after the template's number. The value of
-- `unsigned_integer` is an `unsigned int` also where the member is wider.
unfoldable pub unsigned_integer : ℕ → ℕ → MysqlOption
unsigned_integer option value = record { option = option; data_value = number (value % 2 ^ 32) }

unfoldable pub char_sequence : ℕ → Bytes → MysqlOption
char_sequence option value = record { option = option; data_value = chars value }

unfoldable pub boolean : ℕ → Bool → MysqlOption
boolean option value = record { option = option; data_value = number (if value then 1 else 0) }

unfoldable pub switcher : ℕ → MysqlOption
switcher option = record { option = option; data_value = null }

-- The numbers of the options in the headers of the client library.
pub record OptionCodes : Type 0 where
  pub init_command_code : ℕ
  pub compress_code : ℕ
  pub connect_timeout_code : ℕ
  pub guess_connection_code : ℕ
  pub local_infile_code : ℕ
  pub named_pipe_code : ℕ
  pub protocol_code : ℕ
  pub read_timeout_code : ℕ
  pub reconnect_code : ℕ
  pub set_client_ip_code : ℕ
  pub ssl_verify_server_cert_code : ℕ
  pub use_embedded_connection_code : ℕ
  pub use_remote_connection_code : ℕ
  pub use_result_code : ℕ
  pub write_timeout_code : ℕ
  pub read_default_file_code : ℕ
  pub read_default_group_code : ℕ
  pub report_data_truncation_code : ℕ
  pub secure_auth_code : ℕ
  pub set_charset_dir_code : ℕ
  pub set_charset_name_code : ℕ
  pub shared_memory_base_name_code : ℕ
  pub nonblock_code : ℕ

module _ (M : OptionCodes) where
  unfoldable pub init_command : Bytes → MysqlOption
  unfolding char_sequence
  init_command = char_sequence M.init_command_code

  unfoldable pub compress : MysqlOption
  unfolding switcher
  compress = switcher M.compress_code

  unfoldable pub connect_timeout : ℕ → MysqlOption
  unfolding unsigned_integer
  connect_timeout = unsigned_integer M.connect_timeout_code

  unfoldable pub guess_connection : MysqlOption
  unfolding switcher
  guess_connection = switcher M.guess_connection_code

  unfoldable pub local_infile : ℕ → MysqlOption
  unfolding unsigned_integer
  local_infile = unsigned_integer M.local_infile_code

  unfoldable pub named_pipe : MysqlOption
  unfolding switcher
  named_pipe = switcher M.named_pipe_code

  unfoldable pub protocol : ℕ → MysqlOption
  unfolding unsigned_integer
  protocol = unsigned_integer M.protocol_code

  unfoldable pub read_timeout : ℕ → MysqlOption
  unfolding unsigned_integer
  read_timeout = unsigned_integer M.read_timeout_code

  unfoldable pub reconnect : Bool → MysqlOption
  unfolding boolean
  reconnect = boolean M.reconnect_code

  unfoldable pub set_client_ip : Bytes → MysqlOption
  unfolding char_sequence
  set_client_ip = char_sequence M.set_client_ip_code

  unfoldable pub ssl_verify_server_cert : Bool → MysqlOption
  unfolding boolean
  ssl_verify_server_cert = boolean M.ssl_verify_server_cert_code

  unfoldable pub use_embedded_connection : MysqlOption
  unfolding switcher
  use_embedded_connection = switcher M.use_embedded_connection_code

  unfoldable pub use_remote_connection : MysqlOption
  unfolding switcher
  use_remote_connection = switcher M.use_remote_connection_code

  unfoldable pub use_result : MysqlOption
  unfolding switcher
  use_result = switcher M.use_result_code

  unfoldable pub write_timeout : ℕ → MysqlOption
  unfolding unsigned_integer
  write_timeout = unsigned_integer M.write_timeout_code

  unfoldable pub read_default_file : Bytes → MysqlOption
  unfolding char_sequence
  read_default_file = char_sequence M.read_default_file_code

  unfoldable pub read_default_group : Bytes → MysqlOption
  unfolding char_sequence
  read_default_group = char_sequence M.read_default_group_code

  unfoldable pub report_data_truncation : Bool → MysqlOption
  unfolding boolean
  report_data_truncation = boolean M.report_data_truncation_code

  unfoldable pub secure_auth : Bool → MysqlOption
  unfolding boolean
  secure_auth = boolean M.secure_auth_code

  unfoldable pub set_charset_dir : Bytes → MysqlOption
  unfolding char_sequence
  set_charset_dir = char_sequence M.set_charset_dir_code

  unfoldable pub set_charset_name : Bytes → MysqlOption
  unfolding char_sequence
  set_charset_name = char_sequence M.set_charset_name_code

  unfoldable pub shared_memory_base_name : Bytes → MysqlOption
  unfolding char_sequence
  shared_memory_base_name = char_sequence M.shared_memory_base_name_code

  unfoldable pub nonblock : ℕ → MysqlOption
  unfolding unsigned_integer
  nonblock = unsigned_integer M.nonblock_code

  unfoldable pub nonblock_default : MysqlOption
  unfolding switcher
  nonblock_default = switcher M.nonblock_code

-- `set_option(option)` of a connector.
unfoldable pub apply : (L : ClientLib) → MysqlOption → Conn L → Outcome (Unit {0}) × Conn L
apply L o = Connector.set_option L o.option o.data_value
