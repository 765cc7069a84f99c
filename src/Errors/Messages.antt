-- ===== src/Errors/Messages.antt =====
-- What the messages of the two categories say, and where `misc_category::message` reads out of bounds.
use amy.Prelude.{
  ℕ, zero, suc, ◌≤◌, ◌<◌, ◌≡◌, ◌≢◌, ◌↔◌, inl, inr, refl, ap, sym, String, none, some, List, [], ◌∷◌,
  get_elem?, get_elem?-eq-none, arith, Bool-cases,
}
use amy.Prelude.Int.{ℤ, pos, ==ℤ, ==ℤ_iff}
use amy.Errors.{
  MiscError, misc_value, messages, switch, client_message, misc_message, initialization_error,
}
use amy.Errors.ClientCode.{ClientError, text, cases}

-- The values of the enumerators differ, as the `switch` over them requires.
abbrev pub AreDistinct : (ClientError → ℤ) → Type 0
AreDistinct code = (a b : ClientError) → code a ≡ code b → a ≡ b

-- The place of an enumerator in `cases`.
unfoldable pub position : ClientError → ℕ
position ClientError.unknown_error = 0
position ClientError.socket_create_error = 1
position ClientError.connection_error = 2
position ClientError.conn_host_error = 3
position ClientError.ipsock_error = 4
position ClientError.unknown_host = 5
position ClientError.server_gone_error = 6
position ClientError.version_error = 7
position ClientError.out_of_memory = 8
position ClientError.wrong_host_info = 9
position ClientError.localhost_connection = 10
position ClientError.tcp_connection = 11
position ClientError.server_handshake_err = 12
position ClientError.server_lost = 13
position ClientError.commands_out_of_sync = 14
position ClientError.named_pipe_connection = 15
position ClientError.named_pipe_wait_error = 16
position ClientError.named_pipe_open_error = 17
position ClientError.named_pipe_setstate_error = 18
position ClientError.cant_read_charset = 19
position ClientError.net_packet_too_large = 20
position ClientError.embedded_connection = 21
position ClientError.probe_slave_status = 22
position ClientError.probe_slave_hosts = 23
position ClientError.probe_slave_connect = 24
position ClientError.probe_master_connect = 25
position ClientError.ssl_connection_error = 26
position ClientError.malformed_packet = 27
position ClientError.wrong_license = 28
position ClientError.null_pointer = 29
position ClientError.no_prepare_stmt = 30
position ClientError.params_not_bound = 31
position ClientError.data_truncated = 32
position ClientError.no_parameters_exists = 33
position ClientError.invalid_parameter_no = 34
position ClientError.invalid_buffer_use = 35
position ClientError.unsupported_param_type = 36
position ClientError.shared_memory_connection = 37
position ClientError.shared_memory_connect_request_error = 38
position ClientError.shared_memory_connect_answer_error = 39
position ClientError.shared_memory_connect_file_map_error = 40
position ClientError.shared_memory_connect_map_error = 41
position ClientError.shared_memory_file_map_error = 42
position ClientError.shared_memory_map_error = 43
position ClientError.shared_memory_event_error = 44
position ClientError.shared_memory_connect_abandoned_error = 45
position ClientError.shared_memory_connect_set_error = 46
position ClientError.conn_unknow_protocol = 47
position ClientError.invalid_conn_handle = 48
position ClientError.secure_auth = 49
position ClientError.fetch_canceled = 50
position ClientError.no_data = 51
position ClientError.no_stmt_metadata = 52
position ClientError.no_result_set = 53
position ClientError.not_implemented = 54

cases-position : (e : ClientError) → get_elem? cases (position e) ≡ some e
unfolding position cases
cases-position ClientError.unknown_error = refl
cases-position _ = refl

switch-code :
    (code : ClientError → ℤ)
    → AreDistinct code
    → (e : ClientError) (es : List ClientError) (i : ℕ) → get_elem? es i ≡ some e
    → switch code (code e) es ≡ text e
unfolding switch
switch-code code d e [] i h = cc
switch-code code d e (x ∷ es) zero h =
    let same : x ≡ e = cc in ground (arith, ==ℤ_iff (code e) (code x), ap code same)
switch-code code d e (x ∷ es) (suc i) h = elim (Bool-cases (==ℤ (code e) (code x))) [
  | inl same ↦ rw same (ap text (sym (d e x ((==ℤ_iff (code e) (code x)).0 same))))
  | inr differ ↦ rw differ (switch-code code d e es i h)
]

-- With distinct values every enumerator has the message of its own case.
pub client_message-code :
    (code : ClientError → ℤ)
    → AreDistinct code
    → (e : ClientError) → client_message code (code e) ≡ text e
unfolding client_message
client_message-code code d e = switch-code code d e cases (position e) (cases-position e)

switch_default :
    (code : ClientError → ℤ) (v : ℤ) (es : List ClientError)
    → ((e : ClientError) → v ≢ code e)
    → switch code v es ≡ "Unknown error"
unfolding switch
switch_default code v [] h = refl
switch_default code v (e ∷ es) h =
    ground (arith, h e, ==ℤ_iff v (code e), switch_default code v es h)

-- A value that is no enumerator's has the message of the `default` label.
pub client_message_default :
    (code : ClientError → ℤ) (v : ℤ)
    → ((e : ClientError) → v ≢ code e)
    → client_message code v ≡ "Unknown error"
unfolding client_message
client_message_default code v h = switch_default code v cases h

-- The text that `messages` has for an enumerator of `misc_errors`.
unfoldable pub misc_text : MiscError → String
misc_text MiscError.initialization_error = "Failed to initialize MySQL handle"
misc_text MiscError.not_initialized = "Connection handle not initialized"
misc_text MiscError.no_more_results = "No more result sets"
misc_text MiscError.null_field_value = "Field value is NULL"
misc_text MiscError.autocommit_setting_error = "Failed to set autocommit mode"
misc_text MiscError.commit_error = "Failed to commit"
misc_text MiscError.rollback_error = "Failed to rollback"
misc_text MiscError.unknown = "Unknown error"

-- Every enumerator of `misc_errors` has its own message, given that `unknown_error` of
-- `client_errors`, at which the guard stops, lies above 8.
pub misc_message-value :
    (code : ClientError → ℤ) (n : ℕ)
    → code ClientError.unknown_error ≡ pos n
    → 8 < n
    → (e : MiscError) → misc_message code (pos (misc_value e)) ≡ some (misc_text e)
unfolding misc_message misc_text
misc_message-value code n c h initialization_error = ground arith
misc_message-value code n c h _ = ground arith

get_elem?-messages : (v : ℕ) → (get_elem? messages v ≡ none) ↔ (9 ≤ v)
get_elem?-messages v = get_elem?-eq-none messages v

-- The guard of `misc_category::message` compares with `unknown_error` of `client_errors` (n here),
-- not with `unknown`: exactly the values from 9 up to n are looked up outside of the array.
pub misc_message_out_of_bounds :
    (code : ClientError → ℤ) (n : ℕ)
    → code ClientError.unknown_error ≡ pos n
    → (v : ℕ) → (misc_message code (pos v) ≡ none) ↔ ((9 ≤ v) × (v < n))
unfolding misc_message
misc_message_out_of_bounds code n c v = ground (arith, get_elem?-messages v)

pub position-injective : (a b : ClientError) → position a ≡ position b → a ≡ b
position-injective a b h = cc (cases-position a, cases-position b)
