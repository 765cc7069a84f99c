-- ===== src/Errors/ClientCode.antt =====
-- include/amy/error.hpp: the enumeration `client_errors` and the texts of its `switch`. The values of
-- the enumerators are macros of the client library's headers, so they are a function `code` here.
use amy.Prelude.{String, List, [], ◌∷◌}

pub data ClientError : Type 0 where
  unknown_error : ClientError
  socket_create_error : ClientError
  connection_error : ClientError
  conn_host_error : ClientError
  ipsock_error : ClientError
  unknown_host : ClientError
  server_gone_error : ClientError
  version_error : ClientError
  out_of_memory : ClientError
  wrong_host_info : ClientError
  localhost_connection : ClientError
  tcp_connection : ClientError
  server_handshake_err : ClientError
  server_lost : ClientError
  commands_out_of_sync : ClientError
  named_pipe_connection : ClientError
  named_pipe_wait_error : ClientError
  named_pipe_open_error : ClientError
  named_pipe_setstate_error : ClientError
  cant_read_charset : ClientError
  net_packet_too_large : ClientError
  embedded_connection : ClientError
  probe_slave_status : ClientError
  probe_slave_hosts : ClientError
  probe_slave_connect : ClientError
  probe_master_connect : ClientError
  ssl_connection_error : ClientError
  malformed_packet : ClientError
  wrong_license : ClientError
  null_pointer : ClientError
  no_prepare_stmt : ClientError
  params_not_bound : ClientError
  data_truncated : ClientError
  no_parameters_exists : ClientError
  invalid_parameter_no : ClientError
  invalid_buffer_use : ClientError
  unsupported_param_type : ClientError
  shared_memory_connection : ClientError
  shared_memory_connect_request_error : ClientError
  shared_memory_connect_answer_error : ClientError
  shared_memory_connect_file_map_error : ClientError
  shared_memory_connect_map_error : ClientError
  shared_memory_file_map_error : ClientError
  shared_memory_map_error : ClientError
  shared_memory_event_error : ClientError
  shared_memory_connect_abandoned_error : ClientError
  shared_memory_connect_set_error : ClientError
  conn_unknow_protocol : ClientError
  invalid_conn_handle : ClientError
  secure_auth : ClientError
  fetch_canceled : ClientError
  no_data : ClientError
  no_stmt_metadata : ClientError
  no_result_set : ClientError
  not_implemented : ClientError

-- The text that the `switch` returns for an enumerator.
unfoldable pub text : ClientError → String
text unknown_error = "Unknown MySQL error"
text socket_create_error = "Can't create UNIX socket"
text connection_error = "Can't connect to local MySQL server through socket"
text conn_host_error = "Can't connect to MySQL server"
text ipsock_error = "Can't create TCP/IP socket"
text unknown_host = "Unknown MySQL server host"
text server_gone_error = "MySQL server has gone away"
text version_error = "Protocol mismatch"
text out_of_memory = "MySQL client ran out of memory"
text wrong_host_info = "Wrong host info"
text localhost_connection = "Localhost via UNIX socket"
text tcp_connection = "TCP/IP connection failed"
text server_handshake_err = "Error in server handshake"
text server_lost = "Lost connection to MySQL server during query"
text commands_out_of_sync = "Commands out of sync; you can't run this command now"
text named_pipe_connection = "Named pipe connection failed"
text named_pipe_wait_error = "Can't wait for named pipe to host"
text named_pipe_open_error = "Can't open named pipe to host"
text named_pipe_setstate_error = "Can't set state of named pipe to host"
text cant_read_charset = "Can't initialize character set"
text net_packet_too_large = "Got packet bigger than 'max_allowed_packet' bytes"
text embedded_connection = "Embedded server"
text probe_slave_status = "Error on SHOW SLAVE STATUS"
text probe_slave_hosts = "Error on SHOW SLAVE HOSTS"
text probe_slave_connect = "Error connecting to slave"
text probe_master_connect = "Error connecting to master"
text ssl_connection_error = "SSL connection error"
text malformed_packet = "Malformed packet"
text wrong_license = "This client library has wrong license"
text null_pointer = "Invalid use of null pointer"
text no_prepare_stmt = "Statement not prepared"
text params_not_bound = "No data supplied for parameters in prepared statement"
text data_truncated = "Data truncated"
text no_parameters_exists = "No parameters exist in the statement"
text invalid_parameter_no = "Invalid parameter number"
text invalid_buffer_use = "Can't send long data for non-string/non-binary data types"
text unsupported_param_type = "Using unsupported buffer type"
text shared_memory_connection = "Shared memory connection failed"
text shared_memory_connect_request_error =
    "Can't open shared memory; client could not create request event"
text shared_memory_connect_answer_error =
    "Can't open shared memory; no answer event received from server"
text shared_memory_connect_file_map_error =
    "Can't open shared memory; server could not allocate file mapping"
text shared_memory_connect_map_error =
    "Can't open shared memory; server could not get pointer to file mapping"
text shared_memory_file_map_error =
    "Can't open shared memory; client could not allocate file mapping"
text shared_memory_map_error =
    "Can't open shared memory; client could not get pointer to file mapping"
text shared_memory_event_error = "Can't open shared memory; client could not create event"
text shared_memory_connect_abandoned_error = "Can't open shared memory; no answer from server"
text shared_memory_connect_set_error =
    "Can't open shared memory; cannot send request event to server"
text conn_unknow_protocol = "Wrong or unknown protocol"
text invalid_conn_handle = "Invalid connection handle"
text secure_auth =
    "Connection using old (pre-4.1.1) authentication protocol refused (client option 'secure_auth' enabled)"
text fetch_canceled = "Row retrieval was canceled by mysql_stmt_close() call"
text no_data = "Attempt to read column without prior row fetch"
text no_stmt_metadata = "Prepared statement contains no metadata"
text no_result_set =
    "Attempt to read a row while there is no result set associated with the statement"
text not_implemented = "This feature is not implemented yet"

-- The cases of the `switch`, in order.
unfoldable pub cases : List ClientError
cases =
    unknown_error ∷ socket_create_error ∷ connection_error ∷ conn_host_error ∷ ipsock_error
    ∷ unknown_host ∷ server_gone_error ∷ version_error ∷ out_of_memory ∷ wrong_host_info
    ∷ localhost_connection ∷ tcp_connection ∷ server_handshake_err ∷ server_lost
    ∷ commands_out_of_sync ∷ named_pipe_connection ∷ named_pipe_wait_error ∷ named_pipe_open_error
    ∷ named_pipe_setstate_error ∷ cant_read_charset ∷ net_packet_too_large ∷ embedded_connection
    ∷ probe_slave_status ∷ probe_slave_hosts ∷ probe_slave_connect ∷ probe_master_connect
    ∷ ssl_connection_error ∷ malformed_packet ∷ wrong_license ∷ null_pointer ∷ no_prepare_stmt
    ∷ params_not_bound ∷ data_truncated ∷ no_parameters_exists ∷ invalid_parameter_no
    ∷ invalid_buffer_use ∷ unsupported_param_type ∷ shared_memory_connection
    ∷ shared_memory_connect_request_error ∷ shared_memory_connect_answer_error
    ∷ shared_memory_connect_file_map_error ∷ shared_memory_connect_map_error
    ∷ shared_memory_file_map_error ∷ shared_memory_map_error ∷ shared_memory_event_error
    ∷ shared_memory_connect_abandoned_error ∷ shared_memory_connect_set_error ∷ conn_unknow_protocol
    ∷ invalid_conn_handle ∷ secure_auth ∷ fetch_canceled ∷ no_data ∷ no_stmt_metadata
    ∷ no_result_set ∷ not_implemented ∷ []
