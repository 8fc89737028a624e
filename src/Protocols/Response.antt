-- ===== src/Protocols/Response.antt =====
-- What the server writes: src/protocols/protocol_hello.rs (`HelloResponse`),
-- src/protocols/protocol_exception.rs, and `Progress` of src/types/mod.rs.
use clickhouse_srv.Common.{ℕ, [], Bool, false, leb, if◌then◌else◌}
use clickhouse_srv.Common.Text.{Text}
use clickhouse_srv.Errors.{Error, server, exception_name, to_string}
use clickhouse_srv.Scalar.{u32, bool}
use clickhouse_srv.Binary.Encoder.{Encode, ◌>>◌, skip, uvarint, string, write}
use clickhouse_srv.Protocols.Constants.{
  server_hello, server_exception, server_progress, min_revision_with_server_timezone,
  min_revision_with_server_display_name, min_revision_with_version_patch,
  min_revision_with_client_write_info, unknown_exception,
}

pub record HelloResponse : Type 0 where
  pub dbms_name : Text
  pub dbms_version_major : ℕ
  pub dbms_version_minor : ℕ
  pub dbms_tcp_protocol_version : ℕ
  pub timezone : Text
  pub server_display_name : Text
  pub dbms_version_patch : ℕ

unfoldable pub encode_hello : HelloResponse → ℕ → Encode
encode_hello response client_revision = do
  uvarint server_hello
  string response.dbms_name
  uvarint response.dbms_version_major
  uvarint response.dbms_version_minor
  uvarint response.dbms_tcp_protocol_version
  if leb min_revision_with_server_timezone client_revision then string response.timezone else skip
  if leb min_revision_with_server_display_name client_revision
      then string response.server_display_name
      else skip
  if leb min_revision_with_version_patch client_revision
      then uvarint response.dbms_version_patch
      else skip

-- The code, the stack trace and the message that the packet carries for an error.
pub record ExceptionParts : Type 0 where
  pub code : ℕ
  pub stack_trace : Text
  pub message : Text

unfoldable pub exception_parts : Error → Bool → ExceptionParts
exception_parts (server e) with_stack_trace = record {
  code = e.code;
  stack_trace = if with_stack_trace then e.stack_trace else [];
  message = e.message;
}
exception_parts error with_stack_trace = record {
  code = unknown_exception;
  stack_trace = [];
  message = to_string error;
}

unfoldable pub write_exception : Error → Bool → Encode
write_exception error with_stack_trace =
    let parts = exception_parts error with_stack_trace in
    do
      uvarint server_exception
      write u32 parts.code
      string (exception_name error)
      string parts.message
      string parts.stack_trace
      write bool false

pub record Progress : Type 0 where
  pub rows : ℕ
  pub bytes : ℕ
  pub total_rows : ℕ

unfoldable pub write_progress : Progress → ℕ → Encode
write_progress progress client_revision = do
  uvarint server_progress
  uvarint progress.rows
  uvarint progress.bytes
  uvarint progress.total_rows
  if leb min_revision_with_client_write_info client_revision
      then (do uvarint 0; uvarint 0)
      else skip
