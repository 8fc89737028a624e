-- ===== src/Protocols/Tests.antt =====
-- Concrete packets.
use clickhouse_srv.Common.{ℕ, ◌∷◌, [], ◌++◌, refl, arith, true, false, Bool, some, if◌then◌else◌}
use clickhouse_srv.Common.Text.{text}
use clickhouse_srv.Errors.{ok, err}
use clickhouse_srv.Errors.Utf8.{utf8_fault}
use clickhouse_srv.Binary.Varint.{varint}
use clickhouse_srv.Binary.Cursor.{cursor, Cursor, cursor_extension, read_bytes-Framed}
use clickhouse_srv.Binary.Reader.{Reader}
use clickhouse_srv.Binary.ReadEx.{read_uvarint}
use clickhouse_srv.Binary.Framing.{Framed, read_uvarint-Framed}
use clickhouse_srv.Binary.Gives.{Gives, Readable}
use clickhouse_srv.Binary.Encoder.Writes.{Writes}
use clickhouse_srv.Protocols.Constants.{server_progress, min_revision_with_client_write_info}
use clickhouse_srv.Protocols.Hello.{HelloRequest, is_empty, no_user_error, read_hello}
use clickhouse_srv.Protocols.Query.{QueryRequest, QueryClientInfo, default_client_info, read_query}
use clickhouse_srv.Protocols.Packet.{parse_packet}
use clickhouse_srv.Protocols.Response.{
  HelloResponse, Progress, encode_hello, write_exception, write_progress,
}
use clickhouse_srv.Protocols.Wire.{hello_wire, read_hello-hello_wire}
use clickhouse_srv.Protocols.QueryWire.{query_wire, info_of, read_query-query_wire}
use clickhouse_srv.Protocols.Replies.{
  since, hello_bytes, encode_hello-Writes, write_progress-Writes, exception_of,
  write_exception-Writes,
}
use clickhouse_srv.Protocols.Framing.{parse_packet-Framed}

Readable-name : Readable (text "default")
unfolding utf8_fault
Readable-name = (omega arith, refl)

Readable-empty : Readable []
unfolding utf8_fault
Readable-empty = (omega arith, refl)

abbrev greeting : HelloRequest
greeting = record {
  client_name = text "default";
  client_version_major = 20;
  client_version_minor = 8;
  client_revision = 54428;
  default_database = [];
  user = text "default";
  password = [];
  client_version_patch = 3;
}

read_hello-hello_wire_example : Gives read_hello (hello_wire greeting) (
    if is_empty greeting.user
    then err no_user_error
    else ok (record greeting { client_version_patch = 0 }))
read_hello-hello_wire_example = read_hello-hello_wire greeting (
  Readable-name,
  omega arith,
  omega arith,
  omega arith,
  Readable-empty,
  Readable-name,
  Readable-empty,
)

abbrev client_info : QueryClientInfo
client_info = record default_client_info {
  query_kind = 1;
  interface = 1;
  os_user = text "default";
  client_revision = 54428;
  client_version_patch = 4;
}

abbrev request : QueryRequest
request = record {
  query_id = text "default";
  client_info = client_info;
  stage = 2;
  compression = 1;
  query = text "default";
}

read_query-query_wire_example :
    Gives
      (read_query greeting)
      (query_wire greeting ((true, 65505) ∷ (false, 4) ∷ []) request)
      (ok (record request { client_info = info_of greeting request.client_info }))
read_query-query_wire_example =
    read_query-query_wire greeting ((true, 65505) ∷ (false, 4) ∷ []) request
      (
        Readable-empty,
        Readable-empty,
        Readable-empty,
        Readable-name,
        Readable-empty,
        Readable-empty,
        omega arith,
        omega arith,
        omega arith,
        Readable-empty,
        Readable-empty,
        omega arith,
      )
      (omega arith) (omega arith, (omega arith, tt)) Readable-name (omega arith) (omega arith)
      Readable-name

abbrev response : HelloResponse
response = record {
  dbms_name = text "srv";
  dbms_version_major = 19;
  dbms_version_minor = 17;
  dbms_tcp_protocol_version = 54428;
  timezone = text "UTC";
  server_display_name = text "srv";
  dbms_version_patch = 1;
}

encode_hello-Writes_example : Writes (encode_hello response 54372) (hello_bytes response 54372)
encode_hello-Writes_example =
    encode_hello-Writes response 54372
      (omega arith, omega arith, omega arith, omega arith, omega arith, omega arith, omega arith)

abbrev progress : Progress
progress = record { rows = 100; bytes = 1000; total_rows = 200 }

write_progress-Writes_example : Writes (write_progress progress 54420) (
    varint server_progress
    ++ (varint 100
        ++ (varint 1000
            ++ (varint 200 ++ since min_revision_with_client_write_info 54420 (0 ∷ 0 ∷ [])))))
write_progress-Writes_example =
    write_progress-Writes progress 54420 (omega arith) (omega arith) (omega arith)

write_exception-Writes_example :
    Writes (write_exception no_user_error true) (exception_of no_user_error true)
write_exception-Writes_example =
    write_exception-Writes no_user_error true (omega arith, omega arith, omega arith, omega arith)

-- A format of blocks: a number.
abbrev load_number : Bool → Reader Cursor ℕ
load_number compress = read_uvarint

parse_packet-Framed_example :
    Framed cursor_extension (parse_packet load_number (some greeting) true)
parse_packet-Framed_example =
    parse_packet-Framed cursor_extension read_bytes-Framed load_number
      (λ c. read_uvarint-Framed cursor_extension read_bytes-Framed) (some greeting) true
