-- ===== src/Protocols/Constants.antt =====
-- src/protocols/protocol_type.rs, the revisions of src/protocols/mod.rs, and two codes of
-- src/error_codes.rs.
use clickhouse_srv.Common.{ℕ}

abbrev pub client_hello : ℕ
client_hello = 0

abbrev pub client_query : ℕ
client_query = 1

abbrev pub client_data : ℕ
client_data = 2

abbrev pub client_cancel : ℕ
client_cancel = 3

abbrev pub client_ping : ℕ
client_ping = 4

abbrev pub client_scalar : ℕ
client_scalar = 7

abbrev pub server_hello : ℕ
server_hello = 0

abbrev pub server_data : ℕ
server_data = 1

abbrev pub server_exception : ℕ
server_exception = 2

abbrev pub server_progress : ℕ
server_progress = 3

abbrev pub server_pong : ℕ
server_pong = 4

abbrev pub server_end_of_stream : ℕ
server_end_of_stream = 5

abbrev pub initial_query : ℕ
initial_query = 1

abbrev pub min_revision_with_server_timezone : ℕ
min_revision_with_server_timezone = 54058

abbrev pub min_revision_with_quota_key_in_client_info : ℕ
min_revision_with_quota_key_in_client_info = 54060

abbrev pub min_revision_with_client_info : ℕ
min_revision_with_client_info = 54032

abbrev pub min_revision_with_server_display_name : ℕ
min_revision_with_server_display_name = 54372

abbrev pub min_revision_with_version_patch : ℕ
min_revision_with_version_patch = 54401

abbrev pub min_revision_with_client_write_info : ℕ
min_revision_with_client_write_info = 54420

abbrev pub unexpected_packet_from_client : ℕ
unexpected_packet_from_client = 101

abbrev pub unknown_exception : ℕ
unknown_exception = 1002
