-- ===== src/Protocols/Hello.antt =====
-- src/protocols/protocol_hello.rs: the greeting of a client.
use clickhouse_srv.Common.{ℕ, List, [], ◌∷◌, Bool, true, false, if◌then◌else◌}
use clickhouse_srv.Common.Text.{Text, text}
use clickhouse_srv.Errors.{Error, server}
use clickhouse_srv.Binary.Reader.{Reader, Read, pure, raise, ◌>>=◌}
use clickhouse_srv.Binary.ReadEx.{read_uvarint, read_string}
use clickhouse_srv.Protocols.Constants.{unexpected_packet_from_client}

pub record HelloRequest : Type 0 where
  pub client_name : Text
  pub client_version_major : ℕ
  pub client_version_minor : ℕ
  pub client_revision : ℕ
  pub default_database : Text
  pub user : Text
  pub password : Text
  pub client_version_patch : ℕ

abbrev pub is_empty {ℓ} : {A : Type ℓ} → List A → Bool
is_empty [] = true
is_empty (x ∷ xs) = false

abbrev pub no_user_error : Error
no_user_error = server (record {
  code = unexpected_packet_from_client;
  name = text "UNEXPECTED_PACKET_FROM_CLIENT";
  message = text "Unexpected packet from client (no user in Hello package)";
  stack_trace = [];
})

unfoldable pub read_hello : {S : Type 0} ⦃r : Read S⦄ → Reader S HelloRequest
read_hello = do
  client_name ← read_string
  client_version_major ← read_uvarint
  client_version_minor ← read_uvarint
  client_revision ← read_uvarint
  default_database ← read_string
  user ← read_string
  password ← read_string
  if is_empty user
      then raise no_user_error
      else pure (record {
        client_name = client_name;
        client_version_major = client_version_major;
        client_version_minor = client_version_minor;
        client_revision = client_revision;
        default_database = default_database;
        user = user;
        password = password;
        client_version_patch = 0;
      })
