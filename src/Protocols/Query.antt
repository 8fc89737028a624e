-- ===== src/Protocols/Query.antt =====
-- src/protocols/protocol_query.rs: the client information and the query of a client.
use clickhouse_srv.Common.{ℕ, zero, suc, [], ◌||◌, ◌&&◌, leb, ◌==◌, if◌then◌else◌}
use clickhouse_srv.Common.Text.{Text, text, text_eq}
use clickhouse_srv.Errors.{driver, unknown_setting}
use clickhouse_srv.Scalar.{u8}
use clickhouse_srv.Binary.Reader.{Reader, Read, pure, raise, diverge, ◌>>=◌, ◌>>◌}
use clickhouse_srv.Binary.ReadEx.{read_scalar, read_uvarint, read_string, max_rounds}
use clickhouse_srv.Protocols.Constants.{
  initial_query, min_revision_with_client_info, min_revision_with_quota_key_in_client_info,
  min_revision_with_version_patch,
}
use clickhouse_srv.Protocols.Hello.{HelloRequest, is_empty}

abbrev pub tcp : ℕ
tcp = 1

abbrev pub http : ℕ
http = 2

pub record QueryClientInfo : Type 0 where
  pub query_kind : ℕ
  pub initial_user : Text
  pub initial_query_id : Text
  pub initial_address : Text
  pub interface : ℕ
  pub os_user : Text
  pub client_hostname : Text
  pub client_name : Text
  pub client_version_major : ℕ
  pub client_version_minor : ℕ
  pub client_version_patch : ℕ
  pub client_revision : ℕ
  pub http_method : ℕ
  pub http_user_agent : Text
  pub quota_key : Text

-- `Default::default()`
abbrev pub default_client_info : QueryClientInfo
default_client_info = record {
  query_kind = 0;
  initial_user = [];
  initial_query_id = [];
  initial_address = [];
  interface = 0;
  os_user = [];
  client_hostname = [];
  client_name = [];
  client_version_major = 0;
  client_version_minor = 0;
  client_version_patch = 0;
  client_revision = 0;
  http_method = 0;
  http_user_agent = [];
  quota_key = [];
}

pub record QueryRequest : Type 0 where
  pub query_id : Text
  pub client_info : QueryClientInfo
  pub stage : ℕ
  pub compression : ℕ
  pub query : Text

-- What the query takes over from the greeting.
abbrev pub from_hello : HelloRequest → QueryClientInfo → QueryClientInfo
from_hello hello info =
    if info.query_kind == 0
    then record info {
      query_kind = initial_query;
      client_name = hello.client_name;
      client_version_major = hello.client_version_major;
      client_version_minor = hello.client_version_minor;
      client_version_patch = hello.client_version_patch;
      client_revision = hello.client_revision;
    }
    else info

module _ {S : Type 0} ⦃r : Read S⦄ where
  -- `match client_info.interface`
  unfoldable pub read_interface : QueryClientInfo → Reader S QueryClientInfo
  read_interface info =
      if info.interface == tcp
      then (do
        os_user ← read_string
        client_hostname ← read_string
        client_name ← read_string
        client_version_major ← read_uvarint
        client_version_minor ← read_uvarint
        client_revision ← read_uvarint
        pure (record info {
          os_user = os_user;
          client_hostname = client_hostname;
          client_name = client_name;
          client_version_major = client_version_major;
          client_version_minor = client_version_minor;
          client_revision = client_revision;
          client_version_patch = client_revision;
        }))
      else if info.interface == http
      then (do
        http_method ← read_scalar u8
        http_user_agent ← read_string
        pure (record info { http_method = http_method; http_user_agent = http_user_agent }))
      else pure info

  unfoldable pub read_quota_key : QueryClientInfo → Reader S QueryClientInfo
  read_quota_key info =
      if leb min_revision_with_quota_key_in_client_info info.client_revision
      then (do quota_key ← read_string; pure (record info { quota_key = quota_key }))
      else pure info

  unfoldable pub read_version_patch : QueryClientInfo → Reader S QueryClientInfo
  read_version_patch info =
      if info.interface == tcp && leb min_revision_with_version_patch info.client_revision
      then (do patch ← read_uvarint; pure (record info { client_version_patch = patch }))
      else pure info

  unfoldable pub read_client_info : Reader S QueryClientInfo
  read_client_info = do
    query_kind ← read_scalar u8
    if query_kind == 0 then pure default_client_info else do
      initial_user ← read_string
      initial_query_id ← read_string
      initial_address ← read_string
      interface ← read_scalar u8
      by_interface ← read_interface (record default_client_info {
        query_kind = query_kind;
        initial_user = initial_user;
        initial_query_id = initial_query_id;
        initial_address = initial_address;
        interface = interface;
      })
      with_quota_key ← read_quota_key by_interface
      read_version_patch with_quota_key

  -- The settings up to an empty name: two are skipped over, any other is an error.
  unfoldable pub read_settings : ℕ → Reader S (Unit {0})
  read_settings zero = diverge
  read_settings (suc fuel) = do
    name ← read_string
    if is_empty name
        then pure tt
        else if text_eq name (text "max_block_size") || text_eq name (text "max_threads")
        then (do read_uvarint; read_settings fuel)
        else raise (driver (unknown_setting name))

  unfoldable pub read_query : HelloRequest → Reader S QueryRequest
  read_query hello = do
    query_id ← read_string
    info ←
        if leb min_revision_with_client_info hello.client_revision
        then read_client_info
        else pure default_client_info
    let client_info = record (from_hello hello info) { interface = tcp }
    read_settings max_rounds
    stage ← read_uvarint
    compression ← read_uvarint
    query ← read_string
    pure (record {
      query_id = query_id;
      client_info = client_info;
      stage = stage;
      compression = compression;
      query = query;
    })
