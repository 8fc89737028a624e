-- ===== src/Protocols/InfoWire.antt =====
-- The client information of src/protocols/protocol_query.rs as it stands on the wire.
use clickhouse_srv.Common.{
  ℕ, ◌^◌, ◌<◌, refl, List, [], ◌∷◌, ◌++◌, Bool, true, false, leb, ◌==◌, ◌&&◌, if◌then◌else◌,
}
use clickhouse_srv.Errors.{Outcome, ok}
use clickhouse_srv.Scalar.{u8}
use clickhouse_srv.Binary.Reader.{Reader, ◌>>=◌}
use clickhouse_srv.Binary.ReadEx.{read_scalar}
use clickhouse_srv.Binary.Cursor.{cursor, Cursor}
use clickhouse_srv.Binary.Varint.{varint}
use clickhouse_srv.Binary.RoundTrip.{text_bytes}
use clickhouse_srv.Binary.Gives.{
  Gives, Gives-pure, Gives-bind, Gives-scalar, Readable, number_then, text_then,
}
use clickhouse_srv.Protocols.Constants.{
  min_revision_with_quota_key_in_client_info, min_revision_with_version_patch,
}
use clickhouse_srv.Protocols.Query.{
  QueryClientInfo, tcp, http, default_client_info, read_interface, read_quota_key,
  read_version_patch, read_client_info,
}

byte_then :
    {C : Type 0} (v : ℕ) (f : ℕ → Reader Cursor C) (cs : List ℕ) (o : Outcome C)
    → Gives (f v) cs o
    → Gives (read_scalar u8 >>= f) (v ∷ cs) o
unfolding u8
byte_then v f cs o g =
    Gives-bind (read_scalar u8) f (v ∷ []) cs v o (Gives-scalar u8 v (v ∷ []) refl refl) g

pub choose :
    {A : Type 0} (b : Bool) {p q : Reader Cursor A} {bs cs : List ℕ} {a c : A}
    → Gives p bs (ok a)
    → Gives q cs (ok c)
    → Gives (if b then p else q) (if b then bs else cs) (ok (if b then a else c))
choose true gp gq = gp
choose false gp gq = gq

-- The part of the client information that depends on the interface, and what it adds to `info`.
abbrev pub interface_wire : ℕ → QueryClientInfo → List ℕ
interface_wire interface t =
    if interface == tcp
    then text_bytes t.os_user
      ++ (text_bytes t.client_hostname
          ++ (text_bytes t.client_name
              ++ (varint t.client_version_major
                  ++ (varint t.client_version_minor ++ (varint t.client_revision ++ [])))))
    else if interface == http
    then t.http_method ∷ (text_bytes t.http_user_agent ++ [])
    else []

abbrev pub with_interface : QueryClientInfo → QueryClientInfo → QueryClientInfo
with_interface info t =
    if info.interface == tcp
    then record info {
      os_user = t.os_user;
      client_hostname = t.client_hostname;
      client_name = t.client_name;
      client_version_major = t.client_version_major;
      client_version_minor = t.client_version_minor;
      client_revision = t.client_revision;
      client_version_patch = t.client_revision;
    }
    else if info.interface == http
    then record info { http_method = t.http_method; http_user_agent = t.http_user_agent }
    else info

abbrev pub with_quota_key : QueryClientInfo → QueryClientInfo → QueryClientInfo
with_quota_key info t =
    if leb min_revision_with_quota_key_in_client_info info.client_revision
    then record info { quota_key = t.quota_key }
    else info

abbrev pub with_version_patch : QueryClientInfo → QueryClientInfo → QueryClientInfo
with_version_patch info t =
    if info.interface == tcp && leb min_revision_with_version_patch info.client_revision
    then record info { client_version_patch = t.client_version_patch }
    else info

-- What is there before the interface is looked at.
abbrev pub with_origin : QueryClientInfo → QueryClientInfo
with_origin t = record default_client_info {
  query_kind = t.query_kind;
  initial_user = t.initial_user;
  initial_query_id = t.initial_query_id;
  initial_address = t.initial_address;
  interface = t.interface;
}

abbrev pub InfoReadable : QueryClientInfo → Type 0
InfoReadable t =
    Readable t.initial_user
    × Readable t.initial_query_id
    × Readable t.initial_address
    × Readable t.os_user
    × Readable t.client_hostname
    × Readable t.client_name
    × (t.client_version_major < 2 ^ 64)
    × (t.client_version_minor < 2 ^ 64)
    × (t.client_revision < 2 ^ 64)
    × Readable t.http_user_agent
    × Readable t.quota_key
    × (t.client_version_patch < 2 ^ 64)

abbrev pub info_wire : QueryClientInfo → List ℕ
info_wire t =
    let by_interface = with_interface (with_origin t) t in
    let keyed = with_quota_key by_interface t in
    t.query_kind
    ∷ (if t.query_kind == 0
        then []
        else text_bytes t.initial_user
          ++ (text_bytes t.initial_query_id
              ++ (text_bytes t.initial_address
                  ++ (t.interface
                      ∷ (interface_wire t.interface t
                          ++ ((if leb min_revision_with_quota_key_in_client_info
                                  by_interface.client_revision
                                then text_bytes t.quota_key ++ []
                                else [])
                              ++ (if keyed.interface == tcp
                                    && leb min_revision_with_version_patch keyed.client_revision
                                  then varint t.client_version_patch ++ []
                                  else [])))))))

-- What the server keeps of the client information.
abbrev pub info_kept : QueryClientInfo → QueryClientInfo
info_kept t =
    if t.query_kind == 0
    then default_client_info
    else with_version_patch (with_quota_key (with_interface (with_origin t) t) t) t

module _ (t : QueryClientInfo) (h : InfoReadable t) where
  interface-Gives :
      (info : QueryClientInfo)
      → Gives (read_interface info) (interface_wire info.interface t) (ok (with_interface info t))
  unfolding read_interface
  interface-Gives info =
      choose (info.interface == tcp)
        (text_then _ _ _ _ h.3 (
          text_then _ _ _ _ h.4 (
            text_then _ _ _ _ h.5 (
              number_then _ _ _ _ h.6
                (number_then _ _ _ _ h.7 (number_then _ _ _ _ h.8 (Gives-pure _)))))))
        (choose (info.interface == http) (byte_then _ _ _ _ (text_then _ _ _ _ h.9 (Gives-pure _)))
          (Gives-pure _))

  quota_key-Gives :
      (info : QueryClientInfo)
      → Gives
          (read_quota_key info)
          (if leb min_revision_with_quota_key_in_client_info info.client_revision
            then text_bytes t.quota_key ++ []
            else [])
          (ok (with_quota_key info t))
  unfolding read_quota_key
  quota_key-Gives info = choose _ (text_then _ _ _ _ h.10 (Gives-pure _)) (Gives-pure _)

  version_patch-Gives :
      (info : QueryClientInfo)
      → Gives
          (read_version_patch info)
          (if info.interface == tcp && leb min_revision_with_version_patch info.client_revision
            then varint t.client_version_patch ++ []
            else [])
          (ok (with_version_patch info t))
  unfolding read_version_patch
  version_patch-Gives info = choose _ (number_then _ _ _ _ h.11 (Gives-pure _)) (Gives-pure _)

  pub client_info-Gives : Gives read_client_info (info_wire t) (ok (info_kept t))
  unfolding read_client_info
  client_info-Gives = byte_then _ _ _ _ (
      choose (t.query_kind == 0) (Gives-pure _) (
        text_then _ _ _ _ h.0 (
          text_then _ _ _ _ h.1 (
            text_then _ _ _ _ h.2 (
              byte_then _ _ _ _ (
                Gives-bind _ _ _ _ _ _ (interface-Gives (with_origin t))
                  (Gives-bind _ _ _ _ _ _ (quota_key-Gives _) (version_patch-Gives _))))))))
