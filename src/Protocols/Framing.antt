-- ===== src/Protocols/Framing.antt =====
-- The parser of src/binary/parser.rs on a part of its input and on the whole.
use clickhouse_srv.Common.{
  ℕ, zero, suc, Bool, Option, none, some, leb, ◌==◌, ◌&&◌, ◌||◌, if◌then◌else◌,
}
use clickhouse_srv.Common.Text.{Text, text_eq, text}
use clickhouse_srv.Scalar.{u8}
use clickhouse_srv.Binary.Reader.{Reader, Read, ◌>>=◌}
use clickhouse_srv.Binary.ReadEx.{read_bytes, read_string, read_uvarint, read_scalar, max_rounds}
use clickhouse_srv.Binary.Framing.{
  Extension, Framed, Framed-if, Framed-bind, Framed-pure, Framed-raise, Framed-diverge,
  read_scalar-Framed, read_uvarint-Framed, read_string-Framed,
}
use clickhouse_srv.Protocols.Constants.{
  min_revision_with_client_info, min_revision_with_quota_key_in_client_info,
  min_revision_with_version_patch, client_ping, client_cancel, client_data, client_scalar,
  client_query, client_hello,
}
use clickhouse_srv.Protocols.Hello.{HelloRequest, is_empty, read_hello}
use clickhouse_srv.Protocols.Query.{
  QueryClientInfo, tcp, http, read_interface, read_quota_key, read_version_patch, read_client_info,
  read_settings, read_query,
}
use clickhouse_srv.Protocols.Packet.{parse_hello, parse_query, parse_data, parse_packet}

module _ {S : Type 0} ⦃r : Read S⦄ (x : Extension S)
    (fills : (n : ℕ) → Framed x (read_bytes n)) where
  text-Framed :
      {B : Type 0} (f : Text → Reader S B)
      → ((t : Text) → Framed x (f t))
      → Framed x (read_string >>= f)
  text-Framed f h = Framed-bind x read_string f (read_string-Framed x fills) h

  word-Framed :
      {B : Type 0} (f : ℕ → Reader S B) → ((n : ℕ) → Framed x (f n)) → Framed x (read_uvarint >>= f)
  word-Framed f h = Framed-bind x read_uvarint f (read_uvarint-Framed x fills) h

  byte-Framed :
      {B : Type 0} (f : ℕ → Reader S B)
      → ((n : ℕ) → Framed x (f n))
      → Framed x (read_scalar u8 >>= f)
  byte-Framed f h = Framed-bind x (read_scalar u8) f (read_scalar-Framed x fills u8) h

  if-Framed :
      {A : Type 0} (b : Bool) {p q : Reader S A}
      → Framed x p
      → Framed x q
      → Framed x (if b then p else q)
  if-Framed b {p} {q} fp fq = Framed-if x b p q fp fq

  read_hello-Framed : Framed x read_hello
  unfolding read_hello
  read_hello-Framed = text-Framed _ λ name. word-Framed _ λ major. word-Framed _ λ minor.
      word-Framed _ λ revision. text-Framed _ λ database. text-Framed _ λ user.
        text-Framed _ λ password. if-Framed (is_empty user) (Framed-raise x _) (Framed-pure x _)

  read_interface-Framed : (info : QueryClientInfo) → Framed x (read_interface info)
  unfolding read_interface
  read_interface-Framed info =
      if-Framed (info.interface == tcp)
        (text-Framed _ λ os_user. text-Framed _ λ host. text-Framed _ λ name.
          word-Framed _ λ major. word-Framed _ λ minor. word-Framed _ λ revision. Framed-pure x _)
        (if-Framed (info.interface == http)
          (byte-Framed _ λ method. text-Framed _ λ agent. Framed-pure x _) (Framed-pure x _))

  read_quota_key-Framed : (info : QueryClientInfo) → Framed x (read_quota_key info)
  unfolding read_quota_key
  read_quota_key-Framed info =
      if-Framed (leb min_revision_with_quota_key_in_client_info info.client_revision)
        (text-Framed _ λ key. Framed-pure x _) (Framed-pure x _)

  read_version_patch-Framed : (info : QueryClientInfo) → Framed x (read_version_patch info)
  unfolding read_version_patch
  read_version_patch-Framed info =
      if-Framed (info.interface == tcp && leb min_revision_with_version_patch info.client_revision)
        (word-Framed _ λ patch. Framed-pure x _) (Framed-pure x _)

  read_client_info-Framed : Framed x read_client_info
  unfolding read_client_info
  read_client_info-Framed = byte-Framed _ λ kind. if-Framed (kind == 0) (Framed-pure x _) (
      text-Framed _ λ user. text-Framed _ λ id. text-Framed _ λ address. byte-Framed _ λ interface.
        Framed-bind x _ _ (read_interface-Framed _) λ info.
          Framed-bind x _ _ (read_quota_key-Framed info) λ keyed. read_version_patch-Framed keyed)

  read_settings-Framed : (fuel : ℕ) → Framed x (read_settings fuel)
  unfolding read_settings
  read_settings-Framed zero = Framed-diverge x
  read_settings-Framed (suc fuel) = text-Framed _ λ name.
      if-Framed (is_empty name) (Framed-pure x _) (
        if-Framed (text_eq name (text "max_block_size") || text_eq name (text "max_threads"))
          (word-Framed _ λ value. read_settings-Framed fuel) (Framed-raise x _))

  read_query-Framed : (greeting : HelloRequest) → Framed x (read_query greeting)
  unfolding read_query
  read_query-Framed greeting = text-Framed _ λ id.
      Framed-bind x _ _
        (if-Framed (leb min_revision_with_client_info greeting.client_revision)
          read_client_info-Framed (Framed-pure x _))
        λ info. Framed-bind x _ _ (read_settings-Framed max_rounds) λ done.
          word-Framed _ λ stage. word-Framed _ λ compression. text-Framed _ λ query. Framed-pure x _

  module _ {B : Type 0} (load_block : Bool → Reader S B)
      (loads : (c : Bool) → Framed x (load_block c)) where
    parse_query-Framed :
        (greeting : Option HelloRequest) (c : Bool) → Framed x (parse_query load_block greeting c)
    unfolding parse_query
    parse_query-Framed none c = Framed-raise x _
    parse_query-Framed (some g) c = Framed-bind x _ _ (read_query-Framed g) λ q. Framed-pure x _

    -- If the filling of buffers and the format of blocks do on a part of the input what they do
    -- on the whole, but for a want of bytes, so does the parser of packets.
    pub parse_packet-Framed :
        (greeting : Option HelloRequest) (c : Bool) → Framed x (parse_packet load_block greeting c)
    unfolding parse_packet parse_data parse_hello
    parse_packet-Framed greeting c = word-Framed _ λ packet.
        if-Framed (packet == client_ping) (Framed-pure x _) (
          if-Framed (packet == client_cancel) (Framed-pure x _) (
            if-Framed (packet == client_data || packet == client_scalar)
              (text-Framed _ λ table. Framed-bind x _ _ (loads c) λ b. Framed-pure x _)
              (if-Framed (packet == client_query) (parse_query-Framed greeting c) (
                if-Framed (packet == client_hello)
                  (Framed-bind x _ _ read_hello-Framed λ request. Framed-pure x _)
                  (Framed-raise x _)))))
