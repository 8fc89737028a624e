-- ===== src/Protocols/QueryWire.antt =====
-- A query of src/protocols/protocol_query.rs as it stands on the wire.
use clickhouse_srv.Common.{
  ℕ, zero, suc, ◌^◌, ◌<◌, ◌≡◌, refl, List, [], ◌∷◌, ◌++◌, Bool, true, false, length, arith, leb,
  ◌||◌, if◌then◌else◌,
}
use clickhouse_srv.Common.Text.{Text, text, text_eq}
use clickhouse_srv.Errors.{ok}
use clickhouse_srv.Errors.Utf8.{utf8_fault}
use clickhouse_srv.Binary.ReadEx.{max_rounds}
use clickhouse_srv.Binary.Cursor.{cursor}
use clickhouse_srv.Binary.Varint.{varint}
use clickhouse_srv.Binary.RoundTrip.{text_bytes}
use clickhouse_srv.Binary.Gives.{Gives, Gives-pure, Gives-bind, Readable, number_then, text_then}
use clickhouse_srv.Protocols.Constants.{min_revision_with_client_info}
use clickhouse_srv.Protocols.Hello.{HelloRequest, is_empty}
use clickhouse_srv.Protocols.Query.{
  QueryClientInfo, QueryRequest, tcp, default_client_info, from_hello, read_settings, read_query,
}
use clickhouse_srv.Protocols.InfoWire.{
  choose, InfoReadable, info_wire, info_kept, client_info-Gives,
}

-- The settings: `max_block_size` for true and `max_threads` for false, with their values.
abbrev pub setting_name : Bool → Text
setting_name b = if b then text "max_block_size" else text "max_threads"

abbrev pub settings_wire : List (Bool × ℕ) → List ℕ
settings_wire [] = text_bytes [] ++ []
settings_wire ((b, v) ∷ settings) =
    text_bytes (setting_name b) ++ (varint v ++ settings_wire settings)

abbrev pub SettingsFit : List (Bool × ℕ) → Type 0
SettingsFit [] = Unit {0}
SettingsFit ((b, v) ∷ settings) = (v < 2 ^ 64) × SettingsFit settings

setting-Readable : (b : Bool) → Readable (setting_name b)
unfolding utf8_fault
setting-Readable true = (omega arith, refl)
setting-Readable false = (omega arith, refl)

no_name : Readable []
unfolding utf8_fault
no_name = (omega arith, refl)

setting_named : (b : Bool) → is_empty (setting_name b) ≡ false
setting_named true = refl
setting_named false = refl

setting_known :
    (b : Bool)
    → (text_eq (setting_name b) (text "max_block_size")
        || text_eq (setting_name b) (text "max_threads"))
      ≡ true
unfolding text_eq
setting_known true = refl
setting_known false = refl

setting_round :
    (fuel : ℕ) (b : Bool) (v : ℕ) (cs : List ℕ)
    → v < 2 ^ 64
    → Gives (read_settings fuel) cs (ok tt)
    → Gives (read_settings (suc fuel)) (text_bytes (setting_name b) ++ (varint v ++ cs)) (ok tt)
unfolding read_settings
setting_round fuel b v cs h g =
    text_then _ _ _ _ (setting-Readable b)
      (rw (setting_named b, setting_known b) (number_then _ _ _ _ h g))

settings-Gives :
    (fuel : ℕ) (settings : List (Bool × ℕ))
    → length settings < fuel
    → SettingsFit settings
    → Gives (read_settings fuel) (settings_wire settings) (ok tt)
unfolding read_settings
settings-Gives zero settings enough h = absurd (omega arith)
settings-Gives (suc fuel) [] enough h = text_then _ _ _ _ no_name (Gives-pure tt)
settings-Gives (suc fuel) ((b, v) ∷ settings) enough (fits, h) =
    setting_round fuel b v _ fits (settings-Gives fuel settings (omega arith) h)

abbrev pub query_wire : HelloRequest → List (Bool × ℕ) → QueryRequest → List ℕ
query_wire greeting settings q =
    text_bytes q.query_id
    ++ ((if leb min_revision_with_client_info greeting.client_revision
          then info_wire q.client_info
          else [])
        ++ (settings_wire settings
            ++ (varint q.stage ++ (varint q.compression ++ (text_bytes q.query ++ [])))))

-- What the server makes of the client information of a query.
abbrev pub info_of : HelloRequest → QueryClientInfo → QueryClientInfo
info_of greeting t =
    record (from_hello greeting (
      if leb min_revision_with_client_info greeting.client_revision
      then info_kept t
      else default_client_info)) { interface = tcp }

-- A query whose numbers are below 2 ^ 64 and whose texts are readable, after any number of the
-- two known settings, is read off its bytes, whatever follows them: the texts and numbers of the
-- query itself come back, the settings are passed over, and of the client information is kept
-- what its kind, its interface and its revision have on the wire, with the greeting for a query
-- of kind zero.
pub read_query-query_wire :
    (greeting : HelloRequest) (settings : List (Bool × ℕ)) (q : QueryRequest)
    → InfoReadable q.client_info
    → length settings < 2 ^ 64
    → SettingsFit settings
    → Readable q.query_id
    → q.stage < 2 ^ 64
    → q.compression < 2 ^ 64
    → Readable q.query
    → Gives
        (read_query greeting)
        (query_wire greeting settings q)
        (ok (record q { client_info = info_of greeting q.client_info }))
unfolding read_query
read_query-query_wire greeting settings q info few fit id stage compression text =
    text_then _ _ _ _ id (
      Gives-bind _ _ _ _ _ _ (choose _ (client_info-Gives q.client_info info) (Gives-pure _)) (
        Gives-bind _ _ _ _ _ _ (settings-Gives max_rounds settings few fit) (
          number_then _ _ _ _ stage
            (number_then _ _ _ _ compression (text_then _ _ _ _ text (Gives-pure _))))))
