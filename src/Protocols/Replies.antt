-- ===== src/Protocols/Replies.antt =====
-- The bytes of the greeting, of a progress report and of an exception (src/protocols, src/types/mod.rs).
use clickhouse_srv.Common.{
  ℕ, ◌^◌, ◌<◌, refl, List, [], ◌∷◌, ◌++◌, length, Bool, true, false, leb, if◌then◌else◌, arith,
}
use clickhouse_srv.Common.Text.{Text, text}
use clickhouse_srv.Errors.{
  Error, driver, io, connection, other_error, server, url, from_sql, driver_error_text,
  connection_error_text, url_error_text, from_sql_error_text, to_string, exception_name,
}
use clickhouse_srv.Binary.Varint.{varint}
use clickhouse_srv.Binary.RoundTrip.{text_bytes}
use clickhouse_srv.Binary.Encoder.{Encode, ◌>>◌, skip, uvarint, string}
use clickhouse_srv.Binary.Encoder.Writes.{
  Writes, Writes-seq, Writes-skip, Writes-if, Writes-uvarint, Writes-string, Writes-write,
}
use clickhouse_srv.Scalar.{u32, bool}
use clickhouse_srv.Scalar.Bytes.{le_bytes}
use clickhouse_srv.Scalar.RoundTrip.{u32_marshal}
use clickhouse_srv.Protocols.Constants.{
  server_hello, server_exception, server_progress, min_revision_with_server_timezone,
  min_revision_with_server_display_name, min_revision_with_version_patch,
  min_revision_with_client_write_info,
}
use clickhouse_srv.Protocols.Response.{
  HelloResponse, Progress, encode_hello, write_progress, exception_parts, write_exception,
}

-- A field that only clients from some revision on are sent.
abbrev pub since : ℕ → ℕ → List ℕ → List ℕ
since revision client_revision bs = if leb revision client_revision then bs else []

abbrev pub HelloFits : HelloResponse → Type 0
HelloFits r =
    (length r.dbms_name < 2 ^ 64)
    × (r.dbms_version_major < 2 ^ 64)
    × (r.dbms_version_minor < 2 ^ 64)
    × (r.dbms_tcp_protocol_version < 2 ^ 64)
    × (length r.timezone < 2 ^ 64)
    × (length r.server_display_name < 2 ^ 64)
    × (r.dbms_version_patch < 2 ^ 64)

abbrev pub hello_bytes : HelloResponse → ℕ → List ℕ
hello_bytes r revision =
    varint server_hello
    ++ (text_bytes r.dbms_name
        ++ (varint r.dbms_version_major
            ++ (varint r.dbms_version_minor
                ++ (varint r.dbms_tcp_protocol_version
                    ++ (since min_revision_with_server_timezone revision (text_bytes r.timezone)
                        ++ (since min_revision_with_server_display_name revision
                              (text_bytes r.server_display_name)
                            ++ since min_revision_with_version_patch revision
                                (varint r.dbms_version_patch)))))))

-- One more step in front of the steps of the rest.
number :
    (v : ℕ) (g : Encode) (bs : List ℕ)
    → v < 2 ^ 64
    → Writes g bs
    → Writes (uvarint v >> g) (varint v ++ bs)
number v g bs h w = Writes-seq _ _ _ _ (Writes-uvarint v h) w

chars :
    (t : Text) (g : Encode) (bs : List ℕ)
    → length t < 2 ^ 64
    → Writes g bs
    → Writes (string t >> g) (text_bytes t ++ bs)
chars t g bs h w = Writes-seq _ _ _ _ (Writes-string t h) w

optional :
    (b : Bool) (f : Encode) (bs : List ℕ)
    → Writes f bs
    → Writes (if b then f else skip) (if b then bs else [])
optional b f bs w = Writes-if b _ _ _ _ w Writes-skip

-- The greeting of the server appends its packet number, its name, its version and its protocol's
-- revision, and then what the client's revision knows of: time zone, display name and patch; for
-- numbers below 2 ^ 64 and texts of less than 2 ^ 64 bytes it never panics.
pub encode_hello-Writes :
    (response : HelloResponse) (revision : ℕ)
    → HelloFits response
    → Writes (encode_hello response revision) (hello_bytes response revision)
unfolding encode_hello
encode_hello-Writes r revision (n, major, minor, version, zone, display, patch) =
    number _ _ _ (omega arith) (
      chars _ _ _ n (
        number _ _ _ major (
          number _ _ _ minor (
            number _ _ _ version (
              Writes-seq _ _ _ _ (optional _ _ _ (Writes-string _ zone)) (
                Writes-seq _ _ _ _ (optional _ _ _ (Writes-string _ display))
                  (optional _ _ _ (Writes-uvarint _ patch))))))))

zeros : Writes (uvarint 0 >> uvarint 0) (0 ∷ 0 ∷ [])
unfolding varint
zeros = number 0 (uvarint 0) (0 ∷ []) (omega arith) (Writes-uvarint 0 (omega arith))

-- A progress report appends its packet number and its three counts, and, from the revision that
-- knows of written rows on, two zeros for them; for counts below 2 ^ 64 it never panics.
pub write_progress-Writes :
    (p : Progress) (revision : ℕ)
    → p.rows < 2 ^ 64
    → p.bytes < 2 ^ 64
    → p.total_rows < 2 ^ 64
    → Writes (write_progress p revision) (
        varint server_progress
        ++ (varint p.rows
            ++ (varint p.bytes
                ++ (varint p.total_rows
                    ++ since min_revision_with_client_write_info revision (0 ∷ 0 ∷ [])))))
unfolding write_progress
write_progress-Writes p revision rows bytes total =
    number _ _ _ (omega arith)
      (number _ _ _ rows (number _ _ _ bytes (number _ _ _ total (optional _ _ _ zeros))))

-- What stands on the wire for an exception without a nested one.
abbrev pub exception_bytes : ℕ → Text → Text → Text → List ℕ
exception_bytes code name message stack_trace =
    varint server_exception
    ++ (le_bytes 4 code
        ++ (text_bytes name ++ (text_bytes message ++ (text_bytes stack_trace ++ (0 ∷ [])))))

-- The texts of an error that the server itself found: what it is about, and the rest in quotes.
abbrev pub quoted : Text → Text → Text
quoted about rest = about ++ (text " error: `" ++ (rest ++ text "`"))

-- An error of the session has its own code, name, message and, if it is asked for, stack trace; any
-- other has the code 1002, the name of its kind and a message that quotes it.
abbrev pub exception_of : Error → Bool → List ℕ
exception_of (server e) trace =
    exception_bytes e.code e.name e.message (if trace then e.stack_trace else [])
exception_of (driver e) trace =
    exception_bytes 1002 (text "DriverException") (quoted (text "Driver") (driver_error_text e)) []
exception_of (io e) trace =
    exception_bytes 1002 (text "IOException") (quoted (text "Input/output") e.message) []
exception_of (connection e) trace =
    exception_bytes 1002 (text "ConnectionException")
      (quoted (text "Connections") (connection_error_text e)) []
exception_of (other_error message) trace =
    exception_bytes 1002 (text "OtherException") (quoted (text "Other") message) []
exception_of (url e) trace =
    exception_bytes 1002 (text "URLException") (quoted (text "URL") (url_error_text e)) []
exception_of (from_sql e) trace =
    exception_bytes 1002 (text "SQLException") (quoted (text "From SQL") (from_sql_error_text e)) []

abbrev pub ErrorFits : Error → Type 0
ErrorFits (server e) =
    (e.code < 2 ^ 32)
    × (length e.name < 2 ^ 64)
    × (length e.message < 2 ^ 64)
    × (length e.stack_trace < 2 ^ 64)
ErrorFits e = length (to_string e) < 2 ^ 64

write_fields :
    (e : Error) (trace : Bool)
    → (exception_parts e trace).code < 2 ^ 32
    → length (exception_name e) < 2 ^ 64
    → length (exception_parts e trace).message < 2 ^ 64
    → length (exception_parts e trace).stack_trace < 2 ^ 64
    → Writes (write_exception e trace) (
        exception_bytes
          (exception_parts e trace).code
          (exception_name e)
          (exception_parts e trace).message
          (exception_parts e trace).stack_trace)
unfolding write_exception
write_fields e trace code name message stack = number _ _ _ (omega arith) (
    Writes-seq _ _ _ _ (Writes-write u32 _ _ (u32_marshal _)) (
      chars _ _ _ name (
        chars _ _ _ message
          (chars _ _ _ stack (Writes-write bool false (0 ∷ []) (unfold bool in refl))))))

-- An exception appends its packet number, a code of four bytes, lowest first, a name, a message, a stack
-- trace, and a zero for no nested exception: those of the error for an error of the session, the stack
-- trace only if it is asked for; and for any other error the code 1002, the name of its kind, a
-- message that quotes it, and no stack trace. Where a code is below 2 ^ 32 and the texts are shorter
-- than 2 ^ 64 it never panics.
pub write_exception-Writes :
    (e : Error) (trace : Bool)
    → ErrorFits e
    → Writes (write_exception e trace) (exception_of e trace)
unfolding exception_parts exception_name to_string
write_exception-Writes (server e) true (code, name, message, stack) =
    write_fields (server e) true code name message stack
write_exception-Writes (server e) false (code, name, message, stack) =
    write_fields (server e) false code name message (omega arith)
write_exception-Writes (driver e) trace h =
    write_fields (driver e) trace (omega arith) (omega arith) h (omega arith)
write_exception-Writes (io e) trace h =
    write_fields (io e) trace (omega arith) (omega arith) h (omega arith)
write_exception-Writes (connection e) trace h =
    write_fields (connection e) trace (omega arith) (omega arith) h (omega arith)
write_exception-Writes (other_error message) trace h =
    write_fields (other_error message) trace (omega arith) (omega arith) h (omega arith)
write_exception-Writes (url e) trace h =
    write_fields (url e) trace (omega arith) (omega arith) h (omega arith)
write_exception-Writes (from_sql e) trace h =
    write_fields (from_sql e) trace (omega arith) (omega arith) h (omega arith)
