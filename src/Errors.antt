-- ===== src/Errors.antt =====
-- src/errors.rs: the error types, their texts, and `Result` with the panics of the language.
pub mod Utf8
pub mod Index
use clickhouse_srv.Common.{ℕ, ◌++◌, Bool, true, false, Option, none, some}
use clickhouse_srv.Common.Text.{Text, text, decimal, hexadecimal}

-- `io::ErrorKind`: the two kinds that the code makes, and those that a socket reports.
pub data ErrorKind : Type 0 where
  would_block other : ErrorKind
  system : ℕ → ErrorKind

-- `io::Error`, by its kind and the text that it displays.
pub record IoError : Type 0 where
  pub kind : ErrorKind
  pub message : Text

-- `str::Utf8Error`; `error_len` is missing where the input ends inside a character.
pub record Utf8Error : Type 0 where
  pub valid_up_to : ℕ
  pub error_len : Option ℕ

pub record ServerError : Type 0 where
  pub code : ℕ
  pub name : Text
  pub message : Text
  pub stack_trace : Text

pub data ConnectionError : Type 0 where
  tls_host_not_provided : ConnectionError
  io_error : IoError → ConnectionError

-- The error of the `url` crate is the text that it displays.
pub data UrlError : Type 0 where
  invalid : UrlError
  invalid_param_value : Text → Text → UrlError
  url_parse : Text → UrlError
  unknown_parameter : Text → UrlError
  unsupported_scheme : Text → UrlError

pub data DriverError : Type 0 where
  overflow : DriverError
  unknown_packet : ℕ → DriverError
  unexpected_packet : DriverError
  timeout : DriverError
  utf8_error : Utf8Error → DriverError
  unknown_setting : Text → DriverError

pub data FromSqlError : Type 0 where
  invalid_type : Text → Text → FromSqlError
  out_of_range : FromSqlError
  unsupported_operation : FromSqlError

pub data Error : Type 0 where
  driver : DriverError → Error
  io : IoError → Error
  connection : ConnectionError → Error
  other_error : Text → Error
  server : ServerError → Error
  url : UrlError → Error
  from_sql : FromSqlError → Error

-- What a call ends with: a value, an error, a panic, or rounds of a loop beyond the bound, which is also
-- what a wait that does not end has.
pub data Outcome {ℓ} (A : Type ℓ) : Type ℓ where
  ok : A → Outcome A
  err : Error → Outcome A
  panicked diverged : Outcome A

infixl 5 ◌>>=◌
abbrev pub ◌>>=◌ {ℓ κ} : {A : Type ℓ} {B : Type κ} → Outcome A → (A → Outcome B) → Outcome B
ok a >>= f = f a
err e >>= f = err e
panicked >>= f = panicked
diverged >>= f = diverged

is_would_block_kind : ErrorKind → Bool
is_would_block_kind would_block = true
is_would_block_kind other = false
is_would_block_kind (system n) = false

unfoldable pub is_would_block : Error → Bool
unfolding is_would_block_kind
is_would_block (io e) = is_would_block_kind e.kind
is_would_block _ = false

-- The texts of `Display`.
pub utf8_error_text : Utf8Error → Text
utf8_error_text e = elim e.error_len [
  | none ↦ text "incomplete utf-8 byte sequence from index " ++ decimal e.valid_up_to
  | some n ↦
      text "invalid utf-8 sequence of "
      ++ (decimal n ++ (text " bytes from index " ++ decimal e.valid_up_to))
]

server_error_text : ServerError → Text
server_error_text e =
    text "ERROR " ++ (e.name ++ (text " (" ++ (decimal e.code ++ (text "): " ++ e.message))))

pub connection_error_text : ConnectionError → Text
connection_error_text tls_host_not_provided = text "TLS connection requires hostname to be provided"
connection_error_text (io_error e) = text "Input/output error: `" ++ (e.message ++ text "`")

pub url_error_text : UrlError → Text
url_error_text invalid = text "Invalid or incomplete connection URL"
url_error_text (invalid_param_value param value) =
    text "Invalid value `"
    ++ (value ++ (text "' for connection URL parameter `" ++ (param ++ text "'")))
url_error_text (url_parse e) = text "URL parse error: " ++ e
url_error_text (unknown_parameter param) =
    text "Unknown connection URL parameter `" ++ (param ++ text "'")
url_error_text (unsupported_scheme scheme) =
    text "Unsupported connection URL scheme `" ++ (scheme ++ text "'")

pub driver_error_text : DriverError → Text
unfolding utf8_error_text
driver_error_text overflow = text "Varint overflows a 64-bit integer."
driver_error_text (unknown_packet packet) =
    text "Unknown packet 0x" ++ (hexadecimal packet ++ text ".")
driver_error_text unexpected_packet = text "Unexpected packet."
driver_error_text timeout = text "Timeout error."
driver_error_text (utf8_error e) = text "Invalid utf-8 sequence."
driver_error_text (unknown_setting name) = text "UnknownSetting name " ++ name

pub from_sql_error_text : FromSqlError → Text
from_sql_error_text (invalid_type src dst) =
    text "SqlType::" ++ (src ++ (text " cannot be cast to " ++ (dst ++ text ".")))
from_sql_error_text out_of_range = text "Out of range."
from_sql_error_text unsupported_operation = text "Unsupported operation."

unfoldable pub to_string : Error → Text
unfolding server_error_text connection_error_text url_error_text driver_error_text
    from_sql_error_text
to_string (driver e) = text "Driver error: `" ++ (driver_error_text e ++ text "`")
to_string (io e) = text "Input/output error: `" ++ (e.message ++ text "`")
to_string (connection e) = text "Connections error: `" ++ (connection_error_text e ++ text "`")
to_string (other_error message) = text "Other error: `" ++ (message ++ text "`")
to_string (server e) = text "Server error: `" ++ (server_error_text e ++ text "`")
to_string (url e) = text "URL error: `" ++ (url_error_text e ++ text "`")
to_string (from_sql e) = text "From SQL error: `" ++ (from_sql_error_text e ++ text "`")

-- `From<Error> for io::Error`.
unfoldable pub to_io_error : Error → IoError
to_io_error (io e) = e
to_io_error e = record { kind = other; message = to_string e }

-- `From<io::Error> for Error`.
unfoldable pub of_io_error : IoError → Error
of_io_error e = io e

-- `From<FromUtf8Error> for Error`.
unfoldable pub of_utf8_error : Utf8Error → Error
of_utf8_error e = other_error (utf8_error_text e)

unfoldable pub exception_name : Error → Text
exception_name (driver e) = text "DriverException"
exception_name (io e) = text "IOException"
exception_name (connection e) = text "ConnectionException"
exception_name (other_error e) = text "OtherException"
exception_name (server e) = e.name
exception_name (url e) = text "URLException"
exception_name (from_sql e) = text "SQLException"
