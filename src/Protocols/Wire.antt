-- ===== src/Protocols/Wire.antt =====
-- The greeting of src/protocols/protocol_hello.rs as it stands on the wire.
use clickhouse_srv.Common.{ℕ, ◌^◌, ◌<◌, List, [], ◌++◌, Bool, true, false, if◌then◌else◌}
use clickhouse_srv.Errors.{Outcome, ok, err}
use clickhouse_srv.Binary.Reader.{Reader}
use clickhouse_srv.Binary.Cursor.{cursor, Cursor}
use clickhouse_srv.Binary.Varint.{varint}
use clickhouse_srv.Binary.RoundTrip.{text_bytes}
use clickhouse_srv.Binary.Gives.{Gives, Gives-pure, Gives-raise, Readable, number_then, text_then}
use clickhouse_srv.Protocols.Hello.{HelloRequest, is_empty, no_user_error, read_hello}

abbrev pub hello_wire : HelloRequest → List ℕ
hello_wire r =
    text_bytes r.client_name
    ++ (varint r.client_version_major
        ++ (varint r.client_version_minor
            ++ (varint r.client_revision
                ++ (text_bytes r.default_database
                    ++ (text_bytes r.user ++ (text_bytes r.password ++ []))))))

abbrev pub HelloReadable : HelloRequest → Type 0
HelloReadable r =
    Readable r.client_name
    × (r.client_version_major < 2 ^ 64)
    × (r.client_version_minor < 2 ^ 64)
    × (r.client_revision < 2 ^ 64)
    × Readable r.default_database
    × Readable r.user
    × Readable r.password

-- An `if` whose branches take nothing more.
if_same :
    {A : Type 0} (b : Bool) {p q : Reader Cursor A} {o o' : Outcome A}
    → Gives p [] o
    → Gives q [] o'
    → Gives (if b then p else q) [] (if b then o else o')
if_same true gp gq = gp
if_same false gp gq = gq

-- A greeting whose numbers are below 2 ^ 64 and whose texts are readable is read off its bytes
-- field by field, whatever follows them, with a patch level of zero, which is not on the wire;
-- without a user name it is refused.
pub read_hello-hello_wire :
    (r : HelloRequest)
    → HelloReadable r
    → Gives read_hello
        (hello_wire r)
        (if is_empty r.user then err no_user_error else ok (record r { client_version_patch = 0 }))
unfolding read_hello
read_hello-hello_wire r (name, major, minor, revision, database, user, password) =
    text_then _ _ _ _ name (
      number_then _ _ _ _ major (
        number_then _ _ _ _ minor (
          number_then _ _ _ _ revision (
            text_then _ _ _ _ database (
              text_then _ _ _ _ user
                (text_then _ _ _ _ password (if_same _ (Gives-raise _) (Gives-pure _))))))))
