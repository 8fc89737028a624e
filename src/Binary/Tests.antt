-- ===== src/Binary/Tests.antt =====
-- Runs of the codecs of src/binary; the first two are the tests of the source.
use clickhouse_srv.Common.{ℕ, ◌≡◌, refl, List, [], ◌∷◌, ◌++◌, replicate, drop, length, arith}
use clickhouse_srv.Errors.Utf8.{utf8_fault}
use clickhouse_srv.Binary.Varint.{varint}
use clickhouse_srv.Binary.Uvarint.Writes.{put_uvarint-varint}
use clickhouse_srv.Binary.RoundTrip.{read_uvarint-varint, text_bytes, read_string-text_bytes}
use clickhouse_srv.Binary.Bounds.{ReadsWord, read_uvarint-ReadsWord, read_uvarint_overlong}
use clickhouse_srv.Errors.{ok}
use clickhouse_srv.Scalar.{u8}
use clickhouse_srv.Binary.Reader.{◌>>=◌}
use clickhouse_srv.Binary.ReadEx.{
  read_string, read_uvarint, read_uvarint_loop, read_scalar, read_bytes, read_bytes_loop,
  shift_left,
}
use clickhouse_srv.Binary.Cursor.{cursor, cursor_read}
use clickhouse_srv.Binary.Uvarint.{put_uvarint}

put_uvarint_test :
    put_uvarint (replicate 10 0) 100_500 ≡ ok (148 ∷ 145 ∷ 6 ∷ 0 ∷ 0 ∷ 0 ∷ 0 ∷ 0 ∷ 0 ∷ 0 ∷ [], 3)
unfolding put_uvarint
put_uvarint_test = refl

read_uvarint_test : read_uvarint {S = List ℕ} (194 ∷ 10 ∷ []) ≡ ok (1346, [])
unfolding read_uvarint read_uvarint_loop read_scalar read_bytes read_bytes_loop ◌>>=◌ cursor_read
    shift_left u8
read_uvarint_test = refl

-- Concrete applications of the theorems.
read_uvarint-varint_example : read_uvarint (varint 1346 ++ (9 ∷ [])) ≡ ok (1346, 9 ∷ [])
read_uvarint-varint_example = read_uvarint-varint 1346 (9 ∷ []) (omega arith)

put_uvarint-varint_example :
    put_uvarint (replicate 10 0) 300
    ≡ ok (varint 300 ++ drop (length (varint 300)) (replicate 10 0), length (varint 300))
put_uvarint-varint_example = put_uvarint-varint 300 (omega arith)

read_string-text_bytes_example :
    read_string (text_bytes (0x68 ∷ 0xc3 ∷ 0xa9 ∷ []) ++ (7 ∷ []))
    ≡ ok (0x68 ∷ 0xc3 ∷ 0xa9 ∷ [], 7 ∷ [])
unfolding utf8_fault
read_string-text_bytes_example =
    read_string-text_bytes (0x68 ∷ 0xc3 ∷ 0xa9 ∷ []) (7 ∷ []) (omega arith) refl

read_uvarint-ReadsWord_example :
    ReadsWord (0x80 ∷ 0x80 ∷ 1 ∷ []) (read_uvarint (0x80 ∷ 0x80 ∷ 1 ∷ []))
read_uvarint-ReadsWord_example = read_uvarint-ReadsWord (0x80 ∷ 0x80 ∷ 1 ∷ []) (omega arith)

read_uvarint_overlong_example :
    read_uvarint {S = List ℕ} (replicate 10 0x80 ++ 1 ∷ []) ≡ ok (64, [])
read_uvarint_overlong_example = read_uvarint_overlong 1 [] (omega arith)
