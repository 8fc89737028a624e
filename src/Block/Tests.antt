-- ===== src/Block/Tests.antt =====
-- Runs of src/types/block on concrete blocks.
use clickhouse_srv.Common.{ℕ, ◌≡◌, refl, ap, take_all, List, [], ◌∷◌, take, some, true, arith}
use clickhouse_srv.Common.Text.{text}
use clickhouse_srv.Common.Int.{ℤ, pos, negsuc}
use clickhouse_srv.Errors.{ok}
use clickhouse_srv.Errors.Utf8.{utf8_fault}
use clickhouse_srv.Binary.Cursor.{cursor, cursor_extension, read_bytes-Framed}
use clickhouse_srv.Binary.Framing.{Framed}
use clickhouse_srv.Binary.Gives.{Gives}
use clickhouse_srv.Binary.Encoder.{new_encoder, uvarint, string, byte_string, write_bytes}
use clickhouse_srv.Binary.Encoder
use clickhouse_srv.Binary.Uvarint.{put_uvarint}
use clickhouse_srv.Binary.Encoder.Writes.{Writes}
use clickhouse_srv.Scalar.{p_u16, u16, i32, bool}
use clickhouse_srv.Scalar.Bytes.{le_bytes}
use clickhouse_srv.Errors.Index.{slice}
use clickhouse_srv.Column.Memory.{mem_len, save_data}
use clickhouse_srv.Types.SqlType.{uint16, to_string}
use clickhouse_srv.Types.SqlType as Types
use clickhouse_srv.Column.Data.{vector_column, len, sql_type, save}
use clickhouse_srv.Column.StoredTests.{parsers}
use clickhouse_srv.Block.Info.{read, write, default_info, read-write}
use clickhouse_srv.Block.Chunks.{Pieces, chunks-Pieces}
use clickhouse_srv.Block.Data.{
  Block, chunks, row_count, raw_load, write_plain, write_columns, write_column,
}
use clickhouse_srv.Block.Compressed.{Codec, compressed_bytes, load, write_block}
use clickhouse_srv.Block.Framing.{load-Framed}
use clickhouse_srv.Block.RoundTrip.{StoredBlock, SameBlock, raw_load-write_plain}
use clickhouse_srv.Block.CompressedTrip.{LawfulCodec, load-write_block}

read-write_example :
    (bs : List ℕ) × Writes (write default_info) bs
    × Gives read bs (ok (record default_info { num1 = 1; num2 = 2; num3 = 0 }))
read-write_example = read-write default_info (omega arith)

-- A column of two numbers.
abbrev pub numbers_block : Block
numbers_block = record {
  info = default_info;
  columns = record { name = text "n"; values = vector_column p_u16 (1 ∷ 0 ∷ 2 ∷ 0 ∷ []) } ∷ [];
  capacity = 2;
}

stored : StoredBlock parsers 2 numbers_block
unfolding Types.sql_type u16 row_count len sql_type utf8_fault to_string
stored = (
  omega arith,
  omega arith,
  omega arith,
  refl,
  (((omega arith, refl), (uint16, refl, refl, omega arith), uint16, refl, (omega arith, refl)), tt),
)

raw_load-write_plain_example :
    (bs : List ℕ) × Writes (write_plain numbers_block) bs
    × (block' : Block) × Gives (raw_load parsers (text "UTC")) bs (ok block')
    × SameBlock (text "UTC") numbers_block block'
raw_load-write_plain_example = raw_load-write_plain parsers (text "UTC") 2 numbers_block stored

-- What is compressed is as it was, and every hash is zero.
abbrev natural : ℤ → ℕ
natural (pos n) = n
natural (negsuc n) = 0

abbrev pub codec : Codec
codec = record {
  city_hash_128 = λ bs. (0, 0);
  compress_bound = natural;
  compress = λ bs size room. bs;
  decompress = λ bs size original. some (take (natural size) bs);
}

abbrev plain : List ℕ
plain =
    1 ∷ 0 ∷ 2 ∷ 255 ∷ 255 ∷ 255 ∷ 255 ∷ 0 ∷ 1 ∷ 2 ∷ 1 ∷ 110 ∷ 6 ∷ 85 ∷ 73 ∷ 110 ∷ 116 ∷ 49 ∷ 54 ∷ 1
    ∷ 0 ∷ 2 ∷ 0 ∷ []

written : write_plain numbers_block new_encoder ≡ ok (record { buffer = plain })
unfolding write_plain write_columns write_column row_count len mem_len save save_data sql_type
    Types.sql_type u16 i32 bool write uvarint string byte_string Encoder.write write_bytes
    put_uvarint to_string slice le_bytes Encoder.skip Encoder.◌>>◌
written = refl

codec_law : LawfulCodec codec
codec_law = record {
  hash_lo = λ bs. omega arith;
  hash_hi = λ bs. omega arith;
  bound_ample = λ n fits. omega arith;
  decompress-compress = λ bs room fits ample small. ap some (take_all bs);
}

load-write_block_example :
    (bs : List ℕ) × Writes (write_block codec numbers_block true) bs
    × (block' : Block) × Gives (load codec parsers (text "UTC") true) bs (ok block')
    × SameBlock (text "UTC") numbers_block block'
unfolding compressed_bytes
load-write_block_example =
    load-write_block codec parsers (text "UTC") 2 numbers_block plain codec_law stored written
      (omega arith) (omega arith)

load-Framed_example : Framed cursor_extension (load codec parsers (text "UTC") true)
load-Framed_example = load-Framed codec cursor_extension read_bytes-Framed parsers (text "UTC") true

abbrev three_rows : Block
three_rows = record numbers_block {
  columns =
      record { name = text "n"; values = vector_column p_u16 (1 ∷ 0 ∷ 2 ∷ 0 ∷ 3 ∷ 0 ∷ []) } ∷ [];
}

three_rows-row_count : row_count three_rows.columns ≡ ok 3
unfolding row_count len mem_len u16
three_rows-row_count = refl

-- Three rows in chunks of two.
chunks-Pieces_example :
    (blocks : List Block) × (chunks 2 three_rows ≡ ok blocks)
    × Pieces three_rows.columns 2 0 3 blocks
chunks-Pieces_example =
    chunks-Pieces 2 3 three_rows (omega arith) (omega arith) three_rows-row_count
