-- ===== src/Binary/Encoder.antt =====
-- src/binary/encoder.rs. A method takes the encoder and returns it, or panics.
pub mod Writes
use clickhouse_srv.Common.{ℕ, List, [], ◌++◌, length, take, replicate, leb, if◌then◌else◌}
use clickhouse_srv.Common.Text.{Text}
use clickhouse_srv.Errors.{Outcome, ok, panicked}
use clickhouse_srv.Errors
use clickhouse_srv.Scalar.{Scalar}
use clickhouse_srv.Binary.Uvarint.{put_uvarint}

abbrev pub max_varint_len64 : ℕ
max_varint_len64 = 10

pub record Encoder : Type 0 where
  pub buffer : List ℕ

abbrev pub new_encoder : Encoder
new_encoder = record { buffer = [] }

abbrev pub Encode : Type 0
Encode = Encoder → Outcome Encoder

infixl 5 ◌>>◌
unfoldable pub ◌>>◌ : Encode → Encode → Encode
◌>>◌ f g e = Errors.◌>>=◌ (f e) g

-- A step that writes nothing.
unfoldable pub skip : Encode
skip e = ok e

unfoldable pub write_bytes : List ℕ → Encode
write_bytes b e = ok (record { buffer = e.buffer ++ b })

-- `&scratch[..n]`
slice_to : List ℕ → ℕ → Outcome (List ℕ)
slice_to xs n = if leb n (length xs) then ok (take n xs) else panicked

unfoldable pub uvarint : ℕ → Encode
unfolding slice_to write_bytes
uvarint v e =
    Errors.◌>>=◌ (put_uvarint (replicate max_varint_len64 0) v)
      λ (scratch, ln). Errors.◌>>=◌ (slice_to scratch ln) λ b. write_bytes b e

unfoldable pub byte_string : List ℕ → Encode
unfolding ◌>>◌
byte_string source = do uvarint (length source); write_bytes source

unfoldable pub string : Text → Encode
unfolding byte_string
string text = byte_string text

unfoldable pub write : {V : Type 0} → Scalar V → V → Encode
unfolding write_bytes
write sc value e = Errors.◌>>=◌ (sc.marshal value sc.buffer) λ buffer. write_bytes buffer e
