-- ===== src/Block/Info.antt =====
-- src/types/block/block_info.rs
use clickhouse_srv.Common.{ℕ, ◌^◌, ◌<◌, List, [], Bool, false, arith, append-nil}
use mathlib.Core.Path.{subst}
use clickhouse_srv.Common.Int.{ℤ, negsuc, InRange}
use clickhouse_srv.Errors.{ok}
use clickhouse_srv.Scalar.{p_i32, p_bool, i32, bool}
use clickhouse_srv.Scalar.RoundTrip.{ReadsBack, unmarshal-marshal}
use clickhouse_srv.Binary.Varint.{varint}
use clickhouse_srv.Binary.Cursor.{cursor}
use clickhouse_srv.Binary.Reader.{Reader, Read, pure, ◌>>=◌}
use clickhouse_srv.Binary.ReadEx.{read_uvarint, read_scalar}
use clickhouse_srv.Binary.Gives.{
  Gives, Gives-pure, Gives-bind, Gives-scalar, Gives-uvarint, number_then,
}
use clickhouse_srv.Binary.Encoder.{Encode, ◌>>◌, uvarint}
use clickhouse_srv.Binary.Encoder
use clickhouse_srv.Binary.Encoder.Writes.{Writes, Writes-seq, Writes-uvarint, Writes-write}

pub record BlockInfo : Type 0 where
  pub num1 : ℕ
  pub is_overflows : Bool
  pub num2 : ℕ
  pub bucket_num : ℤ
  pub num3 : ℕ

-- `Default::default()`
abbrev pub default_info : BlockInfo
default_info = record { num1 = 0; is_overflows = false; num2 = 0; bucket_num = negsuc 0; num3 = 0 }

unfoldable pub read : {S : Type 0} ⦃r : Read S⦄ → Reader S BlockInfo
read = do
  num1 ← read_uvarint
  is_overflows ← read_scalar bool
  num2 ← read_uvarint
  bucket_num ← read_scalar i32
  num3 ← read_uvarint
  pure (record {
    num1 = num1;
    is_overflows = is_overflows;
    num2 = num2;
    bucket_num = bucket_num;
    num3 = num3;
  })

unfoldable pub write : BlockInfo → Encode
write info = do
  uvarint 1
  Encoder.write bool info.is_overflows
  uvarint 2
  Encoder.write i32 info.bucket_num
  uvarint 0

-- A number that is the last to be read.
number_last :
    {A : Type 0} (v : ℕ) (f : ℕ → A)
    → v < 2 ^ 64
    → Gives (read_uvarint >>= λ n. pure (f n)) (varint v) (ok (f v))
number_last v f h =
    subst (λ (bs : List ℕ). Gives (read_uvarint >>= λ n. pure (f n)) bs (ok (f v)))
      (append-nil (varint v)) (number_then v (λ n. pure (f n)) [] (ok (f v)) h (Gives-pure (f v)))

-- What `write` writes for the information of a block with a 32-bit bucket `read` gives back, whatever
-- follows it, with the numbers of the two fields and of the end in `num1`, `num2` and `num3`.
pub read-write :
    (info : BlockInfo)
    → InRange (2 ^ 31) info.bucket_num
    → (bs : List ℕ) × Writes (write info) bs
      × Gives read bs (ok (record info { num1 = 1; num2 = 2; num3 = 0 }))
unfolding read write
read-write info h =
    joined (unmarshal-marshal p_bool info.is_overflows tt)
      (unmarshal-marshal p_i32 info.bucket_num h)
  where
    joined :
        ReadsBack bool info.is_overflows
        → ReadsBack i32 info.bucket_num
        → (bs : List ℕ) × Writes (write info) bs
          × Gives read bs (ok (record info { num1 = 1; num2 = 2; num3 = 0 }))
    joined (flag, wrote_flag, flag_size, flag_back)
          (bucket, wrote_bucket, bucket_size, bucket_back) =
        (
          _,
          Writes-seq _ _ _ _ (Writes-uvarint 1 (omega arith)) (
              Writes-seq _ _ _ _ (Writes-write bool _ flag wrote_flag) (
                Writes-seq _ _ _ _ (Writes-uvarint 2 (omega arith)) (
                  Writes-seq _ _ _ _ (Writes-write i32 _ bucket wrote_bucket)
                    (Writes-uvarint 0 (omega arith))))),
          Gives-bind _ _ _ _ _ _ (Gives-uvarint 1 (omega arith)) (
              Gives-bind _ _ _ _ _ _ (Gives-scalar bool _ flag flag_size flag_back) (
                Gives-bind _ _ _ _ _ _ (Gives-uvarint 2 (omega arith)) (
                  Gives-bind _ _ _ _ _ _ (Gives-scalar i32 _ bucket bucket_size bucket_back)
                    (number_last 0 _ (omega arith))))),
        )
