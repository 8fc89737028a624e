-- ===== src/Block/Compressed.antt =====
-- src/types/block/compressed.rs, and the compressed side of `load` and `write` in
-- src/types/block/mod.rs. LZ4 and CityHash are parameters.
use clickhouse_srv.Common.{
  ℕ, ◌+◌, ◌-◌, ◌%◌, ◌^◌, List, [], ◌∷◌, ◌++◌, length, take, drop, replicate, Bool, true, false, not,
  ◌&&◌, Option, none, some, ltb, ◌==◌, if◌then◌else◌,
}
use clickhouse_srv.Common.Text.{Text, text, decimal}
use clickhouse_srv.Common.Int.{ℤ, of_word}
use clickhouse_srv.Errors.{
  Outcome, ok, err, panicked, diverged, other_error, of_io_error, to_io_error,
}
use clickhouse_srv.Errors
use clickhouse_srv.Scalar.{u8, u32, u64}
use clickhouse_srv.Scalar.Bytes.{le_bytes}
use clickhouse_srv.Binary.Reader.{Reader, Read, pure, raise, ◌>>=◌}
use clickhouse_srv.Binary.ReadEx.{read_bytes, read_scalar}
use clickhouse_srv.Binary.Encoder.{Encode, new_encoder, write_bytes, write}
use clickhouse_srv.Protocols.Hello.{is_empty}
use clickhouse_srv.Column.Branch.{TypeParsers}
use clickhouse_srv.Block.Data.{Block, raw_load, write_plain}

-- The functions of the `lz4` and `clickhouse_rs_cityhash_sys` crates, with the sizes as the 32-bit
-- integers that they take: `compress` the bytes at the pointer, their number and the room for the
-- output, and gives what it wrote, nothing where it fails; `decompress` the bytes at the pointer,
-- their number and the room for the output, and gives what it wrote, none for a negative status.
pub record Codec : Type 0 where
  pub city_hash_128 : List ℕ → ℕ × ℕ
  pub compress_bound : ℤ → ℕ
  pub compress : List ℕ → ℤ → ℤ → List ℕ
  pub decompress : List ℕ → ℤ → ℤ → Option (List ℕ)

-- `as i32` and `as c_int`
unfoldable pub c_int : ℕ → ℤ
c_int n = of_word (2 ^ 31) (n % 2 ^ 32)

abbrev pub dbms_max_compressed_size : ℕ
dbms_max_compressed_size = 0x40000000

-- The method, and the sizes with and without compression.
unfoldable pub frame_header : ℕ → ℕ → List ℕ
frame_header compressed original =
    0x82 ∷ le_bytes 4 (compressed % 2 ^ 32) ++ le_bytes 4 (original % 2 ^ 32)

-- `CompressedReader`: the reader below, and what its cursor has left.
pub record CompressedReader (S : Type 0) : Type 0 where
  pub reader : S
  pub left : List ℕ

module _ (codec : Codec) where
  -- The buffer that was filled, against its hash.
  unfoldable pub checked : {S : Type 0} → ℕ × ℕ → ℕ → ℕ → List ℕ → Reader S (List ℕ)
  unfolding c_int
  checked (lo, hi) compressed original body =
      let buffer = frame_header compressed original ++ body in
      let (lo', hi') = codec.city_hash_128 buffer in
      if not (lo == lo' && hi == hi')
      then raise (other_error (text "data was corrupted"))
      else elim (codec.decompress body (c_int (2 ^ 32 + compressed - 9)) (c_int original)) [
        | none ↦ raise (other_error (text "can't decompress data"))
        | some data' ↦ pure (take original (data' ++ replicate original 0))
      ]

  module _ {S : Type 0} ⦃r : Read S⦄ where
    unfoldable pub decompress_buffer : Reader S (List ℕ)
    unfolding checked
    decompress_buffer = do
      lo ← read_scalar u64
      hi ← read_scalar u64
      method ← read_scalar u8
      if not (method == 0x82)
          then raise (other_error (text "unsupported compression method " ++ decimal method))
          else do
            compressed ← read_scalar u32
            original ← read_scalar u32
            if ltb dbms_max_compressed_size compressed
                then raise (other_error (text "compressed data too big"))
                else do
                  body ← read_bytes (compressed - 9)
                  checked (lo, hi) compressed original body

    -- `fill`, and `?` in a function that returns an `io::Result`.
    unfoldable pub filled : Outcome (List ℕ × S) → Outcome (CompressedReader S)
    filled (ok (data', s)) = ok (record { reader = s; left = data' })
    filled (err e) = err (of_io_error (to_io_error e))
    filled panicked = panicked
    filled diverged = diverged

    unfoldable pub take_left : ℕ → Reader (CompressedReader S) (List ℕ)
    take_left n cr = ok (take n cr.left, record cr { left = drop n cr.left })

    unfoldable pub compressed_read : ℕ → Reader (CompressedReader S) (List ℕ)
    unfolding decompress_buffer filled take_left
    compressed_read n cr =
        if is_empty cr.left
        then Errors.◌>>=◌ (filled (decompress_buffer cr.reader)) (take_left n)
        else take_left n cr

    unfoldable pub make : S → CompressedReader S
    make reader = record { reader = reader; left = [] }

    abbrev pub compressed : Read (CompressedReader S)
    compressed = record { read = compressed_read }

    -- `Block::load`: what the compressed reader has left is dropped.
    unfoldable pub below : {A : Type 0} → Outcome (A × CompressedReader S) → Outcome (A × S)
    below (ok (a, cr)) = ok (a, cr.reader)
    below (err e) = err e
    below panicked = panicked
    below diverged = diverged

    unfoldable pub load : TypeParsers → Text → Bool → Reader S Block
    unfolding make below compressed_read
    load parsers tz true s = below (raw_load ⦃r = compressed⦄ parsers tz (make s))
    load parsers tz false s = raw_load parsers tz s

  -- What `LZ4_compress_default` writes behind the header of nine bytes.
  unfoldable pub compressed_bytes : List ℕ → List ℕ
  unfolding c_int
  compressed_bytes tmp =
      let size = c_int (length tmp) in
      codec.compress tmp size (c_int (9 + codec.compress_bound size))

  -- The frame of a block, behind its hash.
  unfoldable pub write_frame : List ℕ → Encode
  unfolding frame_header compressed_bytes
  write_frame tmp e =
      let body = compressed_bytes tmp in
      let buf = frame_header (9 + length body) (length tmp) ++ body in
      let (lo, hi) = codec.city_hash_128 buf in
      Errors.◌>>=◌ (write u64 lo e) λ e. Errors.◌>>=◌ (write u64 hi e) λ e. write_bytes buf e

  -- `Block::write`
  unfoldable pub write_block : Block → Bool → Encode
  unfolding write_frame
  write_block block true e =
      Errors.◌>>=◌ (write_plain block new_encoder) λ tmp. write_frame tmp.buffer e
  write_block block false e = write_plain block e
