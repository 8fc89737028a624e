-- ===== src/Block/CompressedTrip.antt =====
-- A block that is written compressed is loaded again.
use clickhouse_srv.Common.{
  ℕ, ◌+◌, ◌-◌, ◌/◌, ◌%◌, ◌^◌, ◌≤◌, ◌<◌, ◌≡◌, refl, sym, ap, ◌∙◌, List, [], ◌∷◌, ◌++◌, length,
  replicate, true, false, some, arith, append_assoc, append-nil, ltb, eq→==, le→ltb-false, lt→ltb,
  take_front, if◌then◌else◌,
}
use mathlib.Core.Path.{subst}
use native.Mathlib.Nat.{mod-eq_of_lt}
use clickhouse_srv.Common.Text.{Text, text}
use clickhouse_srv.Common.Int.{ℤ, pos, of_word}
use clickhouse_srv.Errors.{Outcome, ok, err, other_error}
use clickhouse_srv.Scalar.{load, u8, u32, u64}
use clickhouse_srv.Scalar.Bytes.{le_bytes, length-le_bytes, of_le_bytes-le_bytes}
use clickhouse_srv.Scalar.RoundTrip.{u32_unmarshal, u64_marshal, u64_unmarshal}
use clickhouse_srv.Binary.Reader.{raise, continue, ◌>>=◌}
use clickhouse_srv.Binary.ReadEx.{read_bytes, read_scalar, would_block_error}
use clickhouse_srv.Binary.Cursor.{cursor, Cursor, read_bytes-short}
use clickhouse_srv.Binary.Gives.{Gives, Gives-bind, Gives-pure, Gives-scalar, Gives-read_bytes}
use clickhouse_srv.Binary.Encoder.{Encoder, new_encoder}
use clickhouse_srv.Binary.Encoder.Writes.{Writes, Writes-write, Writes-write_bytes}
use clickhouse_srv.Protocols.Hello.{is_empty}
use clickhouse_srv.Column.Branch.{TypeParsers}
use clickhouse_srv.Block.Data.{Block, raw_load, write_plain}
use clickhouse_srv.Block.Compressed.{
  Codec, c_int, compressed_bytes, dbms_max_compressed_size, frame_header, checked,
  decompress_buffer, compressed, make, below, write_frame, write_block,
}
use clickhouse_srv.Block.Compressed as Blocks
use clickhouse_srv.Block.Mirrors.Load.{Mirrors-raw_load}
use clickhouse_srv.Block.Begins.{Begins-raw_load, raw_load-frame}
use clickhouse_srv.Block.RoundTrip.{StoredBlock, SameBlock, raw_load-write_plain}

-- `LZ4_MAX_INPUT_SIZE`
abbrev pub lz4_max_input_size : ℕ
lz4_max_input_size = 0x7E000000

-- Hashes are pairs of words; and for an input that is not too long, and room for at least the bound that
-- LZ4 gives for its length, what was compressed is decompressed again.
pub record LawfulCodec (codec : Codec) : Type 0 where
  pub hash_lo : (bs : List ℕ) → (codec.city_hash_128 bs).0 < 2 ^ 64
  pub hash_hi : (bs : List ℕ) → (codec.city_hash_128 bs).1 < 2 ^ 64
  pub bound_ample :
      (n : ℕ) → n ≤ lz4_max_input_size → codec.compress_bound (pos n) ≤ n + n / 255 + 16
  pub decompress-compress :
      (bs : List ℕ) (room : ℕ)
      → length bs ≤ lz4_max_input_size
      → codec.compress_bound (pos (length bs)) ≤ room
      → room < 2 ^ 31
      → let out = codec.compress bs (pos (length bs)) (pos room) in
        codec.decompress out (pos (length out)) (pos (length bs)) ≡ some bs

-- Numbers that fit are themselves.
c_int-small : (n : ℕ) → n < 2 ^ 31 → c_int n ≡ pos n
unfolding c_int of_word
c_int-small n h =
    let word : n % 2 ^ 32 ≡ n = mod-eq_of_lt (omega arith) in rw (word, lt→ltb n (2 ^ 31) h)

c_int-wrapped : (n : ℕ) → n < 2 ^ 31 → c_int (2 ^ 32 + (9 + n) - 9) ≡ pos n
unfolding c_int of_word
c_int-wrapped n h =
    let word : (2 ^ 32 + (9 + n) - 9) % 2 ^ 32 ≡ n = omega arith in rw (word, lt→ltb n (2 ^ 31) h)

-- Words are read from their bytes.
Gives-u64 : (v : ℕ) → v < 2 ^ 64 → Gives (read_scalar u64) (le_bytes 8 v) (ok v)
unfolding u64
Gives-u64 v h =
    Gives-scalar u64 v (le_bytes 8 v) (length-le_bytes 8 v)
      (u64_unmarshal v ∙ ap ok (of_le_bytes-le_bytes 8 v h))

Gives-u32 : (v : ℕ) → v < 2 ^ 32 → Gives (read_scalar u32) (le_bytes 4 v) (ok v)
unfolding u32
Gives-u32 v h =
    Gives-scalar u32 v (le_bytes 4 v) (length-le_bytes 4 v)
      (u32_unmarshal v ∙ ap ok (of_le_bytes-le_bytes 4 v h))

Gives-method : Gives (read_scalar u8) (0x82 ∷ []) (ok 0x82)
unfolding u8 load
Gives-method = Gives-scalar u8 0x82 (0x82 ∷ []) refl refl

module _ (codec : Codec) (plain : List ℕ) where
  abbrev body : List ℕ
  body = compressed_bytes codec plain

  abbrev size : ℕ
  size = 9 + length (compressed_bytes codec plain)

  -- The frame behind its hash, and the hash.
  abbrev buf : List ℕ
  buf =
      frame_header (9 + length (compressed_bytes codec plain)) (length plain)
      ++ compressed_bytes codec plain

  abbrev lo : ℕ
  lo = (codec.city_hash_128 buf).0

  abbrev hi : ℕ
  hi = (codec.city_hash_128 buf).1

  abbrev pub frame : List ℕ
  frame = le_bytes 8 lo ++ (le_bytes 8 hi ++ buf)

module _ (codec : Codec) (law : LawfulCodec codec) (plain : List ℕ)
    (fits : 9 + length (compressed_bytes codec plain) ≤ dbms_max_compressed_size)
    (small : length plain ≤ lz4_max_input_size) where
  compressed_with_room :
      compressed_bytes codec plain
      ≡ codec.compress plain
          (pos (length plain))
          (pos (9 + codec.compress_bound (pos (length plain))))
  unfolding compressed_bytes
  compressed_with_room =
      ap (λ (size : ℤ). codec.compress plain size (c_int (9 + codec.compress_bound size)))
        (c_int-small (length plain) (omega arith))
      ∙ ap (codec.compress plain (pos (length plain))) (
          c_int-small (9 + codec.compress_bound (pos (length plain)))
            (omega (arith, law.bound_ample (length plain) small)))

  gives_back :
      codec.decompress
        (compressed_bytes codec plain)
        (c_int (2 ^ 32 + (9 + length (compressed_bytes codec plain)) - 9))
        (c_int (length plain))
      ≡ some plain
  gives_back =
      rw
        (
          c_int-wrapped (length (compressed_bytes codec plain)) (omega arith),
          c_int-small (length plain) (omega arith),
        )
        (subst
          (λ (out : List ℕ).
            codec.decompress out (pos (length out)) (pos (length plain)) ≡ some plain)
          (sym compressed_with_room)
          (law.decompress-compress plain (9 + codec.compress_bound (pos (length plain))) small
            (omega arith) (omega (arith, law.bound_ample (length plain) small))))

  Gives-checked :
      Gives
        (checked codec {S = Cursor}
          (lo codec plain, hi codec plain)
          (size codec plain)
          (length plain)
          (body codec plain))
        []
        (ok plain)
  unfolding checked
  Gives-checked =
      rw
        (
          eq→== (lo codec plain) (lo codec plain) refl,
          eq→== (hi codec plain) (hi codec plain) refl,
          gives_back,
        )
        (rw (take_front (length plain) plain (replicate (length plain) 0) refl) (Gives-pure plain))

  -- What stands behind the method: the sizes and the compressed bytes.
  Gives-sizes :
      Gives
        (read_scalar u32 >>= λ compressed. read_scalar u32 >>= λ original.
          if ltb dbms_max_compressed_size compressed
          then raise (other_error (text "compressed data too big"))
          else read_bytes (compressed - 9)
            >>= checked codec (lo codec plain, hi codec plain) compressed original)
        ((le_bytes 4 (size codec plain % 2 ^ 32) ++ le_bytes 4 (length plain % 2 ^ 32))
          ++ body codec plain)
        (ok plain)
  Gives-sizes =
      let header : size codec plain % 2 ^ 32 ≡ size codec plain = mod-eq_of_lt (omega arith) in
      let content : length plain % 2 ^ 32 ≡ length plain = mod-eq_of_lt (omega arith) in
      let room : size codec plain - 9 ≡ length (body codec plain) = omega arith in
      rw (header, content)
        (rw
          (append_assoc (le_bytes 4 (size codec plain)) (le_bytes 4 (length plain))
            (body codec plain))
          (Gives-bind (read_scalar u32) _ (le_bytes 4 (size codec plain)) _ (size codec plain) _
            (Gives-u32 (size codec plain) (omega arith))
            (Gives-bind (read_scalar u32) _ (le_bytes 4 (length plain)) _ (length plain) _
              (Gives-u32 (length plain) (omega arith))
              (rw (le→ltb-false dbms_max_compressed_size (size codec plain) fits) (
                subst
                  (λ (bs : List ℕ).
                    Gives
                      (read_bytes (size codec plain - 9)
                        >>= checked codec (lo codec plain, hi codec plain) (size codec plain)
                            (length plain))
                      bs (ok plain))
                  (append-nil (body codec plain))
                  (Gives-bind _ _ (body codec plain) [] (body codec plain) _
                    (Gives-read_bytes (size codec plain - 9) (body codec plain) (sym room))
                    Gives-checked))))))

  Gives-frame : Gives (decompress_buffer codec) (frame codec plain) (ok plain)
  unfolding decompress_buffer frame_header
  Gives-frame =
      Gives-bind _ _ (le_bytes 8 (lo codec plain)) _ _ _
        (Gives-u64 (lo codec plain) (law.hash_lo _))
        (Gives-bind _ _ (le_bytes 8 (hi codec plain)) _ _ _
          (Gives-u64 (hi codec plain) (law.hash_hi _))
          (Gives-bind _ _ (0x82 ∷ []) _ 0x82 _ Gives-method Gives-sizes))

  Writes-frame : Writes (write_frame codec plain) (frame codec plain)
  unfolding write_frame
  Writes-frame = record {
    at = λ buffer.
        rw
          ((Writes-write u64 (lo codec plain) (le_bytes 8 (lo codec plain))
              (u64_marshal (lo codec plain))).at
            buffer)
          (rw
            ((Writes-write u64 (hi codec plain) (le_bytes 8 (hi codec plain))
                (u64_marshal (hi codec plain))).at
              (buffer ++ le_bytes 8 (lo codec plain)))
            (rw ((Writes-write_bytes (buf codec plain)).at _) (rw (append_assoc, append_assoc))));
  }

  -- Loaded through the compressed reader, the frame is the block that its data is.
  load-frame :
      (parsers : TypeParsers) (tz : Text) (block : Block)
      → is_empty plain ≡ false
      → Gives (raw_load parsers tz) plain (ok block)
      → Gives (Blocks.load codec parsers tz true) (frame codec plain) (ok block)
  unfolding Blocks.load make below
  load-frame parsers tz block full given = record {
    at = λ rest.
        let whole : raw_load parsers tz plain ≡ ok (block, []) =
          ap (raw_load parsers tz) (sym (append-nil plain)) ∙ given.at [] in
        ap (below codec) (
          raw_load-frame codec parsers tz (frame codec plain ++ rest) rest plain
            (Gives-frame.at rest) full
          ∙ (Mirrors-raw_load codec parsers tz).at plain rest block [] whole);
  }

bytes_of : Outcome Encoder → List ℕ
bytes_of (ok e) = e.buffer
bytes_of _ = []

-- A block has bytes.
plain-full :
    (parsers : TypeParsers) (tz : Text) (block : Block) (bs : List ℕ)
    → Gives (raw_load parsers tz) bs (ok block)
    → is_empty bs ≡ false
unfolding continue
plain-full parsers tz block [] given =
    let (k, first) = Begins-raw_load parsers tz in
    let empty : raw_load parsers tz [] ≡ err would_block_error =
      first [] ∙ ap (λ o. continue o k) (read_bytes-short 1 [] (omega arith)) in
    cc (sym empty ∙ given.at [])
plain-full parsers tz block (b ∷ bs) given = refl

-- A block that is written compressed is loaded again, whatever follows it, where its bytes `plain` are no
-- more than LZ4 takes at once and the frame has at most 2 ^ 30, LZ4 gives back what it compressed
-- with the room that it asks for, a hash is two words of 64 bits, and the block is one that is loaded
-- again without compression: with the same names and the same values, the dates in the time zone of
-- the connection.
pub load-write_block :
    (codec : Codec) (parsers : TypeParsers) (tz : Text) (n : ℕ) (block : Block) (plain : List ℕ)
    → LawfulCodec codec
    → StoredBlock parsers n block
    → write_plain block new_encoder ≡ ok (record { buffer = plain })
    → 9 + length (compressed_bytes codec plain) ≤ dbms_max_compressed_size
    → length plain ≤ lz4_max_input_size
    → (bs : List ℕ) × Writes (write_block codec block true) bs
      × (block' : Block) × Gives (Blocks.load codec parsers tz true) bs (ok block')
      × SameBlock tz block block'
unfolding write_block bytes_of
load-write_block codec parsers tz n block plain law stored wrote fits small =
    let (bs, writes, block', given, same) = raw_load-write_plain parsers tz n block stored in
    let equal : bs ≡ plain = ap bytes_of (sym (writes.at []) ∙ wrote) in
    let loaded : Gives (raw_load parsers tz) plain (ok block') =
      subst (λ (t : List ℕ). Gives (raw_load parsers tz) t (ok block')) equal given in
    (
      frame codec plain,
      record { at = λ buffer. rw wrote ((Writes-frame codec law plain fits small).at buffer) },
      block',
      load-frame codec law plain fits small parsers tz block'
          (plain-full parsers tz block' plain loaded) loaded,
      same,
    )
