-- ===== src/Block/Framing.antt =====
-- The blocks of src/types/block read on a part of the input as on the whole, compressed or not.
use clickhouse_srv.Common.{
  ℕ, sym, ◌∙◌, Bool-cases, inl, inr, ◌+◌, ◌-◌, ◌^◌, take, replicate, ltb, ◌==◌, ◌&&◌, zero, suc,
  ◌≡◌, refl, List, [], ◌++◌, length, Bool, true, false, Option, none, some, not,
}
use clickhouse_srv.Common.Text.{Text, text}
use clickhouse_srv.Errors.{
  Error, driver, io, connection, other_error, server, url, from_sql, Outcome, ok, err, panicked,
  diverged, is_would_block, of_io_error, to_io_error,
}
use clickhouse_srv.Errors
use clickhouse_srv.Scalar.{u8, u32, u64}
use clickhouse_srv.Binary.Reader.{Reader, Read, raise, pure}
use clickhouse_srv.Binary.ReadEx.{read_bytes, read_bytes_loop}
use clickhouse_srv.Binary.Framing.{
  Extension, Agrees, Framed, Framed-pure, Framed-raise, Framed-lift, Framed-diverge, Framed-bind,
  Framed-if, framed_rules, read_scalar-Framed, read_uvarint-Framed, read_string-Framed,
}
use clickhouse_srv.Binary.Cursor.{cursor}
use clickhouse_srv.Protocols.Hello.{is_empty}
use clickhouse_srv.Column.Branch.{TypeParsers}
use clickhouse_srv.Column.Load.Framing.{load_data-Framed}
use clickhouse_srv.Block.Info as Info
use clickhouse_srv.Block.Data.{Block, read_column, load_columns, raw_load}
use clickhouse_srv.Block.Compressed.{
  Codec, c_int, CompressedReader, frame_header, dbms_max_compressed_size, checked,
  decompress_buffer, filled, take_left, compressed_read, compressed, make, below, load,
}

module _ {S : Type 0} ⦃r : Read S⦄ (x : Extension S)
    (fills : (n : ℕ) → Framed x (read_bytes n)) where
  info-Framed : Framed x Info.read
  unfolding Info.read
  info-Framed = search (framed_rules, read_uvarint-Framed, read_scalar-Framed, fills) depth 8

  module _ (parsers : TypeParsers) (tz : Text) where
    read_column-Framed : (size : ℕ) → Framed x (read_column parsers tz size)
    unfolding read_column
    read_column-Framed size = search (framed_rules, read_string-Framed, load_data-Framed, fills)

    load_columns-Framed :
        (num_columns num_rows : ℕ) (block : Block)
        → Framed x (load_columns parsers tz num_columns num_rows block)
    unfolding load_columns
    load_columns-Framed zero num_rows block = Framed-pure x block
    load_columns-Framed (suc num_columns) num_rows block =
        Framed-bind x _ _ (read_column-Framed num_rows)
          λ column. Framed-bind x _ _ (Framed-lift x _) (load_columns-Framed num_columns num_rows)

    pub raw_load-Framed : Framed x (raw_load parsers tz)
    unfolding raw_load
    raw_load-Framed =
        search (framed_rules, info-Framed, read_uvarint-Framed, load_columns-Framed, fills)

-- The reader below grows; what was decompressed stays.
abbrev compressed_extension : {S : Type 0} → Extension S → Extension (CompressedReader S)
compressed_extension x = record {
  extend = λ cr more. record cr { reader = x.extend cr.reader more };
  Leads = λ cr cr'. x.Leads cr.reader cr'.reader;
  Leads-refl = λ cr. x.Leads-refl cr.reader;
  Leads-trans = x.Leads-trans;
}

-- An error that went through `io::Error` wants bytes where it did before.
would_block-io : (e : Error) → is_would_block (of_io_error (to_io_error e)) ≡ is_would_block e
unfolding is_would_block of_io_error to_io_error
would_block-io (driver e) = refl
would_block-io (io e) = refl
would_block-io (connection e) = refl
would_block-io (other_error e) = refl
would_block-io (server e) = refl
would_block-io (url e) = refl
would_block-io (from_sql e) = refl

module _ (codec : Codec) {S : Type 0} ⦃r : Read S⦄ (x : Extension S)
    (fills : (n : ℕ) → Framed x (read_bytes n)) where
  -- The outcomes of `LZ4_decompress_safe`.
  status-Framed :
      (original : ℕ) (status : Option (List ℕ))
      → Framed x (elim status as (λ _. Reader S (List ℕ)) [
        | none ↦ raise (other_error (text "can't decompress data"))
        | some data' ↦ pure (take original (data' ++ replicate original 0))
      ])
  status-Framed original none = Framed-raise x _
  status-Framed original (some data') = Framed-pure x _

  checked-Framed :
      (hash : ℕ × ℕ) (size original : ℕ) (body : List ℕ)
      → Framed x (checked codec hash size original body)
  unfolding checked
  checked-Framed (lo, hi) size original body =
      let (lo', hi') = codec.city_hash_128 (frame_header size original ++ body) in
      Framed-if x (not (lo == lo' && hi == hi')) _ _
        (Framed-raise x (other_error (text "data was corrupted")))
        (status-Framed original
          (codec.decompress body (c_int (2 ^ 32 + size - 9)) (c_int original)))

  decompress_buffer-Framed : Framed x (decompress_buffer codec)
  unfolding decompress_buffer
  decompress_buffer-Framed = Framed-bind x _ _ (read_scalar-Framed x fills u64) λ lo.
      Framed-bind x _ _ (read_scalar-Framed x fills u64) λ hi.
        Framed-bind x _ _ (read_scalar-Framed x fills u8) λ method.
          Framed-if x (not (method == 0x82)) _ _ (Framed-raise x _) (
            Framed-bind x _ _ (read_scalar-Framed x fills u32) λ size.
              Framed-bind x _ _ (read_scalar-Framed x fills u32) λ original.
                Framed-if x (ltb dbms_max_compressed_size size) _ _ (Framed-raise x _)
                  (Framed-bind x _ _ (fills (size - 9)) (checked-Framed (lo, hi) size original)))

  take_left-Agrees :
      (n : ℕ) (s : S) (more : List ℕ) (o o' : Outcome (List ℕ × S))
      → Agrees x s more o o'
      → (left : List ℕ)
      → Agrees
          (compressed_extension x)
          (record { reader = s; left = left })
          more
          (Errors.◌>>=◌ (filled codec o) (take_left codec n))
          (Errors.◌>>=◌ (filled codec o') (take_left codec n))
  unfolding filled take_left
  take_left-Agrees n s more (ok (d, s')) o' h left = (rw (h.0), h.1)
  take_left-Agrees n s more (err e) o' h left = λ wants. rw (h (sym (would_block-io e) ∙ wants))
  take_left-Agrees n s more panicked o' h left = rw h
  take_left-Agrees n s more diverged o' h left = rw h

  compressed_read-Framed : (n : ℕ) → Framed (compressed_extension x) (compressed_read codec n)
  unfolding compressed_read take_left
  compressed_read-Framed n = record {
    at = λ cr more. elim (Bool-cases (is_empty cr.left)) [
      | inl b ↦ rw b (
          take_left-Agrees n cr.reader more (decompress_buffer codec cr.reader)
            (decompress_buffer codec (x.extend cr.reader more))
            (decompress_buffer-Framed.at cr.reader more) cr.left)
      | inr b ↦ rw b (refl, x.Leads-refl cr.reader)
    ];
  }

  -- So `read_bytes` is on a compressed reader.
  read_bytes_loop-compressed :
      (fuel want : ℕ)
      → Framed (compressed_extension x) (read_bytes_loop ⦃r = compressed codec⦄ fuel want)
  unfolding read_bytes_loop
  read_bytes_loop-compressed zero want =
      Framed-if (compressed_extension x) (want == 0) _ _ (Framed-pure (compressed_extension x) [])
        (Framed-diverge (compressed_extension x))
  read_bytes_loop-compressed (suc fuel) want =
      Framed-if (compressed_extension x) (want == 0) _ _ (Framed-pure (compressed_extension x) []) (
        Framed-bind (compressed_extension x) _ _ (compressed_read-Framed want) λ got.
          Framed-if (compressed_extension x) (length got == 0) _ _
            (Framed-raise (compressed_extension x) _)
            (Framed-bind (compressed_extension x) _ _
              (read_bytes_loop-compressed fuel (want - length got))
              λ rest. Framed-pure (compressed_extension x) (got ++ rest)))

  read_bytes-compressed :
      (n : ℕ) → Framed (compressed_extension x) (read_bytes ⦃r = compressed codec⦄ n)
  unfolding read_bytes
  read_bytes-compressed n = read_bytes_loop-compressed n n

  -- What the compressed reader has left plays no part below it.
  below-Agrees :
      {A : Type 0} (s : S) (more : List ℕ) (o o' : Outcome (A × CompressedReader S))
      → Agrees (compressed_extension x) (make codec s) more o o'
      → Agrees x s more (below codec o) (below codec o')
  unfolding make below
  below-Agrees s more (ok (a, cr)) o' h = (rw (h.0), h.1)
  below-Agrees s more (err e) o' h = λ wants. rw (h wants)
  below-Agrees s more panicked o' h = rw h
  below-Agrees s more diverged o' h = rw h

  -- A block, compressed or not, is loaded from a part of the input as from the whole, but for a want of
  -- bytes, if the filling of buffers is so.
  pub load-Framed :
      (parsers : TypeParsers) (tz : Text) (c : Bool) → Framed x (load codec parsers tz c)
  unfolding load make
  load-Framed parsers tz true = record {
    at = λ s more. below-Agrees s more _ _ (
        (raw_load-Framed ⦃r = compressed codec⦄ (compressed_extension x) read_bytes-compressed
            parsers tz).at
          (make codec s) more);
  }
  load-Framed parsers tz false = raw_load-Framed x fills parsers tz
