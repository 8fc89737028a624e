-- ===== src/Block/Begins.antt =====
-- A block begins with a byte: so a block is loaded from a compressed reader as from the data of its first
-- frame.
use clickhouse_srv.Common.{◌-◌, ℕ, suc, ◌^◌, ◌≡◌, refl, sym, ap, ◌∙◌, List, [], false}
use clickhouse_srv.Common.Text.{Text}
use clickhouse_srv.Errors.{Outcome, ok, err, panicked, diverged}
use clickhouse_srv.Scalar.{u8}
use clickhouse_srv.Binary.Reader.{Reader, Read, pure, lift, continue, ◌>>=◌}
use clickhouse_srv.Binary.ReadEx.{
  read_bytes, read_bytes_loop, read_scalar, read_uvarint_loop, read_uvarint,
}
use clickhouse_srv.Protocols.Hello.{is_empty}
use clickhouse_srv.Column.Branch.{TypeParsers}
use clickhouse_srv.Block.Info as Info
use clickhouse_srv.Block.Data.{raw_load}
use clickhouse_srv.Block.Compressed.{Codec, decompress_buffer, filled, compressed_read, compressed}

module _ {S A B : Type 0} where
  continue_assoc :
      {C : Type 0} (o : Outcome (C × S)) (f : C → Reader S A) (g : A → Reader S B)
      → continue (continue o f) g ≡ continue o (λ c. f c >>= g)
  unfolding continue ◌>>=◌
  continue_assoc (ok (c, s)) f g = refl
  continue_assoc (err e) f g = refl
  continue_assoc panicked f g = refl
  continue_assoc diverged f g = refl

continue-pure : {S A : Type 0} (o : Outcome (A × S)) → continue o pure ≡ o
unfolding continue pure
continue-pure (ok (a, s)) = refl
continue-pure (err e) = refl
continue-pure panicked = refl
continue-pure diverged = refl

module _ {S : Type 0} ⦃r : Read S⦄ where
  -- `p` reads a byte first.
  abbrev pub Begins : {A : Type 0} → Reader S A → Type 0
  Begins {A} p = (k : List ℕ → Reader S A) × ((s : S) → p s ≡ continue (read_bytes 1 s) k)

  Begins-bind : {A B : Type 0} (p : Reader S A) (f : A → Reader S B) → Begins p → Begins (p >>= f)
  unfolding ◌>>=◌
  Begins-bind p f (k, first) = (
    (λ bs. k bs >>= f),
    λ s. ap (λ o. continue o f) (first s) ∙ continue_assoc (read_bytes 1 s) k f,
  )

  Begins-byte : Begins (read_bytes 1)
  Begins-byte = (pure, λ s. sym (continue-pure (read_bytes 1 s)))

  Begins-u8 : Begins (read_scalar u8)
  unfolding read_scalar u8
  Begins-u8 = Begins-bind (read_bytes 1) (λ buffer. lift (u8.unmarshal buffer)) Begins-byte

  Begins-uvarint_loop : (fuel x s i : ℕ) → Begins (read_uvarint_loop (suc fuel) x s i)
  unfolding read_uvarint_loop
  Begins-uvarint_loop fuel x s i = Begins-bind (read_scalar u8) _ Begins-u8

  Begins-uvarint : Begins read_uvarint
  unfolding read_uvarint
  Begins-uvarint = Begins-uvarint_loop (2 ^ 64 - 1) 0 0 0

  pub Begins-raw_load : (parsers : TypeParsers) (tz : Text) → Begins (raw_load parsers tz)
  unfolding raw_load Info.read
  Begins-raw_load parsers tz = Begins-bind Info.read _ (Begins-bind read_uvarint _ Begins-uvarint)

module _ (codec : Codec) {S : Type 0} ⦃r : Read S⦄ where
  -- The first byte is read from the data of a frame.
  byte_of_frame :
      (s s' : S) (frame : List ℕ)
      → decompress_buffer codec s ≡ ok (frame, s')
      → is_empty frame ≡ false
      → read_bytes ⦃r = compressed codec⦄ 1 (record { reader = s; left = [] })
        ≡ read_bytes ⦃r = compressed codec⦄ 1 (record { reader = s'; left = frame })
  unfolding read_bytes read_bytes_loop ◌>>=◌ compressed_read filled
  byte_of_frame s s' frame e full = rw (e, full)

  pub raw_load-frame :
      (parsers : TypeParsers) (tz : Text) (s s' : S) (frame : List ℕ)
      → decompress_buffer codec s ≡ ok (frame, s')
      → is_empty frame ≡ false
      → raw_load ⦃r = compressed codec⦄ parsers tz (record { reader = s; left = [] })
        ≡ raw_load ⦃r = compressed codec⦄ parsers tz (record { reader = s'; left = frame })
  raw_load-frame parsers tz s s' frame e full =
      let (k, first) = Begins-raw_load ⦃r = compressed codec⦄ parsers tz in
      first (record { reader = s; left = [] })
      ∙ (ap (λ o. continue o k) (byte_of_frame s s' frame e full)
          ∙ sym (first (record { reader = s'; left = frame })))
