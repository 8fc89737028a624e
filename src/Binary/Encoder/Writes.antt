-- ===== src/Binary/Encoder/Writes.antt =====
-- Rules for what the methods of src/binary/encoder.rs append.
use clickhouse_srv.Common.{
  ℕ, ◌^◌, ◌<◌, ◌≡◌, refl, Bool, true, false, List, [], ◌++◌, length, drop, replicate, if◌then◌else◌,
  arith, append-nil, append_assoc, le→leb, take_prefix, length-append,
}
use clickhouse_srv.Common.Text.{Text}
use clickhouse_srv.Errors.{ok}
use clickhouse_srv.Scalar.{Scalar}
use clickhouse_srv.Binary.Varint.{varint}
use clickhouse_srv.Binary.Uvarint.Writes.{put_uvarint-varint}
use clickhouse_srv.Binary.RoundTrip.{text_bytes}
use clickhouse_srv.Binary.Encoder.{
  Encode, ◌>>◌, skip, write_bytes, slice_to, uvarint, string, write,
}

-- `f` appends the bytes `bs` to whatever the buffer holds.
pub record Writes (f : Encode) (bs : List ℕ) : Type 0 where
  pub at :
      (buffer : List ℕ) → f (record { buffer = buffer }) ≡ ok (record { buffer = buffer ++ bs })

pub Writes-seq : (f g : Encode) (a b : List ℕ) → Writes f a → Writes g b → Writes (f >> g) (a ++ b)
unfolding ◌>>◌
Writes-seq f g a b wf wg = record {
  at = λ buffer. rw (wf.at buffer) (rw (wg.at (buffer ++ a)) (rw append_assoc));
}

pub Writes-skip : Writes skip []
unfolding skip
Writes-skip = record { at = λ buffer. rw append-nil }

pub Writes-if :
    (b : Bool) (f g : Encode) (x y : List ℕ)
    → Writes f x
    → Writes g y
    → Writes (if b then f else g) (if b then x else y)
Writes-if true f g x y wf wg = wf
Writes-if false f g x y wf wg = wg

pub Writes-write_bytes : (bs : List ℕ) → Writes (write_bytes bs) bs
unfolding write_bytes
Writes-write_bytes bs = record { at = λ buffer. refl }

slice_to-prefix : (xs ys : List ℕ) → slice_to (xs ++ ys) (length xs) ≡ ok xs
unfolding slice_to
slice_to-prefix xs ys =
    rw (le→leb (length xs) (length (xs ++ ys)) (omega (arith, length-append xs ys)))
      (rw (take_prefix xs ys))

pub Writes-uvarint : (v : ℕ) → v < 2 ^ 64 → Writes (uvarint v) (varint v)
unfolding uvarint
Writes-uvarint v h = record {
  at = λ buffer.
      rw (put_uvarint-varint v h)
        (rw (slice_to-prefix (varint v) (drop (length (varint v)) (replicate 10 0))));
}

pub Writes-string : (t : Text) → length t < 2 ^ 64 → Writes (string t) (text_bytes t)
unfolding string text_bytes
Writes-string t h = Writes-seq _ _ _ _ (Writes-uvarint (length t) h) (Writes-write_bytes t)

pub Writes-write :
    {V : Type 0} (sc : Scalar V) (v : V) (bs : List ℕ)
    → sc.marshal v sc.buffer ≡ ok bs
    → Writes (write sc v) bs
unfolding write
Writes-write sc v bs e = record { at = λ buffer. rw e }
