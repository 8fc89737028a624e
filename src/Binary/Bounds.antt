-- ===== src/Binary/Bounds.antt =====
-- `read_uvarint` of src/binary/read_ex.rs on any bytes.
use clickhouse_srv.Common.{
  ℕ, zero, suc, ◌+◌, ◌-◌, ◌*◌, ◌%◌, ◌^◌, ◌<◌, ◌≡◌, refl, ◌∙◌, true, [], ◌∷◌, ◌++◌, length,
  replicate, bit_or, bit_and, ltb, ◌==◌, ◌&&◌, arith, le_or_lt, inl, inr, Bool-cases, lt→ltb,
}
use clickhouse_srv.Common.Bits.{bit_or-lt, zero-bit_or}
use clickhouse_srv.Errors.{Outcome, ok, err, panicked, diverged, driver, overflow}
use clickhouse_srv.Scalar.{u8}
use clickhouse_srv.Binary.Reader.{◌>>=◌}
use clickhouse_srv.Binary.ReadEx.{
  read_scalar, read_uvarint_loop, read_uvarint, max_rounds, shift_left, would_block_error,
}
use clickhouse_srv.Binary.Cursor.{cursor, Cursor, read_bytes-short}
use clickhouse_srv.Binary.RoundTrip.{read_u8, last_round, inner_round}

-- A call that read a u64 off the front of `c`, or failed; it did not panic or loop.
abbrev pub ReadsWord : Cursor → Outcome (ℕ × Cursor) → Type 0
ReadsWord c (ok (v, rest)) = (v < 2 ^ 64) × (length rest < length c)
ReadsWord c (err e) = Unit {0}
ReadsWord c panicked = ⊥
ReadsWord c diverged = ⊥

pub read_u8-empty : read_scalar {S = Cursor} u8 [] ≡ err would_block_error
unfolding read_scalar u8 ◌>>=◌
read_u8-empty = rw (read_bytes-short 1 [] (omega arith))

shift_left-lt : (x s : ℕ) → shift_left x s < 2 ^ 64
unfolding shift_left
shift_left-lt x s = omega arith

longer : (b : ℕ) (c : Cursor) (o : Outcome (ℕ × Cursor)) → ReadsWord c o → ReadsWord (b ∷ c) o
longer b c (ok (v, rest)) h = (h.0, omega arith)
longer b c (err e) h = tt
longer b c panicked h = h
longer b c diverged h = h

overflow_round :
    (fuel x s i b : ℕ) (c : Cursor)
    → b < 128
    → (i == 9 && ltb 1 b) ≡ true
    → read_uvarint_loop (suc fuel) x s i (b ∷ c) ≡ err (driver overflow)
unfolding read_uvarint_loop ◌>>=◌
overflow_round fuel x s i b c h over = rw (read_u8, lt→ltb b 128 h, over)

empty_round :
    (fuel x s i : ℕ) → read_uvarint_loop {S = Cursor} (suc fuel) x s i [] ≡ err would_block_error
unfolding read_uvarint_loop ◌>>=◌
empty_round fuel x s i = rw read_u8-empty

read_loop-ReadsWord :
    (fuel x s i : ℕ) (c : Cursor)
    → length c < fuel
    → x < 2 ^ 64
    → ReadsWord c (read_uvarint_loop fuel x s i c)
read_loop-ReadsWord zero x s i c room hx = absurd (omega arith)
read_loop-ReadsWord (suc fuel) x s i [] room hx = rw empty_round tt
read_loop-ReadsWord (suc fuel) x s i (b ∷ c) room hx = elim (le_or_lt 128 b) [
  | inl more ↦ rw (inner_round fuel x s i b c more) (
      longer b c _ (
        read_loop-ReadsWord fuel _ _ _ c (omega arith)
          (bit_or-lt 64 x _ hx (shift_left-lt (bit_and b 0x7f) s))))
  | inr last ↦ elim (Bool-cases (i == 9 && ltb 1 b)) [
    | inl over ↦ rw (overflow_round fuel x s i b c last over) tt
    | inr fits ↦
        rw (last_round fuel x s i b c last fits)
          (bit_or-lt 64 x _ hx (shift_left-lt b s), omega arith)
  ]
]

-- On a buffer of less than 2 ^ 64 bytes `read_uvarint` returns a number below 2 ^ 64 and takes a
-- byte at least, or returns an error: it neither panics nor loops on.
pub read_uvarint-ReadsWord : (c : Cursor) → length c < 2 ^ 64 → ReadsWord c (read_uvarint c)
unfolding read_uvarint
read_uvarint-ReadsWord c h = read_loop-ReadsWord max_rounds 0 0 0 c h (omega arith)

no_bits : (p : ℕ) → 0 * p % 2 ^ 64 ≡ 0
no_bits p = omega arith

-- A byte 0x80 adds no bits, and moves the place of the next ones.
skip_round :
    (fuel s i : ℕ) (c : Cursor)
    → read_uvarint_loop (suc fuel) 0 s i (0x80 ∷ c)
      ≡ read_uvarint_loop fuel 0 ((s + 7) % 2 ^ 32) ((i + 1) % 2 ^ 64) c
unfolding shift_left
skip_round fuel s i c =
    let nothing : bit_or 0 (shift_left (bit_and 0x80 0x7f) s) ≡ 0 =
      zero-bit_or _ ∙ no_bits (2 ^ (s % 64)) in
    inner_round fuel 0 s i 0x80 c (omega arith) ∙ rw nothing

ten_rounds :
    (fuel : ℕ) (c : Cursor)
    → read_uvarint_loop
        (suc (suc (suc (suc (suc (suc (suc (suc (suc (suc (suc fuel)))))))))))
        0
        0
        0
        (replicate 10 0x80 ++ c)
      ≡ read_uvarint_loop (suc fuel) 0 70 10 c
ten_rounds fuel c =
    skip_round (suc (suc (suc (suc (suc (suc (suc (suc (suc (suc fuel)))))))))) 0 0 _
    ∙ skip_round (suc (suc (suc (suc (suc (suc (suc (suc (suc fuel))))))))) 7 1 _
    ∙ skip_round (suc (suc (suc (suc (suc (suc (suc (suc fuel)))))))) 14 2 _
    ∙ skip_round (suc (suc (suc (suc (suc (suc (suc fuel))))))) 21 3 _
    ∙ skip_round (suc (suc (suc (suc (suc (suc fuel)))))) 28 4 _
    ∙ skip_round (suc (suc (suc (suc (suc fuel))))) 35 5 _
    ∙ skip_round (suc (suc (suc (suc fuel)))) 42 6 _
    ∙ skip_round (suc (suc (suc fuel))) 49 7 _
    ∙ skip_round (suc (suc fuel)) 56 8 _
    ∙ skip_round (suc fuel) 63 9 _

-- The check for an overflow looks at the tenth byte only: after ten bytes 0x80 the eleventh is
-- shifted by 70, which is 6 modulo 64, and is taken for bits 6 to 12 of the number.
pub read_uvarint_overlong :
    (b : ℕ) (rest : Cursor)
    → b < 128
    → read_uvarint (replicate 10 0x80 ++ b ∷ rest) ≡ ok (b * 64, rest)
unfolding read_uvarint shift_left
read_uvarint_overlong b rest h =
    let fuel : ℕ = max_rounds - 11 in
    let placed : b * 2 ^ 6 % 2 ^ 64 ≡ b * 64 = omega arith in
    ten_rounds fuel (b ∷ rest) ∙ last_round fuel 0 70 10 b rest h refl ∙ rw (zero-bit_or, placed)
