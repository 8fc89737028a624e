-- ===== src/Binary/Uvarint/Writes.antt =====
-- `put_uvarint` of src/binary/uvarint.rs against the description of the bytes of a number.
use clickhouse_srv.Common.{
  ℕ, zero, suc, ◌+◌, ◌/◌, ◌%◌, ◌^◌, ◌≤◌, ◌<◌, ◌≡◌, refl, ◌∙◌, List, [], ◌∷◌, ◌++◌, length, drop,
  bit_or, arith, append_assoc, length-append, le_or_lt, inl, inr, lt→ltb, le→ltb-false, length-snoc,
  replicate,
}
use clickhouse_srv.Common.Bits.{with_top_bit}
use clickhouse_srv.Errors.{Outcome, ok}
use clickhouse_srv.Scalar.{store}
use clickhouse_srv.Binary.Varint.{groups, varint}
use clickhouse_srv.Binary.Uvarint.{lt_wf, shift_below, put_uvarint_loop, put_uvarint}
use mathlib.Core.Logic.{dif_pos, dif_neg}
use mathlib.Core.WellFounded.{Acc}
use native.Mathlib.Decide.{dec_le}
use native.Mathlib.Nat.{pow-suc, mod-eq_of_lt}
use native.Mathlib.Bridge.{le_prop}

-- The byte behind a front is replaced.
store_behind :
    (front : List ℕ) (x v : ℕ) (rest : List ℕ)
    → store (front ++ x ∷ rest) (length front) v ≡ ok (front ++ v ∷ rest)
unfolding store
store_behind [] x v rest = refl
store_behind (f ∷ front) x v rest = rw (store_behind front x v rest)

-- What the loop leaves: the bytes written so far, those of `v`, and the rest of the buffer.
abbrev written : List ℕ → List ℕ → ℕ → ℕ → Outcome (List ℕ × ℕ)
written front scratch k v = ok (
  front ++ (groups k v ++ drop (length (groups k v)) scratch),
  length front + length (groups k v),
)

fits : (v : ℕ) → v < 128 → v < 256
fits v h = omega arith

last_group :
    (k v : ℕ) (front : List ℕ) (x : ℕ) (rest : List ℕ) (w : Acc ◌<◌ v)
    → v < 128
    → put_uvarint_loop (front ++ x ∷ rest) (length front) v w ≡ written front (x ∷ rest) k v
unfolding put_uvarint_loop groups
last_group zero v front x rest (Acc.intro _ smaller) h =
    rw (dif_neg (dec_le 128 v) (λ le. omega arith))
      (rw (mod-eq_of_lt (fits v h)) (rw store_behind (ground arith)))
last_group (suc k) v front x rest (Acc.intro _ smaller) h =
    rw (dif_neg (dec_le 128 v) (λ le. omega arith))
      (rw (mod-eq_of_lt (fits v h)) (rw (lt→ltb v 128 h) (rw store_behind (ground arith))))

marked : (v : ℕ) → bit_or (v % 256) 0x80 ≡ v % 128 + 128
marked v = with_top_bit (v % 256) (omega arith) ∙ omega arith

inner_group :
    (v : ℕ) (front : List ℕ) (x : ℕ) (rest : List ℕ) (smaller : (m : ℕ) → m < v → Acc ◌<◌ m)
    → 128 ≤ v
    → (out : Outcome (List ℕ × ℕ))
    → ((w : Acc ◌<◌ (v / 2 ^ 7))
        → put_uvarint_loop (front ++ (v % 128 + 128) ∷ rest) (length front + 1) (v / 2 ^ 7) w ≡ out)
    → put_uvarint_loop (front ++ x ∷ rest) (length front) v (Acc.intro v smaller) ≡ out
unfolding put_uvarint_loop
inner_group v front x rest smaller more out go =
    rw (dif_pos (dec_le 128 v) le_prop more)
      (rw (marked, store_behind) (go (smaller (v / 2 ^ 7) (shift_below v more))))

-- One byte more in front.
moved : (front : List ℕ) (b : ℕ) (rest : List ℕ) → (front ++ b ∷ []) ++ rest ≡ front ++ b ∷ rest
moved front b rest = append_assoc front (b ∷ []) rest

written_behind :
    (front : List ℕ) (x : ℕ) (rest : List ℕ) (k v : ℕ)
    → 128 ≤ v
    → written (front ++ (v % 128 + 128) ∷ []) rest k (v / 128) ≡ written front (x ∷ rest) (suc k) v
unfolding groups
written_behind front x rest k v h =
    rw (moved, length-append) (rw (le→ltb-false v 128 h) (ground arith))

put_uvarint_loop-groups :
    (k v : ℕ) (front scratch : List ℕ) (w : Acc ◌<◌ v)
    → v < 128 ^ suc k
    → suc k ≤ length scratch
    → put_uvarint_loop (front ++ scratch) (length front) v w ≡ written front scratch k v
put_uvarint_loop-groups k v front [] w h room = absurd (omega arith)
put_uvarint_loop-groups zero v front (x ∷ rest) w h room =
    last_group zero v front x rest w (omega arith)
put_uvarint_loop-groups (suc k) v front (x ∷ rest) (Acc.intro _ smaller) h room =
    elim (le_or_lt 128 v) [
      | inr last ↦ last_group (suc k) v front x rest (Acc.intro v smaller) last
      | inl more ↦ inner_group v front x rest smaller more _ λ w.
          rw (← moved, ← length-snoc front (v % 128 + 128))
            (put_uvarint_loop-groups k (v / 128) (front ++ (v % 128 + 128) ∷ []) rest w
                (omega (arith, pow-suc 128 (suc k))) (omega arith)
              ∙ written_behind front x rest k v more)
    ]

-- In a buffer of ten zeros `put_uvarint` leaves the variable-length bytes of a number below 2 ^
-- 64 at the front, and returns how many they are.
pub put_uvarint-varint :
    (v : ℕ)
    → v < 2 ^ 64
    → put_uvarint (replicate 10 0) v
      ≡ ok (varint v ++ drop (length (varint v)) (replicate 10 0), length (varint v))
unfolding put_uvarint varint
put_uvarint-varint v h =
    put_uvarint_loop-groups 9 v [] (replicate 10 0) (lt_wf.apply v) (omega arith) (omega arith)
    ∙ ground arith
