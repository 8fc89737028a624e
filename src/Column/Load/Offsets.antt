-- ===== src/Column/Load/Offsets.antt =====
-- The offsets of arrays on the wire.
use clickhouse_srv.Common.{
  ℕ, zero, suc, ◌+◌, ◌*◌, ◌/◌, ◌^◌, ◌<◌, ◌≡◌, refl, ap, ◌∙◌, List, [], ◌∷◌, ◌++◌, length, take,
  drop, arith, append_assoc, All, length-append, lt→ltb, take_front, drop_behind,
}
use clickhouse_srv.Errors.{ok}
use clickhouse_srv.Errors.Index.{index_at, index_at-behind}
use clickhouse_srv.Scalar.{p_u64, u64}
use clickhouse_srv.Scalar.Bytes.{le_bytes, length-le_bytes, of_le_bytes-le_bytes}
use clickhouse_srv.Scalar.RoundTrip.{u64_marshal, u64_unmarshal}
use clickhouse_srv.Binary.Cursor.{cursor}
use clickhouse_srv.Binary.Gives.{Gives, Gives-pure, Gives-lift}
use mathlib.Core.Path.{subst}
use clickhouse_srv.Binary.Encoder.{Encode}
use clickhouse_srv.Binary.Encoder.Writes.{Writes, Writes-write}
use clickhouse_srv.Column.Memory.{size_of, mem_len, mem_at}
use clickhouse_srv.Column.Data.{save_offsets}
use clickhouse_srv.Column.Load.{last_offset}

-- The memory of a `List<u64>`.
abbrev pub words : List ℕ → List ℕ
words [] = []
words (o ∷ os) = le_bytes 8 o ++ words os

abbrev pub Words : List ℕ → Type 0
Words os = All (λ o. o < 2 ^ 64) os

-- The last of the numbers, or the one that stands in front of them.
abbrev pub last_of : ℕ → List ℕ → ℕ
last_of before [] = before
last_of before (o ∷ os) = last_of o os

pub length-words : (os : List ℕ) → length (words os) ≡ length os * 8
length-words [] = refl
length-words (o ∷ os) =
    omega (arith, length-append (le_bytes 8 o) (words os), length-le_bytes 8 o, length-words os)

pub size_of_u64 : size_of p_u64 ≡ 8
unfolding u64
size_of_u64 = refl

word_at :
    (os : List ℕ) (i : ℕ)
    → i < length os
    → Words os
    → u64.unmarshal (take 8 (drop (i * 8) (words os))) ≡ index_at os i
unfolding index_at
word_at [] i h small = absurd (omega arith)
word_at (o ∷ os) zero h small =
    ap (λ bs. u64.unmarshal bs) (take_front 8 (le_bytes 8 o) (words os) (length-le_bytes 8 o))
    ∙ (u64_unmarshal o ∙ ap ok (of_le_bytes-le_bytes 8 o small.0))
word_at (o ∷ os) (suc i) h small =
    let next : suc i * 8 ≡ length (le_bytes 8 o) + i * 8 = omega (arith, length-le_bytes 8 o) in
    ap (λ bs. u64.unmarshal (take 8 bs))
      (ap (λ n. drop n (words (o ∷ os))) next ∙ drop_behind (le_bytes 8 o) (words os) (i * 8))
    ∙ word_at os i (omega arith) small.1

pub mem_at-words :
    (os : List ℕ) (i : ℕ) → i < length os → Words os → mem_at p_u64 (words os) i ≡ index_at os i
unfolding mem_at mem_len
mem_at-words os i h small =
    let inside : i < length (words os) / 8 = omega (arith, length-words os) in
    rw size_of_u64 (rw (lt→ltb i (length (words os) / 8) inside) (word_at os i h small))

-- The offsets are written as they stand in memory, and then the inner column up to the last.
pub Writes-save_offsets :
    (front os : List ℕ) (before : ℕ) (k : ℕ → Encode) (bs : List ℕ) (i : ℕ)
    → Words (front ++ os)
    → i ≡ length front
    → Writes (k (last_of before os)) bs
    → Writes (save_offsets (words (front ++ os)) (length os) i before k) (words os ++ bs)
unfolding save_offsets index_at
Writes-save_offsets front [] before k bs i small e wk = wk
Writes-save_offsets front (o ∷ os) before k bs i small e wk =
    let inside : i < length (front ++ o ∷ os) = omega (arith, length-append front (o ∷ os)) in
    let place : i ≡ length front + 0 = omega (arith, e) in
    let here : mem_at p_u64 (words (front ++ o ∷ os)) i ≡ ok o =
      mem_at-words (front ++ o ∷ os) i inside small
      ∙ (ap (index_at (front ++ o ∷ os)) place ∙ index_at-behind front (o ∷ os) 0) in
    let joined : (front ++ o ∷ []) ++ os ≡ front ++ o ∷ os = append_assoc front (o ∷ []) os in
    let rest : Writes (save_offsets (words (front ++ o ∷ os)) (length os) (i + 1) o k)
        (words os ++ bs) =
      subst
        (λ (all : List ℕ).
          Writes (save_offsets (words all) (length os) (i + 1) o k) (words os ++ bs))
        joined
        (Writes-save_offsets (front ++ o ∷ []) os o k bs (i + 1) (rw joined small)
          (omega (arith, e, length-append front (o ∷ []))) wk) in
    record {
      at = λ buffer. rw here (
          rw ((Writes-write u64 o (le_bytes 8 o) (u64_marshal o)).at buffer)
            (rw (rest.at (buffer ++ le_bytes 8 o)) (rw (append_assoc, append_assoc))));
    }

index_at-last_of : (o : ℕ) (os : List ℕ) → index_at (o ∷ os) (length os) ≡ ok (last_of o os)
unfolding index_at
index_at-last_of o [] = refl
index_at-last_of o (o' ∷ os) = index_at-last_of o' os

pub Gives-last_offset :
    (os : List ℕ) → Words os → Gives (last_offset (words os) (length os)) [] (ok (last_of 0 os))
unfolding last_offset
Gives-last_offset [] small = Gives-pure 0
Gives-last_offset (o ∷ os) small =
    Gives-lift _ _ (mem_at-words (o ∷ os) (length os) (omega arith) small ∙ index_at-last_of o os)
