-- ===== src/Scalar.antt =====
-- src/types/marshal.rs, src/types/unmarshal.rs and src/types/stat_buffer.rs: the little-endian
-- form of the primitive types. A float is its bit pattern (`to_bits`, `from_bits`).
pub mod Bytes
pub mod RoundTrip
mod Tests
use clickhouse_srv.Common.{
  ℕ, zero, suc, ◌/◌, ◌%◌, ◌*◌, ◌^◌, ◌<◌, List, [], ◌∷◌, Bool, not, none, some, get_elem?, replicate,
  bit_or, ◌==◌, if◌then◌else◌,
}
use clickhouse_srv.Common.Int.{ℤ, pos, negsuc, to_word, of_word, InRange}
use clickhouse_srv.Errors.{Outcome, ok, panicked, ◌>>=◌}

-- `scratch[i] = v` and `scratch[i]`: an index out of range panics.
unfoldable pub store : List ℕ → ℕ → ℕ → Outcome (List ℕ)
store [] i v = panicked
store (x ∷ xs) zero v = ok (v ∷ xs)
store (x ∷ xs) (suc i) v = do rest ← store xs i v; ok (x ∷ rest)

unfoldable pub load : List ℕ → ℕ → Outcome ℕ
load xs i = elim (get_elem? xs i) [ none ↦ panicked | some x ↦ ok x ]

-- The traits `StatBuffer`, `Marshal` and `Unmarshal` of one type.
pub record Scalar (V : Type 0) : Type 0 where
  pub buffer : List ℕ
  pub marshal : V → List ℕ → Outcome (List ℕ)
  pub unmarshal : List ℕ → Outcome V

-- `>>` of a signed integer keeps its sign.
unfoldable pub shift_right : ℤ → ℕ → ℤ
shift_right (pos n) k = pos (n / 2 ^ k)
shift_right (negsuc n) k = negsuc (n / 2 ^ k)

marshal_u8 : ℕ → List ℕ → Outcome (List ℕ)
marshal_u8 v s = store s 0 v

marshal_u16 : ℕ → List ℕ → Outcome (List ℕ)
marshal_u16 v s = do s ← store s 0 (v % 256); store s 1 (v / 2 ^ 8 % 256)

marshal_u32 : ℕ → List ℕ → Outcome (List ℕ)
marshal_u32 v s = do
  s ← store s 0 (v % 256)
  s ← store s 1 (v / 2 ^ 8 % 256)
  s ← store s 2 (v / 2 ^ 16 % 256)
  store s 3 (v / 2 ^ 24 % 256)

marshal_u64 : ℕ → List ℕ → Outcome (List ℕ)
marshal_u64 v s = do
  s ← store s 0 (v % 256)
  s ← store s 1 (v / 2 ^ 8 % 256)
  s ← store s 2 (v / 2 ^ 16 % 256)
  s ← store s 3 (v / 2 ^ 24 % 256)
  s ← store s 4 (v / 2 ^ 32 % 256)
  s ← store s 5 (v / 2 ^ 40 % 256)
  s ← store s 6 (v / 2 ^ 48 % 256)
  store s 7 (v / 2 ^ 56 % 256)

marshal_i8 : ℤ → List ℕ → Outcome (List ℕ)
unfolding store to_word
marshal_i8 v s = store s 0 (to_word 256 v)

marshal_i16 : ℤ → List ℕ → Outcome (List ℕ)
unfolding store to_word shift_right
marshal_i16 v s = do s ← store s 0 (to_word 256 v); store s 1 (to_word 256 (shift_right v 8))

marshal_i32 : ℤ → List ℕ → Outcome (List ℕ)
unfolding store to_word shift_right
marshal_i32 v s = do
  s ← store s 0 (to_word 256 v)
  s ← store s 1 (to_word 256 (shift_right v 8))
  s ← store s 2 (to_word 256 (shift_right v 16))
  store s 3 (to_word 256 (shift_right v 24))

marshal_i64 : ℤ → List ℕ → Outcome (List ℕ)
unfolding store to_word shift_right
marshal_i64 v s = do
  s ← store s 0 (to_word 256 v)
  s ← store s 1 (to_word 256 (shift_right v 8))
  s ← store s 2 (to_word 256 (shift_right v 16))
  s ← store s 3 (to_word 256 (shift_right v 24))
  s ← store s 4 (to_word 256 (shift_right v 32))
  s ← store s 5 (to_word 256 (shift_right v 40))
  s ← store s 6 (to_word 256 (shift_right v 48))
  store s 7 (to_word 256 (shift_right v 56))

marshal_bool : Bool → List ℕ → Outcome (List ℕ)
marshal_bool v s = store s 0 (if v then 1 else 0)

-- The pattern of 16 bits that `|` and `<<` put together.
pattern_16 : List ℕ → Outcome ℕ
pattern_16 s = do b0 ← load s 0; b1 ← load s 1; ok (bit_or b0 (b1 * 2 ^ 8 % 2 ^ 16))

-- The pattern of 32 bits that `|` and `<<` put together.
pattern_32 : List ℕ → Outcome ℕ
pattern_32 s = do
  b0 ← load s 0
  b1 ← load s 1
  b2 ← load s 2
  b3 ← load s 3
  ok (
      bit_or (bit_or (bit_or b0 (b1 * 2 ^ 8 % 2 ^ 32)) (b2 * 2 ^ 16 % 2 ^ 32))
        (b3 * 2 ^ 24 % 2 ^ 32))

-- The pattern of 64 bits that `|` and `<<` put together.
pattern_64 : List ℕ → Outcome ℕ
pattern_64 s = do
  b0 ← load s 0
  b1 ← load s 1
  b2 ← load s 2
  b3 ← load s 3
  b4 ← load s 4
  b5 ← load s 5
  b6 ← load s 6
  b7 ← load s 7
  ok (
      bit_or
        (bit_or
          (bit_or
            (bit_or
              (bit_or (bit_or (bit_or b0 (b1 * 2 ^ 8 % 2 ^ 64)) (b2 * 2 ^ 16 % 2 ^ 64))
                (b3 * 2 ^ 24 % 2 ^ 64))
              (b4 * 2 ^ 32 % 2 ^ 64))
            (b5 * 2 ^ 40 % 2 ^ 64))
          (b6 * 2 ^ 48 % 2 ^ 64))
        (b7 * 2 ^ 56 % 2 ^ 64))

unmarshal_i8 : List ℕ → Outcome ℤ
unmarshal_i8 s = do bits ← load s 0; ok (of_word (2 ^ 7) bits)

unmarshal_i16 : List ℕ → Outcome ℤ
unmarshal_i16 s = do bits ← pattern_16 s; ok (of_word (2 ^ 15) bits)

unmarshal_i32 : List ℕ → Outcome ℤ
unmarshal_i32 s = do bits ← pattern_32 s; ok (of_word (2 ^ 31) bits)

unmarshal_i64 : List ℕ → Outcome ℤ
unmarshal_i64 s = do bits ← pattern_64 s; ok (of_word (2 ^ 63) bits)

unmarshal_bool : List ℕ → Outcome Bool
unmarshal_bool s = do b ← load s 0; ok (not (b == 0))

unfoldable pub u8 : Scalar ℕ
unfolding marshal_u8 store load
u8 = record { buffer = replicate 1 0; marshal = marshal_u8; unmarshal = λ s. load s 0 }

unfoldable pub u16 : Scalar ℕ
unfolding marshal_u16 pattern_16 store load
u16 = record { buffer = replicate 2 0; marshal = marshal_u16; unmarshal = pattern_16 }

unfoldable pub u32 : Scalar ℕ
unfolding marshal_u32 pattern_32 store load
u32 = record { buffer = replicate 4 0; marshal = marshal_u32; unmarshal = pattern_32 }

unfoldable pub u64 : Scalar ℕ
unfolding marshal_u64 pattern_64 store load
u64 = record { buffer = replicate 8 0; marshal = marshal_u64; unmarshal = pattern_64 }

unfoldable pub i8 : Scalar ℤ
unfolding marshal_i8 unmarshal_i8 load of_word
i8 = record { buffer = replicate 1 0; marshal = marshal_i8; unmarshal = unmarshal_i8 }

unfoldable pub i16 : Scalar ℤ
unfolding marshal_i16 unmarshal_i16 pattern_16 load of_word
i16 = record { buffer = replicate 2 0; marshal = marshal_i16; unmarshal = unmarshal_i16 }

unfoldable pub i32 : Scalar ℤ
unfolding marshal_i32 unmarshal_i32 pattern_32 load of_word
i32 = record { buffer = replicate 4 0; marshal = marshal_i32; unmarshal = unmarshal_i32 }

unfoldable pub i64 : Scalar ℤ
unfolding marshal_i64 unmarshal_i64 pattern_64 load of_word
i64 = record { buffer = replicate 8 0; marshal = marshal_i64; unmarshal = unmarshal_i64 }

unfoldable pub f32 : Scalar ℕ
unfolding marshal_u32 pattern_32 store load
f32 = record { buffer = replicate 4 0; marshal = marshal_u32; unmarshal = pattern_32 }

unfoldable pub f64 : Scalar ℕ
unfolding marshal_u64 pattern_64 store load
f64 = record { buffer = replicate 8 0; marshal = marshal_u64; unmarshal = pattern_64 }

unfoldable pub bool : Scalar Bool
unfolding marshal_bool unmarshal_bool store load
bool = record { buffer = replicate 1 0; marshal = marshal_bool; unmarshal = unmarshal_bool }

-- The types that implement the traits, their values, and the instance of each.
pub data Primitive : Type 0 where
  p_u8 p_u16 p_u32 p_u64 p_i8 p_i16 p_i32 p_i64 p_f32 p_f64 p_bool : Primitive

abbrev pub Carrier : Primitive → Type 0
Carrier p_i8 = ℤ
Carrier p_i16 = ℤ
Carrier p_i32 = ℤ
Carrier p_i64 = ℤ
Carrier p_bool = Bool
Carrier _ = ℕ

abbrev pub scalar : (p : Primitive) → Scalar (Carrier p)
scalar p_u8 = u8
scalar p_u16 = u16
scalar p_u32 = u32
scalar p_u64 = u64
scalar p_i8 = i8
scalar p_i16 = i16
scalar p_i32 = i32
scalar p_i64 = i64
scalar p_f32 = f32
scalar p_f64 = f64
scalar p_bool = bool

-- The values that a type has.
abbrev pub Fits : (p : Primitive) → Carrier p → Type 0
Fits p_u8 v = v < 2 ^ 8
Fits p_u16 v = v < 2 ^ 16
Fits p_u32 v = v < 2 ^ 32
Fits p_u64 v = v < 2 ^ 64
Fits p_i8 v = InRange (2 ^ 7) v
Fits p_i16 v = InRange (2 ^ 15) v
Fits p_i32 v = InRange (2 ^ 31) v
Fits p_i64 v = InRange (2 ^ 63) v
Fits p_f32 v = v < 2 ^ 32
Fits p_f64 v = v < 2 ^ 64
Fits p_bool v = Unit {0}
