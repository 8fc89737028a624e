-- ===== src/Common/Bits.antt =====
-- The bit operations of the codecs as arithmetic: the or of disjoint fields, and masks of a byte.
use Prim.Native.Nat.{ℕ, zero, suc, ◌+◌, ◌*◌, ◌/◌, ◌%◌, ◌^◌, ◌≤◌, ◌<◌, max, bit_and, bit_or}
use Prim.Native.Nat.{digits, bit_or-bitwise}
use mathlib.Core.Path.{◌≡◌, refl, ap}
use mathlib.Core.Bool.{Bool, true, ◌&&◌}
use native.Mathlib.Nat.{pow-suc}
use native.Mathlib.Omega.{arith}
use clickhouse_srv.Common.Tests.{◌==◌, ==→eq}

abbrev or_digits : ℕ → ℕ → ℕ → ℕ
or_digits n a b = digits (λ b. b) max n a b

-- The recursion that `bit_or` stands for does not look at fuel that it does not need.
or_digits_fuel : (n m a b : ℕ) → a ≤ n → a ≤ m → or_digits n a b ≡ or_digits m a b
or_digits_fuel zero zero a b p q = refl
or_digits_fuel zero (suc m) zero b p q = refl
or_digits_fuel zero (suc m) (suc a) b p q = absurd (omega arith)
or_digits_fuel (suc n) zero zero b p q = refl
or_digits_fuel (suc n) zero (suc a) b p q = absurd (omega arith)
or_digits_fuel (suc n) (suc m) zero b p q = refl
or_digits_fuel (suc n) (suc m) (suc a) b p q =
    omega (arith, or_digits_fuel n m (suc a / 2) (b / 2) (omega arith) (omega arith))

pub zero-bit_or : (b : ℕ) → bit_or 0 b ≡ b
zero-bit_or b = bit_or-bitwise 0 b

bit_or_halves : (a b : ℕ) → bit_or a b ≡ bit_or (a / 2) (b / 2) * 2 + max (a % 2) (b % 2)
bit_or_halves zero b = omega (arith, zero-bit_or b, zero-bit_or (b / 2))
bit_or_halves (suc a) b = omega (
  arith,
  bit_or-bitwise (suc a) b,
  bit_or-bitwise (suc a / 2) (b / 2),
  or_digits_fuel a (suc a / 2) (suc a / 2) (b / 2) (omega arith) (omega arith),
)

-- `x | (b << s)` is a sum when `x` has no bit from `s` on.
pub bit_or_high : (s x b : ℕ) → x < 2 ^ s → bit_or x (b * 2 ^ s) ≡ x + b * 2 ^ s
bit_or_high zero x b h =
    let none_left : x ≡ 0 = omega arith in
    let unshifted : b * 2 ^ 0 ≡ b = omega arith in
    rw none_left (rw unshifted (rw zero-bit_or (omega arith)))
bit_or_high (suc s) x b h = omega (
  arith,
  bit_or_halves x (b * 2 ^ suc s),
  pow-suc 2 s,
  ap (λ (t : ℕ). b * t) (pow-suc 2 s),
  ap (λ (t : ℕ). bit_or (x / 2) t) half,
  bit_or_high s (x / 2) b (omega (arith, pow-suc 2 s)),
)
  where
    half : b * 2 ^ suc s / 2 ≡ b * 2 ^ s
    half = omega (arith, ap (λ (t : ℕ). b * t) (pow-suc 2 s))

-- Over the values of a byte, check every one.
every : ℕ → (ℕ → Bool) → Bool
every zero p = true
every (suc n) p = p n && every n p

every_sound : (n : ℕ) (p : ℕ → Bool) (x : ℕ) → every n p ≡ true → x < n → p x ≡ true
unfolding every
every_sound zero p x h lt = absurd (omega arith)
every_sound (suc n) p x h lt = ground (arith, every_sound n p x)

mask_table : every 256 (λ b. bit_and b 0x7f == b % 128) ≡ true
unfolding every
mask_table = refl

mark_table : every 256 (λ b. bit_or b 0x80 == b % 128 + 128) ≡ true
unfolding every
mark_table = refl

-- `b & 0x7f` and `b | 0x80` on a byte.
pub low_seven : (b : ℕ) → b < 256 → bit_and b 0x7f ≡ b % 128
low_seven b h = ==→eq _ _ (every_sound 256 _ b mask_table h)

pub with_top_bit : (b : ℕ) → b < 256 → bit_or b 0x80 ≡ b % 128 + 128
with_top_bit b h = ==→eq _ _ (every_sound 256 _ b mark_table h)

-- The or of two numbers has no more bits than they have.
pub bit_or-lt : (k a b : ℕ) → a < 2 ^ k → b < 2 ^ k → bit_or a b < 2 ^ k
bit_or-lt zero a b ha hb =
    let nothing : a ≡ 0 = omega arith in rw nothing (rw zero-bit_or (omega arith))
bit_or-lt (suc k) a b ha hb = omega (
  arith,
  bit_or_halves a b,
  pow-suc 2 k,
  bit_or-lt k (a / 2) (b / 2) (omega (arith, pow-suc 2 k)) (omega (arith, pow-suc 2 k)),
)
