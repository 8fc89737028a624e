-- ===== src/Types/Decimal/Scale.antt =====
-- `set_scale` and `eq` of src/types/decimal.rs.
use clickhouse_srv.Common.{
  ℕ, zero, suc, ◌+◌, ◌-◌, ◌*◌, ◌%◌, ◌^◌, ◌≤◌, ◌<◌, ◌≡◌, refl, ap, true, inl, inr, le_or_lt, lt→ltb,
  le→ltb-false, le→leb, eq→==, ne→==, arith,
}
use clickhouse_srv.Common.Int.{ℤ, pos, negsuc, to_word, of_word}
use clickhouse_srv.Errors.{ok, ◌>>=◌}
use clickhouse_srv.Types.Decimal.{Decimal, factor10, times, divided, negate, int_eq, eq, set_scale}
use native.Mathlib.Nat.{mul-div_cancel, pow-suc}

int_eq_refl : (x : ℤ) → int_eq x x ≡ true
unfolding int_eq
int_eq_refl (pos n) = eq→== n n refl
int_eq_refl (negsuc n) = eq→== n n refl

factor : (i : ℕ) → i ≤ 18 → factor10 i ≡ ok (10 ^ i)
unfolding factor10
factor i h = rw (le→leb i 18 h)

raised :
    (d : Decimal) (s : ℕ)
    → d.scale < s
    → s ≤ d.scale + 18
    → set_scale d s
      ≡ ok (record d { underlying = times d.underlying (10 ^ (s - d.scale)); scale = s })
unfolding set_scale
raised d s above near = rw (
  le→ltb-false s d.scale (omega arith),
  ne→== s d.scale (omega arith),
  factor (s - d.scale) (omega arith),
)

raised-eq :
    (d e : Decimal)
    → d.scale < e.scale
    → e.scale ≤ d.scale + 18
    → e.underlying ≡ times d.underlying (10 ^ (e.scale - d.scale))
    → eq d e ≡ ok true
unfolding eq
raised-eq d e above near same =
    rw (lt→ltb d.scale e.scale above, factor (e.scale - d.scale) (omega arith), same)
      (ap ok (int_eq_refl (times d.underlying (10 ^ (e.scale - d.scale)))))

unchanged : (d : Decimal) (s : ℕ) → s ≡ d.scale → set_scale d s ≡ ok d
unfolding set_scale
unchanged d s e = rw (le→ltb-false s d.scale (omega arith), eq→== s d.scale e)

eq_refl : (d : Decimal) → eq d d ≡ ok true
unfolding eq
eq_refl d = rw (
  le→ltb-false d.scale d.scale (omega arith),
  eq→== d.scale d.scale refl,
  int_eq_refl d.underlying,
)

-- A decimal whose scale is raised by at most 18 is equal to itself before, whether or not the product
-- fits 64 bits.
pub set_scale-eq :
    (d : Decimal) (s : ℕ)
    → d.scale ≤ s
    → s ≤ d.scale + 18
    → (set_scale d s >>= λ e. eq d e) ≡ ok true
set_scale-eq d s above near = elim (le_or_lt s d.scale) [
  | inl same ↦ rw (unchanged d s (omega arith)) (eq_refl d)
  | inr more ↦ rw (raised d s more near) (raised-eq d _ more near refl)
]

-- The number with more digits fits 64 bits.
abbrev pub Fits : ℤ → ℕ → Type 0
Fits (pos n) k = n * k < 2 ^ 63
Fits (negsuc n) k = (n + 1) * k ≤ 2 ^ 63

pow_pos : (k : ℕ) → 0 < 10 ^ k
pow_pos zero = omega arith
pow_pos (suc k) = let h : 0 < 10 ^ k = pow_pos k in omega (arith, pow-suc 10 k, h)

divided-times : (x : ℤ) (k : ℕ) → 0 < k → Fits x k → divided (times x k) k ≡ x
unfolding divided times to_word of_word negate
divided-times (pos n) k some h =
    let word : n * k % 2 ^ 64 ≡ n * k = omega arith in
    rw word (rw (lt→ltb (n * k) (2 ^ 63) h) (ap pos (mul-div_cancel n some)))
divided-times (negsuc n) k some h =
    let m : ℕ = (n + 1) * k in
    let positive : 1 ≤ m = grind arith in
    let word : 2 ^ 64 - 1 - (m - 1) % 2 ^ 64 ≡ 2 ^ 64 - m = omega (arith, positive) in
    let back : 2 ^ 63 + 2 ^ 63 - 1 - (2 ^ 64 - m) ≡ m - 1 = omega (arith, positive) in
    let whole : m - 1 + 1 ≡ m = omega (arith, positive) in
    let next : n + 1 ≡ suc n = omega arith in
    rw word (
      rw (le→ltb-false (2 ^ 64 - m) (2 ^ 63) (omega arith))
        (rw back (rw whole (rw (mul-div_cancel (n + 1) some) (rw next refl)))))

lowered :
    (d : Decimal) (s : ℕ)
    → d.scale < s
    → s ≤ d.scale + 18
    → Fits d.underlying (10 ^ (s - d.scale))
    → set_scale
        (record d { underlying = times d.underlying (10 ^ (s - d.scale)); scale = s })
        d.scale
      ≡ ok d
unfolding set_scale
lowered d s more near fits =
    rw (lt→ltb d.scale s more, factor (s - d.scale) (omega arith))
      (ap (λ (x : ℤ). ok (record d { underlying = x }))
        (divided-times d.underlying (10 ^ (s - d.scale)) (pow_pos (s - d.scale)) fits))

-- A decimal whose scale is raised by at most 18 and lowered again is the decimal it was, where the
-- number with more digits fits 64 bits.
pub set_scale-set_scale :
    (d : Decimal) (s : ℕ)
    → d.scale ≤ s
    → s ≤ d.scale + 18
    → Fits d.underlying (10 ^ (s - d.scale))
    → (set_scale d s >>= λ e. set_scale e d.scale) ≡ ok d
set_scale-set_scale d s above near fits = elim (le_or_lt s d.scale) [
  | inl same ↦ rw (unchanged d s (omega arith)) (unchanged d d.scale refl)
  | inr more ↦ rw (raised d s more near) (lowered d s more near fits)
]
