-- ===== src/Types/Decimal.antt =====
-- src/types/decimal.rs. The underlying number is an i64, and products wrap, as in a release build.
pub mod Scale
use clickhouse_srv.Common.{
  ℕ, zero, suc, ◌+◌, ◌-◌, ◌*◌, ◌/◌, ◌^◌, [], ◌∷◌, ◌++◌, length, take, drop, replicate, Bool, false,
  Option, none, some, ltb, leb, ◌==◌, if◌then◌else◌,
}
use clickhouse_srv.Common.Text.{Text}
use clickhouse_srv.Common.Int.{ℤ, pos, negsuc, to_word, of_word}
use clickhouse_srv.Errors.{Outcome, ok, panicked, ◌>>=◌}
use clickhouse_srv.Types.SqlType.{int_text}

pub data NoBits : Type 0 where
  n32 n64 : NoBits

pub record Decimal : Type 0 where
  pub underlying : ℤ
  pub nobits : NoBits
  pub precision : ℕ
  pub scale : ℕ

abbrev pub default_decimal : Decimal
default_decimal = record { underlying = pos 0; precision = 9; scale = 4; nobits = n32 }

-- `FACTORS10[i]`: an index past the last power that fits is a panic.
unfoldable pub factor10 : ℕ → Outcome ℕ
factor10 i = if leb i 18 then ok (10 ^ i) else panicked

-- `a * factor` and `a / factor` for an i64 and a positive factor.
unfoldable pub times : ℤ → ℕ → ℤ
times (pos n) k = of_word (2 ^ 63) (to_word (2 ^ 64) (pos (n * k)))
times (negsuc n) k = of_word (2 ^ 63) (to_word (2 ^ 64) (negsuc ((n + 1) * k - 1)))

negate : ℕ → ℤ
negate zero = pos 0
negate (suc n) = negsuc n

unfoldable pub divided : ℤ → ℕ → ℤ
unfolding negate
divided (pos n) k = pos (n / k)
divided (negsuc n) k = negate ((n + 1) / k)

unfoldable pub int_eq : ℤ → ℤ → Bool
int_eq (pos m) (pos n) = m == n
int_eq (pos m) (negsuc n) = false
int_eq (negsuc m) (pos n) = false
int_eq (negsuc m) (negsuc n) = m == n

unfoldable pub from_precision : ℕ → Option NoBits
from_precision precision =
    if leb precision 9 then some n32 else if leb precision 18 then some n64 else none

-- `PartialEq::eq`
unfoldable pub eq : Decimal → Decimal → Outcome Bool
unfolding factor10 times int_eq
eq d other =
    if ltb d.scale other.scale
    then (do
      factor ← factor10 (other.scale - d.scale)
      ok (int_eq other.underlying (times d.underlying factor)))
    else if d.scale == other.scale
    then ok (int_eq d.underlying other.underlying)
    else do
      factor ← factor10 (d.scale - other.scale)
      ok (int_eq d.underlying (times other.underlying factor))

-- `Decimal::new`
unfoldable pub new_decimal : ℤ → ℕ → Outcome Decimal
new_decimal underlying scale =
    if ltb 18 scale
    then panicked
    else ok (record { underlying = underlying; precision = 18; scale = scale; nobits = n64 })

unfoldable pub set_scale : Decimal → ℕ → Outcome Decimal
unfolding factor10 times divided
set_scale d scale =
    if ltb scale d.scale
    then (do
      factor ← factor10 (d.scale - scale)
      ok (record d { underlying = divided d.underlying factor; scale = scale }))
    else if scale == d.scale
    then ok d
    else do
      factor ← factor10 (scale - d.scale)
      ok (record d { underlying = times d.underlying factor; scale = scale })

-- `while r.len() < scale { r.insert(0, '0') }`
pad : ℕ → Text → Text
pad scale r = replicate (scale - length r) 48 ++ r

-- A text that starts with the point gets a zero in front.
with_zero : Text → Text
with_zero [] = []
with_zero (c ∷ cs) = if c == 46 then 48 ∷ c ∷ cs else c ∷ cs

unfoldable pub decimal2str : Decimal → Text
unfolding pad with_zero
decimal2str d =
    let r = pad d.scale (int_text d.underlying) in
    let place = length r - d.scale in with_zero (take place r ++ (46 ∷ drop place r))
