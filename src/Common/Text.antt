-- ===== src/Common/Text.antt =====
-- Rust strings as the list of their UTF-8 bytes, literals, and the numerals of `{}` and `{:x}`.
use Prim.Native.Nat.{ℕ, zero, suc, ◌+◌, ◌/◌, ◌%◌}
use Prim.Native.Char.{code}
use Prim.Native.String.{String}
use mathlib.Core.Bool.{Bool, true, false, ◌&&◌}
use mathlib.Core.List.{List, [], ◌∷◌}
use clickhouse_srv.Common.Tests.{ltb, ◌==◌, if◌then◌else◌}

-- The bytes of a text.
abbrev pub Text : Type 0
Text = List ℕ

-- A literal of the source; all of them are ASCII.
abbrev pub text : String → Text
text String.[] = []
text (String.◌∷◌ c s) = code c ∷ text s

-- `==` of two byte strings.
unfoldable pub text_eq : Text → Text → Bool
text_eq [] [] = true
text_eq [] (y ∷ ys) = false
text_eq (x ∷ xs) [] = false
text_eq (x ∷ xs) (y ∷ ys) = x == y && text_eq xs ys

-- `{}` and `{:x}` of an unsigned integer. A number has at most as many digits as its value, plus one.
abbrev pub digit : ℕ → ℕ
digit d = if ltb d 10 then 48 + d else 87 + d

unfoldable pub numeral_loop : ℕ → ℕ → ℕ → Text → Text
numeral_loop zero base n acc = acc
numeral_loop (suc fuel) base n acc =
    let acc' = digit (n % base) ∷ acc in
    let rest = numeral_loop fuel base (n / base) acc' in if ltb n base then acc' else rest

unfoldable pub decimal : ℕ → Text
unfolding numeral_loop
decimal n = numeral_loop (suc n) 10 n []

unfoldable pub hexadecimal : ℕ → Text
unfolding numeral_loop
hexadecimal n = numeral_loop (suc n) 16 n []
