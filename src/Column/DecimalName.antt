-- ===== src/Column/DecimalName.antt =====
-- `parse_decimal` of src/types/column/factory.rs.
use clickhouse_srv.Common.{
  ℕ, zero, suc, ◌+◌, ◌^◌, List, [], ◌∷◌, length, take, drop, not, ◌&&◌, ◌||◌, Option, none, some,
  ltb, leb, ◌==◌, if◌then◌else◌,
}
use clickhouse_srv.Common.Text.{Text, text, text_eq}
use clickhouse_srv.Errors.{Outcome, ok, ◌>>=◌}
use clickhouse_srv.Errors.Index.{slice}
use clickhouse_srv.Types.Decimal.{NoBits, n32, n64, from_precision}
use clickhouse_srv.Column.TypeName.{starts_with, parse_unsigned}

-- What the pass over the bytes finds: the size, and the last places of the parentheses.
pub record Scan : Type 0 where
  pub nobits : Option NoBits
  pub open_index : Option ℕ
  pub close_index : Option ℕ

unfoldable pub scan_start : Scan
scan_start = record { nobits = none; open_index = none; close_index = none }

-- A parenthesis opens: the text in front of it names the size. Another text ends the parse.
opened : Text → ℕ → Scan → Option Scan
opened source idx found =
    let front = take idx source in
    if text_eq front (text "Decimal")
    then some (record found { open_index = some idx })
    else if text_eq front (text "Decimal32")
    then some (record found { nobits = some n32; open_index = some idx })
    else if text_eq front (text "Decimal64")
    then some (record found { nobits = some n64; open_index = some idx })
    else none

closed : ℕ → ℕ → Scan → Scan
closed byte idx found = if byte == 41 then record found { close_index = some idx } else found

-- The bytes from `idx` on are still to be looked at.
unfoldable pub scan : Text → ℕ → Text → Scan → Option Scan
unfolding opened closed
scan source idx [] found = some found
scan source idx (byte ∷ bytes) found =
    elim (if byte == 40 then opened source idx found else some found) [
      | none ↦ none
      | some next ↦ scan source (idx + 1) bytes (closed byte idx next)
    ]

-- The number of bytes of a white space that a text starts with, or 0.
white_prefix : Text → ℕ
white_prefix [] = 0
white_prefix (a ∷ rest) = if (leb 9 a && leb a 13) || a == 32 then 1 else elim rest [
  | [] ↦ 0
  | b ∷ rest' ↦ if a == 194 && (b == 133 || b == 160) then 2 else elim rest' [
    | [] ↦ 0
    | c ∷ _ ↦
        if (a == 225 && b == 154 && c == 128)
          || (a == 226
              && b == 128
              && ((leb 128 c && leb c 138) || c == 168 || c == 169 || c == 175))
          || (a == 226 && b == 129 && c == 159)
          || (a == 227 && b == 128 && c == 128)
        then 3
        else 0
  ]
]

-- White space is taken off the front; a text has no more of it than bytes.
trim_start : ℕ → Text → Text
unfolding white_prefix
trim_start zero s = s
trim_start (suc fuel) s =
    let width = white_prefix s in
    let rest = trim_start fuel (drop width s) in if width == 0 then s else rest

trim_end : Text → Text
unfolding trim_start
trim_end [] = []
trim_end (c ∷ cs) =
    let rest = c ∷ trim_end cs in
    elim (trim_start (length (c ∷ cs)) (c ∷ cs)) [ [] ↦ [] | _ ∷ _ ↦ rest ]

unfoldable pub trim : Text → Text
unfolding trim_start trim_end
trim s = trim_end (trim_start (length s) s)

-- `split(',')`: one part more than there are commas.
cons_first : ℕ → List Text → List Text
cons_first c [] = (c ∷ []) ∷ []
cons_first c (part ∷ parts) = (c ∷ part) ∷ parts

unfoldable pub split_comma : Text → List Text
unfolding cons_first
split_comma [] = [] ∷ []
split_comma (c ∷ cs) =
    let parts = split_comma cs in if c == 44 then [] ∷ parts else cons_first c parts

-- The cells: the precision and the scale. A third one ends the parse.
unfoldable pub read_cells : List Text → Option (Option ℕ × Option ℕ)
unfolding trim
read_cells [] = some (none, none)
read_cells (p ∷ []) = some (parse_unsigned (2 ^ 8) (trim p), none)
read_cells (p ∷ s ∷ []) = some (parse_unsigned (2 ^ 8) (trim p), parse_unsigned (2 ^ 8) (trim s))
read_cells (p ∷ s ∷ _ ∷ _) = none

-- The last `match` of the source where no size is named, and where one is.
unsized : Option ℕ → Option ℕ → Option (ℕ × (ℕ × NoBits))
unsized (some precision) (some scale) =
    if ltb precision scale then none else elim (from_precision precision) [
      | none ↦ none
      | some nobits ↦ some (precision, (scale, nobits))
    ]
unsized _ _ = none

default_precision : NoBits → ℕ
default_precision n32 = 9
default_precision n64 = 18

sized : NoBits → Option ℕ → Option (ℕ × (ℕ × NoBits))
sized bits none = none
sized bits (some scale) = some (default_precision bits, (scale, bits))

-- The parameters between the parentheses.
parameters : Option NoBits → Text → Option (ℕ × (ℕ × NoBits))
unfolding read_cells split_comma unsized sized default_precision
parameters (some bits) inner = sized bits (parse_unsigned (2 ^ 8) inner)
parameters none inner = elim (read_cells (split_comma inner)) [
  | none ↦ none
  | some (precision, scale) ↦ unsized precision scale
]

found_parameters : Text → Scan → Outcome (Option (ℕ × (ℕ × NoBits)))
unfolding parameters
found_parameters source found = elim found.open_index [
  | none ↦ ok none
  | some start ↦ elim found.close_index [
    | none ↦ ok none
    | some end ↦ slice source (start + 1) end >>= λ inner. ok (parameters found.nobits inner)
  ]
]

unfoldable pub parse_decimal : Text → Outcome (Option (ℕ × (ℕ × NoBits)))
unfolding scan scan_start found_parameters
parse_decimal source =
    if ltb (length source) 12 || not (starts_with source (text "Decimal"))
    then ok none
    else elim (scan source 0 source scan_start) [
      | none ↦ ok none
      | some found ↦ found_parameters source found
    ]
