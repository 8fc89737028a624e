-- ===== src/Column/Branch/Shorter.antt =====
-- The names of the inner types of src/types/column/factory.rs are shorter than the names of the types.
use clickhouse_srv.Common.{
  ℕ, ◌+◌, ◌-◌, ◌≤◌, ◌≡◌, refl, List, [], ◌∷◌, length, take, drop, Bool, true, false, Bool-cases,
  ◌&&◌, leb, leb→le, Option, none, some, ◌⊎◌, inl, inr, All, arith, length-take, if◌then◌else◌,
}
use clickhouse_srv.Common.Text.{Text, text}
use clickhouse_srv.Common.Int.{ℤ}
use clickhouse_srv.Errors.{Outcome, ok, err, panicked, diverged, ◌>>=◌}
use clickhouse_srv.Types.Decimal.{NoBits}
use clickhouse_srv.Column.TypeName.{
  starts_with, is_char_boundary, str_slice, parse_nullable_type, parse_fixed_string,
  parse_array_type,
}
use clickhouse_srv.Column.DecimalName.{parse_decimal}
use clickhouse_srv.Column.Branch.{
  TypeParsers, Branch, nullable_of, array_of, enums8, enums16, date_times64, unsupported, any_eq,
  match_str, named_arms, later_parsers, after_array, after_fixed, after_nullable, unnamed, branch,
}

-- The inner type of a branch, where it is named by the client, has a name shorter by two at least.
abbrev pub Short : ℕ → Branch → Type 0
Short n (nullable_of inner) = length inner + 2 ≤ n
Short n (array_of inner) = length inner + 2 ≤ n
Short n _ = Unit {0}

abbrev pub AllShort : ℕ → Outcome Branch → Type 0
AllShort n (ok b) = Short n b
AllShort n _ = Unit {0}

abbrev ShortName : ℕ → Outcome (Option Text) → Type 0
ShortName n (ok (some t)) = length t + 2 ≤ n
ShortName n _ = Unit {0}

first_true : (a b : Bool) → (a && b) ≡ true → a ≡ true
first_true true b e = refl
first_true false b e = e

-- A slice that leaves out bytes in front and the last.
slice-ShortName :
    (source : Text) (k : ℕ) (f : Text → Option Text)
    → 1 ≤ k
    → ((t : Text) → (f t ≡ none) ⊎ (f t ≡ some t))
    → ShortName (1 + length source) (str_slice source k (length source - 1) >>= λ t. ok (f t))
unfolding str_slice
slice-ShortName source k f front keeps =
    elim (Bool-cases (
      leb k (length source - 1)
      && leb (length source - 1) (length source)
      && (is_char_boundary source k && is_char_boundary source (length source - 1)))) [
        | inl e ↦ rw e (elim (keeps (take (length source - 1 - k) (drop k source))) [
          | inl gone ↦ rw gone tt
          | inr kept ↦ rw kept (
              omega (
                arith,
                length-take (length source - 1 - k) (drop k source),
                leb→le k (length source - 1) (first_true _ _ (first_true _ _ e)),
              ))
        ])
        | inr e ↦ rw e tt
      ]

cut_or_none :
    (b : Bool) (t : Text)
    → ((if b then none else some t) ≡ none) ⊎ ((if b then none else some t) ≡ some t)
cut_or_none true t = inl refl
cut_or_none false t = inr refl

nullable-ShortName : (name : Text) → ShortName (1 + length name) (parse_nullable_type name)
unfolding parse_nullable_type
nullable-ShortName name = elim (Bool-cases (starts_with name (text "Nullable"))) [
  | inl e ↦ rw e (
      slice-ShortName name 9 (λ t. if starts_with t (text "Nullable") then none else some t)
        (omega arith) (λ t. cut_or_none (starts_with t (text "Nullable")) t))
  | inr e ↦ rw e tt
]

array-ShortName : (name : Text) → ShortName (1 + length name) (parse_array_type name)
unfolding parse_array_type
array-ShortName name = elim (Bool-cases (starts_with name (text "Array"))) [
  | inl e ↦ rw e (slice-ShortName name 6 some (omega arith) (λ t. inr refl))
  | inr e ↦ rw e tt
]

module _ (parsers : TypeParsers) where
  abbrev ShortArm : ℕ → Option Branch → Type 0
  ShortArm n none = Unit {0}
  ShortArm n (some b) = Short n b

  -- A branch that is found in the list of names.
  match_str-Short :
      (n : ℕ) (arms : List (List Text × Branch)) (name : Text)
      → All (λ arm. Short n arm.1) arms
      → ShortArm n (match_str arms name)
  unfolding match_str
  match_str-Short n [] name short = tt
  match_str-Short n ((names, b) ∷ arms) name short = elim (Bool-cases (any_eq name names)) [
    | inl e ↦ rw e short.0
    | inr e ↦ rw e (match_str-Short n arms name short.1)
  ]

  named_arms-Short : (n : ℕ) → All (λ arm. Short n arm.1) named_arms
  unfolding named_arms
  named_arms-Short n = (
    tt,
    (tt, (tt, (tt, (tt, (tt, (tt, (tt, (tt, (tt, (tt, (tt, (tt, (tt, (tt, (tt, tt))))))))))))))),
  )

  later-Short : (n : ℕ) (name : Text) → Short n (later_parsers parsers name)
  unfolding later_parsers
  later-Short n name =
      by_results (parsers.parse_enum8 name) (parsers.parse_enum16 name)
        (parsers.parse_date_time64 name)
    where
      by_results :
          (a b : Option (List (Text × ℤ))) (c : Option (ℕ × Option Text))
          → Short n (elim a as (λ _. Branch) [
            | some items ↦ enums8 items
            | none ↦ elim b as (λ _. Branch) [
              | some items ↦ enums16 items
              | none ↦ elim c as (λ _. Branch) [
                | some (precision, timezone) ↦ date_times64 precision timezone
                | none ↦ unsupported
              ]
            ]
          ])
      by_results (some items) b c = tt
      by_results none (some items) c = tt
      by_results none none (some (precision, timezone)) = tt
      by_results none none none = tt

  by_decimal :
      (n : ℕ) (name : Text) (o : Outcome (Option (ℕ × (ℕ × NoBits))))
      → AllShort n (o >>= λ found. ok (after_array parsers name found))
  unfolding after_array
  by_decimal n name (ok (some (precision, (scale, nobits)))) = tt
  by_decimal n name (ok none) = later-Short n name
  by_decimal n name (err e) = tt
  by_decimal n name panicked = tt
  by_decimal n name diverged = tt

  by_array :
      (n : ℕ) (name : Text) (o : Outcome (Option Text))
      → ShortName n o
      → AllShort n (o >>= after_fixed parsers name)
  unfolding after_fixed
  by_array n name (ok (some t)) short = short
  by_array n name (ok none) short = by_decimal n name (parse_decimal name)
  by_array n name (err e) short = tt
  by_array n name panicked short = tt
  by_array n name diverged short = tt

  by_fixed :
      (name : Text) (o : Outcome (Option ℕ))
      → AllShort (1 + length name) (o >>= after_nullable parsers name)
  unfolding after_nullable
  by_fixed name (ok (some n)) = tt
  by_fixed name (ok none) =
      by_array (1 + length name) name (parse_array_type name) (array-ShortName name)
  by_fixed name (err e) = tt
  by_fixed name panicked = tt
  by_fixed name diverged = tt

  by_nullable :
      (name : Text) (o : Outcome (Option Text))
      → ShortName (1 + length name) o
      → AllShort (1 + length name) (o >>= unnamed parsers name)
  unfolding unnamed
  by_nullable name (ok (some t)) short = short
  by_nullable name (ok none) short = by_fixed name (parse_fixed_string name)
  by_nullable name (err e) short = tt
  by_nullable name panicked short = tt
  by_nullable name diverged short = tt

  pub branch-AllShort : (name : Text) → AllShort (1 + length name) (branch parsers name)
  unfolding branch
  branch-AllShort name =
      by_arm (match_str named_arms name)
        (match_str-Short (1 + length name) named_arms name (named_arms-Short (1 + length name)))
    where
      by_arm :
          (o : Option Branch)
          → ShortArm (1 + length name) o
          → AllShort (1 + length name) (elim o as (λ _. Outcome Branch) [
            | some found ↦ ok found
            | none ↦ parse_nullable_type name >>= unnamed parsers name
          ])
      by_arm (some found) short = short
      by_arm none short = by_nullable name (parse_nullable_type name) (nullable-ShortName name)
