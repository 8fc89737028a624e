-- ===== src/Column/TypeName/Parses.antt =====
-- The parsers of src/types/column/factory.rs on texts that `Display` makes.
use clickhouse_srv.Common.{
  ℕ, zero, suc, ◌+◌, ◌-◌, ◌*◌, ◌/◌, ◌%◌, ◌≤◌, ◌<◌, ◌≡◌, refl, sym, ap, ◌∙◌, [], ◌∷◌, ◌++◌, length,
  drop, get_elem?, true, false, some, arith, append_assoc, length-append, ltb, ◌==◌, Bool-cases,
  lt→ltb, le→leb, ne→==, le→ltb-false, le_or_lt, inl, inr, take_prefix, drop_prefix,
}
use clickhouse_srv.Common.Text.{Text, decimal, numeral_loop}
use clickhouse_srv.Errors.{ok}
use clickhouse_srv.Column.TypeName.{
  is_char_boundary, str_slice, parse_unsigned, parse_digits, parse_nonempty,
}

-- A text that begins with an ASCII character.
abbrev pub Ascii : Text → Type 0
Ascii name = (c : ℕ) × (cs : Text) × (name ≡ c ∷ cs) × (c < 128)

parse_digit :
    (modulus acc d : ℕ) (rest : Text)
    → d < 10
    → acc * 10 + d < modulus
    → parse_digits modulus acc ((48 + d) ∷ rest) ≡ parse_digits modulus (acc * 10 + d) rest
unfolding parse_digits
parse_digit modulus acc d rest small fits =
    let value : 48 + d - 48 ≡ d = omega arith in
    rw (value, le→leb 48 (48 + d) (omega arith), le→leb (48 + d) 57 (omega arith), lt→ltb _ _ fits)

parse_numeral :
    (modulus fuel n : ℕ) (acc : Text)
    → n < fuel
    → n < modulus
    → parse_digits modulus 0 (numeral_loop fuel 10 n acc) ≡ parse_digits modulus n acc
unfolding numeral_loop
parse_numeral modulus zero n acc enough fits = absurd (omega arith)
parse_numeral modulus (suc fuel) n acc enough fits = elim (le_or_lt 10 n) [
  | inr one ↦
      let self : n % 10 ≡ n = omega arith in
      rw (lt→ltb n 10 one, self)
        (rw (lt→ltb n 10 one) (
          parse_digit modulus 0 n acc one (omega arith)
          ∙ ap (λ v. parse_digits modulus v acc) (omega arith)))
  | inl more ↦
      let digit_small : n % 10 < 10 = omega arith in
      let whole : n / 10 * 10 + n % 10 ≡ n = omega arith in
      rw (le→ltb-false n 10 more, lt→ltb (n % 10) 10 digit_small)
        (parse_numeral modulus fuel (n / 10) ((48 + n % 10) ∷ acc) (omega arith) (omega arith)
          ∙ (parse_digit modulus (n / 10) (n % 10) acc digit_small (omega arith)
              ∙ ap (λ v. parse_digits modulus v acc) whole))
]

-- A numeral has a digit at least, and begins with one.
abbrev Numeral : Text → Type 0
Numeral t = (c : ℕ) × (cs : Text) × (t ≡ c ∷ cs) × (48 ≤ c) × (c < 128)

Numeral-numeral_loop : (fuel n : ℕ) (acc : Text) → Numeral (numeral_loop (suc fuel) 10 n acc)
unfolding numeral_loop
Numeral-numeral_loop zero n acc =
    let small : n % 10 < 10 = omega arith in
    rw (lt→ltb (n % 10) 10 small) (elim (Bool-cases (ltb n 10)) [
      | inl b ↦ rw b (48 + n % 10, acc, refl, omega arith, omega arith)
      | inr b ↦ rw b (48 + n % 10, acc, refl, omega arith, omega arith)
    ])
Numeral-numeral_loop (suc fuel) n acc =
    let small : n % 10 < 10 = omega arith in
    rw (lt→ltb (n % 10) 10 small) (elim (Bool-cases (ltb n 10)) [
      | inl b ↦ rw b (48 + n % 10, acc, refl, omega arith, omega arith)
      | inr b ↦ rw b (Numeral-numeral_loop fuel (n / 10) ((48 + n % 10) ∷ acc))
    ])

parse_plain :
    (modulus c : ℕ) (cs : Text)
    → 48 ≤ c
    → parse_unsigned modulus (c ∷ cs) ≡ parse_digits modulus 0 (c ∷ cs)
unfolding parse_unsigned parse_nonempty
parse_plain modulus c cs digit =
    let plain : (c == 43) ≡ false = ne→== c 43 λ same. omega (arith, digit, same) in rw plain

-- A number that the type has is parsed from its numeral.
pub parse_unsigned-decimal :
    (modulus n : ℕ) → n < modulus → parse_unsigned modulus (decimal n) ≡ some n
unfolding decimal parse_digits
parse_unsigned-decimal modulus n fits =
    let (c, cs, e, digit, ascii) = Numeral-numeral_loop n n [] in
    ap (parse_unsigned modulus) e
    ∙ (parse_plain modulus c cs digit
        ∙ (ap (parse_digits modulus 0) (sym e)
            ∙ parse_numeral modulus (suc n) n [] (omega arith) fits))

pub Ascii-decimal : (n : ℕ) → Ascii (decimal n)
unfolding decimal
Ascii-decimal n = let (c, cs, e, digit, ascii) = Numeral-numeral_loop n n [] in (c, cs, e, ascii)

-- What stands between a prefix and a closing parenthesis.
get_elem_behind : (xs ys : Text) → get_elem? (xs ++ ys) (length xs) ≡ get_elem? ys 0
get_elem_behind [] ys = refl
get_elem_behind (x ∷ xs) ys = get_elem_behind xs ys

boundary :
    (xs ys : Text) (i b : ℕ) → length xs ≡ i → b < 128 → is_char_boundary (xs ++ b ∷ ys) i ≡ true
unfolding is_char_boundary
boundary xs ys i b e h =
    rw (← e) (rw (get_elem_behind xs (b ∷ ys), is_char_boundary) (rw (lt→ltb b 128 h)))

pub str_slice-inner :
    (k : ℕ) (front inner : Text)
    → length front ≡ k
    → Ascii inner
    → str_slice (front ++ (inner ++ 41 ∷ [])) k (length (front ++ (inner ++ 41 ∷ [])) - 1)
      ≡ ok inner
unfolding str_slice
str_slice-inner k front inner e (c, cs, first, ascii) =
    let source : Text = front ++ (inner ++ 41 ∷ []) in
    let size : length source - 1 ≡ length front + length inner =
      omega (arith, length-append front (inner ++ 41 ∷ []), length-append inner (41 ∷ [])) in
    let start : is_char_boundary source k ≡ true =
      rw first (boundary front (cs ++ 41 ∷ []) k c e ascii) in
    let end : is_char_boundary source (length front + length inner) ≡ true =
      rw (← append_assoc front inner (41 ∷ [])) (
        boundary (front ++ inner) [] (length front + length inner) 41 (length-append front inner)
          (omega arith)) in
    let width : length front + length inner - k ≡ length inner = omega (arith, e) in
    let cut : drop k source ≡ inner ++ 41 ∷ [] = rw (← e) (drop_prefix front (inner ++ 41 ∷ [])) in
    rw (
      size,
      start,
      end,
      le→leb k (length front + length inner) (omega (arith, e)),
      le→leb (length front + length inner) (length source) (omega (arith, size)),
      cut,
      width,
      take_prefix inner (41 ∷ []),
    )
