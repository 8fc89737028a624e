-- ===== src/Errors/Utf8.antt =====
-- `String::from_utf8`, which src/binary/read_ex.rs calls: the check of the standard library.
use clickhouse_srv.Common.{
  ℕ, ◌+◌, List, [], ◌∷◌, Bool, ◌&&◌, ◌||◌, Option, none, some, ltb, leb, ◌==◌, if◌then◌else◌,
}

abbrev in_range : ℕ → ℕ → ℕ → Bool
in_range lo hi b = leb lo b && leb b hi

abbrev is_continuation : ℕ → Bool
is_continuation b = in_range 0x80 0xbf b

-- The second byte after a lead byte of three or four.
abbrev second_of_three : ℕ → ℕ → Bool
second_of_three lead b =
    (lead == 0xe0 && in_range 0xa0 0xbf b)
    || ((in_range 0xe1 0xec lead && is_continuation b)
        || ((lead == 0xed && in_range 0x80 0x9f b)
            || (in_range 0xee 0xef lead && is_continuation b)))

abbrev second_of_four : ℕ → ℕ → Bool
second_of_four lead b =
    (lead == 0xf0 && in_range 0x90 0xbf b)
    || ((in_range 0xf1 0xf3 lead && is_continuation b) || (lead == 0xf4 && in_range 0x80 0x8f b))

-- The first fault from position `i` on: where its character starts, and how many bytes it spans if
-- the text goes on behind them.
unfoldable pub utf8_fault : ℕ → List ℕ → Option (ℕ × Option ℕ)
utf8_fault i [] = none
utf8_fault i (a ∷ []) =
    if ltb a 0x80 then none else if in_range 0xc2 0xf4 a then some (i, none) else some (i, some 1)
utf8_fault i (a ∷ b ∷ []) =
    let rest = utf8_fault (i + 1) (b ∷ []) in
    if ltb a 0x80
    then rest
    else if in_range 0xc2 0xdf a
    then (if is_continuation b then none else some (i, some 1))
    else if second_of_three a b || second_of_four a b
    then some (i, none)
    else some (i, some 1)
utf8_fault i (a ∷ b ∷ c ∷ []) =
    let one = utf8_fault (i + 1) (b ∷ c ∷ []) in
    let two = utf8_fault (i + 2) (c ∷ []) in
    if ltb a 0x80
    then one
    else if in_range 0xc2 0xdf a
    then (if is_continuation b then two else some (i, some 1))
    else if second_of_three a b
    then (if is_continuation c then none else some (i, some 2))
    else if second_of_four a b
    then (if is_continuation c then some (i, none) else some (i, some 2))
    else some (i, some 1)
utf8_fault i (a ∷ b ∷ c ∷ d ∷ rest) =
    let one = utf8_fault (i + 1) (b ∷ c ∷ d ∷ rest) in
    let two = utf8_fault (i + 2) (c ∷ d ∷ rest) in
    let three = utf8_fault (i + 3) (d ∷ rest) in
    let four = utf8_fault (i + 4) rest in
    if ltb a 0x80
    then one
    else if in_range 0xc2 0xdf a
    then (if is_continuation b then two else some (i, some 1))
    else if second_of_three a b
    then (if is_continuation c then three else some (i, some 2))
    else if second_of_four a b
    then (if is_continuation c
        then (if is_continuation d then four else some (i, some 3))
        else some (i, some 2))
    else some (i, some 1)
