-- ===== src/Binary/Cursor.antt =====
-- `io::Cursor` over bytes in memory, as src/connection.rs makes one: the bytes still to be read.
-- Its position is the number of bytes that are gone.
use clickhouse_srv.Common.{
  ◌⊎◌, le_or_lt, length-append, append-nil, drop_all, ne→==, ◌++◌, ℕ, zero, suc, ◌-◌, ◌≤◌, ◌<◌, ◌≡◌,
  refl, sym, ap, ◌∙◌, List, [], ◌∷◌, ◌++◌, length, take, drop, arith, append_assoc,
  take-append-drop, take_below, drop_below, length-take, inl, inr,
}
use clickhouse_srv.Errors.{ok, err, is_would_block}
use clickhouse_srv.Binary.Reader.{Read, Reader, pure, continue, ◌>>=◌}
use clickhouse_srv.Binary.ReadEx.{read_bytes, read_bytes_loop, would_block_error}
use clickhouse_srv.Binary.Framing.{Extension, Framed, Agrees}

abbrev pub Cursor : Type 0
Cursor = List ℕ

unfoldable pub cursor_read : ℕ → Reader Cursor (List ℕ)
cursor_read n c = ok (take n c, drop n c)

instance abbrev pub cursor : Read Cursor
cursor = record { read = cursor_read }

-- The position of a cursor over `buffer` that has `c` left.
unfoldable pub position : List ℕ → Cursor → ℕ
position buffer c = length buffer - length c

-- What a cursor leads to is a suffix of what it has left.
abbrev pub cursor_extension : Extension Cursor
cursor_extension = record {
  extend = λ c more. c ++ more;
  Leads = λ c c'. (front : List ℕ) × (c ≡ front ++ c');
  Leads-refl = λ c. ([], refl);
  Leads-trans = λ {s} {t} {u} (f, p) (g, q).
      (f ++ g, p ∙ (ap (λ (r : List ℕ). f ++ r) q ∙ sym (append_assoc f g u)));
}

-- Rounds of `read_bytes_loop`: the last, one at the end of the input, and one that takes bytes.
loop_done : (fuel : ℕ) (c : Cursor) → read_bytes_loop fuel 0 c ≡ ok ([], c)
unfolding read_bytes_loop ◌>>=◌
loop_done zero c = refl
loop_done (suc fuel) c = refl

loop_empty :
    (fuel want : ℕ)
    → suc want ≤ fuel
    → read_bytes_loop {S = Cursor} fuel (suc want) [] ≡ err would_block_error
unfolding read_bytes_loop cursor_read ◌>>=◌ would_block_error
loop_empty zero want h = absurd (omega arith)
loop_empty (suc fuel) want h = rw (ne→== (suc want) 0 (omega arith))

loop_round :
    (fuel want b : ℕ) (c : Cursor)
    → read_bytes_loop (suc fuel) (suc want) (b ∷ c)
      ≡ continue
          (read_bytes_loop fuel (want - length (take want c)) (drop want c))
          (λ rest. pure ((b ∷ take want c) ++ rest))
unfolding read_bytes_loop cursor_read ◌>>=◌ would_block_error
loop_round fuel want b c =
    let same : suc want - suc (length (take want c)) ≡ want - length (take want c) = omega arith in
    rw (ne→== (suc want) 0 (omega arith), ne→== (suc (length (take want c))) 0 (omega arith), same)

-- `read_bytes` on a cursor takes exactly `n` bytes, or reports `WouldBlock`.
pub read_bytes-enough :
    (n : ℕ) (c : Cursor) → n ≤ length c → read_bytes n c ≡ ok (take n c, drop n c)
unfolding read_bytes continue pure
read_bytes-enough zero c h = loop_done 0 c
read_bytes-enough (suc n) [] h = absurd (omega arith)
read_bytes-enough (suc n) (b ∷ c) h =
    let none_left : n - length (take n c) ≡ 0 = omega (arith, length-take n c) in
    rw (loop_round, none_left, loop_done, append-nil)

pub read_bytes-short : (n : ℕ) (c : Cursor) → length c < n → read_bytes n c ≡ err would_block_error
unfolding read_bytes continue pure
read_bytes-short zero c h = absurd (omega arith)
read_bytes-short (suc n) [] h = loop_empty (suc n) n (omega arith)
read_bytes-short (suc n) (b ∷ c) h =
    let left : n - length (take n c) ≡ suc (n - length c - 1) = omega (arith, length-take n c) in
    rw (loop_round, left, drop_all n c (omega arith), loop_empty n (n - length c - 1) (omega arith))

-- So it does on a part of the input what it does on the whole.
pub read_bytes-Framed : (n : ℕ) → Framed cursor_extension (read_bytes n)
read_bytes-Framed n = record { at = λ c more. by_length c more (le_or_lt n (length c)) }
  where
    by_length :
        (c more : List ℕ)
        → (n ≤ length c) ⊎ (length c < n)
        → Agrees cursor_extension c more (read_bytes n c) (read_bytes n (c ++ more))
    by_length c more (inl h) = rw (read_bytes-enough n c h) (
      read_bytes-enough n (c ++ more) (omega (arith, length-append c more))
          ∙ rw (take_below n c more h, drop_below n c more h),
      (take n c, sym (take-append-drop n c)),
    )
    by_length c more (inr h) =
        rw (read_bytes-short n c h) (λ b. unfold would_block_error is_would_block in cc b)
