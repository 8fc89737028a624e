-- ===== src/Errors/Index.antt =====
-- Indexing and slicing, which panic out of range.
use clickhouse_srv.Common.{
  ℕ, zero, suc, ◌+◌, ◌-◌, ◌<◌, ◌≡◌, refl, ap, List, [], ◌∷◌, ◌++◌, length, take, drop, ◌&&◌, leb,
  if◌then◌else◌, arith, le→leb,
}
use clickhouse_srv.Errors.{Outcome, ok, panicked}

module _ {ℓ} {A : Type ℓ} where
  -- `xs[i]`
  unfoldable pub index_at : List A → ℕ → Outcome A
  index_at [] i = panicked
  index_at (x ∷ xs) zero = ok x
  index_at (x ∷ xs) (suc i) = index_at xs i

  -- `xs[start..end]`
  unfoldable pub slice : List A → ℕ → ℕ → Outcome (List A)
  slice xs start end =
      if leb start end && leb end (length xs)
      then ok (take (end - start) (drop start xs))
      else panicked

  pub index_at-front :
      (xs ys : List A) (i : ℕ) → i < length xs → index_at (xs ++ ys) i ≡ index_at xs i
  unfolding index_at
  index_at-front [] ys i h = absurd (omega arith)
  index_at-front (x ∷ xs) ys zero h = refl
  index_at-front (x ∷ xs) ys (suc i) h = index_at-front xs ys i (omega arith)

  pub index_at-behind :
      (xs ys : List A) (i : ℕ) → index_at (xs ++ ys) (length xs + i) ≡ index_at ys i
  unfolding index_at
  index_at-behind [] ys i = ap (index_at ys) (omega arith)
  index_at-behind (x ∷ xs) ys i =
      let next : suc (length xs) + i ≡ suc (length xs + i) = omega arith in
      rw next (index_at-behind xs ys i)

  pub slice_whole : (xs : List A) (n : ℕ) → n ≡ length xs → slice xs 0 n ≡ ok xs
  unfolding slice
  slice_whole xs n e =
      let here : length xs - 0 ≡ length xs = omega arith in
      rw e (
        rw (
          le→leb 0 (length xs) (omega arith),
          le→leb (length xs) (length xs) (omega arith),
          here,
          take_whole xs,
        ))
    where
      take_whole : (ys : List A) → take (length ys) ys ≡ ys
      take_whole [] = refl
      take_whole (y ∷ ys) = ap (λ (t : List A). y ∷ t) (take_whole ys)
