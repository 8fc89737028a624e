-- ===== src/Binary/Reader.antt =====
-- Code that takes a `reader: &mut R` with `R: io::Read`: a function of the reader's state.
-- The state after an error is dropped, as src/connection.rs drops the cursor.
use clickhouse_srv.Common.{ℕ, List}
use clickhouse_srv.Errors.{Error, Outcome, ok, err, panicked, diverged}

abbrev pub Reader {ℓ} : Type ℓ → Type ℓ → Type ℓ
Reader S A = S → Outcome (A × S)

module _ {ℓ} {S A : Type ℓ} where
  unfoldable pub pure : A → Reader S A
  pure a s = ok (a, s)

  unfoldable pub raise : Error → Reader S A
  raise e s = err e

  unfoldable pub panic : Reader S A
  panic s = panicked

  unfoldable pub diverge : Reader S A
  diverge s = diverged

  unfoldable pub lift : Outcome A → Reader S A
  unfolding pure raise panic diverge
  lift (ok a) = pure a
  lift (err e) = raise e
  lift panicked = panic
  lift diverged = diverge

module _ {ℓ} {S A B : Type ℓ} where
  -- What follows a step, on its outcome.
  unfoldable pub continue : Outcome (A × S) → (A → Reader S B) → Outcome (B × S)
  continue (ok (a, s)) f = f a s
  continue (err e) f = err e
  continue panicked f = panicked
  continue diverged f = diverged

  infixl 5 ◌>>=◌ ◌>>◌
  -- Opening this opens the actions above.
  unfoldable pub ◌>>=◌ : Reader S A → (A → Reader S B) → Reader S B
  unfolding pure raise panic diverge lift continue
  ◌>>=◌ m f s = continue (m s) f

  abbrev pub ◌>>◌ : Reader S A → Reader S B → Reader S B
  m >> n = m >>= λ _. n

-- `io::Read`: `read n` fills at most `n` bytes; its errors are `Error::IO`.
pub record Read (S : Type 0) : Type 0 where
  pub read : ℕ → Reader S (List ℕ)
