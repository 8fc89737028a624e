-- ===== src/Binary/Framing.antt =====
-- What a reader does on a part of its input it does on the whole: the reason why
-- src/connection.rs may parse a buffer that is not complete and try again later.
use clickhouse_srv.Common.{ℕ, zero, suc, ◌≡◌, refl, Bool, true, false, List, ltb, if◌then◌else◌}
use clickhouse_srv.Errors.{Error, Outcome, ok, err, panicked, diverged, is_would_block}
use clickhouse_srv.Scalar.{Scalar, u8}
use clickhouse_srv.Binary.Reader.{Reader, Read, pure, raise, panic, diverge, lift, continue, ◌>>=◌}
use clickhouse_srv.Binary.ReadEx.{
  read_bytes, read_scalar, read_uvarint_loop, read_uvarint, read_string, skip_string, allocate,
  max_rounds,
}

-- How the state of a reader grows when bytes arrive behind its input, and which states it leads to.
pub record Extension (S : Type 0) : Type 1 where
  pub extend : S → List ℕ → S
  pub Leads : S → S → Type 0
  pub Leads-refl : (s : S) → Leads s s
  pub Leads-trans : {s t u : S} → Leads s t → Leads t u → Leads s u

module _ {S : Type 0} (x : Extension S) where
  -- The second outcome is the one on the longer input. Only a want of bytes may turn out otherwise.
  abbrev pub Agrees : {A : Type 0} → S → List ℕ → Outcome (A × S) → Outcome (A × S) → Type 0
  Agrees s more (ok (a, s')) o = (o ≡ ok (a, x.extend s' more)) × x.Leads s s'
  Agrees s more (err e) o = is_would_block e ≡ false → o ≡ err e
  Agrees s more panicked o = o ≡ panicked
  Agrees s more diverged o = o ≡ diverged

  pub record Framed {A : Type 0} (p : Reader S A) : Type 0 where
    pub at : (s : S) (more : List ℕ) → Agrees s more (p s) (p (x.extend s more))

  pub Framed-pure : {A : Type 0} (a : A) → Framed (pure a)
  unfolding pure
  Framed-pure a = record { at = λ s more. (refl, x.Leads-refl s) }

  pub Framed-raise : {A : Type 0} (e : Error) → Framed (raise {A = A} e)
  unfolding raise
  Framed-raise e = record { at = λ s more h. refl }

  pub Framed-panic : {A : Type 0} → Framed (panic {S = S} {A = A})
  unfolding panic
  Framed-panic = record { at = λ s more. refl }

  pub Framed-diverge : {A : Type 0} → Framed (diverge {S = S} {A = A})
  unfolding diverge
  Framed-diverge = record { at = λ s more. refl }

  pub Framed-lift : {A : Type 0} (o : Outcome A) → Framed (lift o)
  unfolding lift
  Framed-lift (ok a) = Framed-pure a
  Framed-lift (err e) = Framed-raise e
  Framed-lift panicked = Framed-panic
  Framed-lift diverged = Framed-diverge

  pub Framed-if :
      {A : Type 0} (b : Bool) (p q : Reader S A) → Framed p → Framed q → Framed (if b then p else q)
  Framed-if true p q fp fq = fp
  Framed-if false p q fp fq = fq

  -- A later step that starts from a state to which the earlier ones lead.
  Agrees-from :
      {A : Type 0} (s t : S) (more : List ℕ) (o o' : Outcome (A × S))
      → x.Leads s t
      → Agrees t more o o'
      → Agrees s more o o'
  Agrees-from s t more (ok (a, u)) o' l h = (h.0, x.Leads-trans l h.1)
  Agrees-from s t more (err e) o' l h = h
  Agrees-from s t more panicked o' l h = h
  Agrees-from s t more diverged o' l h = h

  continue-Agrees :
      {A B : Type 0} (f : A → Reader S B) (s : S) (more : List ℕ) (o o' : Outcome (A × S))
      → ((a : A) → Framed (f a))
      → Agrees s more o o'
      → Agrees s more (continue o f) (continue o' f)
  unfolding continue
  continue-Agrees f s more (ok (a, t)) o' ff (e, l) =
      rw e (Agrees-from s t more (f a t) _ l ((ff a).at t more))
  continue-Agrees f s more (err e) o' ff h = λ b. rw (h b)
  continue-Agrees f s more panicked o' ff h = rw h
  continue-Agrees f s more diverged o' ff h = rw h

  pub Framed-bind :
      {A B : Type 0} (p : Reader S A) (f : A → Reader S B)
      → Framed p
      → ((a : A) → Framed (f a))
      → Framed (p >>= f)
  unfolding ◌>>=◌
  Framed-bind p f fp ff = record {
    at = λ s more. continue-Agrees f s more (p s) (p (x.extend s more)) ff (fp.at s more);
  }

pub ruleset framed_rules =
    (Framed-pure, Framed-raise, Framed-panic, Framed-diverge, Framed-lift, Framed-if, Framed-bind)

pub allocate-Framed : {S : Type 0} (x : Extension S) (n : ℕ) → Framed x (allocate n)
unfolding allocate
allocate-Framed x n = search framed_rules

-- For a reader that fills buffers so, all of `ReadEx` does.
module _ {S : Type 0} ⦃r : Read S⦄ (x : Extension S)
    (fills : (n : ℕ) → Framed x (read_bytes n)) where
  pub read_scalar-Framed : {V : Type 0} (sc : Scalar V) → Framed x (read_scalar sc)
  unfolding read_scalar
  read_scalar-Framed sc = search (framed_rules, fills)

  read_uvarint_loop-Framed : (fuel v s i : ℕ) → Framed x (read_uvarint_loop fuel v s i)
  unfolding read_uvarint_loop
  read_uvarint_loop-Framed zero v s i = search framed_rules
  read_uvarint_loop-Framed (suc fuel) v s i = Framed-bind x _ _ (read_scalar-Framed u8) λ b.
      Framed-if x (ltb b 0x80) _ _ (Framed-if x _ _ _ (Framed-raise x _) (Framed-pure x _))
        (read_uvarint_loop-Framed fuel _ _ _)

  pub read_uvarint-Framed : Framed x read_uvarint
  unfolding read_uvarint
  read_uvarint-Framed = read_uvarint_loop-Framed max_rounds 0 0 0

  pub read_string-Framed : Framed x read_string
  unfolding read_string
  read_string-Framed = search (framed_rules, fills, allocate-Framed, read_uvarint-Framed)

  skip_string-Framed : Framed x skip_string
  unfolding skip_string
  skip_string-Framed = search (framed_rules, fills, allocate-Framed, read_uvarint-Framed)
