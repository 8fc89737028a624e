-- ===== src/Block/Mirrors.antt =====
-- A reader on the data that src/types/block/compressed.rs decompressed does what it does on a buffer.
pub mod Load
use clickhouse_srv.Common.{
  ℕ, zero, suc, ◌-◌, ◌≤◌, ◌≡◌, refl, sym, ap, ◌∙◌, [], ◌∷◌, length, take, drop, Bool, true, false,
  ltb, ◌==◌, ◌&&◌, if◌then◌else◌, arith, append-nil, length-take, ne→==, le_or_lt, inl, inr,
}
use clickhouse_srv.Errors.{Error, Outcome, ok, err, panicked, diverged}
use clickhouse_srv.Errors
use clickhouse_srv.Scalar.{Scalar, u8}
use clickhouse_srv.Binary.Reader.{Reader, Read, pure, raise, panic, diverge, lift, continue, ◌>>=◌}
use clickhouse_srv.Binary.ReadEx.{
  read_bytes, read_bytes_loop, read_scalar, read_uvarint_loop, read_uvarint, read_string, allocate,
  max_rounds,
}
use clickhouse_srv.Binary.Cursor.{cursor, Cursor, read_bytes-enough, read_bytes-short}
use clickhouse_srv.Block.Compressed.{
  Codec, CompressedReader, take_left, compressed_read, compressed,
}

-- The outcome of the first of two steps that gave a value.
continue-ok :
    {A B : Type 0} (o : Outcome (A × Cursor)) (f : A → Reader Cursor B) (b : B) (rest : Cursor)
    → continue o f ≡ ok (b, rest)
    → (a : A) × (c : Cursor) × (o ≡ ok (a, c)) × (f a c ≡ ok (b, rest))
unfolding continue
continue-ok (ok (a, c)) f b rest h = (a, c, refl, h)
continue-ok (err e) f b rest h = cc h
continue-ok panicked f b rest h = cc h
continue-ok diverged f b rest h = cc h

-- An outcome on a buffer as one on bytes that were decompressed.
abbrev pub above : {A S : Type 0} → S → Outcome (A × Cursor) → Outcome (A × CompressedReader S)
above s (ok (a, c)) = ok (a, record { reader = s; left = c })
above s (err e) = err e
above s panicked = panicked
above s diverged = diverged

module _ {S : Type 0} where
  -- Where `p` gives a value on a buffer, `q` does on as many bytes that were decompressed.
  pub record Mirrors {A : Type 0} (p : Reader Cursor A) (q : Reader (CompressedReader S) A)
      : Type 0 where
    pub at :
        (c : Cursor) (s : S) (a : A) (rest : Cursor)
        → p c ≡ ok (a, rest)
        → q (record { reader = s; left = c }) ≡ ok (a, record { reader = s; left = rest })

  pub Mirrors-pure : {A : Type 0} (a : A) → Mirrors (pure a) (pure a)
  unfolding pure
  Mirrors-pure a = record { at = λ c s a' rest h. ap (above s) h }

  pub Mirrors-raise : {A : Type 0} (e : Error) → Mirrors (raise {A = A} e) (raise e)
  unfolding raise
  Mirrors-raise e = record { at = λ c s a rest h. cc h }

  pub Mirrors-panic : {A : Type 0} → Mirrors (panic {A = A}) panic
  unfolding panic
  Mirrors-panic = record { at = λ c s a rest h. cc h }

  pub Mirrors-diverge : {A : Type 0} → Mirrors (diverge {A = A}) diverge
  unfolding diverge
  Mirrors-diverge = record { at = λ c s a rest h. cc h }

  pub Mirrors-lift : {A : Type 0} (o : Outcome A) → Mirrors (lift o) (lift o)
  unfolding lift
  Mirrors-lift (ok a) = Mirrors-pure a
  Mirrors-lift (err e) = Mirrors-raise e
  Mirrors-lift panicked = Mirrors-panic
  Mirrors-lift diverged = Mirrors-diverge

  pub Mirrors-if :
      {A : Type 0} (b : Bool) (p p' : Reader Cursor A) (q q' : Reader (CompressedReader S) A)
      → Mirrors p q
      → Mirrors p' q'
      → Mirrors (if b then p else p') (if b then q else q')
  Mirrors-if true p p' q q' h h' = h
  Mirrors-if false p p' q q' h h' = h'

  pub Mirrors-bind :
      {A B : Type 0} (p : Reader Cursor A) (f : A → Reader Cursor B)
      (q : Reader (CompressedReader S) A) (g : A → Reader (CompressedReader S) B)
      → Mirrors p q
      → ((a : A) → Mirrors (f a) (g a))
      → Mirrors (p >>= f) (q >>= g)
  unfolding ◌>>=◌ continue
  Mirrors-bind p f q g h hf = record {
    at = λ c s b rest e.
        let (a, mid, first, second) = continue-ok (p c) f b rest e in
        rw (h.at c s a mid first) ((hf a).at mid s b rest second);
  }

pub ruleset mirror_rules = (
  Mirrors-pure, Mirrors-raise, Mirrors-panic, Mirrors-diverge, Mirrors-lift, Mirrors-if,
  Mirrors-bind,
)

module _ (codec : Codec) {S : Type 0} ⦃r : Read S⦄ where
  loop_done :
      (fuel : ℕ) (cr : CompressedReader S)
      → read_bytes_loop ⦃r = compressed codec⦄ fuel 0 cr ≡ ok ([], cr)
  unfolding read_bytes_loop ◌>>=◌ continue pure
  loop_done zero cr = refl
  loop_done (suc fuel) cr = refl

  -- Bytes that are left are taken in one round.
  loop_left :
      (fuel want : ℕ) (s : S) (c : Cursor)
      → want ≤ fuel
      → want ≤ length c
      → read_bytes_loop ⦃r = compressed codec⦄ fuel want (record { reader = s; left = c })
        ≡ ok (take want c, record { reader = s; left = drop want c })
  unfolding read_bytes_loop ◌>>=◌ compressed_read take_left continue pure
  loop_left fuel zero s c enough inside = loop_done fuel (record { reader = s; left = c })
  loop_left zero (suc want) s c enough inside = absurd (omega arith)
  loop_left (suc fuel) (suc want) s [] enough inside = absurd (omega arith)
  loop_left (suc fuel) (suc want) s (b ∷ c) enough inside =
      let none_left : suc want - suc (length (take want c)) ≡ 0 =
        omega (arith, length-take want c) in
      rw (
        ne→== (suc want) 0 (omega arith),
        ne→== (suc (length (take want c))) 0 (omega arith),
        none_left,
        loop_done,
        append-nil,
      )

  pub Mirrors-read_bytes :
      (n : ℕ) → Mirrors {S = S} (read_bytes n) (read_bytes ⦃r = compressed codec⦄ n)
  unfolding read_bytes
  Mirrors-read_bytes n = record {
    at = λ c s a rest h. elim (le_or_lt n (length c)) [
      | inl inside ↦
          loop_left n n s c (omega arith) inside
          ∙ ap (above s) (sym (read_bytes-enough n c inside) ∙ h)
      | inr short ↦ cc (sym (read_bytes-short n c short) ∙ h)
    ];
  }

  pub Mirrors-allocate : (n : ℕ) → Mirrors {S = S} (allocate n) (allocate n)
  unfolding allocate
  Mirrors-allocate n = search mirror_rules

  pub Mirrors-read_scalar :
      {V : Type 0} (sc : Scalar V)
      → Mirrors {S = S} (read_scalar sc) (read_scalar ⦃r = compressed codec⦄ sc)
  unfolding read_scalar
  Mirrors-read_scalar sc = search (mirror_rules, Mirrors-read_bytes)

  Mirrors-read_uvarint_loop :
      (fuel x s i : ℕ)
      → Mirrors {S = S}
          (read_uvarint_loop fuel x s i)
          (read_uvarint_loop ⦃r = compressed codec⦄ fuel x s i)
  unfolding read_uvarint_loop
  Mirrors-read_uvarint_loop zero x s i = Mirrors-diverge
  Mirrors-read_uvarint_loop (suc fuel) x s i = Mirrors-bind _ _ _ _ (Mirrors-read_scalar u8) λ b.
      Mirrors-if (ltb b 0x80) _ _ _ _
        (Mirrors-if (i == 9 && ltb 1 b) _ _ _ _ (Mirrors-raise _) (Mirrors-pure _))
        (Mirrors-read_uvarint_loop fuel _ _ _)

  pub Mirrors-read_uvarint : Mirrors {S = S} read_uvarint (read_uvarint ⦃r = compressed codec⦄)
  unfolding read_uvarint
  Mirrors-read_uvarint = Mirrors-read_uvarint_loop max_rounds 0 0 0

  pub Mirrors-read_string : Mirrors {S = S} read_string (read_string ⦃r = compressed codec⦄)
  unfolding read_string
  Mirrors-read_string =
      search (mirror_rules, Mirrors-read_uvarint, Mirrors-allocate, Mirrors-read_bytes)
