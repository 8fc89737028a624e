-- ===== src/Binary/Gives.antt =====
-- What a reader on a cursor takes off the front of the input, put together step by step.
use mathlib.Core.Path.{subst}
use clickhouse_srv.Common.{
  append-nil, lt→ltb, ℕ, ◌^◌, ◌<◌, ◌≡◌, refl, List, [], ◌++◌, length, none, append_assoc,
}
use clickhouse_srv.Common.Text.{Text}
use clickhouse_srv.Errors.{Error, Outcome, ok, err, panicked, diverged}
use clickhouse_srv.Errors.Utf8.{utf8_fault}
use clickhouse_srv.Scalar.{Scalar}
use clickhouse_srv.Binary.Reader.{Reader, pure, raise, lift, ◌>>=◌}
use clickhouse_srv.Binary.ReadEx.{read_bytes, allocate, read_scalar, read_uvarint, read_string}
use clickhouse_srv.Binary.Cursor.{cursor, Cursor}
use clickhouse_srv.Binary.Varint.{varint}
use clickhouse_srv.Binary.RoundTrip.{
  read_bytes-append, read_uvarint-varint, text_bytes, read_string-text_bytes,
}

-- What a reader ends with that leaves `rest`.
abbrev pub leaving : {A : Type 0} → Cursor → Outcome A → Outcome (A × Cursor)
leaving rest (ok a) = ok (a, rest)
leaving rest (err e) = err e
leaving rest panicked = panicked
leaving rest diverged = diverged

-- `p` takes the bytes `bs`, whatever follows them, and ends with `o`.
pub record Gives {A : Type 0} (p : Reader Cursor A) (bs : List ℕ) (o : Outcome A) : Type 0 where
  pub at : (rest : Cursor) → p (bs ++ rest) ≡ leaving rest o

pub Gives-pure : {A : Type 0} (a : A) → Gives (pure a) [] (ok a)
unfolding pure
Gives-pure a = record { at = λ rest. refl }

pub Gives-raise : {A : Type 0} (e : Error) → Gives (raise {A = A} e) [] (err e)
unfolding raise
Gives-raise e = record { at = λ rest. refl }

pub Gives-bind :
    {A C : Type 0} (p : Reader Cursor A) (f : A → Reader Cursor C) (bs cs : List ℕ) (a : A)
    (o : Outcome C)
    → Gives p bs (ok a)
    → Gives (f a) cs o
    → Gives (p >>= f) (bs ++ cs) o
unfolding ◌>>=◌
Gives-bind p f bs cs a o gp gf = record {
  at = λ rest. rw (append_assoc bs cs rest) (rw (gp.at (cs ++ rest)) (gf.at rest));
}

-- Texts that `read_string` takes: shorter than any allocation, and in UTF-8.
abbrev pub Readable : Text → Type 0
Readable t = (length t < 2 ^ 63) × (utf8_fault 0 t ≡ none)

pub Gives-uvarint : (v : ℕ) → v < 2 ^ 64 → Gives read_uvarint (varint v) (ok v)
Gives-uvarint v h = record { at = λ rest. read_uvarint-varint v rest h }

Gives-string : (t : Text) → Readable t → Gives read_string (text_bytes t) (ok t)
Gives-string t (short, valid) = record { at = λ rest. read_string-text_bytes t rest short valid }

pub Gives-scalar :
    {V : Type 0} (sc : Scalar V) (v : V) (bs : List ℕ)
    → length bs ≡ length sc.buffer
    → sc.unmarshal bs ≡ ok v
    → Gives (read_scalar sc) bs (ok v)
unfolding read_scalar ◌>>=◌
Gives-scalar sc v bs e back = record {
  at = λ rest. rw (← e) (rw (read_bytes-append bs rest) (rw back));
}

-- Steps that begin with a number or a text.
pub number_then :
    {C : Type 0} (v : ℕ) (f : ℕ → Reader Cursor C) (cs : List ℕ) (o : Outcome C)
    → v < 2 ^ 64
    → Gives (f v) cs o
    → Gives (read_uvarint >>= f) (varint v ++ cs) o
number_then v f cs o h g = Gives-bind read_uvarint f (varint v) cs v o (Gives-uvarint v h) g

pub text_then :
    {C : Type 0} (t : Text) (f : Text → Reader Cursor C) (cs : List ℕ) (o : Outcome C)
    → Readable t
    → Gives (f t) cs o
    → Gives (read_string >>= f) (text_bytes t ++ cs) o
text_then t f cs o h g = Gives-bind read_string f (text_bytes t) cs t o (Gives-string t h) g

-- A step that takes nothing, and a last one that only makes a value.
pub Gives-free :
    {A C : Type 0} (p : Reader Cursor A) (f : A → Reader Cursor C) (bs : List ℕ) (a : A)
    (o : Outcome C)
    → Gives p [] (ok a)
    → Gives (f a) bs o
    → Gives (p >>= f) bs o
Gives-free p f bs a o gp gf = Gives-bind p f [] bs a o gp gf

pub Gives-map :
    {A C : Type 0} (p : Reader Cursor A) (f : A → C) (bs : List ℕ) (a : A)
    → Gives p bs (ok a)
    → Gives (p >>= λ a. pure (f a)) bs (ok (f a))
Gives-map p f bs a gp =
    subst (λ (bs : List ℕ). Gives (p >>= λ a. pure (f a)) bs (ok (f a))) (append-nil bs)
      (Gives-bind p (λ a. pure (f a)) bs [] a (ok (f a)) gp (Gives-pure (f a)))

pub Gives-read_bytes : (n : ℕ) (bs : List ℕ) → length bs ≡ n → Gives (read_bytes n) bs (ok bs)
Gives-read_bytes n bs e = record { at = λ rest. rw (← e) (read_bytes-append bs rest) }

pub Gives-allocate : (n : ℕ) → n < 2 ^ 63 → Gives (allocate n) [] (ok tt)
unfolding allocate
Gives-allocate n h = rw (lt→ltb n (2 ^ 63) h) (Gives-pure tt)

pub Gives-lift : {A : Type 0} (o : Outcome A) (a : A) → o ≡ ok a → Gives (lift o) [] (ok a)
unfolding lift
Gives-lift o a e = rw e (Gives-pure a)
