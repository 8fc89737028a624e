-- ===== src/Column/StringPool/Points.antt =====
-- Pointers of src/types/column/string_pool.rs and the strings that they name.
use clickhouse_srv.Common.{
  ℕ, zero, suc, ◌≡◌, refl, sym, ap, ◌⊎◌, List, [], ◌∷◌, ◌++◌, length, take, drop, append_assoc,
  append-nil, take_prefix, drop_prefix, inl, inr,
}
use clickhouse_srv.Errors.{ok, ◌>>=◌}
use clickhouse_srv.Errors.Index.{index_at}
use clickhouse_srv.Column.StringPool.{StringPtr}
use clickhouse_srv.Column.StringPool.Chunks.{next_pointer}

-- The pointer `p` cuts the string `s` out of a chunk.
abbrev pub Cut : StringPtr → List ℕ → List ℕ → Type 0
Cut p s chunk =
    (front behind : List ℕ) × (chunk ≡ front ++ (s ++ behind))
    × (p.shift ≡ length front)
    × (p.len ≡ length s)

-- It stands in a chunk that is sealed, or in the used part of the last one.
abbrev pub Points : List (List ℕ) → List ℕ → StringPtr → List ℕ → Type 0
Points olds used p s =
    ((chunk : List ℕ) × (index_at olds p.chunk ≡ ok chunk) × Cut p s chunk)
    ⊎ ((p.chunk ≡ length olds) × Cut p s used)

-- The pointers name the strings, one after the other.
abbrev pub AllPoint : List (List ℕ) → List ℕ → List StringPtr → List (List ℕ) → Type 0
AllPoint olds used [] [] = Unit {0}
AllPoint olds used [] (s ∷ ss) = ⊥
AllPoint olds used (p ∷ ps) [] = ⊥
AllPoint olds used (p ∷ ps) (s ∷ ss) = Points olds used p s × AllPoint olds used ps ss

-- What stays where it is, whatever is put behind it.
pub Cut-more : (p : StringPtr) (s chunk more : List ℕ) → Cut p s chunk → Cut p s (chunk ++ more)
Cut-more p s chunk more (front, behind, e, shift, size) =
    (front, behind ++ more, rw e (rw (append_assoc, append_assoc)), shift, size)

pub index_at-more :
    {A : Type 0} (xs ys : List A) (i : ℕ) (x : A)
    → index_at xs i ≡ ok x
    → index_at (xs ++ ys) i ≡ ok x
unfolding index_at
index_at-more [] ys i x e = cc e
index_at-more (y ∷ xs) ys zero x e = e
index_at-more (y ∷ xs) ys (suc i) x e = index_at-more xs ys i x e

pub index_at-last : {A : Type 0} (xs : List A) (x : A) → index_at (xs ++ x ∷ []) (length xs) ≡ ok x
unfolding index_at
index_at-last [] x = refl
index_at-last (y ∷ xs) x = index_at-last xs x

pub Points-used :
    (olds : List (List ℕ)) (used more : List ℕ) (p : StringPtr) (s : List ℕ)
    → Points olds used p s
    → Points olds (used ++ more) p s
Points-used olds used more p s (inl old) = inl old
Points-used olds used more p s (inr (here, cut)) = inr (here, Cut-more p s used more cut)

pub Points-sealed :
    (olds : List (List ℕ)) (used rest : List ℕ) (p : StringPtr) (s : List ℕ)
    → Points olds used p s
    → Points (olds ++ (used ++ rest) ∷ []) [] p s
Points-sealed olds used rest p s (inl (chunk, at, cut)) =
    inl (chunk, index_at-more olds ((used ++ rest) ∷ []) p.chunk chunk at, cut)
Points-sealed olds used rest p s (inr (here, cut)) =
    inl (used ++ rest, rw here (index_at-last olds (used ++ rest)), Cut-more p s used rest cut)

pub Points-next :
    (olds : List (List ℕ)) (used s : List ℕ)
    → Points olds (used ++ s) (next_pointer olds used (length s)) s
Points-next olds used s =
    inr (refl, (used, [], ap (λ (t : List ℕ). used ++ t) (sym (append-nil s)), refl, refl))

pub AllPoint-map :
    (olds olds' : List (List ℕ)) (used used' : List ℕ)
    → ((p : StringPtr) (s : List ℕ) → Points olds used p s → Points olds' used' p s)
    → (ps : List StringPtr) (ss : List (List ℕ)) → AllPoint olds used ps ss
    → AllPoint olds' used' ps ss
AllPoint-map olds olds' used used' f [] [] h = tt
AllPoint-map olds olds' used used' f [] (s ∷ ss) h = absurd h
AllPoint-map olds olds' used used' f (p ∷ ps) [] h = absurd h
AllPoint-map olds olds' used used' f (p ∷ ps) (s ∷ ss) (h, hs) =
    (f p s h, AllPoint-map olds olds' used used' f ps ss hs)

pub AllPoint-snoc :
    (olds : List (List ℕ)) (used : List ℕ) (p : StringPtr) (s : List ℕ)
    → Points olds used p s
    → (ps : List StringPtr) (ss : List (List ℕ)) → AllPoint olds used ps ss
    → AllPoint olds used (ps ++ p ∷ []) (ss ++ s ∷ [])
AllPoint-snoc olds used p s hp [] [] h = (hp, tt)
AllPoint-snoc olds used p s hp [] (t ∷ ss) h = absurd h
AllPoint-snoc olds used p s hp (q ∷ ps) [] h = absurd h
AllPoint-snoc olds used p s hp (q ∷ ps) (t ∷ ss) (h, hs) =
    (h, AllPoint-snoc olds used p s hp ps ss hs)

-- What a pointer gives.
Cut-get : (p : StringPtr) (s chunk : List ℕ) → Cut p s chunk → take p.len (drop p.shift chunk) ≡ s
Cut-get p s chunk (front, behind, e, shift, size) =
    rw (e, shift, size) (rw (drop_prefix front (s ++ behind), take_prefix s behind))

Points-get :
    (olds : List (List ℕ)) (used rest : List ℕ) (p : StringPtr) (s : List ℕ)
    → Points olds used p s
    → (index_at (olds ++ (used ++ rest) ∷ []) p.chunk >>= λ c. ok (take p.len (drop p.shift c)))
      ≡ ok s
Points-get olds used rest p s (inl (chunk, at, cut)) =
    rw (index_at-more olds ((used ++ rest) ∷ []) p.chunk chunk at) (ap ok (Cut-get p s chunk cut))
Points-get olds used rest p s (inr (here, cut)) = rw here (
    rw (index_at-last olds (used ++ rest))
      (ap ok (Cut-get p s (used ++ rest) (Cut-more p s used rest cut))))

pub AllPoint-get :
    (olds : List (List ℕ)) (used rest : List ℕ) (ps : List StringPtr) (ss : List (List ℕ)) (i : ℕ)
    → AllPoint olds used ps ss
    → (index_at ps i >>= λ p.
        index_at (olds ++ (used ++ rest) ∷ []) p.chunk >>= λ c. ok (take p.len (drop p.shift c)))
      ≡ index_at ss i
unfolding index_at
AllPoint-get olds used rest [] [] i h = refl
AllPoint-get olds used rest [] (s ∷ ss) i h = absurd h
AllPoint-get olds used rest (p ∷ ps) [] i h = absurd h
AllPoint-get olds used rest (p ∷ ps) (s ∷ ss) zero h = Points-get olds used rest p s h.0
AllPoint-get olds used rest (p ∷ ps) (s ∷ ss) (suc i) h = AllPoint-get olds used rest ps ss i h.1

pub AllPoint-length :
    (olds : List (List ℕ)) (used : List ℕ) (ps : List StringPtr) (ss : List (List ℕ))
    → AllPoint olds used ps ss
    → length ps ≡ length ss
AllPoint-length olds used [] [] h = refl
AllPoint-length olds used [] (s ∷ ss) h = absurd h
AllPoint-length olds used (p ∷ ps) [] h = absurd h
AllPoint-length olds used (p ∷ ps) (s ∷ ss) h = ap suc (AllPoint-length olds used ps ss h.1)
