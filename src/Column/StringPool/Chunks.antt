-- ===== src/Column/StringPool/Chunks.antt =====
-- One push of src/types/column/string_pool.rs on a pool whose last chunk is used up to the position.
use clickhouse_srv.Common.{
  ℕ, suc, ◌+◌, ◌-◌, ◌%◌, ◌^◌, ◌≤◌, ◌<◌, ◌≡◌, refl, ap, ◌∙◌, List, [], ◌∷◌, ◌++◌, length, drop,
  drop_behind, false, arith, append_assoc, length-append, take_prefix, le→leb, lt→ltb, le→ltb-false,
}
use clickhouse_srv.Errors.{ok, ◌>>=◌}
use clickhouse_srv.Protocols.Hello.{is_empty}
use clickhouse_srv.Column.StringPool.{
  StringPtr, StringPool, free_in, free_space, reserve, last_length, try_allocate, allocate_loop,
  overwrite, in_last, write_all,
}

-- The last chunk holds the bytes `used` and, behind them, `rest`.
abbrev pub state : List (List ℕ) → List ℕ → List ℕ → List StringPtr → ℕ → StringPool
state olds used rest pointers capacity = record {
  chunks = olds ++ (used ++ rest) ∷ [];
  pointers = pointers;
  position = length used;
  capacity = capacity;
}

is_empty-snoc : (olds : List (List ℕ)) (c : List ℕ) → is_empty (olds ++ c ∷ []) ≡ false
is_empty-snoc [] c = refl
is_empty-snoc (o ∷ olds) c = refl

free_in-snoc :
    (olds : List (List ℕ)) (c : List ℕ) (p : ℕ)
    → free_in (olds ++ c ∷ []) p ≡ (2 ^ 64 + length c - p) % 2 ^ 64
unfolding free_in
free_in-snoc [] c p = refl
free_in-snoc (o ∷ []) c p = refl
free_in-snoc (o ∷ o' ∷ olds) c p = free_in-snoc (o' ∷ olds) c p

last_length-snoc :
    (olds : List (List ℕ)) (c : List ℕ) → last_length (olds ++ c ∷ []) ≡ ok (length c)
unfolding last_length
last_length-snoc [] c = refl
last_length-snoc (o ∷ []) c = refl
last_length-snoc (o ∷ o' ∷ olds) c = last_length-snoc (o' ∷ olds) c

in_last-snoc :
    (f : List ℕ → List ℕ) (olds : List (List ℕ)) (c : List ℕ)
    → in_last f (olds ++ c ∷ []) ≡ olds ++ f c ∷ []
unfolding in_last
in_last-snoc f [] c = refl
in_last-snoc f (o ∷ []) c = refl
in_last-snoc f (o ∷ o' ∷ olds) c = ap (λ (t : List (List ℕ)). o ∷ t) (in_last-snoc f (o' ∷ olds) c)

-- The pointer to the bytes that are allocated next.
abbrev pub next_pointer : List (List ℕ) → List ℕ → ℕ → StringPtr
next_pointer olds used size = record { chunk = length olds; shift = length used; len = size }

free_space-state :
    (olds : List (List ℕ)) (used rest : List ℕ) (pointers : List StringPtr) (capacity : ℕ)
    → length used + length rest < 2 ^ 63
    → free_space (state olds used rest pointers capacity) ≡ length rest
unfolding free_space
free_space-state olds used rest pointers capacity small =
    free_in-snoc olds (used ++ rest) (length used) ∙ omega (arith, length-append used rest)

-- What is left of a chunk when `bs` are written behind its used bytes.
overwrite-used :
    (used rest bs : List ℕ)
    → overwrite (length used + length bs - length bs) bs (used ++ rest)
      ≡ (used ++ bs) ++ drop (length bs) rest
overwrite-used used rest bs =
    let start : length used + length bs - length bs ≡ length used = omega arith in
    rw start (rw (take_prefix used rest, append_assoc, drop_behind used rest (length bs)))

-- The state after `bs` were put behind the used bytes.
abbrev pub after : List (List ℕ) → List ℕ → List ℕ → List StringPtr → ℕ → List ℕ → StringPool
after olds used rest pointers capacity bs =
    state olds (used ++ bs) (drop (length bs) rest)
      (pointers ++ next_pointer olds used (length bs) ∷ []) capacity

module _ (olds : List (List ℕ)) (used rest : List ℕ) (pointers : List StringPtr)
    (capacity : ℕ) where
  pub try_allocate-state :
      (size : ℕ)
      → size ≤ length rest
      → try_allocate size (state olds used rest pointers capacity)
        ≡ ok (record {
          chunks = olds ++ (used ++ rest) ∷ [];
          pointers = pointers ++ next_pointer olds used size ∷ [];
          position = length used + size;
          capacity = capacity;
        })
  unfolding try_allocate
  try_allocate-state size room =
      let number : length (olds ++ (used ++ rest) ∷ []) - 1 ≡ length olds =
        omega (arith, length-append olds ((used ++ rest) ∷ [])) in
      let inside : length used + size ≤ length (used ++ rest) =
        omega (arith, length-append used rest) in
      rw (last_length-snoc olds (used ++ rest)) (rw (le→leb _ _ inside, number))

  -- A round with room enough allocates.
  pub allocate_loop-room :
      (fuel size : ℕ)
      → length used + length rest < 2 ^ 63
      → size ≤ length rest
      → allocate_loop (suc fuel) size (state olds used rest pointers capacity)
        ≡ try_allocate size (state olds used rest pointers capacity)
  unfolding allocate_loop
  allocate_loop-room fuel size small room = rw (
    free_space-state olds used rest pointers capacity small,
    le→ltb-false (length rest) size room,
    is_empty-snoc olds (used ++ rest),
  )

  -- One without adds a chunk.
  pub allocate_loop-full :
      (fuel size : ℕ)
      → length used + length rest < 2 ^ 63
      → length rest < size
      → allocate_loop (suc fuel) size (state olds used rest pointers capacity)
        ≡ (reserve size (state olds used rest pointers capacity) >>= allocate_loop fuel size)
  unfolding allocate_loop
  allocate_loop-full fuel size small room =
      rw (free_space-state olds used rest pointers capacity small, lt→ltb (length rest) size room)

  pub write_all-state :
      (bs : List ℕ)
      → write_all bs (record {
        chunks = olds ++ (used ++ rest) ∷ [];
        pointers = pointers ++ next_pointer olds used (length bs) ∷ [];
        position = length used + length bs;
        capacity = capacity;
      })
        ≡ after olds used rest pointers capacity bs
  unfolding write_all
  write_all-state bs = rw (
    in_last-snoc (overwrite (length used + length bs - length bs) bs) olds (used ++ rest),
    overwrite-used used rest bs,
    length-append used bs,
  )
