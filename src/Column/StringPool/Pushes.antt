-- ===== src/Column/StringPool/Pushes.antt =====
-- `push_bytes` of Column.StringPool on each state of a pool.
use clickhouse_srv.Common.{
  ℕ, suc, ◌+◌, ◌*◌, ◌%◌, ◌^◌, ◌≤◌, ◌<◌, ◌≡◌, ap, max, List, [], ◌∷◌, ◌++◌, length, replicate,
  Bool-cases, arith, length-replicate, lt→ltb, ltb, inl, inr,
}
use clickhouse_srv.Errors.{ok, ◌>>=◌}
use clickhouse_srv.Column.StringPool.{
  StringPtr, avg_str_size, with_capacity, free_space, zeros, reserve, allocate_loop, allocate,
  write_all, push_bytes,
}
use clickhouse_srv.Column.StringPool.Chunks.{
  state, after, try_allocate-state, allocate_loop-room, allocate_loop-full, write_all-state,
}

-- The size of the chunk that is added for a string of `size` bytes.
abbrev pub chunk_size : ℕ → ℕ → ℕ
chunk_size capacity size = max (capacity * avg_str_size % 2 ^ 64) size

abbrev pub cells : ℕ → List ℕ
cells n = replicate n 0

pub length-cells : (n : ℕ) → length (cells n) ≡ n
length-cells n = length-replicate n 0

-- A chunk that was added for `bs` takes them.
allocated :
    (olds : List (List ℕ)) (pointers : List StringPtr) (capacity n : ℕ) (bs : List ℕ)
    → n < 2 ^ 63
    → length bs ≤ n
    → (allocate_loop 1 (length bs) (state olds [] (cells n) pointers capacity) >>= λ pool.
        ok (write_all bs pool))
      ≡ ok (after olds [] (cells n) pointers capacity bs)
allocated olds pointers capacity n bs fits room =
    rw
      (
        allocate_loop-room olds [] (cells n) pointers capacity 0 (length bs)
            (omega (arith, length-cells n)) (omega (arith, length-cells n)),
        try_allocate-state olds [] (cells n) pointers capacity (length bs)
            (omega (arith, length-cells n)),
      )
      (ap ok (write_all-state olds [] (cells n) pointers capacity bs))

-- A pool without chunks adds one, whatever the size.
allocate_loop-first :
    (fuel size capacity : ℕ)
    → allocate_loop (suc fuel) size (with_capacity capacity)
      ≡ (reserve size (with_capacity capacity) >>= allocate_loop fuel size)
unfolding allocate_loop with_capacity
allocate_loop-first fuel size capacity =
    elim (Bool-cases (ltb (free_space (with_capacity capacity)) size)) [
      | inl b ↦ rw b
      | inr b ↦ rw b
    ]

reserve-first :
    (size capacity : ℕ)
    → chunk_size capacity size < 2 ^ 63
    → reserve size (with_capacity capacity)
      ≡ ok (state [] [] (cells (chunk_size capacity size)) [] capacity)
unfolding reserve zeros with_capacity
reserve-first size capacity fits = rw (lt→ltb _ _ fits)

pub push-first :
    (capacity : ℕ) (bs : List ℕ)
    → chunk_size capacity (length bs) < 2 ^ 63
    → push_bytes bs (with_capacity capacity)
      ≡ ok (after [] [] (cells (chunk_size capacity (length bs))) [] capacity bs)
unfolding push_bytes allocate
push-first capacity bs fits =
    rw (allocate_loop-first 1 (length bs) capacity, reserve-first (length bs) capacity fits)
      (allocated [] [] capacity (chunk_size capacity (length bs)) bs fits (omega arith))

module _ (olds : List (List ℕ)) (used rest : List ℕ) (pointers : List StringPtr) (capacity : ℕ)
    (bs : List ℕ) where
  pub push-room :
      length used + length rest < 2 ^ 63
      → length bs ≤ length rest
      → push_bytes bs (state olds used rest pointers capacity)
        ≡ ok (after olds used rest pointers capacity bs)
  unfolding push_bytes allocate
  push-room small room =
      rw
        (
          allocate_loop-room olds used rest pointers capacity 1 (length bs) small room,
          try_allocate-state olds used rest pointers capacity (length bs) room,
        )
        (ap ok (write_all-state olds used rest pointers capacity bs))

  pub push-full :
      length used + length rest < 2 ^ 63
      → length rest < length bs
      → chunk_size capacity (length bs) < 2 ^ 63
      → push_bytes bs (state olds used rest pointers capacity)
        ≡ ok (
            after
              (olds ++ (used ++ rest) ∷ [])
              []
              (cells (chunk_size capacity (length bs)))
              pointers
              capacity
              bs)
  unfolding push_bytes allocate reserve zeros
  push-full small full fits =
      rw
        (
          allocate_loop-full olds used rest pointers capacity 1 (length bs) small full,
          lt→ltb _ _ fits,
        )
        (allocated (olds ++ (used ++ rest) ∷ []) pointers capacity (chunk_size capacity (length bs))
          bs fits (omega arith))
