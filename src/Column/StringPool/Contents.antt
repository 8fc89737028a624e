-- ===== src/Column/StringPool/Contents.antt =====
-- The strings that a pool of src/types/column/string_pool.rs holds: its abstract view.
use clickhouse_srv.Common.{
  ℕ, ◌+◌, ◌^◌, ◌≤◌, ◌<◌, ◌≡◌, refl, ap, ◌∙◌, ◌⊎◌, List, [], ◌∷◌, ◌++◌, length, drop, arith, All,
  append_assoc, append-nil, length-append, length-drop, inl, inr, le_or_lt,
}
use clickhouse_srv.Errors.{ok, ◌>>=◌}
use clickhouse_srv.Errors.Index.{index_at, index_at-behind}
use clickhouse_srv.Column.StringPool.{
  StringPtr, StringPool, with_capacity, push_bytes, push_each, from_vec, get, len, strings_from,
  strings,
}
use clickhouse_srv.Column.StringPool.Chunks.{state, next_pointer, after}
use clickhouse_srv.Column.StringPool.Pushes.{
  chunk_size, cells, length-cells, push-first, push-room, push-full,
}
use clickhouse_srv.Column.StringPool.Points.{
  AllPoint, Points-used, Points-sealed, Points-next, AllPoint-map, AllPoint-snoc, AllPoint-get,
  AllPoint-length,
}

-- A pool without chunks holds nothing; another holds what its pointers name.
abbrev pub Holds : StringPool → List (List ℕ) → Type 0
Holds pool ss =
    ((pool ≡ with_capacity pool.capacity) × (ss ≡ []))
    ⊎ ((olds : List (List ℕ)) × (used rest : List ℕ) × (pool
          ≡ state olds used rest pool.pointers pool.capacity)
        × (length used + length rest < 2 ^ 63)
        × AllPoint olds used pool.pointers ss)

-- The states that a push leaves.
after-Holds :
    (olds : List (List ℕ)) (used rest : List ℕ) (pointers : List StringPtr) (capacity : ℕ)
    (ss : List (List ℕ)) (s : List ℕ)
    → length used + length rest < 2 ^ 63
    → length s ≤ length rest
    → AllPoint olds used pointers ss
    → Holds (after olds used rest pointers capacity s) (ss ++ s ∷ [])
after-Holds olds used rest pointers capacity ss s small room points = inr (
  olds,
  used ++ s,
  drop (length s) rest,
  refl,
  omega (arith, length-append used s, length-drop (length s) rest),
  AllPoint-snoc olds (used ++ s) (next_pointer olds used (length s)) s (Points-next olds used s)
      pointers ss
      (AllPoint-map olds olds used (used ++ s) (Points-used olds used s) pointers ss points),
)

-- A string that is pushed to a pool, where the chunk for it can be allocated, is put behind the strings
-- that the pool holds.
pub push-Holds :
    (pool : StringPool) (ss : List (List ℕ)) (s : List ℕ)
    → chunk_size pool.capacity (length s) < 2 ^ 63
    → Holds pool ss
    → (pool' : StringPool) × (push_bytes s pool ≡ ok pool')
      × Holds pool' (ss ++ s ∷ [])
      × (pool'.capacity ≡ pool.capacity)
push-Holds pool ss s fits (inl (e, none)) =
    let size : ℕ = chunk_size pool.capacity (length s) in
    (
      after [] [] (cells size) [] pool.capacity s,
      ap (push_bytes s) e ∙ push-first pool.capacity s fits,
      rw none (
          after-Holds [] [] (cells size) [] pool.capacity [] s (omega (arith, length-cells size))
            (omega (arith, length-cells size)) tt),
      refl,
    )
push-Holds pool ss s fits (inr (olds, used, rest, e, small, points)) =
    elim (le_or_lt (length s) (length rest)) [
      | inl room ↦ (
        after olds used rest pool.pointers pool.capacity s,
        ap (push_bytes s) e ∙ push-room olds used rest pool.pointers pool.capacity s small room,
        after-Holds olds used rest pool.pointers pool.capacity ss s small room points,
        refl,
      )
      | inr full ↦
          let size : ℕ = chunk_size pool.capacity (length s) in
          (
            after (olds ++ (used ++ rest) ∷ []) [] (cells size) pool.pointers pool.capacity s,
            ap (push_bytes s) e
                ∙ push-full olds used rest pool.pointers pool.capacity s small full fits,
            after-Holds (olds ++ (used ++ rest) ∷ []) [] (cells size) pool.pointers pool.capacity ss
                s (omega (arith, length-cells size)) (omega (arith, length-cells size))
                (AllPoint-map olds (olds ++ (used ++ rest) ∷ []) used []
                  (Points-sealed olds used rest) pool.pointers ss points),
            refl,
          )
    ]

-- `get` gives the string at each place that the pool holds, and panics behind the last.
pub get-Holds :
    (pool : StringPool) (ss : List (List ℕ)) (i : ℕ) → Holds pool ss → get pool i ≡ index_at ss i
unfolding get with_capacity index_at
get-Holds pool ss i (inl (e, none)) = ap (λ (q : StringPool). get q i) e ∙ rw none
get-Holds pool ss i (inr (olds, used, rest, e, small, points)) =
    ap (λ (q : StringPool). get q i) e ∙ AllPoint-get olds used rest pool.pointers ss i points

pub len-Holds : (pool : StringPool) (ss : List (List ℕ)) → Holds pool ss → len pool ≡ length ss
unfolding len with_capacity
len-Holds pool ss (inl (e, none)) = ap len e ∙ rw none
len-Holds pool ss (inr (olds, used, rest, e, small, points)) =
    AllPoint-length olds used pool.pointers ss points

strings_from-Holds :
    (pool : StringPool) (front ss : List (List ℕ)) (n : ℕ)
    → Holds pool (front ++ ss)
    → n ≡ length front
    → strings_from (length ss) n pool ≡ ok ss
unfolding strings_from index_at
strings_from-Holds pool front [] n h e = refl
strings_from-Holds pool front (s ∷ ss) n h e =
    let here : get pool n ≡ ok s =
      get-Holds pool (front ++ s ∷ ss) n h
      ∙ (ap (index_at (front ++ s ∷ ss)) (omega (arith, e)) ∙ index_at-behind front (s ∷ ss) 0) in
    let rest : strings_from (length ss) (n + 1) pool ≡ ok ss =
      strings_from-Holds pool (front ++ s ∷ []) ss (n + 1) (rw (append_assoc front (s ∷ []) ss) h)
        (omega (arith, length-append front (s ∷ []))) in
    rw (here, rest)

-- The iterator over a pool gives the strings that the pool holds.
pub strings-Holds : (pool : StringPool) (ss : List (List ℕ)) → Holds pool ss → strings pool ≡ ok ss
unfolding strings
strings-Holds pool ss h = rw (len-Holds pool ss h) (strings_from-Holds pool [] ss 0 h refl)

-- Sizes for which every chunk can be allocated.
abbrev pub Storable : ℕ → List (List ℕ) → Type 0
Storable capacity ss = All (λ s. chunk_size capacity (length s) < 2 ^ 63) ss

push_each-Holds :
    (pool : StringPool) (ss new : List (List ℕ))
    → Storable pool.capacity new
    → Holds pool ss
    → (pool' : StringPool) × (push_each new pool ≡ ok pool') × Holds pool' (ss ++ new)
unfolding push_each
push_each-Holds pool ss [] fits h = (pool, refl, rw append-nil h)
push_each-Holds pool ss (s ∷ new) fits h =
    let (pool', pushed, held, same) = push-Holds pool ss s fits.0 h in
    let (last, rest, all) = push_each-Holds pool' (ss ++ s ∷ []) new (rw same fits.1) held in
    (last, rw pushed rest, rw (← append_assoc ss (s ∷ []) new) all)

-- A pool made of strings, whose chunks can be allocated, gives them all back in their order.
pub strings-from_vec :
    (ss : List (List ℕ)) → Storable (length ss) ss → (from_vec ss >>= strings) ≡ ok ss
unfolding from_vec with_capacity
strings-from_vec ss fits =
    let (pool, made, held) =
      push_each-Holds (with_capacity (length ss)) [] ss fits (inl (refl, refl)) in
    rw made (strings-Holds pool ss held)
