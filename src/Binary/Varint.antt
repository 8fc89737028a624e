-- ===== src/Binary/Varint.antt =====
-- The variable-length integers of the protocol, written down without loops or buffers: seven bits
-- to a byte, lowest first, with the top bit set on every byte but the last.
use clickhouse_srv.Common.{
  ℕ, zero, suc, ◌+◌, ◌/◌, ◌%◌, ◌^◌, ◌≤◌, ◌<◌, ◌≡◌, refl, List, [], ◌∷◌, length, All, ltb,
  if◌then◌else◌, arith,
}
use native.Mathlib.Nat.{pow-suc}

-- `v`, with `k` bytes at most before the last.
unfoldable pub groups : ℕ → ℕ → List ℕ
groups zero v = v ∷ []
groups (suc k) v = if ltb v 128 then v ∷ [] else (v % 128 + 128) ∷ groups k (v / 128)

-- Ten bytes are enough for 64 bits.
unfoldable pub varint : ℕ → List ℕ
unfolding groups
varint v = groups 9 v

pub length-groups : (k v : ℕ) → (1 ≤ length (groups k v)) × (length (groups k v) ≤ suc k)
unfolding groups
length-groups zero v = omega arith
length-groups (suc k) v = ground (arith, length-groups k (v / 128))

pub groups-bytes : (k v : ℕ) → v < 128 ^ suc k → All (λ b. b < 256) (groups k v)
unfolding groups
groups-bytes zero v h = omega arith
groups-bytes (suc k) v h =
    ground (arith, groups-bytes k (v / 128) (omega (arith, pow-suc 128 (suc k))))

pub groups-last : (k v : ℕ) → v < 128 → groups k v ≡ v ∷ []
unfolding groups
groups-last zero v h = refl
groups-last (suc k) v h = ground arith

pub groups-more : (k v : ℕ) → 128 ≤ v → groups (suc k) v ≡ (v % 128 + 128) ∷ groups k (v / 128)
unfolding groups
groups-more k v h = ground arith
