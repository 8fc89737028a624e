-- ===== src/Binary/Uvarint.antt =====
-- src/binary/uvarint.rs
pub mod Writes
use clickhouse_srv.Common.{ℕ, zero, suc, ◌+◌, ◌/◌, ◌%◌, ◌^◌, ◌≤◌, ◌<◌, List, bit_or, arith}
use clickhouse_srv.Errors.{Outcome, ok, ◌>>=◌}
use clickhouse_srv.Scalar.{store}
use mathlib.Core.Logic.{dite}
use mathlib.Core.WellFounded.{Acc, WellFounded}
use native.Mathlib.Decide.{dec_le}

below_accessible : (k n : ℕ) → n < k → Acc ◌<◌ n
below_accessible zero n h = absurd (omega arith)
below_accessible (suc k) n h = Acc.intro n (λ m hm. below_accessible k m (omega arith))

pub lt_wf : WellFounded ◌<◌
unfolding below_accessible
lt_wf = record { apply = λ n. below_accessible (suc n) n (omega arith) }

pub shift_below : (v : ℕ) → 0x80 ≤ v → v / 2 ^ 7 < v
shift_below v h = omega arith

-- `while mx >= 0x80 { … }` and the last byte; an index past the buffer panics.
unfoldable pub put_uvarint_loop : List ℕ → ℕ → (mx : ℕ) → Acc ◌<◌ mx → Outcome (List ℕ × ℕ)
put_uvarint_loop buf i mx (Acc.intro _ smaller) =
    dite (dec_le 0x80 mx)
      (λ h. do
        buf' ← store buf i (bit_or (mx % 256) 0x80)
        put_uvarint_loop buf' (i + 1) (mx / 2 ^ 7) (smaller (mx / 2 ^ 7) (shift_below mx h)))
      (λ h. do buf' ← store buf i (mx % 256); ok (buf', i + 1))

unfoldable pub put_uvarint : List ℕ → ℕ → Outcome (List ℕ × ℕ)
unfolding put_uvarint_loop lt_wf dec_le store
put_uvarint buffer x = put_uvarint_loop buffer 0 x (lt_wf.apply x)
