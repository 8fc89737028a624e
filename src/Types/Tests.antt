-- ===== src/Types/Tests.antt =====
-- Runs of src/types; the first is a test of the source.
use clickhouse_srv.Common.{◌≡◌, refl, true, arith}
use clickhouse_srv.Common.Text.{text, decimal}
use clickhouse_srv.Common.Int.{pos, negsuc}
use clickhouse_srv.Errors.{ok, ◌>>=◌}
use clickhouse_srv.Types.SqlType.{uint8, nullable, to_string, int_text}
use clickhouse_srv.Types.Decimal.{Decimal, default_decimal, eq, set_scale, decimal2str}
use clickhouse_srv.Types.Decimal.Scale.{set_scale-eq, set_scale-set_scale}

to_string_test : to_string (nullable uint8) ≡ text "Nullable(UInt8)"
unfolding to_string
to_string_test = refl

-- 2.0004 and -0.05
abbrev two : Decimal
two = record default_decimal { underlying = pos 20004 }

abbrev less : Decimal
less = record default_decimal { underlying = negsuc 4; scale = 2 }

decimal2str_test : decimal2str two ≡ text "2.0004"
unfolding decimal2str decimal int_text
decimal2str_test = refl

set_scale-eq_example : (set_scale two 6 >>= λ e. eq two e) ≡ ok true
set_scale-eq_example = set_scale-eq two 6 (omega arith) (omega arith)

set_scale-set_scale_example : (set_scale less 5 >>= λ e. set_scale e 2) ≡ ok less
set_scale-set_scale_example = set_scale-set_scale less 5 (omega arith) (omega arith) (omega arith)
