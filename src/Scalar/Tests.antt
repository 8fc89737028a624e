-- ===== src/Scalar/Tests.antt =====
-- Runs of the codecs of src/types/marshal.rs and src/types/unmarshal.rs.
use clickhouse_srv.Common.{◌≡◌, refl, [], ◌∷◌, arith}
use clickhouse_srv.Scalar.RoundTrip.{ReadsBack, unmarshal-marshal}
use clickhouse_srv.Common.Int.{negsuc}
use clickhouse_srv.Errors.{ok, panicked}
use clickhouse_srv.Scalar.{u16, u32, i32, scalar, p_i32}

marshal_minus_one : i32.marshal (negsuc 0) i32.buffer ≡ ok (255 ∷ 255 ∷ 255 ∷ 255 ∷ [])
unfolding i32
marshal_minus_one = refl

unmarshal_minus_two : i32.unmarshal (254 ∷ 255 ∷ 255 ∷ 255 ∷ []) ≡ ok (negsuc 1)
unfolding i32
unmarshal_minus_two = refl

marshal_short : u16.marshal 7 (0 ∷ []) ≡ panicked
unfolding u16
marshal_short = refl

unmarshal_word : u32.unmarshal (4 ∷ 3 ∷ 2 ∷ 1 ∷ []) ≡ ok 0x01020304
unfolding u32
unmarshal_word = refl

unmarshal-marshal_example : ReadsBack (scalar p_i32) (negsuc 6)
unmarshal-marshal_example = unmarshal-marshal p_i32 (negsuc 6) (omega arith)
