-- ===== src/Binary/ReadEx.antt =====
-- src/binary/read_ex.rs. Arithmetic wraps, as in a release build; `usize` has 64 bits.
use clickhouse_srv.Common.{
  ℕ, zero, suc, ◌+◌, ◌-◌, ◌*◌, ◌%◌, ◌^◌, List, [], ◌++◌, none, some, length, ltb, leb, ◌==◌, ◌&&◌,
  if◌then◌else◌, bit_and, bit_or,
}
use clickhouse_srv.Common.Text.{Text, text}
use clickhouse_srv.Errors.{
  Error, Outcome, ok, err, would_block, driver, overflow, of_io_error, of_utf8_error,
}
use clickhouse_srv.Errors.Utf8.{utf8_fault}
use clickhouse_srv.Scalar.{Scalar, u8}
use clickhouse_srv.Binary.Reader.{Reader, Read, pure, raise, panic, diverge, lift, ◌>>=◌, ◌>>◌}

abbrev pub max_stack_buffer_len : ℕ
max_stack_buffer_len = 1024

-- The bound on the rounds of a loop that the input alone ends. Each round takes a byte, and no
-- buffer in memory has as many.
abbrev pub max_rounds : ℕ
max_rounds = 2 ^ 64

unfoldable pub would_block_error : Error
unfolding of_io_error
would_block_error = of_io_error (record { kind = would_block; message = text "would block" })

-- `vec![0_u8; n]` and the like: a capacity above `isize::MAX` panics.
unfoldable pub allocate {ℓ} : {S : Type ℓ} → ℕ → Reader S (Unit {ℓ})
allocate n = if ltb n (2 ^ 63) then pure tt else panic

-- `x << s` on a u64: the distance is taken modulo 64, and high bits are lost.
unfoldable pub shift_left : ℕ → ℕ → ℕ
shift_left x s = x * 2 ^ (s % 64) % 2 ^ 64

-- `String::from_utf8`.
unfoldable pub from_utf8 : List ℕ → Outcome Text
from_utf8 bs = elim (utf8_fault 0 bs) [
  | none ↦ ok bs
  | some (i, n) ↦ err (of_utf8_error (record { valid_up_to = i; error_len = n }))
]

module _ {S : Type 0} ⦃r : Read S⦄ where
  -- `want` bytes are still to be filled.
  unfoldable pub read_bytes_loop : ℕ → ℕ → Reader S (List ℕ)
  read_bytes_loop zero want = if want == 0 then pure [] else diverge
  read_bytes_loop (suc fuel) want = if want == 0 then pure [] else do
    got ← r.read want
    if length got == 0
        then raise would_block_error
        else do rest ← read_bytes_loop fuel (want - length got); pure (got ++ rest)

  -- Each round fills a byte at least, so `n` rounds are enough.
  unfoldable pub read_bytes : ℕ → Reader S (List ℕ)
  read_bytes n = read_bytes_loop n n

  unfoldable pub read_scalar : {V : Type 0} → Scalar V → Reader S V
  read_scalar sc = do buffer ← read_bytes (length sc.buffer); lift (sc.unmarshal buffer)

  -- `x`, `s` and `i` are the variables of the source.
  unfoldable pub read_uvarint_loop : ℕ → ℕ → ℕ → ℕ → Reader S ℕ
  read_uvarint_loop zero x s i = diverge
  read_uvarint_loop (suc fuel) x s i = do
    b ← read_scalar u8
    if ltb b 0x80
        then (if i == 9 && ltb 1 b
            then raise (driver overflow)
            else pure (bit_or x (shift_left b s)))
        else read_uvarint_loop fuel (bit_or x (shift_left (bit_and b 0x7f) s)) ((s + 7) % 2 ^ 32)
            ((i + 1) % 2 ^ 64)

  unfoldable pub read_uvarint : Reader S ℕ
  read_uvarint = read_uvarint_loop max_rounds 0 0 0

  unfoldable pub read_string : Reader S Text
  read_string = do
    str_len ← read_uvarint
    allocate str_len
    buffer ← read_bytes str_len
    lift (from_utf8 buffer)

  -- Short strings go to a buffer on the stack, longer ones to the heap.
  unfoldable pub skip_string : Reader S (Unit {0})
  skip_string = do
    str_len ← read_uvarint
    if leb str_len max_stack_buffer_len
        then (do read_bytes str_len; pure tt)
        else (do allocate str_len; read_bytes str_len; pure tt)
