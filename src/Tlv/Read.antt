-- ===== src/Tlv/Read.antt =====
-- The reading half of tlv.c. A function that returns an `errf_t` leaves the position where the C
-- function leaves it; the values that it stores through pointers are its result. The buffers that
-- it allocates are taken to be available.
pub mod Safe
pub mod Tags
pub mod Session
use pivy.Prelude.{
  ℕ, zero, suc, List, [], ◌∷◌, not, ◌||◌, get_elem?, leb, ltb, ◌==◌, if◌then◌else◌, add_size,
  low_bits, bit_set, shift_in, none, some,
}
use pivy.Errf.{errf, no_error}
use pivy.Outcome.{err, fault, stuck, ◌>>=◌, ◌>>◌, pure, fail_if, verify, get, put}
use pivy.Tlv.{
  TlvContext, Tlv, top, length_error, tlv_at_end, tlv_rem, tlv_root_rem, tlv_ctx_push, tlv_ctx_pop,
  next_byte, next_bytes,
}

-- The do-while loop over the further bytes of a tag; `tag` is a `uint`.
unfoldable pub tag_loop : ℕ → ℕ → Tlv ℕ
tag_loop zero tag = λ ts. stuck
tag_loop (suc fuel) tag = do
  ts ← get
  fail_if (tlv_at_end ts) length_error
  d ← next_byte
  let tag' = shift_in 32 tag d
  if bit_set d 7 then tag_loop fuel tag' else pure tag'

-- The tag at the front of `tlv_read_tag`. A round of the loop takes a byte, so that one round for
-- each byte before the end of the context, and one more, is enough.
unfoldable pub read_tag_number : Tlv ℕ
read_tag_number = do
  ts ← get
  fail_if (tlv_at_end ts) length_error
  d ← next_byte
  ts' ← get
  if low_bits d 5 == 0x1F then tag_loop (suc (tlv_rem ts')) d else pure d

-- `for (; octs > 0; --octs)`; `len` is a `size_t`.
unfoldable pub len_loop : ℕ → ℕ → Tlv ℕ
len_loop zero len = pure len
len_loop (suc octs) len = do d ← next_byte; len_loop octs (shift_in 64 len d)

-- A length in the long form, of `octs` bytes.
unfoldable pub read_long_len : ℕ → Tlv ℕ
read_long_len octs = do
  fail_if (ltb octs 1 || ltb 4 octs) length_error
  ts ← get
  fail_if (ltb (tlv_rem ts) octs) length_error
  len_loop octs 0

-- The length of a tag in `tlv_read_tag`.
unfoldable pub read_tag_len : Tlv ℕ
read_tag_len = do
  ts ← get
  fail_if (tlv_at_end ts) length_error
  d ← next_byte
  if bit_set d 7 then read_long_len (low_bits d 7) else pure d

-- The checks of a tag's length, and its context.
unfoldable pub enter_tag : ℕ → ℕ → Tlv (Unit {0})
enter_tag lenptr len = do
  ts ← get
  fail_if (ltb (tlv_root_rem ts) len) length_error
  fail_if (ltb (tlv_rem ts) len) length_error
  let tc : TlvContext = record {
    tc_begin = ts.ts_pos;
    tc_end = add_size ts.ts_pos len;
    tc_lenptr = lenptr;
    tc_depth = 0;
  }
  put (tlv_ctx_push tc ts)

unfoldable pub tlv_read_tag : Tlv ℕ
tlv_read_tag = do
  tag ← read_tag_number
  ts ← get
  len ← read_tag_len
  enter_tag ts.ts_pos len
  pure tag

unfoldable pub tlv_end : Tlv (Unit {0})
tlv_end = do
  tc ← tlv_ctx_pop
  ts ← get
  verify (leb tc.tc_begin ts.ts_pos)
  fail_if (not (ts.ts_pos == tc.tc_end)) length_error

unfoldable pub tlv_skip : Tlv (Unit {0})
tlv_skip = do
  tc ← tlv_ctx_pop
  ts ← get
  verify (leb tc.tc_begin ts.ts_pos)
  verify (leb ts.ts_pos tc.tc_end)
  put (record ts { ts_pos = tc.tc_end })

-- The loop of `tlv_abort`: the VERIFYs are about the context that encloses each open tag.
unfoldable pub abort_loop : TlvContext → ℕ → List TlvContext → Tlv (Unit {0})
abort_loop root pos [] = pure tt
abort_loop root pos (tc ∷ tcs) = do
  verify (leb (top root tcs).tc_begin pos)
  verify (leb pos (top root tcs).tc_end)
  abort_loop root pos tcs

unfoldable pub tlv_abort : Tlv (Unit {0})
tlv_abort = do
  ts ← get
  abort_loop ts.ts_root ts.ts_pos ts.ts_ctxs
  put (record ts { ts_ctxs = []; ts_pos = ts.ts_root.tc_end })

unfoldable pub tlv_read_u8 : Tlv ℕ
tlv_read_u8 = do ts ← get; fail_if (tlv_at_end ts) length_error; next_byte

unfoldable pub tlv_read_u16 : Tlv ℕ
tlv_read_u16 = do
  ts ← get
  fail_if (ltb (tlv_rem ts) 2) length_error
  hi ← next_byte
  lo ← next_byte
  pure (shift_in 16 hi lo)

-- `while (!tlv_at_end(ts))`; `out` is a `uint32_t`.
unfoldable pub u8to32_loop : ℕ → ℕ → Tlv ℕ
u8to32_loop zero out = λ ts. stuck
u8to32_loop (suc fuel) out = do
  ts ← get
  if tlv_at_end ts then pure out else do b ← next_byte; u8to32_loop fuel (shift_in 32 out b)

-- The guards admit at most four bytes, so the loop's test is made at most five times.
unfoldable pub tlv_read_u8to32 : Tlv ℕ
tlv_read_u8to32 = do
  ts ← get
  fail_if (ltb (tlv_rem ts) 1) length_error
  fail_if (ltb 4 (tlv_rem ts)) length_error
  u8to32_loop 5 0

unfoldable pub tlv_read_upto : ℕ → Tlv (List ℕ)
tlv_read_upto max_len = do
  ts ← get
  let len = if ltb (tlv_rem ts) max_len then tlv_rem ts else max_len
  fail_if (len == 0) length_error
  next_bytes len

-- `for (i = 0; i < len; ++i)`: the rounds that are left. A NUL is not passed.
unfoldable pub string_loop : ℕ → Tlv (List ℕ)
string_loop zero = pure []
string_loop (suc n) = λ ts. elim (get_elem? ts.ts_buf ts.ts_pos) [
  | none ↦ fault
  | some c ↦
      if c == 0
      then err (errf "StringError" no_error) ts
      else (do d ← next_byte; rest ← string_loop n; pure (d ∷ rest)) ts
]

unfoldable pub tlv_read_string : Tlv (List ℕ)
tlv_read_string = do ts ← get; string_loop (tlv_rem ts)

unfoldable pub tlv_read_alloc : Tlv (List ℕ)
tlv_read_alloc = do ts ← get; next_bytes (tlv_rem ts)

unfoldable pub tlv_read : ℕ → Tlv (List ℕ)
tlv_read len = do ts ← get; fail_if (not (tlv_rem ts == len)) length_error; next_bytes len
