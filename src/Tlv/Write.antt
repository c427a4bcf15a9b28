-- ===== src/Tlv/Write.antt =====
-- The writing half of tlv.c.
pub mod Cursor
pub mod Numbers
pub mod Tags
pub mod Encode
use pivy.Prelude.{
  ℕ, zero, suc, ◌+◌, ◌/◌, ◌%◌, ◌^◌, List, [], ◌∷◌, false, not, get_elem?, set, length, leb, ltb,
  ◌==◌, if◌then◌else◌, add_size, sub_size, none, some,
}
use pivy.Outcome.{Outcome, ok, abort, fault, ◌>>=◌, ◌>>◌, pure, verify, get, put}
use pivy.Tlv.{TlvContext, TlvState, Tlv, tlv_at_root_end, tlv_root_rem, tlv_ctx_push, tlv_ctx_pop}

-- `(val & (0xFF << 8 * k)) >> 8 * k`.
abbrev pub octet : ℕ → ℕ → ℕ
octet val k = (val / 256 ^ k) % 256

-- `buf[i] = v`.
unfoldable pub set_byte : ℕ → ℕ → Tlv (Unit {0})
set_byte i v ts =
    if ltb i (length ts.ts_buf) then ok tt (record ts { ts_buf = set ts.ts_buf i v }) else fault

-- `ts->ts_pos += n`.
unfoldable pub advance : ℕ → Tlv (Unit {0})
advance n ts = ok tt (record ts { ts_pos = add_size ts.ts_pos n })

-- `buf[ts->ts_pos++] = v`.
unfoldable pub put_byte : ℕ → Tlv (Unit {0})
put_byte v = do ts ← get; set_byte ts.ts_pos v; advance 1

-- `bcopy(src, &ts->ts_buf[ts->ts_pos], len); ts->ts_pos += len`.
unfoldable pub put_bytes : List ℕ → Tlv (Unit {0})
put_bytes [] = pure tt
put_bytes (b ∷ bs) = do put_byte b; put_bytes bs

unfoldable pub tlv_write : List ℕ → Tlv (Unit {0})
tlv_write src = do ts ← get; verify (leb (length src) (tlv_root_rem ts)); put_bytes src

unfoldable pub tlv_write_byte : ℕ → Tlv (Unit {0})
tlv_write_byte val = do ts ← get; verify (not (tlv_at_root_end ts)); put_byte val

-- "Skip any leading zero bytes": with `shift = 8 * (k - 1)`, the bytes that are left at the break.
unfoldable pub skip_zeros : ℕ → ℕ → ℕ
skip_zeros zero val = zero
skip_zeros (suc k) val = if octet val k == 0 then skip_zeros k val else suc k

-- "And then write out the rest."
unfoldable pub rest_loop : ℕ → ℕ → Tlv (Unit {0})
rest_loop zero val = pure tt
rest_loop (suc k) val = do
  ts ← get
  verify (not (tlv_at_root_end ts))
  put_byte (octet val k)
  rest_loop k val

unfoldable pub tlv_write_u8to32 : ℕ → Tlv (Unit {0})
tlv_write_u8to32 val = rest_loop (skip_zeros 4 val) val

-- The room for the length that `tlv_pushl` leaves. It does not look where the buffer ends.
unfoldable pub reserve_len : ℕ → Tlv (Unit {0})
reserve_len maxlen =
    if ltb maxlen (2 ^ 7)
    then put_byte 0x00
    else if ltb maxlen (2 ^ 8)
    then (do put_byte 0x81; advance 1)
    else if ltb maxlen (2 ^ 16)
    then (do put_byte 0x82; advance 2)
    else if ltb maxlen (2 ^ 24)
    then (do put_byte 0x83; advance 3)
    else verify false

unfoldable pub tlv_pushl : ℕ → ℕ → Tlv (Unit {0})
tlv_pushl tag maxlen = do
  tlv_write_u8to32 tag
  ts ← get
  reserve_len maxlen
  ts' ← get
  put (
      tlv_ctx_push
        (record { tc_begin = ts'.ts_pos; tc_end = 0; tc_lenptr = ts.ts_pos; tc_depth = 0 }) ts')

unfoldable pub tlv_push : ℕ → Tlv (Unit {0})
tlv_push tag = tlv_pushl tag 127

unfoldable pub tlv_push256 : ℕ → Tlv (Unit {0})
tlv_push256 tag = tlv_pushl tag 255

unfoldable pub tlv_push64k : ℕ → Tlv (Unit {0})
tlv_push64k tag = tlv_pushl tag 65535

-- The length is stored in the form that the byte at `tc_lenptr` tells.
unfoldable pub store_len : ℕ → ℕ → ℕ → Tlv (Unit {0})
store_len form lenptr len =
    if form == 0x00
    then (do verify (ltb len (2 ^ 7)); set_byte lenptr len)
    else if form == 0x81
    then (do verify (ltb len (2 ^ 8)); set_byte (add_size lenptr 1) len)
    else if form == 0x82
    then (do
      verify (ltb len (2 ^ 16))
      set_byte (add_size lenptr 1) (octet len 1)
      set_byte (add_size lenptr 2) (octet len 0))
    else if form == 0x83
    then (do
      verify (ltb len (2 ^ 24))
      set_byte (add_size lenptr 1) (octet len 2)
      set_byte (add_size lenptr 2) (octet len 1)
      set_byte (add_size lenptr 3) (octet len 0))
    else pure tt

-- `buf[i]`.
unfoldable pub get_byte : ℕ → Tlv ℕ
get_byte i ts = elim (get_elem? ts.ts_buf i) [ none ↦ fault | some b ↦ ok b ts ]

unfoldable pub tlv_pop : Tlv (Unit {0})
tlv_pop = do
  tc ← tlv_ctx_pop
  ts ← get
  form ← get_byte tc.tc_lenptr
  store_len form tc.tc_lenptr (sub_size ts.ts_pos tc.tc_begin)

-- `explicit_bzero(&buf[i], n)` on the bytes of the buffer.
unfoldable pub clear_bytes : ℕ → ℕ → List ℕ → List ℕ
clear_bytes i zero buf = buf
clear_bytes i (suc n) buf = clear_bytes (i + 1) n (set buf i 0)

-- `tlv_free` of a state that is no NULL: what the buffer holds when it is handed back.
unfoldable pub tlv_free : Tlv (List ℕ)
tlv_free ts = free_ctxs ts.ts_ctxs
  where
    free_ctxs : List TlvContext → Outcome TlvState (List ℕ)
    free_ctxs [] =
        if ts.ts_freebuf
        then ok
            (clear_bytes ts.ts_root.tc_begin (sub_size ts.ts_root.tc_end ts.ts_root.tc_begin)
              ts.ts_buf)
            ts
        else ok ts.ts_buf ts
    free_ctxs (tc ∷ tcs) = abort
