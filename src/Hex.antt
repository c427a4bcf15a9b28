-- ===== src/Hex.antt =====
-- utils.c: bytes as hex digits; pivy-box.c: reading them back. A character is its code.
pub mod Write
pub mod Read
pub mod RoundTrip
pub mod Bounds
pub mod Tests
use pivy.Prelude.{
  ℕ, zero, suc, ◌+◌, ◌-◌, ◌*◌, ◌/◌, ◌%◌, List, [], ◌∷◌, Bool, true, false, not, ◌&&◌, ◌||◌, Option,
  none, some, length, get_elem?, set, replicate, ltb, leb, ◌==◌, if◌then◌else◌, low_bits, shr,
}
use pivy.Errf.{Errf, errf, no_error}
use pivy.Outcome.{Outcome, M, ok, err, fault, ◌>>=◌, ◌>>◌, pure, fail, fail_if, get, put}

-- The characters of a C string, up to the first NUL of the memory that it is in.
unfoldable pub c_string : List ℕ → List ℕ
c_string [] = []
c_string (zero ∷ cs) = []
c_string (suc c ∷ cs) = suc c ∷ c_string cs

unfoldable pub nybble_to_hex : ℕ → ℕ
nybble_to_hex nybble = if leb 0xA nybble then 65 + (nybble - 0xA) else 48 + nybble

-- The memory that `buf_to_hex` fills, and its `j`.
pub record HexOut : Type 0 where
  pub out : List ℕ
  pub j : ℕ

-- `out[j] = c`.
unfoldable pub store_char : ℕ → M HexOut (Unit {0})
store_char c s =
    if ltb s.j (length s.out) then ok tt (record s { out = set s.out s.j c }) else fault

-- `out[j++] = c`.
unfoldable pub put_char : ℕ → M HexOut (Unit {0})
put_char c = do store_char c; s ← get; put (record s { j = s.j + 1 })

-- The loop from `i` on, where `buf` is what follows of the bytes.
unfoldable pub hex_loop : Bool → ℕ → ℕ → List ℕ → M HexOut (Unit {0})
hex_loop spaces len i [] = pure tt
hex_loop spaces len i (b ∷ buf) = do
  put_char (nybble_to_hex (low_bits (shr b 4) 4))
  put_char (nybble_to_hex (low_bits b 4))
  (if spaces && ltb (i + 1) len then put_char 32 else pure tt)
  hex_loop spaces len (i + 1) buf

unfoldable pub buf_to_hex : List ℕ → Bool → Outcome HexOut (Unit {0})
buf_to_hex buf spaces =
    (do hex_loop spaces (length buf) 0 buf; store_char 0)
      (record { out = replicate (low_bits (length buf * 3 + 1) 64) 0; j = 0 })

-- `a | b` on `w` bits.
unfoldable pub or_bits : ℕ → ℕ → ℕ → ℕ
or_bits zero a b = 0
or_bits (suc w) a b = (if a % 2 == 0 && b % 2 == 0 then 0 else 1) + 2 * or_bits w (a / 2) (b / 2)

-- The bytes that `parse_hex` fills, and its `idx` and `shift`.
pub record HexIn : Type 0 where
  pub data_ : List ℕ
  pub idx : ℕ
  pub shift : ℕ

abbrev pub hexerrf : Errf
hexerrf = errf "HexParseError" no_error

-- `v << k` for the two values that `shift` has.
unfoldable pub shl : ℕ → ℕ → ℕ
shl v k = if k == 4 then v * 16 else v

-- `data[idx] |= v << shift`.
unfoldable pub or_in : ℕ → M HexIn (Unit {0})
or_in v s = elim (get_elem? s.data_ s.idx) [
  | none ↦ fault
  | some old ↦ ok tt (record s { data_ = set s.data_ s.idx (or_bits 8 old (shl v s.shift)) })
]

unfoldable pub is_blank : ℕ → Bool
is_blank c = c == 58 || c == 32 || c == 9 || c == 10 || c == 13

-- One character; the result is `skip`.
unfoldable pub parse_char : ℕ → M HexIn Bool
parse_char c =
    if leb 48 c && leb c 57
    then (do or_in (c - 48); pure false)
    else if leb 97 c && leb c 102
    then (do or_in (c - 97 + 0xa); pure false)
    else if leb 65 c && leb c 70
    then (do or_in (c - 65 + 0xA); pure false)
    else if is_blank c
    then pure true
    else fail hexerrf

-- To the other half of the byte, or to the next byte.
unfoldable pub next_half : Bool → M HexIn (Unit {0})
next_half skip s =
    if not skip
    then (if s.shift == 4
        then ok tt (record s { shift = 0 })
        else if s.shift == 0
        then ok tt (record s { idx = s.idx + 1; shift = 4 })
        else ok tt s)
    else ok tt s

unfoldable pub parse_loop : List ℕ → M HexIn (Unit {0})
parse_loop [] = pure tt
parse_loop (c ∷ cs) = do skip ← parse_char c; next_half skip; parse_loop cs

-- `*out` and `*outlen` are the bytes and `idx` of the state.
unfoldable pub parse_hex : List ℕ → Outcome HexIn (Unit {0})
parse_hex str =
    (do parse_loop str; s ← get; fail_if (s.shift == 0) hexerrf)
      (record { data_ = replicate (length str / 2 + 1) 0; idx = 0; shift = 4 })
