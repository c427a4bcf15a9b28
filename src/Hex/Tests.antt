-- ===== src/Hex/Tests.antt =====
-- Hex digits at concrete inputs.
use pivy.Prelude.{ℕ, List, [], ◌∷◌, true, ◌≡◌, ◌/◌, ◌+◌, ◌*◌, ◌≤◌, length, take, arith}
use pivy.Outcome.{ok}
use pivy.Hex.{HexOut, HexIn, buf_to_hex, parse_hex, c_string}
use pivy.Hex.Bounds.{Parses, parse_hex-Parses}
use pivy.Hex.RoundTrip.{parse_hex-buf_to_hex}

-- "4a:B" and a character that is no digit.
abbrev odd_text : List ℕ
odd_text = 52 ∷ (97 ∷ (58 ∷ (66 ∷ (71 ∷ []))))

parse_hex-Parses_example :
    Parses
      (λ s. (length s.data_ ≡ length odd_text / 2 + 1) × (2 * s.idx ≤ length odd_text))
      (parse_hex odd_text)
parse_hex-Parses_example = parse_hex-Parses odd_text

abbrev three_bytes : List ℕ
three_bytes = 0x4A ∷ (0 ∷ (0xFF ∷ []))

parse_hex-buf_to_hex_example :
    (text : HexOut) × (s : HexIn) × (buf_to_hex three_bytes true ≡ ok tt text)
    × (parse_hex (c_string text.out) ≡ ok tt s)
    × (take s.idx s.data_ ≡ three_bytes)
parse_hex-buf_to_hex_example =
    parse_hex-buf_to_hex three_bytes true (omega arith, (omega arith, (omega arith, tt)))
      (omega arith)
