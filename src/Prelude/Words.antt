-- ===== src/Prelude/Words.antt =====
-- Machine words: a `size_t` is a number below 2 ^ 64, a `uint` or `uint32_t` one below 2 ^ 32 and
-- a `uint8_t` one below 256. Masks and shifts are written in the arithmetic that they stand for.
use Prim.Native.Nat.{ℕ, ◌+◌, ◌-◌, ◌*◌, ◌/◌, ◌%◌, ◌^◌, ◌<◌}
use mathlib.Core.Bool.{Bool}
use pivy.Prelude.Tests.{◌==◌}

abbrev pub IsByte : ℕ → Type 0
IsByte b = b < 256

-- `a + b` and `a - b` on `size_t`.
abbrev pub add_size : ℕ → ℕ → ℕ
add_size a b = (a + b) % 2 ^ 64

abbrev pub sub_size : ℕ → ℕ → ℕ
sub_size a b = (a + 2 ^ 64 - b) % 2 ^ 64

-- `x & (2 ^ k - 1)`.
abbrev pub low_bits : ℕ → ℕ → ℕ
low_bits x k = x % 2 ^ k

-- `x >> k`.
abbrev pub shr : ℕ → ℕ → ℕ
shr x k = x / 2 ^ k

-- `(x & (1 << k)) != 0`.
abbrev pub bit_set : ℕ → ℕ → Bool
bit_set x k = (x / 2 ^ k) % 2 == 1

-- `(x << 8) | b` for a byte `b`, in a word of `w` bits.
abbrev pub shift_in : ℕ → ℕ → ℕ → ℕ
shift_in w x b = (x * 256) % 2 ^ w + b
