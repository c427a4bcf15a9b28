-- ===== src/Ebox/State.antt =====
-- ebox.c: the state of an ebox (`struct ebox`), its configs and parts, and what works on their bytes.
use pivy.Prelude.{
  ℕ, zero, suc, ◌+◌, ◌*◌, ◌/◌, ◌%◌, List, [], ◌∷◌, Bool, true, false, Option, none, some, String,
}
use pivy.Outcome.{M, ok, err, abort, fault, stuck}
use pivy.Box.{PivBox}
use pivy.Box.Wire.{SshKey, Buf}
use pivy.Ebox.{TplPart, TplConfig}

-- `struct ebox_part`, without its challenge.
pub record EboxPart (EC P : Type 0) : Type 0 where
  pub ep_tpl : TplPart EC
  pub ep_box : PivBox (SshKey EC) P
  pub ep_id : ℕ
  pub ep_share : Option (List ℕ)

-- `struct ebox_config`, without the key for challenges.
pub record EboxConfig (EC P : Type 0) : Type 0 where
  pub ec_tpl : TplConfig EC
  pub ec_parts : List (EboxPart EC P)
  pub ec_nonce : Option (List ℕ)

-- `struct ebox`; memory with its length is the bytes in it. `e_ephemkeys` has a private key for
-- each curve.
pub record Ebox (EC P : Type 0) : Type 0 where
  pub e_version : ℕ
  pub e_type : ℕ
  pub e_configs : List (EboxConfig EC P)
  pub e_ephemkeys : List (ℕ × P)
  pub e_key : Option (List ℕ)
  pub e_rcv_cipher : String
  pub e_rcv_key : Option (List ℕ)
  pub e_rcv_iv : Option (List ℕ)
  pub e_rcv_enc : Option (List ℕ)
  pub e_rcv_plain : Option (List ℕ)
  pub e_token : Option (List ℕ)

-- The sharing of secrets: `sss_create_keyshares` with its random bytes, the key, the number of
-- shares and how many are enough; `sss_combine_keyshares` with the shares and how many to use.
pub record Sss : Type 0 where
  pub create_keyshares : List ℕ → List ℕ → ℕ → ℕ → List (List ℕ)
  pub combine_keyshares : List (List ℕ) → ℕ → List ℕ

abbrev pub keyshare_len : ℕ
keyshare_len = 33

-- `a ^ b` on `w` bits, and for two rows of bytes.
unfoldable pub xor_bits : ℕ → ℕ → ℕ → ℕ
xor_bits zero a b = 0
xor_bits (suc w) a b = (a % 2 + b % 2) % 2 + 2 * xor_bits w (a / 2) (b / 2)

unfoldable pub xor_bytes : List ℕ → List ℕ → List ℕ
xor_bytes (a ∷ as') (b ∷ bs) = xor_bits 8 a b ∷ xor_bytes as' bs
xor_bytes (a ∷ as') [] = []
xor_bytes [] bs = []

-- A buffer that is read on the side; errors keep the state as it is.
unfoldable pub aside : {S A : Type 0} → M Buf A → Buf → M S (A × Buf)
aside g b s = elim (g b) [
  | ok a b' ↦ ok (a, b') s
  | err e b' ↦ err e s
  | abort ↦ abort
  | fault ↦ fault
  | stuck ↦ stuck
]

-- NULL, or no bytes.
abbrev pub is_empty : Option (List ℕ) → Bool
is_empty none = true
is_empty (some []) = true
is_empty (some (b ∷ bs)) = false

abbrev pub bytes_of : Option (List ℕ) → List ℕ
bytes_of none = []
bytes_of (some bytes) = bytes
