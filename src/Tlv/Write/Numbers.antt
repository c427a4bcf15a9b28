-- ===== src/Tlv/Write/Numbers.antt =====
-- `tlv_write_u8to32`: the bytes that it writes.
use pivy.Prelude.{
  ℕ, zero, suc, ◌+◌, ◌^◌, ◌≤◌, ◌<◌, ◌≡◌, refl, ◌∙◌, List, [], ◌∷◌, ◌++◌, append_assoc, append-nil,
  length, length-append, shift_in, arith, false,
}
use pivy.Outcome.{ok, ◌>>=◌}
use pivy.Tlv.{TlvState, tlv_at_root_end}
use pivy.Tlv.Write.{octet, skip_zeros, rest_loop, tlv_write_u8to32}
use pivy.Tlv.Write.Cursor.{cursor, put_byte_lem}

-- The low `k` bytes of `val`, the highest first.
unfoldable pub be_bytes : ℕ → ℕ → List ℕ
be_bytes zero val = []
be_bytes (suc k) val = octet val k ∷ be_bytes k val

-- The bytes of a number with no zero byte in front.
unfoldable pub number_bytes : ℕ → List ℕ
number_bytes val = be_bytes (skip_zeros 4 val) val

-- What a reader makes of bytes, highest first.
unfoldable pub from_bytes : ℕ → List ℕ → ℕ
from_bytes acc [] = acc
from_bytes acc (b ∷ bs) = from_bytes (shift_in 32 acc b) bs

pub length-be_bytes : (k val : ℕ) → length (be_bytes k val) ≡ k
unfolding be_bytes
length-be_bytes zero val = refl
length-be_bytes (suc k) val = omega (arith, length-be_bytes k val)

-- The bytes stand for the number.
pub from_bytes-number_bytes : (val : ℕ) → val < 2 ^ 32 → from_bytes 0 (number_bytes val) ≡ val
unfolding from_bytes number_bytes be_bytes skip_zeros
from_bytes-number_bytes val h = ground arith

pub length-number_bytes :
    (val : ℕ)
    → (length (number_bytes val) ≤ 4) × (0 < val → val < 2 ^ 32 → 0 < length (number_bytes val))
unfolding number_bytes be_bytes skip_zeros
length-number_bytes val = (ground arith, λ h k. ground arith)

rest_loop_lem :
    (k val : ℕ) (ts : TlvState) (w junk rest : List ℕ)
    → length junk ≡ k
    → length w + k ≤ ts.ts_root.tc_end
    → length (w ++ (junk ++ rest)) < 2 ^ 64
    → rest_loop k val (cursor ts w (junk ++ rest)) ≡ ok tt (cursor ts (w ++ be_bytes k val) rest)
unfolding rest_loop be_bytes
rest_loop_lem zero val ts w [] rest e room small = rw append-nil
rest_loop_lem zero val ts w (x ∷ junk) rest e room small = absurd (omega arith)
rest_loop_lem (suc k) val ts w [] rest e room small = absurd (omega arith)
rest_loop_lem (suc k) val ts w (x ∷ junk) rest e room small =
    rw (inside, ◌>>=◌)
      (rw (put_byte_lem ts w x (junk ++ rest) small (octet val k), ◌>>=◌)
        (rest_loop_lem k val ts (w ++ (octet val k ∷ [])) junk rest (omega arith)
            (omega (arith, length-append w (octet val k ∷ [])))
            (rw append_assoc (
              omega (
                arith,
                small,
                length-append w (x ∷ (junk ++ rest)),
                length-append w (octet val k ∷ (junk ++ rest)),
              )))
          ∙ simp append_assoc))
  where
    inside : tlv_at_root_end (cursor ts w (x ∷ (junk ++ rest))) ≡ false
    inside = unfold tlv_at_root_end in ground arith

-- `tlv_write_u8to32` writes `number_bytes` where there is room.
pub tlv_write_u8to32_lem :
    (val : ℕ) (ts : TlvState) (w junk rest : List ℕ)
    → length junk ≡ length (number_bytes val)
    → length w + length junk ≤ ts.ts_root.tc_end
    → length (w ++ (junk ++ rest)) < 2 ^ 64
    → tlv_write_u8to32 val (cursor ts w (junk ++ rest))
      ≡ ok tt (cursor ts (w ++ number_bytes val) rest)
unfolding tlv_write_u8to32 number_bytes
tlv_write_u8to32_lem val ts w junk rest e room small =
    let k = skip_zeros 4 val in
    rest_loop_lem k val ts w junk rest (e ∙ length-be_bytes k val)
      (omega (arith, length-be_bytes k val)) small
