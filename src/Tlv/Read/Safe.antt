-- ===== src/Tlv/Read/Safe.antt =====
-- The reading functions of tlv.c on any input: they stay in the buffer and in the open tags, no
-- VERIFY fails, and the loops end.
use pivy.Prelude.{
  ℕ, zero, suc, ◌+◌, ◌-◌, ◌≤◌, ◌<◌, ◌≡◌, refl, inl, inr, ◌∷◌, Bool, true, false, get_elem?-is_some,
  ltb, ◌==◌, ◌||◌, Bool-cases, arith, bit_set, low_bits, shift_in, not, if◌then◌else◌,
}
use pivy.Errf.{Errf}
use pivy.Outcome.{Outcome, ok, err, abort, fault, stuck, pure, fail_if, ◌>>=◌, ◌>>◌}
use pivy.Tlv.{TlvState, Tlv, ts_now, length_error, tlv_at_end, tlv_rem, next_byte, next_bytes}
use pivy.Tlv.Read.{
  tag_loop, read_tag_number, len_loop, read_long_len, read_tag_len, tlv_read_u8, tlv_read_u16,
  u8to32_loop, tlv_read_u8to32, tlv_read_upto, string_loop, tlv_read_string, tlv_read_alloc,
  tlv_read,
}
use pivy.Tlv.Inv.{
  IsValid, Moved, Reads, Takes, Reads-trans, Moved-trans, Moved-refl, Moved-step, next_byte_lem,
  at_end_cases, rem-le-root_rem, tlv_rem_lem, now_end-le,
}

-- The rules for the steps of a `do` block.
module _ (ts : TlvState) (v : IsValid ts) where
  in_tag : tlv_at_end ts ≡ false → ts.ts_pos < (ts_now ts).tc_end
  in_tag e = ground (arith, at_end_cases v)

  fail_if-Reads :
      {A : Type 0} (b : Bool) (e : Errf) (k : Tlv A)
      → (b ≡ false → Reads ts (k ts))
      → Reads ts ((fail_if b e >> k) ts)
  fail_if-Reads true e k h = Moved-refl v
  fail_if-Reads false e k h = h refl

  byte-Reads :
      {A : Type 0} (f : ℕ → Tlv A)
      → ts.ts_pos < (ts_now ts).tc_end
      → ((d : ℕ) (ts' : TlvState)
          → IsValid ts'
          → ts' ≡ record ts { ts_pos = ts.ts_pos + 1 }
          → Reads ts' (f d ts'))
      → Reads ts ((next_byte >>= f) ts)
  byte-Reads f lt h =
      let (d, nb) = next_byte_lem v lt in
      let m : Moved ts (record ts { ts_pos = ts.ts_pos + 1 }) = Moved-step v lt in
      rw (nb, ◌>>=◌, Reads) (Reads-trans ts _ _ m (h d _ m.valid refl))

if-Reads :
    {A : Type 0} (ts : TlvState) (b : Bool) (x y : Tlv A)
    → (b ≡ true → Reads ts (x ts))
    → (b ≡ false → Reads ts (y ts))
    → Reads ts ((if b then x else y) ts)
if-Reads ts true x y h k = h refl
if-Reads ts false x y h k = k refl

pub bind-Reads :
    {A B : Type 0} (ts : TlvState) (m : Tlv A) (f : A → Tlv B)
    → Reads ts (m ts)
    → ((a : A) (ts' : TlvState) → m ts ≡ ok a ts' → Moved ts ts' → Reads ts' (f a ts'))
    → Reads ts ((m >>= f) ts)
bind-Reads {A} ts m f h k = go (m ts) h (k)
  where
    go :
        (r : Outcome TlvState A)
        → Reads ts r
        → ((a : A) (ts' : TlvState) → r ≡ ok a ts' → Moved ts ts' → Reads ts' (f a ts'))
        → Reads ts (((λ _. r) >>= f) ts)
    go (ok a ts') h k = Reads-trans ts ts' _ h (k a ts' refl h)
    go (err e ts') h k = h
    go abort h k = h
    go fault h k = h
    go stuck h k = h

tag_loop-Reads :
    (fuel tag : ℕ) (ts : TlvState)
    → IsValid ts
    → (ts_now ts).tc_end - ts.ts_pos < fuel
    → Reads ts (tag_loop fuel tag ts)
unfolding tag_loop
tag_loop-Reads zero tag ts v h = absurd (omega arith)
tag_loop-Reads (suc fuel) tag ts v h = fail_if-Reads ts v _ _ _ λ e.
    byte-Reads ts v _ (in_tag ts v e) λ d ts' v' moved.
      if-Reads ts' (bit_set d 7) (tag_loop fuel (shift_in 32 tag d)) (pure (shift_in 32 tag d))
        (λ _. tag_loop-Reads fuel (shift_in 32 tag d) ts' v' (ground (arith, in_tag ts v e)))
        (λ _. Moved-refl v')

Takes-next :
    {A : Type 0} (ts : TlvState) (r : Outcome TlvState A)
    → Moved ts (record ts { ts_pos = ts.ts_pos + 1 })
    → Reads (record ts { ts_pos = ts.ts_pos + 1 }) r
    → Takes ts r
Takes-next ts (ok a ts') m h = (Moved-trans m h, ground arith)
Takes-next ts (err e ts') m h = Moved-trans m h
Takes-next ts abort m h = h
Takes-next ts fault m h = h
Takes-next ts stuck m h = h

pub read_tag_number-Takes : (ts : TlvState) → IsValid ts → Takes ts (read_tag_number ts)
unfolding read_tag_number
read_tag_number-Takes ts v = elim (at_end_cases v) [
  | inl (e, _) ↦ rw (e, Takes) (Moved-refl v)
  | inr (e, lt) ↦
      let (d, nb) = next_byte_lem v lt in
      let ts' = record ts { ts_pos = ts.ts_pos + 1 } in
      let m : Moved ts ts' = Moved-step v lt in
      rw (e, nb, ◌>>=◌)
        (Takes-next ts _ m (
          if-Reads ts' (low_bits d 5 == 0x1F) (tag_loop (suc (tlv_rem ts')) d) (pure d)
            (λ _.
              tag_loop-Reads (suc (tlv_rem ts')) d ts' m.valid (omega (arith, tlv_rem_lem m.valid)))
            (λ _. Moved-refl m.valid)))
]

len_loop-Reads :
    (octs len : ℕ) (ts : TlvState)
    → IsValid ts
    → ts.ts_pos + octs ≤ (ts_now ts).tc_end
    → Reads ts (len_loop octs len ts)
unfolding len_loop
len_loop-Reads zero len ts v h = Moved-refl v
len_loop-Reads (suc octs) len ts v h =
    byte-Reads ts v _ (omega arith) λ d ts' v' moved. len_loop-Reads octs _ ts' v' (ground arith)

read_long_len-Reads : (octs : ℕ) (ts : TlvState) → IsValid ts → Reads ts (read_long_len octs ts)
unfolding read_long_len
read_long_len-Reads octs ts v =
    fail_if-Reads ts v (ltb octs 1 || ltb 4 octs) length_error
      (λ s. (fail_if (ltb (tlv_rem s) octs) length_error >> len_loop octs 0) s)
      λ _.
        fail_if-Reads ts v (ltb (tlv_rem ts) octs) length_error (len_loop octs 0)
          λ enough. len_loop-Reads octs 0 ts v (ground (arith, rem-le-root_rem v))

pub read_tag_len-Reads : (ts : TlvState) → IsValid ts → Reads ts (read_tag_len ts)
unfolding read_tag_len
read_tag_len-Reads ts v = fail_if-Reads ts v _ _ _ λ e.
    byte-Reads ts v _ (in_tag ts v e) λ d ts' v' _.
      if-Reads ts' (bit_set d 7) (read_long_len (low_bits d 7)) (pure d)
        (λ _. read_long_len-Reads (low_bits d 7) ts' v') (λ _. Moved-refl v')

next_bytes-Reads :
    (n : ℕ) (ts : TlvState)
    → IsValid ts
    → ts.ts_pos + n ≤ (ts_now ts).tc_end
    → Reads ts (next_bytes n ts)
unfolding next_bytes
next_bytes-Reads zero ts v h = Moved-refl v
next_bytes-Reads (suc n) ts v h = byte-Reads ts v _ (omega arith) λ d ts' v' moved.
    bind-Reads ts' (next_bytes n) _ (next_bytes-Reads n ts' v' (ground arith))
      λ bs ts'' _ m. Moved-refl m.valid

u8to32_loop-Reads :
    (fuel out : ℕ) (ts : TlvState)
    → IsValid ts
    → (ts_now ts).tc_end - ts.ts_pos < fuel
    → Reads ts (u8to32_loop fuel out ts)
unfolding u8to32_loop
u8to32_loop-Reads zero out ts v h = absurd (omega arith)
u8to32_loop-Reads (suc fuel) out ts v h =
    if-Reads ts (tlv_at_end ts) (pure out) (next_byte >>= λ b. u8to32_loop fuel (shift_in 32 out b))
      (λ _. Moved-refl v)
      λ e. byte-Reads ts v _ (in_tag ts v e) λ b ts' v' moved.
        u8to32_loop-Reads fuel (shift_in 32 out b) ts' v' (ground (arith, in_tag ts v e))

string_loop-Reads :
    (n : ℕ) (ts : TlvState)
    → IsValid ts
    → ts.ts_pos + n ≤ (ts_now ts).tc_end
    → Reads ts (string_loop n ts)
unfolding string_loop
string_loop-Reads zero ts v h = Moved-refl v
string_loop-Reads (suc n) ts v h =
    let (c, e) = get_elem?-is_some ts.ts_buf ts.ts_pos (omega (arith, v.inside, now_end-le v)) in
    rw (e, Reads)
      (elim (Bool-cases (c == 0)) [
        | inl z ↦ rw z (Moved-refl v)
        | inr z ↦ rw z (
            byte-Reads ts v (λ d. string_loop n >>= λ rest. pure (d ∷ rest)) (omega arith)
              λ d ts' v' moved.
                bind-Reads ts' (string_loop n) _ (string_loop-Reads n ts' v' (ground arith))
                  λ bs ts'' _ m. Moved-refl m.valid)
      ])

module _ (ts : TlvState) (v : IsValid ts) where
  pub tlv_read_u8-Reads : Reads ts (tlv_read_u8 ts)
  unfolding tlv_read_u8
  tlv_read_u8-Reads = fail_if-Reads ts v (tlv_at_end ts) _ next_byte λ e.
      let (d, nb) = next_byte_lem v (in_tag ts v e) in rw (nb, Reads) (Moved-step v (in_tag ts v e))

  pub tlv_read_u16-Reads : Reads ts (tlv_read_u16 ts)
  unfolding tlv_read_u16
  tlv_read_u16-Reads = fail_if-Reads ts v (ltb (tlv_rem ts) 2) _ _ λ e.
      byte-Reads ts v _ (ground (arith, rem-le-root_rem v)) λ hi ts' v' moved.
        byte-Reads ts' v' _ (ground (arith, rem-le-root_rem v)) λ lo ts'' v'' _. Moved-refl v''

  pub tlv_read_u8to32-Reads : Reads ts (tlv_read_u8to32 ts)
  unfolding tlv_read_u8to32
  tlv_read_u8to32-Reads =
      fail_if-Reads ts v (ltb (tlv_rem ts) 1) length_error
        (fail_if (ltb 4 (tlv_rem ts)) length_error >> u8to32_loop 5 0)
        λ _.
          fail_if-Reads ts v (ltb 4 (tlv_rem ts)) length_error (u8to32_loop 5 0)
            λ e. u8to32_loop-Reads 5 0 ts v (ground (arith, tlv_rem_lem v))

  pub tlv_read_upto-Reads : (max_len : ℕ) → Reads ts (tlv_read_upto max_len ts)
  unfolding tlv_read_upto
  tlv_read_upto-Reads max_len =
      let len = if ltb (tlv_rem ts) max_len then tlv_rem ts else max_len in
      fail_if-Reads ts v (len == 0) _ (next_bytes len)
        λ _. next_bytes-Reads len ts v (ground (arith, rem-le-root_rem v))

  pub tlv_read_string-Reads : Reads ts (tlv_read_string ts)
  unfolding tlv_read_string
  tlv_read_string-Reads = string_loop-Reads (tlv_rem ts) ts v (omega (arith, rem-le-root_rem v))

  pub tlv_read_alloc-Reads : Reads ts (tlv_read_alloc ts)
  unfolding tlv_read_alloc
  tlv_read_alloc-Reads = next_bytes-Reads (tlv_rem ts) ts v (omega (arith, rem-le-root_rem v))

  pub tlv_read-Reads : (len : ℕ) → Reads ts (tlv_read len ts)
  unfolding tlv_read
  tlv_read-Reads len =
      fail_if-Reads ts v (not (tlv_rem ts == len)) _ (next_bytes len)
        λ e. next_bytes-Reads len ts v (ground (arith, rem-le-root_rem v))
