-- ===== src/Tlv/Write/Tags.antt =====
-- `tlv_pushl`, `tlv_write` and `tlv_pop` in a row: the encoding of a tag.
use pivy.Prelude.{
  ℕ, ◌+◌, ◌^◌, ◌≤◌, ◌<◌, ◌≡◌, ◌∙◌, List, [], ◌∷◌, ◌++◌, append_assoc, length, length-append, arith,
  ltb, if◌then◌else◌, Bool-cases, add_size, lt→ltb, inl, inr,
}
use pivy.Outcome.{ok, verify, ◌>>=◌, ◌>>◌}
use pivy.Tlv.{TlvState}
use pivy.Tlv.Write.{octet, set_byte, advance, put_byte, reserve_len, store_len}
use pivy.Tlv.Write.Cursor.{cursor, put_byte_lem, set_back_lem}

-- The first byte of a length that has room for `maxlen`, and the number of the bytes behind it.
abbrev pub len_form : ℕ → ℕ
len_form maxlen =
    if ltb maxlen (2 ^ 7)
    then 0x00
    else if ltb maxlen (2 ^ 8)
    then 0x81
    else if ltb maxlen (2 ^ 16)
    then 0x82
    else 0x83

abbrev pub len_extra : ℕ → ℕ
len_extra maxlen =
    if ltb maxlen (2 ^ 7)
    then 0
    else if ltb maxlen (2 ^ 8)
    then 1
    else if ltb maxlen (2 ^ 16)
    then 2
    else 3

-- A length with room for `maxlen`.
unfoldable pub len_bytes : ℕ → ℕ → List ℕ
len_bytes maxlen len =
    if ltb maxlen (2 ^ 7)
    then len ∷ []
    else if ltb maxlen (2 ^ 8)
    then 0x81 ∷ len ∷ []
    else if ltb maxlen (2 ^ 16)
    then 0x82 ∷ octet len 1 ∷ octet len 0 ∷ []
    else 0x83 ∷ octet len 2 ∷ octet len 1 ∷ octet len 0 ∷ []

advance_lem :
    (ts : TlvState) (w junk rest : List ℕ) (n : ℕ)
    → length junk ≡ n
    → length (w ++ (junk ++ rest)) < 2 ^ 64
    → advance n (cursor ts w (junk ++ rest)) ≡ ok tt (cursor ts (w ++ junk) rest)
unfolding advance
advance_lem ts w junk rest n e small = ground (
  arith,
  append_assoc w junk rest,
  length-append w junk,
  length-append w (junk ++ rest),
  length-append junk rest,
)

long_form_lem :
    (ts : TlvState) (w : List ℕ) (x : ℕ) (junk rest : List ℕ) (form n : ℕ)
    → length junk ≡ n
    → length (w ++ (x ∷ (junk ++ rest))) < 2 ^ 64
    → (put_byte form >> advance n) (cursor ts w (x ∷ (junk ++ rest)))
      ≡ ok tt (cursor ts (w ++ (form ∷ junk)) rest)
long_form_lem ts w x junk rest form n e small =
    rw (put_byte_lem ts w x (junk ++ rest) small form, ◌>>=◌)
      (advance_lem ts (w ++ (form ∷ [])) junk rest n e (
          rw append_assoc (
            omega (
              arith,
              small,
              length-append w (x ∷ (junk ++ rest)),
              length-append w (form ∷ (junk ++ rest)),
            )))
        ∙ simp append_assoc)

short_form_lem :
    (ts : TlvState) (w : List ℕ) (x : ℕ) (junk rest : List ℕ)
    → length junk ≡ 0
    → length (w ++ (x ∷ (junk ++ rest))) < 2 ^ 64
    → put_byte 0x00 (cursor ts w (x ∷ (junk ++ rest))) ≡ ok tt (cursor ts (w ++ (0x00 ∷ junk)) rest)
short_form_lem ts w x [] rest e small = put_byte_lem ts w x rest small 0x00
short_form_lem ts w x (y ∷ junk) rest e small = absurd (omega arith)

-- The room for a length: its first byte is written, and the others are left as they are.
pub reserve_len_lem :
    (ts : TlvState) (w : List ℕ) (x : ℕ) (junk rest : List ℕ) (maxlen : ℕ)
    → maxlen < 2 ^ 24
    → length junk ≡ len_extra maxlen
    → length (w ++ (x ∷ (junk ++ rest))) < 2 ^ 64
    → reserve_len maxlen (cursor ts w (x ∷ (junk ++ rest)))
      ≡ ok tt (cursor ts (w ++ (len_form maxlen ∷ junk)) rest)
unfolding reserve_len
reserve_len_lem ts w x junk rest maxlen h e small = elim (Bool-cases (ltb maxlen 128)) [
  | inl a ↦ rw (a, reserve_len) (short_form_lem ts w x junk rest (rw a at e) small)
  | inr a ↦ elim (Bool-cases (ltb maxlen 256)) [
    | inl b ↦ rw (a, b) (long_form_lem ts w x junk rest 0x81 1 (rw (a, b) at e) small)
    | inr b ↦ elim (Bool-cases (ltb maxlen 65536)) [
      | inl c ↦ rw (a, b, c) (long_form_lem ts w x junk rest 0x82 2 (rw (a, b, c) at e) small)
      | inr c ↦
          rw (a, b, c, lt→ltb maxlen 16777216 h)
            (long_form_lem ts w x junk rest 0x83 3 (rw (a, b, c) at e) small)
    ]
  ]
]

module _ (ts : TlvState) (v u rest : List ℕ) where
  set_back_at :
      (pre : List ℕ) (x val n : ℕ)
      → n ≡ length v + length pre
      → set_byte n val (cursor ts (v ++ (pre ++ (x ∷ u))) rest)
        ≡ ok tt (cursor ts (v ++ (pre ++ (val ∷ u))) rest)
  set_back_at pre x val n e =
      let at : n ≡ length (v ++ pre) = e ∙ omega (arith, length-append v pre) in
      rw (at, ← append_assoc v pre (x ∷ u), ← append_assoc v pre (val ∷ u))
        (set_back_lem ts (v ++ pre) x u rest val)

store_0 :
    (ts : TlvState) (v junk u rest : List ℕ) (len : ℕ)
    → length junk ≡ 0
    → len < 128
    → (verify (ltb len 128) >> set_byte (length v) len) (cursor ts (v ++ (0x00 ∷ (junk ++ u))) rest)
      ≡ ok tt (cursor ts (v ++ (len ∷ u)) rest)
store_0 ts v [] u rest len e h = rw (lt→ltb len 128 h, ◌>>=◌) (set_back_lem ts v 0x00 u rest len)
store_0 ts v (x ∷ junk) u rest len e h = absurd (omega arith)

module _ (ts : TlvState) (v : List ℕ) (small : length v + 4 < 2 ^ 64) where
  store_1 :
      (junk u rest : List ℕ) (len : ℕ)
      → length junk ≡ 1
      → len < 256
      → (verify (ltb len 256) >> set_byte (add_size (length v) 1) len)
          (cursor ts (v ++ (0x81 ∷ (junk ++ u))) rest)
        ≡ ok tt (cursor ts (v ++ (0x81 ∷ len ∷ u)) rest)
  store_1 (x ∷ []) u rest len e h =
      rw (lt→ltb len 256 h, ◌>>=◌) (set_back_at ts v u rest (0x81 ∷ []) x len _ (omega arith))
  store_1 [] u rest len e h = absurd (omega arith)
  store_1 (x ∷ y ∷ junk) u rest len e h = absurd (omega arith)

  store_2 :
      (junk u rest : List ℕ) (len : ℕ)
      → length junk ≡ 2
      → len < 65536
      → (verify (ltb len 65536)
            >> (set_byte (add_size (length v) 1) (octet len 1)
                >> set_byte (add_size (length v) 2) (octet len 0)))
          (cursor ts (v ++ (0x82 ∷ (junk ++ u))) rest)
        ≡ ok tt (cursor ts (v ++ (0x82 ∷ octet len 1 ∷ octet len 0 ∷ u)) rest)
  store_2 (x ∷ y ∷ []) u rest len e h =
      rw (lt→ltb len 65536 h, ◌>>=◌)
        (rw
          (
            set_back_at ts v (y ∷ u) rest (0x82 ∷ []) x (octet len 1) (add_size (length v) 1)
                (omega arith),
            ◌>>=◌,
          )
          (set_back_at ts v u rest (0x82 ∷ octet len 1 ∷ []) y (octet len 0) (add_size (length v) 2)
            (omega arith)))
  store_2 [] u rest len e h = absurd (omega arith)
  store_2 (x ∷ []) u rest len e h = absurd (omega arith)
  store_2 (x ∷ y ∷ z ∷ junk) u rest len e h = absurd (omega arith)

  store_3 :
      (junk u rest : List ℕ) (len : ℕ)
      → length junk ≡ 3
      → len < 16777216
      → (verify (ltb len 16777216)
            >> (set_byte (add_size (length v) 1) (octet len 2)
                >> (set_byte (add_size (length v) 2) (octet len 1)
                    >> set_byte (add_size (length v) 3) (octet len 0))))
          (cursor ts (v ++ (0x83 ∷ (junk ++ u))) rest)
        ≡ ok tt (cursor ts (v ++ (0x83 ∷ octet len 2 ∷ octet len 1 ∷ octet len 0 ∷ u)) rest)
  store_3 (x ∷ y ∷ z ∷ []) u rest len e h =
      rw (lt→ltb len 16777216 h, ◌>>=◌)
        (rw
          (
            set_back_at ts v (y ∷ z ∷ u) rest (0x83 ∷ []) x (octet len 2) (add_size (length v) 1)
                (omega arith),
            ◌>>=◌,
          )
          (rw
            (
              set_back_at ts v (z ∷ u) rest (0x83 ∷ octet len 2 ∷ []) y (octet len 1)
                  (add_size (length v) 2) (omega arith),
              ◌>>=◌,
            )
            (set_back_at ts v u rest (0x83 ∷ octet len 2 ∷ octet len 1 ∷ []) z (octet len 0)
              (add_size (length v) 3) (omega arith))))
  store_3 [] u rest len e h = absurd (omega arith)
  store_3 (x ∷ []) u rest len e h = absurd (omega arith)
  store_3 (x ∷ y ∷ []) u rest len e h = absurd (omega arith)
  store_3 (x ∷ y ∷ z ∷ t ∷ junk) u rest len e h = absurd (omega arith)

-- What `tlv_pop` stores at the length that stands behind `v`.
pub store_len_lem :
    (ts : TlvState) (v junk u rest : List ℕ) (maxlen len : ℕ)
    → maxlen < 2 ^ 24
    → len ≤ maxlen
    → length junk ≡ len_extra maxlen
    → length v + 4 < 2 ^ 64
    → store_len
        (len_form maxlen)
        (length v)
        len
        (cursor ts (v ++ (len_form maxlen ∷ (junk ++ u))) rest)
      ≡ ok tt (cursor ts (v ++ (len_bytes maxlen len ++ u)) rest)
unfolding store_len len_bytes
store_len_lem ts v junk u rest maxlen len h fits e small = elim (Bool-cases (ltb maxlen 128)) [
  | inl a ↦ rw a (store_0 ts v junk u rest len (rw a at e) (ground arith))
  | inr a ↦ elim (Bool-cases (ltb maxlen 256)) [
    | inl b ↦ rw (a, b) (store_1 ts v small junk u rest len (rw (a, b) at e) (ground arith))
    | inr b ↦ elim (Bool-cases (ltb maxlen 65536)) [
      | inl c ↦ rw (a, b, c) (store_2 ts v small junk u rest len (rw (a, b, c) at e) (ground arith))
      | inr c ↦ rw (a, b, c) (store_3 ts v small junk u rest len (rw (a, b, c) at e) (omega arith))
    ]
  ]
]
