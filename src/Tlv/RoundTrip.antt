-- ===== src/Tlv/RoundTrip.antt =====
-- What the writer of tlv.c writes, the reader reads back.
use pivy.Prelude.{
  ℕ, suc, ◌+◌, ◌*◌, ◌/◌, ◌%◌, ◌^◌, ◌≤◌, ◌<◌, ◌≡◌, ◌≢◌, ◌⊎◌, inl, inr, refl, ap, ◌∙◌, List, [], ◌∷◌,
  ◌++◌, append_assoc, append-nil, length, length-append, arith, ltb, ◌||◌, true, false, le→ltb,
  bit_set, low_bits, shift_in, Bool-cases,
}
use pivy.Outcome.{ok, pure, ◌>>=◌, ◌>>◌}
use pivy.Tlv.{
  TlvContext, TlvState, Tlv, ts_now, tlv_at_end, tlv_rem, tlv_root_rem, tlv_ctx_push, tlv_ctx_pop,
  next_byte, next_bytes,
}
use pivy.Tlv.Read.{
  tag_loop, read_tag_number, len_loop, read_long_len, read_tag_len, enter_tag, tlv_read_tag,
  tlv_read_alloc, tlv_end,
}
use pivy.Tlv.Write.{octet}
use pivy.Tlv.Write.Cursor.{cursor, next_byte-cursor, next_bytes-cursor}
use pivy.Tlv.Write.Numbers.{be_bytes, number_bytes}
use pivy.Tlv.Write.Tags.{len_bytes}
use pivy.Tlv.Write.Encode.{encode}

-- The tags that the reader takes for what the writer means: one byte that does not announce more,
-- or two of which the first announces one more.
abbrev pub IsTag : ℕ → Type 0
IsTag tag =
    ((0 < tag) × (tag < 256) × (tag % 32 ≢ 31))
    ⊎ ((256 ≤ tag) × (tag < 65536) × ((tag / 256) % 32 ≡ 31) × (tag % 256 < 128))

module _ (ts : TlvState) (w : List ℕ) (x : ℕ) (rest : List ℕ) where
  not_at_end :
      length w < ts.ts_root.tc_end
      → length w < (ts_now ts).tc_end
      → tlv_at_end (cursor ts w (x ∷ rest)) ≡ false
  unfolding tlv_at_end
  not_at_end h k = ground arith

number_bytes_1 : (tag : ℕ) → 0 < tag → tag < 256 → number_bytes tag ≡ tag ∷ []
unfolding number_bytes
number_bytes_1 tag h k = unfold pivy.Tlv.Write.skip_zeros be_bytes in ground arith

number_bytes_2 : (tag : ℕ) → 256 ≤ tag → tag < 65536 → number_bytes tag ≡ tag / 256 ∷ tag % 256 ∷ []
unfolding number_bytes
number_bytes_2 tag h k = unfold pivy.Tlv.Write.skip_zeros be_bytes in ground arith

-- Room for `n` bytes more in the innermost tag and in the root.
abbrev pub Room : TlvState → List ℕ → ℕ → Type 0
Room ts w n =
    (length w + n ≤ ts.ts_root.tc_end)
    × (length w + n ≤ (ts_now ts).tc_end)
    × (ts.ts_root.tc_end < 2 ^ 64)
    × ((ts_now ts).tc_end < 2 ^ 64)

one_byte_tag :
    (ts : TlvState) (w rest : List ℕ) (d : ℕ)
    → d % 32 ≢ 31
    → Room ts w 1
    → length (w ++ (d ∷ rest)) < 2 ^ 64
    → read_tag_number (cursor ts w (d ∷ rest)) ≡ ok d (cursor ts (w ++ (d ∷ [])) rest)
unfolding read_tag_number
one_byte_tag ts w rest d one room small =
    rw (not_at_end ts w d rest (omega arith) (omega arith), ◌>>=◌)
      (rw (next_byte-cursor ts w d rest small, ◌>>=◌) (ground arith))

last_byte :
    (fuel tag : ℕ) (ts : TlvState) (w rest : List ℕ) (c : ℕ)
    → c < 128
    → Room ts w 1
    → length (w ++ (c ∷ rest)) < 2 ^ 64
    → tag_loop (suc fuel) tag (cursor ts w (c ∷ rest))
      ≡ ok (shift_in 32 tag c) (cursor ts (w ++ (c ∷ [])) rest)
unfolding tag_loop
last_byte fuel tag ts w rest c h room small =
    rw (not_at_end ts w c rest (omega arith) (omega arith), ◌>>=◌)
      (rw (next_byte-cursor ts w c rest small, ◌>>=◌) (ground arith))

two_byte_tag :
    (ts : TlvState) (w rest : List ℕ) (d c : ℕ)
    → d % 32 ≡ 31
    → d < 256
    → c < 128
    → Room ts w 2
    → length (w ++ (d ∷ c ∷ rest)) < 2 ^ 64
    → read_tag_number (cursor ts w (d ∷ c ∷ rest))
      ≡ ok (d * 256 + c) (cursor ts (w ++ (d ∷ c ∷ [])) rest)
unfolding read_tag_number
two_byte_tag ts w rest d c more hd hc room small =
    let at : length (w ++ (d ∷ [])) ≡ length w + 1 = length-append w (d ∷ []) in
    let sm : length ((w ++ (d ∷ [])) ++ (c ∷ rest)) < 2 ^ 64 = rw append_assoc small in
    rw (not_at_end ts w d (c ∷ rest) (omega arith) (omega arith), ◌>>=◌)
      (rw (next_byte-cursor ts w d (c ∷ rest) small, ◌>>=◌)
        (ground (
          arith,
          last_byte (tlv_rem (cursor ts (w ++ (d ∷ [])) (c ∷ rest))) d ts (w ++ (d ∷ [])) rest c hc
              (omega arith) sm,
          append_assoc w (d ∷ []) (c ∷ []),
        )))

read_tag_number_lem :
    (ts : TlvState) (w rest : List ℕ) (tag : ℕ)
    → IsTag tag
    → Room ts w (length (number_bytes tag))
    → length (w ++ (number_bytes tag ++ rest)) < 2 ^ 64
    → read_tag_number (cursor ts w (number_bytes tag ++ rest))
      ≡ ok tag (cursor ts (w ++ number_bytes tag) rest)
read_tag_number_lem ts w rest tag (inl (pos, lt, one)) room small =
    let e = number_bytes_1 tag pos lt in
    rw e (one_byte_tag ts w rest tag one (rw e at room) (rw e at small))
read_tag_number_lem ts w rest tag (inr (ge, lt, more, last)) room small =
    let e = number_bytes_2 tag ge lt in
    rw e (
      two_byte_tag ts w rest (tag / 256) (tag % 256) more (omega arith) last (rw e at room)
        (rw e at small)
      ∙ ap (λ t. ok t (cursor ts (w ++ (tag / 256 ∷ tag % 256 ∷ [])) rest)) (omega arith))

-- What the loop over the bytes of a length adds up.
abbrev sum_len : ℕ → List ℕ → ℕ
sum_len len [] = len
sum_len len (b ∷ bs) = sum_len (shift_in 64 len b) bs

len_loop_lem :
    (bs : List ℕ) (len : ℕ) (ts : TlvState) (w rest : List ℕ)
    → length (w ++ (bs ++ rest)) < 2 ^ 64
    → len_loop (length bs) len (cursor ts w (bs ++ rest))
      ≡ ok (sum_len len bs) (cursor ts (w ++ bs) rest)
unfolding len_loop
len_loop_lem [] len ts w rest small = rw append-nil
len_loop_lem (b ∷ bs) len ts w rest small =
    rw (next_byte-cursor ts w b (bs ++ rest) small, ◌>>=◌)
      (len_loop_lem bs (shift_in 64 len b) ts (w ++ (b ∷ [])) rest (rw append_assoc small)
        ∙ simp append_assoc)

read_long_len_lem :
    (bs : List ℕ) (ts : TlvState) (w rest : List ℕ)
    → 1 ≤ length bs
    → length bs ≤ 4
    → Room ts w (length bs)
    → length (w ++ (bs ++ rest)) < 2 ^ 64
    → read_long_len (length bs) (cursor ts w (bs ++ rest))
      ≡ ok (sum_len 0 bs) (cursor ts (w ++ bs) rest)
unfolding read_long_len
read_long_len_lem bs ts w rest one four room small =
    rw (in_range, ◌>>=◌) (rw (enough, ◌>>=◌) (len_loop_lem bs 0 ts w rest small))
  where
    in_range : (ltb (length bs) 1 || ltb 4 (length bs)) ≡ false
    in_range = ground arith

    enough : ltb (tlv_rem (cursor ts w (bs ++ rest))) (length bs) ≡ false
    enough = le→ltb _ _ (unfold tlv_rem in omega arith)

-- A length in the long form: `0x80 + n`, and `n` bytes.
long_len :
    (bs : List ℕ) (form : ℕ) (ts : TlvState) (w rest : List ℕ)
    → form ≡ 128 + length bs
    → 1 ≤ length bs
    → length bs ≤ 4
    → Room ts w (1 + length bs)
    → length (w ++ (form ∷ (bs ++ rest))) < 2 ^ 64
    → read_tag_len (cursor ts w (form ∷ (bs ++ rest)))
      ≡ ok (sum_len 0 bs) (cursor ts (w ++ (form ∷ bs)) rest)
unfolding read_tag_len
long_len bs form ts w rest e one four room small =
    let at : length (w ++ (form ∷ [])) ≡ length w + 1 = length-append w (form ∷ []) in
    let long : bit_set form 7 ≡ true = ground arith in
    let octs : low_bits form 7 ≡ length bs = omega arith in
    rw (not_at_end ts w form (bs ++ rest) (omega arith) (omega arith), ◌>>=◌)
      (rw (next_byte-cursor ts w form (bs ++ rest) small, ◌>>=◌)
        (rw (long, octs)
          (read_long_len_lem bs ts (w ++ (form ∷ [])) rest one four (omega arith)
              (rw append_assoc small)
            ∙ simp append_assoc)))

short_len :
    (ts : TlvState) (w rest : List ℕ) (len : ℕ)
    → len < 128
    → Room ts w 1
    → length (w ++ (len ∷ rest)) < 2 ^ 64
    → read_tag_len (cursor ts w (len ∷ rest)) ≡ ok len (cursor ts (w ++ (len ∷ [])) rest)
unfolding read_tag_len
short_len ts w rest len h room small =
    rw (not_at_end ts w len rest (omega arith) (omega arith), ◌>>=◌)
      (rw (next_byte-cursor ts w len rest small, ◌>>=◌) (ground arith))

read_tag_len_lem :
    (maxlen len : ℕ) (ts : TlvState) (w rest : List ℕ)
    → len ≤ maxlen
    → maxlen < 2 ^ 24
    → Room ts w (length (len_bytes maxlen len))
    → length (w ++ (len_bytes maxlen len ++ rest)) < 2 ^ 64
    → read_tag_len (cursor ts w (len_bytes maxlen len ++ rest))
      ≡ ok len (cursor ts (w ++ len_bytes maxlen len) rest)
unfolding len_bytes
read_tag_len_lem maxlen len ts w rest h max room small = elim (Bool-cases (ltb maxlen 128)) [
  | inl a ↦ rw a (short_len ts w rest len (ground arith) (rw a at room) (rw a at small))
  | inr a ↦ elim (Bool-cases (ltb maxlen 256)) [
    | inl b ↦
        rw (a, b)
          (long_len (len ∷ []) 0x81 ts w rest refl (omega arith) (omega arith) (rw (a, b) at room)
              (rw (a, b) at small)
            ∙ ap (λ t. ok t (cursor ts (w ++ (0x81 ∷ len ∷ [])) rest)) (ground arith))
    | inr b ↦ elim (Bool-cases (ltb maxlen 65536)) [
      | inl c ↦
          rw (a, b, c)
            (long_len (octet len 1 ∷ octet len 0 ∷ []) 0x82 ts w rest refl (omega arith)
                (omega arith) (rw (a, b, c) at room) (rw (a, b, c) at small)
              ∙ ap (λ t. ok t (cursor ts (w ++ (0x82 ∷ octet len 1 ∷ octet len 0 ∷ [])) rest))
                  (ground arith))
      | inr c ↦
          rw (a, b, c)
            (long_len (octet len 2 ∷ octet len 1 ∷ octet len 0 ∷ []) 0x83 ts w rest refl
                (omega arith) (omega arith) (rw (a, b, c) at room) (rw (a, b, c) at small)
              ∙ ap
                  (λ t.
                    ok t
                      (cursor ts (w ++ (0x83 ∷ octet len 2 ∷ octet len 1 ∷ octet len 0 ∷ [])) rest))
                  (ground arith))
    ]
  ]
]

-- The calls that read a tag and all of its contents.
unfoldable pub read_whole_tag : Tlv (ℕ × List ℕ)
read_whole_tag = do tag ← tlv_read_tag; contents ← tlv_read_alloc; tlv_end; pure (tag, contents)

-- `ts` with a tag open whose `len` bytes of contents begin behind `v`.
abbrev entered : TlvState → ℕ → List ℕ → ℕ → TlvState
entered ts lenptr v len = record ts {
  ts_ctxs =
      record {
        tc_begin = length v;
        tc_end = length v + len;
        tc_lenptr = lenptr;
        tc_depth = (ts_now ts).tc_depth + 1;
      }
      ∷ ts.ts_ctxs;
}

enter_tag_lem :
    (ts : TlvState) (v rest : List ℕ) (lenptr len : ℕ)
    → Room ts v len
    → enter_tag lenptr len (cursor ts v rest) ≡ ok tt (cursor (entered ts lenptr v len) v rest)
unfolding enter_tag tlv_ctx_push
enter_tag_lem ts v rest lenptr len room = rw (in_root, ◌>>=◌) (rw (in_now, ◌>>=◌) (ground arith))
  where
    in_root : ltb (tlv_root_rem (cursor ts v rest)) len ≡ false
    in_root = le→ltb _ _ (unfold tlv_root_rem in omega arith)

    in_now : ltb (tlv_rem (cursor ts v rest)) len ≡ false
    in_now = le→ltb _ _ (unfold tlv_rem in omega arith)

read_contents_lem :
    (ts : TlvState) (lenptr : ℕ) (v contents rest : List ℕ)
    → length (v ++ (contents ++ rest)) < 2 ^ 64
    → tlv_read_alloc (cursor (entered ts lenptr v (length contents)) v (contents ++ rest))
      ≡ ok contents (cursor (entered ts lenptr v (length contents)) (v ++ contents) rest)
unfolding tlv_read_alloc
read_contents_lem ts lenptr v contents rest small =
    rw all (next_bytes-cursor contents (entered ts lenptr v (length contents)) v rest small)
  where
    all :
        tlv_rem (cursor (entered ts lenptr v (length contents)) v (contents ++ rest))
        ≡ length contents
    all =
        unfold tlv_rem in
        omega (arith, length-append v (contents ++ rest), length-append contents rest)

end_lem :
    (ts : TlvState) (lenptr : ℕ) (v contents rest : List ℕ)
    → tlv_end (cursor (entered ts lenptr v (length contents)) (v ++ contents) rest)
      ≡ ok tt (cursor ts (v ++ contents) rest)
unfolding tlv_end tlv_ctx_pop
end_lem ts lenptr v contents rest = ground (arith, length-append v contents)

-- Where `encode tag maxlen contents` stands at the position, and both the buffer and the open tag
-- reach behind it, reading a tag, its contents and its end gives the tag and the contents back, for
-- tag numbers of one or two bytes and contents that fit the length form of `maxlen`.
pub read-encode :
    (tag maxlen : ℕ) (contents : List ℕ) (ts : TlvState) (w rest : List ℕ)
    → IsTag tag
    → length contents ≤ maxlen
    → maxlen < 2 ^ 24
    → Room ts w (length (encode tag maxlen contents))
    → length (w ++ (encode tag maxlen contents ++ rest)) < 2 ^ 64
    → read_whole_tag (cursor ts w (encode tag maxlen contents ++ rest))
      ≡ ok (tag, contents) (cursor ts (w ++ encode tag maxlen contents) rest)
unfolding read_whole_tag tlv_read_tag encode
read-encode tag maxlen contents ts w rest ht hc max room small =
    let n = number_bytes tag in
    let l = len_bytes maxlen (length contents) in
    let v = (w ++ n) ++ l in
    let whole : length (n ++ (l ++ contents)) ≡ length n + length l + length contents =
      omega (arith, length-append n (l ++ contents), length-append l contents) in
    let at : length (w ++ n) ≡ length w + length n = length-append w n in
    let at' : length v ≡ length w + length n + length l = omega (arith, length-append (w ++ n) l) in
    let start : encode tag maxlen contents ++ rest ≡ n ++ (l ++ (contents ++ rest)) =
      simp append_assoc in
    let sm : length (w ++ (n ++ (l ++ (contents ++ rest)))) < 2 ^ 64 = rw start at small in
    let sm' : length ((w ++ n) ++ (l ++ (contents ++ rest))) < 2 ^ 64 = rw append_assoc sm in
    let sm'' : length (v ++ (contents ++ rest)) < 2 ^ 64 = rw append_assoc sm' in
    rw (start) (
      rw
        (
          read_tag_number_lem ts w (l ++ (contents ++ rest)) tag ht (omega (arith, room, whole)) sm,
          ◌>>=◌,
        )
        (rw
          (
            read_tag_len_lem maxlen (length contents) ts (w ++ n) (contents ++ rest) hc max
                (omega (arith, room, whole, at)) sm',
            ◌>>=◌,
          )
          (rw
            (
              enter_tag_lem ts v (contents ++ rest) (length (w ++ n)) (length contents)
                  (omega (arith, room, whole, at')),
              ◌>>=◌,
            )
            (rw (read_contents_lem ts (length (w ++ n)) v contents rest sm'', ◌>>=◌)
              (rw (end_lem ts (length (w ++ n)) v contents rest, ◌>>=◌) (simp append_assoc))))))
