-- ===== src/Tlv/Write/Encode.antt =====
-- `tlv_pushl`, `tlv_write` and `tlv_pop` in a row write the encoding of a tag.
use pivy.Prelude.{
  ℕ, suc, ◌+◌, ◌^◌, ◌≤◌, ◌<◌, ◌≡◌, refl, ap, ◌∙◌, List, [], ◌∷◌, ◌++◌, append_assoc, length,
  length-append, split_at, arith, le→leb, sub_size,
}
use pivy.Outcome.{ok, ◌>>=◌, ◌>>◌}
use pivy.Tlv.{TlvState, Tlv, ts_now, tlv_root_rem, tlv_ctx_push, tlv_ctx_pop}
use pivy.Tlv.Write.{tlv_write, tlv_pushl, tlv_pop}
use pivy.Tlv.Write.Cursor.{cursor, put_bytes_lem, get_byte_lem}
use pivy.Tlv.Write.Numbers.{number_bytes, tlv_write_u8to32_lem}
use pivy.Tlv.Write.Tags.{len_form, len_extra, len_bytes, reserve_len_lem, store_len_lem}

-- The encoding of a tag: its number, the length of its contents, and its contents.
unfoldable pub encode : ℕ → ℕ → List ℕ → List ℕ
encode tag maxlen contents = number_bytes tag ++ (len_bytes maxlen (length contents) ++ contents)

-- The calls that write a tag with `contents`.
unfoldable pub write_tag : ℕ → ℕ → List ℕ → Tlv (Unit {0})
write_tag tag maxlen contents = do tlv_pushl tag maxlen; tlv_write contents; tlv_pop

-- `ts` with the tag open whose length stands behind `v`.
abbrev opened : TlvState → ℕ → List ℕ → List ℕ → TlvState
opened ts maxlen v jl = record ts {
  ts_ctxs =
      record {
        tc_begin = length (v ++ (len_form maxlen ∷ jl));
        tc_end = 0;
        tc_lenptr = length v;
        tc_depth = (ts_now ts).tc_depth + 1;
      }
      ∷ ts.ts_ctxs;
}

module _ (ts : TlvState) (tag maxlen : ℕ) (w jt jl : List ℕ) where
  pushl_lem :
      (x : ℕ) (rest : List ℕ)
      → maxlen < 2 ^ 24
      → length jt ≡ length (number_bytes tag)
      → length jl ≡ len_extra maxlen
      → length w + length jt ≤ ts.ts_root.tc_end
      → length (w ++ (jt ++ (x ∷ (jl ++ rest)))) < 2 ^ 64
      → tlv_pushl tag maxlen (cursor ts w (jt ++ (x ∷ (jl ++ rest))))
        ≡ ok tt (
            cursor
              (opened ts maxlen (w ++ number_bytes tag) jl)
              ((w ++ number_bytes tag) ++ (len_form maxlen ∷ jl))
              rest)
  unfolding tlv_pushl tlv_ctx_push
  pushl_lem x rest hm et el room small =
      rw (tlv_write_u8to32_lem tag ts w jt (x ∷ (jl ++ rest)) et room small, ◌>>=◌)
        (rw
          (
            reserve_len_lem ts (w ++ number_bytes tag) x jl rest maxlen hm el (
                omega (
                  arith,
                  small,
                  et,
                  length-append w (jt ++ (x ∷ (jl ++ rest))),
                  length-append jt (x ∷ (jl ++ rest)),
                  length-append (w ++ number_bytes tag) (x ∷ (jl ++ rest)),
                  length-append w (number_bytes tag),
                )),
            ◌>>=◌,
          )
          refl)

tlv_write_lem :
    (ts : TlvState) (v jd rest contents : List ℕ)
    → length jd ≡ length contents
    → length v + length contents ≤ ts.ts_root.tc_end
    → ts.ts_root.tc_end < 2 ^ 64
    → length (v ++ (jd ++ rest)) < 2 ^ 64
    → tlv_write contents (cursor ts v (jd ++ rest)) ≡ ok tt (cursor ts (v ++ contents) rest)
unfolding tlv_write
tlv_write_lem ts v jd rest contents e room end small =
    rw (le→leb (length contents) _ enough, ◌>>=◌) (put_bytes_lem contents ts v jd rest e small)
  where
    enough : length contents ≤ tlv_root_rem (cursor ts v (jd ++ rest))
    enough = unfold tlv_root_rem in omega arith

pop_lem :
    (ts : TlvState) (maxlen : ℕ) (v jl contents rest : List ℕ)
    → maxlen < 2 ^ 24
    → length contents ≤ maxlen
    → length jl ≡ len_extra maxlen
    → length (v ++ (len_form maxlen ∷ jl)) + length contents + 4 < 2 ^ 64
    → tlv_pop (cursor (opened ts maxlen v jl) ((v ++ (len_form maxlen ∷ jl)) ++ contents) rest)
      ≡ ok tt (cursor ts (v ++ (len_bytes maxlen (length contents) ++ contents)) rest)
unfolding tlv_pop tlv_ctx_pop
pop_lem ts maxlen v jl contents rest hm hc el small =
    rw (append_assoc v (len_form maxlen ∷ jl) contents) (
      rw (get_byte_lem ts v (len_form maxlen) (jl ++ contents) rest, ◌>>=◌)
        (rw len (
          store_len_lem ts v jl contents rest maxlen (length contents) hm hc el
            (omega (arith, length-append v (len_form maxlen ∷ jl))))))
  where
    len :
        sub_size
          (length (v ++ (len_form maxlen ∷ (jl ++ contents))))
          (length (v ++ (len_form maxlen ∷ jl)))
        ≡ length contents
    len = omega (
      arith,
      length-append v (len_form maxlen ∷ (jl ++ contents)),
      length-append v (len_form maxlen ∷ jl),
      length-append jl contents,
    )

length-len_bytes : (maxlen len : ℕ) → length (len_bytes maxlen len) ≡ suc (len_extra maxlen)
unfolding len_bytes
length-len_bytes maxlen len = ground arith

-- The room for the three parts of an encoding.
split_room :
    (a b c : ℕ) (junk : List ℕ)
    → length junk ≡ a + suc b + c
    → (jt : List ℕ) × (x : ℕ) × (jl : List ℕ) × (jd : List ℕ) × (junk ≡ jt ++ (x ∷ (jl ++ jd)))
      × (length jt ≡ a)
      × (length jl ≡ b)
      × (length jd ≡ c)
split_room a b c junk n =
    let (jt, j, e, k) = split_at a junk (omega arith) in
    let m : length j ≡ suc b + c = omega (arith, ap length e, length-append jt j) in
    let (x, t, e', k') = uncons j m in
    let (jl, jd, e'', k'') = split_at b t (omega arith) in
    (
      jt,
      x,
      jl,
      jd,
      e ∙ ap (λ l. jt ++ l) (e' ∙ ap (λ l. x ∷ l) e''),
      k,
      k'',
      omega (arith, ap length e'', length-append jl jd),
    )
  where
    uncons :
        (j : List ℕ)
        → length j ≡ suc b + c
        → (x : ℕ) × (t : List ℕ) × (j ≡ x ∷ t) × (length t ≡ b + c)
    uncons [] m = absurd (omega arith)
    uncons (x ∷ t) m = (x, t, refl, omega arith)

write_tag_parts :
    (ts : TlvState) (tag maxlen : ℕ) (contents w jt : List ℕ) (x : ℕ) (jl jd rest : List ℕ)
    → maxlen < 2 ^ 24
    → length contents ≤ maxlen
    → length jt ≡ length (number_bytes tag)
    → length jl ≡ len_extra maxlen
    → length jd ≡ length contents
    → length w + length jt + suc (length jl) + length jd ≤ ts.ts_root.tc_end
    → ts.ts_root.tc_end + 4 < 2 ^ 64
    → length (w ++ (jt ++ (x ∷ (jl ++ (jd ++ rest))))) < 2 ^ 64
    → write_tag tag maxlen contents (cursor ts w (jt ++ (x ∷ (jl ++ (jd ++ rest)))))
      ≡ ok tt (cursor ts (w ++ encode tag maxlen contents) rest)
unfolding write_tag encode
write_tag_parts ts tag maxlen contents w jt x jl jd rest hm hc et el ed room end small =
    let v = w ++ number_bytes tag in
    let h = len_form maxlen ∷ jl in
    let at : length (v ++ h) ≡ length w + length jt + suc (length jl) =
      omega (arith, length-append v h, length-append w (number_bytes tag)) in
    rw (pushl_lem ts tag maxlen w jt jl x (jd ++ rest) hm et el (omega arith) small, ◌>>=◌)
      (rw
        (
          tlv_write_lem (opened ts maxlen v jl) (v ++ h) jd rest contents ed (omega arith)
              (omega arith)
              (omega (
                arith,
                at,
                small,
                length-append (v ++ h) (jd ++ rest),
                length-append w (jt ++ (x ∷ (jl ++ (jd ++ rest)))),
                length-append jt (x ∷ (jl ++ (jd ++ rest))),
                length-append jl (jd ++ rest),
              )),
          ◌>>=◌,
        )
        (pop_lem ts maxlen v jl contents rest hm hc el (omega arith) ∙ simp append_assoc))

-- Where the buffer has room for the encoding of a tag (`junk`), and the contents are no longer than
-- the length that was given to `tlv_pushl`, the three calls write the encoding and return.
pub write_tag_lem :
    (ts : TlvState) (tag maxlen : ℕ) (contents w junk rest : List ℕ)
    → maxlen < 2 ^ 24
    → length contents ≤ maxlen
    → length junk ≡ length (encode tag maxlen contents)
    → length w + length junk ≤ ts.ts_root.tc_end
    → ts.ts_root.tc_end + 4 < 2 ^ 64
    → length (w ++ (junk ++ rest)) < 2 ^ 64
    → write_tag tag maxlen contents (cursor ts w (junk ++ rest))
      ≡ ok tt (cursor ts (w ++ encode tag maxlen contents) rest)
unfolding write_tag encode
write_tag_lem ts tag maxlen contents w junk rest hm hc ej room end small =
    let l = len_bytes maxlen (length contents) in
    let n : length junk ≡ length (number_bytes tag) + suc (len_extra maxlen) + length contents =
      omega (
        arith,
        ej,
        length-append (number_bytes tag) (l ++ contents),
        length-append l contents,
        length-len_bytes maxlen (length contents),
      ) in
    let (jt, x, jl, jd, e, kt, kl, kd) =
      split_room (length (number_bytes tag)) (len_extra maxlen) (length contents) junk n in
    let at : junk ++ rest ≡ jt ++ (x ∷ (jl ++ (jd ++ rest))) =
      ap (λ l. l ++ rest) e ∙ simp append_assoc in
    rw at (
      write_tag_parts ts tag maxlen contents w jt x jl jd rest hm hc kt kl kd (omega arith) end
        (rw at at small))
