-- ===== src/Tlv/Write/Cursor.antt =====
-- The buffer of tlv.c as what stands before the position and what stands behind it.
use pivy.Prelude.{
  ℕ, ◌^◌, ◌<◌, ◌≡◌, refl, ap, ◌∙◌, List, [], ◌∷◌, ◌++◌, append_assoc, append-nil, some, get_elem?,
  set, length, length-append, arith,
}
use pivy.Outcome.{ok, ◌>>=◌}
use pivy.Tlv.{TlvState, next_byte, next_bytes}
use pivy.Tlv.Write.{set_byte, advance, put_byte, put_bytes, get_byte}

get_elem?-append :
    (w : List ℕ) (x : ℕ) (rest : List ℕ) → get_elem? (w ++ (x ∷ rest)) (length w) ≡ some x
get_elem?-append [] x rest = refl
get_elem?-append (a ∷ w) x rest = get_elem?-append w x rest

set-append :
    (w : List ℕ) (x : ℕ) (rest : List ℕ) (v : ℕ)
    → set (w ++ (x ∷ rest)) (length w) v ≡ w ++ (v ∷ rest)
set-append [] x rest v = refl
set-append (a ∷ w) x rest v = ap (λ l. a ∷ l) (set-append w x rest v)

-- `ts` with `w` before the position and `rest` behind it.
abbrev pub cursor : TlvState → List ℕ → List ℕ → TlvState
cursor ts w rest = record ts { ts_buf = w ++ rest; ts_pos = length w }

module _ (ts : TlvState) (w : List ℕ) (x : ℕ) (rest : List ℕ)
    (small : length (w ++ (x ∷ rest)) < 2 ^ 64) where
  in_buf : length w < length (w ++ (x ∷ rest))
  in_buf = omega (arith, length-append w (x ∷ rest))

  set_byte_lem :
      (v pos : ℕ)
      → set_byte (length w) v (record ts { ts_buf = w ++ (x ∷ rest); ts_pos = pos })
        ≡ ok tt (record ts { ts_buf = w ++ (v ∷ rest); ts_pos = pos })
  unfolding set_byte
  set_byte_lem v pos = ground (arith, set-append w x rest v, in_buf)

  pub put_byte_lem :
      (v : ℕ) → put_byte v (cursor ts w (x ∷ rest)) ≡ ok tt (cursor ts (w ++ (v ∷ [])) rest)
  unfolding put_byte advance
  put_byte_lem v =
      rw (set_byte_lem v (length w), ◌>>=◌)
        (ground (arith, in_buf, append_assoc w (v ∷ []) rest, length-append w (v ∷ [])))

  pub next_byte-cursor : next_byte (cursor ts w (x ∷ rest)) ≡ ok x (cursor ts (w ++ (x ∷ [])) rest)
  unfolding next_byte
  next_byte-cursor = ground (
    arith,
    get_elem?-append w x rest,
    in_buf,
    append_assoc w (x ∷ []) rest,
    length-append w (x ∷ []),
  )

pub put_bytes_lem :
    (bs : List ℕ) (ts : TlvState) (w junk rest : List ℕ)
    → length junk ≡ length bs
    → length (w ++ (junk ++ rest)) < 2 ^ 64
    → put_bytes bs (cursor ts w (junk ++ rest)) ≡ ok tt (cursor ts (w ++ bs) rest)
unfolding put_bytes
put_bytes_lem [] ts w [] rest e small = rw append-nil
put_bytes_lem [] ts w (x ∷ junk) rest e small = absurd (omega arith)
put_bytes_lem (b ∷ bs) ts w [] rest e small = absurd (omega arith)
put_bytes_lem (b ∷ bs) ts w (x ∷ junk) rest e small =
    rw (put_byte_lem ts w x (junk ++ rest) small b, ◌>>=◌)
      (put_bytes_lem bs ts (w ++ (b ∷ [])) junk rest (omega arith) (
          rw append_assoc (
            omega (
              arith,
              small,
              length-append w (x ∷ (junk ++ rest)),
              length-append w (b ∷ (junk ++ rest)),
            )))
        ∙ simp append_assoc)

pub next_bytes-cursor :
    (bs : List ℕ) (ts : TlvState) (w rest : List ℕ)
    → length (w ++ (bs ++ rest)) < 2 ^ 64
    → next_bytes (length bs) (cursor ts w (bs ++ rest)) ≡ ok bs (cursor ts (w ++ bs) rest)
unfolding next_bytes
next_bytes-cursor [] ts w rest small = rw append-nil
next_bytes-cursor (b ∷ bs) ts w rest small =
    rw (next_byte-cursor ts w b (bs ++ rest) small, ◌>>=◌)
      (rw (next_bytes-cursor bs ts (w ++ (b ∷ [])) rest (rw append_assoc small), ◌>>=◌)
        (simp append_assoc))

-- Writing at a place before the position.
pub set_back_lem :
    (ts : TlvState) (w : List ℕ) (x : ℕ) (u rest : List ℕ) (v : ℕ)
    → set_byte (length w) v (cursor ts (w ++ (x ∷ u)) rest) ≡ ok tt (cursor ts (w ++ (v ∷ u)) rest)
unfolding set_byte
set_back_lem ts w x u rest v = rw (append_assoc w (x ∷ u) rest) (
    ground (
      arith,
      set-append w x (u ++ rest) v,
      length-append w (x ∷ u),
      length-append w (v ∷ u),
      length-append w (x ∷ (u ++ rest)),
      append_assoc w (v ∷ u) rest,
    ))

pub get_byte_lem :
    (ts : TlvState) (w : List ℕ) (x : ℕ) (u rest : List ℕ)
    → get_byte (length w) (cursor ts (w ++ (x ∷ u)) rest) ≡ ok x (cursor ts (w ++ (x ∷ u)) rest)
unfolding get_byte
get_byte_lem ts w x u rest =
    ground (arith, append_assoc w (x ∷ u) rest, get_elem?-append w x (u ++ rest))
