-- ===== src/Objects/Rounds.antt =====
-- The parses of data objects in piv.c end, whatever the card has answered.
use pivy.Prelude.{
  ℕ, zero, suc, ◌+◌, ◌^◌, ◌≤◌, ◌<◌, ◌≡◌, refl, ap, ◌∙◌, List, ◌∷◌, true, not, some, inl, inr, sym,
  subst, [], length, ltb, ◌==◌, Bool-cases, low_bits, add_size, arith,
}
use pivy.Outcome.{Outcome, ok, err, abort, fault, stuck, M, ◌>>=◌, ◌>>◌, fail_if}
use pivy.Tlv.{TlvContext, TlvState, Tlv, ts_now, tlv_init}
use pivy.Tlv.Read.{tlv_read_tag, tlv_end, tlv_skip, tlv_read_u8to32, tlv_read_string}
use pivy.Tlv.Write.{tlv_free}
use pivy.Tlv.Read.Safe.{tlv_read_u8to32-Reads, tlv_read_string-Reads}
use pivy.Tlv.Read.Tags.{
  Entered, Enters, popped, popped-IsValid, in_tag, tlv_read_tag-Enters, tlv_end_lem, tlv_skip_lem,
  tlv_abort_lem,
}
use pivy.Tlv.Inv.{
  IsValid, Moved, Reads, Moved-refl, Moved-trans, at_end_cases, now_end-le, init-IsValid,
}
use pivy.Apdu.{Apdu, tagerrf, invderrf}
use pivy.Apdu.Safe.{ReplyFits}
use pivy.Pin.{Piv}
use pivy.Token.{PivToken}
use pivy.Objects.{
  Parse, tlv, on_reply, update, keyhist_tag, tag_rounds, parse_object, after_parse, invdata,
  free_parser, parse_reply, take_object, object_error, sw_has_data,
}

-- It returns with `Q`, or with an error and a parser that is valid; it stops in no other way.
abbrev pub Parses : {A : Type 0} → (Parse → Type 0) → Outcome Parse A → Type 0
Parses Q (ok a p) = Q p
Parses Q (err e p) = IsValid p.p_tlv
Parses Q abort = ⊥
Parses Q fault = ⊥
Parses Q stuck = ⊥

pub Parses-bind :
    {A B : Type 0} (P Q : Parse → Type 0) (m : M Parse A) (f : A → M Parse B) (p : Parse)
    → Parses P (m p)
    → ((a : A) (p' : Parse) → P p' → Parses Q (f a p'))
    → Parses Q ((m >>= f) p)
Parses-bind {A} {B} P Q m f p h k = go (m p) h
  where
    go : (r : Outcome Parse A) → Parses P r → Parses Q (((λ (_ : Parse). r) >>= f) p)
    go (ok a p') h = k a p' h
    go (err e p') h = h
    go abort h = h
    go fault h = h
    go stuck h = h

-- After a round of the loop: the tag is closed again, and the position has moved on.
abbrev pub Round : TlvState → Parse → Type 0
Round ts p = Moved ts p.p_tlv × (ts.ts_pos < p.p_tlv.ts_pos)

pub tlv-Reads :
    {A : Type 0} (m : Tlv A) (ts : TlvState) (p : Parse)
    → Moved ts p.p_tlv
    → Reads p.p_tlv (m p.p_tlv)
    → Parses (λ p'. Moved ts p'.p_tlv) (tlv m p)
unfolding tlv on_reply
tlv-Reads {A} m ts p moved h = go (m p.p_tlv) h
  where
    go :
        (r : Outcome TlvState A)
        → Reads p.p_tlv r
        → Parses (λ p'. Moved ts p'.p_tlv) (on_reply p.p_tk r)
    go (ok a s) h = Moved-trans moved h
    go (err e s) h = h.valid
    go abort h = h
    go fault h = h
    go stuck h = h

-- A tag that was entered from `ts` is closed.
module _ (ts ts' : TlvState) (en : Entered ts ts') (p : Parse) (m : Moved ts' p.p_tlv) where
  closed :
      (pos : ℕ)
      → p.p_tlv.ts_pos ≤ pos
      → pos ≤ en.below.0.tc_end
      → Round ts (record { p_tlv = popped p.p_tlv ts.ts_ctxs pos; p_tk = p.p_tk })
  closed pos h k =
      let e : p.p_tlv.ts_ctxs ≡ en.below.0 ∷ ts.ts_ctxs = m.ctxs ∙ en.below.1 in
      (
        record {
          valid =
              popped-IsValid p.p_tlv m.valid en.below.0 ts.ts_ctxs e pos
                (omega (arith, in_tag p.p_tlv m.valid en.below.0 ts.ts_ctxs e)) k;
          root = m.root ∙ en.root;
          ctxs = refl;
          buf = m.buf ∙ en.buf;
          forward = omega (arith, en.forward, m.forward);
        },
        omega (arith, en.forward, m.forward),
      )

  pub end_closes : Parses (Round ts) (tlv tlv_end p)
  unfolding tlv on_reply
  end_closes =
      let e : p.p_tlv.ts_ctxs ≡ en.below.0 ∷ ts.ts_ctxs = m.ctxs ∙ en.below.1 in
      let r =
        closed p.p_tlv.ts_pos (omega arith)
          (omega (arith, in_tag p.p_tlv m.valid en.below.0 ts.ts_ctxs e)) in
      rw (tlv_end_lem p.p_tlv m.valid en.below.0 ts.ts_ctxs e)
        (elim (Bool-cases (p.p_tlv.ts_pos == en.below.0.tc_end)) [
          | inl c ↦ rw c r
          | inr c ↦ rw c r.0.valid
        ])

  pub skip_closes : Parses (Round ts) (tlv tlv_skip p)
  unfolding tlv on_reply
  skip_closes =
      let e : p.p_tlv.ts_ctxs ≡ en.below.0 ∷ ts.ts_ctxs = m.ctxs ∙ en.below.1 in
      rw (tlv_skip_lem p.p_tlv m.valid en.below.0 ts.ts_ctxs e) (
        closed en.below.0.tc_end (omega (arith, in_tag p.p_tlv m.valid en.below.0 ts.ts_ctxs e))
          (omega arith))

-- A value is read from the tag, the token is updated with it, and the tag is closed.
pub value_closes :
    {A : Type 0} (read : Tlv A) (store : A → PivToken → PivToken) (ts ts' : TlvState) (p : Parse)
    → Entered ts ts'
    → p.p_tlv ≡ ts'
    → ((s : TlvState) → IsValid s → Reads s (read s))
    → Parses (Round ts) ((tlv read >>= λ a. update (store a) >> tlv tlv_end) p)
value_closes read store ts ts' p en e reads =
    Parses-bind (λ p'. Moved ts' p'.p_tlv) (Round ts) (tlv read)
      (λ a. update (store a) >> tlv tlv_end) p
      (tlv-Reads read ts' p (rw e (Moved-refl en.valid)) (reads p.p_tlv (rw e en.valid)))
      λ a p' m. unfold update in end_closes ts ts' en (record p' { p_tk = store a p'.p_tk }) m

-- What a case of the loop does with a tag that was entered from `ts`.
abbrev pub Closes : (ℕ → M Parse (Unit {0})) → Type 0
Closes read_one =
    (tag : ℕ) (ts : TlvState) (p : Parse) → Entered ts p.p_tlv → Parses (Round ts) (read_one tag p)

pub keyhist_tag-Closes : Closes keyhist_tag
unfolding keyhist_tag
keyhist_tag-Closes tag ts p en = elim (Bool-cases (tag == 0xC1)) [
  | inl e ↦ rw e (
      value_closes tlv_read_u8to32 (λ n tk. record tk { pt_hist_oncard = low_bits n 8 }) ts p.p_tlv
        p en refl (λ s v. tlv_read_u8to32-Reads s v))
  | inr e ↦ elim (Bool-cases (tag == 0xC2)) [
    | inl f ↦
        rw (e, f)
          (value_closes tlv_read_u8to32 (λ n tk. record tk { pt_hist_offcard = low_bits n 8 }) ts
            p.p_tlv p en refl (λ s v. tlv_read_u8to32-Reads s v))
    | inr f ↦ elim (Bool-cases (tag == 0xF3)) [
      | inl g ↦
          rw (e, f, g)
            (value_closes tlv_read_string (λ url tk. record tk { pt_hist_url = some url }) ts
              p.p_tlv p en refl (λ s v. tlv_read_string-Reads s v))
      | inr g ↦ elim (Bool-cases (tag == 0xFE)) [
        | inl h ↦ rw (e, f, g, h) (skip_closes ts p.p_tlv en p (Moved-refl en.valid))
        | inr h ↦ rw (e, f, g, h) en.valid
      ]
    ]
  ]
]

pub read_tag-Entered :
    (p : Parse) → IsValid p.p_tlv → Parses (λ p'. Entered p.p_tlv p'.p_tlv) (tlv tlv_read_tag p)
unfolding tlv on_reply
read_tag-Entered p v = go (tlv_read_tag p.p_tlv) (tlv_read_tag-Enters p.p_tlv v)
  where
    go :
        (r : Outcome TlvState ℕ)
        → Enters p.p_tlv r
        → Parses (λ p'. Entered p.p_tlv p'.p_tlv) (on_reply p.p_tk r)
    go (ok a s) h = h
    go (err e s) h = h.valid
    go abort h = h
    go fault h = h
    go stuck h = h

now-Moved : {ts ts' : TlvState} → Moved ts ts' → (ts_now ts').tc_end ≡ (ts_now ts).tc_end
now-Moved m = rw (m.ctxs, m.root) refl

-- The loop ends at the end of the tag that is open, within one round for each byte that is left.
pub tag_rounds-Parses :
    (read_one : ℕ → M Parse (Unit {0}))
    → Closes read_one
    → (fuel : ℕ) (ts : TlvState) (p : Parse) → Moved ts p.p_tlv
    → (ts_now ts).tc_end < p.p_tlv.ts_pos + fuel
    → Parses (λ p'. Moved ts p'.p_tlv) (tag_rounds read_one fuel p)
unfolding tag_rounds
tag_rounds-Parses read_one closes zero ts p m enough =
    absurd (omega (arith, enough, m.valid.before, now-Moved m))
tag_rounds-Parses read_one closes (suc fuel) ts p m enough = elim (at_end_cases m.valid) [
  | inl (e, at) ↦ rw e m
  | inr (e, before) ↦ rw e (
      Parses-bind (λ p'. Entered p.p_tlv p'.p_tlv) (λ p'. Moved ts p'.p_tlv) (tlv tlv_read_tag)
        (λ tag. read_one tag >> tag_rounds read_one fuel) p (read_tag-Entered p m.valid)
        λ tag p₁ en.
          Parses-bind (Round p.p_tlv) (λ p'. Moved ts p'.p_tlv) (read_one tag)
            (λ _. tag_rounds read_one fuel) p₁ (closes tag p.p_tlv p₁ en)
            λ u p₂ (m', on).
              tag_rounds-Parses read_one closes fuel ts p₂ (Moved-trans m m')
                (omega (arith, on, enough)))
]

-- The parse of an object of `len` bytes, in `len + 1` rounds at most.
pub parse_object-Parses :
    (outer : ℕ) (read_one : ℕ → M Parse (Unit {0}))
    → Closes read_one
    → (buf : List ℕ) (offset len : ℕ) (tk : PivToken) → offset + len ≤ length buf
    → length buf < 2 ^ 64
    → Parses
        (λ p. Round (tlv_init buf offset len) p)
        (parse_object outer read_one
          (suc len)
          (record { p_tlv = tlv_init buf offset len; p_tk = tk }))
unfolding parse_object tlv_init
parse_object-Parses outer read_one closes buf offset len tk fits small =
    Parses-bind (λ p. Entered ts p.p_tlv) (Round ts) (tlv tlv_read_tag) _
      (record { p_tlv = ts; p_tk = tk }) (read_tag-Entered (record { p_tlv = ts; p_tk = tk }) v)
      λ tag p en. guarded tag p en
  where
    ts : TlvState
    ts = tlv_init buf offset len

    v : IsValid ts
    v = init-IsValid buf offset len fits small

    room : (p : Parse) → Entered ts p.p_tlv → (ts_now p.p_tlv).tc_end < p.p_tlv.ts_pos + suc len
    room p en =
        let end : p.p_tlv.ts_root.tc_end ≡ add_size offset len =
          ap (λ (tc : TlvContext). tc.tc_end) en.root in
        let from : offset < p.p_tlv.ts_pos = en.forward in
        omega (arith, now_end-le en.valid, end, from, fits, small)

    guarded :
        (tag : ℕ) (p : Parse)
        → Entered ts p.p_tlv
        → Parses (Round ts) (
            (fail_if (not (tag == outer)) tagerrf >> (tag_rounds read_one (suc len) >> tlv tlv_end))
              p)
    guarded tag p en = elim (Bool-cases (tag == outer)) [
      | inr e ↦ rw e en.valid
      | inl e ↦ rw e (
          Parses-bind (λ p'. Moved p.p_tlv p'.p_tlv) (Round ts) (tag_rounds read_one (suc len))
            (λ _. tlv tlv_end) p
            (tag_rounds-Parses read_one closes (suc len) p.p_tlv p (Moved-refl en.valid)
              (room p en))
            λ u p' m. end_closes ts p.p_tlv en p' m)
    ]

-- It returns, with or without an error.
abbrev pub Returns : {S A : Type 0} → Outcome S A → Type 0
Returns (ok a s) = Unit
Returns (err e s) = Unit
Returns abort = ⊥
Returns fault = ⊥
Returns stuck = ⊥

-- At its root, and with no tag open, a parser can be freed.
free_parser-Returns :
    {C A : Type 0} (result : Outcome (Piv C) A) (ts : TlvState)
    → ts.ts_ctxs ≡ []
    → Returns result
    → Returns (free_parser result (tlv_free ts))
unfolding free_parser tlv_free
free_parser-Returns result ts e h = elim (Bool-cases ts.ts_freebuf) [
  | inl own ↦ rw (e, own) h
  | inr other ↦ rw (e, other) h
]

-- No tag is open at the end of a parse that returns without an error.
pub after_parse-Returns :
    {C A : Type 0} (Q : Parse → Type 0) (s : Piv C) (r : Outcome Parse A)
    → ((p : Parse) → Q p → p.p_tlv.ts_ctxs ≡ [])
    → Parses Q r
    → Returns (after_parse s r)
unfolding after_parse invdata
after_parse-Returns Q s (ok a p) at_root h =
    free_parser-Returns (ok a (record s { p_token = p.p_tk })) p.p_tlv (at_root p h) tt
after_parse-Returns {C} {A} Q s (err e p) at_root h =
    subst (λ o. Returns (invdata {C = C} {A = A} (record s { p_token = p.p_tk }) e o))
      (sym (tlv_abort_lem p.p_tlv h).0)
      (free_parser-Returns (err (invderrf e) (record s { p_token = p.p_tk }))
        (popped p.p_tlv [] p.p_tlv.ts_root.tc_end) refl tt)
after_parse-Returns Q s abort at_root h = h
after_parse-Returns Q s fault at_root h = h
after_parse-Returns Q s stuck at_root h = h

pub parse_reply-Returns :
    {C : Type 0} (outer : ℕ) (read_one : ℕ → M Parse (Unit {0}))
    → Closes read_one
    → (a : Apdu) (s : Piv C) → ReplyFits a.a_reply
    → Returns (parse_reply (parse_object outer read_one (suc a.a_reply.b_len)) a s)
unfolding parse_reply tlv_init
parse_reply-Returns outer read_one closes a s (buf, e, n, small, o) = rw e (
    after_parse-Returns (Round (tlv_init buf a.a_reply.b_offset a.a_reply.b_len)) s _
      (λ p h. h.0.ctxs)
      (parse_object-Parses outer read_one closes buf a.a_reply.b_offset a.a_reply.b_len s.p_token
        (omega arith) (omega arith)))

-- Whatever bytes a card has answered, taking the key history out of the reply returns, with or
-- without an error: no VERIFY fails, the one of `tlv_free` included, no byte outside the reply is read, and the loop ends.
pub keyhist-Returns :
    {C : Type 0} (a : Apdu) (s : Piv C)
    → ReplyFits a.a_reply
    → Returns
        (take_object true object_error (parse_object 0x53 keyhist_tag (suc a.a_reply.b_len)) a s)
unfolding take_object
keyhist-Returns a s fits = elim (Bool-cases (sw_has_data a.a_sw)) [
  | inr e ↦ rw e tt
  | inl e ↦ elim (Bool-cases (ltb a.a_reply.b_len 1)) [
    | inl f ↦ rw (e, f) tt
    | inr f ↦ rw (e, f) (parse_reply-Returns 0x53 keyhist_tag keyhist_tag-Closes a s fits)
  ]
]
