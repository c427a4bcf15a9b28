-- ===== src/Tlv/Read/Tags.antt =====
-- The functions of tlv.c that open and close tags, on a valid parser.
use pivy.Prelude.{
  ℕ, ◌+◌, ◌≤◌, ◌<◌, ◌≡◌, refl, inl, inr, List, [], ◌∷◌, ltb, ◌==◌, Bool-cases, arith, ap,
  if◌then◌else◌, add_size,
}
use pivy.Outcome.{Outcome, ok, err, abort, fault, stuck, ◌>>=◌}
use pivy.Tlv.{
  TlvContext, TlvState, top, ts_now, length_error, tlv_rem, tlv_root_rem, tlv_ctx_push, tlv_ctx_pop,
}
use pivy.Tlv.Read.{
  read_tag_number, read_tag_len, enter_tag, tlv_read_tag, tlv_end, tlv_skip, abort_loop, tlv_abort,
}
use pivy.Tlv.Read.Safe.{read_tag_number-Takes, read_tag_len-Reads}
use pivy.Tlv.Inv.{Chain, IsValid, Moved, Reads, Takes, Moved-trans, rem-le-root_rem, now_end-le}

-- One tag more is open, with its contents ahead of the position.
pub record Entered (ts ts' : TlvState) : Type 0 where
  pub valid : IsValid ts'
  pub root : ts'.ts_root ≡ ts.ts_root
  pub buf : ts'.ts_buf ≡ ts.ts_buf
  pub below : (tc : TlvContext) × (ts'.ts_ctxs ≡ tc ∷ ts.ts_ctxs) × (tc.tc_begin ≡ ts'.ts_pos)
  pub forward : ts.ts_pos < ts'.ts_pos

-- What a tag's header can come to: an open tag, or an error with the same tags open as before.
abbrev pub Enters : {A : Type 0} → TlvState → Outcome TlvState A → Type 0
Enters ts (ok a ts') = Entered ts ts'
Enters ts (err e ts') = Moved ts ts'
Enters ts abort = ⊥
Enters ts fault = ⊥
Enters ts stuck = ⊥

enter_tag-Enters :
    (ts ts' : TlvState) (lenptr len : ℕ)
    → Moved ts ts'
    → ts.ts_pos < ts'.ts_pos
    → Enters ts (enter_tag lenptr len ts')
unfolding enter_tag tlv_ctx_push
enter_tag-Enters ts ts' lenptr len m h = elim (Bool-cases (ltb (tlv_root_rem ts') len)) [
  | inl e ↦ rw e m
  | inr e ↦ rw e (elim (Bool-cases (ltb (tlv_rem ts') len)) [
    | inl f ↦ rw f m
    | inr f ↦ rw f (record {
      valid = record {
        chain = ground (arith, m.valid, rem-le-root_rem m.valid, now_end-le m.valid);
        after = omega arith;
        before = ground (arith, m.valid, rem-le-root_rem m.valid, now_end-le m.valid);
        inside = m.valid.inside;
        size = m.valid.size;
      };
      root = m.root;
      buf = m.buf;
      below = (tc, ap (λ tcs. tc ∷ tcs) m.ctxs, refl);
      forward = h;
    })
  ])
]
  where
    tc : TlvContext
    tc = record {
      tc_begin = ts'.ts_pos;
      tc_end = add_size ts'.ts_pos len;
      tc_lenptr = lenptr;
      tc_depth = (ts_now ts').tc_depth + 1;
    }

-- On a well-formed parser `tlv_read_tag` either enters a tag that lies inside the one that was open,
-- with the position strictly further on, or reports an error with the same tags open.
pub tlv_read_tag-Enters : (ts : TlvState) → IsValid ts → Enters ts (tlv_read_tag ts)
unfolding tlv_read_tag
tlv_read_tag-Enters ts v = go (read_tag_number ts) (read_tag_number-Takes ts v)
  where
    pushed :
        (tag : ℕ) (r : Outcome TlvState (Unit {0}))
        → Enters ts r
        → Enters ts (((λ _. r) >>= λ _. ok tag) ts)
    pushed tag (ok a s) h = h
    pushed tag (err e s) h = h
    pushed tag abort h = h
    pushed tag fault h = h
    pushed tag stuck h = h

    len :
        (tag lenptr : ℕ) (ts' : TlvState)
        → Moved ts ts'
        → ts.ts_pos < ts'.ts_pos
        → (r : Outcome TlvState ℕ) → Reads ts' r
        → Enters ts (((λ _. r) >>= λ n. enter_tag lenptr n >>= λ _. ok tag) ts)
    len tag lenptr ts' m lt (ok n s) h =
        pushed tag (enter_tag lenptr n s)
          (enter_tag-Enters ts s lenptr n (Moved-trans m h) (ground arith))
    len tag lenptr ts' m lt (err e s) h = Moved-trans m h
    len tag lenptr ts' m lt abort h = h
    len tag lenptr ts' m lt fault h = h
    len tag lenptr ts' m lt stuck h = h

    go :
        (r : Outcome TlvState ℕ)
        → Takes ts r
        → Enters ts (
            ((λ _. r) >>= λ tag s. (read_tag_len >>= λ n. enter_tag s.ts_pos n >>= λ _. ok tag) s)
              ts)
    go (ok tag ts') (m, lt) =
        len tag ts'.ts_pos ts' m lt (read_tag_len ts') (read_tag_len-Reads ts' m.valid)
    go (err e ts') h = h
    go abort h = h
    go fault h = h
    go stuck h = h

abbrev pub popped : TlvState → List TlvContext → ℕ → TlvState
popped ts tcs pos = record ts { ts_ctxs = tcs; ts_pos = pos }

-- With a tag open, the functions that close it return, and leave a valid parser.
module _ (ts : TlvState) (v : IsValid ts) (tc : TlvContext) (tcs : List TlvContext)
    (open_tag : ts.ts_ctxs ≡ tc ∷ tcs) where
  pub popped-IsValid : (pos : ℕ) → tc.tc_begin ≤ pos → pos ≤ tc.tc_end → IsValid (popped ts tcs pos)
  popped-IsValid pos h k =
      let c : Chain ts.ts_root (tc ∷ tcs) = rw open_tag at v.chain in
      record {
        chain = c.4;
        after = omega arith;
        before = omega arith;
        inside = v.inside;
        size = v.size;
      }

  pub in_tag : (tc.tc_begin ≤ ts.ts_pos) × (ts.ts_pos ≤ tc.tc_end)
  in_tag = ground (arith, v)

  pub tlv_end_lem : tlv_end ts ≡ (
      if ts.ts_pos == tc.tc_end
      then ok tt (popped ts tcs ts.ts_pos)
      else err length_error (popped ts tcs ts.ts_pos))
  unfolding tlv_end tlv_ctx_pop
  tlv_end_lem = ground (arith, in_tag)

  pub tlv_skip_lem : tlv_skip ts ≡ ok tt (popped ts tcs tc.tc_end)
  unfolding tlv_skip tlv_ctx_pop
  tlv_skip_lem = ground (arith, in_tag)

abort_loop_lem :
    (root : TlvContext) (tcs : List TlvContext) (pos : ℕ) (ts : TlvState)
    → Chain root tcs
    → (top root tcs).tc_begin ≤ pos
    → pos ≤ (top root tcs).tc_end
    → abort_loop root pos tcs ts ≡ ok tt ts
unfolding abort_loop
abort_loop_lem root [] pos ts c h k = refl
abort_loop_lem root (tc ∷ tcs) pos ts c h k =
    ground (arith, abort_loop_lem root tcs pos ts c.4 (omega arith) (omega arith))

root-Chain :
    (root : TlvContext) (tcs : List TlvContext) → Chain root tcs → root.tc_begin ≤ root.tc_end
root-Chain root [] c = c
root-Chain root (tc ∷ tcs) c = root-Chain root tcs c.4

-- `tlv_abort` closes every tag and leaves nothing to read.
pub tlv_abort_lem :
    (ts : TlvState)
    → IsValid ts
    → (tlv_abort ts ≡ ok tt (popped ts [] ts.ts_root.tc_end))
      × IsValid (popped ts [] ts.ts_root.tc_end)
unfolding tlv_abort
tlv_abort_lem ts v = (
  ground (arith, abort_loop_lem ts.ts_root ts.ts_ctxs ts.ts_pos ts v.chain v.after v.before),
  record {
    chain = root-Chain ts.ts_root ts.ts_ctxs v.chain;
    after = root-Chain ts.ts_root ts.ts_ctxs v.chain;
    before = omega arith;
    inside = v.inside;
    size = v.size;
  },
)
