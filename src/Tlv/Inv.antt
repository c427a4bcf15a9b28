-- ===== src/Tlv/Inv.antt =====
-- The invariant of the parser of tlv.c: the open tags lie one inside the other, the position lies
-- in the innermost, and all of them in the buffer.
use pivy.Prelude.{
  ℕ, ◌+◌, ◌-◌, ◌^◌, ◌≤◌, ◌<◌, ◌≡◌, refl, ◌⊎◌, List, [], ◌∷◌, true, false, get_elem?-is_some, length,
  arith,
}
use pivy.Outcome.{Outcome, ok, err, abort, fault, stuck}
use pivy.Tlv.{
  TlvContext, TlvState, top, ts_now, tlv_at_end, tlv_rem, tlv_root_rem, next_byte, tlv_init,
}

-- Each context of a chain lies inside the one below it and is one deeper.
abbrev pub Chain : TlvContext → List TlvContext → Type 0
Chain root [] = root.tc_begin ≤ root.tc_end
Chain root (tc ∷ tcs) =
    ((top root tcs).tc_begin ≤ tc.tc_begin)
    × (tc.tc_begin ≤ tc.tc_end)
    × (tc.tc_end ≤ (top root tcs).tc_end)
    × (tc.tc_depth ≡ (top root tcs).tc_depth + 1)
    × Chain root tcs

pub record IsValid (ts : TlvState) : Type 0 where
  pub chain : Chain ts.ts_root ts.ts_ctxs
  pub after : (ts_now ts).tc_begin ≤ ts.ts_pos
  pub before : ts.ts_pos ≤ (ts_now ts).tc_end
  pub inside : ts.ts_root.tc_end ≤ length ts.ts_buf
  pub size : length ts.ts_buf < 2 ^ 64

-- The state after a read: only the position has moved, forwards and not out of the tag.
pub record Moved (ts ts' : TlvState) : Type 0 where
  pub valid : IsValid ts'
  pub root : ts'.ts_root ≡ ts.ts_root
  pub ctxs : ts'.ts_ctxs ≡ ts.ts_ctxs
  pub buf : ts'.ts_buf ≡ ts.ts_buf
  pub forward : ts.ts_pos ≤ ts'.ts_pos

-- A read either returns or reports an error, and leaves the parser as `Moved` says.
abbrev pub Reads : {A : Type 0} → TlvState → Outcome TlvState A → Type 0
Reads ts (ok a ts') = Moved ts ts'
Reads ts (err e ts') = Moved ts ts'
Reads ts abort = ⊥
Reads ts fault = ⊥
Reads ts stuck = ⊥

-- The same, and a value is returned only after at least one byte.
abbrev pub Takes : {A : Type 0} → TlvState → Outcome TlvState A → Type 0
Takes ts (ok a ts') = Moved ts ts' × (ts.ts_pos < ts'.ts_pos)
Takes ts (err e ts') = Moved ts ts'
Takes ts abort = ⊥
Takes ts fault = ⊥
Takes ts stuck = ⊥

top_end-le :
    (root : TlvContext) (tcs : List TlvContext)
    → Chain root tcs
    → (top root tcs).tc_end ≤ root.tc_end
top_end-le root [] h = omega arith
top_end-le root (tc ∷ tcs) h = omega (arith, top_end-le root tcs h.4)

pub init-IsValid :
    (buf : List ℕ) (offset len : ℕ)
    → offset + len ≤ length buf
    → length buf < 2 ^ 64
    → IsValid (tlv_init buf offset len)
unfolding tlv_init
init-IsValid buf offset len h k = omega arith

module _ {ts : TlvState} (v : IsValid ts) where
  pub now_end-le : (ts_now ts).tc_end ≤ ts.ts_root.tc_end
  now_end-le = top_end-le ts.ts_root ts.ts_ctxs v.chain

  pub tlv_rem_lem : tlv_rem ts ≡ (ts_now ts).tc_end - ts.ts_pos
  unfolding tlv_rem
  tlv_rem_lem = omega (arith, now_end-le)

  pub tlv_root_rem_lem : tlv_root_rem ts ≡ ts.ts_root.tc_end - ts.ts_pos
  unfolding tlv_root_rem
  tlv_root_rem_lem = omega (arith, now_end-le)

  -- No read of `tlv_rem` or `tlv_root_rem` underflows, and the root has at least as much left.
  pub rem-le-root_rem :
      (tlv_rem ts ≤ tlv_root_rem ts) × (ts.ts_pos + tlv_rem ts ≡ (ts_now ts).tc_end)
  rem-le-root_rem = omega (arith, now_end-le, tlv_rem_lem, tlv_root_rem_lem)

  pub at_end_cases :
      ((tlv_at_end ts ≡ true) × (ts.ts_pos ≡ (ts_now ts).tc_end))
      ⊎ ((tlv_at_end ts ≡ false) × (ts.ts_pos < (ts_now ts).tc_end))
  unfolding tlv_at_end
  at_end_cases = ground (arith, now_end-le)

  pub next_byte_lem :
      ts.ts_pos < (ts_now ts).tc_end
      → (d : ℕ) × (next_byte ts ≡ ok d (record ts { ts_pos = ts.ts_pos + 1 }))
  unfolding next_byte
  next_byte_lem h =
      let (d, e) = get_elem?-is_some ts.ts_buf ts.ts_pos (omega (arith, now_end-le)) in
      (d, ground (arith, now_end-le))

  pub Moved-refl : Moved ts ts
  Moved-refl = record { valid = v; root = refl; ctxs = refl; buf = refl; forward = omega arith }

  pub Moved-step : ts.ts_pos < (ts_now ts).tc_end → Moved ts (record ts { ts_pos = ts.ts_pos + 1 })
  Moved-step h = ground arith

pub Moved-trans : {ts ts' ts'' : TlvState} → Moved ts ts' → Moved ts' ts'' → Moved ts ts''
Moved-trans m n = ground arith

pub Reads-trans :
    {A : Type 0} (ts ts' : TlvState) (r : Outcome TlvState A)
    → Moved ts ts'
    → Reads ts' r
    → Reads ts r
Reads-trans ts ts' (ok a s) m h = Moved-trans m h
Reads-trans ts ts' (err e s) m h = Moved-trans m h
Reads-trans ts ts' abort m h = h
Reads-trans ts ts' fault m h = h
Reads-trans ts ts' stuck m h = h
