-- ===== src/Tlv/Read/Session.antt =====
-- A parse with tlv.c: `tlv_init`, and any sequence of calls of the reading functions.
use pivy.Prelude.{ℕ, ◌+◌, ◌^◌, ◌≤◌, ◌<◌, ◌≡◌, ◌==◌, List, ◌∷◌, Bool-cases, inl, inr, length, arith}
use pivy.Errf.{Errf}
use pivy.Outcome.{Outcome, ok, err, abort, fault, stuck, ◌>>=◌, ◌>>◌, pure}
use pivy.Tlv.{TlvContext, TlvState, Tlv, tlv_init}
use pivy.Tlv.Read.{
  tlv_read_tag, tlv_end, tlv_skip, tlv_abort, tlv_read_u8, tlv_read_u16, tlv_read_u8to32,
  tlv_read_upto, tlv_read_string, tlv_read_alloc, tlv_read,
}
use pivy.Tlv.Read.Safe
use pivy.Tlv.Read.Tags.{
  Enters, popped-IsValid, in_tag, tlv_read_tag-Enters, tlv_end_lem, tlv_skip_lem, tlv_abort_lem,
}
use pivy.Tlv.Inv.{IsValid, Reads, init-IsValid}

pub data ReadOp : Type 0 where
  read_tag end skip abort_all read_u8 read_u16 read_u8to32 read_string read_alloc : ReadOp
  read_upto read : ℕ → ReadOp

-- A call, with the value that it returns dropped.
unfoldable pub call : ReadOp → Tlv (Unit {0})
call read_tag = do tlv_read_tag; pure tt
call end = tlv_end
call skip = tlv_skip
call abort_all = tlv_abort
call read_u8 = do tlv_read_u8; pure tt
call read_u16 = do tlv_read_u16; pure tt
call read_u8to32 = do tlv_read_u8to32; pure tt
call read_string = do tlv_read_string; pure tt
call read_alloc = do tlv_read_alloc; pure tt
call (read_upto n) = do tlv_read_upto n; pure tt
call (read n) = do tlv_read n; pure tt

-- `tlv_end` and `tlv_skip` want an open tag.
abbrev pub Allowed : ReadOp → TlvState → Type 0
Allowed end ts = (tc : TlvContext) × (tcs : List TlvContext) × (ts.ts_ctxs ≡ tc ∷ tcs)
Allowed skip ts = (tc : TlvContext) × (tcs : List TlvContext) × (ts.ts_ctxs ≡ tc ∷ tcs)
Allowed _ ts = Unit

-- The call returns, or returns an error, and the parser is valid either way.
abbrev pub Answers : {A : Type 0} → Outcome TlvState A → Type 0
Answers (ok a ts) = IsValid ts
Answers (err e ts) = IsValid ts
Answers abort = ⊥
Answers fault = ⊥
Answers stuck = ⊥

-- The states of a parse of `len` bytes of `buf` from `offset` on.
pub data Session (buf : List ℕ) (offset len : ℕ) : TlvState → Type 0 where
  start : (ts : TlvState) → ts ≡ tlv_init buf offset len → Session buf offset len ts
  returned :
      {ts ts' : TlvState} (op : ReadOp)
      → Session buf offset len ts
      → Allowed op ts
      → call op ts ≡ ok tt ts'
      → Session buf offset len ts'
  failed :
      {ts ts' : TlvState} (op : ReadOp) (e : Errf)
      → Session buf offset len ts
      → Allowed op ts
      → call op ts ≡ err e ts'
      → Session buf offset len ts'

Reads-Answers :
    {A : Type 0} (ts : TlvState) (r : Outcome TlvState A)
    → Reads ts r
    → Answers (((λ _. r) >>= λ _. pure tt) ts)
Reads-Answers ts (ok a s) h = h.valid
Reads-Answers ts (err e s) h = h.valid
Reads-Answers ts abort h = h
Reads-Answers ts fault h = h
Reads-Answers ts stuck h = h

Enters-Answers :
    {A : Type 0} (ts : TlvState) (r : Outcome TlvState A)
    → Enters ts r
    → Answers (((λ _. r) >>= λ _. pure tt) ts)
Enters-Answers ts (ok a s) h = h.valid
Enters-Answers ts (err e s) h = h.valid
Enters-Answers ts abort h = h
Enters-Answers ts fault h = h
Enters-Answers ts stuck h = h

call-Answers : (op : ReadOp) (ts : TlvState) → IsValid ts → Allowed op ts → Answers (call op ts)
unfolding call
call-Answers read_tag ts v a = Enters-Answers ts (tlv_read_tag ts) (tlv_read_tag-Enters ts v)
call-Answers end ts v (tc, tcs, e) =
    let (b, before) = in_tag ts v tc tcs e in
    let p = popped-IsValid ts v tc tcs e ts.ts_pos b before in
    rw (tlv_end_lem ts v tc tcs e, Answers)
      (elim (Bool-cases (ts.ts_pos == tc.tc_end)) [ inl c ↦ rw c p | inr c ↦ rw c p ])
call-Answers skip ts v (tc, tcs, e) =
    let (b, before) = in_tag ts v tc tcs e in
    rw (tlv_skip_lem ts v tc tcs e, Answers)
      (popped-IsValid ts v tc tcs e tc.tc_end (omega arith) (omega arith))
call-Answers abort_all ts v a = let (e, v') = tlv_abort_lem ts v in rw (e, Answers) v'
call-Answers read_u8 ts v a = Reads-Answers ts (tlv_read_u8 ts) (Safe.tlv_read_u8-Reads ts v)
call-Answers read_u16 ts v a = Reads-Answers ts (tlv_read_u16 ts) (Safe.tlv_read_u16-Reads ts v)
call-Answers read_u8to32 ts v a =
    Reads-Answers ts (tlv_read_u8to32 ts) (Safe.tlv_read_u8to32-Reads ts v)
call-Answers read_string ts v a =
    Reads-Answers ts (tlv_read_string ts) (Safe.tlv_read_string-Reads ts v)
call-Answers read_alloc ts v a =
    Reads-Answers ts (tlv_read_alloc ts) (Safe.tlv_read_alloc-Reads ts v)
call-Answers (read_upto n) ts v a =
    Reads-Answers ts (tlv_read_upto n ts) (Safe.tlv_read_upto-Reads ts v n)
call-Answers (read n) ts v a = Reads-Answers ts (tlv_read n ts) (Safe.tlv_read-Reads ts v n)

module _ (buf : List ℕ) (offset len : ℕ) (fits : offset + len ≤ length buf)
    (small : length buf < 2 ^ 64) where
  -- Every state that calls of the reading functions reach is well-formed.
  pub Session-IsValid : {ts : TlvState} → Session buf offset len ts → IsValid ts
  Session-IsValid (start ts e) = rw e (init-IsValid buf offset len fits small)
  Session-IsValid (returned {ts = ts} op s a e) =
      rw (e, Answers) at (call-Answers op ts (Session-IsValid s) a)
  Session-IsValid (failed {ts = ts} op x s a e) =
      rw (e, Answers) at (call-Answers op ts (Session-IsValid s) a)

  -- In every state that a parse of a part of a buffer reaches, by calls that returned or failed, the
  -- next call returns or reports an error and leaves a well-formed parser: no VERIFY fails, no byte
  -- outside the buffer is read, and no loop runs on. `tlv_end` and `tlv_skip` want an open tag.
  pub Session-Answers :
      (op : ReadOp) {ts : TlvState}
      → Session buf offset len ts
      → Allowed op ts
      → Answers (call op ts)
  Session-Answers op {ts} s a = call-Answers op ts (Session-IsValid s) a
