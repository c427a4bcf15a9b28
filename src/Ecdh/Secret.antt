-- ===== src/Ecdh/Secret.antt =====
-- Taking the secret out of the reply to an ECDH ends, whatever the card has answered.
use pivy.Prelude.{ℕ, ◌≡◌, not, inl, inr, ◌==◌, false, Bool-cases, arith}
use pivy.Outcome.{M, ◌>>◌, fail_if}
use pivy.Tlv.{TlvState, tlv_init}
use pivy.Tlv.Read.{tlv_read_tag, tlv_read_alloc, tlv_end}
use pivy.Tlv.Read.Safe.{tlv_read_alloc-Reads}
use pivy.Tlv.Inv.{IsValid, Moved, Moved-refl, init-IsValid}
use pivy.Tlv.Read.Tags.{Entered}
use pivy.Apdu.{Apdu, tagerrf}
use pivy.Apdu.Safe.{ReplyFits}
use pivy.Pin.{Piv}
use pivy.Objects.{Parse, tlv, take_object, parse_reply, sw_has_data}
use pivy.Objects.Rounds.{
  Parses, Parses-bind, Round, Returns, tlv-Reads, end_closes, read_tag-Entered, after_parse-Returns,
}
use pivy.Ecdh.{read_secret, ecdh_error}

-- The tags are open that were open in `ts`.
abbrev Closed : TlvState → Parse → Type 0
Closed ts p = p.p_tlv.ts_ctxs ≡ ts.ts_ctxs

-- A tag that is not the one expected is an error; else the parse goes on in it.
expected :
    {A : Type 0} (Q : Parse → Type 0) (wanted tag : ℕ) (m : M Parse A) (p : Parse)
    → IsValid p.p_tlv
    → Parses Q (m p)
    → Parses Q ((fail_if (not (tag == wanted)) tagerrf >> m) p)
expected Q wanted tag m p v h = elim (Bool-cases (tag == wanted)) [
  | inl same ↦ rw same h
  | inr other ↦ rw other v
]

read_secret-Parses : (p : Parse) → IsValid p.p_tlv → Parses (Closed p.p_tlv) (read_secret p)
unfolding read_secret
read_secret-Parses p v =
    Parses-bind (λ p'. Entered p.p_tlv p'.p_tlv) (Closed p.p_tlv) (tlv tlv_read_tag) _ p
      (read_tag-Entered p v)
      (λ tag p1 en1. expected (Closed p.p_tlv) 0x7C tag _ p1 en1.valid (
        Parses-bind (λ p'. Entered p1.p_tlv p'.p_tlv) (Closed p.p_tlv) (tlv tlv_read_tag) _ p1
          (read_tag-Entered p1 en1.valid)
          (λ inner p2 en2. expected (Closed p.p_tlv) 0x82 inner _ p2 en2.valid (
            Parses-bind (λ p'. Moved p2.p_tlv p'.p_tlv) (Closed p.p_tlv) (tlv tlv_read_alloc) _ p2
              (tlv-Reads tlv_read_alloc p2.p_tlv p2 (Moved-refl en2.valid)
                (tlv_read_alloc-Reads p2.p_tlv en2.valid))
              (λ secret p3 m3.
                Parses-bind (Round p1.p_tlv) (Closed p.p_tlv) (tlv tlv_end) _ p3
                  (end_closes p1.p_tlv p2.p_tlv en2 p3 m3)
                  (λ u p4 r4.
                    Parses-bind (Round p.p_tlv) (Closed p.p_tlv) (tlv tlv_end) _ p4
                      (end_closes p.p_tlv p1.p_tlv en1 p4 r4.0) (λ u5 p5 r5. r5.0.ctxs)))))))

-- Whatever bytes a card has answered to an ECDH, taking the secret out of the reply returns, with or
-- without an error: no VERIFY fails, and no byte outside the reply is read.
secret-Returns :
    {C : Type 0} (a : Apdu) (s : Piv C)
    → ReplyFits a.a_reply
    → Returns (take_object false ecdh_error read_secret a s)
unfolding take_object parse_reply tlv_init
secret-Returns a s (buf, e, n, small, o) = elim (Bool-cases (sw_has_data a.a_sw)) [
  | inr other ↦ rw other tt
  | inl good ↦
      rw (good, e)
        (after_parse-Returns (Closed (tlv_init buf a.a_reply.b_offset a.a_reply.b_len)) s _
          (λ p h. h)
          (read_secret-Parses _
            (init-IsValid buf a.a_reply.b_offset a.a_reply.b_len (omega arith) (omega arith))))
]
