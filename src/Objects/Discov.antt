-- ===== src/Objects/Discov.antt =====
-- `piv_read_discov` of piv.c: the parse of the discovery object ends, whatever the card has answered.
use pivy.Prelude.{
  suc, ◌+◌, ◌≡◌, refl, true, false, inl, inr, length, take, drop, ltb, leb, le→leb, ◌==◌,
  Bool-cases, arith,
}
use pivy.Tlv.{TlvState, tlv_rem}
use pivy.Tlv.Read.{tlv_skip, tlv_read_u8to32}
use pivy.Tlv.Read.Safe.{tlv_read_u8to32-Reads}
use pivy.Tlv.Inv.{IsValid, Moved, Reads, Moved-refl, tlv_rem_lem, now_end-le}
use pivy.Apdu.{Apdu, slice}
use pivy.Apdu.Safe.{ReplyFits}
use pivy.Pin.{Piv}
use pivy.Objects.{
  tlv, check_aid, aid_piv, same_bytes, discov_tag, read_policy, parse_object, take_object,
  object_error, sw_has_data,
}
use pivy.Objects.Rounds.{
  Parses-bind, Round, Closes, Returns, tlv-Reads, value_closes, skip_closes, parse_reply-Returns,
}

check_aid-Reads : (ts : TlvState) → IsValid ts → Reads ts (check_aid ts)
unfolding check_aid slice
check_aid-Reads ts v = elim (Bool-cases (ltb (length aid_piv) (tlv_rem ts))) [
  | inl long ↦ rw long (Moved-refl v)
  | inr short ↦
      elim (Bool-cases
        (same_bytes (take (tlv_rem ts) aid_piv) (take (tlv_rem ts) (drop ts.ts_pos ts.ts_buf)))) [
          | inl same ↦ rw (short, inside, same) (Moved-refl v)
          | inr other ↦ rw (short, inside, other) (Moved-refl v)
        ]
]
  where
    inside : leb (ts.ts_pos + tlv_rem ts) (length ts.ts_buf) ≡ true
    inside = le→leb _ _ (omega (arith, tlv_rem_lem v, now_end-le v, v.inside, v.before))

discov_tag-Closes : Closes discov_tag
unfolding discov_tag
discov_tag-Closes tag ts p en = elim (Bool-cases (tag == 0x4F)) [
  | inl aid ↦ rw aid (
      Parses-bind (λ p'. Moved p.p_tlv p'.p_tlv) (Round ts) (tlv check_aid) (λ _. tlv tlv_skip) p
        (tlv-Reads check_aid p.p_tlv p (Moved-refl en.valid) (check_aid-Reads p.p_tlv en.valid))
        λ u p' m. skip_closes ts p.p_tlv en p' m)
  | inr other ↦ elim (Bool-cases (tag == 0x5F2F)) [
    | inl policy ↦
        rw (other, policy)
          (value_closes tlv_read_u8to32 read_policy ts p.p_tlv p en refl
            (λ s v. tlv_read_u8to32-Reads s v))
    | inr unknown ↦ rw (other, unknown) en.valid
  ]
]

-- Whatever bytes a card has answered, taking the discovery object out of the reply returns, with or
-- without an error: no VERIFY fails, no byte outside the reply is read (the comparison with the AID
-- included), and the loop ends.
discov-Returns :
    {C : Type 0} (a : Apdu) (s : Piv C)
    → ReplyFits a.a_reply
    → Returns
        (take_object false object_error (parse_object 0x7E discov_tag (suc a.a_reply.b_len)) a s)
unfolding take_object
discov-Returns a s fits = elim (Bool-cases (sw_has_data a.a_sw)) [
  | inr e ↦ rw e tt
  | inl e ↦ rw e (parse_reply-Returns 0x7E discov_tag discov_tag-Closes a s fits)
]
