-- ===== src/Pin/Safe.antt =====
-- The PIN commands of piv.c stay inside their buffers.
use pivy.Prelude.{
  ℕ, ◌^◌, ◌≤◌, ◌<◌, ◌≡◌, refl, sym, subst, inl, inr, List, ◌++◌, Bool, true, false, Option, some,
  Bool-cases, ◌==◌, length, length-append, arith,
}
use pivy.Errf.{Errf}
use pivy.Outcome.{Outcome, ok, err, abort, fault, stuck, M, ◌>>◌, fail_if, verify}
use pivy.Apdu.{Apdu, piv_apdu_make, ins_change_pin, argerrf, sw_no_error}
use pivy.Apdu.Safe.{NoFault, NoFault-bind, ReplyFits, CmdFits, piv_apdu_transceive_chain-NoFault}
use pivy.Token.{PivPin, pin_id}
use pivy.Pin.{
  Piv, bad_length, data_apdu, on_card, transceive_chain, finish_command, change_pin_error,
  piv_change_pin,
}
use pivy.Pin.Blocks.{pin_block, length-pin_block, piv_change_pin_lem}

on_card-NoFault :
    {C A : Type 0} (Q : A → Type 0) (s : Piv C) (o : Outcome C A)
    → NoFault Q o
    → NoFault Q (on_card s o)
unfolding on_card
on_card-NoFault Q s (ok a c) h = h
on_card-NoFault Q s (err e c) h = tt
on_card-NoFault Q s abort h = tt
on_card-NoFault Q s fault h = h
on_card-NoFault Q s stuck h = tt

fail_if-NoFault :
    {S A : Type 0} (Q : A → Type 0) (b : Bool) (e : Errf) (m : M S A) (s : S)
    → (b ≡ false → NoFault Q (m s))
    → NoFault Q ((fail_if b e >> m) s)
fail_if-NoFault Q true e m s h = tt
fail_if-NoFault Q false e m s h = h refl

verify-NoFault :
    {S A : Type 0} (Q : A → Type 0) (b : Bool) (m : M S A) (s : S)
    → NoFault Q (m s)
    → NoFault Q ((verify b >> m) s)
verify-NoFault Q true m s h = h
verify-NoFault Q false m s h = tt

finish-NoFault :
    {C : Type 0} (error : ℕ → Errf) (a : Apdu) (s : Piv C)
    → NoFault (λ (_ : Unit {0}). Unit {0}) (finish_command error a s)
unfolding finish_command
finish-NoFault error a s = elim (Bool-cases (a.a_sw == sw_no_error)) [
  | inl e ↦ rw e tt
  | inr e ↦ rw e tt
]

pub data_apdu-CmdFits :
    (ins p1 p2 : ℕ) (bytes : List ℕ)
    → length bytes < 2 ^ 63
    → CmdFits (data_apdu ins p1 p2 bytes).a_cmd (data_apdu ins p1 p2 bytes).a_cmd.b_len
unfolding piv_apdu_make
data_apdu-CmdFits ins p1 p2 bytes small bytes' e = ground arith

module _ {C : Type 0} (scard_transmit : C → List ℕ → ℕ → Option (List ℕ) × C)
    (answer_fits : (c : C) (cmd : List ℕ) (max : ℕ) (bytes : List ℕ)
      → (scard_transmit c cmd max).0 ≡ some bytes
      → (2 ≤ length bytes) × (length bytes ≤ max))
    (fuel : ℕ) where
  -- `piv_change_pin` never reaches outside a buffer, whatever the strings are, if each answer of the card has a
  -- status and fits in the room that was given for it.
  pub piv_change_pin-NoFault :
      (type : PivPin) (pin newpin : List ℕ) (s : Piv C)
      → NoFault (λ (_ : Unit {0}). Unit {0}) (piv_change_pin scard_transmit fuel type pin newpin s)
  unfolding transceive_chain
  piv_change_pin-NoFault type pin newpin s =
      let bytes = pin_block pin ++ pin_block newpin in
      subst (NoFault (λ (_ : Unit {0}). Unit {0}))
        (sym (piv_change_pin_lem scard_transmit fuel type pin newpin s))
        (verify-NoFault _ s.p_token.pt_intxn _ s (
          fail_if-NoFault _ (bad_length pin) argerrf _ s λ good.
            fail_if-NoFault _ (bad_length newpin) argerrf _ s λ good'.
              NoFault-bind (λ (a : Apdu). ReplyFits a.a_reply) (λ (_ : Unit {0}). Unit {0})
                (transceive_chain scard_transmit fuel
                  (data_apdu ins_change_pin 0x00 (pin_id type) bytes))
                (finish_command change_pin_error) s
                (on_card-NoFault (λ (a : Apdu). ReplyFits a.a_reply) s _
                  (piv_apdu_transceive_chain-NoFault scard_transmit answer_fits fuel
                    s.p_token.pt_intxn (data_apdu ins_change_pin 0x00 (pin_id type) bytes) s.p_card
                    (data_apdu-CmdFits ins_change_pin 0x00 (pin_id type) bytes (
                      omega (
                        arith,
                        length-append (pin_block pin) (pin_block newpin),
                        length-pin_block pin good,
                        length-pin_block newpin good',
                      )))
                    (unfold piv_apdu_make in inl refl)))
                λ a s' h. finish-NoFault change_pin_error a s'))
