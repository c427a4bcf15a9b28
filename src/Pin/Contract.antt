-- ===== src/Pin/Contract.antt =====
-- What the PIN and administration commands of piv.c leave of the card and the token.
use pivy.Prelude.{
  ℕ, ◌≡◌, refl, sym, subst, List, ◌∷◌, ◌++◌, ◌%◌, true, not, Option, none, some, Bool-cases, inl,
  inr, ◌==◌, length, arith,
}
use pivy.Errf.{Errf}
use pivy.Outcome.{Outcome, ok, err, abort, fault, stuck, M, ◌>>=◌}
use pivy.Outcome.Ends.{Ends, Ends-bind, Ends-fail_if, Ends-verify, Ends-weaken}
use pivy.Apdu.{
  Apdu, sw_no_error, piv_apdu_make, piv_apdu_transceive, ins_change_pin, ins_reset_pin, ins_reset,
  ins_set_mgmt, cla_iso, argerrf,
}
use pivy.Apdu.Chain.{piv_apdu_transceive_chain}
use pivy.Token.{PivPin, pin_id}
use pivy.Pin.{
  Piv, bad_length, data_apdu, on_card, finish_command, transceive_chain, transceive,
  change_pin_error, reset_pin_error, reset_error, admin_error, touch_p2, piv_change_pin,
  piv_reset_pin, ykpiv_reset, set_admin, ykpiv_set_admin,
}
use pivy.Pin.Blocks.{pin_block, blocks_command, piv_change_pin_lem, piv_reset_pin_lem}

-- The state `s'` after the card has answered `answer` with SW_NO_ERROR to an exchange in the state
-- `s`: the token will be reset, and nothing else of it has changed.
abbrev pub Done : {C : Type 0} → Outcome C Apdu → Piv C → Piv C → Type 0
Done {C} answer s s' =
    (a : Apdu) × (c : C) × (answer ≡ ok a c)
    × (a.a_sw ≡ sw_no_error)
    × (s' ≡ record s { p_card = c; p_token = record (s.p_token) { pt_reset = true } })

-- Only the card has changed.
abbrev pub CardOnly : {C : Type 0} → Piv C → Errf → Piv C → Type 0
CardOnly {C} s e s' = (c : C) × (s' ≡ record s { p_card = c })

abbrev pub Answered : {C : Type 0} → Outcome C Apdu → Piv C → Apdu → Piv C → Type 0
Answered {C} answer s a s' = (c : C) × (answer ≡ ok a c) × (s' ≡ record s { p_card = c })

pub on_card-Answered :
    {C : Type 0} (s : Piv C) (answer : Outcome C Apdu)
    → Ends (Answered answer s) (CardOnly s) (on_card s answer)
unfolding on_card
on_card-Answered s (ok a c) = (c, refl, refl)
on_card-Answered s (err e c) = (c, refl)
on_card-Answered s abort = tt
on_card-Answered s fault = tt
on_card-Answered s stuck = tt

finish-Done :
    {C : Type 0} (error : ℕ → Errf) (s : Piv C) (answer : Outcome C Apdu) (a : Apdu) (s' : Piv C)
    → Answered answer s a s'
    → Ends
        (λ (_ : Unit {0}) (s'' : Piv C). Done answer s s'')
        (CardOnly s)
        (finish_command error a s')
unfolding finish_command
finish-Done error s answer a s' (c, e, left) = elim (Bool-cases (a.a_sw == sw_no_error)) [
  | inl same ↦ rw same (a, c, e, ground (arith, same), rw left refl)
  | inr other ↦ rw other (c, left)
]

-- A command with one exchange.
command-Done :
    {C : Type 0} (error : ℕ → Errf) (s : Piv C) (answer : Outcome C Apdu) (m : M (Piv C) Apdu)
    → m s ≡ on_card s answer
    → Ends
        (λ (_ : Unit {0}) (s' : Piv C). Done answer s s')
        (CardOnly s)
        ((m >>= finish_command error) s)
command-Done {C} error s answer m e =
    Ends-bind (Answered answer s) (λ (_ : Unit {0}) (s' : Piv C). Done answer s s') (CardOnly s) m
      (finish_command error) s
      (subst (λ (o : Outcome (Piv C) Apdu). Ends (Answered answer s) (CardOnly s) o) (sym e)
        (on_card-Answered s answer))
      (finish-Done error s answer)

module _ {C : Type 0} (scard_transmit : C → List ℕ → ℕ → Option (List ℕ) × C) (fuel : ℕ) where
  -- The answer of the card to a command, in the state `s`.
  abbrev pub chain_answer : Piv C → Apdu → Outcome C Apdu
  chain_answer s a = piv_apdu_transceive_chain scard_transmit s.p_token.pt_intxn fuel a s.p_card

  chain-Done :
      (error : ℕ → Errf) (s : Piv C) (a : Apdu)
      → Ends
          (λ (_ : Unit {0}) (s' : Piv C). Done (chain_answer s a) s s')
          (CardOnly s)
          ((transceive_chain scard_transmit fuel a >>= finish_command error) s)
  unfolding transceive_chain
  chain-Done error s a =
      command-Done error s (chain_answer s a) (transceive_chain scard_transmit fuel a) refl

  blocks-Done :
      (ins : ℕ) (error : ℕ → Errf) (type : PivPin) (pin newpin : List ℕ) (s : Piv C)
      → Ends
          (λ (_ : Unit {0}) (s' : Piv C).
            Done
              (chain_answer s
                (data_apdu ins 0x00 (pin_id type) (pin_block pin ++ pin_block newpin)))
              s
              s')
          (CardOnly s)
          (blocks_command scard_transmit fuel ins error type pin newpin s)
  blocks-Done ins error type pin newpin s = Ends-verify _ _ s.p_token.pt_intxn _ s (
      Ends-fail_if _ _ (bad_length pin) argerrf _ s (s.p_card, refl)
        (Ends-fail_if _ _ (bad_length newpin) argerrf _ s (s.p_card, refl) (chain-Done error s _)))

  -- `piv_change_pin` succeeds only if the card answered SW_NO_ERROR to the command with the blocks
  -- of both PINs, and then marks the token for a reset; an error leaves all but the card as it was.
  pub piv_change_pin-Done :
      (type : PivPin) (pin newpin : List ℕ) (s : Piv C)
      → Ends
          (λ (_ : Unit {0}) (s' : Piv C).
            Done
              (chain_answer s
                (data_apdu ins_change_pin 0x00 (pin_id type) (pin_block pin ++ pin_block newpin)))
              s
              s')
          (CardOnly s)
          (piv_change_pin scard_transmit fuel type pin newpin s)
  piv_change_pin-Done type pin newpin s =
      subst (Ends _ (CardOnly s)) (sym (piv_change_pin_lem scard_transmit fuel type pin newpin s))
        (blocks-Done ins_change_pin change_pin_error type pin newpin s)

  -- `piv_reset_pin` succeeds only if the card answered SW_NO_ERROR to the command with the blocks
  -- of the PUK and the new PIN, and then marks the token for a reset; an error leaves all but the
  -- card as it was.
  piv_reset_pin-Done :
      (type : PivPin) (puk newpin : List ℕ) (s : Piv C)
      → Ends
          (λ (_ : Unit {0}) (s' : Piv C).
            Done
              (chain_answer s
                (data_apdu ins_reset_pin 0x00 (pin_id type) (pin_block puk ++ pin_block newpin)))
              s
              s')
          (CardOnly s)
          (piv_reset_pin scard_transmit fuel type puk newpin s)
  piv_reset_pin-Done type puk newpin s =
      subst (Ends _ (CardOnly s)) (sym (piv_reset_pin_lem scard_transmit fuel type puk newpin s))
        (blocks-Done ins_reset_pin reset_pin_error type puk newpin s)

  -- `ykpiv_reset` succeeds only if the card answered SW_NO_ERROR to INS_RESET, and then marks the
  -- token for a reset; an error leaves all but the card as it was.
  ykpiv_reset-Done :
      (s : Piv C)
      → Ends
          (λ (_ : Unit {0}) (s' : Piv C).
            Done
              (piv_apdu_transceive scard_transmit s.p_token.pt_intxn
                (piv_apdu_make cla_iso ins_reset 0 0)
                s.p_card)
              s
              s')
          (CardOnly s)
          (ykpiv_reset scard_transmit fuel s)
  unfolding ykpiv_reset transceive
  ykpiv_reset-Done s = Ends-verify _ _ s.p_token.pt_intxn _ s (
      Ends-fail_if _ _ (not s.p_token.pt_ykpiv) argerrf _ s (s.p_card, refl)
        (command-Done reset_error s _
          (transceive scard_transmit fuel (piv_apdu_make cla_iso ins_reset 0 0)) refl))

  -- A touch policy with the P2 of `p`, and the command that it makes accepted.
  abbrev pub AdminDone : List ℕ → Option ℕ → Piv C → Unit {0} → Piv C → Type 0
  AdminDone key p s u s' =
      (p2 : ℕ) × (p ≡ some p2)
      × Done
          (chain_answer s (data_apdu ins_set_mgmt 0xFF p2 (0x03 ∷ 0x9B ∷ length key % 256 ∷ key))) s
          s'

  set_admin-Done :
      (key : List ℕ) (p : Option ℕ) (s : Piv C)
      → Ends (AdminDone key p s) (CardOnly s) (set_admin scard_transmit fuel p key s)
  unfolding set_admin
  set_admin-Done key none s = (s.p_card, refl)
  set_admin-Done key (some p2) s =
      let answer =
        chain_answer s (data_apdu ins_set_mgmt 0xFF p2 (0x03 ∷ 0x9B ∷ length key % 256 ∷ key)) in
      Ends-weaken (λ (_ : Unit {0}) (s' : Piv C). Done answer s s') (AdminDone key (some p2) s)
        (CardOnly s) _ (chain-Done admin_error s _) (λ u s' h. (p2, refl, h))

  -- `ykpiv_set_admin` succeeds only if the touch policy has a P2 and the card answered SW_NO_ERROR
  -- to INS_SET_MGMT with that P2 and the key behind its header, and then marks the token for a
  -- reset; an error leaves all but the card as it was.
  ykpiv_set_admin-Done :
      (key : List ℕ) (touchpolicy : ℕ) (s : Piv C)
      → Ends
          (AdminDone key (touch_p2 touchpolicy) s)
          (CardOnly s)
          (ykpiv_set_admin scard_transmit fuel key touchpolicy s)
  unfolding ykpiv_set_admin
  ykpiv_set_admin-Done key touchpolicy s = Ends-verify _ _ s.p_token.pt_intxn _ s (
      Ends-fail_if _ _ (not s.p_token.pt_ykpiv) argerrf _ s (s.p_card, refl)
        (set_admin-Done key (touch_p2 touchpolicy) s))
