-- ===== src/Pin/Send.antt =====
-- What `piv_change_pin` of piv.c sends to a card that accepts it.
use pivy.Prelude.{
  ℕ, suc, ◌≡◌, refl, ap, ◌∙◌, List, [], ◌∷◌, ◌++◌, Bool, true, false, Option, some, length,
  length-append, arith,
}
use pivy.Errf.{Errf}
use pivy.Outcome.{ok, M, ◌>>◌, fail_if, bind-ok, verify-true}
use pivy.Apdu.{Apdu, piv_apdu_make, ins_change_pin, sw_no_error}
use pivy.Apdu.Chain.{piv_apdu_transceive_chain}
use pivy.Apdu.Blocks.{blocks_of}
use pivy.Apdu.Send.{piv_apdu_transceive_chain-sends}
use pivy.Token.{PivPin, pin_id}
use pivy.Pin.{Piv, bad_length, data_apdu, on_card, transceive_chain, finish_command, piv_change_pin}
use pivy.Pin.Blocks.{pin_block, length-pin_block, piv_change_pin_lem}

fail_if-false :
    {S A : Type 0} (b : Bool) (e : Errf) (m : M S A) (s : S)
    → b ≡ false
    → (fail_if b e >> m) s ≡ m s
fail_if-false true e m s h = absurd (ground arith)
fail_if-false false e m s h = refl

one_block :
    (n ins p2 : ℕ) (bytes : List ℕ)
    → length bytes ≡ 16
    → blocks_of (suc n) 0 ins 0 p2 0 bytes ≡ (0 ∷ ins ∷ 0 ∷ p2 ∷ 16 ∷ (bytes ++ (0 ∷ []))) ∷ []
unfolding blocks_of
one_block n ins p2 bytes e = rw e refl

module _ {C : Type 0} (scard_transmit : C → List ℕ → ℕ → Option (List ℕ) × C)
    (received : C → List (List ℕ))
    (accepts : (c : C) (cmd : List ℕ) (max : ℕ)
      → (scard_transmit c cmd max).0 ≡ some (0x90 ∷ 0x00 ∷ []))
    (records : (c : C) (cmd : List ℕ) (max : ℕ)
      → received (scard_transmit c cmd max).1 ≡ received c ++ (cmd ∷ [])) where
  -- The exchange of a command with 16 bytes of data.
  chain-sends :
      (ins p2 n : ℕ) (bytes : List ℕ) (s : Piv C)
      → s.p_token.pt_intxn ≡ true
      → length bytes ≡ 16
      → (a : Apdu) × (c : C) × (transceive_chain scard_transmit
            (suc n)
            (data_apdu ins 0x00 p2 bytes)
            s
          ≡ ok a (record s { p_card = c }))
        × (a.a_sw ≡ sw_no_error)
        × (received c
            ≡ received s.p_card ++ ((0x00 ∷ ins ∷ 0x00 ∷ p2 ∷ 16 ∷ (bytes ++ (0x00 ∷ []))) ∷ []))
  unfolding transceive_chain piv_apdu_make on_card
  chain-sends ins p2 n bytes s txn len =
      let (a, c, e, sw, _, rec, _) =
        piv_apdu_transceive_chain-sends scard_transmit received accepts records n
          (data_apdu ins 0x00 p2 bytes) bytes s.p_card refl refl refl refl (omega (arith, len))
          (omega (arith, len)) (omega (arith, len)) in
      (
        a,
        c,
        ap
              (λ b. on_card s (
                piv_apdu_transceive_chain scard_transmit b (suc n) (data_apdu ins 0x00 p2 bytes)
                  s.p_card))
              txn
            ∙ ap (on_card s) e,
        sw,
        rec ∙ ap (λ l. received s.p_card ++ l) (one_block n ins p2 bytes len),
      )

  -- In a transaction, with two PINs of 1 to 8 characters and a card that accepts every command,
  -- `piv_change_pin` succeeds, sends one CHANGE REFERENCE DATA with both PINs padded to 8 bytes,
  -- and marks the token for a reset.
  pub piv_change_pin-sends :
      (type : PivPin) (pin newpin : List ℕ) (n : ℕ) (s : Piv C)
      → s.p_token.pt_intxn ≡ true
      → bad_length pin ≡ false
      → bad_length newpin ≡ false
      → (c : C) × (piv_change_pin scard_transmit (suc n) type pin newpin s
          ≡ ok tt (record s { p_card = c; p_token = record (s.p_token) { pt_reset = true } }))
        × (received c
            ≡ received s.p_card
              ++ ((0x00
                    ∷ 0x24
                    ∷ 0x00
                    ∷ pin_id type
                    ∷ 16
                    ∷ ((pin_block pin ++ pin_block newpin) ++ (0x00 ∷ [])))
                  ∷ []))
  piv_change_pin-sends type pin newpin n s txn good good' =
      let len : length (pin_block pin ++ pin_block newpin) ≡ 16 = omega (
        arith,
        length-append (pin_block pin) (pin_block newpin),
        length-pin_block pin good,
        length-pin_block newpin good',
      ) in
      let (a, c, e, sw, rec) =
        chain-sends ins_change_pin (pin_id type) n (pin_block pin ++ pin_block newpin) s txn len in
      (
        c,
        piv_change_pin_lem scard_transmit (suc n) type pin newpin s
            ∙ verify-true s.p_token.pt_intxn _ s txn
            ∙ fail_if-false (bad_length pin) _ _ s good
            ∙ fail_if-false (bad_length newpin) _ _ s good'
            ∙ bind-ok
                (transceive_chain scard_transmit (suc n)
                  (data_apdu ins_change_pin 0x00 (pin_id type) (pin_block pin ++ pin_block newpin)))
                _ s a (record s { p_card = c }) e
            ∙ (unfold finish_command in rw sw refl),
        rec,
      )
