-- ===== src/Card/Transactions.antt =====
-- Transactions with a card: what they leave of the token, and when the card is reset.
use pivy.Prelude.{
  ℕ, zero, suc, ◌≡◌, ◌≢◌, refl, sym, ap, subst, ◌⊎◌, inl, inr, List, true, false, not, Bool-cases,
  Option,
}
use pivy.Outcome.{M, ok, verify-true}
use pivy.Outcome.Ends.{Ends, Ends-verify}
use pivy.Token.{PivPin}
use pivy.Pin.{Piv, piv_change_pin}
use pivy.Pin.Contract.{CardOnly, piv_change_pin-Done}
use pivy.Objects.Rounds.{Returns}
use pivy.Card.{
  BeginTransaction, scard_s_success, scard_w_reset_card, scard_e_other, Pcsc, set_intxn, with_card,
  after_begin, begin_loop, piv_txn_begin, piv_txn_end,
}

module _ {C : Type 0} (pcsc : Pcsc C) where
  -- A transaction has begun, and nothing else of the token has changed.
  abbrev pub Begun : Piv C → Unit {0} → Piv C → Type 0
  Begun s u s' = (c : C) × (s' ≡ set_intxn s c)

  after_begin-Begun :
      (again : M (Piv C) (Unit {0})) (s : Piv C) (r : BeginTransaction × C)
      → ((c : C) → Ends (Begun s) (λ e s'. Unit {0}) (again (with_card s c)))
      → Ends (Begun s) (λ e s'. Unit {0}) (after_begin pcsc again r s)
  unfolding after_begin
  after_begin-Begun again s (scard_s_success, c) ih = (c, refl)
  after_begin-Begun again s (scard_e_other, c) ih = tt
  after_begin-Begun again s (scard_w_reset_card, c) ih =
      elim (Bool-cases (pcsc.scard_reconnect c).0) [
        | inl joined ↦ rw joined (ih (pcsc.scard_reconnect c).1)
        | inr lost ↦ rw lost tt
      ]

  begin_loop-Begun :
      (fuel : ℕ) (s : Piv C) → Ends (Begun s) (λ e s'. Unit {0}) (begin_loop pcsc fuel s)
  unfolding begin_loop
  begin_loop-Begun zero s = tt
  begin_loop-Begun (suc fuel) s =
      after_begin-Begun (begin_loop pcsc fuel) s (pcsc.scard_begin_transaction s.p_card)
        (λ c. begin_loop-Begun fuel (with_card s c))

  txn_begin-Begun :
      (fuel : ℕ) (s : Piv C) → Ends (Begun s) (λ e s'. Unit {0}) (piv_txn_begin pcsc fuel s)
  unfolding piv_txn_begin
  txn_begin-Begun fuel s =
      Ends-verify _ _ (not s.p_token.pt_intxn) (begin_loop pcsc fuel) s (begin_loop-Begun fuel s)

  -- The end of a transaction that `piv_txn_begin` has begun: it returns, the card is reset just if
  -- the token was marked for it, and the token is as before, without the mark.
  pub txn_begin-end :
      (fuel : ℕ) (s s' : Piv C)
      → piv_txn_begin pcsc fuel s ≡ ok tt s'
      → piv_txn_end pcsc s'
        ≡ ok tt (record s {
          p_card = pcsc.scard_end_transaction s.p_token.pt_reset s'.p_card;
          p_token = record (s.p_token) { pt_intxn = false; pt_reset = false };
        })
  unfolding piv_txn_end
  txn_begin-end fuel s s' h =
      let (c, e) = subst (Ends (Begun s) (λ e s'. Unit {0})) h (txn_begin-Begun fuel s) in
      subst
        (λ (t : Piv C).
          piv_txn_end pcsc t
          ≡ ok tt (record s {
            p_card = pcsc.scard_end_transaction s.p_token.pt_reset t.p_card;
            p_token = record (s.p_token) { pt_intxn = false; pt_reset = false };
          }))
        (sym e) refl

  -- After `piv_change_pin` has returned inside a transaction, its end resets the card and leaves the
  -- token as it was before, out of the transaction.
  pub change_pin-txn_end :
      (scard_transmit : C → List ℕ → ℕ → Option (List ℕ) × C) (fuel : ℕ) (type : PivPin)
      (pin newpin : List ℕ) (s s' : Piv C)
      → s.p_token.pt_intxn ≡ true
      → piv_change_pin scard_transmit fuel type pin newpin s ≡ ok tt s'
      → piv_txn_end pcsc s'
        ≡ ok tt (record s {
          p_card = pcsc.scard_end_transaction true s'.p_card;
          p_token = record (s.p_token) { pt_intxn = false; pt_reset = false };
        })
  unfolding piv_txn_end
  change_pin-txn_end scard_transmit fuel type pin newpin s s' open_txn h =
      let (a, c, e1, e2, e) =
        subst (Ends _ (CardOnly s)) h (piv_change_pin-Done scard_transmit fuel type pin newpin s) in
      subst
        (λ (t : Piv C).
          piv_txn_end pcsc t
          ≡ ok tt (record s {
            p_card = pcsc.scard_end_transaction true t.p_card;
            p_token = record (s.p_token) { pt_intxn = false; pt_reset = false };
          }))
        (sym e) (rw open_txn refl)

  -- A card that asks to be connected to again at most `n` times in a row.
  abbrev pub Settles : ℕ → C → Type 0
  Settles zero c = (pcsc.scard_begin_transaction c).0 ≢ scard_w_reset_card
  Settles (suc n) c =
      ((pcsc.scard_begin_transaction c).0 ≢ scard_w_reset_card)
      ⊎ Settles n (pcsc.scard_reconnect (pcsc.scard_begin_transaction c).1).1

  settled-Returns :
      (again : M (Piv C) (Unit {0})) (s : Piv C) (r : BeginTransaction × C)
      → (r.0 ≢ scard_w_reset_card) ⊎ Returns (again (with_card s (pcsc.scard_reconnect r.1).1))
      → Returns (after_begin pcsc again r s)
  unfolding after_begin
  settled-Returns again s (scard_s_success, c) ih = tt
  settled-Returns again s (scard_e_other, c) ih = tt
  settled-Returns again s (scard_w_reset_card, c) (inl calm) = absurd (calm refl)
  settled-Returns again s (scard_w_reset_card, c) (inr ih) =
      elim (Bool-cases (pcsc.scard_reconnect c).0) [
        | inl joined ↦ rw joined ih
        | inr lost ↦ rw lost tt
      ]

  begin_loop-Returns :
      (n : ℕ) (s : Piv C) → Settles n s.p_card → Returns (begin_loop pcsc (suc n) s)
  unfolding begin_loop
  begin_loop-Returns zero s calm = settled-Returns (begin_loop pcsc zero) s _ (inl calm)
  begin_loop-Returns (suc n) s (inl calm) = settled-Returns (begin_loop pcsc (suc n)) s _ (inl calm)
  begin_loop-Returns (suc n) s (inr later) =
      settled-Returns (begin_loop pcsc (suc n)) s _
        (inr (begin_loop-Returns n (with_card s _) later))

  -- Outside a transaction, `piv_txn_begin` returns, with or without an error, when the card asks to
  -- be connected to again at most `n` times in a row.
  pub piv_txn_begin-Returns :
      (n : ℕ) (s : Piv C)
      → s.p_token.pt_intxn ≡ false
      → Settles n s.p_card
      → Returns (piv_txn_begin pcsc (suc n) s)
  unfolding piv_txn_begin
  piv_txn_begin-Returns n s outside settles =
      subst Returns
        (sym (verify-true (not s.p_token.pt_intxn) (begin_loop pcsc (suc n)) s (ap not outside)))
        (begin_loop-Returns n s settles)
