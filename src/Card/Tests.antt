-- ===== src/Card/Tests.antt =====
-- Instances of the theorems on transactions and on the selection of the applet.
use pivy.Prelude.{ℕ, ◌+◌, ◌-◌, ◌≡◌, refl, inr, List, [], ◌∷◌, true, false, none, ltb, if◌then◌else◌}
use pivy.Outcome.{ok}
use pivy.Tlv.{tlv_init}
use pivy.Token.{PivToken, piv_pin}
use pivy.Pin.{Piv, piv_change_pin}
use pivy.Objects.Rounds.{Returns}
use pivy.Tests.{token, ready, yes_card, pin, new_pin}
use pivy.Card.{
  BeginTransaction, scard_s_success, scard_w_reset_card, Pcsc, piv_txn_begin, piv_txn_end, alg_tag,
}
use pivy.Card.Transactions.{txn_begin-end, change_pin-txn_end, piv_txn_begin-Returns}

-- A card that has been reset `c` times, and counts the resets at the end of a transaction by 100.
abbrev begin_of : ℕ → BeginTransaction
begin_of c = if ltb 0 c then scard_w_reset_card else scard_s_success

abbrev pcsc : Pcsc ℕ
pcsc = record {
  scard_begin_transaction = λ c. (begin_of c, c);
  scard_reconnect = λ c. (true, c - 1);
  scard_end_transaction = λ reset c. if reset then c + 100 else c;
}

abbrev idle : Piv ℕ
idle = record {
  p_card = 2;
  p_token = record token { pt_intxn = false; pt_reset = true };
  p_retries = none;
}

abbrev busy : Piv ℕ
busy = record {
  p_card = 0;
  p_token = record token { pt_intxn = true; pt_reset = true };
  p_retries = none;
}

txn_begin-end_example :
    piv_txn_end pcsc busy
    ≡ ok tt (record idle {
      p_card = 100;
      p_token = record (idle.p_token) { pt_intxn = false; pt_reset = false };
    })
unfolding piv_txn_begin pivy.Card.begin_loop pivy.Card.after_begin
txn_begin-end_example = txn_begin-end pcsc 3 idle busy refl

piv_txn_begin-Returns_example : Returns (piv_txn_begin pcsc 3 idle)
piv_txn_begin-Returns_example =
    piv_txn_begin-Returns pcsc 2 idle refl (inr (inr (λ h. absurd (cc h))))

abbrev list_pcsc : Pcsc (List (List ℕ))
list_pcsc = record {
  scard_begin_transaction = λ c. (scard_s_success, c);
  scard_reconnect = λ c. (true, c);
  scard_end_transaction = λ reset c. if reset then [] else c;
}

abbrev changed : Piv (List (List ℕ))
changed = record ready {
  p_card =
      (0x00 ∷ 0x24 ∷ 0x00 ∷ 0x80 ∷ 16 ∷ 49 ∷ 50 ∷ 51 ∷ 52 ∷ 53 ∷ 54 ∷ 0xFF ∷ 0xFF ∷ 57 ∷ 57 ∷ 57
        ∷ 57 ∷ 0xFF ∷ 0xFF ∷ 0xFF ∷ 0xFF ∷ 0 ∷ [])
      ∷ [];
  p_token = record token { pt_reset = true };
}

pin_changes : piv_change_pin yes_card 2 piv_pin pin new_pin ready ≡ ok tt changed
unfolding piv_change_pin pivy.Pin.transceive_chain pivy.Pin.on_card
    pivy.Apdu.Chain.piv_apdu_transceive_chain pivy.Apdu.Chain.send_loop
    pivy.Apdu.piv_apdu_transceive pivy.Apdu.apdu_to_buffer pivy.Apdu.Chain.next_block
    pivy.Apdu.data_to_buffer pivy.Apdu.slice pivy.Apdu.exchange pivy.Apdu.take_answer
    pivy.Apdu.finish_reply pivy.Apdu.store_at pivy.Apdu.reply_buf pivy.Apdu.Chain.receive
    pivy.Apdu.Chain.continue_apdu pivy.Apdu.Chain.continue_loop pivy.Apdu.Chain.join_reply
    pivy.Apdu.cmd_to_buffer pivy.Tlv.calloc pivy.Pin.two_pins pivy.Pin.copy_pin pivy.Pin.copy_loop
    pivy.Pin.char_at pivy.Pin.store_pin_char pivy.Pin.verify_nul pivy.Apdu.piv_apdu_make
    pivy.Pin.change_pin_error pivy.Pin.finish_command pivy.Token.pin_id
pin_changes = refl

change_pin-txn_end_example :
    piv_txn_end list_pcsc changed
    ≡ ok tt (record ready {
      p_card = [];
      p_token = record token { pt_intxn = false; pt_reset = false };
    })
change_pin-txn_end_example =
    change_pin-txn_end list_pcsc yes_card 2 piv_pin pin new_pin ready changed refl pin_changes
