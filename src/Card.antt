-- ===== src/Card.antt =====
-- piv.c: transactions with a card, and the selection of the PIV applet.
pub mod Tests
pub mod Transactions
use pivy.Prelude.{
  ℕ, zero, suc, ◌+◌, List, [], ◌∷◌, Bool, true, false, not, ◌&&◌, ◌||◌, Option, none, some, length,
  set, ltb, ◌==◌, if◌then◌else◌,
}
use pivy.Errf.{Errf, errf, no_error}
use pivy.Outcome.{Outcome, M, ok, err, fault, ◌>>=◌, ◌>>◌, pure, fail, verify, get, put}
use pivy.Tlv.Read.{tlv_end, tlv_skip, tlv_read_u8to32}
use pivy.Apdu.{Apdu, cla_iso, ins_select, sw_no_error, swerrf, tagerrf, ioerrf}
use pivy.Token.{PivToken}
use pivy.Pin.{Piv, intxn, data_apdu, transceive_chain}
use pivy.Objects.{Parse, tlv, update, aid_piv, parse_object, tag_rounds, parse_reply}

-- What `SCardBeginTransaction` answers.
pub data BeginTransaction : Type 0 where
  scard_s_success : BeginTransaction
  scard_w_reset_card : BeginTransaction
  scard_e_other : BeginTransaction

-- The calls of PCSC: to begin a transaction, to connect again after the card was reset, and to end
-- a transaction, with a reset of the card or without, on a state of the card.
pub record Pcsc (C : Type 0) : Type 0 where
  pub scard_begin_transaction : C → BeginTransaction × C
  pub scard_reconnect : C → Bool × C
  pub scard_end_transaction : Bool → C → C

abbrev pub pcscerrf : Errf
pcscerrf = errf "PCSCError" no_error

abbrev pub with_card : {C : Type 0} → Piv C → C → Piv C
with_card s c = record s { p_card = c }

abbrev pub set_intxn : {C : Type 0} → Piv C → C → Piv C
set_intxn s c = record s { p_card = c; p_token = record (s.p_token) { pt_intxn = true } }

module _ {C : Type 0} (pcsc : Pcsc C) where
  open pcsc use {scard_begin_transaction, scard_reconnect, scard_end_transaction}

  -- What follows `SCardBeginTransaction`; `again` is the jump to `retry`.
  unfoldable pub after_begin : M (Piv C) (Unit {0}) → BeginTransaction × C → M (Piv C) (Unit {0})
  after_begin again (scard_s_success, c) s = ok tt (set_intxn s c)
  after_begin again (scard_w_reset_card, c) s =
      let r = scard_reconnect c in
      if r.0 then again (with_card s r.1) else err (ioerrf pcscerrf) (with_card s r.1)
  after_begin again (scard_e_other, c) s = err (ioerrf pcscerrf) (with_card s c)

  -- The rounds of `retry`, each of which follows a reset of the card.
  unfoldable pub begin_loop : ℕ → M (Piv C) (Unit {0})
  begin_loop zero s = Outcome.stuck
  begin_loop (suc fuel) s = after_begin (begin_loop fuel) (scard_begin_transaction s.p_card) s

  unfoldable pub piv_txn_begin : ℕ → M (Piv C) (Unit {0})
  piv_txn_begin fuel s = (verify (not s.p_token.pt_intxn) >> begin_loop fuel) s

  unfoldable pub piv_txn_end : M (Piv C) (Unit {0})
  piv_txn_end = do
    intxn
    s ← get
    put (record s {
      p_card = scard_end_transaction s.p_token.pt_reset s.p_card;
      p_token = record (s.p_token) { pt_intxn = false; pt_reset = false };
    })

-- `idx = tk->pt_alg_count++`.
unfoldable pub next_alg : M Parse ℕ
next_alg p =
    ok p.p_tk.pt_alg_count
      (record p { p_tk = record (p.p_tk) { pt_alg_count = p.p_tk.pt_alg_count + 1 } })

-- `pt_algs` has room for 32 algorithms, and a write behind it is outside of the array.
unfoldable pub store_alg : ℕ → ℕ → M Parse (Unit {0})
store_alg idx uval =
    if ltb idx 32
    then update (λ tk. record tk { pt_algs = set tk.pt_algs idx uval })
    else (λ p. fault)

-- A tag in the list of algorithms.
unfoldable pub alg_tag : ℕ → M Parse (Unit {0})
alg_tag tag =
    if tag == 0x80
    then (do idx ← next_alg; uval ← tlv tlv_read_u8to32; store_alg idx uval; tlv tlv_end)
    else if tag == 0x06
    then tlv tlv_skip
    else fail tagerrf

unfoldable pub alg_list : ℕ → M Parse (Unit {0})
alg_list fuel p =
    if ltb 0 p.p_tk.pt_alg_count
    then tlv tlv_skip p
    else (do tag_rounds alg_tag fuel; tlv tlv_end) p

-- A tag in the reply to SELECT.
unfoldable pub select_tag : ℕ → ℕ → M Parse (Unit {0})
select_tag fuel tag =
    if tag == 0x4F || tag == 0x79 || tag == 0x50 || tag == 0x5F50
    then tlv tlv_skip
    else if tag == 0xAC
    then alg_list fuel
    else fail tagerrf

abbrev pub select_apdu : Apdu
select_apdu = data_apdu ins_select 0x04 0 aid_piv

unfoldable pub take_selection : {C : Type 0} → Apdu → M (Piv C) (Unit {0})
take_selection a =
    if a.a_sw == sw_no_error || a.a_sw == 0x6282
    then parse_reply (parse_object 0x61 (select_tag (suc a.a_reply.b_len)) (suc a.a_reply.b_len)) a
    else fail (errf "NotFoundError" swerrf)

module _ {C : Type 0} (scard_transmit : C → List ℕ → ℕ → Option (List ℕ) × C) (fuel : ℕ) where
  unfoldable pub piv_select : M (Piv C) (Unit {0})
  piv_select = do intxn; a ← transceive_chain scard_transmit fuel select_apdu; take_selection a
