-- ===== src/Ecdh/Tests.antt =====
-- Instances of the theorems on an ECDH with a card.
use pivy.Prelude.{ℕ, ◌≡◌, refl, sym, ap, ◌∙◌, subst, List, [], ◌∷◌, Option, none, some, true, arith}
use pivy.Outcome.{ok}
use pivy.Apdu.{empty_buf, Apdu, piv_apdu_make, cla_iso, ins_gen_auth}
use pivy.Token.{PivSlot}
use pivy.Pin.{Piv}
use pivy.Objects.{take_object}
use pivy.Box.{PivBox, piv_box_take_data}
use pivy.Box.Wire.{SshKey}
use pivy.Box.Wire.Fields.{ec_key}
use pivy.Box.Tests.{
  crypto, crypto-laws, sealed_box, p256, secret, random, open_box, no_iv, box_is_sealed,
}
use pivy.Tests.{token}
use pivy.Ecdh.{piv_ecdh, piv_box_open, read_secret, ecdh_error}
use pivy.Ecdh.Sealed.{seal-box_open}

-- The shared secret is the byte 11.
abbrev reply_bytes : List ℕ
reply_bytes = 0x7C ∷ 3 ∷ 0x82 ∷ 1 ∷ 11 ∷ 0x90 ∷ 0x00 ∷ []

abbrev key_card : ℕ → List ℕ → ℕ → Option (List ℕ) × ℕ
key_card c cmd max = (some reply_bytes, c)

abbrev at_card : Piv ℕ
at_card = record { p_card = 0; p_token = token; p_retries = none }

abbrev put_eckey : ℕ → Option (List ℕ)
put_eckey k = some (0 ∷ 0 ∷ 0 ∷ 2 ∷ 4 ∷ k ∷ [])

abbrev slot : PivSlot
slot = record { ps_slot = 0x9D; ps_alg = 0x11 }

card_answers :
    piv_ecdh key_card 1 put_eckey slot (ec_key true p256 6) at_card ≡ ok (11 ∷ []) at_card
unfolding piv_ecdh pivy.Pin.transceive_chain pivy.Pin.on_card
    pivy.Apdu.Chain.piv_apdu_transceive_chain pivy.Apdu.Chain.send_loop
    pivy.Apdu.piv_apdu_transceive pivy.Apdu.apdu_to_buffer pivy.Apdu.Chain.next_block
    pivy.Apdu.data_to_buffer pivy.Apdu.slice pivy.Apdu.exchange pivy.Apdu.take_answer
    pivy.Apdu.finish_reply pivy.Apdu.store_at pivy.Apdu.reply_buf pivy.Apdu.Chain.receive
    pivy.Apdu.Chain.continue_apdu pivy.Apdu.Chain.continue_loop pivy.Apdu.Chain.join_reply
    pivy.Apdu.cmd_to_buffer pivy.Tlv.calloc pivy.Apdu.piv_apdu_make pivy.Ecdh.verify_point
    pivy.Ecdh.slot_apdu pivy.Ecdh.write_ecdh pivy.Tlv.Write.tlv_pushl pivy.Tlv.Write.tlv_push
    pivy.Tlv.Write.tlv_write pivy.Tlv.Write.tlv_pop pivy.Tlv.tlv_init_write pivy.Tlv.tlv_len
    pivy.Tlv.Write.tlv_write_u8to32 pivy.Tlv.Write.rest_loop pivy.Tlv.Write.skip_zeros
    pivy.Tlv.tlv_at_root_end pivy.Tlv.Write.put_byte pivy.Tlv.Write.set_byte pivy.Tlv.Write.advance
    pivy.Tlv.Write.reserve_len pivy.Tlv.tlv_ctx_push pivy.Tlv.tlv_ctx_pop pivy.Tlv.Write.get_byte
    pivy.Tlv.Write.store_len pivy.Tlv.tlv_root_rem pivy.Tlv.Write.put_bytes
    pivy.Tlv.Read.read_tag_number pivy.Tlv.tlv_at_end pivy.Tlv.next_byte pivy.Tlv.Read.read_tag_len
    pivy.Tlv.Read.enter_tag pivy.Tlv.Read.len_loop pivy.Tlv.Read.read_long_len
    pivy.Tlv.Read.tag_loop pivy.Tlv.next_bytes pivy.Tlv.tlv_rem take_object pivy.Objects.parse_reply
    pivy.Objects.tlv pivy.Objects.on_reply pivy.Objects.after_parse pivy.Objects.free_parser
    pivy.Objects.free_writer pivy.Objects.freed_writer pivy.Tlv.Write.tlv_free read_secret
    pivy.Tlv.tlv_init pivy.Tlv.Read.tlv_read_tag pivy.Tlv.Read.tlv_read_alloc pivy.Tlv.Read.tlv_end
card_answers = refl

agrees :
    (ephem : SshKey ℕ) (sec : List ℕ)
    → sealed_box.pdb_ephem_pub ≡ some ephem
    → crypto.ecdh_compute_key ephem.ecdsa 5 ≡ some sec
    → piv_ecdh key_card 1 put_eckey slot ephem at_card ≡ ok sec at_card
agrees ephem sec has shared =
    let e : ec_key true p256 6 ≡ ephem = cc has in
    let secret_is : 11 ∷ [] ≡ sec =
      cc (subst (λ (k : SshKey ℕ). crypto.ecdh_compute_key k.ecdsa 5 ≡ some sec) (sym e) shared) in
    ap (λ k. piv_ecdh key_card 1 put_eckey slot k at_card) (sym e)
    ∙ card_answers
    ∙ ap (λ v. ok v at_card) secret_is

seal-box_open_example :
    (box'' : PivBox (SshKey ℕ) ℕ) × (piv_box_open key_card 1 put_eckey crypto slot
        (at_card, sealed_box)
      ≡ ok tt (at_card, box''))
    × (piv_box_take_data box'' ≡ ok secret (record sealed_box { pdb_plain = empty_buf }))
unfolding pivy.Box.piv_box_new
seal-box_open_example =
    seal-box_open crypto crypto-laws key_card 1 put_eckey slot random 5 (ec_key true p256 5) secret
      open_box sealed_box at_card at_card refl (omega arith) refl no_iv box_is_sealed agrees
