-- ===== src/Tests.antt =====
-- Runs of the model at concrete inputs, and instances of the theorems.
use pivy.Prelude.{
  ℕ, ◌+◌, ◌^◌, ◌<◌, ◌≤◌, ◌≡◌, refl, List, [], ◌∷◌, ◌++◌, true, false, Option, none, some, inl, inr,
  length, leb, if◌then◌else◌, arith, Bool-cases, replicate, ◌%◌,
}
use pivy.Errf.{errf, no_error}
use pivy.Outcome.{ok, err}
use pivy.Tlv.{TlvState, tlv_init, tlv_ctx_push, tlv_at_end, next_byte, tlv_root_rem, tlv_rem}
use pivy.Tlv.Read.{tlv_read_tag, read_tag_number, read_tag_len, enter_tag}
use pivy.Tlv.Read.Session.{read_tag, skip, call, Answers, start, returned, Session-Answers}
use pivy.Tlv.Read.Tags.{Enters, tlv_read_tag-Enters}
use pivy.Tlv.Inv.{init-IsValid}
use pivy.Tlv.Write.Cursor.{cursor}
use pivy.Tlv.Write.Numbers.{number_bytes, be_bytes}
use pivy.Tlv.Write.{skip_zeros}
use pivy.Tlv.Write.Tags.{len_bytes}
use pivy.Tlv.Write.Encode.{encode, write_tag, write_tag_lem}
use pivy.Tlv.RoundTrip.{read_whole_tag, read-encode}
use pivy.Apdu.{
  Apdu, piv_apdu_make, piv_apdu_transceive, ins_verify, ins_change_pin, ins_reset_pin, ins_put_data,
  cla_iso, sw_no_error, sw_incorrect_pin, apdu_to_buffer, cmd_to_buffer, exchange, reply_buf,
  take_answer, finish_reply, store_at,
}
use pivy.Apdu.Chain.{
  piv_apdu_transceive_chain, send_loop, next_block, receive, continue_loop, join_reply,
}
use pivy.Apdu.Safe.{NoFault, ReplyFits, piv_apdu_transceive_chain-NoFault}
use pivy.Apdu.Blocks.{blocks_of, payload}
use pivy.Apdu.Send.{piv_apdu_transceive_chain-sends}
use pivy.Token.{PivToken, piv_pin, pin_id}
use pivy.Pin.{
  Piv, data_apdu, piv_change_pin, piv_reset_pin, try_pin, change_pin_error, reset_pin_error,
  piv_verify_pin,
}
use pivy.Outcome.Ends.{Ends}
use pivy.Pin.Contract.{Done, CardOnly, chain_answer, piv_change_pin-Done}
use pivy.Pin.Verify.{
  TokenKept, Proved, OneExchange, piv_verify_pin-PinAccepted, piv_verify_pin-MinRetries,
  piv_verify_pin-OneExchange,
}
use pivy.Pin.Blocks.{pin_block, blocks_command, block_verify, pin_commands-blocks}
use pivy.Pin.Safe.{piv_change_pin-NoFault, data_apdu-CmdFits}
use pivy.Pin.Send.{piv_change_pin-sends}
use pivy.Objects.{aid_piv, keyhist_tag, parse_object, take_object, object_error}
use pivy.Objects.Rounds.{
  Parses, Round, Returns, keyhist_tag-Closes, parse_object-Parses, keyhist-Returns,
}

-- A key history object: one key with a certificate on the card, two without.
abbrev keyhist : List ℕ
keyhist = 0x53 ∷ 6 ∷ 0xC1 ∷ 1 ∷ 1 ∷ 0xC2 ∷ 1 ∷ 2 ∷ []

abbrev small_buf : length keyhist < 2 ^ 64
small_buf = omega arith

-- The parser in the object.
abbrev in_object : TlvState
in_object = record (tlv_init keyhist 0 8) {
  ts_ctxs = record { tc_begin = 2; tc_end = 8; tc_lenptr = 1; tc_depth = 1 } ∷ [];
  ts_pos = 2;
}

enters_object : call read_tag (tlv_init keyhist 0 8) ≡ ok tt in_object
unfolding call tlv_read_tag read_tag_number tlv_at_end tlv_init next_byte read_tag_len enter_tag
    tlv_root_rem tlv_rem tlv_ctx_push
enters_object = refl

Session-Answers_example : Answers (call skip in_object)
Session-Answers_example =
    Session-Answers keyhist 0 8 (omega arith) small_buf skip
      (returned read_tag (start (tlv_init keyhist 0 8) refl) tt enters_object) (_, _, refl)

tlv_read_tag-Enters_example : Enters (tlv_init keyhist 0 8) (tlv_read_tag (tlv_init keyhist 0 8))
tlv_read_tag-Enters_example =
    tlv_read_tag-Enters (tlv_init keyhist 0 8) (init-IsValid keyhist 0 8 (omega arith) small_buf)

-- A buffer of sixteen bytes.
abbrev ts16 : TlvState
ts16 = record {
  ts_root = record { tc_begin = 0; tc_end = 16; tc_lenptr = 0; tc_depth = 0 };
  ts_ctxs = [];
  ts_buf = [];
  ts_pos = 0;
  ts_freebuf = true;
  ts_debug = false;
}

abbrev two_bytes : List ℕ
two_bytes = 0xAB ∷ 0xCD ∷ []

read-encode_example :
    read_whole_tag (cursor ts16 [] (encode 0x7F49 200 two_bytes ++ (0 ∷ [])))
    ≡ ok (0x7F49, two_bytes) (cursor ts16 ([] ++ encode 0x7F49 200 two_bytes) (0 ∷ []))
unfolding encode number_bytes be_bytes skip_zeros len_bytes
read-encode_example =
    read-encode 0x7F49 200 two_bytes ts16 [] (0 ∷ [])
      (inr (omega arith, omega arith, refl, omega arith)) (omega arith) (omega arith)
      (omega arith, omega arith, omega arith, omega arith) (omega arith)

write_tag_lem_example :
    write_tag 0x7F49 200 two_bytes (cursor ts16 [] (replicate 6 0 ++ (9 ∷ [])))
    ≡ ok tt (cursor ts16 ([] ++ encode 0x7F49 200 two_bytes) (9 ∷ []))
unfolding encode number_bytes be_bytes skip_zeros len_bytes
write_tag_lem_example =
    write_tag_lem ts16 0x7F49 200 two_bytes [] (replicate 6 0) (9 ∷ []) (omega arith) (omega arith)
      refl (omega arith) (omega arith) (omega arith)

-- A card that accepts everything, and keeps what it has been sent.
abbrev pub yes_card : List (List ℕ) → List ℕ → ℕ → Option (List ℕ) × List (List ℕ)
yes_card c cmd max = (some (0x90 ∷ 0x00 ∷ []), c ++ (cmd ∷ []))

-- A card that answers only where there is room, and always that two tries are left.
abbrev no_card : ℕ → List ℕ → ℕ → Option (List ℕ) × ℕ
no_card c cmd max = (if leb 2 max then some (0x63 ∷ 0xC2 ∷ []) else none, c + 1)

no_card_fits :
    (c : ℕ) (cmd : List ℕ) (max : ℕ) (bytes : List ℕ)
    → (no_card c cmd max).0 ≡ some bytes
    → (2 ≤ length bytes) × (length bytes ≤ max)
no_card_fits c cmd max bytes e = elim (Bool-cases (leb 2 max)) [
  | inl h ↦ let same : some (0x63 ∷ 0xC2 ∷ []) ≡ some bytes = rw h at e in ground arith
  | inr h ↦ let same : none ≡ some bytes = rw h at e in absurd (ground arith)
]

abbrev pub token : PivToken
token = record {
  pt_rdrname = "reader";
  pt_intxn = true;
  pt_reset = false;
  pt_guid = [];
  pt_nochuid = true;
  pt_signedchuid = false;
  pt_fascn = [];
  pt_fascn_len = 0;
  pt_expiry = [];
  pt_haschuuid = false;
  pt_chuuid = [];
  pt_algs = [];
  pt_alg_count = 0;
  pt_hist_oncard = 0;
  pt_hist_offcard = 0;
  pt_hist_url = none;
  pt_auth = piv_pin;
  pt_pin_global = false;
  pt_pin_app = true;
  pt_occ = false;
  pt_vci = false;
  pt_slots = record { ps_slot = 0x9A; ps_alg = 0x11 } ∷ [];
  pt_ykpiv = true;
  pt_ykver = (5, 2, 4);
  pt_ykserial_valid = false;
  pt_ykserial = 0;
}

abbrev pub pin : List ℕ
pin = 49 ∷ 50 ∷ 51 ∷ 52 ∷ 53 ∷ 54 ∷ []

abbrev pub new_pin : List ℕ
new_pin = 57 ∷ 57 ∷ 57 ∷ 57 ∷ []

abbrev pub ready : Piv (List (List ℕ))
ready = record { p_card = []; p_token = token; p_retries = none }

-- The caller wants to keep three tries.
abbrev wary : Piv ℕ
wary = record { p_card = 0; p_token = token; p_retries = some 3 }

abbrev two_blocks : Apdu
two_blocks = data_apdu ins_put_data 0x3F 0xFF (replicate 300 7)

piv_apdu_transceive_chain-sends_example :
    (a' : Apdu) × (c' : List (List ℕ)) × (piv_apdu_transceive_chain yes_card true 2 two_blocks []
      ≡ ok a' c')
    × (a'.a_sw ≡ sw_no_error)
    × (a'.a_reply.b_len ≡ 0)
    × (c' ≡ blocks_of 2 0x00 0xDB 0x3F 0xFF 0 (replicate 300 7))
    × (payload (blocks_of 2 0x00 0xDB 0x3F 0xFF 0 (replicate 300 7)) ≡ replicate 300 7)
unfolding piv_apdu_make
piv_apdu_transceive_chain-sends_example =
    piv_apdu_transceive_chain-sends yes_card (λ c. c) (λ c cmd max. refl) (λ c cmd max. refl) 1
      two_blocks (replicate 300 7) [] refl refl refl refl (omega arith) (omega arith) (omega arith)

piv_apdu_transceive_chain-NoFault_example :
    NoFault
      (λ (a' : Apdu). ReplyFits a'.a_reply)
      (piv_apdu_transceive_chain no_card true 4 two_blocks 0)
unfolding piv_apdu_make
piv_apdu_transceive_chain-NoFault_example =
    piv_apdu_transceive_chain-NoFault no_card no_card_fits 4 true two_blocks 0
      (data_apdu-CmdFits ins_put_data 0x3F 0xFF (replicate 300 7) (omega arith)) (inl refl)

piv_change_pin-NoFault_example :
    NoFault (λ (_ : Unit {0}). Unit {0}) (piv_change_pin no_card 4 piv_pin pin new_pin wary)
piv_change_pin-NoFault_example =
    piv_change_pin-NoFault no_card no_card_fits 4 piv_pin pin new_pin wary

-- The empty VERIFY.
abbrev ask : Apdu
ask = piv_apdu_make cla_iso ins_verify 0x00 (pin_id piv_pin)

two_left :
    (a : Apdu) × (c : ℕ) × (chain_answer no_card 2 wary ask ≡ ok a c)
    × (sw_incorrect_pin a.a_sw ≡ true)
    × (a.a_sw % 16 ≤ 3)
unfolding piv_apdu_make piv_apdu_transceive_chain send_loop next_block receive piv_apdu_transceive
    apdu_to_buffer cmd_to_buffer exchange reply_buf take_answer finish_reply store_at continue_loop
    join_reply
two_left = (_, _, refl, refl, omega arith)

piv_verify_pin-MinRetries_example :
    piv_verify_pin no_card 2 piv_pin (some pin) false wary
    ≡ err
        (errf "MinRetriesError" no_error)
        (record wary { p_card = two_left.1; p_retries = some (two_left.0.a_sw % 16) })
piv_verify_pin-MinRetries_example =
    piv_verify_pin-MinRetries no_card 2 piv_pin pin false 3 wary two_left.0 two_left.1 refl refl
      (omega arith) two_left.2 two_left.3 two_left.4

piv_verify_pin-OneExchange_example :
    OneExchange no_card 2 wary two_left.1 (piv_verify_pin no_card 2 piv_pin none false wary)
piv_verify_pin-OneExchange_example =
    piv_verify_pin-OneExchange no_card 2 piv_pin false wary two_left.0 two_left.1 refl two_left.2

piv_verify_pin-PinAccepted_example :
    Ends
      (Proved yes_card 2 piv_pin pin true ready)
      (TokenKept yes_card 2 ready)
      (piv_verify_pin yes_card 2 piv_pin (some pin) true ready)
piv_verify_pin-PinAccepted_example = piv_verify_pin-PinAccepted yes_card 2 piv_pin pin true ready

pin_commands-blocks_example :
    (piv_change_pin yes_card 2 piv_pin pin new_pin ready
      ≡ blocks_command yes_card 2 ins_change_pin change_pin_error piv_pin pin new_pin ready)
    × (piv_reset_pin yes_card 2 piv_pin pin new_pin ready
        ≡ blocks_command yes_card 2 ins_reset_pin reset_pin_error piv_pin pin new_pin ready)
    × (try_pin yes_card 2 piv_pin pin ready ≡ block_verify yes_card 2 piv_pin pin ready)
pin_commands-blocks_example = pin_commands-blocks yes_card 2 piv_pin pin new_pin ready

piv_change_pin-Done_example :
    Ends
      (λ (_ : Unit {0}) (s' : Piv (List (List ℕ))).
        Done
          (chain_answer yes_card 2 ready
            (data_apdu ins_change_pin 0x00 (pin_id piv_pin) (pin_block pin ++ pin_block new_pin)))
          ready
          s')
      (CardOnly ready)
      (piv_change_pin yes_card 2 piv_pin pin new_pin ready)
piv_change_pin-Done_example = piv_change_pin-Done yes_card 2 piv_pin pin new_pin ready

piv_change_pin-sends_example :
    (c : List (List ℕ)) × (piv_change_pin yes_card 1 piv_pin pin new_pin ready
      ≡ ok tt (record ready { p_card = c; p_token = record token { pt_reset = true } }))
    × (c
        ≡ (0x00
            ∷ 0x24
            ∷ 0x00
            ∷ pin_id piv_pin
            ∷ 16
            ∷ ((pin_block pin ++ pin_block new_pin) ++ (0x00 ∷ [])))
          ∷ [])
piv_change_pin-sends_example =
    piv_change_pin-sends yes_card (λ c. c) (λ c cmd max. refl) (λ c cmd max. refl) piv_pin pin
      new_pin 0 ready refl refl refl

-- The answer to a GET DATA that has the key history object.
abbrev answer : Apdu
answer = record (piv_apdu_make cla_iso ins_verify 0x3F 0xFF) {
  a_sw = 0x9000;
  a_reply = record {
    b_data = some (keyhist ++ (0x90 ∷ 0x00 ∷ []));
    b_size = 10;
    b_offset = 0;
    b_len = 8;
  };
}

keyhist-Returns_example :
    Returns (take_object true object_error (parse_object 0x53 keyhist_tag 9) answer ready)
keyhist-Returns_example =
    keyhist-Returns answer ready
      (keyhist ++ (0x90 ∷ 0x00 ∷ []), refl, refl, omega arith, omega arith)

parse_object-Parses_example :
    Parses
      (λ p. Round (tlv_init keyhist 0 8) p)
      (parse_object 0x53 keyhist_tag 9 (record { p_tlv = tlv_init keyhist 0 8; p_tk = token }))
parse_object-Parses_example =
    parse_object-Parses 0x53 keyhist_tag keyhist_tag-Closes keyhist 0 8 token (omega arith)
      small_buf

-- A discovery object with the AID of PIV and a policy of PIN and global PIN, the latter first.
abbrev discovery : List ℕ
discovery = 0x7E ∷ 18 ∷ 0x4F ∷ 11 ∷ (aid_piv ++ (0x5F ∷ 0x2F ∷ 2 ∷ 0x60 ∷ 0x20 ∷ []))

abbrev discovery_answer : Apdu
discovery_answer = record answer {
  a_reply = record {
    b_data = some (discovery ++ (0x90 ∷ 0x00 ∷ []));
    b_size = 22;
    b_offset = 0;
    b_len = 20;
  };
}
