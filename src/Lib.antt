-- ===== src/Lib.antt =====
-- pivy: tools and a library for PIV smartcards. This is a model of the part of the library that
-- talks to a card, of the BER-TLV code that it stands on, and of the boxes and eboxes that are
-- encrypted to the keys of cards.
--
-- The parts, from below:
--   * tlv.c and tlv.h read and write BER-TLV in a buffer. Tlv holds the state (`struct tlv_state`,
--     with the chain of contexts as a list above the root), Tlv.Read the reading functions and
--     Tlv.Write the writing ones, each under its name in C. Tlv.Inv says when a parser is
--     well-formed, Tlv.Read.Session what sequences of calls reach, Tlv.Write.Encode what the
--     writer writes, and Tlv.RoundTrip reads it back.
--   * errf.c has the errors: Errf keeps the name and the cause of each.
--   * piv.c sends commands to a card. Apdu is one exchange (`piv_apdu_make` to
--     `piv_apdu_transceive`), Apdu.Chain the function that splits a long command and collects a
--     long reply (`piv_apdu_transceive_chain`). Apdu.Blocks says what a long command is cut into;
--     Apdu.Safe and Apdu.Send prove the exchange.
--   * piv.c keeps the state of a token: Token has `struct piv_token`, its slots and accessors.
--   * piv.c has the PIN and administration commands: Pin, with `piv_verify_pin`, `piv_change_pin`,
--     `piv_reset_pin`, `ykpiv_reset`, `ykpiv_set_pin_retries` and `ykpiv_set_admin`. They use the
--     exchange of Apdu.Chain and change the token. Pin.Blocks has what the loops that fill `pinbuf`
--     make of a string.
--   * piv.c reads and writes data objects: Objects, with `ykpiv_get_version`, `ykpiv_read_serial`,
--     `piv_read_discov`, `piv_read_keyhist`, `piv_read_file` and `piv_write_file`. They build the
--     command with Tlv.Write, exchange it, and parse the reply with Tlv.Read.
--   * piv.c has the PIV boxes: Box has `struct piv_ecdh_box` and its accessors, Box.Wire the
--     format (`sshbuf_put_piv_box`, `sshbuf_get_piv_box`), Box.Binary whole strings of bytes and
--     the format before (`piv_box_read_old_v1`), Box.Seal sealing to a public key and opening with
--     the private one (`piv_box_seal_offline`, `piv_box_open_offline`). Box.Wire.Carries composes
--     writers with the readers that undo them; Outcome.Ends states what holds when a function
--     ends.
--   * piv.c begins and ends transactions and selects the PIV applet: Card, with `piv_txn_begin`,
--     `piv_txn_end` and `piv_select`.
--   * piv.c uses a key on the card: Ecdh, with `piv_ecdh` and `piv_box_open`, which opens a box
--     with it. Its code around the ECDH is a second copy of that of
--     `piv_box_open_offline`, and is modelled apart (`card_algs`, `card_open_with`); Ecdh.Opens
--     compares the two, and Ecdh.Sealed opens what was sealed.
--   * utils.c writes bytes as hex digits (`buf_to_hex`), and pivy-box.c reads them (`parse_hex`):
--     Hex, with Hex.Write, Hex.Read and Hex.RoundTrip on the two together.
--   * pivy-agent.c keeps a PIN: Agent, with `agent_piv_try_pin`, which gives it to `piv_verify_pin`
--     of Pin, and `wrap_pin_error` and `drop_pin`, which forget it.
--   * ebox.c shares a key among several tokens: Ebox has the templates (`struct ebox_tpl`) and the
--     operations that build and copy them, Ebox.Template their format (`sshbuf_put_ebox_tpl`,
--     `sshbuf_get_ebox_tpl`), Ebox.State the eboxes themselves (`struct ebox`), Ebox.Create
--     `ebox_create`, which makes one from a template, and Ebox.Recovery `ebox_unlock` and
--     `ebox_recover`, with the recovery box (`ebox_encrypt_recovery`, `ebox_decrypt_recovery`).
--     The parts of an ebox have boxes of Box in them, which `piv_box_seal_offline` seals. What is
--     drawn at random to make an ebox is an argument (Draws). Ebox.Stream has the chunks of a
--     stream, which the key of an ebox encrypts (`ebox_stream_encrypt_chunk`,
--     `ebox_stream_decrypt_chunk`).
--
-- A C function is a function from a state to an Outcome: it returns, returns an error, stops at a
-- VERIFY, reaches outside a buffer, or, for a loop on fuel, runs out of fuel. Each outcome keeps
-- the state where C does. A `size_t` wraps around at 2 ^ 64, and smaller words are cut off where
-- C cuts them off.
--
-- The card is not part of the code. `SCardTransmit` is a parameter, `scard_transmit`, on a state
-- of the card of any type; what a theorem wants of it is a hypothesis of that theorem.
--
-- libssh and libcrypto are the interfaces SshBuf (Box.Wire) and Crypto (Box.Seal), with what the
-- code relies on in SshBufLaws, CryptoLaws and CipherLaws; the transactions of PCSC are the
-- interface Pcsc (Card). Ebox.Template adds further calls of libssh (EboxBuf, with EboxBufLaws),
-- Ebox.Stream those for chunks (StreamLib, with StreamLaws), and Ebox.State the sharing of
-- secrets (Sss, with SssLaws). A `struct sshbuf` is the bytes that are left to read. Random keys,
-- nonces and IVs are arguments.
--
-- Fuel: the loops of the TLV code have it from the guards before them (five rounds for a number
-- of four bytes) or from the bytes that are left. The loops of a parse in Objects have one round
-- more than the reply has bytes, since each tag takes a byte. The loops of
-- `piv_apdu_transceive_chain` and the retries of `piv_txn_begin` take their fuel from the caller,
-- because a card can keep them going without end; one unit is one exchange, and one for each 255
-- bytes is enough for a card that accepts what it is sent. The tags of a part in a template are
-- read on fuel too, one unit for each tag; six are enough for what the writer writes.
--
-- Not modelled: failures of malloc, messages of errors and logs, certificates, other operations
-- with keys, PCSC readers, the formats of eboxes, of their challenges and of the heads of
-- streams, the rest of the agent and of the tools, and the copies of other projects (libssh,
-- ed25519, chapoly, sss).
--
-- Prelude has the natural numbers, lists and words that all of it uses; Tests, Box.Tests,
-- Card.Tests, Ecdh.Tests, Hex.Tests, Agent.Tests, Ebox.Tests, Ebox.Create.Tests and
-- Ebox.Stream.Tests have runs and instances of the theorems at concrete inputs.
pub mod Prelude
pub mod Errf
pub mod Outcome
pub mod Tlv
pub mod Apdu
pub mod Token
pub mod Pin
pub mod Objects
pub mod Box
pub mod Card
pub mod Ecdh
pub mod Hex
pub mod Agent
pub mod Ebox
pub mod Tests
