-- ===== src/Apdu/Chain.antt =====
-- `piv_apdu_transceive_chain` of piv.c: commands and replies of any length.
use pivy.Prelude.{
  ℕ, zero, suc, ◌+◌, ◌-◌, List, Bool, false, ◌&&◌, ◌||◌, Option, none, leb, ltb, ◌==◌,
  if◌then◌else◌, add_size, sub_size, low_bits, bit_set,
}
use pivy.Outcome.{stuck, M, ◌>>=◌, ◌>>◌, pure, verify}
use pivy.Apdu.{
  Apdu, piv_apdu_transceive, sw_class, sw_no_error, sw_wrong_data, cla_iso, ins_continue,
}

-- `a_cls |= CLA_CHAIN` and `a_cls &= ~CLA_CHAIN` (bit 4).
abbrev pub set_chain : ℕ → ℕ
set_chain cls = if bit_set cls 4 then cls else cls + 16

abbrev pub clear_chain : ℕ → ℕ
clear_chain cls = if bit_set cls 4 then cls - 16 else cls

-- The next block of a command of which `rem` bytes are left.
unfoldable pub next_block : ℕ → Apdu → Apdu
next_block rem a =
    if ltb 0xFF rem
    then record a { a_cls = set_chain a.a_cls; a_cmd = record (a.a_cmd) { b_len = 0xFF } }
    else record a { a_cls = clear_chain a.a_cls; a_cmd = record (a.a_cmd) { b_len = rem } }

-- The statuses after which the command goes on.
abbrev pub sw_goes_on : ℕ → Bool
sw_goes_on sw = sw_class sw 0x90 || sw_class sw 0x61 || sw_class sw 0x62 || sw_class sw 0x63

-- Where the first loop ends: with the whole command sent, or with a status that is handed back.
pub data Sent : Type 0 where
  all_sent : Apdu → Sent
  refused : Apdu → Sent

-- The test of the second loop.
abbrev pub more_reply : Apdu → Bool
more_reply a = sw_class a.a_sw 0x61 || (a.a_sw == sw_no_error && leb 0xFF a.a_reply.b_len)

-- The CONTINUE command that asks for the rest of the reply.
unfoldable pub continue_apdu : Apdu → Apdu
continue_apdu a = record a {
  a_cls = cla_iso;
  a_ins = ins_continue;
  a_p1 = 0;
  a_p2 = 0;
  a_le = if sw_class a.a_sw 0x61 || sw_class a.a_sw 0x6C then low_bits a.a_sw 8 else a.a_le;
  a_cmd = record (a.a_cmd) { b_data = none };
  a_reply = record (a.a_reply) { b_offset = add_size a.a_reply.b_offset a.a_reply.b_len };
}

-- After the second loop: SW_WRONG_DATA is forgiven if the card had said that it was done, and the
-- reply is everything from `offset` on.
unfoldable pub join_reply : ℕ → Bool → Apdu → Apdu
join_reply offset gotok a = record a {
  a_sw = if gotok && a.a_sw == sw_wrong_data then sw_no_error else a.a_sw;
  a_reply = record (a.a_reply) {
    b_len = add_size a.a_reply.b_len (sub_size a.a_reply.b_offset offset);
    b_offset = offset;
  };
}

module _ {C : Type 0} (scard_transmit : C → List ℕ → ℕ → Option (List ℕ) × C)
    (pt_intxn : Bool) where
  -- From `again:` on with the block `a`, and `rem` bytes left with it. A round takes one exchange.
  unfoldable pub send_loop : ℕ → ℕ → Apdu → M C Sent
  send_loop zero rem a = λ c. stuck
  send_loop (suc fuel) rem a = do
    a' ← piv_apdu_transceive scard_transmit pt_intxn a
    let again = send_loop fuel rem (record a' { a_le = low_bits a'.a_sw 8 })
    let rem' = sub_size rem a'.a_cmd.b_len
    let sent = record a' {
      a_cmd = record (a'.a_cmd) { b_offset = add_size a'.a_cmd.b_offset a'.a_cmd.b_len };
    }
    let next = send_loop fuel rem' (next_block rem' sent)
    if sw_class a'.a_sw 0x6C
        then again
        else if sw_goes_on a'.a_sw
        then (if ltb 0 rem' then next else pure (all_sent sent))
        else pure (refused a')

  unfoldable pub continue_loop : ℕ → Bool → Apdu → M C (Bool × Apdu)
  continue_loop zero gotok a = λ c. stuck
  continue_loop (suc fuel) gotok a =
      if more_reply a
      then (do
        let a' = continue_apdu a
        verify (ltb a'.a_reply.b_offset a'.a_reply.b_size)
        a'' ← piv_apdu_transceive scard_transmit pt_intxn a'
        continue_loop fuel (a.a_sw == sw_no_error || gotok) a'')
      else pure (gotok, a)

  unfoldable pub receive : ℕ → Sent → M C Apdu
  receive fuel (refused a) = pure a
  receive fuel (all_sent a) = do
    (gotok, a') ← continue_loop fuel false a
    pure (join_reply a.a_reply.b_offset gotok a')

  -- `fuel` bounds the exchanges of either loop.
  unfoldable pub piv_apdu_transceive_chain : ℕ → Apdu → M C Apdu
  piv_apdu_transceive_chain fuel a = do
    verify pt_intxn
    sent ← send_loop fuel a.a_cmd.b_len (next_block a.a_cmd.b_len a)
    receive fuel sent
