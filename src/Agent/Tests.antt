-- ===== src/Agent/Tests.antt =====
-- The PIN of the agent at concrete inputs.
use pivy.Prelude.{
  ℕ, ◌+◌, ◌%◌, ◌≤◌, List, [], ◌∷◌, Bool, true, false, Option, none, some, ◌≡◌, refl, arith,
}
use pivy.Errf.{errf, no_error}
use pivy.Outcome.{ok, err}
use pivy.Apdu.{
  Apdu, sw_incorrect_pin, piv_apdu_make, cla_iso, ins_verify, apdu_to_buffer, cmd_to_buffer,
  exchange, reply_buf, take_answer, finish_reply, store_at, piv_apdu_transceive,
}
use pivy.Apdu.Chain.{
  piv_apdu_transceive_chain, send_loop, next_block, receive, continue_loop, join_reply,
}
use pivy.Token.{pin_id}
use pivy.Pin.Contract.{chain_answer}
use pivy.Agent.{Agent, agent_piv_try_pin}
use pivy.Agent.Retries.{locked, try_pin-locked}
use pivy.Tests.{token}

-- A card that has one retry left, and counts the exchanges.
abbrev last_chance : ℕ → List ℕ → ℕ → Option (List ℕ) × ℕ
last_chance c cmd max = (some (0x63 ∷ (0xC1 ∷ [])), c + 1)

-- With the PIN "123456".
abbrev agent : Agent ℕ
agent = record {
  selk = record { p_card = 0; p_token = token; p_retries = none };
  pin = 49 ∷ (50 ∷ (51 ∷ (52 ∷ (53 ∷ (54 ∷ (0 ∷ []))))));
  pin_len = 6;
  card_probe_interval = 30;
}

one_left :
    (a : Apdu) × (c : ℕ) × (chain_answer last_chance 2
        (record (agent.selk) { p_retries = some 1 })
        (piv_apdu_make cla_iso ins_verify 0x00 (pin_id agent.selk.p_token.pt_auth))
      ≡ ok a c)
    × (sw_incorrect_pin a.a_sw ≡ true)
    × (a.a_sw % 16 ≤ 1)
unfolding piv_apdu_make piv_apdu_transceive_chain send_loop next_block receive piv_apdu_transceive
    apdu_to_buffer cmd_to_buffer exchange reply_buf take_answer finish_reply store_at continue_loop
    join_reply
one_left = (_, _, refl, refl, omega arith)

try_pin-locked_example :
    (agent_piv_try_pin last_chance 2 false agent
      ≡ err
          (errf "TokenLocked" (errf "MinRetriesError" no_error))
          (locked agent one_left.1 (one_left.0.a_sw % 16)))
    × ((again : Bool)
        → agent_piv_try_pin last_chance 2 again (locked agent one_left.1 (one_left.0.a_sw % 16))
          ≡ ok tt (locked agent one_left.1 (one_left.0.a_sw % 16)))
try_pin-locked_example =
    try_pin-locked last_chance 2 false agent one_left.0 one_left.1 (omega arith) refl one_left.2
      one_left.3 one_left.4
