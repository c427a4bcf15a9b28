-- ===== src/Agent/Retries.antt =====
-- The agent does not use up the last retry of a PIN.
use pivy.Prelude.{
  ℕ, ◌%◌, ◌≤◌, ◌<◌, ◌≡◌, refl, ap, ◌∙◌, List, Bool, true, Option, some, lt→ltb, if◌then◌else◌,
  arith,
}
use pivy.Errf.{errf, no_error, errf_caused_by}
use pivy.Outcome.{ok, err}
use pivy.Apdu.{Apdu, sw_incorrect_pin, piv_apdu_make, cla_iso, ins_verify}
use pivy.Token.{pin_id, piv_token_default_auth}
use pivy.Pin.{piv_verify_pin}
use pivy.Pin.Contract.{chain_answer}
use pivy.Pin.Verify.{piv_verify_pin-MinRetries}
use pivy.Hex.{c_string}
use pivy.Agent.{Agent, drop_pin, wrap_pin_error, retries_of, wrapped, agent_piv_try_pin}

-- The agent without its PIN, after the card has said that `left` retries are left.
abbrev pub locked : {C : Type 0} → Agent C → C → ℕ → Agent C
locked s c left =
    drop_pin (record s { selk = record (s.selk) { p_card = c; p_retries = some left } })

module _ {C : Type 0} (scard_transmit : C → List ℕ → ℕ → Option (List ℕ) × C) (fuel : ℕ) where
  no_pin :
      (canskip : Bool) (s : Agent C)
      → s.pin_len ≡ 0
      → agent_piv_try_pin scard_transmit fuel canskip s ≡ ok tt s
  unfolding agent_piv_try_pin
  no_pin canskip s e = rw e refl

  -- A stored PIN is not tried when the card answers the empty VERIFY with 63Cx, x at most 1:
  -- `agent_piv_try_pin` ends with TokenLocked after that one exchange and forgets the PIN, and from
  -- then on it returns at once, with no exchange.
  pub try_pin-locked :
      (canskip : Bool) (s : Agent C) (a : Apdu) (c : C)
      → 0 < s.pin_len
      → s.selk.p_token.pt_intxn ≡ true
      → chain_answer scard_transmit fuel
          (record (s.selk) { p_retries = some 1 })
          (piv_apdu_make cla_iso ins_verify 0x00 (pin_id s.selk.p_token.pt_auth))
        ≡ ok a c
      → sw_incorrect_pin a.a_sw ≡ true
      → a.a_sw % 16 ≤ 1
      → (agent_piv_try_pin scard_transmit fuel canskip s
          ≡ err (errf "TokenLocked" (errf "MinRetriesError" no_error)) (locked s c (a.a_sw % 16)))
        × ((again : Bool)
            → agent_piv_try_pin scard_transmit fuel again (locked s c (a.a_sw % 16))
              ≡ ok tt (locked s c (a.a_sw % 16)))
  unfolding agent_piv_try_pin piv_token_default_auth
  try_pin-locked canskip s a c stored txn answer bad few =
      let asked =
        piv_verify_pin-MinRetries scard_transmit fuel s.selk.p_token.pt_auth (c_string s.pin)
          canskip 1 (record (s.selk) { p_retries = some 1 }) a c txn refl (omega arith) answer bad
          few in
      (
        ap
              (λ (b : Bool).
                if b
                then wrapped s (
                    piv_verify_pin scard_transmit fuel (piv_token_default_auth s.selk.p_token)
                      (some (c_string s.pin)) canskip (record (s.selk) { p_retries = some 1 }))
                else ok tt s)
              (lt→ltb 0 s.pin_len stored)
            ∙ ap (wrapped s) asked
            ∙ ends,
        λ again. no_pin again (locked s c (a.a_sw % 16)) cleared,
      )
    where
      ends :
          wrapped s (
            err
              (errf "MinRetriesError" no_error)
              (record (s.selk) { p_card = c; p_retries = some (a.a_sw % 16) }))
          ≡ err (errf "TokenLocked" (errf "MinRetriesError" no_error)) (locked s c (a.a_sw % 16))
      ends = unfold wrapped wrap_pin_error retries_of errf_caused_by in refl

      cleared : (locked s c (a.a_sw % 16)).pin_len ≡ 0
      cleared = unfold drop_pin in refl
