-- ===== src/Agent.antt =====
-- pivy-agent.c: the PIN that the agent keeps.
pub mod Retries
pub mod Tests
use pivy.Prelude.{
  ℕ, ◌++◌, List, Bool, true, false, Option, some, replicate, drop, ltb, ◌==◌, if◌then◌else◌,
}
use pivy.Errf.{Errf, errf, errf_caused_by}
use pivy.Outcome.{Outcome, M, ok, err, abort, fault, stuck}
use pivy.Token.{piv_token_default_auth}
use pivy.Pin.{Piv, piv_verify_pin}
use pivy.Hex.{c_string}

-- The variables of the agent that have to do with its PIN: the token `selk`, and `pin`, `pin_len`
-- and `card_probe_interval`.
pub record Agent (C : Type 0) : Type 0 where
  pub selk : Piv C
  pub pin : List ℕ
  pub pin_len : ℕ
  pub card_probe_interval : ℕ

abbrev pub card_probe_interval_nopin : ℕ
card_probe_interval_nopin = 120

-- `explicit_bzero(pin, pin_len)`.
unfoldable pub bzero_pin : List ℕ → ℕ → List ℕ
bzero_pin pin n = replicate n 0 ++ drop n pin

unfoldable pub drop_pin : {C : Type 0} → Agent C → Agent C
drop_pin s = record s {
  pin = if ltb 0 s.pin_len then bzero_pin s.pin s.pin_len else s.pin;
  pin_len = 0;
  card_probe_interval = card_probe_interval_nopin;
}

-- It gives back the error that it is given, or a new one around it.
unfoldable pub wrap_pin_error : {C : Type 0} → Errf → ℕ → Agent C → Errf × Agent C
wrap_pin_error e retries s =
    if errf_caused_by e "PermissionError"
    then (if retries == 0 then (errf "TokenLocked" e, s) else (errf "InvalidPIN" e, drop_pin s))
    else if errf_caused_by e "MinRetriesError"
    then (errf "TokenLocked" e, drop_pin s)
    else (e, s)

-- What the local variable `retries` holds after the call that was given its address.
unfoldable pub retries_of : {C : Type 0} → Piv C → ℕ
retries_of p = elim p.p_retries [ Option.none ↦ 1 | some n ↦ n ]

-- The end of `agent_piv_try_pin`, from what `piv_verify_pin` did.
unfoldable pub wrapped :
    {C : Type 0} → Agent C → Outcome (Piv C) (Unit {0}) → Outcome (Agent C) (Unit {0})
wrapped s (ok u p) = ok tt (record s { selk = p })
wrapped s (err e p) =
    (let r = wrap_pin_error e (retries_of p) (record s { selk = p }) in err r.0 r.1)
wrapped s abort = abort
wrapped s fault = fault
wrapped s stuck = stuck

module _ {C : Type 0} (scard_transmit : C → List ℕ → ℕ → Option (List ℕ) × C) (fuel : ℕ) where
  -- With a `retries` of 1.
  unfoldable pub agent_piv_try_pin : Bool → M (Agent C) (Unit {0})
  agent_piv_try_pin canskip s =
      if ltb 0 s.pin_len
      then wrapped s (
          piv_verify_pin scard_transmit fuel (piv_token_default_auth s.selk.p_token)
            (some (c_string s.pin)) canskip (record (s.selk) { p_retries = some 1 }))
      else ok tt s
