-- ===== src/Pin/Verify.antt =====
-- `piv_verify_pin` of piv.c: when a PIN is tried, and what the result says of it.
use pivy.Prelude.{
  ℕ, ◌≡◌, ◌≤◌, ◌<◌, ◌%◌, refl, sym, ap, ◌∙◌, subst, List, Bool, true, false, ◌&&◌, ◌||◌, Option,
  none, some, Bool-cases, inl, inr, ◌⊎◌, ◌==◌, ltb, leb, le→leb, lt→ltb, if◌then◌else◌, arith,
}
use pivy.Errf.{Errf, errf, no_error}
use pivy.Outcome.{
  Outcome, ok, err, abort, fault, stuck, ◌>>=◌, bind-ok, bind-err, verify-true, bind-cong,
}
use pivy.Apdu.{
  Apdu, sw_no_error, sw_file_invalid, sw_incorrect_pin, sw_wrong_data, sw_wrong_length,
  piv_apdu_make, ins_verify, cla_iso, argerrf,
}
use pivy.Token.{PivPin, pin_id}
use pivy.Pin.{
  Piv, min_retries, Status, done, go_on, bad_length, data_apdu, on_card, transceive_chain,
  guard_status, query_status, verify_status, verify_answer, asks_first, try_pin, verify_rest,
  ask_status, first_status, piv_verify_pin,
}
use pivy.Outcome.Ends.{Ends, Ends-bind, Ends-fail_if, Ends-verify, Ends-weaken}
use pivy.Pin.Blocks.{pin_block, try_pin_lem}
use pivy.Pin.Contract.{Done, Answered, chain_answer}

or-true : (b : Bool) → (b || true) ≡ true
or-true true = refl
or-true false = refl

-- The guard of the retries: with a PIN, `min` retries asked for and no more than that left, the
-- answer is the error, and the caller reads how many are left.
guard-refuses :
    {C : Type 0} (canskip : Bool) (sw min : ℕ) (s : Piv C)
    → s.p_retries ≡ some min
    → 0 < min
    → sw_incorrect_pin sw ≡ true
    → sw % 16 ≤ min
    → guard_status canskip sw s
      ≡ err (errf "MinRetriesError" no_error) (record s { p_retries = some (sw % 16) })
unfolding guard_status
guard-refuses canskip sw min s r pos bad few =
    rw bad (rw (r, lt→ltb 0 min pos, le→leb _ _ few) refl)

module _ {C : Type 0} (scard_transmit : C → List ℕ → ℕ → Option (List ℕ) × C) (fuel : ℕ) where
  first_status-refuses :
      (type : PivPin) (pin : List ℕ) (canskip : Bool) (min : ℕ) (s : Piv C) (a : Apdu) (c : C)
      → s.p_retries ≡ some min
      → 0 < min
      → chain_answer scard_transmit fuel s (piv_apdu_make cla_iso ins_verify 0x00 (pin_id type))
        ≡ ok a c
      → sw_incorrect_pin a.a_sw ≡ true
      → a.a_sw % 16 ≤ min
      → first_status scard_transmit fuel type (some pin) canskip s
        ≡ err
            (errf "MinRetriesError" no_error)
            (record s { p_card = c; p_retries = some (a.a_sw % 16) })
  unfolding first_status ask_status asks_first verify_status transceive_chain on_card
  first_status-refuses type pin canskip min s a c r pos answer bad few =
      let asks : asks_first (some pin) canskip s ≡ true =
        rw (r, lt→ltb 0 min pos) (or-true canskip) in
      ap (λ b. if b then ask_status scard_transmit fuel type (some pin) canskip s else ok go_on s)
        asks
      ∙ bind-ok
          (transceive_chain scard_transmit fuel
            (piv_apdu_make cla_iso ins_verify 0x00 (pin_id type)))
          _ s a (record s { p_card = c }) (ap (on_card s) answer)
      ∙ guard-refuses canskip a.a_sw min (record s { p_card = c }) r pos bad few

  -- A PIN is not tried when that could use up the retries that the caller wants to keep: if the
  -- caller asks for `min` of them, and the card answers the empty VERIFY with 63Cx, x at most
  -- `min` (at `min` itself too), `piv_verify_pin` ends with MinRetriesError after that one exchange and reports x.
  pub piv_verify_pin-MinRetries :
      (type : PivPin) (pin : List ℕ) (canskip : Bool) (min : ℕ) (s : Piv C) (a : Apdu) (c : C)
      → s.p_token.pt_intxn ≡ true
      → s.p_retries ≡ some min
      → 0 < min
      → chain_answer scard_transmit fuel s (piv_apdu_make cla_iso ins_verify 0x00 (pin_id type))
        ≡ ok a c
      → sw_incorrect_pin a.a_sw ≡ true
      → a.a_sw % 16 ≤ min
      → piv_verify_pin scard_transmit fuel type (some pin) canskip s
        ≡ err
            (errf "MinRetriesError" no_error)
            (record s { p_card = c; p_retries = some (a.a_sw % 16) })
  unfolding piv_verify_pin
  piv_verify_pin-MinRetries type pin canskip min s a c txn r pos answer bad few =
      verify-true s.p_token.pt_intxn _ s txn
      ∙ bind-err (first_status scard_transmit fuel type (some pin) canskip) _ s _ _
          (first_status-refuses type pin canskip min s a c r pos answer bad few)

  -- The token is as it was.
  abbrev pub TokenKept : Piv C → Errf → Piv C → Type 0
  TokenKept s e s' = s'.p_token ≡ s.p_token

  -- The PIN is to be tried, with only the card changed.
  abbrev GoesOn : Piv C → Status → Piv C → Type 0
  GoesOn s st s' = (c : C) × (st ≡ go_on) × (s' ≡ record s { p_card = c })

  -- With `canskip` and the answer SW_NO_ERROR to the empty VERIFY, the PIN is not to be tried.
  abbrev pub Skips : Bool → Outcome C Apdu → Piv C → Piv C → Type 0
  Skips canskip answer s s' =
      (canskip ≡ true)
      × ((a : Apdu) × (c : C) × (answer ≡ ok a c)
          × (a.a_sw ≡ sw_no_error)
          × (s' ≡ record s { p_card = c }))

  abbrev Next : Bool → Outcome C Apdu → Piv C → Status → Piv C → Type 0
  Next canskip answer s st s' = GoesOn s st s' ⊎ ((st ≡ done) × Skips canskip answer s s')

  authed-Next :
      (canskip : Bool) (answer : Outcome C Apdu) (s : Piv C) (a : Apdu) (c : C)
      → answer ≡ ok a c
      → a.a_sw ≡ sw_no_error
      → Next canskip answer s (if canskip then done else go_on) (record s { p_card = c })
  authed-Next true answer s a c e good = inr (refl, (refl, (a, c, e, good, refl)))
  authed-Next false answer s a c e good = inl (c, refl, refl)

  guard-Next :
      (canskip : Bool) (answer : Outcome C Apdu) (s : Piv C) (a : Apdu) (c : C)
      → answer ≡ ok a c
      → Ends
          (Next canskip answer s)
          (TokenKept s)
          (guard_status canskip a.a_sw (record s { p_card = c }))
  unfolding guard_status
  guard-Next canskip answer s a c answered = elim (Bool-cases (sw_incorrect_pin a.a_sw)) [
    | inl e ↦
        elim (Bool-cases
          (ltb 0 (min_retries s.p_retries) && leb (a.a_sw % 16) (min_retries s.p_retries))) [
            | inl few ↦ rw (e, few) refl
            | inr few ↦ rw (e, few) (inl (c, refl, refl))
          ]
    | inr e ↦ elim (Bool-cases (a.a_sw == sw_wrong_length || a.a_sw == sw_wrong_data)) [
      | inl w ↦ rw (e, w) (inl (c, refl, refl))
      | inr w ↦ elim (Bool-cases (a.a_sw == sw_no_error)) [
        | inl n ↦ rw (e, w, n) (authed-Next canskip answer s a c answered (ground (arith, n)))
        | inr n ↦ rw (e, w, n) refl
      ]
    ]
  ]

  chain-TokenKept :
      (s : Piv C) (a : Apdu)
      → Ends
          (Answered (chain_answer scard_transmit fuel s a) s)
          (TokenKept s)
          (transceive_chain scard_transmit fuel a s)
  unfolding transceive_chain on_card
  chain-TokenKept s a = go (chain_answer scard_transmit fuel s a)
    where
      go : (answer : Outcome C Apdu) → Ends (Answered answer s) (TokenKept s) (on_card s answer)
      go (ok a c) = (c, refl, refl)
      go (err e c) = refl
      go abort = tt
      go fault = tt
      go stuck = tt

  -- The answer of the card to the empty VERIFY, in the state `s`.
  abbrev pub empty_answer : PivPin → Piv C → Outcome C Apdu
  empty_answer type s =
      chain_answer scard_transmit fuel s (piv_apdu_make cla_iso ins_verify 0x00 (pin_id type))

  first_status-Next :
      (type : PivPin) (pin : List ℕ) (canskip : Bool) (s : Piv C)
      → Ends
          (Next canskip (empty_answer type s) s)
          (TokenKept s)
          (first_status scard_transmit fuel type (some pin) canskip s)
  unfolding first_status ask_status verify_status
  first_status-Next type pin canskip s = elim (Bool-cases (asks_first (some pin) canskip s)) [
    | inr straight ↦ rw straight (inl (s.p_card, refl, refl))
    | inl asks ↦
        let a = piv_apdu_make cla_iso ins_verify 0x00 (pin_id type) in
        rw asks (
          Ends-bind (Answered (empty_answer type s) s) (Next canskip (empty_answer type s) s)
            (TokenKept s) (transceive_chain scard_transmit fuel a)
            (λ a. guard_status canskip a.a_sw) s (chain-TokenKept s a)
            λ a s' (c, e, left).
              subst
                (λ (t : Piv C).
                  Ends (Next canskip (empty_answer type s) s) (TokenKept s)
                    (guard_status canskip a.a_sw t))
                (sym left) (guard-Next canskip (empty_answer type s) s a c e))
  ]

  -- The VERIFY with the PIN, sent in a state `s₁`, was answered with SW_NO_ERROR.
  abbrev pub PinAccepted : PivPin → List ℕ → Piv C → Piv C → Type 0
  PinAccepted type pin s s' =
      (c : C) × Done
        (chain_answer scard_transmit fuel (record s { p_card = c })
          (data_apdu ins_verify 0x00 (pin_id type) (pin_block pin)))
        (record s { p_card = c }) s'

  answer-Done :
      (s : Piv C) (answer : Outcome C Apdu) (a : Apdu) (s' : Piv C)
      → Answered answer s a s'
      → Ends
          (λ (_ : Unit {0}) (s'' : Piv C). Done answer s s'')
          (TokenKept s)
          (verify_answer a.a_sw s')
  unfolding verify_answer
  answer-Done s answer a s' (c, e, left) = elim (Bool-cases (a.a_sw == sw_no_error)) [
    | inl same ↦ rw same (a, c, e, ground (arith, same), rw left refl)
    | inr other ↦ elim (Bool-cases (a.a_sw == sw_file_invalid)) [
      | inl blocked ↦ rw (other, blocked) (ap (λ (t : Piv C). t.p_token) left)
      | inr free ↦ elim (Bool-cases (sw_incorrect_pin a.a_sw)) [
        | inl bad ↦ rw (other, free, bad) (ap (λ (t : Piv C). t.p_token) left)
        | inr good ↦ rw (other, free, good) (ap (λ (t : Piv C). t.p_token) left)
      ]
    ]
  ]

  try_pin-Done :
      (type : PivPin) (pin : List ℕ) (s : Piv C)
      → Ends
          (λ (_ : Unit {0}) (s' : Piv C).
            Done
              (chain_answer scard_transmit fuel s
                (data_apdu ins_verify 0x00 (pin_id type) (pin_block pin)))
              s
              s')
          (TokenKept s)
          (try_pin scard_transmit fuel type pin s)
  try_pin-Done type pin s =
      subst (Ends _ (TokenKept s)) (sym (try_pin_lem scard_transmit fuel type pin s)) (
        Ends-fail_if _ _ (bad_length pin) argerrf _ s refl (
          let a = data_apdu ins_verify 0x00 (pin_id type) (pin_block pin) in
          Ends-bind (Answered (chain_answer scard_transmit fuel s a) s)
            (λ (_ : Unit {0}) (s' : Piv C). Done (chain_answer scard_transmit fuel s a) s s')
            (TokenKept s) (transceive_chain scard_transmit fuel a) (λ a. verify_answer a.a_sw) s
            (chain-TokenKept s a) (answer-Done s (chain_answer scard_transmit fuel s a))))

  -- The PIN was accepted, or was not needed.
  abbrev pub Proved : PivPin → List ℕ → Bool → Piv C → Unit {0} → Piv C → Type 0
  Proved type pin canskip s u s' =
      PinAccepted type pin s s' ⊎ Skips canskip (empty_answer type s) s s'

  tries-Proved :
      (type : PivPin) (pin : List ℕ) (canskip : Bool) (s : Piv C) (st : Status) (s' : Piv C)
      → Next canskip (empty_answer type s) s st s'
      → Ends
          (Proved type pin canskip s)
          (TokenKept s)
          (verify_rest scard_transmit fuel type (some pin) st s')
  unfolding verify_rest
  tries-Proved type pin canskip s done s' (inl (c, e, left)) = absurd (ground arith)
  tries-Proved type pin canskip s done s' (inr (e, skips)) = inr skips
  tries-Proved type pin canskip s go_on s' (inr (e, skips)) = absurd (ground arith)
  tries-Proved type pin canskip s go_on s' (inl (c, e, left)) =
      subst
        (λ (t : Piv C).
          Ends (Proved type pin canskip s) (TokenKept s) (try_pin scard_transmit fuel type pin t))
        (sym left)
        (Ends-weaken
          (λ (_ : Unit {0}) (s'' : Piv C).
            Done
              (chain_answer scard_transmit fuel (record s { p_card = c })
                (data_apdu ins_verify 0x00 (pin_id type) (pin_block pin)))
              (record s { p_card = c }) s'')
          (Proved type pin canskip s) (TokenKept s) _
          (try_pin-Done type pin (record s { p_card = c })) (λ u s'' h. inl (c, h)))

  -- With a PIN, `piv_verify_pin` succeeds only if the card answered SW_NO_ERROR to the VERIFY that
  -- carries the PIN, and then it marks the token for a reset; or, with `canskip` alone, if the card
  -- answered SW_NO_ERROR to the empty VERIFY, and then only the card has changed. An error leaves
  -- the token as it was.
  pub piv_verify_pin-PinAccepted :
      (type : PivPin) (pin : List ℕ) (canskip : Bool) (s : Piv C)
      → Ends
          (Proved type pin canskip s)
          (TokenKept s)
          (piv_verify_pin scard_transmit fuel type (some pin) canskip s)
  unfolding piv_verify_pin
  piv_verify_pin-PinAccepted type pin canskip s = Ends-verify _ _ s.p_token.pt_intxn _ s (
      Ends-bind (Next canskip (empty_answer type s) s) (Proved type pin canskip s) (TokenKept s)
        (first_status scard_transmit fuel type (some pin) canskip) _ s
        (first_status-Next type pin canskip s) (tries-Proved type pin canskip s))

  -- One exchange, which returned with or without an error, and the token as it was.
  abbrev pub OneExchange : Piv C → C → Outcome (Piv C) (Unit {0}) → Type 0
  OneExchange s c o =
      (s' : Piv C) × ((o ≡ ok tt s') ⊎ ((e : Errf) × (o ≡ err e s')))
      × (s'.p_card ≡ c)
      × (s'.p_token ≡ s.p_token)

  query-OneExchange :
      (type : PivPin) (sw : ℕ) (s : Piv C)
      → OneExchange s s.p_card ((query_status sw >>= verify_rest scard_transmit fuel type none) s)
  unfolding query_status verify_rest
  query-OneExchange type sw s = elim (Bool-cases (sw_incorrect_pin sw)) [
    | inl e ↦ rw e (_, inl refl, refl, refl)
    | inr e ↦ elim (Bool-cases (sw == sw_wrong_length || sw == sw_wrong_data)) [
      | inl w ↦ rw (e, w) (_, inr (_, refl), refl, refl)
      | inr w ↦ elim (Bool-cases (sw == sw_no_error)) [
        | inl n ↦ rw (e, w, n) (_, inl refl, refl, refl)
        | inr n ↦ rw (e, w, n) (_, inr (_, refl), refl, refl)
      ]
    ]
  ]

  -- Without a PIN, in a transaction and with a card that answers the empty VERIFY, `piv_verify_pin`
  -- returns after that one exchange: `VERIFY(pin != NULL)` holds, and the token stays as it was.
  pub piv_verify_pin-OneExchange :
      (type : PivPin) (canskip : Bool) (s : Piv C) (a : Apdu) (c : C)
      → s.p_token.pt_intxn ≡ true
      → chain_answer scard_transmit fuel s (piv_apdu_make cla_iso ins_verify 0x00 (pin_id type))
        ≡ ok a c
      → OneExchange s c (piv_verify_pin scard_transmit fuel type none canskip s)
  unfolding piv_verify_pin first_status asks_first ask_status verify_status transceive_chain
  piv_verify_pin-OneExchange type canskip s a c txn answer =
      subst (λ (o : Outcome (Piv C) (Unit {0})). OneExchange s c o)
        (sym (
          verify-true s.p_token.pt_intxn _ s txn
          ∙ bind-cong (first_status scard_transmit fuel type none canskip) (query_status a.a_sw)
              (verify_rest scard_transmit fuel type none) s (record s { p_card = c }) first))
        (query-OneExchange type a.a_sw (record s { p_card = c }))
    where
      first :
          (first_status scard_transmit fuel type none canskip) s
          ≡ query_status a.a_sw (record s { p_card = c })
      first =
          bind-ok
            (transceive_chain scard_transmit fuel
              (piv_apdu_make cla_iso ins_verify 0x00 (pin_id type)))
            _ s a (record s { p_card = c }) (unfold on_card in ap (on_card s) answer)
