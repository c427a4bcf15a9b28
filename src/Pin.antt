-- ===== src/Pin.antt =====
-- piv.c: the commands that prove or change a PIN, and the YubicoPIV administration commands.
pub mod Blocks
pub mod Contract
pub mod Verify
pub mod Safe
pub mod Send
use pivy.Prelude.{
  ℕ, zero, suc, set, ◌+◌, ◌-◌, ◌/◌, ◌%◌, List, [], ◌∷◌, ◌++◌, Bool, true, false, ◌&&◌, ◌||◌, not,
  Option, none, some, length, take, replicate, leb, ltb, ◌==◌, if◌then◌else◌, low_bits,
}
use pivy.Errf.{Errf, errf, no_error}
use pivy.Outcome.{
  Outcome, ok, err, abort, fault, stuck, M, ◌>>=◌, ◌>>◌, pure, fail, verify, fail_if,
}
use pivy.Apdu.{
  ApduBuf, Apdu, piv_apdu_make, piv_apdu_transceive, cla_iso, ins_verify, ins_change_pin,
  ins_reset_pin, ins_reset, ins_set_pin_retries, ins_set_mgmt, sw_no_error, sw_file_invalid,
  sw_wrong_length, sw_wrong_data, sw_security_status_not_satisfied, sw_conditions_not_satisfied,
  sw_ins_not_sup, sw_incorrect_pin, swerrf, ioerrf, permerrf, notsuperrf, argerrf,
}
use pivy.Apdu.Chain.{piv_apdu_transceive_chain}
use pivy.Token.{PivToken, PivPin, pin_id}

-- What a command works on: the card, the token, and what the `retries` of the caller points to
-- (`none` if it is NULL).
pub record Piv (C : Type 0) : Type 0 where
  pub p_card : C
  pub p_token : PivToken
  pub p_retries : Option ℕ

-- A C string is the characters before its NUL: what `str[k]` is.
pub data CharAt : Type 0 where
  char : ℕ → CharAt
  nul outside : CharAt

unfoldable pub char_at : List ℕ → ℕ → CharAt
char_at [] zero = nul
char_at [] (suc k) = outside
char_at (c ∷ str) zero = char c
char_at (c ∷ str) (suc k) = char_at str k

-- `pinbuf[i] = c`.
unfoldable pub store_pin_char : {S : Type 0} → List ℕ → ℕ → ℕ → M S (List ℕ)
store_pin_char buf i c s = if ltb i (length buf) then ok (set buf i c) s else fault

-- `for (i = from; i < from + 8 && str[i - from] != 0; ++i) pinbuf[i] = str[i - from]`, where `k` is
-- `i - from` and `n` rounds are left: the last `k`, and the buffer.
unfoldable pub copy_loop : {S : Type 0} → List ℕ → ℕ → ℕ → ℕ → List ℕ → M S (ℕ × List ℕ)
copy_loop str from k zero buf = pure (k, buf)
copy_loop str from k (suc n) buf = elim (char_at str k) [
  | char c ↦ (store_pin_char buf (from + k) c >>= λ buf'. copy_loop str from (suc k) n buf')
  | nul ↦ pure (k, buf)
  | outside ↦ (λ s. fault)
]

-- `VERIFY(str[k] == 0)`.
unfoldable pub verify_nul : {S : Type 0} → List ℕ → ℕ → M S (Unit {0})
verify_nul str k = elim (char_at str k) [
  | char c ↦ (λ s. abort)
  | nul ↦ pure tt
  | outside ↦ (λ s. fault)
]

unfoldable pub copy_pin : {S : Type 0} → List ℕ → ℕ → List ℕ → M S (List ℕ)
copy_pin str from buf = do (k, buf') ← copy_loop str from 0 8 buf; verify_nul str k; pure buf'

-- `pinbuf[8]` with one PIN, and `pinbuf[16]` with two of them.
unfoldable pub one_pin : {S : Type 0} → List ℕ → M S (List ℕ)
one_pin pin = copy_pin pin 0 (replicate 8 0xFF)

unfoldable pub two_pins : {S : Type 0} → List ℕ → List ℕ → M S (List ℕ)
two_pins pin newpin = do buf ← copy_pin pin 0 (replicate 16 0xFF); copy_pin newpin 8 buf

abbrev pub bad_length : List ℕ → Bool
bad_length pin = ltb (length pin) 1 || ltb 8 (length pin)

-- `piv_apdu_make` with the memory `bytes` for its data.
abbrev pub data_apdu : ℕ → ℕ → ℕ → List ℕ → Apdu
data_apdu ins p1 p2 bytes =
    let a = piv_apdu_make cla_iso ins p1 p2 in
    record a { a_cmd = record (a.a_cmd) { b_data = some bytes; b_len = length bytes } }

-- An exchange, seen from the token: an error is an IOError.
unfoldable pub on_card : {C A : Type 0} → Piv C → Outcome C A → Outcome (Piv C) A
on_card s (ok a c) = ok a (record s { p_card = c })
on_card s (err e c) = err (ioerrf e) (record s { p_card = c })
on_card s abort = abort
on_card s fault = fault
on_card s stuck = stuck

abbrev pub set_retries : {C : Type 0} → ℕ → M (Piv C) (Unit {0})
set_retries n s =
    ok tt (record s { p_retries = elim s.p_retries [ none ↦ none | some old ↦ some n ] })

-- `pt->pt_reset = B_TRUE`: the card is reset at the end of the transaction.
abbrev pub set_reset : {C : Type 0} → M (Piv C) (Unit {0})
set_reset s = ok tt (record s { p_token = record (s.p_token) { pt_reset = true } })

abbrev pub intxn : {C : Type 0} → M (Piv C) (Unit {0})
intxn s = verify s.p_token.pt_intxn s

abbrev pub need_ykpiv : {C : Type 0} → M (Piv C) (Unit {0})
need_ykpiv s = fail_if (not s.p_token.pt_ykpiv) argerrf s

-- The errors that a status other than SW_NO_ERROR stands for.
unfoldable pub change_pin_error : ℕ → Errf
change_pin_error sw = if sw_incorrect_pin sw then permerrf swerrf else swerrf

unfoldable pub reset_pin_error : ℕ → Errf
reset_pin_error sw =
    if sw_incorrect_pin sw
    then permerrf swerrf
    else if sw == sw_file_invalid
    then permerrf swerrf
    else swerrf

unfoldable pub reset_error : ℕ → Errf
reset_error sw =
    if sw == sw_security_status_not_satisfied
    then permerrf swerrf
    else if sw == sw_conditions_not_satisfied
    then errf "ResetConditionsError" swerrf
    else if sw == sw_ins_not_sup
    then notsuperrf swerrf
    else swerrf

unfoldable pub admin_error : ℕ → Errf
admin_error sw =
    if sw == sw_security_status_not_satisfied
    then permerrf swerrf
    else if sw == sw_ins_not_sup
    then notsuperrf swerrf
    else swerrf

-- The end of each of these commands: the token is to be reset if the card did what it was told.
unfoldable pub finish_command : {C : Type 0} → (ℕ → Errf) → Apdu → M (Piv C) (Unit {0})
finish_command error a = if a.a_sw == sw_no_error then set_reset else fail (error a.a_sw)

-- The `touchpolicy` of `ykpiv_set_admin` as the P2 of its command.
unfoldable pub touch_p2 : ℕ → Option ℕ
touch_p2 policy =
    if policy == 0x00 || policy == 0x01
    then some 0xFF
    else if policy == 0x02
    then some 0xFE
    else none

-- What `piv_verify_pin` does after an empty VERIFY: it returns, with or without an error, or tries the PIN.
pub data Status : Type 0 where
  done : Status
  go_on : Status

-- The retries that the caller wants to keep, if it gave some.
abbrev pub min_retries : Option ℕ → ℕ
min_retries none = 0
min_retries (some n) = n

-- The answer to an empty VERIFY, without a PIN and with one.
unfoldable pub query_status : {C : Type 0} → ℕ → M (Piv C) Status
query_status sw =
    if sw_incorrect_pin sw
    then (set_retries (sw % 16) >> pure done)
    else if sw == sw_wrong_length || sw == sw_wrong_data
    then fail (notsuperrf swerrf)
    else if sw == sw_no_error
    then pure done
    else fail swerrf

unfoldable pub guard_status : {C : Type 0} → Bool → ℕ → M (Piv C) Status
guard_status canskip sw s =
    if sw_incorrect_pin sw
    then (if ltb 0 (min_retries s.p_retries) && leb (sw % 16) (min_retries s.p_retries)
        then (set_retries (sw % 16) >> fail (errf "MinRetriesError" no_error)) s
        else ok go_on s)
    else if sw == sw_wrong_length || sw == sw_wrong_data
    then ok go_on s
    else if sw == sw_no_error
    then ok (if canskip then done else go_on) s
    else err swerrf s

unfoldable pub verify_status : {C : Type 0} → Option (List ℕ) → Bool → ℕ → M (Piv C) Status
verify_status none canskip sw = query_status sw
verify_status (some pin) canskip sw = guard_status canskip sw

-- The answer to a VERIFY with a PIN.
unfoldable pub verify_answer : {C : Type 0} → ℕ → M (Piv C) (Unit {0})
verify_answer sw =
    if sw == sw_no_error
    then set_reset
    else if sw == sw_file_invalid
    then (set_retries 0 >> fail (permerrf swerrf))
    else if sw_incorrect_pin sw
    then (set_retries (sw % 16) >> fail (permerrf swerrf))
    else fail swerrf

-- `pin == NULL || canskip || (retries != NULL && *retries > 0)`.
unfoldable pub asks_first : {C : Type 0} → Option (List ℕ) → Bool → Piv C → Bool
asks_first none canskip s = true
asks_first (some pin) canskip s = canskip || ltb 0 (min_retries s.p_retries)

module _ {C : Type 0} (scard_transmit : C → List ℕ → ℕ → Option (List ℕ) × C) (fuel : ℕ) where
  unfoldable pub transceive_chain : Apdu → M (Piv C) Apdu
  transceive_chain a s =
      on_card s (piv_apdu_transceive_chain scard_transmit s.p_token.pt_intxn fuel a s.p_card)

  unfoldable pub transceive : Apdu → M (Piv C) Apdu
  transceive a s = on_card s (piv_apdu_transceive scard_transmit s.p_token.pt_intxn a s.p_card)

  -- The strings are not NULL.
  unfoldable pub piv_change_pin : PivPin → List ℕ → List ℕ → M (Piv C) (Unit {0})
  piv_change_pin type pin newpin = do
    intxn
    fail_if (bad_length pin) argerrf
    fail_if (bad_length newpin) argerrf
    pinbuf ← two_pins pin newpin
    a ← transceive_chain (data_apdu ins_change_pin 0x00 (pin_id type) pinbuf)
    finish_command change_pin_error a

  unfoldable pub piv_reset_pin : PivPin → List ℕ → List ℕ → M (Piv C) (Unit {0})
  piv_reset_pin type puk newpin = do
    intxn
    fail_if (bad_length puk) argerrf
    fail_if (bad_length newpin) argerrf
    pinbuf ← two_pins puk newpin
    a ← transceive_chain (data_apdu ins_reset_pin 0x00 (pin_id type) pinbuf)
    finish_command reset_pin_error a

  unfoldable pub ykpiv_reset : M (Piv C) (Unit {0})
  ykpiv_reset = do
    intxn
    need_ykpiv
    a ← transceive (piv_apdu_make cla_iso ins_reset 0 0)
    finish_command reset_error a

  unfoldable pub ykpiv_set_pin_retries : ℕ → ℕ → M (Piv C) (Unit {0})
  ykpiv_set_pin_retries pintries puktries = do
    intxn
    need_ykpiv
    a ←
        transceive_chain
          (piv_apdu_make cla_iso ins_set_pin_retries (low_bits pintries 8) (low_bits puktries 8))
    finish_command admin_error a

  unfoldable pub set_admin : Option ℕ → List ℕ → M (Piv C) (Unit {0})
  set_admin none key = fail argerrf
  set_admin (some p2) key = do
    a ← transceive_chain (data_apdu ins_set_mgmt 0xFF p2 (0x03 ∷ 0x9B ∷ length key % 256 ∷ key))
    finish_command admin_error a

  unfoldable pub ykpiv_set_admin : List ℕ → ℕ → M (Piv C) (Unit {0})
  ykpiv_set_admin key touchpolicy = do intxn; need_ykpiv; set_admin (touch_p2 touchpolicy) key

  -- The VERIFY with a PIN.
  unfoldable pub try_pin : PivPin → List ℕ → M (Piv C) (Unit {0})
  try_pin type pin = do
    fail_if (bad_length pin) argerrf
    pinbuf ← one_pin pin
    a ← transceive_chain (data_apdu ins_verify 0x00 (pin_id type) pinbuf)
    verify_answer a.a_sw

  -- `VERIFY(pin != NULL)` and what follows it.
  unfoldable pub verify_rest : PivPin → Option (List ℕ) → Status → M (Piv C) (Unit {0})
  verify_rest type pin done = pure tt
  verify_rest type none go_on = λ s. abort
  verify_rest type (some pin) go_on = try_pin type pin

  -- The empty VERIFY.
  unfoldable pub ask_status : PivPin → Option (List ℕ) → Bool → M (Piv C) Status
  ask_status type pin canskip = do
    a ← transceive_chain (piv_apdu_make cla_iso ins_verify 0x00 (pin_id type))
    verify_status pin canskip a.a_sw

  unfoldable pub first_status : PivPin → Option (List ℕ) → Bool → M (Piv C) Status
  first_status type pin canskip s =
      if asks_first pin canskip s then ask_status type pin canskip s else ok go_on s

  unfoldable pub piv_verify_pin : PivPin → Option (List ℕ) → Bool → M (Piv C) (Unit {0})
  piv_verify_pin type pin canskip = do
    intxn
    status ← first_status type pin canskip
    verify_rest type pin status
