-- ===== src/Apdu.antt =====
-- piv.c: ISO 7816 commands (`struct apdu`) and their exchange with a card.
pub mod Chain
pub mod Safe
pub mod Blocks
pub mod Send
use pivy.Prelude.{
  ℕ, suc, ◌+◌, ◌-◌, ◌*◌, ◌/◌, ◌%◌, ◌^◌, List, [], ◌∷◌, ◌++◌, Bool, true, false, ◌&&◌, ◌||◌, not,
  Option, none, some, String, length, take, drop, replicate, get_elem?, leb, ltb, ◌==◌,
  if◌then◌else◌, add_size, sub_size, bit_set,
}
use pivy.Errf.{Errf, errf, no_error}
use pivy.Outcome.{Outcome, ok, err, abort, fault, M, ◌>>=◌, ◌>>◌, pure, fail, verify}
use pivy.Tlv.{max_apdu_size, calloc}

-- `struct apdubuf`; a NULL `b_data` is `none`.
pub record ApduBuf : Type 0 where
  pub b_data : Option (List ℕ)
  pub b_size : ℕ
  pub b_offset : ℕ
  pub b_len : ℕ

abbrev pub empty_buf : ApduBuf
empty_buf = record { b_data = none; b_size = 0; b_offset = 0; b_len = 0 }

pub record Apdu : Type 0 where
  pub a_cls : ℕ
  pub a_ins : ℕ
  pub a_p1 : ℕ
  pub a_p2 : ℕ
  pub a_le : ℕ
  pub a_cmd : ApduBuf
  pub a_sw : ℕ
  pub a_reply : ApduBuf

-- `enum iso_class`, `enum iso_ins` and `enum iso_sw`.
abbrev pub cla_iso : ℕ
cla_iso = 0x00

abbrev pub ins_select : ℕ
ins_select = 0xA4

abbrev pub ins_get_data : ℕ
ins_get_data = 0xCB

abbrev pub ins_verify : ℕ
ins_verify = 0x20

abbrev pub ins_change_pin : ℕ
ins_change_pin = 0x24

abbrev pub ins_reset_pin : ℕ
ins_reset_pin = 0x2C

abbrev pub ins_gen_auth : ℕ
ins_gen_auth = 0x87

abbrev pub ins_put_data : ℕ
ins_put_data = 0xDB

abbrev pub ins_gen_asym : ℕ
ins_gen_asym = 0x47

abbrev pub ins_continue : ℕ
ins_continue = 0xC0

abbrev pub ins_set_mgmt : ℕ
ins_set_mgmt = 0xFF

abbrev pub ins_import_asym : ℕ
ins_import_asym = 0xFE

abbrev pub ins_get_ver : ℕ
ins_get_ver = 0xFD

abbrev pub ins_set_pin_retries : ℕ
ins_set_pin_retries = 0xFA

abbrev pub ins_reset : ℕ
ins_reset = 0xFB

abbrev pub ins_get_serial : ℕ
ins_get_serial = 0xF8

abbrev pub ins_attest : ℕ
ins_attest = 0xF9

abbrev pub sw_no_error : ℕ
sw_no_error = 0x9000

abbrev pub sw_func_not_supported : ℕ
sw_func_not_supported = 0x6A81

abbrev pub sw_conditions_not_satisfied : ℕ
sw_conditions_not_satisfied = 0x6985

abbrev pub sw_security_status_not_satisfied : ℕ
sw_security_status_not_satisfied = 0x6982

abbrev pub sw_file_not_found : ℕ
sw_file_not_found = 0x6A82

abbrev pub sw_wrong_data : ℕ
sw_wrong_data = 0x6A80

abbrev pub sw_out_of_memory : ℕ
sw_out_of_memory = 0x6A84

abbrev pub sw_wrong_length : ℕ
sw_wrong_length = 0x6700

abbrev pub sw_ins_not_sup : ℕ
sw_ins_not_sup = 0x6D00

abbrev pub sw_file_invalid : ℕ
sw_file_invalid = 0x6983

-- `(sw & 0xFF00) == hi << 8`, for SW_BYTES_REMAINING_00 (0x61), SW_WARNING_NO_CHANGE_00 (0x62),
-- SW_WARNING_00 (0x63), SW_CORRECT_LE_00 (0x6C) and SW_NO_ERROR (0x90); a status has 16 bits.
abbrev pub sw_class : ℕ → ℕ → Bool
sw_class sw hi = sw / 256 == hi

-- `(sw & 0xFFF0) == SW_INCORRECT_PIN`.
abbrev pub sw_incorrect_pin : ℕ → Bool
sw_incorrect_pin sw = sw / 16 == 0x63C

-- The macros of piv.c that make errors.
abbrev pub swerrf : Errf
swerrf = errf "APDUError" no_error

abbrev pub ioerrf : Errf → Errf
ioerrf cause = errf "IOError" cause

abbrev pub invderrf : Errf → Errf
invderrf cause = errf "InvalidDataError" cause

abbrev pub tagerrf : Errf
tagerrf = errf "PIVTagError" no_error

abbrev pub permerrf : Errf → Errf
permerrf cause = errf "PermissionError" cause

abbrev pub notsuperrf : Errf → Errf
notsuperrf cause = errf "NotSupportedError" cause

abbrev pub argerrf : Errf
argerrf = errf "ArgumentError" no_error

unfoldable pub piv_apdu_make : ℕ → ℕ → ℕ → ℕ → Apdu
piv_apdu_make cls ins p1 p2 = record {
  a_cls = cls;
  a_ins = ins;
  a_p1 = p1;
  a_p2 = p2;
  a_le = 0;
  a_cmd = empty_buf;
  a_sw = 0;
  a_reply = empty_buf;
}

unfoldable pub piv_apdu_set_cmd : List ℕ → ℕ → Apdu → Apdu
piv_apdu_set_cmd bytes len a = record a {
  a_cmd = record { b_data = some bytes; b_size = len; b_offset = 0; b_len = len };
}

-- `b_data + b_offset`, `b_len` bytes of it; `none` outside of the memory.
unfoldable pub slice : List ℕ → ℕ → ℕ → Option (List ℕ)
slice buf offset len =
    if leb (offset + len) (length buf) then some (take len (drop offset buf)) else none

-- `piv_apdu_get_reply`.
unfoldable pub piv_apdu_get_reply : {C : Type 0} → Apdu → M C (List ℕ)
piv_apdu_get_reply a c = elim a.a_reply.b_data [
  | none ↦ fault
  | some buf ↦ elim (slice buf a.a_reply.b_offset a.a_reply.b_len) [
    | none ↦ fault
    | some bytes ↦ ok bytes c
  ]
]

unfoldable pub ins_to_name : ℕ → String
ins_to_name ins =
    if ins == ins_select
    then "SELECT"
    else if ins == ins_get_data
    then "GET_DATA"
    else if ins == ins_verify
    then "VERIFY"
    else if ins == ins_change_pin
    then "CHANGE_PIN"
    else if ins == ins_reset_pin
    then "RESET_PIN"
    else if ins == ins_gen_auth
    then "GEN_AUTH"
    else if ins == ins_put_data
    then "PUT_DATA"
    else if ins == ins_gen_asym
    then "GEN_ASYM"
    else if ins == ins_continue
    then "CONTINUE"
    else if ins == ins_set_mgmt
    then "YKPIV_SET_MGMT"
    else if ins == ins_import_asym
    then "YKPIV_IMPORT_ASYM"
    else if ins == ins_get_ver
    then "YKPIV_GET_VER"
    else if ins == ins_set_pin_retries
    then "YKPIV_SET_PIN_RETRIES"
    else if ins == ins_attest
    then "YKPIV_ATTEST"
    else if ins == ins_get_serial
    then "YKPIV_GET_SERIAL"
    else if ins == ins_reset
    then "YKPIV_RESET"
    else "UNKNOWN"

unfoldable pub sw_to_name : ℕ → String
sw_to_name sw =
    if sw == sw_no_error
    then "NO_ERROR"
    else if sw == sw_func_not_supported
    then "FUNC_NOT_SUPPORTED"
    else if sw == sw_conditions_not_satisfied
    then "CONDITIONS_NOT_SATISFIED"
    else if sw == sw_security_status_not_satisfied
    then "SECURITY_STATUS_NOT_SATISFIED"
    else if sw == 0x6282
    then "WARNING_EOF"
    else if sw == sw_file_not_found
    then "FILE_NOT_FOUND"
    else if sw == 0x6A86
    then "INCORRECT_P1P2"
    else if sw == sw_wrong_data
    then "WRONG_DATA"
    else if sw == sw_out_of_memory
    then "OUT_OF_MEMORY"
    else if sw == sw_wrong_length
    then "WRONG_LENGTH"
    else if sw == sw_ins_not_sup
    then "INS_NOT_SUPPORTED"
    else if sw == sw_file_invalid
    then "FILE_INVALID"
    else if sw_class sw 0x61
    then "BYTES_REMAINING"
    else if sw_class sw 0x6C
    then "CORRECT_LE"
    else if sw_incorrect_pin sw
    then "INCORRECT_PIN"
    else if sw_class sw 0x62
    then "WARNING_NO_CHANGE"
    else if sw_class sw 0x63
    then "WARNING_UNKNOWN"
    else "UNKNOWN"

-- The bytes of `apdu_to_buffer` that a command with data has: `Lc`, the data, and `Le` unless more
-- blocks follow. The VERIFY is that of the function.
unfoldable pub data_to_buffer : {C : Type 0} → Apdu → List ℕ → M C (List ℕ)
data_to_buffer a bytes c =
    if ltb a.a_cmd.b_len 256 && ltb 0 a.a_cmd.b_len
    then elim (slice bytes a.a_cmd.b_offset a.a_cmd.b_len) [
      | none ↦ fault
      | some block ↦
          ok
            (a.a_cls
              ∷ a.a_ins
              ∷ a.a_p1
              ∷ a.a_p2
              ∷ a.a_cmd.b_len
              ∷ (block ++ (if bit_set a.a_cls 4 then [] else a.a_le ∷ [])))
            c
    ]
    else abort

unfoldable pub cmd_to_buffer : {C : Type 0} → Apdu → Option (List ℕ) → M C (List ℕ)
cmd_to_buffer a none = pure (a.a_cls ∷ a.a_ins ∷ a.a_p1 ∷ a.a_p2 ∷ a.a_le ∷ [])
cmd_to_buffer a (some bytes) = data_to_buffer a bytes

unfoldable pub apdu_to_buffer : {C : Type 0} → Apdu → M C (List ℕ)
unfolding cmd_to_buffer
apdu_to_buffer a = cmd_to_buffer a a.a_cmd.b_data

-- The reply buffer: what the caller set, or a new one of MAX_APDU_SIZE bytes.
unfoldable pub reply_buf : ApduBuf → ApduBuf
reply_buf r = elim r.b_data [
  | none ↦ record r { b_data = some (calloc max_apdu_size); b_size = max_apdu_size; b_offset = 0 }
  | some buf ↦ r
]

abbrev pub buf_bytes : ApduBuf → List ℕ
buf_bytes r = elim r.b_data [ none ↦ [] | some buf ↦ buf ]

-- `bytes` stored at `i`.
unfoldable pub store_at : List ℕ → ℕ → List ℕ → List ℕ
store_at buf i bytes = take i buf ++ (bytes ++ drop (i + length bytes) buf)

-- The reply in `r` after `bytes` were received: the last two of them are the status. The index of
-- the status is computed on `size_t`, as `recvLength -= 2` is.
unfoldable pub finish_reply : {C : Type 0} → Apdu → ApduBuf → List ℕ → M C Apdu
finish_reply a r bytes c =
    let buf = store_at (buf_bytes r) r.b_offset bytes in
    let len = sub_size (length bytes) 2 in
    let at = add_size r.b_offset len in
    elim (get_elem? buf at) [
      | none ↦ fault
      | some hi ↦ elim (get_elem? buf (add_size at 1)) [
        | none ↦ fault
        | some lo ↦
            ok
              (record a {
                a_sw = hi * 256 + lo;
                a_reply = record r { b_data = some buf; b_len = len };
              })
              c
      ]
    ]

unfoldable pub take_answer : {C : Type 0} → Apdu → ApduBuf → Option (List ℕ) → M C Apdu
take_answer a r none = fail (errf "PCSCError" no_error)
take_answer a r (some bytes) = finish_reply a r bytes

-- The card is not part of this code: `scard_transmit card cmd max` is `SCardTransmit`, whose answer
-- is `none` if it fails, and at most `max` bytes if it does not.
module _ {C : Type 0} (scard_transmit : C → List ℕ → ℕ → Option (List ℕ) × C) where
  unfoldable pub exchange : Apdu → List ℕ → M C Apdu
  exchange a cmd c =
      let r = reply_buf a.a_reply in
      let (answer, c') = scard_transmit c cmd (sub_size r.b_size r.b_offset) in
      take_answer a r answer c'

  -- `pt_intxn` is whether the token is in a transaction.
  unfoldable pub piv_apdu_transceive : Bool → Apdu → M C Apdu
  piv_apdu_transceive pt_intxn a = do verify pt_intxn; cmd ← apdu_to_buffer a; exchange a cmd
