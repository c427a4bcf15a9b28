-- ===== src/Objects.antt =====
-- piv.c: the data objects that are read from and written to a card.
pub mod Rounds
pub mod Discov
use pivy.Prelude.{
  ℕ, zero, suc, ◌+◌, ◌*◌, ◌-◌, ◌/◌, ◌%◌, ◌^◌, List, [], ◌∷◌, Bool, true, false, ◌&&◌, ◌||◌, not,
  Option, none, some, length, take, get_elem?, ltb, leb, ◌==◌, if◌then◌else◌, low_bits, bit_set,
}
use pivy.Errf.{Errf, errf, no_error}
use pivy.Outcome.{Outcome, ok, err, abort, fault, stuck, M, ◌>>=◌, ◌>>◌, pure, fail, fail_if, get}
use pivy.Tlv.{TlvState, Tlv, tlv_init, tlv_init_write, tlv_len, tlv_rem, tlv_at_end}
use pivy.Tlv.Read.{
  tlv_read_tag, tlv_end, tlv_skip, tlv_abort, tlv_read_u8to32, tlv_read_string, tlv_read_alloc,
}
use pivy.Tlv.Write.{tlv_push, tlv_pushl, tlv_write, tlv_write_u8to32, tlv_pop, tlv_free}
use pivy.Apdu.{
  ApduBuf, Apdu, slice, piv_apdu_make, cla_iso, ins_get_data, ins_put_data, ins_get_ver,
  ins_get_serial, sw_no_error, sw_file_not_found, sw_wrong_data, sw_func_not_supported,
  sw_security_status_not_satisfied, sw_out_of_memory, sw_class, swerrf, invderrf, tagerrf, permerrf,
  notsuperrf,
}
use pivy.Token.{PivToken, PivPin, piv_pin, piv_global_pin, piv_occ}
use pivy.Pin.{Piv, intxn, transceive_chain}

-- The first `n` bytes of the reply.
unfoldable pub reply_head : {S : Type 0} → ℕ → Apdu → M S (List ℕ)
reply_head n a s = elim a.a_reply.b_data [
  | none ↦ fault
  | some buf ↦ elim (slice buf a.a_reply.b_offset n) [ none ↦ fault | some bytes ↦ ok bytes s ]
]

-- `pt_ykver` and `pt_ykserial` from the bytes of a reply.
unfoldable pub store_version : {C : Type 0} → List ℕ → M (Piv C) (Unit {0})
store_version (v0 ∷ v1 ∷ v2 ∷ []) s =
    ok tt (record s { p_token = record (s.p_token) { pt_ykpiv = true; pt_ykver = (v0, v1, v2) } })
store_version other s = fault

unfoldable pub store_serial : {C : Type 0} → List ℕ → M (Piv C) (Unit {0})
store_serial (b0 ∷ b1 ∷ b2 ∷ b3 ∷ []) s = ok tt (record s {
  p_token = record (s.p_token) {
    pt_ykserial_valid = true;
    pt_ykserial = b3 + b2 * 2 ^ 8 + b1 * 2 ^ 16 + b0 * 2 ^ 24;
  };
})
store_serial other s = fault

unfoldable pub take_version : {C : Type 0} → Apdu → M (Piv C) (Unit {0})
take_version a =
    if a.a_sw == sw_no_error
    then (do
      fail_if (ltb a.a_reply.b_len 3) (notsuperrf no_error)
      bytes ← reply_head 3 a
      store_version bytes)
    else fail (notsuperrf swerrf)

unfoldable pub take_serial : {C : Type 0} → Apdu → M (Piv C) (Unit {0})
take_serial a =
    if a.a_sw == sw_no_error
    then (do
      fail_if (ltb a.a_reply.b_len 4) (notsuperrf no_error)
      bytes ← reply_head 4 a
      store_serial bytes)
    else fail (notsuperrf swerrf)

-- A parse works on the reply and on the token, which keeps what was read before an error.
pub record Parse : Type 0 where
  pub p_tlv : TlvState
  pub p_tk : PivToken

unfoldable pub on_reply : {A : Type 0} → PivToken → Outcome TlvState A → Outcome Parse A
on_reply tk (ok a ts) = ok a (record { p_tlv = ts; p_tk = tk })
on_reply tk (err e ts) = err e (record { p_tlv = ts; p_tk = tk })
on_reply tk abort = abort
on_reply tk fault = fault
on_reply tk stuck = stuck

unfoldable pub tlv : {A : Type 0} → Tlv A → M Parse A
tlv m p = on_reply p.p_tk (m p.p_tlv)

unfoldable pub update : (PivToken → PivToken) → M Parse (Unit {0})
update f p = ok tt (record p { p_tk = f p.p_tk })

-- One tag of the key history object; the numbers of keys are stored as `uint8_t`.
unfoldable pub keyhist_tag : ℕ → M Parse (Unit {0})
keyhist_tag tag =
    if tag == 0xC1
    then (do
      n ← tlv tlv_read_u8to32
      update (λ tk. record tk { pt_hist_oncard = low_bits n 8 })
      tlv tlv_end)
    else if tag == 0xC2
    then (do
      n ← tlv tlv_read_u8to32
      update (λ tk. record tk { pt_hist_offcard = low_bits n 8 })
      tlv tlv_end)
    else if tag == 0xF3
    then (do
      url ← tlv tlv_read_string
      update (λ tk. record tk { pt_hist_url = some url })
      tlv tlv_end)
    else if tag == 0xFE
    then tlv tlv_skip
    else fail tagerrf

-- The token after the PIN and OCC policy of the discovery object.
unfoldable pub read_policy : ℕ → PivToken → PivToken
read_policy policy tk =
    let app = tk.pt_pin_app || bit_set policy 14 in
    let global = tk.pt_pin_global || bit_set policy 13 in
    let occ = tk.pt_occ || bit_set policy 12 in
    let auth =
      if app
      then piv_pin
      else if global
      then piv_global_pin
      else if occ
      then piv_occ
      else tk.pt_auth in
    let primary = if policy % 256 == 0x10 then piv_pin else auth in
    record tk {
      pt_pin_app = app;
      pt_pin_global = global;
      pt_occ = occ;
      pt_vci = tk.pt_vci || bit_set policy 11;
      pt_auth = if policy % 256 == 0x20 && global then piv_global_pin else primary;
    }

abbrev pub aid_piv : List ℕ
aid_piv = 0xA0 ∷ 0x00 ∷ 0x00 ∷ 0x03 ∷ 0x08 ∷ 0x00 ∷ 0x00 ∷ 0x10 ∷ 0x00 ∷ 0x01 ∷ 0x00 ∷ []

-- `bcmp(xs, ys, len) == 0` for lists of one length.
unfoldable pub same_bytes : List ℕ → List ℕ → Bool
same_bytes [] [] = true
same_bytes (x ∷ xs) (y ∷ ys) = x == y && same_bytes xs ys
same_bytes xs ys = false

-- The contents of the AID tag are not longer than the PIV AID, and begin like it.
unfoldable pub check_aid : Tlv (Unit {0})
check_aid ts =
    if ltb (length aid_piv) (tlv_rem ts)
    then err (invderrf (errf "PIVDataError" no_error)) ts
    else elim (slice ts.ts_buf ts.ts_pos (tlv_rem ts)) [
      | none ↦ fault
      | some bytes ↦
          fail_if (not (same_bytes (take (tlv_rem ts) aid_piv) bytes))
            (invderrf (errf "PIVDataError" no_error)) ts
    ]

unfoldable pub discov_tag : ℕ → M Parse (Unit {0})
discov_tag tag =
    if tag == 0x4F
    then (do tlv check_aid; tlv tlv_skip)
    else if tag == 0x5F2F
    then (do policy ← tlv tlv_read_u8to32; update (read_policy policy); tlv tlv_end)
    else fail tagerrf

-- `while (!tlv_at_end(tlv))`, for the cases of `read_one`. Each round reads a tag, so that there are
-- fewer rounds than bytes.
unfoldable pub tag_rounds : (ℕ → M Parse (Unit {0})) → ℕ → M Parse (Unit {0})
tag_rounds read_one zero p = stuck
tag_rounds read_one (suc fuel) p =
    if tlv_at_end p.p_tlv
    then ok tt p
    else (do tag ← tlv tlv_read_tag; read_one tag; tag_rounds read_one fuel) p

-- An object whose outer tag is `outer`.
unfoldable pub parse_object : ℕ → (ℕ → M Parse (Unit {0})) → ℕ → M Parse (Unit {0})
parse_object outer read_one fuel = do
  tag ← tlv tlv_read_tag
  fail_if (not (tag == outer)) tagerrf
  tag_rounds read_one fuel
  tlv tlv_end

-- `out:` behind the parse of a reply: `tlv_free`, and what the function returns.
unfoldable pub free_parser :
    {C A : Type 0} → Outcome (Piv C) A → Outcome TlvState (List ℕ) → Outcome (Piv C) A
free_parser result (ok buf ts) = result
free_parser result (err e ts) = result
free_parser result abort = abort
free_parser result fault = fault
free_parser result stuck = stuck

-- `invdata:`, after a parse of the reply that failed, which goes on to `out:`.
unfoldable pub invdata :
    {C A : Type 0} → Piv C → Errf → Outcome TlvState (Unit {0}) → Outcome (Piv C) A
invdata s e (ok u ts) = free_parser (err (invderrf e) s) (tlv_free ts)
invdata s e (err e' ts) = free_parser (err (invderrf e) s) (tlv_free ts)
invdata s e abort = abort
invdata s e fault = fault
invdata s e stuck = stuck

unfoldable pub after_parse : {C A : Type 0} → Piv C → Outcome Parse A → Outcome (Piv C) A
after_parse s (ok a p) = free_parser (ok a (record s { p_token = p.p_tk })) (tlv_free p.p_tlv)
after_parse s (err e p) = invdata (record s { p_token = p.p_tk }) e (tlv_abort p.p_tlv)
after_parse s abort = abort
after_parse s fault = fault
after_parse s stuck = stuck

unfoldable pub parse_reply : {C A : Type 0} → M Parse A → Apdu → M (Piv C) A
parse_reply m a s = elim a.a_reply.b_data [
  | none ↦ fault
  | some buf ↦
      after_parse s
        (m (record { p_tlv = tlv_init buf a.a_reply.b_offset a.a_reply.b_len; p_tk = s.p_token }))
]

-- The statuses with which a GET DATA has an object.
abbrev pub sw_has_data : ℕ → Bool
sw_has_data sw = sw == sw_no_error || sw_class sw 0x62 || sw_class sw 0x63

-- The errors of the other statuses, for the discovery and key history objects and for any file.
unfoldable pub object_error : ℕ → Errf
object_error sw =
    if sw == sw_file_not_found || sw == sw_wrong_data
    then errf "NotFoundError" swerrf
    else if sw == sw_func_not_supported
    then notsuperrf swerrf
    else swerrf

unfoldable pub read_file_error : ℕ → Errf
read_file_error sw =
    if sw == sw_file_not_found
    then errf "NotFoundError" swerrf
    else if sw == sw_security_status_not_satisfied
    then permerrf swerrf
    else swerrf

unfoldable pub write_file_error : ℕ → Errf
write_file_error sw =
    if sw == sw_out_of_memory
    then errf "DeviceOutOfMemoryError" swerrf
    else if sw == sw_security_status_not_satisfied
    then permerrf swerrf
    else if sw == sw_func_not_supported
    then notsuperrf swerrf
    else swerrf

-- The command whose data a writer has written.
unfoldable pub written_apdu : {C : Type 0} → ℕ → Outcome TlvState (Unit {0}) → M (Piv C) Apdu
written_apdu ins (ok u ts) s =
    let a = piv_apdu_make cla_iso ins 0x3F 0xFF in
    ok (record a { a_cmd = record (a.a_cmd) { b_data = some ts.ts_buf; b_len = tlv_len ts } }) s
written_apdu ins (err e ts) s = err e s
written_apdu ins abort s = abort
written_apdu ins fault s = fault
written_apdu ins stuck s = stuck

-- `tlv_free` of the writer, once its command has been exchanged, with or without an error.
unfoldable pub freed_writer :
    {C : Type 0} → Outcome TlvState (Unit {0}) → Outcome (Piv C) Apdu → Outcome (Piv C) Apdu
freed_writer (ok u ts) result = free_parser result (tlv_free ts)
freed_writer written result = result

unfoldable pub free_writer :
    {C : Type 0} → Outcome TlvState (Unit {0}) → M (Piv C) Apdu → M (Piv C) Apdu
free_writer written exchange s = elim (exchange s) [
  | ok a s' ↦ freed_writer written (ok a s')
  | err e s' ↦ freed_writer written (err e s')
  | abort ↦ abort
  | fault ↦ fault
  | stuck ↦ stuck
]

-- The tag list of an object, and what is put into it.
unfoldable pub write_tag_list : ℕ → Tlv (Unit {0})
write_tag_list tag = do tlv_push 0x5C; tlv_write_u8to32 tag; tlv_pop

unfoldable pub write_object : ℕ → List ℕ → Tlv (Unit {0})
write_object tag bytes = do
  write_tag_list tag
  tlv_pushl 0x53 (length bytes + 8)
  tlv_write bytes
  tlv_pop

unfoldable pub file_contents : M Parse (List ℕ)
file_contents = do
  rtag ← tlv tlv_read_tag
  fail_if (not (rtag == 0x53)) tagerrf
  bytes ← tlv tlv_read_alloc
  tlv tlv_end
  pure bytes

-- An object from the answer to its GET DATA; `empty` is the error for a reply without a byte.
unfoldable pub take_object : {C A : Type 0} → Bool → (ℕ → Errf) → M Parse A → Apdu → M (Piv C) A
take_object needs_byte error m a =
    if sw_has_data a.a_sw
    then (do
      fail_if (needs_byte && ltb a.a_reply.b_len 1) (invderrf (errf "APDUError" no_error))
      parse_reply m a)
    else fail (error a.a_sw)

module _ {C : Type 0} (scard_transmit : C → List ℕ → ℕ → Option (List ℕ) × C) (fuel : ℕ) where
  unfoldable pub ykpiv_get_version : M (Piv C) (Unit {0})
  ykpiv_get_version = do
    intxn
    a ← transceive_chain scard_transmit fuel (piv_apdu_make cla_iso ins_get_ver 0x00 0x00)
    take_version a

  unfoldable pub ykpiv_read_serial : M (Piv C) (Unit {0})
  ykpiv_read_serial = do
    intxn
    a ← transceive_chain scard_transmit fuel (piv_apdu_make cla_iso ins_get_serial 0x00 0x00)
    take_serial a

  unfoldable pub get_data : ℕ → M (Piv C) Apdu
  get_data tag = do
    intxn
    let written = write_tag_list tag tlv_init_write
    cmd ← written_apdu ins_get_data written
    free_writer written (transceive_chain scard_transmit fuel cmd)

  unfoldable pub piv_read_discov : M (Piv C) (Unit {0})
  piv_read_discov = do
    a ← get_data 0x7E
    take_object false object_error (parse_object 0x7E discov_tag (suc a.a_reply.b_len)) a

  unfoldable pub piv_read_keyhist : M (Piv C) (Unit {0})
  piv_read_keyhist = do
    a ← get_data 0x5FC10C
    take_object true object_error (parse_object 0x53 keyhist_tag (suc a.a_reply.b_len)) a

  unfoldable pub piv_read_file : ℕ → M (Piv C) (List ℕ)
  piv_read_file tag = do a ← get_data tag; take_object true read_file_error file_contents a

  unfoldable pub piv_write_file : ℕ → List ℕ → M (Piv C) (Unit {0})
  piv_write_file tag bytes = do
    intxn
    let written = write_object tag bytes tlv_init_write
    cmd ← written_apdu ins_put_data written
    a ← free_writer written (transceive_chain scard_transmit fuel cmd)
    if a.a_sw == sw_no_error then pure tt else fail (write_file_error a.a_sw)
