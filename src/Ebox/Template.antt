-- ===== src/Ebox/Template.antt =====
-- ebox.c: templates as bytes, `sshbuf_put_ebox_tpl` and `sshbuf_get_ebox_tpl`.
pub mod Readers
pub mod Parts
pub mod RoundTrip
use pivy.Prelude.{
  ℕ, zero, suc, ◌-◌, ◌%◌, ◌^◌, ◌/◌, List, [], ◌∷◌, Bool, true, false, not, ◌&&◌, ◌||◌, Option, none,
  some, String, length, replicate, ltb, leb, ◌==◌, if◌then◌else◌, low_bits, bit_set,
}
use pivy.Errf.{Errf, errf, no_error}
use pivy.Outcome.{Outcome, M, ok, err, ◌>>=◌, ◌>>◌, pure, fail, fail_if, on_error}
use pivy.Box.{non_null, boxderrf, boxverrf}
use pivy.Box.Wire.{SshKey, SshBuf, Buf, ssherrf, append_to, put_name}
use pivy.Ebox.{
  Tpl, TplConfig, TplPart, ebox_primary, ebox_recovery, ebox_tpl_v1, ebox_tpl_vnext, slot_key_mgmt,
}

-- The calls of libssh that boxes do not make.
pub record EboxBuf (EC : Type 0) : Type 0 where
  pub ssh : SshBuf EC
  pub sshkey_putb : SshKey EC → Option (List ℕ)
  pub put_stringb : List ℕ → List ℕ → Option (List ℕ)
  pub skip_string8 : List ℕ → Option (Unit {0} × List ℕ)

-- `ebox_tpl_alloc` gives NULL for what is not set.
abbrev pub is_none : {A : Type 0} → Option A → Bool
is_none none = true
is_none (some a) = false

-- A call that takes what it returns off the front.
unfoldable pub read : {A : Type 0} → (Buf → Option (A × Buf)) → M Buf A
read f b = elim (f b) [ none ↦ err ssherrf b | some (a, b') ↦ ok a b' ]

-- The part that is read, `slotid` and `gotguid`.
pub record PartIn (EC : Type 0) : Type 0 where
  pub pi_part : TplPart EC
  pub pi_slotid : ℕ
  pub pi_gotguid : Bool

unfoldable pub empty_part : {EC : Type 0} → TplPart EC
empty_part = record {
  etp_name = none;
  etp_pubkey = none;
  etp_cak = none;
  etp_slot = 0;
  etp_guid = replicate 16 0;
}

unfoldable pub config_error : ℕ → ℕ → M Buf (Unit {0})
config_error type n = do
  fail_if (not (type == ebox_primary) && not (type == ebox_recovery))
      (errf "ArgumentError" no_error)
  fail_if (type == ebox_primary && ltb 1 n) (errf "ArgumentError" no_error)

module _ {EC : Type 0} (lib : EboxBuf EC) where
  open lib use {ssh, sshkey_putb, put_stringb, skip_string8}
  open ssh use {
    put_u8, get_u8, put_string8, get_string8, put_cstring8, get_cstring8, get_stringb, put_eckey8,
    get_eckey8, sshkey_fromb, curve_nid_to_name, curve_name_to_nid, ec_validate_public,
  }

  unfoldable pub put_pubkey : SshKey EC → M Buf (Unit {0})
  put_pubkey k = do
    append_to (put_u8 1)
    put_name ssh (curve_nid_to_name k.ecdsa_nid)
    append_to (put_eckey8 k.ecdsa)

  unfoldable pub put_guid : List ℕ → M Buf (Unit {0})
  put_guid guid = do append_to (put_u8 4); append_to (put_string8 guid)

  unfoldable pub put_part_name : Option String → M Buf (Unit {0})
  put_part_name none = pure tt
  put_part_name (some name) = do append_to (put_u8 2); append_to (put_cstring8 name)

  -- `sshkey_putb` fills a buffer of its own.
  unfoldable pub put_keyb : SshKey EC → M Buf (Unit {0})
  put_keyb k b = elim (sshkey_putb k) [
    | none ↦ err ssherrf b
    | some kbuf ↦ append_to (put_stringb kbuf) b
  ]

  unfoldable pub put_cak : Option (SshKey EC) → M Buf (Unit {0})
  put_cak none = pure tt
  put_cak (some k) = do append_to (put_u8 3); put_keyb k

  unfoldable pub put_slot : ℕ → M Buf (Unit {0})
  put_slot slot =
      if not (slot == slot_key_mgmt)
      then (do append_to (put_u8 6); append_to (put_u8 (low_bits slot 8)))
      else pure tt

  unfoldable pub sshbuf_put_ebox_tpl_part : TplPart EC → M Buf (Unit {0})
  sshbuf_put_ebox_tpl_part part = do
    k ← non_null part.etp_pubkey
    fail_if (not k.is_ecdsa) (errf "ArgumentError" no_error)
    put_pubkey k
    put_guid part.etp_guid
    put_part_name part.etp_name
    put_cak part.etp_cak
    put_slot part.etp_slot
    append_to (put_u8 0)

  unfoldable pub known_nid : Option ℕ → M Buf ℕ
  known_nid none = fail (errf "CurveError" no_error)
  known_nid (some nid) = pure nid

  unfoldable pub get_pubkey : M Buf (SshKey EC)
  get_pubkey = do
    tname ← read get_cstring8
    nid ← known_nid (curve_name_to_nid tname)
    k ← read (get_eckey8 nid)
    fail_if (not (ec_validate_public nid k)) ssherrf
    pure (record { is_ecdsa = true; ecdsa_nid = nid; ecdsa = k })

  unfoldable pub get_cak : M Buf (SshKey EC)
  get_cak = do
    kbuf ← read get_stringb
    (λ b. elim (sshkey_fromb kbuf) [ none ↦ err ssherrf b | some k ↦ ok k b ])

  unfoldable pub get_guid : M Buf (List ℕ)
  get_guid = do
    guid ← read get_string8
    fail_if (not (length guid == 16)) (errf "LengthError" no_error)
    pure guid

  -- What follows a tag; a tag with its high bit set may be skipped.
  unfoldable pub part_tag : ℕ → PartIn EC → M Buf (PartIn EC)
  part_tag tag s =
      let t = low_bits tag 7 in
      if t == 1
      then (do
        k ← get_pubkey
        pure (record s { pi_part = record (s.pi_part) { etp_pubkey = some k } }))
      else if t == 3
      then (do k ← get_cak; pure (record s { pi_part = record (s.pi_part) { etp_cak = some k } }))
      else if t == 2
      then (do
        name ← read get_cstring8
        pure (record s { pi_part = record (s.pi_part) { etp_name = some name } }))
      else if t == 4
      then (do
        guid ← get_guid
        pure (record s { pi_part = record (s.pi_part) { etp_guid = guid }; pi_gotguid = true }))
      else if t == 6
      then (do slotid ← read get_u8; pure (record s { pi_slotid = slotid }))
      else if bit_set tag 7
      then (do read skip_string8; pure s)
      else fail (errf "UnknownTagError" no_error)

  -- The tags up to EBOX_PART_END.
  unfoldable pub part_tags : ℕ → PartIn EC → M Buf (PartIn EC)
  part_tags zero s = λ b. Outcome.stuck
  part_tags (suc fuel) s = do
    tag ← read get_u8
    (let rest = (part_tag tag s >>= part_tags fuel) in if tag == 0 then pure s else rest)

  module _ (fuel : ℕ) where
    unfoldable pub sshbuf_get_ebox_tpl_part : M Buf (TplPart EC)
    sshbuf_get_ebox_tpl_part = do
      s ←
          part_tags fuel
            (record { pi_part = empty_part; pi_slotid = slot_key_mgmt; pi_gotguid = false })
      fail_if (is_none s.pi_part.etp_pubkey || not s.pi_gotguid)
          (errf "IncompletePartError" no_error)
      pure (record (s.pi_part) { etp_slot = s.pi_slotid })

    -- One part, and `n` of them.
    unfoldable pub one_part : M Buf (TplPart EC)
    one_part = on_error (errf "PartError") sshbuf_get_ebox_tpl_part

    unfoldable pub more_parts : ℕ → M Buf (List (TplPart EC))
    more_parts zero = pure []
    more_parts (suc n) = do part ← one_part; parts ← more_parts n; pure (part ∷ parts)

    unfoldable pub sshbuf_get_ebox_tpl_config : M Buf (TplConfig EC)
    sshbuf_get_ebox_tpl_config = do
      type ← read get_u8
      n ← read get_u8
      m ← read get_u8
      config_error type n
      part ← one_part
      parts ← more_parts (m - 1)
      pure (record { etc_type = type; etc_n = n; etc_m = m; etc_parts = part ∷ parts })

    unfoldable pub one_config : M Buf (TplConfig EC)
    one_config = on_error (λ e. boxderrf (errf "ConfigError" e)) sshbuf_get_ebox_tpl_config

    unfoldable pub more_configs : ℕ → M Buf (List (TplConfig EC))
    more_configs zero = pure []
    more_configs (suc n) = do config ← one_config; configs ← more_configs n; pure (config ∷ configs)

    unfoldable pub get_tpl_magic : M Buf (Unit {0})
    get_tpl_magic = do
      magic0 ← on_error (λ e. boxderrf (errf "MagicError" e)) (read get_u8)
      magic1 ← on_error (λ e. boxderrf (errf "MagicError" e)) (read get_u8)
      fail_if (not (magic0 == 0xEB) && not (magic1 == 0x0C)) (boxderrf (errf "MagicError" no_error))

    unfoldable pub sshbuf_get_ebox_tpl : M Buf (Tpl EC)
    sshbuf_get_ebox_tpl = do
      get_tpl_magic
      ver ← on_error boxderrf (read get_u8)
      type ← on_error boxderrf (read get_u8)
      fail_if (ltb ver ebox_tpl_v1 || leb ebox_tpl_vnext ver)
          (boxverrf (errf "VersionError" no_error))
      fail_if (not (type == 0x01)) (boxderrf (errf "EboxTypeError" no_error))
      nconfigs ← on_error boxderrf (read get_u8)
      config ← one_config
      configs ← more_configs (nconfigs - 1)
      pure (record { et_version = ver; et_configs = config ∷ configs })

  unfoldable pub put_parts : List (TplPart EC) → M Buf (Unit {0})
  put_parts [] = pure tt
  put_parts (part ∷ parts) = do
    on_error (errf "PartError") (sshbuf_put_ebox_tpl_part part)
    put_parts parts

  unfoldable pub sshbuf_put_ebox_tpl_config : TplConfig EC → M Buf (Unit {0})
  sshbuf_put_ebox_tpl_config config = do
    append_to (put_u8 config.etc_type)
    append_to (put_u8 config.etc_n)
    append_to (put_u8 config.etc_m)
    put_parts config.etc_parts

  unfoldable pub put_configs : List (TplConfig EC) → M Buf (Unit {0})
  put_configs [] = pure tt
  put_configs (config ∷ configs) = do
    on_error (λ e. errf "ConfigError" no_error) (sshbuf_put_ebox_tpl_config config)
    put_configs configs

  unfoldable pub put_tpl_magic : M Buf (Unit {0})
  put_tpl_magic = do append_to (put_u8 0xEB); append_to (put_u8 0x0C)

  -- `nconfigs` is a `uint8_t`.
  unfoldable pub sshbuf_put_ebox_tpl : Tpl EC → M Buf (Unit {0})
  sshbuf_put_ebox_tpl tpl = do
    put_tpl_magic
    append_to (put_u8 tpl.et_version)
    append_to (put_u8 0x01)
    append_to (put_u8 (length tpl.et_configs % 256))
    put_configs tpl.et_configs
