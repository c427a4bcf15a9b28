-- ===== src/Ebox/Template/RoundTrip.antt =====
-- What `sshbuf_put_ebox_tpl` writes, `sshbuf_get_ebox_tpl` reads back.
use pivy.Prelude.{
  ℕ, suc, ◌-◌, ◌%◌, ◌≤◌, ◌<◌, ◌≡◌, refl, sym, ◌∙◌, subst, ◌⊎◌, inl, inr, List, [], ◌∷◌, true, false,
  ◌||◌, All, ltb, leb, ◌++◌, some, String, length, arith,
}
use pivy.Errf.{Errf, errf, no_error}
use pivy.Outcome.{M, ok, ◌>>◌, on_error, bind-ok}
use pivy.Box.{non_null, boxderrf}
use pivy.Box.Wire.{Buf, append_to}
use pivy.Box.Wire.Carries.{Carries, Carries-bind, Carries-then, Carries-fail_if}
use pivy.Box.Wire.Fields.{ec_key}
use pivy.Ebox.{TplPart, TplConfig, Tpl, ebox_primary, ebox_recovery, ebox_tpl_v1, ebox_tpl_vnext}
use pivy.Ebox.Template.{
  EboxBuf, read, empty_part, sshbuf_put_ebox_tpl_part, sshbuf_get_ebox_tpl_part, one_part,
  more_parts, config_error, sshbuf_get_ebox_tpl_config, one_config, more_configs, get_tpl_magic,
  sshbuf_get_ebox_tpl, put_parts, sshbuf_put_ebox_tpl_config, put_configs, put_tpl_magic,
  sshbuf_put_ebox_tpl,
}
use pivy.Ebox.Template.Readers.{
  EboxBufLaws, octet-Carries, on_error-Carries, Carries-on_error, pure-Carries,
}
use pivy.Ebox.Template.Parts.{part_in, fields-Tags}

module _ {EC : Type 0} (lib : EboxBuf EC) where
  open lib use {ssh}

  -- The key is an ECDSA key on a curve that has a name, and a valid point; the GUID is whole, and
  -- the slot is a byte.
  abbrev pub IsPart : TplPart EC → Type 0
  IsPart part =
      (nid : ℕ) × (k : EC) × (curve : String) × (part.etp_pubkey ≡ some (ec_key true nid k))
      × (ssh.curve_nid_to_name nid ≡ some curve)
      × (ssh.ec_validate_public nid k ≡ true)
      × (length part.etp_guid ≡ 16)
      × (part.etp_slot < 256)

  -- It is a primary config with n at most 1 or a recovery config, and `etc_m` counts its parts, of
  -- which there is one.
  abbrev pub IsConfig : TplConfig EC → Type 0
  IsConfig config =
      (((config.etc_type ≡ ebox_primary) × (config.etc_n ≤ 1)) ⊎ (config.etc_type ≡ ebox_recovery))
      × (config.etc_m ≡ length config.etc_parts)
      × (0 < length config.etc_parts)
      × All IsPart config.etc_parts

  -- The version is one that is read, and there are configs, but not more than a byte counts.
  abbrev pub IsTpl : Tpl EC → Type 0
  IsTpl tpl =
      (ebox_tpl_v1 ≤ tpl.et_version)
      × (tpl.et_version < ebox_tpl_vnext)
      × (0 < length tpl.et_configs)
      × (length tpl.et_configs < 256)
      × All IsConfig tpl.et_configs

module _ {EC : Type 0} (lib : EboxBuf EC) (laws : EboxBufLaws lib) (fuel : ℕ)
    (room : 6 ≤ fuel) where
  open lib use {ssh}

  -- Both a part with its key in hand.
  key-Carries :
      (part : TplPart EC) (nid : ℕ) (k : EC) (curve : String)
      → ssh.curve_nid_to_name nid ≡ some curve
      → ssh.ec_validate_public nid k ≡ true
      → length part.etp_guid ≡ 16
      → part.etp_slot < 256
      → Carries
          (sshbuf_put_ebox_tpl_part lib (record part { etp_pubkey = some (ec_key true nid k) }))
          (sshbuf_get_ebox_tpl_part lib fuel)
          (record part { etp_pubkey = some (ec_key true nid k) })
  unfolding sshbuf_put_ebox_tpl_part sshbuf_get_ebox_tpl_part non_null empty_part
  key-Carries part nid k curve known good full small =
      Carries-then _ _ _
        (part_in lib laws (some (ec_key true nid k)) part.etp_guid part.etp_name part.etp_cak
          part.etp_slot true)
        _
        (fields-Tags lib laws nid k curve part.etp_guid part.etp_name part.etp_cak part.etp_slot
          known good full small fuel room)
        (λ b. refl)

  part-Carries :
      (part : TplPart EC)
      → IsPart lib part
      → Carries (sshbuf_put_ebox_tpl_part lib part) (sshbuf_get_ebox_tpl_part lib fuel) part
  part-Carries part (nid, k, curve, e, known, good, full, small) =
      subst
        (λ o.
          Carries (sshbuf_put_ebox_tpl_part lib (record part { etp_pubkey = o }))
            (sshbuf_get_ebox_tpl_part lib fuel) (record part { etp_pubkey = o }))
        (sym e) (key-Carries part nid k curve known good full small)

  one-Carries :
      (part : TplPart EC)
      → IsPart lib part
      → Carries
          (on_error (errf "PartError") (sshbuf_put_ebox_tpl_part lib part))
          (one_part lib fuel)
          part
  unfolding one_part
  one-Carries part h =
      Carries-on_error _ _ _ part (on_error-Carries _ _ _ part (part-Carries part h))

  parts-Carries :
      (parts : List (TplPart EC))
      → All (IsPart lib) parts
      → Carries (put_parts lib parts) (more_parts lib fuel (length parts)) parts
  unfolding put_parts more_parts
  parts-Carries [] h = pure-Carries []
  parts-Carries (part ∷ parts) (h, hs) =
      Carries-bind _ _ _ _ part _ (one-Carries part h)
        (Carries-then _ _ _ parts _ (parts-Carries parts hs) (λ b. refl))

  -- The checks of a config.
  config_error_lem :
      (type n : ℕ)
      → ((type ≡ ebox_primary) × (n ≤ 1)) ⊎ (type ≡ ebox_recovery)
      → (b : Buf) → config_error type n b ≡ ok tt b
  unfolding config_error
  config_error_lem type n (inl (e, h)) b = ground arith
  config_error_lem type n (inr e) b = ground arith

  checked-Carries :
      {A : Type 0} (type n : ℕ) (p : M Buf (Unit {0})) (g : M Buf A) (a : A)
      → ((type ≡ ebox_primary) × (n ≤ 1)) ⊎ (type ≡ ebox_recovery)
      → Carries p g a
      → Carries p (config_error type n >> g) a
  unfolding Carries
  checked-Carries type n p g a h one b b' x =
      let (e, left, back) = one b b' x in
      (
        e,
        left,
        λ rest.
            bind-ok (config_error type n) (λ u. g) (e ++ rest) tt (e ++ rest)
              (config_error_lem type n h (e ++ rest))
            ∙ back rest,
      )

  counted-Carries :
      (type n m : ℕ) (parts : List (TplPart EC))
      → ((type ≡ ebox_primary) × (n ≤ 1)) ⊎ (type ≡ ebox_recovery)
      → m ≡ length parts
      → 0 < length parts
      → All (IsPart lib) parts
      → Carries
          (sshbuf_put_ebox_tpl_config lib
            (record { etc_type = type; etc_n = n; etc_m = m; etc_parts = parts }))
          (sshbuf_get_ebox_tpl_config lib fuel)
          (record { etc_type = type; etc_n = n; etc_m = m; etc_parts = parts })
  unfolding sshbuf_put_ebox_tpl_config sshbuf_get_ebox_tpl_config put_parts
  counted-Carries type n m [] kind e none_there hs = absurd (omega arith)
  counted-Carries type n m (part ∷ parts) kind e some_there (h, hs) =
      let left : m - 1 ≡ length parts = omega arith in
      Carries-bind _ _ _ _ type _ (octet-Carries lib laws type) (
        Carries-bind _ _ _ _ n _ (octet-Carries lib laws n) (
          Carries-bind _ _ _ _ m _ (octet-Carries lib laws m) (
            checked-Carries type n _ _ _ kind (
              Carries-bind _ _ _ _ part _ (one-Carries part h)
                (rw left (Carries-then _ _ _ parts _ (parts-Carries parts hs) (λ b. refl)))))))

  config-Carries :
      (config : TplConfig EC)
      → IsConfig lib config
      → Carries (sshbuf_put_ebox_tpl_config lib config) (sshbuf_get_ebox_tpl_config lib fuel) config
  config-Carries config (kind, counted, some_there, parts) =
      counted-Carries config.etc_type config.etc_n config.etc_m config.etc_parts kind counted
        some_there parts

  one_config-Carries :
      (config : TplConfig EC)
      → IsConfig lib config
      → Carries
          (on_error (λ e. errf "ConfigError" no_error) (sshbuf_put_ebox_tpl_config lib config))
          (one_config lib fuel)
          config
  unfolding one_config
  one_config-Carries config h =
      Carries-on_error _ _ _ config (on_error-Carries _ _ _ config (config-Carries config h))

  configs-Carries :
      (configs : List (TplConfig EC))
      → All (IsConfig lib) configs
      → Carries (put_configs lib configs) (more_configs lib fuel (length configs)) configs
  unfolding put_configs more_configs
  configs-Carries [] h = pure-Carries []
  configs-Carries (config ∷ configs) (h, hs) =
      Carries-bind _ _ _ _ config _ (one_config-Carries config h)
        (Carries-then _ _ _ configs _ (configs-Carries configs hs) (λ b. refl))

  wrapped-Carries :
      (w : Errf → Errf) (v : ℕ)
      → Carries (append_to (ssh.put_u8 v)) (on_error w (read ssh.get_u8)) v
  wrapped-Carries w v = on_error-Carries w _ _ v (octet-Carries lib laws v)

  magic-Carries : Carries (put_tpl_magic lib) (get_tpl_magic lib fuel) tt
  unfolding put_tpl_magic get_tpl_magic
  magic-Carries =
      Carries-bind _ _ _ _ 0xEB tt (wrapped-Carries _ 0xEB)
        (Carries-then _ _ _ 0x0C tt (wrapped-Carries _ 0x0C) (λ b. refl))

  listed-Carries :
      (ver : ℕ) (configs : List (TplConfig EC))
      → ebox_tpl_v1 ≤ ver
      → ver < ebox_tpl_vnext
      → 0 < length configs
      → length configs < 256
      → All (IsConfig lib) configs
      → Carries
          (sshbuf_put_ebox_tpl lib (record { et_version = ver; et_configs = configs }))
          (sshbuf_get_ebox_tpl lib fuel)
          (record { et_version = ver; et_configs = configs })
  unfolding sshbuf_put_ebox_tpl sshbuf_get_ebox_tpl put_configs
  listed-Carries ver [] low high some_there few hs = absurd (omega arith)
  listed-Carries ver (config ∷ configs) low high some_there few (h, hs) =
      let count : suc (length configs) % 256 ≡ suc (length configs) = omega arith in
      let left : suc (length configs) - 1 ≡ length configs = omega arith in
      let known : (ltb ver ebox_tpl_v1 || leb ebox_tpl_vnext ver) ≡ false = ground arith in
      Carries-bind _ _ _ _ tt _ magic-Carries (
        Carries-bind _ _ _ _ ver _ (wrapped-Carries boxderrf ver) (
          Carries-bind _ _ _ _ 1 _ (wrapped-Carries boxderrf 1) (
            Carries-fail_if _ _ _ _ _ known (
              rw count (
                Carries-bind _ _ _ _ (suc (length configs)) _
                  (wrapped-Carries boxderrf (suc (length configs)))
                  (Carries-bind _ _ _ _ config _ (one_config-Carries config h) (
                    rw left
                      (Carries-then _ _ _ configs _ (configs-Carries configs hs) (λ b. refl)))))))))

  -- A template that is well-formed, when `sshbuf_put_ebox_tpl` appends it, is read back by
  -- `sshbuf_get_ebox_tpl` from the front of any buffer just as it was, with fuel for six tags in a
  -- part.
  pub sshbuf_put_ebox_tpl-Carries :
      (tpl : Tpl EC)
      → IsTpl lib tpl
      → Carries (sshbuf_put_ebox_tpl lib tpl) (sshbuf_get_ebox_tpl lib fuel) tpl
  sshbuf_put_ebox_tpl-Carries tpl (low, high, some_there, few, configs) =
      listed-Carries tpl.et_version tpl.et_configs low high some_there few configs
