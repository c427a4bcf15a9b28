-- ===== src/Ebox/Create/Configs.antt =====
-- The configs that `ebox_create` makes, at their places.
use pivy.Prelude.{
  ℕ, zero, suc, ◌+◌, ◌<◌, ◌≡◌, refl, sym, ap, ◌∙◌, subst, List, [], ◌∷◌, true, Option, some, length,
  get_elem?, ◌==◌, arith,
}
use pivy.Outcome.Ends.{Ends, Ends-bind, Ends-verify}
use pivy.Box.{default_cipher}
use pivy.Box.Seal.{Cipher, Crypto, must}
use pivy.Box.Seal.Seals.{CryptoLaws, AnyErr, Ends-same, must-Ends}
use pivy.Ebox.{TplConfig, ebox_recovery}
use pivy.Ebox.State.{EboxConfig, Ebox, Sss, xor_bytes}
use pivy.Ebox.Recovery.Xor.{length-xor_bytes}
use pivy.Ebox.Recovery.Shares.{SssLaws}
use pivy.Ebox.Create.{Draws, config_secrets, create_parts, create_config, create_configs}
use pivy.Ebox.Create.Parts.{Keys, Keys-trans, create_parts-Keys}
use pivy.Ebox.Create.Keys.{picked, KeysOf, Opens}
use pivy.Ebox.Create.Opening.{create_parts-Opens}

module _ {EC P : Type 0} (crypto : Crypto EC P) (sss : Sss) (draws : Draws P) where
  -- What is said of a config that was made from `tconfig`: the nonce that masks its key, and that
  -- keys for its parts open them.
  pub record Shared (key : List ℕ) (c : ℕ) (tconfig : TplConfig EC) (config : EboxConfig EC P)
      : Type 0 where
    pub has_tpl : config.ec_tpl ≡ record tconfig { etc_parts = [] }
    pub has_nonce : config.ec_nonce ≡ some (draws.config_nonce c)
    pub opens :
        (ks : List (Option P))
        → KeysOf crypto ks tconfig.etc_parts
        → Opens crypto ks
            (picked ks (
              sss.create_keyshares
                (draws.config_random c)
                (xor_bytes (draws.config_nonce c) key)
                tconfig.etc_m
                tconfig.etc_n))
            config.ec_parts

module _ {EC P : Type 0} (crypto : Crypto EC P) (sss : Sss) (draws : Draws P)
    (laws : CryptoLaws crypto)
    (ivs : (c : Cipher) (i j : ℕ)
      → crypto.cipher_by_name default_cipher ≡ some c
      → length (draws.part_random i j).new_iv ≡ c.cipher_ivlen) where
  secrets-Ends :
      (key : List ℕ) (c : ℕ) (tconfig : TplConfig EC) (s : Ebox EC P)
      → tconfig.etc_type ≡ ebox_recovery
      → s.e_rcv_key ≡ some key
      → Ends
          (λ secrets s'.
            ((secrets.sc_nonce ≡ some (draws.config_nonce c))
              × (secrets.sc_shares
                  ≡ some (
                      sss.create_keyshares
                        (draws.config_random c)
                        (xor_bytes (draws.config_nonce c) key)
                        tconfig.etc_m
                        tconfig.etc_n)))
            × (s' ≡ s))
          AnyErr
          (config_secrets crypto sss draws c tconfig s)
  unfolding config_secrets
  secrets-Ends key c tconfig s recovery holds =
      let is : (tconfig.etc_type == ebox_recovery) ≡ true = ground arith in
      rw is (
        Ends-same (λ key'. s.e_rcv_key ≡ some key') _ (must s.e_rcv_key) _ s
          (must-Ends s.e_rcv_key s)
          (λ key' found.
            let same : key' ≡ key = cc (sym found ∙ holds) in
            Ends-verify _ _ (length key' == 32) _ s (
              (
                refl,
                ap
                    (λ v. some (
                      sss.create_keyshares (draws.config_random c)
                        (xor_bytes (draws.config_nonce c) v) tconfig.etc_m tconfig.etc_n))
                    same,
              ),
              refl,
            )))

  pub create_config-Shared :
      (sss_laws : SssLaws sss) (contents key : List ℕ) (c : ℕ) (tconfig : TplConfig EC)
      (s : Ebox EC P)
      → tconfig.etc_type ≡ ebox_recovery
      → s.e_rcv_key ≡ some key
      → tconfig.etc_m ≡ length tconfig.etc_parts
      → tconfig.etc_m < 256
      → length key ≡ 32
      → ((c : ℕ) → length (draws.config_nonce c) ≡ 32)
      → Ends
          (λ config s'. Shared crypto sss draws key c tconfig config × Keys crypto s s')
          AnyErr
          (create_config crypto sss draws contents c tconfig s)
  unfolding create_config
  create_config-Shared sss_laws contents key c tconfig s recovery holds counted few key_32
        nonce_32 =
      let shares =
        sss.create_keyshares (draws.config_random c) (xor_bytes (draws.config_nonce c) key)
          tconfig.etc_m tconfig.etc_n in
      let masked_32 : length (xor_bytes (draws.config_nonce c) key) ≡ 32 =
        length-xor_bytes (draws.config_nonce c) key (nonce_32 c ∙ sym key_32) ∙ nonce_32 c in
      let size : length shares ≡ tconfig.etc_m =
        sss_laws.create_length (draws.config_random c) (xor_bytes (draws.config_nonce c) key)
          tconfig.etc_m tconfig.etc_n in
      let from_shares =
        create_parts-Opens crypto sss draws laws ivs contents c 1 [] shares tconfig.etc_parts s refl
          (omega arith) (omega arith)
          (sss_laws.share_length (draws.config_random c) (xor_bytes (draws.config_nonce c) key)
            tconfig.etc_m tconfig.etc_n masked_32) in
      Ends-same _ _ (config_secrets crypto sss draws c tconfig) _ s
        (secrets-Ends key c tconfig s recovery holds)
        (λ secrets (has_nonce, has_shares).
          Ends-bind
            (λ parts s'.
              ((ks : List (Option P))
                → KeysOf crypto ks tconfig.etc_parts
                → Opens crypto ks (picked ks shares) parts)
              × Keys crypto s s')
            _ AnyErr
            (create_parts crypto sss draws contents c secrets.sc_shares 1 tconfig.etc_parts) _ s
            (subst
              (λ o.
                Ends
                  (λ parts s'.
                    ((ks : List (Option P))
                      → KeysOf crypto ks tconfig.etc_parts
                      → Opens crypto ks (picked ks shares) parts)
                    × Keys crypto s s')
                  AnyErr (create_parts crypto sss draws contents c o 1 tconfig.etc_parts s))
              (sym has_shares) from_shares)
            (λ parts s1 (opens, keys).
              (record { has_tpl = refl; has_nonce = has_nonce; opens = opens }, keys)))

  config_secrets-Ends :
      (c : ℕ) (tconfig : TplConfig EC) (s : Ebox EC P)
      → Ends
          (λ secrets s'. Unit {0} × (s' ≡ s))
          AnyErr
          (config_secrets crypto sss draws c tconfig s)
  unfolding config_secrets
  config_secrets-Ends c tconfig s = ground arith

  create_config-Keys :
      (contents : List ℕ) (c : ℕ) (tconfig : TplConfig EC) (s : Ebox EC P)
      → Ends
          (λ config s'. Keys crypto s s')
          AnyErr
          (create_config crypto sss draws contents c tconfig s)
  unfolding create_config
  create_config-Keys contents c tconfig s =
      Ends-same _ _ (config_secrets crypto sss draws c tconfig) _ s
        (config_secrets-Ends c tconfig s)
        (λ secrets u.
          Ends-bind (λ parts s'. Keys crypto s s') _ AnyErr
            (create_parts crypto sss draws contents c secrets.sc_shares 1 tconfig.etc_parts) _ s
            (create_parts-Keys crypto sss draws laws ivs contents c 1 secrets.sc_shares
              tconfig.etc_parts s)
            (λ parts s1 keys. keys))

  create_configs-Keys :
      (contents : List ℕ) (c : ℕ) (tconfigs : List (TplConfig EC)) (s : Ebox EC P)
      → Ends
          (λ configs s'. Keys crypto s s')
          AnyErr
          (create_configs crypto sss draws contents c tconfigs s)
  unfolding create_configs
  create_configs-Keys contents c [] s = (s.e_ephemkeys, refl)
  create_configs-Keys contents c (tconfig ∷ tconfigs) s =
      Ends-bind (λ config s'. Keys crypto s s') _ AnyErr
        (create_config crypto sss draws contents c tconfig) _ s
        (create_config-Keys contents c tconfig s)
        (λ config s1 k1.
          Ends-bind (λ configs s'. Keys crypto s1 s') _ AnyErr
            (create_configs crypto sss draws contents (c + 1) tconfigs) _ s1
            (create_configs-Keys contents (c + 1) tconfigs s1)
            (λ configs s2 k2. Keys-trans crypto s s1 s2 k1 k2))

  -- What holds of a config that is made from `tconfig` with the key `key` in the recovery box, holds
  -- of the config at the place `j`, when `tconfig` stands there in the template.
  pub create_configs-At :
      (Q : ℕ → EboxConfig EC P → Type 0) (contents : List ℕ) (key : Option (List ℕ)) (c j : ℕ)
      (tconfigs : List (TplConfig EC)) (tconfig : TplConfig EC) (s : Ebox EC P)
      → get_elem? tconfigs j ≡ some tconfig
      → s.e_rcv_key ≡ key
      → ((c : ℕ) (s : Ebox EC P)
          → s.e_rcv_key ≡ key
          → Ends
              (λ config s'. Q c config × Keys crypto s s')
              AnyErr
              (create_config crypto sss draws contents c tconfig s))
      → Ends
          (λ configs s'.
            ((config : EboxConfig EC P) → get_elem? configs j ≡ some config → Q (c + j) config)
            × Keys crypto s s')
          AnyErr
          (create_configs crypto sss draws contents c tconfigs s)
  unfolding create_configs
  create_configs-At Q contents key c j [] tconfig s there holds one = absurd (cc there)
  create_configs-At Q contents key c zero (first ∷ tconfigs) tconfig s there holds one =
      let e : first ≡ tconfig = cc there in
      Ends-bind (λ config s'. Q c config × Keys crypto s s') _ AnyErr
        (create_config crypto sss draws contents c first) _ s
        (subst
          (λ t.
            Ends (λ config s'. Q c config × Keys crypto s s') AnyErr
              (create_config crypto sss draws contents c t s))
          (sym e) (one c s holds))
        (λ config s1 (shared, k1).
          Ends-bind (λ configs s'. Keys crypto s1 s') _ AnyErr
            (create_configs crypto sss draws contents (c + 1) tconfigs) _ s1
            (create_configs-Keys contents (c + 1) tconfigs s1)
            (λ configs s2 k2. (
              λ config' h. subst (Q (c + 0)) (cc h) (subst (λ n. Q n config) (omega arith) shared),
              Keys-trans crypto s s1 s2 k1 k2,
            )))
  create_configs-At Q contents key c (suc j) (first ∷ tconfigs) tconfig s there holds one =
      Ends-bind (λ config s'. Keys crypto s s') _ AnyErr
        (create_config crypto sss draws contents c first) _ s
        (create_config-Keys contents c first s)
        (λ config s1 (ks1, e1).
          Ends-bind
            (λ configs s'.
              ((config : EboxConfig EC P)
                → get_elem? configs j ≡ some config
                → Q (c + 1 + j) config)
              × Keys crypto s1 s')
            _ AnyErr (create_configs crypto sss draws contents (c + 1) tconfigs) _ s1
            (create_configs-At Q contents key (c + 1) j tconfigs tconfig s1 there
              (ap (λ (t : Ebox EC P). t.e_rcv_key) e1 ∙ holds) one)
            (λ configs s2 (shared, k2). (
              λ config' h. subst (λ n. Q n config') (omega arith) (shared config' h),
              Keys-trans crypto s s1 s2 (ks1, e1) k2,
            )))
