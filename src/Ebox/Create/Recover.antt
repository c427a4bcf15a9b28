-- ===== src/Ebox/Create/Recover.antt =====
-- What `ebox_create` shares out, the private keys of enough tokens recover.
use pivy.Prelude.{
  ℕ, ◌+◌, ◌≤◌, ◌<◌, ◌^◌, ◌≡◌, refl, sym, ap, ◌∙◌, subst, List, [], All, IsByte, Option, none, some,
  length, get_elem?, arith,
}
use pivy.Outcome.{Outcome, M, ok, err, ◌>>=◌, ◌>>◌, get, put, bind-ok}
use pivy.Outcome.Ends.{Ends, Ends-bind}
use pivy.Box.{default_cipher}
use pivy.Box.Wire.{SshBuf, Buf}
use pivy.Box.Wire.Fields.{SshBufLaws}
use pivy.Box.Seal.{Cipher, Crypto}
use pivy.Box.Seal.Seals.{CryptoLaws, AnyErr, Ends-same}
use pivy.Ebox.{TplConfig, Tpl, ebox_recovery}
use pivy.Ebox.State.{EboxConfig, Ebox, Sss, xor_bytes, aside}
use pivy.Ebox.Recovery.{Recovering, ebox_encrypt_recovery, ebox_recover}
use pivy.Ebox.Recovery.Shares.{somes, Picks, Picks-length, SssLaws}
use pivy.Ebox.Recovery.Padded.{Encrypted, Encrypted-copy, encrypt-Ends}
use pivy.Ebox.Recovery.RoundTrip.{recover-Encrypted}
use pivy.Ebox.Create.{Draws, put_secrets, create_configs, new_ebox, ebox_create}
use pivy.Ebox.Create.Parts.{Keys}
use pivy.Ebox.Create.Keys.{picked, picked-Picks, somes-picked, KeysOf, KeysOf-length, open_parts}
use pivy.Ebox.Create.Configs.{Shared, create_config-Shared, create_configs-At}

aside-Ends :
    {S A : Type 0} (m : M Buf A) (b : Buf) (s : S)
    → Ends (λ r s'. (m b ≡ ok r.0 r.1) × (s' ≡ s)) AnyErr (aside m b s)
unfolding aside
aside-Ends {S} {A} m b s = go (m b) refl
  where
    go :
        (o : Outcome Buf A)
        → m b ≡ o
        → Ends (λ r s'. (m b ≡ ok r.0 r.1) × (s' ≡ s)) AnyErr (aside (λ _. o) b s)
    go (ok a b') h = (h, refl)
    go (err e b') h = tt
    go Outcome.abort h = tt
    go Outcome.fault h = tt
    go Outcome.stuck h = tt

-- The boxes of a config are opened with the keys there are.
unfoldable pub open_config :
    {EC P : Type 0} → Crypto EC P → List (Option P) → M (Recovering EC P) (Unit {0})
open_config crypto ks = do
  s ← get
  parts ← open_parts crypto ks s.rc_config.ec_parts
  put (record s { rc_config = record (s.rc_config) { ec_parts = parts } })

-- Both secrets are there.
abbrev pub Recovered :
    {EC P : Type 0} → List ℕ → Option (List ℕ) → Outcome (Recovering EC P) (Unit {0}) → Type 0
Recovered {EC} {P} key token o =
    (s : Recovering EC P) × (o ≡ ok tt s)
    × (s.rc_ebox.e_key ≡ some key)
    × (s.rc_ebox.e_token ≡ token)

module _ {EC P : Type 0} (ssh : SshBuf EC) (crypto : Crypto EC P) (sss : Sss) (draws : Draws P)
    (ssh_laws : SshBufLaws ssh) (laws : CryptoLaws crypto) (sss_laws : SssLaws sss)
    (part_ivs : (c : Cipher) (i j : ℕ)
      → crypto.cipher_by_name default_cipher ≡ some c
      → length (draws.part_random i j).new_iv ≡ c.cipher_ivlen)
    (rcv_sizes : (c : Cipher)
      → crypto.cipher_by_name "aes256-gcm" ≡ some c
      → (length draws.rcv_iv ≡ c.cipher_ivlen) × (length draws.rcv_key ≡ c.cipher_keylen))
    (rcv_bytes : All IsByte draws.rcv_key) (rcv_32 : length draws.rcv_key ≡ 32)
    (nonce_32 : (c : ℕ) → length (draws.config_nonce c) ≡ 32) where
  -- What an ebox is when it is made, of the recovery config at the place `j` of its template.
  record Made (key : List ℕ) (token : Option (List ℕ)) (j : ℕ) (tconfig : TplConfig EC)
      (box : Ebox EC P) : Type 0 where
    pub plain : List ℕ
    pub secrets : put_secrets ssh key token [] ≡ ok tt plain
    pub encrypted : Encrypted crypto draws.rcv_key draws.rcv_iv plain box
    pub named : box.e_rcv_cipher ≡ "aes256-gcm"
    pub shared :
        (config : EboxConfig EC P)
        → get_elem? box.e_configs j ≡ some config
        → Shared crypto sss draws draws.rcv_key j tconfig config

  create-Made :
      (tpl : Tpl EC) (key : List ℕ) (token : Option (List ℕ)) (j : ℕ) (tconfig : TplConfig EC)
      → get_elem? tpl.et_configs j ≡ some tconfig
      → tconfig.etc_type ≡ ebox_recovery
      → tconfig.etc_m ≡ length tconfig.etc_parts
      → tconfig.etc_m < 256
      → Ends
          (λ u box. Made key token j tconfig box)
          AnyErr
          (ebox_create crypto sss draws ssh tpl key token)
  unfolding ebox_create new_ebox
  create-Made tpl key token j tconfig there recovery counted few =
      Ends-same _ _ (aside (put_secrets ssh key token) []) _ new_ebox
        (aside-Ends (put_secrets ssh key token) [] new_ebox)
        (λ (u, plain) written.
          let full = record (new_ebox {EC = EC} {P = P}) { e_rcv_plain = some plain } in
          Ends-bind _ _ AnyErr (ebox_encrypt_recovery crypto draws.rcv_iv draws.rcv_key) _ full
            (encrypt-Ends crypto laws draws.rcv_iv draws.rcv_key plain full refl)
            (λ u s (e, same).
              Ends-bind
                (λ configs s'.
                  ((config : EboxConfig EC P)
                    → get_elem? configs j ≡ some config
                    → Shared crypto sss draws draws.rcv_key (0 + j) tconfig config)
                  × Keys crypto s s')
                _ AnyErr (create_configs crypto sss draws key 0 tpl.et_configs) _ s
                (create_configs-At crypto sss draws laws part_ivs
                  (λ c config. Shared crypto sss draws draws.rcv_key c tconfig config) key
                  (some draws.rcv_key) 0 j tpl.et_configs tconfig s there e.has_key
                  (λ c s holds.
                    create_config-Shared crypto sss draws laws part_ivs sss_laws key draws.rcv_key c
                      tconfig s recovery holds counted few rcv_32 nonce_32))
                (λ configs s1 (shared, (ks, kept)). record {
                  plain = plain;
                  secrets = written;
                  encrypted =
                      Encrypted-copy crypto draws.rcv_key draws.rcv_iv plain s
                        (record s1 { e_configs = configs })
                        (ap (λ (t : Ebox EC P). t.e_rcv_cipher) kept)
                        (ap (λ (t : Ebox EC P). t.e_rcv_iv) kept)
                        (ap (λ (t : Ebox EC P). t.e_rcv_enc) kept)
                        (ap (λ (t : Ebox EC P). t.e_rcv_key) kept) e;
                  named =
                      ap (λ (t : Ebox EC P). t.e_rcv_cipher) kept
                      ∙ ap (λ (t : Ebox EC P). t.e_rcv_cipher) same;
                  shared = λ config h.
                      subst (λ n. Shared crypto sss draws draws.rcv_key n tconfig config)
                        (omega arith) (shared config h);
                })))

  made_lem :
      (key : List ℕ) (token : Option (List ℕ)) (j : ℕ) (tconfig : TplConfig EC) (box : Ebox EC P)
      (config : EboxConfig EC P) (ks : List (Option P))
      → (made : Made key token j tconfig box) → length made.plain < 2 ^ 63
      → get_elem? box.e_configs j ≡ some config
      → tconfig.etc_m ≡ length tconfig.etc_parts
      → tconfig.etc_m < 256
      → 0 < tconfig.etc_n
      → tconfig.etc_n ≤ length (somes ks)
      → KeysOf crypto ks tconfig.etc_parts
      → Recovered key token (
          (open_config crypto ks >> ebox_recover ssh crypto sss) (record {
            rc_ebox = record box { e_key = none; e_token = none; e_rcv_key = none };
            rc_config = config;
          }))
  unfolding open_config
  made_lem key token j tconfig box config ks made room here counted few some_n enough keys =
      let shared = made.shared config here in
      let nonce = draws.config_nonce j in
      let e = made.encrypted in
      let (ivs, sizes) =
        rcv_sizes e.cipher (ap crypto.cipher_by_name (sym made.named) ∙ e.by_name) in
      let shares =
        sss.create_keyshares (draws.config_random j) (xor_bytes nonce draws.rcv_key) tconfig.etc_m
          tconfig.etc_n in
      let size : length shares ≡ tconfig.etc_m =
        sss_laws.create_length (draws.config_random j) (xor_bytes nonce draws.rcv_key) tconfig.etc_m
          tconfig.etc_n in
      let same : length ks ≡ length shares =
        KeysOf-length crypto ks tconfig.etc_parts keys ∙ sym counted ∙ sym size in
      let count = somes-picked ks shares same in
      let (parts, run, has) = shared.opens ks keys in
      let start = record box { e_key = none; e_token = none; e_rcv_key = none } in
      let s0 : Recovering EC P = record { rc_ebox = start; rc_config = config } in
      let s1 : Recovering EC P = record {
        rc_ebox = start;
        rc_config = record config { ec_parts = parts };
      } in
      let open_step : open_config crypto ks s0 ≡ ok tt s1 =
        bind-ok (open_parts crypto ks config.ec_parts) _ s0 parts s0 (run s0) in
      let n_is : config.ec_tpl.etc_n ≡ tconfig.etc_n =
        ap (λ (t : TplConfig EC). t.etc_n) shared.has_tpl in
      let m_is : config.ec_tpl.etc_m ≡ tconfig.etc_m =
        ap (λ (t : TplConfig EC). t.etc_m) shared.has_tpl in
      let picks_of = Picks-length (picked ks shares) shares (picked-Picks ks shares same) in
      (
        _,
        bind-ok (open_config crypto ks) _ s0 tt s1 open_step
            ∙ recover-Encrypted ssh crypto sss ssh_laws laws sss_laws draws.rcv_iv draws.rcv_key key
                made.plain nonce (draws.config_random j) token box
                (record config { ec_parts = parts }) (picked ks shares) e ivs sizes made.secrets
                room rcv_bytes rcv_32 (nonce_32 j) shared.has_nonce (omega arith) (omega arith)
                (omega arith)
                (subst
                  (λ (t : TplConfig EC). Picks (picked ks shares) (
                    sss.create_keyshares (draws.config_random j) (xor_bytes nonce draws.rcv_key)
                      t.etc_m t.etc_n))
                  (sym shared.has_tpl) (picked-Picks ks shares same))
                (omega arith) has,
        refl,
        refl,
      )

  -- What `ebox_create` shares out by a recovery config of a template, the private keys of n of its
  -- parts recover: when the keys open their boxes with `piv_box_open_offline`, one after the other,
  -- and the ebox is locked, as it is when it has been read, `ebox_recover` returns and gives the key
  -- and the token. The config counts its parts, fewer than 256, and n is not 0; what is drawn has the
  -- lengths that the ciphers ask for.
  pub create-recover :
      (tpl : Tpl EC) (key : List ℕ) (token : Option (List ℕ)) (j : ℕ) (tconfig : TplConfig EC)
      (box : Ebox EC P) (config : EboxConfig EC P) (ks : List (Option P))
      → ebox_create crypto sss draws ssh tpl key token ≡ ok tt box
      → ((plain : List ℕ) → put_secrets ssh key token [] ≡ ok tt plain → length plain < 2 ^ 63)
      → get_elem? tpl.et_configs j ≡ some tconfig
      → tconfig.etc_type ≡ ebox_recovery
      → tconfig.etc_m ≡ length tconfig.etc_parts
      → tconfig.etc_m < 256
      → 0 < tconfig.etc_n
      → get_elem? box.e_configs j ≡ some config
      → KeysOf crypto ks tconfig.etc_parts
      → tconfig.etc_n ≤ length (somes ks)
      → Recovered key token (
          (open_config crypto ks >> ebox_recover ssh crypto sss) (record {
            rc_ebox = record box { e_key = none; e_token = none; e_rcv_key = none };
            rc_config = config;
          }))
  create-recover tpl key token j tconfig box config ks created room there recovery counted few
        some_n here keys enough =
      let made =
        subst (Ends (λ u b. Made key token j tconfig b) AnyErr) created
          (create-Made tpl key token j tconfig there recovery counted few) in
      made_lem key token j tconfig box config ks made (room made.plain made.secrets) here counted
        few some_n enough keys
