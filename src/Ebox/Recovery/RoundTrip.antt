-- ===== src/Ebox/Recovery/RoundTrip.antt =====
-- What `ebox_create` puts into the recovery box, `ebox_recover` gets back from enough shares.
use pivy.Prelude.{
  ℕ, ◌-◌, ◌≤◌, ◌<◌, ◌^◌, ◌≡◌, refl, sym, ap, ◌∙◌, subst, List, [], ◌∷◌, ◌++◌, true, false, All,
  IsByte, Option, none, some, length, replicate, ltb, le→ltb, lt→ltb, arith,
}
use pivy.Errf.{errf, no_error}
use pivy.Outcome.{M, ok, err, bind-ok, on_error, fail_if}
use pivy.Outcome.Ends.{Ends}
use pivy.Box.Wire.{SshBuf}
use pivy.Box.Wire.Fields.{SshBufLaws}
use pivy.Box.Seal.{Cipher, Crypto}
use pivy.Box.Seal.Seals.{CryptoLaws, AnyErr}
use pivy.Ebox.State.{Sss, Ebox, EboxConfig, keyshare_len, xor_bytes, is_empty}
use pivy.Ebox.Create.{put_secrets}
use pivy.Ebox.Recovery.{
  Recovering, collect_shares, clear_parts, ebox_decrypt_recovery, ebox_encrypt_recovery, on_ebox,
  set_rcv_key, check_locked, unmask, recover_with, clear_config, ebox_recover,
}
use pivy.Ebox.Recovery.Xor.{unmask-mask, length-xor_bytes}
use pivy.Ebox.Recovery.Padded.{Encrypted, encrypt-Ends, decrypt-Encrypted}
use pivy.Ebox.Recovery.Shares.{somes, Picks, SssLaws, HasShares, Picks-length, collect_lem}
use pivy.Ebox.Recovery.Secrets.{secrets_lem}

masked_32 : (nonce : List ℕ) → length nonce ≡ 32 → is_empty (some nonce) ≡ false
masked_32 [] h = absurd (omega arith)
masked_32 (b ∷ bs) h = refl

module _ {EC P : Type 0} where
  unmask_lem :
      (nonce configkey : List ℕ) (box : Ebox EC P)
      → length nonce ≡ 32
      → unmask (some nonce) configkey box
        ≡ ok tt (record box { e_rcv_key = some (xor_bytes configkey nonce) })
  unfolding unmask set_rcv_key
  unmask_lem nonce configkey box h = rw (masked_32 nonce h, h) refl

  check_locked_lem :
      (box : Ebox EC P)
      → box.e_key ≡ none
      → box.e_token ≡ none
      → box.e_rcv_key ≡ none
      → check_locked box ≡ ok tt box
  unfolding check_locked
  check_locked_lem box e1 e2 e3 = rw (e1, e2, e3) refl

  on_ebox-ok :
      {A : Type 0} (m : M (Ebox EC P) A) (s : Recovering EC P) (a : A) (box : Ebox EC P)
      → m s.rc_ebox ≡ ok a box
      → on_ebox m s ≡ ok a (record s { rc_ebox = box })
  unfolding on_ebox
  on_ebox-ok m s a box h = rw (h, on_ebox) refl

module _ {EC P : Type 0} (ssh : SshBuf EC) (crypto : Crypto EC P) (sss : Sss) where
  -- With fewer shares than n, `ebox_recover` of a locked ebox ends with InsufficientParts, and
  -- neither the ebox nor its config has changed.
  pub recover-too_few :
      (s : Recovering EC P) (picks : List (Option (List ℕ)))
      → s.rc_ebox.e_key ≡ none
      → s.rc_ebox.e_token ≡ none
      → s.rc_ebox.e_rcv_key ≡ none
      → HasShares s.rc_config.ec_parts picks
      → length (somes picks) ≤ s.rc_config.ec_tpl.etc_m
      → length (somes picks) < s.rc_config.ec_tpl.etc_n
      → ebox_recover ssh crypto sss s ≡ err (errf "InsufficientParts" no_error) s
  unfolding ebox_recover
  recover-too_few s picks e1 e2 e3 has room few =
      let short : ltb (length (somes picks)) s.rc_config.ec_tpl.etc_n ≡ true = lt→ltb _ _ few in
      bind-ok (on_ebox check_locked) _ s tt s
        (on_ebox-ok check_locked s tt s.rc_ebox (check_locked_lem s.rc_ebox e1 e2 e3))
      ∙ bind-ok (collect_shares s.rc_config.ec_tpl.etc_m s.rc_config.ec_parts 0) _ s (somes picks) s
          (collect_lem s.rc_config.ec_tpl.etc_m s.rc_config.ec_parts picks 0 s has (omega arith))
      ∙ rw short refl

module _ {EC P : Type 0} (ssh : SshBuf EC) (crypto : Crypto EC P) (sss : Sss)
    (ssh_laws : SshBufLaws ssh) (laws : CryptoLaws crypto) where
  -- From the key of the config on.
  recover_with_lem :
      (iv key k plain nonce : List ℕ) (token : Option (List ℕ)) (shares : List (List ℕ)) (n : ℕ)
      (box : Ebox EC P)
      → (e : Encrypted crypto key iv plain (record box { e_rcv_key = some key }))
      → length iv ≡ e.cipher.cipher_ivlen
      → length key ≡ e.cipher.cipher_keylen
      → length plain < 2 ^ 63
      → put_secrets ssh k token [] ≡ ok tt plain
      → box.e_token ≡ none
      → length nonce ≡ 32
      → xor_bytes (sss.combine_keyshares shares n) nonce ≡ key
      → recover_with ssh crypto sss shares n (some nonce) box
        ≡ ok tt (record box {
          e_rcv_key = some key;
          e_rcv_plain = some plain;
          e_token = token;
          e_key = some k;
        })
  unfolding recover_with set_rcv_key
  recover_with_lem iv key k plain nonce token shares n box e ivs keys room secrets empty size
        masked =
      let locked = record box { e_rcv_key = some key } in
      let opened = record box { e_rcv_key = some key; e_rcv_plain = some plain } in
      let unmasked =
        unmask_lem nonce (sss.combine_keyshares shares n)
          (record box { e_rcv_key = some (replicate 32 0) }) size
        ∙ ap (λ v. ok tt (record box { e_rcv_key = some v })) masked in
      bind-ok (unmask (some nonce) (sss.combine_keyshares shares n)) _
        (record box { e_rcv_key = some (replicate 32 0) }) tt locked unmasked
      ∙ bind-ok (on_error (errf "RecoveryFailed") (ebox_decrypt_recovery crypto)) _ locked tt opened
          (rw (decrypt-Encrypted crypto laws key iv plain locked e ivs keys room, on_error) refl)
      ∙ secrets_lem ssh ssh_laws k plain token opened empty secrets

  module _ (sss_laws : SssLaws sss) where
    -- The tests and the shares.
    shared_lem :
        (s : Recovering EC P) (picks : List (Option (List ℕ))) (box : Ebox EC P)
        → s.rc_ebox.e_key ≡ none
        → s.rc_ebox.e_token ≡ none
        → s.rc_ebox.e_rcv_key ≡ none
        → HasShares s.rc_config.ec_parts picks
        → length (somes picks) ≤ s.rc_config.ec_tpl.etc_m
        → s.rc_config.ec_tpl.etc_n ≤ length (somes picks)
        → recover_with ssh crypto sss
            (somes picks
              ++ replicate
                  (s.rc_config.ec_tpl.etc_m - length (somes picks))
                  (replicate keyshare_len 0))
            s.rc_config.ec_tpl.etc_n
            s.rc_config.ec_nonce
            s.rc_ebox
          ≡ ok tt box
        → ebox_recover ssh crypto sss s
          ≡ ok tt (record {
            rc_ebox = box;
            rc_config = record (s.rc_config) { ec_parts = clear_parts s.rc_config.ec_parts };
          })
    unfolding ebox_recover clear_config
    shared_lem s picks box e1 e2 e3 has room enough step =
        let few : ltb (length (somes picks)) s.rc_config.ec_tpl.etc_n ≡ false = le→ltb _ _ enough in
        bind-ok (on_ebox check_locked) _ s tt s
          (on_ebox-ok check_locked s tt s.rc_ebox (check_locked_lem s.rc_ebox e1 e2 e3))
        ∙ bind-ok (collect_shares s.rc_config.ec_tpl.etc_m s.rc_config.ec_parts 0) _ s (somes picks)
            s
            (collect_lem s.rc_config.ec_tpl.etc_m s.rc_config.ec_parts picks 0 s has (omega arith))
        ∙ bind-ok
            (fail_if (ltb (length (somes picks)) s.rc_config.ec_tpl.etc_n)
              (errf "InsufficientParts" no_error))
            _ s tt s (rw few refl)
        ∙ bind-ok
            (on_ebox (
              recover_with ssh crypto sss
                (somes picks
                  ++ replicate (s.rc_config.ec_tpl.etc_m - length (somes picks))
                      (replicate keyshare_len 0))
                s.rc_config.ec_tpl.etc_n s.rc_config.ec_nonce))
            _ s tt (record s { rc_ebox = box }) (on_ebox-ok _ s tt box step)

    -- An ebox with an encrypted recovery box, and enough shares.
    pub recover-Encrypted :
        (iv key k plain nonce random : List ℕ) (token : Option (List ℕ)) (box : Ebox EC P)
        (config : EboxConfig EC P) (picks : List (Option (List ℕ)))
        → (e : Encrypted crypto key iv plain box) → length iv ≡ e.cipher.cipher_ivlen
        → length key ≡ e.cipher.cipher_keylen
        → put_secrets ssh k token [] ≡ ok tt plain
        → length plain < 2 ^ 63
        → All IsByte key
        → length key ≡ 32
        → length nonce ≡ 32
        → config.ec_nonce ≡ some nonce
        → 0 < config.ec_tpl.etc_n
        → config.ec_tpl.etc_n ≤ config.ec_tpl.etc_m
        → config.ec_tpl.etc_m < 256
        → Picks picks (
            sss.create_keyshares random
              (xor_bytes nonce key)
              config.ec_tpl.etc_m
              config.ec_tpl.etc_n)
        → config.ec_tpl.etc_n ≤ length (somes picks)
        → HasShares config.ec_parts picks
        → ebox_recover ssh crypto sss (record {
          rc_ebox = record box { e_key = none; e_token = none; e_rcv_key = none };
          rc_config = config;
        })
          ≡ ok tt (record {
            rc_ebox = record box {
              e_key = some k;
              e_token = token;
              e_rcv_key = some key;
              e_rcv_plain = some plain;
            };
            rc_config = record config { ec_parts = clear_parts config.ec_parts };
          })
    recover-Encrypted iv key k plain nonce random token box config picks e ivs keys secrets room
          bytes key32 nonce32 has_nonce some_n n_le_m byte_m picked enough has =
        let m = config.ec_tpl.etc_m in
        let n = config.ec_tpl.etc_n in
        let created = sss.create_keyshares random (xor_bytes nonce key) m n in
        let in_room : length (somes picks) ≤ m = omega (
          arith,
          Picks-length picks created picked,
          sss_laws.create_length random (xor_bytes nonce key) m n,
        ) in
        let rest = replicate (m - length (somes picks)) (replicate keyshare_len 0) in
        let combined : sss.combine_keyshares (somes picks ++ rest) n ≡ xor_bytes nonce key =
          sss_laws.combine random (xor_bytes nonce key) m n picks rest
            (length-xor_bytes nonce key (nonce32 ∙ sym key32) ∙ nonce32) some_n n_le_m byte_m picked
            enough in
        let masked : xor_bytes (sss.combine_keyshares (somes picks ++ rest) n) nonce ≡ key =
          ap (λ l. xor_bytes l nonce) combined
          ∙ unmask-mask nonce key bytes (nonce32 ∙ sym key32) in
        let locked = record box { e_key = none; e_token = none; e_rcv_key = none } in
        let opened : Encrypted crypto key iv plain (record locked { e_rcv_key = some key }) =
          record {
            cipher = e.cipher;
            enc = e.enc;
            by_name = e.by_name;
            tagged = e.tagged;
            encrypted = e.encrypted;
            has_iv = e.has_iv;
            has_enc = e.has_enc;
            has_key = refl;
          } in
        shared_lem (record { rc_ebox = locked; rc_config = config }) picks _ refl refl refl has
          in_room enough
          (ap (λ o. recover_with ssh crypto sss (somes picks ++ rest) n o locked) has_nonce
            ∙ recover_with_lem iv key k plain nonce token (somes picks ++ rest) n locked opened ivs
                keys room secrets refl nonce32 masked)

    -- Enough shares recover an ebox: the token and the key that `ebox_encrypt_recovery` has encrypted
    -- with a key of 32 bytes come back, when the config has the nonce that masked that key, its parts
    -- have n or more of the m shares of the masked key, each in its own place, and the ebox is locked.
    -- The parts end without shares, and with their boxes sealed.
    pub recover-encrypt :
        (iv key k plain nonce random : List ℕ) (token : Option (List ℕ)) (box box' : Ebox EC P)
        (config : EboxConfig EC P) (picks : List (Option (List ℕ)))
        → put_secrets ssh k token [] ≡ ok tt plain
        → length plain < 2 ^ 63
        → box.e_rcv_plain ≡ some plain
        → ebox_encrypt_recovery crypto iv key box ≡ ok tt box'
        → ((c : Cipher)
            → crypto.cipher_by_name box'.e_rcv_cipher ≡ some c
            → (length iv ≡ c.cipher_ivlen) × (length key ≡ c.cipher_keylen))
        → All IsByte key
        → length key ≡ 32
        → length nonce ≡ 32
        → config.ec_nonce ≡ some nonce
        → 0 < config.ec_tpl.etc_n
        → config.ec_tpl.etc_n ≤ config.ec_tpl.etc_m
        → config.ec_tpl.etc_m < 256
        → Picks picks (
            sss.create_keyshares random
              (xor_bytes nonce key)
              config.ec_tpl.etc_m
              config.ec_tpl.etc_n)
        → config.ec_tpl.etc_n ≤ length (somes picks)
        → HasShares config.ec_parts picks
        → ebox_recover ssh crypto sss (record {
          rc_ebox = record box' { e_key = none; e_token = none; e_rcv_key = none };
          rc_config = config;
        })
          ≡ ok tt (record {
            rc_ebox = record box' {
              e_key = some k;
              e_token = token;
              e_rcv_key = some key;
              e_rcv_plain = some plain;
            };
            rc_config = record config { ec_parts = clear_parts config.ec_parts };
          })
    recover-encrypt iv key k plain nonce random token box box' config picks secrets room holds
          sealed sizes bytes key32 nonce32 has_nonce some_n n_le_m byte_m picked enough has =
        let (e, same) =
          subst (Ends (λ u b. Encrypted crypto key iv plain b × _) AnyErr) sealed
            (encrypt-Ends crypto laws iv key plain box holds) in
        let (ivs, keys) = sizes e.cipher e.by_name in
        recover-Encrypted iv key k plain nonce random token box' config picks e ivs keys secrets
          room bytes key32 nonce32 has_nonce some_n n_le_m byte_m picked enough has
