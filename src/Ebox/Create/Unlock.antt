-- ===== src/Ebox/Create/Unlock.antt =====
-- What `ebox_create` gives to each token of a primary config, one private key unlocks.
use pivy.Prelude.{
  ℕ, ◌+◌, ◌%◌, ◌<◌, ◌^◌, ◌≡◌, refl, ◌∙◌, subst, List, [], ◌∷◌, true, false, ltb, le→ltb, Option,
  none, some, length, get_elem?, ◌==◌, arith,
}
use pivy.Outcome.{ok, ◌>>=◌, bind-ok}
use pivy.Outcome.Ends.{Ends, Ends-bind}
use pivy.Apdu.{empty_buf}
use pivy.Box.{piv_box_sealed, default_cipher}
use pivy.Box.Wire.{SshBuf}
use pivy.Box.Seal.{Cipher, Crypto, piv_box_open_offline}
use pivy.Box.Seal.Opens.{Locked, opened, opened-take}
use pivy.Box.Seal.Seals.{CryptoLaws, AnyErr}
use pivy.Ebox.{TplPart, TplConfig, Tpl, ebox_primary, ebox_recovery}
use pivy.Ebox.State.{EboxPart, EboxConfig, Ebox, Sss, aside}
use pivy.Ebox.Recovery.{ebox_unlock, ebox_encrypt_recovery}
use pivy.Ebox.Recovery.Shares.{somes}
use pivy.Ebox.Create.{
  Draws, part_data, create_part, create_parts, create_config, config_secrets, must_box,
  create_configs, new_ebox, ebox_create, put_secrets,
}
use pivy.Ebox.Create.Steps.{Ends-last}
use pivy.Ebox.Create.Parts.{Keys, Keys-trans, Holds, create_part-Ends}
use pivy.Ebox.Create.Configs.{create_configs-At}
use pivy.Ebox.Create.Keys.{KeysOf, open_parts, must_open}

module _ {EC P : Type 0} (crypto : Crypto EC P) where
  -- Keys open the parts, and one key is enough to unlock an ebox.
  abbrev Unlocks : List ℕ → List (Option P) → List (EboxPart EC P) → Type 0
  Unlocks key ks parts =
      (others : List (EboxPart EC P)) × ((s : Ebox EC P)
        → open_parts crypto ks parts s ≡ ok others s)
      × (0 < length (somes ks)
          → (box : Ebox EC P)
          → (left : List (EboxPart EC P)) × (ebox_unlock others box
              ≡ ok left (record box { e_key = some key })))

  Unlocks-none :
      (key : List ℕ) (ks : List (Option P)) (part : EboxPart EC P) (parts : List (EboxPart EC P))
      → piv_box_sealed part.ep_box ≡ true
      → Unlocks key ks parts
      → Unlocks key (none ∷ ks) (part ∷ parts)
  unfolding open_parts ebox_unlock
  Unlocks-none key ks part parts shut (others, run, unlocks) = (
    part ∷ others,
    λ s. bind-ok (open_parts crypto ks parts) _ s others s (run s),
    λ some_key box.
        let (left, e) = unlocks some_key box in
        (part ∷ left, rw shut (bind-ok (ebox_unlock others) _ box left _ e)),
  )

  Unlocks-some :
      (key : List ℕ) (k : P) (ks : List (Option P)) (part : EboxPart EC P)
      (parts : List (EboxPart EC P))
      → Locked crypto k key part.ep_box
      → 0 < length key
      → Unlocks key ks parts
      → Unlocks key (some k ∷ ks) (part ∷ parts)
  unfolding open_parts ebox_unlock piv_box_sealed
  Unlocks-some key k ks part parts l some_byte (others, run, unlocks) =
      let box = opened crypto key l.pad part.ep_box in
      let filled : ltb (length key) 1 ≡ false = le→ltb _ _ (omega arith) in
      (
        record part { ep_box = box } ∷ others,
        λ s.
            bind-ok (must_box (piv_box_open_offline crypto k) part.ep_box) _ s box s
              (must_open crypto k key part.ep_box s l)
            ∙ bind-ok (open_parts crypto ks parts) _ s others s (run s),
        λ some_key ebox. (
          record part { ep_box = record (part.ep_box) { pdb_plain = empty_buf } } ∷ others,
          rw (filled, opened-take crypto key l.pad part.ep_box) refl,
        ),
      )

module _ {EC P : Type 0} (crypto : Crypto EC P) (sss : Sss) (draws : Draws P)
    (laws : CryptoLaws crypto)
    (part_ivs : (c : Cipher) (i j : ℕ)
      → crypto.cipher_by_name default_cipher ≡ some c
      → length (draws.part_random i j).new_iv ≡ c.cipher_ivlen)
    (key : List ℕ) (some_byte : 0 < length key) (room : length key < 2 ^ 63) where
  -- What keys do to the parts that are made from those of a template.
  abbrev AllUnlock : List (TplPart EC) → List (EboxPart EC P) → Type 0
  AllUnlock tparts parts =
      (ks : List (Option P)) → KeysOf crypto ks tparts → Unlocks crypto key ks parts

  no_parts : AllUnlock [] []
  unfolding open_parts
  no_parts [] h = ([], (λ s. refl), λ none_there. absurd (omega arith))
  no_parts (k ∷ ks) h = absurd h

  one_more :
      (tpart : TplPart EC) (tparts : List (TplPart EC)) (part : EboxPart EC P)
      (parts : List (EboxPart EC P))
      → Holds crypto tpart key part
      → AllUnlock tparts parts
      → AllUnlock (tpart ∷ tparts) (part ∷ parts)
  one_more tpart tparts part parts holds others [] h = absurd h
  one_more tpart tparts part parts (shut, bare, opens) others (none ∷ ks) h =
      Unlocks-none crypto key ks part parts shut (others ks h)
  one_more tpart tparts part parts (shut, bare, opens) others (some k ∷ ks)
        ((pubk, named, demoted), h) =
      Unlocks-some crypto key k ks part parts (opens k pubk named demoted) some_byte (others ks h)

  whole_key : (id : ℕ) (t : Ebox EC P) → part_data key none id t ≡ ok key t
  unfolding part_data
  whole_key id t = refl

  create_parts-Unlock :
      (c i : ℕ) (tparts : List (TplPart EC)) (s : Ebox EC P)
      → Ends
          (λ parts s'. AllUnlock tparts parts × Keys crypto s s')
          AnyErr
          (create_parts crypto sss draws key c none i tparts s)
  unfolding create_parts
  create_parts-Unlock c i [] s = (no_parts, (s.e_ephemkeys, refl))
  create_parts-Unlock c i (tpart ∷ tparts) s =
      Ends-bind (λ part s'. Holds crypto tpart key part × Keys crypto s s') _ AnyErr
        (create_part crypto sss draws key c none i tpart) _ s
        (create_part-Ends crypto sss draws laws part_ivs key key c i none tpart s
          (whole_key (i % 256)) room)
        (λ part s1 (holds, k1).
          Ends-bind (λ parts s'. AllUnlock tparts parts × Keys crypto s1 s') _ AnyErr
            (create_parts crypto sss draws key c none (i + 1) tparts) _ s1
            (create_parts-Unlock c (i + 1) tparts s1)
            (λ parts s2 (others, k2).
              (one_more tpart tparts part parts holds others, Keys-trans crypto s s1 s2 k1 k2)))

  no_shares :
      (c : ℕ) (tconfig : TplConfig EC) (s : Ebox EC P)
      → tconfig.etc_type ≡ ebox_primary
      → config_secrets crypto sss draws c tconfig s
        ≡ ok (record { sc_nonce = none; sc_shares = none }) s
  unfolding config_secrets
  no_shares c tconfig s primary =
      let other : (tconfig.etc_type == ebox_recovery) ≡ false = ground arith in rw other refl

  create_config-Unlock :
      (c : ℕ) (tconfig : TplConfig EC) (s : Ebox EC P)
      → tconfig.etc_type ≡ ebox_primary
      → Ends
          (λ config s'. AllUnlock tconfig.etc_parts config.ec_parts × Keys crypto s s')
          AnyErr
          (create_config crypto sss draws key c tconfig s)
  unfolding create_config
  create_config-Unlock c tconfig s primary =
      rw (no_shares c tconfig s primary, ◌>>=◌)
        (Ends-bind (λ parts s'. AllUnlock tconfig.etc_parts parts × Keys crypto s s') _ AnyErr
          (create_parts crypto sss draws key c none 1 tconfig.etc_parts) _ s
          (create_parts-Unlock c 1 tconfig.etc_parts s) (λ parts s1 both. both))

  create-Unlock :
      (ssh : SshBuf EC) (tpl : Tpl EC) (token : Option (List ℕ)) (j : ℕ) (tconfig : TplConfig EC)
      → get_elem? tpl.et_configs j ≡ some tconfig
      → tconfig.etc_type ≡ ebox_primary
      → Ends
          (λ u box.
            (config : EboxConfig EC P)
            → get_elem? box.e_configs j ≡ some config
            → AllUnlock tconfig.etc_parts config.ec_parts)
          AnyErr
          (ebox_create crypto sss draws ssh tpl key token)
  unfolding ebox_create
  create-Unlock ssh tpl token j tconfig there primary =
      Ends-last _ (aside (put_secrets ssh key token) []) _ new_ebox (λ (u, plain) s0.
        Ends-last _ (ebox_encrypt_recovery crypto draws.rcv_iv draws.rcv_key) _
          (record s0 { e_rcv_plain = some plain })
          (λ u s.
            Ends-bind _ _ AnyErr (create_configs crypto sss draws key 0 tpl.et_configs) _ s
              (create_configs-At crypto sss draws laws part_ivs
                (λ c config. AllUnlock tconfig.etc_parts config.ec_parts) key s.e_rcv_key 0 j
                tpl.et_configs tconfig s there refl
                (λ c s holds. create_config-Unlock c tconfig s primary))
              (λ configs s1 (unlock, kept). unlock)))

  -- The private key of any part of a primary config unlocks what `ebox_create` made of a template:
  -- when the keys that there are, at least one, open the boxes of their parts with
  -- `piv_box_open_offline`, then `ebox_unlock` returns and gives the key. The key has bytes, and the
  -- IVs that are drawn for the boxes have the length that the cipher asks for.
  pub create-unlock :
      (ssh : SshBuf EC) (tpl : Tpl EC) (token : Option (List ℕ)) (j : ℕ) (tconfig : TplConfig EC)
      (box ebox : Ebox EC P) (config : EboxConfig EC P) (ks : List (Option P))
      → ebox_create crypto sss draws ssh tpl key token ≡ ok tt box
      → get_elem? tpl.et_configs j ≡ some tconfig
      → tconfig.etc_type ≡ ebox_primary
      → get_elem? box.e_configs j ≡ some config
      → KeysOf crypto ks tconfig.etc_parts
      → 0 < length (somes ks)
      → (left : List (EboxPart EC P)) × ((open_parts crypto ks config.ec_parts >>= ebox_unlock) ebox
          ≡ ok left (record ebox { e_key = some key }))
  create-unlock ssh tpl token j tconfig box ebox config ks created there primary here keys
        some_key =
      let made =
        subst
          (Ends
            (λ u box.
              (config : EboxConfig EC P)
              → get_elem? box.e_configs j ≡ some config
              → AllUnlock tconfig.etc_parts config.ec_parts)
            AnyErr)
          created (create-Unlock ssh tpl token j tconfig there primary) in
      let (parts, run, unlocks) = made config here ks keys in
      let (left, e) = unlocks some_key ebox in
      (
        left,
        bind-ok (open_parts crypto ks config.ec_parts) ebox_unlock ebox parts ebox (run ebox) ∙ e,
      )
