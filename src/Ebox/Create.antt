-- ===== src/Ebox/Create.antt =====
-- ebox.c: `ebox_create`, which makes an ebox from a template.
pub mod Steps
pub mod Parts
pub mod Keys
pub mod Opening
pub mod Configs
pub mod Recover
pub mod Unlock
pub mod Tests
use pivy.Prelude.{
  ℕ, ◌+◌, ◌-◌, ◌%◌, List, [], ◌∷◌, ◌++◌, Bool, true, false, Option, none, some, length, get_elem?,
  ◌==◌, if◌then◌else◌,
}
use pivy.Outcome.{Outcome, M, ok, err, abort, fault, stuck, ◌>>=◌, ◌>>◌, pure, get, put, verify}
use pivy.Box.{PivBox, piv_box_new, piv_box_set_data, non_null}
use pivy.Box.Wire.{SshKey, SshBuf, Buf}
use pivy.Box.Seal.{Crypto, Random, must, piv_box_seal_offline}
use pivy.Ebox.{TplPart, TplConfig, Tpl, ebox_recovery, clone_part}
use pivy.Ebox.State.{EboxPart, EboxConfig, Ebox, Sss, xor_bytes, aside}
use pivy.Ebox.Recovery.{ebox_encrypt_recovery}

-- `e_type` and the version after the last.
abbrev pub ebox_key : ℕ
ebox_key = 0x02

abbrev pub ebox_vnext : ℕ
ebox_vnext = 4

-- `VERIFY0` of a call that appends.
unfoldable pub must_append : (Buf → Option Buf) → M Buf (Unit {0})
must_append f b = elim (f b) [ none ↦ abort | some b' ↦ ok tt b' ]

module _ {EC : Type 0} (ssh : SshBuf EC) where
  open ssh use {put_u8, put_string8}

  -- The data of the recovery box, that `ebox_create` puts together.
  unfoldable pub put_token : Option (List ℕ) → M Buf (Unit {0})
  put_token none = pure tt
  put_token (some token) = do must_append (put_u8 0x01); must_append (put_string8 token)

  unfoldable pub put_secrets : List ℕ → Option (List ℕ) → M Buf (Unit {0})
  put_secrets key token = do
    put_token token
    must_append (put_u8 0x02)
    must_append (put_string8 key)

-- What `sshkey_generate` and `arc4random_buf` give: the IV and the key of the recovery box, a key
-- for each curve, a nonce and the bytes of the sharing for each config, and what sealing draws for
-- each part of a config.
pub record Draws (P : Type 0) : Type 0 where
  pub rcv_iv : List ℕ
  pub rcv_key : List ℕ
  pub curve_key : ℕ → Option P
  pub config_nonce : ℕ → List ℕ
  pub config_random : ℕ → List ℕ
  pub part_random : ℕ → ℕ → Random P

-- `key` and `keylen` or the shares, and the nonce of the config.
pub record Secrets : Type 0 where
  pub sc_nonce : Option (List ℕ)
  pub sc_shares : Option (List (List ℕ))

-- `shares[id - 1]`, of an `id` that is a `uint8_t`.
unfoldable pub share_of : {S : Type 0} → List (List ℕ) → ℕ → M S (List ℕ)
share_of shares id =
    if id == 0
    then (λ s. fault)
    else (λ s. elim (get_elem? shares (id - 1)) [ none ↦ fault | some share ↦ ok share s ])

-- `VERIFY0` of a step on a box.
unfoldable pub must_box : {S B : Type 0} → M B (Unit {0}) → B → M S B
must_box m box s = elim (m box) [
  | ok u box' ↦ ok box' s
  | err e box' ↦ abort
  | abort ↦ abort
  | fault ↦ fault
  | stuck ↦ stuck
]

unfoldable pub find_ephem : {P : Type 0} → ℕ → List (ℕ × P) → Option P
find_ephem nid [] = none
find_ephem nid ((nid', key) ∷ keys) = if nid' == nid then some key else find_ephem nid keys

module _ {EC P : Type 0} (draws : Draws P) where
  unfoldable pub ebox_make_ephem_for_nid : ℕ → M (Ebox EC P) P
  ebox_make_ephem_for_nid nid box = elim (find_ephem nid box.e_ephemkeys) [
    | some key ↦ ok key box
    | none ↦ elim (draws.curve_key nid) [
      | none ↦ abort
      | some key ↦ ok key (record box { e_ephemkeys = (nid, key) ∷ box.e_ephemkeys })
    ]
  ]

unfoldable pub part_data : {S : Type 0} → List ℕ → Option (List (List ℕ)) → ℕ → M S (List ℕ)
part_data key none id = pure key
part_data key (some shares) id = share_of shares id

-- What `calloc` gives, the version, the type and the cipher.
unfoldable pub new_ebox : {EC P : Type 0} → Ebox EC P
new_ebox = record {
  e_version = ebox_vnext - 1;
  e_type = ebox_key;
  e_configs = [];
  e_ephemkeys = [];
  e_key = none;
  e_rcv_cipher = "aes256-gcm";
  e_rcv_key = none;
  e_rcv_iv = none;
  e_rcv_enc = none;
  e_rcv_plain = none;
  e_token = none;
}

module _ {EC P : Type 0} (crypto : Crypto EC P) (sss : Sss) (draws : Draws P) where
  -- The key of the recovery box is masked with a nonce and shared out.
  unfoldable pub config_secrets : ℕ → TplConfig EC → M (Ebox EC P) Secrets
  config_secrets c tconfig =
      if tconfig.etc_type == ebox_recovery
      then (do
        box ← get
        key ← must box.e_rcv_key
        verify (length key == 32)
        let nonce = draws.config_nonce c
        pure (record {
          sc_nonce = some nonce;
          sc_shares = some (
              sss.create_keyshares (draws.config_random c) (xor_bytes nonce key) tconfig.etc_m
                tconfig.etc_n);
        }))
      else pure (record { sc_nonce = none; sc_shares = none })

  -- Part `i` of config `c`, from 1 on; the guid of a template is 16 bytes.
  unfoldable pub create_part :
      List ℕ → ℕ → Option (List (List ℕ)) → ℕ → TplPart EC → M (Ebox EC P) (EboxPart EC P)
  create_part key c shares i tpart = do
    part ← clone_part crypto tpart
    contents ← part_data key shares (i % 256)
    full ← must_box (piv_box_set_data contents) (record (piv_box_new {K = SshKey EC} {P = P}) {
      pdb_guid = tpart.etp_guid;
      pdb_slot = tpart.etp_slot;
      pdb_guidslot_valid = true;
    })
    pubkey ← non_null tpart.etp_pubkey
    ephem ← ebox_make_ephem_for_nid draws pubkey.ecdsa_nid
    sealed ←
        must_box (piv_box_seal_offline crypto (draws.part_random c i) pubkey)
          (record full { pdb_ephem = some ephem })
    pure (record { ep_tpl = part; ep_box = sealed; ep_id = i % 256; ep_share = none })

  unfoldable pub create_parts :
      List ℕ
      → ℕ
      → Option (List (List ℕ))
      → ℕ
      → List (TplPart EC)
      → M (Ebox EC P) (List (EboxPart EC P))
  create_parts key c shares i [] = pure []
  create_parts key c shares i (tpart ∷ tparts) = do
    part ← create_part key c shares i tpart
    parts ← create_parts key c shares (i + 1) tparts
    pure (part ∷ parts)

  unfoldable pub create_config : List ℕ → ℕ → TplConfig EC → M (Ebox EC P) (EboxConfig EC P)
  create_config key c tconfig = do
    secrets ← config_secrets c tconfig
    parts ← create_parts key c secrets.sc_shares 1 tconfig.etc_parts
    pure (record {
      ec_tpl = record tconfig { etc_parts = [] };
      ec_parts = parts;
      ec_nonce = secrets.sc_nonce;
    })

  unfoldable pub create_configs :
      List ℕ → ℕ → List (TplConfig EC) → M (Ebox EC P) (List (EboxConfig EC P))
  create_configs key c [] = pure []
  create_configs key c (tconfig ∷ tconfigs) = do
    config ← create_config key c tconfig
    configs ← create_configs key (c + 1) tconfigs
    pure (config ∷ configs)

  -- The ebox in it is the state at the end.
  unfoldable pub ebox_create :
      SshBuf EC → Tpl EC → List ℕ → Option (List ℕ) → Outcome (Ebox EC P) (Unit {0})
  ebox_create ssh tpl key token =
      (do
        (u, plain) ← aside (put_secrets ssh key token) []
        (λ box. ok tt (record box { e_rcv_plain = some plain }))
        ebox_encrypt_recovery crypto draws.rcv_iv draws.rcv_key
        configs ← create_configs key 0 tpl.et_configs
        (λ box. ok tt (record box { e_configs = configs })))
        new_ebox
