-- ===== src/Ebox/Tests.antt =====
-- Instances of the theorems on eboxes, for small stand-ins of the libraries.
use pivy.Prelude.{
  ℕ, zero, suc, ◌<◌, ◌≤◌, ◌≡◌, refl, ap, sym, ◌∙◌, inl, inr, List, [], ◌∷◌, ◌++◌, Bool, true, false,
  ◌&&◌, Option, none, some, length, length-replicate, drop, replicate, ◌==◌, if◌then◌else◌,
  Bool-cases, All, IsByte, arith,
}
use pivy.Errf.{errf, no_error}
use pivy.Outcome.{ok, err}
use pivy.Apdu.{ApduBuf, empty_buf}
use pivy.Box.{PivBox, piv_box_new, full_buf}
use pivy.Box.Wire.{SshKey, SshBuf, Buf}
use pivy.Box.Wire.Carries.{Carries}
use pivy.Box.Wire.Fields.{ec_key}
use pivy.Box.Seal.{Cipher, Crypto}
use pivy.Box.Seal.Seals.{CryptoLaws}
use pivy.Box.Tests.{
  ssh, ssh-laws, p256, crypto, crypto-laws, put_short, get_short, put_short-Appends, sealed_box,
  secret,
}
use pivy.Ebox.{TplPart, TplConfig, Tpl, ebox_primary, ebox_recovery, ebox_tpl_config_remove_part}
use pivy.Ebox.Counted.{remove_part-counted}
use pivy.Ebox.Template.{EboxBuf, sshbuf_put_ebox_tpl, sshbuf_get_ebox_tpl}
use pivy.Ebox.Template.Readers.{EboxBufLaws}
use pivy.Ebox.State.{Sss, EboxPart, EboxConfig, Ebox, bytes_of, xor_bytes}
use pivy.Ebox.Create.{put_secrets}
use pivy.Ebox.Recovery.{Recovering, clear_parts, ebox_encrypt_recovery, ebox_recover}
use pivy.Ebox.Recovery.Shares.{somes, Picks, SssLaws, HasShares}
use pivy.Ebox.Recovery.RoundTrip.{recover-too_few, recover-encrypt}
use pivy.Ebox.Template.RoundTrip.{IsPart, IsTpl, sshbuf_put_ebox_tpl-Carries}

-- Only keys on P-256 can be written.
abbrev putb : SshKey ℕ → Option (List ℕ)
putb k = if k.is_ecdsa && k.ecdsa_nid == p256 then some (k.ecdsa ∷ []) else none

abbrev lib : EboxBuf ℕ
lib = record {
  ssh = ssh;
  sshkey_putb = putb;
  put_stringb = put_short;
  skip_string8 = λ b. elim (get_short b) [ none ↦ none | some (v, r) ↦ some (tt, r) ];
}

putb_lem :
    (is : Bool) (nid k : ℕ) (kbuf : List ℕ)
    → (if is && nid == p256 then some (k ∷ []) else none) ≡ some kbuf
    → ssh.sshkey_fromb kbuf ≡ some (record { is_ecdsa = is; ecdsa_nid = nid; ecdsa = k })
putb_lem false nid k kbuf h = absurd (cc h)
putb_lem true nid k kbuf h = elim (Bool-cases (nid == p256)) [
  | inl e ↦
      let full : some (k ∷ []) ≡ some kbuf = sym (rw e refl) ∙ h in
      let same : k ∷ [] ≡ kbuf = cc full in
      let known : p256 ≡ nid = ground arith in
      sym (ap ssh.sshkey_fromb same)
      ∙ ap (λ v. some (record { is_ecdsa = true; ecdsa_nid = v; ecdsa = k })) known
  | inr e ↦ let bad : none ≡ some kbuf = sym (rw e refl) ∙ h in absurd (cc bad)
]

lib-laws : EboxBufLaws lib
lib-laws = record {
  ssh_laws = ssh-laws;
  stringb = put_short-Appends;
  key = λ k kbuf h. putb_lem k.is_ecdsa k.ecdsa_nid k.ecdsa kbuf h;
}

abbrev pub named_part : TplPart ℕ
named_part = record {
  etp_name = some "nistp256";
  etp_pubkey = some (ec_key true p256 5);
  etp_cak = some (ec_key true p256 4);
  etp_slot = 0x82;
  etp_guid = replicate 16 9;
}

abbrev pub plain_part : TplPart ℕ
plain_part = record {
  etp_name = none;
  etp_pubkey = some (ec_key true p256 6);
  etp_cak = none;
  etp_slot = 0x9D;
  etp_guid = replicate 16 8;
}

abbrev primary : TplConfig ℕ
primary = record { etc_type = ebox_primary; etc_n = 1; etc_m = 1; etc_parts = plain_part ∷ [] }

abbrev both : TplConfig ℕ
both = record {
  etc_type = ebox_recovery;
  etc_n = 2;
  etc_m = 2;
  etc_parts = named_part ∷ plain_part ∷ [];
}

abbrev tpl : Tpl ℕ
tpl = record { et_version = 1; et_configs = primary ∷ both ∷ [] }

tpl-IsTpl : IsTpl lib tpl
tpl-IsTpl =
    let plain : IsPart lib plain_part =
      (p256, 6, "nistp256", refl, refl, refl, refl, omega arith) in
    let named : IsPart lib named_part =
      (p256, 5, "nistp256", refl, refl, refl, refl, omega arith) in
    (
      omega arith,
      omega arith,
      omega arith,
      omega arith,
      (
        (inl (refl, omega arith), refl, omega arith, (plain, tt)),
        ((inr refl, refl, omega arith, (named, (plain, tt))), tt),
      ),
    )

-- Something is written, so the theorem speaks of it.
tpl_is_written : (b : Buf) × (sshbuf_put_ebox_tpl lib tpl [] ≡ ok tt b) × (length b ≡ 84)
unfolding sshbuf_put_ebox_tpl pivy.Ebox.Template.put_tpl_magic pivy.Box.Wire.append_to
    pivy.Ebox.Template.put_configs pivy.Ebox.Template.sshbuf_put_ebox_tpl_config
    pivy.Ebox.Template.put_parts pivy.Ebox.Template.sshbuf_put_ebox_tpl_part pivy.Box.non_null
    pivy.Ebox.Template.put_pubkey pivy.Box.Wire.put_name pivy.Ebox.Template.put_guid
    pivy.Ebox.Template.put_part_name pivy.Ebox.Template.put_cak pivy.Ebox.Template.put_slot
    pivy.Ebox.Template.put_keyb
tpl_is_written = (_, refl, refl)

sshbuf_put_ebox_tpl-Carries_example :
    Carries (sshbuf_put_ebox_tpl lib tpl) (sshbuf_get_ebox_tpl lib 6) tpl
sshbuf_put_ebox_tpl-Carries_example =
    sshbuf_put_ebox_tpl-Carries lib lib-laws 6 (omega arith) tpl tpl-IsTpl

remove_part-counted_example :
    (config' : TplConfig ℕ) × (ebox_tpl_config_remove_part 1 both ≡ ok tt config')
    × (config'.etc_m ≡ suc (length config'.etc_parts))
remove_part-counted_example = remove_part-counted 1 both refl (omega arith)

-- Each share is a 0 and the key, so that one of them is enough.
abbrev pub sss : Sss
sss = record {
  create_keyshares = λ random key m n. replicate m (0 ∷ key);
  combine_keyshares = λ shares n. elim shares [ [] ↦ [] | share ∷ others ↦ drop 1 share ];
}

Picks-replicate :
    (m : ℕ) (x : List ℕ) (picks : List (Option (List ℕ)))
    → Picks picks (replicate m x)
    → 0 < length (somes picks)
    → (others : List (List ℕ)) × (somes picks ≡ x ∷ others)
Picks-replicate zero x [] h some_there = absurd (omega arith)
Picks-replicate zero x (o ∷ os) h some_there = absurd h
Picks-replicate (suc m) x [] h some_there = absurd h
Picks-replicate (suc m) x (none ∷ os) (h, hs) some_there = Picks-replicate m x os hs some_there
Picks-replicate (suc m) x (some a ∷ os) (inl h, hs) some_there = absurd (cc h)
Picks-replicate (suc m) x (some a ∷ os) (inr h, hs) some_there = (somes os, cc h)

combine_lem :
    (key : List ℕ) (m n : ℕ) (picks : List (Option (List ℕ))) (rest : List (List ℕ))
    → 0 < n
    → Picks picks (replicate m (0 ∷ key))
    → n ≤ length (somes picks)
    → sss.combine_keyshares (somes picks ++ rest) n ≡ key
combine_lem key m n picks rest some_n picked enough =
    let (others, e) = Picks-replicate m (0 ∷ key) picks picked (omega arith) in
    ap (λ l. sss.combine_keyshares (l ++ rest) n) e

long_shares :
    (m : ℕ) (x : List ℕ) → length x ≡ 33 → All (λ share. length share ≡ 33) (replicate m x)
long_shares zero x h = tt
long_shares (suc m) x h = (h, long_shares m x h)

pub sss-laws : SssLaws sss
sss-laws = record {
  share_length = λ random key m n size. long_shares m (0 ∷ key) (omega arith);
  create_length = λ random key m n. length-replicate m (0 ∷ key);
  combine = λ random key m n picks rest size some_n n_le_m byte_m picked enough.
      combine_lem key m n picks rest some_n picked enough;
}

-- A cipher with keys of 32 bytes.
abbrev pub gcm : Cipher
gcm = record { cipher_ivlen = 1; cipher_authlen = 1; cipher_blocksize = 4; cipher_keylen = 32 }

abbrev pub crypto32 : Crypto ℕ ℕ
crypto32 = record crypto { cipher_by_name = λ name. some gcm; ssh_digest_bytes = λ dgalg. 32 }

gcm_sizes : (c : Cipher) → some gcm ≡ some c → (c.cipher_blocksize ≡ 4) × (c.cipher_authlen ≡ 1)
gcm_sizes c h =
    let e : gcm ≡ c = cc h in
    (ap (λ (t : Cipher). t.cipher_blocksize) (sym e), ap (λ (t : Cipher). t.cipher_authlen) (sym e))

pub crypto32-laws : CryptoLaws crypto32
crypto32-laws = record {
  decrypt_encrypt = crypto-laws.decrypt_encrypt;
  encrypt_length = crypto-laws.encrypt_length;
  block_size = λ name c h. let (four, one) = gcm_sizes c h in (omega arith, omega arith);
  tag_size = λ name c h. let (four, one) = gcm_sizes c h in omega arith;
  agree = crypto-laws.agree;
  demoted_ecdsa = crypto-laws.demoted_ecdsa;
}

abbrev share : List ℕ
share = 0 ∷ xor_bytes (replicate 32 5) (replicate 32 7)

-- Three parts: one has its share from a challenge, one is sealed, and the box of one is open.
abbrev part_of : Option (List ℕ) → PivBox (SshKey ℕ) ℕ → EboxPart ℕ ℕ
part_of response box = record { ep_tpl = plain_part; ep_box = box; ep_id = 1; ep_share = response }

abbrev config : EboxConfig ℕ ℕ
config = record {
  ec_tpl = record { etc_type = ebox_recovery; etc_n = 2; etc_m = 3; etc_parts = plain_part ∷ [] };
  ec_parts =
      part_of (some share) sealed_box
      ∷ part_of none sealed_box
      ∷ part_of none (record sealed_box { pdb_plain = full_buf share })
      ∷ [];
  ec_nonce = some (replicate 32 5);
}

abbrev ebox : Ebox ℕ ℕ
ebox = record {
  e_version = 3;
  e_type = 2;
  e_configs = config ∷ [];
  e_ephemkeys = [];
  e_key = none;
  e_rcv_cipher = "aes256-gcm";
  e_rcv_key = none;
  e_rcv_iv = none;
  e_rcv_enc = none;
  e_rcv_plain = some (0x01 ∷ 2 ∷ 8 ∷ 9 ∷ 0x02 ∷ 3 ∷ secret);
  e_token = none;
}

abbrev encrypted_ebox : Ebox ℕ ℕ
encrypted_ebox = record ebox {
  e_rcv_plain = none;
  e_rcv_iv = some (4 ∷ []);
  e_rcv_key = some (replicate 32 7);
  e_rcv_enc = some (0x01 ∷ 2 ∷ 8 ∷ 9 ∷ 0x02 ∷ 3 ∷ 1 ∷ 2 ∷ 3 ∷ 3 ∷ 3 ∷ 3 ∷ 0 ∷ []);
}

ebox_is_encrypted :
    ebox_encrypt_recovery crypto32 (4 ∷ []) (replicate 32 7) ebox ≡ ok tt encrypted_ebox
unfolding ebox_encrypt_recovery
ebox_is_encrypted = refl

secrets_are_put : put_secrets ssh secret (some (8 ∷ 9 ∷ [])) [] ≡ ok tt (bytes_of ebox.e_rcv_plain)
unfolding put_secrets pivy.Ebox.Create.put_token pivy.Ebox.Create.must_append
secrets_are_put = refl

sizes_32 :
    (c : Cipher)
    → crypto32.cipher_by_name encrypted_ebox.e_rcv_cipher ≡ some c
    → (1 ≡ c.cipher_ivlen) × (32 ≡ c.cipher_keylen)
sizes_32 c h =
    let e : gcm ≡ c = cc h in
    (ap (λ (t : Cipher). t.cipher_ivlen) e, ap (λ (t : Cipher). t.cipher_keylen) e)

pub seven_bytes : (n : ℕ) → All IsByte (replicate n 7)
seven_bytes zero = tt
seven_bytes (suc n) = (omega arith, seven_bytes n)

config_has : HasShares {P = ℕ} config.ec_parts (some share ∷ none ∷ some share ∷ [])
unfolding xor_bytes pivy.Box.buf_slice pivy.Apdu.slice pivy.Box.piv_box_sealed piv_box_new
config_has = ((refl, inl refl), ((refl, refl), ((refl, inr (refl, refl, refl, λ s. refl)), tt)))

-- Two shares are needed, and there is one.
abbrev few : Recovering ℕ ℕ
few = record {
  rc_ebox = record encrypted_ebox { e_rcv_key = none };
  rc_config = record config {
    ec_parts = part_of (some share) sealed_box ∷ part_of none sealed_box ∷ [];
  };
}

few_has : HasShares few.rc_config.ec_parts (some share ∷ none ∷ [])
unfolding xor_bytes pivy.Box.piv_box_sealed piv_box_new
few_has = ((refl, inl refl), ((refl, refl), tt))

recover-encrypt_example :
    ebox_recover ssh crypto32 sss (record {
      rc_ebox = record encrypted_ebox { e_key = none; e_token = none; e_rcv_key = none };
      rc_config = config;
    })
    ≡ ok tt (record {
      rc_ebox = record encrypted_ebox {
        e_key = some secret;
        e_token = some (8 ∷ 9 ∷ []);
        e_rcv_key = some (replicate 32 7);
        e_rcv_plain = some (0x01 ∷ 2 ∷ 8 ∷ 9 ∷ 0x02 ∷ 3 ∷ secret);
      };
      rc_config = record config { ec_parts = clear_parts config.ec_parts };
    })
recover-encrypt_example =
    recover-encrypt ssh crypto32 sss ssh-laws crypto32-laws sss-laws (4 ∷ []) (replicate 32 7)
      secret (0x01 ∷ 2 ∷ 8 ∷ 9 ∷ 0x02 ∷ 3 ∷ secret) (replicate 32 5) [] (some (8 ∷ 9 ∷ [])) ebox
      encrypted_ebox config (some share ∷ none ∷ some share ∷ []) secrets_are_put (omega arith) refl
      ebox_is_encrypted sizes_32 (seven_bytes 32) refl refl refl (omega arith) (omega arith)
      (omega arith) (inr refl, (inl refl, (inr refl, tt))) (omega arith) config_has

recover-too_few_example :
    ebox_recover ssh crypto32 sss few ≡ err (errf "InsufficientParts" no_error) few
recover-too_few_example =
    recover-too_few ssh crypto32 sss few (some share ∷ none ∷ []) refl refl refl few_has
      (omega arith) (omega arith)
