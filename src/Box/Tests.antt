-- ===== src/Box/Tests.antt =====
-- Instances of the theorems on PIV boxes, for small stand-ins of the libraries.
use pivy.Prelude.{
  ℕ, ◌+◌, ◌-◌, ◌<◌, ◌≡◌, refl, ap, subst, ◌∙◌, sym, inl, inr, List, [], ◌∷◌, ◌++◌, Bool, true,
  false, not, Option, none, some, String, length, length-append, length-take, length-replicate,
  take, drop, replicate, leb, le→leb, ◌==◌, if◌then◌else◌, Bool-cases, arith,
}
use text.Mathlib.Text.{◌==◌ as str_eq}
use text.Mathlib.TextEquality.{eq_iff}
use pivy.Apdu.Safe.{NoFault}
use pivy.Outcome.{◌>>◌, ok}
use pivy.Apdu.{ApduBuf, empty_buf}
use pivy.Apdu.Blocks.{take-length}
use pivy.Box.{
  PivBox, piv_box_new, full_buf, box_v1, box_v2, box_vnext, or_default, default_cipher, default_kdf,
  piv_box_take_data,
}
use pivy.Box.Wire.{SshKey, SshBuf, Buf, sshbuf_put_piv_box, sshbuf_get_piv_box}
use pivy.Box.Wire.Carries.{Carries, Appends}
use pivy.Box.Wire.Fields.{SshBufLaws, ec_key, wire_form}
use pivy.Outcome.Ends.{Ends}
use pivy.Box.Wire.RoundTrip.{sshbuf_put_piv_box-Carries}
use pivy.Box.Wire.WellFormed.{IsBox, sshbuf_get_piv_box-IsBox}
use pivy.Box.Binary.{piv_box_to_binary, is_old, piv_box_from_binary}
use pivy.Box.Binary.RoundTrip.{from-to_binary}
use pivy.Box.Binary.Versions.{IsRead, piv_box_from_binary-IsRead, sshbuf_get_piv_box-magic}
use pivy.Box.Seal.{
  Cipher, Crypto, Random, strip_padding, piv_box_open_offline, piv_box_seal_offline,
}
use pivy.Box.Seal.Padding.{Stripped, strip_padding-Stripped}
use pivy.Box.Seal.Seals.{CryptoLaws, seal-open}
use pivy.Box.Seal.Safe.{CipherLaws, from_binary-open-NoFault}

-- A string is a length of one byte and its bytes.
abbrev pub put_short : List ℕ → Buf → Option Buf
put_short v b = some (b ++ (length v ∷ v))

abbrev pub get_short : Buf → Option (List ℕ × Buf)
get_short [] = none
get_short (n ∷ r) = if leb n (length r) then some (take n r, drop n r) else none

abbrev pub get_octet : Buf → Option (ℕ × Buf)
get_octet [] = none
get_octet (v ∷ r) = some (v, r)

drop-append : (v rest : List ℕ) → drop (length v) (v ++ rest) ≡ rest
drop-append [] rest = refl
drop-append (x ∷ v) rest = drop-append v rest

pub put_short-Appends : (v : List ℕ) → Appends (put_short v) get_short v
put_short-Appends v b b' h = (
  length v ∷ v,
  cc h,
  λ rest.
      rw
        (
          le→leb (length v) (length (v ++ rest)) (omega (arith, length-append v rest)),
          take-length v rest (length v) refl,
          drop-append v rest,
        )
        refl,
)

-- Three names, one byte each.
abbrev name_of : ℕ → Option String
name_of n =
    if n == 1
    then some "nistp256"
    else if n == 2
    then some default_cipher
    else if n == 3
    then some default_kdf
    else none

abbrev put_known : String → Buf → Option Buf
put_known v b =
    if str_eq v "nistp256"
    then some (b ++ (1 ∷ []))
    else if str_eq v default_cipher
    then some (b ++ (2 ∷ []))
    else if str_eq v default_kdf
    then some (b ++ (3 ∷ []))
    else none

abbrev get_known : Buf → Option (String × Buf)
get_known [] = none
get_known (n ∷ r) = elim (name_of n) [ none ↦ none | some name ↦ some (name, r) ]

taken :
    (v name : String) (n : ℕ) (b b' : Buf)
    → name_of n ≡ some name
    → str_eq v name ≡ true
    → some (b ++ (n ∷ [])) ≡ some b'
    → (e : Buf) × (b' ≡ b ++ e) × ((rest : Buf) → get_known (e ++ rest) ≡ some (v, rest))
taken v name n b b' known same h = (
  n ∷ [],
  cc h,
  λ rest. rw (known, get_known) (ap (λ t. some (t, rest)) (sym ((eq_iff v name).0 same))),
)

no_name :
    (v : String) (b b' : Buf)
    → str_eq v "nistp256" ≡ false
    → str_eq v default_cipher ≡ false
    → str_eq v default_kdf ≡ false
    → put_known v b ≡ some b'
    → ⊥
no_name v b b' e1 e2 e3 h = ground arith

put_known-Appends : (v : String) → Appends (put_known v) get_known v
put_known-Appends v b b' h = elim (Bool-cases (str_eq v "nistp256")) [
  | inl one ↦ taken v "nistp256" 1 b b' refl one (sym (rw one refl) ∙ h)
  | inr not_one ↦ elim (Bool-cases (str_eq v default_cipher)) [
    | inl two ↦ taken v default_cipher 2 b b' refl two (sym (rw (not_one, two) refl) ∙ h)
    | inr not_two ↦ elim (Bool-cases (str_eq v default_kdf)) [
      | inl three ↦
          taken v default_kdf 3 b b' refl three (sym (rw (not_one, not_two, three) refl) ∙ h)
      | inr not_three ↦ absurd (no_name v b b' not_one not_two not_three h)
    ]
  ]
]

abbrev pub p256 : ℕ
p256 = 415

abbrev nid_name : ℕ → Option String
nid_name nid = if nid == p256 then some "nistp256" else none

abbrev name_nid : String → Option ℕ
name_nid name = if str_eq name "nistp256" then some p256 else none

-- A point is one byte, and the point at infinity is 0.
abbrev pub ssh : SshBuf ℕ
ssh = record {
  put_u8 = λ v b. some (b ++ (v ∷ []));
  get_u8 = get_octet;
  put_string8 = put_short;
  get_string8 = get_short;
  put_cstring8 = put_known;
  get_cstring8 = get_known;
  put_string = put_short;
  get_string = get_short;
  get_cstring = get_known;
  get_stringb = get_short;
  put_eckey8 = λ k b. some (b ++ (k ∷ []));
  get_eckey8 = λ nid. get_octet;
  sshkey_fromb = λ kbuf. elim kbuf [ [] ↦ none | k ∷ r ↦ some (ec_key true p256 k) ];
  curve_nid_to_name = nid_name;
  curve_name_to_nid = name_nid;
  ec_validate_public = λ nid k. not (k == 0);
}

some_name :
    (c : Bool) (name : String)
    → (if c then some "nistp256" else none) ≡ some name
    → (name ≡ "nistp256") × (c ≡ true)
some_name true name h = (cc h, refl)
some_name false name h = absurd (cc h)

p256_is : (nid : ℕ) → (nid == p256) ≡ true → p256 ≡ nid
p256_is nid h = ground arith

nid_lem : (nid : ℕ) (name : String) → nid_name nid ≡ some name → name_nid name ≡ some nid
nid_lem nid name h =
    let (same, known) = some_name (nid == p256) name h in
    ap name_nid same ∙ ap some (p256_is nid known)

pub ssh-laws : SshBufLaws ssh
ssh-laws = record {
  u8 = λ v b b' h. cc h;
  u8_back = λ v rest. refl;
  string8_empty = λ rest. rw (le→leb 0 (length rest) (omega arith)) refl;
  string8 = put_short-Appends;
  cstring8 = put_known-Appends;
  string = put_short-Appends;
  eckey8 = λ nid k good b b' h. (k ∷ [], cc h, λ rest. refl);
  curve = nid_lem;
}

-- A box for a token, as it is after it was sealed.
abbrev box : PivBox (SshKey ℕ) ℕ
box = record (piv_box_new {K = SshKey ℕ} {P = ℕ}) {
  pdb_version = 2;
  pdb_guidslot_valid = true;
  pdb_guid = replicate 16 9;
  pdb_slot = 0x9D;
  pdb_ephem_pub = some (ec_key true p256 6);
  pdb_pub = some (ec_key true p256 5);
  pdb_cipher = some default_cipher;
  pdb_kdf = some default_kdf;
  pdb_nonce = full_buf (1 ∷ 2 ∷ []);
  pdb_iv = full_buf [];
  pdb_enc = full_buf (7 ∷ 8 ∷ 9 ∷ []);
}

abbrev box_bytes : List ℕ
box_bytes =
    0xB0
    ∷ 0xC5
    ∷ 2
    ∷ 1
    ∷ 16
    ∷ (replicate 16 9 ++ (0x9D ∷ 2 ∷ 3 ∷ 2 ∷ 1 ∷ 2 ∷ 1 ∷ 5 ∷ 6 ∷ 0 ∷ 3 ∷ 7 ∷ 8 ∷ 9 ∷ []))

box_is_sent : piv_box_to_binary ssh box ≡ ok box_bytes tt
unfolding piv_box_to_binary pivy.Box.Binary.whole_buffer sshbuf_put_piv_box pivy.Box.non_null
    pivy.Box.Wire.check_keys pivy.Box.Wire.put_magic pivy.Box.Wire.append_to
    pivy.Box.Wire.put_fields pivy.Box.Wire.put_guidslot pivy.Box.Wire.put_name
    pivy.Box.Wire.put_nonce pivy.Box.Wire.memory pivy.Apdu.slice pivy.Box.Wire.put_curve
    pivy.Box.Wire.put_bytes8 pivy.Box.Wire.put_bytes32
box_is_sent = refl

sshbuf_put_piv_box-Carries_example :
    Carries
      (sshbuf_put_piv_box ssh box)
      (sshbuf_get_piv_box ssh)
      (wire_form box (ec_key true p256 5) (ec_key true p256 6))
sshbuf_put_piv_box-Carries_example =
    sshbuf_put_piv_box-Carries ssh ssh-laws box (ec_key true p256 5) (ec_key true p256 6) refl refl
      (omega arith) (omega arith) refl refl refl

from-to_binary_example :
    piv_box_from_binary ssh box_bytes
    ≡ ok (wire_form box (ec_key true p256 5) (ec_key true p256 6)) []
from-to_binary_example =
    from-to_binary ssh ssh-laws box (ec_key true p256 5) (ec_key true p256 6) box_bytes refl refl
      (omega arith) (omega arith) refl refl refl box_is_sent

sshbuf_get_piv_box-IsBox_example :
    Ends (λ b rest. IsBox {P = ℕ} ssh b) (λ e b. Unit) (sshbuf_get_piv_box ssh {P = ℕ} box_bytes)
sshbuf_get_piv_box-IsBox_example = sshbuf_get_piv_box-IsBox ℕ ssh box_bytes

piv_box_from_binary-IsRead_example :
    Ends (IsRead ℕ ssh box_bytes) (λ e rest. Unit) (piv_box_from_binary ssh {P = ℕ} box_bytes)
piv_box_from_binary-IsRead_example = piv_box_from_binary-IsRead ℕ ssh box_bytes

-- One byte of the magic number is wrong.
sshbuf_get_piv_box-magic_example :
    sshbuf_get_piv_box ssh {P = ℕ} (0x00 ∷ 0xC5 ∷ drop 2 box_bytes)
    ≡ sshbuf_get_piv_box ssh {P = ℕ} (0xB0 ∷ 0xC5 ∷ drop 2 box_bytes)
sshbuf_get_piv_box-magic_example =
    sshbuf_get_piv_box-magic ℕ ssh ssh-laws 0x00 0xC5 (drop 2 box_bytes) (inr refl)

strip_padding-Stripped_example :
    Stripped {S = List ℕ} 4
      (1 ∷ 2 ∷ 3 ∷ 3 ∷ 3 ∷ [])
      []
      (strip_padding 4 5 (1 ∷ 2 ∷ 3 ∷ 3 ∷ 3 ∷ []) [])
strip_padding-Stripped_example =
    strip_padding-Stripped {S = List ℕ} 4 (1 ∷ 2 ∷ 3 ∷ 3 ∷ 3 ∷ []) [] (omega arith) (omega arith)
      (omega arith)

-- A private key is a number, and its point is the same number; the tag of a ciphertext is zeros.
abbrev pub tagged : Cipher
tagged = record { cipher_ivlen = 0; cipher_authlen = 1; cipher_blocksize = 4; cipher_keylen = 1 }

abbrev untagged : Cipher
untagged = record { cipher_ivlen = 0; cipher_authlen = 0; cipher_blocksize = 4; cipher_keylen = 1 }

abbrev cipher_of : String → Option Cipher
cipher_of name =
    if str_eq name default_cipher
    then some tagged
    else if str_eq name "aes256-cbc"
    then some untagged
    else none

abbrev pub untag : Cipher → List ℕ → Option (List ℕ)
untag c enc =
    if leb c.cipher_authlen (length enc)
    then some (take (length enc - c.cipher_authlen) enc)
    else none

abbrev pub crypto : Crypto ℕ ℕ
crypto = record {
  cipher_by_name = cipher_of;
  ssh_digest_alg_by_name = λ name. some 0;
  ssh_digest_bytes = λ dgalg. 2;
  ssh_digest = λ dgalg bytes. bytes;
  encrypt = λ c key iv plain. some (plain ++ replicate c.cipher_authlen 0);
  decrypt = λ c key iv enc. untag c enc;
  ecdh_compute_key = λ point key. some ((point + key) ∷ []);
  sshkey_demote = λ key. some (ec_key true p256 key);
  demote_public = λ key. some key;
}

pub some_if : {A : Type 0} (b : Bool) (x y : A) → (if b then some x else none) ≡ some y → x ≡ y
some_if true x y h = cc h
some_if false x y h = absurd (cc h)

untag-length :
    (c : Cipher) (enc plain : List ℕ)
    → untag c enc ≡ some plain
    → length plain ≡ length enc - c.cipher_authlen
untag-length c enc plain h =
    let e =
      some_if (leb c.cipher_authlen (length enc)) (take (length enc - c.cipher_authlen) enc) plain
        h in
    sym (ap length e) ∙ length-take (length enc - c.cipher_authlen) enc ∙ omega arith

pub untag-append :
    (c : Cipher) (plain : List ℕ) → untag c (plain ++ replicate c.cipher_authlen 0) ≡ some plain
untag-append c plain =
    let whole : length (plain ++ replicate c.cipher_authlen 0) ≡ length plain + c.cipher_authlen =
      length-append plain (replicate c.cipher_authlen 0)
      ∙ ap (λ k. length plain + k) (length-replicate c.cipher_authlen 0) in
    let rest : length (plain ++ replicate c.cipher_authlen 0) - c.cipher_authlen ≡ length plain =
      omega arith in
    rw
      (
        le→leb c.cipher_authlen (length (plain ++ replicate c.cipher_authlen 0)) (omega arith),
        rest,
        take-length plain (replicate c.cipher_authlen 0) (length plain) refl,
      )
      refl

of_cipher :
    (t c : Cipher)
    → t ≡ c
    → (t.cipher_blocksize ≡ 4) × (t.cipher_authlen < 2)
    → (c.cipher_blocksize ≡ 4) × (c.cipher_authlen < 2)
of_cipher t c e h = subst (λ (x : Cipher). (x.cipher_blocksize ≡ 4) × (x.cipher_authlen < 2)) e h

sizes :
    (b b2 : Bool) (c : Cipher)
    → (if b then some tagged else if b2 then some untagged else none) ≡ some c
    → (c.cipher_blocksize ≡ 4) × (c.cipher_authlen < 2)
sizes true b2 c h = let e : tagged ≡ c = cc h in of_cipher tagged c e (refl, omega arith)
sizes false true c h = let e : untagged ≡ c = cc h in of_cipher untagged c e (refl, omega arith)
sizes false false c h = absurd (cc h)

cipher_sizes :
    (name : String) (c : Cipher)
    → cipher_of name ≡ some c
    → (c.cipher_blocksize ≡ 4) × (c.cipher_authlen < 2)
cipher_sizes name c h = sizes (str_eq name default_cipher) (str_eq name "aes256-cbc") c h

agrees :
    (a b : ℕ) (pub_a pub_b : SshKey ℕ)
    → some (ec_key true p256 a) ≡ some pub_a
    → some (ec_key true p256 b) ≡ some pub_b
    → some ((pub_b.ecdsa + a) ∷ []) ≡ some ((pub_a.ecdsa + b) ∷ [])
agrees a b pub_a pub_b ha hb =
    let ea : ec_key true p256 a ≡ pub_a = cc ha in
    let eb : ec_key true p256 b ≡ pub_b = cc hb in
    let na = ap (λ (k : SshKey ℕ). k.ecdsa) ea in
    let nb = ap (λ (k : SshKey ℕ). k.ecdsa) eb in
    let same : pub_b.ecdsa + a ≡ pub_a.ecdsa + b = omega arith in ap (λ k. some (k ∷ [])) same

pub crypto-laws : CryptoLaws crypto
crypto-laws = record {
  decrypt_encrypt = λ c key iv plain enc h. ap (untag c) (cc h) ∙ untag-append c plain;
  encrypt_length = λ c key iv plain enc h.
      let e : plain ++ replicate c.cipher_authlen 0 ≡ enc = cc h in
      sym (ap length e)
      ∙ length-append plain (replicate c.cipher_authlen 0)
      ∙ ap (λ k. length plain + k) (length-replicate c.cipher_authlen 0);
  block_size = λ name c h. let (four, tag) = cipher_sizes name c h in (omega arith, omega arith);
  tag_size = λ name c h. let (four, tag) = cipher_sizes name c h in omega arith;
  agree = λ a b pub_a pub_b ha hb. agrees a b pub_a pub_b ha hb;
  demoted_ecdsa = λ a pub_a h.
      let e : ec_key true p256 a ≡ pub_a = cc h in sym (ap (λ (k : SshKey ℕ). k.is_ecdsa) e);
}

cipher-laws : CipherLaws crypto
cipher-laws = record {
  decrypt_length = λ c key iv enc plain h. untag-length c enc plain h;
  some_block = λ name c h. let (four, tag) = cipher_sizes name c h in omega arith;
}

abbrev pub secret : List ℕ
secret = 1 ∷ 2 ∷ 3 ∷ []

abbrev pub random : Random ℕ
random = record { new_key = some 6; new_nonce = replicate 16 8; new_iv = [] }

abbrev pub open_box : PivBox (SshKey ℕ) ℕ
open_box = record (piv_box_new {K = SshKey ℕ} {P = ℕ}) { pdb_plain = full_buf secret }

abbrev pub sealed_box : PivBox (SshKey ℕ) ℕ
sealed_box = record (piv_box_new {K = SshKey ℕ} {P = ℕ}) {
  pdb_ephem_pub = some (ec_key true p256 6);
  pdb_pub = some (ec_key true p256 5);
  pdb_cipher = some default_cipher;
  pdb_kdf = some default_kdf;
  pdb_nonce = full_buf (replicate 16 8);
  pdb_iv = full_buf [];
  pdb_enc = full_buf (1 ∷ 2 ∷ 3 ∷ 1 ∷ 0 ∷ []);
}

pub box_is_sealed :
    piv_box_seal_offline crypto random (ec_key true p256 5) open_box ≡ ok tt sealed_box
unfolding piv_box_seal_offline pivy.Box.Seal.ephemeral_key piv_box_new pivy.Box.Seal.seal_names
    pivy.Box.Seal.seal_cipher pivy.Box.Seal.seal_nonce pivy.Box.Seal.seal_digest
    pivy.Box.Seal.seal_with pivy.Box.Seal.nonce_bytes pivy.Box.buf_slice pivy.Apdu.slice
    pivy.Box.Seal.padded
box_is_sealed = refl

pub no_iv : (c : Cipher) → cipher_of default_cipher ≡ some c → length random.new_iv ≡ c.cipher_ivlen
no_iv c h = let e : tagged ≡ c = cc h in ap (λ (t : Cipher). t.cipher_ivlen) e

seal-open_example :
    (piv_box_open_offline crypto 5 >> piv_box_take_data) sealed_box
    ≡ ok secret (record sealed_box { pdb_plain = empty_buf })
unfolding piv_box_new
seal-open_example =
    seal-open crypto crypto-laws random 5 (ec_key true p256 5) secret open_box sealed_box refl
      (omega arith) refl no_iv box_is_sealed

new_format :
    is_old box_bytes ≡ true
    → (k : SshKey ℕ) → some (ec_key true p256 6) ≡ some k
    → k.is_ecdsa ≡ true
new_format old k h =
    let e : ec_key true p256 6 ≡ k = cc h in sym (ap (λ (t : SshKey ℕ). t.is_ecdsa) e)

from_binary-open-NoFault_example :
    NoFault
      (λ u. Unit {0})
      (piv_box_open_offline crypto 5 (wire_form box (ec_key true p256 5) (ec_key true p256 6)))
from_binary-open-NoFault_example =
    from_binary-open-NoFault crypto cipher-laws ssh 5 box_bytes []
      (wire_form box (ec_key true p256 5) (ec_key true p256 6)) from-to_binary_example new_format
      (omega arith)
