-- ===== src/Ebox/Create/Tests.antt =====
-- An instance of the theorem on `ebox_create`.
use pivy.Prelude.{
  ℕ, ◌<◌, ◌^◌, ◌≡◌, subst, refl, ap, List, [], ◌∷◌, true, none, some, length, get_elem?, replicate,
  arith,
}
use pivy.Outcome.{ok, ◌>>◌, ◌>>=◌}
use pivy.Box.Wire.Fields.{ec_key}
use pivy.Box.Seal.{Cipher, Crypto, Random}
use pivy.Box.Tests.{ssh, ssh-laws, p256, secret}
use pivy.Ebox.{TplPart, TplConfig, Tpl, ebox_primary, ebox_recovery}
use pivy.Ebox.State.{EboxPart, EboxConfig, Ebox}
use pivy.Ebox.Recovery.{Recovering, ebox_recover, ebox_unlock}
use pivy.Ebox.Tests.{
  sss, sss-laws, crypto32, crypto32-laws, seven_bytes, plain_part, named_part, gcm,
}
use pivy.Ebox.Create.{Draws, put_secrets, ebox_create}
use pivy.Ebox.Create.Keys.{KeysOf, open_parts}
use pivy.Ebox.Create.Unlock.{create-unlock}
use pivy.Ebox.Create.Recover.{Recovered, open_config, create-recover}

abbrev draws : Draws ℕ
draws = record {
  rcv_iv = 4 ∷ [];
  rcv_key = replicate 32 7;
  curve_key = λ nid. some 6;
  config_nonce = λ c. replicate 32 5;
  config_random = λ c. [];
  part_random = λ c i. record { new_key = none; new_nonce = replicate 16 i; new_iv = 3 ∷ [] };
}

abbrev shared_config : TplConfig ℕ
shared_config = record {
  etc_type = ebox_recovery;
  etc_n = 2;
  etc_m = 3;
  etc_parts = named_part ∷ plain_part ∷ named_part ∷ [];
}

abbrev primary_config : TplConfig ℕ
primary_config = record {
  etc_type = ebox_primary;
  etc_n = 1;
  etc_m = 1;
  etc_parts = plain_part ∷ [];
}

-- One config for a single token, and one for two of three.
abbrev tpl : Tpl ℕ
tpl = record { et_version = 1; et_configs = primary_config ∷ shared_config ∷ [] }

is_created :
    (box : Ebox ℕ ℕ) × (config : EboxConfig ℕ ℕ) × (ebox_create crypto32 sss draws ssh tpl secret
        (some (8 ∷ 9 ∷ []))
      ≡ ok tt box)
    × (get_elem? box.e_configs 1 ≡ some config)
    × (first : EboxConfig ℕ ℕ) × (get_elem? box.e_configs 0 ≡ some first)
unfolding ebox_create pivy.Ebox.State.aside put_secrets pivy.Ebox.Create.put_token
    pivy.Ebox.Create.must_append pivy.Ebox.Recovery.ebox_encrypt_recovery
    pivy.Ebox.Create.create_configs pivy.Ebox.Create.create_config pivy.Ebox.Create.config_secrets
    pivy.Ebox.Create.create_parts pivy.Ebox.Create.create_part pivy.Ebox.clone_part
    pivy.Ebox.clone_part_key pivy.Ebox.Create.part_data pivy.Ebox.Create.must_box
    pivy.Box.piv_box_set_data pivy.Box.piv_box_new pivy.Apdu.slice pivy.Box.Seal.ephemeral_key
    pivy.Box.Seal.nonce_bytes pivy.Box.Seal.padded pivy.Box.Seal.piv_box_seal_offline
    pivy.Box.Seal.seal_cipher pivy.Box.Seal.seal_digest pivy.Box.Seal.seal_names
    pivy.Box.Seal.seal_nonce pivy.Box.Seal.seal_with pivy.Box.buf_slice pivy.Box.non_null
    pivy.Ebox.Create.ebox_make_ephem_for_nid pivy.Ebox.Create.find_ephem pivy.Ebox.Create.new_ebox
    pivy.Ebox.Create.share_of pivy.Ebox.State.xor_bits pivy.Ebox.State.xor_bytes
is_created = (_, _, refl, refl, _, refl)

gcm_ivs : (c : Cipher) (i j : ℕ) → some gcm ≡ some c → 1 ≡ c.cipher_ivlen
gcm_ivs c i j h = let e : gcm ≡ c = cc h in ap (λ (t : Cipher). t.cipher_ivlen) e

gcm_sizes : (c : Cipher) → some gcm ≡ some c → (1 ≡ c.cipher_ivlen) × (32 ≡ c.cipher_keylen)
gcm_sizes c h =
    let e : gcm ≡ c = cc h in
    (ap (λ (t : Cipher). t.cipher_ivlen) e, ap (λ (t : Cipher). t.cipher_keylen) e)

few_secrets :
    (plain : List ℕ)
    → put_secrets ssh secret (some (8 ∷ 9 ∷ [])) [] ≡ ok tt plain
    → length plain < 2 ^ 63
unfolding put_secrets pivy.Ebox.Create.put_token pivy.Ebox.Create.must_append
few_secrets plain h =
    let e : 1 ∷ 2 ∷ 8 ∷ 9 ∷ 2 ∷ 3 ∷ secret ≡ plain = cc h in
    subst (λ l. length l < 2 ^ 63) e (omega arith)

keys : KeysOf crypto32 (some 5 ∷ none ∷ some 5 ∷ []) shared_config.etc_parts
keys = ((ec_key true p256 5, refl, refl), ((ec_key true p256 5, refl, refl), tt))

-- The first and the last of the three parts have the private key 5.
create-recover_example : Recovered secret (some (8 ∷ 9 ∷ [])) (
    (open_config crypto32 (some 5 ∷ none ∷ some 5 ∷ []) >> ebox_recover ssh crypto32 sss) (record {
      rc_ebox = record (is_created.0) { e_key = none; e_token = none; e_rcv_key = none };
      rc_config = is_created.1;
    }))
create-recover_example =
    create-recover ssh crypto32 sss draws ssh-laws crypto32-laws sss-laws gcm_ivs gcm_sizes
      (seven_bytes 32) refl (λ c. refl) tpl secret (some (8 ∷ 9 ∷ [])) 1 shared_config is_created.0
      is_created.1 (some 5 ∷ none ∷ some 5 ∷ []) is_created.2 few_secrets refl refl refl
      (omega arith) (omega arith) is_created.3 keys (omega arith)

primary_keys : KeysOf crypto32 (some 6 ∷ []) primary_config.etc_parts
primary_keys = ((ec_key true p256 6, refl, refl), tt)

-- The token of the primary config has the private key 6.
create-unlock_example :
    (left : List (EboxPart ℕ ℕ)) × ((open_parts crypto32 (some 6 ∷ []) is_created.4.ec_parts
          >>= ebox_unlock)
        is_created.0
      ≡ ok left (record (is_created.0) { e_key = some secret }))
create-unlock_example =
    create-unlock crypto32 sss draws crypto32-laws gcm_ivs secret (omega arith) (omega arith) ssh
      tpl (some (8 ∷ 9 ∷ [])) 0 primary_config is_created.0 is_created.0 is_created.4 (some 6 ∷ [])
      is_created.2 refl refl is_created.5 primary_keys (omega arith)
