-- ===== src/Ebox/Recovery.antt =====
-- ebox.c: how an ebox is unlocked or recovered, and the recovery box in it.
pub mod Xor
pub mod Padded
pub mod Shares
pub mod Secrets
pub mod RoundTrip
use pivy.Prelude.{
  ℕ, zero, suc, ◌+◌, ◌-◌, ◌*◌, ◌/◌, ◌%◌, List, [], ◌∷◌, ◌++◌, Bool, true, false, not, ◌&&◌, ◌||◌,
  Option, none, some, String, length, take, replicate, ltb, leb, ◌==◌, if◌then◌else◌,
}
use pivy.Errf.{Errf, errf, no_error}
use pivy.Outcome.{
  Outcome, M, ok, err, abort, fault, stuck, ◌>>=◌, ◌>>◌, pure, fail, fail_if, get, put, verify,
  on_error,
}
use pivy.Box.{PivBox, buf_slice, piv_box_sealed, piv_box_take_data}
use pivy.Box.Wire.{SshKey, SshBuf, Buf, ssherrf, append_to}
use pivy.Box.Seal.{Cipher, Crypto, found, must, strip_padding}
use pivy.Ebox.{TplPart, TplConfig}
use pivy.Ebox.State.{
  EboxPart, EboxConfig, Ebox, Sss, keyshare_len, xor_bits, xor_bytes, aside, is_empty, bytes_of,
}
use pivy.Ebox.Template.{read}

abbrev pub already_unlocked : Errf
already_unlocked = errf "AlreadyUnlocked" no_error

-- The loop of `ebox_recover` over the parts, for shares from `shares[i]` on; `shares` has room for
-- `m` of them.
unfoldable pub store_share : {S : Type 0} → ℕ → ℕ → List ℕ → M S (Unit {0})
store_share m i share s = if ltb i m then ok tt s else fault

unfoldable pub box_share : {K P S : Type 0} → PivBox K P → M S (List ℕ)
box_share box = do verify (box.pdb_plain.b_len == keyshare_len); buf_slice box.pdb_plain

-- `share = &shares[i++]`, for a part that has a share.
unfoldable pub keep_share :
    {S : Type 0} → ℕ → ℕ → (ℕ → M S (List (List ℕ))) → Option (List ℕ) → M S (List (List ℕ))
keep_share m i next none = next i
keep_share m i next (some share) = do
  store_share m i share
  shares ← next (i + 1)
  pure (share ∷ shares)

module _ {EC P : Type 0} where
  -- The share that a part has: one of its own, or the contents of its box if that is open.
  unfoldable pub part_share : {S : Type 0} → EboxPart EC P → M S (Option (List ℕ))
  part_share part =
      if not (is_empty part.ep_share)
      then (do
        verify (length (bytes_of part.ep_share) == keyshare_len)
        pure (some (bytes_of part.ep_share)))
      else if not (piv_box_sealed part.ep_box)
      then (do share ← box_share part.ep_box; pure (some share))
      else pure none

  unfoldable pub collect_shares : {S : Type 0} → ℕ → List (EboxPart EC P) → ℕ → M S (List (List ℕ))
  collect_shares m [] i = pure []
  collect_shares m (part ∷ parts) i = do
    share ← part_share part
    keep_share m i (collect_shares m parts) share

  -- At the end the shares are taken away, and the open boxes are shut.
  unfoldable pub clear_part : EboxPart EC P → EboxPart EC P
  clear_part part = record part {
    ep_share = none;
    ep_box =
        if not (piv_box_sealed part.ep_box)
        then record (part.ep_box) {
          pdb_plain = record (part.ep_box.pdb_plain) { b_data = none; b_size = 0; b_len = 0 };
        }
        else part.ep_box;
  }

  unfoldable pub clear_parts : List (EboxPart EC P) → List (EboxPart EC P)
  clear_parts [] = []
  clear_parts (part ∷ parts) = clear_part part ∷ clear_parts parts

  -- The first part with an open box that has data in it.
  unfoldable pub ebox_unlock : List (EboxPart EC P) → M (Ebox EC P) (List (EboxPart EC P))
  ebox_unlock [] box = err (errf "InsufficientParts" no_error) box
  ebox_unlock (part ∷ parts) box =
      let rest = (do others ← ebox_unlock parts; pure (part ∷ others)) in
      if piv_box_sealed part.ep_box || ltb part.ep_box.pdb_plain.b_len 1
      then rest box
      else elim (piv_box_take_data part.ep_box) [
        | ok key shut ↦ ok (record part { ep_box = shut } ∷ parts) (record box { e_key = some key })
        | err e shut ↦ err e box
        | abort ↦ abort
        | fault ↦ fault
        | stuck ↦ stuck
      ]

module _ {EC P : Type 0} (crypto : Crypto EC P) where
  open crypto use {cipher_by_name, encrypt, decrypt}

  unfoldable pub ebox_decrypt_recovery : M (Ebox EC P) (Unit {0})
  ebox_decrypt_recovery = do
    box ← get
    cipher ← found (cipher_by_name box.e_rcv_cipher) (errf "BadAlgorithmError" no_error)
    verify (ltb 0 cipher.cipher_authlen)
    iv ← must box.e_rcv_iv
    fail_if (ltb (length iv) cipher.cipher_ivlen) (errf "LengthError" no_error)
    key ← must box.e_rcv_key
    fail_if (ltb (length key) cipher.cipher_keylen) (errf "LengthError" no_error)
    enc ← must box.e_rcv_enc
    fail_if (ltb (length enc) (cipher.cipher_blocksize + cipher.cipher_authlen))
        (errf "LengthError" no_error)
    plain ←
        found (decrypt cipher (take cipher.cipher_keylen key) (take cipher.cipher_ivlen iv) enc)
          ssherrf
    reallen ←
        on_error (λ e. errf "InvalidPadding" no_error)
          (strip_padding cipher.cipher_blocksize (length enc - cipher.cipher_authlen) plain)
    put (record box { e_rcv_plain = some (take reallen plain) })

  -- With the IV and the key that `arc4random_buf` gives.
  unfoldable pub ebox_encrypt_recovery : List ℕ → List ℕ → M (Ebox EC P) (Unit {0})
  ebox_encrypt_recovery iv key = do
    box ← get
    cipher ← must (cipher_by_name box.e_rcv_cipher)
    verify (ltb 0 cipher.cipher_authlen)
    (if cipher.cipher_blocksize == 0 then (λ s. fault) else pure tt)
    let plain = bytes_of box.e_rcv_plain
    let padding = cipher.cipher_blocksize - length plain % cipher.cipher_blocksize
    enc ← must (encrypt cipher key iv (plain ++ replicate padding (padding % 256)))
    put (record box {
      e_rcv_plain = none;
      e_rcv_iv = some iv;
      e_rcv_key = some key;
      e_rcv_enc = some enc;
    })

-- The ebox and the config that `ebox_recover` is given.
pub record Recovering (EC P : Type 0) : Type 0 where
  pub rc_ebox : Ebox EC P
  pub rc_config : EboxConfig EC P

module _ {EC P : Type 0} where
  -- A step on the ebox alone.
  unfoldable pub on_ebox : {A : Type 0} → M (Ebox EC P) A → M (Recovering EC P) A
  on_ebox m s = elim (m s.rc_ebox) [
    | ok a box ↦ ok a (record s { rc_ebox = box })
    | err e box ↦ err e (record s { rc_ebox = box })
    | abort ↦ abort
    | fault ↦ fault
    | stuck ↦ stuck
  ]

  unfoldable pub set_rcv_key : List ℕ → M (Ebox EC P) (Unit {0})
  set_rcv_key key box = ok tt (record box { e_rcv_key = some key })

  unfoldable pub set_token : List ℕ → M (Ebox EC P) (Unit {0})
  set_token token box = ok tt (record box { e_token = some token })

  unfoldable pub set_key : List ℕ → M (Ebox EC P) (Unit {0})
  set_key key box = ok tt (record box { e_key = some key })

  -- A pointer that is set or a length that is not 0.
  unfoldable pub check_locked : M (Ebox EC P) (Unit {0})
  check_locked = do
    box ← get
    (elim box.e_key [ none ↦ pure tt | some k ↦ fail already_unlocked ])
    (elim box.e_token [ none ↦ pure tt | some t ↦ fail already_unlocked ])
    (elim box.e_rcv_key [ none ↦ pure tt | some k ↦ fail already_unlocked ])

  -- The key of the recovery box, from the key of the config. When the nonce is too short, what is
  -- left in `e_rcv_key` is memory that has been freed.
  unfoldable pub unmask : Option (List ℕ) → List ℕ → M (Ebox EC P) (Unit {0})
  unmask nonce configkey =
      if not (is_empty nonce)
      then (do
        fail_if (ltb (length (bytes_of nonce)) 32)
            (errf "RecoveryFailed" (errf "BadConfigNonce" no_error))
        verify (length (bytes_of nonce) == 32)
        set_rcv_key (xor_bytes configkey (bytes_of nonce)))
      else set_rcv_key configkey

module _ {EC P : Type 0} (ssh : SshBuf EC) where
  open ssh use {get_u8, get_string8}

  -- What stands behind the first tag; the result is the tag that follows the token.
  unfoldable pub take_token : ℕ → Buf → M (Ebox EC P) (ℕ × Buf)
  take_token tag b =
      if tag == 0x01
      then (do (token, b2) ← aside (read get_string8) b; set_token token; aside (read get_u8) b2)
      else pure (tag, b)

  unfoldable pub take_secrets : Buf → M (Ebox EC P) (Unit {0})
  take_secrets plain = do
    (tag, b1) ← aside (read get_u8) plain
    (tag2, b2) ← take_token tag b1
    fail_if (not (tag2 == 0x02)) (errf "RecoveryFailed" (errf "InvalidTagError" no_error))
    (key, b3) ← aside (read get_string8) b2
    set_key key

module _ {EC P : Type 0} (ssh : SshBuf EC) (crypto : Crypto EC P) (sss : Sss) where
  -- From enough shares on.
  unfoldable pub recover_with : List (List ℕ) → ℕ → Option (List ℕ) → M (Ebox EC P) (Unit {0})
  recover_with shares n nonce = do
    set_rcv_key (replicate 32 0)
    unmask nonce (sss.combine_keyshares shares n)
    on_error (errf "RecoveryFailed") (ebox_decrypt_recovery crypto)
    box ← get
    take_secrets ssh (bytes_of box.e_rcv_plain)

  unfoldable pub clear_config : M (Recovering EC P) (Unit {0})
  clear_config s = ok tt (record s {
    rc_config = record (s.rc_config) { ec_parts = clear_parts s.rc_config.ec_parts };
  })

  unfoldable pub ebox_recover : M (Recovering EC P) (Unit {0})
  ebox_recover = do
    on_ebox check_locked
    s ← get
    shares ← collect_shares s.rc_config.ec_tpl.etc_m s.rc_config.ec_parts 0
    fail_if (ltb (length shares) s.rc_config.ec_tpl.etc_n) (errf "InsufficientParts" no_error)
    on_ebox (
        recover_with
          (shares
            ++ replicate (s.rc_config.ec_tpl.etc_m - length shares) (replicate keyshare_len 0))
          s.rc_config.ec_tpl.etc_n s.rc_config.ec_nonce)
    clear_config
