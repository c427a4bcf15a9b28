-- ===== src/Ebox.antt =====
-- ebox.c: ebox templates (`struct ebox_tpl`), their configs and parts. Each linked list is a List,
-- and a pointer to one of its elements is the element's place.
pub mod Counted
pub mod Template
pub mod State
pub mod Create
pub mod Recovery
pub mod Stream
pub mod Tests
use pivy.Prelude.{
  ℕ, zero, suc, ◌+◌, ◌-◌, ◌%◌, List, [], ◌∷◌, ◌++◌, Bool, true, false, not, ◌&&◌, Option, none,
  some, String, length, replicate, ltb, ◌==◌, if◌then◌else◌,
}
use pivy.Errf.{Errf, errf, no_error}
use pivy.Outcome.{Outcome, M, ok, err, abort, fault, ◌>>=◌, ◌>>◌, pure, get, put, verify, fail_if}
use pivy.Apdu.{argerrf}
use pivy.Box.Wire.{SshKey}
use pivy.Box.Seal.{Crypto}

-- `etc_type`.
abbrev pub ebox_primary : ℕ
ebox_primary = 0x01

abbrev pub ebox_recovery : ℕ
ebox_recovery = 0x02

abbrev pub ebox_tpl_v1 : ℕ
ebox_tpl_v1 = 0x01

abbrev pub ebox_tpl_vnext : ℕ
ebox_tpl_vnext = 2

abbrev pub slot_key_mgmt : ℕ
slot_key_mgmt = 0x9D

-- `struct ebox_tpl_part`. What an application hangs on it (`etp_priv`) is not read here.
pub record TplPart (EC : Type 0) : Type 0 where
  pub etp_name : Option String
  pub etp_pubkey : Option (SshKey EC)
  pub etp_cak : Option (SshKey EC)
  pub etp_slot : ℕ
  pub etp_guid : List ℕ

-- `struct ebox_tpl_config`.
pub record TplConfig (EC : Type 0) : Type 0 where
  pub etc_type : ℕ
  pub etc_n : ℕ
  pub etc_m : ℕ
  pub etc_parts : List (TplPart EC)

-- `struct ebox_tpl`.
pub record Tpl (EC : Type 0) : Type 0 where
  pub et_version : ℕ
  pub et_configs : List (TplConfig EC)

-- A list without its element at a place; behind the end there is no element to point to.
unfoldable pub remove_at : {A : Type 0} → ℕ → List A → Option (List A)
remove_at i [] = none
remove_at zero (x ∷ xs) = some xs
remove_at (suc i) (x ∷ xs) = elim (remove_at i xs) [ none ↦ none | some ys ↦ some (x ∷ ys) ]

unfoldable pub ebox_tpl_alloc : {EC : Type 0} → Tpl EC
ebox_tpl_alloc = record { et_version = ebox_tpl_vnext - 1; et_configs = [] }

-- What the pointers `next` and `prev` of an element that is to be added to a list are. They are left
-- as they were in an element that has been removed from a list.
pub record Links : Type 0 where
  pub next_null : Bool
  pub prev_null : Bool

unfoldable pub ebox_tpl_add_config : {EC : Type 0} → Links → TplConfig EC → M (Tpl EC) (Unit {0})
ebox_tpl_add_config links config = do
  verify links.next_null
  verify links.prev_null
  tpl ← get
  put (record tpl { et_configs = tpl.et_configs ++ (config ∷ []) })

unfoldable pub ebox_tpl_remove_config : {EC : Type 0} → ℕ → M (Tpl EC) (Unit {0})
ebox_tpl_remove_config i tpl = elim (remove_at i tpl.et_configs) [
  | none ↦ fault
  | some configs ↦ ok tt (record tpl { et_configs = configs })
]

unfoldable pub ebox_tpl_config_alloc : {EC : Type 0} → ℕ → TplConfig EC
ebox_tpl_config_alloc type = record {
  etc_type = type;
  etc_n = if type == ebox_primary then 1 else 0;
  etc_m = 0;
  etc_parts = [];
}

-- `etc_n` is a `uint8_t`.
unfoldable pub ebox_tpl_config_set_n : {EC : Type 0} → ℕ → M (TplConfig EC) (Unit {0})
ebox_tpl_config_set_n n = do
  config ← get
  fail_if (n == 0) argerrf
  fail_if (ltb config.etc_m n) argerrf
  fail_if (not (n == 1) && config.etc_type == ebox_primary) argerrf
  put (record config { etc_n = n % 256 })

-- `++config->etc_m` of a `uint8_t`.
unfoldable pub ebox_tpl_config_add_part :
    {EC : Type 0} → Links → TplPart EC → M (TplConfig EC) (Unit {0})
ebox_tpl_config_add_part links part = do
  verify links.next_null
  verify links.prev_null
  config ← get
  put (record config {
    etc_m = (config.etc_m + 1) % 256;
    etc_parts = config.etc_parts ++ (part ∷ []);
  })

unfoldable pub ebox_tpl_config_remove_part : {EC : Type 0} → ℕ → M (TplConfig EC) (Unit {0})
ebox_tpl_config_remove_part i config = elim (remove_at i config.etc_parts) [
  | none ↦ fault
  | some parts ↦ ok tt (record config { etc_parts = parts })
]

unfoldable pub ebox_tpl_part_set_name : {EC : Type 0} → String → M (TplPart EC) (Unit {0})
ebox_tpl_part_set_name name part = ok tt (record part { etp_name = some name })

module _ {EC P : Type 0} (crypto : Crypto EC P) where
  -- A part has no name and no CAK yet; NULL is returned when the key cannot be copied.
  unfoldable pub ebox_tpl_part_alloc :
      {S : Type 0} → List ℕ → ℕ → SshKey EC → M S (Option (TplPart EC))
  ebox_tpl_part_alloc guid slotid pubkey = do
    verify (length guid == 16)
    pure (elim (crypto.demote_public pubkey) [
      | none ↦ none
      | some k ↦ some (record {
        etp_name = none;
        etp_pubkey = some k;
        etp_cak = none;
        etp_slot = slotid;
        etp_guid = guid;
      })
    ])

  unfoldable pub ebox_tpl_part_set_cak : SshKey EC → M (TplPart EC) (Unit {0})
  ebox_tpl_part_set_cak cak part = elim (crypto.demote_public cak) [
    | none ↦ abort
    | some k ↦ ok tt (record part { etp_cak = some k })
  ]

  -- `VERIFY0(sshkey_demote(...))` of a key that a part may have.
  unfoldable pub clone_part_key : {S : Type 0} → Option (SshKey EC) → M S (Option (SshKey EC))
  clone_part_key none s = ok none s
  clone_part_key (some k) s = elim (crypto.demote_public k) [
    | none ↦ abort
    | some k' ↦ ok (some k') s
  ]

  unfoldable pub clone_part : {S : Type 0} → TplPart EC → M S (TplPart EC)
  clone_part part = do
    pubkey ← clone_part_key part.etp_pubkey
    cak ← clone_part_key part.etp_cak
    pure (record part { etp_pubkey = pubkey; etp_cak = cak })

  unfoldable pub clone_parts : {S : Type 0} → List (TplPart EC) → M S (List (TplPart EC))
  clone_parts [] = pure []
  clone_parts (part ∷ parts) = do
    npart ← clone_part part
    nparts ← clone_parts parts
    pure (npart ∷ nparts)

  unfoldable pub clone_configs : {S : Type 0} → List (TplConfig EC) → M S (List (TplConfig EC))
  clone_configs [] = pure []
  clone_configs (config ∷ configs) = do
    parts ← clone_parts config.etc_parts
    nconfigs ← clone_configs configs
    pure (record config { etc_parts = parts } ∷ nconfigs)

  unfoldable pub ebox_tpl_clone : {S : Type 0} → Tpl EC → M S (Tpl EC)
  ebox_tpl_clone tpl = do
    configs ← clone_configs tpl.et_configs
    pure (record tpl { et_configs = configs })
