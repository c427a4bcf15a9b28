-- ===== src/Token.antt =====
-- piv.c: the state of a token (`struct piv_token`, `struct piv_slot`) and its accessors.
pub mod Slots
use pivy.Prelude.{
  ℕ, List, [], ◌∷◌, Bool, true, false, ◌&&◌, ◌||◌, not, Option, none, some, String, ltb, ◌==◌,
  if◌then◌else◌, get_elem?,
}
use pivy.Outcome.{M, ok, fault, ◌>>=◌, ◌>>◌, pure, verify}

-- `enum piv_pin`.
pub data PivPin : Type 0 where
  piv_pin : PivPin
  piv_global_pin : PivPin
  piv_puk : PivPin
  piv_occ : PivPin
  piv_occ2 : PivPin
  piv_pairing : PivPin

-- The value of the enum, which a command carries in P2.
unfoldable pub pin_id : PivPin → ℕ
pin_id piv_pin = 0x80
pin_id piv_global_pin = 0x00
pin_id piv_puk = 0x81
pin_id piv_occ = 0x96
pin_id piv_occ2 = 0x97
pin_id piv_pairing = 0x98

-- `struct piv_slot`, without the certificate and the key made from it. The list that `ps_next`
-- links is a List.
pub record PivSlot : Type 0 where
  pub ps_slot : ℕ
  pub ps_alg : ℕ

-- `struct piv_token`, without the links to PCSC and to the next token. `pt_last_slot` is the last
-- of `pt_slots`; `pt_guidhex` is only a cache.
pub record PivToken : Type 0 where
  pub pt_rdrname : String
  pub pt_intxn : Bool
  pub pt_reset : Bool
  pub pt_guid : List ℕ
  pub pt_nochuid : Bool
  pub pt_signedchuid : Bool
  pub pt_fascn : List ℕ
  pub pt_fascn_len : ℕ
  pub pt_expiry : List ℕ
  pub pt_haschuuid : Bool
  pub pt_chuuid : List ℕ
  pub pt_algs : List ℕ
  pub pt_alg_count : ℕ
  pub pt_hist_oncard : ℕ
  pub pt_hist_offcard : ℕ
  pub pt_hist_url : Option (List ℕ)
  pub pt_auth : PivPin
  pub pt_pin_global : Bool
  pub pt_pin_app : Bool
  pub pt_occ : Bool
  pub pt_vci : Bool
  pub pt_slots : List PivSlot
  pub pt_ykpiv : Bool
  pub pt_ykver : ℕ × ℕ × ℕ
  pub pt_ykserial_valid : Bool
  pub pt_ykserial : ℕ

unfoldable pub piv_token_default_auth : PivToken → PivPin
piv_token_default_auth token = token.pt_auth

unfoldable pub piv_token_fascn : PivToken → Option (List ℕ) × ℕ
piv_token_fascn tk = if tk.pt_fascn_len == 0 then (none, 0) else (some tk.pt_fascn, tk.pt_fascn_len)

unfoldable pub piv_token_guid : PivToken → Option (List ℕ)
piv_token_guid tk = if tk.pt_nochuid then none else some tk.pt_guid

unfoldable pub piv_token_chuuid : PivToken → Option (List ℕ)
piv_token_chuuid tk = if tk.pt_nochuid || not tk.pt_haschuuid then none else some tk.pt_chuuid

unfoldable pub piv_token_expiry : PivToken → Option (List ℕ) × ℕ
piv_token_expiry tk = if tk.pt_nochuid then (none, 0) else (some tk.pt_expiry, 8)

unfoldable pub piv_token_has_chuid : PivToken → Bool
piv_token_has_chuid tk = not tk.pt_nochuid

unfoldable pub piv_token_alg : {S : Type 0} → PivToken → ℕ → M S ℕ
piv_token_alg tk idx = do
  verify (ltb idx tk.pt_alg_count)
  λ s. elim (get_elem? tk.pt_algs idx) [ none ↦ fault | some alg ↦ ok alg s ]

unfoldable pub piv_token_has_auth : PivToken → PivPin → Bool
piv_token_has_auth tk piv_pin = tk.pt_pin_app
piv_token_has_auth tk piv_global_pin = tk.pt_pin_global
piv_token_has_auth tk piv_puk = true
piv_token_has_auth tk piv_occ = tk.pt_occ
piv_token_has_auth tk piv_occ2 = false
piv_token_has_auth tk piv_pairing = false

unfoldable pub ykpiv_token_version : {S : Type 0} → PivToken → M S (ℕ × ℕ × ℕ)
ykpiv_token_version tk = do verify tk.pt_ykpiv; pure tk.pt_ykver

-- What `ykpiv_version_compare` returns: -1, 0 or 1.
pub data Ordering : Type 0 where
  less : Ordering
  equal : Ordering
  greater : Ordering

unfoldable pub compare_version : ℕ × ℕ × ℕ → ℕ → ℕ → ℕ → Ordering
compare_version (v0, v1, v2) major minor patch =
    if ltb v0 major
    then less
    else if ltb major v0
    then greater
    else if ltb v1 minor
    then less
    else if ltb minor v1
    then greater
    else if ltb v2 patch
    then less
    else if ltb patch v2
    then greater
    else equal

unfoldable pub ykpiv_version_compare : {S : Type 0} → PivToken → ℕ → ℕ → ℕ → M S Ordering
ykpiv_version_compare tk major minor patch = do
  verify tk.pt_ykpiv
  pure (compare_version tk.pt_ykver major minor patch)

unfoldable pub ykpiv_token_serial : {S : Type 0} → PivToken → M S ℕ
ykpiv_token_serial tk = do verify tk.pt_ykpiv; verify tk.pt_ykserial_valid; pure tk.pt_ykserial

-- The loop of `piv_get_slot`.
unfoldable pub find_slot : ℕ → List PivSlot → Option PivSlot
find_slot slotid [] = none
find_slot slotid (s ∷ ss) = if s.ps_slot == slotid then some s else find_slot slotid ss

unfoldable pub piv_get_slot : PivToken → ℕ → Option PivSlot
piv_get_slot tk slotid = find_slot slotid tk.pt_slots

-- The first slot with the id gets the algorithm; without one, a slot is added at the end.
unfoldable pub force_slot : ℕ → ℕ → List PivSlot → List PivSlot
force_slot slotid alg [] = record { ps_slot = slotid; ps_alg = alg } ∷ []
force_slot slotid alg (s ∷ ss) =
    if s.ps_slot == slotid
    then record { ps_slot = slotid; ps_alg = alg } ∷ ss
    else s ∷ force_slot slotid alg ss

unfoldable pub piv_force_slot : PivToken → ℕ → ℕ → PivToken
piv_force_slot tk slotid alg = record tk { pt_slots = force_slot slotid alg tk.pt_slots }
