-- ===== src/Token/Slots.antt =====
-- The slots of a token after `piv_force_slot`, and the order of firmware versions.
use pivy.Prelude.{
  ℕ, ◌+◌, ◌*◌, ◌<◌, ◌≡◌, refl, List, [], ◌∷◌, false, some, inl, inr, Bool-cases, ◌==◌, ltb,
  if◌then◌else◌, arith,
}
use pivy.Token.{
  PivSlot, PivToken, find_slot, piv_get_slot, force_slot, piv_force_slot, less, equal, greater,
  compare_version,
}

find-force :
    (slotid alg : ℕ) (ss : List PivSlot)
    → find_slot slotid (force_slot slotid alg ss) ≡ some (record { ps_slot = slotid; ps_alg = alg })
unfolding find_slot force_slot
find-force slotid alg [] = ground arith
find-force slotid alg (s ∷ ss) = elim (Bool-cases (s.ps_slot == slotid)) [
  | inl e ↦ rw e (ground arith)
  | inr e ↦ rw e (rw e (find-force slotid alg ss))
]

-- After `piv_force_slot`, `piv_get_slot` finds the slot with the algorithm that was given.
get-force :
    (tk : PivToken) (slotid alg : ℕ)
    → piv_get_slot (piv_force_slot tk slotid alg) slotid
      ≡ some (record { ps_slot = slotid; ps_alg = alg })
unfolding piv_get_slot piv_force_slot
get-force tk slotid alg = find-force slotid alg tk.pt_slots

find-force_other :
    (slotid other alg : ℕ) (ss : List PivSlot)
    → (slotid == other) ≡ false
    → find_slot other (force_slot slotid alg ss) ≡ find_slot other ss
unfolding find_slot force_slot
find-force_other slotid other alg [] h = rw h refl
find-force_other slotid other alg (s ∷ ss) h = elim (Bool-cases (s.ps_slot == slotid)) [
  | inl e ↦ rw (e, h) (ground arith)
  | inr e ↦ rw (e, find-force_other slotid other alg ss h) refl
]

-- `piv_force_slot` leaves what `piv_get_slot` finds at every other slot id as it was.
get-force_other :
    (tk : PivToken) (slotid other alg : ℕ)
    → (slotid == other) ≡ false
    → piv_get_slot (piv_force_slot tk slotid alg) other ≡ piv_get_slot tk other
unfolding piv_get_slot piv_force_slot
get-force_other tk slotid other alg h = find-force_other slotid other alg tk.pt_slots h

-- Firmware versions whose parts are bytes compare as the numbers that they write in base 256.
compare_version_lem :
    (v0 v1 v2 major minor patch : ℕ)
    → v0 < 256
    → v1 < 256
    → v2 < 256
    → major < 256
    → minor < 256
    → patch < 256
    → let v = v0 * 65536 + v1 * 256 + v2 in
      let w = major * 65536 + minor * 256 + patch in
      compare_version (v0, v1, v2) major minor patch
      ≡ (if ltb v w then less else if ltb w v then greater else equal)
unfolding compare_version
compare_version_lem v0 v1 v2 major minor patch h0 h1 h2 h3 h4 h5 = ground arith
