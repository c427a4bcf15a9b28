-- ===== src/Ebox/Template/Parts.antt =====
-- What the writer of a part of a template appends, tag by tag, its reader takes back.
use pivy.Prelude.{
  ℕ, zero, suc, ◌≤◌, ◌<◌, ◌≡◌, refl, subst, inl, inr, List, Bool, true, false, Bool-cases, Option,
  none, some, String, length, replicate, ◌==◌, arith, low_bits,
}
use pivy.Outcome.{M, err, ◌>>◌, pure}
use pivy.Box.Wire.{SshKey, Buf, append_to, put_name, ssherrf}
use pivy.Box.Wire.Carries.{Carries, Carries-bind, Carries-then}
use pivy.Box.Wire.Fields.{ec_key}
use pivy.Ebox.{slot_key_mgmt}
use pivy.Ebox.Template.{
  EboxBuf, PartIn, read, put_pubkey, put_guid, put_part_name, put_keyb, put_cak, put_slot,
  known_nid, get_pubkey, get_cak, get_guid, part_tag, part_tags,
}
use pivy.Ebox.Template.Readers.{
  EboxBufLaws, read-Carries, Carries-assoc, Carries-err, octet-Carries,
}

module _ {EC : Type 0} (lib : EboxBuf EC) (laws : EboxBufLaws lib) where
  open lib use {ssh}
  open laws use {ssh_laws, stringb, key}

  -- A tag with what follows it, and the tags behind that.
  tag-Carries :
      (fuel tag : ℕ) (s s' r : PartIn EC) (body rest : M Buf (Unit {0}))
      → (tag == 0) ≡ false
      → Carries body (part_tag lib tag s) s'
      → Carries rest (part_tags lib fuel s') r
      → Carries ((append_to (ssh.put_u8 tag) >> body) >> rest) (part_tags lib (suc fuel) s) r
  unfolding part_tags
  tag-Carries fuel tag s s' r body rest some_tag one two =
      Carries-assoc (append_to (ssh.put_u8 tag)) body rest _ r (
        Carries-bind (append_to (ssh.put_u8 tag)) (body >> rest) (read ssh.get_u8) _ tag r
          (octet-Carries lib laws tag)
          (rw some_tag
            (Carries-bind body rest (part_tag lib tag s) (part_tags lib fuel) s' r one two)))

  end-Carries :
      (fuel : ℕ) (s : PartIn EC) → Carries (append_to (ssh.put_u8 0)) (part_tags lib (suc fuel) s) s
  unfolding part_tags
  end-Carries fuel s =
      Carries-then (append_to (ssh.put_u8 0)) (read ssh.get_u8) _ 0 s (octet-Carries lib laws 0)
        (λ b. refl)

  -- The key as it is read: with a curve that has a name, and a valid point.
  pubkey-Carries :
      (nid : ℕ) (k : EC) (name : String)
      → ssh.curve_nid_to_name nid ≡ some name
      → ssh.ec_validate_public nid k ≡ true
      → Carries
          (put_name ssh (ssh.curve_nid_to_name nid) >> append_to (ssh.put_eckey8 k))
          (get_pubkey lib)
          (ec_key true nid k)
  unfolding put_name get_pubkey known_nid
  pubkey-Carries nid k name known good = rw known (
      Carries-bind _ _ _ _ name _ (read-Carries _ _ name (ssh_laws.cstring8 name)) (
        rw (ssh_laws.curve nid name known) (
          Carries-then _ _ _ k _ (read-Carries _ _ k (ssh_laws.eckey8 nid k good))
            (λ b. rw good refl))))

  guid-Carries :
      (guid : List ℕ)
      → length guid ≡ 16
      → Carries (append_to (ssh.put_string8 guid)) (get_guid lib) guid
  unfolding get_guid
  guid-Carries guid full =
      Carries-then _ _ _ guid _ (read-Carries _ _ guid (ssh_laws.string8 guid)) (λ b. rw full refl)

  cak-Carries : (k : SshKey EC) → Carries (put_keyb lib k) (get_cak lib) k
  unfolding put_keyb get_cak
  cak-Carries k = go (lib.sshkey_putb k) refl
    where
      go :
          (o : Option (List ℕ))
          → lib.sshkey_putb k ≡ o
          → Carries
              (λ b. elim o [
                | none ↦ err ssherrf b
                | some kbuf ↦ append_to (lib.put_stringb kbuf) b
              ])
              (get_cak lib)
              k
      go none e = Carries-err ssherrf (get_cak lib) k
      go (some kbuf) e =
          Carries-then _ _ _ kbuf _ (read-Carries _ _ kbuf (stringb kbuf))
            (λ b. rw (key k kbuf e) refl)

  -- The parts of the state of the reader, one after the other.
  abbrev pub part_in :
      Option (SshKey EC) → List ℕ → Option String → Option (SshKey EC) → ℕ → Bool → PartIn EC
  part_in pubkey guid name cak slot gotguid = record {
    pi_part = record {
      etp_name = name;
      etp_pubkey = pubkey;
      etp_cak = cak;
      etp_slot = 0;
      etp_guid = guid;
    };
    pi_slotid = slot;
    pi_gotguid = gotguid;
  }

  -- With fuel for `k` tags, or more.
  abbrev pub Tags : ℕ → M Buf (Unit {0}) → PartIn EC → PartIn EC → Type 0
  Tags k p s r = (fuel : ℕ) → k ≤ fuel → Carries p (part_tags lib fuel s) r

  end-Tags : (s : PartIn EC) → Tags 1 (append_to (ssh.put_u8 0)) s s
  end-Tags s zero h = absurd (omega arith)
  end-Tags s (suc fuel) h = end-Carries fuel s

  tag-Tags :
      (k tag : ℕ) (s s' r : PartIn EC) (body rest : M Buf (Unit {0}))
      → (tag == 0) ≡ false
      → Carries body (part_tag lib tag s) s'
      → Tags k rest s' r
      → Tags (suc k) ((append_to (ssh.put_u8 tag) >> body) >> rest) s r
  tag-Tags k tag s s' r body rest some_tag one two zero h = absurd (omega arith)
  tag-Tags k tag s s' r body rest some_tag one two (suc fuel) h =
      tag-Carries fuel tag s s' r body rest some_tag one (two fuel (omega arith))

  -- Nothing is written, and the state is as if it had been read.
  no_tag-Tags :
      (k : ℕ) (s r : PartIn EC) (rest : M Buf (Unit {0}))
      → Tags k rest s r
      → Tags (suc k) (pure tt >> rest) s r
  no_tag-Tags k s r rest two fuel h = two fuel (omega arith)

  name-Tags :
      (k : ℕ) (pubkey : Option (SshKey EC)) (guid : List ℕ) (name : Option String)
      (rest : M Buf (Unit {0})) (r : PartIn EC)
      → Tags k rest (part_in pubkey guid name none slot_key_mgmt true) r
      → Tags
          (suc k)
          (put_part_name lib name >> rest)
          (part_in pubkey guid none none slot_key_mgmt true)
          r
  unfolding put_part_name part_tag
  name-Tags k pubkey guid none rest r more = no_tag-Tags k _ r rest more
  name-Tags k pubkey guid (some name) rest r more =
      tag-Tags k 2 _ (part_in pubkey guid (some name) none slot_key_mgmt true) r _ rest refl
        (Carries-then _ _ _ name _ (read-Carries _ _ name (ssh_laws.cstring8 name)) (λ b. refl))
        more

  cak-Tags :
      (k : ℕ) (pubkey : Option (SshKey EC)) (guid : List ℕ) (name : Option String)
      (cak : Option (SshKey EC)) (rest : M Buf (Unit {0})) (r : PartIn EC)
      → Tags k rest (part_in pubkey guid name cak slot_key_mgmt true) r
      → Tags (suc k) (put_cak lib cak >> rest) (part_in pubkey guid name none slot_key_mgmt true) r
  unfolding put_cak part_tag
  cak-Tags k pubkey guid name none rest r more = no_tag-Tags k _ r rest more
  cak-Tags k pubkey guid name (some cak) rest r more =
      tag-Tags k 3 _ (part_in pubkey guid name (some cak) slot_key_mgmt true) r _ rest refl
        (Carries-then _ _ _ cak _ (cak-Carries cak) (λ b. refl)) more

  slot-Tags :
      (k : ℕ) (pubkey : Option (SshKey EC)) (guid : List ℕ) (name : Option String)
      (cak : Option (SshKey EC)) (slot : ℕ) (rest : M Buf (Unit {0})) (r : PartIn EC)
      → slot < 256
      → Tags k rest (part_in pubkey guid name cak slot true) r
      → Tags (suc k) (put_slot lib slot >> rest) (part_in pubkey guid name cak slot_key_mgmt true) r
  unfolding put_slot part_tag
  slot-Tags k pubkey guid name cak slot rest r small more =
      elim (Bool-cases (slot == slot_key_mgmt)) [
        | inl same ↦
            let e : slot ≡ slot_key_mgmt = ground arith in
            rw same (
              no_tag-Tags k (part_in pubkey guid name cak slot_key_mgmt true) r rest
                (subst (λ n. Tags k rest (part_in pubkey guid name cak n true) r) e more))
        | inr other ↦
            let byte : low_bits slot 8 ≡ slot = omega arith in
            rw (other, byte)
              (tag-Tags k 6 _ (part_in pubkey guid name cak slot true) r _ rest refl
                (Carries-then _ _ _ slot _ (octet-Carries lib laws slot) (λ b. refl)) more)
      ]

  -- All that follows the checks of the key.
  pub fields-Tags :
      (nid : ℕ) (k : EC) (curve : String) (guid : List ℕ) (name : Option String)
      (cak : Option (SshKey EC)) (slot : ℕ)
      → ssh.curve_nid_to_name nid ≡ some curve
      → ssh.ec_validate_public nid k ≡ true
      → length guid ≡ 16
      → slot < 256
      → Tags 6
          (put_pubkey lib (ec_key true nid k)
            >> (put_guid lib guid
                >> (put_part_name lib name
                    >> (put_cak lib cak >> (put_slot lib slot >> append_to (ssh.put_u8 0))))))
          (part_in none (replicate 16 0) none none slot_key_mgmt false)
          (part_in (some (ec_key true nid k)) guid name cak slot true)
  unfolding put_pubkey put_guid part_tag
  fields-Tags nid k curve guid name cak slot known good full small =
      let pubkey = some (ec_key true nid k) in
      let r = part_in pubkey guid name cak slot true in
      tag-Tags 5 1 _ (part_in pubkey (replicate 16 0) none none slot_key_mgmt false) r _ _ refl
        (Carries-then _ _ _ (ec_key true nid k) _ (pubkey-Carries nid k curve known good)
          (λ b. refl))
        (tag-Tags 4 4 _ (part_in pubkey guid none none slot_key_mgmt true) r _ _ refl
          (Carries-then _ _ _ guid _ (guid-Carries guid full) (λ b. refl))
          (name-Tags 3 pubkey guid name _ r (
            cak-Tags 2 pubkey guid name cak _ r
              (slot-Tags 1 pubkey guid name cak slot _ r small (end-Tags r)))))
