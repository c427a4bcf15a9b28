-- ===== src/Ecdh/Sealed.antt =====
-- piv.c: a PIV box that was sealed to the key of a card opens with the card.
use pivy.Prelude.{ℕ, ◌≡◌, ◌<◌, ◌^◌, subst, List, Option, some, length}
use pivy.Outcome.{ok}
use pivy.Outcome.Ends.{Ends}
use pivy.Token.{PivSlot}
use pivy.Pin.{Piv}
use pivy.Apdu.{empty_buf}
use pivy.Box.{full_buf, or_default, default_cipher, piv_box_take_data}
use pivy.Box.Wire.{SshKey}
use pivy.Box.Seal.{Cipher, Crypto, Random, Box, piv_box_seal_offline}
use pivy.Box.Seal.Opens.{Locked, opened, opened-take, open_offline-Locked}
use pivy.Box.Seal.Seals.{CryptoLaws, seal-Locked}
use pivy.Ecdh.{piv_ecdh, piv_box_open}
use pivy.Ecdh.Opens.{box_open-offline}

module _ {EC P : Type 0} (crypto : Crypto EC P) (laws : CryptoLaws crypto) {C : Type 0}
    (scard_transmit : C → List ℕ → ℕ → Option (List ℕ) × C) (fuel : ℕ)
    (put_eckey : EC → Option (List ℕ)) (slot : PivSlot) where
  -- The card in the state `s` answers the ECDH with the ephemeral key of `box` as the private key
  -- `privkey` would, and is left in the state `s'`.
  abbrev pub Answers : P → Box crypto → Piv C → Piv C → Type 0
  Answers privkey box s s' =
      (ephem : SshKey EC) (sec : List ℕ)
      → box.pdb_ephem_pub ≡ some ephem
      → crypto.ecdh_compute_key ephem.ecdsa privkey ≡ some sec
      → piv_ecdh scard_transmit fuel put_eckey slot ephem s ≡ ok sec s'

  box_open-Locked :
      (privkey : P) (d : List ℕ) (box : Box crypto) (s s' : Piv C)
      → Locked crypto privkey d box
      → Answers privkey box s s'
      → (box' : Box crypto) × (piv_box_open scard_transmit fuel put_eckey crypto slot (s, box)
          ≡ ok tt (s', box'))
        × (piv_box_take_data box' ≡ ok d (record box { pdb_plain = empty_buf }))
  box_open-Locked privkey d box s s' l answers = (
    opened crypto d l.pad box,
    box_open-offline crypto scard_transmit fuel put_eckey slot privkey s s' box
        (opened crypto d l.pad box) answers (open_offline-Locked crypto privkey d box l),
    opened-take crypto d l.pad box,
  )

  -- A card opens what is sealed to its key: when a box holds `d`, the IV that is drawn is one for the
  -- cipher, and `piv_box_seal_offline` returns, and `piv_ecdh` with the card gives the secret that the
  -- private key of the public key would give, then `piv_box_open` with the card returns too, leaves
  -- the card as the ECDH left it, and `piv_box_take_data` gives `d`.
  pub seal-box_open :
      (random : Random P) (privkey : P) (pubk : SshKey EC) (d : List ℕ) (box box' : Box crypto)
      (s s' : Piv C)
      → box.pdb_plain ≡ full_buf d
      → length d < 2 ^ 63
      → crypto.sshkey_demote privkey ≡ some pubk
      → ((c : Cipher)
          → crypto.cipher_by_name (or_default box.pdb_cipher default_cipher) ≡ some c
          → length random.new_iv ≡ c.cipher_ivlen)
      → piv_box_seal_offline crypto random pubk box ≡ ok tt box'
      → Answers privkey box' s s'
      → (box'' : Box crypto) × (piv_box_open scard_transmit fuel put_eckey crypto slot (s, box')
          ≡ ok tt (s', box''))
        × (piv_box_take_data box'' ≡ ok d (record box' { pdb_plain = empty_buf }))
  seal-box_open random privkey pubk d box box' s s' holds room key ivs sealed answers =
      box_open-Locked privkey d box' s s'
        (subst (Ends (λ u b. Locked crypto privkey d b) (λ e b. Unit)) sealed
          (seal-Locked crypto laws random privkey pubk d box holds room key ivs))
        answers
