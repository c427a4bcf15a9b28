-- ===== src/Ebox/Create/Opening.antt =====
-- The parts of a recovery config that `ebox_create` makes open, and have their shares.
use pivy.Prelude.{
  ℕ, zero, suc, ◌+◌, ◌-◌, ◌%◌, ◌≤◌, ◌≡◌, refl, ap, ◌∙◌, subst, List, [], ◌∷◌, ◌++◌, append_assoc,
  false, All, Option, none, some, length, length-append, get_elem?-append, ◌==◌, arith,
}
use pivy.Outcome.{ok}
use pivy.Outcome.Ends.{Ends, Ends-bind}
use pivy.Box.{default_cipher}
use pivy.Box.Seal.{Cipher, Crypto}
use pivy.Box.Seal.Seals.{CryptoLaws, AnyErr}
use pivy.Ebox.{TplPart, TplConfig, ebox_recovery}
use pivy.Ebox.State.{EboxPart, Ebox, Sss, keyshare_len}
use pivy.Ebox.Create.{
  Draws, Secrets, share_of, part_data, config_secrets, create_part, create_parts, create_config,
  create_configs,
}
use pivy.Ebox.Create.Parts.{Keys, Keys-trans, Holds, create_part-Ends}
use pivy.Ebox.Create.Keys.{picked, KeysOf, KeysOf-length, Opens, Opens-none, Opens-some}

share_of-append :
    {S : Type 0} (front rest : List (List ℕ)) (share : List ℕ) (i : ℕ) (s : S)
    → suc (length front) ≡ i
    → share_of (front ++ (share ∷ rest)) i s ≡ ok share s
unfolding share_of
share_of-append front rest share zero s h = absurd (omega arith)
share_of-append front rest share (suc n) s h =
    let place : suc n - 1 ≡ length front = omega arith in
    let some_place : (suc n == 0) ≡ false = ground arith in
    rw (some_place, place, get_elem?-append front rest share) refl

module _ {EC P : Type 0} (crypto : Crypto EC P) (sss : Sss) (draws : Draws P)
    (laws : CryptoLaws crypto)
    (ivs : (c : Cipher) (i j : ℕ)
      → crypto.cipher_by_name default_cipher ≡ some c
      → length (draws.part_random i j).new_iv ≡ c.cipher_ivlen) where
  no_parts : (ks : List (Option P)) → KeysOf crypto ks [] → Opens crypto ks (picked ks []) []
  unfolding pivy.Ebox.Create.Keys.open_parts
  no_parts [] h = ([], (λ s. refl), tt)
  no_parts (k ∷ ks) h = absurd h

  one_more :
      (ks : List (Option P)) (tpart : TplPart EC) (tparts : List (TplPart EC)) (d : List ℕ)
      (rest : List (List ℕ)) (part : EboxPart EC P) (parts : List (EboxPart EC P))
      → length d ≡ keyshare_len
      → Holds crypto tpart d part
      → ((ks : List (Option P)) → KeysOf crypto ks tparts → Opens crypto ks (picked ks rest) parts)
      → KeysOf crypto ks (tpart ∷ tparts)
      → Opens crypto ks (picked ks (d ∷ rest)) (part ∷ parts)
  one_more [] tpart tparts d rest part parts size holds others keys = absurd keys
  one_more (none ∷ ks) tpart tparts d rest part parts size holds others keys =
      Opens-none crypto ks (picked ks rest) tpart d part parts holds (others ks keys)
  one_more (some k ∷ ks) tpart tparts d rest part parts size holds others
        ((pubk, named, demoted), keys) =
      Opens-some crypto k ks (picked ks rest) tpart d part parts pubk named demoted size holds
        (others ks keys)

  part_data_lem :
      (key d : List ℕ) (shares : List (List ℕ)) (i : ℕ) (t : Ebox EC P)
      → share_of shares i t ≡ ok d t
      → part_data key (some shares) i t ≡ ok d t
  unfolding part_data
  part_data_lem key d shares i t h = h

  pub create_parts-Opens :
      (key : List ℕ) (c i : ℕ) (front rest : List (List ℕ)) (tparts : List (TplPart EC))
      (s : Ebox EC P)
      → suc (length front) ≡ i
      → i + length rest ≤ 256
      → length tparts ≡ length rest
      → All (λ share. length share ≡ keyshare_len) rest
      → Ends
          (λ parts s'.
            ((ks : List (Option P))
              → KeysOf crypto ks tparts
              → Opens crypto ks (picked ks rest) parts)
            × Keys crypto s s')
          AnyErr
          (create_parts crypto sss draws key c (some (front ++ rest)) i tparts s)
  unfolding create_parts
  create_parts-Opens key c i front [] [] s e few same sizes =
      ((λ ks keys. no_parts ks keys), (s.e_ephemkeys, refl))
  create_parts-Opens key c i front [] (tpart ∷ tparts) s e few same sizes = absurd (omega arith)
  create_parts-Opens key c i front (d ∷ rest) [] s e few same sizes = absurd (omega arith)
  create_parts-Opens key c i front (d ∷ rest) (tpart ∷ tparts) s e few same (size, sizes) =
      let small : i % 256 ≡ i = omega arith in
      let shares = some (front ++ (d ∷ rest)) in
      let given : (t : Ebox EC P) → part_data key shares (i % 256) t ≡ ok d t = λ t.
        ap (λ n. part_data key shares n t) small
        ∙ part_data_lem key d (front ++ (d ∷ rest)) i t (share_of-append front rest d i t e) in
      Ends-bind (λ part s'. Holds crypto tpart d part × Keys crypto s s') _ AnyErr
        (create_part crypto sss draws key c shares i tpart) _ s
        (create_part-Ends crypto sss draws laws ivs key d c i shares tpart s given (omega arith))
        (λ part s1 (holds, k1).
          Ends-bind
            (λ parts s'.
              ((ks : List (Option P))
                → KeysOf crypto ks tparts
                → Opens crypto ks (picked ks rest) parts)
              × Keys crypto s1 s')
            _ AnyErr (create_parts crypto sss draws key c shares (i + 1) tparts) _ s1
            (subst
              (λ l.
                Ends
                  (λ parts s'.
                    ((ks : List (Option P))
                      → KeysOf crypto ks tparts
                      → Opens crypto ks (picked ks rest) parts)
                    × Keys crypto s1 s')
                  AnyErr (create_parts crypto sss draws key c (some l) (i + 1) tparts s1))
              (append_assoc front (d ∷ []) rest)
              (create_parts-Opens key c (i + 1) (front ++ (d ∷ [])) rest tparts s1
                (omega (arith, length-append front (d ∷ []))) (omega arith) (omega arith) sizes))
            (λ parts s2 (opens, k2). (
              (λ ks keys. one_more ks tpart tparts d rest part parts size holds opens keys),
              Keys-trans crypto s s1 s2 k1 k2,
            )))
