-- ===== src/Ebox/Recovery/Secrets.antt =====
-- The key and the token in the data of the recovery box.
use pivy.Prelude.{
  ℕ, ◌≡◌, refl, sym, ap, ◌∙◌, List, [], ◌∷◌, ◌++◌, append-nil, append_assoc, Option, none, some,
  arith,
}
use pivy.Outcome.{Outcome, ok, ◌>>=◌, ◌>>◌, bind_returns}
use pivy.Box.Wire.{SshBuf, Buf}
use pivy.Box.Wire.Fields.{SshBufLaws}
use pivy.Ebox.Template.{read}
use pivy.Ebox.Template.Readers.{read-some}
use pivy.Ebox.State.{Ebox, aside}
use pivy.Ebox.Create.{must_append, put_token, put_secrets}
use pivy.Ebox.Recovery.{set_token, set_key, take_token, take_secrets}

must_append_returns :
    (f : Buf → Option Buf) (b b' : Buf) → must_append f b ≡ ok tt b' → f b ≡ some b'
unfolding must_append
must_append_returns f b b' h = ground arith

aside-ok :
    {S A : Type 0} (g : Buf → Outcome Buf A) (b b' : Buf) (a : A) (s : S)
    → g b ≡ ok a b'
    → aside g b s ≡ ok (a, b') s
unfolding aside
aside-ok g b b' a s h = rw (h, aside) refl

module _ {EC : Type 0} (ssh : SshBuf EC) (laws : SshBufLaws ssh) where
  tag_back : (tag : ℕ) (rest : Buf) → read ssh.get_u8 (tag ∷ rest) ≡ ok tag rest
  tag_back tag rest = read-some ssh.get_u8 (tag ∷ rest) tag rest (laws.u8_back tag rest)

  -- A tag and a string, whatever stands in front.
  value_back :
      (tag : ℕ) (v : List ℕ) (b b' : Buf)
      → (must_append (ssh.put_u8 tag) >> must_append (ssh.put_string8 v)) b ≡ ok tt b'
      → (e : Buf) × (b' ≡ b ++ (tag ∷ e))
        × ((rest : Buf) → read ssh.get_string8 (e ++ rest) ≡ ok v rest)
  value_back tag v b b' h =
      let (u, b1, first, second) =
        bind_returns (must_append (ssh.put_u8 tag)) (λ _. must_append (ssh.put_string8 v)) b tt b'
          h in
      let tagged = laws.u8 tag b b1 (must_append_returns _ b b1 first) in
      let (e, left, back) = laws.string8 v b1 b' (must_append_returns _ b1 b' second) in
      (
        e,
        left ∙ ap (λ l. l ++ e) tagged ∙ append_assoc b (tag ∷ []) e,
        λ rest. read-some ssh.get_string8 (e ++ rest) v rest (back rest),
      )

module _ {EC P : Type 0} (ssh : SshBuf EC) (laws : SshBufLaws ssh) where
  pub secrets_lem :
      (key plain : List ℕ) (token : Option (List ℕ)) (box : Ebox EC P)
      → box.e_token ≡ none
      → put_secrets ssh key token [] ≡ ok tt plain
      → take_secrets ssh plain box ≡ ok tt (record box { e_token = token; e_key = some key })
  unfolding put_secrets put_token take_secrets take_token set_token set_key
  secrets_lem key plain none box empty h =
      let (e, left, back) = value_back ssh laws 0x02 key [] plain h in
      let here : read ssh.get_string8 e ≡ ok key [] =
        ap (read ssh.get_string8) (sym (append-nil e)) ∙ back [] in
      rw
        (
          left,
          aside-ok (read ssh.get_u8) (2 ∷ e) e 2 box (tag_back ssh laws 2 e),
          aside-ok (read ssh.get_string8) e [] key box here,
          ◌>>=◌,
        )
        (ap (λ t. ok tt (record box { e_key = some key; e_token = t })) empty)
  secrets_lem key plain (some token) box empty h =
      let (u, b1, first, second) =
        bind_returns (put_token ssh (some token))
          (λ _. must_append (ssh.put_u8 0x02) >> must_append (ssh.put_string8 key)) [] tt plain h in
      let (e1, left1, back1) = value_back ssh laws 0x01 token [] b1 first in
      let (e2, left2, back2) = value_back ssh laws 0x02 key b1 plain second in
      let all : plain ≡ 1 ∷ (e1 ++ (2 ∷ e2)) = left2 ∙ ap (λ l. l ++ (2 ∷ e2)) left1 in
      let here : read ssh.get_string8 e2 ≡ ok key [] =
        ap (read ssh.get_string8) (sym (append-nil e2)) ∙ back2 [] in
      let box2 = record box { e_token = some token } in
      rw
        (
          all,
          aside-ok (read ssh.get_u8) (1 ∷ (e1 ++ (2 ∷ e2))) _ 1 box (tag_back ssh laws 1 _),
          aside-ok (read ssh.get_string8) (e1 ++ (2 ∷ e2)) (2 ∷ e2) token box (back1 (2 ∷ e2)),
          aside-ok (read ssh.get_u8) (2 ∷ e2) e2 2 box2 (tag_back ssh laws 2 e2),
          aside-ok (read ssh.get_string8) e2 [] key box2 here,
          ◌>>=◌,
        )
        refl
