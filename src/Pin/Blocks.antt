-- ===== src/Pin/Blocks.antt =====
-- The loops of piv.c that copy PINs into `pinbuf` stay inside it and end at the NUL, and the commands
-- carry the padded blocks.
use pivy.Prelude.{
  ℕ, zero, suc, ◌+◌, ◌-◌, ◌≤◌, ◌≡◌, refl, sym, ap, ◌∙◌, List, [], ◌∷◌, ◌++◌, append-nil,
  append_assoc, Bool, true, false, Option, length, length-append, take, replicate, subst,
  set-append, length-take, length-replicate, lt→ltb, arith,
}
use pivy.Errf.{Errf}
use pivy.Outcome.{M, ok, ◌>>=◌, ◌>>◌, verify, fail_if, bind-ok}
use pivy.Apdu.{argerrf, ins_change_pin, ins_reset_pin, ins_verify}
use pivy.Token.{PivPin, pin_id}
use pivy.Pin.{
  Piv, char, nul, char_at, store_pin_char, copy_loop, verify_nul, copy_pin, one_pin, two_pins,
  bad_length, data_apdu, intxn, transceive_chain, finish_command, change_pin_error, reset_pin_error,
  verify_answer, piv_change_pin, piv_reset_pin, try_pin,
}

-- The block of a PIN, in which the unused bytes are 0xFF.
unfoldable pub pin_block : List ℕ → List ℕ
pin_block pin = take 8 pin ++ replicate (8 - length pin) 0xFF

char_at-nul : (str : List ℕ) → char_at str (length str) ≡ nul
unfolding char_at
char_at-nul [] = refl
char_at-nul (c ∷ str) = char_at-nul str

char_at-append :
    (before rest : List ℕ) (c : ℕ) → char_at (before ++ (c ∷ rest)) (length before) ≡ char c
unfolding char_at
char_at-append [] rest c = refl
char_at-append (b ∷ before) rest c = char_at-append before rest c

store_pin_char_lem :
    {S : Type 0} (front rest : List ℕ) (old c : ℕ) (s : S)
    → store_pin_char (front ++ (old ∷ rest)) (length front) c s ≡ ok (front ++ (c ∷ rest)) s
unfolding store_pin_char
store_pin_char_lem front rest old c s =
    rw
      (
        lt→ltb (length front) (length (front ++ (old ∷ rest)))
            (omega (arith, length-append front (old ∷ rest))),
        set-append front rest old c,
      )
      refl

-- One round of the loop.
copy_round :
    {S : Type 0} (str front rest : List ℕ) (from k n old c : ℕ) (s : S)
    → char_at str k ≡ char c
    → length front ≡ from + k
    → copy_loop str from k (suc n) (front ++ (old ∷ rest)) s
      ≡ copy_loop str from (suc k) n (front ++ (c ∷ rest)) s
unfolding copy_loop
copy_round str front rest from k n old c s e at =
    rw (copy_loop, e)
      (bind-ok (store_pin_char (front ++ (old ∷ rest)) (from + k) c) (copy_loop str from (suc k) n)
        s (front ++ (c ∷ rest)) s
        (subst (λ i. store_pin_char (front ++ (old ∷ rest)) i c s ≡ ok (front ++ (c ∷ rest)) s) at
          (store_pin_char_lem front rest old c s)))

-- The end of the string.
copy_end :
    {S : Type 0} (str buf : List ℕ) (from k n : ℕ) (s : S)
    → char_at str k ≡ nul
    → copy_loop str from k n buf s ≡ ok (k, buf) s
unfolding copy_loop
copy_end str buf from k zero s e = refl
copy_end str buf from k (suc n) s e = rw (copy_loop, e) refl

-- What the loop copies when `rest` is left of the string: `front` is the buffer up to there.
copy_loop_lem :
    {S : Type 0} (rest before front behind str : List ℕ) (from k n : ℕ) (s : S)
    → str ≡ before ++ rest
    → k ≡ length before
    → length front ≡ from + k
    → length rest ≤ n
    → copy_loop str from k n (front ++ (replicate n 0xFF ++ behind)) s
      ≡ ok (length str, front ++ (rest ++ (replicate (n - length rest) 0xFF ++ behind))) s
copy_loop_lem [] before front behind str from k n s whole at room fits =
    let same : str ≡ before = whole ∙ append-nil before in
    let end : k ≡ length str = at ∙ ap length (sym same) in
    copy_end str (front ++ (replicate n 0xFF ++ behind)) from k n s
      (subst (λ i. char_at str i ≡ nul) (sym end) (char_at-nul str))
    ∙ ap (λ i. ok (i, front ++ (replicate n 0xFF ++ behind)) s) end
    ∙ ap (λ m. ok (length str, front ++ (replicate m 0xFF ++ behind)) s) (omega arith)
copy_loop_lem (c ∷ rest) before front behind str from k zero s whole at room fits =
    absurd (omega arith)
copy_loop_lem (c ∷ rest) before front behind str from k (suc n) s whole at room fits =
    copy_round str front (replicate n 0xFF ++ behind) from k n 0xFF c s
      (subst (λ i. char_at str i ≡ char c) (sym at)
        (subst (λ t. char_at t (length before) ≡ char c) (sym whole)
          (char_at-append before rest c)))
      room
    ∙ ap (λ buf. copy_loop str from (suc k) n buf s)
        (sym (append_assoc front (c ∷ []) (replicate n 0xFF ++ behind)))
    ∙ copy_loop_lem rest (before ++ (c ∷ [])) (front ++ (c ∷ [])) behind str from (suc k) n s
        (whole ∙ sym (append_assoc before (c ∷ []) rest))
        (omega (arith, length-append before (c ∷ []), at))
        (omega (arith, length-append front (c ∷ []), room)) (omega arith)
    ∙ ap (λ buf. ok (length str, buf) s)
        (append_assoc front (c ∷ []) (rest ++ (replicate (n - length rest) 0xFF ++ behind)))
    ∙ ap (λ m. ok (length str, front ++ ((c ∷ rest) ++ (replicate m 0xFF ++ behind))) s)
        (omega arith)

verify_nul_lem : {S : Type 0} (str : List ℕ) (s : S) → verify_nul str (length str) s ≡ ok tt s
unfolding verify_nul
verify_nul_lem str s = rw (verify_nul, char_at-nul str) refl

short : (str : List ℕ) → bad_length str ≡ false → length str ≤ 8
short str good = ground arith

take_short : (n : ℕ) (xs : List ℕ) → length xs ≤ n → take n xs ≡ xs
take_short zero [] h = refl
take_short zero (x ∷ xs) h = absurd (omega arith)
take_short (suc n) [] h = refl
take_short (suc n) (x ∷ xs) h = ap (λ l. x ∷ l) (take_short n xs (omega arith))

block_lem :
    (str : List ℕ) → bad_length str ≡ false → str ++ replicate (8 - length str) 0xFF ≡ pin_block str
unfolding pin_block
block_lem str good =
    ap (λ l. l ++ replicate (8 - length str) 0xFF) (sym (take_short 8 str (short str good)))

-- A PIN that is not refused fills its block.
pub length-pin_block : (pin : List ℕ) → bad_length pin ≡ false → length (pin_block pin) ≡ 8
unfolding pin_block
length-pin_block pin good = omega (
  arith,
  length-append (take 8 pin) (replicate (8 - length pin) 0xFF),
  length-take 8 pin,
  length-replicate {A = ℕ} (8 - length pin) 0xFF,
  short,
)
  where
    short : length pin ≤ 8
    short = ground arith

copy_pin_lem :
    {S : Type 0} (str front behind : List ℕ) (from : ℕ) (s : S)
    → length front ≡ from
    → bad_length str ≡ false
    → copy_pin str from (front ++ (replicate 8 0xFF ++ behind)) s
      ≡ ok (front ++ (pin_block str ++ behind)) s
unfolding copy_pin
copy_pin_lem str front behind from s at good =
    bind-ok (copy_loop str from 0 8 (front ++ (replicate 8 0xFF ++ behind))) _ s
      (length str, front ++ (str ++ (replicate (8 - length str) 0xFF ++ behind))) s
      (copy_loop_lem str [] front behind str from 0 8 s refl refl (omega arith) (short str good))
    ∙ bind-ok (verify_nul str (length str)) _ s tt s (verify_nul_lem str s)
    ∙ ap (λ l. ok (front ++ l) s)
        (sym (append_assoc str (replicate (8 - length str) 0xFF) behind)
          ∙ ap (λ l. l ++ behind) (block_lem str good))

one_pin_lem :
    {S : Type 0} (pin : List ℕ) (s : S)
    → bad_length pin ≡ false
    → one_pin pin s ≡ ok (pin_block pin) s
unfolding one_pin
one_pin_lem pin s good =
    copy_pin_lem pin [] [] 0 s refl good ∙ ap (λ l. ok l s) (append-nil (pin_block pin))

two_pins_lem :
    {S : Type 0} (pin newpin : List ℕ) (s : S)
    → bad_length pin ≡ false
    → bad_length newpin ≡ false
    → two_pins pin newpin s ≡ ok (pin_block pin ++ pin_block newpin) s
unfolding two_pins
two_pins_lem pin newpin s good good' =
    bind-ok (copy_pin pin 0 (replicate 16 0xFF)) _ s (pin_block pin ++ replicate 8 0xFF) s
      (copy_pin_lem pin [] (replicate 8 0xFF) 0 s refl good)
    ∙ copy_pin_lem newpin (pin_block pin) [] 8 s (length-pin_block pin good) good'
    ∙ ap (λ l. ok (pin_block pin ++ l) s) (append-nil (pin_block newpin))

guarded :
    {S A : Type 0} (b : Bool) (e : Errf) (m n : M S A) (s : S)
    → (b ≡ false → m s ≡ n s)
    → (fail_if b e >> m) s ≡ (fail_if b e >> n) s
guarded true e m n s same = refl
guarded false e m n s same = same refl

verified :
    {S A : Type 0} (b : Bool) (m n : M S A) (s : S)
    → m s ≡ n s
    → (verify b >> m) s ≡ (verify b >> n) s
verified true m n s same = same
verified false m n s same = refl

module _ {C : Type 0} (scard_transmit : C → List ℕ → ℕ → Option (List ℕ) × C) (fuel : ℕ) where
  -- A command with the blocks of two PINs, and a VERIFY with the block of one.
  abbrev pub blocks_command : ℕ → (ℕ → Errf) → PivPin → List ℕ → List ℕ → M (Piv C) (Unit {0})
  blocks_command ins error type pin newpin = do
    intxn
    fail_if (bad_length pin) argerrf
    fail_if (bad_length newpin) argerrf
    a ←
        transceive_chain scard_transmit fuel
          (data_apdu ins 0x00 (pin_id type) (pin_block pin ++ pin_block newpin))
    finish_command error a

  abbrev pub block_verify : PivPin → List ℕ → M (Piv C) (Unit {0})
  block_verify type pin = do
    fail_if (bad_length pin) argerrf
    a ←
        transceive_chain scard_transmit fuel
          (data_apdu ins_verify 0x00 (pin_id type) (pin_block pin))
    verify_answer a.a_sw

  pub piv_change_pin_lem :
      (type : PivPin) (pin newpin : List ℕ) (s : Piv C)
      → piv_change_pin scard_transmit fuel type pin newpin s
        ≡ blocks_command ins_change_pin change_pin_error type pin newpin s
  unfolding piv_change_pin
  piv_change_pin_lem type pin newpin s = verified s.p_token.pt_intxn _ _ s (
      guarded (bad_length pin) argerrf _ _ s (λ good.
        guarded (bad_length newpin) argerrf _ _ s (λ good'.
          bind-ok (two_pins pin newpin) _ s (pin_block pin ++ pin_block newpin) s
            (two_pins_lem pin newpin s good good'))))

  pub piv_reset_pin_lem :
      (type : PivPin) (puk newpin : List ℕ) (s : Piv C)
      → piv_reset_pin scard_transmit fuel type puk newpin s
        ≡ blocks_command ins_reset_pin reset_pin_error type puk newpin s
  unfolding piv_reset_pin
  piv_reset_pin_lem type puk newpin s = verified s.p_token.pt_intxn _ _ s (
      guarded (bad_length puk) argerrf _ _ s (λ good.
        guarded (bad_length newpin) argerrf _ _ s (λ good'.
          bind-ok (two_pins puk newpin) _ s (pin_block puk ++ pin_block newpin) s
            (two_pins_lem puk newpin s good good'))))

  pub try_pin_lem :
      (type : PivPin) (pin : List ℕ) (s : Piv C)
      → try_pin scard_transmit fuel type pin s ≡ block_verify type pin s
  unfolding try_pin
  try_pin_lem type pin s =
      guarded (bad_length pin) argerrf _ _ s
        (λ good. bind-ok (one_pin pin) _ s (pin_block pin) s (one_pin_lem pin s good))

  -- For all strings and in every state, `piv_change_pin`, `piv_reset_pin` and the VERIFY of
  -- `piv_verify_pin` do what they would do with the padded blocks of the PINs: behind the guards the
  -- loops that copy the characters stay inside `pinbuf` and the strings, each VERIFY behind a loop
  -- holds, and `pinbuf` holds the first 8 characters of each string and 0xFF.
  pub pin_commands-blocks :
      (type : PivPin) (pin newpin : List ℕ) (s : Piv C)
      → (piv_change_pin scard_transmit fuel type pin newpin s
          ≡ blocks_command ins_change_pin change_pin_error type pin newpin s)
        × (piv_reset_pin scard_transmit fuel type pin newpin s
            ≡ blocks_command ins_reset_pin reset_pin_error type pin newpin s)
        × (try_pin scard_transmit fuel type pin s ≡ block_verify type pin s)
  pin_commands-blocks type pin newpin s = (
    piv_change_pin_lem type pin newpin s,
    piv_reset_pin_lem type pin newpin s,
    try_pin_lem type pin s,
  )
