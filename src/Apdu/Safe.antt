-- ===== src/Apdu/Safe.antt =====
-- An exchange with a card stays inside the command and reply buffers.
use pivy.Prelude.{
  ℕ, zero, suc, ◌+◌, ◌^◌, ◌≤◌, ◌<◌, ◌≡◌, refl, sym, ap, subst, ◌∙◌, ◌⊎◌, inl, inr, List, ◌++◌, Bool,
  true, false, Option, none, some, length, length-append, length-take, length-drop,
  length-replicate, take, drop, get_elem?-is_some, ltb, ◌&&◌, if◌then◌else◌, add_size, sub_size,
  low_bits, Bool-cases, le→leb, arith,
}
use pivy.Outcome.{Outcome, ok, err, abort, fault, stuck, pure, ◌>>=◌, M}
use pivy.Tlv.{calloc, max_apdu_size}
use pivy.Apdu.{
  sw_class, ApduBuf, Apdu, slice, data_to_buffer, apdu_to_buffer, reply_buf, buf_bytes, store_at,
  finish_reply, take_answer, cmd_to_buffer, exchange, piv_apdu_transceive,
}
use pivy.Apdu.Chain.{
  next_block, send_loop, continue_loop, continue_apdu, receive, piv_apdu_transceive_chain, Sent,
  all_sent, refused, more_reply, join_reply, sw_goes_on,
}

-- The part of the command that is to be sent lies in its memory.
abbrev pub CmdFits : ApduBuf → ℕ → Type 0
CmdFits cmd len =
    (bytes : List ℕ)
    → cmd.b_data ≡ some bytes
    → (cmd.b_offset + len ≤ length bytes) × (length bytes < 2 ^ 63)

-- The reply lies in its memory, with two bytes behind it for the status.
abbrev pub ReplyFits : ApduBuf → Type 0
ReplyFits r =
    (b : List ℕ) × (r.b_data ≡ some b)
    × (length b ≡ r.b_size)
    × (r.b_size < 2 ^ 63)
    × (r.b_offset + r.b_len + 2 ≤ r.b_size)

-- Before an exchange: no buffer yet, or one with a valid offset.
abbrev pub ReplyReady : ApduBuf → Type 0
ReplyReady r =
    (r.b_data ≡ none)
    ⊎ ((b : List ℕ) × (r.b_data ≡ some b)
        × (length b ≡ r.b_size)
        × (r.b_size < 2 ^ 63)
        × (r.b_offset ≤ r.b_size))

-- No access outside a buffer, and `Q` of what is returned.
abbrev pub NoFault : {C A : Type 0} → (A → Type 0) → Outcome C A → Type 0
NoFault Q (ok a c) = Q a
NoFault Q (err e c) = Unit
NoFault Q abort = Unit
NoFault Q fault = ⊥
NoFault Q stuck = Unit

abbrev pub SentFits : Sent → Type 0
SentFits (all_sent a) = ReplyFits a.a_reply
SentFits (refused a) = ReplyFits a.a_reply

pub NoFault-bind :
    {C A B : Type 0} (Q : A → Type 0) (R : B → Type 0) (m : M C A) (f : A → M C B) (c : C)
    → NoFault Q (m c)
    → ((a : A) (c' : C) → Q a → NoFault R (f a c'))
    → NoFault R ((m >>= f) c)
NoFault-bind {C} {A} Q R m f c h k = go (m c) h
  where
    go : (r : Outcome C A) → NoFault Q r → NoFault R (((λ (_ : C). r) >>= f) c)
    go (ok a c') h = k a c' h
    go (err e c') h = tt
    go abort h = tt
    go fault h = absurd h
    go stuck h = tt

length-store_at :
    (buf : List ℕ) (i : ℕ) (bytes : List ℕ)
    → i + length bytes ≤ length buf
    → length (store_at buf i bytes) ≡ length buf
unfolding store_at
length-store_at buf i bytes h = omega (
  arith,
  length-append (take i buf) (bytes ++ drop (i + length bytes) buf),
  length-append bytes (drop (i + length bytes) buf),
  length-take i buf,
  length-drop (i + length bytes) buf,
)

length-calloc : (n : ℕ) → length (calloc n) ≡ n
unfolding calloc
length-calloc n = length-replicate {A = ℕ} n 0

reply_buf_lem :
    (r : ApduBuf)
    → ReplyReady r
    → (length (buf_bytes (reply_buf r)) ≡ (reply_buf r).b_size)
      × ((reply_buf r).b_size < 2 ^ 63)
      × ((reply_buf r).b_offset ≤ (reply_buf r).b_size)
unfolding reply_buf
reply_buf_lem r (inl e) = rw (e) (length-calloc max_apdu_size, omega arith, omega arith)
reply_buf_lem r (inr (b, e, n, s, o)) = rw e (n, s, o)

next_block_lem :
    (rem : ℕ) (a : Apdu)
    → ((next_block rem a).a_cmd.b_data ≡ a.a_cmd.b_data)
      × ((next_block rem a).a_cmd.b_offset ≡ a.a_cmd.b_offset)
      × ((next_block rem a).a_cmd.b_len ≤ rem)
      × ((next_block rem a).a_reply ≡ a.a_reply)
unfolding next_block
next_block_lem rem a = ground arith

-- The command with the block that is sent next counted as sent.
abbrev pub advanced : Apdu → Apdu
advanced a = record a {
  a_cmd = record (a.a_cmd) { b_offset = add_size a.a_cmd.b_offset a.a_cmd.b_len };
}

CmdFits-advanced :
    (rem : ℕ) (a : Apdu)
    → CmdFits a.a_cmd rem
    → a.a_cmd.b_len ≤ rem
    → CmdFits
        (next_block (sub_size rem a.a_cmd.b_len) (advanced a)).a_cmd
        (sub_size rem a.a_cmd.b_len)
CmdFits-advanced rem a fits le bytes e =
    let (d, o, _, _) = next_block_lem (sub_size rem a.a_cmd.b_len) (advanced a) in
    let (f, small) = fits bytes (sym d ∙ e) in (rw o (omega arith), small)

CmdFits-block :
    (cmd : ApduBuf) (rem : ℕ) → CmdFits cmd rem → cmd.b_len ≤ rem → CmdFits cmd cmd.b_len
CmdFits-block cmd rem fits le bytes e = let (f, small) = fits bytes e in (omega arith, small)

ReplyFits-ready : (r : ApduBuf) → ReplyFits r → ReplyReady r
ReplyFits-ready r (b, e, n, s, o) = inr (b, e, n, s, omega arith)

continued :
    (a : Apdu)
    → (continue_apdu a).a_reply
      ≡ record (a.a_reply) { b_offset = add_size a.a_reply.b_offset a.a_reply.b_len }
unfolding continue_apdu
continued a = refl

kept : (r : ApduBuf) (b : List ℕ) → r.b_data ≡ some b → (reply_buf r).b_offset ≡ r.b_offset
unfolding reply_buf
kept r b e = ground arith

-- What the documentation of `SCardTransmit` says of an answer: a status at least, and no more than
-- there is room for.
module _ {C : Type 0} (scard_transmit : C → List ℕ → ℕ → Option (List ℕ) × C)
    (answer_fits : (c : C) (cmd : List ℕ) (max : ℕ) (bytes : List ℕ)
      → (scard_transmit c cmd max).0 ≡ some bytes
      → (2 ≤ length bytes) × (length bytes ≤ max)) where
  finish_reply-NoFault :
      (a : Apdu) (r : ApduBuf) (bytes : List ℕ) (c : C)
      → length (buf_bytes r) ≡ r.b_size
      → r.b_size < 2 ^ 63
      → r.b_offset + length bytes ≤ r.b_size
      → 2 ≤ length bytes
      → NoFault
          (λ (a' : Apdu).
            ReplyFits a'.a_reply × (a'.a_cmd ≡ a.a_cmd) × (a'.a_reply.b_offset ≡ r.b_offset))
          (finish_reply a r bytes c)
  unfolding finish_reply
  finish_reply-NoFault a r bytes c n small fits two =
      let buf = store_at (buf_bytes r) r.b_offset bytes in
      let m : length buf ≡ r.b_size =
        length-store_at (buf_bytes r) r.b_offset bytes (omega arith) ∙ n in
      let at = add_size r.b_offset (sub_size (length bytes) 2) in
      let (hi, eh) = get_elem?-is_some buf at (omega arith) in
      let (lo, el) = get_elem?-is_some buf (add_size at 1) (omega arith) in
      rw (eh, NoFault) (rw (el, NoFault) ((buf, refl, m, small, omega arith), refl, refl))

  -- What an exchange that returns has done: the reply is there, and the command is as it was.
  abbrev pub Exchanged : Apdu → Apdu → Type 0
  Exchanged a a' =
      ReplyFits a'.a_reply
      × (a'.a_cmd ≡ a.a_cmd)
      × (a'.a_reply.b_offset ≡ (reply_buf a.a_reply).b_offset)

  take_answer-NoFault :
      (a : Apdu) (r : ApduBuf) (o : Option (List ℕ)) (c : C)
      → r ≡ reply_buf a.a_reply
      → length (buf_bytes r) ≡ r.b_size
      → r.b_size < 2 ^ 63
      → ((bytes : List ℕ)
          → o ≡ some bytes
          → (2 ≤ length bytes) × (r.b_offset + length bytes ≤ r.b_size))
      → NoFault (Exchanged a) (take_answer a r o c)
  unfolding take_answer
  take_answer-NoFault a r none c er n small h = tt
  take_answer-NoFault a r (some bytes) c er n small h =
      subst
        (λ (t : ApduBuf).
          NoFault
            (λ (a' : Apdu).
              ReplyFits a'.a_reply × (a'.a_cmd ≡ a.a_cmd) × (a'.a_reply.b_offset ≡ t.b_offset))
            (finish_reply a r bytes c))
        er (finish_reply-NoFault a r bytes c n small (h bytes refl).1 (h bytes refl).0)

  exchange-NoFault :
      (a : Apdu) (cmd : List ℕ) (c : C)
      → ReplyReady a.a_reply
      → NoFault (Exchanged a) (exchange scard_transmit a cmd c)
  unfolding exchange
  exchange-NoFault a cmd c ready =
      take_answer-NoFault a r _ _ refl n small
        λ bytes e. let (two, fits) = answer_fits c cmd _ bytes e in (two, omega (arith, off, small))
    where
      r : ApduBuf
      r = reply_buf a.a_reply

      n : length (buf_bytes r) ≡ r.b_size
      n = (reply_buf_lem a.a_reply ready).0

      small : r.b_size < 2 ^ 63
      small = (reply_buf_lem a.a_reply ready).1

      off : r.b_offset ≤ r.b_size
      off = (reply_buf_lem a.a_reply ready).2

  data_to_buffer-NoFault :
      (a : Apdu) (bytes : List ℕ) (c : C)
      → a.a_cmd.b_offset + a.a_cmd.b_len ≤ length bytes
      → NoFault (λ (cmd : List ℕ). Unit {0}) (data_to_buffer a bytes c)
  unfolding data_to_buffer slice
  data_to_buffer-NoFault a bytes c fits =
      elim (Bool-cases (ltb a.a_cmd.b_len 256 && ltb 0 a.a_cmd.b_len)) [
        | inl e ↦ rw (e, NoFault, le→leb _ _ fits) tt
        | inr e ↦ rw (e, NoFault) tt
      ]

  apdu_to_buffer-NoFault :
      (a : Apdu) (c : C)
      → CmdFits a.a_cmd a.a_cmd.b_len
      → NoFault (λ (cmd : List ℕ). Unit {0}) (apdu_to_buffer a c)
  unfolding apdu_to_buffer
  apdu_to_buffer-NoFault a c fits = go a.a_cmd.b_data fits
    where
      go :
          (o : Option (List ℕ))
          → ((bytes : List ℕ)
              → o ≡ some bytes
              → (a.a_cmd.b_offset + a.a_cmd.b_len ≤ length bytes) × (length bytes < 2 ^ 63))
          → NoFault (λ (cmd : List ℕ). Unit {0}) (cmd_to_buffer a o c)
      go none h = tt
      go (some bytes) h = data_to_buffer-NoFault a bytes c (h bytes refl).0

  pub piv_apdu_transceive-NoFault :
      (pt_intxn : Bool) (a : Apdu) (c : C)
      → CmdFits a.a_cmd a.a_cmd.b_len
      → ReplyReady a.a_reply
      → NoFault (Exchanged a) (piv_apdu_transceive scard_transmit pt_intxn a c)
  unfolding piv_apdu_transceive
  piv_apdu_transceive-NoFault false a c fits ready = tt
  piv_apdu_transceive-NoFault true a c fits ready =
      NoFault-bind (λ (cmd : List ℕ). Unit {0}) (Exchanged a) (apdu_to_buffer a)
        (exchange scard_transmit a) c (apdu_to_buffer-NoFault a c fits)
        λ cmd c' _. exchange-NoFault a cmd c' ready

  -- The reply of the second loop is not before that of `a`.
  abbrev Behind : Apdu → Bool × Apdu → Type 0
  Behind a p = ReplyFits p.1.a_reply × (a.a_reply.b_offset ≤ p.1.a_reply.b_offset)

  -- The state of the first loop: the rest of the command lies in its memory.
  send_loop-NoFault :
      (fuel rem : ℕ) (pt_intxn : Bool) (a : Apdu) (c : C)
      → CmdFits a.a_cmd rem
      → a.a_cmd.b_len ≤ rem
      → ReplyReady a.a_reply
      → NoFault SentFits (send_loop scard_transmit pt_intxn fuel rem a c)
  unfolding send_loop
  send_loop-NoFault zero rem pt_intxn a c fits le ready = tt
  send_loop-NoFault (suc fuel) rem pt_intxn a c fits le ready =
      NoFault-bind (Exchanged a) SentFits (piv_apdu_transceive scard_transmit pt_intxn a) _ c
        (piv_apdu_transceive-NoFault pt_intxn a c (CmdFits-block a.a_cmd rem fits le) ready)
        λ a' c' (reply, same, _).
          let fits' : CmdFits a'.a_cmd rem = rw same fits in
          let le' : a'.a_cmd.b_len ≤ rem = rw same le in
          let rem' = sub_size rem a'.a_cmd.b_len in
          let (_, _, len, r) = next_block_lem rem' (advanced a') in
          step rem a' c' reply
            (send_loop-NoFault fuel rem pt_intxn (record a' { a_le = low_bits a'.a_sw 8 }) c' fits'
              le' (ReplyFits-ready a'.a_reply reply))
            (send_loop-NoFault fuel rem' pt_intxn (next_block rem' (advanced a')) c'
              (CmdFits-advanced rem a' fits' le') len (rw r (ReplyFits-ready a'.a_reply reply)))
    where
      step :
          (rem : ℕ) (a' : Apdu) (c' : C)
          → ReplyFits a'.a_reply
          → NoFault SentFits (
              send_loop scard_transmit pt_intxn fuel rem
                (record a' { a_le = low_bits a'.a_sw 8 })
                c')
          → NoFault SentFits (
              send_loop scard_transmit pt_intxn fuel
                (sub_size rem a'.a_cmd.b_len)
                (next_block (sub_size rem a'.a_cmd.b_len) (advanced a'))
                c')
          → NoFault SentFits (
              (if sw_class a'.a_sw 0x6C
                  then send_loop scard_transmit pt_intxn fuel rem
                      (record a' { a_le = low_bits a'.a_sw 8 })
                  else if sw_goes_on a'.a_sw
                  then (if ltb 0 (sub_size rem a'.a_cmd.b_len)
                      then send_loop scard_transmit pt_intxn fuel
                          (sub_size rem a'.a_cmd.b_len)
                          (next_block (sub_size rem a'.a_cmd.b_len) (advanced a'))
                      else pure (all_sent (advanced a')))
                  else pure (refused a'))
                c')
      step rem a' c' reply again next = elim (Bool-cases (sw_class a'.a_sw 0x6C)) [
        | inl e ↦ rw e again
        | inr e ↦ elim (Bool-cases (sw_goes_on a'.a_sw)) [
          | inl g ↦ elim (Bool-cases (ltb 0 (sub_size rem a'.a_cmd.b_len))) [
            | inl m ↦ rw (e, g, m) next
            | inr m ↦ rw (e, g, m) reply
          ]
          | inr g ↦ rw (e, g) reply
        ]
      ]

  Behind-trans :
      (a a'' : Apdu) (r : Outcome C (Bool × Apdu))
      → a.a_reply.b_offset ≤ a''.a_reply.b_offset
      → NoFault (Behind a'') r
      → NoFault (Behind a) r
  Behind-trans a a'' (ok p c) le (fits, h) = (fits, omega arith)
  Behind-trans a a'' (err e c) le h = h
  Behind-trans a a'' abort le h = h
  Behind-trans a a'' fault le h = h
  Behind-trans a a'' stuck le h = h

  continue_loop-NoFault :
      (fuel : ℕ) (pt_intxn gotok : Bool) (a : Apdu) (c : C)
      → ReplyFits a.a_reply
      → NoFault (Behind a) (continue_loop scard_transmit pt_intxn fuel gotok a c)
  unfolding continue_loop
  continue_loop-NoFault zero pt_intxn gotok a c fits = tt
  continue_loop-NoFault (suc fuel) pt_intxn gotok a c (b, e, n, small, o) =
      elim (Bool-cases (more_reply a)) [
        | inr done ↦ rw done ((b, e, n, small, o), omega arith)
        | inl more ↦
            elim (Bool-cases
              (ltb (continue_apdu a).a_reply.b_offset (continue_apdu a).a_reply.b_size)) [
                | inr full ↦ rw (more, full) tt
                | inl room ↦
                    let offset : (reply_buf (continue_apdu a).a_reply).b_offset
                        ≡ add_size a.a_reply.b_offset a.a_reply.b_len =
                      kept (continue_apdu a).a_reply b (unfold continue_apdu in e)
                      ∙ ap (λ r. r.b_offset) (continued a) in
                    rw (more, room)
                      (NoFault-bind (Exchanged (continue_apdu a)) (Behind a)
                        (piv_apdu_transceive scard_transmit pt_intxn (continue_apdu a)) _ c
                        (piv_apdu_transceive-NoFault pt_intxn (continue_apdu a) c
                          (unfold continue_apdu in λ bytes h. cc)
                          (unfold continue_apdu in inr (b, e, n, small, omega arith)))
                        λ a'' c' (reply, _, at).
                          Behind-trans a a'' _ (omega (arith, at, offset))
                            (continue_loop-NoFault fuel pt_intxn _ a'' c' reply))
              ]
      ]

  receive-NoFault :
      (fuel : ℕ) (pt_intxn : Bool) (s : Sent) (c : C)
      → SentFits s
      → NoFault (λ (a : Apdu). ReplyFits a.a_reply) (receive scard_transmit pt_intxn fuel s c)
  unfolding receive
  receive-NoFault fuel pt_intxn (refused a) c fits = fits
  receive-NoFault fuel pt_intxn (all_sent a) c fits =
      NoFault-bind (Behind a) (λ (a : Apdu). ReplyFits a.a_reply)
        (continue_loop scard_transmit pt_intxn fuel false a) _ c
        (continue_loop-NoFault fuel pt_intxn false a c fits)
        λ p c' ((b, e, n, small, o), le). unfold join_reply in (b, e, n, small, omega arith)

  -- An exchange of a command of any length touches no byte outside the command and reply buffers,
  -- if each answer of the card has a status and fits in the room given for it, and leaves a reply
  -- that lies in its buffer.
  pub piv_apdu_transceive_chain-NoFault :
      (fuel : ℕ) (pt_intxn : Bool) (a : Apdu) (c : C)
      → CmdFits a.a_cmd a.a_cmd.b_len
      → ReplyReady a.a_reply
      → NoFault
          (λ (a' : Apdu). ReplyFits a'.a_reply)
          (piv_apdu_transceive_chain scard_transmit pt_intxn fuel a c)
  unfolding piv_apdu_transceive_chain
  piv_apdu_transceive_chain-NoFault fuel false a c fits ready = tt
  piv_apdu_transceive_chain-NoFault fuel true a c fits ready =
      let (d, o, l, r) = next_block_lem a.a_cmd.b_len a in
      NoFault-bind SentFits (λ (a : Apdu). ReplyFits a.a_reply)
        (send_loop scard_transmit true fuel a.a_cmd.b_len (next_block a.a_cmd.b_len a)) _ c
        (send_loop-NoFault fuel a.a_cmd.b_len true (next_block a.a_cmd.b_len a) c
          (λ bytes e. rw o (fits bytes (sym d ∙ e))) l (rw r ready))
        λ s c' h. receive-NoFault fuel true s c' h
