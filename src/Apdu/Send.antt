-- ===== src/Apdu/Send.antt =====
-- `piv_apdu_transceive_chain` with a card that accepts what it is sent: the blocks that arrive.
use pivy.Prelude.{
  ℕ, zero, suc, ◌+◌, ◌-◌, ◌*◌, ◌^◌, ◌≤◌, ◌<◌, ◌≡◌, refl, sym, ap, ◌∙◌, List, [], ◌∷◌, ◌++◌, true,
  false, Option, some, subst, append_assoc, append-nil, length, length-drop, take, drop, ltb, ◌&&◌,
  if◌then◌else◌, add_size, sub_size, bit_set, Bool-cases, le→leb, lt→ltb, le→ltb, arith, inl, inr,
}
use native.Mathlib.Decide.{dec_lt}
use pivy.Outcome.{ok, pure, ◌>>=◌}
use pivy.Apdu.{
  ApduBuf, Apdu, slice, data_to_buffer, cmd_to_buffer, apdu_to_buffer, reply_buf, buf_bytes,
  store_at, finish_reply, take_answer, exchange, piv_apdu_transceive, sw_no_error,
}
use pivy.Apdu.Safe.{advanced}
use pivy.Apdu.Chain.{
  all_sent, next_block, set_chain, send_loop, continue_loop, receive, join_reply,
  piv_apdu_transceive_chain,
}
use pivy.Apdu.Blocks.{blocks_of, payload, payload-blocks_of, drop-drop, take_all, chain_bits}

reply_offset : (r : ApduBuf) → r.b_offset ≡ 0 → (reply_buf r).b_offset ≡ 0
unfolding reply_buf
reply_offset r e = ground arith

accepted_reply :
    {C : Type 0} (a : Apdu) (r : ApduBuf) (c : C)
    → r.b_offset ≡ 0
    → (a' : Apdu) × (finish_reply a r (0x90 ∷ 0x00 ∷ []) c ≡ ok a' c)
      × (a' ≡ record a {
        a_sw = sw_no_error;
        a_reply = record r {
          b_data = some (store_at (buf_bytes r) 0 (0x90 ∷ 0x00 ∷ []));
          b_len = 0;
        };
      })
unfolding finish_reply store_at
accepted_reply a r c e = (_, rw e refl, refl)

-- A card that accepts every block, and the blocks that it has received.
module _ {C : Type 0} (scard_transmit : C → List ℕ → ℕ → Option (List ℕ) × C)
    (received : C → List (List ℕ))
    (accepts : (c : C) (cmd : List ℕ) (max : ℕ)
      → (scard_transmit c cmd max).0 ≡ some (0x90 ∷ 0x00 ∷ []))
    (records : (c : C) (cmd : List ℕ) (max : ℕ)
      → received (scard_transmit c cmd max).1 ≡ received c ++ (cmd ∷ [])) where
  -- What one exchange with the card leaves.
  abbrev Accepted : Apdu → List ℕ → C → Apdu → C → Type 0
  Accepted a cmd c a' c' =
      (received c' ≡ received c ++ (cmd ∷ []))
      × (a'.a_sw ≡ sw_no_error)
      × (a'.a_cmd ≡ a.a_cmd)
      × (a'.a_cls ≡ a.a_cls)
      × (a'.a_ins ≡ a.a_ins)
      × (a'.a_p1 ≡ a.a_p1)
      × (a'.a_p2 ≡ a.a_p2)
      × (a'.a_le ≡ a.a_le)
      × (a'.a_reply.b_len ≡ 0)
      × (a'.a_reply.b_offset ≡ 0)

  exchange-Accepted :
      (a : Apdu) (cmd : List ℕ) (c : C)
      → a.a_reply.b_offset ≡ 0
      → (a' : Apdu) × (c' : C) × (exchange scard_transmit a cmd c ≡ ok a' c')
        × Accepted a cmd c a' c'
  unfolding exchange take_answer
  exchange-Accepted a cmd c e =
      let r = reply_buf a.a_reply in
      let room = sub_size r.b_size r.b_offset in
      let c' = (scard_transmit c cmd room).1 in
      let o : r.b_offset ≡ 0 = reply_offset a.a_reply e in
      let (a', e', shape) = accepted_reply a r c' o in
      (
        a',
        c',
        rw (accepts c cmd room) e',
        (
          records c cmd room,
          ap (λ (t : Apdu). t.a_sw) shape,
          ap (λ (t : Apdu). t.a_cmd) shape,
          ap (λ (t : Apdu). t.a_cls) shape,
          ap (λ (t : Apdu). t.a_ins) shape,
          ap (λ (t : Apdu). t.a_p1) shape,
          ap (λ (t : Apdu). t.a_p2) shape,
          ap (λ (t : Apdu). t.a_le) shape,
          ap (λ (t : Apdu). t.a_reply.b_len) shape,
          ap (λ (t : Apdu). t.a_reply.b_offset) shape ∙ o,
        ),
      )

  -- An exchange of the block that lies at the offset of the command.
  transceive-Accepted :
      (a : Apdu) (bytes : List ℕ) (c : C)
      → a.a_cmd.b_data ≡ some bytes
      → 0 < a.a_cmd.b_len
      → a.a_cmd.b_len < 256
      → a.a_cmd.b_offset + a.a_cmd.b_len ≤ length bytes
      → a.a_reply.b_offset ≡ 0
      → let block =
          a.a_cls
          ∷ a.a_ins
          ∷ a.a_p1
          ∷ a.a_p2
          ∷ a.a_cmd.b_len
          ∷ (take a.a_cmd.b_len (drop a.a_cmd.b_offset bytes)
              ++ (if bit_set a.a_cls 4 then [] else a.a_le ∷ [])) in
        (a' : Apdu) × (c' : C) × (piv_apdu_transceive scard_transmit true a c ≡ ok a' c')
        × Accepted a block c a' c'
  unfolding piv_apdu_transceive
  transceive-Accepted a bytes c d pos small fits o =
      let (a', c', e, acc) = exchange-Accepted a _ c o in (a', c', rw (to_buffer, ◌>>=◌) e, acc)
    where
      block : List ℕ
      block =
          a.a_cls
          ∷ a.a_ins
          ∷ a.a_p1
          ∷ a.a_p2
          ∷ a.a_cmd.b_len
          ∷ (take a.a_cmd.b_len (drop a.a_cmd.b_offset bytes)
              ++ (if bit_set a.a_cls 4 then [] else a.a_le ∷ []))

      cond : (ltb a.a_cmd.b_len 256 && ltb 0 a.a_cmd.b_len) ≡ true
      cond = ground arith

      to_buffer : apdu_to_buffer a c ≡ ok block c
      to_buffer =
          unfold apdu_to_buffer data_to_buffer slice in
          rw (d, cmd_to_buffer, cond) (rw (le→leb _ _ fits))

  -- What the first loop leaves when the whole command has been sent.
  abbrev SentAll : Apdu → List (List ℕ) → C → Apdu → C → Type 0
  SentAll a blocks c a' c' =
      (received c' ≡ received c ++ blocks)
      × (a'.a_sw ≡ sw_no_error)
      × (a'.a_reply.b_len ≡ 0)
      × (a'.a_reply.b_offset ≡ 0)

  send_step :
      (n rem : ℕ) (b a' : Apdu) (c c' : C)
      → piv_apdu_transceive scard_transmit true b c ≡ ok a' c'
      → a'.a_sw ≡ sw_no_error
      → send_loop scard_transmit true (suc n) rem b c
        ≡ (if ltb 0 (sub_size rem a'.a_cmd.b_len)
              then send_loop scard_transmit true n
                  (sub_size rem a'.a_cmd.b_len)
                  (next_block (sub_size rem a'.a_cmd.b_len) (advanced a'))
              else pure (all_sent (advanced a')))
            c'
  unfolding send_loop
  send_step n rem b a' c c' e sw = rw (e, ◌>>=◌) (rw sw refl)

  module _ (rem : ℕ) (a : Apdu) (bytes : List ℕ) (fits : a.a_cmd.b_offset + rem ≡ length bytes)
      (small : length bytes < 2 ^ 63) where
    -- The block that is sent of `rem` bytes, and what the card receives.
    abbrev block : Apdu
    block = next_block rem a

    abbrev frame : List ℕ
    frame =
        block.a_cls
        ∷ block.a_ins
        ∷ block.a_p1
        ∷ block.a_p2
        ∷ block.a_cmd.b_len
        ∷ (take block.a_cmd.b_len (drop block.a_cmd.b_offset bytes)
            ++ (if bit_set block.a_cls 4 then [] else block.a_le ∷ []))

    left : length (drop a.a_cmd.b_offset bytes) ≡ rem
    left = length-drop a.a_cmd.b_offset bytes ∙ omega arith

    last_frame :
        (n : ℕ)
        → rem ≤ 255
        → frame ∷ []
          ≡ blocks_of (suc n) a.a_cls a.a_ins a.a_p1 a.a_p2 a.a_le (drop a.a_cmd.b_offset bytes)
    unfolding blocks_of next_block
    last_frame n h =
        rw
          (
            le→ltb 255 (length (drop a.a_cmd.b_offset bytes)) (omega (arith, left)),
            le→ltb 255 rem h,
            (chain_bits a.a_cls).1,
          )
          (rw (left, take_all (drop a.a_cmd.b_offset bytes) rem (sym left)))

    next_frame :
        (n : ℕ)
        → 255 < rem
        → frame
            ∷ blocks_of n
                (set_chain a.a_cls)
                a.a_ins
                a.a_p1
                a.a_p2
                a.a_le
                (drop (a.a_cmd.b_offset + 255) bytes)
          ≡ blocks_of (suc n) a.a_cls a.a_ins a.a_p1 a.a_p2 a.a_le (drop a.a_cmd.b_offset bytes)
    unfolding blocks_of next_block
    next_frame n h =
        rw
          (
            lt→ltb 255 (length (drop a.a_cmd.b_offset bytes)) (omega (arith, left)),
            lt→ltb 255 rem h,
            (chain_bits a.a_cls).0,
          )
          (rw (append-nil, drop-drop a.a_cmd.b_offset 255 bytes))

    -- The round that sends the last block, from what its exchange leaves.
    last_round :
        (n : ℕ) (a' : Apdu) (c c' : C)
        → rem ≤ 255
        → piv_apdu_transceive scard_transmit true block c ≡ ok a' c'
        → Accepted block frame c a' c'
        → (send_loop scard_transmit true (suc n) rem block c ≡ ok (all_sent (advanced a')) c')
          × SentAll a
              (blocks_of (suc n) a.a_cls a.a_ins a.a_p1 a.a_p2 a.a_le (drop a.a_cmd.b_offset bytes))
              c
              (advanced a')
              c'
    last_round n a' c c' h e (rec, sw, cmd, _, _, _, _, _, rlen, roff) = (
      send_step n rem block a' c c' e sw ∙ rw done,
      (rec ∙ ap (λ l. received c ++ l) (last_frame n h), sw, rlen, roff),
    )
      where
        len : a'.a_cmd.b_len ≡ rem
        len = ap (λ (t : ApduBuf). t.b_len) cmd ∙ (unfold next_block in ground arith)

        done : ltb 0 (sub_size rem a'.a_cmd.b_len) ≡ false
        done = le→ltb _ _ (omega (arith, len))

    -- The round that sends any other block, from its exchange and the rounds that follow.
    next_round :
        (n : ℕ) (a' a'' : Apdu) (c c' c'' : C)
        → 255 < rem
        → piv_apdu_transceive scard_transmit true block c ≡ ok a' c'
        → Accepted block frame c a' c'
        → send_loop scard_transmit true n (rem - 255) (next_block (rem - 255) (advanced a')) c'
          ≡ ok (all_sent a'') c''
        → SentAll
            (advanced a')
            (blocks_of n a'.a_cls a'.a_ins a'.a_p1 a'.a_p2 a'.a_le
              (drop (add_size a'.a_cmd.b_offset a'.a_cmd.b_len) bytes))
            c'
            a''
            c''
        → (send_loop scard_transmit true (suc n) rem block c ≡ ok (all_sent a'') c'')
          × SentAll a
              (blocks_of (suc n) a.a_cls a.a_ins a.a_p1 a.a_p2 a.a_le (drop a.a_cmd.b_offset bytes))
              c
              a''
              c''
    next_round n a' a'' c c' c'' h e (rec, sw, cmd, cls, ins, p1, p2, le, _, _) e'
          (rec', sw', rlen, roff) =
        (send_step n rem block a' c c' e sw ∙ rw (go_on) (rw rest e'), (all, sw', rlen, roff))
      where
        len : a'.a_cmd.b_len ≡ 255
        len = ap (λ (t : ApduBuf). t.b_len) cmd ∙ (unfold next_block in ground arith)

        off : add_size a'.a_cmd.b_offset a'.a_cmd.b_len ≡ a.a_cmd.b_offset + 255
        off =
            let o : a'.a_cmd.b_offset ≡ a.a_cmd.b_offset =
              ap (λ (t : ApduBuf). t.b_offset) cmd ∙ (unfold next_block in ground arith) in
            omega (arith, len)

        rest : sub_size rem a'.a_cmd.b_len ≡ rem - 255
        rest = omega (arith, len)

        go_on : ltb 0 (sub_size rem a'.a_cmd.b_len) ≡ true
        go_on = lt→ltb _ _ (omega (arith, rest))

        cls' : a'.a_cls ≡ set_chain a.a_cls
        cls' = cls ∙ (unfold next_block in ground arith)

        ins' : a'.a_ins ≡ a.a_ins
        ins' = ins ∙ (unfold next_block in ground arith)

        p1' : a'.a_p1 ≡ a.a_p1
        p1' = p1 ∙ (unfold next_block in ground arith)

        p2' : a'.a_p2 ≡ a.a_p2
        p2' = p2 ∙ (unfold next_block in ground arith)

        le' : a'.a_le ≡ a.a_le
        le' = le ∙ (unfold next_block in ground arith)

        same :
            blocks_of n a'.a_cls a'.a_ins a'.a_p1 a'.a_p2 a'.a_le
              (drop (add_size a'.a_cmd.b_offset a'.a_cmd.b_len) bytes)
            ≡ blocks_of n
                (set_chain a.a_cls)
                a.a_ins
                a.a_p1
                a.a_p2
                a.a_le
                (drop (a.a_cmd.b_offset + 255) bytes)
        same = cc (cls', ins', p1', p2', le', off)

        all :
            received c''
            ≡ received c
              ++ blocks_of
                  (suc n)
                  a.a_cls
                  a.a_ins
                  a.a_p1
                  a.a_p2
                  a.a_le
                  (drop a.a_cmd.b_offset bytes)
        all =
            rec'
            ∙ ap (λ l. received c' ++ l) same
            ∙ ap
                (λ l.
                  l
                  ++ blocks_of n (set_chain a.a_cls) a.a_ins a.a_p1 a.a_p2 a.a_le
                      (drop (a.a_cmd.b_offset + 255) bytes))
                rec
            ∙ append_assoc (received c) (frame ∷ []) _
            ∙ ap (λ l. received c ++ l) (next_frame n h)

  -- What is left of the command lies at the offset that the block has moved to.
  abbrev Remains : ℕ → Apdu → List ℕ → Type 0
  Remains rem a bytes =
      (a.a_cmd.b_data ≡ some bytes)
      × (a.a_cmd.b_offset + rem ≡ length bytes)
      × (a.a_reply.b_offset ≡ 0)

  advanced-Remains :
      (rem : ℕ) (a a' : Apdu) (bytes cmd : List ℕ) (c c' : C)
      → Remains rem a bytes
      → length bytes < 2 ^ 63
      → 255 < rem
      → Accepted (next_block rem a) cmd c a' c'
      → Remains (rem - 255) (advanced a') bytes
  advanced-Remains rem a a' bytes cmd c c' (d, fits, o) small h
        (rec, sw, same, _, _, _, _, _, rlen, roff) =
      (
        ap (λ (t : ApduBuf). t.b_data) same ∙ kept ∙ d,
        omega (arith, len, off, fits, small, h),
        roff,
      )
    where
      kept : (next_block rem a).a_cmd.b_data ≡ a.a_cmd.b_data
      kept = unfold next_block in ground arith

      len : a'.a_cmd.b_len ≡ 255
      len = ap (λ (t : ApduBuf). t.b_len) same ∙ (unfold next_block in ground arith)

      off : a'.a_cmd.b_offset ≡ a.a_cmd.b_offset
      off = ap (λ (t : ApduBuf). t.b_offset) same ∙ (unfold next_block in ground arith)

  block-fits :
      (rem : ℕ) (a : Apdu) (bytes : List ℕ)
      → Remains rem a bytes
      → 0 < rem
      → let b = next_block rem a in
        (b.a_cmd.b_data ≡ some bytes)
        × (0 < b.a_cmd.b_len)
        × (b.a_cmd.b_len < 256)
        × (b.a_cmd.b_offset + b.a_cmd.b_len ≤ length bytes)
        × (b.a_reply.b_offset ≡ 0)
  block-fits rem a bytes (d, fits, o) pos =
      unfold next_block in
      elim (Bool-cases (ltb 255 rem)) [
        | inl e ↦ rw e (d, ground arith, ground arith, ground arith, o)
        | inr e ↦ rw e (d, pos, ground arith, ground arith, o)
      ]

  -- The first loop sends `rem` bytes in `n` rounds, if they fit in `n` blocks.
  send_loop-SentAll :
      (n rem : ℕ) (a : Apdu) (bytes : List ℕ) (c : C)
      → Remains rem a bytes
      → length bytes < 2 ^ 63
      → 0 < rem
      → rem ≤ 255 * n
      → (a' : Apdu) × (c' : C) × (send_loop scard_transmit true n rem (next_block rem a) c
          ≡ ok (all_sent a') c')
        × SentAll a
            (blocks_of n a.a_cls a.a_ins a.a_p1 a.a_p2 a.a_le (drop a.a_cmd.b_offset bytes))
            c
            a'
            c'
  send_loop-SentAll zero rem a bytes c r small pos enough = absurd (omega arith)
  send_loop-SentAll (suc n) rem a bytes c r small pos enough =
      let (d, p, s, f, o) = block-fits rem a bytes r pos in
      let (a', c', e, acc) = transceive-Accepted (next_block rem a) bytes c d p s f o in
      round (λ a₁ c₁. send_loop-SentAll n (rem - 255) a₁ bytes c₁) a' c' e acc (dec_lt 255 rem)
    where
      round :
          ((a₁ : Apdu) (c₁ : C)
            → Remains (rem - 255) a₁ bytes
            → length bytes < 2 ^ 63
            → 0 < rem - 255
            → rem - 255 ≤ 255 * n
            → (a'' : Apdu) × (c'' : C) × (send_loop scard_transmit true n
                  (rem - 255)
                  (next_block (rem - 255) a₁)
                  c₁
                ≡ ok (all_sent a'') c'')
              × SentAll a₁
                  (blocks_of n a₁.a_cls a₁.a_ins a₁.a_p1 a₁.a_p2 a₁.a_le
                    (drop a₁.a_cmd.b_offset bytes))
                  c₁
                  a''
                  c'')
          → (a' : Apdu) (c' : C)
          → piv_apdu_transceive scard_transmit true (next_block rem a) c ≡ ok a' c'
          → Accepted (next_block rem a) (frame rem a bytes r.1 small) c a' c'
          → Dec (255 < rem)
          → (a'' : Apdu) × (c'' : C) × (send_loop scard_transmit true
                (suc n)
                rem
                (next_block rem a)
                c
              ≡ ok (all_sent a'') c'')
            × SentAll a
                (blocks_of
                  (suc n)
                  a.a_cls
                  a.a_ins
                  a.a_p1
                  a.a_p2
                  a.a_le
                  (drop a.a_cmd.b_offset bytes))
                c
                a''
                c''
      round rest a' c' e acc (no last) =
          let p = last_round rem a bytes r.1 small n a' c c' (omega (arith, last)) e acc in
          (advanced a', c', p.0, p.1)
      round rest a' c' e acc (yes more) =
          let (a'', c'', e', all) =
            rest (advanced a') c' (advanced-Remains rem a a' bytes _ c c' r small more acc) small
              (omega (arith, more)) (omega (arith, enough)) in
          let p = next_round rem a bytes r.1 small n a' a'' c c' c'' more e acc e' all in
          (a'', c'', p.0, p.1)

  receive-sent :
      (n : ℕ) (a : Apdu) (c : C)
      → a.a_sw ≡ sw_no_error
      → a.a_reply.b_len ≡ 0
      → a.a_reply.b_offset ≡ 0
      → receive scard_transmit true (suc n) (all_sent a) c ≡ ok (join_reply 0 false a) c
  unfolding receive continue_loop
  receive-sent n a c sw len off = rw (sw, len, off, ◌>>=◌) refl

  -- A card that accepts every block is sent, from a command of 1 byte or more at offset 0 within
  -- 255 bytes for each unit of fuel, exactly the chained blocks of the command, whose data put
  -- together is the command, and the call ends with SW_NO_ERROR and an empty reply.
  pub piv_apdu_transceive_chain-sends :
      (n : ℕ) (a : Apdu) (bytes : List ℕ) (c : C)
      → a.a_cmd.b_data ≡ some bytes
      → a.a_cmd.b_offset ≡ 0
      → a.a_cmd.b_len ≡ length bytes
      → a.a_reply.b_offset ≡ 0
      → length bytes < 2 ^ 63
      → 0 < length bytes
      → length bytes ≤ 255 * suc n
      → let blocks = blocks_of (suc n) a.a_cls a.a_ins a.a_p1 a.a_p2 a.a_le bytes in
        (a' : Apdu) × (c' : C) × (piv_apdu_transceive_chain scard_transmit true (suc n) a c
          ≡ ok a' c')
        × (a'.a_sw ≡ sw_no_error)
        × (a'.a_reply.b_len ≡ 0)
        × (received c' ≡ received c ++ blocks)
        × (payload blocks ≡ bytes)
  unfolding piv_apdu_transceive_chain join_reply
  piv_apdu_transceive_chain-sends n a bytes c d o len ro small pos enough =
      let (a', c', e, sent) =
        send_loop-SentAll (suc n) a.a_cmd.b_len a bytes c (d, omega (arith, o, len), ro) small
          (omega (arith, len, pos)) (omega (arith, len, enough)) in
      let (rec, sw, rlen, roff) = sent in
      (
        join_reply 0 false a',
        c',
        rw (e, ◌>>=◌) (receive-sent n a' c' sw rlen roff),
        sw,
        rw (rlen, roff) refl,
        subst
            (λ k.
              received c'
              ≡ received c ++ blocks_of (suc n) a.a_cls a.a_ins a.a_p1 a.a_p2 a.a_le (drop k bytes))
            o rec,
        payload-blocks_of (suc n) a.a_cls a.a_ins a.a_p1 a.a_p2 a.a_le bytes enough,
      )
