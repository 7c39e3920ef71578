-- ===== src/Mixnet/Replies.antt =====
-- The way of a hub's reply through the driver (zeronym/shim/src/nym_driver.rs) and the transport
-- loop (zeronym/shim/src/nym.rs) to the caller that waits for it.
use zero_shim.Prelude.{
  ℕ, ◌^◌, ◌<◌, ◌≡◌, refl, sym, ap, ◌∙◌, inl, inr, Bool, none, some, List, [], ◌∷◌, ◌++◌, map, arith,
  Result, ok, length,
}
use zero_shim.Bytes.{Bytes}
use zero_shim.Wire.{
  WireError, Nonce, IsNonce, encode_ack, decode_ack, encode_lookup_reply, decode_lookup_reply,
}
use zero_shim.Wire.AckFrame.{decode_ack-encode_ack}
use zero_shim.Wire.ReplyFields.{height_of}
use zero_shim.Wire.ReplyFrame.{decode_lookup_reply-encode_lookup_reply}
use zero_shim.Correlator.{
  Waiter, ack, lookup, Answer, acked, looked_up, find, Transport, received, turn,
}
use zero_shim.Correlator.Replies.{lookup_reply_turn, ack_turn}
use zero_shim.Driver.{Driver, running, delivered, messages, step}
use zero_shim.Driver.Inbound.{whole_messages, inbound_delivered}

whole_messages-append :
    (earlier later : List (ℕ × Bytes)) (now : ℕ) (frame : Bytes)
    → 0 < length frame
    → map delivered (whole_messages (earlier ++ ((now, frame) ∷ later)))
      ≡ map delivered (whole_messages earlier)
        ++ (delivered frame ∷ map delivered (whole_messages later))
whole_messages-append [] later now [] h = absurd (omega arith)
whole_messages-append [] later now (b ∷ bs) h = refl
whole_messages-append ((t, []) ∷ earlier) later now frame h =
    whole_messages-append earlier later now frame h
whole_messages-append ((t, b ∷ bs) ∷ earlier) later now frame h =
    ap (λ l. delivered (b ∷ bs) ∷ l) (whole_messages-append earlier later now frame h)

-- The frame that a hub encodes for a nonce, to fire a waiter with an answer.
abbrev pub encoded : Nonce → Answer → Result WireError Bytes
encoded nonce (acked r kind) = ok (encode_ack nonce kind)
encoded nonce (looked_up r reply) = encode_lookup_reply nonce reply

abbrev pub waiter_of : Answer → Waiter
waiter_of (acked r kind) = ack r
waiter_of (looked_up r reply) = lookup r

abbrev pub height_in : Answer → ℕ
height_in (acked r kind) = 0
height_in (looked_up r reply) = height_of reply

module _ (gone : ℕ → Bool) (t : Transport) (nonce : Nonce) (hn : IsNonce nonce) where
  encoded_fires :
      (a : Answer) (frame : Bytes)
      → height_in a < 2 ^ 64
      → find nonce t.pending ≡ some (waiter_of a)
      → encoded nonce a ≡ ok frame
      → (0 < length frame) × ((turn gone (received frame) t).1 ≡ (none, some (frame, a)))
  encoded_fires (acked r kind) frame h f e =
      let (l, d) = decode_ack-encode_ack nonce kind hn in
      let q : encode_ack nonce kind ≡ frame = ground arith in
      (
        ground (arith, l),
        ack_turn gone t nonce kind r frame f (ap length (sym q) ∙ l) (ap decode_ack (sym q) ∙ d),
      )
  encoded_fires (looked_up r reply) frame h f e =
      elim (decode_lookup_reply-encode_lookup_reply nonce reply hn h) [
        | inl (big, x) ↦ absurd (ground arith)
        | inr (bytes, x, l, d) ↦
            let q : bytes ≡ frame = ground arith in
            (
              ground (arith, l),
              lookup_reply_turn gone t nonce reply r frame f (ap length (sym q) ∙ l)
                  (ap decode_lookup_reply (sym q) ∙ d),
            )
      ]

  -- Where the driver has a client and the table holds a waiter for a nonce of NONCE_BYTES bytes:
  -- the frame that a hub encodes for that nonce, with a verdict for a waiter of a submission or a
  -- reply of a height below 2 ^ 64 for one of a lookup, is delivered in its turn among whatever
  -- other messages come with it, and fires that waiter with what the hub encoded.
  pub hub_answers_caller :
      (s : Driver) (earlier later : List (ℕ × Bytes)) (now : ℕ) (a : Answer) (frame : Bytes)
      → s.phase ≡ running
      → height_in a < 2 ^ 64
      → find nonce t.pending ≡ some (waiter_of a)
      → encoded nonce a ≡ ok frame
      → ((step (messages (some (earlier ++ ((now, frame) ∷ later)))) s).1
          ≡ map delivered (whole_messages earlier)
            ++ (delivered frame ∷ map delivered (whole_messages later)))
        × ((turn gone (received frame) t).1 ≡ (none, some (frame, a)))
  hub_answers_caller s earlier later now a frame q h f e =
      let (l, fires) = encoded_fires a frame h f e in
      (
        inbound_delivered s (earlier ++ ((now, frame) ∷ later)) q
            ∙ whole_messages-append earlier later now frame l,
        fires,
      )
