-- ===== src/Correlator/Replies.antt =====
-- A reply that a waiter is for (`deliver` and `correlate` of zeronym/shim/src/nym.rs).
use zero_shim.Prelude.{ℕ, ◌<◌, ◌≡◌, refl, Bool, none, some, [], ◌∷◌, arith, ok, length}
use zero_shim.Bytes.{Bytes}
use zero_shim.Wire.{
  Nonce, ack_bytes, frame_bytes, AckKind, LookupReply, decode_ack, decode_lookup_reply,
}
use zero_shim.Correlator.{
  ack, lookup, Answer, acked, looked_up, Pending, find, remove, deliver_ack, deliver_lookup,
  decoded_ack, decoded_lookup, deliver, Transport, received, received_turn, turn,
}

lookup_fires :
    (p : Pending) (nonce : Nonce) (reply : LookupReply) (r : ℕ) (bytes : Bytes)
    → find nonce p ≡ some (lookup r)
    → length bytes ≡ frame_bytes
    → decode_lookup_reply bytes ≡ ok (nonce, reply)
    → deliver p bytes ≡ (remove nonce p, some (looked_up r reply))
unfolding deliver decoded_lookup deliver_lookup
lookup_fires p nonce reply r bytes f l d = rw (l, d, decoded_lookup, f, deliver_lookup) refl

ack_fires :
    (p : Pending) (nonce : Nonce) (kind : AckKind) (r : ℕ) (bytes : Bytes)
    → find nonce p ≡ some (ack r)
    → length bytes ≡ ack_bytes
    → decode_ack bytes ≡ ok (nonce, kind)
    → deliver p bytes ≡ (remove nonce p, some (acked r kind))
unfolding deliver decoded_ack deliver_ack
ack_fires p nonce kind r bytes f l d = rw (l, d, decoded_ack, f, deliver_ack) refl

module _ (gone : ℕ → Bool) (s : Transport) where
  fired_turn :
      (bytes : Bytes) (a : Answer) (q : Pending)
      → 0 < length bytes
      → deliver s.pending bytes ≡ (q, some a)
      → (turn gone (received bytes) s).1 ≡ (none, some (bytes, a))
  unfolding turn received_turn
  fired_turn [] a q h e = absurd (omega arith)
  fired_turn (b ∷ bs) a q h e = rw (e, received_turn) refl

  -- A loop that holds the waiter of a nonce fires it with a reply of its kind.
  pub lookup_reply_turn :
      (nonce : Nonce) (reply : LookupReply) (r : ℕ) (bytes : Bytes)
      → find nonce s.pending ≡ some (lookup r)
      → length bytes ≡ frame_bytes
      → decode_lookup_reply bytes ≡ ok (nonce, reply)
      → (turn gone (received bytes) s).1 ≡ (none, some (bytes, looked_up r reply))
  lookup_reply_turn nonce reply r bytes f l d =
      fired_turn bytes (looked_up r reply) (remove nonce s.pending) (omega arith)
        (lookup_fires s.pending nonce reply r bytes f l d)

  pub ack_turn :
      (nonce : Nonce) (kind : AckKind) (r : ℕ) (bytes : Bytes)
      → find nonce s.pending ≡ some (ack r)
      → length bytes ≡ ack_bytes
      → decode_ack bytes ≡ ok (nonce, kind)
      → (turn gone (received bytes) s).1 ≡ (none, some (bytes, acked r kind))
  ack_turn nonce kind r bytes f l d =
      fired_turn bytes (acked r kind) (remove nonce s.pending) (omega arith)
        (ack_fires s.pending nonce kind r bytes f l d)
