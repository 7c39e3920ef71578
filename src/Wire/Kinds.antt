-- ===== src/Wire/Kinds.antt =====
-- How the frame kinds of zeronym/shim/src/wire.rs fit together.
use zero_shim.Prelude.{ℕ, ◌^◌, ◌<◌, ◌≡◌, refl, sym, ◌∙◌, inl, inr, arith, ok, length}
use zero_shim.Bytes.{Bytes, slice}
use zero_shim.Wire.{
  frame_bytes, ack_bytes, lookup_bytes, Nonce, IsNonce, submit_magic, ack_magic, lookup_magic,
  lookup_reply_magic, AckKind, encode_submit, decode_submit, decode_ack, LookupReply, found,
  decode_lookup, encode_lookup_reply, decode_lookup_reply,
}
use zero_shim.Wire.SubmitFrame.{decode_submit-facts, encode_submit_fits}
use zero_shim.Wire.AckFrame.{decode_ack-facts}
use zero_shim.Wire.LookupFrame.{decode_lookup-facts}
use zero_shim.Wire.ReplyFrame.{decode_lookup_reply-facts, decode_lookup_reply-encode_lookup_reply}

pub data FrameKind : Type 0 where
  submit ack lookup lookup_reply : FrameKind

abbrev pub Decodes : FrameKind → Bytes → Type 0
Decodes submit frame = (n : Nonce) × (tx : Bytes) × (decode_submit frame ≡ ok (n, tx))
Decodes ack frame = (n : Nonce) × (kind : AckKind) × (decode_ack frame ≡ ok (n, kind))
Decodes lookup frame = (n : Nonce) × (hash : Bytes) × (decode_lookup frame ≡ ok (n, hash))
Decodes lookup_reply frame =
    (n : Nonce) × (r : LookupReply) × (decode_lookup_reply frame ≡ ok (n, r))

abbrev size_of : FrameKind → ℕ
size_of submit = frame_bytes
size_of ack = ack_bytes
size_of lookup = lookup_bytes
size_of lookup_reply = frame_bytes

abbrev magic_of : FrameKind → Bytes
magic_of submit = submit_magic
magic_of ack = ack_magic
magic_of lookup = lookup_magic
magic_of lookup_reply = lookup_reply_magic

Decodes-header :
    (k : FrameKind) (frame : Bytes)
    → Decodes k frame
    → (length frame ≡ size_of k) × (slice frame 0 4 ≡ magic_of k)
Decodes-header submit frame (n, tx, e) = let f = decode_submit-facts frame n tx e in (f.0, f.1)
Decodes-header ack frame (n, kind, e) = let f = decode_ack-facts frame n kind e in (f.0, f.1)
Decodes-header lookup frame (n, hash, e) = let f = decode_lookup-facts frame n hash e in (f.0, f.1)
Decodes-header lookup_reply frame (n, r, e) =
    let f = decode_lookup_reply-facts frame n r e in (f.0, f.1)

same_magic : (k l : FrameKind) → magic_of k ≡ magic_of l → k ≡ l
same_magic submit submit e = refl
same_magic ack ack e = refl
same_magic lookup lookup e = refl
same_magic lookup_reply lookup_reply e = refl
same_magic _ _ e = ground arith

-- A buffer is a frame of at most one kind: whatever one of the four decoders accepts, the other
-- three refuse.
pub kinds_disjoint : (k l : FrameKind) (frame : Bytes) → Decodes k frame → Decodes l frame → k ≡ l
kinds_disjoint k l frame dk dl =
    same_magic k l (sym (Decodes-header k frame dk).1 ∙ (Decodes-header l frame dl).1)

-- Whatever `encode_submit` admits can be served back: a reply that carries the same transaction at
-- any height below 2 ^ 64 fits its frame and is read back, for nonces of NONCE_BYTES bytes.
pub submit_servable :
    (nonce reply_nonce : Nonce) (tx frame : Bytes) (height : ℕ)
    → IsNonce nonce
    → IsNonce reply_nonce
    → height < 2 ^ 64
    → encode_submit nonce tx ≡ ok frame
    → (reply : Bytes) × (encode_lookup_reply reply_nonce (found height tx) ≡ ok reply)
      × (decode_lookup_reply reply ≡ ok (reply_nonce, found height tx))
submit_servable nonce reply_nonce tx frame height hn hr hh e =
    let fits = encode_submit_fits nonce tx frame hn e in
    elim (decode_lookup_reply-encode_lookup_reply reply_nonce (found height tx) hr hh) [
      | inl (big, _) ↦ absurd (omega (arith, fits.0))
      | inr (reply, e', _, d) ↦ (reply, e', d)
    ]
