-- ===== src/Wire/ReplyFrame.antt =====
-- `encode_lookup_reply` and `decode_lookup_reply` of zeronym/shim/src/wire.rs.
use zero_shim.Prelude.{
  ℕ, ◌+◌, ◌-◌, ◌^◌, ◌≤◌, ◌<◌, ◌≡◌, refl, sym, ap, ◌∙◌, ◌↔◌, ◌⊎◌, inl, inr, [], ◌∷◌, ◌++◌,
  append_assoc, arith, ok, err, length, drop, All, length-replicate,
}
use zero_shim.Bytes.{Bytes, IsByte, byte_at, slice, write_at, u32_at, u64_at}
use zero_shim.Bytes.Slices.{bytes_eq_iff, length-slice, write_at-zeros}
use zero_shim.Bytes.BigEndian.{u64_at-lt}
use zero_shim.Wire.{
  frame_bytes, Nonce, IsNonce, lookup_reply_magic, max_lookup_reply_tx_bytes, tx_too_large, zeros,
  LookupReply, found, not_found, error, encode_lookup_reply, reply_of, decode_lookup_reply,
}
use zero_shim.Wire.Layouts.{
  front_byte, opened, opened-zeros, length-front, front_magic, front_nonce, front_split,
}
use native.Mathlib.Decide.{dec_le}
use zero_shim.Wire.ReplyFields.{
  disp_of, height_of, tx_of, reply_body, reply_layout, reply-height, reply-len, reply-tx,
  length-reply, written, zeros-fields, body_split,
}

-- A reply that fits: its height is a `u64`, its transaction is within the budget.
abbrev pub Fits : LookupReply → Type 0
Fits r = (height_of r < 2 ^ 64) × (length (tx_of r) ≤ max_lookup_reply_tx_bytes)

abbrev reply_padding : LookupReply → ℕ
reply_padding r = max_lookup_reply_tx_bytes - length (tx_of r)

module _ (nonce : Nonce) (hn : IsNonce nonce) where
  empty_reply :
      (d : ℕ)
      → write_at (opened frame_bytes lookup_reply_magic nonce) 20 (d ∷ [])
        ≡ (lookup_reply_magic ++ nonce)
          ++ reply_body (d ∷ []) 0 [] (zeros max_lookup_reply_tx_bytes)
  empty_reply d =
      ap (λ (t : Bytes). write_at t 20 (d ∷ []))
        (opened-zeros lookup_reply_magic nonce refl hn frame_bytes)
      ∙ write_at-zeros (lookup_reply_magic ++ nonce) (d ∷ []) 20 (frame_bytes - 4 - 16)
          (length-front lookup_reply_magic nonce refl hn)
      ∙ append_assoc (lookup_reply_magic ++ nonce) (d ∷ []) (zeros (frame_bytes - 4 - 16 - 1))
      ∙ ap (λ (t : Bytes). (lookup_reply_magic ++ nonce) ++ ((d ∷ []) ++ t))
          (zeros-fields (frame_bytes - 4 - 16 - 1) (omega arith))

  encode_lookup_reply-layout :
      (r : LookupReply)
      → length (tx_of r) ≤ max_lookup_reply_tx_bytes
      → encode_lookup_reply nonce r ≡ ok (reply_layout nonce r (zeros (reply_padding r)))
  unfolding encode_lookup_reply
  encode_lookup_reply-layout (found height tx) h =
      ground (arith, written lookup_reply_magic nonce refl hn (0 ∷ []) refl height tx frame_bytes)
  encode_lookup_reply-layout not_found h = ap ok (empty_reply 1)
  encode_lookup_reply-layout error h = ap ok (empty_reply 2)

  -- What the decoder reads out of such a frame.
  read_fields :
      (r : LookupReply) (pad : Bytes)
      → Fits r
      → reply_of (reply_layout nonce r pad) (disp_of r) (height_of r) (length (tx_of r)) ≡ ok r
  unfolding reply_of
  read_fields (found height tx) pad h =
      ground (arith, reply-tx lookup_reply_magic nonce refl hn (0 ∷ []) refl height tx pad)
  read_fields not_found pad h = refl
  read_fields error pad h = refl

  decode_lookup_reply-layout :
      (r : LookupReply) (pad : Bytes)
      → Fits r
      → length (reply_layout nonce r pad) ≡ frame_bytes
      → decode_lookup_reply (reply_layout nonce r pad) ≡ ok (nonce, r)
  unfolding decode_lookup_reply
  decode_lookup_reply-layout r pad h hl =
      let body : Bytes = reply_body (disp_of r ∷ []) (height_of r) (tx_of r) pad in
      let d : Bytes = disp_of r ∷ [] in
      ground (
        arith,
        hl,
        front_magic lookup_reply_magic nonce refl hn body,
        front_nonce lookup_reply_magic nonce refl hn body,
        front_byte lookup_reply_magic nonce refl hn 0 20 body (omega arith),
        reply-height lookup_reply_magic nonce refl hn d refl (height_of r) (tx_of r) pad h.0,
        reply-len lookup_reply_magic nonce refl hn d refl (height_of r) (tx_of r) pad (omega arith),
        read_fields r pad h,
      )

empty_slice : (frame : Bytes) (n : ℕ) → n ≡ 0 → slice frame 33 (33 + n) ≡ []
empty_slice frame n e = rw (e)

reply_of-facts :
    (frame : Bytes) (disp height declared : ℕ) (r : LookupReply)
    → reply_of frame disp height declared ≡ ok r
    → (disp ≡ disp_of r)
      × (height ≡ height_of r)
      × (slice frame 33 (33 + declared) ≡ tx_of r)
      × (declared ≤ max_lookup_reply_tx_bytes)
unfolding reply_of
reply_of-facts frame disp height declared (found h tx) e = ground arith
reply_of-facts frame disp height declared not_found e = ground (arith, empty_slice frame declared)
reply_of-facts frame disp height declared error e = ground (arith, empty_slice frame declared)

pub decode_lookup_reply-facts :
    (frame : Bytes) (nonce : Nonce) (r : LookupReply)
    → decode_lookup_reply frame ≡ ok (nonce, r)
    → (length frame ≡ frame_bytes)
      × (slice frame 0 4 ≡ lookup_reply_magic)
      × (slice frame 4 20 ≡ nonce)
      × (reply_of frame (byte_at frame 20) (u64_at frame 21) (u32_at frame 29) ≡ ok r)
decode_lookup_reply-facts frame nonce r h =
    unfold decode_lookup_reply in ground (arith, bytes_eq_iff (slice frame 0 4) lookup_reply_magic)

decode_lookup_reply_sound :
    (frame : Bytes) (nonce : Nonce) (r : LookupReply)
    → All IsByte frame
    → decode_lookup_reply frame ≡ ok (nonce, r)
    → IsNonce nonce
      × Fits r
      × (length frame ≡ frame_bytes)
      × ((pad : Bytes) × (frame ≡ reply_layout nonce r pad))
decode_lookup_reply_sound frame nonce r hb h =
    let (hl, hm, hn, hr) = decode_lookup_reply-facts frame nonce r h in
    let (ed, eh, et, hd) =
      reply_of-facts frame (byte_at frame 20) (u64_at frame 21) (u32_at frame 29) r hr in
    let len : length (tx_of r) ≡ u32_at frame 29 =
      ap length (sym et)
      ∙ length-slice frame 33 (33 + u32_at frame 29) (omega arith) (omega arith)
      ∙ omega arith in
    let pad : Bytes = drop (33 + u32_at frame 29) frame in
    let fields : drop 20 frame ≡ reply_body (disp_of r ∷ []) (height_of r) (tx_of r) pad =
      body_split frame hb hl hd ∙ cc (ed, eh, et, len) in
    (
      ap length (sym hn) ∙ length-slice frame 4 20 (omega arith) (omega arith),
      (omega (arith, u64_at-lt frame 21 hb), omega arith),
      hl,
      (
        pad,
        front_split frame (omega arith)
            ∙ ap (λ (t : Bytes). (t ++ slice frame 4 20) ++ drop 20 frame) hm
            ∙ ap (λ (t : Bytes). (lookup_reply_magic ++ t) ++ drop 20 frame) hn
            ∙ ap (λ (t : Bytes). (lookup_reply_magic ++ nonce) ++ t) fields,
      ),
    )

-- On a buffer of bytes, `decode_lookup_reply` returns a nonce and a reply exactly when the buffer
-- is a full frame of the documented layout for them: a `not_found` or `error` frame has height 0
-- and length 0, a found transaction fits the frame, and the padding is free.
pub decode_lookup_reply_exact :
    (frame : Bytes) (nonce : Nonce) (r : LookupReply)
    → All IsByte frame
    → (decode_lookup_reply frame ≡ ok (nonce, r)) ↔ (
        IsNonce nonce
        × Fits r
        × (length frame ≡ frame_bytes)
        × ((pad : Bytes) × (frame ≡ reply_layout nonce r pad)))
decode_lookup_reply_exact frame nonce r hb = (
  decode_lookup_reply_sound frame nonce r hb,
  (λ c. rw c.3.1 (decode_lookup_reply-layout nonce c.0 r c.3.0 c.1 (ap length (sym c.3.1) ∙ c.2))),
)

length-reply_layout :
    (nonce : Nonce) (r : LookupReply)
    → IsNonce nonce
    → length (tx_of r) ≤ max_lookup_reply_tx_bytes
    → length (reply_layout nonce r (zeros (reply_padding r))) ≡ frame_bytes
length-reply_layout nonce r hn h = omega (
  arith,
  length-reply lookup_reply_magic nonce refl hn (disp_of r ∷ []) refl (height_of r) (tx_of r)
      (zeros (reply_padding r)),
  length-replicate {A = ℕ} (reply_padding r) 0,
)

-- With a nonce of NONCE_BYTES bytes and a height below 2 ^ 64, `encode_lookup_reply` refuses
-- exactly a found transaction over the budget. Every other reply, found or not, is a frame of
-- exactly FRAME_BYTES bytes that `decode_lookup_reply` reads back.
pub decode_lookup_reply-encode_lookup_reply :
    (nonce : Nonce) (r : LookupReply)
    → IsNonce nonce
    → height_of r < 2 ^ 64
    → ((max_lookup_reply_tx_bytes < length (tx_of r))
        × (encode_lookup_reply nonce r
            ≡ err (tx_too_large (length (tx_of r)) max_lookup_reply_tx_bytes)))
      ⊎ ((frame : Bytes) × (encode_lookup_reply nonce r ≡ ok frame)
          × (length frame ≡ frame_bytes)
          × (decode_lookup_reply frame ≡ ok (nonce, r)))
decode_lookup_reply-encode_lookup_reply nonce r hn hh =
    elim (dec_le (length (tx_of r)) max_lookup_reply_tx_bytes) [
      | yes h ↦ inr (
        _,
        encode_lookup_reply-layout nonce hn r h,
        length-reply_layout nonce r hn h,
        decode_lookup_reply-layout nonce hn r _ (hh, h) (length-reply_layout nonce r hn h),
      )
      | no h ↦ inl (omega arith, refused_reply r (omega arith))
    ]
  where
    refused_reply :
        (q : LookupReply)
        → max_lookup_reply_tx_bytes < length (tx_of q)
        → encode_lookup_reply nonce q
          ≡ err (tx_too_large (length (tx_of q)) max_lookup_reply_tx_bytes)
    refused_reply (found height tx) h = unfold encode_lookup_reply in ground arith
    refused_reply not_found h = absurd (omega arith)
    refused_reply error h = absurd (omega arith)
