-- ===== src/Wire/SubmitFrame.antt =====
-- `encode_submit` and `decode_submit` of zeronym/shim/src/wire.rs.
use zero_shim.Prelude.{Result}
use zero_shim.Wire.{WireError}
use zero_shim.Prelude.{
  ℕ, ◌+◌, ◌-◌, ◌≤◌, ◌<◌, ◌≡◌, refl, sym, ap, ◌∙◌, ◌↔◌, ◌⊎◌, inl, inr, ◌++◌, arith, ok, err, length,
  drop, All, length-replicate,
}
use zero_shim.Bytes.{Bytes, IsByte, slice, be32, u32_at}
use zero_shim.Bytes.Slices.{bytes_eq_iff, length-slice, split_at}
use zero_shim.Bytes.BigEndian.{buffer_lengths, length-be32, be32-u32_at}
use zero_shim.Wire.{
  frame_bytes, Nonce, IsNonce, submit_magic, submit_header_bytes, max_nym_tx_bytes, tx_too_large,
  zeros, encode_submit, decode_submit,
}
use native.Mathlib.Decide.{dec_le}
use zero_shim.Wire.Layouts.{
  second_field, front_u32, opened_two, front_magic, front_nonce, front_split,
}

-- The byte layout of a `SubmitV1` frame, with whatever stands in the padding.
abbrev pub submit_layout : Nonce → Bytes → Bytes → Bytes
submit_layout nonce tx pad = (submit_magic ++ nonce) ++ (be32 (length tx) ++ (tx ++ pad))

abbrev pub submit_padding : Bytes → ℕ
submit_padding tx = frame_bytes - submit_header_bytes - length tx

pub encode_submit-layout :
    (nonce : Nonce) (tx : Bytes)
    → IsNonce nonce
    → length tx ≤ max_nym_tx_bytes
    → encode_submit nonce tx ≡ ok (submit_layout nonce tx (zeros (submit_padding tx)))
unfolding encode_submit
encode_submit-layout nonce tx hn h = ground (
  arith,
  opened_two submit_magic nonce refl hn frame_bytes 24 (be32 (length tx)) tx
      (omega (arith, length-be32 (length tx))),
  length-be32 (length tx),
)

-- A frame of that layout decodes, and the padding is not read.
decode_submit-layout :
    (nonce : Nonce) (tx pad : Bytes)
    → IsNonce nonce
    → length tx ≤ max_nym_tx_bytes
    → length (submit_layout nonce tx pad) ≡ frame_bytes
    → decode_submit (submit_layout nonce tx pad) ≡ ok (nonce, tx)
unfolding decode_submit
decode_submit-layout nonce tx pad hn h hl = ground (
  arith,
  hl,
  front_magic submit_magic nonce refl hn (be32 (length tx) ++ (tx ++ pad)),
  front_nonce submit_magic nonce refl hn (be32 (length tx) ++ (tx ++ pad)),
  front_u32 submit_magic nonce refl hn (length tx) (tx ++ pad) (omega arith),
  second_field submit_magic nonce refl hn (be32 (length tx)) tx pad 24 (24 + length tx)
      (omega (arith, length-be32 (length tx))) refl,
)

pub decode_submit-facts :
    (frame : Bytes) (nonce : Nonce) (tx : Bytes)
    → decode_submit frame ≡ ok (nonce, tx)
    → (length frame ≡ frame_bytes)
      × (slice frame 0 4 ≡ submit_magic)
      × (slice frame 4 20 ≡ nonce)
      × (u32_at frame 20 ≤ max_nym_tx_bytes)
      × (slice frame 24 (24 + u32_at frame 20) ≡ tx)
unfolding decode_submit
decode_submit-facts frame nonce tx h = ground (arith, bytes_eq_iff (slice frame 0 4) submit_magic)

decode_submit_sound :
    (frame : Bytes) (nonce : Nonce) (tx : Bytes)
    → All IsByte frame
    → decode_submit frame ≡ ok (nonce, tx)
    → IsNonce nonce
      × (length tx ≤ max_nym_tx_bytes)
      × (length frame ≡ frame_bytes)
      × (frame ≡ submit_layout nonce tx (drop (24 + length tx) frame))
decode_submit_sound frame nonce tx hb h =
    let (hl, hm, hn, hd, ht) = decode_submit-facts frame nonce tx h in
    let len : length tx ≡ u32_at frame 20 =
      ap length (sym ht)
      ∙ length-slice frame 24 (24 + u32_at frame 20) (omega arith) (omega arith)
      ∙ omega arith in
    let tail : drop 20 frame ≡ be32 (length tx) ++ (tx ++ drop (24 + length tx) frame) =
      split_at frame 20 4
      ∙ rw (len, be32-u32_at frame 20 hb (omega arith))
          (ap (λ (t : Bytes). slice frame 20 24 ++ t)
            (split_at frame 24 (u32_at frame 20)
              ∙ ap (λ (t : Bytes). t ++ drop (24 + u32_at frame 20) frame) ht)) in
    (
      ap length (sym hn) ∙ length-slice frame 4 20 (omega arith) (omega arith),
      omega arith,
      hl,
      front_split frame (omega arith)
          ∙ ap (λ (t : Bytes). (t ++ slice frame 4 20) ++ drop 20 frame) hm
          ∙ ap (λ (t : Bytes). (submit_magic ++ t) ++ drop 20 frame) hn
          ∙ ap (λ (t : Bytes). (submit_magic ++ nonce) ++ t) tail,
    )

-- `frame` is a full frame that carries `tx` under `nonce`, with some padding.
abbrev pub Carries : Bytes → Nonce → Bytes → Type 0
Carries frame nonce tx =
    IsNonce nonce
    × (length tx ≤ max_nym_tx_bytes)
    × (length frame ≡ frame_bytes)
    × ((pad : Bytes) × (frame ≡ submit_layout nonce tx pad))

-- On a buffer of bytes, `decode_submit` returns a nonce and a transaction exactly when the buffer
-- is a full frame of the documented layout for them, whatever its padding holds.
pub decode_submit_exact :
    (frame : Bytes) (nonce : Nonce) (tx : Bytes)
    → All IsByte frame
    → (decode_submit frame ≡ ok (nonce, tx)) ↔ Carries frame nonce tx
decode_submit_exact frame nonce tx hb = (
  (λ h. let (hn, ht, hl, e) = decode_submit_sound frame nonce tx hb h in (hn, ht, hl, (_, e))),
  (λ c. rw c.3.1 (decode_submit-layout nonce tx c.3.0 c.0 c.1 (ap length (sym c.3.1) ∙ c.2))),
)

length-submit_layout :
    (nonce : Nonce) (tx : Bytes)
    → IsNonce nonce
    → length tx ≤ max_nym_tx_bytes
    → length (submit_layout nonce tx (zeros (submit_padding tx))) ≡ frame_bytes
length-submit_layout nonce tx hn h =
    simp buffer_lengths (omega (arith, length-replicate {A = ℕ} (submit_padding tx) 0))

-- With a nonce of NONCE_BYTES bytes, `encode_submit` either refuses a transaction over the budget,
-- naming its length and the budget, or builds a frame of exactly FRAME_BYTES bytes that
-- `decode_submit` reads back.
pub decode_submit-encode_submit :
    (nonce : Nonce) (tx : Bytes)
    → IsNonce nonce
    → ((max_nym_tx_bytes < length tx)
        × (encode_submit nonce tx ≡ err (tx_too_large (length tx) max_nym_tx_bytes)))
      ⊎ ((frame : Bytes) × (encode_submit nonce tx ≡ ok frame)
          × (length frame ≡ frame_bytes)
          × (decode_submit frame ≡ ok (nonce, tx)))
decode_submit-encode_submit nonce tx hn = elim (dec_le (length tx) max_nym_tx_bytes) [
  | yes h ↦ inr (
    _,
    encode_submit-layout nonce tx hn h,
    length-submit_layout nonce tx hn h,
    decode_submit-layout nonce tx _ hn h (length-submit_layout nonce tx hn h),
  )
  | no h ↦ inl (omega arith, unfold encode_submit in ground arith)
]

-- A frame that `encode_submit` built for a transaction in the budget.
pub encode_submit_fits :
    (nonce : Nonce) (tx frame : Bytes)
    → IsNonce nonce
    → encode_submit nonce tx ≡ ok frame
    → (length tx ≤ max_nym_tx_bytes)
      × (length frame ≡ frame_bytes)
      × (decode_submit frame ≡ ok (nonce, tx))
encode_submit_fits nonce tx frame hn h = elim (decode_submit-encode_submit nonce tx hn) [
  | inl (_, e) ↦ cc
  | inr (f, e, hl, hd) ↦ (unfold encode_submit in ground arith, ground (arith), ground (arith))
]

-- The size alone decides whether a transaction is framed.
pub encode_submit-over :
    (nonce : Nonce) (tx : Bytes)
    → max_nym_tx_bytes < length tx
    → encode_submit nonce tx ≡ err (tx_too_large (length tx) max_nym_tx_bytes)
encode_submit-over nonce tx h = unfold encode_submit in ground arith

pub encode_submit-in :
    (nonce : Nonce) (tx : Bytes)
    → length tx ≤ max_nym_tx_bytes
    → (frame : Bytes) × (encode_submit nonce tx ≡ ok frame)
encode_submit-in nonce tx h = by (encode_submit nonce tx) refl
  where
    by :
        (r : Result WireError Bytes)
        → encode_submit nonce tx ≡ r
        → (frame : Bytes) × (encode_submit nonce tx ≡ ok frame)
    by (ok frame) e = (frame, e)
    by (err x) e = absurd (unfold encode_submit in ground arith)
