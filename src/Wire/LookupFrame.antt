-- ===== src/Wire/LookupFrame.antt =====
-- `encode_lookup` and `decode_lookup` of zeronym/shim/src/wire.rs.
use zero_shim.Prelude.{
  ℕ, ◌+◌, ◌-◌, ◌%◌, ◌≤◌, ◌<◌, ◌≡◌, refl, sym, ap, ◌∙◌, ◌↔◌, ◌⊎◌, inl, inr, [], ◌∷◌, ◌++◌, arith, ok,
  err, length, take, drop, length-drop, length-replicate, get_or-drop,
}
use zero_shim.Bytes.{Bytes, byte_at, slice}
use zero_shim.Bytes.Slices.{bytes_eq_iff, length-slice, split_at}
use zero_shim.Bytes.BigEndian.{buffer_lengths}
use zero_shim.Wire.{
  lookup_bytes, Nonce, IsNonce, lookup_magic, max_lookup_hash_bytes, hash_too_large, zeros,
  encode_lookup, decode_lookup,
}
use zero_shim.Wire.Layouts.{
  second_field, front_byte, opened_two, front_magic, front_nonce, front_split,
}
use native.Mathlib.Decide.{dec_le}

-- The byte layout of a `LookupV1` frame.
abbrev pub lookup_layout : Nonce → Bytes → Bytes → Bytes
lookup_layout nonce hash pad = (lookup_magic ++ nonce) ++ ((length hash ∷ []) ++ (hash ++ pad))

abbrev lookup_padding : Bytes → ℕ
lookup_padding hash = max_lookup_hash_bytes - length hash

encode_lookup-layout :
    (nonce : Nonce) (hash : Bytes)
    → IsNonce nonce
    → length hash ≤ max_lookup_hash_bytes
    → encode_lookup nonce hash ≡ ok (lookup_layout nonce hash (zeros (lookup_padding hash)))
unfolding encode_lookup
encode_lookup-layout nonce hash hn h =
    let e : length hash % 256 ≡ length hash = omega arith in
    ground (
      arith,
      e,
      opened_two lookup_magic nonce refl hn lookup_bytes 21 (length hash ∷ []) hash (omega arith),
    )

decode_lookup-layout :
    (nonce : Nonce) (hash pad : Bytes)
    → IsNonce nonce
    → length hash ≤ max_lookup_hash_bytes
    → length (lookup_layout nonce hash pad) ≡ lookup_bytes
    → decode_lookup (lookup_layout nonce hash pad) ≡ ok (nonce, hash)
unfolding decode_lookup
decode_lookup-layout nonce hash pad hn h hl = ground (
  arith,
  hl,
  front_magic lookup_magic nonce refl hn ((length hash ∷ []) ++ (hash ++ pad)),
  front_nonce lookup_magic nonce refl hn ((length hash ∷ []) ++ (hash ++ pad)),
  front_byte lookup_magic nonce refl hn 0 20 ((length hash ∷ []) ++ (hash ++ pad)) refl,
  second_field lookup_magic nonce refl hn (length hash ∷ []) hash pad 21 (21 + length hash) refl
      refl,
)

pub decode_lookup-facts :
    (frame : Bytes) (nonce : Nonce) (hash : Bytes)
    → decode_lookup frame ≡ ok (nonce, hash)
    → (length frame ≡ lookup_bytes)
      × (slice frame 0 4 ≡ lookup_magic)
      × (slice frame 4 20 ≡ nonce)
      × (byte_at frame 20 ≤ max_lookup_hash_bytes)
      × (slice frame 21 (21 + byte_at frame 20) ≡ hash)
unfolding decode_lookup
decode_lookup-facts frame nonce hash h = ground (arith, bytes_eq_iff (slice frame 0 4) lookup_magic)

first_byte : (xs : Bytes) → 1 ≤ length xs → take 1 xs ≡ byte_at xs 0 ∷ []
first_byte [] h = absurd (omega arith)
first_byte (a ∷ xs) h = refl

decode_lookup_sound :
    (frame : Bytes) (nonce : Nonce) (hash : Bytes)
    → decode_lookup frame ≡ ok (nonce, hash)
    → IsNonce nonce
      × (length hash ≤ max_lookup_hash_bytes)
      × (length frame ≡ lookup_bytes)
      × ((pad : Bytes) × (frame ≡ lookup_layout nonce hash pad))
decode_lookup_sound frame nonce hash h =
    let (hl, hm, hn, hd, ht) = decode_lookup-facts frame nonce hash h in
    let len : length hash ≡ byte_at frame 20 =
      ap length (sym ht)
      ∙ length-slice frame 21 (21 + byte_at frame 20) (omega arith) (omega arith)
      ∙ omega arith in
    let one : slice frame 20 21 ≡ length hash ∷ [] =
      first_byte (drop 20 frame) (omega (arith, length-drop 20 frame))
      ∙ ap (λ (b : ℕ). b ∷ []) (get_or-drop 20 0 frame 0 ∙ sym len) in
    let tail : drop 20 frame ≡ (length hash ∷ []) ++ (hash ++ drop (21 + byte_at frame 20) frame) =
      split_at frame 20 1
      ∙ ap (λ (t : Bytes). t ++ drop 21 frame) one
      ∙ ap (λ (t : Bytes). (length hash ∷ []) ++ t)
          (split_at frame 21 (byte_at frame 20)
            ∙ ap (λ (t : Bytes). t ++ drop (21 + byte_at frame 20) frame) ht) in
    (
      ap length (sym hn) ∙ length-slice frame 4 20 (omega arith) (omega arith),
      omega arith,
      hl,
      (
        _,
        front_split frame (omega arith)
            ∙ ap (λ (t : Bytes). (t ++ slice frame 4 20) ++ drop 20 frame) hm
            ∙ ap (λ (t : Bytes). (lookup_magic ++ t) ++ drop 20 frame) hn
            ∙ ap (λ (t : Bytes). (lookup_magic ++ nonce) ++ t) tail,
      ),
    )

-- `decode_lookup` returns a nonce and a hash exactly when the buffer is a LOOKUP_BYTES frame of
-- the documented layout for them, whatever its padding holds.
pub decode_lookup_exact :
    (frame : Bytes) (nonce : Nonce) (hash : Bytes)
    → (decode_lookup frame ≡ ok (nonce, hash)) ↔ (
        IsNonce nonce
        × (length hash ≤ max_lookup_hash_bytes)
        × (length frame ≡ lookup_bytes)
        × ((pad : Bytes) × (frame ≡ lookup_layout nonce hash pad)))
decode_lookup_exact frame nonce hash = (
  decode_lookup_sound frame nonce hash,
  (λ c. rw c.3.1 (decode_lookup-layout nonce hash c.3.0 c.0 c.1 (ap length (sym c.3.1) ∙ c.2))),
)

length-lookup_layout :
    (nonce : Nonce) (hash : Bytes)
    → IsNonce nonce
    → length hash ≤ max_lookup_hash_bytes
    → length (lookup_layout nonce hash (zeros (lookup_padding hash))) ≡ lookup_bytes
length-lookup_layout nonce hash hn h =
    simp buffer_lengths (omega (arith, length-replicate {A = ℕ} (lookup_padding hash) 0))

-- `encode_lookup` either refuses a hash over the budget, naming its length, or builds a frame of
-- exactly LOOKUP_BYTES bytes that `decode_lookup` reads back.
pub decode_lookup-encode_lookup :
    (nonce : Nonce) (hash : Bytes)
    → IsNonce nonce
    → ((max_lookup_hash_bytes < length hash)
        × (encode_lookup nonce hash ≡ err (hash_too_large (length hash))))
      ⊎ ((frame : Bytes) × (encode_lookup nonce hash ≡ ok frame)
          × (length frame ≡ lookup_bytes)
          × (decode_lookup frame ≡ ok (nonce, hash)))
decode_lookup-encode_lookup nonce hash hn = elim (dec_le (length hash) max_lookup_hash_bytes) [
  | yes h ↦ inr (
    _,
    encode_lookup-layout nonce hash hn h,
    length-lookup_layout nonce hash hn h,
    decode_lookup-layout nonce hash _ hn h (length-lookup_layout nonce hash hn h),
  )
  | no h ↦ inl (omega arith, unfold encode_lookup in ground arith)
]
