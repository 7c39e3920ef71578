-- ===== src/Wire/AckFrame.antt =====
-- `encode_ack`, `decode_ack` and the refusal codes of zeronym/shim/src/wire.rs.
use zero_shim.Prelude.{
  ℕ, ◌≤◌, ◌≡◌, refl, sym, ap, ◌∙◌, ◌↔◌, some, [], ◌∷◌, ◌++◌, arith, ok, length, drop, length-drop,
  length-replicate, get_or-drop, drop-drop,
}
use zero_shim.Bytes.{Bytes, byte_at, slice}
use zero_shim.Bytes.Slices.{bytes_eq_iff, length-slice}
use zero_shim.Wire.{
  ack_bytes, Nonce, IsNonce, ack_magic, AckRefusal, expiry_too_tight, too_large, queue_full,
  tip_stale, bad_frame, AckKind, accepted, refused, code, from_code, zeros, ack_fields, encode_ack,
  ack_kind, decode_ack,
}
use zero_shim.Wire.Layouts.{
  front_byte, opened_two, front_magic, front_nonce, length-frame, front_split,
}

from_code-code : (r : AckRefusal) → from_code (code r) ≡ some r
unfolding from_code code
from_code-code expiry_too_tight = refl
from_code-code too_large = refl
from_code-code queue_full = refl
from_code-code tip_stale = refl
from_code-code bad_frame = refl

from_code_exact : (c : ℕ) (r : AckRefusal) → from_code c ≡ some r → c ≡ code r
unfolding from_code code
from_code_exact c r h = ground arith

-- The two status bytes are read back to the kind, and no other pair of bytes gives it.
ack_kind_exact :
    (disp refusal : ℕ) (kind : AckKind)
    → (ack_kind disp refusal ≡ ok kind)
      ↔ ((disp ≡ (ack_fields kind).0) × (refusal ≡ (ack_fields kind).1))
ack_kind_exact disp refusal kind = (there kind, back kind)
  where
    there :
        (k : AckKind)
        → ack_kind disp refusal ≡ ok k
        → (disp ≡ (ack_fields k).0) × (refusal ≡ (ack_fields k).1)
    there accepted h = unfold ack_kind in ground arith
    there (refused r) h = unfold ack_kind in ground (arith, from_code_exact refusal r)

    back :
        (k : AckKind)
        → (disp ≡ (ack_fields k).0) × (refusal ≡ (ack_fields k).1)
        → ack_kind disp refusal ≡ ok k
    back accepted h = unfold ack_kind in ground arith
    back (refused r) h = unfold ack_kind in ground (arith, from_code-code r)

-- The byte layout of an `AckV1` frame.
abbrev pub ack_layout : Nonce → AckKind → Bytes → Bytes
ack_layout nonce kind pad =
    (ack_magic ++ nonce) ++ ((ack_fields kind).0 ∷ (ack_fields kind).1 ∷ pad)

encode_ack-layout :
    (nonce : Nonce) (kind : AckKind)
    → IsNonce nonce
    → encode_ack nonce kind ≡ ack_layout nonce kind (zeros 42)
encode_ack-layout nonce kind hn =
    unfold encode_ack in
    opened_two ack_magic nonce refl hn ack_bytes 21 ((ack_fields kind).0 ∷ [])
      ((ack_fields kind).1 ∷ []) (omega arith)

decode_ack-layout :
    (nonce : Nonce) (kind : AckKind) (pad : Bytes)
    → IsNonce nonce
    → length pad ≡ 42
    → decode_ack (ack_layout nonce kind pad) ≡ ok (nonce, kind)
unfolding decode_ack
decode_ack-layout nonce kind pad hn hp =
    let body : Bytes = (ack_fields kind).0 ∷ (ack_fields kind).1 ∷ pad in
    ground (
      arith,
      length-frame ack_magic nonce refl hn body,
      front_magic ack_magic nonce refl hn body,
      front_nonce ack_magic nonce refl hn body,
      front_byte ack_magic nonce refl hn 0 20 body (omega arith),
      front_byte ack_magic nonce refl hn 1 21 body (omega arith),
      (ack_kind_exact (ack_fields kind).0 (ack_fields kind).1 kind).1 (refl, refl),
    )

drop_two :
    (frame : Bytes)
    → 22 ≤ length frame
    → drop 20 frame ≡ byte_at frame 20 ∷ byte_at frame 21 ∷ drop 22 frame
drop_two frame h =
    two (drop 20 frame) (omega (arith, length-drop 20 frame))
    ∙ rw (get_or-drop 20 0 frame 0, get_or-drop 20 1 frame 0, drop-drop 2 20 frame)
  where
    two : (xs : Bytes) → 2 ≤ length xs → xs ≡ byte_at xs 0 ∷ byte_at xs 1 ∷ drop 2 xs
    two [] k = absurd (omega arith)
    two (a ∷ []) k = absurd (omega arith)
    two (a ∷ b ∷ xs) k = refl

pub decode_ack-facts :
    (frame : Bytes) (nonce : Nonce) (kind : AckKind)
    → decode_ack frame ≡ ok (nonce, kind)
    → (length frame ≡ ack_bytes)
      × (slice frame 0 4 ≡ ack_magic)
      × (slice frame 4 20 ≡ nonce)
      × (ack_kind (byte_at frame 20) (byte_at frame 21) ≡ ok kind)
decode_ack-facts frame nonce kind h =
    unfold decode_ack in ground (arith, bytes_eq_iff (slice frame 0 4) ack_magic)

-- `decode_ack` returns a nonce and a verdict exactly on the 64-byte frames of the documented
-- layout for them: the refusal byte is 0 for an acceptance and one of the five codes for a
-- refusal, and the padding is free.
pub decode_ack_exact :
    (frame : Bytes) (nonce : Nonce) (kind : AckKind)
    → (decode_ack frame ≡ ok (nonce, kind)) ↔ (
        IsNonce nonce
        × (length frame ≡ ack_bytes)
        × ((pad : Bytes) × (frame ≡ ack_layout nonce kind pad)))
decode_ack_exact frame nonce kind = (there, back)
  where
    there :
        decode_ack frame ≡ ok (nonce, kind)
        → IsNonce nonce
          × (length frame ≡ ack_bytes)
          × ((pad : Bytes) × (frame ≡ ack_layout nonce kind pad))
    there h =
        let (hl, hm, hn, hk) = decode_ack-facts frame nonce kind h in
        let f = (ack_kind_exact (byte_at frame 20) (byte_at frame 21) kind).0 hk in
        (
          ap length (sym hn) ∙ length-slice frame 4 20 (omega arith) (omega arith),
          hl,
          (
            drop 22 frame,
            front_split frame (omega arith)
                ∙ ap (λ (t : Bytes). (t ++ slice frame 4 20) ++ drop 20 frame) hm
                ∙ ap (λ (t : Bytes). (ack_magic ++ t) ++ drop 20 frame) hn
                ∙ ap (λ (t : Bytes). (ack_magic ++ nonce) ++ t) (drop_two frame (omega arith))
                ∙ ap (λ (t : ℕ). (ack_magic ++ nonce) ++ (t ∷ byte_at frame 21 ∷ drop 22 frame)) f.0
                ∙ ap (λ (t : ℕ). (ack_magic ++ nonce) ++ ((ack_fields kind).0 ∷ t ∷ drop 22 frame))
                    f.1,
          ),
        )

    back :
        IsNonce nonce
          × (length frame ≡ ack_bytes)
          × ((pad : Bytes) × (frame ≡ ack_layout nonce kind pad))
        → decode_ack frame ≡ ok (nonce, kind)
    back (hn, hl, (pad, e)) = rw e (
        decode_ack-layout nonce kind pad hn (
          omega (
            arith,
            ap length e,
            length-frame ack_magic nonce refl hn ((ack_fields kind).0 ∷ (ack_fields kind).1 ∷ pad),
          )))

-- With a nonce of NONCE_BYTES bytes, every verdict is carried by a frame of exactly ACK_BYTES bytes
-- and read back unchanged.
pub decode_ack-encode_ack :
    (nonce : Nonce) (kind : AckKind)
    → IsNonce nonce
    → (length (encode_ack nonce kind) ≡ ack_bytes)
      × (decode_ack (encode_ack nonce kind) ≡ ok (nonce, kind))
decode_ack-encode_ack nonce kind hn = rw (encode_ack-layout nonce kind hn) (
  omega (
    arith,
    length-frame ack_magic nonce refl hn ((ack_fields kind).0 ∷ (ack_fields kind).1 ∷ zeros 42),
    length-replicate {A = ℕ} 42 0,
  ),
  decode_ack-layout nonce kind (zeros 42) hn (length-replicate {A = ℕ} 42 0),
)
