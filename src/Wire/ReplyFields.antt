-- ===== src/Wire/ReplyFields.antt =====
-- The fields of a `LookupReplyV1` frame: where they stand, and that the writes of the encoder put
-- them there (zeronym/shim/src/wire.rs).
use zero_shim.Prelude.{
  ℕ, suc, ◌+◌, ◌-◌, ◌^◌, ◌≤◌, ◌<◌, ◌≡◌, refl, sym, ap, ◌∙◌, [], ◌∷◌, ◌++◌, append_assoc, arith,
  length, take, drop, replicate, All, length-append, length-drop, get_or-drop,
}
use zero_shim.Bytes.{Bytes, IsByte, byte_at, slice, write_at, be32, u32_at, be64, u64_at}
use zero_shim.Bytes.Slices.{slice-append, write_at-zeros, split_at}
use zero_shim.Bytes.BigEndian.{
  buffer_lengths, length-be32, u32_at-append, be32-u32_at, length-be64, u64_at-append, be64-u64_at,
}
use zero_shim.Wire.{
  frame_bytes, Nonce, IsNonce, lookup_reply_magic, max_lookup_reply_tx_bytes, zeros, LookupReply,
  found, not_found, error,
}
use zero_shim.Wire.Layouts.{opened, opened-zeros, length-front}

-- Disposition byte, height and transaction of a reply, as they stand in the frame.
abbrev pub disp_of : LookupReply → ℕ
disp_of (found height tx) = 0
disp_of not_found = 1
disp_of error = 2

abbrev pub height_of : LookupReply → ℕ
height_of (found height tx) = height
height_of _ = 0

abbrev pub tx_of : LookupReply → Bytes
tx_of (found height tx) = tx
tx_of _ = []

-- The fields behind the front, with the disposition byte as a list of one.
abbrev pub reply_body : Bytes → ℕ → Bytes → Bytes → Bytes
reply_body d height tx pad = d ++ (be64 height ++ (be32 (length tx) ++ (tx ++ pad)))

-- The byte layout of a `LookupReplyV1` frame.
abbrev pub reply_layout : Nonce → LookupReply → Bytes → Bytes
reply_layout nonce r pad =
    (lookup_reply_magic ++ nonce) ++ reply_body (disp_of r ∷ []) (height_of r) (tx_of r) pad

module _ (magic : Bytes) (nonce : Nonce) (hm : length magic ≡ 4) (hn : IsNonce nonce) (d : Bytes)
    (hd : length d ≡ 1) (height : ℕ) (tx : Bytes) where
  front-d : length ((magic ++ nonce) ++ d) ≡ 21
  front-d = simp buffer_lengths (omega arith)

  front-height : length (((magic ++ nonce) ++ d) ++ be64 height) ≡ 29
  front-height = simp buffer_lengths (omega arith)

  front-len : length ((((magic ++ nonce) ++ d) ++ be64 height) ++ be32 (length tx)) ≡ 33
  front-len = simp buffer_lengths (omega arith)

  -- The frame with its header fields grouped to the left.
  left_nested :
      (pad : Bytes)
      → (magic ++ nonce) ++ reply_body d height tx pad
        ≡ ((((magic ++ nonce) ++ d) ++ be64 height) ++ be32 (length tx)) ++ (tx ++ pad)
  left_nested pad = rw (
    append_assoc (((magic ++ nonce) ++ d) ++ be64 height) (be32 (length tx)) (tx ++ pad),
    append_assoc ((magic ++ nonce) ++ d) (be64 height) (be32 (length tx) ++ (tx ++ pad)),
    append_assoc (magic ++ nonce) d (be64 height ++ (be32 (length tx) ++ (tx ++ pad))),
  )

  pub reply-height :
      (pad : Bytes)
      → height < 2 ^ 64
      → u64_at ((magic ++ nonce) ++ reply_body d height tx pad) 21 ≡ height
  reply-height pad h =
      rw (← append_assoc (magic ++ nonce) d (be64 height ++ (be32 (length tx) ++ (tx ++ pad)))) (
        u64_at-append ((magic ++ nonce) ++ d) (be32 (length tx) ++ (tx ++ pad)) height 21 front-d h)

  pub reply-len :
      (pad : Bytes)
      → length tx < 2 ^ 32
      → u32_at ((magic ++ nonce) ++ reply_body d height tx pad) 29 ≡ length tx
  reply-len pad h =
      rw
        (
          ← append_assoc (magic ++ nonce) d (be64 height ++ (be32 (length tx) ++ (tx ++ pad))),
          ← append_assoc ((magic ++ nonce) ++ d) (be64 height) (be32 (length tx) ++ (tx ++ pad)),
        )
        (u32_at-append (((magic ++ nonce) ++ d) ++ be64 height) (tx ++ pad) (length tx) 29
            front-height
          ∙ omega arith)

  pub reply-tx :
      (pad : Bytes)
      → slice ((magic ++ nonce) ++ reply_body d height tx pad) 33 (33 + length tx) ≡ tx
  reply-tx pad = rw (left_nested pad) (
      slice-append ((((magic ++ nonce) ++ d) ++ be64 height) ++ be32 (length tx)) tx pad 33
        (33 + length tx) front-len refl)

  pub length-reply :
      (pad : Bytes)
      → length ((magic ++ nonce) ++ reply_body d height tx pad) ≡ 33 + (length tx + length pad)
  length-reply pad = rw (left_nested pad) (
      omega (
        arith,
        length-append ((((magic ++ nonce) ++ d) ++ be64 height) ++ be32 (length tx)) (tx ++ pad),
        length-append tx pad,
        front-len,
      ))

  -- The four writes of the `Found` arm.
  pub written :
      (n : ℕ)
      → write_at
          (write_at
            (write_at (write_at (opened n magic nonce) 20 d) 21 (be64 height))
            29
            (be32 (length tx)))
          33
          tx
        ≡ (magic ++ nonce) ++ reply_body d height tx (zeros (n - 33 - length tx))
  written n =
      rw
        (
          opened-zeros magic nonce hm hn n,
          write_at-zeros (magic ++ nonce) d 20 (n - 4 - 16) (length-front magic nonce hm hn),
          write_at-zeros ((magic ++ nonce) ++ d) (be64 height) 21 (n - 4 - 16 - length d) front-d,
          write_at-zeros (((magic ++ nonce) ++ d) ++ be64 height) (be32 (length tx)) 29
              (n - 4 - 16 - length d - length (be64 height)) front-height,
          write_at-zeros ((((magic ++ nonce) ++ d) ++ be64 height) ++ be32 (length tx)) tx 33
              (n - 4 - 16 - length d - length (be64 height) - length (be32 (length tx))) front-len,
          let e : n
                    - 4
                    - 16
                    - length d
                    - length (be64 height)
                    - length (be32 (length tx))
                    - length tx
                  ≡ n - 33 - length tx =
                omega (arith, length-be64 height, length-be32 (length tx)) in
              e,
          append_assoc ((((magic ++ nonce) ++ d) ++ be64 height) ++ be32 (length tx)) tx,
        )
        (sym (left_nested (zeros (n - 33 - length tx))))

-- An empty reply leaves height, length and transaction in the zero run.
pub zeros-fields : (n : ℕ) → 12 ≤ n → zeros n ≡ be64 0 ++ (be32 0 ++ zeros (n - 12))
zeros-fields n h =
    let m = n - 12 in
    let e : n ≡ suc (suc (suc (suc (suc (suc (suc (suc (suc (suc (suc (suc m))))))))))) =
      omega arith in
    ap zeros e ∙ unfold replicate be64 be32 in refl

first_byte : (xs : Bytes) → 1 ≤ length xs → take 1 xs ≡ byte_at xs 0 ∷ []
first_byte [] h = absurd (omega arith)
first_byte (a ∷ xs) h = refl

-- The part of a frame behind the nonce, field by field.
pub body_split :
    (frame : Bytes)
    → All IsByte frame
    → length frame ≡ frame_bytes
    → u32_at frame 29 ≤ max_lookup_reply_tx_bytes
    → drop 20 frame
      ≡ (byte_at frame 20 ∷ [])
        ++ (be64 (u64_at frame 21)
            ++ (be32 (u32_at frame 29)
                ++ (slice frame 33 (33 + u32_at frame 29) ++ drop (33 + u32_at frame 29) frame)))
body_split frame hb hl hd =
    split_at frame 20 1
    ∙ ap (λ (t : Bytes). t ++ drop 21 frame)
        (first_byte (drop 20 frame) (omega (arith, length-drop 20 frame))
          ∙ ap (λ (b : ℕ). b ∷ []) (get_or-drop 20 0 frame 0))
    ∙ ap (λ (t : Bytes). (byte_at frame 20 ∷ []) ++ t)
        (split_at frame 21 4
          ∙ ap (λ (t : Bytes). slice frame 21 25 ++ t) (split_at frame 25 4)
          ∙ sym (append_assoc (slice frame 21 25) (slice frame 25 29) (drop 29 frame))
          ∙ ap (λ (t : Bytes). t ++ drop 29 frame) (sym (be64-u64_at frame 21 hb (omega arith)))
          ∙ ap (λ (t : Bytes). be64 (u64_at frame 21) ++ t)
              (split_at frame 29 4
                ∙ ap (λ (t : Bytes). t ++ drop 33 frame)
                    (sym (be32-u32_at frame 29 hb (omega arith)))
                ∙ ap (λ (t : Bytes). be32 (u32_at frame 29) ++ t)
                    (split_at frame 33 (u32_at frame 29))))
