-- ===== src/Intercept/Unwrap.antt =====
-- What `inspect` and `decode_tx_filter` of zeronym/shim/src/intercept.rs accept.
use zero_shim.Prelude.{
  ℕ, ◌+◌, ◌-◌, ◌^◌, ◌≤◌, ◌<◌, ◌≡◌, refl, sym, ap, ◌∙◌, ◌↔◌, ◌⊎◌, inl, inr, Option, none, some, [],
  ◌∷◌, ◌++◌, append-nil, arith, ok, Result-cases, length, take, drop, All, length-append,
  length-drop, take-length, drop-append_add,
}
use zero_shim.Bytes.{Bytes, IsByte, byte_at, slice, be32, u32_at}
use zero_shim.Bytes.Slices.{bytes_eq_iff, split_at, length-slice, slice-append}
use zero_shim.Bytes.BigEndian.{length-be32, u32_at-append, be32-u32_at, u32_at-lt}
use zero_shim.Text.{text}
use zero_shim.External.{Zebra, Proto}
use zero_shim.Classify.{Evidence, classify_with_evidence}
use zero_shim.Http.{Headers, get, grpc_frame}
use zero_shim.Intercept.{
  Reason, Detail, Inspection, classified, failsafe, other_encoding, inspect_message, inspect_frame,
  inspect,
}

-- The request declares no message encoding, or the identity.
abbrev pub IsIdentityCoded : Headers → Type 0
IsIdentityCoded headers =
    (get headers (text "grpc-encoding") ≡ none)
    ⊎ (get headers (text "grpc-encoding") ≡ some (text "identity"))

pub other_encoding-none :
    (headers : Headers) → (other_encoding headers ≡ none) ↔ IsIdentityCoded headers
other_encoding-none headers = (there (get headers (text "grpc-encoding")) refl, back)
  where
    there :
        (o : Option Bytes)
        → get headers (text "grpc-encoding") ≡ o
        → other_encoding headers ≡ none
        → IsIdentityCoded headers
    there none e h = inl e
    there (some v) e h = inr (ground (arith, bytes_eq_iff v (text "identity")))

    back : IsIdentityCoded headers → other_encoding headers ≡ none
    back h = ground arith

-- The body of a unary request: one uncompressed gRPC message of less than 4 GiB and nothing else.
abbrev pub IsFramed : Bytes → Bytes → Type 0
IsFramed frame message = (length message < 2 ^ 32) × (frame ≡ grpc_frame message)

-- The layout that the prefix checks establish.
pub IsFramed-of_checks :
    (frame : Bytes)
    → All IsByte frame
    → 5 ≤ length frame
    → byte_at frame 0 ≡ 0
    → 5 + u32_at frame 1 ≡ length frame
    → IsFramed frame (drop 5 frame)
IsFramed-of_checks [] hb h5 h0 hl = absurd (omega arith)
IsFramed-of_checks (c ∷ cs) hb h5 h0 hl =
    let n = length-drop 5 (c ∷ cs) in
    (
      omega (arith, u32_at-lt (c ∷ cs) 1 hb),
      unfold grpc_frame in
          (ap (λ (t : Bytes). c ∷ t) (split_at (c ∷ cs) 1 4)
            ∙ ap (λ (t : ℕ). t ∷ (slice (c ∷ cs) 1 5 ++ drop 5 (c ∷ cs))) h0
            ∙ ap (λ (t : Bytes). 0 ∷ (t ++ drop 5 (c ∷ cs)))
                (sym (be32-u32_at (c ∷ cs) 1 hb (omega arith)))
            ∙ ap (λ (t : ℕ). 0 ∷ (be32 t ++ drop 5 (c ∷ cs)))
                (let e : u32_at (c ∷ cs) 1 ≡ length (drop 5 (c ∷ cs)) = omega (arith, n) in e)),
    )

pub frame_reads :
    (message : Bytes)
    → length message < 2 ^ 32
    → (length (grpc_frame message) ≡ 5 + length message)
      × (byte_at (grpc_frame message) 0 ≡ 0)
      × (u32_at (grpc_frame message) 1 ≡ length message)
      × (drop 5 (grpc_frame message) ≡ message)
      × (slice (grpc_frame message) 5 (5 + length message) ≡ message)
unfolding grpc_frame
frame_reads message h =
    let n = length-be32 (length message) in
    (
      omega (arith, n, length-append (be32 (length message)) message),
      refl,
      u32_at-append (0 ∷ []) message (length message) 1 refl ∙ omega arith,
      drop-append_add 5 0 (0 ∷ be32 (length message)) message (omega (arith, n)),
      ap (λ (t : Bytes). slice ((0 ∷ be32 (length message)) ++ t) 5 (5 + length message))
            (sym (append-nil message))
          ∙ slice-append (0 ∷ be32 (length message)) message [] 5 (5 + length message)
              (omega (arith, n)) refl,
    )

-- The body is one uncompressed, identity-coded gRPC message that decodes to a `RawTransaction`
-- whose data is `raw`.
abbrev pub IsUnary : Proto → Headers → Bytes → Bytes → Type 0
IsUnary p headers frame raw =
    IsIdentityCoded headers
    × ((message : Bytes) × IsFramed frame message × (p.decode_raw_transaction message ≡ ok raw))

module _ (z : Zebra) (p : Proto) (headers : Headers) where
  inspect_message-ok :
      (message raw : Bytes)
      → p.decode_raw_transaction message ≡ ok raw
      → inspect_message z p message ≡ (classified (classify_with_evidence z raw), some raw)
  inspect_message-ok message raw h = unfold inspect_message in rw (h, inspect_message)

  inspect_frame-ok :
      (message : Bytes)
      → length message < 2 ^ 32
      → inspect_frame z p (grpc_frame message) ≡ inspect_message z p message
  inspect_frame-ok message h =
      let (hl, h0, hu, hd, hs) = frame_reads message h in
      unfold inspect_frame in ground (arith, hl, h0, hu, hs)

  inspect-no_encoding :
      (frame : Bytes)
      → other_encoding headers ≡ none
      → inspect z p headers frame ≡ inspect_frame z p frame
  inspect-no_encoding frame e = unfold inspect in rw (e, inspect)

  pub inspect-unary :
      (frame raw : Bytes)
      → IsUnary p headers frame raw
      → inspect z p headers frame ≡ (classified (classify_with_evidence z raw), some raw)
  inspect-unary frame raw (he, (message, (hl, hf), hd)) =
      let n = (other_encoding-none headers).1 he in
      rw hf (
        inspect-no_encoding (grpc_frame message) n
        ∙ inspect_frame-ok message hl
        ∙ inspect_message-ok message raw hd)

  inspect_frame-facts :
      (frame : Bytes) (ev : Evidence) (tx : Option Bytes)
      → inspect_frame z p frame ≡ (classified ev, tx)
      → (5 ≤ length frame)
        × (byte_at frame 0 ≡ 0)
        × (5 + u32_at frame 1 ≤ length frame)
        × (length (slice frame 5 (5 + u32_at frame 1)) ≡ length frame - 5)
        × (inspect_message z p (slice frame 5 (5 + u32_at frame 1)) ≡ (classified ev, tx))
  inspect_frame-facts frame ev tx h = unfold inspect_frame in ground arith

  inspect_message_sound :
      (message : Bytes) (ev : Evidence) (tx : Option Bytes)
      → inspect_message z p message ≡ (classified ev, tx)
      → (raw : Bytes) × (p.decode_raw_transaction message ≡ ok raw)
  inspect_message_sound message ev tx h = elim (Result-cases (p.decode_raw_transaction message)) [
    | inl (raw, e) ↦ (raw, e)
    | inr (x, e) ↦ absurd (unfold inspect_message in ground arith)
  ]

  inspect_sound :
      (frame : Bytes) (ev : Evidence) (tx : Option Bytes)
      → All IsByte frame
      → inspect z p headers frame ≡ (classified ev, tx)
      → (raw : Bytes) × IsUnary p headers frame raw
  inspect_sound frame ev tx hb h = go (other_encoding headers) refl
    where
      go :
          (o : Option Bytes)
          → other_encoding headers ≡ o
          → (raw : Bytes) × IsUnary p headers frame raw
      go (some v) e = absurd (unfold inspect in ground arith)
      go none e =
          let h' : inspect_frame z p frame ≡ (classified ev, tx) =
            sym (inspect-no_encoding frame e) ∙ h in
          let (h5, h0, hl, hs, hm) = inspect_frame-facts frame ev tx h' in
          let n = length-slice frame 5 (5 + u32_at frame 1) (omega arith) hl in
          let (raw, d) = inspect_message_sound (slice frame 5 (5 + u32_at frame 1)) ev tx hm in
          let whole : slice frame 5 (5 + u32_at frame 1) ≡ drop 5 frame =
            ap (λ (t : ℕ). take t (drop 5 frame))
              (let e : 5 + u32_at frame 1 - 5 ≡ length (drop 5 frame) =
                  omega (arith, length-drop 5 frame) in
                e)
            ∙ take-length (drop 5 frame) in
          (
            raw,
            (
              (other_encoding-none headers).0 e,
              (
                drop 5 frame,
                IsFramed-of_checks frame hb h5 h0 (omega arith),
                ap p.decode_raw_transaction (sym whole) ∙ d,
              ),
            ),
          )

  inspect-failsafe :
      (frame : Bytes) (r : Reason) (d : Option Detail) (tx : Option Bytes)
      → inspect z p headers frame ≡ (failsafe r d, tx)
      → tx ≡ none
  inspect-failsafe frame r d tx h = unfold inspect in ground arith

  -- On a buffer of bytes, `inspect` classifies the data of the one message of a well-formed unary
  -- body, and hands these bytes on; on every other body it fails safe, and hands nothing on.
  pub inspect_exact :
      (frame : Bytes)
      → All IsByte frame
      → ((raw : Bytes) × IsUnary p headers frame raw
          × (inspect z p headers frame ≡ (classified (classify_with_evidence z raw), some raw)))
        ⊎ (((raw : Bytes) → ¬ IsUnary p headers frame raw)
            × ((r : Reason) × (d : Option Detail) × (inspect z p headers frame
                  ≡ (failsafe r d, none))))
  inspect_exact frame hb = go (inspect z p headers frame) refl
    where
      go :
          (i : Inspection × Option Bytes)
          → inspect z p headers frame ≡ i
          → ((raw : Bytes) × IsUnary p headers frame raw
              × (inspect z p headers frame ≡ (classified (classify_with_evidence z raw), some raw)))
            ⊎ (((raw : Bytes) → ¬ IsUnary p headers frame raw)
                × ((r : Reason) × (d : Option Detail) × (inspect z p headers frame
                      ≡ (failsafe r d, none))))
      go (classified ev, tx) e =
          let (raw, u) = inspect_sound frame ev tx hb e in inl (raw, u, inspect-unary frame raw u)
      go (failsafe r d, tx) e = inr (
        (λ raw u. absurd (ground (arith, inspect-unary frame raw u))),
        (r, d, e ∙ ap (λ (t : Option Bytes). (failsafe r d, t)) (inspect-failsafe frame r d tx e)),
      )
