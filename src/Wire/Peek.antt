-- ===== src/Wire/Peek.antt =====
-- `peek_nonce` and `peek_lookup_nonce` of zeronym/shim/src/wire.rs: what a refusal of a malformed
-- request can still be addressed to.
use zero_shim.Prelude.{◌+◌, ◌≡◌, ◌⊎◌, inl, inr, none, some, arith, Bool-cases, ok, err, length}
use zero_shim.Bytes.{Bytes, byte_at, slice, bytes_eq, u32_at}
use zero_shim.Wire.{
  frame_bytes, lookup_bytes, submit_magic, lookup_magic, max_nym_tx_bytes, max_lookup_hash_bytes,
  bad_magic, tx_len_overruns_frame, hash_len_overruns_frame, decode_submit, peek_nonce,
  decode_lookup, peek_lookup_nonce,
}
use native.Mathlib.Decide.{dec_le}

-- On a full-size frame `peek_nonce` finds no nonce exactly when `decode_submit` refuses the magic;
-- otherwise it finds bytes 4 to 20, also when the length field overruns, and on a frame that
-- decodes that is the nonce `decode_submit` returns.
pub peek_nonce-decode_submit :
    (frame : Bytes)
    → length frame ≡ frame_bytes
    → ((decode_submit frame ≡ err bad_magic) × (peek_nonce frame ≡ none))
      ⊎ ((peek_nonce frame ≡ some (slice frame 4 20))
          × ((decode_submit frame ≡ err (tx_len_overruns_frame (u32_at frame 20)))
              ⊎ ((tx : Bytes) × (decode_submit frame ≡ ok (slice frame 4 20, tx)))))
peek_nonce-decode_submit frame hl = elim (Bool-cases (bytes_eq (slice frame 0 4) submit_magic)) [
  | inl good ↦ inr (
    unfold peek_nonce in ground arith,
    elim (dec_le (u32_at frame 20) max_nym_tx_bytes) [
      | yes h ↦ inr (slice frame 24 (24 + u32_at frame 20), unfold decode_submit in ground arith)
      | no h ↦ inl (unfold decode_submit in ground arith)
    ],
  )
  | inr bad ↦ inl (unfold decode_submit in ground arith, unfold peek_nonce in ground arith)
]

-- The same for lookups: only a wrong magic hides the nonce of a full-size frame.
pub peek_lookup_nonce-decode_lookup :
    (frame : Bytes)
    → length frame ≡ lookup_bytes
    → ((decode_lookup frame ≡ err bad_magic) × (peek_lookup_nonce frame ≡ none))
      ⊎ ((peek_lookup_nonce frame ≡ some (slice frame 4 20))
          × ((decode_lookup frame ≡ err (hash_len_overruns_frame (byte_at frame 20)))
              ⊎ ((hash : Bytes) × (decode_lookup frame ≡ ok (slice frame 4 20, hash)))))
peek_lookup_nonce-decode_lookup frame hl =
    elim (Bool-cases (bytes_eq (slice frame 0 4) lookup_magic)) [
      | inl good ↦ inr (
        unfold peek_lookup_nonce in ground arith,
        elim (dec_le (byte_at frame 20) max_lookup_hash_bytes) [
          | yes h ↦
              inr (slice frame 21 (21 + byte_at frame 20), unfold decode_lookup in ground arith)
          | no h ↦ inl (unfold decode_lookup in ground arith)
        ],
      )
      | inr bad ↦
          inl (unfold decode_lookup in ground arith, unfold peek_lookup_nonce in ground arith)
    ]
