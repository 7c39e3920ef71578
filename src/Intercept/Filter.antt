-- ===== src/Intercept/Filter.antt =====
-- What `decode_tx_filter` of zeronym/shim/src/intercept.rs accepts.
use zero_shim.Prelude.{
  ◌+◌, ◌≤◌, ◌≡◌, refl, ◌↔◌, Option, none, some, arith, Result, ok, err, length, drop, All,
}
use zero_shim.Bytes.{Bytes, IsByte, byte_at, u32_at}
use zero_shim.Text.{Text, text}
use zero_shim.External.{Proto, TxFilter}
use zero_shim.Http.{Headers}
use zero_shim.Intercept.{other_encoding, tx_filter_frame, decode_tx_filter}
use zero_shim.Intercept.Unwrap.{
  other_encoding-none, IsFramed-of_checks, frame_reads, IsIdentityCoded, IsFramed,
}

-- What is behind an accepted filter: one uncompressed identity-coded message of less than 4 GiB
-- that decodes to it.
abbrev pub IsFilterBody : Proto → Headers → Bytes → TxFilter → Type 0
IsFilterBody p headers frame filter =
    IsIdentityCoded headers
    × ((message : Bytes) × IsFramed frame message × (p.decode_tx_filter message ≡ ok filter))

message_decoded : Proto → Bytes → Result Text TxFilter
message_decoded p message = elim (p.decode_tx_filter message) [
  | ok filter ↦ ok filter
  | err e ↦ err (text "GetTransaction: could not decode TxFilter")
]

message_decoded_exact :
    (p : Proto) (message : Bytes) (filter : TxFilter)
    → (message_decoded p message ≡ ok filter) ↔ (p.decode_tx_filter message ≡ ok filter)
message_decoded_exact p message filter =
    unfold message_decoded in ((λ h. ground arith), (λ h. ground arith))

tx_filter_frame-facts :
    (p : Proto) (frame : Bytes) (filter : TxFilter)
    → tx_filter_frame p frame ≡ ok filter
    → (5 ≤ length frame)
      × (byte_at frame 0 ≡ 0)
      × (5 + u32_at frame 1 ≡ length frame)
      × (message_decoded p (drop 5 frame) ≡ ok filter)
tx_filter_frame-facts p frame filter h = unfold tx_filter_frame message_decoded in ground arith

-- On a buffer of bytes, `decode_tx_filter` accepts exactly the identity-coded bodies of one
-- uncompressed message, with nothing after it, that decodes to the filter.
pub decode_tx_filter_exact :
    (p : Proto) (headers : Headers) (frame : Bytes) (filter : TxFilter)
    → All IsByte frame
    → (decode_tx_filter p headers frame ≡ ok filter) ↔ IsFilterBody p headers frame filter
decode_tx_filter_exact p headers frame filter hb = (there (other_encoding headers) refl, back)
  where
    there :
        (o : Option Bytes)
        → other_encoding headers ≡ o
        → decode_tx_filter p headers frame ≡ ok filter
        → IsFilterBody p headers frame filter
    there (some v) e h = absurd (unfold decode_tx_filter in ground arith)
    there none e h =
        let h' : tx_filter_frame p frame ≡ ok filter = unfold decode_tx_filter in ground arith in
        let (h5, h0, hl, hm) = tx_filter_frame-facts p frame filter h' in
        (
          (other_encoding-none headers).0 e,
          (
            drop 5 frame,
            IsFramed-of_checks frame hb h5 h0 hl,
            (message_decoded_exact p (drop 5 frame) filter).0 hm,
          ),
        )

    back : IsFilterBody p headers frame filter → decode_tx_filter p headers frame ≡ ok filter
    back (he, (message, (hl, hf), hd)) =
        let n = (other_encoding-none headers).1 he in
        let (fl, f0, fu, fd, fs) = frame_reads message hl in
        rw hf (unfold decode_tx_filter in ground (arith, n, fl, f0, fu, fd))
