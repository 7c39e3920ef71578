-- ===== src/Samples/Frames.antt =====
-- The theorems on the hub protocol at one nonce and one small transaction.
use zero_shim.Prelude.{
  ℕ, ◌<◌, ◌≡◌, refl, ◌↔◌, ◌⊎◌, ◌++◌, arith, ok, err, length, take, All, All-append,
}
use zero_shim.Bytes.{Bytes, IsByte, be32, be64}
use zero_shim.Wire.{
  zeros, frame_bytes, max_nym_tx_bytes, max_lookup_reply_tx_bytes, tx_too_large, AckKind, refused,
  queue_full, LookupReply, found, encode_submit, decode_submit, encode_ack, encode_lookup_reply,
  decode_lookup_reply, IsNonce,
}
use zero_shim.Bytes.BigEndian.{be32-IsByte}
use zero_shim.Wire.SubmitFrame.{
  Carries, submit_layout, submit_padding, decode_submit_exact, decode_submit-encode_submit,
}
use zero_shim.Wire.AckFrame.{decode_ack-encode_ack}
use zero_shim.Wire.LookupFrame.{lookup_layout}
use zero_shim.Wire.ReplyFields.{reply_layout, tx_of}
use zero_shim.Wire.ReplyFrame.{
  Fits, decode_lookup_reply_exact, decode_lookup_reply-encode_lookup_reply,
}
use zero_shim.Wire.Kinds.{ack, Decodes}
use zero_shim.Samples.{sample_nonce, sample_tx, zeros-IsByte}

abbrev frame : Bytes
frame = submit_layout sample_nonce sample_tx (zeros (submit_padding sample_tx))

be32_and_tx-IsByte : (n : ℕ) → All IsByte (be32 3 ++ (sample_tx ++ zeros n))
be32_and_tx-IsByte n =
    All-append IsByte (be32 3) (sample_tx ++ zeros n) (be32-IsByte 3)
      (All-append IsByte sample_tx (zeros n) (omega arith) (zeros-IsByte n))

frame-IsByte : All IsByte frame
frame-IsByte =
    All-append IsByte (take 20 frame) (be32 3 ++ (sample_tx ++ zeros (submit_padding sample_tx)))
      (omega arith) (be32_and_tx-IsByte (submit_padding sample_tx))

abbrev verdict : AckKind
verdict = refused queue_full

abbrev reply : LookupReply
reply = found 2500000 sample_tx

abbrev reply_frame : Bytes
reply_frame = reply_layout sample_nonce reply (zeros 65500)

reply_frame-IsByte : All IsByte reply_frame
reply_frame-IsByte =
    All-append IsByte (take 21 reply_frame) (be64 2500000 ++ (be32 3 ++ (sample_tx ++ zeros 65500)))
      (omega arith)
      (All-append IsByte (be64 2500000) (be32 3 ++ (sample_tx ++ zeros 65500)) be64-IsByte
        (be32_and_tx-IsByte 65500))
  where
    be64-IsByte : All IsByte (be64 2500000)
    be64-IsByte = unfold be64 be32 in omega arith

abbrev lookup_frame : Bytes
lookup_frame = lookup_layout sample_nonce sample_tx (zeros 40)

decode_submit-encode_submit_example :
    ((max_nym_tx_bytes < length sample_tx)
      × (encode_submit sample_nonce sample_tx
          ≡ err (tx_too_large (length sample_tx) max_nym_tx_bytes)))
    ⊎ ((f : Bytes) × (encode_submit sample_nonce sample_tx ≡ ok f)
        × (length f ≡ frame_bytes)
        × (decode_submit f ≡ ok (sample_nonce, sample_tx)))
decode_submit-encode_submit_example = decode_submit-encode_submit sample_nonce sample_tx refl

decode_submit_exact_example :
    (decode_submit frame ≡ ok (sample_nonce, sample_tx)) ↔ Carries frame sample_nonce sample_tx
decode_submit_exact_example = decode_submit_exact frame sample_nonce sample_tx frame-IsByte

decode_lookup_reply_exact_example : (decode_lookup_reply reply_frame ≡ ok (sample_nonce, reply)) ↔ (
    IsNonce sample_nonce
    × Fits reply
    × (length reply_frame ≡ frame_bytes)
    × ((pad : Bytes) × (reply_frame ≡ reply_layout sample_nonce reply pad)))
decode_lookup_reply_exact_example =
    decode_lookup_reply_exact reply_frame sample_nonce reply reply_frame-IsByte

decode_lookup_reply-encode_lookup_reply_example :
    ((max_lookup_reply_tx_bytes < length (tx_of reply))
      × (encode_lookup_reply sample_nonce reply
          ≡ err (tx_too_large (length (tx_of reply)) max_lookup_reply_tx_bytes)))
    ⊎ ((f : Bytes) × (encode_lookup_reply sample_nonce reply ≡ ok f)
        × (length f ≡ frame_bytes)
        × (decode_lookup_reply f ≡ ok (sample_nonce, reply)))
decode_lookup_reply-encode_lookup_reply_example =
    decode_lookup_reply-encode_lookup_reply sample_nonce reply refl (omega arith)

encoded_ack : Decodes ack (encode_ack sample_nonce verdict)
encoded_ack = (sample_nonce, verdict, (decode_ack-encode_ack sample_nonce verdict refl).1)
