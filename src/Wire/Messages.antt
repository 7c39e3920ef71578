-- ===== src/Wire/Messages.antt =====
-- `Display` of `WireError` and `AckRefusal::as_str` (zeronym/shim/src/wire.rs): what reaches a log.
use zero_shim.Prelude.{◌++◌}
use zero_shim.Text.{Text, text, decimal}
use zero_shim.Wire.{
  max_lookup_hash_bytes, WireError, wrong_length, bad_magic, tx_too_large, tx_len_overruns_frame,
  hash_too_large, hash_len_overruns_frame, unknown_disposition, unknown_refusal,
  stray_reply_payload, AckRefusal, expiry_too_tight, too_large, queue_full, tip_stale, bad_frame,
}

unfoldable pub wire_message : WireError → Text
wire_message (wrong_length expected got) =
    text "wrong frame length: expected " ++ (decimal expected ++ (text ", got " ++ decimal got))
wire_message bad_magic = text "bad frame magic"
wire_message (tx_too_large len budget) =
    text "transaction exceeds the " ++ (decimal budget ++ text "-byte frame budget")
wire_message (tx_len_overruns_frame declared) =
    text "declared tx_len " ++ (decimal declared ++ text " overruns the frame")
wire_message (hash_too_large len) =
    text "hash exceeds the " ++ (decimal max_lookup_hash_bytes ++ text "-byte lookup budget")
wire_message (hash_len_overruns_frame declared) =
    text "declared hash_len " ++ (decimal declared ++ text " overruns the frame")
wire_message (unknown_disposition byte) = text "unknown disposition byte " ++ decimal byte
wire_message (unknown_refusal byte) = text "unknown refusal byte " ++ decimal byte
wire_message stray_reply_payload =
    text "not_found/error reply carries a height or transaction bytes"

unfoldable pub as_str : AckRefusal → Text
as_str expiry_too_tight = text "expiry_too_tight"
as_str too_large = text "too_large"
as_str queue_full = text "queue_full"
as_str tip_stale = text "tip_stale"
as_str bad_frame = text "bad_frame"
