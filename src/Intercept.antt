-- ===== src/Intercept.antt =====
-- The two intercepted methods (zeronym/shim/src/intercept.rs). How a body was read (the bounded
-- collect under its deadline) is an argument, `BodyRead`; the hub is a `HubTransport`, the operator
-- an `Operator`. Each handler returns the contacts that it made beside its response.
pub mod Unwrap
pub mod Send
pub mod NoLeak
pub mod Filter
pub mod Get
pub mod Hex
pub mod Reports
use zero_shim.Prelude.{
  ℕ, ◌+◌, ◌-◌, ◌/◌, ◌%◌, Bool, true, false, not, ◌||◌, Option, none, some, [], ◌∷◌, ◌++◌, ltb, ◌==◌,
  if◌then◌else◌, Result, ok, err, length, take, drop,
}
use zero_shim.Bytes.{Bytes, bytes_eq, slice, byte_at, u32_at}
use zero_shim.Text.{Text, text, decimal, eq_ignore_ascii_case}
use zero_shim.External.{ℤ, pos, negsuc, Zebra, Proto, TxFilter}
use zero_shim.Classify
use zero_shim.Classify.{Evidence, classify_with_evidence}
use zero_shim.Http.{
  Headers, Request, Response, HeaderValue, get, grpc_error, grpc_unary, grpc_cancelled,
  grpc_invalid_argument, grpc_deadline_exceeded, grpc_not_found, grpc_resource_exhausted,
  grpc_unavailable,
}
use zero_shim.Hub
use zero_shim.Hub.{Submit, Lookup, HubTransport, unwrap_or}
use zero_shim.Forward.{to_hub, hub_query, Operator, Outcome, pass_through}
use mathlib.Core.List.{reverse}

abbrev pub grpc_prefix_len : ℕ
grpc_prefix_len = 5

-- How the read of a request body ended: the bytes and trailers, the size cap, an error of the
-- client's stream, or the deadline.
pub data BodyRead : Type 0 where
  collected : (frame : Bytes) (trailers : Option Headers) → BodyRead
  length_limit : BodyRead
  broken : BodyRead
  timed_out : BodyRead

-- The fixed reasons of a fail-safe verdict.
pub data Reason : Type 0 where
  encoding_not_identity shorter_than_prefix compression_flag_set message_truncated : Reason
  trailing_bytes decode_failed : Reason

-- The detail of a reason: a text, or bytes to be shown as text (`from_utf8_lossy`).
pub data Detail : Type 0 where
  said : Text → Detail
  lossy : Bytes → Detail

pub data Inspection : Type 0 where
  classified : Evidence → Inspection
  failsafe : Reason → Option Detail → Inspection

unfoldable pub is_unrecognised_branch : Inspection → Bool
is_unrecognised_branch (classified evidence) = Classify.is_unrecognised_branch evidence
is_unrecognised_branch (failsafe reason detail) = false

unfoldable pub treat_as_migration : Inspection → Bool
treat_as_migration (classified evidence) = Classify.treat_as_migration evidence.class
treat_as_migration (failsafe reason detail) = true

-- `headers.get("grpc-encoding")` is there and is not `identity`
abbrev pub other_encoding : Headers → Option Bytes
other_encoding headers = elim (get headers (text "grpc-encoding")) [
  | none ↦ none
  | some v ↦ if bytes_eq v (text "identity") then none else some v
]

-- `format!("declared {declared} bytes, body carries {}", ..)`
length_detail : ℕ → Bytes → Detail
length_detail declared frame = said (
    text "declared "
    ++ (decimal declared
        ++ (text " bytes, body carries " ++ decimal (length frame - grpc_prefix_len))))

module _ (z : Zebra) (p : Proto) where
  inspect_message : Bytes → Inspection × Option Bytes
  inspect_message message = elim (p.decode_raw_transaction message) [
    | ok raw ↦ (classified (classify_with_evidence z raw), some raw)
    | err e ↦ (failsafe decode_failed (some (said e)), none)
  ]

  -- The checks on the five-byte prefix and the length, then the message.
  inspect_frame : Bytes → Inspection × Option Bytes
  inspect_frame frame =
      if ltb (length frame) grpc_prefix_len
      then (failsafe shorter_than_prefix none, none)
      else if not (byte_at frame 0 == 0)
      then (failsafe compression_flag_set none, none)
      else let declared = u32_at frame 1 in
        let message = slice frame grpc_prefix_len (grpc_prefix_len + declared) in
        if ltb (length frame) (grpc_prefix_len + declared)
        then (failsafe message_truncated (some (length_detail declared frame)), none)
        else if not (length message == length frame - grpc_prefix_len)
        then (failsafe trailing_bytes (some (length_detail declared frame)), none)
        else inspect_message message

  unfoldable pub inspect : Headers → Bytes → Inspection × Option Bytes
  unfolding length_detail inspect_message inspect_frame
  inspect headers frame = elim (other_encoding headers) [
    | some v ↦ (failsafe encoding_not_identity (some (lossy v)), none)
    | none ↦ inspect_frame frame
  ]

-- The prefix check of `decode_tx_filter`, which wants the length to be exact.
tx_filter_frame : Proto → Bytes → Result Text TxFilter
tx_filter_frame p frame =
    if ltb (length frame) grpc_prefix_len || not (byte_at frame 0 == 0)
    then err (text "GetTransaction: request is not a single identity-coded frame")
    else if not (grpc_prefix_len + u32_at frame 1 == length frame)
    then err (text "GetTransaction: request frame length does not match its body")
    else elim (p.decode_tx_filter (drop grpc_prefix_len frame)) [
      | ok filter ↦ ok filter
      | err e ↦ err (text "GetTransaction: could not decode TxFilter")
    ]

pub decode_tx_filter : Proto → Headers → Bytes → Result Text TxFilter
unfolding tx_filter_frame
decode_tx_filter p headers frame = elim (other_encoding headers) [
  | some v ↦ err (text "GetTransaction: a compressed request is not supported")
  | none ↦ tx_filter_frame p frame
]

-- `{byte:02x}`
abbrev pub hex_digit : ℕ → ℕ
hex_digit d = if ltb d 10 then 48 + d else 87 + d

unfoldable pub hex_all : Bytes → Text
hex_all [] = []
hex_all (b ∷ bs) = hex_digit (b / 16) ∷ hex_digit (b % 16) ∷ hex_all bs

unfoldable pub hex_prefix : Bytes → ℕ → Text
unfolding hex_all
hex_prefix bytes n = hex_all (take n bytes)

pub lookup_is_for_query : Zebra → Bytes → Bytes → Bool
lookup_is_for_query z tx_bytes wire_hash = elim (z.zcash_deserialize tx_bytes) [
  | err e ↦ false
  | ok q ↦
      let reversed = reverse wire_hash in
      eq_ignore_ascii_case (z.txid q.0) (hex_prefix wire_hash (length wire_hash))
      || eq_ignore_ascii_case (z.txid q.0) (hex_prefix reversed (length reversed))
]

pub not_found_message : Bytes → Text
not_found_message wire_hash =
    let display = reverse wire_hash in
    text "zero-indexer-shim: GetTransaction: getrawtransaction "
    ++ (hex_prefix display (length display)
        ++ text " failed: -5: No such mempool or main chain transaction")

pub grpc_send_response : Proto → ℤ → Text → Response
grpc_send_response p error_code error_message =
    grpc_unary (p.encode_send_response error_code error_message)

pub get_transaction_response : Proto → Bytes → ℕ → Response
get_transaction_response p tx_bytes height = grpc_unary (p.encode_raw_transaction tx_bytes height)

-- The original request with the buffered bytes for its body.
abbrev pub replayed : Request → Bytes → Option Headers → Request
replayed req frame trailers = record req { body = frame; trailers = trailers }

module _ (z : Zebra) (p : Proto) (from_str : HeaderValue) where
  -- `body_read_failed`, by whether the error is a `LengthLimitError`
  pub body_read_failed : (is_length_limit : Bool) → Response
  body_read_failed is_length_limit =
      if is_length_limit
      then grpc_error from_str grpc_resource_exhausted
          (text "zero-indexer-shim: SendTransaction body too large to classify")
      else grpc_error from_str grpc_cancelled
          (text "zero-indexer-shim: SendTransaction body could not be read")

  -- The reply to the wallet for what `hub.submit` ended in.
  pub divert_reply : Result Text Submit → Response
  divert_reply (ok (Hub.too_large limit)) = grpc_error from_str grpc_resource_exhausted (
      text "zero-indexer-shim: transaction exceeds the "
      ++ (decimal limit ++ text "-byte hub frame limit"))
  divert_reply (ok (Hub.accepted txid)) = grpc_send_response p (pos 0) txid
  divert_reply (ok (Hub.already_known txid)) = grpc_send_response p (pos 0) (unwrap_or txid [])
  divert_reply (ok (Hub.rejected reason)) = grpc_send_response p (negsuc 0) reason
  divert_reply (err e) =
      grpc_error from_str grpc_unavailable (text "zero-indexer-shim: hub unreachable")

  divert : HubTransport → Option Bytes → Outcome
  divert hub none = (
    [],
    ok (
        grpc_error from_str grpc_unavailable
          (text "zero-indexer-shim: could not divert transaction")),
  )
  divert hub (some []) = (
    [],
    ok (grpc_error from_str grpc_invalid_argument (text "zero-indexer-shim: empty transaction")),
  )
  divert hub (some (b ∷ bs)) = (
    if Hub.submit_reaches hub (b ∷ bs) then to_hub (b ∷ bs) ∷ [] else [],
    ok (divert_reply (Hub.submit z hub (b ∷ bs))),
  )

  route_verdict : Operator → Option HubTransport → Request → Inspection × Option Bytes → Outcome
  route_verdict op none req (inspection, tx) = pass_through op req
  route_verdict op (some hub) req (inspection, tx) =
      if treat_as_migration inspection then divert hub tx else pass_through op req

  pub send_transaction : Operator → Option HubTransport → Request → BodyRead → Outcome
  unfolding body_read_failed route_verdict
  send_transaction op diversion req (collected frame trailers) =
      route_verdict op diversion (replayed req frame trailers) (inspect z p req.headers frame)
  send_transaction op diversion req length_limit = ([], ok (body_read_failed true))
  send_transaction op diversion req broken = ([], ok (body_read_failed false))
  send_transaction op diversion req timed_out = (
    [],
    ok (
        grpc_error from_str grpc_deadline_exceeded
          (text "zero-indexer-shim: SendTransaction body read timed out")),
  )

  refuse : ℕ → Text → Outcome
  refuse code message = ([], ok (grpc_error from_str code (text "zero-indexer-shim: " ++ message)))

  -- The reply for what `hub.get_transaction` ended in.
  pub lookup_answer : Bytes → Result Text Lookup → Response
  lookup_answer hash (ok (Hub.found bytes height)) =
      if lookup_is_for_query z bytes hash
      then get_transaction_response p bytes height
      else grpc_error from_str grpc_not_found (not_found_message hash)
  lookup_answer hash (ok Hub.not_found) =
      grpc_error from_str grpc_not_found (not_found_message hash)
  lookup_answer hash (err e) =
      grpc_error from_str grpc_unavailable (text "zero-indexer-shim: hub unreachable")

  -- The local checks on a decoded filter, then the hub.
  answer_filter : HubTransport → Result Text TxFilter → Outcome
  answer_filter hub (err reason) = refuse grpc_invalid_argument reason
  answer_filter hub (ok filter) =
      if length filter.hash == 0
      then refuse grpc_invalid_argument (
          if filter.block
          then text "GetTransaction: specify a txid, not a blockhash+num"
          else text "GetTransaction: specify a txid")
      else if not (length filter.hash == 32)
      then refuse grpc_invalid_argument (
          text "GetTransaction: transaction ID has invalid length: "
          ++ decimal (length filter.hash))
      else (
        hub_query filter.hash ∷ [],
        ok (lookup_answer filter.hash (Hub.get_transaction hub filter.hash)),
      )

  lookup_body : HubTransport → Headers → BodyRead → Outcome
  lookup_body hub headers (collected frame trailers) =
      answer_filter hub (decode_tx_filter p headers frame)
  lookup_body hub headers length_limit =
      refuse grpc_cancelled (text "GetTransaction body could not be read")
  lookup_body hub headers broken =
      refuse grpc_cancelled (text "GetTransaction body could not be read")
  lookup_body hub headers timed_out =
      refuse grpc_deadline_exceeded (text "GetTransaction body read timed out")

  -- With no hub the request, whose body nothing has read, is passed through.
  pub get_transaction : Operator → Option HubTransport → Request → BodyRead → Outcome
  unfolding refuse lookup_body answer_filter
  get_transaction op none req read = pass_through op req
  get_transaction op (some hub) req read = lookup_body hub req.headers read
