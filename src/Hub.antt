-- ===== src/Hub.antt =====
-- The client of the hub (zeronym/shim/src/hub.rs): the clearnet HTTP client, the union over the
-- transports, and `local_txid` of nym.rs. What the network answers is an argument: `exchange` is
-- one whole attempt with its deadline, so a refused connection, a failed handshake and a timeout
-- are its errors. A call returns the requests that it posted beside its result.
pub mod HttpClient
pub mod Attempt
pub mod Reach
use zero_shim.Prelude.{
  ℕ, ◌+◌, ◌-◌, ◌*◌, ◌^◌, Bool, false, not, ◌&&◌, Option, none, some, List, [], ◌∷◌, ◌++◌, ltb, leb,
  ◌==◌, if◌then◌else◌, Result, ok, err, length,
}
use zero_shim.Bytes.{Bytes}
use zero_shim.Text.{Text, text, text_eq, starts_with, decimal}
use zero_shim.Wire.{
  Nonce, WireError, tx_too_large, LookupReply, encode_submit, frame_bytes, max_nym_tx_bytes,
}
use zero_shim.Wire
use zero_shim.Wire.Messages.{wire_message}
use zero_shim.External.{Zebra}
use zero_shim.Nym
use zero_shim.Nym.{NymError, encode, timeout, transport_gone, NymHandle}
use zero_shim.Http.{Headers, Request, get}

pub data Submit : Type 0 where
  accepted : (txid : Text) → Submit
  already_known : (txid : Option Text) → Submit
  rejected : (reason : Text) → Submit
  too_large : (limit : ℕ) → Submit

pub data Lookup : Type 0 where
  found : (bytes : Bytes) (height : ℕ) → Lookup
  not_found : Lookup

pub record HubResponse : Type 0 where
  pub disposition : Text
  pub txid : Option Text
  pub reason : Option Text

pub record HubReply : Type 0 where
  pub status : ℕ
  pub headers : Headers
  pub body : Bytes

-- The hub across the network, and the libraries that read its replies.
pub record HubWorld : Type 0 where
  pub exchange : Request → Result Text HubReply
  -- `serde_json::from_slice`
  pub from_slice : Bytes → Result Text HubResponse
  -- `HeaderValue::to_str(..).ok()`
  pub to_str : Bytes → Option Text

abbrev pub unwrap_or {ℓ} : {A : Type ℓ} → Option A → A → A
unwrap_or none d = d
unwrap_or (some a) d = a

abbrev pub and_then {ℓ κ} : {A : Type ℓ} {B : Type κ} → Option A → (A → Option B) → Option B
and_then none f = none
and_then (some a) f = f a

pub post : Text → Text → Bytes → Request
post authority path body = record {
  method = text "POST";
  path = path;
  authority = none;
  headers = (text "host", authority) ∷ (text "content-type", text "application/octet-stream") ∷ [];
  body = body;
  trailers = none;
}

-- The disposition of a parsed verdict.
verdict : HubResponse → Submit
verdict parsed =
    if text_eq parsed.disposition (text "accepted")
    then accepted (unwrap_or parsed.txid [])
    else if text_eq parsed.disposition (text "already_known")
    then already_known parsed.txid
    else rejected (unwrap_or parsed.reason parsed.disposition)

read_verdict : Result Text HubResponse → Result Text Submit
read_verdict (err e) = err e
read_verdict (ok parsed) = ok (verdict parsed)

-- What `submit` makes of the outcome of its attempt.
submit_reply : HubWorld → Result Text HubReply → Result Text Submit
submit_reply w (err e) = err e
submit_reply w (ok reply) =
    if reply.status == 413
    then ok (too_large frame_bytes)
    else read_verdict (w.from_slice reply.body)

submit_frame : HubWorld → Text → Result WireError Bytes → List Request × Result Text Submit
submit_frame w authority (err e) = ([], ok (too_large max_nym_tx_bytes))
submit_frame w authority (ok frame) =
    let req = post authority (text "/") frame in (req ∷ [], submit_reply w (w.exchange req))

-- `HubClient::submit`
pub http_submit : HubWorld → Text → Nonce → Bytes → List Request × Result Text Submit
unfolding post verdict read_verdict submit_reply submit_frame
http_submit w authority nonce tx = submit_frame w authority (encode_submit nonce tx)

abbrev digits_u64 : ℕ → Text → Option ℕ
digits_u64 acc [] = some acc
digits_u64 acc (c ∷ s) =
    let next = acc * 10 + (c - 48) in
    let rest = digits_u64 next s in
    if leb 48 c && (leb c 57 && ltb next (2 ^ 64)) then rest else none

-- `value.parse::<u64>().ok()`: an optional plus, then digits, and no overflow on the way.
unfoldable pub parse_u64 : Text → Option ℕ
parse_u64 [] = none
parse_u64 (c ∷ []) = digits_u64 0 (c ∷ [])
parse_u64 (c ∷ d ∷ s) = if c == b'+' then digits_u64 0 (d ∷ s) else digits_u64 0 (c ∷ d ∷ s)

-- The two reads of the head of a `200`.
abbrev pub octet_stream : HubWorld → Headers → Bool
octet_stream w headers = elim (and_then (get headers (text "content-type")) w.to_str) [
  | none ↦ false
  | some value ↦ starts_with value (text "application/octet-stream")
]

abbrev pub tx_height : HubWorld → Headers → Option ℕ
tx_height w headers = and_then (and_then (get headers (text "x-tx-height")) w.to_str) parse_u64

found_at : HubReply → Bool → Option ℕ → Result Text Lookup
found_at reply octets none = err (text "hub lookup: 200 without the expected transaction shape")
found_at reply octets (some height) =
    if octets
    then ok (found reply.body height)
    else err (text "hub lookup: 200 without the expected transaction shape")

-- What `get_transaction` makes of the outcome of its attempt.
lookup_reply : HubWorld → Result Text HubReply → Result Text Lookup
lookup_reply w (err e) = err e
lookup_reply w (ok reply) =
    if reply.status == 200
    then found_at reply (octet_stream w reply.headers) (tx_height w reply.headers)
    else if reply.status == 404
    then ok not_found
    else err (text "hub lookup: unexpected status " ++ decimal reply.status)

-- `HubClient::get_transaction`
pub http_get_transaction : HubWorld → Text → Bytes → List Request × Result Text Lookup
unfolding post found_at lookup_reply
http_get_transaction w authority wire_hash =
    let req = post authority (text "/transaction") wire_hash in
    (req ∷ [], lookup_reply w (w.exchange req))

-- `local_txid` of nym.rs
pub local_txid : Zebra → Bytes → Text
local_txid z tx = elim (z.zcash_deserialize tx) [ ok p ↦ z.txid p.0 | err e ↦ [] ]

-- `HubTransport`: the clearnet client, or the mixnet handle.
pub data HubTransport : Type 0 where
  http : HubWorld → (authority : Text) → (nonce : Nonce) → HubTransport
  nym : NymHandle → HubTransport

-- `err.into()`: the error boxed, by its `Display`.
unfoldable pub nym_message : NymError → Text
nym_message (encode e) = text "could not frame the request: " ++ wire_message e
nym_message timeout = text "no reply from the hub within the timeout"
nym_message transport_gone = text "the mixnet transport is not running"

unfoldable pub nym_verdict : Zebra → Bytes → Result NymError (Unit {0}) → Result Text Submit
nym_verdict z tx (ok done) = ok (accepted (local_txid z tx))
nym_verdict z tx (err (encode (tx_too_large len budget))) = ok (too_large budget)
nym_verdict z tx (err e) = err (nym_message e)

unfoldable pub nym_lookup : Result NymError LookupReply → Result Text Lookup
nym_lookup (ok (Wire.found height tx)) = ok (found tx height)
nym_lookup (ok Wire.not_found) = ok not_found
nym_lookup (ok Wire.error) = err (text "hub could not answer the lookup")
nym_lookup (err e) = err (nym_message e)

-- `HubTransport::submit`
unfoldable pub submit : Zebra → HubTransport → Bytes → Result Text Submit
unfolding nym_verdict nym_message
submit z (http w authority nonce) tx = (http_submit w authority nonce tx).1
submit z (nym h) tx = nym_verdict z tx (Nym.submit h.offers h.fresh h.targets tx).1

-- Whether a submission posts or hands over anything at all.
unfoldable pub submit_reaches : HubTransport → Bytes → Bool
submit_reaches (http w authority nonce) tx = not (length (http_submit w authority nonce tx).0 == 0)
submit_reaches (nym h) tx = not (length (Nym.submit h.offers h.fresh h.targets tx).0 == 0)

-- `HubTransport::get_transaction`
unfoldable pub get_transaction : HubTransport → Bytes → Result Text Lookup
unfolding nym_lookup nym_message
get_transaction (http w authority nonce) wire_hash = (http_get_transaction w authority wire_hash).1
get_transaction (nym h) wire_hash =
    nym_lookup (Nym.get_transaction h.tries h.fresh h.start h.targets wire_hash).1
