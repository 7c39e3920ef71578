-- ===== src/Forward.antt =====
-- The one way to the operator's indexer: `forward` and `pass_through` of zeronym/shim/src/proxy.rs,
-- and the `ReplayBody` of intercept.rs. The operator is a record of what a dial and an exchange end
-- in, deadlines included; a call returns the contacts that it made beside its result.
pub mod Egress
pub mod Replay
use zero_shim.Prelude.{Option, none, some, List, [], ◌∷◌, Result, ok, err}
use zero_shim.Bytes.{Bytes}
use zero_shim.Text.{Text, text}
use zero_shim.Http.{
  Headers, Request, Response, remove, strip_client_address_headers, normalize_response_encoding,
}

-- The outside parties that a request can reach. `dial` is a call of `pool.get()`, which dials the
-- operator unless it has a live connection or is in its backoff; `to_hub` is a submission that
-- posts or hands over at least one frame, and `hub_query` a lookup given to the hub's transport,
-- which over the mixnet may ask several addresses.
pub data Contact : Type 0 where
  dial : Contact
  to_operator : Request → Contact
  to_hub : (tx : Bytes) → Contact
  hub_query : (hash : Bytes) → Contact
  to_bootproofd : Request → Contact

-- `pool.get()` ends in an authority or an error, an exchange in a response or an error.
pub record Operator : Type 0 where
  pub get : Result Text Text
  pub exchange : Request → Result Text Response

abbrev pub Outcome : Type 0
Outcome = List Contact × Result Text Response

-- The request as it leaves for the upstream of that authority.
retarget : Text → Request → Request
retarget authority req = record req {
  path = elim req.path [ [] ↦ text "/" | c ∷ s ↦ c ∷ s ];
  authority = some authority;
  headers = strip_client_address_headers (remove req.headers (text "host"));
}

relayed : Result Text Response → Result Text Response
relayed (err e) = err e
relayed (ok resp) = ok (record resp { headers = normalize_response_encoding resp.headers })

-- `forward`
unfoldable pub forward : Operator → Text → Request → Outcome
unfolding retarget relayed
forward op authority req =
    let sent = retarget authority req in (to_operator sent ∷ [], relayed (op.exchange sent))

abbrev dialled : Operator → Request → Result Text Text → Outcome
dialled op req (err e) = (dial ∷ [], err e)
dialled op req (ok authority) = let done = forward op authority req in (dial ∷ done.0, done.1)

-- `pass_through`; the same two steps end `send_transaction`.
unfoldable pub pass_through : Operator → Request → Outcome
pass_through op req = dialled op req op.get

-- `ReplayBody` and the frames that it yields.
pub record ReplayBody : Type 0 where
  pub bytes : Option Bytes
  pub trailers : Option Headers

pub data Frame : Type 0 where
  body_bytes : Bytes → Frame
  trailer_map : Headers → Frame

unfoldable pub replay : Bytes → Option Headers → ReplayBody
replay bytes trailers = record { bytes = some bytes; trailers = trailers }

poll_trailers : Option Headers → ReplayBody × Option Frame
poll_trailers none = (record { bytes = none; trailers = none }, none)
poll_trailers (some t) = (record { bytes = none; trailers = none }, some (trailer_map t))

poll_bytes : Option Bytes → Option Headers → ReplayBody × Option Frame
poll_bytes none t = poll_trailers t
poll_bytes (some []) t = poll_trailers t
poll_bytes (some (b ∷ bs)) t = (record { bytes = none; trailers = t }, some (body_bytes (b ∷ bs)))

-- `poll_frame`, which is always ready
pub poll_frame : ReplayBody → ReplayBody × Option Frame
unfolding poll_bytes poll_trailers
poll_frame r = poll_bytes r.bytes r.trailers
