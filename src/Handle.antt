-- ===== src/Handle.antt =====
-- One request from a wallet: `handle` of zeronym/shim/src/proxy.rs, and the replies that the shim
-- gives itself. Where bootproofd is asked, its answer is an argument.
pub mod Boundary
pub mod Endpoints
use zero_shim.Prelude.{
  ℕ, Bool, not, Option, none, List, [], ◌∷◌, ◌++◌, if◌then◌else◌, Result, ok, err,
}
use zero_shim.Text.{Text, text}
use zero_shim.External.{Zebra, Proto}
use zero_shim.Http.{
  Request, Response, HeaderValue, remove, insert, strip_client_address_headers, grpc_error,
  grpc_unavailable,
}
use zero_shim.Route.{Route, route_for}
use zero_shim.Hub.{HubTransport}
use zero_shim.Forward.{Contact, to_bootproofd, Operator, Outcome, pass_through}
use zero_shim.Intercept
use zero_shim.Intercept.{BodyRead, send_transaction}
use zero_shim.Status.{MixnetStatus, is_healthy, to_json, diag_json}

pub record CautionRelay : Type 0 where
  pub enabled : Bool
  pub bootproofd_addr : Text

pub text_response : ℕ → Text → Response
text_response status body = record {
  status = status;
  headers = insert [] (text "content-type") (text "text/plain; charset=utf-8");
  body = body;
  trailers = none;
}

pub json_response : Text → Response
json_response body = record {
  status = 200;
  headers = insert [] (text "content-type") (text "application/json");
  body = body;
  trailers = none;
}

pub caution_health_ok : Response
caution_health_ok = record { status = 200; headers = []; body = []; trailers = none }

-- The request as it goes to bootproofd: no authority, its address for the host.
bootproofd_request : Text → Request → Request
bootproofd_request addr req = record req {
  path = elim req.path [ [] ↦ text "/attestation" | c ∷ s ↦ c ∷ s ];
  authority = none;
  headers =
      insert (strip_client_address_headers (remove req.headers (text "host"))) (text "host") addr;
}

-- `forward_to_bootproofd`
pub forward_to_bootproofd : (Request → Result Text Response) → Text → Request → Outcome
unfolding bootproofd_request
forward_to_bootproofd bootproofd addr req =
    let sent = bootproofd_request addr req in (to_bootproofd sent ∷ [], bootproofd sent)

-- Everything around the handler: the libraries, the hub if one is configured, the other parties,
-- the relay's switch, the client's status and the clock.
pub record Shim : Type 1 where
  pub zebra : Zebra
  pub proto : Proto
  pub from_str : HeaderValue
  pub diversion : Option HubTransport
  pub operator : Operator
  pub bootproofd : Request → Result Text Response
  pub caution : CautionRelay
  pub status : MixnetStatus
  pub now : ℕ

-- The `match route_for(&path)`.
dispatch : Shim → Route → Request → BodyRead → Outcome
dispatch s Route.caution_health req read =
    if s.caution.enabled then ([], ok caution_health_ok) else pass_through s.operator req
dispatch s Route.caution_attestation req read =
    if s.caution.enabled
    then forward_to_bootproofd s.bootproofd s.caution.bootproofd_addr req
    else pass_through s.operator req
dispatch s Route.shim_health req read = (
  [],
  ok (
      if is_healthy s.status
      then text_response 200 (text "ok")
      else text_response 503 (text "mixnet client not connected")),
)
dispatch s Route.shim_nym_status req read = ([], ok (json_response (to_json s.status)))
dispatch s Route.shim_nym_diag req read =
    if s.status.diag_enabled
    then ([], ok (json_response (diag_json s.now s.status)))
    else pass_through s.operator req
dispatch s Route.pass_through req read = pass_through s.operator req
dispatch s Route.get_transaction req read =
    Intercept.get_transaction s.zebra s.proto s.from_str s.operator s.diversion req read
dispatch s Route.intercept req read =
    send_transaction s.zebra s.proto s.from_str s.operator s.diversion req read
dispatch s Route.intercept_near_miss req read =
    send_transaction s.zebra s.proto s.from_str s.operator s.diversion req read

-- An internal failure becomes a gRPC status.
settled : HeaderValue → Result Text Response → Response
settled from_str (ok resp) = resp
settled from_str (err e) = grpc_error from_str grpc_unavailable (text "zero-indexer-shim: " ++ e)

-- `handle`: who was contacted, and the response to the wallet.
pub handle : Shim → Request → BodyRead → List Contact × Response
unfolding dispatch settled
handle s req read =
    let done = dispatch s (route_for req.path) req read in (done.0, settled s.from_str done.1)
