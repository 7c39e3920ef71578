-- ===== src/Hub/Attempt.antt =====
-- One attempt of the clearnet client (`HubClient::submit`, `HubClient::get_transaction` and
-- `round_trip` of zeronym/shim/src/hub.rs): the dial, TLS, the exchange with its limit, and the
-- deadline. The network is an argument: the outcome of each step, and how far the attempt is when
-- its deadline passes, if it does.
pub mod Privacy
use zero_shim.Prelude.{
  ℕ, ◌*◌, Bool, true, false, Option, none, some, List, [], ◌∷◌, ◌++◌, ltb, if◌then◌else◌, Result,
  ok, err, length, take,
}
use zero_shim.Bytes.{Bytes}
use zero_shim.Text.{Text, text}
use zero_shim.Tls.{ServerName, BackendTls}
use zero_shim.Http.{Headers, Request}
use zero_shim.Hub.{HubReply, HubWorld, HubResponse}

abbrev pub max_hub_response_bytes : ℕ
max_hub_response_bytes = 4 * 1024 * 1024

-- `HubClient`
pub record HubClient : Type 0 where
  pub addr : Text
  pub tls : Option BackendTls
  pub authority : Text

-- What an attempt does on the network.
pub data Hop : Type 0 where
  dialled : (addr : Text) → Hop
  authenticated : (alpn : List Text) (name : ServerName) → Hop
  wrote : (encrypted : Bool) → Request → Hop

-- The head of a response, with its body, or none if the stream breaks off.
pub record Arrival : Type 0 where
  pub status : ℕ
  pub headers : Headers
  pub body : Option Bytes

pub record HubNetwork : Type 0 where
  pub tcp : Text → Result Text (Unit {0})
  pub set_nodelay : Result Text (Unit {0})
  -- whether the authority is the value of a header
  pub builder : Text → Result Text (Unit {0})
  pub tls_connect : BackendTls → Result Text (Unit {0})
  pub handshake : Bool → Result Text (Unit {0})
  pub send_request : Bool → Request → Result Text Arrival
  -- the steps on the network before the deadline, if it passes
  pub deadline : Option ℕ

abbrev Outcome : Type 0
Outcome = List Hop × Result Text HubReply

infixl 5 ◌>>◌
-- `?` after a step that has been taken.
abbrev ◌>>◌ : List Hop × Result Text (Unit {0}) → Outcome → Outcome
(hops, ok done) >> (rest, r) = (hops ++ rest, r)
(hops, err e) >> k = (hops, err e)

abbrev pub whole : Arrival → Bytes → HubReply
whole a body = record { status = a.status; headers = a.headers; body = body }

limited : Arrival → Option Bytes → Result Text HubReply
limited a none = err (text "hub response exceeded the size limit")
limited a (some body) =
    if ltb max_hub_response_bytes (length body)
    then err (text "hub response exceeded the size limit")
    else ok (whole a body)

arrived : Result Text Arrival → Result Text HubReply
unfolding limited
arrived (err e) = err e
arrived (ok a) = limited a a.body

round_trip : HubNetwork → Bool → Request → Outcome
unfolding arrived
round_trip w encrypted req = do
  ([], w.handshake encrypted)
  (wrote encrypted req ∷ [], arrived (w.send_request encrypted req))

over : HubNetwork → Option BackendTls → Request → Outcome
unfolding round_trip
over w (some tls) req = do
  (authenticated tls.alpn_protocols tls.server_name ∷ [], w.tls_connect tls)
  round_trip w true req
over w none req = round_trip w false req

-- `attempt`
attempt : HubNetwork → HubClient → Request → Outcome
unfolding over
attempt w c req = do
  (dialled c.addr ∷ [], w.tcp c.addr)
  ([], w.set_nodelay)
  ([], w.builder c.authority)
  over w c.tls req

-- `tokio::time::timeout`, with the text for a deadline that passes
bounded : Text → Option ℕ → Outcome → Outcome
bounded late none o = o
bounded late (some steps) o = (take steps o.0, err late)

pub exchange : HubNetwork → HubClient → (late : Text) → Request → Outcome
unfolding attempt bounded
exchange w c late req = bounded late w.deadline (attempt w c req)

-- The client on a network, for one of its calls.
pub on_network :
    HubNetwork
    → HubClient
    → (late : Text) → (Bytes → Result Text HubResponse)
    → (Bytes → Option Text)
    → HubWorld
unfolding exchange
on_network w c late from_slice to_str = record {
  exchange = λ req. (exchange w c late req).1;
  from_slice = from_slice;
  to_str = to_str;
}
