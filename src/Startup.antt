-- ===== src/Startup.antt =====
-- What the shim becomes of its configuration: `main`, `nym_diversion` and `build_nym_transport` of
-- zeronym/shim/src/main.rs, `HubClient::new` of hub.rs and the `Display` of `ConfigError` of
-- config.rs. The features of the build, the listener's socket, the TLS names and the SDK's
-- addresses are arguments. Durations are milliseconds. The start returns the warnings that it
-- logged on the way.
pub mod Parts
pub mod Transport
pub mod Hops
pub mod Rotation
pub mod Samples
use zero_shim.Prelude.{
  ℕ, ◌*◌, Bool, true, false, not, Option, none, some, List, [], ◌∷◌, ◌++◌, ltb, if◌then◌else◌,
  Result, ok, err, length,
}
use zero_shim.Text.{Text, text, decimal}
use zero_shim.Config.{
  HubSelection, forward_only, http, nym, ConfigError, both_transports, diversion_required,
  malformed_nym_address, duplicate_nym_address, hub_selection,
}
use zero_shim.Config
use zero_shim.Hub.Attempt.{HubClient}
use zero_shim.Tls.{Names, BackendTls, Backend, new, new_http1, authority_of}
use zero_shim.Handle.{CautionRelay}
use zero_shim.Supervisor.{RotationPolicy, request_timeout, never, every}

-- The command line; `hubs` has the fields that `hub_selection` reads.
pub record Settings : Type 0 where
  pub listen : Text
  pub backend : Text
  pub backend_tls : Option Text
  pub hubs : Config.Config
  pub hub_tls : Option Text
  pub nym_rotation_secs : Option ℕ
  pub nym_topology : Option Text
  pub nym_gateway : List Text
  pub lookup_timeout_secs : Option ℕ
  pub diag : Bool
  pub tls_domain : Option Text
  pub tls_email : Option Text
  pub tls_production : Bool
  pub caution_attestation : Bool
  pub caution_bootproofd_addr : Text

-- `SocketAddr::port`, `TcpListener::bind` and the two features with the SDK's parser.
pub record Environment : Type 0 where
  pub names : Names
  pub port : Text → ℕ
  pub bind : Text → Result Text Text
  pub mixnet_driver : Bool
  pub mixnet_localnet : Bool
  pub parse_recipient : Text → Result Text Text

pub data Warning : Type 0 where
  plaintext_wallets plaintext_backend diag_open plaintext_hub no_diversion relay_disabled : Warning
  multiple_hubs : (hubs : ℕ) → Warning

-- What the mixnet tasks are started with.
pub record Mixnet : Type 0 where
  pub recipients : List Text
  pub topology : Option Text
  pub gateways : List Text
  pub lookup_timeout : ℕ
  pub rotation : RotationPolicy

pub data Diversion : Type 0 where
  clearnet : HubClient → Diversion
  mixnet : Mixnet → Diversion

-- `ServerTls::start`, by its domain, its contact and the directory that it orders from.
pub record Acme : Type 0 where
  pub domain : Text
  pub contact_email : Option Text
  pub production : Bool

-- The arguments of `serve_with_shutdown`.
pub record Plan : Type 0 where
  pub listener : Text
  pub backend : Backend
  pub server_tls : Option Acme
  pub diversion : Option Diversion
  pub caution : CautionRelay
  pub diag : Bool

-- The `Display` of `ConfigError`
config_message : ConfigError → Text
config_message both_transports =
    text "--hub and --hub-nym are mutually exclusive: set exactly one transport"
config_message (malformed_nym_address addr) =
    text "--hub-nym entry is not a Nym address of the form identity.encryption@gateway: " ++ addr
config_message (duplicate_nym_address addr) =
    text "--hub-nym lists the same address twice: " ++ addr
config_message diversion_required =
    text "--require-diversion is set but no hub transport is configured: this shim "
    ++ (text "would forward every migration to the operator's indexer while appearing "
        ++ (text "healthy. Set --hub (clearnet) or --hub-nym (mixnet), or drop "
            ++ text "--require-diversion to run deliberately in forward-only mode."))

infixl 5 ◌>>=◌
-- `?` on a result, with the warnings so far.
abbrev ◌>>=◌ :
    {A B : Type 0}
    → List Warning × Result Text A
    → (A → List Warning × Result Text B)
    → List Warning × Result Text B
(ws, ok a) >>= f = let rest = f a in (ws ++ rest.0, rest.1)
(ws, err e) >>= f = (ws, err e)

abbrev quietly : {A : Type 0} → Result Text A → List Warning × Result Text A
quietly r = ([], r)

abbrev warn_if : Bool → Warning → List Warning × Result Text (Unit {0})
warn_if b w = (if b then w ∷ [] else [], ok tt)

-- A TLS name, if one is set.
set : Result Text BackendTls → Result Text (Option BackendTls)
set (ok tls) = ok (some tls)
set (err e) = err e

pub tls_if : (Text → Result Text BackendTls) → Option Text → Result Text (Option BackendTls)
unfolding set
tls_if make none = ok none
tls_if make (some name) = set (make name)

abbrev pub is_none {ℓ} : {A : Type ℓ} → Option A → Bool
is_none none = true
is_none (some a) = false

-- `addresses.iter().map(parse_address).collect()`
collected :
    Environment → Text → Result Text Text → Result Text (List Text) → Result Text (List Text)
collected w a (err e) rest =
    err (text "invalid hub Nym address " ++ (w.names.debug a ++ (text ": " ++ e)))
collected w a (ok r) (err e) = err e
collected w a (ok r) (ok rs) = ok (r ∷ rs)

pub recipients : Environment → List Text → Result Text (List Text)
unfolding collected
recipients w [] = ok []
recipients w (a ∷ as') = let rest = recipients w as' in collected w a (w.parse_recipient a) rest

pub topology : Environment → Option Text → Result Text (Option Text)
topology w none = ok none
topology w (some path) =
    if w.mixnet_localnet
    then ok (some path)
    else err (text "--nym-topology requires a build with the mixnet-localnet feature")

abbrev seconds : ℕ → ℕ
seconds n = n * 1000

pub lookup_timeout : Option ℕ → ℕ
lookup_timeout none = request_timeout
lookup_timeout (some secs) = seconds secs

pub rotation : ℕ → Option ℕ → RotationPolicy
rotation lookup_timeout none = never
rotation lookup_timeout (some secs) = record (every (seconds secs)) { defer_limit = lookup_timeout }

-- `build_nym_transport`
build_nym_transport : Environment → Settings → List Text → List Warning × Result Text Mixnet
unfolding recipients topology lookup_timeout rotation
build_nym_transport w c addresses = do
  rs ← quietly (recipients w addresses)
  network ← quietly (topology w c.nym_topology)
  let budget = lookup_timeout c.lookup_timeout_secs
  quietly (
      ok (record {
        recipients = rs;
        topology = network;
        gateways = c.nym_gateway;
        lookup_timeout = budget;
        rotation = rotation budget c.nym_rotation_secs;
      }))

-- The two versions of `nym_diversion`, with the feature and without it
built : Bool → Environment → Settings → List Text → List Warning × Result Text (Option Diversion)
unfolding build_nym_transport
built true w c addresses = do m ← build_nym_transport w c addresses; quietly (ok (some (mixnet m)))
built false w c addresses = quietly (
    err (
      text "--hub-nym is set ("
      ++ (decimal (length addresses)
          ++ (text " address(es)) but this binary was built WITHOUT the mixnet-driver "
              ++ (text "feature; rebuild with --features mixnet-driver, or use --hub for the "
                  ++ text "transitional clearnet path")))))

nym_diversion : Environment → Settings → List Text → List Warning × Result Text (Option Diversion)
unfolding built
nym_diversion w c addresses = built w.mixnet_driver w c addresses

-- `HubClient::new`
hub_client : Environment → Text → Option BackendTls → HubClient
unfolding authority_of
hub_client w addr tls = record {
  addr = addr;
  tls = tls;
  authority = authority_of tls addr (w.port addr);
}

-- The `match selection`, with the warning on several hubs before it.
pub divert : Environment → Settings → HubSelection → List Warning × Result Text (Option Diversion)
unfolding nym_diversion hub_client tls_if new_http1
divert w c (http addr) = do
  tls ← quietly (tls_if (new_http1 w.names) c.hub_tls)
  done ← warn_if (is_none tls) plaintext_hub
  quietly (ok (some (clearnet (hub_client w addr tls))))
divert w c (nym addresses) = do
  done ← warn_if (ltb 1 (length addresses)) (multiple_hubs (length addresses))
  nym_diversion w c addresses
divert w c forward_only = (no_diversion ∷ [], ok none)

selection : Result ConfigError HubSelection → Result Text HubSelection
unfolding config_message
selection (ok s) = ok s
selection (err e) = err (config_message e)

pub server_tls : Option Text → Option Text → Bool → Option Acme
server_tls none email production = none
server_tls (some domain) email production =
    some (record { domain = domain; contact_email = email; production = production })

-- `main`, up to the call of `serve_with_shutdown`
pub start : Environment → Settings → List Warning × Result Text Plan
unfolding tls_if new selection divert server_tls
start w c = do
  backend_tls ← quietly (tls_if (new w.names) c.backend_tls)
  listener ← quietly (w.bind c.listen)
  a ← warn_if (is_none c.tls_domain) plaintext_wallets
  b ← warn_if (is_none backend_tls) plaintext_backend
  d ← warn_if c.diag diag_open
  chosen ← quietly (selection (hub_selection c.hubs))
  diversion ← divert w c chosen
  e ← warn_if (not c.caution_attestation) relay_disabled
  quietly (
      ok (record {
        listener = listener;
        backend = record { addr = c.backend; port = w.port c.backend; tls = backend_tls };
        server_tls = server_tls c.tls_domain c.tls_email c.tls_production;
        diversion = diversion;
        caution = record {
          enabled = c.caution_attestation;
          bootproofd_addr = c.caution_bootproofd_addr;
        };
        diag = c.diag;
      }))
