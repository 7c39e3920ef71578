-- ===== src/Startup/Samples.antt =====
-- The theorems on the start and on the hop to the indexer at one configuration.
use zero_shim.Prelude.{
  ◌≡◌, refl, ◌≢◌, ◌↔◌, true, false, none, some, List, [], ◌∷◌, ◌++◌, arith, ok, err, All,
}
use zero_shim.Text.{Text, text}
use zero_shim.Config.{hub_selection, is_nym_address, HubSelection}
use zero_shim.Tls.{
  dns_name, Names, BackendTls, alpn_h2, Hop, dialled, authenticated, preface, Network, connect,
  authority,
}
use zero_shim.Tls.Handshakes.{IsBeforePreface, connect_exact}
use zero_shim.Supervisor.{Supervisor, woke, every, run, RotationPolicy}
use zero_shim.Startup.{
  Settings, Environment, Warning, plaintext_wallets, multiple_hubs, Mixnet, mixnet, Plan, start,
}
use zero_shim.Startup.Hops.{Honours, start-Honours, start_diverts}
use zero_shim.Startup.Rotation.{rotation_spares_lookups}

abbrev indexer_name : Text
indexer_name = text "lwd.example"

abbrev names : Names
names = record { try_from = λ name. some (dns_name name); debug = λ name. name }

abbrev environment : Environment
environment = record {
  names = names;
  port = λ addr. 443;
  bind = λ addr. ok addr;
  mixnet_driver = true;
  mixnet_localnet = false;
  parse_recipient = λ addr. ok addr;
}

abbrev first_hub : Text
first_hub = text "id.enc@gw1"

abbrev second_hub : Text
second_hub = text "id.enc@gw2"

abbrev settings : Settings
settings = record {
  listen = text "0.0.0.0:9067";
  backend = text "192.0.2.1:443";
  backend_tls = some indexer_name;
  hubs = record { hub = none; hub_nym = first_hub ∷ second_hub ∷ []; require_diversion = true };
  hub_tls = none;
  nym_rotation_secs = some 3600;
  nym_topology = none;
  nym_gateway = [];
  lookup_timeout_secs = some 120;
  diag = false;
  tls_domain = none;
  tls_email = none;
  tls_production = false;
  caution_attestation = true;
  caution_bootproofd_addr = text "127.0.0.1:8083";
}

abbrev indexer_tls : BackendTls
indexer_tls = record { alpn_protocols = alpn_h2 ∷ []; server_name = dns_name indexer_name }

abbrev rotation : RotationPolicy
rotation = record (every 3600000) { defer_limit = 120000 }

abbrev tasks : Mixnet
tasks = record {
  recipients = first_hub ∷ second_hub ∷ [];
  topology = none;
  gateways = [];
  lookup_timeout = 120000;
  rotation = rotation;
}

abbrev plan : Plan
plan = record {
  listener = text "0.0.0.0:9067";
  backend = record { addr = text "192.0.2.1:443"; port = 443; tls = some indexer_tls };
  server_tls = none;
  diversion = some (mixnet tasks);
  caution = record { enabled = true; bootproofd_addr = text "127.0.0.1:8083" };
  diag = false;
}

abbrev warnings : List Warning
warnings = plaintext_wallets ∷ multiple_hubs 2 ∷ []

starts : start environment settings ≡ (warnings, ok plan)
unfolding start hub_selection is_nym_address
starts = refl

start-Honours_example :
    (s : HubSelection) × (hub_selection settings.hubs ≡ ok s)
    × Honours environment settings s warnings plan
start-Honours_example = start-Honours environment settings warnings plan starts

start_diverts_example : plan.diversion ≢ none
start_diverts_example = start_diverts environment settings warnings plan starts refl

abbrev running : Supervisor
running = record { rotate_at = some 3600000; defer_deadline = none; returned = false }

-- A lookup sent a second before the rotation is due.
rotation_spares_lookups_example :
    (run rotation (woke true 3600000 1 ∷ woke true 3600250 1 ∷ woke true 3718000 2 ∷ []) running).1
    ≡ []
rotation_spares_lookups_example =
    rotation_spares_lookups environment settings warnings plan tasks 3600 running 3599000 3600000 1
      true (woke true 3600250 1 ∷ woke true 3718000 2 ∷ []) starts refl refl refl refl (omega arith)
      (omega arith) (omega arith)

abbrev network : Network
network = record {
  tcp = λ addr. ok tt;
  set_nodelay = ok tt;
  tls_connect = λ tls. err (text "certificate expired");
  h2_handshake = λ encrypted. ok tt;
  parse_authority = λ a. ok a;
}

connect_exact_example :
    (((connect network plan.backend).1 ≡ ok indexer_name) ↔ (
      (network.tcp plan.backend.addr ≡ ok tt)
      × (network.set_nodelay ≡ ok tt)
      × (network.tls_connect indexer_tls ≡ ok tt)
      × (network.h2_handshake true ≡ ok tt)
      × (network.parse_authority (authority indexer_tls plan.backend.port) ≡ ok indexer_name)))
    × ((rest : List Hop) × ((connect network plan.backend).0 ++ rest
          ≡ dialled plan.backend.addr
            ∷ authenticated indexer_tls.alpn_protocols indexer_tls.server_name
            ∷ preface true
            ∷ []))
    × ((e : Text)
        → network.tls_connect indexer_tls ≡ err e
        → All IsBeforePreface (connect network plan.backend).0)
connect_exact_example = connect_exact network plan.backend indexer_tls indexer_name refl
