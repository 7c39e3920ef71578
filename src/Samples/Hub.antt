-- ===== src/Samples/Hub.antt =====
-- A submission to a hub over TLS, on a network where every step succeeds.
use zero_shim.Prelude.{◌≡◌, refl, ◌↔◌, true, none, some, [], ◌∷◌, All, ok, err}
use zero_shim.Text.{Text, text}
use zero_shim.Tls.{BackendTls, dns_name, alpn_http11}
use zero_shim.Http.{Request}
use zero_shim.Hub.{post}
use zero_shim.Hub.Attempt.{HubClient, HubNetwork, Arrival, whole, exchange}
use zero_shim.Hub.Attempt.Privacy.{IsWhole, IsBeginning, IsUnwritten, exchange_private}

abbrev hub_tls : BackendTls
hub_tls = record { alpn_protocols = alpn_http11 ∷ []; server_name = dns_name (text "hub") }

abbrev client : HubClient
client = record { addr = text "1.2.3.4:443"; tls = some hub_tls; authority = text "hub" }

abbrev arrival : Arrival
arrival = record { status = 200; headers = []; body = some (text "{}") }

abbrev network : HubNetwork
network = record {
  tcp = λ addr. ok tt;
  set_nodelay = ok tt;
  builder = λ a. ok tt;
  tls_connect = λ tls. ok tt;
  handshake = λ encrypted. ok tt;
  send_request = λ encrypted req. ok arrival;
  deadline = none;
}

abbrev request : Request
request = post (text "hub") (text "/") (1 ∷ 2 ∷ [])

exchange_private_example :
    (((exchange network client (text "late") request).1 ≡ ok (whole arrival (text "{}"))) ↔ (
      (network.deadline ≡ none)
      × (network.tcp client.addr ≡ ok tt)
      × (network.set_nodelay ≡ ok tt)
      × (network.builder client.authority ≡ ok tt)
      × (network.tls_connect hub_tls ≡ ok tt)
      × (network.handshake true ≡ ok tt)
      × IsWhole (network.send_request true request) (whole arrival (text "{}"))))
    × IsBeginning client hub_tls request (exchange network client (text "late") request).0
    × ((e : Text)
        → network.tls_connect hub_tls ≡ err e
        → All IsUnwritten (exchange network client (text "late") request).0)
exchange_private_example =
    exchange_private network client (text "late") request hub_tls (whole arrival (text "{}")) refl
