-- ===== src/Startup/Transport.antt =====
-- The transport that the shim is started with (`main`, `nym_diversion` and `build_nym_transport` of
-- zeronym/shim/src/main.rs).
use zero_shim.Prelude.{
  ◌≡◌, refl, Bool, true, false, Option, none, some, List, [], ◌∷◌, append-nil, ltb, if◌then◌else◌,
  Result, ok, err, length,
}
use zero_shim.Text.{Text}
use zero_shim.Config.{HubSelection, forward_only, http, nym}
use zero_shim.Tls.{BackendTls, alpn_http11, new_http1, authority_of}
use zero_shim.Tls.Handshakes.{new_http1-Offers}
use zero_shim.Startup.{
  Settings, Environment, Warning, plaintext_hub, no_diversion, multiple_hubs, Diversion, clearnet,
  mixnet, tls_if, is_none, recipients, built, topology, lookup_timeout, rotation,
  build_nym_transport, nym_diversion, hub_client, divert, ◌>>=◌, quietly, warn_if,
}
use zero_shim.Startup.Parts.{
  Verifies, AreParsed, Budgets, Rotates, lookup_timeout-Budgets, rotation-Rotates, Ensures, IfOk,
  tls_if-Verifies, recipients-AreParsed, length-AreParsed, topology-same,
}

-- The diversion that carries out a selection.
abbrev pub CarriesOut : Environment → Settings → HubSelection → Option Diversion → Type 0
CarriesOut w c forward_only none = Unit {0}
CarriesOut w c (http addr) (some (clearnet h)) =
    (h.addr ≡ addr)
    × Verifies w.names alpn_http11 c.hub_tls h.tls
    × (h.authority ≡ authority_of h.tls addr (w.port addr))
CarriesOut w c (nym as') (some (mixnet m)) =
    (w.mixnet_driver ≡ true)
    × AreParsed w as' m.recipients
    × (m.topology ≡ c.nym_topology)
    × (m.gateways ≡ c.nym_gateway)
    × Budgets c.lookup_timeout_secs m.lookup_timeout
    × Rotates m.lookup_timeout c.nym_rotation_secs m.rotation
CarriesOut w c _ _ = ⊥

-- The warnings that a diversion gives reason for.
abbrev pub hub_warnings : Option Diversion → List Warning
hub_warnings none = no_diversion ∷ []
hub_warnings (some (clearnet h)) = if is_none h.tls then plaintext_hub ∷ [] else []
hub_warnings (some (mixnet m)) =
    if ltb 1 (length m.recipients) then multiple_hubs (length m.recipients) ∷ [] else []

module _ (w : Environment) (c : Settings) where
  -- A diversion that carries out the selection, with the warnings that it gives reason for.
  abbrev pub Diverts : HubSelection → List Warning → Option Diversion → Type 0
  Diverts s ws d = CarriesOut w c s d × (ws ≡ hub_warnings d)

  clearnet-Diverts :
      (addr : Text) (t : Result Text (Option BackendTls))
      → IfOk (Verifies w.names alpn_http11 c.hub_tls) t
      → Ensures (Diverts (http addr)) (do
        tls ← quietly t
        done ← warn_if (is_none tls) plaintext_hub
        quietly (ok (some (clearnet (hub_client w addr tls)))))
  unfolding hub_client
  clearnet-Diverts addr (err e) h = tt
  clearnet-Diverts addr (ok none) h = ((refl, h, refl), refl)
  clearnet-Diverts addr (ok (some tls)) h = ((refl, h, refl), refl)

  built-Diverts :
      (b : Bool) (as' : List Text)
      → w.mixnet_driver ≡ b
      → Ensures
          (Diverts (nym as'))
          (do done ← warn_if (ltb 1 (length as')) (multiple_hubs (length as')); built b w c as')
  unfolding built build_nym_transport
  built-Diverts false as' e = tt
  built-Diverts true as' e =
      by (recipients w as') (topology w c.nym_topology) (recipients-AreParsed w as')
        (topology-same w c.nym_topology)
    where
      by :
          (rs : Result Text (List Text)) (network : Result Text (Option Text))
          → IfOk (AreParsed w as') rs
          → IfOk (λ t. t ≡ c.nym_topology) network
          → Ensures (Diverts (nym as')) (do
            done ← warn_if (ltb 1 (length as')) (multiple_hubs (length as'))
            m ← (do
              rs ← quietly rs
              network ← quietly network
              quietly (
                  ok (record {
                    recipients = rs;
                    topology = network;
                    gateways = c.nym_gateway;
                    lookup_timeout = lookup_timeout c.lookup_timeout_secs;
                    rotation = rotation (lookup_timeout c.lookup_timeout_secs) c.nym_rotation_secs;
                  })))
            quietly (ok (some (mixnet m))))
      by (err x) network h t = tt
      by (ok rs) (err x) h t = tt
      by (ok rs) (ok network) h t = (
        (
          e,
          h,
          t,
          refl,
          lookup_timeout-Budgets c.lookup_timeout_secs,
          rotation-Rotates (lookup_timeout c.lookup_timeout_secs) c.nym_rotation_secs,
        ),
        rw (length-AreParsed w as' rs h) (append-nil _),
      )

  pub divert-Diverts : (s : HubSelection) → Ensures (Diverts s) (divert w c s)
  unfolding divert nym_diversion
  divert-Diverts forward_only = (tt, refl)
  divert-Diverts (http addr) =
      clearnet-Diverts addr (tls_if (new_http1 w.names) c.hub_tls) (
        tls_if-Verifies w.names alpn_http11 (new_http1 w.names) c.hub_tls
          (new_http1-Offers w.names))
  divert-Diverts (nym as') = built-Diverts w.mixnet_driver as' refl
