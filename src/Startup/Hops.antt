-- ===== src/Startup/Hops.antt =====
-- The hops that the shim is started with (`main` of zeronym/shim/src/main.rs).
use zero_shim.Prelude.{
  ◌≡◌, refl, ap, ◌∙◌, ◌≢◌, Bool, true, false, not, Option, none, some, List, [], ◌∷◌, ◌++◌, arith,
  if◌then◌else◌, Result, ok, err,
}
use zero_shim.Text.{Text}
use zero_shim.Config.{HubSelection, forward_only, http, nym, ConfigError, hub_selection}
use zero_shim.Config.Selection.{hub_selection_exact}
use zero_shim.Tls.{BackendTls, alpn_h2, new}
use zero_shim.Tls.Handshakes.{new-Offers}
use zero_shim.Startup.{
  Settings, Environment, Warning, plaintext_wallets, plaintext_backend, diag_open, relay_disabled,
  Diversion, Plan, tls_if, is_none, divert, selection, server_tls, start, ◌>>=◌, quietly, warn_if,
}
use zero_shim.Startup.Parts.{
  Verifies, Serves, server_tls-Serves, server_tls-none, Ensures, IfOk, tls_if-Verifies,
}
use zero_shim.Startup.Transport.{CarriesOut, hub_warnings, Diverts, divert-Diverts}

-- The warnings that the arguments of `serve_with_shutdown` give reason for.
abbrev pub warnings_of : Plan → List Warning
warnings_of p =
    (if is_none p.server_tls then plaintext_wallets ∷ [] else [])
    ++ ((if is_none p.backend.tls then plaintext_backend ∷ [] else [])
        ++ ((if p.diag then diag_open ∷ [] else [])
            ++ (hub_warnings p.diversion
                ++ (if p.caution.enabled then [] else relay_disabled ∷ []))))

relay :
    (b : Bool)
    → (if not b then relay_disabled ∷ [] else []) ++ [] ≡ (if b then [] else relay_disabled ∷ [])
relay true = refl
relay false = refl

module _ (w : Environment) (c : Settings) where
  -- What is promised of the arguments of `serve_with_shutdown`, and of the warnings.
  abbrev pub Honours : HubSelection → List Warning → Plan → Type 0
  Honours s ws p =
      (w.bind c.listen ≡ ok p.listener)
      × (p.backend.addr ≡ c.backend)
      × (p.backend.port ≡ w.port c.backend)
      × Verifies w.names alpn_h2 c.backend_tls p.backend.tls
      × Serves c.tls_domain c.tls_email c.tls_production p.server_tls
      × CarriesOut w c s p.diversion
      × (p.caution.enabled ≡ c.caution_attestation)
      × (p.caution.bootproofd_addr ≡ c.caution_bootproofd_addr)
      × (p.diag ≡ c.diag)
      × (ws ≡ warnings_of p)

  abbrev Starts : List Warning → Plan → Type 0
  Starts ws p = (s : HubSelection) × (hub_selection c.hubs ≡ ok s) × Honours s ws p

  start-Starts :
      (t : Result Text (Option BackendTls)) (l : Result Text Text)
      (s : Result ConfigError HubSelection)
      → IfOk (Verifies w.names alpn_h2 c.backend_tls) t
      → w.bind c.listen ≡ l
      → hub_selection c.hubs ≡ s
      → Ensures Starts (do
        backend_tls ← quietly t
        listener ← quietly l
        a ← warn_if (is_none c.tls_domain) plaintext_wallets
        b ← warn_if (is_none backend_tls) plaintext_backend
        d ← warn_if c.diag diag_open
        chosen ← quietly (selection s)
        diversion ← divert w c chosen
        e ← warn_if (not c.caution_attestation) relay_disabled
        quietly (
            ok (record {
              listener = listener;
              backend = record { addr = c.backend; port = w.port c.backend; tls = backend_tls };
              server_tls = server_tls c.tls_domain c.tls_email c.tls_production;
              diversion = diversion;
              caution = record {
                enabled = c.caution_attestation;
                bootproofd_addr = c.caution_bootproofd_addr;
              };
              diag = c.diag;
            })))
  unfolding selection
  start-Starts (err x) l s h el es = tt
  start-Starts (ok tls) (err x) s h el es = tt
  start-Starts (ok tls) (ok listener) (err x) h el es = tt
  start-Starts (ok tls) (ok listener) (ok s) h el es = by (divert w c s) (divert-Diverts w c s)
    where
      by :
          (r : List Warning × Result Text (Option Diversion))
          → Ensures (Diverts w c s) r
          → Ensures Starts (do
            a ← warn_if (is_none c.tls_domain) plaintext_wallets
            b ← warn_if (is_none tls) plaintext_backend
            d ← warn_if c.diag diag_open
            diversion ← r
            e ← warn_if (not c.caution_attestation) relay_disabled
            quietly (
                ok (record {
                  listener = listener;
                  backend = record { addr = c.backend; port = w.port c.backend; tls = tls };
                  server_tls = server_tls c.tls_domain c.tls_email c.tls_production;
                  diversion = diversion;
                  caution = record {
                    enabled = c.caution_attestation;
                    bootproofd_addr = c.caution_bootproofd_addr;
                  };
                  diag = c.diag;
                })))
      by (ws, err x) g = tt
      by (ws, ok d) g =
          let plain : List Warning = if is_none c.tls_domain then plaintext_wallets ∷ [] else [] in
          let hop : List Warning = if is_none tls then plaintext_backend ∷ [] else [] in
          let open_diag : List Warning = if c.diag then diag_open ∷ [] else [] in
          (
            s,
            es,
            (
              el,
              refl,
              refl,
              h,
              server_tls-Serves c.tls_domain c.tls_email c.tls_production,
              g.0,
              refl,
              refl,
              refl,
              rw (server_tls-none c.tls_domain c.tls_email c.tls_production, g.1)
                  (ap (λ l. plain ++ (hop ++ (open_diag ++ (hub_warnings d ++ l))))
                    (relay c.caution_attestation)),
            ),
          )

Ensures-eq :
    {A : Type 0} (P : List Warning → A → Type 0) (r : List Warning × Result Text A)
    (ws : List Warning) (a : A)
    → Ensures P r
    → r ≡ (ws, ok a)
    → P ws a
Ensures-eq P (vs, err e) ws a h q = absurd (ground arith)
Ensures-eq P (vs, ok b) ws a h q =
    let e : vs ≡ ws = ap (λ x. x.0) q in
    let f : b ≡ a = ground arith in coe 0 1 (i. P (e i) (f i)) h

-- If the shim starts, it listens where it was told to, with the indexer at the configured address
-- and its port. The hop to the indexer, and that to a clearnet hub, is in the clear exactly if no
-- name is set for it; else its certificate is checked against that name, and h2 alone, or http/1.1
-- alone, is offered. Wallets are served with TLS exactly if a domain is set, for that domain, with
-- the configured contact and from the configured directory. The relay for Caution and /nym-diag are
-- on exactly as configured, and the relay has the configured address. The diversion is the one that
-- the transport options select: none, the clearnet hub under its authority, or the mixnet with all
-- the addresses, as the SDK reads them, the topology and the gateways, the budget of a lookup, and
-- a rotation that is deferred by that budget. And the warnings logged are exactly those that what
-- runs gives reason for: of each plaintext hop, an open /nym-diag, several hubs, no diversion, and
-- a disabled relay.
pub start-Honours :
    (w : Environment) (c : Settings) (ws : List Warning) (p : Plan)
    → start w c ≡ (ws, ok p)
    → (s : HubSelection) × (hub_selection c.hubs ≡ ok s) × Honours w c s ws p
unfolding start
start-Honours w c ws p h =
    Ensures-eq (Starts w c) _ ws p
      (start-Starts w c (tls_if (new w.names) c.backend_tls) (w.bind c.listen)
        (hub_selection c.hubs)
        (tls_if-Verifies w.names alpn_h2 (new w.names) c.backend_tls (new-Offers w.names)) refl
        refl)
      h

carried :
    (w : Environment) (c : Settings) (s : HubSelection) (d : Option Diversion)
    → CarriesOut w c s d
    → d ≡ none
    → s ≡ forward_only
carried w c forward_only d h e = refl
carried w c (http addr) none h e = absurd h
carried w c (http addr) (some d) h e = absurd (ground arith)
carried w c (nym as') none h e = absurd h
carried w c (nym as') (some d) h e = absurd (ground arith)

-- A shim that requires diversion never starts without one.
pub start_diverts :
    (w : Environment) (c : Settings) (ws : List Warning) (p : Plan)
    → start w c ≡ (ws, ok p)
    → c.hubs.require_diversion ≡ true
    → p.diversion ≢ none
start_diverts w c ws p h r none_runs =
    let k = start-Honours w c ws p h in
    let chosen : hub_selection c.hubs ≡ ok forward_only =
      k.1 ∙ ap ok (carried w c k.0 p.diversion k.2.5 none_runs) in
    let off = ((hub_selection_exact c.hubs).2.0 chosen).2 in absurd (ground arith)
