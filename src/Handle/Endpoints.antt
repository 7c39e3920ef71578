-- ===== src/Handle/Endpoints.antt =====
-- The requests that are not the wallet's transactions (`handle` of zeronym/shim/src/proxy.rs): the
-- endpoints that the shim answers, and what it relays.
use zero_shim.Prelude.{
  ◌≡◌, refl, ◌↔◌, ◌⊎◌, inl, inr, Bool, true, false, not, ◌||◌, some, List, [], ◌∷◌, ◌++◌, arith,
  if◌then◌else◌, Result, ok, err,
}
use zero_shim.Text.{Text, text, decimal}
use zero_shim.Http.{Request, Response, TakesPrintable, get, grpc_unavailable, sanitize_grpc_message}
use zero_shim.Http.Replies.{grpc_error_shape}
use zero_shim.Route.{
  Route, route_for, caution_health_path, caution_attestation_path, shim_health_path,
  shim_nym_status_path, shim_nym_diag_path,
}
use zero_shim.Forward.{Contact, dial, to_operator, pass_through}
use zero_shim.Forward.Egress.{IsRelayOf, IsRelayedResponse, IsForwarded, pass_through_forwards}
use zero_shim.Route.Spelling.{IsUnknown, unknown-route}
use zero_shim.Intercept.{BodyRead}
use zero_shim.Intercept.NoLeak.{touches_operator}
use zero_shim.Status.{is_healthy, to_json, diag_json}
use zero_shim.Handle.{
  Shim, text_response, json_response, caution_health_ok, forward_to_bootproofd, dispatch, settled,
  handle,
}

known_health : route_for caution_health_path ≡ Route.caution_health
unfolding route_for
known_health = refl

known_attestation : route_for caution_attestation_path ≡ Route.caution_attestation
unfolding route_for
known_attestation = refl

known_healthz : route_for shim_health_path ≡ Route.shim_health
unfolding route_for
known_healthz = refl

known_status : route_for shim_nym_status_path ≡ Route.shim_nym_status
unfolding route_for
known_status = refl

known_diag : route_for shim_nym_diag_path ≡ Route.shim_nym_diag
unfolding route_for
known_diag = refl

-- The status of /healthz, by the two flags.
healthz_status :
    (configured connected : Bool)
    → (((if not configured || connected
            then text_response 200 (text "ok")
            else text_response 503 (text "mixnet client not connected")).status
          ≡ 200)
        ↔ ((configured ≡ false) ⊎ (connected ≡ true)))
      × (((if not configured || connected
              then text_response 200 (text "ok")
              else text_response 503 (text "mixnet client not connected")).status
            ≡ 503)
          ↔ ((configured ≡ true) × (connected ≡ false)))
unfolding text_response
healthz_status false c =
    (((λ h. inl refl), (λ h. refl)), ((λ h. absurd (omega arith)), (λ h. absurd (ground arith))))
healthz_status true true =
    (((λ h. inr refl), (λ h. refl)), ((λ h. absurd (omega arith)), (λ h. absurd (ground arith))))
healthz_status true false = (
  ((λ h. absurd (omega arith)), (λ h. absurd (ground arith))),
  ((λ h. (refl, refl)), (λ h. refl)),
)

-- The paths that the shim answers on.
pub data Endpoint : Type 0 where
  healthz nym_status nym_diag caution_health caution_attestation : Endpoint

abbrev pub path_of : Endpoint → Text
path_of healthz = shim_health_path
path_of nym_status = shim_nym_status_path
path_of nym_diag = shim_nym_diag_path
path_of caution_health = caution_health_path
path_of caution_attestation = caution_attestation_path

module _ (s : Shim) where
  -- Whether an endpoint is switched on.
  abbrev pub IsOn : Endpoint → Type 0
  IsOn healthz = Unit {0}
  IsOn nym_status = Unit {0}
  IsOn nym_diag = s.status.diag_enabled ≡ true
  IsOn caution_health = s.caution.enabled ≡ true
  IsOn caution_attestation = s.caution.enabled ≡ true

  -- The paths that go to the indexer unread: the unknown ones, and those of a relay or a diagnosis
  -- that is switched off.
  abbrev pub IsRelayed : Text → Type 0
  IsRelayed path =
      IsUnknown path
      ⊎ ((s.caution.enabled ≡ false)
          × ((path ≡ caution_health_path) ⊎ (path ≡ caution_attestation_path)))
      ⊎ ((s.status.diag_enabled ≡ false) × (path ≡ shim_nym_diag_path))

  module _ (req : Request) (read : BodyRead) where
    relayed_route :
        IsRelayed req.path → dispatch s (route_for req.path) req read ≡ pass_through s.operator req
    unfolding dispatch
    relayed_route (inl u) = rw (unknown-route req.path u) refl
    relayed_route (inr (inl (off, inl e))) = rw (e, known_health, off) refl
    relayed_route (inr (inl (off, inr e))) = rw (e, known_attestation, off) refl
    relayed_route (inr (inr (off, e))) = rw (e, known_diag, off) refl

    -- A gRPC UNAVAILABLE with the failure for its message.
    abbrev pub IsUnavailable : Text → Response → Type 0
    IsUnavailable e r =
        (r.status ≡ 200)
        × (r.body ≡ [])
        × (get r.headers (text "grpc-status") ≡ some (decimal grpc_unavailable))
        × (get r.headers (text "grpc-message")
            ≡ some (sanitize_grpc_message (text "zero-indexer-shim: " ++ e)))

    -- The contacts and the response of a request that goes to the indexer unread.
    abbrev pub Relays : List Contact × Response → Type 0
    Relays done =
        ((e : Text) × (s.operator.get ≡ err e) × (done.0 ≡ dial ∷ []) × IsUnavailable e done.1)
        ⊎ ((authority : Text) × (relay : Request) × (s.operator.get ≡ ok authority)
            × IsRelayOf authority req relay
            × (done.0 ≡ dial ∷ to_operator relay ∷ [])
            × (((e : Text) × (s.operator.exchange relay ≡ err e) × IsUnavailable e done.1)
                ⊎ ((resp : Response) × (s.operator.exchange relay ≡ ok resp)
                    × IsRelayedResponse resp done.1)))

    settled-IsUnavailable :
        TakesPrintable s.from_str → (e : Text) → IsUnavailable e (settled s.from_str (err e))
    unfolding settled
    settled-IsUnavailable printable e =
        let g =
          grpc_error_shape s.from_str grpc_unavailable (text "zero-indexer-shim: " ++ e)
            printable in
        (g.0, g.1, g.4, g.5)

    forwarded-Relays :
        TakesPrintable s.from_str
        → (contacts : List Contact) (r : Result Text Response)
        → IsForwarded s.operator req (contacts, r)
        → Relays (contacts, settled s.from_str r)
    forwarded-Relays printable contacts r (inl (e, g, c, f)) =
        inl (e, g, c, rw f (settled-IsUnavailable printable e))
    forwarded-Relays printable contacts r (inr (a, relay, g, w, c, inl (e, x, f))) =
        inr (a, relay, g, w, c, inl (e, x, rw f (settled-IsUnavailable printable e)))
    forwarded-Relays printable contacts r (inr (a, relay, g, w, c, inr (resp, got, x, f, k))) =
        inr (a, relay, g, w, c, inr (resp, x, rw f (unfold settled in k)))

    -- Where header values take printable ASCII: a request on a path that is none of the exact ones
    -- and does not spell SendTransaction, or that belongs to a relay or a diagnosis that is
    -- switched off, asks the pool once. If that fails, nobody else is contacted, and the wallet
    -- gets a gRPC UNAVAILABLE with the failure for its message. Otherwise exactly one request goes
    -- to the indexer: the client's, for the dialled upstream, without its `host` and the headers
    -- that name the client's address. If that exchange fails, the wallet gets a gRPC UNAVAILABLE
    -- with that failure, else the indexer's response but for the encodings that it advertises.
    pub relayed_exact : TakesPrintable s.from_str → IsRelayed req.path → Relays (handle s req read)
    unfolding handle
    relayed_exact printable r = rw (relayed_route r) (
        forwarded-Relays printable (pass_through s.operator req).0 (pass_through s.operator req).1
          (pass_through_forwards s.operator req))

    -- What comes of a request on an endpoint.
    abbrev pub Answers : Endpoint → List Contact × Response → Type 0
    Answers healthz r =
        (r.0 ≡ [])
        × ((r.1.status ≡ 200) ↔ ((s.status.configured ≡ false) ⊎ (s.status.connected ≡ true)))
        × ((r.1.status ≡ 503) ↔ ((s.status.configured ≡ true) × (s.status.connected ≡ false)))
    Answers nym_status r = r ≡ ([], json_response (to_json s.status))
    Answers nym_diag r = r ≡ ([], json_response (diag_json s.now s.status))
    Answers caution_health r = r ≡ ([], caution_health_ok)
    Answers caution_attestation r = touches_operator r.0 ≡ false

    -- What the shim answers itself, on an endpoint that is on. /healthz contacts nobody and is a
    -- 503 exactly if the client is configured and not connected, else a 200; /nym-status contacts
    -- nobody and has the status, and so has /nym-diag the diagnosis; Caution's health is a 200 that
    -- contacts nobody, and its attestation never reaches the indexer.
    pub endpoints_exact :
        (e : Endpoint) → req.path ≡ path_of e → IsOn e → Answers e (handle s req read)
    unfolding handle dispatch settled is_healthy
    endpoints_exact healthz p on =
        rw (p, known_healthz)
          (let h = healthz_status s.status.configured s.status.connected in (refl, h.0, h.1))
    endpoints_exact nym_status p on = rw (p, known_status) refl
    endpoints_exact nym_diag p on = rw (p, known_diag, on) refl
    endpoints_exact caution_health p on = rw (p, known_health, on) refl
    endpoints_exact caution_attestation p on =
        rw (p, known_attestation, on) (unfold forward_to_bootproofd in refl)
