-- ===== src/Handle/Boundary.antt =====
-- What a shim with a hub lets through to the operator's indexer, request by request
-- (`handle` of zeronym/shim/src/proxy.rs).
use zero_shim.Prelude.{◌≡◌, refl, ap, ◌∙◌, ◌↔◌, true, false, Option, some}
use zero_shim.Bytes.{Bytes}
use zero_shim.Classify.Verdict.{IsOrdinary}
use zero_shim.Http.{Request}
use zero_shim.Route.{Route, route_for, is_classified, get_transaction_path}
use zero_shim.Route.Spelling.{spells_method, route_for_classifies}
use zero_shim.Hub.{HubTransport}
use zero_shim.Forward.{Outcome}
use zero_shim.Intercept
use zero_shim.Intercept.{BodyRead, send_transaction}
use zero_shim.Intercept.Send.{IsSent, ReadsBytes}
use zero_shim.Intercept.NoLeak.{touches_operator, no_leak_exact}
use zero_shim.Intercept.Get.{LookupEnds, unanswered, answered, get_transaction-LookupEnds}
use zero_shim.Handle.{Shim, dispatch, handle}

module _ (s : Shim) (hub : HubTransport) (configured : s.diversion ≡ some hub) (req : Request)
    (read : BodyRead) where
  -- The body carries one transaction with no Orchard bundle.
  abbrev pub CarriesOrdinary : Type 0
  CarriesOrdinary =
      (raw : Bytes) × (frame : Bytes) × (trailers : Option _) × IsSent s.zebra s.proto s.from_str
        req read raw frame trailers
      × IsOrdinary s.zebra raw

  lookup_stays :
      touches_operator
        (Intercept.get_transaction s.zebra s.proto s.from_str s.operator s.diversion req read).0
      ≡ false
  lookup_stays =
      rw configured
        (ends _ (get_transaction-LookupEnds s.zebra s.proto s.from_str hub s.operator req read))
    where
      ends :
          (done : Outcome)
          → LookupEnds s.zebra s.proto s.from_str hub req.headers read done
          → touches_operator done.0 ≡ false
      ends done (unanswered code message e) = rw e refl
      ends done (answered frame trailers filter resp r d l e a) = rw e refl

  classified_exact :
      ReadsBytes s.zebra s.proto s.from_str read
      → (touches_operator
            (send_transaction s.zebra s.proto s.from_str s.operator s.diversion req read).0
          ≡ true)
        ↔ CarriesOrdinary
  classified_exact hb =
      rw configured (no_leak_exact s.zebra s.proto s.from_str hub s.operator req read hb)

  dispatch_classified :
      (r : Route)
      → is_classified r ≡ true
      → dispatch s r req read
        ≡ send_transaction s.zebra s.proto s.from_str s.operator s.diversion req read
  unfolding is_classified dispatch
  dispatch_classified Route.intercept h = refl
  dispatch_classified Route.intercept_near_miss h = refl
  dispatch_classified _ h = cc

  -- With a hub configured and a body of bytes, a request whose path spells SendTransaction, in any
  -- case and behind any front, reaches the operator's indexer exactly when its body carries one
  -- transaction with no Orchard bundle; and a GetTransaction never reaches it.
  pub handle_boundary :
      ReadsBytes s.zebra s.proto s.from_str read
      → (spells_method req.path ≡ true
          → (touches_operator (handle s req read).0 ≡ true) ↔ CarriesOrdinary)
        × (req.path ≡ get_transaction_path → touches_operator (handle s req read).0 ≡ false)
  handle_boundary hb = (
    (λ spelled.
        unfold handle in
        rw (dispatch_classified (route_for req.path) (route_for_classifies req.path ∙ spelled))
          (classified_exact hb)),
    (λ e.
        let g : route_for req.path ≡ Route.get_transaction = ap route_for e ∙ known in
        unfold handle dispatch in rw g lookup_stays),
  )
    where
      known : route_for get_transaction_path ≡ Route.get_transaction
      known = unfold route_for in refl
