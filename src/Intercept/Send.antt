-- ===== src/Intercept/Send.antt =====
-- Where `send_transaction` of zeronym/shim/src/intercept.rs takes a request, on every branch.
use zero_shim.Prelude.{
  ℕ, ◌≡◌, refl, ap, ◌≢◌, inl, inr, true, false, Option, none, some, [], ◌∷◌, arith, Bool-cases,
  Result, ok, All,
}
use zero_shim.Bytes.{Bytes, IsByte}
use zero_shim.Text.{Text, text, decimal}
use zero_shim.Prelude.{◌++◌}
use zero_shim.Http.{grpc_resource_exhausted, grpc_unavailable}
use zero_shim.External.{Zebra, Proto}
use zero_shim.Classify
use zero_shim.Classify.{Class, Evidence, classify, classify_with_evidence}
use zero_shim.Classify.Verdict.{IsOrdinary, not_diverted_exact, classify_class}
use zero_shim.Http.{Headers, Request, Response, HeaderValue, grpc_error}
use zero_shim.Hub
use zero_shim.Hub.{Submit, Lookup, HubTransport}
use zero_shim.Hub.Reach.{IsTakenUp, submit_reaches_exact, unreached-Fails}
use zero_shim.Prelude.{◌∙◌, err, ◌⊎◌, if◌then◌else◌}
use zero_shim.Forward.{to_hub, Operator, Outcome, pass_through}
use zero_shim.Intercept.{
  BodyRead, collected, length_limit, broken, timed_out, Reason, Detail, classified, failsafe,
  inspect, treat_as_migration, divert_reply, divert, replayed, send_transaction,
}
use zero_shim.Intercept.Unwrap.{IsUnary, inspect_exact}
use zero_shim.Forward.Egress.{IsForwarded, pass_through_forwards}

module _ (z : Zebra) (p : Proto) (from_str : HeaderValue) where
  -- A response that the shim makes up itself, as a gRPC error.
  abbrev pub IsGrpcError : Result Text Response → Type 0
  IsGrpcError r = (code : ℕ) × (message : Text) × (r ≡ ok (grpc_error from_str code message))

  -- The body was read, and is a unary body for `raw`.
  abbrev pub IsSent : Request → BodyRead → Bytes → Bytes → Option Headers → Type 0
  IsSent req read raw frame trailers =
      (read ≡ collected frame trailers) × IsUnary p req.headers frame raw

  -- The size or a failure is told to the wallet as a gRPC error.
  failure-IsGrpcError :
      (r : Result Text Submit)
      → ((limit : ℕ) × (r ≡ ok (Hub.too_large limit))) ⊎ ((e : Text) × (r ≡ err e))
      → (code : ℕ) × (message : Text) × (divert_reply z p from_str r
          ≡ grpc_error from_str code message)
  failure-IsGrpcError r (inl (limit, e)) = (
    grpc_resource_exhausted,
    text "zero-indexer-shim: transaction exceeds the "
        ++ (decimal limit ++ text "-byte hub frame limit"),
    rw e (unfold divert_reply in refl),
  )
  failure-IsGrpcError r (inr (x, e)) = (
    grpc_unavailable,
    text "zero-indexer-shim: hub unreachable",
    rw e (unfold divert_reply in refl),
  )

  -- The ends of a request when a hub is configured.
  pub data Ends (hub : HubTransport) (op : Operator) (req : Request) (read : BodyRead)
      (done : Outcome) : Type 0 where
    refused : done.0 ≡ [] → IsGrpcError done.1 → Ends hub op req read done
    diverted :
        (raw frame : Bytes) (trailers : Option Headers)
        → IsSent req read raw frame trailers
        → raw ≢ []
        → Classify.treat_as_migration (classify z raw) ≡ true
        → IsTakenUp hub raw
        → done.0 ≡ to_hub raw ∷ []
        → done.1 ≡ ok (divert_reply z p from_str (Hub.submit z hub raw))
        → Ends hub op req read done
    forwarded :
        (raw frame : Bytes) (trailers : Option Headers)
        → IsSent req read raw frame trailers
        → IsOrdinary z raw
        → IsForwarded op (replayed req frame trailers) done
        → Ends hub op req read done

  module _ (hub : HubTransport) (op : Operator) (req : Request) (frame : Bytes)
      (trailers : Option Headers) where
    abbrev pub read : BodyRead
    read = collected frame trailers

    abbrev pub done : Outcome
    done = send_transaction z p from_str op (some hub) req read

    sent_failsafe :
        (r : Reason) (d : Option Detail)
        → inspect z p req.headers frame ≡ (failsafe r d, none)
        → Ends hub op req read done
    sent_failsafe r d e =
        let f : done ≡ (
          [],
          ok (grpc_error from_str 14 (text "zero-indexer-shim: could not divert transaction")),
        ) =
          unfold send_transaction divert treat_as_migration in ground (arith, e) in
        refused (ap (λ (o : Outcome). o.0) f) (_, _, ap (λ (o : Outcome). o.1) f)

    pub diverted_eq :
        (b : ℕ) (bs : Bytes)
        → inspect z p req.headers frame
          ≡ (classified (classify_with_evidence z (b ∷ bs)), some (b ∷ bs))
        → Classify.treat_as_migration (classify z (b ∷ bs)) ≡ true
        → done ≡ (
          if Hub.submit_reaches hub (b ∷ bs) then to_hub (b ∷ bs) ∷ [] else [],
          ok (divert_reply z p from_str (Hub.submit z hub (b ∷ bs))),
        )
    diverted_eq b bs e m =
        unfold send_transaction divert treat_as_migration in
        ground (arith, e, classify_class z (b ∷ bs))

    sent_diverted :
        (raw : Bytes)
        → IsUnary p req.headers frame raw
        → inspect z p req.headers frame ≡ (classified (classify_with_evidence z raw), some raw)
        → Classify.treat_as_migration (classify z raw) ≡ true
        → Ends hub op req read done
    sent_diverted [] u e m =
        let f : done
            ≡ ([], ok (grpc_error from_str 3 (text "zero-indexer-shim: empty transaction"))) =
          unfold send_transaction divert treat_as_migration in
          ground (arith, e, classify_class z []) in
        refused (ap (λ (o : Outcome). o.0) f) (_, _, ap (λ (o : Outcome). o.1) f)
    sent_diverted (b ∷ bs) u e m =
        let f = diverted_eq b bs e m in
        elim (Bool-cases (Hub.submit_reaches hub (b ∷ bs))) [
          | inl q ↦
              diverted (b ∷ bs) frame trailers (refl, u) (λ c. cc) m
                ((submit_reaches_exact hub (b ∷ bs)).0 q) (ap (λ (o : Outcome). o.0) f ∙ rw q refl)
                (ap (λ (o : Outcome). o.1) f)
          | inr q ↦
              let (code, message, x) =
                failure-IsGrpcError (Hub.submit z hub (b ∷ bs))
                  (unreached-Fails z hub (b ∷ bs) q) in
              refused (ap (λ (o : Outcome). o.0) f ∙ rw q refl)
                (code, message, ap (λ (o : Outcome). o.1) f ∙ ap ok x)
        ]

    pub sent_forwarded :
        (raw : Bytes)
        → inspect z p req.headers frame ≡ (classified (classify_with_evidence z raw), some raw)
        → Classify.treat_as_migration (classify z raw) ≡ false
        → done ≡ pass_through op (replayed req frame trailers)
    sent_forwarded raw e o =
        unfold send_transaction treat_as_migration in ground (arith, e, classify_class z raw)

    collected-Ends : All IsByte frame → Ends hub op req read done
    collected-Ends hb = elim (inspect_exact z p req.headers frame hb) [
      | inl (raw, u, e) ↦ elim (Bool-cases (Classify.treat_as_migration (classify z raw))) [
        | inl m ↦ sent_diverted raw u e m
        | inr o ↦
            forwarded raw frame trailers (refl, u) ((not_diverted_exact z raw).0 o)
              (rw (sent_forwarded raw e o) (pass_through_forwards op (replayed req frame trailers)))
      ]
      | inr (_, (r, d, e)) ↦ sent_failsafe r d e
    ]

  -- The bytes that a read returned, if it did.
  abbrev pub ReadsBytes : BodyRead → Type 0
  ReadsBytes (collected frame trailers) = All IsByte frame
  ReadsBytes _ = Unit {0}

  -- With a hub configured, and a body of bytes, every SendTransaction ends in one of three ways:
  -- refused with a gRPC error and nobody contacted; diverted, for a whole unary body whose
  -- transaction is not empty, is classified for the hub, fits the frame and, over the mixnet, is
  -- taken by the transport for the first configured address: the submission is of exactly its
  -- bytes, nobody else is contacted, and what it ends in decides the reply; or forwarded with the
  -- body and trailers as read, for a transaction with no Orchard bundle.
  pub send_transaction-Ends :
      (hub : HubTransport) (op : Operator) (req : Request) (read : BodyRead)
      → ReadsBytes read
      → Ends hub op req read (send_transaction z p from_str op (some hub) req read)
  send_transaction-Ends hub op req (collected frame trailers) hb =
      collected-Ends hub op req frame trailers hb
  send_transaction-Ends hub op req length_limit hb =
      unfold send_transaction in refused refl (_, _, refl)
  send_transaction-Ends hub op req broken hb = unfold send_transaction in refused refl (_, _, refl)
  send_transaction-Ends hub op req timed_out hb =
      unfold send_transaction in refused refl (_, _, refl)
