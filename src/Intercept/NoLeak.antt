-- ===== src/Intercept/NoLeak.antt =====
-- What reaches the operator's indexer and what reaches the hub, for a SendTransaction handled with
-- a hub configured (zeronym/shim/src/intercept.rs).
use zero_shim.Prelude.{
  ℕ, ◌≡◌, refl, ◌≢◌, ◌↔◌, ◌⊎◌, inl, inr, Bool, true, false, Option, none, some, List, [], ◌∷◌,
  arith, ok,
}
use zero_shim.Bytes.{Bytes}
use zero_shim.Text.{Text}
use zero_shim.External.{Zebra, Proto}
use zero_shim.Classify
use zero_shim.Classify.{Class, Evidence, classify, classify_with_evidence}
use zero_shim.Classify.Verdict.{IsOrdinary, not_diverted_exact}
use zero_shim.Http.{Headers, Request, HeaderValue, grpc_error}
use zero_shim.Hub
use zero_shim.Hub.Reach.{IsTakenUp, submit_reaches_exact}
use zero_shim.Hub.{Submit, Lookup, HubTransport}
use zero_shim.Forward.{Contact, dial, to_operator, to_hub, Operator, Outcome}
use zero_shim.Intercept.{
  BodyRead, collected, length_limit, broken, timed_out, divert_reply, replayed, send_transaction,
}
use zero_shim.Intercept.Unwrap.{inspect-unary}
use zero_shim.Forward.Egress.{IsForwarded, pass_through_forwards}
use zero_shim.Intercept.Send.{
  IsSent, Ends, refused, diverted, forwarded, ReadsBytes, sent_forwarded, diverted_eq,
  send_transaction-Ends,
}

-- Some contact opens a connection to the operator or sends it a request.
abbrev pub touches_operator : List Contact → Bool
touches_operator [] = false
touches_operator (dial ∷ cs) = true
touches_operator (to_operator req ∷ cs) = true
touches_operator (c ∷ cs) = touches_operator cs

IsForwarded-touches :
    (op : Operator) (req : Request) (done : Outcome)
    → IsForwarded op req done
    → touches_operator done.0 ≡ true
IsForwarded-touches op req done (inl (e, g, c, r)) = rw c refl
IsForwarded-touches op req done (inr (a, sent, g, rel, c, r)) = rw c refl

module _ (z : Zebra) (p : Proto) (from_str : HeaderValue) (hub : HubTransport) (op : Operator) where
  module _ (req : Request) (read : BodyRead) where
    Ends-leak :
        (done : Outcome)
        → Ends z p from_str hub op req read done
        → touches_operator done.0 ≡ true
        → (raw : Bytes) × (frame : Bytes) × (trailers : Option Headers) × IsSent z p from_str req
            read raw frame trailers
          × IsOrdinary z raw
    Ends-leak done (refused c e) t = absurd (ground arith)
    Ends-leak done (diverted raw frame trailers s ne m k c e) t = absurd (ground arith)
    Ends-leak done (forwarded raw frame trailers s o f) t = (raw, frame, trailers, s, o)

    -- With a hub configured and a body of bytes, the operator's indexer is dialled or sent anything
    -- exactly when the body was read whole and is one unary message whose data parses, to the last
    -- byte, as a transaction with no Orchard bundle.
    pub no_leak_exact :
        ReadsBytes z p from_str read
        → (touches_operator (send_transaction z p from_str op (some hub) req read).0 ≡ true) ↔ (
            (raw : Bytes) × (frame : Bytes) × (trailers : Option Headers) × IsSent z p from_str req
              read raw frame trailers
            × IsOrdinary z raw)
    no_leak_exact hb = (
      Ends-leak _ (send_transaction-Ends z p from_str hub op req read hb),
      (λ h.
          let (raw, frame, trailers, (e, u), o) = h in
          let i = inspect-unary z p req.headers frame raw u in
          rw
            (
              e,
              sent_forwarded z p from_str hub op req frame trailers raw i
                  ((not_diverted_exact z raw).1 o),
            )
            (IsForwarded-touches op (replayed req frame trailers) _
              (pass_through_forwards op (replayed req frame trailers)))),
    )

    Ends-diverted :
        (tx : Bytes) (done : Outcome)
        → Ends z p from_str hub op req read done
        → done.0 ≡ to_hub tx ∷ []
        → (frame : Bytes) × (trailers : Option Headers) × IsSent z p from_str req read tx frame
            trailers
          × (tx ≢ [])
          × (Classify.treat_as_migration (classify z tx) ≡ true)
          × IsTakenUp hub tx
          × (done.1 ≡ ok (divert_reply z p from_str (Hub.submit z hub tx)))
    Ends-diverted tx done (refused c e) t = absurd (ground arith)
    Ends-diverted tx done (diverted raw frame trailers s ne m k c e) t =
        let same : raw ≡ tx = ground arith in rw (← same) (frame, trailers, s, ne, m, k, e)
    Ends-diverted tx done (forwarded raw frame trailers s o f) t = absurd (forwarded_no_hub f)
      where
        forwarded_no_hub : IsForwarded op (replayed req frame trailers) done → ⊥
        forwarded_no_hub (inl (e, g, c, r)) = ground arith
        forwarded_no_hub (inr (a, sent, g, rel, c, r)) = ground arith

    -- With a hub configured and a body of bytes, the hub alone is contacted, and given `tx`,
    -- exactly when the body was read whole and is one unary message whose data is `tx`, not empty,
    -- which the classifier diverts, which fits the frame and which, over the mixnet, the transport
    -- takes for the first configured address; and then the reply is the one for what the submission
    -- ended in.
    pub hub_gets_exact :
        (tx : Bytes)
        → ReadsBytes z p from_str read
        → (((send_transaction z p from_str op (some hub) req read).0 ≡ to_hub tx ∷ [])
            × ((send_transaction z p from_str op (some hub) req read).1
                ≡ ok (divert_reply z p from_str (Hub.submit z hub tx))))
          ↔ ((frame : Bytes) × (trailers : Option Headers) × IsSent z p from_str req read tx frame
                trailers
              × (tx ≢ [])
              × (Classify.treat_as_migration (classify z tx) ≡ true)
              × IsTakenUp hub tx)
    hub_gets_exact tx hb = (
      (λ h.
          let (f, t, s, ne, m, k, r) =
            Ends-diverted tx _ (send_transaction-Ends z p from_str hub op req read hb) h.0 in
          (f, t, s, ne, m, k)),
      back tx,
    )
      where
        back :
            (raw : Bytes)
            → ((frame : Bytes) × (trailers : Option Headers) × IsSent z p from_str req read raw
                  frame trailers
                × (raw ≢ [])
                × (Classify.treat_as_migration (classify z raw) ≡ true)
                × IsTakenUp hub raw)
            → ((send_transaction z p from_str op (some hub) req read).0 ≡ to_hub raw ∷ [])
              × ((send_transaction z p from_str op (some hub) req read).1
                  ≡ ok (divert_reply z p from_str (Hub.submit z hub raw)))
        back [] (f, t, (e, u), ne, m, k) = absurd (ne refl)
        back (b ∷ bs) (f, t, (e, u), ne, m, k) =
            let i = inspect-unary z p req.headers f (b ∷ bs) u in
            let q = (submit_reaches_exact hub (b ∷ bs)).1 k in
            rw (e, diverted_eq z p from_str hub op req f t b bs i m, q) (refl, refl)

  -- With no hub configured a request whose body was read is forwarded with the bytes as read,
  -- whatever the verdict; any other is refused with nobody contacted.
  pub forward_only :
      (req : Request) (read : BodyRead)
      → ((frame : Bytes) × (trailers : Option Headers) × (read ≡ collected frame trailers)
          × IsForwarded op
              (replayed req frame trailers)
              (send_transaction z p from_str op none req read))
        ⊎ (((send_transaction z p from_str op none req read).0 ≡ [])
            × ((code : ℕ) × (message : Text) × ((send_transaction z p from_str op none req read).1
                  ≡ ok (grpc_error from_str code message))))
  unfolding send_transaction
  forward_only req (collected frame trailers) =
      inl (frame, trailers, refl, pass_through_forwards op (replayed req frame trailers))
  forward_only req length_limit = inr (refl, (_, _, refl))
  forward_only req broken = inr (refl, (_, _, refl))
  forward_only req timed_out = inr (refl, (_, _, refl))
