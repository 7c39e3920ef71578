-- ===== src/Samples/Diversion.antt =====
-- The theorems on the interception at one SendTransaction whose transaction has no Orchard bundle.
use zero_shim.Prelude.{
  inl, ◌≡◌, refl, ◌≢◌, ◌↔◌, ◌⊎◌, true, false, Option, none, some, [], ◌∷◌, ok, arith,
}
use zero_shim.Bytes.{Bytes}
use zero_shim.Text.{Text, text, text_eq}
use zero_shim.Text.Search.{text_eq_iff}
use zero_shim.Http.{Headers, Request, TakesPrintable}
use zero_shim.Classify
use zero_shim.Classify.{
  classify, classify_with_evidence, treat_as_migration, is_unrecognised_branch,
}
use zero_shim.Classify.Verdict.{IsOrdinary, not_diverted_exact}
use zero_shim.Route.{
  shim_health_path, route_for, is_classified, get_transaction_path, caution_health_path,
  caution_attestation_path, shim_nym_status_path, shim_nym_diag_path, last_segment, trim_end,
}
use zero_shim.Route.Spelling.{spells_method, IsUnknown, route_for_classifies}
use zero_shim.Hub
use zero_shim.Hub.Reach.{IsTakenUp}
use zero_shim.Forward.{to_hub}
use zero_shim.Intercept.{
  Reason, Detail, classified, failsafe, inspect, send_transaction, get_transaction, divert_reply,
}
use zero_shim.Intercept.Unwrap.{IsUnary, inspect_exact}
use zero_shim.Intercept.Send.{IsSent, Ends, send_transaction-Ends}
use zero_shim.Intercept.NoLeak.{touches_operator, no_leak_exact, hub_gets_exact}
use zero_shim.Intercept.Get.{LookupEnds, get_transaction-LookupEnds}
use zero_shim.Status.{initial}
use zero_shim.Handle.{Shim, handle}
use zero_shim.Handle.Endpoints.{Relays, relayed_exact}
use zero_shim.Handle.Boundary.{CarriesOrdinary, handle_boundary}
use zero_shim.Samples.{
  sample_tx, sample_body, sample_body-IsByte, sample_zebra, sample_proto, sample_from_str,
  sample_response, sample_operator, sample_hub, sample_request, sample_read,
}

abbrev sample_shim : Shim
sample_shim = record {
  zebra = sample_zebra;
  proto = sample_proto;
  from_str = sample_from_str;
  diversion = some sample_hub;
  operator = sample_operator;
  bootproofd = λ req. ok sample_response;
  caution = record { enabled = false; bootproofd_addr = text "127.0.0.1:9000" };
  status = initial;
  now = 0;
}

printable : TakesPrintable sample_from_str
printable s h = refl

abbrev info_request : Request
info_request = record sample_request {
  path = text "/cash.z.wallet.sdk.rpc.CompactTxStreamer/GetLightdInfo";
}

apart : (p q : Text) → text_eq p q ≡ false → p ≢ q
apart p q n e = let y : text_eq p q ≡ true = (text_eq_iff p q).1 e in absurd (ground (arith, n, y))

info_path-IsUnknown : IsUnknown info_request.path
unfolding last_segment trim_end
info_path-IsUnknown = record {
  unspelled = refl;
  not_lookup = apart info_request.path get_transaction_path refl;
  not_caution_health = apart info_request.path caution_health_path refl;
  not_attestation = apart info_request.path caution_attestation_path refl;
  not_healthz = apart info_request.path shim_health_path refl;
  not_status = apart info_request.path shim_nym_status_path refl;
  not_diag = apart info_request.path shim_nym_diag_path refl;
}

relayed_exact_example :
    Relays sample_shim info_request sample_read (handle sample_shim info_request sample_read)
relayed_exact_example =
    relayed_exact sample_shim info_request sample_read printable (inl info_path-IsUnknown)

handle_boundary_example :
    (spells_method sample_request.path ≡ true
      → (touches_operator (handle sample_shim sample_request sample_read).0 ≡ true)
        ↔ CarriesOrdinary sample_shim sample_hub refl sample_request sample_read)
    × (sample_request.path ≡ get_transaction_path
        → touches_operator (handle sample_shim sample_request sample_read).0 ≡ false)
handle_boundary_example =
    handle_boundary sample_shim sample_hub refl sample_request sample_read sample_body-IsByte

no_leak_exact_example :
    (touches_operator
        (send_transaction sample_zebra sample_proto sample_from_str sample_operator
          (some sample_hub)
          sample_request
          sample_read).0
      ≡ true)
    ↔ ((raw : Bytes) × (frame : Bytes) × (trailers : Option Headers) × IsSent sample_zebra
          sample_proto sample_from_str sample_request sample_read raw frame trailers
        × IsOrdinary sample_zebra raw)
no_leak_exact_example =
    no_leak_exact sample_zebra sample_proto sample_from_str sample_hub sample_operator
      sample_request sample_read sample_body-IsByte

hub_gets_exact_example :
    (((send_transaction sample_zebra sample_proto sample_from_str sample_operator
          (some sample_hub)
          sample_request
          sample_read).0
        ≡ to_hub sample_tx ∷ [])
      × ((send_transaction sample_zebra sample_proto sample_from_str sample_operator
            (some sample_hub)
            sample_request
            sample_read).1
          ≡ ok (
              divert_reply sample_zebra sample_proto sample_from_str
                (Hub.submit sample_zebra sample_hub sample_tx))))
    ↔ ((frame : Bytes) × (trailers : Option Headers) × IsSent sample_zebra sample_proto
          sample_from_str sample_request sample_read sample_tx frame trailers
        × (sample_tx ≢ [])
        × (Classify.treat_as_migration (classify sample_zebra sample_tx) ≡ true)
        × IsTakenUp sample_hub sample_tx)
hub_gets_exact_example =
    hub_gets_exact sample_zebra sample_proto sample_from_str sample_hub sample_operator
      sample_request sample_read sample_tx sample_body-IsByte

not_diverted_exact_example :
    (treat_as_migration (classify sample_zebra sample_tx) ≡ false)
    ↔ IsOrdinary sample_zebra sample_tx
not_diverted_exact_example = not_diverted_exact sample_zebra sample_tx

inspect_exact_example :
    ((raw : Bytes) × IsUnary sample_proto [] sample_body raw
      × (inspect sample_zebra sample_proto [] sample_body
          ≡ (classified (classify_with_evidence sample_zebra raw), some raw)))
    ⊎ (((raw : Bytes) → ¬ IsUnary sample_proto [] sample_body raw)
        × ((r : Reason) × (d : Option Detail) × (inspect sample_zebra sample_proto [] sample_body
              ≡ (failsafe r d, none))))
inspect_exact_example = inspect_exact sample_zebra sample_proto [] sample_body sample_body-IsByte

send_transaction-Ends_example :
    Ends sample_zebra sample_proto sample_from_str sample_hub sample_operator sample_request
      sample_read
      (send_transaction sample_zebra sample_proto sample_from_str sample_operator
        (some sample_hub)
        sample_request
        sample_read)
send_transaction-Ends_example =
    send_transaction-Ends sample_zebra sample_proto sample_from_str sample_hub sample_operator
      sample_request sample_read sample_body-IsByte

get_transaction-LookupEnds_example :
    LookupEnds sample_zebra sample_proto sample_from_str sample_hub [] sample_read (
      get_transaction sample_zebra sample_proto sample_from_str sample_operator
        (some sample_hub)
        sample_request
        sample_read)
get_transaction-LookupEnds_example =
    get_transaction-LookupEnds sample_zebra sample_proto sample_from_str sample_hub sample_operator
      sample_request sample_read

abbrev shown : Bytes
shown = 5 ∷ []

route_for_classifies_example :
    is_classified (route_for (text "/x/SendTransaction/"))
    ≡ spells_method (text "/x/SendTransaction/")
route_for_classifies_example = route_for_classifies (text "/x/SendTransaction/")
