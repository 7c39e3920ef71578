-- ===== src/Route.antt =====
-- Where one request goes: `route_for` of zeronym/shim/src/proxy.rs, a function of the path.
pub mod Spelling
use zero_shim.Prelude.{Bool, true, false, ◌&&◌, [], ◌∷◌, ◌++◌, ◌==◌, if◌then◌else◌}
use zero_shim.Text.{Text, text, text_eq, eq_ignore_ascii_case}

abbrev pub send_transaction_path : Text
send_transaction_path = text "/cash.z.wallet.sdk.rpc.CompactTxStreamer/SendTransaction"

abbrev pub get_transaction_path : Text
get_transaction_path = text "/cash.z.wallet.sdk.rpc.CompactTxStreamer/GetTransaction"

abbrev pub caution_health_path : Text
caution_health_path = text "/.well-known/caution/health"

abbrev pub caution_attestation_path : Text
caution_attestation_path = text "/attestation"

abbrev pub shim_health_path : Text
shim_health_path = text "/healthz"

abbrev pub shim_nym_status_path : Text
shim_nym_status_path = text "/nym-status"

abbrev pub shim_nym_diag_path : Text
shim_nym_diag_path = text "/nym-diag"

pub data Route : Type 0 where
  intercept intercept_near_miss get_transaction caution_health caution_attestation : Route
  shim_health shim_nym_status shim_nym_diag pass_through : Route

abbrev pub is_empty : Text → Bool
is_empty [] = true
is_empty (c ∷ s) = false

-- `path.trim_end_matches('/')`
unfoldable pub trim_end : Text → Text
trim_end [] = []
trim_end (c ∷ s) = let rest = trim_end s in if c == b'/' && is_empty rest then [] else c ∷ rest

segment_from : Text → Text → Text
segment_from acc [] = acc
segment_from acc (c ∷ s) = segment_from (if c == b'/' then [] else acc ++ (c ∷ [])) s

-- `path.rsplit('/').next()`, which a split always has
unfoldable pub last_segment : Text → Text
unfolding segment_from
last_segment path = segment_from [] path

unfoldable pub route_for : Text → Route
unfolding trim_end last_segment
route_for path =
    if text_eq path send_transaction_path
    then intercept
    else if text_eq path get_transaction_path
    then get_transaction
    else if text_eq path caution_health_path
    then caution_health
    else if text_eq path caution_attestation_path
    then caution_attestation
    else if text_eq path shim_health_path
    then shim_health
    else if text_eq path shim_nym_status_path
    then shim_nym_status
    else if text_eq path shim_nym_diag_path
    then shim_nym_diag
    else if eq_ignore_ascii_case (last_segment (trim_end path)) (text "sendtransaction")
    then intercept_near_miss
    else pass_through

-- The two arms of `handle` that call `intercept::send_transaction`.
unfoldable pub is_classified : Route → Bool
is_classified intercept = true
is_classified intercept_near_miss = true
is_classified _ = false
