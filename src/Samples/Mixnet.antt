-- ===== src/Samples/Mixnet.antt =====
-- The theorems on the mixnet client and the connection pool at short runs.
use zero_shim.Prelude.{
  List, ℕ, zero, suc, ◌+◌, ◌≤◌, ◌<◌, ◌≡◌, refl, ◌≢◌, ◌↔◌, ◌⊎◌, Bool, true, false, none, some, [],
  ◌∷◌, map, arith, ok, err, length, All,
}
use zero_shim.Bytes.{Bytes}
use zero_shim.Text.{Text, text}
use zero_shim.Wire
use zero_shim.Wire.{
  Nonce, IsNonce, AckKind, accepted, encode_ack, decode_ack, max_nym_tx_bytes, ack_bytes,
}
use zero_shim.Hub
use zero_shim.Nym.{timeout, transport_gone}
use zero_shim.Hub.{local_txid, Submit, too_large}
use zero_shim.Correlator.{ack, Pending, deliver}
use zero_shim.Correlator.Owed.{Effect, deliver_exact}
use zero_shim.Nym.{
  Offer, taken, closed, Fresh, Attempt, no_reply, answered, submit, get_transaction,
}
use zero_shim.Nym.Dispatch.{takers, IsSubmission, submit_exact}
use zero_shim.Nym.Sweep.{Sweeps, get_transaction-Sweeps}
use zero_shim.Nym.Transport.{mixnet, mixnet-submit_exact}
use zero_shim.Supervisor.{
  request_timeout, RotationPolicy, every, effective_defer_limit, next_rotation, rebuild, Supervisor,
  woke, step, run,
}
use zero_shim.Supervisor.Deferral.{deferred, rotation_defers}
use zero_shim.Pool.{dial_backoff, fresh_pool, Call, backoff_message, get, get_all}
use zero_shim.Pool.Backoff.{same, FindsOpen, IsBefore, fresh_pool_dials, one_dial_serves}
use zero_shim.Text.{Text}
use zero_shim.Wire.{decode_submit, decode_lookup}
use zero_shim.Nym.{submit_reply_surbs, lookup_reply_surbs}
use zero_shim.Driver.{running, Driver, Event, messages, probe_tick}
use zero_shim.Mixnet.Delivery.{IsDispatched, requests-IsDispatched}
use zero_shim.Status.{initial}
use zero_shim.Samples.{sample_nonce, sample_tx, sample_zebra}

abbrev sample_ack : Bytes
sample_ack = encode_ack sample_nonce accepted

abbrev waiting : Pending
waiting = (sample_nonce, ack 0) ∷ []

deliver_exact_example : Effect waiting sample_ack (deliver waiting sample_ack)
deliver_exact_example = deliver_exact waiting sample_ack

abbrev nobody : ℕ → Bool
nobody r = false

abbrev offers : ℕ → Offer
offers zero = taken
offers (suc n) = closed

abbrev tries : ℕ → Attempt
tries zero = no_reply
tries (suc n) = answered Wire.not_found

abbrev fresh : ℕ → Fresh
fresh n = record { nonce = sample_nonce; receiver = n }

abbrev fresh-IsNonce : (n : ℕ) → IsNonce (fresh n).nonce
fresh-IsNonce n = refl

submit_exact_example :
    (map (λ r. r.target) (submit offers fresh 2 sample_tx).0 ≡ takers offers 0 2)
    × All (IsSubmission offers fresh sample_tx) (submit offers fresh 2 sample_tx).0
    × (((submit offers fresh 2 sample_tx).1 ≡ ok tt) ↔ (offers 0 ≡ taken))
    × (offers 0 ≢ taken → (submit offers fresh 2 sample_tx).1 ≡ err transport_gone)
submit_exact_example =
    submit_exact offers fresh sample_tx fresh-IsNonce (omega arith) 2 (omega arith)

get_transaction-Sweeps_example :
    Sweeps tries fresh 7 2 sample_tx 0 2 timeout (get_transaction tries fresh 7 2 sample_tx)
get_transaction-Sweeps_example =
    get_transaction-Sweeps tries fresh 7 2 sample_tx fresh-IsNonce (omega arith) (omega arith)

abbrev two_hubs : 0 < 2
two_hubs = omega arith

mixnet-submit_exact_example :
    (max_nym_tx_bytes < length sample_tx
      → Hub.submit sample_zebra (mixnet offers tries fresh fresh-IsNonce 7 2 two_hubs) sample_tx
        ≡ ok (too_large max_nym_tx_bytes))
    × (length sample_tx ≤ max_nym_tx_bytes
        → ((Hub.submit sample_zebra (mixnet offers tries fresh fresh-IsNonce 7 2 two_hubs) sample_tx
              ≡ ok (Hub.accepted (local_txid sample_zebra sample_tx)))
            ↔ (offers 0 ≡ taken))
          × (offers 0 ≢ taken
              → Hub.submit sample_zebra
                  (mixnet offers tries fresh fresh-IsNonce 7 2 two_hubs)
                  sample_tx
                ≡ err (text "the mixnet transport is not running")))
mixnet-submit_exact_example =
    mixnet-submit_exact offers tries fresh fresh-IsNonce 7 2 two_hubs sample_zebra sample_tx

abbrev hourly : RotationPolicy
hourly = every 3600000

abbrev up : Supervisor
up = record { rotate_at = some 3600000; defer_deadline = none; returned = false }

abbrev inflight : ℕ
inflight = 1

rotation_defers_example :
    (run hourly (woke true 3600000 inflight ∷ woke true 3600250 1 ∷ []) up
      ≡ (deferred hourly up refl 3600000, []))
    × (((step hourly (woke true 3690000 inflight) (deferred hourly up refl 3600000)).1
          ≡ rebuild ∷ [])
        ↔ ((inflight ≡ 0) ⊎ (3600000 + effective_defer_limit hourly ≤ 3690000)))
    × ((step hourly (woke true 3690000 inflight) (deferred hourly up refl 3600000)).1 ≡ rebuild ∷ []
        → ((step hourly (woke true 3690000 inflight) (deferred hourly up refl 3600000)).0.rotate_at
            ≡ next_rotation hourly 3690000)
          × ((step hourly
                (woke true 3690000 inflight)
                (deferred hourly up refl 3600000)).0.defer_deadline
              ≡ none)
          × (0 < inflight → 3600000 + request_timeout ≤ 3690000))
rotation_defers_example =
    rotation_defers hourly up refl 3600000 true inflight (woke true 3600250 1 ∷ []) 3690000 inflight
      refl (omega arith) ((omega arith, omega arith), tt)

abbrev failing : Call
failing = record { is_closed = nobody; now = 10; dial = err (text "refused"); dialled_at = 20 }

abbrev soon : Call
soon = record { is_closed = nobody; now = 30; dial = ok 1; dialled_at = 40 }

one_dial_serves_example :
    ((upstream : ℕ)
      → (get failing fresh_pool).result ≡ ok upstream
      → All (FindsOpen upstream) (soon ∷ [])
      → get_all (soon ∷ []) (get failing fresh_pool).state
        ≡ ((get failing fresh_pool).state, same (ok upstream) (soon ∷ []), 0))
    × ((e : Text)
        → (get failing fresh_pool).result ≡ err e
        → All (IsBefore (failing.dialled_at + dial_backoff)) (soon ∷ [])
        → get_all (soon ∷ []) (get failing fresh_pool).state
          ≡ ((get failing fresh_pool).state, same (err backoff_message) (soon ∷ []), 0))
one_dial_serves_example = one_dial_serves failing fresh_pool (soon ∷ []) (fresh_pool_dials failing)

abbrev hub_addresses : List Text
hub_addresses = (97 ∷ []) ∷ (98 ∷ []) ∷ []

abbrev connected_driver : Driver
connected_driver = record {
  phase = running;
  in_flight = none;
  inbound_at_probe = none;
  silent_rounds = 0;
  gateways = record { gateways = []; next = 0 };
  status = initial;
}

abbrev calm_arms : List Event
calm_arms = messages (some []) ∷ probe_tick 1 ∷ []

requests-IsDispatched_example :
    All
      (IsDispatched connected_driver calm_arms hub_addresses submit_reply_surbs decode_submit
        sample_tx)
      (submit offers fresh 2 sample_tx).0
    × All
        (IsDispatched connected_driver calm_arms hub_addresses lookup_reply_surbs decode_lookup
          sample_tx)
        (get_transaction tries fresh 7 2 sample_tx).0
requests-IsDispatched_example =
    requests-IsDispatched connected_driver calm_arms refl refl (tt, (tt, tt)) hub_addresses
      (omega arith) fresh fresh-IsNonce offers tries 7 sample_tx sample_tx (omega arith)
      (omega arith)
