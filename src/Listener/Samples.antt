-- ===== src/Listener/Samples.antt =====
-- The theorems on the accept loop at concrete runs.
use zero_shim.Prelude.{
  ◌+◌, ◌≤◌, ◌≡◌, refl, true, false, none, some, List, [], ◌∷◌, ◌++◌, arith, ok, err, length, All,
}
use zero_shim.Prelude.{Any}
use zero_shim.Text.{text}
use zero_shim.Pool.{Call}
use zero_shim.Listener.{
  max_inflight_connections, IoError, other, failed, accepting, returned, Server, listening, Event,
  selected, tls_accepted, requested, ended, timer, step, run,
}
use zero_shim.Listener.Permits.{AreBelow, connections_bounded}
use zero_shim.Listener.Admission.{Admits, admission_exact}
use zero_shim.Listener.Failures.{HitsFatal, failure-IsFatal}
use zero_shim.Listener.Encryption.{Handshakes, IsEncrypted, requests-IsEncrypted}
use zero_shim.Listener.Drain.{IsClosed, IsOver, shutdown_drains}
use zero_shim.Listener.Isolation.{Owns, pools_isolated}

abbrev indexer_up : Call
indexer_up = record { is_closed = λ u. false; now = 3; dial = ok 7; dialled_at = 4 }

-- Two wallets connect, one handshake ends and is followed by a request, the other fails.
abbrev wallets : List Event
wallets =
    selected 0 false (some (ok (text "10.0.0.1:4000")))
    ∷ selected 1 false (some (ok (text "10.0.0.2:4000")))
    ∷ tls_accepted 0 (ok true)
    ∷ tls_accepted 1 (err (text "no shared cipher"))
    ∷ requested 0 (some indexer_up)
    ∷ []

connections_bounded_example :
    (length (run true wallets listening).0.tasks ≤ max_inflight_connections)
    × ((run true wallets listening).0.permits + length (run true wallets listening).0.tasks
        ≡ max_inflight_connections)
    × AreBelow (run true wallets listening).0.spawned (run true wallets listening).0.tasks
connections_bounded_example = connections_bounded true wallets

still_accepting : (run true wallets listening).0.phase ≡ accepting 0
unfolding run
still_accepting = refl

admission_exact_example :
    Admits true (text "10.0.0.3:4000") (run true wallets listening).0 (
      step true
        (selected 2 false (some (ok (text "10.0.0.3:4000"))))
        (run true wallets listening).0)
admission_exact_example =
    admission_exact true wallets 2 0 (text "10.0.0.3:4000") still_accepting (omega arith)

abbrev bad_descriptor : IoError
bad_descriptor = record { kind = other; raw_os_error = some 9 }

abbrev breaking : List Event
breaking = selected 0 false (some (err bad_descriptor)) ∷ []

broken : (run true breaking listening).0.phase ≡ returned (failed bad_descriptor)
unfolding run
broken = refl

failure-IsFatal_example : Any (HitsFatal bad_descriptor) breaking
failure-IsFatal_example = failure-IsFatal true breaking bad_descriptor broken

requests-IsEncrypted_example :
    All (IsEncrypted (λ id. Any (Handshakes id) wallets)) (run true wallets listening).1
requests-IsEncrypted_example = requests-IsEncrypted wallets

abbrev served : Server
served = (run true wallets listening).0

abbrev stopping : List Event
stopping = selected 2 true none ∷ ended 0 ∷ []

shutdown_drains_example :
    All IsClosed (run true stopping served).1
    × IsOver
        (run true (stopping ++ timer 10002 ∷ []) served).0.tasks
        (run true (stopping ++ timer 10002 ∷ []) served).0.phase
shutdown_drains_example =
    shutdown_drains true (run true wallets listening).0 2 0 10002 none (ended 0 ∷ [])
      still_accepting (omega arith) (omega arith)

pools_isolated_example :
    All (Owns (run true wallets listening).1) (run true wallets listening).0.tasks
pools_isolated_example = pools_isolated true wallets
