-- ===== src/Listener/Admission.antt =====
-- Which connections the accept loop admits (`serve_with_shutdown` of zeronym/shim/src/proxy.rs).
use zero_shim.Prelude.{
  ℕ, zero, suc, ◌+◌, ◌≤◌, ◌<◌, ◌≡◌, refl, ◌↔◌, Bool, true, false, Option, some, List, [], ◌∷◌,
  arith, leb, Result, ok, length,
}
use zero_shim.Text.{Text}
use zero_shim.Listener.{
  max_inflight_connections, IoError, accepting, Server, listening, Event, selected, Effect, refused,
  started, admit, select, awake, react, is_returned, step, run,
}
use zero_shim.Listener.Permits.{run-IsBalanced, listening-IsBalanced}

-- What becomes of a connection that is accepted: it is refused, and nothing changes, exactly if
-- MAX_INFLIGHT_CONNECTIONS are alive; else it gets a task and takes a permit.
abbrev pub Admits : Bool → Text → Server → Server × List Effect → Type 0
Admits tls peer s r =
    ((r.1 ≡ refused peer ∷ []) ↔ (length s.tasks ≡ max_inflight_connections))
    × (length s.tasks ≡ max_inflight_connections → r.0 ≡ s)
    × ((r.1 ≡ started s.spawned peer ∷ []) ↔ (length s.tasks < max_inflight_connections))
    × (length s.tasks < max_inflight_connections
        → (length r.0.tasks ≡ length s.tasks + 1)
          × (r.0.permits + 1 ≡ s.permits)
          × (r.0.phase ≡ s.phase))

admit-Admits :
    (tls : Bool) (peer : Text) (s : Server) (permits : ℕ)
    → s.permits ≡ permits
    → permits + length s.tasks ≡ max_inflight_connections
    → Admits tls peer s (admit tls peer permits s)
unfolding admit
admit-Admits tls peer s zero e b = (
  ((λ h. omega arith), (λ h. refl)),
  (λ h. refl),
  ((λ h. absurd (ground arith)), (λ h. absurd (omega arith))),
  (λ h. absurd (omega arith)),
)
admit-Admits tls peer s (suc left) e b = (
  ((λ h. absurd (ground arith)), (λ h. absurd (omega arith))),
  (λ h. absurd (omega arith)),
  ((λ h. omega arith), (λ h. refl)),
  (λ h. (omega arith, omega arith, refl)),
)

-- A turn of the loop that is not asleep.
pub step-select :
    (tls : Bool) (s : Server) (now at : ℕ) (shutdown : Bool)
    (accepted : Option (Result IoError Text))
    → s.phase ≡ accepting at
    → at ≤ now
    → step tls (selected now shutdown accepted) s ≡ select tls now shutdown accepted s
unfolding step react awake
step-select tls s now at shutdown accepted e l =
    let t : leb at now ≡ true = ground arith in rw (e, is_returned, awake, t) refl

-- At any point of any run at which the loop is not asleep, and the shutdown has not fired: a
-- connection that is accepted is refused, and nothing changes, exactly if MAX_INFLIGHT_CONNECTIONS
-- are alive; else it is given a task and one permit, and the loop goes on.
pub admission_exact :
    (tls : Bool) (es : List Event) (now at : ℕ) (peer : Text)
    → (run tls es listening).0.phase ≡ accepting at
    → at ≤ now
    → Admits tls peer
        (run tls es listening).0
        (step tls (selected now false (some (ok peer))) (run tls es listening).0)
unfolding select
admission_exact tls es now at peer e l =
    let s = (run tls es listening).0 in
    let b = run-IsBalanced tls es listening listening-IsBalanced in
    rw (step-select tls s now at false (some (ok peer)) e l)
      (admit-Admits tls peer s s.permits refl b.places)
