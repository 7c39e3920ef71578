-- ===== src/Listener/Failures.antt =====
-- The errors of `accept` in the loop of `serve_with_shutdown` (zeronym/shim/src/proxy.rs).
use zero_shim.Prelude.{
  ℕ, ◌+◌, ◌≡◌, refl, ◌≢◌, ◌⊎◌, inl, inr, Bool, true, false, Option, none, some, List, [], ◌∷◌,
  arith, leb, Bool-cases, Result, ok, err,
}
use zero_shim.Prelude.{Any}
use zero_shim.Text.{Text}
use zero_shim.Listener.{
  drain_timeout, ErrorKind, connection_aborted, connection_reset, interrupted, other, is_transient,
  is_transient_accept_error, is_exhausted, is_fd_exhaustion, IoError, Connection, failed, Phase,
  accepting, draining, returned, Server, listening, Event, selected, tls_accepted, requested, ended,
  timer, without, settled, finish, shut, admit, accept_failed, select, handshake, handshaken,
  handle_on, serve, hang_up, expire, awake, react, is_returned, step, run,
}

-- The errors that say that the listener cannot be used any more: none that an accept can meet on a
-- sound listener, and neither EMFILE nor ENFILE.
abbrev pub IsFatal : IoError → Type 0
IsFatal e = (e.kind ≡ other) × (e.raw_os_error ≢ some 23) × (e.raw_os_error ≢ some 24)

abbrev pub HitsFatal : IoError → Event → Type 0
HitsFatal e (selected now false (some (err d))) = (d ≡ e) × IsFatal e
HitsFatal e _ = ⊥

kind_cases : (k : ErrorKind) → is_transient k ≡ false → k ≡ other
unfolding is_transient
kind_cases other h = refl
kind_cases connection_aborted h = cc
kind_cases connection_reset h = cc
kind_cases interrupted h = cc

code_cases : (c : Option ℕ) → is_exhausted c ≡ false → (c ≢ some 23) × (c ≢ some 24)
unfolding is_exhausted
code_cases none h = ((λ e. absurd (ground arith)), (λ e. absurd (ground arith)))
code_cases (some c) h = ((λ e. absurd (ground arith)), (λ e. absurd (ground arith)))

module _ (e : IoError) where
  abbrev IsFailed : Phase → Type 0
  IsFailed p = p ≡ returned (failed e)

  accept_failed-IsFailed :
      (now : ℕ) (d : IoError) (s : Server)
      → IsFailed (accept_failed now d s).phase
      → IsFailed s.phase ⊎ ((d ≡ e) × IsFatal e)
  unfolding accept_failed is_transient_accept_error is_fd_exhaustion
  accept_failed-IsFailed now d s h = elim (Bool-cases (is_transient d.kind)) [
    | inl t ↦ inl (ground arith)
    | inr t ↦ elim (Bool-cases (is_exhausted d.raw_os_error)) [
      | inl x ↦ absurd (ground arith)
      | inr x ↦
          let q : d ≡ e = ground arith in
          let k = code_cases d.raw_os_error x in
          inr (q, coe 0 1 (i. IsFatal (q i)) (kind_cases d.kind t, k.0, k.1))
    ]
  ]

  settled-IsFailed : (p : Phase) (cs : List Connection) → IsFailed (settled p cs) → IsFailed p
  unfolding settled
  settled-IsFailed (accepting at) cs h = h
  settled-IsFailed (draining d) [] h = absurd (ground arith)
  settled-IsFailed (draining d) (c ∷ cs) h = h
  settled-IsFailed (returned x) cs h = h

  finish-IsFailed : (id : ℕ) (s : Server) → IsFailed (finish id s).phase → IsFailed s.phase
  unfolding finish
  finish-IsFailed id s h = settled-IsFailed s.phase (without id s.tasks) h

  select-IsFailed :
      (tls : Bool) (now : ℕ) (shutdown : Bool) (accepted : Option (Result IoError Text))
      (s : Server)
      → IsFailed (select tls now shutdown accepted s).0.phase
      → IsFailed s.phase ⊎ HitsFatal e (selected now shutdown accepted)
  unfolding select shut admit
  select-IsFailed tls now true accepted s h =
      absurd (ground (arith, settled-IsFailed (draining (now + drain_timeout)) s.tasks h))
  select-IsFailed tls now false none s h = inl h
  select-IsFailed tls now false (some (ok peer)) s h = inl (ground arith)
  select-IsFailed tls now false (some (err d)) s h = accept_failed-IsFailed now d s h

  react-IsFailed :
      (tls : Bool) (ev : Event) (s : Server)
      → IsFailed (react tls ev s).0.phase
      → IsFailed s.phase ⊎ HitsFatal e ev
  unfolding react
  react-IsFailed tls (selected now shutdown accepted) s h = awaking s.phase refl h
    where
      awaking :
          (p : Phase)
          → s.phase ≡ p
          → IsFailed (awake tls now shutdown accepted p s).0.phase
          → IsFailed s.phase ⊎ HitsFatal e (selected now shutdown accepted)
      awaking (accepting at) q g =
          unfold awake in
          elim (Bool-cases (leb at now)) [
            | inl l ↦ select-IsFailed tls now shutdown accepted s (ground arith)
            | inr l ↦ inl (ground arith)
          ]
      awaking (draining d) q g = inl (unfold awake in g)
      awaking (returned x) q g = inl (unfold awake in g)
  react-IsFailed tls (tls_accepted id result) s h =
      inl (unfold handshaken handshake in ground (arith, finish-IsFailed id s))
  react-IsFailed tls (requested id call) s h = inl (unfold serve handle_on in ground arith)
  react-IsFailed tls (ended id) s h = inl (unfold hang_up in ground (arith, finish-IsFailed id s))
  react-IsFailed tls (timer now) s h = inl (unfold expire in ground arith)

  step-IsFailed :
      (tls : Bool) (ev : Event) (s : Server)
      → IsFailed (step tls ev s).0.phase
      → IsFailed s.phase ⊎ HitsFatal e ev
  unfolding step
  step-IsFailed tls ev s h = elim (Bool-cases (is_returned s.phase)) [
    | inl r ↦ inl (ground arith)
    | inr r ↦ react-IsFailed tls ev s (ground arith)
  ]

  run-IsFailed :
      (tls : Bool) (es : List Event) (s : Server)
      → IsFailed (run tls es s).0.phase
      → IsFailed s.phase ⊎ Any (HitsFatal e) es
  unfolding run
  run-IsFailed tls [] s h = inl h
  run-IsFailed tls (ev ∷ es) s h = elim (run-IsFailed tls es (step tls ev s).0 h) [
    | inl g ↦ elim (step-IsFailed tls ev s g) [ inl p ↦ inl p | inr p ↦ inr (inl p) ]
    | inr g ↦ inr (inr g)
  ]

-- However the loop is driven, it returns an error only if an accept ended in that very error before
-- the shutdown fired, and the error is neither an aborted or reset connection, nor an interrupted
-- call, nor EMFILE or ENFILE.
pub failure-IsFatal :
    (tls : Bool) (es : List Event) (e : IoError)
    → (run tls es listening).0.phase ≡ returned (failed e)
    → Any (HitsFatal e) es
failure-IsFatal tls es e h = elim (run-IsFailed e tls es listening h) [
  | inl g ↦ absurd (ground arith)
  | inr g ↦ g
]
