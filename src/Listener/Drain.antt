-- ===== src/Listener/Drain.antt =====
-- The end of the accept loop (`serve_with_shutdown` of zeronym/shim/src/proxy.rs).
use zero_shim.Prelude.{
  ℕ, ◌+◌, ◌≤◌, ◌<◌, ◌≡◌, refl, inl, inr, Bool, true, false, Option, none, some, List, [], ◌∷◌, ◌++◌,
  arith, leb, Bool-cases, Result, ok, err, length, All, All-append,
}
use zero_shim.Text.{Text}
use zero_shim.Pool.{Call}
use zero_shim.Listener.{
  drain_timeout, IoError, Stage, handshaking, serving_plain, serving_tls, Connection, failed,
  drained, drain_timed_out, Phase, accepting, draining, returned, Server, Event, selected,
  tls_accepted, requested, ended, timer, Effect, refused, started, handled, task, without, replaced,
  settled, finish, shut, select, handshake, handshaken, used, handle_on, serve, hang_up, expire,
  awake, react, is_returned, step, run,
}
use zero_shim.Listener.Tasks.{length-replaced}
use zero_shim.Listener.Admission.{step-select}

-- No connection is accepted.
abbrev pub IsClosed : Effect → Type 0
IsClosed (handled id stage call) = Unit {0}
IsClosed (refused peer) = ⊥
IsClosed (started id peer) = ⊥

-- From the shutdown on: connections are still open, and the drain goes on or has timed out; or none
-- is and the drain is over.
abbrev Ends : ℕ → List Connection → Phase → Type 0
Ends deadline cs (accepting at) = ⊥
Ends deadline cs (draining d) = (d ≡ deadline) × (0 < length cs)
Ends deadline cs (returned (failed e)) = ⊥
Ends deadline cs (returned drained) = length cs ≡ 0
Ends deadline cs (returned drain_timed_out) = 0 < length cs

module _ (deadline : ℕ) where
  settled-Ends :
      (d : ℕ) (cs : List Connection) → d ≡ deadline → Ends deadline cs (settled (draining d) cs)
  unfolding settled
  settled-Ends d [] e = refl
  settled-Ends d (c ∷ cs) e = (e, omega arith)

  finish-Ends :
      (id : ℕ) (s : Server) (d : ℕ)
      → s.phase ≡ draining d
      → d ≡ deadline
      → Ends deadline (finish id s).tasks (finish id s).phase
  unfolding finish
  finish-Ends id s d e q = rw e (settled-Ends d (without id s.tasks) q)

  module _ (s : Server) (d : ℕ) (e : s.phase ≡ draining d)
      (h : Ends deadline s.tasks (draining d)) where
    held : Ends deadline s.tasks s.phase
    held = coe 1 0 (i. Ends deadline s.tasks (e i)) h

    replaced-held : (new : Connection) → Ends deadline (replaced new s.tasks) s.phase
    replaced-held new =
        let l = length-replaced new s.tasks in
        coe 1 0 (i. Ends deadline (replaced new s.tasks) (e i)) (h.0, omega (arith, h.1))

    handshaken-Ends :
        (id : ℕ) (result : Result Text Bool) (o : Option Connection)
        → Ends deadline (handshaken id result o s).tasks (handshaken id result o s).phase
    unfolding handshaken handshake
    handshaken-Ends id result none = held
    handshaken-Ends id result (some c) = by c.stage result
      where
        chosen : Stage → Result Text Bool → Server
        chosen stage result = elim stage [
          | handshaking ↦ handshake id result c s
          | serving_plain ↦ s
          | serving_tls ↦ s
        ]

        by :
            (stage : Stage) (result : Result Text Bool)
            → Ends deadline (chosen stage result).tasks (chosen stage result).phase
        by handshaking (ok true) = replaced-held (record c { stage = serving_tls })
        by handshaking (ok false) = finish-Ends id s d e h.0
        by handshaking (err x) = finish-Ends id s d e h.0
        by serving_plain r = held
        by serving_tls r = held

    serve-Ends :
        (call : Option Call) (o : Option Connection)
        → Ends deadline (serve call o s).0.tasks (serve call o s).0.phase
          × All IsClosed (serve call o s).1
    unfolding serve handle_on
    serve-Ends call none = (held, tt)
    serve-Ends call (some c) = by c.stage
      where
        chosen : Stage → Server × List Effect
        chosen stage = elim stage [
          | handshaking ↦ (s, [])
          | serving_plain ↦ handle_on call c s
          | serving_tls ↦ handle_on call c s
        ]

        by :
            (stage : Stage)
            → Ends deadline (chosen stage).0.tasks (chosen stage).0.phase
              × All IsClosed (chosen stage).1
        by handshaking = (held, tt)
        by serving_plain = (replaced-held (record c { pool = used call c.pool }), (tt, tt))
        by serving_tls = (replaced-held (record c { pool = used call c.pool }), (tt, tt))

    react-Ends :
        (tls : Bool) (ev : Event)
        → Ends deadline (react tls ev s).0.tasks (react tls ev s).0.phase
          × All IsClosed (react tls ev s).1
    unfolding react
    react-Ends tls (selected now sd acc) = rw (e, awake) (h, tt)
    react-Ends tls (tls_accepted id result) = (handshaken-Ends id result (task id s.tasks), tt)
    react-Ends tls (requested id call) = serve-Ends call (task id s.tasks)
    react-Ends tls (ended id) = (by (task id s.tasks), tt)
      where
        by : (o : Option Connection) → Ends deadline (hang_up id o s).tasks (hang_up id o s).phase
        by none = unfold hang_up in held
        by (some c) = unfold hang_up in finish-Ends id s d e h.0
    react-Ends tls (timer now) = elim (Bool-cases (leb d now)) [
      | inl l ↦ rw (e, expire, l) (h.1, tt)
      | inr l ↦ rw (e, expire, l) (h, tt)
    ]

  step-Ends :
      (tls : Bool) (ev : Event) (s : Server) (p : Phase)
      → s.phase ≡ p
      → Ends deadline s.tasks p
      → Ends deadline (step tls ev s).0.tasks (step tls ev s).0.phase
        × All IsClosed (step tls ev s).1
  unfolding step
  step-Ends tls ev s (draining d) e h =
      let r : is_returned s.phase ≡ false = rw e in rw r (react-Ends s d e h tls ev)
  step-Ends tls ev s (returned x) e h =
      let r : is_returned s.phase ≡ true = rw e in
      rw r (coe 1 0 (i. Ends deadline s.tasks (e i)) h, tt)
  step-Ends tls ev s (accepting at) e h = absurd h

  run-Ends :
      (tls : Bool) (es : List Event) (s : Server)
      → Ends deadline s.tasks s.phase
      → Ends deadline (run tls es s).0.tasks (run tls es s).0.phase × All IsClosed (run tls es s).1
  unfolding run
  run-Ends tls [] s h = (h, tt)
  run-Ends tls (ev ∷ es) s h =
      let k = step-Ends tls ev s s.phase refl h in
      let r = run-Ends tls es (step tls ev s).0 k.0 in
      (r.0, All-append IsClosed (step tls ev s).1 (run tls es (step tls ev s).0).1 k.1 r.1)

run-append :
    (tls : Bool) (es fs : List Event) (s : Server)
    → (run tls (es ++ fs) s).0 ≡ (run tls fs (run tls es s).0).0
unfolding run
run-append tls [] fs s = refl
run-append tls (e ∷ es) fs s = run-append tls es fs (step tls e s).0

-- Over: no connection is open and the drain has ended, or some are and it has timed out.
abbrev pub IsOver : List Connection → Phase → Type 0
IsOver cs (accepting at) = ⊥
IsOver cs (draining d) = ⊥
IsOver cs (returned (failed e)) = ⊥
IsOver cs (returned drained) = length cs ≡ 0
IsOver cs (returned drain_timed_out) = 0 < length cs

timer-IsOver :
    (deadline late : ℕ) (tls : Bool) (s : Server) (p : Phase)
    → deadline ≤ late
    → s.phase ≡ p
    → Ends deadline s.tasks p
    → IsOver (step tls (timer late) s).0.tasks (step tls (timer late) s).0.phase
unfolding step react
timer-IsOver deadline late tls s (draining d) l e h =
    let t : leb d late ≡ true = ground (arith, h.0) in rw (e, is_returned, expire, t) h.1
timer-IsOver deadline late tls s (returned drained) l e h = rw (e, is_returned) h
timer-IsOver deadline late tls s (returned drain_timed_out) l e h = rw (e, is_returned) h
timer-IsOver deadline late tls s (returned (failed x)) l e h = absurd h
timer-IsOver deadline late tls s (accepting at) l e h = absurd h

shutting-Ends :
    (tls : Bool) (s : Server) (now at : ℕ) (accepted : Option (Result IoError Text))
    → s.phase ≡ accepting at
    → at ≤ now
    → Ends
        (now + drain_timeout)
        (step tls (selected now true accepted) s).0.tasks
        (step tls (selected now true accepted) s).0.phase
      × All IsClosed (step tls (selected now true accepted) s).1
unfolding select shut
shutting-Ends tls s now at accepted e l =
    rw (step-select tls s now at true accepted e l)
      (settled-Ends (now + drain_timeout) (now + drain_timeout) s.tasks refl, tt)

-- A loop that is not asleep and sees the shutdown accepts nothing more, whatever else is ready in
-- that turn and whatever follows; and it has returned by the time that the timer of the drain
-- fires, DRAIN_TIMEOUT later or after that: as drained if no connection is open then, else as timed
-- out.
pub shutdown_drains :
    (tls : Bool) (s : Server) (now at late : ℕ) (accepted : Option (Result IoError Text))
    (es : List Event)
    → s.phase ≡ accepting at
    → at ≤ now
    → now + drain_timeout ≤ late
    → All IsClosed (run tls (selected now true accepted ∷ es) s).1
      × IsOver
          (run tls (selected now true accepted ∷ es ++ timer late ∷ []) s).0.tasks
          (run tls (selected now true accepted ∷ es ++ timer late ∷ []) s).0.phase
unfolding run
shutdown_drains tls s now at late accepted es e l lt =
    let begun = shutting-Ends tls s now at accepted e l in
    let first = step tls (selected now true accepted) s in
    let r = run-Ends (now + drain_timeout) tls es first.0 begun.0 in
    let last = run tls es first.0 in
    (
      All-append IsClosed first.1 last.1 begun.1 r.1,
      rw (run-append tls es (timer late ∷ []) first.0)
          (timer-IsOver (now + drain_timeout) late tls last.0 last.0.phase lt refl r.0),
    )
