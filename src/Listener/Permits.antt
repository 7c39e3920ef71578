-- ===== src/Listener/Permits.antt =====
-- The permits that the connection tasks hold (`serve_with_shutdown` of zeronym/shim/src/proxy.rs).
use zero_shim.Prelude.{
  ℕ, zero, suc, ◌+◌, ◌≤◌, ◌<◌, ◌≡◌, refl, inl, inr, Bool, true, false, Option, none, some, List, [],
  ◌∷◌, arith, leb, ◌==◌, ==_iff, Bool-cases, Result, ok, err, length,
}
use zero_shim.Text.{Text}
use zero_shim.Pool.{Call}
use zero_shim.Listener.{
  max_inflight_connections, IoError, Stage, handshaking, serving_plain, serving_tls, Connection,
  Phase, accepting, draining, returned, Server, listening, Event, selected, tls_accepted, requested,
  ended, timer, Effect, task, without, replaced, finish, shut, admit, accept_failed, select,
  handshake, handshaken, handle_on, serve, hang_up, expire, awake, react, is_returned, step, run,
}
use zero_shim.Listener.Tasks.{length-without, length-replaced}

-- The tasks stand in the order of their numbers, the last first, all below a bound.
abbrev pub AreBelow : ℕ → List Connection → Type 0
AreBelow n [] = Unit {0}
AreBelow n (c ∷ cs) = (c.id < n) × AreBelow c.id cs

AreBelow-le : (m n : ℕ) (cs : List Connection) → m ≤ n → AreBelow m cs → AreBelow n cs
AreBelow-le m n [] l h = tt
AreBelow-le m n (c ∷ cs) l h = (omega arith, h.1)

without-AreBelow : (id n : ℕ) (cs : List Connection) → AreBelow n cs → AreBelow n (without id cs)
without-AreBelow id n [] h = tt
without-AreBelow id n (c ∷ cs) h = elim (Bool-cases (c.id == id)) [
  | inl e ↦ rw e (AreBelow-le c.id n cs (omega arith) h.1)
  | inr e ↦ rw e (h.0, without-AreBelow id c.id cs h.1)
]

replaced-AreBelow :
    (new : Connection) (n : ℕ) (cs : List Connection) → AreBelow n cs → AreBelow n (replaced new cs)
replaced-AreBelow new n [] h = tt
replaced-AreBelow new n (c ∷ cs) h = elim (Bool-cases (c.id == new.id)) [
  | inl e ↦ let q = (==_iff c.id new.id).0 e in rw e (coe 0 1 (i. (q i < n) × AreBelow (q i) cs) h)
  | inr e ↦ rw e (h.0, replaced-AreBelow new c.id cs h.1)
]

-- What holds between the events: a permit for each place that no task holds, and tasks numbered
-- apart.
pub record IsBalanced (s : Server) : Type 0 where
  pub places : s.permits + length s.tasks ≡ max_inflight_connections
  pub numbered : AreBelow s.spawned s.tasks

module _ {s : Server} (b : IsBalanced s) where
  replaced-IsBalanced : (new : Connection) → IsBalanced (record s { tasks = replaced new s.tasks })
  replaced-IsBalanced new = record {
    places = omega (arith, b.places, length-replaced new s.tasks);
    numbered = replaced-AreBelow new s.spawned s.tasks b.numbered;
  }

  finish-IsBalanced :
      (id : ℕ) (c : Connection) → task id s.tasks ≡ some c → IsBalanced (finish id s)
  unfolding finish
  finish-IsBalanced id c f = record {
    places = omega (arith, b.places, length-without id c s.tasks f);
    numbered = without-AreBelow id s.spawned s.tasks b.numbered;
  }

  admit-IsBalanced :
      (tls : Bool) (peer : Text) (permits : ℕ)
      → s.permits ≡ permits
      → IsBalanced (admit tls peer permits s).0
  unfolding admit
  admit-IsBalanced tls peer zero e = b
  admit-IsBalanced tls peer (suc left) e = record {
    places = omega (arith, b.places);
    numbered = (omega arith, b.numbered);
  }

  rephased-IsBalanced : (phase : Phase) → IsBalanced (record s { phase = phase })
  rephased-IsBalanced phase = record { places = b.places; numbered = b.numbered }

  accept_failed-IsBalanced : (now : ℕ) (e : IoError) → IsBalanced (accept_failed now e s)
  unfolding accept_failed
  accept_failed-IsBalanced now e = ground (arith, b)

  select-IsBalanced :
      (tls : Bool) (now : ℕ) (shutdown : Bool) (accepted : Option (Result IoError Text))
      → IsBalanced (select tls now shutdown accepted s).0
  unfolding select shut
  select-IsBalanced tls now true accepted = rephased-IsBalanced _
  select-IsBalanced tls now false none = b
  select-IsBalanced tls now false (some (ok peer)) = admit-IsBalanced tls peer s.permits refl
  select-IsBalanced tls now false (some (err e)) = accept_failed-IsBalanced now e

  awake-IsBalanced :
      (tls : Bool) (now : ℕ) (shutdown : Bool) (accepted : Option (Result IoError Text))
      (phase : Phase)
      → IsBalanced (awake tls now shutdown accepted phase s).0
  unfolding awake
  awake-IsBalanced tls now shutdown accepted (draining deadline) = b
  awake-IsBalanced tls now shutdown accepted (returned exit) = b
  awake-IsBalanced tls now shutdown accepted (accepting at) = elim (Bool-cases (leb at now)) [
    | inl e ↦ rw e (select-IsBalanced tls now shutdown accepted)
    | inr e ↦ rw e b
  ]

  handshaken-IsBalanced :
      (id : ℕ) (result : Result Text Bool) (o : Option Connection)
      → task id s.tasks ≡ o
      → IsBalanced (handshaken id result o s)
  unfolding handshaken handshake
  handshaken-IsBalanced id result none f = b
  handshaken-IsBalanced id result (some c) f = by c.stage result
    where
      by :
          (stage : Stage) (result : Result Text Bool)
          → IsBalanced (elim stage [
            | handshaking ↦ handshake id result c s
            | serving_plain ↦ s
            | serving_tls ↦ s
          ])
      by handshaking (ok true) = replaced-IsBalanced _
      by handshaking (ok false) = finish-IsBalanced id c f
      by handshaking (err e) = finish-IsBalanced id c f
      by serving_plain r = b
      by serving_tls r = b

  serve-IsBalanced : (call : Option Call) (o : Option Connection) → IsBalanced (serve call o s).0
  unfolding serve handle_on
  serve-IsBalanced call none = b
  serve-IsBalanced call (some c) = by c.stage
    where
      by :
          (stage : Stage)
          → IsBalanced
              (elim stage as (λ _. Server × List Effect) [
                | handshaking ↦ (s, [])
                | serving_plain ↦ handle_on call c s
                | serving_tls ↦ handle_on call c s
              ]).0
      by handshaking = b
      by serving_plain = replaced-IsBalanced _
      by serving_tls = replaced-IsBalanced _

  hang_up-IsBalanced :
      (id : ℕ) (o : Option Connection) → task id s.tasks ≡ o → IsBalanced (hang_up id o s)
  unfolding hang_up
  hang_up-IsBalanced id none f = b
  hang_up-IsBalanced id (some c) f = finish-IsBalanced id c f

  expire-IsBalanced : (now : ℕ) (phase : Phase) → IsBalanced (expire now phase s)
  unfolding expire
  expire-IsBalanced now (accepting at) = b
  expire-IsBalanced now (returned exit) = b
  expire-IsBalanced now (draining deadline) = ground (arith, b)

  react-IsBalanced : (tls : Bool) (e : Event) → IsBalanced (react tls e s).0
  unfolding react
  react-IsBalanced tls (selected now shutdown accepted) =
      awake-IsBalanced tls now shutdown accepted s.phase
  react-IsBalanced tls (tls_accepted id result) =
      handshaken-IsBalanced id result (task id s.tasks) refl
  react-IsBalanced tls (requested id call) = serve-IsBalanced call (task id s.tasks)
  react-IsBalanced tls (ended id) = hang_up-IsBalanced id (task id s.tasks) refl
  react-IsBalanced tls (timer now) = expire-IsBalanced now s.phase

  pub step-IsBalanced : (tls : Bool) (e : Event) → IsBalanced (step tls e s).0
  unfolding step
  step-IsBalanced tls e = elim (Bool-cases (is_returned s.phase)) [
    | inl r ↦ rw r b
    | inr r ↦ rw r (react-IsBalanced tls e)
  ]

pub run-IsBalanced :
    (tls : Bool) (es : List Event) (s : Server) → IsBalanced s → IsBalanced (run tls es s).0
unfolding run
run-IsBalanced tls [] s b = b
run-IsBalanced tls (e ∷ es) s b = run-IsBalanced tls es (step tls e s).0 (step-IsBalanced b tls e)

pub listening-IsBalanced : IsBalanced listening
listening-IsBalanced = record { places = refl; numbered = tt }

-- However the loop is driven, with TLS or without, no more than MAX_INFLIGHT_CONNECTIONS connection
-- tasks are alive, each holds one permit and no two have the same number.
pub connections_bounded :
    (tls : Bool) (es : List Event)
    → (length (run tls es listening).0.tasks ≤ max_inflight_connections)
      × ((run tls es listening).0.permits + length (run tls es listening).0.tasks
          ≡ max_inflight_connections)
      × AreBelow (run tls es listening).0.spawned (run tls es listening).0.tasks
connections_bounded tls es =
    let b = run-IsBalanced tls es listening listening-IsBalanced in
    (omega (arith, b.places), b.places, b.numbered)
