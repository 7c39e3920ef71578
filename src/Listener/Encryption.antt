-- ===== src/Listener/Encryption.antt =====
-- Which stream a request of a wallet is served on (`serve_with_shutdown` and `serve_connection` of
-- zeronym/shim/src/proxy.rs).
use zero_shim.Prelude.{
  ℕ, zero, suc, ◌≡◌, refl, ◌⊎◌, inl, inr, Bool, true, false, Option, none, some, List, [], ◌∷◌,
  arith, leb, Bool-cases, Result, ok, err, All, All-append,
}
use zero_shim.Prelude.{Any, All-by}
use zero_shim.Text.{Text}
use zero_shim.Pool.{Call}
use zero_shim.Listener.{
  IoError, Stage, handshaking, serving_plain, serving_tls, Connection, Phase, accepting, draining,
  returned, Server, listening, Event, selected, tls_accepted, requested, ended, timer, Effect,
  refused, started, handled, task, finish, shut, admit, accept_failed, select, handshake,
  handshaken, used, handle_on, serve, hang_up, expire, awake, react, is_returned, step, run,
}
use zero_shim.Listener.Tasks.{task-id, All-task, All-without, All-replaced}

-- The end of a handshake on a wallet's connection, with a stream.
abbrev pub Handshakes : ℕ → Event → Type 0
Handshakes id ev = ev ≡ tls_accepted id (ok true)

module _ (P : ℕ → Type 0) where
  abbrev IsSecured : Connection → Type 0
  IsSecured c = (c.stage ≡ handshaking) ⊎ ((c.stage ≡ serving_tls) × P c.id)

  abbrev AreSecured : Server → Type 0
  AreSecured s = All IsSecured s.tasks

  abbrev pub IsEncrypted : Effect → Type 0
  IsEncrypted (handled id stage call) = (stage ≡ serving_tls) × P id
  IsEncrypted (refused peer) = Unit {0}
  IsEncrypted (started id peer) = Unit {0}

  abbrev Grants : Event → Type 0
  Grants (tls_accepted id (ok true)) = P id
  Grants _ = Unit {0}

  accept_failed-AreSecured :
      (now : ℕ) (e : IoError) (s : Server) → AreSecured s → AreSecured (accept_failed now e s)
  unfolding accept_failed
  accept_failed-AreSecured now e s h = ground (arith, h)

  select-AreSecured :
      (now : ℕ) (shutdown : Bool) (accepted : Option (Result IoError Text)) (s : Server)
      → AreSecured s
      → AreSecured (select true now shutdown accepted s).0
        × All IsEncrypted (select true now shutdown accepted s).1
  unfolding select shut
  select-AreSecured now true accepted s h = (h, tt)
  select-AreSecured now false none s h = (h, tt)
  select-AreSecured now false (some (err e)) s h = (accept_failed-AreSecured now e s h, tt)
  select-AreSecured now false (some (ok peer)) s h = by s.permits
    where
      by :
          (permits : ℕ)
          → AreSecured (admit true peer permits s).0 × All IsEncrypted (admit true peer permits s).1
      by zero = unfold admit in (h, (tt, tt))
      by (suc left) = unfold admit in ((inl refl, h), (tt, tt))

  awake-AreSecured :
      (now : ℕ) (shutdown : Bool) (accepted : Option (Result IoError Text)) (p : Phase) (s : Server)
      → AreSecured s
      → AreSecured (awake true now shutdown accepted p s).0
        × All IsEncrypted (awake true now shutdown accepted p s).1
  unfolding awake
  awake-AreSecured now shutdown accepted (draining d) s h = (h, tt)
  awake-AreSecured now shutdown accepted (returned x) s h = (h, tt)
  awake-AreSecured now shutdown accepted (accepting at) s h = elim (Bool-cases (leb at now)) [
    | inl l ↦ rw l (select-AreSecured now shutdown accepted s h)
    | inr l ↦ rw l (h, tt)
  ]

  handshaken-AreSecured :
      (id : ℕ) (result : Result Text Bool) (o : Option Connection) (s : Server)
      → task id s.tasks ≡ o
      → Grants (tls_accepted id result)
      → AreSecured s
      → AreSecured (handshaken id result o s)
  unfolding handshaken handshake finish
  handshaken-AreSecured id result none s f g h = h
  handshaken-AreSecured id result (some c) s f g h = by c.stage result g
    where
      by :
          (stage : Stage) (result : Result Text Bool)
          → Grants (tls_accepted id result)
          → AreSecured (elim stage [
            | handshaking ↦ handshake id result c s
            | serving_plain ↦ s
            | serving_tls ↦ s
          ])
      by handshaking (ok true) g =
          let q = task-id id c s.tasks f in
          All-replaced IsSecured (record c { stage = serving_tls }) s.tasks h
            (inr (refl, coe 1 0 (i. P (q i)) g))
      by handshaking (ok false) g = All-without IsSecured id s.tasks h
      by handshaking (err e) g = All-without IsSecured id s.tasks h
      by serving_plain r g = h
      by serving_tls r g = h

  serve-AreSecured :
      (call : Option Call) (o : Option Connection) (id : ℕ) (s : Server)
      → task id s.tasks ≡ o
      → AreSecured s
      → AreSecured (serve call o s).0 × All IsEncrypted (serve call o s).1
  unfolding serve handle_on
  serve-AreSecured call none id s f h = (h, tt)
  serve-AreSecured call (some c) id s f h = by c.stage (All-task IsSecured id c s.tasks h f) refl
    where
      by :
          (stage : Stage)
          → IsSecured c
          → c.stage ≡ stage
          → AreSecured
              (elim stage as (λ _. Server × List Effect) [
                | handshaking ↦ (s, [])
                | serving_plain ↦ handle_on call c s
                | serving_tls ↦ handle_on call c s
              ]).0
            × All IsEncrypted
                (elim stage as (λ _. Server × List Effect) [
                  | handshaking ↦ (s, [])
                  | serving_plain ↦ handle_on call c s
                  | serving_tls ↦ handle_on call c s
                ]).1
      by handshaking g q = (h, tt)
      by serving_plain (inl g) q = absurd (ground arith)
      by serving_plain (inr g) q = absurd (ground arith)
      by serving_tls (inl g) q = absurd (ground arith)
      by serving_tls (inr g) q =
          (All-replaced IsSecured (record c { pool = used call c.pool }) s.tasks h (inr g), (g, tt))

  react-AreSecured :
      (ev : Event) (s : Server)
      → Grants ev
      → AreSecured s
      → AreSecured (react true ev s).0 × All IsEncrypted (react true ev s).1
  unfolding react
  react-AreSecured (selected now shutdown accepted) s g h =
      awake-AreSecured now shutdown accepted s.phase s h
  react-AreSecured (tls_accepted id result) s g h =
      (handshaken-AreSecured id result (task id s.tasks) s refl g h, tt)
  react-AreSecured (requested id call) s g h = serve-AreSecured call (task id s.tasks) id s refl h
  react-AreSecured (ended id) s g h = (by (task id s.tasks), tt)
    where
      by : (o : Option Connection) → AreSecured (hang_up id o s)
      by none = unfold hang_up in h
      by (some c) = unfold hang_up finish in All-without IsSecured id s.tasks h
  react-AreSecured (timer now) s g h = (by s.phase, tt)
    where
      by : (p : Phase) → AreSecured (expire now p s)
      by (accepting at) = unfold expire in h
      by (draining d) = unfold expire in ground (arith, h)
      by (returned x) = unfold expire in h

  step-AreSecured :
      (ev : Event) (s : Server)
      → Grants ev
      → AreSecured s
      → AreSecured (step true ev s).0 × All IsEncrypted (step true ev s).1
  unfolding step
  step-AreSecured ev s g h = elim (Bool-cases (is_returned s.phase)) [
    | inl r ↦ rw r (h, tt)
    | inr r ↦ rw r (react-AreSecured ev s g h)
  ]

  run-IsEncrypted :
      (es : List Event) (s : Server)
      → All Grants es
      → AreSecured s
      → All IsEncrypted (run true es s).1
  unfolding run
  run-IsEncrypted [] s g h = tt
  run-IsEncrypted (ev ∷ es) s g h =
      let k = step-AreSecured ev s g.0 h in
      All-append IsEncrypted (step true ev s).1 (run true es (step true ev s).0).1 k.1
        (run-IsEncrypted es (step true ev s).0 g.1 k.0)

each-Grants :
    (es : List Event) (ev : Event) → Any (λ x. x ≡ ev) es → Grants (λ id. Any (Handshakes id) es) ev
each-Grants es (tls_accepted id (ok true)) h = h
each-Grants es (tls_accepted id (ok false)) h = tt
each-Grants es (tls_accepted id (err e)) h = tt
each-Grants es (selected n b a) h = tt
each-Grants es (requested id c) h = tt
each-Grants es (ended id) h = tt
each-Grants es (timer n) h = tt

-- With TLS: however the loop is driven, a request is handled on a TLS stream alone, and only on a
-- connection whose own handshake has ended with a stream. A failed handshake is never followed by
-- plaintext, and an ACME challenge is never handed to the proxy.
pub requests-IsEncrypted :
    (es : List Event) → All (IsEncrypted (λ id. Any (Handshakes id) es)) (run true es listening).1
requests-IsEncrypted es =
    let P : ℕ → Type 0 = λ id. Any (Handshakes id) es in
    run-IsEncrypted P es listening (All-by (Grants P) es (each-Grants es)) tt
