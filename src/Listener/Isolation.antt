-- ===== src/Listener/Isolation.antt =====
-- The upstream pools of the connections (`serve_connection` of zeronym/shim/src/proxy.rs): each
-- connection has its own.
use zero_shim.Prelude.{
  ℕ, zero, suc, ◌≤◌, ◌<◌, ◌≡◌, refl, sym, ap, ◌∙◌, ◌≢◌, inl, inr, Bool, true, false, Option, none,
  some, List, [], ◌∷◌, ◌++◌, append-nil, append_assoc, arith, leb, ◌==◌, if◌then◌else◌, ==_iff,
  Bool-cases, Result, ok, err, All,
}
use zero_shim.Prelude.{All-map}
use zero_shim.Text.{Text}
use zero_shim.Pool.{fresh_pool, Call, get, get_all}
use zero_shim.Pool.Backoff.{get_all-snoc, get_all-nil}
use zero_shim.Listener.{
  IoError, Stage, handshaking, serving_plain, serving_tls, Connection, Phase, accepting, draining,
  returned, Server, listening, Event, selected, tls_accepted, requested, ended, timer, Effect,
  refused, started, handled, task, replaced, finish, shut, admit, accept_failed, select, handshake,
  handshaken, used, handle_on, serve, hang_up, expire, awake, react, is_returned, step, run,
}
use zero_shim.Listener.Tasks.{All-task, All-without}
use zero_shim.Listener.Permits.{AreBelow, IsBalanced, step-IsBalanced, listening-IsBalanced}

-- The calls of the pool that the requests on a connection made.
abbrev pub call_of : ℕ → Effect → List Call
call_of id (handled j stage (some call)) = if j == id then call ∷ [] else []
call_of id (handled j stage none) = []
call_of id (refused peer) = []
call_of id (started j peer) = []

abbrev pub calls_of : ℕ → List Effect → List Call
calls_of id [] = []
calls_of id (f ∷ fs) = call_of id f ++ calls_of id fs

calls_of-append :
    (id : ℕ) (fs gs : List Effect) → calls_of id (fs ++ gs) ≡ calls_of id fs ++ calls_of id gs
calls_of-append id [] gs = refl
calls_of-append id (f ∷ fs) gs =
    rw (calls_of-append id fs gs)
      (sym (append_assoc (call_of id f) (calls_of id fs) (calls_of id gs)))

-- The pool of the connection is what its own calls, one after the other, make of a fresh one.
abbrev pub Owns : List Effect → Connection → Type 0
Owns log c = c.pool ≡ (get_all (calls_of c.id log) fresh_pool).0

task-below :
    (n id : ℕ) (c : Connection) (cs : List Connection)
    → AreBelow n cs
    → task id cs ≡ some c
    → c.id < n
task-below n id c [] b f = absurd (ground arith)
task-below n id c (d ∷ cs) b f = elim (Bool-cases (d.id == id)) [
  | inl e ↦ ground arith
  | inr e ↦ let h = task-below d.id id c cs b.1 (ground arith) in omega arith
]

module _ {P Q : Connection → Type 0} (new : Connection) where
  All-apart :
      (n : ℕ) (cs : List Connection)
      → ((c : Connection) → c.id ≢ new.id → P c → Q c)
      → n ≤ new.id
      → AreBelow n cs
      → All P cs
      → All Q cs
  All-apart n [] f l b h = tt
  All-apart n (c ∷ cs) f l b h =
      (f c (λ e. omega arith) h.0, All-apart c.id cs f (omega arith) b.1 h.1)

  -- A property that one task gets anew and the others keep.
  All-renewed :
      (n : ℕ) (cs : List Connection)
      → ((c : Connection) → c.id ≢ new.id → P c → Q c)
      → Q new
      → AreBelow n cs
      → All P cs
      → All Q (replaced new cs)
  All-renewed n [] f q b h = tt
  All-renewed n (c ∷ cs) f q b h = elim (Bool-cases (c.id == new.id)) [
    | inl e ↦ rw e (q, All-apart c.id cs f (ground (arith, ==_iff c.id new.id)) b.1 h.1)
    | inr e ↦
        rw e (f c (λ x. ground (arith, ==_iff c.id new.id)) h.0, All-renewed c.id cs f q b.1 h.1)
  ]

record IsOwn (log : List Effect) (s : Server) : Type 0 where
  own : All (Owns log) s.tasks
  unheard : (id : ℕ) → s.spawned ≤ id → calls_of id log ≡ []

-- No request is among the effects.
abbrev IsQuiet : List Effect → Type 0
IsQuiet gs = (id : ℕ) → calls_of id gs ≡ []

calls_of-quiet :
    (id : ℕ) (log gs : List Effect) → IsQuiet gs → calls_of id (log ++ gs) ≡ calls_of id log
calls_of-quiet id log gs q =
    rw (calls_of-append id log gs) (rw (q id) (append-nil (calls_of id log)))

module _ (log : List Effect) {s : Server} (w : IsOwn log s) where
  -- Where no request is among the effects, the tasks alone matter.
  quiet-IsOwn :
      (gs : List Effect) (t : Server)
      → IsQuiet gs
      → s.spawned ≤ t.spawned
      → All (Owns log) t.tasks
      → IsOwn (log ++ gs) t
  quiet-IsOwn gs t q l h = record {
    own =
        All-map {P = Owns log} {Q = Owns (log ++ gs)} (λ c e. rw (calls_of-quiet c.id log gs q) e)
          t.tasks h;
    unheard = λ id m. rw (calls_of-quiet id log gs q) (w.unheard id (omega arith));
  }

  finish-IsOwn : (id : ℕ) → IsOwn (log ++ []) (finish id s)
  unfolding finish
  finish-IsOwn id =
      quiet-IsOwn [] _ (λ j. refl) (omega arith) (All-without (Owns log) id s.tasks w.own)

  same-IsOwn : IsOwn (log ++ []) s
  same-IsOwn = quiet-IsOwn [] s (λ j. refl) (omega arith) w.own

  admit-IsOwn :
      (tls : Bool) (peer : Text) (permits : ℕ)
      → IsOwn (log ++ (admit tls peer permits s).1) (admit tls peer permits s).0
  unfolding admit
  admit-IsOwn tls peer zero = quiet-IsOwn _ s (λ j. refl) (omega arith) w.own
  admit-IsOwn tls peer (suc left) =
      quiet-IsOwn _ _ (λ j. refl) (omega arith)
        (rw (w.unheard s.spawned (omega arith)) (sym (get_all-nil fresh_pool)), w.own)

  accept_failed-IsOwn : (now : ℕ) (e : IoError) → IsOwn (log ++ []) (accept_failed now e s)
  unfolding accept_failed
  accept_failed-IsOwn now e = quiet-IsOwn [] _ (λ j. refl) (ground arith) (ground (arith, w.own))

  select-IsOwn :
      (tls : Bool) (now : ℕ) (shutdown : Bool) (accepted : Option (Result IoError Text))
      → IsOwn (log ++ (select tls now shutdown accepted s).1) (select tls now shutdown accepted s).0
  unfolding select shut
  select-IsOwn tls now true accepted = quiet-IsOwn [] _ (λ j. refl) (omega arith) w.own
  select-IsOwn tls now false none = same-IsOwn
  select-IsOwn tls now false (some (ok peer)) = admit-IsOwn tls peer s.permits
  select-IsOwn tls now false (some (err e)) = accept_failed-IsOwn now e

  awake-IsOwn :
      (tls : Bool) (now : ℕ) (shutdown : Bool) (accepted : Option (Result IoError Text)) (p : Phase)
      → IsOwn
          (log ++ (awake tls now shutdown accepted p s).1)
          (awake tls now shutdown accepted p s).0
  unfolding awake
  awake-IsOwn tls now shutdown accepted (draining d) = same-IsOwn
  awake-IsOwn tls now shutdown accepted (returned x) = same-IsOwn
  awake-IsOwn tls now shutdown accepted (accepting at) = elim (Bool-cases (leb at now)) [
    | inl l ↦ rw l (select-IsOwn tls now shutdown accepted)
    | inr l ↦ rw l same-IsOwn
  ]

  module _ (b : IsBalanced s) where
    renewed-IsOwn :
        (gs : List Effect) (id : ℕ) (c new : Connection)
        → task id s.tasks ≡ some c
        → new.id ≡ c.id
        → ((j : ℕ) → j ≢ c.id → calls_of j gs ≡ [])
        → Owns (log ++ gs) new
        → IsOwn (log ++ gs) (record s { tasks = replaced new s.tasks })
    renewed-IsOwn gs id c new f n q h = record {
      own =
          All-renewed {P = Owns log} {Q = Owns (log ++ gs)} new s.spawned s.tasks
            (λ d x e. rw (apart d.id (λ y. x (y ∙ sym n))) e) h b.numbered w.own;
      unheard = λ j m.
          let l = task-below s.spawned id c s.tasks b.numbered f in
          rw (apart j (λ y. absurd (omega arith))) (w.unheard j m);
    }
      where
        apart : (j : ℕ) → j ≢ c.id → calls_of j (log ++ gs) ≡ calls_of j log
        apart j x = rw (calls_of-append j log gs) (rw (q j x) (append-nil (calls_of j log)))

    handshaken-IsOwn :
        (id : ℕ) (result : Result Text Bool) (o : Option Connection)
        → task id s.tasks ≡ o
        → IsOwn (log ++ []) (handshaken id result o s)
    unfolding handshaken handshake
    handshaken-IsOwn id result none f = same-IsOwn
    handshaken-IsOwn id result (some c) f = by c.stage result
      where
        by :
            (stage : Stage) (result : Result Text Bool)
            → IsOwn (log ++ []) (elim stage [
              | handshaking ↦ handshake id result c s
              | serving_plain ↦ s
              | serving_tls ↦ s
            ])
        by handshaking (ok true) =
            renewed-IsOwn [] id c (record c { stage = serving_tls }) f refl (λ j x. refl)
              (rw (append-nil log) (All-task (Owns log) id c s.tasks w.own f))
        by handshaking (ok false) = finish-IsOwn id
        by handshaking (err e) = finish-IsOwn id
        by serving_plain r = same-IsOwn
        by serving_tls r = same-IsOwn

    handle_on-IsOwn :
        (call : Option Call) (id : ℕ) (c : Connection)
        → task id s.tasks ≡ some c
        → IsOwn (log ++ (handle_on call c s).1) (handle_on call c s).0
    unfolding handle_on used
    handle_on-IsOwn none id c f =
        renewed-IsOwn _ id c c f refl (λ j x. refl)
          (rw (calls_of-quiet c.id log (handled c.id c.stage none ∷ []) (λ j. refl))
            (All-task (Owns log) id c s.tasks w.own f))
    handle_on-IsOwn (some call) id c f =
        renewed-IsOwn (handled c.id c.stage (some call) ∷ []) id c _ f refl
          (λ j x. let y : (c.id == j) ≡ false = ground arith in rw y refl)
          (rw (heard, get_all-snoc (calls_of c.id log) call fresh_pool)
            (ap (λ p. (get call p).state) (All-task (Owns log) id c s.tasks w.own f)))
      where
        heard :
            calls_of c.id (log ++ handled c.id c.stage (some call) ∷ [])
            ≡ calls_of c.id log ++ call ∷ []
        heard =
            let y : (c.id == c.id) ≡ true = ground arith in
            calls_of-append c.id log (handled c.id c.stage (some call) ∷ []) ∙ rw y refl

    serve-IsOwn :
        (call : Option Call) (id : ℕ) (o : Option Connection)
        → task id s.tasks ≡ o
        → IsOwn (log ++ (serve call o s).1) (serve call o s).0
    unfolding serve
    serve-IsOwn call id none f = same-IsOwn
    serve-IsOwn call id (some c) f = by c.stage
      where
        chosen : Stage → Server × List Effect
        chosen stage = elim stage [
          | handshaking ↦ (s, [])
          | serving_plain ↦ handle_on call c s
          | serving_tls ↦ handle_on call c s
        ]

        by : (stage : Stage) → IsOwn (log ++ (chosen stage).1) (chosen stage).0
        by handshaking = same-IsOwn
        by serving_plain = handle_on-IsOwn call id c f
        by serving_tls = handle_on-IsOwn call id c f

    react-IsOwn : (tls : Bool) (ev : Event) → IsOwn (log ++ (react tls ev s).1) (react tls ev s).0
    unfolding react
    react-IsOwn tls (selected now shutdown accepted) = awake-IsOwn tls now shutdown accepted s.phase
    react-IsOwn tls (tls_accepted id result) = handshaken-IsOwn id result (task id s.tasks) refl
    react-IsOwn tls (requested id call) = serve-IsOwn call id (task id s.tasks) refl
    react-IsOwn tls (ended id) = by (task id s.tasks)
      where
        by : (o : Option Connection) → IsOwn (log ++ []) (hang_up id o s)
        by none = unfold hang_up in same-IsOwn
        by (some c) = unfold hang_up in finish-IsOwn id
    react-IsOwn tls (timer now) = by s.phase
      where
        by : (p : Phase) → IsOwn (log ++ []) (expire now p s)
        by (accepting at) = unfold expire in same-IsOwn
        by (returned x) = unfold expire in same-IsOwn
        by (draining d) =
            unfold expire in
            elim (Bool-cases (leb d now)) [
              | inl l ↦ rw l (quiet-IsOwn [] _ (λ j. refl) (omega arith) w.own)
              | inr l ↦ rw l same-IsOwn
            ]

    step-IsOwn : (tls : Bool) (ev : Event) → IsOwn (log ++ (step tls ev s).1) (step tls ev s).0
    unfolding step
    step-IsOwn tls ev = elim (Bool-cases (is_returned s.phase)) [
      | inl r ↦ rw r same-IsOwn
      | inr r ↦ rw r (react-IsOwn tls ev)
    ]

run-IsOwn :
    (tls : Bool) (es : List Event) (log : List Effect) (s : Server)
    → IsOwn log s
    → IsBalanced s
    → IsOwn (log ++ (run tls es s).1) (run tls es s).0
unfolding run
run-IsOwn tls [] log s w b = same-IsOwn log w
run-IsOwn tls (ev ∷ es) log s w b =
    rw (← append_assoc log (step tls ev s).1 (run tls es (step tls ev s).0).1) (
      run-IsOwn tls es (log ++ (step tls ev s).1) (step tls ev s).0 (step-IsOwn log w b tls ev)
        (step-IsBalanced b tls ev))

-- However the loop is driven, with TLS or without: the pool of every connection that is alive is
-- what the calls of its own requests, one after the other, make of a fresh pool, whatever the other
-- connections did.
pub pools_isolated :
    (tls : Bool) (es : List Event)
    → All (Owns (run tls es listening).1) (run tls es listening).0.tasks
pools_isolated tls es =
    let w : IsOwn [] listening = record { own = tt; unheard = λ id m. refl } in
    (run-IsOwn tls es [] listening w listening-IsBalanced).own
