-- ===== src/Driver/Gateways.antt =====
-- The entry gateways that the builds use (`GatewaySelector` and `run_driver` of
-- zeronym/shim/src/nym_driver.rs).
use zero_shim.Prelude.{
  ℕ, zero, suc, ◌+◌, ◌%◌, ◌^◌, ◌<◌, ◌≡◌, refl, sym, ap, ◌∙◌, ◌⊎◌, inl, inr, true, false, Option,
  none, some, List, [], ◌∷◌, ◌++◌, append_assoc, arith, ◌==◌, Bool-cases, Result, ok, err, length,
  get_or,
}
use zero_shim.Bytes.{Bytes}
use zero_shim.Text.{Text}
use zero_shim.Supervisor.{rebuild, disconnect}
use zero_shim.Status.{MixnetStatus, record_inbound}
use zero_shim.Driver.{
  GatewaySelector, take_gateway, Sending, frame_send, probe_send, Phase, running, first_awaited,
  awaited, stopped, Driver, Effect, died_reported, send_over, sent_effects, disconnected, built,
  delivered, Event, probe_tick, commanded, frame_taken, send_done, messages, adopt, build_failed,
  begin, rebuild_step, told_step, stop, probe_step, sent_step, receive, run_step, wait_step,
  enabled, in_phase, step, run,
}

-- The gateways of the builds among the effects, in their order.
abbrev build_of : Effect → List (Option Text)
build_of (built gateway) = gateway ∷ []
build_of died_reported = []
build_of (send_over out) = []
build_of disconnected = []
build_of (delivered bytes) = []

abbrev pub builds : List Effect → List (Option Text)
builds [] = []
builds (f ∷ fs) = build_of f ++ builds fs

builds-append : (fs gs : List Effect) → builds (fs ++ gs) ≡ builds fs ++ builds gs
builds-append [] gs = refl
builds-append (f ∷ fs) gs =
    rw (builds-append fs gs) (sym (append_assoc (build_of f) (builds fs) (builds gs)))

-- A turn builds nothing and leaves the selector, or takes the next gateway for one build.
Takes : GatewaySelector → Driver × List Effect → Type 0
Takes g r =
    ((builds r.1 ≡ []) × (r.0.gateways ≡ g))
    ⊎ ((builds r.1 ≡ (take_gateway g).0 ∷ []) × (r.0.gateways ≡ (take_gateway g).1))

receive-builds : (ms : List (ℕ × Bytes)) (st : MixnetStatus) → builds (receive ms st).1 ≡ []
unfolding receive
receive-builds [] st = refl
receive-builds ((now, []) ∷ ms) st = receive-builds ms (record_inbound now true st)
receive-builds ((now, b ∷ bs) ∷ ms) st = receive-builds ms (record_inbound now false st)

module _ (s : Driver) where
  rebuild_step-Takes : (b : Result Text Text) → Takes s.gateways (rebuild_step b s)
  unfolding Takes rebuild_step adopt build_failed
  rebuild_step-Takes (ok a) = inr (refl, refl)
  rebuild_step-Takes (err e) = inr (refl, refl)

  told_step-Takes : (p : Phase) (b : Result Text Text) → Takes s.gateways (told_step p b s)
  unfolding Takes told_step adopt build_failed
  told_step-Takes running (ok a) = inr (refl, refl)
  told_step-Takes first_awaited (ok a) = inr (refl, refl)
  told_step-Takes awaited (ok a) = inr (refl, refl)
  told_step-Takes stopped (ok a) = inr (refl, refl)
  told_step-Takes p (err e) = inr (refl, refl)

  probe_step-Takes : (backlog : ℕ) → Takes s.gateways (probe_step backlog s)
  unfolding Takes probe_step
  probe_step-Takes backlog = inl (ground arith, ground arith)

  sent_step-gateways : (x : Option Sending) → (sent_step x s).gateways ≡ s.gateways
  unfolding sent_step
  sent_step-gateways none = refl
  sent_step-gateways (some (frame_send f)) = refl
  sent_step-gateways (some probe_send) = refl

  sent_effects-builds : (x : Option Sending) → builds (sent_effects x) ≡ []
  unfolding sent_effects
  sent_effects-builds none = refl
  sent_effects-builds (some (frame_send f)) = refl
  sent_effects-builds (some probe_send) = refl

  run_step-Takes : (e : Event) → Takes s.gateways (run_step e s)
  unfolding run_step stop
  run_step-Takes (probe_tick backlog) = probe_step-Takes backlog
  run_step-Takes (commanded (some rebuild) b) = rebuild_step-Takes b
  run_step-Takes (commanded (some disconnect) b) = unfold Takes in inl (refl, refl)
  run_step-Takes (commanded none b) = unfold Takes in inl (refl, refl)
  run_step-Takes (frame_taken (some f)) = unfold Takes in inl (refl, refl)
  run_step-Takes (frame_taken none) = unfold Takes in inl (refl, refl)
  run_step-Takes send_done =
      unfold Takes in inl (sent_effects-builds s.in_flight, sent_step-gateways s.in_flight)
  run_step-Takes (messages (some ms)) = unfold Takes in inl (receive-builds ms s.status, refl)
  run_step-Takes (messages none) = unfold Takes in inl (refl, refl)

  wait_step-Takes : (p : Phase) (e : Event) → Takes s.gateways (wait_step p e s)
  unfolding wait_step stop
  wait_step-Takes p (commanded (some rebuild) b) = told_step-Takes p b
  wait_step-Takes p (commanded (some disconnect) b) = unfold Takes in inl (refl, refl)
  wait_step-Takes p (commanded none b) = unfold Takes in inl (refl, refl)
  wait_step-Takes p (probe_tick backlog) = unfold Takes in inl (refl, refl)
  wait_step-Takes p (frame_taken f) = unfold Takes in inl (refl, refl)
  wait_step-Takes p send_done = unfold Takes in inl (refl, refl)
  wait_step-Takes p (messages ms) = unfold Takes in inl (refl, refl)

  in_phase-Takes : (p : Phase) (e : Event) → Takes s.gateways (in_phase p e s)
  unfolding in_phase
  in_phase-Takes running e = run_step-Takes e
  in_phase-Takes first_awaited e = wait_step-Takes first_awaited e
  in_phase-Takes awaited e = wait_step-Takes awaited e
  in_phase-Takes stopped e = unfold Takes in inl (refl, refl)

  step-Takes : (e : Event) → Takes s.gateways (step e s)
  unfolding step
  step-Takes e = elim (Bool-cases (enabled e s)) [
    | inl t ↦ simp t (in_phase-Takes s.phase e)
    | inr t ↦ simp t (unfold Takes in inl (refl, refl))
  ]

-- `k` times the next gateway.
abbrev taken : ℕ → GatewaySelector → List (Option Text)
taken zero g = []
taken (suc k) g = (take_gateway g).0 ∷ taken k (take_gateway g).1

AreTaken : GatewaySelector → List Effect → Type 0
AreTaken g fs = builds fs ≡ taken (length (builds fs)) g

after_turn :
    (g : GatewaySelector) (r : Driver × List Effect) (fs : List Effect)
    → Takes g r
    → AreTaken r.0.gateways fs
    → AreTaken g (r.1 ++ fs)
unfolding Takes AreTaken
after_turn g r fs t h = rw (builds-append r.1 fs) (elim t [
  | inl (none_built, kept) ↦
      rw none_built (coe 0 1 (i. builds fs ≡ taken (length (builds fs)) (kept i)) h)
  | inr (one_built, moved) ↦ rw one_built (
      ap (λ l. (take_gateway g).0 ∷ l)
        (coe 0 1 (i. builds fs ≡ taken (length (builds fs)) (moved i)) h))
])

run-AreTaken : (es : List Event) (s : Driver) → AreTaken s.gateways (run es s).1
unfolding run
run-AreTaken [] s = unfold AreTaken in refl
run-AreTaken (e ∷ es) s =
    after_turn s.gateways (step e s) (run es (step e s).0).1 (step-Takes s e)
      (run-AreTaken es (step e s).0)

begin-Takes :
    (gs : List Text) (now : ℕ) (build : Result Text Text)
    → Takes (record { gateways = gs; next = 0 }) (begin gs now build)
unfolding Takes begin build_failed
begin-Takes gs now (ok a) = inr (refl, refl)
begin-Takes gs now (err e) = inr (refl, refl)

-- The gateways from the `n`-th on, each in its turn and the first again after the last.
abbrev pub round : List Text → ℕ → ℕ → List (Option Text)
round gs n zero = []
round gs n (suc k) = some (get_or gs (n % length gs) []) ∷ round gs (suc n) k

taken-round :
    (gs : List Text) (k n : ℕ)
    → 0 < length gs
    → n + k < 2 ^ 64
    → taken k (record { gateways = gs; next = n }) ≡ round gs n k
unfolding take_gateway
taken-round gs zero n h l = refl
taken-round gs (suc k) n h l =
    let one : (length gs == 0) ≡ false = ground arith in
    let next : (n + 1) % 2 ^ 64 ≡ suc n = omega arith in
    rw (one, next)
      (ap (λ r. some (get_or gs (n % length gs) []) ∷ r) (taken-round gs k (suc n) h (omega arith)))

-- With gateways configured, and fewer than 2 ^ 64 builds: however the driver runs, its builds from
-- the first on use the gateways in their order, each once before any is used again, and the first
-- again after the last. The builds that fail count too.
pub gateways_in_turn :
    (gs : List Text) (now : ℕ) (build : Result Text Text) (es : List Event)
    → 0 < length gs
    → length (builds ((begin gs now build).1 ++ (run es (begin gs now build).0).1)) < 2 ^ 64
    → builds ((begin gs now build).1 ++ (run es (begin gs now build).0).1)
      ≡ round gs 0 (length (builds ((begin gs now build).1 ++ (run es (begin gs now build).0).1)))
unfolding AreTaken
gateways_in_turn gs now build es h l =
    let r = begin gs now build in
    let all = r.1 ++ (run es r.0).1 in
    let t =
      after_turn (record { gateways = gs; next = 0 }) r (run es r.0).1 (begin-Takes gs now build)
        (run-AreTaken es r.0) in
    t ∙ taken-round gs (length (builds all)) 0 h (omega arith)
