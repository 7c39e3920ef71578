-- ===== src/Driver/Silence.antt =====
-- When the driver reports a client that hears nothing (`run_driver` of
-- zeronym/shim/src/nym_driver.rs).
use zero_shim.Prelude.{
  ℕ, ◌+◌, ◌<◌, ◌≡◌, refl, ap, ◌∙◌, ◌↔◌, inl, inr, Bool, true, false, not, ◌&&◌, Option, none, some,
  List, [], ◌∷◌, arith, leb, ◌==◌, if◌then◌else◌, Bool-cases, Result, ok, err,
}
use zero_shim.Text.{Text}
use zero_shim.Supervisor.{rebuild, disconnect}
use zero_shim.Status.{inbound_total}
use zero_shim.Driver.{
  silent_rounds_before_rebuild, Sending, frame_send, probe_send, Phase, running, first_awaited,
  awaited, stopped, Driver, died_reported, Event, probe_tick, commanded, frame_taken, send_done,
  messages, adopt, build_failed, begin, rebuild_step, told_step, stop, probe_step, sent_step,
  run_step, wait_step, enabled, in_phase, step, run,
}

abbrev pub IsPatient : Driver → Type 0
IsPatient s = s.silent_rounds < silent_rounds_before_rebuild

probe_step-IsPatient : (backlog : ℕ) (s : Driver) → IsPatient s → IsPatient (probe_step backlog s).0
unfolding probe_step
probe_step-IsPatient backlog s h =
    elim (Bool-cases (
      not (
        elim s.inbound_at_probe as (λ _. Bool) [
          | none ↦ false
          | some mark ↦ inbound_total s.status == mark
        ]
        && backlog == 0))) [
          | inl e ↦ rw e (omega arith)
          | inr e ↦ elim (Bool-cases (leb silent_rounds_before_rebuild (s.silent_rounds + 1))) [
            | inl f ↦ rw (e, f) (omega arith)
            | inr f ↦ rw (e, f) (ground arith)
          ]
        ]

build-IsPatient :
    (p : Phase) (b : Result Text Text) (s : Driver)
    → IsPatient s
    → IsPatient (rebuild_step b s).0 × IsPatient (told_step p b s).0
unfolding rebuild_step told_step adopt build_failed
build-IsPatient running (ok a) s h = (omega arith, omega arith)
build-IsPatient first_awaited (ok a) s h = (omega arith, h)
build-IsPatient awaited (ok a) s h = (omega arith, omega arith)
build-IsPatient stopped (ok a) s h = (omega arith, omega arith)
build-IsPatient p (err e) s h = (h, h)

sent_step-IsPatient : (o : Option Sending) (s : Driver) → IsPatient s → IsPatient (sent_step o s)
unfolding sent_step
sent_step-IsPatient none s h = h
sent_step-IsPatient (some (frame_send f)) s h = h
sent_step-IsPatient (some probe_send) s h = h

run_step-IsPatient : (e : Event) (s : Driver) → IsPatient s → IsPatient (run_step e s).0
unfolding run_step stop
run_step-IsPatient (probe_tick backlog) s h = probe_step-IsPatient backlog s h
run_step-IsPatient (commanded (some rebuild) b) s h = (build-IsPatient running b s h).0
run_step-IsPatient (commanded (some disconnect) b) s h = h
run_step-IsPatient (commanded none b) s h = h
run_step-IsPatient (frame_taken (some f)) s h = h
run_step-IsPatient (frame_taken none) s h = h
run_step-IsPatient send_done s h = sent_step-IsPatient s.in_flight s h
run_step-IsPatient (messages (some ms)) s h = h
run_step-IsPatient (messages none) s h = h

wait_step-IsPatient :
    (p : Phase) (e : Event) (s : Driver) → IsPatient s → IsPatient (wait_step p e s).0
unfolding wait_step stop
wait_step-IsPatient p (commanded (some rebuild) b) s h = (build-IsPatient p b s h).1
wait_step-IsPatient p (commanded (some disconnect) b) s h = h
wait_step-IsPatient p (commanded none b) s h = h
wait_step-IsPatient p (probe_tick n) s h = h
wait_step-IsPatient p (frame_taken f) s h = h
wait_step-IsPatient p send_done s h = h
wait_step-IsPatient p (messages m) s h = h

step-IsPatient : (e : Event) (s : Driver) → IsPatient s → IsPatient (step e s).0
unfolding step
step-IsPatient e s h = elim (Bool-cases (enabled e s)) [
  | inl x ↦ rw x (by s.phase)
  | inr x ↦ rw x h
]
  where
    by : (p : Phase) → IsPatient (in_phase p e s).0
    by running = unfold in_phase in run_step-IsPatient e s h
    by first_awaited = unfold in_phase in wait_step-IsPatient first_awaited e s h
    by awaited = unfold in_phase in wait_step-IsPatient awaited e s h
    by stopped = unfold in_phase in h

run-IsPatient : (es : List Event) (s : Driver) → IsPatient s → IsPatient (run es s).0
unfolding run
run-IsPatient [] s h = h
run-IsPatient (e ∷ es) s h = run-IsPatient es (step e s).0 (step-IsPatient e s h)

begin-IsPatient :
    (gateways : List Text) (now : ℕ) (b : Result Text Text) → IsPatient (begin gateways now b).0
unfolding begin build_failed
begin-IsPatient gateways now (ok a) = omega arith
begin-IsPatient gateways now (err e) = omega arith

-- The last probe went out, and nothing came in since.
abbrev pub IsSilent : Driver → Type 0
IsSilent s = s.inbound_at_probe ≡ some (inbound_total s.status)

probe_step_exact :
    (backlog : ℕ) (s : Driver)
    → IsPatient s
    → ((probe_step backlog s).1 ≡ died_reported ∷ [])
      ↔ (IsSilent s × (backlog ≡ 0) × (s.silent_rounds ≡ 1))
probe_step_exact backlog s h = by s.inbound_at_probe refl
  where
    by :
        (o : Option ℕ)
        → s.inbound_at_probe ≡ o
        → ((probe_step backlog s).1 ≡ died_reported ∷ [])
          ↔ (IsSilent s × (backlog ≡ 0) × (s.silent_rounds ≡ 1))
    by none e =
        unfold probe_step in rw e ((λ x. absurd (ground arith)), (λ x. absurd (ground arith)))
    by (some m) e = unfold probe_step in rw e ((λ x. ground arith), (λ x. ground arith))

tick_runs :
    (backlog : ℕ) (s : Driver)
    → s.phase ≡ running
    → s.in_flight ≡ none
    → step (probe_tick backlog) s ≡ probe_step backlog s
tick_runs backlog s p f =
    let open_arm : enabled (probe_tick backlog) s ≡ true =
      unfold enabled in ap (λ o. elim o as (λ _. Bool) [ none ↦ true | some x ↦ false ]) f in
    let here : in_phase s.phase (probe_tick backlog) s ≡ probe_step backlog s =
      ap (λ q. in_phase q (probe_tick backlog) s) p ∙ unfold in_phase run_step in refl in
    unfold step in
    (ap (λ b. if b then in_phase s.phase (probe_tick backlog) s else (s, [])) open_arm ∙ here)

-- In any state of a run with a client and no send in flight, a tick of the probe reports the client
-- dead exactly if a probe went out before, no message at all has come in since, no frame waits to
-- be sent, and one silent round is counted already.
pub silence_reported_exact :
    (gateways : List Text) (now : ℕ) (build : Result Text Text) (es : List Event) (backlog : ℕ)
    → (run es (begin gateways now build).0).0.phase ≡ running
    → (run es (begin gateways now build).0).0.in_flight ≡ none
    → ((step (probe_tick backlog) (run es (begin gateways now build).0).0).1 ≡ died_reported ∷ [])
      ↔ (IsSilent (run es (begin gateways now build).0).0
          × (backlog ≡ 0)
          × ((run es (begin gateways now build).0).0.silent_rounds ≡ 1))
silence_reported_exact gateways now build es backlog p f =
    let s = (run es (begin gateways now build).0).0 in
    let k = run-IsPatient es (begin gateways now build).0 (begin-IsPatient gateways now build) in
    let e = tick_runs backlog s p f in rw e (probe_step_exact backlog s k)
