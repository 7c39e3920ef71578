-- ===== src/Driver/Health.antt =====
-- The health that the driver publishes (`run_driver` of zeronym/shim/src/nym_driver.rs).
use zero_shim.Prelude.{
  ℕ, ◌+◌, ◌≡◌, refl, ◌∙◌, ◌≢◌, ◌↔◌, inl, inr, Bool, true, false, not, ◌&&◌, Option, none, some,
  List, [], ◌∷◌, arith, leb, ◌==◌, Bool-cases, Result, ok, err,
}
use zero_shim.Bytes.{Bytes}
use zero_shim.Text.{Text}
use zero_shim.Supervisor.{rebuild, disconnect}
use zero_shim.Status.{
  MixnetStatus, set_configured, set_connected, set_died, set_rebuild_failed, record_send,
  record_inbound, set_address, inbound_total, is_healthy,
}
use zero_shim.Driver.{
  silent_rounds_before_rebuild, Sending, frame_send, probe_send, Phase, running, first_awaited,
  awaited, stopped, Driver, Event, probe_tick, commanded, frame_taken, send_done, messages, adopt,
  build_failed, begin, rebuild_step, told_step, stop, probe_step, sent_step, receive, run_step,
  wait_step, enabled, in_phase, step, run,
}

-- Whether the driver has a client, where it has not returned.
abbrev pub Publishes : Phase → MixnetStatus → Type 0
Publishes running st = (st.configured ≡ true) × (st.connected ≡ true)
Publishes first_awaited st = (st.configured ≡ true) × (st.connected ≡ false)
Publishes awaited st = (st.configured ≡ true) × (st.connected ≡ false)
Publishes stopped st = Unit {0}

receive-status :
    (ms : List (ℕ × Bytes)) (st : MixnetStatus)
    → ((receive ms st).0.configured ≡ st.configured) × ((receive ms st).0.connected ≡ st.connected)
unfolding receive record_inbound
receive-status [] st = (refl, refl)
receive-status ((now, []) ∷ ms) st = receive-status ms (record_inbound now true st)
receive-status ((now, b ∷ bs) ∷ ms) st = receive-status ms (record_inbound now false st)

rebuild_step-Publishes :
    (b : Result Text Text) (s : Driver)
    → s.status.configured ≡ true
    → Publishes (rebuild_step b s).0.phase (rebuild_step b s).0.status
unfolding rebuild_step adopt build_failed set_connected set_died set_rebuild_failed set_address
rebuild_step-Publishes (ok a) s h = (h, refl)
rebuild_step-Publishes (err e) s h = (h, refl)

-- The same at a phase that is known by an equation.
at_phase : (p q : Phase) (st : MixnetStatus) → p ≡ q → Publishes q st → Publishes p st
at_phase p q st e h = coe 1 0 (i. Publishes (e i) st) h

probe_step-Publishes :
    (backlog : ℕ) (s : Driver)
    → Publishes s.phase s.status
    → Publishes (probe_step backlog s).0.phase (probe_step backlog s).0.status
unfolding probe_step
probe_step-Publishes backlog s h =
    elim (Bool-cases (
      not (
        elim s.inbound_at_probe as (λ _. Bool) [
          | none ↦ false
          | some mark ↦ inbound_total s.status == mark
        ]
        && backlog == 0))) [
          | inl e ↦ rw e h
          | inr e ↦ elim (Bool-cases (leb silent_rounds_before_rebuild (s.silent_rounds + 1))) [
            | inl f ↦ rw (e, f) h
            | inr f ↦ rw (e, f) h
          ]
        ]

sent_step-Publishes :
    (o : Option Sending) (s : Driver)
    → Publishes s.phase s.status
    → s.phase ≡ running
    → Publishes (sent_step o s).phase (sent_step o s).status
unfolding sent_step record_send
sent_step-Publishes none s h p = h
sent_step-Publishes (some (frame_send f)) s h p =
    at_phase s.phase running (record_send s.status) p (coe 0 1 (i. Publishes (p i) s.status) h)
sent_step-Publishes (some probe_send) s h p = h

run_step-Publishes :
    (e : Event) (s : Driver)
    → s.phase ≡ running
    → Publishes running s.status
    → Publishes (run_step e s).0.phase (run_step e s).0.status
unfolding run_step stop set_died
run_step-Publishes (probe_tick backlog) s p h =
    probe_step-Publishes backlog s (at_phase s.phase running s.status p h)
run_step-Publishes (commanded (some rebuild) b) s p h = rebuild_step-Publishes b s h.0
run_step-Publishes (commanded (some disconnect) b) s p h = tt
run_step-Publishes (commanded none b) s p h = tt
run_step-Publishes (frame_taken (some f)) s p h = at_phase s.phase running s.status p h
run_step-Publishes (frame_taken none) s p h = tt
run_step-Publishes send_done s p h =
    sent_step-Publishes s.in_flight s (at_phase s.phase running s.status p h) p
run_step-Publishes (messages (some ms)) s p h =
    let (a, b) = receive-status ms s.status in
    at_phase s.phase running (receive ms s.status).0 p (a ∙ h.0, b ∙ h.1)
run_step-Publishes (messages none) s p h = (h.0, refl)

-- Without a client: configured, and not connected.
abbrev IsWaiting : Phase → Type 0
IsWaiting first_awaited = Unit {0}
IsWaiting awaited = Unit {0}
IsWaiting _ = ⊥

told_step-Publishes :
    (p : Phase) (b : Result Text Text) (s : Driver)
    → IsWaiting p
    → s.status.configured ≡ true
    → Publishes (told_step p b s).0.phase (told_step p b s).0.status
unfolding told_step adopt build_failed set_connected set_rebuild_failed set_address
told_step-Publishes first_awaited (ok a) s w h = (h, refl)
told_step-Publishes first_awaited (err e) s w h = (h, refl)
told_step-Publishes awaited (ok a) s w h = (h, refl)
told_step-Publishes awaited (err e) s w h = (h, refl)
told_step-Publishes running b s w h = absurd w
told_step-Publishes stopped b s w h = absurd w

wait_step-Publishes :
    (p : Phase) (e : Event) (s : Driver)
    → IsWaiting p
    → s.phase ≡ p
    → s.status.configured ≡ true
    → Publishes s.phase s.status
    → Publishes (wait_step p e s).0.phase (wait_step p e s).0.status
unfolding wait_step stop
wait_step-Publishes p (commanded (some rebuild) b) s w q h k = told_step-Publishes p b s w h
wait_step-Publishes p (commanded (some disconnect) b) s w q h k = tt
wait_step-Publishes p (commanded none b) s w q h k = tt
wait_step-Publishes p (probe_tick n) s w q h k = k
wait_step-Publishes p (frame_taken f) s w q h k = k
wait_step-Publishes p send_done s w q h k = k
wait_step-Publishes p (messages m) s w q h k = k

in_phase-Publishes :
    (p : Phase) (e : Event) (s : Driver)
    → s.phase ≡ p
    → Publishes s.phase s.status
    → Publishes (in_phase p e s).0.phase (in_phase p e s).0.status
unfolding in_phase
in_phase-Publishes running e s q k =
    run_step-Publishes e s q (coe 0 1 (i. Publishes (q i) s.status) k)
in_phase-Publishes first_awaited e s q k =
    let h : Publishes first_awaited s.status = coe 0 1 (i. Publishes (q i) s.status) k in
    wait_step-Publishes first_awaited e s tt q h.0 k
in_phase-Publishes awaited e s q k =
    let h : Publishes awaited s.status = coe 0 1 (i. Publishes (q i) s.status) k in
    wait_step-Publishes awaited e s tt q h.0 k
in_phase-Publishes stopped e s q k = k

step-Publishes :
    (e : Event) (s : Driver)
    → Publishes s.phase s.status
    → Publishes (step e s).0.phase (step e s).0.status
unfolding step
step-Publishes e s k = elim (Bool-cases (enabled e s)) [
  | inl h ↦ rw h (in_phase-Publishes s.phase e s refl k)
  | inr h ↦ rw h k
]

run-Publishes :
    (es : List Event) (s : Driver)
    → Publishes s.phase s.status
    → Publishes (run es s).0.phase (run es s).0.status
unfolding run
run-Publishes [] s k = k
run-Publishes (e ∷ es) s k = run-Publishes es (step e s).0 (step-Publishes e s k)

begin-Publishes :
    (gateways : List Text) (now : ℕ) (b : Result Text Text)
    → Publishes (begin gateways now b).0.phase (begin gateways now b).0.status
unfolding begin build_failed set_configured set_connected set_rebuild_failed set_address
begin-Publishes gateways now (ok a) = (refl, refl)
begin-Publishes gateways now (err e) = (refl, refl)

-- From its start on and until it returns, whatever the SDK and the supervisor do, the driver counts
-- as healthy exactly while it has a client.
pub driver_health_exact :
    (gateways : List Text) (now : ℕ) (build : Result Text Text) (es : List Event)
    → (run es (begin gateways now build).0).0.phase ≢ stopped
    → (is_healthy (run es (begin gateways now build).0).0.status ≡ true)
      ↔ ((run es (begin gateways now build).0).0.phase ≡ running)
driver_health_exact gateways now build es h =
    let s = (run es (begin gateways now build).0).0 in
    by s.phase s.status h
      (run-Publishes es (begin gateways now build).0 (begin-Publishes gateways now build))
  where
    by :
        (p : Phase) (st : MixnetStatus)
        → p ≢ stopped
        → Publishes p st
        → (is_healthy st ≡ true) ↔ (p ≡ running)
    by running st n k = unfold is_healthy in ((λ x. refl), (λ x. ground (arith, k)))
    by first_awaited st n k =
        unfold is_healthy in ((λ x. absurd (ground (arith, k))), (λ x. absurd (ground arith)))
    by awaited st n k =
        unfold is_healthy in ((λ x. absurd (ground (arith, k))), (λ x. absurd (ground arith)))
    by stopped st n k = absurd (n refl)
