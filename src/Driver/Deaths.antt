-- ===== src/Driver/Deaths.antt =====
-- When the driver reports the death of its client (`run_driver` and `build_when_told` of
-- zeronym/shim/src/nym_driver.rs).
use zero_shim.Prelude.{
  ℕ, suc, ◌<◌, ◌≡◌, refl, ◌∙◌, ◌⊎◌, inl, inr, Bool, true, false, Option, none, some, List, [], ◌∷◌,
  arith, Bool-cases, Result, ok, err,
}
use zero_shim.Text.{Text}
use zero_shim.Supervisor.{ClientCommand, rebuild, disconnect}
use zero_shim.Driver.{
  Sending, frame_send, probe_send, Phase, running, first_awaited, awaited, stopped, Driver, Effect,
  died_reported, send_over, disconnected, built, delivered, Event, probe_tick, commanded,
  frame_taken, send_done, messages, adopt, build_failed, begin, rebuild_step, told_step, stop,
  probe_step, sent_step, run_step, wait_step, enabled, in_phase, step,
}

-- The reports among the effects.
abbrev pub reported : List Effect → ℕ
reported [] = 0
reported (died_reported ∷ fs) = suc (reported fs)
reported (disconnected ∷ fs) = reported fs
reported (built gateway ∷ fs) = reported fs
reported (send_over out ∷ fs) = reported fs
reported (delivered bytes ∷ fs) = reported fs

abbrev pub is_command : Event → Bool
is_command (commanded c build) = true
is_command (probe_tick backlog) = false
is_command (frame_taken frame) = false
is_command send_done = false
is_command (messages ms) = false

-- The driver has no client and waits to be told.
abbrev pub IsWaiting : Phase → Type 0
IsWaiting running = ⊥
IsWaiting first_awaited = Unit {0}
IsWaiting awaited = Unit {0}
IsWaiting stopped = ⊥

module _ (s : Driver) where
  -- After a command, a driver that waits has reported.
  abbrev Tells : Driver × List Effect → Type 0
  Tells r = IsWaiting r.0.phase → 0 < reported r.1

  rebuild_step-Tells : (b : Result Text Text) → Tells (rebuild_step b s)
  unfolding rebuild_step adopt build_failed
  rebuild_step-Tells (ok a) h = absurd h
  rebuild_step-Tells (err e) h = omega arith

  told_step-Tells : (p : Phase) (b : Result Text Text) → Tells (told_step p b s)
  unfolding told_step adopt build_failed
  told_step-Tells running (ok a) h = absurd h
  told_step-Tells first_awaited (ok a) h = absurd h
  told_step-Tells awaited (ok a) h = absurd h
  told_step-Tells stopped (ok a) h = absurd h
  told_step-Tells p (err e) h = omega arith

  run_command-Tells :
      (c : Option ClientCommand) (b : Result Text Text) → Tells (run_step (commanded c b) s)
  unfolding run_step stop
  run_command-Tells (some rebuild) b h = rebuild_step-Tells b h
  run_command-Tells (some disconnect) b h = absurd h
  run_command-Tells none b h = absurd h

  wait_command-Tells :
      (p : Phase) (c : Option ClientCommand) (b : Result Text Text)
      → Tells (wait_step p (commanded c b) s)
  unfolding wait_step stop
  wait_command-Tells p (some rebuild) b h = told_step-Tells p b h
  wait_command-Tells p (some disconnect) b h = absurd h
  wait_command-Tells p none b h = absurd h

  pub command-Tells :
      (c : Option ClientCommand) (b : Result Text Text)
      → IsWaiting (step (commanded c b) s).0.phase
      → 0 < reported (step (commanded c b) s).1
  unfolding step enabled
  command-Tells c b = by s.phase refl
    where
      by : (p : Phase) → s.phase ≡ p → Tells (in_phase p (commanded c b) s)
      by running e = unfold in_phase in run_command-Tells c b
      by first_awaited e = unfold in_phase in wait_command-Tells first_awaited c b
      by awaited e = unfold in_phase in wait_command-Tells awaited c b
      by stopped e = unfold in_phase in λ h. absurd (coe 0 1 (i. IsWaiting (e i)) h)

  -- On any other arm a driver that waits did so before, or has reported.
  abbrev Keeps : Phase → Driver × List Effect → Type 0
  Keeps p r = IsWaiting r.0.phase → IsWaiting p ⊎ (0 < reported r.1)

  probe_step-phase : (backlog : ℕ) → (probe_step backlog s).0.phase ≡ s.phase
  unfolding probe_step
  probe_step-phase backlog = ground arith

  sent_step-phase : (x : Option Sending) → (sent_step x s).phase ≡ s.phase
  unfolding sent_step
  sent_step-phase none = refl
  sent_step-phase (some (frame_send f)) = refl
  sent_step-phase (some probe_send) = refl

  not_waiting : (p : Phase) → p ≡ running → IsWaiting p → ⊥
  not_waiting p q h = coe 0 1 (i. IsWaiting (q i)) h

  run_other-Keeps :
      (e : Event) → is_command e ≡ false → s.phase ≡ running → Keeps running (run_step e s)
  unfolding run_step stop
  run_other-Keeps (commanded c b) n q h = absurd (ground arith)
  run_other-Keeps (probe_tick backlog) n q h =
      absurd (not_waiting _ (probe_step-phase backlog ∙ q) h)
  run_other-Keeps (frame_taken (some f)) n q h = absurd (not_waiting _ q h)
  run_other-Keeps (frame_taken none) n q h = absurd h
  run_other-Keeps send_done n q h = absurd (not_waiting _ (sent_step-phase s.in_flight ∙ q) h)
  run_other-Keeps (messages (some ms)) n q h = absurd (not_waiting _ q h)
  run_other-Keeps (messages none) n q h = inr (omega arith)

  pub other-Keeps :
      (e : Event)
      → is_command e ≡ false
      → IsWaiting (step e s).0.phase
      → IsWaiting s.phase ⊎ (0 < reported (step e s).1)
  unfolding step
  other-Keeps e n = elim (Bool-cases (enabled e s)) [
    | inl t ↦ simp t (by s.phase refl)
    | inr t ↦ simp t (λ h. inl h)
  ]
    where
      by : (p : Phase) → s.phase ≡ p → Keeps p (in_phase p e s)
      by running q h = unfold in_phase in run_other-Keeps e n q h
      by first_awaited q h = inl tt
      by awaited q h = inl tt
      by stopped q h = unfold in_phase in absurd (coe 0 1 (i. IsWaiting (q i)) h)

  -- A driver that has returned stays so, and a command to disconnect makes it return.
  pub stopped_stays : (e : Event) → s.phase ≡ stopped → (step e s).0.phase ≡ stopped
  unfolding step
  stopped_stays e q = elim (Bool-cases (enabled e s)) [
    | inl t ↦ simp t (rw (q, in_phase) refl)
    | inr t ↦ simp t q
  ]

  pub disconnect_stops :
      (b : Result Text Text) → (step (commanded (some disconnect) b) s).0.phase ≡ stopped
  unfolding step enabled
  disconnect_stops b = by s.phase refl
    where
      by :
          (p : Phase)
          → s.phase ≡ p
          → (in_phase p (commanded (some disconnect) b) s).0.phase ≡ stopped
      by running q = unfold in_phase run_step stop in refl
      by first_awaited q = unfold in_phase wait_step stop in refl
      by awaited q = unfold in_phase wait_step stop in refl
      by stopped q = unfold in_phase in q

  pub orphan_stops : (b : Result Text Text) → (step (commanded none b) s).0.phase ≡ stopped
  unfolding step enabled
  orphan_stops b = by s.phase refl
    where
      by : (p : Phase) → s.phase ≡ p → (in_phase p (commanded none b) s).0.phase ≡ stopped
      by running q = unfold in_phase run_step stop in refl
      by first_awaited q = unfold in_phase wait_step stop in refl
      by awaited q = unfold in_phase wait_step stop in refl
      by stopped q = unfold in_phase in q

  -- The end of the messages is the end of the client.
  pub closed_messages_wait : s.phase ≡ running → IsWaiting (step (messages none) s).0.phase
  unfolding step enabled
  closed_messages_wait q = rw (q, in_phase, run_step) tt

pub begin-running :
    (gs : List Text) (now : ℕ) (address : Text) → (begin gs now (ok address)).0.phase ≡ running
unfolding begin
begin-running gs now address = refl

-- A driver that starts without a client has reported.
pub begin-Tells :
    (gs : List Text) (now : ℕ) (b : Result Text Text)
    → IsWaiting (begin gs now b).0.phase
    → 0 < reported (begin gs now b).1
unfolding begin build_failed
begin-Tells gs now (ok a) h = absurd h
begin-Tells gs now (err e) h = omega arith
