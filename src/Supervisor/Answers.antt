-- ===== src/Supervisor/Answers.antt =====
-- What the supervisor answers a report with (`run_supervisor` of zeronym/shim/src/nym.rs).
use zero_shim.Prelude.{Bool-cases, ◌≤◌}
use zero_shim.Prelude.{ℕ, ◌<◌, ◌≡◌, refl, inl, inr, Bool, true, false, List, [], arith, length}
use zero_shim.Prelude.{Any}
use zero_shim.Supervisor.{
  RotationPolicy, ClientCommand, disconnect, Supervisor, begin, Event, shutdown, driver_gone, died,
  woke, finish, restart, react, step,
}

-- The driver has taken the commands, and its end of the channel is open.
abbrev pub IsServed : Event → Type 0
IsServed shutdown = Unit {0}
IsServed driver_gone = ⊥
IsServed (died taken interrupted now) = taken ≡ true
IsServed (woke taken now inflight) = taken ≡ true

abbrev pub Disconnects : List ClientCommand → Type 0
Disconnects = Any (λ c. c ≡ disconnect)

module _ (p : RotationPolicy) (s : Supervisor) where
  -- A running supervisor answers a report with a rebuild.
  pub death-rebuilt :
      (interrupted : Bool) (now : ℕ)
      → s.returned ≡ false
      → 0 < length (step p (died true interrupted now) s).1
  unfolding step react finish
  death-rebuilt true now r = rw (r, react) (omega arith)
  death-rebuilt false now r = rw (r, react) (omega arith)

  react-Disconnects :
      (e : Event)
      → s.returned ≡ false
      → IsServed e
      → (react p e s).0.returned ≡ true
      → Disconnects (react p e s).1
  unfolding react finish restart
  react-Disconnects shutdown r v h = inl refl
  react-Disconnects driver_gone r v h = absurd v
  react-Disconnects (died true true now) r v h = inr (inl refl)
  react-Disconnects (died true false now) r v h = absurd (ground arith)
  react-Disconnects (died false interrupted now) r v h = absurd (ground arith)
  react-Disconnects (woke false now inflight) r v h = absurd (ground arith)
  react-Disconnects (woke true now inflight) r v h = absurd (ground arith)

  -- As long as the driver takes its commands, the supervisor returns only with a disconnect.
  pub return-Disconnects :
      (e : Event)
      → s.returned ≡ false
      → IsServed e
      → (step p e s).0.returned ≡ true
      → Disconnects (step p e s).1
  unfolding step
  return-Disconnects e r v = simp r (react-Disconnects e r v)

  pub returned_stays : (e : Event) → s.returned ≡ true → step p e s ≡ (s, [])
  unfolding step
  returned_stays e r = simp r refl

pub begin-returned : (p : RotationPolicy) (now : ℕ) → (begin p now).returned ≡ false
unfolding begin
begin-returned p now = refl

pub shutdown-returned :
    (p : RotationPolicy) (s : Supervisor) → (step p shutdown s).0.returned ≡ true
unfolding step react finish
shutdown-returned p s = elim (Bool-cases s.returned) [ inl r ↦ simp r refl | inr r ↦ simp r refl ]

pub shutdown_at_most_one : (p : RotationPolicy) (s : Supervisor) → length (step p shutdown s).1 ≤ 1
unfolding step react finish
shutdown_at_most_one p s = elim (Bool-cases s.returned) [
  | inl r ↦ simp r (omega arith)
  | inr r ↦ simp r (omega arith)
]
