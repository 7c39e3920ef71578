-- ===== src/Mixnet/Recovery.antt =====
-- A death of the client is not lost between the driver and the supervisor.
use zero_shim.Prelude.{
  ℕ, zero, suc, ◌<◌, ◌≡◌, refl, ◌⊎◌, inl, inr, Bool, true, false, List, arith, Result, length,
}
use zero_shim.Text.{Text}
use zero_shim.Supervisor.{RotationPolicy}
use zero_shim.Driver.Deaths.{IsWaiting}
use zero_shim.Mixnet.{System, Act, hears, hear, listen, act, acts, spawned}
use zero_shim.Mixnet.Invariant.{
  IsSound, Disconnects-length, not_waiting_stopped, report-answered, acts-IsSound, spawned-IsSound,
}

module _ (p : RotationPolicy) where
  -- With a report to read, or a command under way, the supervisor's turn leaves a command.
  hear-Commands :
      (interrupted : Bool) (now events : ℕ) (s : System)
      → s.supervisor.returned ≡ false
      → IsWaiting s.driver.phase
      → (0 < events) ⊎ (0 < length s.commands)
      → 0 < length (hear p interrupted now events s).commands
  hear-Commands interrupted now zero s r w (inl h) = absurd (omega arith)
  hear-Commands interrupted now zero s r w (inr h) = unfold hear in h
  hear-Commands interrupted now (suc left) s r w h = report-answered p interrupted now left s r w

  told-Commands :
      (s : System)
      → IsSound s
      → IsWaiting s.driver.phase
      → s.supervisor.returned ≡ true
      → 0 < length s.commands
  told-Commands s (heard, told) w r = elim (told r) [
    | inl q ↦ absurd (not_waiting_stopped _ q w)
    | inr h ↦ Disconnects-length s.commands h
  ]

  listen-Commands :
      (returned interrupted : Bool) (now : ℕ) (s : System)
      → s.supervisor.returned ≡ returned
      → IsSound s
      → IsWaiting s.driver.phase
      → 0 < length (listen p returned interrupted now s).commands
  unfolding listen
  listen-Commands true interrupted now s r h w = told-Commands s h w r
  listen-Commands false interrupted now s r (heard, told) w =
      hear-Commands interrupted now s.events s r w (elim (heard w) [
        | inl h ↦ inl h
        | inr (inl h) ↦ inr h
        | inr (inr h) ↦ absurd (ground arith)
      ])

  -- Whatever the driver and the supervisor have done since they were spawned, the first build ended
  -- as it may and each later one as its command says: while the driver waits without a client, one
  -- turn of the supervisor on its channel of events leaves a command for the driver.
  pub no_death_lost :
      (gs : List Text) (start : ℕ) (b : Result Text Text) (as' : List Act) (interrupted : Bool)
      (now : ℕ)
      → IsWaiting (acts p as' (spawned p gs start b)).driver.phase
      → 0 < length (act p (hears interrupted now) (acts p as' (spawned p gs start b))).commands
  unfolding act
  no_death_lost gs start b as' interrupted now w =
      listen-Commands (acts p as' (spawned p gs start b)).supervisor.returned interrupted now
        (acts p as' (spawned p gs start b)) refl
        (acts-IsSound p as' (spawned p gs start b) (spawned-IsSound p gs start b)) w
