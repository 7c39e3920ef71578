-- ===== src/Driver/Flight.antt =====
-- The send of one frame, from the turn that takes it to the return of `send_frame` (`run_driver` of
-- zeronym/shim/src/nym_driver.rs).
use zero_shim.Prelude.{
  ◌≡◌, refl, ◌∙◌, ap, append-nil, true, false, none, some, List, [], ◌∷◌, ◌++◌, All,
}
use zero_shim.Correlator.{OutFrame}
use zero_shim.Driver.{
  frame_send, running, Driver, Effect, Event, probe_tick, commanded, frame_taken, send_done,
  messages, run_step, in_phase, enabled, sent_effects, step, run,
}
use zero_shim.Driver.Fates.{sends, receive-sends}
use zero_shim.Driver.Frames.{sends-append}

-- The arms that leave a send in flight: no command, and no end of the messages.
abbrev pub IsCalm : Event → Type 0
IsCalm (probe_tick backlog) = Unit {0}
IsCalm (frame_taken frame) = Unit {0}
IsCalm (messages (some ms)) = Unit {0}
IsCalm (messages none) = ⊥
IsCalm (commanded c build) = ⊥
IsCalm send_done = ⊥

-- The frame is taken, `calm` comes while its send is in flight, and the send returns.
abbrev pub flight : OutFrame → List Event → List Event
flight out calm = frame_taken (some out) ∷ (calm ++ (send_done ∷ []))

step_blocked : (e : Event) (d : Driver) → enabled e d ≡ false → step e d ≡ (d, [])
unfolding step
step_blocked e d h = rw h refl

step-running :
    (e : Event) (d : Driver) → enabled e d ≡ true → d.phase ≡ running → step e d ≡ run_step e d
unfolding step in_phase
step-running e d h r = rw (h, r) refl

module _ (out : OutFrame) where
  record IsSending (d : Driver) : Type 0 where
    with_client : d.phase ≡ running
    flying : d.in_flight ≡ some (frame_send out)

  abbrev StaysSending : Driver × List Effect → Type 0
  StaysSending r = IsSending r.0 × (sends r.1 ≡ [])

  blocked : (e : Event) (d : Driver) → enabled e d ≡ false → IsSending d → StaysSending (step e d)
  blocked e d h w = rw (step_blocked e d h) (w, refl)

  calm_step : (e : Event) (d : Driver) → IsCalm e → IsSending d → StaysSending (step e d)
  calm_step (probe_tick backlog) d h w =
      blocked (probe_tick backlog) d (unfold enabled in rw w.flying refl) w
  calm_step (frame_taken frame) d h w =
      blocked (frame_taken frame) d (unfold enabled in rw w.flying refl) w
  calm_step (messages (some ms)) d h w =
      rw (step-running (messages (some ms)) d (unfold enabled in refl) w.with_client) (
        unfold run_step in
        (record { with_client = w.with_client; flying = w.flying }, receive-sends ms d.status))
  calm_step (messages none) d h w = absurd h
  calm_step (commanded c build) d h w = absurd h
  calm_step send_done d h w = absurd h

  returned-sends : (d : Driver) → IsSending d → sends (step send_done d).1 ≡ out ∷ []
  returned-sends d w =
      rw (step-running send_done d (unfold enabled in rw w.flying refl) w.with_client)
        (unfold run_step sent_effects in rw w.flying refl)

  calm-sends :
      (calm : List Event) (d : Driver)
      → All IsCalm calm
      → IsSending d
      → sends (run (calm ++ (send_done ∷ [])) d).1 ≡ out ∷ []
  unfolding run
  calm-sends [] d h w =
      sends-append (step send_done d).1 []
      ∙ append-nil (sends (step send_done d).1)
      ∙ returned-sends d w
  calm-sends (e ∷ calm) d (h, hs) w =
      let k = calm_step e d h w in
      sends-append (step e d).1 (run (calm ++ (send_done ∷ [])) (step e d).0).1
      ∙ ap (λ l. l ++ sends (run (calm ++ (send_done ∷ [])) (step e d).0).1) k.1
      ∙ calm-sends calm (step e d).0 hs k.0

  -- With a client and no send in flight, the driver comes to call `send_frame` for the frame that
  -- it takes, and that call, with nothing to tear it down, is the one send of the run.
  pub flight-sends :
      (calm : List Event) (d : Driver)
      → d.phase ≡ running
      → d.in_flight ≡ none
      → All IsCalm calm
      → sends (run (flight out calm) d).1 ≡ out ∷ []
  unfolding run
  flight-sends calm d r free h =
      let taken : step (frame_taken (some out)) d
          ≡ (record d { in_flight = some (frame_send out) }, []) =
        step-running (frame_taken (some out)) d (unfold enabled in rw free refl) r
        ∙ unfold run_step in refl in
      rw taken (
        calm-sends calm (record d { in_flight = some (frame_send out) }) h
          (record { with_client = r; flying = refl }))
