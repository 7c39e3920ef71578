-- ===== src/Driver/Samples.antt =====
-- A run of the driver: two probes go out and nothing comes in.
use zero_shim.Prelude.{
  length, err, some, ◌++◌, ◌<◌, ◌^◌, ◌≡◌, refl, ◌≢◌, ◌↔◌, true, none, List, [], ◌∷◌, arith, ok,
}
use zero_shim.Text.{Text}
use zero_shim.Status.{
  set_configured, set_connected, set_address, inbound_total, is_healthy, set_died,
  set_rebuild_failed,
}
use zero_shim.Driver.{
  running, stopped, Driver, Event, probe_tick, send_done, begin, probe_step, sent_step, run_step,
  wait_step, rebuild_step, told_step, take_gateway, Effect, commanded, enabled, in_phase, step, run,
}
use zero_shim.Supervisor.{rebuild}
use zero_shim.Prelude.{◌≤◌}
use zero_shim.Correlator.{OutFrame}
use zero_shim.Driver.{frame_taken}
use zero_shim.Driver.Fates.{
  Fates, frames_of, held, all_taken_up, sends, finished, abandoned, all_tears,
}
use zero_shim.Driver.Frames.{frames_accounted}
use zero_shim.Driver.Gateways.{builds, round, gateways_in_turn}
use zero_shim.Driver.Health.{driver_health_exact}

abbrev two_probes : List Event
two_probes = probe_tick 0 ∷ send_done ∷ probe_tick 0 ∷ send_done ∷ []

abbrev address : Text
address = 105 ∷ 64 ∷ 103 ∷ []

abbrev quiet : Driver
quiet = (run two_probes (begin [] 7 (ok address)).0).0

quiet_running : (quiet.phase ≡ running) × (quiet.in_flight ≡ none)
unfolding run step in_phase run_step probe_step sent_step begin enabled inbound_total set_address
    set_connected set_configured
quiet_running = (refl, refl)

driver_health_exact_example : (is_healthy quiet.status ≡ true) ↔ (quiet.phase ≡ running)
driver_health_exact_example = driver_health_exact [] 7 (ok address) two_probes not_stopped
  where
    not_stopped : quiet.phase ≢ stopped
    not_stopped = λ h. ground (arith, quiet_running.0)

abbrev three_gateways : List Text
three_gateways = (97 ∷ []) ∷ (98 ∷ []) ∷ (99 ∷ []) ∷ []

abbrev rebuilds : List Event
rebuilds =
    commanded (some rebuild) (err [])
    ∷ commanded (some rebuild) (ok address)
    ∷ commanded (some rebuild) (ok address)
    ∷ []

abbrev all_effects : List Effect
all_effects =
    (begin three_gateways 7 (ok address)).1
    ++ (run rebuilds (begin three_gateways 7 (ok address)).0).1

four_builds : length (builds all_effects) ≡ 4
unfolding run step in_phase run_step wait_step rebuild_step told_step begin enabled take_gateway
    set_died set_address set_connected set_configured set_rebuild_failed
four_builds = refl

few_builds : length (builds all_effects) < 2 ^ 64
few_builds = omega (arith, four_builds)

gateways_in_turn_example : builds all_effects ≡ round three_gateways 0 (length (builds all_effects))
gateways_in_turn_example =
    gateways_in_turn three_gateways 7 (ok address) rebuilds (omega arith) few_builds

abbrev first_frame : OutFrame
first_frame = record { frame = 1 ∷ []; reply_surbs = 13; target = 0 }

abbrev second_frame : OutFrame
second_frame = record { frame = 2 ∷ []; reply_surbs = 13; target = 0 }

abbrev traffic : List Event
traffic =
    frame_taken (some first_frame)
    ∷ send_done
    ∷ frame_taken (some second_frame)
    ∷ commanded (some rebuild) (ok address)
    ∷ []

frames_accounted_example :
    (fates : Fates) × (frames_of fates
        ++ held (run traffic (begin three_gateways 7 (ok address)).0).0.in_flight
      ≡ all_taken_up traffic (begin three_gateways 7 (ok address)).0)
    × (sends (run traffic (begin three_gateways 7 (ok address)).0).1 ≡ finished fates)
    × (abandoned fates ≤ all_tears traffic)
frames_accounted_example = frames_accounted three_gateways 7 (ok address) traffic
