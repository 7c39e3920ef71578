-- ===== src/Driver.antt =====
-- The driver of the mixnet client: `run_driver`, `build_when_told` and `GatewaySelector` of
-- zeronym/shim/src/nym_driver.rs. The SDK is an argument: what a build ends in, which messages
-- arrive and when a send completes. An arm of the `select!` is an event; the effects of a turn are
-- the events reported to the supervisor, the messages delivered to the transport, the frames whose
-- send is over, and what is done to the client. The channels are taken to be open, and the sends on
-- them are not waited for.
pub mod Health
pub mod Silence
pub mod Gateways
pub mod Deaths
pub mod Fates
pub mod Flight
pub mod Frames
pub mod Inbound
pub mod Samples
use zero_shim.Prelude.{
  ℕ, ◌+◌, ◌%◌, ◌^◌, Bool, true, false, not, ◌&&◌, Option, none, some, List, [], ◌∷◌, ◌++◌, leb,
  ◌==◌, if◌then◌else◌, Result, ok, err, length, get_elem?, get_or,
}
use zero_shim.Bytes.{Bytes}
use zero_shim.Text.{Text}
use zero_shim.Correlator.{OutFrame}
use zero_shim.Supervisor.{ClientCommand, rebuild, disconnect}
use zero_shim.Status.{
  MixnetStatus, initial, set_configured, set_connected, set_died, set_rebuild_failed, record_send,
  record_inbound, set_address, inbound_total,
}

abbrev pub silent_rounds_before_rebuild : ℕ
silent_rounds_before_rebuild = 2

pub record GatewaySelector : Type 0 where
  pub gateways : List Text
  pub next : ℕ

-- `GatewaySelector::take`
pub take_gateway : GatewaySelector → Option Text × GatewaySelector
take_gateway g = if length g.gateways == 0 then (none, g) else (
  some (get_or g.gateways (g.next % length g.gateways) []),
  record g { next = (g.next + 1) % 2 ^ 64 },
)

-- What `send_frame` gives to the SDK: a frame of unknown target is dropped, and a failure of the
-- send is logged alone.
pub record Transmission : Type 0 where
  pub recipient : Text
  pub message : Bytes
  pub surbs : ℕ

addressed : OutFrame → Option Text → Option Transmission
addressed out none = none
addressed out (some recipient) =
    some (record { recipient = recipient; message = out.frame; surbs = out.reply_surbs })

pub send_frame : List Text → OutFrame → Option Transmission
unfolding addressed
send_frame hub_addresses out = addressed out (get_elem? hub_addresses out.target)

-- `Sent` of the send in flight: a frame for a hub, or a probe.
pub data Sending : Type 0 where
  frame_send : OutFrame → Sending
  probe_send : Sending

-- Where the driver is: with a client, in `build_when_told` before the first client or after one, or
-- returned.
pub data Phase : Type 0 where
  running first_awaited awaited stopped : Phase

pub record Driver : Type 0 where
  pub phase : Phase
  pub in_flight : Option Sending
  pub inbound_at_probe : Option ℕ
  pub silent_rounds : ℕ
  pub gateways : GatewaySelector
  pub status : MixnetStatus

pub data Effect : Type 0 where
  died_reported disconnected : Effect
  built : (gateway : Option Text) → Effect
  send_over : OutFrame → Effect
  delivered : Bytes → Effect

-- An arm, with what the SDK answers: the end of the build for a command, the number of frames that
-- wait for a tick, and for messages the time of each.
pub data Event : Type 0 where
  probe_tick : (backlog : ℕ) → Event
  commanded : Option ClientCommand → (build : Result Text Text) → Event
  frame_taken : Option OutFrame → Event
  send_done : Event
  messages : Option (List (ℕ × Bytes)) → Event

-- A fresh client after the first one.
adopt : Text → Driver → Driver
adopt address s = record s {
  phase = running;
  in_flight = none;
  inbound_at_probe = none;
  silent_rounds = 0;
  status = set_address address (set_connected s.status);
}

build_failed : Phase → Driver → Driver
build_failed phase s = record s {
  phase = phase;
  in_flight = none;
  status = set_rebuild_failed s.status;
}

-- From the start to the first client or to the wait for one.
pub begin : List Text → ℕ → Result Text Text → Driver × List Effect
unfolding build_failed
begin gateways now build =
    let selector : GatewaySelector = record { gateways = gateways; next = 0 } in
    let taken = take_gateway selector in
    let s : Driver = record {
      phase = running;
      in_flight = none;
      inbound_at_probe = none;
      silent_rounds = 0;
      gateways = taken.1;
      status = set_configured now initial;
    } in
    elim build [
      | ok address ↦
          (record s { status = set_address address (set_connected s.status) }, built taken.0 ∷ [])
      | err e ↦ (build_failed first_awaited s, built taken.0 ∷ died_reported ∷ [])
    ]

-- `Step::Rebuild`, its build included.
rebuild_step : Result Text Text → Driver → Driver × List Effect
unfolding adopt build_failed
rebuild_step build s =
    let taken = take_gateway s.gateways in
    let dead = record s { gateways = taken.1; status = set_died s.status } in
    elim build [
      | ok address ↦ (adopt address dead, disconnected ∷ built taken.0 ∷ [])
      | err e ↦ (build_failed awaited dead, disconnected ∷ built taken.0 ∷ died_reported ∷ [])
    ]

-- A rebuild in `build_when_told`. After the first wait the loop starts with its own locals, and the
-- address is not set.
told_step : Phase → Result Text Text → Driver → Driver × List Effect
unfolding adopt build_failed
told_step phase build s =
    let taken = take_gateway s.gateways in
    let t = record s { gateways = taken.1 } in
    elim build [
      | ok address ↦ (
        elim phase as (λ _. Driver) [
          | first_awaited ↦ record t { phase = running; status = set_connected t.status }
          | running ↦ adopt address t
          | awaited ↦ adopt address t
          | stopped ↦ adopt address t
        ],
        built taken.0 ∷ [],
      )
      | err e ↦ (build_failed phase t, built taken.0 ∷ died_reported ∷ [])
    ]

stop : List Effect → Driver → Driver × List Effect
stop effects s = (record s { phase = stopped; in_flight = none }, effects)

-- The arm of the probe.
probe_step : ℕ → Driver → Driver × List Effect
probe_step backlog s =
    let seen = inbound_total s.status in
    let quiet : Bool = elim s.inbound_at_probe [ none ↦ false | some mark ↦ seen == mark ] in
    if not (quiet && backlog == 0)
    then (record s { silent_rounds = 0; in_flight = some probe_send }, [])
    else if leb silent_rounds_before_rebuild (s.silent_rounds + 1)
    then (record s { silent_rounds = 0; inbound_at_probe = none }, died_reported ∷ [])
    else (record s { silent_rounds = s.silent_rounds + 1; in_flight = some probe_send }, [])

-- The completion of the send in flight.
sent_step : Option Sending → Driver → Driver
sent_step none s = s
sent_step (some (frame_send out)) s = record s { in_flight = none; status = record_send s.status }
sent_step (some probe_send) s = record s {
  in_flight = none;
  inbound_at_probe = some (inbound_total s.status);
}

-- `send_over`: the call of `send_frame` for the frame has returned. By then the SDK took the
-- message, or refused it, or the frame was dropped for its target; which of these only the log
-- says.
sent_effects : Option Sending → List Effect
sent_effects none = []
sent_effects (some (frame_send out)) = send_over out ∷ []
sent_effects (some probe_send) = []

-- The loop over the messages.
pub receive : List (ℕ × Bytes) → MixnetStatus → MixnetStatus × List Effect
receive [] st = (st, [])
receive ((now, []) ∷ ms) st = receive ms (record_inbound now true st)
receive ((now, b ∷ bs) ∷ ms) st =
    let rest = receive ms (record_inbound now false st) in (rest.0, delivered (b ∷ bs) ∷ rest.1)

-- A turn of the loop with a client.
run_step : Event → Driver → Driver × List Effect
unfolding rebuild_step stop probe_step sent_step sent_effects receive
run_step (probe_tick backlog) s = probe_step backlog s
run_step (commanded (some rebuild) build) s = rebuild_step build s
run_step (commanded (some disconnect) build) s = stop (disconnected ∷ []) s
run_step (commanded none build) s = stop (disconnected ∷ []) s
run_step (frame_taken (some out)) s = (record s { in_flight = some (frame_send out) }, [])
run_step (frame_taken none) s = stop (disconnected ∷ []) s
run_step send_done s = (sent_step s.in_flight s, sent_effects s.in_flight)
run_step (messages (some ms)) s =
    let got = receive ms s.status in (record s { status = got.0 }, got.1)
run_step (messages none) s =
    (record s { phase = awaited; in_flight = none; status = set_died s.status }, died_reported ∷ [])

-- A turn of `build_when_told`, which hears commands alone.
wait_step : Phase → Event → Driver → Driver × List Effect
unfolding told_step stop
wait_step phase (commanded (some rebuild) build) s = told_step phase build s
wait_step phase (commanded (some disconnect) build) s = stop [] s
wait_step phase (commanded none build) s = stop [] s
wait_step phase (probe_tick backlog) s = (s, [])
wait_step phase (frame_taken frame) s = (s, [])
wait_step phase send_done s = (s, [])
wait_step phase (messages ms) s = (s, [])

-- The guards of the arms: a probe or a frame is taken up only with no send in flight.
pub enabled : Event → Driver → Bool
enabled (probe_tick backlog) s = elim s.in_flight [ none ↦ true | some x ↦ false ]
enabled (frame_taken frame) s = elim s.in_flight [ none ↦ true | some x ↦ false ]
enabled send_done s = elim s.in_flight [ none ↦ false | some x ↦ true ]
enabled (commanded c build) s = true
enabled (messages ms) s = true

in_phase : Phase → Event → Driver → Driver × List Effect
unfolding run_step wait_step
in_phase running e s = run_step e s
in_phase first_awaited e s = wait_step first_awaited e s
in_phase awaited e s = wait_step awaited e s
in_phase stopped e s = (s, [])

-- One turn; an arm whose guard fails does not fire.
pub step : Event → Driver → Driver × List Effect
unfolding in_phase
step e s = if enabled e s then in_phase s.phase e s else (s, [])

pub run : List Event → Driver → Driver × List Effect
unfolding step
run [] s = (s, [])
run (e ∷ es) s = let now = step e s in let rest = run es now.0 in (rest.0, now.1 ++ rest.1)
