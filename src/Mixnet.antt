-- ===== src/Mixnet.antt =====
-- The driver and the supervisor of the mixnet client, joined by the two channels that
-- `build_nym_transport` of zeronym/shim/src/main.rs puts between them. The channel of events
-- carries `Died` alone, so it is a count; both are taken to have room. An act is one turn of one of
-- the two tasks, and an act that cannot happen changes nothing.
pub mod Invariant
pub mod Recovery
pub mod Shutdown
pub mod Delivery
pub mod Replies
pub mod Samples
use zero_shim.Prelude.{
  ℕ, zero, suc, ◌+◌, Bool, true, false, List, [], ◌∷◌, ◌++◌, Result, none, some,
}
use zero_shim.Text.{Text}
use zero_shim.Supervisor
use zero_shim.Supervisor.{
  ClientCommand, RotationPolicy, Supervisor, shutdown, driver_gone, died, woke,
}
use zero_shim.Driver
use zero_shim.Driver.{Driver, Phase, running, first_awaited, awaited, stopped, commanded}
use zero_shim.Driver.Deaths.{reported, is_command}

pub record System : Type 0 where
  pub driver : Driver
  pub supervisor : Supervisor
  pub events : ℕ
  pub commands : List ClientCommand

-- An arm of the driver but the commands; the driver takes a command, whose build ends as given, or
-- finds the channel closed; the supervisor reads a report, wakes, is told to shut down, or finds
-- the channel closed.
pub data Act : Type 0 where
  drives : Driver.Event → Act
  obeys orphaned : (build : Result Text Text) → Act
  hears : (interrupted : Bool) (now : ℕ) → Act
  wakes : (now inflight : ℕ) → Act
  stops abandoned : Act

abbrev pub is_stopped : Phase → Bool
is_stopped running = false
is_stopped first_awaited = false
is_stopped awaited = false
is_stopped stopped = true

-- Whether the driver still takes commands.
abbrev pub takes : Phase → Bool
takes running = true
takes first_awaited = true
takes awaited = true
takes stopped = false

driven : Driver.Event → System → System
driven e s =
    let turn = Driver.step e s.driver in
    record s { driver = turn.0; events = s.events + reported turn.1 }

supervised : RotationPolicy → Supervisor.Event → System → System
supervised p e s =
    let turn = Supervisor.step p e s.supervisor in
    record s { supervisor = turn.0; commands = s.commands ++ turn.1 }

obey : Result Text Text → List ClientCommand → System → System
unfolding driven
obey build [] s = s
obey build (c ∷ cs) s = driven (commanded (some c) build) (record s { commands = cs })

orphan : Result Text Text → Bool → List ClientCommand → System → System
unfolding driven
orphan build true [] s = driven (commanded none build) s
orphan build true (c ∷ cs) s = s
orphan build false cs s = s

pub hear : RotationPolicy → Bool → ℕ → ℕ → System → System
unfolding supervised
hear p interrupted now zero s = s
hear p interrupted now (suc left) s =
    supervised p (died (takes s.driver.phase) interrupted now) (record s { events = left })

listen : RotationPolicy → Bool → Bool → ℕ → System → System
unfolding hear
listen p true interrupted now s = s
listen p false interrupted now s = hear p interrupted now s.events s

abandon : RotationPolicy → Bool → ℕ → System → System
unfolding supervised
abandon p true zero s = supervised p driver_gone s
abandon p true (suc left) s = s
abandon p false events s = s

drive : Bool → Driver.Event → System → System
unfolding driven
drive true e s = s
drive false e s = driven e s

pub act : RotationPolicy → Act → System → System
unfolding drive obey orphan listen abandon supervised
act p (drives e) s = drive (is_command e) e s
act p (obeys build) s = obey build s.commands s
act p (orphaned build) s = orphan build s.supervisor.returned s.commands s
act p (hears interrupted now) s = listen p s.supervisor.returned interrupted now s
act p (wakes now inflight) s = supervised p (woke (takes s.driver.phase) now inflight) s
act p stops s = supervised p shutdown s
act p abandoned s = abandon p (is_stopped s.driver.phase) s.events s

pub acts : RotationPolicy → List Act → System → System
unfolding act
acts p [] s = s
acts p (a ∷ as') s = acts p as' (act p a s)

-- The two tasks as they are spawned: the driver with the end of its first build.
pub spawned : RotationPolicy → List Text → ℕ → Result Text Text → System
spawned p gateways now build =
    let first = Driver.begin gateways now build in
    record {
      driver = first.0;
      supervisor = Supervisor.begin p now;
      events = reported first.1;
      commands = [];
    }
