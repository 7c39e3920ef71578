-- ===== src/Supervisor/Samples.antt =====
-- A run of the supervisor: a rotation on time, a death, and a rotation a period after it.
use zero_shim.Prelude.{◌+◌, ◌*◌, ◌≤◌, max, refl, true, false, List, [], ◌∷◌, arith}
use zero_shim.Supervisor.{RotationPolicy, every, Event, died, woke, begin, step}
use zero_shim.Supervisor.Spacing.{AreTimely, rotations, end_time, rotations_spaced}

abbrev hourly : RotationPolicy
hourly = every 3600000

abbrev day : List Event
day = woke true 3601000 0 ∷ died true false 5000000 ∷ woke true 8600000 1 ∷ woke true 8600250 0 ∷ []

on_time : AreTimely hourly 1000 (begin hourly 1000) day
unfolding begin step
on_time = omega arith

rotations_spaced_example :
    rotations hourly (begin hourly 1000) day * max 3600000 hourly.rebuild_backoff + 1000
    ≤ end_time 1000 day
rotations_spaced_example = rotations_spaced hourly 3600000 1000 day refl on_time
