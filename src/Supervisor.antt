-- ===== src/Supervisor.antt =====
-- The life of the mixnet client: `RotationPolicy` and `run_supervisor` of zeronym/shim/src/nym.rs.
-- Times are milliseconds of one monotonic clock. An arm of the `select!` loop is an event with the
-- time at which it runs; where the source reads the clock more than once in an arm, the readings
-- are that one time. Whether the driver still takes a command is part of the event.
pub mod Deferral
pub mod Commands
pub mod Spacing
pub mod Answers
pub mod Samples
use zero_shim.Prelude.{
  ℕ, ◌+◌, max, Bool, true, false, not, ◌&&◌, Option, none, some, List, [], ◌∷◌, ◌++◌, ltb, ◌==◌,
  if◌then◌else◌,
}

abbrev pub request_timeout : ℕ
request_timeout = 90000

abbrev pub defer_recheck : ℕ
defer_recheck = 250

pub record RotationPolicy : Type 0 where
  pub period : Option ℕ
  pub defer_limit : ℕ
  pub rebuild_backoff : ℕ

abbrev pub never : RotationPolicy
never = record { period = none; defer_limit = request_timeout; rebuild_backoff = 5000 }

abbrev pub every : ℕ → RotationPolicy
every period = record never { period = some period }

abbrev pub effective_defer_limit : RotationPolicy → ℕ
effective_defer_limit p = max p.defer_limit request_timeout

abbrev pub scheduled : RotationPolicy → ℕ → Option ℕ → Option ℕ
scheduled p now none = none
scheduled p now (some period) = some (now + max period p.rebuild_backoff)

pub next_rotation : RotationPolicy → ℕ → Option ℕ
next_rotation p now = scheduled p now p.period

pub data ClientCommand : Type 0 where
  rebuild disconnect : ClientCommand

-- The two locals of the loop, and whether it has returned.
pub record Supervisor : Type 0 where
  pub rotate_at : Option ℕ
  pub defer_deadline : Option ℕ
  pub returned : Bool

pub begin : RotationPolicy → ℕ → Supervisor
unfolding next_rotation
begin p now = record { rotate_at = next_rotation p now; defer_deadline = none; returned = false }

-- When the sleep of the loop ends, if nothing else happens.
abbrev pub wake : ℕ → Option ℕ → Option ℕ → Option ℕ
wake now (some deadline) rotate_at = some (now + defer_recheck)
wake now none (some at) = some at
wake now none none = none

-- The arms. `died` has the time after the backoff, and whether a shutdown cut the backoff short.
pub data Event : Type 0 where
  shutdown driver_gone : Event
  died : (taken interrupted : Bool) (now : ℕ) → Event
  woke : (taken : Bool) (now inflight : ℕ) → Event

finish : List ClientCommand → Supervisor → Supervisor × List ClientCommand
finish commands s = (record s { returned = true }, commands)

restart : RotationPolicy → ℕ → Supervisor → Supervisor
unfolding next_rotation
restart p now s = record s { rotate_at = next_rotation p now; defer_deadline = none }

-- `get_or_insert_with`
abbrev pub deadline_from : RotationPolicy → ℕ → Option ℕ → ℕ
deadline_from p now none = now + effective_defer_limit p
deadline_from p now (some deadline) = deadline

react : RotationPolicy → Event → Supervisor → Supervisor × List ClientCommand
unfolding finish restart
react p shutdown s = finish (disconnect ∷ []) s
react p driver_gone s = finish [] s
react p (died taken interrupted now) s =
    if not taken
    then finish [] s
    else if interrupted
    then finish (rebuild ∷ disconnect ∷ []) s
    else (restart p now s, rebuild ∷ [])
react p (woke taken now inflight) s =
    let deadline = deadline_from p now s.defer_deadline in
    if not (inflight == 0) && ltb now deadline
    then (record s { defer_deadline = some deadline }, [])
    else if not taken
    then finish [] (record s { defer_deadline = some deadline })
    else (restart p now s, rebuild ∷ [])

-- One turn of the loop, with the commands sent; a rebuild that the driver no longer takes is left
-- out.
pub step : RotationPolicy → Event → Supervisor → Supervisor × List ClientCommand
unfolding react
step p e s = if s.returned then (s, []) else react p e s

pub run : RotationPolicy → List Event → Supervisor → Supervisor × List ClientCommand
unfolding step
run p [] s = (s, [])
run p (e ∷ es) s = let now = step p e s in let rest = run p es now.0 in (rest.0, now.1 ++ rest.1)
