-- ===== src/Mixnet/Samples.antt =====
-- A client that dies after its start.
use zero_shim.Prelude.{◌<◌, false, none, List, [], ◌∷◌, ok, length}
use zero_shim.Supervisor.{never}
use zero_shim.Prelude.{◌≡◌, refl, some, ℕ, ◌++◌, map, arith}
use zero_shim.Bytes.{Bytes}
use zero_shim.Wire.{Nonce, accepted, encode_ack}
use zero_shim.Correlator.{ack, acked, Transport, started, received, turn}
use zero_shim.Driver
use zero_shim.Driver.{Driver, messages}
use zero_shim.Driver.{delivered}
use zero_shim.Driver.Inbound.{whole_messages}
use zero_shim.Mixnet.Replies.{hub_answers_caller}
use zero_shim.Driver.Deaths.{IsWaiting, begin-running, closed_messages_wait}
use zero_shim.Mixnet.{System, Act, drives, hears, driven, drive, act, acts, spawned}
use zero_shim.Prelude.{◌≤◌}
use zero_shim.Driver.{stopped}
use zero_shim.Mixnet.{stops, obeys, supervised}
use zero_shim.Mixnet.Shutdown.{shutdown_stops_driver}
use zero_shim.Supervisor.Answers.{shutdown_at_most_one}
use zero_shim.Mixnet.Recovery.{no_death_lost}

abbrev start : System
start = spawned never ((97 ∷ []) ∷ []) 7 (ok (105 ∷ []))

abbrev death : List Act
death = drives (messages none) ∷ []

death_waits : IsWaiting (acts never death start).driver.phase
unfolding acts act drive driven spawned
death_waits = closed_messages_wait _ (begin-running _ 7 _)

no_death_lost_example : 0 < length (act never (hears false 9000) (acts never death start)).commands
no_death_lost_example =
    no_death_lost never ((97 ∷ []) ∷ []) 7 (ok (105 ∷ [])) death false 9000 death_waits

abbrev nonce : Nonce
nonce = 1 ∷ 2 ∷ 3 ∷ 4 ∷ 5 ∷ 6 ∷ 7 ∷ 8 ∷ 9 ∷ 10 ∷ 11 ∷ 12 ∷ 13 ∷ 14 ∷ 15 ∷ 16 ∷ []

abbrev connected : Driver
connected = (Driver.begin ((97 ∷ []) ∷ []) 7 (ok (105 ∷ []))).0

abbrev asked : Transport
asked = record started { pending = (nonce, ack 3) ∷ [] }

abbrev probe : List (ℕ × Bytes)
probe = (8, []) ∷ []

hub_answers_caller_example :
    ((Driver.step (messages (some (probe ++ ((9, encode_ack nonce accepted) ∷ [])))) connected).1
      ≡ map delivered (whole_messages probe) ++ (delivered (encode_ack nonce accepted) ∷ []))
    × ((turn (λ x. false) (received (encode_ack nonce accepted)) asked).1
        ≡ (none, some (encode_ack nonce accepted, acked 3 accepted)))
hub_answers_caller_example =
    hub_answers_caller (λ x. false) asked nonce refl connected probe [] 9 (acked 3 accepted)
      (encode_ack nonce accepted) (begin-running ((97 ∷ []) ∷ []) 7 (105 ∷ [])) (omega arith) refl
      refl

after_stop : length (act never stops start).commands ≤ 1
unfolding act supervised spawned
after_stop = shutdown_at_most_one never _

shutdown_stops_driver_example :
    (acts never (map obeys (ok [] ∷ [])) (act never stops (acts never [] start))).driver.phase
    ≡ stopped
shutdown_stops_driver_example =
    shutdown_stops_driver never ((97 ∷ []) ∷ []) 7 (ok (105 ∷ [])) [] (ok [] ∷ [])
      (unfold acts in after_stop)
