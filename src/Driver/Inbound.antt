-- ===== src/Driver/Inbound.antt =====
-- What the driver passes on of the messages that come in (`run_driver` of
-- zeronym/shim/src/nym_driver.rs).
use zero_shim.Prelude.{ℕ, ◌≡◌, refl, ap, true, false, some, List, [], ◌∷◌, map}
use zero_shim.Bytes.{Bytes}
use zero_shim.Status.{MixnetStatus, record_inbound}
use zero_shim.Driver.{
  running, Driver, delivered, messages, receive, run_step, enabled, in_phase, step,
}

-- The messages that are not empty.
abbrev pub whole_messages : List (ℕ × Bytes) → List Bytes
whole_messages [] = []
whole_messages ((now, []) ∷ ms) = whole_messages ms
whole_messages ((now, b ∷ bs) ∷ ms) = (b ∷ bs) ∷ whole_messages ms

receive-delivered :
    (ms : List (ℕ × Bytes)) (st : MixnetStatus)
    → (receive ms st).1 ≡ map delivered (whole_messages ms)
unfolding receive
receive-delivered [] st = refl
receive-delivered ((now, []) ∷ ms) st = receive-delivered ms (record_inbound now true st)
receive-delivered ((now, b ∷ bs) ∷ ms) st =
    ap (λ l. delivered (b ∷ bs) ∷ l) (receive-delivered ms (record_inbound now false st))

-- A driver with a client delivers them all, in order.
pub inbound_delivered :
    (s : Driver) (ms : List (ℕ × Bytes))
    → s.phase ≡ running
    → (step (messages (some ms)) s).1 ≡ map delivered (whole_messages ms)
unfolding step enabled
inbound_delivered s ms q = rw (q, in_phase, run_step) (receive-delivered ms s.status)
