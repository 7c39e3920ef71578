-- ===== src/Correlator/Samples.antt =====
-- A run of the transport loop: one request is handed over, and its ack comes in.
use zero_shim.Prelude.{◌+◌, ◌≤◌, ℕ, ◌≡◌, refl, Bool, true, false, [], ◌∷◌, length, All}
use zero_shim.Bytes.{Bytes}
use zero_shim.Wire.{Nonce, accepted, encode_ack}
use zero_shim.Correlator.{
  ack, Request, Transport, started, reserved, requested, received, enabled, sweep, turn, push,
  Reaches, begun, turned,
}
use zero_shim.Correlator.{requests_closed, Turn}
use zero_shim.Prelude.{◌↔◌}
use zero_shim.Correlator.Drain.{IsParked, LeavesFewer, closed_loop_drains}
use zero_shim.Correlator.Counts
use zero_shim.Correlator.Counts.{fired_so_far, handed_over}
use zero_shim.Correlator.Runs.{IsOwed, is_at, fired-IsOwed}

abbrev first_nonce : Nonce
first_nonce = 1 ∷ 2 ∷ 3 ∷ 4 ∷ 5 ∷ 6 ∷ 7 ∷ 8 ∷ 9 ∷ 10 ∷ 11 ∷ 12 ∷ 13 ∷ 14 ∷ 15 ∷ 16 ∷ []

abbrev first_request : Request
first_request = record {
  nonce = first_nonce;
  frame = [];
  reply_surbs = 13;
  waiter = ack 0;
  target = 0;
}

abbrev first_ack : Bytes
first_ack = encode_ack first_nonce accepted

abbrev nobody : ℕ → Bool
nobody r = false

abbrev with_permit : Transport
with_permit = (turn nobody reserved started).0

abbrev waiting : Transport
waiting = (turn nobody (requested first_request) with_permit).0

request_sent : Reaches waiting (first_request ∷ []) []
unfolding turn enabled sweep
request_sent = turned nobody (requested first_request) (turned nobody reserved begun refl) refl

ack_received :
    Reaches
      (turn nobody (received first_ack) waiting).0
      (push (turn nobody (received first_ack) waiting).1.0 (first_request ∷ []))
      (push (turn nobody (received first_ack) waiting).1.1 [])
ack_received = turned nobody (received first_ack) request_sent (still_running)
  where
    still_running : enabled (received first_ack) waiting ≡ true
    still_running = unfold turn enabled sweep in refl

fired-IsOwed_example :
    All
      (IsOwed (push (turn nobody (received first_ack) waiting).1.0 (first_request ∷ [])))
      (push (turn nobody (received first_ack) waiting).1.1 [])
    × ((r : ℕ)
        → fired_so_far (is_at r) (push (turn nobody (received first_ack) waiting).1.1 [])
            + Counts.waiting (is_at r) (turn nobody (received first_ack) waiting).0.pending
          ≤ handed_over
              (is_at r)
              (push (turn nobody (received first_ack) waiting).1.0 (first_request ∷ [])))
    × ((turn nobody (received first_ack) waiting).0.inflight
        ≡ length (turn nobody (received first_ack) waiting).0.pending)
    × ((turn nobody (received first_ack) waiting).0.returned ≡ true
        → (turn nobody (received first_ack) waiting).0.pending ≡ [])
fired-IsOwed_example = fired-IsOwed ack_received

abbrev without_handles : Transport
without_handles = (turn nobody requests_closed (turn nobody reserved waiting).0).0

handles_gone : Reaches without_handles (first_request ∷ []) []
unfolding turn enabled sweep
handles_gone = turned nobody requests_closed (turned nobody reserved request_sent refl) refl

closed_loop_drains_example :
    ((without_handles.returned ≡ true) ↔ (without_handles.pending ≡ []))
    × ((t : Turn)
        → enabled t without_handles ≡ true
        → IsParked t
          × ((gone : ℕ → Bool)
              → LeavesFewer gone without_handles.pending (turn gone t without_handles)))
closed_loop_drains_example = closed_loop_drains handles_gone requests_shut
  where
    requests_shut : without_handles.requests_open ≡ false
    requests_shut = unfold turn sweep in refl
