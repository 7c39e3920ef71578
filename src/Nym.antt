-- ===== src/Nym.antt =====
-- The sender side of the mixnet client: `NymHandle` of zeronym/shim/src/nym.rs. How the transport
-- answers each attempt is an argument, and so are the nonces drawn and the receivers made for it. A
-- call returns the requests that it offered to the transport beside its result.
pub mod Dispatch
pub mod Sweep
pub mod Transport
use zero_shim.Prelude.{
  ℕ, zero, suc, ◌+◌, ◌%◌, ◌^◌, Option, none, some, List, [], ◌∷◌, ltb, ◌==◌, if◌then◌else◌, Result,
  ok, err, length,
}
use zero_shim.Bytes.{Bytes}
use zero_shim.Wire.{Nonce, WireError, LookupReply, encode_submit, encode_lookup}
use zero_shim.Correlator.{ack, lookup, Request}

abbrev pub submit_reply_surbs : ℕ
submit_reply_surbs = 13

abbrev pub lookup_reply_surbs : ℕ
lookup_reply_surbs = 60

pub data NymError : Type 0 where
  encode : WireError → NymError
  timeout : NymError
  transport_gone : NymError

-- `timeout_at(deadline, self.requests.send(request))`
pub data Offer : Type 0 where
  taken closed late : Offer

-- What a request gets of its own: a nonce and a one-shot channel.
pub record Fresh : Type 0 where
  pub nonce : Nonce
  pub receiver : ℕ

submit_request : Fresh → Bytes → ℕ → Request
submit_request f frame target = record {
  nonce = f.nonce;
  frame = frame;
  reply_surbs = submit_reply_surbs;
  waiter = ack f.receiver;
  target = target;
}

lookup_request : Fresh → Bytes → ℕ → Request
lookup_request f frame target = record {
  nonce = f.nonce;
  frame = frame;
  reply_surbs = lookup_reply_surbs;
  waiter = lookup f.receiver;
  target = target;
}

-- The arms of the offer of one frame: count it and go on, or `break`.
offered : Offer → Request → List Request × Option WireError → List Request × Option WireError
offered taken request rest = (request ∷ rest.0, rest.1)
offered closed request rest = ([], none)
offered late request rest = ([], none)

-- The loop of `submit` from `target` on, with `left` addresses to go: the requests that were handed
-- over, and the error of an early return.
submit_loop :
    (ℕ → Offer) → (ℕ → Fresh) → Bytes → (target left : ℕ) → List Request × Option WireError
unfolding submit_request offered
submit_loop offers fresh tx target zero = ([], none)
submit_loop offers fresh tx target (suc left) = elim (encode_submit (fresh target).nonce tx) [
  | err e ↦ ([], some e)
  | ok frame ↦
      let rest = submit_loop offers fresh tx (suc target) left in
      offered (offers target) (submit_request (fresh target) frame target) rest
]

-- `if dispatched > 0`
dispatch_verdict : List Request × Option WireError → List Request × Result NymError (Unit {0})
dispatch_verdict (handed, some e) = (handed, err (encode e))
dispatch_verdict (handed, none) =
    (handed, if ltb 0 (length handed) then ok tt else err transport_gone)

-- `NymHandle::submit`, with the number of configured addresses
pub submit :
    (ℕ → Offer) → (ℕ → Fresh) → (targets : ℕ) → Bytes → List Request × Result NymError (Unit {0})
unfolding submit_loop dispatch_verdict
submit offers fresh targets tx =
    if targets == 0
    then ([], err transport_gone)
    else dispatch_verdict (submit_loop offers fresh tx 0 targets)

-- One attempt of a lookup, from the offer of the request to the end of `await_reply`.
pub data Attempt : Type 0 where
  not_accepted channel_closed no_reply waiter_dropped : Attempt
  answered : LookupReply → Attempt

-- `start.wrapping_add(attempt) % targets`
abbrev pub target_of : (start attempt targets : ℕ) → ℕ
target_of start attempt targets = (start + attempt) % 2 ^ 64 % targets

-- What an attempt makes of the sweep: go on, or end with a result.
abbrev pub ending : Attempt → Option (Result NymError LookupReply)
ending not_accepted = none
ending channel_closed = some (err transport_gone)
ending no_reply = none
ending waiter_dropped = some (err transport_gone)
ending (answered reply) = some (ok reply)

-- Go on, or return.
after_attempt :
    Option (Result NymError LookupReply)
    → Request
    → List Request × Result NymError LookupReply
    → List Request × Result NymError LookupReply
after_attempt none request rest = (request ∷ rest.0, rest.1)
after_attempt (some result) request rest = (request ∷ [], result)

-- The loop of `each_target` with the `build` of `get_transaction`, from `attempt` on.
sweep_loop :
    (ℕ → Attempt)
    → (ℕ → Fresh)
    → (start targets : ℕ) → Bytes
    → (attempt left : ℕ) → NymError
    → List Request × Result NymError LookupReply
unfolding lookup_request after_attempt
sweep_loop tries fresh start targets hash attempt zero last = ([], err last)
sweep_loop tries fresh start targets hash attempt (suc left) last =
    elim (encode_lookup (fresh attempt).nonce hash) [
      | err e ↦ ([], err (encode e))
      | ok frame ↦
          let request = lookup_request (fresh attempt) frame (target_of start attempt targets) in
          let rest = sweep_loop tries fresh start targets hash (suc attempt) left timeout in
          after_attempt (ending (tries attempt)) request rest
    ]

-- `NymHandle::get_transaction`, with the value of the cursor that the call read
pub get_transaction :
    (ℕ → Attempt)
    → (ℕ → Fresh)
    → (start targets : ℕ) → Bytes
    → List Request × Result NymError LookupReply
unfolding sweep_loop
get_transaction tries fresh start targets hash =
    if targets == 0
    then ([], err transport_gone)
    else sweep_loop tries fresh start targets hash 0 targets transport_gone

-- `NymHandle` at one call: how the transport answers, what is drawn, the cursor and the addresses.
pub record NymHandle : Type 0 where
  pub offers : ℕ → Offer
  pub tries : ℕ → Attempt
  pub fresh : ℕ → Fresh
  pub start : ℕ
  pub targets : ℕ
