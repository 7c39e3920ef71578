-- ===== src/Correlator.antt =====
-- The transport loop of the mixnet client (zeronym/shim/src/nym.rs): the table of the requests that
-- wait for a reply, `deliver`, and `correlate` with `run_transport`. A waiter is known by a number
-- for its receiver. One turn of the `select!` loop is a function of the arm that fired; which arms
-- may fire is `enabled`, and the receivers whose callers have gone away are an argument of the
-- turn.
pub mod Owed
pub mod Counts
pub mod Runs
pub mod Drain
pub mod Replies
pub mod Samples
use zero_shim.Prelude.{
  ℕ, ◌≡◌, Bool, true, false, not, ◌&&◌, Option, none, some, List, [], ◌∷◌, ◌==◌, if◌then◌else◌,
  Result, ok, err, length,
}
use zero_shim.Bytes.{Bytes, bytes_eq}
use zero_shim.Wire.{
  Nonce, WireError, ack_bytes, frame_bytes, AckKind, LookupReply, decode_ack, decode_lookup_reply,
}

-- `Waiter`, with its receiver
pub data Waiter : Type 0 where
  ack : (receiver : ℕ) → Waiter
  lookup : (receiver : ℕ) → Waiter

abbrev pub receiver_of : Waiter → ℕ
receiver_of (ack r) = r
receiver_of (lookup r) = r

-- `nym::Request`
pub record Request : Type 0 where
  pub nonce : Nonce
  pub frame : Bytes
  pub reply_surbs : ℕ
  pub waiter : Waiter
  pub target : ℕ

-- `OutFrame`, and the one of a request
pub record OutFrame : Type 0 where
  pub frame : Bytes
  pub reply_surbs : ℕ
  pub target : ℕ

abbrev pub out_frame : Request → OutFrame
out_frame r = record { frame = r.frame; reply_surbs = r.reply_surbs; target = r.target }

-- A value sent to a waiter.
pub data Answer : Type 0 where
  acked : (receiver : ℕ) (kind : AckKind) → Answer
  looked_up : (receiver : ℕ) (reply : LookupReply) → Answer

abbrev pub Pending : Type 0
Pending = List (Nonce × Waiter)

-- `HashMap::get`, `remove` and `insert` on the table
abbrev pub find : Nonce → Pending → Option Waiter
find n [] = none
find n (e ∷ p) = if bytes_eq e.0 n then some e.1 else find n p

abbrev pub remove : Nonce → Pending → Pending
remove n [] = []
remove n (e ∷ p) = if bytes_eq e.0 n then remove n p else e ∷ remove n p

abbrev pub insert : Nonce → Waiter → Pending → Pending
insert n w p = (n, w) ∷ remove n p

-- The arms of `match pending.remove(&nonce)`.
deliver_ack : Pending → Nonce → AckKind → Option Waiter → Pending × Option Answer
deliver_ack rest nonce kind (some (ack r)) = (rest, some (acked r kind))
deliver_ack rest nonce kind (some (lookup r)) = (insert nonce (lookup r) rest, none)
deliver_ack rest nonce kind none = (rest, none)

deliver_lookup : Pending → Nonce → LookupReply → Option Waiter → Pending × Option Answer
deliver_lookup rest nonce reply (some (lookup r)) = (rest, some (looked_up r reply))
deliver_lookup rest nonce reply (some (ack r)) = (insert nonce (ack r) rest, none)
deliver_lookup rest nonce reply none = (rest, none)

decoded_ack : Pending → Result WireError (Nonce × AckKind) → Pending × Option Answer
decoded_ack p (ok v) = deliver_ack (remove v.0 p) v.0 v.1 (find v.0 p)
decoded_ack p (err e) = (p, none)

decoded_lookup : Pending → Result WireError (Nonce × LookupReply) → Pending × Option Answer
decoded_lookup p (ok v) = deliver_lookup (remove v.0 p) v.0 v.1 (find v.0 p)
decoded_lookup p (err e) = (p, none)

pub deliver : Pending → Bytes → Pending × Option Answer
unfolding deliver_ack deliver_lookup decoded_ack decoded_lookup
deliver p bytes =
    if length bytes == ack_bytes
    then decoded_ack p (decode_ack bytes)
    else if length bytes == frame_bytes
    then decoded_lookup p (decode_lookup_reply bytes)
    else (p, none)

-- `pending.retain(|_, waiter| !waiter.is_abandoned())`
abbrev pub retain : (ℕ → Bool) → Pending → Pending
retain gone [] = []
retain gone (e ∷ p) = if gone (receiver_of e.1) then retain gone p else e ∷ retain gone p

-- What `correlate` holds across a turn, with the count that it publishes.
pub record Transport : Type 0 where
  pub pending : Pending
  pub requests_open : Bool
  pub permit : Bool
  pub inflight : ℕ
  pub returned : Bool

abbrev pub started : Transport
started = record {
  pending = [];
  requests_open = true;
  permit = false;
  inflight = 0;
  returned = false;
}

-- An arm of the `select!`.
pub data Turn : Type 0 where
  reserved driver_gone requests_closed inbound_closed slept : Turn
  requested : Request → Turn
  received : Bytes → Turn

-- The guards of the arms.
pub enabled : Turn → Transport → Bool
enabled reserved s = not s.returned && (not s.permit && s.requests_open)
enabled driver_gone s = not s.returned && (not s.permit && s.requests_open)
enabled (requested r) s = not s.returned && (s.permit && s.requests_open)
enabled requests_closed s = not s.returned && (s.permit && s.requests_open)
enabled (received bytes) s = not s.returned
enabled inbound_closed s = not s.returned
enabled slept s = not s.returned && not (length s.pending == 0)

-- What a turn does outside: the request it hands to the driver, and the waiter it fires, with the
-- message that was the reason.
abbrev pub Effects : Type 0
Effects = Option Request × Option (Bytes × Answer)

-- The end of a turn that did not return.
sweep : (ℕ → Bool) → Pending → Bool → Bool → Transport
sweep gone p requests_open permit =
    let kept = retain gone p in
    record {
      pending = kept;
      requests_open = requests_open;
      permit = permit;
      inflight = length kept;
      returned = not requests_open && length kept == 0;
    }

-- `return`: the waiters are dropped, and `run_transport` publishes 0.
ended : Transport → Transport
ended s = record s { pending = []; inflight = 0; returned = true }

received_turn : (ℕ → Bool) → Transport → Bytes → Pending × Option Answer → Transport × Effects
received_turn gone s bytes (p, none) = (sweep gone p s.requests_open s.permit, (none, none))
received_turn gone s bytes (p, some a) =
    (sweep gone p s.requests_open s.permit, (none, some (bytes, a)))

pub turn : (ℕ → Bool) → Turn → Transport → Transport × Effects
unfolding sweep ended received_turn
turn gone reserved s = (sweep gone s.pending s.requests_open true, (none, none))
turn gone driver_gone s = (ended s, (none, none))
turn gone (requested r) s =
    (sweep gone (insert r.nonce r.waiter s.pending) s.requests_open false, (some r, none))
turn gone requests_closed s = (sweep gone s.pending false s.permit, (none, none))
turn gone (received []) s = (sweep gone s.pending s.requests_open s.permit, (none, none))
turn gone (received (b ∷ bs)) s = received_turn gone s (b ∷ bs) (deliver s.pending (b ∷ bs))
turn gone inbound_closed s = (ended s, (none, none))
turn gone slept s = (sweep gone s.pending s.requests_open s.permit, (none, none))

abbrev pub push {ℓ} : {A : Type ℓ} → Option A → List A → List A
push none xs = xs
push (some x) xs = x ∷ xs

-- The states that a run of the loop reaches, with the requests handed over and the waiters fired on
-- the way, the last first.
pub data Reaches : Transport → List Request → List (Bytes × Answer) → Type 0 where
  begun : Reaches started [] []
  turned :
      {s : Transport} {sent : List Request} {fired : List (Bytes × Answer)} (gone : ℕ → Bool)
      (t : Turn)
      → Reaches s sent fired
      → enabled t s ≡ true
      → Reaches (turn gone t s).0 (push (turn gone t s).1.0 sent) (push (turn gone t s).1.1 fired)
