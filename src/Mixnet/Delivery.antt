-- ===== src/Mixnet/Delivery.antt =====
-- The way of a request from `NymHandle` (zeronym/shim/src/nym.rs) to `send_frame`
-- (zeronym/shim/src/nym_driver.rs), where the driver publishes the number of its hub addresses.
use zero_shim.Prelude.{
  ℕ, zero, suc, ◌+◌, ◌%◌, ◌^◌, ◌≤◌, ◌<◌, ◌≡◌, refl, sym, none, some, List, [], ◌∷◌, map, arith,
  Result, ok, length, get_or, All,
}
use native.Mathlib.Nat.{mod-lt}
use zero_shim.Bytes.{Bytes}
use zero_shim.Text.{Text}
use zero_shim.Wire.{
  Nonce, IsNonce, WireError, decode_submit, decode_lookup, max_nym_tx_bytes, max_lookup_hash_bytes,
}
use zero_shim.Correlator.{Request, out_frame}
use zero_shim.Driver.{running, Driver, Event, Transmission, send_frame, run}
use zero_shim.Driver.Fates.{sends}
use zero_shim.Driver.Flight.{IsCalm, flight, flight-sends}
use zero_shim.Driver.Frames.{send_frame-in}
use zero_shim.Nym.{
  Offer, taken, closed, late, Fresh, Attempt, submit, get_transaction, submit_reply_surbs,
  lookup_reply_surbs, target_of,
}
use zero_shim.Nym.Dispatch.{takers, taker, IsSubmission, submit_exact}
use zero_shim.Nym.Sweep.{AreAttempts, get_transaction-Sweeps}

-- The driver `d`, which takes the frame of the request and then has the arms `calm`, calls
-- `send_frame` for that frame and no other; and the call gives the SDK one message, to the address
-- that the request names, which reads as the request's nonce with the payload.
abbrev pub IsDispatched :
    Driver
    → List Event
    → List Text
    → ℕ
    → (Bytes → Result WireError (Nonce × Bytes))
    → Bytes
    → Request
    → Type 0
IsDispatched d calm addresses surbs decode payload r =
    (t : Transmission) × (sends (run (flight (out_frame r) calm) d).1 ≡ out_frame r ∷ [])
    × (send_frame addresses (out_frame r) ≡ some t)
    × (r.target < length addresses)
    × (t.recipient ≡ get_or addresses r.target [])
    × (t.surbs ≡ surbs)
    × (decode t.message ≡ ok (r.nonce, payload))

taker_below :
    (o : Offer) (target n : ℕ) (rest : List ℕ)
    → target < n
    → All (λ i. i < n) rest
    → All (λ i. i < n) (taker o target rest)
taker_below taken target n rest h hs = (h, hs)
taker_below closed target n rest h hs = tt
taker_below late target n rest h hs = tt

takers_below :
    (offers : ℕ → Offer) (target left n : ℕ)
    → target + left ≤ n
    → All (λ i. i < n) (takers offers target left)
takers_below offers target zero n h = tt
takers_below offers target (suc left) n h =
    taker_below (offers target) target n (takers offers (suc target) left) (omega arith)
      (takers_below offers (suc target) left n (omega arith))

targets_below :
    (n : ℕ) (rs : List Request)
    → All (λ i. i < n) (map (λ r. r.target) rs)
    → All (λ r. r.target < n) rs
targets_below n [] h = tt
targets_below n (r ∷ rs) (h, hs) = (h, targets_below n rs hs)

module _ (d : Driver) (calm : List Event) (with_client : d.phase ≡ running)
    (free : d.in_flight ≡ none) (undisturbed : All IsCalm calm) where
  request-IsDispatched :
      (addresses : List Text) (surbs : ℕ) (decode : Bytes → Result WireError (Nonce × Bytes))
      (payload : Bytes) (r : Request)
      → r.target < length addresses
      → r.reply_surbs ≡ surbs
      → decode r.frame ≡ ok (r.nonce, payload)
      → IsDispatched d calm addresses surbs decode payload r
  request-IsDispatched addresses surbs decode payload r h s e = (
    record { recipient = get_or addresses r.target []; message = r.frame; surbs = r.reply_surbs },
    flight-sends (out_frame r) calm d with_client free undisturbed,
    send_frame-in addresses (out_frame r) h,
    h,
    refl,
    s,
    e,
  )

  module _ (addresses : List Text) (configured : 0 < length addresses) (fresh : ℕ → Fresh)
      (hn : (i : ℕ) → IsNonce (fresh i).nonce) where
    submissions-IsDispatched :
        (offers : ℕ → Offer) (tx : Bytes) (rs : List Request)
        → All (λ r. r.target < length addresses) rs
        → All (IsSubmission offers fresh tx) rs
        → All (IsDispatched d calm addresses submit_reply_surbs decode_submit tx) rs
    submissions-IsDispatched offers tx [] h w = tt
    submissions-IsDispatched offers tx (r ∷ rs) (h, hs) (w, ws) = (
      request-IsDispatched addresses submit_reply_surbs decode_submit tx r h w.surbs w.carries,
      submissions-IsDispatched offers tx rs hs ws,
    )

    attempts-IsDispatched :
        (tries : ℕ → Attempt) (start : ℕ) (hash : Bytes) (from : ℕ) (rs : List Request)
        → AreAttempts tries fresh start (length addresses) hash from rs
        → All (IsDispatched d calm addresses lookup_reply_surbs decode_lookup hash) rs
    attempts-IsDispatched tries start hash from [] w = tt
    attempts-IsDispatched tries start hash from (r ∷ rs) (w, ws) =
        let h : target_of start from (length addresses) < length addresses =
          mod-lt ((start + from) % 2 ^ 64) (omega arith) in
        (
          request-IsDispatched addresses lookup_reply_surbs decode_lookup hash r
              (ground (arith, w.aimed, h)) w.surbs w.carries,
          attempts-IsDispatched tries start hash (suc from) rs ws,
        )

    -- Where the handle counts the hub addresses of the driver, at least one, and draws nonces of
    -- NONCE_BYTES bytes: take a driver that has a client and no send in flight, and any arms that
    -- are not a command, the end of the messages or the return of a send. For each request that a
    -- submission of a transaction in the budget hands over, if the driver takes its frame and has
    -- those arms before the send returns, then the one call of `send_frame` that returns is for
    -- that frame, and it gives the SDK one message to the configured address that the request
    -- names, with the SURBs of a submission, which a hub reads as the request's nonce and the
    -- transaction: no frame is dropped for its target. So it is for each request that a lookup of
    -- a hash in the budget makes, with the SURBs of a lookup and the hash. Whether the transport
    -- takes a lookup's request, and what the SDK does with the message, are not part of this.
    pub requests-IsDispatched :
        (offers : ℕ → Offer) (tries : ℕ → Attempt) (start : ℕ) (tx hash : Bytes)
        → length tx ≤ max_nym_tx_bytes
        → length hash ≤ max_lookup_hash_bytes
        → All
            (IsDispatched d calm addresses submit_reply_surbs decode_submit tx)
            (submit offers fresh (length addresses) tx).0
          × All
              (IsDispatched d calm addresses lookup_reply_surbs decode_lookup hash)
              (get_transaction tries fresh start (length addresses) hash).0
    requests-IsDispatched offers tries start tx hash fits short =
        let n = length addresses in
        let (targets, all, _, _) = submit_exact offers fresh tx hn fits n configured in
        let below =
          coe 0 1 (i. All (λ k. k < n) (sym targets i)) (takers_below offers 0 n n (omega arith)) in
        (
          submissions-IsDispatched offers tx (submit offers fresh n tx).0
              (targets_below n (submit offers fresh n tx).0 below) all,
          attempts-IsDispatched tries start hash 0 (get_transaction tries fresh start n hash).0
              (get_transaction-Sweeps tries fresh start n hash hn short configured).0,
        )
