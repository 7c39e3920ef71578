-- ===== src/Correlator/Owed.antt =====
-- What the transport loop answers (`deliver` and `correlate` of zeronym/shim/src/nym.rs).
use zero_shim.Prelude.{
  ◌≡◌, refl, inl, inr, Option, none, some, [], ◌∷◌, arith, ◌==◌, if◌then◌else◌, Bool-cases, Result,
  ok, err, length,
}
use zero_shim.Bytes.{Bytes, bytes_eq}
use zero_shim.Bytes.Slices.{bytes_eq_iff}
use zero_shim.Wire.{
  Nonce, WireError, ack_bytes, frame_bytes, AckKind, LookupReply, decode_ack, decode_lookup_reply,
}
use zero_shim.Correlator.{
  Waiter, ack, lookup, Answer, acked, looked_up, Pending, find, remove, insert, deliver_ack,
  deliver_lookup, decoded_ack, decoded_lookup, deliver,
}

-- What a message must be for a waiter to be fired with an answer, and the nonce that it is for.
abbrev pub Answers : Bytes → Nonce → Waiter → Answer → Type 0
Answers bytes nonce waiter (acked r kind) =
    (decode_ack bytes ≡ ok (nonce, kind)) × (length bytes ≡ ack_bytes) × (waiter ≡ ack r)
Answers bytes nonce waiter (looked_up r reply) =
    (decode_lookup_reply bytes ≡ ok (nonce, reply))
    × (length bytes ≡ frame_bytes)
    × (waiter ≡ lookup r)

find-remove_self : (n : Nonce) (p : Pending) → find n (remove n p) ≡ none
find-remove_self n [] = refl
find-remove_self n (e ∷ p) = ground (arith, find-remove_self n p)

find-remove :
    (n m : Nonce) (p : Pending) → find m (remove n p) ≡ (if bytes_eq n m then none else find m p)
find-remove n m [] = ground arith
find-remove n m (e ∷ p) =
    let ih = find-remove n m p in
    let a = bytes_eq_iff e.0 n in
    let b = bytes_eq_iff e.0 m in let c = bytes_eq_iff n m in ground (arith, ih, a, b, c)

-- What one message does to the table: it fires the waiter of its nonce, of its own kind, and
-- forgets that nonce alone; or it fires none, and the table finds what it found before.
abbrev pub Effect : Pending → Bytes → Pending × Option Answer → Type 0
Effect p bytes (p', some a) =
    (nonce : Nonce) × (waiter : Waiter) × (find nonce p ≡ some waiter)
    × Answers bytes nonce waiter a
    × ((m : Nonce) → find m p' ≡ (if bytes_eq nonce m then none else find m p))
Effect p bytes (p', none) =
    ((m : Nonce) → find m p' ≡ find m p)
    × ((nonce : Nonce) (waiter : Waiter) (a : Answer)
        → find nonce p ≡ some waiter
        → ¬ Answers bytes nonce waiter a)

module _ (p : Pending) (bytes : Bytes) where
  unanswered :
      (nonce : Nonce) → find nonce p ≡ none → (m : Nonce) → find m (remove nonce p) ≡ find m p
  unanswered nonce h m = let a = bytes_eq_iff nonce m in ground (arith, find-remove nonce m p, a)

  put_back :
      (nonce : Nonce) (w : Waiter)
      → find nonce p ≡ some w
      → (m : Nonce) → find m (insert nonce w (remove nonce p)) ≡ find m p
  put_back nonce w h m =
      let a = bytes_eq_iff nonce m in
      ground (arith, find-remove nonce m p, find-remove nonce m (remove nonce p), a)

  deliver_ack-Effect :
      (nonce : Nonce) (kind : AckKind) (o : Option Waiter)
      → find nonce p ≡ o
      → length bytes ≡ ack_bytes
      → decode_ack bytes ≡ ok (nonce, kind)
      → Effect p bytes (deliver_ack (remove nonce p) nonce kind o)
  unfolding deliver_ack
  deliver_ack-Effect nonce kind none h l d = (
    unanswered nonce h,
    λ n w a f. elim a [ acked r k ↦ λ x. ground arith | looked_up r y ↦ λ x. ground arith ],
  )
  deliver_ack-Effect nonce kind (some (ack r)) h l d =
      (nonce, ack r, h, (d, l, refl), λ m. find-remove nonce m p)
  deliver_ack-Effect nonce kind (some (lookup r)) h l d = (
    put_back nonce (lookup r) h,
    λ n w a f. elim a [ acked r k ↦ λ x. ground arith | looked_up r y ↦ λ x. ground arith ],
  )

  deliver_lookup-Effect :
      (nonce : Nonce) (reply : LookupReply) (o : Option Waiter)
      → find nonce p ≡ o
      → length bytes ≡ frame_bytes
      → decode_lookup_reply bytes ≡ ok (nonce, reply)
      → Effect p bytes (deliver_lookup (remove nonce p) nonce reply o)
  unfolding deliver_lookup
  deliver_lookup-Effect nonce reply none h l d = (
    unanswered nonce h,
    λ n w a f. elim a [ acked r k ↦ λ x. ground arith | looked_up r y ↦ λ x. ground arith ],
  )
  deliver_lookup-Effect nonce reply (some (lookup r)) h l d =
      (nonce, lookup r, h, (d, l, refl), λ m. find-remove nonce m p)
  deliver_lookup-Effect nonce reply (some (ack r)) h l d = (
    put_back nonce (ack r) h,
    λ n w a f. elim a [ acked r k ↦ λ x. ground arith | looked_up r y ↦ λ x. ground arith ],
  )

  decoded_ack-Effect :
      (d : Result WireError (Nonce × AckKind))
      → length bytes ≡ ack_bytes
      → decode_ack bytes ≡ d
      → Effect p bytes (decoded_ack p d)
  unfolding decoded_ack
  decoded_ack-Effect (err e) l d = (
    λ m. refl,
    λ n w a f. elim a [ acked r k ↦ λ x. ground arith | looked_up r y ↦ λ x. ground arith ],
  )
  decoded_ack-Effect (ok v) l d = deliver_ack-Effect v.0 v.1 (find v.0 p) refl l d

  decoded_lookup-Effect :
      (d : Result WireError (Nonce × LookupReply))
      → length bytes ≡ frame_bytes
      → decode_lookup_reply bytes ≡ d
      → Effect p bytes (decoded_lookup p d)
  unfolding decoded_lookup
  decoded_lookup-Effect (err e) l d = (
    λ m. refl,
    λ n w a f. elim a [ acked r k ↦ λ x. ground arith | looked_up r y ↦ λ x. ground arith ],
  )
  decoded_lookup-Effect (ok v) l d = deliver_lookup-Effect v.0 v.1 (find v.0 p) refl l d

  -- A message either fires one waiter, or it leaves what the table finds for every nonce as it was.
  -- It fires a waiter only with what its own frame decodes to: an ack of the ack's length a waiter
  -- for an ack, a lookup reply of the frame's length a waiter for a lookup, under the nonce in the
  -- frame, and then that nonce alone is forgotten. It fires none only where the table holds no such
  -- waiter.
  pub deliver_exact : Effect p bytes (deliver p bytes)
  unfolding deliver
  deliver_exact = elim (Bool-cases (length bytes == ack_bytes)) [
    | inl e ↦ rw e (decoded_ack-Effect (decode_ack bytes) (ground arith) refl)
    | inr e ↦ elim (Bool-cases (length bytes == frame_bytes)) [
      | inl f ↦ rw (e, f) (decoded_lookup-Effect (decode_lookup_reply bytes) (ground arith) refl)
      | inr f ↦
          rw (e, f)
            (
              (λ m. refl),
              (λ n w a g. elim a [
                | acked r k ↦ λ x. ground arith
                | looked_up r y ↦ λ x. ground arith
              ]),
            )
    ]
  ]
