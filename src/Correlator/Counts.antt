-- ===== src/Correlator/Counts.antt =====
-- The waiters in the table, weighed by their receivers, under the operations of `correlate`
-- (zeronym/shim/src/nym.rs).
use zero_shim.Prelude.{
  ℕ, ◌≤◌, ◌+◌, List, ◌≡◌, refl, inl, inr, Bool, Option, none, some, [], ◌∷◌, arith, ◌==◌,
  Bool-cases, Result, ok, err, length,
}
use zero_shim.Bytes.{Bytes, bytes_eq}
use zero_shim.Wire.{
  Nonce, WireError, AckKind, LookupReply, ack_bytes, frame_bytes, decode_ack, decode_lookup_reply,
}
use zero_shim.Correlator.{
  Waiter, ack, lookup, receiver_of, Request, Answer, acked, looked_up, Pending, find, remove,
  insert, deliver_ack, deliver_lookup, decoded_ack, decoded_lookup, deliver, retain,
}

abbrev pub answered : Answer → ℕ
answered (acked r kind) = r
answered (looked_up r reply) = r

module _ (f : ℕ → ℕ) where
  -- The weights of the waiters in a table, of those that were fired, and of those of the requests.
  abbrev pub waiting : Pending → ℕ
  waiting [] = 0
  waiting (e ∷ p) = f (receiver_of e.1) + waiting p

  abbrev pub fired_so_far : List (Bytes × Answer) → ℕ
  fired_so_far [] = 0
  fired_so_far (a ∷ as') = f (answered a.1) + fired_so_far as'

  abbrev pub handed_over : List Request → ℕ
  handed_over [] = 0
  handed_over (r ∷ rs) = f (receiver_of r.waiter) + handed_over rs

  pub waiting-remove : (n : Nonce) (p : Pending) → waiting (remove n p) ≤ waiting p
  waiting-remove n [] = omega arith
  waiting-remove n (e ∷ p) = ground (arith, waiting-remove n p)

  pub waiting-retain : (gone : ℕ → Bool) (p : Pending) → waiting (retain gone p) ≤ waiting p
  waiting-retain gone [] = omega arith
  waiting-retain gone (e ∷ p) = ground (arith, waiting-retain gone p)

  remove_found :
      (n : Nonce) (w : Waiter) (p : Pending)
      → find n p ≡ some w
      → f (receiver_of w) + waiting (remove n p) ≤ waiting p
  remove_found n w [] h = absurd (ground arith)
  remove_found n w (e ∷ p) h = elim (Bool-cases (bytes_eq e.0 n)) [
    | inl x ↦
        let l = waiting-remove n p in
        let q : e.1 ≡ w = ground arith in
        rw x (
          coe 0 1
            (i. f (receiver_of (q i)) + waiting (remove n p) ≤ f (receiver_of e.1) + waiting p)
            (omega arith))
    | inr x ↦ rw x (let l = remove_found n w p (ground (arith, x)) in omega arith)
  ]

  -- A table that fired a waiter has lost its weight, and one that did not has gained none.
  abbrev pub Shrinks : Pending → Pending × Option Answer → Type 0
  Shrinks p (p', none) = waiting p' ≤ waiting p
  Shrinks p (p', some a) = f (answered a) + waiting p' ≤ waiting p

  module _ (p : Pending) where
    back-Shrinks :
        (n : Nonce) (w : Waiter) → find n p ≡ some w → waiting (insert n w (remove n p)) ≤ waiting p
    back-Shrinks n w h =
        let a = remove_found n w p h in let b = waiting-remove n (remove n p) in omega arith

    ack-Shrinks :
        (n : Nonce) (k : AckKind) (o : Option Waiter)
        → find n p ≡ o
        → Shrinks p (deliver_ack (remove n p) n k o)
    unfolding deliver_ack
    ack-Shrinks n k none h = waiting-remove n p
    ack-Shrinks n k (some (ack r)) h = remove_found n (ack r) p h
    ack-Shrinks n k (some (lookup r)) h = back-Shrinks n (lookup r) h

    lookup-Shrinks :
        (n : Nonce) (y : LookupReply) (o : Option Waiter)
        → find n p ≡ o
        → Shrinks p (deliver_lookup (remove n p) n y o)
    unfolding deliver_lookup
    lookup-Shrinks n y none h = waiting-remove n p
    lookup-Shrinks n y (some (lookup r)) h = remove_found n (lookup r) p h
    lookup-Shrinks n y (some (ack r)) h = back-Shrinks n (ack r) h

    decoded_ack-Shrinks : (d : Result WireError (Nonce × AckKind)) → Shrinks p (decoded_ack p d)
    unfolding decoded_ack
    decoded_ack-Shrinks (err e) = omega arith
    decoded_ack-Shrinks (ok v) = ack-Shrinks v.0 v.1 (find v.0 p) refl

    decoded_lookup-Shrinks :
        (d : Result WireError (Nonce × LookupReply)) → Shrinks p (decoded_lookup p d)
    unfolding decoded_lookup
    decoded_lookup-Shrinks (err e) = omega arith
    decoded_lookup-Shrinks (ok v) = lookup-Shrinks v.0 v.1 (find v.0 p) refl

    pub deliver-Shrinks : (bytes : Bytes) → Shrinks p (deliver p bytes)
    unfolding deliver
    deliver-Shrinks bytes = elim (Bool-cases (length bytes == ack_bytes)) [
      | inl e ↦ rw e (decoded_ack-Shrinks (decode_ack bytes))
      | inr e ↦ elim (Bool-cases (length bytes == frame_bytes)) [
        | inl f ↦ rw (e, f) (decoded_lookup-Shrinks (decode_lookup_reply bytes))
        | inr f ↦ rw (e, f) (omega arith)
      ]
    ]
