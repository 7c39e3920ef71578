-- ===== src/Correlator/Runs.antt =====
-- Runs of the transport loop (`correlate` and `run_transport` of zeronym/shim/src/nym.rs).
use zero_shim.Prelude.{
  ◌+◌, ◌≤◌, ℕ, ◌≡◌, refl, sym, inl, inr, Bool, true, false, Option, none, some, List, [], ◌∷◌,
  arith, ◌==◌, Bool-cases, Result, ok, err, length, All, if◌then◌else◌,
}
use zero_shim.Prelude.{Any, All-map, Any-map}
use zero_shim.Bytes.{Bytes, bytes_eq}
use zero_shim.Bytes.Slices.{bytes_eq_iff}
use zero_shim.Wire.{
  Nonce, WireError, AckKind, LookupReply, ack_bytes, frame_bytes, decode_ack, decode_lookup_reply,
}
use zero_shim.Correlator.{
  Waiter, ack, lookup, receiver_of, Request, Answer, Pending, find, remove, insert, deliver_ack,
  deliver_lookup, decoded_ack, decoded_lookup, deliver, retain, Transport, Turn, reserved,
  driver_gone, requests_closed, inbound_closed, slept, requested, received, sweep, ended,
  received_turn, turn, push, Reaches, begun, turned,
}
use zero_shim.Correlator.Counts.{
  waiting, fired_so_far, handed_over, waiting-remove, waiting-retain, Shrinks, deliver-Shrinks,
}
use zero_shim.Correlator.Owed.{Answers, Effect, deliver_exact}

-- A request of the run recorded the entry.
abbrev pub WasSent : List Request → Nonce × Waiter → Type 0
WasSent sent e = Any (λ r. (r.nonce ≡ e.0) × (r.waiter ≡ e.1)) sent

-- A request of the run is answered by the message: the message carries its nonce, and its waiter is
-- the one that was fired.
abbrev pub IsOwed : List Request → Bytes × Answer → Type 0
IsOwed sent f = Any (λ r. Answers f.0 r.nonce r.waiter f.1) sent

module _ (P : Nonce × Waiter → Type 0) where
  All-remove : (n : Nonce) (p : Pending) → All P p → All P (remove n p)
  All-remove n [] h = h
  All-remove n (e ∷ p) h = elim (Bool-cases (bytes_eq e.0 n)) [
    | inl x ↦ rw x (All-remove n p h.1)
    | inr x ↦ rw x (h.0, All-remove n p h.1)
  ]

  All-retain : (gone : ℕ → Bool) (p : Pending) → All P p → All P (retain gone p)
  All-retain gone [] h = h
  All-retain gone (e ∷ p) h = elim (Bool-cases (gone (receiver_of e.1))) [
    | inl x ↦ rw x (All-retain gone p h.1)
    | inr x ↦ rw x (h.0, All-retain gone p h.1)
  ]

  All-find : (n : Nonce) (w : Waiter) (p : Pending) → All P p → find n p ≡ some w → P (n, w)
  All-find n w [] h f = absurd (ground arith)
  All-find n w (e ∷ p) h f = elim (Bool-cases (bytes_eq e.0 n)) [
    | inl x ↦
        let a = (bytes_eq_iff e.0 n).0 x in
        let b : e.1 ≡ w = ground arith in coe 0 1 (i. P (a i, b i)) h.0
    | inr x ↦ All-find n w p h.1 (ground arith)
  ]

  All-deliver : (p : Pending) (bytes : Bytes) → All P p → All P (deliver p bytes).0
  unfolding deliver
  All-deliver p bytes h = elim (Bool-cases (length bytes == ack_bytes)) [
    | inl e ↦ rw e (by_ack (decode_ack bytes))
    | inr e ↦ elim (Bool-cases (length bytes == frame_bytes)) [
      | inl f ↦ rw (e, f) (by_lookup (decode_lookup_reply bytes))
      | inr f ↦ rw (e, f) h
    ]
  ]
    where
      acking :
          (n : Nonce) (k : AckKind) (o : Option Waiter)
          → find n p ≡ o
          → All P (deliver_ack (remove n p) n k o).0
      acking n k none f = unfold deliver_ack in All-remove n p h
      acking n k (some (ack r)) f = unfold deliver_ack in All-remove n p h
      acking n k (some (lookup r)) f =
          unfold deliver_ack in (All-find n (lookup r) p h f, All-remove n _ (All-remove n p h))

      looking :
          (n : Nonce) (y : LookupReply) (o : Option Waiter)
          → find n p ≡ o
          → All P (deliver_lookup (remove n p) n y o).0
      looking n y none f = unfold deliver_lookup in All-remove n p h
      looking n y (some (lookup r)) f = unfold deliver_lookup in All-remove n p h
      looking n y (some (ack r)) f =
          unfold deliver_lookup in (All-find n (ack r) p h f, All-remove n _ (All-remove n p h))

      by_ack : (d : Result WireError (Nonce × AckKind)) → All P (decoded_ack p d).0
      by_ack (err e) = unfold decoded_ack in h
      by_ack (ok v) = unfold decoded_ack in acking v.0 v.1 (find v.0 p) refl

      by_lookup : (d : Result WireError (Nonce × LookupReply)) → All P (decoded_lookup p d).0
      by_lookup (err e) = unfold decoded_lookup in h
      by_lookup (ok v) = unfold decoded_lookup in looking v.0 v.1 (find v.0 p) refl

-- What holds between the turns.
record IsConsistent (s : Transport) (sent : List Request) (fired : List (Bytes × Answer))
    : Type 0 where
  entries : All (WasSent sent) s.pending
  owed : All (IsOwed sent) fired
  counted : s.inflight ≡ length s.pending
  drained : s.returned ≡ true → s.pending ≡ []
  balanced : (f : ℕ → ℕ) → fired_so_far f fired + waiting f s.pending ≤ handed_over f sent

module _ (gone : ℕ → Bool) where
  sweep-IsConsistent :
      (sent : List Request) (fired : List (Bytes × Answer)) (p : Pending)
      (requests_open permit : Bool)
      → All (WasSent sent) p
      → All (IsOwed sent) fired
      → ((f : ℕ → ℕ) → fired_so_far f fired + waiting f p ≤ handed_over f sent)
      → IsConsistent (sweep gone p requests_open permit) sent fired
  unfolding sweep
  sweep-IsConsistent sent fired p requests_open permit h o b = record {
    entries = All-retain (WasSent sent) gone p h;
    owed = o;
    counted = refl;
    drained = λ e. empty (retain gone p) (ground arith);
    balanced = λ f. let l = waiting-retain f gone p in let k = b f in omega arith;
  }
    where
      empty : (q : Pending) → length q ≡ 0 → q ≡ []
      empty [] e = refl
      empty (x ∷ q) e = absurd (omega arith)

  received-IsConsistent :
      (s : Transport) (sent : List Request) (fired : List (Bytes × Answer)) (bytes : Bytes)
      (d : Pending × Option Answer)
      → IsConsistent s sent fired
      → All (WasSent sent) d.0
      → Effect s.pending bytes d
      → ((f : ℕ → ℕ) → Shrinks f s.pending d)
      → IsConsistent
          (received_turn gone s bytes d).0
          (push (received_turn gone s bytes d).1.0 sent)
          (push (received_turn gone s bytes d).1.1 fired)
  unfolding received_turn
  received-IsConsistent s sent fired bytes (p, none) c h e l =
      sweep-IsConsistent sent fired p s.requests_open s.permit h c.owed
        (λ f. let k = c.balanced f in let m = l f in omega arith)
  received-IsConsistent s sent fired bytes (p, some a) c h (nonce, waiter, f, ans, rest) l =
      sweep-IsConsistent sent ((bytes, a) ∷ fired) p s.requests_open s.permit h
        (
          Any-map (λ r g. coe 0 1 (i. Answers bytes (sym g.0 i) (sym g.1 i) a) ans) sent
              (All-find (WasSent sent) nonce waiter s.pending c.entries f),
          c.owed,
        )
        (λ g. let k = c.balanced g in let m = l g in omega arith)

  ended-IsConsistent :
      (s : Transport) (sent : List Request) (fired : List (Bytes × Answer))
      → IsConsistent s sent fired
      → IsConsistent (ended s) sent fired
  unfolding ended
  ended-IsConsistent s sent fired c = record {
    entries = tt;
    owed = c.owed;
    counted = refl;
    drained = λ e. refl;
    balanced = λ f. let k = c.balanced f in omega arith;
  }

  turn-IsConsistent :
      (t : Turn) (s : Transport) (sent : List Request) (fired : List (Bytes × Answer))
      → IsConsistent s sent fired
      → IsConsistent
          (turn gone t s).0
          (push (turn gone t s).1.0 sent)
          (push (turn gone t s).1.1 fired)
  unfolding turn
  turn-IsConsistent reserved s sent fired c =
      sweep-IsConsistent sent fired s.pending s.requests_open true c.entries c.owed c.balanced
  turn-IsConsistent driver_gone s sent fired c = ended-IsConsistent s sent fired c
  turn-IsConsistent (requested r) s sent fired c =
      sweep-IsConsistent (r ∷ sent) fired (insert r.nonce r.waiter s.pending) s.requests_open false
        (
          inl (refl, refl),
          All-remove (WasSent (r ∷ sent)) r.nonce s.pending
              (All-map (λ e h. inr h) s.pending c.entries),
        )
        (All-map (λ f h. inr h) fired c.owed)
        (λ f. let l = waiting-remove f r.nonce s.pending in let k = c.balanced f in omega arith)
  turn-IsConsistent requests_closed s sent fired c =
      sweep-IsConsistent sent fired s.pending false s.permit c.entries c.owed c.balanced
  turn-IsConsistent (received []) s sent fired c =
      sweep-IsConsistent sent fired s.pending s.requests_open s.permit c.entries c.owed c.balanced
  turn-IsConsistent (received (b ∷ bs)) s sent fired c =
      received-IsConsistent s sent fired (b ∷ bs) (deliver s.pending (b ∷ bs)) c
        (All-deliver (WasSent sent) s.pending (b ∷ bs) c.entries) (deliver_exact s.pending (b ∷ bs))
        (λ f. deliver-Shrinks f s.pending (b ∷ bs))
  turn-IsConsistent inbound_closed s sent fired c = ended-IsConsistent s sent fired c
  turn-IsConsistent slept s sent fired c =
      sweep-IsConsistent sent fired s.pending s.requests_open s.permit c.entries c.owed c.balanced

Reaches-IsConsistent :
    {s : Transport} {sent : List Request} {fired : List (Bytes × Answer)}
    → Reaches s sent fired
    → IsConsistent s sent fired
Reaches-IsConsistent begun = record {
  entries = tt;
  owed = tt;
  counted = refl;
  drained = λ e. refl;
  balanced = λ f. omega arith;
}
Reaches-IsConsistent (turned gone t r e) = turn-IsConsistent gone t _ _ _ (Reaches-IsConsistent r)

-- Counts a receiver.
abbrev pub is_at : ℕ → ℕ → ℕ
is_at r x = if x == r then 1 else 0

-- However the loop is driven: every waiter that it fires belongs to a request that it had handed to
-- the driver, and the message that fired it carries that request's nonce and decodes as the kind of
-- reply that the waiter is for. Each receiver is fired, or still in the table, no more often than
-- requests with it were handed over: once at most, if each request has its own. The published count
-- is that of the table, and once the loop has returned the table is empty.
pub fired-IsOwed :
    {s : Transport} {sent : List Request} {fired : List (Bytes × Answer)}
    → Reaches s sent fired
    → All (IsOwed sent) fired
      × ((r : ℕ)
          → fired_so_far (is_at r) fired + waiting (is_at r) s.pending ≤ handed_over (is_at r) sent)
      × (s.inflight ≡ length s.pending)
      × (s.returned ≡ true → s.pending ≡ [])
fired-IsOwed r =
    let c = Reaches-IsConsistent r in (c.owed, (λ x. c.balanced (is_at x)), c.counted, c.drained)
