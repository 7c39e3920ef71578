-- ===== src/Nym/Sweep.antt =====
-- The sweep of a lookup over the hub's addresses (`each_target` of zeronym/shim/src/nym.rs).
use native.Mathlib.Decide.{dec_le}
use native.Mathlib.Nat.{mod-add-mod, mod-lt, mod-eq_of_lt, mod-eq-sub-mod}
use zero_shim.Prelude.{
  ℕ, zero, suc, ◌+◌, ◌-◌, ◌%◌, ◌^◌, ◌≤◌, ◌<◌, ◌≡◌, refl, sym, ap, ◌∙◌, ◌≢◌, ◌⊎◌, inl, inr, Option,
  none, some, List, [], ◌∷◌, arith, Result, ok, err, length,
}
use zero_shim.Bytes.{Bytes}
use zero_shim.Wire.{IsNonce, LookupReply, decode_lookup, lookup_bytes, max_lookup_hash_bytes}
use zero_shim.Wire.LookupFrame.{decode_lookup-encode_lookup}
use zero_shim.Correlator.{lookup, Request}
use zero_shim.Nym.{NymError, timeout, transport_gone}
use zero_shim.Nym.{
  lookup_reply_surbs, Fresh, Attempt, not_accepted, channel_closed, no_reply, waiter_dropped,
  answered, target_of, ending, lookup_request, after_attempt, sweep_loop, get_transaction,
}

-- The attempts that move the sweep on: the transport did not accept the request in time, or no
-- reply came in time.
abbrev pub IsTimeout : Attempt → Type 0
IsTimeout not_accepted = Unit {0}
IsTimeout no_reply = Unit {0}
IsTimeout channel_closed = ⊥
IsTimeout waiter_dropped = ⊥
IsTimeout (answered reply) = ⊥

-- The attempts that end it: a reply with that reply, and a closed channel or a dropped waiter with
-- the transport gone.
abbrev pub Decides : Attempt → Result NymError LookupReply → Type 0
Decides not_accepted r = ⊥
Decides no_reply r = ⊥
Decides channel_closed r = r ≡ err transport_gone
Decides waiter_dropped r = r ≡ err transport_gone
Decides (answered reply) r = r ≡ ok reply

ending-IsTimeout : (a : Attempt) → ending a ≡ none → IsTimeout a
ending-IsTimeout not_accepted e = tt
ending-IsTimeout no_reply e = tt
ending-IsTimeout channel_closed e = absurd (ground arith)
ending-IsTimeout waiter_dropped e = absurd (ground arith)
ending-IsTimeout (answered reply) e = absurd (ground arith)

ending-Decides : (a : Attempt) (r : Result NymError LookupReply) → ending a ≡ some r → Decides a r
ending-Decides not_accepted r e = absurd (ground arith)
ending-Decides no_reply r e = absurd (ground arith)
ending-Decides channel_closed r e = ground arith
ending-Decides waiter_dropped r e = ground arith
ending-Decides (answered reply) r e = ground arith

mod_apart : (a d t : ℕ) → 0 < d → d < t → a % t ≢ (a + d) % t
mod_apart a d t h k e =
    let l : a % t < t = mod-lt a (omega arith) in
    let s : (a % t + d) % t ≡ (a + d) % t = mod-add-mod a t d in
    elim (dec_le t (a % t + d)) [
      | yes y ↦
          let c = mod-eq-sub-mod y in
          let f : (a % t + d - t) % t ≡ a % t + d - t = mod-eq_of_lt (omega arith) in omega arith
      | no n ↦ let f : (a % t + d) % t ≡ a % t + d = mod-eq_of_lt (omega arith) in omega arith
    ]

-- Where the cursor leaves room below 2 ^ 64 for one sweep, the attempts of a sweep ask different
-- addresses, each of them one of the list, so that a sweep to its end asks every address once.
pub targets_differ :
    (start targets i j : ℕ)
    → start + targets ≤ 2 ^ 64
    → i < j
    → j < targets
    → (target_of start i targets ≢ target_of start j targets)
      × (target_of start i targets < targets)
targets_differ start targets i j h a b =
    let p : (start + i) % 2 ^ 64 ≡ start + i = mod-eq_of_lt (omega arith) in
    let q : (start + j) % 2 ^ 64 ≡ start + i + (j - i) = mod-eq_of_lt (omega arith) ∙ omega arith in
    (
      rw (p, q) (mod_apart (start + i) (j - i) targets (omega arith) (omega arith)),
      mod-lt ((start + i) % 2 ^ 64) (omega arith),
    )

module _ (tries : ℕ → Attempt) (fresh : ℕ → Fresh) (start targets : ℕ) (hash : Bytes) where
  -- The attempt that ends a sweep: the first that is not a timeout, among those from `from` on.
  abbrev pub EndsAt : (from left i : ℕ) → Result NymError LookupReply → Type 0
  EndsAt from left i r =
      (from ≤ i)
      × (i < from + left)
      × Decides (tries i) r
      × ((j : ℕ) → from ≤ j → j < i → IsTimeout (tries j))

  -- A request of the sweep: the hash under the nonce drawn for its attempt, to that attempt's
  -- address.
  pub record IsAttempt (i : ℕ) (r : Request) : Type 0 where
    pub nonce_fresh : r.nonce ≡ (fresh i).nonce
    pub waits : r.waiter ≡ lookup (fresh i).receiver
    pub surbs : r.reply_surbs ≡ lookup_reply_surbs
    pub aimed : r.target ≡ target_of start i targets
    pub one_size : length r.frame ≡ lookup_bytes
    pub carries : decode_lookup r.frame ≡ ok (r.nonce, hash)

  abbrev pub AreAttempts : ℕ → List Request → Type 0
  AreAttempts i [] = Unit {0}
  AreAttempts i (r ∷ rs) = IsAttempt i r × AreAttempts (suc i) rs

  -- How a sweep from `from` on ends: at its first attempt that is not a timeout, with the requests
  -- up to that one; or with `last` after all of them.
  abbrev pub Sweeps :
      (from left : ℕ) → NymError → List Request × Result NymError LookupReply → Type 0
  Sweeps from left last done =
      AreAttempts from done.0
      × (((i : ℕ) × (r : Result NymError LookupReply) × EndsAt from left i r
            × (done.1 ≡ r)
            × (from + length done.0 ≡ suc i))
          ⊎ (((j : ℕ) → from ≤ j → j < from + left → IsTimeout (tries j))
              × (done.1 ≡ err last)
              × (length done.0 ≡ left)))

  module _ (hn : (i : ℕ) → IsNonce (fresh i).nonce)
      (fits : length hash ≤ max_lookup_hash_bytes) where
    after_attempt-Sweeps :
        (from left : ℕ) (o : Option (Result NymError LookupReply)) (request : Request)
        (rest : List Request × Result NymError LookupReply)
        → ending (tries from) ≡ o
        → IsAttempt from request
        → Sweeps (suc from) left timeout rest
        → Sweeps from (suc left) timeout (after_attempt o request rest)
    unfolding after_attempt
    after_attempt-Sweeps from left (some r) request rest e h w = (
      (h, tt),
      inl (
        from,
        r,
        (omega arith, omega arith, ending-Decides (tries from) r e, λ j a b. absurd (omega arith)),
        refl,
        omega arith,
      ),
    )
    after_attempt-Sweeps from left none request rest e h (w, inl (i, r, (a, b, c, d), f, g)) =
        ((h, w), inl (i, r, (omega arith, omega arith, c, before), f, omega arith))
      where
        before : (j : ℕ) → from ≤ j → j < i → IsTimeout (tries j)
        before j x y = elim (dec_le (suc from) j) [
          | yes z ↦ d j z y
          | no n ↦
              let q : from ≡ j = omega arith in
              ending-IsTimeout (tries j) (ap (λ k. ending (tries k)) (sym q) ∙ e)
        ]
    after_attempt-Sweeps from left none request rest e h (w, inr (d, f, g)) =
        ((h, w), inr (all, f, omega arith))
      where
        all : (j : ℕ) → from ≤ j → j < from + suc left → IsTimeout (tries j)
        all j x y = elim (dec_le (suc from) j) [
          | yes z ↦ d j z (omega arith)
          | no n ↦
              let q : from ≡ j = omega arith in
              ending-IsTimeout (tries j) (ap (λ k. ending (tries k)) (sym q) ∙ e)
        ]

    request-IsAttempt :
        (i : ℕ) (frame : Bytes)
        → length frame ≡ lookup_bytes
        → decode_lookup frame ≡ ok ((fresh i).nonce, hash)
        → IsAttempt i (lookup_request (fresh i) frame (target_of start i targets))
    unfolding lookup_request
    request-IsAttempt i frame l d = record {
      nonce_fresh = refl;
      waits = refl;
      surbs = refl;
      aimed = refl;
      one_size = l;
      carries = d;
    }

    sweep_step :
        (from left : ℕ) (last : NymError)
        → Sweeps
            (suc from)
            left
            timeout
            (sweep_loop tries fresh start targets hash (suc from) left timeout)
        → Sweeps from
            (suc left)
            timeout
            (sweep_loop tries fresh start targets hash from (suc left) last)
    unfolding sweep_loop
    sweep_step from left last behind =
        elim (decode_lookup-encode_lookup (fresh from).nonce hash (hn from)) [
          | inl (big, _) ↦ absurd (omega arith)
          | inr (frame, e, l, d) ↦
              rw (e, sweep_loop)
                (after_attempt-Sweeps from left (ending (tries from))
                  (lookup_request (fresh from) frame (target_of start from targets))
                  (sweep_loop tries fresh start targets hash (suc from) left timeout) refl
                  (request-IsAttempt from frame l d) behind)
        ]

    sweep_loop-Sweeps :
        (from left : ℕ)
        → Sweeps from left timeout (sweep_loop tries fresh start targets hash from left timeout)
    unfolding sweep_loop
    sweep_loop-Sweeps from zero = (tt, inr ((λ j x y. absurd (omega arith)), refl, refl))
    sweep_loop-Sweeps from (suc left) =
        sweep_step from left timeout (sweep_loop-Sweeps (suc from) left)

    whole_sweep :
        (left : ℕ)
        → 0 < left
        → Sweeps 0 left timeout (sweep_loop tries fresh start targets hash 0 left transport_gone)
    whole_sweep zero h = absurd (omega arith)
    whole_sweep (suc left) h = sweep_step 0 left transport_gone (sweep_loop-Sweeps 1 left)

    sweep_runs :
        0 < targets
        → sweep_loop tries fresh start targets hash 0 targets transport_gone
          ≡ get_transaction tries fresh start targets hash
    sweep_runs h = unfold get_transaction in ground arith

    -- A lookup with an address configured, nonces of NONCE_BYTES bytes and a hash in the budget
    -- asks the addresses one by one, each under a nonce drawn for it with the queried hash, and
    -- ends at the first attempt that does not run out of time, to be accepted or for its reply:
    -- with that reply, or with the transport gone if its channel is closed or its waiter dropped;
    -- it asks no further address. Only if every attempt runs out of time does it report a timeout,
    -- after exactly as many attempts as there are addresses.
    pub get_transaction-Sweeps :
        0 < targets → Sweeps 0 targets timeout (get_transaction tries fresh start targets hash)
    get_transaction-Sweeps h =
        let e = sweep_runs h in coe 0 1 (i. Sweeps 0 targets timeout (e i)) (whole_sweep targets h)
