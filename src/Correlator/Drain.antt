-- ===== src/Correlator/Drain.antt =====
-- The end of the transport loop once every handle is gone (`correlate` of zeronym/shim/src/nym.rs).
use zero_shim.Prelude.{
  ℕ, ◌+◌, ◌≤◌, ◌≡◌, refl, ◌↔◌, Bool, true, false, Option, none, some, List, [], ◌∷◌, arith, length,
}
use zero_shim.Bytes.{Bytes}
use zero_shim.Correlator.{
  receiver_of, Request, Answer, Effects, Pending, insert, deliver, retain, Transport, Turn,
  reserved, driver_gone, requests_closed, inbound_closed, slept, requested, received, enabled,
  sweep, ended, received_turn, turn, Reaches, begun, turned,
}
use zero_shim.Correlator.Counts.{waiting, waiting-retain, Shrinks, deliver-Shrinks}

-- The arms that wait: for a message, for the end of the messages, or for the sweep.
abbrev pub IsParked : Turn → Type 0
IsParked reserved = ⊥
IsParked driver_gone = ⊥
IsParked requests_closed = ⊥
IsParked (requested r) = ⊥
IsParked (received bytes) = Unit {0}
IsParked inbound_closed = Unit {0}
IsParked slept = Unit {0}

abbrev one : ℕ → ℕ
one r = 1

waiting-length : (p : Pending) → waiting one p ≡ length p
waiting-length [] = refl
waiting-length (e ∷ p) = ground (arith, waiting-length p)

length-retain : (gone : ℕ → Bool) (p : Pending) → length (retain gone p) ≤ length p
length-retain gone p =
    omega (arith, waiting-retain one gone p, waiting-length p, waiting-length (retain gone p))

retain_none : (gone : ℕ → Bool) (p : Pending) → ((r : ℕ) → gone r ≡ true) → retain gone p ≡ []
retain_none gone [] h = refl
retain_none gone (e ∷ p) h = rw (h (receiver_of e.1)) (retain_none gone p h)

-- The waiters that an effect fires.
abbrev pub firings : Option (Bytes × Answer) → ℕ
firings none = 0
firings (some a) = 1

-- A loop without handles returns exactly with its last waiter.
abbrev IsDraining : Transport → Type 0
IsDraining s = s.requests_open ≡ false → (s.returned ≡ true) ↔ (s.pending ≡ [])

-- What a turn of a loop without handles leaves.
abbrev pub LeavesFewer : (ℕ → Bool) → Pending → Transport × Effects → Type 0
LeavesFewer gone p r =
    (r.0.requests_open ≡ false)
    × (r.1.0 ≡ none)
    × (firings r.1.1 + length r.0.pending ≤ length p)
    × ((r.0.returned ≡ true) ↔ (r.0.pending ≡ []))
    × (((x : ℕ) → gone x ≡ true) → r.0.returned ≡ true)

module _ (gone : ℕ → Bool) where
  sweep-IsDraining : (p : Pending) (open' permit : Bool) → IsDraining (sweep gone p open' permit)
  unfolding sweep
  sweep-IsDraining p open' permit h =
      ((λ r. empty (retain gone p) (ground arith)), (λ e. rw (h, e) refl))
    where
      empty : (q : Pending) → length q ≡ 0 → q ≡ []
      empty [] e = refl
      empty (x ∷ q) e = absurd (omega arith)

  sweep-LeavesFewer :
      (p q : Pending) (permit : Bool) (fired : Option (Bytes × Answer))
      → firings fired + length q ≤ length p
      → LeavesFewer gone p (sweep gone q false permit, (none, fired))
  unfolding sweep
  sweep-LeavesFewer p q permit fired h = (
    refl,
    refl,
    ground (arith, length-retain gone q),
    sweep-IsDraining q false permit refl,
    λ all. rw (retain_none gone q all) refl,
  )

  enabled-IsParked :
      (t : Turn) (s : Transport) → s.requests_open ≡ false → enabled t s ≡ true → IsParked t
  unfolding enabled
  enabled-IsParked reserved s h e = ground arith
  enabled-IsParked driver_gone s h e = ground arith
  enabled-IsParked requests_closed s h e = ground arith
  enabled-IsParked (requested r) s h e = ground arith
  enabled-IsParked (received bytes) s h e = tt
  enabled-IsParked inbound_closed s h e = tt
  enabled-IsParked slept s h e = tt

  received-LeavesFewer :
      (s : Transport) (bytes : Bytes) (d : Pending × Option Answer)
      → s.requests_open ≡ false
      → Shrinks one s.pending d
      → LeavesFewer gone s.pending (received_turn gone s bytes d)
  unfolding received_turn
  received-LeavesFewer s bytes (q, none) h k = rw h (
      sweep-LeavesFewer s.pending q s.permit none
        (omega (arith, waiting-length q, waiting-length s.pending)))
  received-LeavesFewer s bytes (q, some a) h k = rw h (
      sweep-LeavesFewer s.pending q s.permit (some (bytes, a))
        (omega (arith, waiting-length q, waiting-length s.pending)))

  ended-LeavesFewer :
      (s : Transport) → s.requests_open ≡ false → LeavesFewer gone s.pending (ended s, (none, none))
  unfolding ended
  ended-LeavesFewer s h = (h, refl, omega arith, ((λ e. refl), (λ e. refl)), λ all. refl)

  turn-LeavesFewer :
      (t : Turn) (s : Transport)
      → s.requests_open ≡ false
      → IsParked t
      → LeavesFewer gone s.pending (turn gone t s)
  unfolding turn
  turn-LeavesFewer reserved s h w = absurd w
  turn-LeavesFewer driver_gone s h w = absurd w
  turn-LeavesFewer requests_closed s h w = absurd w
  turn-LeavesFewer (requested r) s h w = absurd w
  turn-LeavesFewer (received []) s h w =
      rw h (sweep-LeavesFewer s.pending s.pending s.permit none (omega arith))
  turn-LeavesFewer (received (b ∷ bs)) s h w =
      received-LeavesFewer s (b ∷ bs) (deliver s.pending (b ∷ bs)) h
        (deliver-Shrinks one s.pending (b ∷ bs))
  turn-LeavesFewer inbound_closed s h w = ended-LeavesFewer s h
  turn-LeavesFewer slept s h w =
      rw h (sweep-LeavesFewer s.pending s.pending s.permit none (omega arith))

  ended-IsDraining : (s : Transport) → IsDraining (ended s)
  unfolding ended
  ended-IsDraining s h = ((λ e. refl), (λ e. refl))

  received-IsDraining :
      (s : Transport) (bytes : Bytes) (d : Pending × Option Answer)
      → IsDraining (received_turn gone s bytes d).0
  unfolding received_turn
  received-IsDraining s bytes (q, none) = sweep-IsDraining q s.requests_open s.permit
  received-IsDraining s bytes (q, some a) = sweep-IsDraining q s.requests_open s.permit

  turn-IsDraining : (t : Turn) (s : Transport) → IsDraining (turn gone t s).0
  unfolding turn
  turn-IsDraining reserved s = sweep-IsDraining s.pending s.requests_open true
  turn-IsDraining driver_gone s = ended-IsDraining s
  turn-IsDraining requests_closed s = sweep-IsDraining s.pending false s.permit
  turn-IsDraining (requested r) s =
      sweep-IsDraining (insert r.nonce r.waiter s.pending) s.requests_open false
  turn-IsDraining (received []) s = sweep-IsDraining s.pending s.requests_open s.permit
  turn-IsDraining (received (b ∷ bs)) s =
      received-IsDraining s (b ∷ bs) (deliver s.pending (b ∷ bs))
  turn-IsDraining inbound_closed s = ended-IsDraining s
  turn-IsDraining slept s = sweep-IsDraining s.pending s.requests_open s.permit

Reaches-IsDraining :
    {s : Transport} {sent : List Request} {fired : List (Bytes × Answer)}
    → Reaches s sent fired
    → IsDraining s
Reaches-IsDraining begun = λ h. absurd (ground arith)
Reaches-IsDraining (turned {s} gone t r e) = turn-IsDraining gone t s

-- Once every handle is gone, a reachable loop has returned exactly if no waiter is left. Until then
-- no arm can fire but a message, the end of the messages and the sweep, so that it does not spin; a
-- turn of those hands nothing over and adds no waiter, one fewer is left for each that it fires,
-- and it returns exactly with the last; with the next such turn after every caller has gone, if no
-- earlier.
pub closed_loop_drains :
    {s : Transport} {sent : List Request} {fired : List (Bytes × Answer)}
    → Reaches s sent fired
    → s.requests_open ≡ false
    → ((s.returned ≡ true) ↔ (s.pending ≡ []))
      × ((t : Turn)
          → enabled t s ≡ true
          → IsParked t × ((gone : ℕ → Bool) → LeavesFewer gone s.pending (turn gone t s)))
closed_loop_drains {s} r h = (
  Reaches-IsDraining r h,
  λ t e. let w = enabled-IsParked (λ x. true) t s h e in (w, λ gone. turn-LeavesFewer gone t s h w),
)
