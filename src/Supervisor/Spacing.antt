-- ===== src/Supervisor/Spacing.antt =====
-- How often the client is rotated (`run_supervisor` of zeronym/shim/src/nym.rs).
use zero_shim.Prelude.{
  ℕ, ◌+◌, ◌*◌, ◌≤◌, max, ◌≡◌, refl, ◌⊎◌, inl, inr, Bool, true, false, not, ◌&&◌, Option, none, some,
  List, [], ◌∷◌, arith, ltb, ◌==◌, if◌then◌else◌, Bool-cases,
}
use zero_shim.Supervisor.{
  RotationPolicy, next_rotation, deadline_from, wake, ClientCommand, rebuild, Supervisor, begin,
  Event, shutdown, driver_gone, died, woke, finish, restart, react, step,
}

-- The time after an event.
abbrev pub clock_after : ℕ → Event → ℕ
clock_after clock (woke taken now inflight) = now
clock_after clock (died taken interrupted now) = now
clock_after clock shutdown = clock
clock_after clock driver_gone = clock

abbrev pub IsDue : Option ℕ → ℕ → Type 0
IsDue none now = ⊥
IsDue (some at) now = at ≤ now

-- The clock does not run backwards, and the sleep of the loop ends no sooner than it was set to.
abbrev pub IsTimely : ℕ → Supervisor → Event → Type 0
IsTimely clock s (woke taken now inflight) =
    (clock ≤ now) × IsDue (wake clock s.defer_deadline s.rotate_at) now
IsTimely clock s (died taken interrupted now) = clock ≤ now
IsTimely clock s shutdown = Unit {0}
IsTimely clock s driver_gone = Unit {0}

abbrev pub AreTimely : RotationPolicy → ℕ → Supervisor → List Event → Type 0
AreTimely p clock s [] = Unit {0}
AreTimely p clock s (e ∷ es) =
    IsTimely clock s e × AreTimely p (clock_after clock e) (step p e s).0 es

abbrev pub end_time : ℕ → List Event → ℕ
end_time clock [] = clock
end_time clock (e ∷ es) = end_time (clock_after clock e) es

-- A rebuild that no death asked for.
abbrev pub rotated : Event → List ClientCommand → ℕ
rotated (woke taken now inflight) (rebuild ∷ cs) = 1
rotated _ _ = 0

abbrev pub rotations : RotationPolicy → Supervisor → List Event → ℕ
rotations p s [] = 0
rotations p s (e ∷ es) = rotated e (step p e s).1 + rotations p (step p e s).0 es

module _ (p : RotationPolicy) (gap : ℕ)
    (spaced : (now : ℕ) → next_rotation p now ≡ some (now + gap)) where
  -- Where the next rotation stands: a gap behind `base`, and a deferral is on only when it is due.
  record IsSpaced (base clock : ℕ) (s : Supervisor) : Type 0 where
    at : ℕ
    planned : s.rotate_at ≡ some at
    apart : base + gap ≤ at
    elapsed : base ≤ clock
    due : (d : ℕ) → s.defer_deadline ≡ some d → at ≤ clock

  module _ (base clock : ℕ) (s : Supervisor) (i : IsSpaced base clock s) where
    same : (now : ℕ) → clock ≤ now → IsSpaced base now s
    same now l = record {
      at = i.at;
      planned = i.planned;
      apart = i.apart;
      elapsed = omega (arith, i.elapsed);
      due = λ d e. omega (arith, i.due d e);
    }

    returning :
        (now : ℕ)
        → clock ≤ now
        → (d : Option ℕ) → ((x : ℕ) → d ≡ some x → i.at ≤ now)
        → (r : Bool) → IsSpaced base now (record s { defer_deadline = d; returned = r })
    returning now l d h r = record {
      at = i.at;
      planned = i.planned;
      apart = i.apart;
      elapsed = omega (arith, i.elapsed);
      due = h;
    }

    restart-IsSpaced : (later now : ℕ) → later ≤ now → IsSpaced later now (restart p now s)
    unfolding restart
    restart-IsSpaced later now l = record {
      at = now + gap;
      planned = spaced now;
      apart = omega arith;
      elapsed = l;
      due = λ d e. absurd (ground arith);
    }

    woke_late :
        (now : ℕ) → clock ≤ now → IsDue (wake clock s.defer_deadline s.rotate_at) now → i.at ≤ now
    woke_late now l t =
        by s.defer_deadline refl
          (coe 0 1 (j. IsDue (wake clock s.defer_deadline (i.planned j)) now) t)
      where
        by :
            (d : Option ℕ)
            → s.defer_deadline ≡ d
            → IsDue (wake clock d (some i.at)) now
            → i.at ≤ now
        by none e h = h
        by (some d) e h = omega (arith, i.due d e)

    died-Steps :
        (taken interrupted : Bool) (now : ℕ)
        → clock ≤ now
        → (rotated (died taken interrupted now) (react p (died taken interrupted now) s).1 ≡ 0)
          × IsSpaced base now (react p (died taken interrupted now) s).0
    unfolding react finish
    died-Steps false interrupted now l =
        (refl, returning now l s.defer_deadline (λ d e. omega (arith, i.due d e)) true)
    died-Steps true true now l =
        (refl, returning now l s.defer_deadline (λ d e. omega (arith, i.due d e)) true)
    died-Steps true false now l = (refl, restart-IsSpaced base now (omega (arith, i.elapsed)))

    abbrev Outcome : Event → ℕ → Supervisor × List ClientCommand → Type 0
    Outcome e now r =
        ((rotated e r.1 ≡ 0) × IsSpaced base now r.0)
        ⊎ ((rotated e r.1 ≡ 1) × IsSpaced (base + gap) now r.0)

    woke-Outcome :
        (taken : Bool) (now inflight : ℕ)
        → clock ≤ now
        → i.at ≤ now
        → Outcome (woke taken now inflight) now (react p (woke taken now inflight) s)
    unfolding react finish
    woke-Outcome taken now inflight l h =
        elim (Bool-cases (not (inflight == 0) && ltb now (deadline_from p now s.defer_deadline))) [
          | inl b ↦ rw b (inl (refl, returning now l _ (λ d e. h) s.returned))
          | inr b ↦ rw b (by taken)
        ]
      where
        by :
            (t : Bool)
            → Outcome (woke taken now inflight) now (
                if not t
                then finish []
                    (record s { defer_deadline = some (deadline_from p now s.defer_deadline) })
                else (restart p now s, rebuild ∷ []))
        by false = inl (refl, returning now l _ (λ d e. h) true)
        by true = inr (refl, restart-IsSpaced (base + gap) now (omega (arith, i.apart)))

    step-Outcome : (e : Event) → IsTimely clock s e → Outcome e (clock_after clock e) (step p e s)
    unfolding step
    step-Outcome e t = elim (Bool-cases s.returned) [
      | inl r ↦ simp r (inl (idle e t))
      | inr r ↦ simp r (by e t)
    ]
      where
        idle :
            (e : Event)
            → IsTimely clock s e
            → (rotated e [] ≡ 0) × IsSpaced base (clock_after clock e) s
        idle shutdown t = (refl, i)
        idle driver_gone t = (refl, i)
        idle (died taken interrupted now) t = (refl, same now t)
        idle (woke taken now inflight) t = (refl, same now t.0)

        by : (e : Event) → IsTimely clock s e → Outcome e (clock_after clock e) (react p e s)
        by shutdown t =
            unfold react finish in inl (refl, returning clock (omega arith) _ i.due true)
        by driver_gone t =
            unfold react finish in inl (refl, returning clock (omega arith) _ i.due true)
        by (died taken interrupted now) t = inl (died-Steps taken interrupted now t)
        by (woke taken now inflight) t = woke-Outcome taken now inflight t.0 (woke_late now t.0 t.1)

  run-spaced :
      (es : List Event) (base clock : ℕ) (s : Supervisor)
      → IsSpaced base clock s
      → AreTimely p clock s es
      → rotations p s es * gap + base ≤ end_time clock es
  run-spaced [] base clock s i t = omega (arith, i.elapsed)
  run-spaced (e ∷ es) base clock s i t = elim (step-Outcome base clock s i e t.0) [
    | inl h ↦
        let ih = run-spaced es base (clock_after clock e) (step p e s).0 h.1 t.1 in
        rw h.0 (omega arith)
    | inr h ↦
        let ih = run-spaced es (base + gap) (clock_after clock e) (step p e s).0 h.1 t.1 in
        rw h.0 (grind arith)
  ]

-- A supervisor with a period: by any time, in any run in which the sleep of the loop ends no sooner
-- than it was set to, the rotations so far, one every period or REBUILD_BACKOFF if that is longer,
-- fit into the time since the start, whatever deaths and deferrals there were.
pub rotations_spaced :
    (p : RotationPolicy) (period start : ℕ) (es : List Event)
    → p.period ≡ some period
    → AreTimely p start (begin p start) es
    → rotations p (begin p start) es * max period p.rebuild_backoff + start ≤ end_time start es
unfolding begin next_rotation
rotations_spaced p period start es e t =
    let gap = max period p.rebuild_backoff in
    run-spaced p gap (λ now. rw e refl) es start start (begin p start)
      (record {
        at = start + gap;
        planned = rw e refl;
        apart = omega arith;
        elapsed = omega arith;
        due = λ d h. absurd (ground arith);
      })
      t
