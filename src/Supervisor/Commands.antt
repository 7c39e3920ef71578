-- ===== src/Supervisor/Commands.antt =====
-- The order of the commands that the driver gets (`run_supervisor` of zeronym/shim/src/nym.rs).
use zero_shim.Prelude.{
  ℕ, ◌+◌, ◌≤◌, ◌≡◌, refl, ap, ◌∙◌, inl, inr, Bool, true, false, not, ◌&&◌, Option, none, some, List,
  [], ◌∷◌, ◌++◌, arith, ltb, ◌==◌, Bool-cases,
}
use zero_shim.Supervisor.{
  RotationPolicy, scheduled, next_rotation, ClientCommand, rebuild, disconnect, Supervisor, Event,
  shutdown, driver_gone, died, woke, finish, restart, deadline_from, react, step, run,
}

-- Nothing follows a disconnect, and the loop has then returned.
abbrev pub EndsWithDisconnect : List ClientCommand → Bool → Type 0
EndsWithDisconnect [] returned = Unit {0}
EndsWithDisconnect (rebuild ∷ cs) returned = EndsWithDisconnect cs returned
EndsWithDisconnect (disconnect ∷ cs) returned = (cs ≡ []) × (returned ≡ true)

module _ (p : RotationPolicy) where
  step_returned : (e : Event) (s : Supervisor) → s.returned ≡ true → step p e s ≡ (s, [])
  step_returned e s h = unfold step in ground arith

  run_returned : (es : List Event) (s : Supervisor) → s.returned ≡ true → run p es s ≡ (s, [])
  unfolding run
  run_returned [] s h = refl
  run_returned (e ∷ es) s h = rw (step_returned e s h) (run_returned es s h)

  -- A client that died is rebuilt at once, whatever is in flight; every rebuild, after a death or a
  -- due rotation, puts the next rotation at least the rebuild backoff after it, and none if the
  -- policy never rotates.
  pub rebuild_plans :
      (s : Supervisor) (now : ℕ)
      → s.returned ≡ false
      → ((step p (died true false now) s).1 ≡ rebuild ∷ [])
        × ((step p (died true false now) s).0.rotate_at ≡ next_rotation p now)
        × ((at : ℕ)
            → next_rotation p now ≡ some at
            → (period : ℕ) × (p.period ≡ some period)
              × (now + p.rebuild_backoff ≤ at)
              × (now + period ≤ at))
  rebuild_plans s now h = (
    unfold step react in ground arith,
    unfold step react restart in ground arith,
    λ at n. planned p.period at (unfold next_rotation in n),
  )
    where
      planned :
          (o : Option ℕ) (at : ℕ)
          → scheduled p now o ≡ some at
          → (period : ℕ) × (o ≡ some period) × (now + p.rebuild_backoff ≤ at) × (now + period ≤ at)
      planned none at n = absurd (ground arith)
      planned (some period) at n = (period, refl, ground arith, ground arith)

  join :
      (cs ds : List ClientCommand) (r1 r2 : Bool)
      → EndsWithDisconnect cs r1
      → (r1 ≡ true → (ds ≡ []) × (r2 ≡ true))
      → EndsWithDisconnect ds r2
      → EndsWithDisconnect (cs ++ ds) r2
  join [] ds r1 r2 h f k = k
  join (rebuild ∷ cs) ds r1 r2 h f k = join cs ds r1 r2 h f k
  join (disconnect ∷ cs) ds r1 r2 h f k = let (a, b) = f h.1 in (rw (h.0, a) refl, b)

  died_orderly :
      (taken interrupted : Bool) (now : ℕ) (s : Supervisor)
      → EndsWithDisconnect
          (react p (died taken interrupted now) s).1
          (react p (died taken interrupted now) s).0.returned
  unfolding react finish restart
  died_orderly false i now s = tt
  died_orderly true true now s = (refl, refl)
  died_orderly true false now s = tt

  woke_orderly :
      (taken : Bool) (now inflight : ℕ) (s : Supervisor)
      → EndsWithDisconnect
          (react p (woke taken now inflight) s).1
          (react p (woke taken now inflight) s).0.returned
  unfolding react finish restart
  woke_orderly taken now inflight s =
      elim (Bool-cases (not (inflight == 0) && ltb now (deadline_from p now s.defer_deadline))) [
        | inl h ↦ rw h tt
        | inr h ↦ elim (Bool-cases taken) [ inl t ↦ rw (h, t) tt | inr t ↦ rw (h, t) tt ]
      ]

  react_orderly :
      (e : Event) (s : Supervisor) → EndsWithDisconnect (react p e s).1 (react p e s).0.returned
  unfolding react finish
  react_orderly shutdown s = (refl, refl)
  react_orderly driver_gone s = tt
  react_orderly (died t i n) s = died_orderly t i n s
  react_orderly (woke t n f) s = woke_orderly t n f s

  step_orderly :
      (e : Event) (s : Supervisor) → EndsWithDisconnect (step p e s).1 (step p e s).0.returned
  step_orderly e s = elim (Bool-cases s.returned) [
    | inl h ↦ let q = step_returned e s h in ground (arith, q)
    | inr h ↦
        let q : step p e s ≡ react p e s = unfold step in ground arith in
        coe 1 0 (i. EndsWithDisconnect (q i).1 (q i).0.returned) (react_orderly e s)
  ]

  -- Over a whole run the driver is told to disconnect at most once, nothing follows it, and the
  -- loop has then returned.
  pub commands_orderly :
      (es : List Event) (s : Supervisor) → EndsWithDisconnect (run p es s).1 (run p es s).0.returned
  unfolding run
  commands_orderly [] s = tt
  commands_orderly (e ∷ es) s =
      let now = step p e s in
      join now.1 (run p es now.0).1 now.0.returned (run p es now.0).0.returned (step_orderly e s)
        (λ h. let k = run_returned es now.0 h in (ap (λ q. q.1) k, ap (λ q. q.0.returned) k ∙ h))
        (commands_orderly es now.0)
