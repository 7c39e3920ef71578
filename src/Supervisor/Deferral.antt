-- ===== src/Supervisor/Deferral.antt =====
-- How long a rotation that is due waits (`run_supervisor` of zeronym/shim/src/nym.rs).
use zero_shim.Prelude.{
  ℕ, ◌+◌, ◌≤◌, ◌<◌, ◌≡◌, refl, ◌↔◌, ◌⊎◌, Bool, true, false, none, some, List, [], ◌∷◌, arith, All,
}
use zero_shim.Supervisor.{
  request_timeout, RotationPolicy, effective_defer_limit, next_rotation, rebuild, Supervisor, Event,
  shutdown, driver_gone, died, woke, restart, react, step, run,
}

-- A wake that finds a request in flight before the deadline.
abbrev pub IsBusyWake : ℕ → Event → Type 0
IsBusyWake deadline (woke taken now inflight) = (0 < inflight) × (now < deadline)
IsBusyWake deadline _ = ⊥

module _ (p : RotationPolicy) (s : Supervisor) (running : s.returned ≡ false) (due : ℕ) where
  abbrev pub deferred : Supervisor
  deferred = record s { defer_deadline = some (due + effective_defer_limit p) }

  busy_step :
      (e : Event)
      → IsBusyWake (due + effective_defer_limit p) e
      → step p e deferred ≡ (deferred, [])
  busy_step (woke taken now inflight) (b, l) = unfold step react in ground (arith, running)
  busy_step shutdown h = absurd h
  busy_step driver_gone h = absurd h
  busy_step (died t i n) h = absurd h

  busy_run :
      (es : List Event)
      → All (IsBusyWake (due + effective_defer_limit p)) es
      → run p es deferred ≡ (deferred, [])
  unfolding run
  busy_run [] h = refl
  busy_run (e ∷ es) h = rw (busy_step e h.0) (busy_run es h.1)

  -- While the loop runs and no deferral is on, a rotation that comes due at `due` with a request in
  -- flight waits: through any number of wakes that find a request in flight before `due` plus the
  -- deferral, the driver gets no command. The next wake rotates, once, exactly if nothing is in
  -- flight or the deferral is over, and plans the next rotation from then on; so a rotation under a
  -- request in flight comes at least REQUEST_TIMEOUT after `due`, whatever deferral is configured.
  pub rotation_defers :
      (taken : Bool) (inflight : ℕ) (es : List Event) (now last : ℕ)
      → s.defer_deadline ≡ none
      → 0 < inflight
      → All (IsBusyWake (due + effective_defer_limit p)) es
      → (run p (woke taken due inflight ∷ es) s ≡ (deferred, []))
        × (((step p (woke true now last) deferred).1 ≡ rebuild ∷ [])
            ↔ ((last ≡ 0) ⊎ (due + effective_defer_limit p ≤ now)))
        × ((step p (woke true now last) deferred).1 ≡ rebuild ∷ []
            → ((step p (woke true now last) deferred).0.rotate_at ≡ next_rotation p now)
              × ((step p (woke true now last) deferred).0.defer_deadline ≡ none)
              × (0 < last → due + request_timeout ≤ now))
  rotation_defers taken inflight es now last hd hi hb = (
    unfold run in rw (first taken) (busy_run es hb),
    (
      (λ h. unfold step react in ground (arith, running)),
      (λ h. unfold step react restart in ground (arith, running)),
    ),
    λ h. (
      unfold step react restart in ground (arith, running),
      unfold step react restart in ground (arith, running),
      λ b. unfold step react in ground (arith, running),
    ),
  )
    where
      first : (t : Bool) → step p (woke t due inflight) s ≡ (deferred, [])
      first t = unfold step react in ground (arith, running)
