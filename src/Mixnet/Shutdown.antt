-- ===== src/Mixnet/Shutdown.antt =====
-- The end of the mixnet client when the process is told to stop.
use zero_shim.Prelude.{
  ℕ, suc, ◌≤◌, ◌≡◌, refl, ap, ◌⊎◌, inl, inr, some, List, [], ◌∷◌, map, arith, Result, length,
}
use zero_shim.Text.{Text}
use zero_shim.Supervisor.{ClientCommand, RotationPolicy}
use zero_shim.Supervisor.Answers.{Disconnects, shutdown-returned}
use zero_shim.Driver.{stopped, commanded}
use zero_shim.Driver.Deaths.{stopped_stays, disconnect_stops}
use zero_shim.Mixnet.{System, Act, obeys, stops, driven, supervised, obey, act, acts, spawned}
use zero_shim.Mixnet.Invariant.{act-IsSound, acts-IsSound, spawned-IsSound}

-- The driver has returned, or is going to.
abbrev IsEnding : System → List ClientCommand → Type 0
IsEnding s cs = (s.driver.phase ≡ stopped) ⊎ Disconnects cs

obey-IsEnding :
    (b : Result Text Text) (cs : List ClientCommand) (s : System)
    → s.commands ≡ cs
    → IsEnding s cs
    → IsEnding (obey b cs s) (obey b cs s).commands
unfolding obey driven
obey-IsEnding b [] s q (inl h) = inl h
obey-IsEnding b [] s q (inr h) = absurd h
obey-IsEnding b (c ∷ cs) s q (inl h) = inl (stopped_stays s.driver (commanded (some c) b) h)
obey-IsEnding b (c ∷ cs) s q (inr (inl e)) = inl (rw e (disconnect_stops s.driver b))
obey-IsEnding b (c ∷ cs) s q (inr (inr h)) = inr h

obey-length :
    (b : Result Text Text) (cs : List ClientCommand) (s : System) (n : ℕ)
    → s.commands ≡ cs
    → length cs ≤ suc n
    → length (obey b cs s).commands ≤ n
unfolding obey driven
obey-length b [] s n q h = ground (arith, ap length q)
obey-length b (c ∷ cs) s n q h = omega arith

module _ (p : RotationPolicy) where
  obeyed_to_end :
      (bs : List (Result Text Text)) (s : System)
      → IsEnding s s.commands
      → length s.commands ≤ length bs
      → (acts p (map obeys bs) s).driver.phase ≡ stopped
  unfolding acts act
  obeyed_to_end [] s (inl h) l = h
  obeyed_to_end [] s (inr h) l = absurd (none_left s.commands h l)
    where
      none_left : (cs : List ClientCommand) → Disconnects cs → length cs ≤ 0 → ⊥
      none_left [] h l = h
      none_left (c ∷ cs) h l = omega arith
  obeyed_to_end (b ∷ bs) s h l =
      obeyed_to_end bs (obey b s.commands s) (obey-IsEnding b s.commands s refl h)
        (obey-length b s.commands s (length bs) refl l)

  -- Whatever the driver and the supervisor have done since they were spawned: if the driver, once
  -- the shutdown has reached the supervisor, takes as many commands as are then in its channel, or
  -- more, it has returned, however the builds among them end.
  pub shutdown_stops_driver :
      (gs : List Text) (start : ℕ) (b : Result Text Text) (as' : List Act)
      (bs : List (Result Text Text))
      → length (act p stops (acts p as' (spawned p gs start b))).commands ≤ length bs
      → (acts p (map obeys bs) (act p stops (acts p as' (spawned p gs start b)))).driver.phase
        ≡ stopped
  shutdown_stops_driver gs start b as' bs l =
      let s = acts p as' (spawned p gs start b) in
      let sound = act-IsSound p stops s (acts-IsSound p as' _ (spawned-IsSound p gs start b)) in
      obeyed_to_end bs (act p stops s)
        (sound.1 (unfold act supervised in shutdown-returned p s.supervisor)) l
