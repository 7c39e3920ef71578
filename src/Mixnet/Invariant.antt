-- ===== src/Mixnet/Invariant.antt =====
-- What the turns of the driver and of the supervisor keep between them.
use zero_shim.Prelude.{
  ℕ, zero, suc, ◌<◌, ◌≡◌, refl, ap, ◌∙◌, ◌⊎◌, inl, inr, Bool, true, false, Option, none, some, List,
  [], ◌∷◌, ◌++◌, arith, Bool-cases, Result, length, length-append,
}
use zero_shim.Text.{Text}
use zero_shim.Supervisor
use zero_shim.Supervisor.{
  ClientCommand, disconnect, rebuild, RotationPolicy, Supervisor, shutdown, driver_gone, died, woke,
}
use zero_shim.Supervisor.Answers.{
  IsServed, Disconnects, begin-returned, death-rebuilt, return-Disconnects, returned_stays,
}
use zero_shim.Driver
use zero_shim.Driver.{Driver, Phase, running, first_awaited, awaited, stopped, commanded}
use zero_shim.Driver.Deaths.{
  is_command, IsWaiting, command-Tells, other-Keeps, stopped_stays, disconnect_stops, orphan_stops,
  begin-Tells,
}
use zero_shim.Mixnet.{
  System, Act, drives, obeys, orphaned, hears, wakes, stops, abandoned, is_stopped, takes, driven,
  supervised, obey, orphan, hear, listen, abandon, drive, act, acts, spawned,
}

Disconnects-append :
    (cs ds : List ClientCommand) → Disconnects cs ⊎ Disconnects ds → Disconnects (cs ++ ds)
Disconnects-append [] ds (inl h) = absurd h
Disconnects-append [] ds (inr h) = h
Disconnects-append (c ∷ cs) ds (inl (inl e)) = inl e
Disconnects-append (c ∷ cs) ds (inl (inr h)) = inr (Disconnects-append cs ds (inl h))
Disconnects-append (c ∷ cs) ds (inr h) = inr (Disconnects-append cs ds (inr h))

pub Disconnects-length : (cs : List ClientCommand) → Disconnects cs → 0 < length cs
Disconnects-length [] h = absurd h
Disconnects-length (c ∷ cs) h = omega arith

IsWaiting-takes : (p : Phase) → IsWaiting p → takes p ≡ true
IsWaiting-takes running h = absurd h
IsWaiting-takes first_awaited h = refl
IsWaiting-takes awaited h = refl
IsWaiting-takes stopped h = absurd h

takes-cases : (p : Phase) → (takes p ≡ true) ⊎ (p ≡ stopped)
takes-cases running = inl refl
takes-cases first_awaited = inl refl
takes-cases awaited = inl refl
takes-cases stopped = inr refl

is_stopped-stopped : (p : Phase) → is_stopped p ≡ true → p ≡ stopped
is_stopped-stopped running h = absurd (ground arith)
is_stopped-stopped first_awaited h = absurd (ground arith)
is_stopped-stopped awaited h = absurd (ground arith)
is_stopped-stopped stopped h = refl

pub not_waiting_stopped : (p : Phase) → p ≡ stopped → IsWaiting p → ⊥
not_waiting_stopped p q h = coe 0 1 (i. IsWaiting (q i)) h

-- A report is under way, or a command, or the supervisor has returned.
abbrev pub IsHeard : System → Type 0
IsHeard s =
    IsWaiting s.driver.phase
    → (0 < s.events) ⊎ ((0 < length s.commands) ⊎ (s.supervisor.returned ≡ true))

-- A supervisor that has returned has told the driver, or the driver has returned.
abbrev pub IsTold : System → Type 0
IsTold s = s.supervisor.returned ≡ true → (s.driver.phase ≡ stopped) ⊎ Disconnects s.commands

-- What holds in every state that the two tasks reach.
abbrev pub IsSound : System → Type 0
IsSound s = IsHeard s × IsTold s

module _ (p : RotationPolicy) where
  -- A turn of the supervisor.
  returned-step :
      (e : Supervisor.Event) (s : Supervisor)
      → s.returned ≡ true
      → (Supervisor.step p e s).0.returned ≡ true
  returned-step e s r = ap (λ x. x.0.returned) (returned_stays p s e r) ∙ r

  supervised-IsHeard : (e : Supervisor.Event) (s : System) → IsHeard s → IsHeard (supervised p e s)
  unfolding supervised
  supervised-IsHeard e s heard w = elim (heard w) [
    | inl h ↦ inl h
    | inr (inl h) ↦
        inr (inl (ground (arith, length-append s.commands (Supervisor.step p e s.supervisor).1)))
    | inr (inr h) ↦ inr (inr (returned-step e s.supervisor h))
  ]

  supervised-IsTold :
      (e : Supervisor.Event) (s : System)
      → IsServed e ⊎ (s.driver.phase ≡ stopped)
      → IsTold s
      → IsTold (supervised p e s)
  unfolding supervised
  supervised-IsTold e s (inr q) told r = inl q
  supervised-IsTold e s (inl v) told r = elim (Bool-cases s.supervisor.returned) [
    | inl was ↦ elim (told was) [ inl q ↦ inl q | inr h ↦ inr (Disconnects-append _ _ (inl h)) ]
    | inr was ↦
        inr (Disconnects-append s.commands _ (inr (return-Disconnects p s.supervisor e was v r)))
  ]

  -- A turn of the driver.
  driven-IsHeard :
      (e : Driver.Event) (s : System) → is_command e ≡ false → IsHeard s → IsHeard (driven e s)
  unfolding driven
  driven-IsHeard e s n heard w = elim (other-Keeps s.driver e n w) [
    | inl was ↦ elim (heard was) [ inl h ↦ inl (omega arith) | inr h ↦ inr h ]
    | inr h ↦ inl (omega arith)
  ]

  commanded-IsHeard :
      (c : Option ClientCommand) (b : Result Text Text) (s : System)
      → IsHeard (driven (commanded c b) s)
  unfolding driven
  commanded-IsHeard c b s w = inl (ground (arith, command-Tells s.driver c b w))

  driven-IsTold : (e : Driver.Event) (s : System) → IsTold s → IsTold (driven e s)
  unfolding driven
  driven-IsTold e s told r = elim (told r) [
    | inl q ↦ inl (stopped_stays s.driver e q)
    | inr h ↦ inr h
  ]

  obey-IsSound :
      (b : Result Text Text) (cs : List ClientCommand) (s : System)
      → s.commands ≡ cs
      → IsSound s
      → IsSound (obey b cs s)
  unfolding obey
  obey-IsSound b [] s e h = h
  obey-IsSound b (c ∷ cs) s e (heard, told) = (
    commanded-IsHeard (some c) b (record s { commands = cs }),
    λ r. elim (told r) [
      | inl q ↦ inl (unfold driven in stopped_stays s.driver (commanded (some c) b) q)
      | inr h ↦ elim (coe 0 1 (i. Disconnects (e i)) h) [
        | inl d ↦ rw d (unfold driven in inl (disconnect_stops s.driver b))
        | inr t ↦ unfold driven in inr t
      ]
    ],
  )

  orphan-IsSound :
      (b : Result Text Text) (returned : Bool) (cs : List ClientCommand) (s : System)
      → IsSound s
      → IsSound (orphan b returned cs s)
  unfolding orphan
  orphan-IsSound b true [] s h =
      (commanded-IsHeard none b s, λ r. inl (unfold driven in orphan_stops s.driver b))
  orphan-IsSound b true (c ∷ cs) s h = h
  orphan-IsSound b false cs s h = h

  taken-IsServed :
      (s : System) (e : Bool → Supervisor.Event)
      → ((b : Bool) → b ≡ true → IsServed (e b))
      → IsServed (e (takes s.driver.phase)) ⊎ (s.driver.phase ≡ stopped)
  taken-IsServed s e served = elim (takes-cases s.driver.phase) [
    | inl t ↦ inl (served _ t)
    | inr q ↦ inr q
  ]

  -- The supervisor answers a report of a driver that waits with a rebuild.
  pub report-answered :
      (interrupted : Bool) (now left : ℕ) (s : System)
      → s.supervisor.returned ≡ false
      → IsWaiting s.driver.phase
      → 0 < length (hear p interrupted now (suc left) s).commands
  unfolding hear supervised
  report-answered interrupted now left s r w = simp (IsWaiting-takes _ w) (
      ground (
        arith,
        death-rebuilt p s.supervisor interrupted now r,
        length-append s.commands (Supervisor.step p (died true interrupted now) s.supervisor).1,
      ))

  hear-IsSound :
      (interrupted : Bool) (now events : ℕ) (s : System)
      → s.supervisor.returned ≡ false
      → IsSound s
      → IsSound (hear p interrupted now events s)
  unfolding hear
  hear-IsSound interrupted now zero s r h = h
  hear-IsSound interrupted now (suc left) s r (heard, told) = (
    λ w. inr (inl (report-answered interrupted now left s r w)),
    supervised-IsTold _ (record s { events = left })
        (taken-IsServed s (λ b. died b interrupted now) (λ b t. t)) told,
  )

  listen-IsSound :
      (returned interrupted : Bool) (now : ℕ) (s : System)
      → s.supervisor.returned ≡ returned
      → IsSound s
      → IsSound (listen p returned interrupted now s)
  unfolding listen
  listen-IsSound true interrupted now s r h = h
  listen-IsSound false interrupted now s r h = hear-IsSound interrupted now s.events s r h

  abandon-IsSound :
      (returned : Bool) (events : ℕ) (s : System)
      → (returned ≡ true → s.driver.phase ≡ stopped)
      → IsSound s
      → IsSound (abandon p returned events s)
  unfolding abandon
  abandon-IsSound true zero s q (heard, told) =
      (supervised-IsHeard driver_gone s heard, supervised-IsTold driver_gone s (inr (q refl)) told)
  abandon-IsSound true (suc left) s q h = h
  abandon-IsSound false events s q h = h

  drive-IsSound :
      (e : Driver.Event) (c : Bool) (s : System)
      → is_command e ≡ c
      → IsSound s
      → IsSound (drive c e s)
  unfolding drive
  drive-IsSound e true s q h = h
  drive-IsSound e false s q (heard, told) = (driven-IsHeard e s q heard, driven-IsTold e s told)

  pub act-IsSound : (a : Act) (s : System) → IsSound s → IsSound (act p a s)
  unfolding act
  act-IsSound (drives e) s h = drive-IsSound e (is_command e) s refl h
  act-IsSound (obeys b) s h = obey-IsSound b s.commands s refl h
  act-IsSound (orphaned b) s h = orphan-IsSound b s.supervisor.returned s.commands s h
  act-IsSound (hears interrupted now) s h =
      listen-IsSound s.supervisor.returned interrupted now s refl h
  act-IsSound (wakes now inflight) s (heard, told) = (
    supervised-IsHeard _ s heard,
    supervised-IsTold _ s (taken-IsServed s (λ b. woke b now inflight) (λ b t. t)) told,
  )
  act-IsSound stops s (heard, told) =
      (supervised-IsHeard shutdown s heard, supervised-IsTold shutdown s (inl tt) told)
  act-IsSound abandoned s h =
      abandon-IsSound (is_stopped s.driver.phase) s.events s (is_stopped-stopped _) h

  pub acts-IsSound : (as' : List Act) (s : System) → IsSound s → IsSound (acts p as' s)
  unfolding acts
  acts-IsSound [] s h = h
  acts-IsSound (a ∷ as') s h = acts-IsSound as' _ (act-IsSound a s h)

  pub spawned-IsSound :
      (gs : List Text) (now : ℕ) (b : Result Text Text) → IsSound (spawned p gs now b)
  unfolding spawned
  spawned-IsSound gs now b =
      (λ w. inl (begin-Tells gs now b w), λ r. absurd (ground (arith, begin-returned p now)))
