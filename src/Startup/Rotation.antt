-- ===== src/Startup/Rotation.antt =====
-- The rotation that the shim is started with (`build_nym_transport` of zeronym/shim/src/main.rs),
-- in the hands of the supervisor.
use zero_shim.Prelude.{
  ℕ, ◌+◌, ◌≤◌, ◌<◌, ◌≡◌, ap, Bool, false, Option, none, some, List, [], ◌∷◌, arith, ok, All,
}
use zero_shim.Prelude.{All-map}
use zero_shim.Config.{HubSelection, forward_only, http, nym}
use zero_shim.Supervisor.{
  effective_defer_limit, Supervisor, Event, shutdown, driver_gone, died, woke, run,
}
use zero_shim.Supervisor.Deferral.{IsBusyWake, rotation_defers}
use zero_shim.Startup.{
  Settings, Environment, Warning, Plan, Mixnet, Diversion, clearnet, mixnet, start,
}
use zero_shim.Startup.Parts.{Rotates}
use zero_shim.Startup.Transport.{CarriesOut}
use zero_shim.Startup.Hops.{start-Honours}

carried-Rotates :
    (w : Environment) (c : Settings) (s : HubSelection) (d : Option Diversion) (m : Mixnet)
    → CarriesOut w c s d
    → d ≡ some (mixnet m)
    → Rotates m.lookup_timeout c.nym_rotation_secs m.rotation
carried-Rotates w c forward_only none m h e = absurd (ground arith)
carried-Rotates w c forward_only (some d) m h e = absurd h
carried-Rotates w c (http addr) none m h e = absurd h
carried-Rotates w c (http addr) (some (clearnet x)) m h e = absurd (ground arith)
carried-Rotates w c (http addr) (some (mixnet x)) m h e = absurd h
carried-Rotates w c (nym as') none m h e = absurd h
carried-Rotates w c (nym as') (some (clearnet x)) m h e = absurd h
carried-Rotates w c (nym as') (some (mixnet n)) m h e =
    let q : n ≡ m = ground arith in
    coe 0 1 (i. Rotates (q i).lookup_timeout c.nym_rotation_secs (q i).rotation) h.5

rotating-defers :
    (o : Option ℕ) (secs : ℕ) (m : Mixnet)
    → o ≡ some secs
    → Rotates m.lookup_timeout o m.rotation
    → m.lookup_timeout ≤ effective_defer_limit m.rotation
rotating-defers none secs m e h = absurd (ground arith)
rotating-defers (some n) secs m e h = omega (arith, h.1)

IsBusyWake-le : (d f : ℕ) (e : Event) → d ≤ f → IsBusyWake d e → IsBusyWake f e
IsBusyWake-le d f (woke taken now inflight) l h = omega arith
IsBusyWake-le d f shutdown l h = absurd h
IsBusyWake-le d f driver_gone l h = absurd h
IsBusyWake-le d f (died t i n) l h = absurd h

-- A shim is started over the mixnet with a rotation, and a rotation comes due, with no deferral on,
-- when a request of a lookup is in flight that was sent by then. Through any number of wakes of the
-- supervisor that find a request in flight and come before that request has had the whole lookup
-- budget, the driver gets no command, so the client that the reply is addressed to stays: whatever
-- the budget is, since `main` passes the resolved one to the supervisor as the defer limit.
pub rotation_spares_lookups :
    (w : Environment) (c : Settings) (ws : List Warning) (p : Plan) (m : Mixnet) (secs : ℕ)
    (s : Supervisor) (sent due inflight : ℕ) (taken : Bool) (es : List Event)
    → start w c ≡ (ws, ok p)
    → p.diversion ≡ some (mixnet m)
    → c.nym_rotation_secs ≡ some secs
    → s.returned ≡ false
    → s.defer_deadline ≡ none
    → sent ≤ due
    → 0 < inflight
    → All (IsBusyWake (sent + m.lookup_timeout)) es
    → (run m.rotation (woke taken due inflight ∷ es) s).1 ≡ []
rotation_spares_lookups w c ws p m secs s sent due inflight taken es h d r running free l b hb =
    let k = start-Honours w c ws p h in
    let enough : m.lookup_timeout ≤ effective_defer_limit m.rotation =
      rotating-defers c.nym_rotation_secs secs m r
        (carried-Rotates w c k.0 p.diversion m k.2.5 d) in
    let later =
      All-map {P = IsBusyWake (sent + m.lookup_timeout)}
        {Q = IsBusyWake (due + effective_defer_limit m.rotation)}
        (λ e x.
          IsBusyWake-le (sent + m.lookup_timeout) (due + effective_defer_limit m.rotation) e
            (omega arith) x)
        es hb in
    ap (λ x. x.1) (rotation_defers m.rotation s running due taken inflight es 0 0 free b later).0
