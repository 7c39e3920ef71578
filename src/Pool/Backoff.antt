-- ===== src/Pool/Backoff.antt =====
-- When the pool dials (`UpstreamPool::get` of zeronym/shim/src/proxy.rs).
use zero_shim.Prelude.{
  ℕ, ◌+◌, ◌<◌, ◌≡◌, refl, inl, inr, false, Option, none, some, List, [], ◌∷◌, ◌++◌, arith, ltb,
  Bool-cases, Result, ok, err, All,
}
use zero_shim.Text.{Text}
use zero_shim.Pool.{
  dial_backoff, PoolState, fresh_pool, Call, Got, backoff_message, dialled, redial, from_live, get,
  get_all,
}

abbrev pub same {ℓ κ} : {A : Type ℓ} {B : Type κ} → A → List B → List A
same a [] = []
same a (x ∷ xs) = a ∷ same a xs

-- The calls all find the connection open.
abbrev pub FindsOpen : ℕ → Call → Type 0
FindsOpen upstream c = c.is_closed upstream ≡ false

abbrev pub IsBefore : ℕ → Call → Type 0
IsBefore t c = c.now < t

reused :
    (cs : List Call) (s : PoolState) (upstream : ℕ)
    → s.live ≡ some upstream
    → All (FindsOpen upstream) cs
    → get_all cs s ≡ (s, same (ok upstream) cs, 0)
unfolding get_all
reused [] s upstream e h = refl
reused (c ∷ cs) s upstream e h = rw (open_get, reused cs s upstream e h.1) refl
  where
    open_get : get c s ≡ record { state = s; result = ok upstream; dials = 0 }
    open_get = unfold get from_live in ground (arith, h.0)

held_off :
    (cs : List Call) (s : PoolState) (until : ℕ)
    → s.live ≡ none
    → s.backoff_until ≡ some until
    → All (IsBefore until) cs
    → get_all cs s ≡ (s, same (err backoff_message) cs, 0)
unfolding get_all
held_off [] s until e f h = refl
held_off (c ∷ cs) s until e f h = rw (refused, held_off cs s until e f h.1) refl
  where
    refused : get c s ≡ record { state = s; result = err backoff_message; dials = 0 }
    refused = unfold get from_live redial in ground (arith, e, f, h.0)

-- What a call that dialled leaves behind.
abbrev Leaves : Call → Got → Type 0
Leaves c g =
    g.dials ≡ 1
    → ((upstream : ℕ) → g.result ≡ ok upstream → g.state.live ≡ some upstream)
      × ((e : Text)
          → g.result ≡ err e
          → (g.state.live ≡ none) × (g.state.backoff_until ≡ some (c.dialled_at + dial_backoff)))

dialled-Leaves :
    (c : Call) (r : Result Text ℕ) (s : PoolState)
    → s.live ≡ none
    → Leaves c (dialled r c.dialled_at s)
unfolding dialled
dialled-Leaves c (ok u) s h d = ((λ v e. ground arith), (λ e f. absurd (ground arith)))
dialled-Leaves c (err m) s h d = ((λ v e. absurd (ground arith)), (λ e f. (h, refl)))

redial-Leaves : (c : Call) (o : Option ℕ) (s : PoolState) → s.live ≡ none → Leaves c (redial c o s)
unfolding redial
redial-Leaves c none s h = dialled-Leaves c c.dial s h
redial-Leaves c (some until) s h = elim (Bool-cases (ltb c.now until)) [
  | inl e ↦ rw e (λ d. absurd (ground arith))
  | inr e ↦ rw e (dialled-Leaves c c.dial s h)
]

from_live-Leaves :
    (c : Call) (o : Option ℕ) (s : PoolState) → s.live ≡ o → Leaves c (from_live c o s)
unfolding from_live
from_live-Leaves c none s h = redial-Leaves c s.backoff_until s h
from_live-Leaves c (some u) s h = elim (Bool-cases (c.is_closed u)) [
  | inl e ↦ rw e (redial-Leaves c s.backoff_until (record s { live = none }) refl)
  | inr e ↦ rw e (λ d. absurd (ground arith))
]

-- A new pool dials on its first call.
pub fresh_pool_dials : (c : Call) → (get c fresh_pool).dials ≡ 1
fresh_pool_dials c = by c.dial refl
  where
    by : (r : Result Text ℕ) → c.dial ≡ r → (get c fresh_pool).dials ≡ 1
    by (ok u) e = unfold get from_live redial in rw (e, dialled) refl
    by (err m) e = unfold get from_live redial in rw (e, dialled) refl

-- After a call that dialled: if the dial succeeded, any number of calls that find the connection
-- open get it and none dials; if it failed, none of the calls in the next DIAL_BACKOFF dials, and
-- each is an error at once. The state stays as it was through all of them.
pub one_dial_serves :
    (c : Call) (s : PoolState) (cs : List Call)
    → (get c s).dials ≡ 1
    → ((upstream : ℕ)
        → (get c s).result ≡ ok upstream
        → All (FindsOpen upstream) cs
        → get_all cs (get c s).state ≡ ((get c s).state, same (ok upstream) cs, 0))
      × ((e : Text)
          → (get c s).result ≡ err e
          → All (IsBefore (c.dialled_at + dial_backoff)) cs
          → get_all cs (get c s).state ≡ ((get c s).state, same (err backoff_message) cs, 0))
one_dial_serves c s cs d =
    let l : Leaves c (get c s) = unfold get in from_live-Leaves c s.live s refl in
    let (a, b) = l d in
    (
      (λ u e h. reused cs (get c s).state u (a u e) h),
      (λ e f h.
          let (g, i) = b e f in held_off cs (get c s).state (c.dialled_at + dial_backoff) g i h),
    )

-- One more call.
pub get_all-snoc :
    (cs : List Call) (c : Call) (s : PoolState)
    → (get_all (cs ++ c ∷ []) s).0 ≡ (get c (get_all cs s).0).state
unfolding get_all
get_all-snoc [] c s = refl
get_all-snoc (d ∷ cs) c s = get_all-snoc cs c (get d s).state

pub get_all-nil : (s : PoolState) → (get_all [] s).0 ≡ s
unfolding get_all
get_all-nil s = refl
