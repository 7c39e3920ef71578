-- ===== src/Startup/Parts.antt =====
-- The parts of the start: TLS names, recipients, budgets (`main` and `build_nym_transport` of
-- zeronym/shim/src/main.rs).
use zero_shim.Prelude.{
  ℕ, suc, ◌*◌, ◌≡◌, refl, ap, inl, inr, Bool, Option, none, some, List, [], ◌∷◌, Bool-cases, Result,
  ok, err, length,
}
use zero_shim.Text.{Text}
use zero_shim.Tls.{Names, BackendTls}
use zero_shim.Supervisor.{RotationPolicy, request_timeout}
use zero_shim.Tls.Handshakes.{Offers}
use zero_shim.Startup.{
  Environment, Warning, Acme, tls_if, is_none, recipients, collected, set, topology, lookup_timeout,
  rotation, server_tls,
}

-- A hop is in the clear exactly where no name is set for it; else its certificate is checked
-- against that name, and the protocol alone is offered.
abbrev pub Verifies : Names → Text → Option Text → Option BackendTls → Type 0
Verifies n alpn none none = Unit {0}
Verifies n alpn none (some tls) = ⊥
Verifies n alpn (some name) none = ⊥
Verifies n alpn (some name) (some tls) =
    (n.try_from name ≡ some tls.server_name) × (tls.alpn_protocols ≡ alpn ∷ [])

-- The recipients are the addresses as the SDK reads them.
abbrev pub AreParsed : Environment → List Text → List Text → Type 0
AreParsed w [] [] = Unit {0}
AreParsed w [] (r ∷ rs) = ⊥
AreParsed w (a ∷ as') [] = ⊥
AreParsed w (a ∷ as') (r ∷ rs) = (w.parse_recipient a ≡ ok r) × AreParsed w as' rs

-- Wallets are served with TLS exactly where a domain is set, and then under that domain, with the
-- contact and from the directory that are set.
abbrev pub Serves : Option Text → Option Text → Bool → Option Acme → Type 0
Serves none email production none = Unit {0}
Serves none email production (some a) = ⊥
Serves (some domain) email production none = ⊥
Serves (some domain) email production (some a) =
    (a.domain ≡ domain) × (a.contact_email ≡ email) × (a.production ≡ production)

pub server_tls-Serves :
    (o email : Option Text) (production : Bool)
    → Serves o email production (server_tls o email production)
unfolding server_tls
server_tls-Serves none email production = tt
server_tls-Serves (some domain) email production = (refl, refl, refl)

pub server_tls-none :
    (o email : Option Text) (production : Bool)
    → is_none (server_tls o email production) ≡ is_none o
unfolding server_tls
server_tls-none none email production = refl
server_tls-none (some domain) email production = refl

-- The budget of a lookup, the default or as it is set.
abbrev pub Budgets : Option ℕ → ℕ → Type 0
Budgets none t = t ≡ request_timeout
Budgets (some secs) t = t ≡ secs * 1000

-- The rotation is on if a period is set, and then waits for at least the budget of a lookup.
abbrev pub Rotates : ℕ → Option ℕ → RotationPolicy → Type 0
Rotates budget none r = r.period ≡ none
Rotates budget (some secs) r = (r.period ≡ some (secs * 1000)) × (r.defer_limit ≡ budget)

pub lookup_timeout-Budgets : (o : Option ℕ) → Budgets o (lookup_timeout o)
unfolding lookup_timeout
lookup_timeout-Budgets none = refl
lookup_timeout-Budgets (some secs) = refl

pub rotation-Rotates : (budget : ℕ) (o : Option ℕ) → Rotates budget o (rotation budget o)
unfolding rotation
rotation-Rotates budget none = refl
rotation-Rotates budget (some secs) = (refl, refl)

-- What a result is, if it is no error.
abbrev pub Ensures :
    {A : Type 0} → (List Warning → A → Type 0) → List Warning × Result Text A → Type 0
Ensures P (ws, ok a) = P ws a
Ensures P (ws, err e) = Unit {0}

abbrev pub IfOk : {A : Type 0} → (A → Type 0) → Result Text A → Type 0
IfOk P (ok a) = P a
IfOk P (err e) = Unit {0}

pub tls_if-Verifies :
    (n : Names) (alpn : Text) (make : Text → Result Text BackendTls) (o : Option Text)
    → ((name : Text) (tls : BackendTls) → make name ≡ ok tls → Offers n name tls alpn)
    → IfOk (Verifies n alpn o) (tls_if make o)
unfolding tls_if
tls_if-Verifies n alpn make none h = tt
tls_if-Verifies n alpn make (some name) h = by (make name) (h name)
  where
    by :
        (r : Result Text BackendTls)
        → ((tls : BackendTls) → r ≡ ok tls → Offers n name tls alpn)
        → IfOk (Verifies n alpn (some name)) (set r)
    by (err e) g = tt
    by (ok tls) g = g tls refl

pub recipients-AreParsed :
    (w : Environment) (as' : List Text) → IfOk (AreParsed w as') (recipients w as')
unfolding recipients
recipients-AreParsed w [] = tt
recipients-AreParsed w (a ∷ as') =
    by (w.parse_recipient a) (recipients w as') refl (recipients-AreParsed w as')
  where
    by :
        (r : Result Text Text) (rest : Result Text (List Text))
        → w.parse_recipient a ≡ r
        → IfOk (AreParsed w as') rest
        → IfOk (AreParsed w (a ∷ as')) (collected w a r rest)
    by (err e) rest q h = tt
    by (ok r) (err e) q h = tt
    by (ok r) (ok rs) q h = (q, h)

pub length-AreParsed :
    (w : Environment) (as' rs : List Text) → AreParsed w as' rs → length as' ≡ length rs
length-AreParsed w [] [] h = refl
length-AreParsed w [] (r ∷ rs) h = absurd h
length-AreParsed w (a ∷ as') [] h = absurd h
length-AreParsed w (a ∷ as') (r ∷ rs) h = ap suc (length-AreParsed w as' rs h.1)

pub topology-same : (w : Environment) (o : Option Text) → IfOk (λ t. t ≡ o) (topology w o)
unfolding topology
topology-same w none = refl
topology-same w (some path) = elim (Bool-cases w.mixnet_localnet) [
  | inl e ↦ simp e refl
  | inr e ↦ simp e tt
]
