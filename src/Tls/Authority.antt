-- ===== src/Tls/Authority.antt =====
-- What an authority says of the name and the port (`BackendTls::authority` of
-- zeronym/shim/src/tls.rs).
use zero_shim.Prelude.{
  ℕ, ◌≡◌, refl, sym, ap, ◌∙◌, ◌≢◌, ◌↔◌, inl, inr, [], ◌∷◌, ◌++◌, append-nil, arith, ◌==◌,
  if◌then◌else◌, Bool-cases, All,
}
use zero_shim.Text.{Text, decimal}
use zero_shim.Text.Decimal.{value_from, value-decimal}
use zero_shim.Tls.{name_text, BackendTls, authority}

-- No colon: so is every DNS name.
abbrev pub HasNoColon : Text → Type 0
HasNoColon = All (λ c. c ≢ b':')

-- Empty, or a colon with what follows it.
abbrev BeginsWithColon : Text → Type 0
BeginsWithColon [] = Unit {0}
BeginsWithColon (c ∷ s) = c ≡ b':'

split_unique :
    (xs ys s t : Text)
    → HasNoColon xs
    → HasNoColon ys
    → BeginsWithColon s
    → BeginsWithColon t
    → xs ++ s ≡ ys ++ t
    → (xs ≡ ys) × (s ≡ t)
split_unique [] [] s t hx hy hs ht e = (refl, e)
split_unique [] (y ∷ ys) [] t hx hy hs ht e = absurd (ground arith)
split_unique [] (y ∷ ys) (c ∷ s) t hx hy hs ht e = absurd (hy.0 (ground arith))
split_unique (x ∷ xs) [] s [] hx hy hs ht e = absurd (ground arith)
split_unique (x ∷ xs) [] s (c ∷ t) hx hy hs ht e = absurd (hx.0 (ground arith))
split_unique (x ∷ xs) (y ∷ ys) s t hx hy hs ht e =
    let r = split_unique xs ys s t hx.1 hy.1 hs ht (ground arith) in (ground (arith, r), r.1)

decimal_inj : (m n : ℕ) → decimal m ≡ decimal n → m ≡ n
decimal_inj m n e = sym (value-decimal m) ∙ (ap (value_from 0) e ∙ value-decimal n)

-- What follows the name.
abbrev port_text : ℕ → Text
port_text port = if port == 443 then [] else b':' ∷ decimal port

authority-port_text :
    (tls : BackendTls) (port : ℕ) → authority tls port ≡ name_text tls.server_name ++ port_text port
unfolding authority
authority-port_text tls port = elim (Bool-cases (port == 443)) [
  | inl e ↦ rw e (sym (append-nil (name_text tls.server_name)))
  | inr e ↦ rw e refl
]

port_text-BeginsWithColon : (port : ℕ) → BeginsWithColon (port_text port)
port_text-BeginsWithColon port = elim (Bool-cases (port == 443)) [
  | inl e ↦ rw e tt
  | inr e ↦ rw e refl
]

port_text_inj : (p q : ℕ) → port_text p ≡ port_text q → p ≡ q
port_text_inj p q e = elim (Bool-cases (p == 443)) [
  | inl x ↦ elim (Bool-cases (q == 443)) [ inl y ↦ ground arith | inr y ↦ absurd (ground arith) ]
  | inr x ↦ elim (Bool-cases (q == 443)) [
    | inl y ↦ absurd (ground arith)
    | inr y ↦ decimal_inj p q (ground arith)
  ]
]

-- Of two hops whose names have no colon, the authorities are the same exactly if the names and the
-- ports are: leaving out port 443 loses nothing, and the dialled address has no part in it.
pub authority_exact :
    (tls uls : BackendTls) (p q : ℕ)
    → HasNoColon (name_text tls.server_name)
    → HasNoColon (name_text uls.server_name)
    → (authority tls p ≡ authority uls q)
      ↔ ((name_text tls.server_name ≡ name_text uls.server_name) × (p ≡ q))
authority_exact tls uls p q h k = (
  (λ e.
      let split =
        split_unique (name_text tls.server_name) (name_text uls.server_name) (port_text p)
          (port_text q) h k (port_text-BeginsWithColon p) (port_text-BeginsWithColon q)
          (sym (authority-port_text tls p) ∙ (e ∙ authority-port_text uls q)) in
      (split.0, port_text_inj p q split.1)),
  (λ e. unfold authority in rw (e.0, e.1) refl),
)
