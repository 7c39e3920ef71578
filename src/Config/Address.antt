-- ===== src/Config/Address.antt =====
-- The form of a hub address (`is_nym_address` of zeronym/shim/src/config.rs).
use zero_shim.Prelude.{
  ℕ, ◌≡◌, refl, sym, ap, ◌∙◌, ◌↔◌, inl, inr, true, false, Option, none, some, [], ◌∷◌, ◌++◌, arith,
  ◌==◌, Bool-cases,
}
use zero_shim.Text.{Text}
use zero_shim.Config.{
  split_once, in_front, has, is_empty, keys_and_gateway, address_parts, is_nym_address,
}

abbrev pub Lacks : ℕ → Text → Type 0
Lacks c s = has c s ≡ false

split_once_parts :
    (c : ℕ) (s a b : Text) → split_once c s ≡ some (a, b) → (s ≡ a ++ (c ∷ b)) × Lacks c a
split_once_parts c [] a b h = absurd (ground arith)
split_once_parts c (x ∷ s) a b h = elim (Bool-cases (x == c)) [
  | inl e ↦ first e
  | inr e ↦ later e (λ a' b'. split_once_parts c s a' b') (split_once c s) refl (ground (arith, e))
]
  where
    first : (x == c) ≡ true → (x ∷ s ≡ a ++ (c ∷ b)) × Lacks c a
    first e =
        let p : a ≡ [] = ground arith in let q : b ≡ s = ground arith in rw (p, q) (ground arith)

    later :
        (x == c) ≡ false
        → ((a' b' : Text) → split_once c s ≡ some (a', b') → (s ≡ a' ++ (c ∷ b')) × Lacks c a')
        → (o : Option (Text × Text)) → split_once c s ≡ o
        → in_front x (split_once c s) ≡ some (a, b)
        → (x ∷ s ≡ a ++ (c ∷ b)) × Lacks c a
    later e ih none f g = absurd (ground arith)
    later e ih (some (a', b')) f g =
        let (u, v) = ih a' b' f in
        let p : a ≡ x ∷ a' = ground (arith, f, g) in
        let q : b ≡ b' = ground (arith, f, g) in rw (p, q) (ap (λ l. x ∷ l) u, ground arith)

split_once_joined : (c : ℕ) (a b : Text) → Lacks c a → split_once c (a ++ (c ∷ b)) ≡ some (a, b)
split_once_joined c [] b h = ground arith
split_once_joined c (x ∷ a) b h = ground (arith, split_once_joined c a b)

-- `identity.encryption@gateway`: no part is empty, and neither separator occurs a second time.
pub record IsNymAddress (addr : Text) : Type 0 where
  pub identity : Text
  pub encryption : Text
  pub gateway : Text
  pub joined : addr ≡ (identity ++ (b'.' ∷ encryption)) ++ (b'@' ∷ gateway)
  pub identity_present : is_empty identity ≡ false
  pub encryption_present : is_empty encryption ≡ false
  pub gateway_present : is_empty gateway ≡ false
  pub one_at : Lacks b'@' (identity ++ (b'.' ∷ encryption)) × Lacks b'@' gateway
  pub one_dot : Lacks b'.' identity × Lacks b'.' encryption

keys_and_gateway_parts :
    (addr keys gateway : Text) (o : Option (Text × Text))
    → addr ≡ keys ++ (b'@' ∷ gateway)
    → Lacks b'@' keys
    → split_once b'.' keys ≡ o
    → keys_and_gateway gateway o ≡ true
    → IsNymAddress addr
unfolding keys_and_gateway
keys_and_gateway_parts addr keys gateway none e l f h = absurd (ground arith)
keys_and_gateway_parts addr keys gateway (some (identity, encryption)) e l f h =
    let (j, d) = split_once_parts b'.' keys identity encryption f in
    record {
      identity = identity;
      encryption = encryption;
      gateway = gateway;
      joined = e ∙ ap (λ k. k ++ (b'@' ∷ gateway)) j;
      identity_present = ground arith;
      encryption_present = ground arith;
      gateway_present = ground arith;
      one_at = (ap (has b'@') (sym j) ∙ l, ground arith);
      one_dot = (d, ground arith);
    }

address_parts_split :
    (addr : Text) (o : Option (Text × Text))
    → split_once b'@' addr ≡ o
    → address_parts o ≡ true
    → IsNymAddress addr
unfolding address_parts
address_parts_split addr none e h = absurd (ground arith)
address_parts_split addr (some (keys, gateway)) e h =
    let (j, d) = split_once_parts b'@' addr keys gateway e in
    keys_and_gateway_parts addr keys gateway (split_once b'.' keys) j d refl h

address_back : (addr : Text) → IsNymAddress addr → is_nym_address addr ≡ true
address_back addr a =
    let s = split_once_joined b'@' (a.identity ++ (b'.' ∷ a.encryption)) a.gateway a.one_at.0 in
    let t = split_once_joined b'.' a.identity a.encryption a.one_dot.0 in
    let (u, v) = a.one_at in
    let (w, x) = a.one_dot in
    unfold is_nym_address in
    rw (a.joined, s)
      (unfold address_parts keys_and_gateway in
        rw t (ground (arith, a.identity_present, a.encryption_present, a.gateway_present)))

-- The check passes exactly for `identity.encryption@gateway` with three parts that are not empty,
-- one at sign and one dot before it; the gateway may have dots.
pub is_nym_address_exact : (addr : Text) → (is_nym_address addr ≡ true) ↔ IsNymAddress addr
is_nym_address_exact addr = (
  (λ h. address_parts_split addr (split_once b'@' addr) refl (unfold is_nym_address in h)),
  (λ a. address_back addr a),
)
