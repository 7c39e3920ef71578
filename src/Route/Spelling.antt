-- ===== src/Route/Spelling.antt =====
-- Which paths reach the classifier.
use zero_shim.Prelude.{
  ℕ, zero, suc, ◌≡◌, refl, sym, ap, ◌∙◌, ◌≢◌, Bool, true, false, [], ◌∷◌, ◌++◌, map, append-nil,
  append_assoc, arith, ◌==◌, if◌then◌else◌, replicate, All, inl, inr, Bool-cases,
}
use zero_shim.Text.{Text, text, text_eq, eq_ignore_ascii_case, to_ascii_lower}
use zero_shim.Text.Search.{text_eq_iff}
use zero_shim.Route.{
  send_transaction_path, get_transaction_path, caution_health_path, caution_attestation_path,
  shim_health_path, shim_nym_status_path, shim_nym_diag_path, is_empty, trim_end, segment_from,
  last_segment, Route, route_for, is_classified,
}

abbrev pub NotSlash : ℕ → Type 0
NotSlash c = c ≢ b'/'

abbrev pub method_name : Text
method_name = text "sendtransaction"

trim_end-slashes : (n : ℕ) → trim_end (replicate n b'/') ≡ []
unfolding trim_end replicate
trim_end-slashes zero = refl
trim_end-slashes (suc n) = rw (trim_end-slashes n)

trim_end-append_slashes : (s : Text) (n : ℕ) → trim_end (s ++ replicate n b'/') ≡ trim_end s
unfolding trim_end
trim_end-append_slashes [] n = trim_end-slashes n
trim_end-append_slashes (c ∷ s) n = rw (trim_end-append_slashes s n)

trim_end-plain : (s : Text) → All NotSlash s → trim_end s ≡ s
unfolding trim_end
trim_end-plain [] h = refl
trim_end-plain (c ∷ s) h = ground (arith, trim_end-plain s h.1)

trim_end-append :
    (pre s : Text) → trim_end s ≡ s → is_empty s ≡ false → trim_end (pre ++ s) ≡ pre ++ s
unfolding trim_end
trim_end-append [] s e h = e
trim_end-append (c ∷ pre) s e h = ground (arith, trim_end-append pre s e h, is_empty-append pre s h)
  where
    is_empty-append : (p t : Text) → is_empty t ≡ false → is_empty (p ++ t) ≡ false
    is_empty-append [] t k = k
    is_empty-append (d ∷ p) t k = refl

segment_from-plain : (acc s : Text) → All NotSlash s → segment_from acc s ≡ acc ++ s
unfolding segment_from
segment_from-plain acc [] h = sym (append-nil acc)
segment_from-plain acc (c ∷ s) h =
    ground (arith, segment_from-plain (acc ++ (c ∷ [])) s h.1, append_assoc acc (c ∷ []) s)

segment_from-slash : (acc pre s : Text) → segment_from acc (pre ++ (b'/' ∷ s)) ≡ segment_from [] s
unfolding segment_from
segment_from-slash acc [] s = refl
segment_from-slash acc (c ∷ pre) s =
    segment_from-slash (if c == b'/' then [] else acc ++ (c ∷ [])) pre s

lower-NotSlash : (s : Text) → All NotSlash (map to_ascii_lower s) → All NotSlash s
lower-NotSlash [] h = tt
lower-NotSlash (c ∷ s) h = ((λ e. h.0 (rw e refl)), lower-NotSlash s h.1)

-- A path in the spelling of SendTransaction: any front that ends in a slash, or none, then the
-- method's name in any case, then any number of slashes.
spelled_segment :
    (seg : Text)
    → eq_ignore_ascii_case seg method_name ≡ true
    → All NotSlash seg × (is_empty seg ≡ false)
spelled_segment seg h =
    let e : map to_ascii_lower seg ≡ method_name = (text_eq_iff _ method_name).0 h in
    (lower-NotSlash seg (rw e (omega arith)), nonempty seg e)
  where
    nonempty : (s : Text) → map to_ascii_lower s ≡ method_name → is_empty s ≡ false
    nonempty [] e = cc
    nonempty (c ∷ s) e = refl

last_segment-spelled :
    (pre seg : Text) (n : ℕ)
    → eq_ignore_ascii_case seg method_name ≡ true
    → last_segment (trim_end ((pre ++ (b'/' ∷ seg)) ++ replicate n b'/')) ≡ seg
unfolding last_segment
last_segment-spelled pre seg n h =
    let (plain, full) = spelled_segment seg h in
    rw
      (
        trim_end-append_slashes (pre ++ (b'/' ∷ seg)) n,
        trim_end-append pre (b'/' ∷ seg) (trim_end-slash seg plain full) refl,
        segment_from-slash [] pre seg,
      )
      (segment_from-plain [] seg plain)
  where
    trim_end-slash :
        (s : Text) → All NotSlash s → is_empty s ≡ false → trim_end (b'/' ∷ s) ≡ b'/' ∷ s
    trim_end-slash s p f = unfold trim_end in rw (trim_end-plain s p, f)

-- The last segment of the path, behind trailing slashes, is the method's name in some case.
abbrev pub spells_method : Text → Bool
spells_method path = eq_ignore_ascii_case (last_segment (trim_end path)) method_name

spells_of_eq :
    (path known : Text) (b : Bool)
    → spells_method known ≡ b
    → text_eq path known ≡ true
    → spells_method path ≡ b
spells_of_eq path known b e h = ap spells_method ((text_eq_iff path known).0 h) ∙ e

-- A path goes to the classifier exactly when its last segment, trailing slashes aside, spells
-- `sendtransaction` in some case; none of the other exact paths takes such a request away.
pub route_for_classifies : (path : Text) → is_classified (route_for path) ≡ spells_method path
unfolding is_classified route_for
route_for_classifies path = ground (
  arith,
  spells_of_eq path send_transaction_path true refl,
  spells_of_eq path get_transaction_path false refl,
  spells_of_eq path caution_health_path false refl,
  spells_of_eq path caution_attestation_path false refl,
  spells_of_eq path shim_health_path false refl,
  spells_of_eq path shim_nym_status_path false refl,
  spells_of_eq path shim_nym_diag_path false refl,
)

-- Whatever stands before the method's name, in whatever case it is spelled and however many slashes
-- follow, the request is classified.
pub spelled_is_classified :
    (pre seg : Text) (n : ℕ)
    → eq_ignore_ascii_case seg method_name ≡ true
    → is_classified (route_for ((pre ++ (b'/' ∷ seg)) ++ replicate n b'/')) ≡ true
spelled_is_classified pre seg n h =
    route_for_classifies ((pre ++ (b'/' ∷ seg)) ++ replicate n b'/')
    ∙ ap (λ (s : Text). eq_ignore_ascii_case s method_name) (last_segment-spelled pre seg n h)
    ∙ h

-- A path that is none of the exact ones, and does not spell the method.
pub record IsUnknown (path : Text) : Type 0 where
  pub unspelled : spells_method path ≡ false
  pub not_lookup : path ≢ get_transaction_path
  pub not_caution_health : path ≢ caution_health_path
  pub not_attestation : path ≢ caution_attestation_path
  pub not_healthz : path ≢ shim_health_path
  pub not_status : path ≢ shim_nym_status_path
  pub not_diag : path ≢ shim_nym_diag_path

differs : (a b : Text) → a ≢ b → text_eq a b ≡ false
differs a b h = elim (Bool-cases (text_eq a b)) [
  | inl e ↦ absurd (h ((text_eq_iff a b).0 e))
  | inr e ↦ e
]

true_not_false : true ≢ false
true_not_false e = cc

pub unknown-route : (path : Text) → IsUnknown path → route_for path ≡ Route.pass_through
unfolding route_for
unknown-route path u =
    let unsent : text_eq path send_transaction_path ≡ false =
      elim (Bool-cases (text_eq path send_transaction_path)) [
        | inl e ↦ absurd (
            true_not_false
              (sym (spells_of_eq path send_transaction_path true refl e) ∙ u.unspelled))
        | inr e ↦ e
      ] in
    rw
      (
        unsent,
        differs path get_transaction_path u.not_lookup,
        differs path caution_health_path u.not_caution_health,
        differs path caution_attestation_path u.not_attestation,
        differs path shim_health_path u.not_healthz,
        differs path shim_nym_status_path u.not_status,
        differs path shim_nym_diag_path u.not_diag,
        u.unspelled,
      )
      refl
