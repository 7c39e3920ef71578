-- ===== src/Text/Search.antt =====
-- Facts on comparison and search of texts.
use zero_shim.Prelude.{ℕ, ◌≤◌, ◌≡◌, refl, ◌↔◌, true, [], ◌∷◌, ◌++◌, arith, All}
use zero_shim.Text.{Text, text_eq, contains}
use zero_shim.Text.Decimal.{IsDigit}

pub text_eq_iff : (a b : Text) → (text_eq a b ≡ true) ↔ (a ≡ b)
text_eq_iff [] [] = ((λ h. refl), (λ h. refl))
text_eq_iff [] (b ∷ bs) = ((λ h. cc), (λ h. cc))
text_eq_iff (a ∷ as') [] = ((λ h. cc), (λ h. cc))
text_eq_iff (a ∷ as') (b ∷ bs) =
    let ih = text_eq_iff as' bs in ((λ h. ground (arith, ih)), (λ h. ground (arith, ih)))

pub text_eq_self : (a : Text) → text_eq a a ≡ true
text_eq_self a = (text_eq_iff a a).1 refl

-- A needle that begins with no digit is not found across a row of digits.
pub contains-digits :
    (ds rest : Text) (p : ℕ) (ps : Text)
    → All IsDigit ds
    → 58 ≤ p
    → contains (ds ++ rest) (p ∷ ps) ≡ contains rest (p ∷ ps)
unfolding contains
contains-digits [] rest p ps h hp = refl
contains-digits (d ∷ ds) rest p ps h hp = ground (arith, contains-digits ds rest p ps h.1 hp)
