-- ===== src/Classify/Branch.antt =====
-- When the evidence reports a consensus branch that the build does not know.
use zero_shim.Prelude.{ℕ, ◌≡◌, refl, ◌∙◌, ◌↔◌, true, false, ◌++◌, arith, Result, ok, err, length}
use zero_shim.Bytes.{Bytes}
use zero_shim.Text.{Text, text, contains, decimal}
use zero_shim.Text.Decimal.{decimal-IsDigit}
use zero_shim.Text.Search.{contains-digits}
use zero_shim.External.{Zebra}
use zero_shim.Classify.{
  trailing_message, evidence_of, classify_with_evidence, is_unrecognised_branch,
}

-- The parser's wording for an unknown branch.
abbrev pub branch_message : Text
branch_message = text "invalid consensus branch id"

after_parsed :
    (rest : Text)
    → contains (text "trailing bytes: parsed " ++ rest) branch_message
      ≡ contains rest branch_message
unfolding contains
after_parsed rest = refl

after_of :
    (rest : Text) → contains (text " of " ++ rest) branch_message ≡ contains rest branch_message
unfolding contains
after_of rest = refl

after_bytes : contains (text " bytes") branch_message ≡ false
unfolding contains
after_bytes = refl

-- The position check's own message is not taken for one.
trailing_is_no_branch :
    (position len : ℕ) → contains (trailing_message position len) branch_message ≡ false
trailing_is_no_branch position len =
    unfold trailing_message in
    (after_parsed (decimal position ++ (text " of " ++ (decimal len ++ text " bytes")))
      ∙ contains-digits (decimal position) (text " of " ++ (decimal len ++ text " bytes")) b'i'
          (text "nvalid consensus branch id") (decimal-IsDigit position) (omega arith)
      ∙ after_of (decimal len ++ text " bytes")
      ∙ contains-digits (decimal len) (text " bytes") b'i' (text "nvalid consensus branch id")
          (decimal-IsDigit len) (omega arith)
      ∙ after_bytes)

module _ (z : Zebra) (raw : Bytes) where
  branch_exact :
      (r : Result Text (z.Transaction × ℕ))
      → (is_unrecognised_branch (evidence_of z raw r) ≡ true)
        ↔ ((e : Text) × (r ≡ err e) × (contains e branch_message ≡ true))
  unfolding classify_with_evidence is_unrecognised_branch
  branch_exact (err e) = ((λ h. (e, refl, h)), (λ h. ground (arith, h.1, h.2)))
  branch_exact (ok (tx, position)) =
      ((λ h. absurd (ground (arith, trailing_is_no_branch position (length raw)))), (λ h. cc (h.1)))

  -- The report of an unknown consensus branch is made exactly when the parser itself failed with a
  -- message that contains its wording for it; trailing bytes and parsed transactions never are.
  pub is_unrecognised_branch_exact :
      (is_unrecognised_branch (classify_with_evidence z raw) ≡ true)
      ↔ ((e : Text) × (z.zcash_deserialize raw ≡ err e) × (contains e branch_message ≡ true))
  is_unrecognised_branch_exact =
      unfold classify_with_evidence in branch_exact (z.zcash_deserialize raw)
