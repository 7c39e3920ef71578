-- ===== src/Classify/Verdict.antt =====
-- What the verdict of the classifier says of the bytes.
use zero_shim.Prelude.{ℕ, ◌<◌, ◌≡◌, refl, ◌≢◌, ◌↔◌, false, none, arith, Result, ok, err, length}
use zero_shim.Bytes.{Bytes}
use zero_shim.External.{Zebra, ZebraLaws}
use zero_shim.Classify.{
  migration, unparseable, treat_as_migration, Evidence, evidence_of, classify_with_evidence,
  classify,
}

module _ (z : Zebra) (raw : Bytes) where
  -- The bytes are one transaction, to the last byte, and it has no Orchard bundle.
  abbrev pub IsOrdinary : Type 0
  IsOrdinary =
      (tx : z.Transaction) × (z.zcash_deserialize raw ≡ ok (tx, length raw))
      × (z.has_orchard_data tx ≡ false)

  verdict_exact :
      (r : Result _ (z.Transaction × ℕ))
      → (treat_as_migration (evidence_of z raw r).class ≡ false)
        ↔ ((tx : z.Transaction) × (r ≡ ok (tx, length raw)) × (z.has_orchard_data tx ≡ false))
  unfolding classify_with_evidence treat_as_migration
  verdict_exact (err e) = ((λ h. cc), (λ h. cc (h.1)))
  verdict_exact (ok (tx, position)) =
      ((λ h. (tx, ground arith, ground arith)), (λ h. let (tx', e, o) = h in ground arith))

  -- A transaction is not diverted exactly when the bytes parse as one transaction that takes up the
  -- whole input and has no Orchard bundle; a failed parse and trailing bytes are diverted.
  pub not_diverted_exact : (treat_as_migration (classify z raw) ≡ false) ↔ IsOrdinary
  unfolding classify
  not_diverted_exact = verdict_exact (z.zcash_deserialize raw)

  -- What the fields of one evidence record say of each other.
  abbrev pub IsCoherent : Evidence → Type 0
  IsCoherent ev =
      ((ev.class ≡ migration) ↔ (0 < ev.orchard_actions))
      × ((ev.class ≡ unparseable) ↔ (ev.error ≢ none))
      × (ev.len ≡ length raw)

  evidence-IsCoherent :
      ZebraLaws z → (r : Result _ (z.Transaction × ℕ)) → IsCoherent (evidence_of z raw r)
  unfolding classify_with_evidence
  evidence-IsCoherent laws (err e) =
      (((λ h. cc), (λ h. absurd (omega arith))), ((λ h k. cc), (λ h. refl)), refl)
  evidence-IsCoherent laws (ok (tx, position)) =
      let law = laws.actions_of_bundle tx in
      (
        ((λ h. ground (arith, law)), (λ h. ground (arith, law))),
        ((λ h k. ground arith), (λ h. ground arith)),
        ground arith,
      )

  -- If a bundle has an action and no action comes without a bundle, the evidence and the verdict
  -- agree: diverted for Orchard exactly when an action was counted, unparseable exactly when an
  -- error is recorded, and the length is that of the input.
  pub classify_evidence-IsCoherent : ZebraLaws z → IsCoherent (classify_with_evidence z raw)
  classify_evidence-IsCoherent laws =
      unfold classify_with_evidence in evidence-IsCoherent laws (z.zcash_deserialize raw)

pub classify_class :
    (z : Zebra) (raw : Bytes) → (classify_with_evidence z raw).class ≡ classify z raw
classify_class z raw = unfold classify in refl
