-- ===== src/Hub/Reach.antt =====
-- When a submission reaches for the hub at all (`HubTransport::submit` of zeronym/shim/src/hub.rs).
use zero_shim.Prelude.{
  ℕ, ◌≤◌, ◌<◌, ◌≡◌, refl, ap, ◌↔◌, ◌⊎◌, inl, inr, true, false, [], arith, ltb, Bool-cases, ok, err,
  length,
}
use zero_shim.Bytes.{Bytes}
use zero_shim.Text.{Text}
use zero_shim.External.{Zebra}
use zero_shim.Wire.{Nonce, max_nym_tx_bytes, tx_too_large}
use zero_shim.Wire.SubmitFrame.{encode_submit-over, encode_submit-in}
use zero_shim.Nym
use zero_shim.Nym.{NymError, taken}
use zero_shim.Nym.Dispatch.{submit_hands_exact, submit_nothing}
use zero_shim.Hub.{
  too_large, HubWorld, HubTransport, http, nym, nym_message, nym_verdict, http_submit, submit_frame,
  submit, submit_reaches,
}

-- The transport takes up the transaction: it is in the budget, and over the mixnet an address is
-- configured and the first takes its request.
abbrev pub IsTakenUp : HubTransport → Bytes → Type 0
IsTakenUp (http w authority nonce) tx = length tx ≤ max_nym_tx_bytes
IsTakenUp (nym h) tx = (length tx ≤ max_nym_tx_bytes) × (0 < h.targets) × (h.offers 0 ≡ taken)

http_posts :
    (w : HubWorld) (authority : Text) (nonce : Nonce) (tx : Bytes)
    → ((max_nym_tx_bytes < length tx)
        × (http_submit w authority nonce tx ≡ ([], ok (too_large max_nym_tx_bytes))))
      ⊎ ((length tx ≤ max_nym_tx_bytes) × (length (http_submit w authority nonce tx).0 ≡ 1))
http_posts w authority nonce tx = elim (Bool-cases (ltb max_nym_tx_bytes (length tx))) [
  | inl big ↦
      let h : max_nym_tx_bytes < length tx = ground (arith, big) in
      inl (h, unfold http_submit submit_frame in rw (encode_submit-over nonce tx h) refl)
  | inr fits ↦
      let h : length tx ≤ max_nym_tx_bytes = ground (arith, fits) in
      let (frame, e) = encode_submit-in nonce tx h in
      inr (h, unfold http_submit submit_frame in rw e refl)
]

pub submit_reaches_exact :
    (hub : HubTransport) (tx : Bytes) → (submit_reaches hub tx ≡ true) ↔ IsTakenUp hub tx
unfolding submit_reaches
submit_reaches_exact (http w authority nonce) tx = elim (http_posts w authority nonce tx) [
  | inl (big, e) ↦ rw e ((λ h. absurd (ground arith)), (λ h. absurd (omega arith)))
  | inr (fits, e) ↦ rw e ((λ h. fits), (λ h. refl))
]
submit_reaches_exact (nym h) tx =
    let x = submit_hands_exact h.offers h.fresh tx h.targets in
    ((λ e. x.0 (ground arith)), (λ t. let l = x.1 t in ground arith))

-- Where nothing is posted or handed over, the size or a failure is the answer.
pub unreached-Fails :
    (z : Zebra) (hub : HubTransport) (tx : Bytes)
    → submit_reaches hub tx ≡ false
    → ((limit : ℕ) × (submit z hub tx ≡ ok (too_large limit)))
      ⊎ ((e : Text) × (submit z hub tx ≡ err e))
unfolding submit_reaches submit
unreached-Fails z (http w authority nonce) tx q = elim (http_posts w authority nonce tx) [
  | inl (big, e) ↦ inl (max_nym_tx_bytes, ap (λ y. y.1) e)
  | inr (fits, e) ↦ absurd (ground arith)
]
unreached-Fails z (nym h) tx q =
    let (e, x) = submit_nothing h.offers h.fresh tx h.targets (ground arith) in rw x (by e)
  where
    by :
        (e : NymError)
        → ((limit : ℕ) × (nym_verdict z tx (err e) ≡ ok (too_large limit)))
          ⊎ ((x : Text) × (nym_verdict z tx (err e) ≡ err x))
    by (Nym.encode (tx_too_large len budget)) = inl (budget, unfold nym_verdict in refl)
    by e = inr (nym_message e, unfold nym_verdict nym_message in refl)
