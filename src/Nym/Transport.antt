-- ===== src/Nym/Transport.antt =====
-- The mixnet client behind the hub client (`HubTransport` of zeronym/shim/src/hub.rs over
-- `NymHandle` of zeronym/shim/src/nym.rs).
use zero_shim.Prelude.{
  ℕ, ◌≤◌, ◌<◌, ◌≡◌, refl, sym, ◌∙◌, ◌≢◌, ◌↔◌, ◌⊎◌, inl, inr, arith, Result, ok, err, length,
}
use zero_shim.Bytes.{Bytes}
use zero_shim.Text.{Text, text}
use zero_shim.External.{Zebra}
use zero_shim.Wire
use zero_shim.Wire.{
  Nonce, IsNonce, WireError, tx_too_large, LookupReply, max_nym_tx_bytes, max_lookup_hash_bytes,
}
use zero_shim.Hub
use zero_shim.Hub.{
  Submit, accepted, too_large, Lookup, local_txid, HubTransport, nym, nym_message, nym_verdict,
  nym_lookup,
}
use zero_shim.Nym.{NymError, encode, timeout, transport_gone, NymHandle}
use zero_shim.Nym
use zero_shim.Nym.{Offer, taken, closed, late, Fresh, Attempt, answered, ending}
use zero_shim.Nym.Dispatch.{submit_exact, submit_refuses}
use zero_shim.Nym.Sweep.{Decides, EndsAt, get_transaction-Sweeps}

taken_or_not : (o : Offer) → (o ≡ taken) ⊎ (o ≢ taken)
taken_or_not taken = inl refl
taken_or_not closed = inr (λ h. ground arith)
taken_or_not late = inr (λ h. ground arith)

not_found_only :
    (r : Result NymError LookupReply) → nym_lookup r ≡ ok Hub.not_found → r ≡ ok Wire.not_found
unfolding nym_lookup
not_found_only (ok (Wire.found k b)) h = absurd (ground arith)
not_found_only (ok Wire.not_found) h = refl
not_found_only (ok Wire.error) h = absurd (ground arith)
not_found_only (err e) h = absurd (ground arith)

found_only :
    (bytes : Bytes) (height : ℕ) (r : Result NymError LookupReply)
    → nym_lookup r ≡ ok (Hub.found bytes height)
    → r ≡ ok (Wire.found height bytes)
unfolding nym_lookup
found_only bytes height (ok (Wire.found k b)) h = ground arith
found_only bytes height (ok Wire.not_found) h = absurd (ground arith)
found_only bytes height (ok Wire.error) h = absurd (ground arith)
found_only bytes height (err e) h = absurd (ground arith)

module _ (offers : ℕ → Offer) (tries : ℕ → Attempt) (fresh : ℕ → Fresh)
    (hn : (i : ℕ) → IsNonce (fresh i).nonce) (start targets : ℕ) (configured : 0 < targets) where
  abbrev pub mixnet : HubTransport
  mixnet =
      nym
        (record { offers = offers; tries = tries; fresh = fresh; start = start; targets = targets })

  -- Over the mixnet with an address configured and nonces of NONCE_BYTES bytes, a transaction over
  -- the budget is answered with the budget; one in the budget is accepted, under the transaction id
  -- computed here, exactly if the transport took the frame for the first address, and otherwise the
  -- submission is an error.
  pub mixnet-submit_exact :
      (z : Zebra) (tx : Bytes)
      → (max_nym_tx_bytes < length tx → Hub.submit z mixnet tx ≡ ok (too_large max_nym_tx_bytes))
        × (length tx ≤ max_nym_tx_bytes
            → ((Hub.submit z mixnet tx ≡ ok (accepted (local_txid z tx))) ↔ (offers 0 ≡ taken))
              × (offers 0 ≢ taken
                  → Hub.submit z mixnet tx ≡ err (text "the mixnet transport is not running")))
  mixnet-submit_exact z tx = (
    (λ big.
        let r = (submit_refuses offers fresh tx targets (hn 0)).1 big configured in
        unfold Hub.submit in rw r (unfold nym_verdict in refl)),
    (λ fits.
        let (m, s, v, w) = submit_exact offers fresh tx hn fits targets configured in
        let refused : (offers 0 ≢ taken
            → Hub.submit z mixnet tx ≡ err (text "the mixnet transport is not running")) =
          λ h. unfold Hub.submit in rw (w h) (unfold nym_verdict nym_message in refl) in
        (
          (
            (λ h. elim (taken_or_not (offers 0)) [
              | inl e ↦ e
              | inr n ↦ absurd (ground (arith, refused n, h))
            ]),
            (λ h. unfold Hub.submit in rw (v.1 h) (unfold nym_verdict in refl)),
          ),
          refused,
        )),
  )

  -- Over the mixnet with an address configured and nonces of NONCE_BYTES bytes, a lookup of a hash
  -- in the budget answers with a transaction, or that there is none, only if the first attempt of
  -- the sweep that did not time out was answered with that by the hub.
  pub mixnet_lookup_honest :
      (hash : Bytes)
      → length hash ≤ max_lookup_hash_bytes
      → (Hub.get_transaction mixnet hash ≡ ok Hub.not_found
          → (i : ℕ) × EndsAt tries fresh start targets hash 0 targets i (ok Wire.not_found))
        × ((bytes : Bytes) (height : ℕ)
            → Hub.get_transaction mixnet hash ≡ ok (Hub.found bytes height)
            → (i : ℕ) × EndsAt tries fresh start targets hash 0 targets i
                (ok (Wire.found height bytes)))
  mixnet_lookup_honest hash fits = (
    (λ h. by (ok Hub.not_found) (ok Wire.not_found) not_found_only (λ c. ground arith) h),
    (λ b k h. by (ok (Hub.found b k)) (ok (Wire.found k b)) (found_only b k) (λ c. ground arith) h),
  )
    where
      by :
          (l : Result Text Lookup) (y : Result NymError LookupReply)
          → ((r : Result NymError LookupReply) → nym_lookup r ≡ l → r ≡ y)
          → y ≢ err timeout
          → Hub.get_transaction mixnet hash ≡ l
          → (i : ℕ) × EndsAt tries fresh start targets hash 0 targets i y
      by l y only not_err h =
          let r = (Nym.get_transaction tries fresh start targets hash).1 in
          let e : r ≡ y = only r (unfold Hub.get_transaction in h) in
          elim (get_transaction-Sweeps tries fresh start targets hash hn fits configured).1 [
            | inl (i, r', (a, b, c, d), f, n) ↦
                (i, (a, b, coe 0 1 (k. Decides (tries i) ((sym f ∙ e) k)) c, d))
            | inr (all, f, n) ↦ absurd (not_err (sym e ∙ f))
          ]
