-- ===== src/Nym/Dispatch.antt =====
-- What `NymHandle::submit` of zeronym/shim/src/nym.rs hands to the transport.
use zero_shim.Prelude.{
  ℕ, zero, suc, ◌≤◌, ◌<◌, ◌≡◌, refl, sym, ap, ◌∙◌, ◌≢◌, ◌↔◌, inl, inr, Option, none, some, List, [],
  ◌∷◌, map, arith, ok, err, length, All,
}
use zero_shim.Bytes.{Bytes}
use zero_shim.Wire.{
  IsNonce, WireError, tx_too_large, encode_submit, decode_submit, frame_bytes, max_nym_tx_bytes,
}
use zero_shim.Prelude.{Bool-cases, ltb}
use zero_shim.Nym.{NymError}
use zero_shim.Wire.SubmitFrame.{
  encode_submit-over, encode_submit-in, decode_submit-encode_submit, encode_submit_fits,
}
use zero_shim.Correlator.{ack, Request}
use zero_shim.Nym.{encode, transport_gone}
use zero_shim.Nym.{
  submit_reply_surbs, Offer, taken, closed, late, Fresh, submit_request, offered, submit_loop,
  dispatch_verdict, submit,
}

abbrev pub taker : Offer → ℕ → List ℕ → List ℕ
taker taken target rest = target ∷ rest
taker closed target rest = []
taker late target rest = []

-- The addresses from `target` on up to the first that does not take its request.
abbrev pub takers : (ℕ → Offer) → (target left : ℕ) → List ℕ
takers offers target zero = []
takers offers target (suc left) = taker (offers target) target (takers offers (suc target) left)

taker_something :
    (o : Offer) (t : ℕ) (rest : List ℕ) (x : ℕ) (xs : List ℕ) → taker o t rest ≡ x ∷ xs → o ≡ taken
taker_something taken t rest x xs h = refl
taker_something closed t rest x xs h = absurd (ground arith)
taker_something late t rest x xs h = absurd (ground arith)

taker_nothing : (o : Offer) (t : ℕ) (rest : List ℕ) → taker o t rest ≡ [] → o ≢ taken
taker_nothing taken t rest h = absurd (ground arith)
taker_nothing closed t rest h = λ e. ground arith
taker_nothing late t rest h = λ e. ground arith

module _ (offers : ℕ → Offer) (fresh : ℕ → Fresh) (tx : Bytes) where
  -- A request that carries the transaction under the nonce drawn for its address.
  pub record IsSubmission (r : Request) : Type 0 where
    pub nonce_fresh : r.nonce ≡ (fresh r.target).nonce
    pub waits : r.waiter ≡ ack (fresh r.target).receiver
    pub surbs : r.reply_surbs ≡ submit_reply_surbs
    pub one_size : length r.frame ≡ frame_bytes
    pub carries : decode_submit r.frame ≡ ok (r.nonce, tx)

  abbrev Loops : List ℕ → List Request × Option WireError → Type 0
  Loops targets done =
      (map (λ r. r.target) done.0 ≡ targets) × (done.1 ≡ none) × All IsSubmission done.0

  offered-Loops :
      (o : Offer) (r : Request) (targets : List ℕ) (rest : List Request × Option WireError)
      → IsSubmission r
      → Loops targets rest
      → Loops (taker o r.target targets) (offered o r rest)
  unfolding offered
  offered-Loops taken r targets rest h (e, n, a) = (ap (λ l. r.target ∷ l) e, n, (h, a))
  offered-Loops closed r targets rest h l = (refl, refl, tt)
  offered-Loops late r targets rest h l = (refl, refl, tt)

  submit_runs :
      (targets : ℕ)
      → 0 < targets
      → submit offers fresh targets tx ≡ dispatch_verdict (submit_loop offers fresh tx 0 targets)
  submit_runs targets h = unfold submit in ground arith

  module _ (hn : (i : ℕ) → IsNonce (fresh i).nonce) (fits : length tx ≤ max_nym_tx_bytes) where
    request-IsSubmission :
        (target : ℕ) (frame : Bytes)
        → encode_submit (fresh target).nonce tx ≡ ok frame
        → IsSubmission (submit_request (fresh target) frame target)
    unfolding submit_request
    request-IsSubmission target frame e =
        let (_, l, d) = encode_submit_fits (fresh target).nonce tx frame (hn target) e in
        record { nonce_fresh = refl; waits = refl; surbs = refl; one_size = l; carries = d }

    submit_loop-takers :
        (target left : ℕ)
        → Loops (takers offers target left) (submit_loop offers fresh tx target left)
    unfolding submit_loop submit_request
    submit_loop-takers target zero = (refl, refl, tt)
    submit_loop-takers target (suc left) =
        elim (decode_submit-encode_submit (fresh target).nonce tx (hn target)) [
          | inl (big, _) ↦ absurd (omega arith)
          | inr (frame, e, _, _) ↦
              rw (e, submit_loop)
                (offered-Loops (offers target) (submit_request (fresh target) frame target)
                  (takers offers (suc target) left) (submit_loop offers fresh tx (suc target) left)
                  (request-IsSubmission target frame e) (submit_loop-takers (suc target) left))
        ]

    verdict_of_first :
        (targets : ℕ) (done : List Request × Option WireError)
        → 0 < targets
        → Loops (takers offers 0 targets) done
        → ((dispatch_verdict done).0 ≡ done.0)
          × (((dispatch_verdict done).1 ≡ ok tt) ↔ (offers 0 ≡ taken))
          × (offers 0 ≢ taken → (dispatch_verdict done).1 ≡ err transport_gone)
    unfolding dispatch_verdict
    verdict_of_first zero done h l = absurd (omega arith)
    verdict_of_first (suc n) (handed, some e) h (l, c, a) = absurd (ground arith)
    verdict_of_first (suc n) ([], none) h (l, c, a) = (
      refl,
      (
        (λ x. absurd (ground arith)),
        (λ x. absurd (taker_nothing (offers 0) 0 (takers offers 1 n) (sym l) x)),
      ),
      λ x. refl,
    )
    verdict_of_first (suc n) (r ∷ rs, none) h (l, c, a) =
        let first =
          taker_something (offers 0) 0 (takers offers 1 n) r.target (map (λ q. q.target) rs)
            (sym l) in
        (refl, ((λ x. first), (λ x. ground arith)), λ x. absurd (x first))

    -- With an address configured, nonces of NONCE_BYTES bytes and a transaction in the budget, the
    -- requests handed over go to the addresses in order, one each, up to the first that the
    -- transport does not take in time: each carries the transaction under its own nonce in a frame
    -- of FRAME_BYTES bytes. The call succeeds exactly if the first address took its request, and
    -- otherwise the transport is gone; what happens after that changes nothing.
    pub submit_exact :
        (targets : ℕ)
        → 0 < targets
        → (map (λ r. r.target) (submit offers fresh targets tx).0 ≡ takers offers 0 targets)
          × All IsSubmission (submit offers fresh targets tx).0
          × (((submit offers fresh targets tx).1 ≡ ok tt) ↔ (offers 0 ≡ taken))
          × (offers 0 ≢ taken → (submit offers fresh targets tx).1 ≡ err transport_gone)
    submit_exact zero h = absurd (omega arith)
    submit_exact (suc n) h =
        let done = submit_loop offers fresh tx 0 (suc n) in
        let l = submit_loop-takers 0 (suc n) in
        let (same, v, w) = verdict_of_first (suc n) done h l in
        rw (submit_runs (suc n) h) (ap (map (λ r. r.target)) same ∙ l.0, rw same l.2, v, w)

  submit_over :
      (n : ℕ)
      → IsNonce (fresh 0).nonce
      → max_nym_tx_bytes < length tx
      → submit_loop offers fresh tx 0 (suc n)
        ≡ ([], some (tx_too_large (length tx) max_nym_tx_bytes))
  unfolding submit_loop
  submit_over n hn big = elim (decode_submit-encode_submit (fresh 0).nonce tx hn) [
    | inl (_, e) ↦ rw (e, submit_loop) refl
    | inr (frame, e, _, _) ↦ absurd (fits frame e)
  ]
    where
      fits : (frame : Bytes) → encode_submit (fresh 0).nonce tx ≢ ok frame
      fits frame e = absurd (not_over (encode_submit_fits (fresh 0).nonce tx frame hn e).0)
        where
          not_over : ¬ (length tx ≤ max_nym_tx_bytes)
          not_over l = omega arith

  -- A transaction over the budget, or an empty list of addresses, is refused with its own error,
  -- and nothing is handed over.
  pub submit_refuses :
      (targets : ℕ)
      → IsNonce (fresh 0).nonce
      → (submit offers fresh 0 tx ≡ ([], err transport_gone))
        × (max_nym_tx_bytes < length tx
            → 0 < targets
            → submit offers fresh targets tx
              ≡ ([], err (encode (tx_too_large (length tx) max_nym_tx_bytes))))
  submit_refuses zero hn = (unfold submit in refl, λ big h. absurd (omega arith))
  submit_refuses (suc n) hn = (
    unfold submit in refl,
    λ big h. submit_runs (suc n) h ∙ unfold dispatch_verdict in rw (submit_over n hn big) refl,
  )

module _ (offers : ℕ → Offer) (fresh : ℕ → Fresh) (tx : Bytes) where
  dispatch_verdict-handed :
      (done : List Request × Option WireError) → (dispatch_verdict done).0 ≡ done.0
  unfolding dispatch_verdict
  dispatch_verdict-handed (handed, some e) = refl
  dispatch_verdict-handed (handed, none) = refl

  offered-something :
      (o : Offer) (r : Request) (rest : List Request × Option WireError)
      → (0 < length (offered o r rest).0) ↔ (o ≡ taken)
  unfolding offered
  offered-something taken r rest = ((λ h. refl), (λ h. omega arith))
  offered-something closed r rest = ((λ h. absurd (omega arith)), (λ h. absurd (ground arith)))
  offered-something late r rest = ((λ h. absurd (omega arith)), (λ h. absurd (ground arith)))

  submit_loop-something :
      (n : ℕ)
      → (0 < length (submit_loop offers fresh tx 0 (suc n)).0)
        ↔ ((length tx ≤ max_nym_tx_bytes) × (offers 0 ≡ taken))
  unfolding submit_loop
  submit_loop-something n = elim (Bool-cases (ltb max_nym_tx_bytes (length tx))) [
    | inl big ↦
        let e = encode_submit-over (fresh 0).nonce tx (ground (arith, big)) in
        rw (e, submit_loop) ((λ h. absurd (omega arith)), (λ h. absurd (ground (arith, big))))
    | inr fits ↦
        let l : length tx ≤ max_nym_tx_bytes = ground (arith, fits) in
        let (frame, e) = encode_submit-in (fresh 0).nonce tx l in
        let x =
          offered-something (offers 0) (submit_request (fresh 0) frame 0)
            (submit_loop offers fresh tx 1 n) in
        rw (e, submit_loop) ((λ h. (l, x.0 h)), (λ h. x.1 h.1))
  ]

  -- Something is handed over exactly for a transaction in the budget, with an address configured,
  -- of which the first takes its request.
  pub submit_hands_exact :
      (targets : ℕ)
      → (0 < length (submit offers fresh targets tx).0)
        ↔ ((length tx ≤ max_nym_tx_bytes) × (0 < targets) × (offers 0 ≡ taken))
  submit_hands_exact zero =
      unfold submit in ((λ h. absurd (omega arith)), (λ h. absurd (omega (arith, h.1))))
  submit_hands_exact (suc n) =
      let x = submit_loop-something n in
      let e = dispatch_verdict-handed (submit_loop offers fresh tx 0 (suc n)) in
      rw (submit_runs offers fresh tx (suc n) (omega arith), e)
        ((λ h. ((x.0 h).0, omega arith, (x.0 h).1)), (λ h. x.1 (h.0, h.2)))

  nothing-Fails :
      (done : List Request × Option WireError)
      → length done.0 ≡ 0
      → (e : NymError) × ((dispatch_verdict done).1 ≡ err e)
  unfolding dispatch_verdict
  nothing-Fails (handed, some e) h = (encode e, refl)
  nothing-Fails (handed, none) h = (transport_gone, rw h refl)

  pub submit_nothing :
      (targets : ℕ)
      → length (submit offers fresh targets tx).0 ≡ 0
      → (e : NymError) × ((submit offers fresh targets tx).1 ≡ err e)
  submit_nothing zero h = (transport_gone, unfold submit in refl)
  submit_nothing (suc n) h =
      let r = submit_runs offers fresh tx (suc n) (omega arith) in
      let done = submit_loop offers fresh tx 0 (suc n) in
      let (e, x) =
        nothing-Fails done
          (ap length (sym (dispatch_verdict-handed done)) ∙ ap (λ y. length y.0) (sym r) ∙ h) in
      (e, ap (λ y. y.1) r ∙ x)
