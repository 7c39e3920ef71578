-- ===== src/Hub/HttpClient.antt =====
-- What the clearnet client posts and which replies it believes (zeronym/shim/src/hub.rs).
use zero_shim.Prelude.{
  ℕ, ◌<◌, ◌≡◌, refl, ◌≢◌, ◌↔◌, ◌⊎◌, inl, inr, Bool, true, Option, none, some, [], ◌∷◌, arith,
  Result, ok, err, length,
}
use zero_shim.Bytes.{Bytes}
use zero_shim.Text.{Text, text}
use zero_shim.Text.Search.{text_eq_iff}
use zero_shim.Wire.{Nonce, IsNonce, decode_submit, encode_submit, frame_bytes, max_nym_tx_bytes}
use zero_shim.Wire.SubmitFrame.{decode_submit-encode_submit}
use zero_shim.Http.{Request}
use zero_shim.Hub.{
  accepted, too_large, found, not_found, HubResponse, HubReply, HubWorld, unwrap_or, verdict,
  read_verdict, submit_reply, post, http_submit, octet_stream, tx_height, found_at, lookup_reply,
  http_get_transaction,
}

module _ (w : HubWorld) (authority : Text) where
  -- With a nonce of NONCE_BYTES bytes, a transaction over the budget is refused with the budget and
  -- nothing is sent; any other is sent in exactly one POST to `/` whose body is a frame of
  -- FRAME_BYTES bytes, whatever the transaction's length, that decodes to it.
  pub http_submit_posts :
      (nonce : Nonce) (tx : Bytes)
      → IsNonce nonce
      → ((max_nym_tx_bytes < length tx)
          × (http_submit w authority nonce tx ≡ ([], ok (too_large max_nym_tx_bytes))))
        ⊎ ((req : Request) × ((http_submit w authority nonce tx).0 ≡ req ∷ [])
            × (req.method ≡ text "POST")
            × (req.path ≡ text "/")
            × (length req.body ≡ frame_bytes)
            × (decode_submit req.body ≡ ok (nonce, tx)))
  http_submit_posts nonce tx hn = elim (decode_submit-encode_submit nonce tx hn) [
    | inl (big, e) ↦ inl (big, unfold http_submit in rw e)
    | inr (frame, e, hl, hd) ↦ inr (
      post authority (text "/") frame,
      unfold http_submit in rw e,
      unfold http_submit in refl,
      unfold http_submit in refl,
      unfold http_submit in hl,
      unfold http_submit in hd,
    )
  ]

  verdict_accepted :
      (parsed : HubResponse) (txid : Text)
      → (verdict parsed ≡ accepted txid)
        ↔ ((parsed.disposition ≡ text "accepted") × (txid ≡ unwrap_or parsed.txid []))
  verdict_accepted parsed txid =
      let e = text_eq_iff parsed.disposition (text "accepted") in
      ((λ h. unfold verdict in ground (arith, e)), (λ h. unfold verdict in ground (arith, e)))

  -- What an answer must be for an acceptance.
  abbrev pub IsAcceptance : Result Text HubReply → Text → Type 0
  IsAcceptance r txid =
      (reply : HubReply) × (parsed : HubResponse) × (r ≡ ok reply)
      × (reply.status ≢ 413)
      × (w.from_slice reply.body ≡ ok parsed)
      × (parsed.disposition ≡ text "accepted")
      × (txid ≡ unwrap_or parsed.txid [])

  accepted_answer :
      (reply : HubReply) (p : Result Text HubResponse) (txid : Text)
      → w.from_slice reply.body ≡ p
      → submit_reply w (ok reply) ≡ ok (accepted txid)
      → IsAcceptance (ok reply) txid
  accepted_answer reply (err e) txid hp h =
      absurd (unfold submit_reply read_verdict in ground arith)
  accepted_answer reply (ok parsed) txid hp h =
      let (d, t) =
        (verdict_accepted parsed txid).0 (unfold submit_reply read_verdict in ground arith) in
      (
        reply,
        parsed,
        refl,
        (λ c. absurd (unfold submit_reply read_verdict in ground arith)),
        hp,
        d,
        t,
      )

  submit_reply_accepted :
      (r : Result Text HubReply) (txid : Text)
      → (submit_reply w r ≡ ok (accepted txid)) ↔ IsAcceptance r txid
  submit_reply_accepted r txid = (there r, back)
    where
      there :
          (q : Result Text HubReply) → submit_reply w q ≡ ok (accepted txid) → IsAcceptance q txid
      there (err e) h = absurd (unfold submit_reply in ground arith)
      there (ok reply) h = accepted_answer reply (w.from_slice reply.body) txid refl h

      back : IsAcceptance r txid → submit_reply w r ≡ ok (accepted txid)
      back (reply, parsed, hr, hs, hp, d, t) =
          let v = (verdict_accepted parsed txid).1 (d, t) in
          rw hr (unfold submit_reply read_verdict in ground arith)

  -- Where a transaction fits, its submission is an acceptance exactly when the hub answered the one
  -- POST, not with status 413, with a verdict whose disposition is `accepted`; the transaction id
  -- is the verdict's, or empty if it has none.
  pub http_submit_accepted :
      (nonce : Nonce) (tx frame : Bytes) (txid : Text)
      → encode_submit nonce tx ≡ ok frame
      → ((http_submit w authority nonce tx).1 ≡ ok (accepted txid))
        ↔ IsAcceptance (w.exchange (post authority (text "/") frame)) txid
  http_submit_accepted nonce tx frame txid e =
      unfold http_submit in
      rw e (submit_reply_accepted (w.exchange (post authority (text "/") frame)) txid)

  -- A lookup is answered with a transaction exactly by a 200 whose content type is an octet stream
  -- and whose height header parses, and the bytes and the height are those of the reply.
  abbrev pub IsTransactionReply : Result Text HubReply → Bytes → ℕ → Type 0
  IsTransactionReply r bytes height =
      (reply : HubReply) × (r ≡ ok reply)
      × (reply.status ≡ 200)
      × (octet_stream w reply.headers ≡ true)
      × (tx_height w reply.headers ≡ some height)
      × (reply.body ≡ bytes)

  found_at_exact :
      (reply : HubReply) (octets : Bool) (o : Option ℕ) (bytes : Bytes) (height : ℕ)
      → (found_at reply octets o ≡ ok (found bytes height))
        ↔ ((octets ≡ true) × (o ≡ some height) × (reply.body ≡ bytes))
  found_at_exact reply octets none bytes height =
      unfold found_at in ((λ h. absurd (ground arith)), (λ h. absurd (ground arith)))
  found_at_exact reply octets (some k) bytes height =
      unfold found_at in ((λ h. ground arith), (λ h. ground arith))

  lookup_reply_found :
      (r : Result Text HubReply) (bytes : Bytes) (height : ℕ)
      → (lookup_reply w r ≡ ok (found bytes height)) ↔ IsTransactionReply r bytes height
  lookup_reply_found r bytes height = (there r, back)
    where
      there :
          (q : Result Text HubReply)
          → lookup_reply w q ≡ ok (found bytes height)
          → IsTransactionReply q bytes height
      there (err e) h = absurd (unfold lookup_reply in ground arith)
      there (ok reply) h =
          let s : reply.status ≡ 200 = unfold lookup_reply in ground arith in
          let (a, b, c) =
            (found_at_exact reply (octet_stream w reply.headers) (tx_height w reply.headers) bytes
                height).0
              (unfold lookup_reply in ground arith) in
          (reply, refl, s, a, b, c)

      back : IsTransactionReply r bytes height → lookup_reply w r ≡ ok (found bytes height)
      back (reply, hr, s, a, b, c) =
          let f =
            (found_at_exact reply (octet_stream w reply.headers) (tx_height w reply.headers) bytes
                height).1
              (a, b, c) in
          rw hr (unfold lookup_reply in ground arith)

  -- A lookup posts the queried hash itself to `/transaction`, once. It returns a transaction
  -- exactly when the answer is a 200 that declares an octet stream and a height that parses, with
  -- that body and that height; and not-found exactly when the answer has status 404.
  pub http_get_transaction_exact :
      (hash : Bytes)
      → ((http_get_transaction w authority hash).0 ≡ post authority (text "/transaction") hash ∷ [])
        × ((bytes : Bytes) (height : ℕ)
            → ((http_get_transaction w authority hash).1 ≡ ok (found bytes height))
              ↔ IsTransactionReply
                  (w.exchange (post authority (text "/transaction") hash))
                  bytes
                  height)
        × (((http_get_transaction w authority hash).1 ≡ ok not_found) ↔ (
            (reply : HubReply) × (w.exchange (post authority (text "/transaction") hash) ≡ ok reply)
            × (reply.status ≡ 404)))
  http_get_transaction_exact hash =
      unfold http_get_transaction in
      (
        refl,
        (λ bytes height.
            lookup_reply_found (w.exchange (post authority (text "/transaction") hash)) bytes
              height),
        lookup_reply_missing (w.exchange (post authority (text "/transaction") hash)),
      )
    where
      lookup_reply_missing :
          (q : Result Text HubReply)
          → (lookup_reply w q ≡ ok not_found)
            ↔ ((reply : HubReply) × (q ≡ ok reply) × (reply.status ≡ 404))
      lookup_reply_missing (err e) =
          ((λ h. absurd (unfold lookup_reply in ground arith)), (λ h. absurd (ground arith)))
      lookup_reply_missing (ok reply) = (
        (λ h. (reply, refl, unfold lookup_reply found_at in ground arith)),
        (λ h. unfold lookup_reply found_at in ground arith),
      )
