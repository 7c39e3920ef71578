-- ===== src/Intercept/Get.antt =====
-- What `get_transaction` of zeronym/shim/src/intercept.rs answers with a hub configured.
use zero_shim.Prelude.{
  ℕ, ◌≡◌, refl, ◌⊎◌, inl, inr, true, Option, some, [], ◌∷◌, ◌++◌, arith, ◌==◌, if◌then◌else◌,
  Bool-cases, Result, ok, err, length,
}
use zero_shim.Bytes.{Bytes}
use zero_shim.Text.{Text, text, decimal}
use zero_shim.External.{Zebra, Proto, TxFilter}
use zero_shim.Http.{
  Headers, Request, Response, HeaderValue, grpc_error, grpc_cancelled, grpc_invalid_argument,
  grpc_deadline_exceeded, grpc_not_found, grpc_unavailable,
}
use zero_shim.Prelude.{map}
use mathlib.Core.List.{reverse}
use zero_shim.Text.{to_ascii_lower, eq_ignore_ascii_case}
use zero_shim.Prelude.{◌∙◌, ap, sym}
use zero_shim.Text.Search.{text_eq_iff}
use zero_shim.Intercept.{hex_all, hex_prefix}
use zero_shim.Intercept.Hex.{hex_prefix-length}
use zero_shim.Hub
use zero_shim.Hub.{Submit, Lookup, HubTransport}
use zero_shim.Forward.{hub_query, Operator, Outcome}
use zero_shim.Intercept.{
  BodyRead, collected, length_limit, broken, timed_out, decode_tx_filter, lookup_is_for_query,
  refuse, lookup_answer, answer_filter, get_transaction, not_found_message,
  get_transaction_response,
}

module _ (z : Zebra) (p : Proto) (from_str : HeaderValue) where
  -- The bytes parse as a transaction whose id, read without regard to case, is the hex of the hash
  -- or of the hash in the other byte order.
  abbrev pub IsAskedFor : Bytes → Bytes → Type 0
  IsAskedFor bytes hash =
      (tx : z.Transaction) × (position : ℕ) × (z.zcash_deserialize bytes ≡ ok (tx, position))
      × ((map to_ascii_lower (z.txid tx) ≡ map to_ascii_lower (hex_all hash))
          ⊎ (map to_ascii_lower (z.txid tx) ≡ map to_ascii_lower (hex_all (reverse hash))))

  same_text :
      (id hash : Bytes)
      → eq_ignore_ascii_case id (hex_prefix hash (length hash)) ≡ true
      → map to_ascii_lower id ≡ map to_ascii_lower (hex_all hash)
  same_text id hash h = (text_eq_iff _ _).0 h ∙ ap (map to_ascii_lower) (hex_prefix-length hash)

  same_text-back :
      (id hash : Bytes)
      → map to_ascii_lower id ≡ map to_ascii_lower (hex_all hash)
      → eq_ignore_ascii_case id (hex_prefix hash (length hash)) ≡ true
  same_text-back id hash h =
      (text_eq_iff _ _).1 (h ∙ ap (map to_ascii_lower) (sym (hex_prefix-length hash)))

  checked-IsAskedFor :
      (bytes hash : Bytes) → lookup_is_for_query z bytes hash ≡ true → IsAskedFor bytes hash
  checked-IsAskedFor bytes hash = by (z.zcash_deserialize bytes) refl
    where
      by :
          (r : Result Text (z.Transaction × ℕ))
          → z.zcash_deserialize bytes ≡ r
          → lookup_is_for_query z bytes hash ≡ true
          → IsAskedFor bytes hash
      by (err e) d h = absurd (unfold lookup_is_for_query in ground arith)
      by (ok (tx, position)) d h = (
        tx,
        position,
        d,
        let direct = same_text (z.txid tx) hash in
            let back = same_text (z.txid tx) (reverse hash) in
            elim (Bool-cases (eq_ignore_ascii_case (z.txid tx) (hex_prefix hash (length hash)))) [
              | inl x ↦ inl (direct x)
              | inr x ↦ inr (back (unfold lookup_is_for_query in ground (arith, x)))
            ],
      )

  IsAskedFor-checked :
      (bytes hash : Bytes) → IsAskedFor bytes hash → lookup_is_for_query z bytes hash ≡ true
  IsAskedFor-checked bytes hash (tx, position, d, alt) =
      let direct = same_text-back (z.txid tx) hash in
      let back = same_text-back (z.txid tx) (reverse hash) in
      elim alt [
        | inl e ↦ let x = direct e in unfold lookup_is_for_query in ground arith
        | inr e ↦ let x = back e in unfold lookup_is_for_query in ground arith
      ]

  -- The reply carries a transaction that the hub returned for this hash and that is the one asked
  -- for.
  abbrev pub IsServed : HubTransport → Bytes → Response → Type 0
  IsServed hub hash resp =
      (bytes : Bytes) × (height : ℕ) × (Hub.get_transaction hub hash ≡ ok (Hub.found bytes height))
      × IsAskedFor bytes hash
      × (resp ≡ get_transaction_response p bytes height)

  abbrev pub IsError : HubTransport → Bytes → Response → Type 0
  IsError hub hash resp =
      ((code : ℕ) × (message : Text) × (resp ≡ grpc_error from_str code message))
      × ((bytes : Bytes) (height : ℕ)
          → Hub.get_transaction hub hash ≡ ok (Hub.found bytes height)
          → ¬ IsAskedFor bytes hash)

  -- The ends of a lookup: an error with nobody contacted, or one lookup by the transport, for the
  -- 32-byte hash of the filter, whose answer is served or turned into an error.
  pub data LookupEnds (hub : HubTransport) (headers : Headers) (read : BodyRead) (done : Outcome)
      : Type 0 where
    unanswered :
        (code : ℕ) (message : Text)
        → done ≡ ([], ok (grpc_error from_str code message))
        → LookupEnds hub headers read done
    answered :
        (frame : Bytes) (trailers : Option Headers) (filter : TxFilter) (resp : Response)
        → read ≡ collected frame trailers
        → decode_tx_filter p headers frame ≡ ok filter
        → length filter.hash ≡ 32
        → done ≡ (hub_query filter.hash ∷ [], ok resp)
        → IsServed hub filter.hash resp ⊎ IsError hub filter.hash resp
        → LookupEnds hub headers read done

  lookup_answer-cases :
      (hub : HubTransport) (hash : Bytes) (r : Result Text Lookup)
      → Hub.get_transaction hub hash ≡ r
      → IsServed hub hash (lookup_answer z p from_str hash r)
        ⊎ IsError hub hash (lookup_answer z p from_str hash r)
  lookup_answer-cases hub hash (ok (Hub.found bytes height)) e =
      elim (Bool-cases (lookup_is_for_query z bytes hash)) [
        | inl same ↦ inl (
          bytes,
          height,
          e,
          checked-IsAskedFor bytes hash same,
          unfold lookup_answer in rw same refl,
        )
        | inr other ↦ inr (
          (grpc_not_found, not_found_message hash, unfold lookup_answer in rw other refl),
          λ b k f a.
              let q : b ≡ bytes = ground arith in
              absurd (
                ground
                  (arith, IsAskedFor-checked bytes hash (coe 0 1 (i. IsAskedFor (q i) hash) a))),
        )
      ]
  lookup_answer-cases hub hash (ok Hub.not_found) e = inr (
    (grpc_not_found, not_found_message hash, unfold lookup_answer in refl),
    λ b k f a. ground arith,
  )
  lookup_answer-cases hub hash (err x) e = inr (
    (grpc_unavailable, text "zero-indexer-shim: hub unreachable", unfold lookup_answer in refl),
    λ b k f a. ground arith,
  )

  module _ (hub : HubTransport) (headers : Headers) (frame : Bytes)
      (trailers : Option Headers) where
    filter_ends :
        (r : Result Text TxFilter)
        → decode_tx_filter p headers frame ≡ r
        → LookupEnds hub headers (collected frame trailers) (answer_filter z p from_str hub r)
    filter_ends (err reason) e =
        unanswered grpc_invalid_argument (text "zero-indexer-shim: " ++ reason)
          (unfold answer_filter refuse in refl)
    filter_ends (ok filter) e = elim (Bool-cases (length filter.hash == 0)) [
      | inl empty ↦
          unanswered grpc_invalid_argument
            (text "zero-indexer-shim: "
              ++ (if filter.block
                  then text "GetTransaction: specify a txid, not a blockhash+num"
                  else text "GetTransaction: specify a txid"))
            (unfold answer_filter refuse in rw empty refl)
      | inr full ↦ elim (Bool-cases (length filter.hash == 32)) [
        | inl right ↦
            answered frame trailers filter
              (lookup_answer z p from_str filter.hash (Hub.get_transaction hub filter.hash)) refl e
              (ground arith) (unfold answer_filter in rw (full, right) refl)
              (lookup_answer-cases hub filter.hash (Hub.get_transaction hub filter.hash) refl)
        | inr wrong ↦
            unanswered grpc_invalid_argument
              (text "zero-indexer-shim: "
                ++ (text "GetTransaction: transaction ID has invalid length: "
                    ++ decimal (length filter.hash)))
              (unfold answer_filter refuse in rw (full, wrong) refl)
      ]
    ]

  -- With a hub configured no lookup contacts the operator: it ends in a gRPC error with nobody
  -- contacted, or is one lookup by the hub's transport, of a 32-byte hash, and then serves a
  -- transaction exactly if that lookup returned it and its bytes parse to a transaction whose id,
  -- in any case, is the hex of the hash in the one byte order or the other; else it ends in a gRPC
  -- error.
  pub get_transaction-LookupEnds :
      (hub : HubTransport) (op : Operator) (req : Request) (read : BodyRead)
      → LookupEnds hub req.headers read (get_transaction z p from_str op (some hub) req read)
  get_transaction-LookupEnds hub op req (collected frame trailers) =
      unfold get_transaction in
      filter_ends hub req.headers frame trailers (decode_tx_filter p req.headers frame) refl
  get_transaction-LookupEnds hub op req length_limit =
      unanswered grpc_cancelled
        (text "zero-indexer-shim: " ++ text "GetTransaction body could not be read")
        (unfold get_transaction in refl)
  get_transaction-LookupEnds hub op req broken =
      unanswered grpc_cancelled
        (text "zero-indexer-shim: " ++ text "GetTransaction body could not be read")
        (unfold get_transaction in refl)
  get_transaction-LookupEnds hub op req timed_out =
      unanswered grpc_deadline_exceeded
        (text "zero-indexer-shim: " ++ text "GetTransaction body read timed out")
        (unfold get_transaction in refl)
