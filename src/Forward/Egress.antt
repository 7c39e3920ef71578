-- ===== src/Forward/Egress.antt =====
-- What the operator's indexer is sent, and what comes back.
use zero_shim.Prelude.{
  ◌≡◌, refl, ◌≢◌, ◌⊎◌, inl, inr, ◌&&◌, ◌||◌, none, some, List, [], ◌∷◌, arith, if◌then◌else◌,
  Result, ok, err, Result-cases,
}
use zero_shim.Text.{Text, text, text_eq}
use zero_shim.Http.{Request, Response, get, remove, contains_key, normalize_response_encoding}
use zero_shim.Http.HeaderMap.{
  get-remove, any_eq, client_address_names, get-strip_client_address_headers,
  get-normalize_response_encoding,
}
use zero_shim.Forward.{
  Contact, dial, to_operator, Operator, retarget, relayed, forward, pass_through,
}

-- `sent` is `req` for the upstream `authority`: method, path, body and trailers are the client's,
-- `host` and the client-address headers are gone, and every other header is as it was.
pub record IsRelayOf (authority : Text) (req sent : Request) : Type 0 where
  pub same_method : sent.method ≡ req.method
  pub same_path : req.path ≢ [] → sent.path ≡ req.path
  pub same_body : sent.body ≡ req.body
  pub same_trailers : sent.trailers ≡ req.trailers
  pub retargeted : sent.authority ≡ some authority
  pub headers_kept :
      (k : Text)
      → get sent.headers k ≡ (
          if text_eq (text "host") k || any_eq client_address_names k
          then none
          else get req.headers k)

retarget-IsRelayOf :
    (authority : Text) (req : Request) → IsRelayOf authority req (retarget authority req)
unfolding retarget
retarget-IsRelayOf authority req = record {
  same_method = refl;
  same_path = λ h. path_kept req.path h;
  same_body = refl;
  same_trailers = refl;
  retargeted = refl;
  headers_kept = λ k. ground (
    arith,
    get-strip_client_address_headers (remove req.headers (text "host")) k,
    get-remove req.headers (text "host") k,
  );
}
  where
    path_kept : (p : Text) → p ≢ [] → elim p as (λ _. Text) [ [] ↦ text "/" | c ∷ s ↦ c ∷ s ] ≡ p
    path_kept [] h = absurd (h refl)
    path_kept (c ∷ s) h = refl

-- `got` is the operator's response with its advertised request encodings rewritten.
pub record IsRelayedResponse (resp got : Response) : Type 0 where
  pub same_status : got.status ≡ resp.status
  pub same_body : got.body ≡ resp.body
  pub same_trailers : got.trailers ≡ resp.trailers
  pub headers_kept :
      (k : Text)
      → get got.headers k ≡ (
          if text_eq (text "grpc-accept-encoding") k && contains_key resp.headers k
          then some (text "identity")
          else get resp.headers k)

-- The outcome of forwarding a request: the failure of the dial, or that of an exchange of its
-- relay.
abbrev pub IsForwarded : Operator → Request → List Contact × Result Text Response → Type 0
IsForwarded op req done =
    ((e : Text) × (op.get ≡ err e) × (done.0 ≡ dial ∷ []) × (done.1 ≡ err e))
    ⊎ ((authority : Text) × (sent : Request) × (op.get ≡ ok authority)
        × IsRelayOf authority req sent
        × (done.0 ≡ dial ∷ to_operator sent ∷ [])
        × (((e : Text) × (op.exchange sent ≡ err e) × (done.1 ≡ err e))
            ⊎ ((resp : Response) × (got : Response) × (op.exchange sent ≡ ok resp)
                × (done.1 ≡ ok got)
                × IsRelayedResponse resp got)))

relayed-cases :
    (r : Result Text Response)
    → ((e : Text) × (r ≡ err e) × (relayed r ≡ err e))
      ⊎ ((resp : Response) × (got : Response) × (r ≡ ok resp)
          × (relayed r ≡ ok got)
          × IsRelayedResponse resp got)
unfolding relayed
relayed-cases (err e) = inl (e, refl, refl)
relayed-cases (ok resp) = inr (
  resp,
  record resp { headers = normalize_response_encoding resp.headers },
  refl,
  refl,
  record {
    same_status = refl;
    same_body = refl;
    same_trailers = refl;
    headers_kept = get-normalize_response_encoding resp.headers;
  },
)

-- A forwarded request dials once. If that fails, the failure is the result and nothing was sent.
-- Otherwise exactly one request was sent: the client's, for the dialled upstream, without its
-- `host` and the headers that name the client's address. A failed exchange is the result, and so is
-- a response, which is the operator's but for the encodings that it advertises.
pub pass_through_forwards :
    (op : Operator) (req : Request) → IsForwarded op req (pass_through op req)
pass_through_forwards op req = elim (Result-cases op.get) [
  | inl (authority, g) ↦ inr (
    authority,
    retarget authority req,
    g,
    retarget-IsRelayOf authority req,
    unfold pass_through forward in rw g refl,
    unfold pass_through forward in rw g (relayed-cases (op.exchange (retarget authority req))),
  )
  | inr (e, g) ↦ inl (e, g, unfold pass_through in rw g refl, unfold pass_through in rw g refl)
]
