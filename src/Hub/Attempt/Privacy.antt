-- ===== src/Hub/Attempt/Privacy.antt =====
-- What an attempt over TLS shows to the network (`HubClient` of zeronym/shim/src/hub.rs).
use zero_shim.Prelude.{
  ℕ, ◌≤◌, ◌≡◌, refl, sym, ap, ◌∙◌, ◌↔◌, true, Option, none, some, List, [], ◌∷◌, ◌++◌, append_assoc,
  arith, Result, ok, err, length, take, drop, All, take-append-drop, All-take,
}
use zero_shim.Bytes.{Bytes}
use zero_shim.Text.{Text}
use zero_shim.Tls.{BackendTls}
use zero_shim.Http.{Request}
use zero_shim.Hub.{HubReply}
use zero_shim.Hub.Attempt.{
  max_hub_response_bytes, HubClient, Hop, dialled, authenticated, wrote, Arrival, HubNetwork,
  Outcome, ◌>>◌, whole, limited, arrived, round_trip, over, attempt, bounded, exchange,
}

abbrev pub IsUnwritten : Hop → Type 0
IsUnwritten (dialled addr) = Unit {0}
IsUnwritten (authenticated alpn name) = Unit {0}
IsUnwritten (wrote encrypted req) = ⊥

-- The reply is what arrived, whole and in the limit.
abbrev pub IsWhole : Result Text Arrival → HubReply → Type 0
IsWhole sent reply =
    (a : Arrival) × (body : Bytes) × (sent ≡ ok a)
    × (a.body ≡ some body)
    × (reply ≡ whole a body)
    × (length body ≤ max_hub_response_bytes)

limited-IsWhole :
    (a : Arrival) (o : Option Bytes) (reply : HubReply)
    → a.body ≡ o
    → limited a o ≡ ok reply
    → IsWhole (ok a) reply
unfolding limited
limited-IsWhole a none reply q h = absurd (ground arith)
limited-IsWhole a (some body) reply q h = (a, body, refl, q, ground arith, ground arith)

limited-whole :
    (a : Arrival) (body : Bytes)
    → a.body ≡ some body
    → length body ≤ max_hub_response_bytes
    → limited a a.body ≡ ok (whole a body)
unfolding limited
limited-whole a body q l = rw q (ground arith)

arrived-IsWhole :
    (sent : Result Text Arrival) (reply : HubReply) → (arrived sent ≡ ok reply) ↔ IsWhole sent reply
unfolding arrived
arrived-IsWhole (err e) reply =
    ((λ h. absurd (ground arith)), (λ (a, body, h, q, r, l). absurd (ground arith)))
arrived-IsWhole (ok a) reply = (
  limited-IsWhole a a.body reply refl,
  λ (b, body, h, q, r, l).
      let e : a ≡ b = ground arith in
      ap (λ x. limited x x.body) e ∙ limited-whole b body q l ∙ ap (λ x. ok x) (sym r),
)

module _ (c : HubClient) (tls : BackendTls) (req : Request) where
  -- The steps of an attempt over TLS, by their outcomes.
  abbrev steps :
      Result Text (Unit {0})
      → Result Text (Unit {0})
      → Result Text (Unit {0})
      → Result Text (Unit {0})
      → Result Text (Unit {0})
      → Result Text HubReply
      → Outcome
  steps tcp nodelay built secure hand reply = do
    (dialled c.addr ∷ [], tcp)
    ([], nodelay)
    ([], built)
    (authenticated tls.alpn_protocols tls.server_name ∷ [], secure)
    ([], hand)
    (wrote true req ∷ [], reply)

  -- A beginning of: dial the hub, authenticate it, and write the request on the TLS stream.
  abbrev pub IsBeginning : List Hop → Type 0
  IsBeginning hops =
      (rest : List Hop) × (hops ++ rest
        ≡ dialled c.addr ∷ authenticated tls.alpn_protocols tls.server_name ∷ wrote true req ∷ [])

  steps_exact :
      (tcp nodelay built secure hand : Result Text (Unit {0})) (sent : Result Text HubReply)
      (reply : HubReply)
      → (((steps tcp nodelay built secure hand sent).1 ≡ ok reply) ↔ (
          (tcp ≡ ok tt)
          × (nodelay ≡ ok tt)
          × (built ≡ ok tt)
          × (secure ≡ ok tt)
          × (hand ≡ ok tt)
          × (sent ≡ ok reply)))
        × IsBeginning (steps tcp nodelay built secure hand sent).0
        × ((e : Text)
            → secure ≡ err e
            → All IsUnwritten (steps tcp nodelay built secure hand sent).0)
  steps_exact (err x) n b s h p a =
      (((λ q. ground arith), (λ q. ground arith)), (_, refl), (λ e q. (tt, tt)))
  steps_exact (ok d) (err x) b s h p a =
      (((λ q. ground arith), (λ q. ground arith)), (_, refl), (λ e q. (tt, tt)))
  steps_exact (ok d) (ok n) (err x) s h p a =
      (((λ q. ground arith), (λ q. ground arith)), (_, refl), (λ e q. (tt, tt)))
  steps_exact (ok d) (ok n) (ok b) (err x) h p a =
      (((λ q. ground arith), (λ q. ground arith)), (_, refl), (λ e q. (tt, (tt, tt))))
  steps_exact (ok d) (ok n) (ok b) (ok s) (err x) p a =
      (((λ q. ground arith), (λ q. ground arith)), (_, refl), (λ e q. absurd (ground arith)))
  steps_exact (ok d) (ok n) (ok b) (ok s) (ok h) p a =
      (((λ q. ground arith), (λ q. ground arith)), ([], refl), (λ e q. absurd (ground arith)))

  bounded-IsBeginning :
      (late : Text) (d : Option ℕ) (o : Outcome)
      → IsBeginning o.0
      → IsBeginning (bounded late d o).0
  unfolding bounded
  bounded-IsBeginning late none o h = h
  bounded-IsBeginning late (some k) o (rest, e) = (
    drop k o.0 ++ rest,
    sym (append_assoc (take k o.0) (drop k o.0) rest)
        ∙ ap (λ l. l ++ rest) (take-append-drop k o.0)
        ∙ e,
  )

bounded-IsUnwritten :
    (late : Text) (d : Option ℕ) (o : Outcome)
    → All IsUnwritten o.0
    → All IsUnwritten (bounded late d o).0
unfolding bounded
bounded-IsUnwritten late none o h = h
bounded-IsUnwritten late (some k) o h = All-take IsUnwritten k o.0 h

bounded_result :
    (late : Text) (d : Option ℕ) (o : Outcome) (reply : HubReply)
    → ((bounded late d o).1 ≡ ok reply) ↔ ((d ≡ none) × (o.1 ≡ ok reply))
unfolding bounded
bounded_result late none o reply = ((λ h. (refl, h)), (λ (e, h). h))
bounded_result late (some k) o reply =
    ((λ h. absurd (ground arith)), (λ (e, h). absurd (ground arith)))

attempt-steps :
    (w : HubNetwork) (c : HubClient) (req : Request) (tls : BackendTls)
    → c.tls ≡ some tls
    → attempt w c req
      ≡ steps c tls req
          (w.tcp c.addr)
          w.set_nodelay
          (w.builder c.authority)
          (w.tls_connect tls)
          (w.handshake true)
          (arrived (w.send_request true req))
unfolding attempt over round_trip
attempt-steps w c req tls e =
    ap
      (λ o. do
        (dialled c.addr ∷ [], w.tcp c.addr)
        ([], w.set_nodelay)
        ([], w.builder c.authority)
        over w o req)
      e

-- Where the hub is to be reached over TLS: an attempt ends in a reply exactly if its deadline does
-- not pass, every step succeeds, and the reply is what the hub sent on the TLS stream, whole and of
-- at most MAX_HUB_RESPONSE_BYTES bytes. However it ends, deadline included, what it has done on the
-- network is a beginning of: dial the hub, authenticate the configured name, and write the request
-- on the TLS stream. If the TLS handshake fails, nothing is written.
pub exchange_private :
    (w : HubNetwork) (c : HubClient) (late : Text) (req : Request) (tls : BackendTls)
    (reply : HubReply)
    → c.tls ≡ some tls
    → (((exchange w c late req).1 ≡ ok reply) ↔ (
        (w.deadline ≡ none)
        × (w.tcp c.addr ≡ ok tt)
        × (w.set_nodelay ≡ ok tt)
        × (w.builder c.authority ≡ ok tt)
        × (w.tls_connect tls ≡ ok tt)
        × (w.handshake true ≡ ok tt)
        × IsWhole (w.send_request true req) reply))
      × IsBeginning c tls req (exchange w c late req).0
      × ((e : Text) → w.tls_connect tls ≡ err e → All IsUnwritten (exchange w c late req).0)
unfolding exchange
exchange_private w c late req tls reply e =
    let (r, b, u) =
      steps_exact c tls req (w.tcp c.addr) w.set_nodelay (w.builder c.authority) (w.tls_connect tls)
        (w.handshake true) (arrived (w.send_request true req)) reply in
    let d = bounded_result late w.deadline (attempt w c req) reply in
    let a = arrived-IsWhole (w.send_request true req) reply in
    let q = attempt-steps w c req tls e in
    (
      (
        (λ h.
            let (x, y) = d.0 h in
            let (t, n, m, s, k, z) = r.0 (ap (λ o. o.1) (sym q) ∙ y) in (x, t, n, m, s, k, a.0 z)),
        (λ (x, t, n, m, s, k, z). d.1 (x, ap (λ o. o.1) q ∙ r.1 (t, n, m, s, k, a.1 z))),
      ),
      bounded-IsBeginning c tls req late w.deadline (attempt w c req)
          (coe 0 1 (i. IsBeginning c tls req (sym q i).0) b),
      (λ x h.
          bounded-IsUnwritten late w.deadline (attempt w c req)
            (coe 0 1 (i. All IsUnwritten (sym q i).0) (u x h))),
    )
