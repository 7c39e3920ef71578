-- ===== src/Tls/Handshakes.antt =====
-- The handshakes on both sides (`ServerTls::accept` of zeronym/shim/src/tls.rs, `Upstream::connect`
-- of zeronym/shim/src/proxy.rs).
use zero_shim.Prelude.{
  ◌≡◌, refl, ◌↔◌, true, false, Option, none, some, List, [], ◌∷◌, ◌++◌, arith, Result, ok, err, All,
}
use zero_shim.Text.{Text}
use zero_shim.Tls.{
  Names, alpn_h2, alpn_http11, named, with_alpn, new, new_http1, ServerName, BackendTls, authority,
  Backend, authority_of, Hop, dialled, authenticated, preface, Network, handshake, parsed, secured,
  connect, ◌>>◌, serving, challenge, Client, closed_with, streamed, after_hello, accept,
}

module _ (n : Names) (name : Text) (tls : BackendTls) where
  -- The name that is checked and the one protocol that is offered.
  abbrev pub Offers : Text → Type 0
  Offers alpn = (n.try_from name ≡ some tls.server_name) × (tls.alpn_protocols ≡ alpn ∷ [])

  with_alpn-Offers : (alpn : Text) → with_alpn n name alpn ≡ ok tls → Offers alpn
  unfolding with_alpn
  with_alpn-Offers alpn h = by (n.try_from name) refl h
    where
      by :
          (o : Option ServerName) → n.try_from name ≡ o → named n name alpn o ≡ ok tls → Offers alpn
      by none e g = absurd (unfold named in ground arith)
      by (some server_name) e g = unfold named in ground arith

  pub new-Offers : new n name ≡ ok tls → Offers alpn_h2
  unfolding new
  new-Offers h = with_alpn-Offers alpn_h2 h

  pub new_http1-Offers : new_http1 n name ≡ ok tls → Offers alpn_http11
  unfolding new_http1
  new_http1-Offers h = with_alpn-Offers alpn_http11 h

abbrev pub IsBeforePreface : Hop → Type 0
IsBeforePreface (dialled addr) = Unit {0}
IsBeforePreface (authenticated alpn name) = Unit {0}
IsBeforePreface (preface encrypted) = ⊥

module _ (b : Backend) (tls : BackendTls) where
  -- The steps of `connect` over TLS, by their outcomes.
  abbrev steps :
      Result Text (Unit {0})
      → Result Text (Unit {0})
      → Result Text (Unit {0})
      → Result Text (Unit {0})
      → Result Text Text
      → List Hop × Result Text Text
  steps tcp nodelay secure h2 parse = do
    (dialled b.addr ∷ [], tcp)
    ([], nodelay)
    (authenticated tls.alpn_protocols tls.server_name ∷ [], secure)
    (preface true ∷ [], h2)
    ([], parse)

  abbrev IsBeginning : List Hop → Type 0
  IsBeginning hops =
      (rest : List Hop) × (hops ++ rest
        ≡ dialled b.addr ∷ authenticated tls.alpn_protocols tls.server_name ∷ preface true ∷ [])

  steps_exact :
      (tcp nodelay secure h2 : Result Text (Unit {0})) (parse : Result Text Text) (a : Text)
      → (((steps tcp nodelay secure h2 parse).1 ≡ ok a)
          ↔ ((tcp ≡ ok tt) × (nodelay ≡ ok tt) × (secure ≡ ok tt) × (h2 ≡ ok tt) × (parse ≡ ok a)))
        × IsBeginning (steps tcp nodelay secure h2 parse).0
        × ((e : Text) → secure ≡ err e → All IsBeforePreface (steps tcp nodelay secure h2 parse).0)
  steps_exact (err x) n s h p a =
      (((λ q. ground arith), (λ q. ground arith)), (_, refl), (λ e q. (tt, tt)))
  steps_exact (ok d) (err x) s h p a =
      (((λ q. ground arith), (λ q. ground arith)), (_, refl), (λ e q. (tt, tt)))
  steps_exact (ok d) (ok n) (err x) h p a =
      (((λ q. ground arith), (λ q. ground arith)), (_, refl), (λ e q. (tt, (tt, tt))))
  steps_exact (ok d) (ok n) (ok s) (err x) p a =
      (((λ q. ground arith), (λ q. ground arith)), (_, refl), (λ e q. absurd (ground arith)))
  steps_exact (ok d) (ok n) (ok s) (ok h) p a =
      (((λ q. ground arith), (λ q. ground arith)), ([], refl), (λ e q. absurd (ground arith)))

-- Where the indexer is to be reached over TLS: the upstream connects exactly if every step
-- succeeds, and then its authority is the parsed one of the verified name. What happens on the
-- network is a beginning of: dial the address, authenticate the configured name, and HTTP/2 on the
-- TLS stream. If the TLS handshake fails, no HTTP/2 is spoken at all.
pub connect_exact :
    (w : Network) (b : Backend) (tls : BackendTls) (a : Text)
    → b.tls ≡ some tls
    → (((connect w b).1 ≡ ok a) ↔ (
        (w.tcp b.addr ≡ ok tt)
        × (w.set_nodelay ≡ ok tt)
        × (w.tls_connect tls ≡ ok tt)
        × (w.h2_handshake true ≡ ok tt)
        × (w.parse_authority (authority tls b.port) ≡ ok a)))
      × ((rest : List Hop) × ((connect w b).0 ++ rest
            ≡ dialled b.addr
              ∷ authenticated tls.alpn_protocols tls.server_name
              ∷ preface true
              ∷ []))
      × ((e : Text) → w.tls_connect tls ≡ err e → All IsBeforePreface (connect w b).0)
unfolding connect secured handshake parsed authority_of
connect_exact w b tls a e =
    rw (e, secured)
      (steps_exact b tls (w.tcp b.addr) w.set_nodelay (w.tls_connect tls) (w.h2_handshake true)
        (w.parse_authority (authority tls b.port)) a)

-- Exactly a ClientHello that is no challenge gets the serving certificate, and exactly one that is
-- a challenge gets the certificate of the challenge. A stream for the proxy comes exactly of the
-- former, if its handshake succeeds; an answered challenge never yields one.
pub accept_exact :
    (c : Client)
    → (((accept c).0 ≡ serving ∷ []) ↔ (c.hello ≡ ok false))
      × (((accept c).0 ≡ challenge ∷ []) ↔ (c.hello ≡ ok true))
      × (((accept c).1 ≡ ok true) ↔ ((c.hello ≡ ok false) × (c.into_stream serving ≡ ok tt)))
      × (((accept c).1 ≡ ok false)
          ↔ ((c.hello ≡ ok true) × (c.into_stream challenge ≡ ok tt) × (c.shutdown ≡ ok tt)))
unfolding accept after_hello closed_with streamed
accept_exact c = (
  ((λ h. ground arith), (λ h. ground arith)),
  ((λ h. ground arith), (λ h. ground arith)),
  ((λ h. ground arith), (λ h. ground arith)),
  ((λ h. ground arith), (λ h. ground arith)),
)
