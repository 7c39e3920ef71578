-- ===== src/Tls.antt =====
-- TLS on both sides of the shim: `ServerTls::accept` and `BackendTls` of zeronym/shim/src/tls.rs,
-- and the connection to the indexer, `Backend` and `Upstream::connect` of
-- zeronym/shim/src/proxy.rs. The TLS library is an argument: how a name is read, and how each
-- handshake ends. A socket address is kept as its text, with its port beside it.
pub mod Authority
pub mod Handshakes
use zero_shim.Prelude.{
  ℕ, Bool, true, false, Option, none, some, List, [], ◌∷◌, ◌++◌, ◌==◌, if◌then◌else◌, Result, ok,
  err,
}
use zero_shim.Text.{Text, text, decimal}

abbrev pub alpn_h2 : Text
alpn_h2 = text "h2"

abbrev pub alpn_http11 : Text
alpn_http11 = text "http/1.1"

-- `rustls_pki_types::ServerName`; of an address only its debug text matters.
pub data ServerName : Type 0 where
  dns_name : (name : Text) → ServerName
  ip_address : (debug : Text) → ServerName

-- `ServerName::try_from(..).ok()`, and `{name:?}`
pub record Names : Type 0 where
  pub try_from : Text → Option ServerName
  pub debug : Text → Text

-- The protocols offered, and the name that the certificate must be for.
pub record BackendTls : Type 0 where
  pub alpn_protocols : List Text
  pub server_name : ServerName

named : Names → Text → Text → Option ServerName → Result Text BackendTls
named n sni_name alpn none = err (text "invalid backend TLS name " ++ n.debug sni_name)
named n sni_name alpn (some server_name) =
    ok (record { alpn_protocols = alpn ∷ []; server_name = server_name })

with_alpn : Names → Text → Text → Result Text BackendTls
unfolding named
with_alpn n sni_name alpn = named n sni_name alpn (n.try_from sni_name)

-- `BackendTls::new`
unfoldable pub new : Names → Text → Result Text BackendTls
unfolding with_alpn
new n sni_name = with_alpn n sni_name alpn_h2

-- `BackendTls::new_http1`
unfoldable pub new_http1 : Names → Text → Result Text BackendTls
unfolding with_alpn
new_http1 n sni_name = with_alpn n sni_name alpn_http11

abbrev pub name_text : ServerName → Text
name_text (dns_name name) = name
name_text (ip_address debug) = debug

-- `BackendTls::authority`
pub authority : BackendTls → ℕ → Text
authority tls port =
    if port == 443
    then name_text tls.server_name
    else name_text tls.server_name ++ (b':' ∷ decimal port)

-- `proxy::Backend`
pub record Backend : Type 0 where
  pub addr : Text
  pub port : ℕ
  pub tls : Option BackendTls

-- The `Display` of a backend.
pub display : Backend → Text
display b =
    b.addr ++ elim b.tls as (λ _. Text) [ some tls ↦ text " (tls)" | none ↦ text " (plaintext)" ]

-- The `:authority` of an upstream, and how `Upstream::connect` and `HubClient::new` find it.
unfoldable pub authority_of : Option BackendTls → Text → ℕ → Text
authority_of none addr port = addr
authority_of (some tls) addr port = authority tls port

-- What `Upstream::connect` does on the network: a TCP connection, a TLS handshake with the
-- protocols and the name, and the HTTP/2 preface, on a TLS stream or in the clear.
pub data Hop : Type 0 where
  dialled : (addr : Text) → Hop
  authenticated : (alpn : List Text) (name : ServerName) → Hop
  preface : (encrypted : Bool) → Hop

-- The outcomes of these, of `set_nodelay`, and of `authority.parse()`.
pub record Network : Type 0 where
  pub tcp : Text → Result Text (Unit {0})
  pub set_nodelay : Result Text (Unit {0})
  pub tls_connect : BackendTls → Result Text (Unit {0})
  pub h2_handshake : Bool → Result Text (Unit {0})
  pub parse_authority : Text → Result Text Text

infixl 5 ◌>>◌
-- `?` after a step that has been taken.
abbrev ◌>>◌ :
    List Hop × Result Text (Unit {0}) → List Hop × Result Text Text → List Hop × Result Text Text
(hops, ok done) >> (rest, r) = (hops ++ rest, r)
(hops, err e) >> k = (hops, err e)

handshake : Network → Bool → List Hop × Result Text (Unit {0})
handshake w encrypted = (preface encrypted ∷ [], w.h2_handshake encrypted)

parsed : Network → Text → List Hop × Result Text Text
parsed w authority = ([], w.parse_authority authority)

secured : Network → Backend → Option BackendTls → List Hop × Result Text Text
unfolding handshake parsed
secured w b (some tls) = do
  (authenticated tls.alpn_protocols tls.server_name ∷ [], w.tls_connect tls)
  handshake w true
  parsed w (authority_of (some tls) b.addr b.port)
secured w b none = do handshake w false; parsed w (authority_of none b.addr b.port)

-- `Upstream::connect`, with the `authority` of the upstream for it
pub connect : Network → Backend → List Hop × Result Text Text
unfolding secured
connect w b = do (dialled b.addr ∷ [], w.tcp b.addr); ([], w.set_nodelay); secured w b b.tls

-- The server side: which of its two configurations a handshake used.
pub data ServerConfig : Type 0 where
  serving challenge : ServerConfig

-- The outcomes of the parts of `ServerTls::accept`: the ClientHello, and whether it is of a
-- TLS-ALPN-01 challenge; the handshake with a configuration; and the `shutdown`.
pub record Client : Type 0 where
  pub hello : Result Text Bool
  pub into_stream : ServerConfig → Result Text (Unit {0})
  pub shutdown : Result Text (Unit {0})

closed_with : Client → Result Text (Unit {0}) → Result Text Bool
closed_with c (err e) = err e
closed_with c (ok stream) = elim c.shutdown [ ok done ↦ ok false | err e ↦ err e ]

streamed : Result Text (Unit {0}) → Result Text Bool
streamed (ok stream) = ok true
streamed (err e) = err e

after_hello : Client → Result Text Bool → List ServerConfig × Result Text Bool
unfolding closed_with streamed
after_hello c (err e) = ([], err e)
after_hello c (ok true) = (challenge ∷ [], closed_with c (c.into_stream challenge))
after_hello c (ok false) = (serving ∷ [], streamed (c.into_stream serving))

-- `ServerTls::accept`: the configurations that were used, and the result, where `ok true` is a
-- stream and `ok false` is `Ok(None)`.
pub accept : Client → List ServerConfig × Result Text Bool
unfolding after_hello
accept c = after_hello c c.hello
