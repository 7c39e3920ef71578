-- ===== src/Http/HeaderMap.antt =====
-- What a lookup returns after a removal, an insertion and the two rewrites of proxy.rs.
use zero_shim.Prelude.{
  ◌≡◌, refl, Bool, false, ◌&&◌, ◌||◌, none, some, List, [], ◌∷◌, arith, if◌then◌else◌,
}
use zero_shim.Bytes.{Bytes}
use zero_shim.Text.{Text, text, text_eq}
use zero_shim.Text.Search.{text_eq_iff}
use zero_shim.Http.{
  Headers, get, remove, insert, contains_key, strip_client_address_headers,
  normalize_response_encoding,
}

pub get-remove :
    (headers : Headers) (name k : Text)
    → get (remove headers name) k ≡ (if text_eq name k then none else get headers k)
unfolding get remove
get-remove [] name k = ground arith
get-remove ((n, v) ∷ rest) name k =
    ground (arith, get-remove rest name k, text_eq_iff n name, text_eq_iff n k, text_eq_iff name k)

pub get-insert :
    (headers : Headers) (name k : Text) (v : Bytes)
    → get (insert headers name v) k ≡ (if text_eq name k then some v else get headers k)
unfolding get insert
get-insert headers name k v = ground (arith, get-remove headers name k)

-- The names that a fronting proxy may add.
abbrev pub client_address_names : List Text
client_address_names =
    text "x-forwarded-for"
    ∷ text "x-forwarded-host"
    ∷ text "x-forwarded-proto"
    ∷ text "x-forwarded-port"
    ∷ text "x-real-ip"
    ∷ text "forwarded"
    ∷ text "via"
    ∷ []

abbrev pub any_eq : List Text → Text → Bool
any_eq [] k = false
any_eq (n ∷ ns) k = text_eq n k || any_eq ns k

remove_all : Headers → List Text → Headers
remove_all headers [] = headers
remove_all headers (n ∷ ns) = remove_all (remove headers n) ns

get-remove_all :
    (headers : Headers) (names : List Text) (k : Text)
    → get (remove_all headers names) k ≡ (if any_eq names k then none else get headers k)
unfolding remove_all
get-remove_all headers [] k = refl
get-remove_all headers (n ∷ ns) k =
    ground (arith, get-remove_all (remove headers n) ns k, get-remove headers n k)

-- Stripping removes the seven client-address headers, and leaves what every other name has.
pub get-strip_client_address_headers :
    (headers : Headers) (k : Text)
    → get (strip_client_address_headers headers) k
      ≡ (if any_eq client_address_names k then none else get headers k)
get-strip_client_address_headers headers k =
    unfold strip_client_address_headers remove_all in get-remove_all headers client_address_names k

-- After the rewrite the indexer advertises no encoding but `identity`, and where it advertised none
-- it still does not; every other header is as it sent it.
pub get-normalize_response_encoding :
    (headers : Headers) (k : Text)
    → get (normalize_response_encoding headers) k ≡ (
        if text_eq (text "grpc-accept-encoding") k && contains_key headers k
        then some (text "identity")
        else get headers k)
unfolding normalize_response_encoding contains_key
get-normalize_response_encoding headers k = ground (
  arith,
  get-insert headers (text "grpc-accept-encoding") k (text "identity"),
  text_eq_iff (text "grpc-accept-encoding") k,
)
