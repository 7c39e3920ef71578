-- ===== src/Http.antt =====
-- Requests, responses and header maps as zeronym/shim/src/proxy.rs and intercept.rs use them, and
-- the two gRPC replies that the shim makes up itself. Header names are in the lower case in which
-- `http::HeaderMap` holds them; its iteration order is not modelled.
pub mod HeaderMap
pub mod Replies
use zero_shim.Prelude.{
  ℕ, ◌≤◌, ◌≡◌, Bool, true, false, ◌&&◌, ◌||◌, Option, none, some, List, [], ◌∷◌, ◌++◌, map, leb,
  ◌==◌, if◌then◌else◌, length, All,
}
use zero_shim.Bytes.{Bytes, be32}
use zero_shim.Text.{Text, text, text_eq, decimal}

abbrev pub Headers : Type 0
Headers = List (Text × Bytes)

-- `headers.get(name)`: the first value
unfoldable pub get : Headers → Text → Option Bytes
get [] name = none
get ((n, v) ∷ rest) name = if text_eq n name then some v else get rest name

-- `headers.remove(name)`: every value goes
unfoldable pub remove : Headers → Text → Headers
remove [] name = []
remove ((n, v) ∷ rest) name =
    let others = remove rest name in if text_eq n name then others else (n, v) ∷ others

-- `headers.insert(name, value)`: the one value that is left
unfoldable pub insert : Headers → Text → Bytes → Headers
unfolding remove
insert headers name value = (name, value) ∷ remove headers name

unfoldable pub contains_key : Headers → Text → Bool
unfolding get
contains_key headers name = elim (get headers name) [ none ↦ false | some v ↦ true ]

pub record Request : Type 0 where
  pub method : Text
  pub path : Text
  pub authority : Option Text
  pub headers : Headers
  pub body : Bytes
  pub trailers : Option Headers

pub record Response : Type 0 where
  pub status : ℕ
  pub headers : Headers
  pub body : Bytes
  pub trailers : Option Headers

abbrev pub grpc_cancelled : ℕ
grpc_cancelled = 1

abbrev pub grpc_invalid_argument : ℕ
grpc_invalid_argument = 3

abbrev pub grpc_deadline_exceeded : ℕ
grpc_deadline_exceeded = 4

abbrev pub grpc_not_found : ℕ
grpc_not_found = 5

abbrev pub grpc_resource_exhausted : ℕ
grpc_resource_exhausted = 8

abbrev pub grpc_unavailable : ℕ
grpc_unavailable = 14

-- `if c.is_ascii_graphic() || c == ' ' { c } else { '.' }` on every character
unfoldable pub sanitize_grpc_message : Text → Text
sanitize_grpc_message message =
    map (λ c. if (leb 33 c && leb c 126) || c == 32 then c else b'.') message

-- `HeaderValue::from_str` of the http crate.
abbrev pub HeaderValue : Type 0
HeaderValue = Text → Option Bytes

-- It takes any run of printable ASCII as it is.
abbrev pub TakesPrintable : HeaderValue → Type 0
TakesPrintable from_str = (s : Text) → All (λ c. (32 ≤ c) × (c ≤ 126)) s → from_str s ≡ some s

message_header : Headers → Option Bytes → Headers
message_header headers none = headers
message_header headers (some value) = insert headers (text "grpc-message") value

unfoldable pub grpc_error : HeaderValue → ℕ → Text → Response
unfolding message_header
grpc_error from_str code message = record {
  status = 200;
  headers =
      message_header
        (insert (insert [] (text "content-type") (text "application/grpc")) (text "grpc-status")
          (decimal code))
        (from_str (sanitize_grpc_message message));
  body = [];
  trailers = none;
}

-- The five-byte gRPC prefix and the message.
unfoldable pub grpc_frame : Bytes → Bytes
grpc_frame message = 0 ∷ (be32 (length message) ++ message)

unfoldable pub grpc_unary : Bytes → Response
grpc_unary message = record {
  status = 200;
  headers = insert [] (text "content-type") (text "application/grpc");
  body = grpc_frame message;
  trailers = some (insert [] (text "grpc-status") (text "0"));
}

-- `strip_client_address_headers`
unfoldable pub strip_client_address_headers : Headers → Headers
strip_client_address_headers headers =
    remove
      (remove
        (remove
          (remove
            (remove (remove (remove headers (text "x-forwarded-for")) (text "x-forwarded-host"))
              (text "x-forwarded-proto"))
            (text "x-forwarded-port"))
          (text "x-real-ip"))
        (text "forwarded"))
      (text "via")

-- `normalize_response_encoding`
unfoldable pub normalize_response_encoding : Headers → Headers
normalize_response_encoding headers =
    if contains_key headers (text "grpc-accept-encoding")
    then insert headers (text "grpc-accept-encoding") (text "identity")
    else headers
