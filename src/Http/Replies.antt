-- ===== src/Http/Replies.antt =====
-- The shape of the gRPC error that the shim makes up.
use zero_shim.Prelude.{ℕ, ◌≤◌, ◌≡◌, refl, none, some, [], ◌∷◌, arith, All}
use zero_shim.Text.{Text, text, decimal}
use zero_shim.Http.{
  HeaderValue, TakesPrintable, get, sanitize_grpc_message, message_header, grpc_error,
}
use zero_shim.Http.HeaderMap.{get-insert}

sanitize-printable : (s : Text) → All (λ c. (32 ≤ c) × (c ≤ 126)) (sanitize_grpc_message s)
unfolding sanitize_grpc_message
sanitize-printable [] = tt
sanitize-printable (c ∷ s) = (ground arith, sanitize-printable s)

-- Where header values take printable ASCII, every gRPC error is a 200 with an empty body and no
-- trailers that carries the code in decimal and its message, made printable, in the headers.
pub grpc_error_shape :
    (from_str : HeaderValue) (code : ℕ) (message : Text)
    → TakesPrintable from_str
    → ((grpc_error from_str code message).status ≡ 200)
      × ((grpc_error from_str code message).body ≡ [])
      × ((grpc_error from_str code message).trailers ≡ none)
      × (get (grpc_error from_str code message).headers (text "content-type")
          ≡ some (text "application/grpc"))
      × (get (grpc_error from_str code message).headers (text "grpc-status") ≡ some (decimal code))
      × (get (grpc_error from_str code message).headers (text "grpc-message")
          ≡ some (sanitize_grpc_message message))
unfolding grpc_error
grpc_error_shape from_str code message printable =
    let value = printable (sanitize_grpc_message message) (sanitize-printable message) in
    (
      refl,
      refl,
      refl,
      rw (value, message_header) (simp get-insert),
      rw (value, message_header) (simp get-insert),
      rw (value, message_header) (simp get-insert),
    )
