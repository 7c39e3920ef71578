-- ===== src/Wire/Logs.antt =====
-- What a logged encode failure gives away of a transaction (zeronym/shim/src/wire.rs).
use zero_shim.Prelude.{◌≡◌, arith, err}
use zero_shim.Bytes.{Bytes}
use zero_shim.Wire.{
  Nonce, WireError, LookupReply, found, not_found, error, encode_submit, encode_lookup,
  encode_lookup_reply,
}
use zero_shim.Wire.Messages.{wire_message}

-- Two submissions that cannot be framed are logged alike, and so are two lookups and two replies:
-- no message of a failed encode depends on the nonce, the bytes or their number.
pub encode_errors_alike :
    (n m : Nonce) (a b : Bytes)
    → ((d e : WireError)
        → encode_submit n a ≡ err d
        → encode_submit m b ≡ err e
        → wire_message d ≡ wire_message e)
      × ((d e : WireError)
          → encode_lookup n a ≡ err d
          → encode_lookup m b ≡ err e
          → wire_message d ≡ wire_message e)
      × ((r q : LookupReply) (d e : WireError)
          → encode_lookup_reply n r ≡ err d
          → encode_lookup_reply m q ≡ err e
          → wire_message d ≡ wire_message e)
unfolding wire_message
encode_errors_alike n m a b = (
  (λ d e p q. unfold encode_submit in ground arith),
  (λ d e p q. unfold encode_lookup in ground arith),
  replies,
)
  where
    replies :
        (r q : LookupReply) (d e : WireError)
        → encode_lookup_reply n r ≡ err d
        → encode_lookup_reply m q ≡ err e
        → wire_message d ≡ wire_message e
    replies (found h t) (found k u) d e p q = unfold encode_lookup_reply in ground arith
    replies not_found s d e p q = unfold encode_lookup_reply in cc
    replies error s d e p q = unfold encode_lookup_reply in cc
    replies (found h t) not_found d e p q = unfold encode_lookup_reply in cc
    replies (found h t) error d e p q = unfold encode_lookup_reply in cc
