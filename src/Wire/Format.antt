-- ===== src/Wire/Format.antt =====
-- The constants and the types of wire.rs (zeronym/shim/src): the sizes and magics of the frames,
-- the errors, the verdicts and the lookup replies.
use zero_shim.Prelude.{
  ℕ, ◌-◌, ◌*◌, ◌≡◌, Option, none, some, [], ◌∷◌, ◌==◌, if◌then◌else◌, length, replicate,
}
use zero_shim.Bytes.{Bytes}

abbrev pub frame_bytes : ℕ
frame_bytes = 64 * 1024

abbrev pub ack_bytes : ℕ
ack_bytes = 64

abbrev pub lookup_bytes : ℕ
lookup_bytes = 64

abbrev pub nonce_bytes : ℕ
nonce_bytes = 16

abbrev pub Nonce : Type 0
Nonce = Bytes

-- What the type `[u8; NONCE_BYTES]` says of a nonce.
abbrev pub IsNonce : Nonce → Type 0
IsNonce n = length n ≡ nonce_bytes

abbrev pub submit_magic : Bytes
submit_magic = b'Z' ∷ b'N' ∷ b'S' ∷ b'1' ∷ []

abbrev pub ack_magic : Bytes
ack_magic = b'Z' ∷ b'N' ∷ b'A' ∷ b'1' ∷ []

abbrev pub lookup_magic : Bytes
lookup_magic = b'Z' ∷ b'N' ∷ b'L' ∷ b'1' ∷ []

abbrev pub lookup_reply_magic : Bytes
lookup_reply_magic = b'Z' ∷ b'N' ∷ b'R' ∷ b'1' ∷ []

abbrev pub submit_header_bytes : ℕ
submit_header_bytes = 24

abbrev pub lookup_header_bytes : ℕ
lookup_header_bytes = 21

abbrev pub lookup_reply_header_bytes : ℕ
lookup_reply_header_bytes = 33

abbrev pub max_nym_tx_bytes : ℕ
max_nym_tx_bytes = frame_bytes - lookup_reply_header_bytes

abbrev pub max_lookup_hash_bytes : ℕ
max_lookup_hash_bytes = lookup_bytes - lookup_header_bytes

abbrev pub max_lookup_reply_tx_bytes : ℕ
max_lookup_reply_tx_bytes = frame_bytes - lookup_reply_header_bytes

pub data WireError : Type 0 where
  wrong_length : (expected got : ℕ) → WireError
  bad_magic : WireError
  tx_too_large : (len budget : ℕ) → WireError
  tx_len_overruns_frame : (declared : ℕ) → WireError
  hash_too_large : (len : ℕ) → WireError
  hash_len_overruns_frame : (declared : ℕ) → WireError
  unknown_disposition : ℕ → WireError
  unknown_refusal : ℕ → WireError
  stray_reply_payload : WireError

pub data AckRefusal : Type 0 where
  expiry_too_tight too_large queue_full tip_stale bad_frame : AckRefusal

pub data AckKind : Type 0 where
  accepted : AckKind
  refused : AckRefusal → AckKind

unfoldable pub code : AckRefusal → ℕ
code expiry_too_tight = 1
code too_large = 2
code queue_full = 3
code tip_stale = 4
code bad_frame = 5

unfoldable pub from_code : ℕ → Option AckRefusal
from_code c =
    if c == 1
    then some expiry_too_tight
    else if c == 2
    then some too_large
    else if c == 3
    then some queue_full
    else if c == 4
    then some tip_stale
    else if c == 5
    then some bad_frame
    else none

-- `vec![0u8; n]`
abbrev pub zeros : ℕ → Bytes
zeros n = replicate n 0

pub data LookupReply : Type 0 where
  found : (height : ℕ) (tx : Bytes) → LookupReply
  not_found : LookupReply
  error : LookupReply
