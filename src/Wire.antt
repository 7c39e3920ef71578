-- ===== src/Wire.antt =====
-- The shim-to-hub wire frames (zeronym/shim/src/wire.rs): the eight codec functions, over the
-- constants and types of Format. `Zeroizing` buffers are plain byte lists here: wiping
-- memory on drop is not modelled. A nonce is a byte list of length 16.
mod Format
mod Layouts
pub mod SubmitFrame
pub mod AckFrame
pub mod LookupFrame
pub mod ReplyFields
pub mod ReplyFrame
pub mod Kinds
pub mod Peek
pub mod Messages
pub mod Logs
use zero_shim.Prelude.{
  ℕ, ◌+◌, ◌%◌, not, ◌||◌, Option, none, some, [], ◌∷◌, ltb, ◌==◌, if◌then◌else◌, Result, ok, err,
  length,
}
use zero_shim.Bytes.{Bytes, byte_at, slice, write_at, bytes_eq, be32, u32_at, be64, u64_at}
unfoldable pub use Format.{code, from_code}
pub use Format.*

pub encode_submit : Nonce → Bytes → Result WireError Bytes
encode_submit nonce tx =
    if ltb max_nym_tx_bytes (length tx)
    then err (tx_too_large (length tx) max_nym_tx_bytes)
    else let frame = zeros frame_bytes in
      let frame1 = write_at frame 0 submit_magic in
      let frame2 = write_at frame1 4 nonce in
      let frame3 = write_at frame2 20 (be32 (length tx)) in
      ok (write_at frame3 submit_header_bytes tx)

pub decode_submit : Bytes → Result WireError (Nonce × Bytes)
decode_submit frame =
    if not (length frame == frame_bytes)
    then err (wrong_length frame_bytes (length frame))
    else if not (bytes_eq (slice frame 0 4) submit_magic)
    then err bad_magic
    else let declared = u32_at frame 20 in
      if ltb max_nym_tx_bytes declared
      then err (tx_len_overruns_frame declared)
      else ok (slice frame 4 20, slice frame submit_header_bytes (submit_header_bytes + declared))

pub peek_nonce : Bytes → Option Nonce
peek_nonce frame =
    if ltb (length frame) submit_header_bytes || not (bytes_eq (slice frame 0 4) submit_magic)
    then none
    else some (slice frame 4 20)

-- `let (disp, refusal) = match kind`
abbrev pub ack_fields : AckKind → ℕ × ℕ
ack_fields accepted = (0, 0)
ack_fields (refused r) = (1, code r)

pub encode_ack : Nonce → AckKind → Bytes
encode_ack nonce kind =
    let frame = zeros ack_bytes in
    let frame1 = write_at frame 0 ack_magic in
    let frame2 = write_at frame1 4 nonce in
    let frame3 = write_at frame2 20 ((ack_fields kind).0 ∷ []) in
    write_at frame3 21 ((ack_fields kind).1 ∷ [])

-- `AckRefusal::from_code(refusal).ok_or(..)?`
abbrev refusal_kind : ℕ → Option AckRefusal → Result WireError AckKind
refusal_kind refusal none = err (unknown_refusal refusal)
refusal_kind refusal (some r) = ok (refused r)

-- `let kind = match disp`
pub ack_kind : ℕ → ℕ → Result WireError AckKind
ack_kind disp refusal =
    if disp == 0
    then (if not (refusal == 0) then err (unknown_refusal refusal) else ok accepted)
    else if disp == 1
    then refusal_kind refusal (from_code refusal)
    else err (unknown_disposition disp)

abbrev with_nonce : {A : Type 0} → Nonce → Result WireError A → Result WireError (Nonce × A)
with_nonce n (ok a) = ok (n, a)
with_nonce n (err e) = err e

pub decode_ack : Bytes → Result WireError (Nonce × AckKind)
unfolding ack_kind
decode_ack frame =
    if not (length frame == ack_bytes)
    then err (wrong_length ack_bytes (length frame))
    else if not (bytes_eq (slice frame 0 4) ack_magic)
    then err bad_magic
    else with_nonce (slice frame 4 20) (ack_kind (byte_at frame 20) (byte_at frame 21))

pub encode_lookup : Nonce → Bytes → Result WireError Bytes
encode_lookup nonce hash =
    if ltb max_lookup_hash_bytes (length hash)
    then err (hash_too_large (length hash))
    else let frame = zeros lookup_bytes in
      let frame1 = write_at frame 0 lookup_magic in
      let frame2 = write_at frame1 4 nonce in
      let frame3 = write_at frame2 20 ((length hash % 256) ∷ []) in
      ok (write_at frame3 lookup_header_bytes hash)

pub decode_lookup : Bytes → Result WireError (Nonce × Bytes)
decode_lookup frame =
    if not (length frame == lookup_bytes)
    then err (wrong_length lookup_bytes (length frame))
    else if not (bytes_eq (slice frame 0 4) lookup_magic)
    then err bad_magic
    else let declared = byte_at frame 20 in
      if ltb max_lookup_hash_bytes declared
      then err (hash_len_overruns_frame declared)
      else ok (slice frame 4 20, slice frame lookup_header_bytes (lookup_header_bytes + declared))

pub peek_lookup_nonce : Bytes → Option Nonce
peek_lookup_nonce frame =
    if ltb (length frame) lookup_header_bytes || not (bytes_eq (slice frame 0 4) lookup_magic)
    then none
    else some (slice frame 4 20)

-- The `match reply` on a frame that has its magic and nonce.
fill_reply : Bytes → LookupReply → Result WireError Bytes
fill_reply frame (found height tx) =
    if ltb max_lookup_reply_tx_bytes (length tx)
    then err (tx_too_large (length tx) max_lookup_reply_tx_bytes)
    else let frame1 = write_at frame 20 (0 ∷ []) in
      let frame2 = write_at frame1 21 (be64 height) in
      let frame3 = write_at frame2 29 (be32 (length tx)) in
      ok (write_at frame3 lookup_reply_header_bytes tx)
fill_reply frame not_found = ok (write_at frame 20 (1 ∷ []))
fill_reply frame error = ok (write_at frame 20 (2 ∷ []))

pub encode_lookup_reply : Nonce → LookupReply → Result WireError Bytes
unfolding fill_reply
encode_lookup_reply nonce reply =
    fill_reply (write_at (write_at (zeros frame_bytes) 0 lookup_reply_magic) 4 nonce) reply

-- The `match disp` on the fields of the frame.
pub reply_of : Bytes → (disp height declared : ℕ) → Result WireError LookupReply
reply_of frame disp height declared =
    if disp == 0
    then (if ltb max_lookup_reply_tx_bytes declared
        then err (tx_len_overruns_frame declared)
        else ok (
            found height
              (slice frame lookup_reply_header_bytes (lookup_reply_header_bytes + declared))))
    else if disp == 1 || disp == 2
    then (if not (height == 0) || not (declared == 0)
        then err stray_reply_payload
        else if disp == 1
        then ok not_found
        else ok error)
    else err (unknown_disposition disp)

pub decode_lookup_reply : Bytes → Result WireError (Nonce × LookupReply)
unfolding reply_of
decode_lookup_reply frame =
    if not (length frame == frame_bytes)
    then err (wrong_length frame_bytes (length frame))
    else if not (bytes_eq (slice frame 0 4) lookup_reply_magic)
    then err bad_magic
    else with_nonce (slice frame 4 20)
        (reply_of frame (byte_at frame 20) (u64_at frame 21) (u32_at frame 29))
