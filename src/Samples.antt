-- ===== src/Samples.antt =====
-- Sample data on which the theorems are applied: small transactions and frames, and stand-ins for
-- the libraries, the hub and the operator.
pub mod Frames
pub mod Diversion
pub mod Mixnet
pub mod Hub
use zero_shim.Prelude.{
  ℕ, zero, suc, false, none, some, [], ◌∷◌, arith, ◌==◌, if◌then◌else◌, Result, ok, err, length,
  replicate, All,
}
use zero_shim.Bytes.{Bytes, IsByte}
use zero_shim.Text.{Text, text}
use zero_shim.Wire
use zero_shim.Wire.{Nonce}
use zero_shim.External.{pos, Zebra, Proto}
use zero_shim.Http.{Request, Response, HeaderValue}
use zero_shim.Nym.{taken, answered}
use zero_shim.Hub.{HubTransport, nym}
use zero_shim.Forward.{Operator}
use zero_shim.Intercept.{BodyRead, collected}

abbrev pub sample_nonce : Nonce
sample_nonce = 1 ∷ 2 ∷ 3 ∷ 4 ∷ 5 ∷ 6 ∷ 7 ∷ 8 ∷ 9 ∷ 10 ∷ 11 ∷ 12 ∷ 13 ∷ 14 ∷ 15 ∷ 16 ∷ []

abbrev pub sample_tx : Bytes
sample_tx = 5 ∷ 0 ∷ 7 ∷ []

-- A gRPC frame of the message 5 0 7.
abbrev pub sample_body : Bytes
sample_body = 0 ∷ 0 ∷ 0 ∷ 0 ∷ 3 ∷ 5 ∷ 0 ∷ 7 ∷ []

pub sample_body-IsByte : All IsByte sample_body
sample_body-IsByte = (
  omega arith,
  (
    omega arith,
    (omega arith, (omega arith, (omega arith, (omega arith, (omega arith, (omega arith, tt)))))),
  ),
)

pub zeros-IsByte : (n : ℕ) → All IsByte (replicate n 0)
unfolding replicate
zeros-IsByte zero = tt
zeros-IsByte (suc n) = (omega arith, zeros-IsByte n)

abbrev deserialize : Bytes → Result Text (ℕ × ℕ)
deserialize [] = err (text "failed to fill whole buffer")
deserialize (b ∷ bs) = ok (b, length (b ∷ bs))

-- A parser for which the first byte is the transaction, and 1 has an Orchard bundle.
abbrev pub sample_zebra : Zebra
sample_zebra = record {
  Transaction = ℕ;
  zcash_deserialize = deserialize;
  has_orchard_data = λ tx. tx == 1;
  orchard_actions = λ tx. if tx == 1 then 2 else 0;
  orchard_zatoshis = λ tx. pos 0;
  ironwood_zatoshis = λ tx. pos 0;
  sapling_zatoshis = λ tx. pos 0;
  version = λ tx. 5;
  expiry_height = λ tx. none;
  input_count = λ tx. 0;
  output_count = λ tx. 0;
  txid = λ tx. text "05";
}

abbrev pub sample_proto : Proto
sample_proto = record {
  decode_raw_transaction = λ m. ok m;
  decode_tx_filter = λ m. ok (record { block = false; hash = m });
  encode_raw_transaction = λ bytes height. bytes;
  encode_send_response = λ code message. message;
}

abbrev pub sample_from_str : HeaderValue
sample_from_str = λ s. some s

abbrev pub sample_response : Response
sample_response = record { status = 200; headers = []; body = []; trailers = none }

abbrev pub sample_operator : Operator
sample_operator = record { get = ok (text "indexer:9067"); exchange = λ req. ok sample_response }

abbrev pub sample_hub : HubTransport
sample_hub = nym (record {
  offers = λ i. taken;
  tries = λ i. answered Wire.not_found;
  fresh = λ i. record { nonce = sample_nonce; receiver = i };
  start = 0;
  targets = 2;
})

abbrev pub sample_request : Request
sample_request = record {
  method = text "POST";
  path = text "/cash.z.wallet.sdk.rpc.CompactTxStreamer/SendTransaction";
  authority = none;
  headers = [];
  body = sample_body;
  trailers = none;
}

abbrev pub sample_read : BodyRead
sample_read = collected sample_body none
