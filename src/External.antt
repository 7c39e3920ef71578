-- ===== src/External.antt =====
-- Code that the shim calls and this library does not model: zebra-chain's transaction parser and
-- accessors, and the generated protobuf codecs of zaino-proto. Each is a record of operations, and
-- what the shim relies on is a record of laws over it.
use zero_shim.Prelude.{ℕ, ◌<◌, ◌≡◌, ◌↔◌, Bool, true, Option, Result}
use zero_shim.Bytes.{Bytes}
use zero_shim.Text.{Text}

-- An `i64`.
pub data ℤ : Type 0 where
  pos : ℕ → ℤ
  negsuc : ℕ → ℤ

-- `zebra_chain::transaction::Transaction`
pub record Zebra : Type 1 where
  pub Transaction : Type 0
  -- `Transaction::zcash_deserialize(&mut cursor)`, with `cursor.position()` after it.
  pub zcash_deserialize : Bytes → Result Text (Transaction × ℕ)
  -- `tx.orchard_shielded_data().is_some()`
  pub has_orchard_data : Transaction → Bool
  -- `tx.orchard_actions().count()`
  pub orchard_actions : Transaction → ℕ
  pub orchard_zatoshis : Transaction → ℤ
  pub ironwood_zatoshis : Transaction → ℤ
  pub sapling_zatoshis : Transaction → ℤ
  pub version : Transaction → ℕ
  pub expiry_height : Transaction → Option ℕ
  pub input_count : Transaction → ℕ
  pub output_count : Transaction → ℕ
  -- `tx.hash().to_string()`
  pub txid : Transaction → Text

-- `orchard::ShieldedData.actions` is an `AtLeastOne`, and there are no actions without it.
pub record ZebraLaws (z : Zebra) : Type 0 where
  pub actions_of_bundle :
      (tx : z.Transaction) → (z.has_orchard_data tx ≡ true) ↔ (0 < z.orchard_actions tx)

-- `TxFilter`; of the block id only its presence matters.
pub record TxFilter : Type 0 where
  pub block : Bool
  pub hash : Bytes

-- The prost codecs of `zaino_proto::proto::service`.
pub record Proto : Type 0 where
  -- `RawTransaction::decode(message)`, down to its `data` field
  pub decode_raw_transaction : Bytes → Result Text Bytes
  pub decode_tx_filter : Bytes → Result Text TxFilter
  -- `RawTransaction { data, height }.encode_to_vec()`
  pub encode_raw_transaction : Bytes → ℕ → Bytes
  -- `SendResponse { error_code, error_message }.encode_to_vec()`
  pub encode_send_response : ℤ → Text → Bytes
