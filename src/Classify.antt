-- ===== src/Classify.antt =====
-- The turnstile classifier (zeronym/shim/src/classify.rs): verdict, evidence and the two reads of
-- the evidence that routing and reporting make.
pub mod Verdict
pub mod Branch
use zero_shim.Prelude.{
  ℕ, Bool, true, false, not, Option, none, some, ◌∷◌, ◌++◌, ◌==◌, if◌then◌else◌, Result, ok, err,
  length,
}
use zero_shim.Bytes.{Bytes}
use zero_shim.Text.{Text, text, contains, decimal}
use zero_shim.External.{ℤ, pos, Zebra}

pub data Class : Type 0 where
  migration pass_through unparseable : Class

unfoldable pub treat_as_migration : Class → Bool
treat_as_migration migration = true
treat_as_migration unparseable = true
treat_as_migration pass_through = false

pub record Evidence : Type 0 where
  pub version : Text
  pub orchard_actions : ℕ
  pub orchard_vb : ℤ
  pub ironwood_vb : ℤ
  pub sapling_vb : ℤ
  pub expiry_height : Option ℕ
  pub inputs : ℕ
  pub outputs : ℕ
  pub len : ℕ
  pub error : Option Text
  pub class : Class

unfoldable pub is_unrecognised_branch : Evidence → Bool
is_unrecognised_branch evidence = elim evidence.error [
  | none ↦ false
  | some e ↦ contains e (text "invalid consensus branch id")
]

-- `Evidence::unparseable`
unparseable_evidence : ℕ → Text → Evidence
unparseable_evidence len e = record {
  version = text "unparseable";
  orchard_actions = 0;
  orchard_vb = pos 0;
  ironwood_vb = pos 0;
  sapling_vb = pos 0;
  expiry_height = none;
  inputs = 0;
  outputs = 0;
  len = len;
  error = some e;
  class = unparseable;
}

-- `format!("trailing bytes: parsed {} of {} bytes", ..)`
trailing_message : (position len : ℕ) → Text
trailing_message position len =
    text "trailing bytes: parsed "
    ++ (decimal position ++ (text " of " ++ (decimal len ++ text " bytes")))

module _ (z : Zebra) where
  pub is_orchard_touching : z.Transaction → Bool
  is_orchard_touching tx = z.has_orchard_data tx

  pub orchard_action_count : z.Transaction → ℕ
  orchard_action_count tx = z.orchard_actions tx

  -- The evidence for a transaction that took up the whole input.
  parsed_evidence : ℕ → z.Transaction → Evidence
  unfolding is_orchard_touching orchard_action_count
  parsed_evidence len tx = record {
    version = b'V' ∷ decimal (z.version tx);
    orchard_actions = orchard_action_count tx;
    orchard_vb = z.orchard_zatoshis tx;
    ironwood_vb = z.ironwood_zatoshis tx;
    sapling_vb = z.sapling_zatoshis tx;
    expiry_height = z.expiry_height tx;
    inputs = z.input_count tx;
    outputs = z.output_count tx;
    len = len;
    error = none;
    class = if is_orchard_touching tx then migration else pass_through;
  }

  -- What follows the parse: the position check, then the predicate.
  evidence_of : Bytes → Result Text (z.Transaction × ℕ) → Evidence
  evidence_of raw (err e) = unparseable_evidence (length raw) e
  evidence_of raw (ok (tx, position)) =
      if not (position == length raw)
      then unparseable_evidence (length raw) (trailing_message position (length raw))
      else parsed_evidence (length raw) tx

  pub classify_with_evidence : Bytes → Evidence
  unfolding evidence_of parsed_evidence unparseable_evidence
  classify_with_evidence raw = evidence_of raw (z.zcash_deserialize raw)

  pub classify : Bytes → Class
  unfolding classify_with_evidence
  classify raw = (classify_with_evidence raw).class
