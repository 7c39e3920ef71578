-- ===== src/Status.antt =====
-- The health of the mixnet client as the shim shows it: `MixnetStatus` of zeronym/shim/src/nym.rs.
-- The atomics are the fields of a record; a counter wraps as `AtomicU64::fetch_add` does. The clock
-- is an argument, `now`, in seconds.
pub mod Lifecycle
use zero_shim.Prelude.{
  ℕ, ◌+◌, ◌-◌, ◌%◌, ◌^◌, Bool, true, false, not, ◌||◌, Option, none, some, [], ◌∷◌, ◌++◌, ◌==◌,
  if◌then◌else◌,
}
use zero_shim.Text.{Text, text, decimal}

abbrev pub u64_modulus : ℕ
u64_modulus = 2 ^ 64

pub record MixnetStatus : Type 0 where
  pub configured : Bool
  pub connected : Bool
  pub deaths : ℕ
  pub consecutive_failures : ℕ
  pub diag_enabled : Bool
  pub replies_received : ℕ
  pub empty_inbound : ℕ
  pub sends_dispatched : ℕ
  pub last_reply_unix : ℕ
  pub started_unix : ℕ
  pub address : Option Text

abbrev pub initial : MixnetStatus
initial = record {
  configured = false;
  connected = false;
  deaths = 0;
  consecutive_failures = 0;
  diag_enabled = false;
  replies_received = 0;
  empty_inbound = 0;
  sends_dispatched = 0;
  last_reply_unix = 0;
  started_unix = 0;
  address = none;
}

abbrev bump : ℕ → ℕ
bump n = (n + 1) % u64_modulus

unfoldable pub set_configured : ℕ → MixnetStatus → MixnetStatus
set_configured now s = record s { configured = true; started_unix = now }

unfoldable pub set_connected : MixnetStatus → MixnetStatus
set_connected s = record s { connected = true; consecutive_failures = 0 }

unfoldable pub set_died : MixnetStatus → MixnetStatus
set_died s = record s { connected = false; deaths = bump s.deaths }

unfoldable pub set_rebuild_failed : MixnetStatus → MixnetStatus
set_rebuild_failed s = record s {
  connected = false;
  consecutive_failures = bump s.consecutive_failures;
}

pub enable_diag : MixnetStatus → MixnetStatus
enable_diag s = record s { diag_enabled = true }

unfoldable pub record_send : MixnetStatus → MixnetStatus
record_send s = record s { sends_dispatched = bump s.sends_dispatched }

unfoldable pub record_inbound : ℕ → Bool → MixnetStatus → MixnetStatus
record_inbound now empty s =
    if empty
    then record s { empty_inbound = bump s.empty_inbound }
    else record s { replies_received = bump s.replies_received; last_reply_unix = now }

unfoldable pub set_address : Text → MixnetStatus → MixnetStatus
set_address address s = record s { address = some address }

-- The sum of two `u64` loads; the code would panic or wrap where it passes 2 ^ 64.
unfoldable pub inbound_total : MixnetStatus → ℕ
inbound_total s = s.replies_received + s.empty_inbound

unfoldable pub is_healthy : MixnetStatus → Bool
is_healthy s = not s.configured || s.connected

bool_text : Bool → Text
bool_text true = text "true"
bool_text false = text "false"

-- `to_json`, field by field
pub to_json : MixnetStatus → Text
unfolding bool_text
to_json s =
    text "{\"diversion_configured\":"
    ++ (bool_text s.configured
        ++ (text ",\"mixnet_connected\":"
            ++ (bool_text s.connected
                ++ (text ",\"client_deaths\":"
                    ++ (decimal s.deaths
                        ++ (text ",\"consecutive_rebuild_failures\":"
                            ++ (decimal s.consecutive_failures ++ text "}")))))))

-- `address.rsplit('@').next()`
gateway_from : Text → Text → Text
gateway_from acc [] = acc
gateway_from acc (c ∷ s) = gateway_from (if c == b'@' then [] else acc ++ (c ∷ [])) s

unfoldable pub gateway_of : Option Text → Text
unfolding gateway_from
gateway_of none = []
gateway_of (some address) = gateway_from [] address

-- `diag_json`; `uptime_secs` saturates at 0.
pub diag_json : ℕ → MixnetStatus → Text
unfolding bool_text
diag_json now s =
    text "{\"replies_received\":"
    ++ (decimal s.replies_received
        ++ (text ",\"empty_inbound\":"
            ++ (decimal s.empty_inbound
                ++ (text ",\"sends_dispatched\":"
                    ++ (decimal s.sends_dispatched
                        ++ (text ",\"last_reply_unix\":"
                            ++ (decimal s.last_reply_unix
                                ++ (text ",\"started_unix\":"
                                    ++ (decimal s.started_unix
                                        ++ (text ",\"uptime_secs\":"
                                            ++ (decimal (now - s.started_unix)
                                                ++ (text ",\"gateway\":\""
                                                    ++ (gateway_of s.address
                                                        ++ (text "\",\"mixnet_connected\":"
                                                            ++ (bool_text s.connected
                                                            ++ (text ",\"client_deaths\":"
                                                            ++ (decimal s.deaths
                                                            ++ (text
                                                            ",\"consecutive_rebuild_failures\":"
                                                            ++ (decimal s.consecutive_failures
                                                            ++ text "}")))))))))))))))))))
