-- ===== src/Config.antt =====
-- The choice of the transport at startup: `HubSelection`, `Config::hub_selection` and
-- `is_nym_address` of zeronym/shim/src/config.rs. Strings are lists of code points; a socket
-- address that the command line has parsed is kept as its text.
pub mod Selection
pub mod Address
use zero_shim.Prelude.{
  ℕ, Bool, true, false, not, ◌&&◌, ◌||◌, Option, none, some, List, [], ◌∷◌, leb, ◌==◌,
  if◌then◌else◌, Result, ok, err,
}
use mathlib.Core.List.{reverse}
use zero_shim.Text.{Text, text_eq}

pub data HubSelection : Type 0 where
  forward_only : HubSelection
  http : (addr : Text) → HubSelection
  nym : (addresses : List Text) → HubSelection

pub data ConfigError : Type 0 where
  both_transports diversion_required : ConfigError
  malformed_nym_address duplicate_nym_address : (addr : Text) → ConfigError

-- The fields of `Config` that the choice reads.
pub record Config : Type 0 where
  pub hub : Option Text
  pub hub_nym : List Text
  pub require_diversion : Bool

-- `char::is_whitespace`
abbrev pub is_whitespace : ℕ → Bool
is_whitespace c =
    (leb 9 c && leb c 13)
    || (c == 32
        || (c == 133
            || (c == 160
                || (c == 5760
                    || ((leb 8192 c && leb c 8202)
                        || (c == 8232
                            || (c == 8233 || (c == 8239 || (c == 8287 || c == 12288)))))))))

abbrev pub trim_start : Text → Text
trim_start [] = []
trim_start (c ∷ s) = let rest = trim_start s in if is_whitespace c then rest else c ∷ s

-- `str::trim`
abbrev pub trim : Text → Text
trim s = reverse (trim_start (reverse (trim_start s)))

-- The entries, trimmed, without the empty ones.
abbrev pub keep : Text → List Text → List Text
keep [] as' = as'
keep (c ∷ s) as' = (c ∷ s) ∷ as'

abbrev pub addresses : List Text → List Text
addresses [] = []
addresses (a ∷ as') = keep (trim a) (addresses as')

-- `str::split_once`
abbrev pub in_front : ℕ → Option (Text × Text) → Option (Text × Text)
in_front x none = none
in_front x (some p) = some (x ∷ p.0, p.1)

abbrev pub split_once : ℕ → Text → Option (Text × Text)
split_once c [] = none
split_once c (x ∷ s) = if x == c then some ([], s) else in_front x (split_once c s)

abbrev pub has : ℕ → Text → Bool
has c [] = false
has c (x ∷ s) = x == c || has c s

abbrev pub is_empty : Text → Bool
is_empty [] = true
is_empty (c ∷ s) = false

keys_and_gateway : Text → Option (Text × Text) → Bool
keys_and_gateway gateway none = false
keys_and_gateway gateway (some (identity, encryption)) =
    not (is_empty gateway)
    && (not (is_empty identity)
        && (not (is_empty encryption) && (not (has b'@' gateway) && not (has b'.' encryption))))

address_parts : Option (Text × Text) → Bool
unfolding keys_and_gateway
address_parts none = false
address_parts (some (keys, gateway)) = keys_and_gateway gateway (split_once b'.' keys)

unfoldable pub is_nym_address : Text → Bool
unfolding address_parts
is_nym_address addr = address_parts (split_once b'@' addr)

abbrev pub among : Text → List Text → Bool
among a [] = false
among a (b ∷ bs) = text_eq b a || among a bs

-- The loop over the addresses, with `seen`.
check : List Text → List Text → Result ConfigError (Unit {0})
check seen [] = ok tt
check seen (a ∷ as') =
    let rest = check (a ∷ seen) as' in
    if not (is_nym_address a)
    then err (malformed_nym_address a)
    else if among a seen
    then err (duplicate_nym_address a)
    else rest

checked : List Text → Result ConfigError (Unit {0}) → Result ConfigError HubSelection
checked as' (ok done) = ok (nym as')
checked as' (err e) = err e

-- The `match` on the two transports.
select : Option Text → List Text → Bool → Result ConfigError HubSelection
unfolding check checked
select (some addr) (a ∷ as') require = err both_transports
select (some addr) [] require = ok (http addr)
select none [] require = if require then err diversion_required else ok forward_only
select none (a ∷ as') require = checked (a ∷ as') (check [] (a ∷ as'))

unfoldable pub hub_selection : Config → Result ConfigError HubSelection
unfolding select
hub_selection c = select c.hub (addresses c.hub_nym) c.require_diversion
