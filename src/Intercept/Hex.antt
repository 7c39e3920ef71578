-- ===== src/Intercept/Hex.antt =====
-- Transaction ids in hex, and the check that a hub's answer is for the query
-- (zeronym/shim/src/intercept.rs).
use zero_shim.Prelude.{
  ℕ, ◌/◌, ◌%◌, ◌<◌, ◌≡◌, refl, sym, ap, ◌↔◌, ◌⊎◌, true, false, [], ◌∷◌, map, arith, ok, err, length,
  All, take-length,
}
use mathlib.Core.List.{reverse, reverse_aux}
use zero_shim.Bytes.{Bytes, IsByte}
use zero_shim.Text.{Text, to_ascii_lower, eq_ignore_ascii_case}
use zero_shim.Text.Search.{text_eq_iff}
use zero_shim.External.{Zebra}
use zero_shim.Intercept.{hex_digit, hex_all, hex_prefix, lookup_is_for_query}

hex_digit_injective : (a b : ℕ) → a < 16 → b < 16 → hex_digit a ≡ hex_digit b → a ≡ b
hex_digit_injective a b ha hb h = ground arith

lower-hex_digit : (a : ℕ) → a < 16 → to_ascii_lower (hex_digit a) ≡ hex_digit a
lower-hex_digit a h = ground arith

byte_of_nibbles : (a b : ℕ) → a / 16 ≡ b / 16 → a % 16 ≡ b % 16 → a ≡ b
byte_of_nibbles a b h l = omega arith

hex_all_injective : (a b : Bytes) → All IsByte a → All IsByte b → hex_all a ≡ hex_all b → a ≡ b
unfolding hex_all
hex_all_injective [] [] ha hb h = refl
hex_all_injective [] (y ∷ ys) ha hb h = cc
hex_all_injective (x ∷ xs) [] ha hb h = cc
hex_all_injective (x ∷ xs) (y ∷ ys) ha hb h = ground (
  arith,
  hex_digit_injective (x / 16) (y / 16) (omega arith) (omega arith),
  hex_digit_injective (x % 16) (y % 16) (omega arith) (omega arith),
  byte_of_nibbles x y,
  hex_all_injective xs ys ha.1 hb.1,
)

lower-hex_all : (a : Bytes) → All IsByte a → map to_ascii_lower (hex_all a) ≡ hex_all a
unfolding hex_all
lower-hex_all [] h = refl
lower-hex_all (x ∷ xs) h = rw (
  lower-hex_digit (x / 16) (omega arith),
  lower-hex_digit (x % 16) (omega arith),
  lower-hex_all xs h.1,
)

pub hex_prefix-length : (a : Bytes) → hex_prefix a (length a) ≡ hex_all a
hex_prefix-length a = unfold hex_prefix in ap hex_all (take-length a)

All-reverse : (xs : Bytes) → All IsByte xs → All IsByte (reverse xs)
All-reverse xs h = rev xs [] h tt
  where
    rev : (l acc : Bytes) → All IsByte l → All IsByte acc → All IsByte (reverse_aux l acc)
    rev [] acc hl ha = ha
    rev (x ∷ l) acc hl ha = rev l (x ∷ acc) hl.1 (hl.0, ha)

same_hex :
    (shown a : Bytes)
    → All IsByte shown
    → All IsByte a
    → (eq_ignore_ascii_case (hex_all shown) (hex_prefix a (length a)) ≡ true) ↔ (a ≡ shown)
same_hex shown a hs ha =
    rw (hex_prefix-length a, lower-hex_all shown hs, lower-hex_all a ha)
      (
        (λ h. sym (hex_all_injective shown a hs ha ((text_eq_iff _ _).0 h))),
        (λ h. (text_eq_iff _ _).1 (ap hex_all (sym h))),
      )

-- Of bytes: where the hub's bytes parse as a transaction whose id is shown as the hex of `shown`,
-- the check passes exactly for a query by those bytes or by their reverse; where they do not parse,
-- never.
pub lookup_is_for_query_exact :
    (z : Zebra) (bytes hash shown : Bytes)
    → All IsByte hash
    → All IsByte shown
    → ((e : Text) → z.zcash_deserialize bytes ≡ err e → lookup_is_for_query z bytes hash ≡ false)
      × ((tx : z.Transaction) (position : ℕ)
          → z.zcash_deserialize bytes ≡ ok (tx, position)
          → z.txid tx ≡ hex_all shown
          → (lookup_is_for_query z bytes hash ≡ true) ↔ ((hash ≡ shown) ⊎ (reverse hash ≡ shown)))
lookup_is_for_query_exact z bytes hash shown hh hs = (
  (λ e d. unfold lookup_is_for_query in ground arith),
  (λ tx position d t.
      let direct = same_hex shown hash hs hh in
      let back = same_hex shown (reverse hash) hs (All-reverse hash hh) in
      unfold lookup_is_for_query in
      ((λ h. ground (arith, direct, back)), (λ h. ground (arith, direct, back)))),
)
