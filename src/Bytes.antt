-- ===== src/Bytes.antt =====
-- Byte buffers as the shim handles them: slices, `copy_from_slice`, big-endian integers and
-- byte-string comparison. A byte is a number below 256.
pub mod Slices
pub mod BigEndian
use zero_shim.Prelude.{
  ℕ, ◌+◌, ◌-◌, ◌*◌, ◌/◌, ◌%◌, ◌^◌, ◌<◌, Bool, true, false, ◌&&◌, List, [], ◌∷◌, ◌++◌, ◌==◌, length,
  get_or, take, drop,
}

abbrev pub IsByte : ℕ → Type 0
IsByte b = b < 256

abbrev pub Bytes : Type 0
Bytes = List ℕ

-- `buf[i]`; every use is behind a length check.
abbrev pub byte_at : Bytes → ℕ → ℕ
byte_at buf i = get_or buf i 0

-- `buf[from..to]`
abbrev pub slice : Bytes → ℕ → ℕ → Bytes
slice buf from to = take (to - from) (drop from buf)

-- `buf[at..at + x.len()].copy_from_slice(x)`
abbrev pub write_at : Bytes → ℕ → Bytes → Bytes
write_at buf at x = take at buf ++ (x ++ drop (at + length x) buf)

-- `a == b` on byte strings
abbrev pub bytes_eq : Bytes → Bytes → Bool
bytes_eq [] [] = true
bytes_eq [] (b ∷ bs) = false
bytes_eq (a ∷ as') [] = false
bytes_eq (a ∷ as') (b ∷ bs) = a == b && bytes_eq as' bs

-- `(n as u32).to_be_bytes()`
unfoldable pub be32 : ℕ → Bytes
be32 n = (n / 2 ^ 24 % 256) ∷ (n / 2 ^ 16 % 256) ∷ (n / 2 ^ 8 % 256) ∷ (n % 256) ∷ []

-- `u32::from_be_bytes([a, b, c, d])`
unfoldable pub from_be32 : ℕ → ℕ → ℕ → ℕ → ℕ
from_be32 a b c d = a * 2 ^ 24 + b * 2 ^ 16 + c * 2 ^ 8 + d

-- the `u32` that stands at `at`
abbrev pub u32_at : Bytes → ℕ → ℕ
u32_at buf at =
    from_be32 (byte_at buf at) (byte_at buf (at + 1)) (byte_at buf (at + 2)) (byte_at buf (at + 3))

-- `(n as u64).to_be_bytes()`: the high word, then the low word
unfoldable pub be64 : ℕ → Bytes
be64 n = be32 (n / 2 ^ 32) ++ be32 n

-- `u64::from_be_bytes(buf[at..at + 8])`
unfoldable pub u64_at : Bytes → ℕ → ℕ
u64_at buf at = u32_at buf at * 2 ^ 32 + u32_at buf (at + 4)
