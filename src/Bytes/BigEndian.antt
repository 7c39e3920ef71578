-- ===== src/Bytes/BigEndian.antt =====
-- Big-endian integers: what is written is read back, and what is read is what was written.
use zero_shim.Prelude.{
  ℕ, ◌+◌, ◌-◌, ◌*◌, ◌/◌, ◌%◌, ◌^◌, ◌≤◌, ◌<◌, ◌≡◌, refl, ap, ◌∙◌, [], ◌∷◌, ◌++◌, length, drop, All,
  get_or-drop, length-drop, All-get_or, arith, sym, append_assoc, length-append,
}
use zero_shim.Bytes.{Bytes, IsByte, byte_at, slice, be32, from_be32, u32_at, be64, u64_at}
use zero_shim.Bytes.Slices.{byte_at-append, take_four}

pub length-be32 : (n : ℕ) → length (be32 n) ≡ 4
unfolding be32
length-be32 n = refl

pub be32-IsByte : (n : ℕ) → All IsByte (be32 n)
unfolding be32
be32-IsByte n = omega arith

pub from_be32-be32 :
    (n : ℕ)
    → from_be32 (n / 2 ^ 24 % 256) (n / 2 ^ 16 % 256) (n / 2 ^ 8 % 256) (n % 256) ≡ n % 2 ^ 32
unfolding from_be32
from_be32-be32 n = omega arith

-- The number that stands behind a front of known length.
pub u32_at-append :
    (pre post : Bytes) (n at : ℕ)
    → length pre ≡ at
    → u32_at (pre ++ (be32 n ++ post)) at ≡ n % 2 ^ 32
unfolding be32
u32_at-append pre post n at h =
    rw
      (
        byte_at-append pre (be32 n ++ post) 0 at (omega arith),
        byte_at-append pre (be32 n ++ post) 1 (at + 1) (omega arith),
        byte_at-append pre (be32 n ++ post) 2 (at + 2) (omega arith),
        byte_at-append pre (be32 n ++ post) 3 (at + 3) (omega arith),
      )
      (from_be32-be32 n)

pub from_be32-lt :
    (a b c d : ℕ) → IsByte a → IsByte b → IsByte c → IsByte d → from_be32 a b c d < 2 ^ 32
unfolding from_be32
from_be32-lt a b c d ha hb hc hd = omega arith

pub be32-from_be32 :
    (a b c d : ℕ)
    → IsByte a
    → IsByte b
    → IsByte c
    → IsByte d
    → be32 (from_be32 a b c d) ≡ a ∷ b ∷ c ∷ d ∷ []
unfolding be32 from_be32
be32-from_be32 a b c d ha hb hc hd = ground arith

-- The four bytes at `at`, written again.
pub be32-u32_at :
    (buf : Bytes) (at : ℕ)
    → All IsByte buf
    → at + 4 ≤ length buf
    → be32 (u32_at buf at) ≡ slice buf at (at + 4)
be32-u32_at buf at hb h =
    be32-from_be32 _ _ _ _ (nth at) (nth (at + 1)) (nth (at + 2)) (nth (at + 3)) ∙ sym four
  where
    nth : (i : ℕ) → IsByte (byte_at buf i)
    nth i = All-get_or IsByte i buf 0 hb (omega arith)

    four :
        slice buf at (at + 4)
        ≡ byte_at buf at ∷ byte_at buf (at + 1) ∷ byte_at buf (at + 2) ∷ byte_at buf (at + 3) ∷ []
    four = rw (let e : at + 4 - at ≡ 4 = omega arith in e) (
        take_four (drop at buf) (omega (arith, length-drop at buf))
        ∙ rw (
          get_or-drop at 0 buf (let z : ℕ = 0 in z),
          get_or-drop at 1 buf (let z : ℕ = 0 in z),
          get_or-drop at 2 buf (let z : ℕ = 0 in z),
          get_or-drop at 3 buf (let z : ℕ = 0 in z),
          let e : at + 0 ≡ at = omega arith in e,
        ))

pub u32_at-lt : (buf : Bytes) (at : ℕ) → All IsByte buf → u32_at buf at < 2 ^ 32
u32_at-lt buf at hb = from_be32-lt _ _ _ _ (nth at) (nth (at + 1)) (nth (at + 2)) (nth (at + 3))
  where
    nth : (i : ℕ) → IsByte (byte_at buf i)
    nth i = All-get_or IsByte i buf 0 hb (omega arith)

pub length-be64 : (n : ℕ) → length (be64 n) ≡ 8
unfolding be64 be32
length-be64 n = refl

pub u64_at-append :
    (pre post : Bytes) (n at : ℕ)
    → length pre ≡ at
    → n < 2 ^ 64
    → u64_at (pre ++ (be64 n ++ post)) at ≡ n
unfolding u64_at be64
u64_at-append pre post n at h hn =
    rw
      (
        append_assoc (be32 (n / 2 ^ 32)) (be32 n) post,
        u32_at-append pre (be32 n ++ post) (n / 2 ^ 32) at h,
        ← append_assoc pre (be32 (n / 2 ^ 32)) (be32 n ++ post),
        u32_at-append (pre ++ be32 (n / 2 ^ 32)) post n (at + 4)
            (omega (arith, length-append pre (be32 (n / 2 ^ 32)), length-be32 (n / 2 ^ 32))),
      )
      (omega arith)

pub u64_at-lt : (buf : Bytes) (at : ℕ) → All IsByte buf → u64_at buf at < 2 ^ 64
unfolding u64_at
u64_at-lt buf at hb = omega (arith, u32_at-lt buf at hb, u32_at-lt buf (at + 4) hb)

be32-add : (q r : ℕ) → be32 (q * 2 ^ 32 + r) ≡ be32 r
unfolding be32
be32-add q r = ground arith

-- The eight bytes at `at`, written again.
pub be64-u64_at :
    (buf : Bytes) (at : ℕ)
    → All IsByte buf
    → at + 8 ≤ length buf
    → be64 (u64_at buf at) ≡ slice buf at (at + 4) ++ slice buf (at + 4) (at + 8)
unfolding be64 u64_at
be64-u64_at buf at hb h =
    let lo = u32_at-lt buf (at + 4) hb in
    let e : (u32_at buf at * 2 ^ 32 + u32_at buf (at + 4)) / 2 ^ 32 ≡ u32_at buf at = omega arith in
    let f : at + 4 + 4 ≡ at + 8 = omega arith in
    rw (e, be32-add, be32-u32_at buf at hb (omega arith))
      (ap (λ (t : Bytes). slice buf at (at + 4) ++ t)
        (be32-u32_at buf (at + 4) hb (omega arith) ∙ ap (slice buf (at + 4)) f))

-- The lengths of a buffer put together from fields.
pub ruleset buffer_lengths = (length-append, length-be32, length-be64)
