-- ===== src/Bytes/Slices.antt =====
-- Cutting a buffer that is given in parts, and writing behind a known front.
use zero_shim.Prelude.{
  ℕ, ◌+◌, ◌-◌, ◌≤◌, ◌≡◌, refl, sym, ◌↔◌, true, [], ◌∷◌, ◌++◌, append_assoc, length, take, drop,
  replicate, length-append, length-take, length-drop, take-append, drop-append, drop-append_add,
  drop-replicate, take-append-drop, get_or-append, drop-drop, arith,
}
use zero_shim.Bytes.{Bytes, byte_at, slice, write_at, bytes_eq}

pub bytes_eq_iff : (a b : Bytes) → (bytes_eq a b ≡ true) ↔ (a ≡ b)
bytes_eq_iff [] [] = ((λ h. refl), (λ h. refl))
bytes_eq_iff [] (b ∷ bs) = ((λ h. cc), (λ h. cc))
bytes_eq_iff (a ∷ as') [] = ((λ h. cc), (λ h. cc))
bytes_eq_iff (a ∷ as') (b ∷ bs) =
    let ih = bytes_eq_iff as' bs in ((λ h. ground (arith, ih)), (λ h. ground (arith, ih)))

pub bytes_eq_self : (a : Bytes) → bytes_eq a a ≡ true
bytes_eq_self a = (bytes_eq_iff a a).1 refl

-- The part behind a front of known length.
pub slice-append :
    (pre x post : Bytes) (from to : ℕ)
    → length pre ≡ from
    → from + length x ≡ to
    → slice (pre ++ (x ++ post)) from to ≡ x
slice-append pre x post from to hf ht =
    rw (drop-append from pre (x ++ post) hf) (take-append (to - from) x post (omega arith))

pub byte_at-append :
    (pre ys : Bytes) (i k : ℕ) → length pre + i ≡ k → byte_at (pre ++ ys) k ≡ byte_at ys i
byte_at-append pre ys i k h = get_or-append k i pre ys 0 h

pub length-slice :
    (buf : Bytes) (from to : ℕ)
    → from ≤ to
    → to ≤ length buf
    → length (slice buf from to) ≡ to - from
length-slice buf from to h k =
    omega (arith, length-take (to - from) (drop from buf), length-drop from buf)

-- Writing into the zero run behind what is already written.
pub write_at-zeros :
    (pre x : Bytes) (at n : ℕ)
    → length pre ≡ at
    → write_at (pre ++ replicate n 0) at x ≡ (pre ++ x) ++ replicate (n - length x) 0
write_at-zeros pre x at n h =
    rw
      (
        take-append at pre (replicate n 0) h,
        drop-append_add (at + length x) (length x) pre (replicate n 0) (omega arith),
        drop-replicate {A = ℕ} (length x) n 0,
      )
      (sym (append_assoc pre x (replicate (n - length x) 0)))

pub length-write_at :
    (buf x : Bytes) (at : ℕ) → at + length x ≤ length buf → length (write_at buf at x) ≡ length buf
length-write_at buf x at h = omega (
  arith,
  length-append (take at buf) (x ++ drop (at + length x) buf),
  length-append x (drop (at + length x) buf),
  length-take at buf,
  length-drop (at + length x) buf,
)

-- A buffer is its front, a middle slice and the rest.
pub split_at : (buf : Bytes) (at n : ℕ) → drop at buf ≡ slice buf at (at + n) ++ drop (at + n) buf
split_at buf at n =
    rw (let e : at + n - at ≡ n = omega arith in e, ← drop-drop n at buf)
      (sym (take-append-drop n (drop at buf)))

-- Four bytes read one by one are the slice.
pub take_four :
    (xs : Bytes)
    → 4 ≤ length xs
    → take 4 xs ≡ byte_at xs 0 ∷ byte_at xs 1 ∷ byte_at xs 2 ∷ byte_at xs 3 ∷ []
take_four [] h = absurd (omega arith)
take_four (a ∷ []) h = absurd (omega arith)
take_four (a ∷ b ∷ []) h = absurd (omega arith)
take_four (a ∷ b ∷ c ∷ []) h = absurd (omega arith)
take_four (a ∷ b ∷ c ∷ d ∷ xs) h = refl
