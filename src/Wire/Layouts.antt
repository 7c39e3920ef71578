-- ===== src/Wire/Layouts.antt =====
-- What every frame of wire.rs starts with: a four-byte magic and the nonce.
use zero_shim.Prelude.{
  ℕ, ◌+◌, ◌-◌, ◌^◌, ◌≤◌, ◌<◌, ◌≡◌, refl, sym, ap, ◌∙◌, [], ◌++◌, append_assoc, arith, length, drop,
  length-append,
}
use zero_shim.Bytes.{Bytes, byte_at, slice, write_at, be32, u32_at}
use zero_shim.Bytes.Slices.{slice-append, byte_at-append, write_at-zeros, split_at}
use zero_shim.Bytes.BigEndian.{u32_at-append}
use zero_shim.Wire.{Nonce, IsNonce, zeros}

-- The zero buffer with the two `copy_from_slice` calls that every encoder begins with.
abbrev pub opened : ℕ → Bytes → Nonce → Bytes
opened n magic nonce = write_at (write_at (zeros n) 0 magic) 4 nonce

module _ (magic : Bytes) (nonce : Nonce) (hm : length magic ≡ 4) (hn : IsNonce nonce) where
  pub opened-zeros : (n : ℕ) → opened n magic nonce ≡ (magic ++ nonce) ++ zeros (n - 4 - 16)
  opened-zeros n =
      rw (write_at-zeros [] magic 0 n refl, hm, write_at-zeros magic nonce 4 (n - 4) hm, hn)

  pub length-front : length (magic ++ nonce) ≡ 20
  length-front = omega (arith, length-append magic nonce)

  -- Two more fields written behind the front.
  pub opened_two :
      (n at : ℕ) (a b : Bytes)
      → 20 + length a ≡ at
      → write_at (write_at (opened n magic nonce) 20 a) at b
        ≡ (magic ++ nonce) ++ (a ++ (b ++ zeros (n - 20 - length a - length b)))
  opened_two n at a b h = rw (
    opened-zeros n,
    write_at-zeros (magic ++ nonce) a 20 (n - 4 - 16) length-front,
    write_at-zeros ((magic ++ nonce) ++ a) b at (n - 4 - 16 - length a)
        (omega (arith, length-append (magic ++ nonce) a, length-front)),
    append_assoc ((magic ++ nonce) ++ a) b _,
    append_assoc (magic ++ nonce) a _,
    let e : n - 4 - 16 - length a - length b ≡ n - 20 - length a - length b = omega arith in e,
  )

  -- The second of two fields behind the front.
  pub second_field :
      (a b post : Bytes) (at to : ℕ)
      → 20 + length a ≡ at
      → at + length b ≡ to
      → slice ((magic ++ nonce) ++ (a ++ (b ++ post))) at to ≡ b
  second_field a b post at to ha hb = rw (← append_assoc (magic ++ nonce) a (b ++ post)) (
      slice-append ((magic ++ nonce) ++ a) b post at to
        (omega (arith, length-append (magic ++ nonce) a, length-front)) hb)

  pub front_u32 :
      (n : ℕ) (post : Bytes) → n < 2 ^ 32 → u32_at ((magic ++ nonce) ++ (be32 n ++ post)) 20 ≡ n
  front_u32 n post h = u32_at-append (magic ++ nonce) post n 20 length-front ∙ omega arith

  pub front_byte :
      (i k : ℕ) (rest : Bytes) → 20 + i ≡ k → byte_at ((magic ++ nonce) ++ rest) k ≡ byte_at rest i
  front_byte i k rest h = byte_at-append (magic ++ nonce) rest i k (omega (arith, length-front))

  module _ (rest : Bytes) where
    pub front_magic : slice ((magic ++ nonce) ++ rest) 0 4 ≡ magic
    front_magic = rw append_assoc (slice-append [] magic (nonce ++ rest) 0 4 refl (omega arith))

    pub front_nonce : slice ((magic ++ nonce) ++ rest) 4 20 ≡ nonce
    front_nonce = rw append_assoc (slice-append magic nonce rest 4 20 hm (omega arith))

    pub length-frame : length ((magic ++ nonce) ++ rest) ≡ 20 + length rest
    length-frame = omega (arith, length-append (magic ++ nonce) rest, length-append magic nonce)

-- Any buffer of at least 20 bytes splits at the same places.
pub front_split :
    (frame : Bytes)
    → 20 ≤ length frame
    → frame ≡ (slice frame 0 4 ++ slice frame 4 20) ++ drop 20 frame
front_split frame h =
    split_at frame 0 4
    ∙ ap (λ (t : Bytes). slice frame 0 4 ++ t) (split_at frame 4 16)
    ∙ sym (append_assoc (slice frame 0 4) (slice frame 4 20) (drop 20 frame))
