-- ===== src/Listener/Tasks.antt =====
-- The list of the connection tasks of the accept loop (`serve_with_shutdown` of
-- zeronym/shim/src/proxy.rs): one taken out, one replaced, one found.
use zero_shim.Prelude.{
  ℕ, ◌+◌, ◌≡◌, refl, inl, inr, some, List, [], ◌∷◌, arith, ◌==◌, ==_iff, Bool-cases, length, All,
}
use zero_shim.Listener.{Connection, task, without, replaced}

pub length-without :
    (id : ℕ) (c : Connection) (cs : List Connection)
    → task id cs ≡ some c
    → length (without id cs) + 1 ≡ length cs
length-without id c [] f = absurd (ground arith)
length-without id c (d ∷ cs) f = elim (Bool-cases (d.id == id)) [
  | inl e ↦ rw e (omega arith)
  | inr e ↦ rw e (omega (arith, length-without id c cs (ground arith)))
]

pub length-replaced :
    (new : Connection) (cs : List Connection) → length (replaced new cs) ≡ length cs
length-replaced new [] = refl
length-replaced new (c ∷ cs) = ground (arith, length-replaced new cs)

-- The task found under a number.
pub task-id : (id : ℕ) (c : Connection) (cs : List Connection) → task id cs ≡ some c → c.id ≡ id
task-id id c [] f = absurd (ground arith)
task-id id c (d ∷ cs) f = elim (Bool-cases (d.id == id)) [
  | inl e ↦ ground (arith, ==_iff d.id id)
  | inr e ↦ task-id id c cs (ground arith)
]

module _ (P : Connection → Type 0) where
  pub All-task :
      (id : ℕ) (c : Connection) (cs : List Connection) → All P cs → task id cs ≡ some c → P c
  All-task id c [] h f = absurd (ground arith)
  All-task id c (d ∷ cs) h f = elim (Bool-cases (d.id == id)) [
    | inl e ↦ let q : d ≡ c = ground arith in coe 0 1 (i. P (q i)) h.0
    | inr e ↦ All-task id c cs h.1 (ground arith)
  ]

  pub All-without : (id : ℕ) (cs : List Connection) → All P cs → All P (without id cs)
  All-without id [] h = h
  All-without id (c ∷ cs) h = elim (Bool-cases (c.id == id)) [
    | inl e ↦ rw e h.1
    | inr e ↦ rw e (h.0, All-without id cs h.1)
  ]

  pub All-replaced :
      (new : Connection) (cs : List Connection) → All P cs → P new → All P (replaced new cs)
  All-replaced new [] h n = h
  All-replaced new (c ∷ cs) h n = elim (Bool-cases (c.id == new.id)) [
    | inl e ↦ rw e (n, h.1)
    | inr e ↦ rw e (h.0, All-replaced new cs h.1 n)
  ]
