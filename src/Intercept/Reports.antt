-- ===== src/Intercept/Reports.antt =====
-- What `send_transaction` writes to the log: `log_verdict` and the report of an unknown consensus
-- branch (zeronym/shim/src/intercept.rs).
use zero_shim.Prelude.{
  ℕ, ◌+◌, ◌≡◌, refl, Bool, true, false, not, ◌||◌, Option, List, [], ◌∷◌, arith, if◌then◌else◌,
  length,
}
use zero_shim.Bytes.{Bytes}
use zero_shim.Text.{Text, text}
use zero_shim.Classify.{Class, Evidence}
use zero_shim.Intercept.{
  Reason, Detail, Inspection, classified, failsafe, is_unrecognised_branch, treat_as_migration,
}

-- One line of the log, by its level and fields.
pub data LogLine : Type 0 where
  info : (class : Text) (diverted_in_production : Bool) → LogLine
  debug : Evidence → (frame_len : ℕ) → LogLine
  warn :
      (reason : Reason) (detail : Option Detail) (frame_len : ℕ) (diverted_in_production : Bool)
      → LogLine

class_label : Class → Text
class_label Class.migration = text "migration"
class_label Class.pass_through = text "passthrough"
class_label Class.unparseable = text "unparseable"

pub log_verdict : Inspection → Bytes → List LogLine
unfolding class_label
log_verdict (classified evidence) frame =
    info (class_label evidence.class) (treat_as_migration (classified evidence))
    ∷ debug evidence (length frame)
    ∷ []
log_verdict (failsafe reason detail) frame =
    warn reason detail (length frame) (treat_as_migration (failsafe reason detail)) ∷ []

-- The lines that the default level shows.
pub shown : List LogLine → List LogLine
shown [] = []
shown (debug evidence n ∷ lines) = shown lines
shown (line ∷ lines) = line ∷ shown lines

-- At the default level two classified transactions of one class leave the same log, whatever their
-- evidence and their bodies.
pub log_verdict_alike :
    (a b : Evidence) (f g : Bytes)
    → a.class ≡ b.class
    → shown (log_verdict (classified a) f) ≡ shown (log_verdict (classified b) g)
unfolding log_verdict shown treat_as_migration
log_verdict_alike a b f g h = rw h refl

-- `REPORTED.swap(true)`: the flag after one request, and whether this request writes the warning.
pub report_branch : Bool → Inspection → Bool × Bool
report_branch reported inspection =
    if is_unrecognised_branch inspection then (true, not reported) else (reported, false)

-- The warnings of one process over all its requests.
pub warnings : Bool → List Inspection → ℕ
warnings reported [] = 0
warnings reported (i ∷ is) =
    let (reported', warned) = report_branch reported i in
    (if warned then 1 else 0) + warnings reported' is

abbrev pub any_unrecognised : List Inspection → Bool
any_unrecognised [] = false
any_unrecognised (i ∷ is) = is_unrecognised_branch i || any_unrecognised is

warnings_after : (is : List Inspection) → warnings true is ≡ 0
unfolding warnings report_branch
warnings_after [] = refl
warnings_after (i ∷ is) = ground (arith, warnings_after is)

-- A process warns once if some request names an unknown consensus branch, and else never.
pub warnings_exact :
    (is : List Inspection) → warnings false is ≡ (if any_unrecognised is then 1 else 0)
unfolding warnings report_branch
warnings_exact [] = refl
warnings_exact (i ∷ is) = ground (arith, warnings_after is, warnings_exact is)
