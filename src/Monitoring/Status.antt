-- ===== src/Monitoring/Status.antt =====
-- packages/monitoring/src/status.ts: statuses, check results, and the worst status of a list. Also
-- the ages that the checks compute: milliseconds, or NaN where a time could not be read.
pub mod Worst
use guardianbot.Prelude.{
  ℕ, Bool, String, Option, List, Eq, ◌≡◌, ltb, ◌∷◌, nat_beq, true, false, some, if◌then◌else◌, ◌↔◌,
  ◌-◌, ◌==◌, arith, ◌||◌, is_value, string_eq,
}
use mathlib.Core.Option.{none}
use mathlib.Core.List.{[]}

pub data Status : Type 0 where
  passing warning failing not_applicable : Status

pub data InventoryState : Type 0 where
  enforced report_only advisory_only not_applicable_repository misconfigured missing_expected_runs :
      InventoryState

-- `Math.max(0, now - time)`: NaN where the time is NaN.
pub data Age : Type 0 where
  ms : ℕ → Age
  nan : Age

-- A value of a check's metadata. A fraction is `numerator / (suc denominator)`.
pub data Metadata : Type 0 where
  flag : Bool → Metadata
  count : ℕ → Metadata
  txt : String → Metadata
  fraction : ℕ → ℕ → Metadata
  absent : Metadata

pub record Check : Type 0 where
  pub key : String
  pub status : Status
  pub summary : String
  pub observed_at : Option String
  pub age : Option Age
  pub metadata : List (String × Metadata)

-- `value ?? null`
abbrev pub text_or_null : Option String → Metadata
text_or_null none = absent
text_or_null (some t) = txt t

-- `STATUS_WEIGHT`
unfoldable pub status_weight : Status → ℕ
status_weight failing = 3
status_weight warning = 2
status_weight passing = 1
status_weight not_applicable = 0

-- `compareMonitoringStatus(left, right) > 0`
unfoldable pub is_worse : Status → Status → Bool
is_worse left right = ltb (status_weight right) (status_weight left)

-- One turn of the loop.
unfoldable pub worse : Status → Status → Status
unfolding is_worse
worse status worst = if is_worse status worst then status else worst

unfoldable pub worse_of : List Status → Status → Status
worse_of [] worst = worst
worse_of (status ∷ rest) worst = worse_of rest (worse status worst)

unfoldable pub worst_status : List Status → Status
worst_status statuses = worse_of statuses not_applicable

abbrev pub status_beq : Status → Status → Bool
status_beq a b = nat_beq (status_weight a) (status_weight b)

pub status_beq_iff : (a b : Status) → (status_beq a b ≡ true) ↔ (a ≡ b)
unfolding status_weight
status_beq_iff a b = ground arith

instance abbrev pub status_eq : Eq Status
status_eq = record { beq = status_beq; beq_iff = status_beq_iff }

-- `clock.now().getTime() - time`, not below 0.
abbrev pub age_of : Option ℕ → ℕ → Age
age_of none now = nan
age_of (some time) now = ms (now - time)

-- `age > limit`, `age >= limit`: false of NaN.
abbrev pub is_over : Age → ℕ → Bool
is_over nan limit = false
is_over (ms age) limit = ltb limit age

-- `filter ? value === filter : true`: an empty text asks for nothing.
unfoldable pub meets : Option String → Option String → Bool
meets none value = true
meets (some wanted) value = wanted == "" || is_value value wanted
