-- ===== src/Ingest/Bound.antt =====
-- apps/control-plane/src/findings-lifecycle.ts, `enforceFindingLifecycleBound`: what leaves a repository
-- whose records are more than their bound.
pub mod Kept
pub mod Priority
use text.Mathlib.Text.{is_le}
use Prim.Native.String.{compare}
use guardianbot.Ingest.Records.{open_ticket}
use guardianbot.Ingest.Merge.{Records}
use guardianbot.Ingest.Records.{
  Severity, RecordStatus, FindingRecord, TicketState, time_or_zero, info, low, medium, fixed,
  open_record, high, critical,
}
use guardianbot.Prelude.{
  ℕ, Bool, List, String, true, ◌&&◌, ltb, if◌then◌else◌, take, length, some, false, leb, all, ◌||◌,
  get_or_else, ◌∷◌, sort, map, ◌-◌, not, nat_beq, delete, filter, values, [], string_eq,
  insert_sorted,
}
use guardianbot.Prelude.Js.{Dates}

pub record Enforced : Type 0 where
  pub kept : Records
  pub retired : List String
  pub dropped : List FindingRecord

-- `SEVERITY_DROP_ORDER`
unfoldable pub drop_order : Severity → ℕ
drop_order info = 0
drop_order low = 1
drop_order medium = 2
drop_order high = 3
drop_order critical = 4

abbrev is_fixed : RecordStatus → Bool
is_fixed fixed = true
is_fixed _ = false

abbrev is_open_status : RecordStatus → Bool
is_open_status open_record = true
is_open_status _ = false

abbrev is_critical_or_high : Severity → Bool
is_critical_or_high critical = true
is_critical_or_high high = true
is_critical_or_high _ = false

unfoldable pub is_open_critical_or_high : FindingRecord → Bool
is_open_critical_or_high r = is_open_status r.status && is_critical_or_high r.severity

abbrev has_open_ticket : TicketState → Bool
has_open_ticket ticket = elim ticket.state [ some open_ticket ↦ true | _ ↦ false ]

unfoldable pub is_retirable : FindingRecord → Bool
is_retirable r = is_fixed r.status && all (λ t. not (has_open_ticket (t.1))) r.tickets

-- `a || b || ...` of differences: the first that is not 0 decides; `then_by` compares one more.
abbrev pub then_by : ℕ → ℕ → Bool → Bool
then_by left right rest = ltb left right || (nat_beq left right && rest)

-- `left.fingerprint.localeCompare(right.fingerprint) <= 0`, of hexadecimal texts
abbrev fingerprint_leb : FindingRecord → FindingRecord → Bool
fingerprint_leb left right = is_le (compare left.fingerprint right.fingerprint)

unfoldable pub retire_before : Dates → FindingRecord → FindingRecord → Bool
retire_before dates left right =
    then_by (time_or_zero dates (get_or_else left.fixed_at ""))
      (time_or_zero dates (get_or_else right.fixed_at "")) (fingerprint_leb left right)

abbrev pub as_number : Bool → ℕ
as_number b = if b then 1 else 0

unfoldable pub drop_before : Dates → FindingRecord → FindingRecord → Bool
drop_before dates left right =
    then_by (as_number (is_open_critical_or_high left)) (as_number (is_open_critical_or_high right))
      (then_by (as_number (is_open_status left.status)) (as_number (is_open_status right.status)) (
        then_by (drop_order left.severity) (drop_order right.severity) (
          then_by (time_or_zero dates right.first_seen_at) (time_or_zero dates left.first_seen_at)
            (fingerprint_leb left right))))

unfoldable pub remove_all : List String → Records → Records
remove_all [] records = records
remove_all (k ∷ ks) records = remove_all ks (delete k records)

unfoldable pub retired_records : Dates → ℕ → Records → List FindingRecord
retired_records dates overflow records =
    take overflow (sort (retire_before dates) (filter is_retirable (values records)))

unfoldable pub dropped_records : Dates → ℕ → Records → List FindingRecord
dropped_records dates remaining records = take remaining (sort (drop_before dates) (values records))

abbrev pub fingerprints : List FindingRecord → List String
fingerprints = map (λ r. r.fingerprint)

-- What is left after the retired ones, and what is dropped of it: nothing where it fits.
unfoldable pub drop_rest : Dates → ℕ → List String → Records → Enforced
drop_rest dates bound retired records =
    let dropped = dropped_records dates (length records - bound) records in
    record {
      kept = remove_all (fingerprints dropped) records;
      retired = retired;
      dropped = dropped;
    }

unfoldable pub enforce_bound : Dates → ℕ → Records → Enforced
unfolding drop_rest
enforce_bound dates bound records =
    let retired = fingerprints (retired_records dates (length records - bound) records) in
    if leb (length records) bound
    then record { kept = records; retired = []; dropped = [] }
    else drop_rest dates bound retired (remove_all retired records)

-- Opens the whole function: for tests.
unfoldable pub bound_open : Unit {0}
unfolding sort insert_sorted drop_order is_open_critical_or_high is_retirable retire_before
    drop_before remove_all retired_records dropped_records enforce_bound
bound_open = tt
