-- ===== src/Ingest/Merge.antt =====
-- apps/control-plane/src/findings-lifecycle.ts, `ingestFindingObservations`: the part that merges the
-- accepted observations into the records. Reading and saving the records, and the lock around both, are
-- the store's.
pub mod Reported
pub mod Unfixed
use mathlib.Core.Option
use guardianbot.Ingest.Records.{
  Engine, FindingObservation, FindingRecord, Observation, RecordStatus, bounded_text, sla_due_at,
  RunOrder, SlaDays, record_path, fixed, open_record, Suppression, active_suppression, not_older,
}
use guardianbot.Prelude.{
  List, Option, String, ℕ, [], insert, ◌∷◌, if◌then◌else◌, map_values, some, none, Bool, leb,
  lookup, is_some, map, ◌==◌, filter, true, ◌&&◌, get_or_else, string_eq, false, not, includes,
  delete,
}
use guardianbot.Prelude.Js.{Dates, max_safe_integer}
use guardianbot.Ownership.Owner.{OwnershipContext, resolve_finding_owner, unowned}

-- The run's times as the merge uses them, and what it knows of the repository.
pub record MergeContext : Type 0 where
  pub engine : Engine
  pub observed_at : String
  pub now : ℕ
  pub now_iso : String
  pub run_id : ℕ
  pub run_attempt : ℕ
  pub sla_days : SlaDays
  pub ownership : Option (OwnershipContext × List Suppression)

abbrev pub Records : Type 0
Records = List (String × FindingRecord)

new_record : MergeContext → FindingObservation → FindingRecord
new_record context finding = record {
  fingerprint = finding.fingerprint;
  source = finding.source;
  rule_id = [];
  severity = finding.severity;
  path = none;
  line = none;
  status = open_record;
  owner = unowned;
  streams = [];
  first_seen_at = context.observed_at;
  opened_at = context.observed_at;
  last_seen_at = context.observed_at;
  fixed_at = none;
  sla_due_at = none;
  last_run_id = context.run_id;
  last_run_attempt = context.run_attempt;
  tickets = [];
  updated_at = context.now_iso;
}

-- A fixed root cause that returns starts a new SLA episode.
reopened : MergeContext → FindingRecord → FindingRecord
reopened context r = elim r.streams [
  | [] ↦ record r { opened_at = context.observed_at; fixed_at = none }
  | s ∷ rest ↦ r
]

found_record : MergeContext → FindingObservation → Option FindingRecord → FindingRecord
unfolding new_record reopened
found_record context finding none = new_record context finding
found_record context finding (some r) = reopened context r

-- `Date.parse(observedAt) >= Date.parse(lastSeenAt) || Number.isNaN(Date.parse(lastSeenAt))`
is_later : Option ℕ → Option ℕ → Bool
is_later observed none = true
is_later none (some last) = false
is_later (some time) (some last) = leb last time

-- `Number.isSafeInteger(line) && line > 0 ? line : undefined`
positive_line : Option ℕ → Option ℕ
positive_line none = none
positive_line (some n) = if leb 1 n && leb n max_safe_integer then some n else none

unfoldable pub refreshed :
    MergeContext → String → FindingObservation → FindingRecord → FindingRecord
unfolding is_later positive_line
refreshed context stream finding r = record r {
  source = finding.source;
  rule_id = bounded_text 256 finding.rule_id;
  severity = finding.severity;
  path = Option.map (bounded_text 1024) (record_path context.engine finding.source finding.path);
  line = positive_line finding.line;
  streams = insert stream context.observed_at r.streams;
  last_seen_at =
      if is_later (context.engine.dates.parse context.observed_at)
        (context.engine.dates.parse r.last_seen_at)
      then context.observed_at
      else r.last_seen_at;
  last_run_id = context.run_id;
  last_run_attempt = context.run_attempt;
}

unfoldable pub observe : MergeContext → String → FindingObservation → Records → Records
unfolding found_record
observe context stream finding records =
    insert finding.fingerprint
      (refreshed context stream finding
        (found_record context finding (lookup finding.fingerprint records)))
      records

unfoldable pub observe_all : MergeContext → String → List FindingObservation → Records → Records
observe_all context stream [] records = records
observe_all context stream (f ∷ rest) records =
    observe_all context stream rest (observe context stream f records)

-- A complete stream no longer reports what it has not seen.
unfoldable pub forget : String → List String → FindingRecord → FindingRecord
forget stream seen r =
    if is_some (lookup stream r.streams) && not (includes seen r.fingerprint)
    then record r { streams = delete stream r.streams }
    else r

unfoldable pub apply_observation : MergeContext → Observation → Records → Records
apply_observation context observation records =
    let after = observe_all context observation.stream observation.findings records in
    if observation.complete
    then map_values (forget observation.stream (map (λ f. f.fingerprint) observation.findings))
        after
    else after

unfoldable pub apply_all : MergeContext → List Observation → Records → Records
apply_all context [] records = records
apply_all context (o ∷ rest) records = apply_all context rest (apply_observation context o records)

-- `previousStatus !== "fixed" || !record.fixedAt`
abbrev fixed_time : RecordStatus → Option String → String → Option String
fixed_time fixed (some t) observed_at = if t == "" then some observed_at else some t
fixed_time _ _ observed_at = some observed_at

-- The status of a record with these streams.
unfoldable pub present_status : MergeContext → String → List (String × String) → RecordStatus
present_status context fingerprint [] = fixed
present_status context fingerprint (s ∷ rest) =
    get_or_else
      (active_suppression context.engine.dates
        (get_or_else (Option.map (λ o. o.1) context.ownership) []) fingerprint context.now)
      open_record

present_fixed_at : MergeContext → FindingRecord → List (String × String) → Option String
present_fixed_at context r [] = fixed_time r.status r.fixed_at context.observed_at
present_fixed_at context r (s ∷ rest) = none

settled_owner : MergeContext → FindingRecord → String
settled_owner context r = elim context.ownership [
  | none ↦ r.owner
  | some o ↦ resolve_finding_owner r.source r.path (o.0)
]

-- The last loop: status, owner and due date of a record.
unfoldable pub settled : MergeContext → FindingRecord → FindingRecord
unfolding present_fixed_at settled_owner
settled context r = record r {
  status = present_status context r.fingerprint r.streams;
  fixed_at = present_fixed_at context r r.streams;
  owner = settled_owner context r;
  sla_due_at = sla_due_at context.engine.dates r.severity r.opened_at context.sla_days;
}

unfoldable pub merge_records : MergeContext → List Observation → Records → Records
merge_records context accepted records =
    map_values (settled context) (apply_all context accepted records)

-- The observations of streams whose watermark is not newer than the run.
unfoldable pub accepted_observations :
    Dates → RunOrder → List (String × RunOrder) → List Observation → List Observation
accepted_observations dates run watermarks observations =
    filter (λ o. elim (lookup o.stream watermarks) [ none ↦ true | some w ↦ not_older dates run w ])
      observations
