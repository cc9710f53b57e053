-- ===== src/Ingest/Examples.antt =====
-- One finding that a stream reports, merged with a run that no longer reports it.
use guardianbot.Prelude.{
  string_eq, refl, Bool, All, some, ◌∷◌, lookup, none, [], true, false, ◌≡◌, values, ◌≢◌, map,
  String, length, ◌==◌, arith, eq_iff, List,
}
use guardianbot.Ingest.Records.{
  open_record, fixed, high, Engine, FindingRecord, Observation, active_suppression,
  suppression_status, low, Severity, critical, RecordStatus,
}
use guardianbot.Ownership.Owner.{semgrep}
use guardianbot.Ingest.Merge.{
  MergeContext, Records, merge_records, apply_all, apply_observation, observe_all, forget, settled,
  present_status,
}
use guardianbot.Ingest.Merge.Unfixed.{IsPresent, merge_records-unfixed}
use guardianbot.Samples.{sample_dates}
use guardianbot.Prelude.Text.{code_units}
use guardianbot.Ingest.Merge.Reported.{IsReported, IsSettled, merge_records-IsSettled}
use guardianbot.Ingest.Bound.Kept.{AreKeyed, IsWithin, enforce_bound-IsWithin}
use guardianbot.Ingest.Bound.{bound_open, enforce_bound, is_open_critical_or_high}
use mathlib.Core.List.{Memᴰ}
use guardianbot.Ingest.Bound.Priority.{enforce_bound-priority}
use guardianbot.Ingest.Observations.{
  merge_observations, by_stream, merged, add_observation, extend_entry, add_findings,
}
use guardianbot.Ingest.Observations.Merged.{IsMergedInto, merge_observations-IsMergedInto}

abbrev engine : Engine
engine = record { dates = sample_dates; parse_url = λ text. none }

abbrev context : MergeContext
context = record {
  engine = engine;
  observed_at = "TIIII";
  now = 5;
  now_iso = "TIIIII";
  run_id = 7;
  run_attempt = 1;
  sla_days = record { critical = some 7; high = some 30; medium = none; low = none; info = none };
  ownership = none;
}

abbrev finding : FindingRecord
finding = record {
  fingerprint = "aa";
  source = semgrep;
  rule_id = code_units "sql-injection";
  severity = high;
  path = some (code_units "src/a.ts");
  line = some 4;
  status = open_record;
  owner = "unowned";
  streams = ("semgrep", "TII") ∷ [];
  first_seen_at = "TI";
  opened_at = "TI";
  last_seen_at = "TII";
  fixed_at = none;
  sla_due_at = none;
  last_run_id = 6;
  last_run_attempt = 1;
  tickets = [];
  updated_at = "TII";
}

abbrev records : Records
records = ("aa", finding) ∷ []

abbrev nothing_found : Bool → Observation
nothing_found complete = record { stream = "semgrep"; complete = complete; findings = [] }

complete_fixes :
    map (λ r. r.status) (values (merge_records context (nothing_found true ∷ []) records))
    ≡ fixed ∷ []
unfolding merge_records apply_all apply_observation observe_all forget settled present_status
complete_fixes = refl

incomplete_keeps :
    map (λ r. r.status) (values (merge_records context (nothing_found false ∷ []) records))
    ≡ open_record ∷ []
unfolding merge_records apply_all apply_observation observe_all forget settled present_status
    active_suppression suppression_status
incomplete_keeps = refl

merge_records-IsSettled_example :
    All
      (λ r. IsReported (nothing_found true) r × IsSettled r)
      (values (merge_records context (nothing_found false ∷ nothing_found true ∷ []) records))
merge_records-IsSettled_example =
    merge_records-IsSettled context (nothing_found false ∷ []) (nothing_found true) records refl

records-IsPresent : IsPresent "aa" records
unfolding IsPresent
records-IsPresent = (finding, refl, (λ e. cc))

merge_records-unfixed_example :
    (r : FindingRecord) × (lookup "aa" (merge_records context (nothing_found false ∷ []) records)
      ≡ some r)
    × (r.status ≢ fixed)
merge_records-unfixed_example =
    merge_records-unfixed context (nothing_found false ∷ []) "aa" records (refl, tt)
      records-IsPresent

-- Four records where two fit: the fixed one is retired, and of the rest the one of low severity goes.
abbrev named : String → Severity → RecordStatus → String × FindingRecord
named name severity status =
    (name, record finding { fingerprint = name; severity = severity; status = status })

abbrev four_records : Records
four_records =
    named "aa" high open_record
    ∷ named "bb" low open_record
    ∷ named "cc" critical fixed
    ∷ named "dd" critical open_record
    ∷ []

differ : (a b : String) → (a == b) ≡ false → a ≢ b
differ a b h e = absurd (ground (arith, h, eq_iff a b, e))

four_records-AreKeyed : AreKeyed four_records
unfolding AreKeyed
four_records-AreKeyed = (
  refl,
  (differ "aa" "bb" refl, (differ "aa" "cc" refl, (differ "aa" "dd" refl, tt))),
  (
    refl,
    (differ "bb" "cc" refl, (differ "bb" "dd" refl, tt)),
    (refl, (differ "cc" "dd" refl, tt), (refl, tt, tt)),
  ),
)

four_records_kept :
    map (λ e. e.0) (enforce_bound sample_dates 2 four_records).kept ≡ "aa" ∷ "dd" ∷ []
unfolding bound_open sample_dates
four_records_kept = refl

enforce_bound-IsWithin_example :
    IsWithin 2 (length four_records) (enforce_bound sample_dates 2 four_records)
enforce_bound-IsWithin_example =
    enforce_bound-IsWithin sample_dates 2 four_records four_records-AreKeyed

-- Two urgent records where one fits: the critical one is kept.
abbrev urgent_records : Records
urgent_records = named "aa" high open_record ∷ named "dd" critical open_record ∷ []

urgent_records-AreKeyed : AreKeyed urgent_records
unfolding AreKeyed
urgent_records-AreKeyed = (refl, (differ "aa" "dd" refl, tt), (refl, tt, tt))

high_dropped :
    Memᴰ ((named "aa" high open_record).1) (enforce_bound sample_dates 1 urgent_records).dropped
unfolding bound_open sample_dates
high_dropped = Memᴰ.head refl

critical_kept :
    Memᴰ
      ((named "dd" critical open_record).1)
      (values (enforce_bound sample_dates 1 urgent_records).kept)
unfolding bound_open sample_dates
critical_kept = Memᴰ.head refl

high_urgent : is_open_critical_or_high ((named "aa" high open_record).1) ≡ true
unfolding is_open_critical_or_high
high_urgent = refl

enforce_bound-priority_example :
    is_open_critical_or_high ((named "dd" critical open_record).1) ≡ true
enforce_bound-priority_example =
    enforce_bound-priority sample_dates 1 urgent_records ((named "aa" high open_record).1)
      ((named "dd" critical open_record).1) urgent_records-AreKeyed high_dropped critical_kept
      high_urgent

-- A stream that one artifact reports completely and another does not.
abbrev two_artifacts : List Observation
two_artifacts = nothing_found false ∷ nothing_found true ∷ []

two_artifacts_incomplete : map (λ o. o.complete) (merge_observations two_artifacts) ≡ false ∷ []
unfolding merge_observations by_stream add_observation extend_entry merged add_findings
two_artifacts_incomplete = refl

merge_observations-IsMergedInto_example :
    (o : Observation) × Memᴰ o (merge_observations two_artifacts)
    × IsMergedInto two_artifacts (nothing_found false) o
    × ((p : Observation)
        → Memᴰ p (merge_observations two_artifacts)
        → p.stream ≡ (nothing_found false).stream
        → p ≡ o)
merge_observations-IsMergedInto_example =
    merge_observations-IsMergedInto two_artifacts (nothing_found false) (Memᴰ.head refl)
