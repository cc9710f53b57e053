-- ===== src/Ingest/Observations.antt =====
-- apps/control-plane/src/findings-lifecycle.ts, `mergeObservations`: one observation per stream.
pub mod Blame
pub mod Found
pub mod Merged
pub mod Streams
use guardianbot.Prelude.{
  ℕ, String, Bool, true, List, leb, [], if◌then◌else◌, ◌∷◌, get_or_else, ◌&&◌, map, ◌||◌, nat_beq,
  not, lookup, length, all, is_some, insert, values, take, string_eq,
}
use guardianbot.Ingest.Records.{FindingObservation, Observation}
use guardianbot.Prelude.Text.{code_units}

abbrev pub max_findings_per_stream : ℕ
max_findings_per_stream = 500

is_hex : ℕ → Bool
is_hex c = (leb 48 c && leb c 57) || (leb 97 c && leb c 102)

-- `/^[a-f0-9]{64}$/`
unfoldable pub is_fingerprint : String → Bool
unfolding is_hex
is_fingerprint text = let codes = code_units text in nat_beq (length codes) 64 && all is_hex codes

pub record StreamEntry : Type 0 where
  pub complete : Bool
  pub findings : List (String × FindingObservation)

abbrev pub new_entry : StreamEntry
new_entry = record { complete = true; findings = [] }

unfoldable pub add_finding :
    FindingObservation → List (String × FindingObservation) → List (String × FindingObservation)
add_finding finding findings =
    if is_fingerprint finding.fingerprint && not (is_some (lookup finding.fingerprint findings))
    then insert finding.fingerprint finding findings
    else findings

unfoldable pub add_findings :
    List FindingObservation
    → List (String × FindingObservation)
    → List (String × FindingObservation)
add_findings [] findings = findings
add_findings (f ∷ rest) findings = add_findings rest (add_finding f findings)

unfoldable pub extend_entry : Observation → StreamEntry → StreamEntry
extend_entry observation entry = record {
  complete = entry.complete && observation.complete;
  findings = add_findings observation.findings entry.findings;
}

unfoldable pub add_observation :
    Observation → List (String × StreamEntry) → List (String × StreamEntry)
add_observation observation streams =
    insert observation.stream
      (extend_entry observation (get_or_else (lookup observation.stream streams) new_entry)) streams

unfoldable pub by_stream :
    List Observation → List (String × StreamEntry) → List (String × StreamEntry)
by_stream [] streams = streams
by_stream (o ∷ rest) streams = by_stream rest (add_observation o streams)

unfoldable pub merged : String × StreamEntry → Observation
merged (stream, entry) = record {
  stream = stream;
  complete = entry.complete && leb (length (values entry.findings)) max_findings_per_stream;
  findings = take max_findings_per_stream (values entry.findings);
}

unfoldable pub merge_observations : List Observation → List Observation
merge_observations observations = map merged (by_stream observations [])
