-- ===== src/Ingest/Merge/Unfixed.antt =====
-- The merge of `ingestFindingObservations`: lemmas on observations that are not complete.
use guardianbot.Prelude.{
  string_eq, String, List, lookup, ◌∷◌, ◌≡◌, Bool-cases, All, some, false, ◌==◌, ◌≢◌, inl,
  lookup-insert, ◌∙◌, lookup-map_values, insert_nonempty, inr,
}
use guardianbot.Ingest.Merge.{
  observe, observe_all, apply_all, merge_records, Records, refreshed, MergeContext,
  apply_observation, settled, found_record,
}
use guardianbot.Ingest.Records.{FindingRecord, FindingObservation, Observation, fixed}
use mathlib.Core.List.{[]}
use guardianbot.Ingest.Merge.Reported.{present_status_iff}

-- The record of this fingerprint is reported by some stream.
unfoldable pub IsPresent : String → Records → Type 0
IsPresent k records = (r : FindingRecord) × (lookup k records ≡ some r) × (r.streams ≢ [])

observe-IsPresent :
    (context : MergeContext) (stream : String) (f : FindingObservation) (k : String)
    (records : Records)
    → IsPresent k records
    → IsPresent k (observe context stream f records)
unfolding observe IsPresent refreshed
observe-IsPresent context stream f k records (r, there, reported) =
    let found = found_record context f (lookup f.fingerprint records) in
    let added = refreshed context stream f found in
    elim (Bool-cases (f.fingerprint == k)) [
      | inl same ↦ (
        added,
        lookup-insert f.fingerprint k added records ∙ rw same,
        insert_nonempty stream context.observed_at found.streams,
      )
      | inr differ ↦ (r, lookup-insert f.fingerprint k added records ∙ rw differ there, reported)
    ]

observe_all-IsPresent :
    (context : MergeContext) (stream : String) (fs : List FindingObservation) (k : String)
    (records : Records)
    → IsPresent k records
    → IsPresent k (observe_all context stream fs records)
unfolding observe_all
observe_all-IsPresent context stream [] k records h = h
observe_all-IsPresent context stream (f ∷ rest) k records h =
    observe_all-IsPresent context stream rest k (observe context stream f records)
      (observe-IsPresent context stream f k records h)

apply_all-IsPresent :
    (context : MergeContext) (os : List Observation) (k : String) (records : Records)
    → All (λ o. o.complete ≡ false) os
    → IsPresent k records
    → IsPresent k (apply_all context os records)
unfolding apply_all apply_observation
apply_all-IsPresent context [] k records incomplete h = h
apply_all-IsPresent context (o ∷ rest) k records (partial, incomplete) h =
    apply_all-IsPresent context rest k (apply_observation context o records) incomplete
      (rw partial (observe_all-IsPresent context o.stream o.findings k records h))

-- A merge of incomplete observations keeps every record that some stream reports and marks none of
-- them fixed.
pub merge_records-unfixed :
    (context : MergeContext) (os : List Observation) (k : String) (records : Records)
    → All (λ o. o.complete ≡ false) os
    → IsPresent k records
    → (r : FindingRecord) × (lookup k (merge_records context os records) ≡ some r)
      × (r.status ≢ fixed)
unfolding merge_records IsPresent settled
merge_records-unfixed context os k records incomplete h =
    let (r, there, reported) = apply_all-IsPresent context os k records incomplete h in
    (
      settled context r,
      lookup-map_values (settled context) k (apply_all context os records) there,
      (λ e. reported ((present_status_iff context r.fingerprint r.streams).0 e)),
    )
