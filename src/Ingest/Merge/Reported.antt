-- ===== src/Ingest/Merge/Reported.antt =====
-- The merge of `ingestFindingObservations`: lemmas on streams that stop reporting a record, and
-- on the status.
use guardianbot.Prelude.{
  string_eq, refl, ℕ, String, List, Option, ◌∷◌, ◌++◌, get_or_else, ◌≢◌, some,
}
use guardianbot.Ingest.Records.{
  Observation, FindingRecord, active_suppression, fixed, FindingObservation, status_until,
  suppression_status, Suppression, open_record, is_risk_reason,
}
use guardianbot.Ingest.Merge.{
  forget, apply_observation, settled, MergeContext, Records, observe_all, present_status,
  merge_records, apply_all,
}
use guardianbot.Prelude.{
  is_some, map, ◌≡◌, lookup, false, true, ◌↔◌, includes, Bool, All, [], values, ◌&&◌, not, arith,
  All-map_values, All-tt, Bool-cases, inl, lookup-delete_self, inr,
}
use guardianbot.Prelude.Js.{Dates}
use mathlib.Core.Option.{none}

-- A record that still has the stream was reported by it.
unfoldable pub IsReported : Observation → FindingRecord → Type 0
IsReported o r =
    is_some (lookup o.stream r.streams) ≡ true
    → includes (map (λ f. f.fingerprint) o.findings) r.fingerprint ≡ true

forget-IsReported :
    (o : Observation) (r : FindingRecord)
    → IsReported o (forget o.stream (map (λ f. f.fingerprint) o.findings) r)
unfolding forget IsReported
forget-IsReported o r h =
    let seen = map (λ (f : FindingObservation). f.fingerprint) o.findings in
    elim (Bool-cases (is_some (lookup o.stream r.streams) && not (includes seen r.fingerprint))) [
      | inl gone ↦ absurd (not_there (rw (gone, lookup-delete_self o.stream r.streams) at h))
      | inr kept ↦ rw kept (kept_seen _ _ kept (rw kept at h))
    ]
  where
    not_there : ¬ (false ≡ true)
    not_there e = cc

    kept_seen : (a b : Bool) → (a && not b) ≡ false → a ≡ true → b ≡ true
    kept_seen a b h k = ground (arith, h, k)

pub apply_observation-IsReported :
    (context : MergeContext) (o : Observation) (records : Records)
    → o.complete ≡ true
    → All (IsReported o) (values (apply_observation context o records))
unfolding apply_observation IsReported
apply_observation-IsReported context o records complete =
    let after = observe_all context o.stream o.findings records in
    rw complete (
      All-map_values (λ r. Unit {0}) (IsReported o) _ after (λ r u. forget-IsReported o r)
        (All-tt after))

-- A record is fixed where no stream reports it.
unfoldable pub IsSettled : FindingRecord → Type 0
IsSettled r = (r.status ≡ fixed) ↔ (r.streams ≡ [])

status_until_unfixed :
    (now : ℕ) (risk : Bool) (expiry : Option ℕ)
    → get_or_else (status_until now risk expiry) open_record ≢ fixed
unfolding status_until
status_until_unfixed now risk none e = cc
status_until_unfixed now risk (some expiry) e = absurd (ground (arith, e))

never_fixed :
    (dates : Dates) (now : ℕ) (suppression : Option Suppression)
    → get_or_else (suppression_status dates now suppression) open_record ≢ fixed
unfolding suppression_status
never_fixed dates now none e = cc
never_fixed dates now (some s) e =
    status_until_unfixed now (is_risk_reason s.reason) (dates.parse s.expires_at) e

pub present_status_iff :
    (context : MergeContext) (fingerprint : String) (streams : List (String × String))
    → (present_status context fingerprint streams ≡ fixed) ↔ (streams ≡ [])
unfolding present_status active_suppression
present_status_iff context fingerprint [] = ((λ e. refl), (λ e. refl))
present_status_iff context fingerprint (s ∷ rest) =
    ((λ e. absurd (never_fixed context.engine.dates context.now _ e)), (λ e. cc))

-- After a merge whose last observation is complete, a record still has that observation's stream only
-- if the observation reported it, and every record is fixed exactly where no stream reports it.
pub merge_records-IsSettled :
    (context : MergeContext) (earlier : List Observation) (last : Observation) (records : Records)
    → last.complete ≡ true
    → All
        (λ r. IsReported last r × IsSettled r)
        (values (merge_records context (earlier ++ (last ∷ [])) records))
unfolding merge_records settled IsReported IsSettled apply_all apply_observation
merge_records-IsSettled context earlier last records complete =
    All-map_values (IsReported last) _ (settled context)
      (apply_all context (earlier ++ (last ∷ [])) records)
      (λ r reported. (reported, present_status_iff context r.fingerprint r.streams))
      (applied earlier records)
  where
    applied :
        (earlier : List Observation) (records : Records)
        → All (IsReported last) (values (apply_all context (earlier ++ (last ∷ [])) records))
    applied [] records = apply_observation-IsReported context last records complete
    applied (o ∷ rest) records = applied rest (apply_observation context o records)
