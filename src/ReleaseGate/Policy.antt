-- ===== src/ReleaseGate/Policy.antt =====
-- `parseReleaseGatePolicy`: the policy from GUARDIANBOT_RELEASE_GATE_POLICY_JSON.
pub mod Floor
use Prim.Native.String.{len, String}
use mathlib.Core.Option
use mathlib.Core.Option.{Option}
use guardianbot.Prelude.{
  List, ℕ, Eq, Bool, ◌*◌, [], none, some, filter, Result, if◌then◌else◌, includes, ok, ◌&&◌, not,
  err, ◌∷◌, ◌==◌, false, ltb, true, string_eq, ◌++◌, ◌>>=◌,
}
use guardianbot.ReleaseGate.Types.{
  ReleaseGatePolicy, severity_of, requirement_of, critical, Severity, Requirement, severities,
  evidence_requirements, high, severity_eq, requirement_eq,
}
use guardianbot.Prelude.Js.{Fields, Items, Json, field, cons, arr, bool, obj, str, end, nil}
use guardianbot.Prelude.Text.{trim}

pub data PolicyError : Type 0 where
  too_large invalid_json not_object bad_severities bad_evidence : PolicyError
  unsupported_fields : List String → PolicyError
  not_boolean : String → PolicyError

abbrev pub max_policy_bytes : ℕ
max_policy_bytes = 16 * 1024

abbrev pub default_policy : ReleaseGatePolicy
default_policy = record {
  blocking_severities = critical ∷ [];
  block_high = false;
  verified_only = true;
  required_evidence = Requirement.signature ∷ Requirement.image_scan ∷ Requirement.sbom ∷ [];
}

-- `Object.keys(document)`; the parser gives each key once.
keys : Fields → List String
keys end = []
keys (field k v fs) = k ∷ keys fs

member : String → Fields → Option Json
member key end = none
member key (field k v fs) = let rest = member key fs in if k == key then some v else rest

allowed_fields : List String
allowed_fields = "blockingSeverities" ∷ "blockHigh" ∷ "verifiedOnly" ∷ "requiredEvidence" ∷ []

module _ {A : Type 0} where
  -- The elements of an array of known names; `none` if some element is no known name.
  known_items : (String → Option A) → Items → Option (List A)
  known_items known nil = some []
  known_items known (cons (str name) rest) = elim (known name) [
    | none ↦ none
    | some a ↦ Option.map (λ more. a ∷ more) (known_items known rest)
  ]
  known_items known (cons other rest) = none

  -- `uniqueSorted`: the values in the given order, each once.
  pub unique_sorted : ⦃e : Eq A⦄ → List A → List A → List A
  unique_sorted values order = filter (λ value. includes values value) order

  -- An array of known names that holds the one that may not be missing.
  checked_names :
      ⦃e : Eq A⦄
      → PolicyError
      → (String → Option A)
      → A
      → List A
      → Json
      → Result PolicyError (List A)
  unfolding known_items unique_sorted
  checked_names error known needed order (arr items) = elim (known_items known items) [
    | none ↦ err error
    | some values ↦ if includes values needed then ok (unique_sorted values order) else err error
  ]
  checked_names error known needed order other = err error

boolean_field : String → Bool → Option Json → Result PolicyError Bool
boolean_field name default none = ok default
boolean_field name default (some (bool b)) = ok b
boolean_field name default (some other) = err (not_boolean name)

severities_field : Option Json → Result PolicyError (List Severity)
unfolding checked_names severity_of
severities_field none = ok default_policy.blocking_severities
severities_field (some value) = checked_names bad_severities severity_of critical severities value

evidence_field : Option Json → Result PolicyError (List Requirement)
unfolding checked_names requirement_of
evidence_field none = ok default_policy.required_evidence
evidence_field (some value) =
    checked_names bad_evidence requirement_of Requirement.signature evidence_requirements value

-- `blockHigh` adds the severity high.
with_block_high : ReleaseGatePolicy → ReleaseGatePolicy
unfolding unique_sorted
with_block_high policy =
    if policy.block_high && not (includes policy.blocking_severities high)
    then record policy {
      blocking_severities = unique_sorted (policy.blocking_severities ++ high ∷ []) severities;
    }
    else policy

-- The policy of a document whose fields are all known.
fields_policy : Fields → Result PolicyError ReleaseGatePolicy
unfolding member severities_field boolean_field evidence_field with_block_high
fields_policy document = do
  blocking ← severities_field (member "blockingSeverities" document)
  block_high ← boolean_field "blockHigh" default_policy.block_high (member "blockHigh" document)
  verified ←
      boolean_field "verifiedOnly" default_policy.verified_only (member "verifiedOnly" document)
  evidence ← evidence_field (member "requiredEvidence" document)
  ok (
      with_block_high (record {
        blocking_severities = blocking;
        block_high = block_high;
        verified_only = verified;
        required_evidence = evidence;
      }))

pub extra_fields : Fields → List String
unfolding keys allowed_fields
extra_fields document = filter (λ key. not (includes allowed_fields key)) (keys document)

document_policy : Fields → Result PolicyError ReleaseGatePolicy
unfolding extra_fields fields_policy
document_policy document = elim (extra_fields document) [
  | key ∷ extra ↦ err (unsupported_fields (key ∷ extra))
  | [] ↦ fields_policy document
]

value_policy : Option Json → Result PolicyError ReleaseGatePolicy
unfolding document_policy
value_policy none = err invalid_json
value_policy (some (obj document)) = document_policy document
value_policy (some other) = err not_object

-- `json_parse` is the engine's `JSON.parse`; `none` is its SyntaxError.
unfoldable pub parse_release_gate_policy :
    (String → Option Json) → Option String → Result PolicyError ReleaseGatePolicy
unfolding value_policy trim
parse_release_gate_policy json_parse none = ok default_policy
parse_release_gate_policy json_parse (some raw) =
    if trim raw == ""
    then ok default_policy
    else if ltb max_policy_bytes (len raw)
    then err too_large
    else value_policy (json_parse raw)
