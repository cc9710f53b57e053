-- ===== src/ReleaseGate/Policy/Floor.antt =====
-- `parseReleaseGatePolicy`: lemmas on accepted policies.
use guardianbot.Prelude.{
  refl, Eq, includes, List, ◌≡◌, String, true, Option, includes_of_mem, filter, ok, Bool-cases,
  mem-filter, ◌&&◌, mem_of_includes, Option-cases, not, inl, inr, arith, Result, ◌++◌, subst, some,
  ◌∷◌, [], >>=-eq-ok, mem-append_left, ◌==◌, mem-append_right, ltb, string_eq,
}
use guardianbot.ReleaseGate.Types.{
  ReleaseGatePolicy, critical, Requirement, high, severity_eq, requirement_eq, severities, Severity,
  severity_of, requirement_of, evidence_requirements,
}
use guardianbot.ReleaseGate.Policy.{
  with_block_high, unique_sorted, checked_names, PolicyError, known_items, severities_field,
  evidence_field, fields_policy, document_policy, value_policy, default_policy,
  parse_release_gate_policy, bad_severities, bad_evidence, extra_fields, max_policy_bytes, len,
  member, boolean_field,
}
use guardianbot.Prelude.Js.{Json, arr, Fields, obj}
use guardianbot.Prelude.Text.{trim}
use mathlib.Core.Option.{none}
use mathlib.Core.List.{Memᴰ}

module _ {A : Type 0} ⦃e : Eq A⦄ where
  unique_sorted-includes :
      (values order : List A) (a : A)
      → includes values a ≡ true
      → includes order a ≡ true
      → includes (unique_sorted values order) a ≡ true
  unfolding unique_sorted
  unique_sorted-includes values order a here known =
      includes_of_mem (filter (λ value. includes values value) order)
        (mem-filter (λ value. includes values value) order (mem_of_includes order a known) here)

  checked_names-includes :
      (error : PolicyError) (known : String → Option A) (needed : A) (order : List A) (value : Json)
      {values : List A}
      → includes order needed ≡ true
      → checked_names error known needed order value ≡ ok values
      → includes values needed ≡ true
  unfolding checked_names
  checked_names-includes error known needed order (arr items) {values} listed h =
      elim (Option-cases (known_items known items)) [
        | inl none_known ↦ cc (rw (none_known, checked_names) at h)
        | inr (found, known_as) ↦ elim (Bool-cases (includes found needed)) [
          | inl here ↦
              let same : unique_sorted found order ≡ values =
                ground (arith, rw here at (rw (known_as, checked_names) at h)) in
              rw (← same) (unique_sorted-includes found order needed here listed)
          | inr missing ↦ cc (rw missing at (rw (known_as, checked_names) at h))
        ]
      ]
  checked_names-includes error known needed order other listed h = cc

-- The floor of a policy: Critical findings block, a signature is required, and `blockHigh` blocks High.
pub record HasFloor (policy : ReleaseGatePolicy) : Type 0 where
  pub blocks_critical : includes policy.blocking_severities critical ≡ true
  pub requires_signature : includes policy.required_evidence Requirement.signature ≡ true
  pub blocks_high : policy.block_high ≡ true → includes policy.blocking_severities high ≡ true

with_block_high-HasFloor :
    (policy : ReleaseGatePolicy)
    → includes policy.blocking_severities critical ≡ true
    → includes policy.required_evidence Requirement.signature ≡ true
    → HasFloor (with_block_high policy)
unfolding with_block_high
with_block_high-HasFloor policy c s =
    let longer = policy.blocking_severities ++ high ∷ [] in
    elim (Bool-cases (policy.block_high && not (includes policy.blocking_severities high))) [
      | inl add ↦ rw add (record {
        blocks_critical =
            unique_sorted-includes longer severities critical
              (includes_of_mem longer (
                mem-append_left _ (high ∷ [])
                  (mem_of_includes policy.blocking_severities critical c)))
              refl;
        requires_signature = s;
        blocks_high = λ h.
            unique_sorted-includes longer severities high
              (includes_of_mem longer
                (mem-append_right policy.blocking_severities (high ∷ []) (Memᴰ.head refl)))
              refl;
      })
      | inr keep ↦ rw keep (record {
        blocks_critical = c;
        requires_signature = s;
        blocks_high = λ h. ground (arith, keep, h);
      })
    ]

severities_field-includes :
    (o : Option Json) {values : List Severity}
    → severities_field o ≡ ok values
    → includes values critical ≡ true
unfolding severities_field
severities_field-includes none h = ground arith
severities_field-includes (some value) h =
    checked_names-includes bad_severities severity_of critical severities value refl h

evidence_field-includes :
    (o : Option Json) {values : List Requirement}
    → evidence_field o ≡ ok values
    → includes values Requirement.signature ≡ true
unfolding evidence_field
evidence_field-includes none h = ground arith
evidence_field-includes (some value) h =
    checked_names-includes bad_evidence requirement_of Requirement.signature evidence_requirements
      value refl h

ok-injective :
    (p q : ReleaseGatePolicy) → ◌≡◌ {A = Result PolicyError ReleaseGatePolicy} (ok p) (ok q) → p ≡ q
ok-injective p q h = cc

fields_policy-HasFloor :
    (document : Fields) (p : ReleaseGatePolicy) → fields_policy document ≡ ok p → HasFloor p
unfolding fields_policy
fields_policy-HasFloor document p h =
    let (blocking, got_blocking, h1) =
      >>=-eq-ok (severities_field (member "blockingSeverities" document)) _ h in
    let (block_high, got_high, h2) =
      >>=-eq-ok (boolean_field "blockHigh" default_policy.block_high (member "blockHigh" document))
        _ h1 in
    let (verified, got_verified, h3) =
      >>=-eq-ok
        (boolean_field "verifiedOnly" default_policy.verified_only (member "verifiedOnly" document))
        _ h2 in
    let (evidence, got_evidence, h4) =
      >>=-eq-ok (evidence_field (member "requiredEvidence" document)) _ h3 in
    let read : ReleaseGatePolicy = record {
      blocking_severities = blocking;
      block_high = block_high;
      verified_only = verified;
      required_evidence = evidence;
    } in
    subst HasFloor (ok-injective (with_block_high read) p h4) (
      with_block_high-HasFloor read
        (severities_field-includes (member "blockingSeverities" document) got_blocking)
        (evidence_field-includes (member "requiredEvidence" document) got_evidence))

-- The keys that `document` may not have.
document_policy-ok :
    (document : Fields) (p : ReleaseGatePolicy)
    → document_policy document ≡ ok p
    → (extra_fields document ≡ []) × (fields_policy document ≡ ok p)
unfolding document_policy
document_policy-ok document p h = go (extra_fields document) refl
  where
    go :
        (extra : List String)
        → extra_fields document ≡ extra
        → (extra_fields document ≡ []) × (fields_policy document ≡ ok p)
    go [] e = (e, rw (e, document_policy) at h)
    go (key ∷ more) e = cc (rw (e, document_policy) at h)

value_policy-HasFloor :
    (o : Option Json) (p : ReleaseGatePolicy) → value_policy o ≡ ok p → HasFloor p
unfolding value_policy
value_policy-HasFloor none p h = cc
value_policy-HasFloor (some (obj document)) p h =
    fields_policy-HasFloor document p (document_policy-ok document p h).1
value_policy-HasFloor (some other) p h = cc

default-HasFloor : HasFloor default_policy
default-HasFloor = record {
  blocks_critical = refl;
  requires_signature = refl;
  blocks_high = λ h. cc h;
}

-- Every policy that is accepted blocks Critical findings, requires the signature, and blocks High
-- findings where it sets `blockHigh`.
pub parse-HasFloor :
    (json_parse : String → Option Json) (raw : Option String) (p : ReleaseGatePolicy)
    → parse_release_gate_policy json_parse raw ≡ ok p
    → HasFloor p
unfolding parse_release_gate_policy
parse-HasFloor json_parse none p h = subst HasFloor (ok-injective _ p h) default-HasFloor
parse-HasFloor json_parse (some raw) p h = elim (Bool-cases (trim raw == "")) [
  | inl blank ↦ subst HasFloor (ok-injective _ p (rw blank at h)) default-HasFloor
  | inr full ↦ elim (Bool-cases (ltb max_policy_bytes (len raw))) [
    | inl long ↦ cc (rw (full, long) at h)
    | inr short ↦ value_policy-HasFloor (json_parse raw) p (rw (full, short) at h)
  ]
]
