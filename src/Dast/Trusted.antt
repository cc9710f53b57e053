-- ===== src/Dast/Trusted.antt =====
-- apps/control-plane/src/dast-session.ts: what the checks before the claim have established of an attempt.
use guardianbot.Dast.Fields.{
  DastError, repository_of, sha_of, positive_number, is_repository, is_sha,
}
use guardianbot.Dast.Request.{DastRequest, authenticated_baseline, authenticated_full, ScanProfile}
use guardianbot.Dast.Identity.{
  OidcClaims, Authorization, WorkflowRef, agrees, expect, default_ref, numeric_oidc_claim,
  event_allowed, validate_oidc_identity, digits_value, workflows_match, environment_matches,
  is_decimal, parse_job_workflow_ref, dast_workflow_path, parse_caller_workflow_ref,
  caller_workflow_path, job_sha,
}
use guardianbot.Prelude.{
  ◌==◌, Eq, Result, Option, some, none, string_eq, is_value, refl, Bool, String, if◌then◌else◌, ◌≡◌,
  ok, ℕ, true, ◌⊎◌, err, Bool-cases, ap, get_or_else, ok-injective, >>=-eq-ok, inl, ltb, inr, ◌&&◌,
  leb, ◌+s◌, and_iff, ◌∙◌, nat_eq,
}
use guardianbot.Prelude.Text.{to_lower, trim}
use mathlib.Core.Bool.{false}
use guardianbot.Prelude.Js.{max_safe_integer}

-- A guard that let a value pass.
pub guard-ok :
    {A : Type 0} (b : Bool) (x y : A) (e : DastError)
    → (if b then ok x else err e) ≡ ok y
    → (b ≡ true) × (x ≡ y)
guard-ok true x y e h = (refl, ok-injective x y h)
guard-ok false x y e h = cc

agrees-ok : (b x : Bool) → agrees b ≡ ok x → b ≡ true
unfolding agrees
agrees-ok true x h = refl
agrees-ok false x h = cc

expect-ok :
    {A : Type 0} ⦃compare : Eq A⦄ (found : Result DastError A) (value : A) (x : Bool)
    → expect found value ≡ ok x
    → found ≡ ok value
unfolding expect
expect-ok (err e) value x h = cc
expect-ok ⦃compare⦄ (ok found) value x h =
    ap ok ((compare.beq_iff found value).0 (agrees-ok (found == value) x h))

repository_of-ok :
    (text label result : String)
    → repository_of text label ≡ ok result
    → to_lower (trim text) ≡ result
unfolding repository_of
repository_of-ok text label result h =
    (guard-ok (is_repository (to_lower (trim text))) _ result _ h).1

sha_of-ok : (text label result : String) → sha_of text label ≡ ok result → to_lower text ≡ result
unfolding sha_of
sha_of-ok text label result h = (guard-ok (is_sha (to_lower text)) _ result _ h).1

numeric-ok :
    (text label : String) (n : ℕ) → numeric_oidc_claim text label ≡ ok n → digits_value text 0 ≡ n
unfolding numeric_oidc_claim positive_number
numeric-ok text label n h = elim (Bool-cases (is_decimal text)) [
  | inl digits ↦
      (guard-ok (ltb 0 (digits_value text 0) && leb (digits_value text 0) max_safe_integer) _ n _
        (rw digits at h)).1
  | inr others ↦ let e : err _ ≡ ok n = rw others at h in cc
]

pub is_value-true :
    (found : Option String) (value : String) → is_value found value ≡ true → found ≡ some value
is_value-true none value h = cc
is_value-true (some text) value h = ap some ((string_eq.beq_iff text value).0 h)

-- The events that may ask for a scan.
unfoldable pub IsAllowedEvent : ScanProfile → String → Type 0
IsAllowedEvent authenticated_full event = event ≡ "schedule"
IsAllowedEvent authenticated_baseline event = (event ≡ "schedule") ⊎ (event ≡ "workflow_dispatch")

event_allowed-IsAllowedEvent :
    (profile : ScanProfile) (event : String)
    → event_allowed profile event ≡ true
    → IsAllowedEvent profile event
unfolding event_allowed IsAllowedEvent
event_allowed-IsAllowedEvent authenticated_full event h = (string_eq.beq_iff event _).0 h
event_allowed-IsAllowedEvent authenticated_baseline event h =
    elim (Bool-cases (event == "schedule")) [
      | inl scheduled ↦ inl ((string_eq.beq_iff event _).0 scheduled)
      | inr differ ↦ inr ((string_eq.beq_iff event _).0 (rw differ at h))
    ]

-- The claims of a token against a request: the run, the commit and the repository are those of the request, and
-- the workflows are the trusted ones, on the default branch.
pub record IsTrusted (claims : OidcClaims) (request : DastRequest) (repository : Authorization)
    (trusted_repository trusted_sha : String) : Type 0 where
  pub claims_repository : to_lower (trim claims.repository) ≡ request.repository
  pub active_repository : to_lower (trim repository.full_name) ≡ request.repository
  pub repository_number : digits_value claims.repository_id 0 ≡ request.repository_id
  pub run_number : digits_value claims.run_id 0 ≡ request.run_id
  pub attempt_number : digits_value claims.run_attempt 0 ≡ request.run_attempt
  pub commit : to_lower claims.sha ≡ request.head_sha
  pub workflow_commit : to_lower (get_or_else claims.workflow_sha "") ≡ request.head_sha
  pub branch : claims.reference ≡ some (default_ref repository)
  pub event : IsAllowedEvent request.scan_profile (get_or_else claims.event_name "")
  pub runner : claims.runner_environment ≡ some "github-hosted"
  pub job : WorkflowRef
  pub job_read : parse_job_workflow_ref claims.job_workflow_ref ≡ ok job
  pub job_repository : job.repository ≡ trusted_repository
  pub job_path : job.workflow_path ≡ dast_workflow_path
  pub job_version : job.version ≡ trusted_sha
  pub caller : WorkflowRef
  pub caller_read : parse_caller_workflow_ref (get_or_else claims.workflow_ref "") ≡ ok caller
  pub caller_repository : caller.repository ≡ request.repository
  pub caller_path : caller.workflow_path ≡ caller_workflow_path
  pub caller_version : caller.version ≡ default_ref repository
  pub environment : claims.environment ≡ some "guardianbot-dast"
  pub subject :
      to_lower claims.sub ≡ "repo:" +s request.repository +s ":environment:guardianbot-dast"

module _ (claims : OidcClaims) (request : DastRequest) (repository : Authorization)
    (trusted_repository trusted_sha : String) where
  pub validate-IsTrusted :
      (x : Bool)
      → validate_oidc_identity claims request repository trusted_repository trusted_sha ≡ ok x
      → IsTrusted claims request repository trusted_repository trusted_sha
  unfolding validate_oidc_identity workflows_match environment_matches
  validate-IsTrusted x h =
      let (normalized, read, h) =
        >>=-eq-ok (repository_of claims.repository "OIDC repository") _ h in
      let (job, job_read, h) = >>=-eq-ok (parse_job_workflow_ref claims.job_workflow_ref) _ h in
      let (caller, caller_read, h) =
        >>=-eq-ok (parse_caller_workflow_ref (get_or_else claims.workflow_ref "")) _ h in
      let (b1, named, h) = >>=-eq-ok (agrees (normalized == request.repository)) _ h in
      let (b2, authorized, h) =
        >>=-eq-ok
          (expect (repository_of repository.full_name "authorized repository") request.repository) _
          h in
      let (b3, identified, h) =
        >>=-eq-ok
          (expect (numeric_oidc_claim claims.repository_id "OIDC repository_id")
            request.repository_id)
          _ h in
      let (b4, run, h) =
        >>=-eq-ok (expect (numeric_oidc_claim claims.run_id "OIDC run_id") request.run_id) _ h in
      let (b5, tried, h) =
        >>=-eq-ok
          (expect (numeric_oidc_claim claims.run_attempt "OIDC run_attempt") request.run_attempt) _
          h in
      let (b6, head, h) = >>=-eq-ok (expect (sha_of claims.sha "OIDC sha") request.head_sha) _ h in
      let (b7, workflow, h) =
        >>=-eq-ok
          (expect (sha_of (get_or_else claims.workflow_sha "") "OIDC workflow_sha")
            request.head_sha)
          _ h in
      let (b8, matching, h) =
        >>=-eq-ok
          (agrees
            (workflows_match claims request repository trusted_repository trusted_sha job caller))
          _ h in
      let (b9, called, h) = >>=-eq-ok (job_sha claims.job_workflow_sha trusted_sha) _ h in
      let (p1, q9) = (and_iff _ _).0 (agrees-ok _ b8 matching) in
      let (p2, q8) = (and_iff _ _).0 p1 in
      let (p3, q7) = (and_iff _ _).0 p2 in
      let (p4, q6) = (and_iff _ _).0 p3 in
      let (p5, q5) = (and_iff _ _).0 p4 in
      let (p6, q4) = (and_iff _ _).0 p5 in
      let (p7, q3) = (and_iff _ _).0 p6 in
      let (q1, q2) = (and_iff _ _).0 p7 in
      let (e1, e2) = (and_iff _ _).0 (agrees-ok _ x h) in
      record {
        claims_repository =
            repository_of-ok _ "OIDC repository" normalized read
            ∙ (string_eq.beq_iff normalized request.repository).0 (agrees-ok _ b1 named);
        active_repository =
            repository_of-ok _ "authorized repository" _ (expect-ok _ _ b2 authorized);
        repository_number =
            numeric-ok claims.repository_id "OIDC repository_id" _ (expect-ok _ _ b3 identified);
        run_number = numeric-ok claims.run_id "OIDC run_id" _ (expect-ok _ _ b4 run);
        attempt_number =
            numeric-ok claims.run_attempt "OIDC run_attempt" _ (expect-ok _ _ b5 tried);
        commit = sha_of-ok _ "OIDC sha" _ (expect-ok _ _ b6 head);
        workflow_commit = sha_of-ok _ "OIDC workflow_sha" _ (expect-ok _ _ b7 workflow);
        branch = is_value-true _ _ q1;
        event = event_allowed-IsAllowedEvent _ _ q2;
        runner = is_value-true _ _ q3;
        job = job;
        job_read = job_read;
        job_repository = (string_eq.beq_iff _ _).0 q7;
        job_path = (string_eq.beq_iff _ _).0 q8;
        job_version = (string_eq.beq_iff _ _).0 q9;
        caller = caller;
        caller_read = caller_read;
        caller_repository = (string_eq.beq_iff _ _).0 q4;
        caller_path = (string_eq.beq_iff _ _).0 q5;
        caller_version = (string_eq.beq_iff _ _).0 q6;
        environment = is_value-true _ _ e1;
        subject = (string_eq.beq_iff _ _).0 e2;
      }
