-- ===== src/Dast/Identity.antt =====
-- apps/control-plane/src/dast-session.ts, `validateOidcIdentity`: the claims of a workflow's token against its
-- request.
use Prim.Native.String.{[], ◌∷◌}
use Prim.Native.Char.{Char, code}
use guardianbot.Dast.Fields.{DastError, thrown, repository_of, sha_of, is_sha, positive_number}
use guardianbot.Dast.Words.{starts_with, is_digit, all_chars}
use guardianbot.Prelude.Text.{to_lower}
use guardianbot.Prelude.Js.{nat}
use guardianbot.Dast.Request.{DastRequest, ScanProfile, authenticated_baseline, authenticated_full}
use guardianbot.Prelude.{
  String, ℕ, Option, none, some, if◌then◌else◌, nat_beq, not, ◌==◌, ◌&&◌, ◌+s◌, string_eq, Bool,
  Result, ◌*◌, Eq, ◌||◌, err, ◌+◌, false, ok, is_value, ◌>>=◌, ◌-◌, leb, true, get_or_else, nat_eq,
}
use mathlib.Core.Bool.{true}

pub record OidcClaims : Type 0 where
  pub repository : String
  pub repository_id : String
  pub run_id : String
  pub run_attempt : String
  pub sha : String
  pub reference : Option String
  pub event_name : Option String
  pub workflow_ref : Option String
  pub workflow_sha : Option String
  pub runner_environment : Option String
  pub sub : String
  pub environment : Option String
  pub job_workflow_ref : String
  pub job_workflow_sha : Option String

-- `DastSessionRepositoryAuthorization`
pub record Authorization : Type 0 where
  pub full_name : String
  pub default_branch : String

abbrev pub dast_workflow_path : String
dast_workflow_path = ".github/workflows/reusable-dast.yml"

abbrev pub caller_workflow_path : String
caller_workflow_path = ".github/workflows/guardianbot.yml"

pub record WorkflowRef : Type 0 where
  pub repository : String
  pub workflow_path : String
  pub version : String

-- The text in front of the first character with a code, and the text behind it.
unfoldable pub split_at : ℕ → String → Option (String × String)
split_at separator [] = none
split_at separator (c ∷ s) =
    let rest = split_at separator s in
    if nat_beq (code c) separator then some ("", s) else in_front c rest
  where
    in_front : Char → Option (String × String) → Option (String × String)
    in_front d none = none
    in_front d (some (before, after)) = some (d ∷ before, after)

-- `([^/]+\/[^/]+)`, the text behind it up to the first `@`, and the text behind that
unfoldable pub workflow_parts : String → Option (String × (String × String))
unfolding split_at
workflow_parts text = elim (split_at 47 text) [
  | none ↦ none
  | some (owner, behind_owner) ↦ elim (split_at 47 behind_owner) [
    | none ↦ none
    | some (name, behind_name) ↦ elim (split_at 64 behind_name) [
      | none ↦ none
      | some (path, version) ↦
          if not (owner == "") && not (name == "")
          then some (owner +s "/" +s name, (path, version))
          else none
    ]
  ]
]

-- `/^\.github\/workflows\/[^@]+$/` of a text without `@`
unfoldable pub is_workflow_path : String → Bool
unfolding starts_with
is_workflow_path path = starts_with path ".github/workflows/" && not (path == ".github/workflows/")

-- `/^.+$/`
unfoldable pub is_line : String → Bool
is_line text =
    not (text == "")
    && all_chars (λ c. not (nat_beq c 10 || nat_beq c 13 || nat_beq c 0x2028 || nat_beq c 0x2029))
        text

unfoldable pub job_parts : Option (String × (String × String)) → Result DastError WorkflowRef
unfolding is_workflow_path is_sha repository_of sha_of
job_parts none = err (thrown "OIDC job_workflow_ref is invalid")
job_parts (some (repository, (path, version))) =
    if is_workflow_path (to_lower path) && is_sha (to_lower version)
    then (do
      normalized ← repository_of repository "OIDC workflow repository"
      sha ← sha_of version "OIDC workflow SHA"
      ok (record { repository = normalized; workflow_path = path; version = sha }))
    else err (thrown "OIDC job_workflow_ref is invalid")

unfoldable pub parse_job_workflow_ref : String → Result DastError WorkflowRef
unfolding job_parts workflow_parts
parse_job_workflow_ref value = job_parts (workflow_parts value)

unfoldable pub caller_parts : Option (String × (String × String)) → Result DastError WorkflowRef
unfolding is_workflow_path is_line repository_of
caller_parts none = err (thrown "OIDC workflow_ref is invalid")
caller_parts (some (repository, (path, version))) =
    if is_workflow_path path && is_line version
    then (do
      normalized ← repository_of repository "OIDC caller repository"
      ok (record { repository = normalized; workflow_path = path; version = version }))
    else err (thrown "OIDC workflow_ref is invalid")

unfoldable pub parse_caller_workflow_ref : String → Result DastError WorkflowRef
unfolding caller_parts workflow_parts
parse_caller_workflow_ref value = caller_parts (workflow_parts value)

-- The number that digits write, behind the digits of `n`.
unfoldable pub digits_value : String → ℕ → ℕ
digits_value [] n = n
digits_value (c ∷ s) n = digits_value s (n * 10 + (code c - 48))

-- `/^[1-9][0-9]*$/`
unfoldable pub is_decimal : String → Bool
is_decimal [] = false
is_decimal (c ∷ s) = leb 49 (code c) && leb (code c) 57 && all_chars is_digit s

unfoldable pub numeric_oidc_claim : String → String → Result DastError ℕ
unfolding is_decimal digits_value positive_number
numeric_oidc_claim value label =
    if is_decimal value
    then positive_number (nat (digits_value value 0)) label
    else err (thrown (label +s " is invalid"))

abbrev pub untrusted_identity : DastError
untrusted_identity =
    thrown "OIDC repository, workflow, ref, runner, or environment identity is not authorized"

unfoldable pub agrees : Bool → Result DastError Bool
agrees true = ok true
agrees false = err untrusted_identity

-- A claim is read, and compared with what is expected.
unfoldable pub expect :
    {A : Type 0} ⦃compare : Eq A⦄ → Result DastError A → A → Result DastError Bool
unfolding agrees
expect (err e) value = err e
expect (ok found) value = agrees (found == value)

unfoldable pub event_allowed : ScanProfile → String → Bool
event_allowed authenticated_full event = event == "schedule"
event_allowed authenticated_baseline event = event == "schedule" || event == "workflow_dispatch"

-- `oidc.job_workflow_sha !== undefined && exactSha(...) !== trustedWorkflowSha`
unfoldable pub job_sha : Option String → String → Result DastError Bool
unfolding expect sha_of
job_sha none trusted_sha = ok true
job_sha (some text) trusted_sha = expect (sha_of text "OIDC job_workflow_sha") trusted_sha

abbrev pub default_ref : Authorization → String
default_ref repository = "refs/heads/" +s repository.default_branch

module _ (claims : OidcClaims) (request : DastRequest) (repository : Authorization)
    (trusted_repository trusted_sha : String) where
  -- The tests that cannot throw, in the middle of the condition.
  unfoldable pub workflows_match : WorkflowRef → WorkflowRef → Bool
  unfolding event_allowed
  workflows_match job caller =
      is_value claims.reference (default_ref repository)
      && event_allowed request.scan_profile (get_or_else claims.event_name "")
      && is_value claims.runner_environment "github-hosted"
      && caller.repository == request.repository
      && caller.workflow_path == caller_workflow_path
      && caller.version == default_ref repository
      && job.repository == trusted_repository
      && job.workflow_path == dast_workflow_path
      && job.version == trusted_sha

  unfoldable pub environment_matches : Bool
  environment_matches =
      is_value claims.environment "guardianbot-dast"
      && to_lower claims.sub == "repo:" +s request.repository +s ":environment:guardianbot-dast"

  unfoldable pub validate_oidc_identity : Result DastError Bool
  unfolding expect numeric_oidc_claim repository_of sha_of agrees workflows_match job_sha
      environment_matches parse_job_workflow_ref parse_caller_workflow_ref
  validate_oidc_identity = do
    normalized ← repository_of claims.repository "OIDC repository"
    job ← parse_job_workflow_ref claims.job_workflow_ref
    caller ← parse_caller_workflow_ref (get_or_else claims.workflow_ref "")
    named ← agrees (normalized == request.repository)
    authorized ←
        expect (repository_of repository.full_name "authorized repository") request.repository
    identified ←
        expect (numeric_oidc_claim claims.repository_id "OIDC repository_id") request.repository_id
    run ← expect (numeric_oidc_claim claims.run_id "OIDC run_id") request.run_id
    tried ← expect (numeric_oidc_claim claims.run_attempt "OIDC run_attempt") request.run_attempt
    head ← expect (sha_of claims.sha "OIDC sha") request.head_sha
    workflow ←
        expect (sha_of (get_or_else claims.workflow_sha "") "OIDC workflow_sha") request.head_sha
    matching ← agrees (workflows_match job caller)
    called ← job_sha claims.job_workflow_sha trusted_sha
    agrees environment_matches
