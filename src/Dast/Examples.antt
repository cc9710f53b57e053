-- ===== src/Dast/Examples.antt =====
-- A session by exchange, and a second attempt with the same request.
use guardianbot.Prelude.{
  refl, some, none, ok, err, ◌==◌, string_eq, ◌∷◌, [], Result, Option, String, if◌then◌else◌, ℕ,
  ◌≡◌, List, ◌≤◌,
}
use guardianbot.Prelude.Js.{Json, obj, field, str, num, nat, end, other}
use guardianbot.Dast.Fields.{Engine, Url, DastError, refused}
use guardianbot.Dast.Profile.{DastProfile, exchange, parse_profiles}
use guardianbot.Dast.Identity.{OidcClaims}
use guardianbot.Dast.Opening.{dast_open}
use guardianbot.Dast.Session.{Service, Attempt, DastResponse, issue}
use guardianbot.Dast.Issue.{IssueEnds, issue-IssueEnds}
use guardianbot.Dast.Exchange.{answered}
use guardianbot.Dast.Once.{IssuanceCall, completions}
use guardianbot.Samples.{sample_dates}
use guardianbot.Dast.Claims.{Issuances}
use guardianbot.Dast.Origin.{
  exact_public_https_origin, origin_of, is_public_origin, private_or_local_host,
}
use guardianbot.Dast.Profiles.{AllApproved, parse_profiles-AllApproved}

abbrev app_url : Url
app_url = record {
  protocol = "https:";
  username = "";
  password = "";
  hostname = "app.example";
  pathname = "/";
  search = "";
  hash = "";
  origin = "https://app.example";
  href = "https://app.example/";
}

-- Knows one address, and the address of a host in a private network.
abbrev engine : Engine
engine = record {
  dates = sample_dates;
  to_text = λ json. "";
  parse_url = λ text.
      if text == "https://app.example"
      then some app_url
      else if text == "https://app.example/session"
      then some (record app_url { pathname = "/session"; href = "https://app.example/session" })
      else if text == "https://[fd12:3456::1]"
      then some (record app_url { hostname = "[fd12:3456::1]"; origin = "https://[fd12:3456::1]" })
      else none;
  to_number = λ text. other;
}

abbrev profile : DastProfile
profile = record {
  id = "web";
  mode = exchange "https://app.example/session" "TARGET";
  repository = "org/app";
  repository_id = 5;
  origin = "https://app.example";
  deployment_environment = "staging";
  session_assertion_path = "/me";
  header_name = "Cookie";
  ttl_seconds = 60;
}

abbrev service : Service
service = record {
  profiles = ("web", profile) ∷ [];
  trusted_repository = "bot/guard";
  trusted_workflow_sha = "1111111111111111111111111111111111111111";
}

abbrev claims : OidcClaims
claims = record {
  repository = "Org/App";
  repository_id = "5";
  run_id = "7";
  run_attempt = "1";
  sha = "2222222222222222222222222222222222222222";
  reference = some "refs/heads/main";
  event_name = some "schedule";
  workflow_ref = some "org/app/.github/workflows/guardianbot.yml@refs/heads/main";
  workflow_sha = some "2222222222222222222222222222222222222222";
  runner_environment = some "github-hosted";
  sub = "repo:org/app:environment:guardianbot-dast";
  environment = some "guardianbot-dast";
  job_workflow_ref =
      "bot/guard/.github/workflows/reusable-dast.yml@1111111111111111111111111111111111111111";
  job_workflow_sha = none;
}

abbrev image_digest : String
image_digest = "sha256:0123456789abcdef0123456789abcdef0123456789abcdef0123456789abcdef"

abbrev request : Json
request = obj (
    field "schemaVersion" (str "1.0.0") (
      field "profileRef" (str "control-plane://profiles/web") (
        field "origin" (str "https://app.example") (
          field "sessionAssertionPath" (str "/me") (
            field "repository" (str "org/app") (
              field "repositoryId" (num (nat 5)) (
                field "runId" (num (nat 7)) (
                  field "runAttempt" (num (nat 1)) (
                    field "headSha" (str "2222222222222222222222222222222222222222")
                      (field "scanProfile" (str "authenticated-baseline") end))))))))))

abbrev attempt : Attempt
attempt = record {
  authorization = some "Bearer token";
  request = request;
  repository = some (record { full_name = "org/app"; default_branch = "main" });
  claims = ok claims;
  issued_at = 10_000;
  received_at = 10_000;
  lease_id = "l1";
  deployment = some (record {
    environment = "staging";
    image_digest = image_digest;
    origin = "https://app.example";
  });
  answer = λ credential. answered (
      obj (
        field "schemaVersion" (str "1.0.0")
          (field "credential" (str "session") (field "expiresAt" (str "TXXXXX") end))));
}

environment : String → Option String
environment name = if name == "TARGET" then some "secret" else none

issued_once : Result DastError DastResponse × Issuances
issued_once = issue engine (λ text. text) environment service attempt []

expiry_of : Result DastError DastResponse → String
expiry_of (ok response) = response.expires_at
expiry_of (err e) = "none"

status_of_error : Result DastError DastResponse → ℕ
status_of_error (err (refused message status_code)) = status_code
status_of_error _ = 0

session_is_issued : expiry_of issued_once.0 ≡ "TXXXXX"
unfolding dast_open sample_dates issued_once environment expiry_of
session_is_issued = refl

second_is_refused :
    status_of_error (issue engine (λ text. text) environment service attempt issued_once.1).0 ≡ 409
unfolding dast_open sample_dates issued_once environment status_of_error
second_is_refused = refl

issue-IssueEnds_example :
    IssueEnds engine
      (λ text. text)
      environment
      service
      attempt
      []
      (issue engine (λ text. text) environment service attempt [])
    × ((key : String)
        → (calls : List IssuanceCall) → (issuances : Issuances)
        → completions sample_dates key calls issuances ≤ 1)
issue-IssueEnds_example = issue-IssueEnds engine (λ text. text) environment service attempt []

-- An address of a private network, of the kind that starts with `fd`, counts as public.
private_passes :
    exact_public_https_origin engine (some (str "https://[fd12:3456::1]")) "origin"
    ≡ ok "https://[fd12:3456::1]"
unfolding dast_open exact_public_https_origin origin_of is_public_origin private_or_local_host
private_passes = refl

-- The document of profiles with the one profile above.
abbrev document : Json
document = obj (
    field "web"
      (obj (
        field "mode" (str "exchange") (
          field "repository" (str "Org/App") (
            field "repositoryId" (num (nat 5)) (
              field "origin" (str "https://app.example") (
                field "deploymentEnvironment" (str "staging") (
                  field "sessionAssertionPath" (str "/me") (
                    field "headerName" (str " Cookie ") (
                      field "ttlSeconds" (num (nat 60)) (
                        field "exchangeUrl" (str "https://app.example/session")
                          (field "exchangeCredentialEnv" (str "TARGET") end)))))))))))
      end)

document_is_accepted :
    parse_profiles engine environment (λ text. some document) ≡ ok (("web", profile) ∷ [])
unfolding dast_open parse_profiles environment
document_is_accepted = refl

parse_profiles-AllApproved_example : AllApproved engine environment (("web", profile) ∷ [])
parse_profiles-AllApproved_example =
    parse_profiles-AllApproved engine environment (λ text. some document) (("web", profile) ∷ [])
      document_is_accepted
