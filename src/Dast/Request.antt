-- ===== src/Dast/Request.antt =====
-- apps/control-plane/src/dast-session.ts, `parseRequest`: the request for a session.
use guardianbot.Store.Payload.{field_value}
use guardianbot.Dast.Fields.{
  Engine, DastError, thrown, profile_reference, assert_only_keys, text_field, safe_request_path,
  normalize_repository, positive_safe_integer, exact_sha, text_of,
}
use guardianbot.Prelude.Js.{obj, Json, Fields}
use guardianbot.Prelude.{
  String, Option, List, ℕ, Result, ◌∷◌, err, [], some, ◌>>=◌, if◌then◌else◌, is_value, ◌==◌, ok,
  string_eq,
}
use guardianbot.Dast.Origin.{exact_public_https_origin}
use guardianbot.Dast.Profile.{require}
use mathlib.Core.Option.{none}

pub data ScanProfile : Type 0 where
  authenticated_baseline : ScanProfile
  authenticated_full : ScanProfile

pub record DastRequest : Type 0 where
  pub profile_ref : String
  pub profile_id : String
  pub origin : String
  pub session_assertion_path : String
  pub repository : String
  pub repository_id : ℕ
  pub run_id : ℕ
  pub run_attempt : ℕ
  pub head_sha : String
  pub scan_profile : ScanProfile

unfoldable pub parse_scan_profile : Option String → Result DastError ScanProfile
parse_scan_profile none = err (thrown "scanProfile is invalid")
parse_scan_profile (some text) =
    if text == "authenticated-baseline"
    then ok authenticated_baseline
    else if text == "authenticated-full"
    then ok authenticated_full
    else err (thrown "scanProfile is invalid")

abbrev pub request_keys : List String
request_keys =
    "schemaVersion" ∷ "profileRef" ∷ "origin" ∷ "sessionAssertionPath" ∷ "repository"
    ∷ "repositoryId" ∷ "runId" ∷ "runAttempt" ∷ "headSha" ∷ "scanProfile" ∷ []

module _ (engine : Engine) where
  unfoldable pub request_fields : Fields → Result DastError DastRequest
  unfolding profile_reference exact_public_https_origin safe_request_path normalize_repository
      positive_safe_integer exact_sha text_field parse_scan_profile text_of
  request_fields request = do
    profile_id ← profile_reference (field_value "profileRef" request)
    origin ← exact_public_https_origin engine (field_value "origin" request) "origin"
    session_assertion_path ←
        safe_request_path (field_value "sessionAssertionPath" request) "sessionAssertionPath"
    repository ← normalize_repository (field_value "repository" request) "repository"
    repository_id ← positive_safe_integer (field_value "repositoryId" request) "repositoryId"
    run_id ← positive_safe_integer (field_value "runId" request) "runId"
    run_attempt ← positive_safe_integer (field_value "runAttempt" request) "runAttempt"
    head_sha ← exact_sha engine (field_value "headSha" request) "headSha"
    scan_profile ← parse_scan_profile (text_field (field_value "scanProfile" request))
    ok (record {
      profile_ref = text_of engine (field_value "profileRef" request);
      profile_id = profile_id;
      origin = origin;
      session_assertion_path = session_assertion_path;
      repository = repository;
      repository_id = repository_id;
      run_id = run_id;
      run_attempt = run_attempt;
      head_sha = head_sha;
      scan_profile = scan_profile;
    })

  unfoldable pub parse_request : Json → Result DastError DastRequest
  unfolding request_fields assert_only_keys text_field require
  parse_request (obj request) = do
    only ← assert_only_keys request_keys request "DAST session request"
    version ←
        require (is_value (text_field (field_value "schemaVersion" request)) "1.0.0")
          "DAST session request schemaVersion is invalid"
    request_fields request
  parse_request _ = err (thrown "DAST session request must be an object")
