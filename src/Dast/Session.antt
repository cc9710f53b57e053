-- ===== src/Dast/Session.antt =====
-- apps/control-plane/src/dast-session.ts, `createDastSessionService`: the issuing of a session. What
-- `parseRequest`, `authorizeRepository`, the OIDC checks, the deployment record and the target say are
-- arguments, as are the times of `now()`.
use guardianbot.Dast.Fields.{DastError, refused, thrown, Engine}
use guardianbot.Dast.Words.{strip_prefix}
use guardianbot.Dast.Profile.{exchange, static_credential, DastProfile, ProfileMode}
use guardianbot.Dast.Identity.{Authorization, validate_oidc_identity, OidcClaims}
use guardianbot.Dast.Request.{
  authenticated_baseline, authenticated_full, ScanProfile, DastRequest, parse_request,
}
use Prim.Native.Char.{code}
use Prim.Native.String.{[], ◌∷◌}
use guardianbot.Prelude.{
  String, ℕ, Option, Bool, ◌*◌, some, true, false, ◌+s◌, ◌==◌, Result, List, ◌∷◌, not, ◌&&◌, err,
  ◌+◌, ◌>>=◌, if◌then◌else◌, ok, string_eq, leb, lookup, nat_eq, ◌||◌, ltb, min,
}
use guardianbot.Ingest.Observations.{is_fingerprint}
use guardianbot.Dast.Exchange.{Answer, bounded_credential, exchange_credential, Credential}
use guardianbot.Dast.Claims.{
  release_dast_session_issuance, complete_dast_session_issuance, IssuanceClaim,
  claim_dast_session_issuance, Issuances,
}
use guardianbot.Prelude.Text.{decimal, is_space}
use mathlib.Core.Option.{none}
use guardianbot.Prelude.Js.{Json}

pub record Deployment : Type 0 where
  pub environment : String
  pub image_digest : String
  pub origin : String

pub data Assurance : Type 0 where
  target_exchanged : Assurance
  poc_static : Assurance

pub record DastResponse : Type 0 where
  pub origin : String
  pub deployment_environment : String
  pub deployed_digest : String
  pub session_assertion_path : String
  pub header_name : String
  pub header_value : String
  pub expires_at : String
  pub assurance : Assurance

abbrev pub lease_ms : ℕ
lease_ms = 30_000

abbrev pub max_static_lifetime_ms : ℕ
max_static_lifetime_ms = 24 * 60 * 60_000

-- What the service is created with.
pub record Service : Type 0 where
  pub profiles : List (String × DastProfile)
  pub trusted_repository : String
  pub trusted_workflow_sha : String

-- What the rest of the world says in one attempt.
pub record Attempt : Type 0 where
  pub authorization : Option String
  pub request : Json
  -- the repository, where it is active
  pub repository : Option Authorization
  -- the claims of the verified token, or the refusal of the verifier
  pub claims : Result DastError OidcClaims
  pub issued_at : ℕ
  pub received_at : ℕ
  pub lease_id : String
  pub deployment : Option Deployment
  pub answer : String → Answer

unfoldable pub no_space : String → Bool
no_space [] = true
no_space (c ∷ s) = let rest = no_space s in not (is_space (code c)) && rest

-- `/^Bearer ([^\s]+)$/`
unfoldable pub token_of : Option String → Bool
unfolding no_space
token_of none = false
token_of (some token) = not (token == "") && no_space token

unfoldable pub has_bearer : Option String → Bool
unfolding strip_prefix token_of
has_bearer none = false
has_bearer (some header) = token_of (strip_prefix "Bearer " header)

-- `/^sha256:[a-f0-9]{64}$/`
unfoldable pub is_image_digest : String → Bool
unfolding strip_prefix is_fingerprint
is_image_digest text = elim (strip_prefix "sha256:" text) [
  | some digest ↦ is_fingerprint digest
  | none ↦ false
]

unfoldable pub scan_profile_name : ScanProfile → String
scan_profile_name authenticated_baseline = "authenticated-baseline"
scan_profile_name authenticated_full = "authenticated-full"

-- The text that is hashed to the key of an issuance: its parts, joined with the symbol U+241F.
unfoldable pub issuance_text : DastRequest → DastProfile → String
unfolding scan_profile_name
issuance_text request profile =
    "guardianbot-dast-session-v1␟"
    +s decimal request.repository_id
    +s "␟"
    +s decimal request.run_id
    +s "␟"
    +s decimal request.run_attempt
    +s "␟"
    +s request.head_sha
    +s "␟"
    +s scan_profile_name request.scan_profile
    +s "␟"
    +s profile.id
    +s "␟"
    +s profile.origin

unfoldable pub profile_matches : DastProfile → DastRequest → Bool
profile_matches profile request =
    profile.repository == request.repository
    && profile.repository_id == request.repository_id
    && profile.origin == request.origin
    && profile.session_assertion_path == request.session_assertion_path

-- The profile of the request, if there is one and it fits.
unfoldable pub authorized_profile : DastRequest → Option DastProfile → Result DastError DastProfile
unfolding profile_matches
authorized_profile request none = err (refused "DAST session profile is not authorized" 403)
authorized_profile request (some profile) =
    if profile_matches profile request
    then ok profile
    else err (refused "DAST session profile is not authorized" 403)

unfoldable pub deployed : DastProfile → Option Deployment → Result DastError Deployment
unfolding is_image_digest
deployed profile none = err (
    refused
      "DAST requires a successful exact-head deployment for the approved environment and origin"
      403)
deployed profile (some deployment) =
    if deployment.origin == profile.origin && is_image_digest deployment.image_digest
    then ok deployment
    else err (
        refused
          "DAST requires a successful exact-head deployment for the approved environment and origin"
          403)

-- An error of the body, after `releaseDastSessionIssuance`.
unfoldable pub session_error : DastError → DastError
session_error (refused message status_code) = refused message status_code
session_error (thrown message) = refused "DAST session issuance failed" 503

unfoldable pub assurance_of : ProfileMode → Assurance
assurance_of (exchange url credential_env) = target_exchanged
assurance_of (static_credential credential_env expires_at) = poc_static

module _ (engine : Engine) (environment : String → Option String) where
  -- `expiresAt <= issuedAt + 30_000 || expiresAt > issuedAt + MAX_STATIC_LIFETIME_MS`
  unfoldable pub static_for : Option ℕ → ℕ → ℕ → String → Result DastError Credential
  unfolding bounded_credential
  static_for none issued_at ttl_ms credential_env = err (thrown "Invalid time value")
  static_for (some expires_at) issued_at ttl_ms credential_env =
      if leb expires_at (issued_at + 30_000) || ltb (issued_at + max_static_lifetime_ms) expires_at
      then err (refused "PoC static DAST credential is expired or exceeds its maximum lifetime" 503)
      else (do
        value ← bounded_credential (environment credential_env) "static DAST credential"
        ok (record {
          value = value;
          expires_at = engine.dates.to_iso (min expires_at (issued_at + ttl_ms));
        }))

  unfoldable pub credential_for : ProfileMode → ℕ → Attempt → Result DastError Credential
  unfolding exchange_credential static_for
  credential_for (exchange url credential_env) ttl_ms attempt =
      exchange_credential engine (environment credential_env) attempt.received_at ttl_ms
        attempt.answer
  credential_for (static_credential credential_env expires_at) ttl_ms attempt =
      static_for (engine.dates.parse expires_at) attempt.issued_at ttl_ms credential_env

  -- The body of the `try`: the deployment, and the credential.
  unfoldable pub prepared : DastProfile → Attempt → Result DastError DastResponse
  unfolding deployed credential_for assurance_of
  prepared profile attempt = do
    deployment ← deployed profile attempt.deployment
    credential ← credential_for profile.mode (profile.ttl_seconds * 1_000) attempt
    ok (record {
      origin = profile.origin;
      deployment_environment = deployment.environment;
      deployed_digest = deployment.image_digest;
      session_assertion_path = profile.session_assertion_path;
      header_name = profile.header_name;
      header_value = credential.value;
      expires_at = credential.expires_at;
      assurance = assurance_of profile.mode;
    })

unfoldable pub finalized :
    String → String → DastResponse → Bool × Issuances → Result DastError DastResponse × Issuances
unfolding release_dast_session_issuance
finalized key lease_id response (true, issuances) = (ok response, issuances)
finalized key lease_id response (false, issuances) = (
  err (refused "DAST session issuance could not be finalized" 503),
  (release_dast_session_issuance key lease_id issuances).1,
)

module _ (engine : Engine) where
  -- After the claim: complete the issuance, or release the claim and rethrow.
  unfoldable pub after_claim :
      String
      → Attempt
      → Result DastError DastResponse
      → Issuances
      → Result DastError DastResponse × Issuances
  unfolding finalized session_error complete_dast_session_issuance
  after_claim key attempt (err e) issuances =
      (err (session_error e), (release_dast_session_issuance key attempt.lease_id issuances).1)
  after_claim key attempt (ok response) issuances = finalized key attempt.lease_id response (
      complete_dast_session_issuance key attempt.lease_id (engine.dates.to_iso attempt.issued_at)
        response.expires_at issuances)

module _ (engine : Engine) (digest : String → String) where
  unfoldable pub claim_of : DastRequest → DastProfile → Attempt → IssuanceClaim
  unfolding issuance_text
  claim_of request profile attempt = record {
    issuance_key = digest (issuance_text request profile);
    lease_id = attempt.lease_id;
    repository_id = request.repository_id;
    run_id = request.run_id;
    run_attempt = request.run_attempt;
    profile_id = profile.id;
    origin = profile.origin;
    leased_at = engine.dates.to_iso attempt.issued_at;
    lease_expires_at = engine.dates.to_iso (attempt.issued_at + lease_ms);
  }

-- Any error of the identity's check, but the verifier's own, is one refusal.
unfoldable pub identity_checked : Result DastError Bool → Result DastError Bool
identity_checked (ok found) = ok found
identity_checked (err e) = err (refused "GitHub OIDC identity is not authorized" 401)

unfoldable pub request_checked : Result DastError DastRequest → Result DastError DastRequest
request_checked (ok request) = ok request
request_checked (err e) = err (refused "DAST session request is invalid" 400)

unfoldable pub active_repository : Option Authorization → Result DastError Authorization
active_repository none = err (refused "repository is not active in GuardianBot" 403)
active_repository (some repository) = ok repository

unfoldable pub bearer_checked : Option String → Result DastError Bool
unfolding has_bearer
bearer_checked authorization =
    if has_bearer authorization
    then ok true
    else err (refused "GitHub OIDC bearer token is required" 401)

-- The checks before the claim.
unfoldable pub admitted : Engine → Service → Attempt → Result DastError (DastRequest × DastProfile)
unfolding bearer_checked request_checked authorized_profile active_repository identity_checked
    validate_oidc_identity parse_request
admitted engine service attempt = do
  bearer ← bearer_checked attempt.authorization
  request ← request_checked (parse_request engine attempt.request)
  profile ← authorized_profile request (lookup request.profile_id service.profiles)
  repository ← active_repository attempt.repository
  claims ← attempt.claims
  trusted ← identity_checked (
      validate_oidc_identity claims request repository service.trusted_repository
        service.trusted_workflow_sha)
  ok (request, profile)

module _ (engine : Engine) (digest : String → String) (environment : String → Option String) where
  unfoldable pub issue_claimed :
      IssuanceClaim
      → DastProfile
      → Attempt
      → Bool × Issuances
      → Result DastError DastResponse × Issuances
  unfolding after_claim prepared
  issue_claimed claim profile attempt (false, issuances) =
      (err (refused "DAST session was already issued for this workflow attempt" 409), issuances)
  issue_claimed claim profile attempt (true, issuances) =
      after_claim engine claim.issuance_key attempt (prepared engine environment profile attempt)
        issuances

  unfoldable pub issue_admitted :
      Attempt
      → Result DastError (DastRequest × DastProfile)
      → Issuances
      → Result DastError DastResponse × Issuances
  unfolding claim_of issue_claimed claim_dast_session_issuance
  issue_admitted attempt (err e) issuances = (err e, issuances)
  issue_admitted attempt (ok (request, profile)) issuances =
      let claim = claim_of engine digest request profile attempt in
      issue_claimed claim profile attempt (claim_dast_session_issuance engine.dates claim issuances)

  unfoldable pub issue : Service → Attempt → Issuances → Result DastError DastResponse × Issuances
  unfolding admitted issue_admitted
  issue service attempt issuances =
      issue_admitted attempt (admitted engine service attempt) issuances
