-- ===== src/Dast/Admitted.antt =====
-- apps/control-plane/src/dast-session.ts: what the checks before the claim have established of an attempt that passed them.
use guardianbot.Dast.Fields.{DastError, Engine}
use guardianbot.Dast.Session.{
  Service, Attempt, admitted, active_repository, request_checked, identity_checked,
  authorized_profile, bearer_checked, has_bearer, profile_matches,
}
use guardianbot.Dast.Request.{DastRequest, parse_request}
use guardianbot.Dast.Identity.{OidcClaims, Authorization, validate_oidc_identity}
use guardianbot.Prelude.{
  Result, Option, some, none, string_eq, Bool, ◌≡◌, ok, true, err, ap, ok-injective, >>=-eq-ok,
  nat_eq, lookup, subst,
}
use guardianbot.Dast.Profile.{DastProfile}
use guardianbot.Dast.Trusted.{IsTrusted, guard-ok, validate-IsTrusted}

-- What is established of an attempt that passed the checks.
pub record IsAdmitted (engine : Engine) (service : Service) (attempt : Attempt)
    (request : DastRequest) (profile : DastProfile) : Type 0 where
  pub bearer : has_bearer attempt.authorization ≡ true
  pub parsed : parse_request engine attempt.request ≡ ok request
  pub known : lookup request.profile_id service.profiles ≡ some profile
  pub fits : profile_matches profile request ≡ true
  pub repository : Authorization
  pub repository_known : attempt.repository ≡ some repository
  pub claims : OidcClaims
  pub verified : attempt.claims ≡ ok claims
  pub trusted :
      IsTrusted claims request repository service.trusted_repository service.trusted_workflow_sha

request_checked-ok :
    (result : Result DastError DastRequest) (request : DastRequest)
    → request_checked result ≡ ok request
    → result ≡ ok request
unfolding request_checked
request_checked-ok (ok found) request h = h
request_checked-ok (err e) request h = cc

identity_checked-ok :
    (result : Result DastError Bool) (x : Bool) → identity_checked result ≡ ok x → result ≡ ok x
unfolding identity_checked
identity_checked-ok (ok found) x h = h
identity_checked-ok (err e) x h = cc

authorized-known :
    (request : DastRequest) (found : Option DastProfile) (profile : DastProfile)
    → authorized_profile request found ≡ ok profile
    → (found ≡ some profile) × (profile_matches profile request ≡ true)
unfolding authorized_profile
authorized-known request none profile h = cc
authorized-known request (some p) profile h =
    let (fits, same) = guard-ok (profile_matches p request) p profile _ h in
    (ap some same, subst (λ q. profile_matches q request ≡ true) same fits)

active-known :
    (found : Option Authorization) (repository : Authorization)
    → active_repository found ≡ ok repository
    → found ≡ some repository
unfolding active_repository
active-known none repository h = cc
active-known (some r) repository h = ap some (ok-injective r repository h)

pub admitted-IsAdmitted :
    (engine : Engine) (service : Service) (attempt : Attempt) (request : DastRequest)
    (profile : DastProfile)
    → admitted engine service attempt ≡ ok (request, profile)
    → IsAdmitted engine service attempt request profile
unfolding admitted bearer_checked
admitted-IsAdmitted engine service attempt request profile h =
    let (b, bearer, h) = >>=-eq-ok (bearer_checked attempt.authorization) _ h in
    let (r, parsed, h) = >>=-eq-ok (request_checked (parse_request engine attempt.request)) _ h in
    let (p, known, h) =
      >>=-eq-ok (authorized_profile r (lookup r.profile_id service.profiles)) _ h in
    let (repository, active, h) = >>=-eq-ok (active_repository attempt.repository) _ h in
    let (claims, verified, h) = >>=-eq-ok attempt.claims _ h in
    let (x, trusted, h) =
      >>=-eq-ok
        (identity_checked (
          validate_oidc_identity claims r repository service.trusted_repository
            service.trusted_workflow_sha))
        _ h in
    let same = ok-injective _ _ h in
    subst (λ pair. IsAdmitted engine service attempt pair.0 pair.1) same
      (record {
        bearer = (guard-ok (has_bearer attempt.authorization) true b _ bearer).0;
        parsed = request_checked-ok _ r parsed;
        known = (authorized-known r _ p known).0;
        fits = (authorized-known r _ p known).1;
        repository = repository;
        repository_known = active-known _ repository active;
        claims = claims;
        verified = verified;
        trusted =
            validate-IsTrusted claims r repository service.trusted_repository
              service.trusted_workflow_sha x (identity_checked-ok _ x trusted);
      })
