-- ===== src/Dast/Issue.antt =====
-- apps/control-plane/src/dast-session.ts, `issue`: lemmas on an attempt and the claims it leaves.
use guardianbot.Dast.Admitted.{IsAdmitted, admitted-IsAdmitted}
use guardianbot.Dast.Fields.{DastError, Engine}
use guardianbot.Dast.Profile.{DastProfile}
use guardianbot.Dast.Request.{DastRequest}
use guardianbot.Prelude.{
  refl, String, Option, List, Result, err, ◌≡◌, ◌⊎◌, ok, inl, true, lookup, none, inr, string_eq,
  Bool, sym, ◌≤◌, ap, ◌∙◌, subst,
}
use guardianbot.Dast.Session.{
  Attempt, after_claim, issue_admitted, DastResponse, claim_of, admitted, prepared, issue_claimed,
  issue, finalized, Service,
}
use guardianbot.Dast.Claims.{
  Issuances, claim_dast_session_issuance, complete_dast_session_issuance, IssuanceClaim,
}
use guardianbot.Dast.Once.{
  IssuanceCall, issuance_step, claims, completes, completions, completions-once,
}
use guardianbot.Dast.Ends.{
  Backed, release-own, claim_over-granted, complete-own, prepared-Backed, claim_over-refused,
}
use mathlib.Core.Bool.{false}

module _ (engine : Engine) (digest : String → String) (environment : String → Option String)
    (service : Service) (attempt : Attempt) where
  claim_call : DastRequest → DastProfile → IssuanceCall
  claim_call request profile = claims (claim_of engine digest request profile attempt)

  complete_call : DastRequest → DastProfile → DastResponse → IssuanceCall
  complete_call request profile response =
      completes (claim_of engine digest request profile attempt).issuance_key attempt.lease_id
        (engine.dates.to_iso attempt.issued_at) response.expires_at

  -- How an attempt ends, with the claims before and after it.
  unfoldable pub IssueEnds : Issuances → Result DastError DastResponse × Issuances → Type 0
  unfolding claim_call complete_call
  IssueEnds before (err e, after) =
      (after ≡ before)
      ⊎ ((request : DastRequest) × (profile : DastProfile) × (admitted engine service attempt
            ≡ ok (request, profile))
          × ((issuance_step engine.dates (claim_call request profile) before).0 ≡ true)
          × (lookup (claim_of engine digest request profile attempt).issuance_key after ≡ none))
  IssueEnds before (ok response, after) =
      (request : DastRequest) × (profile : DastProfile) × (admitted engine service attempt
        ≡ ok (request, profile))
      × ((issuance_step engine.dates (claim_call request profile) before).0 ≡ true)
      × (issuance_step engine.dates (complete_call request profile response)
            (issuance_step engine.dates (claim_call request profile) before).1
          ≡ (true, after))
      × Backed engine environment profile attempt response
      × IsAdmitted engine service attempt request profile

  after_claim-IssueEnds :
      (before : Issuances) (request : DastRequest) (profile : DastProfile)
      → admitted engine service attempt ≡ ok (request, profile)
      → (issuance_step engine.dates (claim_call request profile) before).0 ≡ true
      → (result : Result DastError DastResponse)
      → prepared engine environment profile attempt ≡ result
      → IssueEnds before (
          after_claim engine
            (claim_of engine digest request profile attempt).issuance_key
            attempt
            result
            (issuance_step engine.dates (claim_call request profile) before).1)
  unfolding after_claim IssueEnds issuance_step claim_call complete_call claim_of
      claim_dast_session_issuance complete_dast_session_issuance
  after_claim-IssueEnds before request profile known granted (err e) made = inr (
    request,
    profile,
    known,
    granted,
    release-own (claim_of engine digest request profile attempt) _ (
        claim_over-granted engine.dates _ (claim_of engine digest request profile attempt) before
          granted),
  )
  after_claim-IssueEnds before request profile known granted (ok response) made =
      go
        (complete_dast_session_issuance claim.issuance_key attempt.lease_id
          (engine.dates.to_iso attempt.issued_at) response.expires_at middle)
        refl
    where
      claim : IssuanceClaim
      claim = claim_of engine digest request profile attempt

      middle : Issuances
      middle = (issuance_step engine.dates (claim_call request profile) before).1

      done :
          (complete_dast_session_issuance claim.issuance_key attempt.lease_id
            (engine.dates.to_iso attempt.issued_at)
            response.expires_at
            middle).0
          ≡ true
      done =
          complete-own claim (engine.dates.to_iso attempt.issued_at) response.expires_at
            (lookup claim.issuance_key middle) middle
            (claim_over-granted engine.dates (lookup claim.issuance_key before) claim before
              granted)

      go :
          (completed : Bool × Issuances)
          → complete_dast_session_issuance claim.issuance_key attempt.lease_id
              (engine.dates.to_iso attempt.issued_at)
              response.expires_at
              middle
            ≡ completed
          → IssueEnds before (finalized claim.issuance_key attempt.lease_id response completed)
      go (true, after) e =
          unfold finalized in
          (
            request,
            profile,
            known,
            granted,
            e,
            prepared-Backed engine environment profile attempt response made,
            admitted-IsAdmitted engine service attempt request profile known,
          )
      go (false, after) e = let k : true ≡ false = sym done ∙ ap (λ p. p.0) e in cc

  claimed-IssueEnds :
      (before : Issuances) (request : DastRequest) (profile : DastProfile)
      → admitted engine service attempt ≡ ok (request, profile)
      → (result : Bool × Issuances)
      → issuance_step engine.dates (claim_call request profile) before ≡ result
      → IssueEnds before (
          issue_claimed engine digest environment
            (claim_of engine digest request profile attempt)
            profile
            attempt
            result)
  unfolding issue_claimed IssueEnds issuance_step claim_call claim_dast_session_issuance
  claimed-IssueEnds before request profile known (false, after) e = inl (
      sym (ap (λ p. p.1) e)
      ∙ claim_over-refused engine.dates _ (claim_of engine digest request profile attempt) before
          (ap (λ p. p.0) e))
  claimed-IssueEnds before request profile known (true, after) e =
      subst
        (λ m. IssueEnds before (
          after_claim engine (claim_of engine digest request profile attempt).issuance_key attempt
            (prepared engine environment profile attempt) m))
        (ap (λ p. p.1) e)
        (after_claim-IssueEnds before request profile known (ap (λ p. p.0) e)
          (prepared engine environment profile attempt) refl)

  issue_admitted-IssueEnds :
      (before : Issuances) (accepted : Result DastError (DastRequest × DastProfile))
      → admitted engine service attempt ≡ accepted
      → IssueEnds before (issue_admitted engine digest environment attempt accepted before)
  unfolding issue_admitted IssueEnds issuance_step
  issue_admitted-IssueEnds before (err e) known = inl refl
  issue_admitted-IssueEnds before (ok (request, profile)) known =
      claimed-IssueEnds before request profile known _ refl

  -- An attempt that returns a session was parsed from its request, for a known profile that fits it, with a bearer
  -- token whose verified claims are those of the trusted workflow on the default branch and name the run, the
  -- commit and the repository of the request; it had its claim granted and completed the issuance of its key;
  -- behind it stands a deployment of the profile's origin with the digest that it names; and its credential ends
  -- within the profile's time to live. An attempt that fails leaves the claims as they were, or, once its claim
  -- was granted, leaves none on its key. Of any calls on the claims, in any order and of any workers, at most
  -- one completes the issuance of a key.
  pub issue-IssueEnds :
      (before : Issuances)
      → IssueEnds before (issue engine digest environment service attempt before)
        × ((key : String)
            → (calls : List IssuanceCall) → (issuances : Issuances)
            → completions engine.dates key calls issuances ≤ 1)
  unfolding issue
  issue-IssueEnds before = (issue_admitted-IssueEnds before _ refl, completions-once engine.dates)
