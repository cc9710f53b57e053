-- ===== src/Dast/Ends.antt =====
-- apps/control-plane/src/dast-session.ts, `issue`: lemmas on how an attempt ends.
use guardianbot.Dast.Fields.{Engine, only_keys, text_field}
use guardianbot.Dast.Profile.{exchange, static_credential, ProfileMode, DastProfile}
use guardianbot.Prelude.{
  refl, String, Option, some, lookup, ◌≡◌, true, none, ℕ, ok, lookup-insert_self, string_eq,
  lookup-delete_self, Bool-cases, ◌≤◌, ◌+◌, ◌==◌, ◌*◌, ◌&&◌, inl, false, inr, ok-injective, and_iff,
  leb, >>=-eq-ok, ap, ltb, ◌||◌, subst, sym, err, ◌∷◌, leb_iff, [], min, ◌∙◌, is_value, arith,
}
use guardianbot.Prelude.Js.{Dates, Fields, obj, bool, num, str, arr, null}
use guardianbot.Dast.Claims.{
  holds_lease, complete_existing, release_dast_session_issuance, claim_over, IssuanceClaim,
  Issuances, IssuanceRecord, leased, blocks_claim,
}
use guardianbot.Dast.Exchange.{
  Credential, dated_credential, accepted_text, accepted_fields, accepted_answer, expiry_within,
  Answer, exchange_credential, credential_ok, bounded_credential, answered, invalid_output,
  unreachable, not_ok, unreadable,
}
use guardianbot.Dast.Session.{
  deployed, Attempt, Deployment, DastResponse, is_image_digest, static_for, credential_for,
  prepared, max_static_lifetime_ms,
}
use guardianbot.Store.Payload.{field_value}

module _ (dates : Dates) where
  pub claim_over-granted :
      (found : Option IssuanceRecord) (claim : IssuanceClaim) (issuances : Issuances)
      → (claim_over dates found claim issuances).0 ≡ true
      → lookup claim.issuance_key (claim_over dates found claim issuances).1
        ≡ some (record { claim = claim; status = leased })
  unfolding claim_over
  claim_over-granted none claim issuances h = lookup-insert_self claim.issuance_key _ issuances
  claim_over-granted (some existing) claim issuances h =
      elim (Bool-cases
        (blocks_claim dates existing.claim.lease_expires_at existing.status claim.leased_at)) [
          | inl blocked ↦ let e : false ≡ true = rw blocked at h in cc
          | inr free ↦ rw free (lookup-insert_self claim.issuance_key _ issuances)
        ]

module _ (dates : Dates) where
  pub claim_over-refused :
      (found : Option IssuanceRecord) (claim : IssuanceClaim) (issuances : Issuances)
      → (claim_over dates found claim issuances).0 ≡ false
      → (claim_over dates found claim issuances).1 ≡ issuances
  unfolding claim_over
  claim_over-refused none claim issuances h = let e : true ≡ false = h in cc
  claim_over-refused (some existing) claim issuances h =
      elim (Bool-cases
        (blocks_claim dates existing.claim.lease_expires_at existing.status claim.leased_at)) [
          | inl blocked ↦ rw blocked refl
          | inr free ↦ let e : true ≡ false = rw free at h in cc
        ]

holds-own :
    (claim : IssuanceClaim)
    → holds_lease claim.lease_id (some (record { claim = claim; status = leased })) ≡ true
unfolding holds_lease
holds-own claim = (string_eq.beq_iff claim.lease_id claim.lease_id).1 refl

pub complete-own :
    (claim : IssuanceClaim) (issued_at until : String) (found : Option IssuanceRecord)
    (issuances : Issuances)
    → found ≡ some (record { claim = claim; status = leased })
    → (complete_existing claim.issuance_key claim.lease_id issued_at until found issuances).0 ≡ true
unfolding complete_existing
complete-own claim issued_at until found issuances h = rw h (rw (holds-own claim) refl)

pub release-own :
    (claim : IssuanceClaim) (issuances : Issuances)
    → lookup claim.issuance_key issuances ≡ some (record { claim = claim; status = leased })
    → lookup claim.issuance_key
        (release_dast_session_issuance claim.issuance_key claim.lease_id issuances).1
      ≡ none
unfolding release_dast_session_issuance
release-own claim issuances h =
    rw h (rw (holds-own claim) (lookup-delete_self claim.issuance_key issuances))

module _ (engine : Engine) (environment : String → Option String) where
  -- The time from which a credential's life is counted: the receipt of the answer, or the attempt itself.
  unfoldable pub counted_from : ProfileMode → Attempt → ℕ
  counted_from (exchange url credential_env) attempt = attempt.received_at
  counted_from (static_credential credential_env expires_at) attempt = attempt.issued_at

  -- What stands behind a response: a deployment record of the profile's origin and a real digest, the one the
  -- response names, and a credential that ends within the profile's time to live.
  pub record Backed (profile : DastProfile) (attempt : Attempt) (response : DastResponse)
      : Type 0 where
    pub deployment : Deployment
    pub recorded : attempt.deployment ≡ some deployment
    pub same_origin : deployment.origin ≡ profile.origin
    pub digest_form : is_image_digest deployment.image_digest ≡ true
    pub names_digest : response.deployed_digest ≡ deployment.image_digest
    pub names_origin : response.origin ≡ profile.origin
    pub until : ℕ
    pub expires : response.expires_at ≡ engine.dates.to_iso until
    pub within : until ≤ counted_from profile.mode attempt + profile.ttl_seconds * 1_000

  deployed-facts :
      (profile : DastProfile) (found : Option Deployment) (deployment : Deployment)
      → deployed profile found ≡ ok deployment
      → (found ≡ some deployment)
        × (deployment.origin ≡ profile.origin)
        × (is_image_digest deployment.image_digest ≡ true)
  unfolding deployed
  deployed-facts profile none deployment h = cc
  deployed-facts profile (some d) deployment h =
      elim (Bool-cases (d.origin == profile.origin && is_image_digest d.image_digest)) [
        | inl good ↦
            let same : d ≡ deployment = ok-injective d deployment (rw good at h) in
            let (origin, digest) = (and_iff _ _).0 good in
            (
              ap some same,
              subst (λ x. x.origin ≡ profile.origin) same ((string_eq.beq_iff _ _).0 origin),
              subst (λ x. is_image_digest x.image_digest ≡ true) same digest,
            )
        | inr bad ↦ let e : err _ ≡ ok deployment = rw bad at h in cc
      ]

  -- A credential that ends at a printed time, not after the limit.
  EndsBy : ℕ → Credential → Type 0
  EndsBy limit c = (t : ℕ) × (c.expires_at ≡ engine.dates.to_iso t) × (t ≤ limit)

  dated_credential-EndsBy :
      (expiry : Option ℕ) (now ttl_ms : ℕ) (value : String) (c : Credential)
      → dated_credential engine expiry now ttl_ms value ≡ ok c
      → EndsBy (now + ttl_ms) c
  unfolding dated_credential expiry_within EndsBy
  dated_credential-EndsBy none now ttl_ms value c h = cc
  dated_credential-EndsBy (some expiry) now ttl_ms value c h =
      elim (Bool-cases (ltb (now + 30_000) expiry && leb expiry (now + ttl_ms))) [
        | inl good ↦
            let same : record { value = value; expires_at = engine.dates.to_iso expiry } ≡ c =
              ok-injective _ c (rw good at h) in
            (
              expiry,
              ap (λ x. x.expires_at) (sym same),
              (leb_iff expiry (now + ttl_ms)).0 ((and_iff _ _).0 good).1,
            )
        | inr bad ↦ let e : err invalid_output ≡ ok c = rw bad at h in cc
      ]

  accepted_text-EndsBy :
      (now ttl_ms : ℕ) (value : Option String) (fields : Fields) (c : Credential)
      → accepted_text engine now ttl_ms value fields ≡ ok c
      → EndsBy (now + ttl_ms) c
  unfolding accepted_text
  accepted_text-EndsBy now ttl_ms none fields c h = cc
  accepted_text-EndsBy now ttl_ms (some value) fields c h =
      elim (Bool-cases (credential_ok value)) [
        | inl good ↦ dated_credential-EndsBy _ now ttl_ms value c (rw good at h)
        | inr bad ↦ let e : err invalid_output ≡ ok c = rw bad at h in cc
      ]

  accepted_fields-EndsBy :
      (now ttl_ms : ℕ) (fields : Fields) (c : Credential)
      → accepted_fields engine now ttl_ms fields ≡ ok c
      → EndsBy (now + ttl_ms) c
  unfolding accepted_fields
  accepted_fields-EndsBy now ttl_ms fields c h =
      elim (Bool-cases (
        only_keys ("schemaVersion" ∷ "credential" ∷ "expiresAt" ∷ []) fields
        && is_value (text_field (field_value "schemaVersion" fields)) "1.0.0")) [
          | inl good ↦
              accepted_text-EndsBy now ttl_ms (text_field (field_value "credential" fields)) fields
                c (rw good at h)
          | inr bad ↦ let e : err invalid_output ≡ ok c = rw bad at h in cc
        ]

  accepted_answer-EndsBy :
      (now ttl_ms : ℕ) (answer : Answer) (c : Credential)
      → accepted_answer engine now ttl_ms answer ≡ ok c
      → EndsBy (now + ttl_ms) c
  unfolding accepted_answer
  accepted_answer-EndsBy now ttl_ms (answered (obj fields)) c h =
      accepted_fields-EndsBy now ttl_ms fields c h
  accepted_answer-EndsBy now ttl_ms (answered null) c h = cc
  accepted_answer-EndsBy now ttl_ms (answered (bool b)) c h = cc
  accepted_answer-EndsBy now ttl_ms (answered (num n)) c h = cc
  accepted_answer-EndsBy now ttl_ms (answered (str s)) c h = cc
  accepted_answer-EndsBy now ttl_ms (answered (arr items)) c h = cc
  accepted_answer-EndsBy now ttl_ms unreachable c h = cc
  accepted_answer-EndsBy now ttl_ms not_ok c h = cc
  accepted_answer-EndsBy now ttl_ms unreadable c h = cc

  static_for-EndsBy :
      (expiry : Option ℕ) (issued_at ttl_ms : ℕ) (variable : String) (c : Credential)
      → static_for engine environment expiry issued_at ttl_ms variable ≡ ok c
      → EndsBy (issued_at + ttl_ms) c
  unfolding static_for EndsBy
  static_for-EndsBy none issued_at ttl_ms variable c h = cc
  static_for-EndsBy (some expiry) issued_at ttl_ms variable c h =
      elim (Bool-cases
        (leb expiry (issued_at + 30_000) || ltb (issued_at + max_static_lifetime_ms) expiry)) [
          | inl bad ↦ let e : err _ ≡ ok c = rw bad at h in cc
          | inr good ↦
              let (value, read, last) =
                >>=-eq-ok (bounded_credential (environment variable) "static DAST credential") _
                  (rw good at h) in
              (
                min expiry (issued_at + ttl_ms),
                ap (λ x. x.expires_at) (sym (ok-injective _ c last)),
                omega arith,
              )
        ]

  credential_for-EndsBy :
      (mode : ProfileMode) (ttl_ms : ℕ) (attempt : Attempt) (c : Credential)
      → credential_for engine environment mode ttl_ms attempt ≡ ok c
      → EndsBy (counted_from mode attempt + ttl_ms) c
  unfolding credential_for counted_from exchange_credential
  credential_for-EndsBy (exchange url variable) ttl_ms attempt c h =
      let (value, read, last) =
        >>=-eq-ok (bounded_credential (environment variable) "DAST exchange credential") _ h in
      accepted_answer-EndsBy attempt.received_at ttl_ms (attempt.answer value) c last
  credential_for-EndsBy (static_credential variable expires_at) ttl_ms attempt c h =
      static_for-EndsBy (engine.dates.parse expires_at) attempt.issued_at ttl_ms variable c h

  pub prepared-Backed :
      (profile : DastProfile) (attempt : Attempt) (response : DastResponse)
      → prepared engine environment profile attempt ≡ ok response
      → Backed profile attempt response
  unfolding prepared EndsBy
  prepared-Backed profile attempt response h =
      let (deployment, found, rest) = >>=-eq-ok (deployed profile attempt.deployment) _ h in
      let (credential, issued, last) =
        >>=-eq-ok
          (credential_for engine environment profile.mode (profile.ttl_seconds * 1_000) attempt) _
          rest in
      let (recorded, origin, digest) = deployed-facts profile attempt.deployment deployment found in
      let (until, expires, within) =
        credential_for-EndsBy profile.mode (profile.ttl_seconds * 1_000) attempt credential
          issued in
      let same = ok-injective _ response last in
      record {
        deployment = deployment;
        recorded = recorded;
        same_origin = origin;
        digest_form = digest;
        names_digest = ap (λ r. r.deployed_digest) (sym same);
        names_origin = ap (λ r. r.origin) (sym same);
        until = until;
        expires = ap (λ r. r.expires_at) (sym same) ∙ expires;
        within = within;
      }
