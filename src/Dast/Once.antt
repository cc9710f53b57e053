-- ===== src/Dast/Once.antt =====
-- apps/control-plane/src/dast-session.ts and `MemoryStore` of apps/control-plane/src/store.ts: lemmas on how
-- often a session is issued.
use guardianbot.Prelude.{
  refl, Option, String, Bool, false, List, ◌≡◌, ◌==◌, ℕ, ◌≢◌, true, some, ◌∷◌, lookup, subst,
  string_eq, if◌then◌else◌, ◌&&◌, Bool-cases, suc, inl, inr, arith, ◌≤◌, sym, lookup-insert_self,
  ◌∙◌, and_iff,
}
use guardianbot.Dast.Claims.{
  IssuanceClaim, IssuanceStatus, holds_lease, IssuanceRecord, claim_dast_session_issuance,
  claim_over, complete_dast_session_issuance, Issuances, blocks_claim,
  release_dast_session_issuance, issued, leased, complete_existing,
}
use guardianbot.Prelude.Js.{Dates}
use mathlib.Core.Option.{none}
use guardianbot.Prelude.Keys.{lookup-insert_ne, lookup-delete_ne, ne_of_beq}
use mathlib.Core.List.{[]}

-- A call on the claims, as the attempts of all workers reach the store.
pub data IssuanceCall : Type 0 where
  claims : IssuanceClaim → IssuanceCall
  completes : (key lease_id issued_at credential_expires_at : String) → IssuanceCall
  releases : (key lease_id : String) → IssuanceCall

is_issued_status : IssuanceStatus → Bool
is_issued_status leased = false
is_issued_status (issued at until) = true

is_issued : Option IssuanceRecord → Bool
unfolding is_issued_status
is_issued none = false
is_issued (some r) = is_issued_status r.status

-- Whether the call completes the issuance of the key.
unfoldable pub completes_key : String → IssuanceCall → Bool
completes_key key (claims claim) = false
completes_key key (completes own lease_id issued_at until) = own == key
completes_key key (releases own lease_id) = false

module _ (dates : Dates) where
  unfoldable pub issuance_step : IssuanceCall → Issuances → Bool × Issuances
  unfolding claim_dast_session_issuance complete_dast_session_issuance release_dast_session_issuance
  issuance_step (claims claim) issuances = claim_dast_session_issuance dates claim issuances
  issuance_step (completes key lease_id issued_at until) issuances =
      complete_dast_session_issuance key lease_id issued_at until issuances
  issuance_step (releases key lease_id) issuances =
      release_dast_session_issuance key lease_id issuances

  -- How many completions of the key succeed.
  unfoldable pub completions : String → List IssuanceCall → Issuances → ℕ
  unfolding issuance_step completes_key
  completions key [] issuances = 0
  completions key (call ∷ calls) issuances =
      let (done, after) = issuance_step call issuances in
      let later = completions key calls after in
      if done && completes_key key call then suc later else later

  -- A write on another key, or none, leaves the key as it was.
  claim-other :
      (found : Option IssuanceRecord) (claim : IssuanceClaim) (key : String) (issuances : Issuances)
      → claim.issuance_key ≢ key
      → lookup key (claim_over dates found claim issuances).1 ≡ lookup key issuances
  unfolding claim_over
  claim-other none claim key issuances ne = lookup-insert_ne claim.issuance_key key _ issuances ne
  claim-other (some existing) claim key issuances ne =
      elim (Bool-cases
        (blocks_claim dates existing.claim.lease_expires_at existing.status claim.leased_at)) [
          | inl blocked ↦ rw blocked refl
          | inr free ↦ rw free (lookup-insert_ne claim.issuance_key key _ issuances ne)
        ]

  -- An issued record blocks every claim, completion and release of its key.
  claim-issued :
      (found : Option IssuanceRecord) (claim : IssuanceClaim) (issuances : Issuances)
      → is_issued found ≡ true
      → claim_over dates found claim issuances ≡ (false, issuances)
  unfolding claim_over is_issued is_issued_status blocks_claim
  claim-issued none claim issuances h = let e : false ≡ true = h in cc
  claim-issued (some existing) claim issuances h = go existing.status refl
    where
      go :
          (status : IssuanceStatus)
          → existing.status ≡ status
          → claim_over dates (some existing) claim issuances ≡ (false, issuances)
      go leased e = let k : false ≡ true = subst (λ s. is_issued_status s ≡ true) e h in cc
      go (issued at until) e = rw (claim_over, e) refl

holds-issued :
    (lease_id : String) (found : Option IssuanceRecord)
    → is_issued found ≡ true
    → holds_lease lease_id found ≡ false
unfolding holds_lease is_issued is_issued_status
holds-issued lease_id none h = refl
holds-issued lease_id (some existing) h = go existing.status refl
  where
    go :
        (status : IssuanceStatus)
        → existing.status ≡ status
        → holds_lease lease_id (some existing) ≡ false
    go leased e = let k : false ≡ true = subst (λ s. is_issued_status s ≡ true) e h in cc
    go (issued at until) e = rw (holds_lease, e) refl

own_key : IssuanceCall → String
own_key (claims claim) = claim.issuance_key
own_key (completes key lease_id issued_at until) = key
own_key (releases key lease_id) = key

module _ (dates : Dates) where
  complete-other :
      (found : Option IssuanceRecord) (own lease_id issued_at until key : String)
      (issuances : Issuances)
      → own ≢ key
      → lookup key (complete_existing own lease_id issued_at until found issuances).1
        ≡ lookup key issuances
  unfolding complete_existing
  complete-other none own lease_id issued_at until key issuances ne = refl
  complete-other (some existing) own lease_id issued_at until key issuances ne =
      elim (Bool-cases (holds_lease lease_id (some existing))) [
        | inl held ↦ rw held (lookup-insert_ne own key _ issuances ne)
        | inr foreign ↦ rw foreign refl
      ]

  release-other :
      (own lease_id key : String) (issuances : Issuances)
      → own ≢ key
      → lookup key (release_dast_session_issuance own lease_id issuances).1 ≡ lookup key issuances
  unfolding release_dast_session_issuance
  release-other own lease_id key issuances ne =
      elim (Bool-cases (holds_lease lease_id (lookup own issuances))) [
        | inl held ↦ rw held (lookup-delete_ne own key issuances ne)
        | inr foreign ↦ rw foreign refl
      ]

  step-other :
      (call : IssuanceCall) (key : String) (issuances : Issuances)
      → own_key call ≢ key
      → lookup key (issuance_step dates call issuances).1 ≡ lookup key issuances
  unfolding issuance_step own_key claim_dast_session_issuance complete_dast_session_issuance
  step-other (claims claim) key issuances ne =
      claim-other dates (lookup claim.issuance_key issuances) claim key issuances ne
  step-other (completes own lease_id issued_at until) key issuances ne =
      complete-other (lookup own issuances) own lease_id issued_at until key issuances ne
  step-other (releases own lease_id) key issuances ne = release-other own lease_id key issuances ne

  complete-issued :
      (found : Option IssuanceRecord) (own lease_id issued_at until : String)
      (issuances : Issuances)
      → is_issued found ≡ true
      → complete_existing own lease_id issued_at until found issuances ≡ (false, issuances)
  unfolding complete_existing
  complete-issued none own lease_id issued_at until issuances h = refl
  complete-issued (some existing) own lease_id issued_at until issuances h =
      rw (holds-issued lease_id (some existing) h) refl

  step-issued :
      (call : IssuanceCall) (issuances : Issuances)
      → is_issued (lookup (own_key call) issuances) ≡ true
      → issuance_step dates call issuances ≡ (false, issuances)
  unfolding issuance_step own_key claim_dast_session_issuance complete_dast_session_issuance
      release_dast_session_issuance
  step-issued (claims claim) issuances h =
      claim-issued dates (lookup claim.issuance_key issuances) claim issuances h
  step-issued (completes own lease_id issued_at until) issuances h =
      complete-issued (lookup own issuances) own lease_id issued_at until issuances h
  step-issued (releases own lease_id) issuances h =
      rw (holds-issued lease_id (lookup own issuances) h) refl

  completes_key-own :
      (key : String) (call : IssuanceCall) → completes_key key call ≡ true → own_key call ≡ key
  unfolding completes_key own_key
  completes_key-own key (claims claim) h = let e : false ≡ true = h in cc
  completes_key-own key (completes own lease_id issued_at until) h = (string_eq.beq_iff own key).0 h
  completes_key-own key (releases own lease_id) h = let e : false ≡ true = h in cc

  -- What is issued stays so, and no completion of it succeeds.
  issued-stays :
      (key : String) (call : IssuanceCall) (issuances : Issuances)
      → is_issued (lookup key issuances) ≡ true
      → (is_issued (lookup key (issuance_step dates call issuances).1) ≡ true)
        × (((issuance_step dates call issuances).0 && completes_key key call) ≡ false)
  issued-stays key call issuances h = elim (Bool-cases (own_key call == key)) [
    | inl same ↦
        let here = (string_eq.beq_iff (own_key call) key).0 same in
        let stuck =
          step-issued call issuances
            (subst (λ k. is_issued (lookup k issuances) ≡ true) (sym here) h) in
        (
          subst (λ s. is_issued (lookup key s.1) ≡ true) (sym stuck) h,
          subst (λ s. (s.0 && completes_key key call) ≡ false) (sym stuck) refl,
        )
    | inr differ ↦
        let ne = ne_of_beq (own_key call) key differ in
        (
          subst (λ o. is_issued o ≡ true) (sym (step-other call key issuances ne)) h,
          not_mine (issuance_step dates call issuances).0 ne,
        )
  ]
    where
      not_mine : (b : Bool) → own_key call ≢ key → (b && completes_key key call) ≡ false
      not_mine b ne = elim (Bool-cases (completes_key key call)) [
        | inl mine ↦ absurd (ne (completes_key-own key call mine))
        | inr other ↦ ground (arith, other)
      ]

  complete-issues :
      (found : Option IssuanceRecord) (own lease_id issued_at until : String)
      (issuances : Issuances)
      → (complete_existing own lease_id issued_at until found issuances).0 ≡ true
      → is_issued (lookup own (complete_existing own lease_id issued_at until found issuances).1)
        ≡ true
  unfolding complete_existing is_issued is_issued_status
  complete-issues none own lease_id issued_at until issuances h = let e : false ≡ true = h in cc
  complete-issues (some existing) own lease_id issued_at until issuances h =
      elim (Bool-cases (holds_lease lease_id (some existing))) [
        | inl held ↦ rw held (
            rw
              (lookup-insert_self own (record existing { status = issued issued_at until })
                issuances)
              refl)
        | inr foreign ↦ let e : false ≡ true = rw foreign at h in cc
      ]

  step-issues :
      (key : String) (call : IssuanceCall) (issuances : Issuances)
      → ((issuance_step dates call issuances).0 && completes_key key call) ≡ true
      → is_issued (lookup key (issuance_step dates call issuances).1) ≡ true
  unfolding issuance_step completes_key complete_dast_session_issuance
  step-issues key (claims claim) issuances h =
      let e : false ≡ true = sym (and_false (issuance_step dates (claims claim) issuances).0) ∙ h in
      cc
    where
      and_false : (b : Bool) → (b && false) ≡ false
      and_false b = ground arith
  step-issues key (completes own lease_id issued_at until) issuances h =
      let both = (and_iff _ _).0 h in
      subst
        (λ k.
          is_issued (
            lookup k
              (complete_existing own lease_id issued_at until (lookup own issuances) issuances).1)
          ≡ true)
        ((string_eq.beq_iff own key).0 both.1)
        (complete-issues (lookup own issuances) own lease_id issued_at until issuances both.0)
  step-issues key (releases own lease_id) issuances h =
      let e : false ≡ true =
        sym (and_false (issuance_step dates (releases own lease_id) issuances).0) ∙ h in
      cc
    where
      and_false : (b : Bool) → (b && false) ≡ false
      and_false b = ground arith

  completions-none :
      (key : String) (calls : List IssuanceCall) (issuances : Issuances)
      → is_issued (lookup key issuances) ≡ true
      → completions dates key calls issuances ≡ 0
  unfolding completions
  completions-none key [] issuances h = refl
  completions-none key (call ∷ calls) issuances h =
      let (stays, idle) = issued-stays key call issuances h in
      rw idle (completions-none key calls (issuance_step dates call issuances).1 stays)

  pub completions-once :
      (key : String) (calls : List IssuanceCall) (issuances : Issuances)
      → completions dates key calls issuances ≤ 1
  unfolding completions
  completions-once key [] issuances = omega arith
  completions-once key (call ∷ calls) issuances =
      elim (Bool-cases ((issuance_step dates call issuances).0 && completes_key key call)) [
        | inl done ↦ rw done (
            omega (
              arith,
              completions-none key calls (issuance_step dates call issuances).1
                  (step-issues key call issuances done),
            ))
        | inr idle ↦ rw idle (completions-once key calls (issuance_step dates call issuances).1)
      ]
