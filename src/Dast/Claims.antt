-- ===== src/Dast/Claims.antt =====
-- apps/control-plane/src/store.ts, `MemoryStore`: the claims on issuances of DAST sessions.
use guardianbot.Prelude.{
  String, List, Option, ℕ, Bool, true, lookup, false, if◌then◌else◌, insert, delete, some,
  string_eq, ltb, ◌&&◌, ◌==◌,
}
use guardianbot.Prelude.Js.{Dates}
use mathlib.Core.Option.{none}

pub record IssuanceClaim : Type 0 where
  pub issuance_key : String
  pub lease_id : String
  pub repository_id : ℕ
  pub run_id : ℕ
  pub run_attempt : ℕ
  pub profile_id : String
  pub origin : String
  pub leased_at : String
  pub lease_expires_at : String

pub data IssuanceStatus : Type 0 where
  leased : IssuanceStatus
  issued : (issued_at credential_expires_at : String) → IssuanceStatus

pub record IssuanceRecord : Type 0 where
  pub claim : IssuanceClaim
  pub status : IssuanceStatus

-- `Map<string, DastSessionIssuanceRecord>`
abbrev pub Issuances : Type 0
Issuances = List (String × IssuanceRecord)

-- `left > right`, false where one is NaN
unfoldable pub later_than : Option ℕ → Option ℕ → Bool
later_than (some l) (some r) = ltb r l
later_than _ _ = false

module _ (dates : Dates) where
  unfoldable pub blocks_claim : String → IssuanceStatus → String → Bool
  unfolding later_than
  blocks_claim lease_expires_at (issued at until) leased_at = true
  blocks_claim lease_expires_at leased leased_at =
      later_than (dates.parse lease_expires_at) (dates.parse leased_at)

  unfoldable pub claim_over : Option IssuanceRecord → IssuanceClaim → Issuances → Bool × Issuances
  unfolding blocks_claim
  claim_over none claim issuances =
      (true, insert claim.issuance_key (record { claim = claim; status = leased }) issuances)
  claim_over (some existing) claim issuances =
      if blocks_claim existing.claim.lease_expires_at existing.status claim.leased_at
      then (false, issuances)
      else (true, insert claim.issuance_key (record { claim = claim; status = leased }) issuances)

  unfoldable pub claim_dast_session_issuance : IssuanceClaim → Issuances → Bool × Issuances
  unfolding claim_over
  claim_dast_session_issuance claim issuances =
      claim_over (lookup claim.issuance_key issuances) claim issuances

-- `existing.status === "leased" && existing.leaseId === leaseId`
unfoldable pub holds_lease : String → Option IssuanceRecord → Bool
holds_lease lease_id none = false
holds_lease lease_id (some existing) =
    is_leased existing.status && existing.claim.lease_id == lease_id
  where
    is_leased : IssuanceStatus → Bool
    is_leased leased = true
    is_leased _ = false

unfoldable pub complete_existing :
    String → String → String → String → Option IssuanceRecord → Issuances → Bool × Issuances
unfolding holds_lease
complete_existing key lease_id issued_at credential_expires_at none issuances = (false, issuances)
complete_existing key lease_id issued_at credential_expires_at (some existing) issuances =
    if holds_lease lease_id (some existing)
    then (
      true,
      insert key (record existing { status = issued issued_at credential_expires_at }) issuances,
    )
    else (false, issuances)

unfoldable pub complete_dast_session_issuance :
    String → String → String → String → Issuances → Bool × Issuances
unfolding complete_existing
complete_dast_session_issuance key lease_id issued_at credential_expires_at issuances =
    complete_existing key lease_id issued_at credential_expires_at (lookup key issuances) issuances

unfoldable pub release_dast_session_issuance : String → String → Issuances → Bool × Issuances
unfolding holds_lease
release_dast_session_issuance key lease_id issuances =
    if holds_lease lease_id (lookup key issuances)
    then (true, delete key issuances)
    else (false, issuances)
