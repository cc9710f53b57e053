-- ===== src/ReleaseGate/Findings/Accepted.antt =====
-- `validRiskAcceptance`: lemmas on the acceptances that waive a finding.
use mathlib.Core.List.{Memᴰ}
use guardianbot.Prelude.{
  refl, Option, ℕ, List, String, is_value, ◌≡◌, get_or_else, true, some, ap, ◌≢◌, eq_iff, ◌<◌,
  string_eq, includes, ◌↔◌, ◌==◌, false, arith, eq_refl, Option-cases, is_true, [], ◌∷◌, inl, inr,
  Bool-cases, subst,
}
use guardianbot.Prelude.Js.{Dates, Number, is_safe_integer, number_eq}
use guardianbot.ReleaseGate.Types.{DojoFinding, RiskAcceptance}
use guardianbot.Prelude.Text.{trim}
use mathlib.Core.Option.{none}
use guardianbot.ReleaseGate.Findings.{
  covers, acceptance_name, acceptance_valid, first_valid, accepts, valid_risk_acceptance,
}

module _ (dates : Dates) where
  -- Named, unexpired, decided "A", and naming this very finding.
  pub record IsValid (finding : DojoFinding) (now : ℕ) (acceptance : RiskAcceptance) : Type 0 where
    pub identified : is_safe_integer acceptance.id ≡ true
    pub named : trim (get_or_else acceptance.name "") ≢ ""
    pub expiry : ℕ
    pub expires : dates.parse (get_or_else acceptance.expiration_date "") ≡ some expiry
    pub unexpired : now < expiry
    pub accepted : acceptance.decision ≡ some "A"
    pub listed : List Number
    pub covering : acceptance.accepted_findings ≡ some listed
    pub covered : includes listed finding.id ≡ true

  covers_cases :
      (o : Option (List Number)) (id : Number)
      → covers o id ≡ true
      → (ids : List Number) × (o ≡ some ids) × (includes ids id ≡ true)
  covers_cases none id h = cc
  covers_cases (some ids) id h = (ids, refl, h)

  is_value_cases : (o : Option String) (a : String) → is_value o a ≡ true → o ≡ some a
  is_value_cases none a h = cc
  is_value_cases (some x) a h = ap some ((eq_iff x a).0 h)

  accepts_iff :
      (finding : DojoFinding) (now expiry : ℕ) (a : RiskAcceptance)
      → dates.parse (get_or_else a.expiration_date "") ≡ some expiry
      → (accepts finding now expiry a ≡ true) ↔ IsValid finding now a
  unfolding accepts
  accepts_iff finding now expiry a parsed = (
    (λ h.
        let named : (acceptance_name a == "") ≡ false = ground arith in
        let (ids, covering, covered) = covers_cases a.accepted_findings finding.id (ground arith) in
        record {
          identified = ground arith;
          named = ground (arith, eq_iff (acceptance_name a) "");
          expiry = expiry;
          expires = parsed;
          unexpired = ground arith;
          accepted = is_value_cases a.decision "A" (ground arith);
          listed = ids;
          covering = covering;
          covered = covered;
        }),
    (λ v.
        let same : expiry ≡ v.expiry = cc (parsed, v.expires) in
        ground (arith, same, eq_iff (acceptance_name a) "", eq_refl "A")),
  )

  acceptance_valid_iff :
      (finding : DojoFinding) (now : ℕ) (a : RiskAcceptance)
      → (acceptance_valid dates finding now a ≢ none) ↔ IsValid finding now a
  unfolding acceptance_valid
  acceptance_valid_iff finding now a =
      elim (Option-cases (dates.parse (get_or_else a.expiration_date ""))) [
        | inl e ↦ ((λ h. absurd (h (rw (e, acceptance_valid)))), (λ v h. cc (e, v.expires)))
        | inr (t, e) ↦ (
          (λ h. elim (Bool-cases (accepts finding now t a)) [
            | inl holds ↦ (accepts_iff finding now t a e).0 holds
            | inr fails ↦ absurd (h (rw (e, acceptance_valid) (rw fails)))
          ]),
          (λ v. rw (e, acceptance_valid) (rw ((accepts_iff finding now t a e).1 v) (λ n. cc n))),
        )
      ]

  -- The finding is marked risk-accepted, and one of its acceptances is valid.
  abbrev pub HasAcceptance : DojoFinding → ℕ → Type 0
  HasAcceptance finding now =
      (is_true finding.risk_accepted ≡ true)
      × ((a : RiskAcceptance) × Memᴰ a (get_or_else finding.accepted_risks [])
          × IsValid finding now a)

  first_valid_iff :
      (finding : DojoFinding) (now : ℕ) (risks : List RiskAcceptance)
      → (first_valid dates finding now risks ≢ none)
        ↔ ((a : RiskAcceptance) × Memᴰ a risks × IsValid finding now a)
  unfolding first_valid
  first_valid_iff finding now [] = ((λ h. absurd (h refl)), (λ h. elim (h.1) [ ]))
  first_valid_iff finding now (a ∷ risks) =
      elim (Option-cases (acceptance_valid dates finding now a)) [
        | inl e ↦ (
          (λ h.
              let (b, listed, valid) =
                (first_valid_iff finding now risks).0 (rw (e, first_valid) at h) in
              (b, Memᴰ.tail listed, valid)),
          (λ (b, m, valid).
              rw (e, first_valid)
                ((first_valid_iff finding now risks).1 (b, later b valid e m, valid))),
        )
        | inr (x, e) ↦ (
          (λ h. (a, Memᴰ.head refl, (acceptance_valid_iff finding now a).0 (λ n. cc (e, n)))),
          (λ h. rw (e, first_valid) (λ n. cc n)),
        )
      ]
    where
      later :
          (b : RiskAcceptance)
          → IsValid finding now b
          → acceptance_valid dates finding now a ≡ none
          → Memᴰ b (a ∷ risks)
          → Memᴰ b risks
      later b valid e (Memᴰ.head same) =
          absurd ((acceptance_valid_iff finding now a).1 (subst (IsValid finding now) same valid) e)
      later b valid e (Memᴰ.tail m) = m

  pub valid_risk_acceptance_iff :
      (finding : DojoFinding) (now : ℕ)
      → (valid_risk_acceptance dates finding now ≢ none) ↔ HasAcceptance finding now
  unfolding valid_risk_acceptance
  valid_risk_acceptance_iff finding now = elim (Bool-cases (is_true finding.risk_accepted)) [
    | inl e ↦ (
      (λ h. (e, (first_valid_iff finding now _).0 (rw (e, valid_risk_acceptance) at h))),
      (λ h. rw (e, valid_risk_acceptance) ((first_valid_iff finding now _).1 h.1)),
    )
    | inr e ↦ ((λ h. absurd (h (rw (e, valid_risk_acceptance)))), (λ h. cc (e, h.0)))
  ]
