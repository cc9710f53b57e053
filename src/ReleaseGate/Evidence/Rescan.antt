-- ===== src/ReleaseGate/Evidence/Rescan.antt =====
-- `evaluateReleaseGate`, the deployed-digest rescan: lemmas on checks that push no blocker.
use mathlib.Core.Option.{some-injective}
use guardianbot.Prelude.{
  refl, String, Option, ℕ, ◌≡◌, some, true, false, ◌≤◌, ◌↔◌, ◌+◌, arith, eq_iff, ◌*◌, Option-cases,
  inl, inr, subst, Bool, sym, if◌then◌else◌,
}
use guardianbot.Prelude.Js.{Dates}
use guardianbot.ReleaseGate.Types.{GateInput, RescanResult, Requirement, RescanEvidence, nothing}
use guardianbot.ReleaseGate.Evidence.{
  required, is_stale, deployed_verdict, rescan_of, rescan_max_age_hours, is_negative,
  coverage_verdict, cite_rescan, coverage_of, check_deployed_rescan, in_environment,
}
use guardianbot.ReleaseGate.Pushes.{IsClear, IsClear-⊕}
use mathlib.Core.Option.{none}

module _ (dates : Dates) where
  -- A reconciled rescan of the deployed digest in the environment, observed within 48 hours.
  abbrev pub IsFresh : String → String → ℕ → Option RescanResult → Type 0
  IsFresh deployed environment now o =
      (r : RescanResult) × (o ≡ some r)
      × (r.digest ≡ deployed)
      × (r.environment ≡ environment)
      × ((t : ℕ) × (dates.parse r.observed_at ≡ some t)
          × (now ≤ t + rescan_max_age_hours * 3_600_000))
      × (r.artifact_accepted ≡ true)
      × (is_negative r.critical_findings ≡ false)

  -- Where the policy requires it, the candidate's environment is covered: nothing was deployed there
  -- yet, or what is deployed has a fresh rescan.
  abbrev pub IsRescanned : GateInput → Type 0
  IsRescanned input =
      required input Requirement.deployed_rescan ≡ true
      → (c : RescanEvidence) × (input.evidence.deployed_rescan ≡ some c)
        × (c.environment ≡ input.candidate.environment)
        × ((deployed : String)
            → c.deployed_digest ≡ some deployed
            → IsFresh deployed input.candidate.environment input.now c.rescan)

  stale_cases :
      (o : Option ℕ) (now : ℕ)
      → (is_stale o now ≡ false)
        ↔ ((t : ℕ) × (o ≡ some t) × (now ≤ t + rescan_max_age_hours * 3_600_000))
  stale_cases none now = ((λ h. cc), (λ h. cc (h.1)))
  stale_cases (some t) now =
      ((λ h. (t, refl, ground arith)), (λ h. let (u, same, le) = h in ground (arith, same)))

  deployed_verdict-IsClear :
      (deployed environment : String) (now : ℕ) (o : Option RescanResult)
      → IsClear (deployed_verdict dates environment now (rescan_of deployed environment o))
        ↔ IsFresh deployed environment now o
  unfolding deployed_verdict
  deployed_verdict-IsClear deployed environment now none = ((λ h. cc), (λ h. cc (h.1)))
  deployed_verdict-IsClear deployed environment now (some r) = (
    (λ h. (
      r,
      refl,
      ground (arith, eq_iff r.digest deployed, eq_iff r.environment environment),
      ground (arith, eq_iff r.digest deployed, eq_iff r.environment environment),
      (stale_cases (dates.parse r.observed_at) now).0 (ground arith),
      ground arith,
      ground arith,
    )),
    (λ (s, same, digest, env, fresh, accepted, count).
        let current = (stale_cases (dates.parse s.observed_at) now).1 fresh in
        ground (arith, same, current, eq_iff s.digest deployed, eq_iff s.environment environment)),
  )

  abbrev Fresh : String → ℕ → RescanEvidence → Type 0
  Fresh environment now c =
      (deployed : String)
      → c.deployed_digest ≡ some deployed
      → IsFresh deployed environment now c.rescan

  covered-IsClear :
      (environment : String) (now : ℕ) (c : RescanEvidence)
      → IsClear (coverage_verdict dates environment now (some c)) ↔ Fresh environment now c
  unfolding coverage_verdict
  covered-IsClear environment now c = elim (Option-cases c.deployed_digest) [
    | inl e ↦ ((λ h deployed given. cc (e, given)), (λ h. rw (e, coverage_verdict)))
    | inr (d, e) ↦ (
      (λ h deployed given.
          let same : d ≡ deployed = cc (e, given) in
          (deployed_verdict-IsClear deployed environment now c.rescan).0
            (rw (← same) (rw (e, coverage_verdict) at h))),
      (λ fresh.
          rw (e, coverage_verdict)
            ((deployed_verdict-IsClear d environment now c.rescan).1 (fresh d e))),
    )
  ]

  coverage_verdict-IsClear :
      (environment : String) (now : ℕ) (o : Option RescanEvidence)
      → IsClear (coverage_verdict dates environment now o)
        ↔ ((c : RescanEvidence) × (o ≡ some c) × Fresh environment now c)
  coverage_verdict-IsClear environment now none =
      ((λ h. unfold coverage_verdict in cc h), (λ h. cc (h.1)))
  coverage_verdict-IsClear environment now (some c) = (
    (λ h. (c, refl, (covered-IsClear environment now c).0 h)),
    (λ (x, same, fresh).
        (covered-IsClear environment now c).1
          (subst (Fresh environment now) (sym (some-injective _ _ same)) fresh)),
  )

  cite_rescan-IsClear : (o : Option RescanEvidence) → IsClear (cite_rescan o)
  unfolding cite_rescan
  cite_rescan-IsClear o = ground arith

  needed-IsClear :
      (needed : Bool) (environment : String) (now : ℕ) (o : Option RescanEvidence)
      → IsClear (if needed then coverage_verdict dates environment now o else nothing)
        ↔ (needed ≡ true → (c : RescanEvidence) × (o ≡ some c) × Fresh environment now c)
  needed-IsClear true environment now o = (
    (λ h n. (coverage_verdict-IsClear environment now o).0 h),
    (λ h. (coverage_verdict-IsClear environment now o).1 (h refl)),
  )
  needed-IsClear false environment now o = ((λ h n. cc), (λ h. refl))

  in_environment_iff :
      (environment : String) (o : Option RescanEvidence) (c : RescanEvidence)
      → (in_environment environment o ≡ some c) ↔ ((o ≡ some c) × (c.environment ≡ environment))
  in_environment_iff environment none c = ((λ h. cc h), (λ h. cc (h.0)))
  in_environment_iff environment (some d) c = (
    (λ h. ground (arith, eq_iff d.environment environment)),
    (λ h. ground (arith, eq_iff d.environment environment, h.0, h.1)),
  )

  pub check_deployed_rescan-IsClear :
      (input : GateInput) → IsClear (check_deployed_rescan dates input) ↔ IsRescanned input
  unfolding check_deployed_rescan
  check_deployed_rescan-IsClear input =
      let environment = input.candidate.environment in
      let needed = required input Requirement.deployed_rescan in
      let coverage = coverage_of input in
      let (to, from) = needed-IsClear needed environment input.now coverage in
      let inside = in_environment_iff environment input.evidence.deployed_rescan in
      let both =
        IsClear-⊕ (cite_rescan coverage)
          (if needed then coverage_verdict dates environment input.now coverage else nothing) in
      (
        (λ h n.
            let (c, found, fresh) = to ((both.0 h).1) n in
            let (listed, env) = (inside c).0 found in (c, listed, env, fresh)),
        (λ h. both.1 (
          cite_rescan-IsClear coverage,
          from (λ n. let (c, listed, env, fresh) = h n in (c, (inside c).1 (listed, env), fresh)),
        )),
      )
