-- ===== src/ReleaseGate/Scope/InScope.antt =====
-- `findingScope`: lemmas on the tags of a Test.
use guardianbot.Prelude.{
  List, String, length, includes, filter, ◌≡◌, true, ◌==◌, ◌||◌, ◌↔◌, string_eq, ◌+s◌, ◌⊎◌,
  includes-filter, Bool-cases, inl, filter_none, nat_beq_iff, inr, sym, if◌then◌else◌, ◌∙◌, arith,
  mem_of_includes, filter_some, nat_eq,
}
use guardianbot.ReleaseGate.Scope.{
  finding_scope, repo_tag, in_scope, env_tag, image_tag, commit_tag,
}
use mathlib.Core.List.{Memᴰ}
use guardianbot.ReleaseGate.Types.{ReleaseCandidate}
use text.Mathlib.Text.{starts_with}
use text.Mathlib.TextPositions.{starts_with-append}

-- Some tag of the family is there only if the wanted one is.
abbrev pub AgreesWith : List String → String → String → Type 0
AgreesWith tags family wanted =
    (t : String) → Memᴰ t tags → starts_with t family ≡ true → includes tags wanted ≡ true

-- The repository's tag is there; an environment or a digest is named only beside the candidate's; and the
-- candidate's digest or commit is named.
pub record IsInScope (tags : List String) (candidate : ReleaseCandidate) : Type 0 where
  pub repository : includes tags (repo_tag candidate) ≡ true
  pub environment : AgreesWith tags "guardianbot:env:" (env_tag candidate)
  pub digest : AgreesWith tags "guardianbot:image:" (image_tag candidate)
  pub candidate_named :
      (includes tags (image_tag candidate) ≡ true) ⊎ (includes tags (commit_tag candidate) ≡ true)

agrees_iff :
    (tags : List String) (family rest : String)
    → ((length (filter (λ tag. starts_with tag family) tags) == 0
          || includes (filter (λ tag. starts_with tag family) tags) (family +s rest))
        ≡ true)
      ↔ AgreesWith tags family (family +s rest)
agrees_iff tags family rest =
    let family_tags = filter (λ tag. starts_with tag family) tags in
    let seen =
      includes-filter (λ tag. starts_with tag family) tags (family +s rest)
        (starts_with-append family rest) in
    elim (Bool-cases (length family_tags == 0)) [
      | inl empty ↦ (
        (λ h t m p.
            cc (p, filter_none (λ tag. starts_with tag family) tags ((nat_beq_iff _ 0).0 empty) m)),
        (λ h. rw empty),
      )
      | inr some_tag ↦ (
        (λ h t m p. sym seen ∙ (rw some_tag at h)),
        (λ h. rw some_tag (
            let (t, m, p) =
              filter_some (λ tag. starts_with tag family) tags
                (λ none_there. cc (some_tag, (nat_beq_iff _ 0).1 none_there)) in
            seen ∙ h t m p)),
      )
    ]

-- The tests of the code, without their order.
tests_of_scope :
    (tags : List String) (candidate : ReleaseCandidate)
    → (finding_scope tags candidate ≡ in_scope) ↔ (
        (includes tags (repo_tag candidate) ≡ true)
        × ((length (filter (λ tag. starts_with tag "guardianbot:env:") tags) == 0
              || includes
                  (filter (λ tag. starts_with tag "guardianbot:env:") tags)
                  (env_tag candidate))
            ≡ true)
        × ((if length (filter (λ tag. starts_with tag "guardianbot:image:") tags) == 0
              then includes tags (commit_tag candidate)
              else includes
                  (filter (λ tag. starts_with tag "guardianbot:image:") tags)
                  (image_tag candidate))
            ≡ true))
unfolding finding_scope
tests_of_scope tags candidate =
    ((λ h. (ground arith, ground arith, ground arith)), (λ h. ground (arith, h.0, h.1, h.2)))

image_cases :
    (tags : List String) (candidate : ReleaseCandidate)
    → ((if length (filter (λ tag. starts_with tag "guardianbot:image:") tags) == 0
          then includes tags (commit_tag candidate)
          else includes
              (filter (λ tag. starts_with tag "guardianbot:image:") tags)
              (image_tag candidate))
        ≡ true)
      ↔ (AgreesWith tags "guardianbot:image:" (image_tag candidate)
          × ((includes tags (image_tag candidate) ≡ true)
              ⊎ (includes tags (commit_tag candidate) ≡ true)))
image_cases tags candidate =
    let is_image = λ (tag : String). starts_with tag "guardianbot:image:" in
    let agrees = agrees_iff tags "guardianbot:image:" candidate.digest in
    let seen =
      includes-filter is_image tags (image_tag candidate)
        (starts_with-append "guardianbot:image:" candidate.digest) in
    elim (Bool-cases (length (filter is_image tags) == 0)) [
      | inl empty ↦ (
        (λ h. (agrees.0 (rw empty), inr (rw empty at h))),
        (λ (agree, named). rw empty (elim named [
          | inr commit ↦ commit
          | inl digest ↦ cc (
            filter_none is_image tags ((nat_beq_iff _ 0).0 empty)
                (mem_of_includes tags (image_tag candidate) digest),
            starts_with-append "guardianbot:image:" candidate.digest,
          )
        ])),
      )
      | inr some_tag ↦ (
        (λ h. let here = rw some_tag at h in (agrees.0 (rw some_tag here), inl (sym seen ∙ here))),
        (λ (agree, named). rw some_tag (rw some_tag at (agrees.1 agree))),
      )
    ]

-- A Test is in scope exactly when its tags have the candidate's repository, have the candidate's environment
-- where they have any environment, have the candidate's digest where they have any digest, and have the
-- candidate's digest or commit. Tags of other environments and digests may stand beside the candidate's.
pub finding_scope_iff :
    (tags : List String) (candidate : ReleaseCandidate)
    → (finding_scope tags candidate ≡ in_scope) ↔ IsInScope tags candidate
finding_scope_iff tags candidate =
    let tests = tests_of_scope tags candidate in
    let env = agrees_iff tags "guardianbot:env:" candidate.environment in
    let image = image_cases tags candidate in
    (
      (λ h.
          let (r, e, d) = tests.0 h in
          let (agree, named) = image.0 d in
          record {
            repository = r;
            environment = env.0 e;
            digest = agree;
            candidate_named = named;
          }),
      (λ v. tests.1 (v.repository, env.1 v.environment, image.1 (v.digest, v.candidate_named))),
    )
