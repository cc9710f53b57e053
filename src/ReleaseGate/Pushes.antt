-- ===== src/ReleaseGate/Pushes.antt =====
-- Parts of the evaluation: those that push no blocker, and how many findings a part accounts for.
use guardianbot.ReleaseGate.Types.{
  Pushed, GateBlocker, ◌⊕◌, block, nothing, EvidenceKind, cite, GateException,
}
use guardianbot.Prelude.{
  ◌≡◌, [], ◌↔◌, append-eq-nil_iff, List, ℕ, ◌+◌, ◌∷◌, length, ◌++◌, arith, if◌then◌else◌,
  length-append, is_some, refl, String, Bool, Option, ◌≤◌, false, some, true,
}
use guardianbot.Prelude.Js.{Number}
use mathlib.Core.Option.{none}

abbrev pub IsClear : Pushed → Type 0
IsClear p = p.blockers ≡ []

pub IsClear-⊕ : (a b : Pushed) → IsClear (a ⊕ b) ↔ (IsClear a × IsClear b)
IsClear-⊕ a b = append-eq-nil_iff a.blockers b.blockers

pub not-IsClear-block : (b : GateBlocker) → ¬ IsClear (block b)
not-IsClear-block b h = cc

-- The blockers that name a finding.
abbrev pub about_findings : List GateBlocker → ℕ
about_findings [] = 0
about_findings (b ∷ bs) = (if is_some b.finding_id then 1 else 0) + about_findings bs

-- The findings that a part of the evaluation has ignored, excepted or blocked on.
unfoldable pub weight : Pushed → ℕ
weight p =
    p.ignored.out_of_scope
    + p.ignored.below_threshold
    + p.ignored.not_open
    + length p.exceptions
    + about_findings p.blockers

-- The blockers and the exceptions that name a finding whose id passes a test.
abbrev pub blockers_on : (Number → Bool) → List GateBlocker → ℕ
blockers_on test [] = 0
blockers_on test (b ∷ bs) = (if passes b.finding_id then 1 else 0) + blockers_on test bs
  where
    passes : Option Number → Bool
    passes none = false
    passes (some id) = test id

abbrev pub exceptions_on : (Number → Bool) → List GateException → ℕ
exceptions_on test [] = 0
exceptions_on test (e ∷ es) = (if test e.finding_id then 1 else 0) + exceptions_on test es

unfoldable pub named : (Number → Bool) → Pushed → ℕ
named test p = blockers_on test p.blockers + exceptions_on test p.exceptions

pub blockers_on-all : (xs : List GateBlocker) → blockers_on (λ id. true) xs ≡ about_findings xs
blockers_on-all [] = refl
blockers_on-all (b ∷ bs) = ground (arith, blockers_on-all bs)

pub exceptions_on-all : (xs : List GateException) → exceptions_on (λ id. true) xs ≡ length xs
exceptions_on-all [] = refl
exceptions_on-all (e ∷ es) = omega (arith, exceptions_on-all es)

blockers_on-append :
    (test : Number → Bool) (xs ys : List GateBlocker)
    → blockers_on test (xs ++ ys) ≡ blockers_on test xs + blockers_on test ys
blockers_on-append test [] ys = omega arith
blockers_on-append test (x ∷ xs) ys = omega (arith, blockers_on-append test xs ys)

exceptions_on-append :
    (test : Number → Bool) (xs ys : List GateException)
    → exceptions_on test (xs ++ ys) ≡ exceptions_on test xs + exceptions_on test ys
exceptions_on-append test [] ys = omega arith
exceptions_on-append test (x ∷ xs) ys = omega (arith, exceptions_on-append test xs ys)

pub named-⊕ :
    (test : Number → Bool) (a b : Pushed) → named test (a ⊕ b) ≡ named test a + named test b
unfolding named
named-⊕ test a b = omega (
  arith,
  blockers_on-append test a.blockers b.blockers,
  exceptions_on-append test a.exceptions b.exceptions,
)

blockers_on-le :
    (test : Number → Bool) (xs : List GateBlocker) → blockers_on test xs ≤ about_findings xs
blockers_on-le test [] = omega arith
blockers_on-le test (b ∷ bs) = ground (arith, blockers_on-le test bs)

exceptions_on-le :
    (test : Number → Bool) (xs : List GateException) → exceptions_on test xs ≤ length xs
exceptions_on-le test [] = omega arith
exceptions_on-le test (e ∷ es) = ground (arith, exceptions_on-le test es)

-- A part that accounts for no finding names none.
pub named_zero : (test : Number → Bool) (p : Pushed) → weight p ≡ 0 → named test p ≡ 0
unfolding named weight
named_zero test p h =
    omega (arith, h, blockers_on-le test p.blockers, exceptions_on-le test p.exceptions)

pub about_findings-append :
    (xs ys : List GateBlocker) → about_findings (xs ++ ys) ≡ about_findings xs + about_findings ys
about_findings-append [] ys = omega arith
about_findings-append (x ∷ xs) ys = omega (arith, about_findings-append xs ys)

pub weight-⊕ : (a b : Pushed) → weight (a ⊕ b) ≡ weight a + weight b
unfolding weight
weight-⊕ a b =
    omega
      (arith, length-append a.exceptions b.exceptions, about_findings-append a.blockers b.blockers)

pub weight-nothing : weight nothing ≡ 0
unfolding weight
weight-nothing = refl

pub weight-cite : (kind : EvidenceKind) (ref status : String) → weight (cite kind ref status) ≡ 0
unfolding weight
weight-cite kind ref status = refl

-- A part that accounts for nothing may be left out of the count.
pub weight-⊕_zero : (a b : Pushed) → weight b ≡ 0 → weight (a ⊕ b) ≡ weight a
weight-⊕_zero a b h = omega (arith, weight-⊕ a b)
