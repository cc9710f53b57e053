-- ===== src/Ingest/Observations/Found.antt =====
-- `mergeObservations`: lemmas on the findings of an entry.
use guardianbot.Prelude.{
  string_eq, List, ◌&&◌, String, ◌≡◌, true, lookup, inl, some, Bool-cases, ◌==◌, inr, lookup-insert,
  ◌∙◌, subst, sym, lookup-insert_self, ◌∷◌, [], refl, insert, not, Option-cases, some-injective,
  is_some,
}
use guardianbot.Ingest.Records.{FindingObservation}
use guardianbot.Ingest.Observations.{add_finding, add_findings, is_fingerprint}
use mathlib.Core.List.{Memᴰ}

unfoldable pub HasFinding : String → List (String × FindingObservation) → Type 0
HasFinding fingerprint findings = (f : FindingObservation) × (lookup fingerprint findings ≡ some f)

-- Each finding of the entry stands under its own fingerprint.
unfoldable pub HasOwnKeys : List (String × FindingObservation) → Type 0
HasOwnKeys findings =
    (fingerprint : String) (f : FindingObservation)
    → lookup fingerprint findings ≡ some f
    → f.fingerprint ≡ fingerprint

insert-HasFinding :
    (fingerprint : String) (new : FindingObservation)
    (findings : List (String × FindingObservation))
    → HasFinding fingerprint findings
    → HasFinding fingerprint (insert new.fingerprint new findings)
unfolding HasFinding
insert-HasFinding fingerprint new findings (f, there) =
    elim (Bool-cases (new.fingerprint == fingerprint)) [
      | inr differ ↦ (f, lookup-insert new.fingerprint fingerprint new findings ∙ rw differ there)
      | inl same ↦ (new, lookup-insert new.fingerprint fingerprint new findings ∙ rw same refl)
    ]

insert-HasOwnKeys :
    (new : FindingObservation) (findings : List (String × FindingObservation))
    → HasOwnKeys findings
    → HasOwnKeys (insert new.fingerprint new findings)
unfolding HasOwnKeys
insert-HasOwnKeys new findings own fingerprint f there =
    elim (Bool-cases (new.fingerprint == fingerprint)) [
      | inr differ ↦
          own fingerprint f
            (rw differ at (sym (lookup-insert new.fingerprint fingerprint new findings) ∙ there))
      | inl same ↦
          let e : new ≡ f =
            some-injective new f
              (rw same at (sym (lookup-insert new.fingerprint fingerprint new findings) ∙ there)) in
          subst (λ g. g.fingerprint ≡ fingerprint) e
            ((string_eq.beq_iff new.fingerprint fingerprint).0 same)
    ]

-- Whether a finding is put in.
module _ (new : FindingObservation) (findings : List (String × FindingObservation)) where
  add_finding-HasFinding :
      (fingerprint : String)
      → HasFinding fingerprint findings
      → HasFinding fingerprint (add_finding new findings)
  unfolding add_finding
  add_finding-HasFinding fingerprint h =
      elim (Bool-cases
        (is_fingerprint new.fingerprint && not (is_some (lookup new.fingerprint findings)))) [
          | inr skip ↦ rw skip h
          | inl put ↦ rw put (insert-HasFinding fingerprint new findings h)
        ]

  add_finding-HasOwnKeys : HasOwnKeys findings → HasOwnKeys (add_finding new findings)
  unfolding add_finding
  add_finding-HasOwnKeys h =
      elim (Bool-cases
        (is_fingerprint new.fingerprint && not (is_some (lookup new.fingerprint findings)))) [
          | inr skip ↦ rw skip h
          | inl put ↦ rw put (insert-HasOwnKeys new findings h)
        ]

  add_finding-new :
      is_fingerprint new.fingerprint ≡ true → HasFinding new.fingerprint (add_finding new findings)
  unfolding HasFinding add_finding
  add_finding-new form = elim (Option-cases (lookup new.fingerprint findings)) [
    | inl absent ↦ rw (form, absent) (new, lookup-insert_self new.fingerprint new findings)
    | inr (f, there) ↦ rw (form, there) (f, there)
  ]

pub add_findings-HasFinding :
    (new : List FindingObservation) (findings : List (String × FindingObservation))
    (fingerprint : String)
    → HasFinding fingerprint findings
    → HasFinding fingerprint (add_findings new findings)
unfolding add_findings
add_findings-HasFinding [] findings fingerprint h = h
add_findings-HasFinding (f ∷ rest) findings fingerprint h =
    add_findings-HasFinding rest (add_finding f findings) fingerprint
      (add_finding-HasFinding f findings fingerprint h)

pub add_findings-HasOwnKeys :
    (new : List FindingObservation) (findings : List (String × FindingObservation))
    → HasOwnKeys findings
    → HasOwnKeys (add_findings new findings)
unfolding add_findings
add_findings-HasOwnKeys [] findings h = h
add_findings-HasOwnKeys (f ∷ rest) findings h =
    add_findings-HasOwnKeys rest (add_finding f findings) (add_finding-HasOwnKeys f findings h)

pub add_findings-new :
    (new : List FindingObservation) (findings : List (String × FindingObservation))
    (f : FindingObservation)
    → Memᴰ f new
    → is_fingerprint f.fingerprint ≡ true
    → HasFinding f.fingerprint (add_findings new findings)
unfolding add_findings
add_findings-new [] findings f m form = elim m [ ]
add_findings-new (g ∷ rest) findings f (Memᴰ.tail m) form =
    add_findings-new rest (add_finding g findings) f m form
add_findings-new (g ∷ rest) findings f (Memᴰ.head e) form =
    add_findings-HasFinding rest (add_finding g findings) f.fingerprint (
      subst (λ x. HasFinding x.fingerprint (add_finding g findings)) (sym e)
        (add_finding-new g findings (subst (λ x. is_fingerprint x.fingerprint ≡ true) e form)))
