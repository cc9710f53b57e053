-- ===== src/ReleaseGate/Coverage/Seen.antt =====
-- `evaluateReleaseGate`, the coverage of commit-scoped imports: lemmas on the Tests behind an
-- entry.
use guardianbot.ReleaseGate.Types.{ReleaseCandidate, DojoTest, Source}
use guardianbot.Prelude.{
  List, String, ◌<◌, lookup, All, ◌≡◌, some, values, true, insert, string_eq, Bool-cases, ◌==◌, inl,
  inr, refl, lookup-insert, sym, Option-cases, subst, All-insert, eq_iff, arith, ◌∷◌, ◌↔◌, ◌∙◌,
  All-mem, mem_of_lookup,
}
use guardianbot.ReleaseGate.Coverage.{
  ScanScope, scope_key, entry_for, counted, scoped, index_test, index_tests, TestIndex, no_tests,
}
use mathlib.Core.List.{Memᴰ, []}
use guardianbot.Prelude.Js.{is_safe_integer}
use guardianbot.ReleaseGate.Scope.{
  finding_scope, lower_tags, in_scope, finding_source, FindingScope, other_repository,
  other_environment, other_digest, other_commit,
}
use mathlib.Core.Option.{some-injective}
use guardianbot.ReleaseGate.Coverage.Keys.{scope_key-injective}

-- A listed, well-formed Test of the source, whose tags name the candidate.
abbrev pub HasTest : ReleaseCandidate → List DojoTest → Source → Type 0
HasTest candidate tests source =
    (t : DojoTest) × Memᴰ t tests
    × (is_safe_integer t.id ≡ true)
    × (finding_scope (lower_tags t.tags) candidate ≡ in_scope)
    × (finding_source (lower_tags t.tags) ≡ source)

abbrev pub IsSeen : ReleaseCandidate → List DojoTest → ScanScope → Type 0
IsSeen candidate tests entry = 0 < entry.in_scope_count → HasTest candidate tests entry.source

abbrev IsKeyed : List (String × ScanScope) → Type 0
IsKeyed m = (k : String) (e : ScanScope) → lookup k m ≡ some e → k ≡ scope_key e.source e.scan_type

module _ (candidate : ReleaseCandidate) (tests : List DojoTest) where
  abbrev Good : List (String × ScanScope) → Type 0
  Good m = IsKeyed m × All (IsSeen candidate tests) (values m)

  insert-IsKeyed :
      (k : String) (e : ScanScope) (m : List (String × ScanScope))
      → k ≡ scope_key e.source e.scan_type
      → IsKeyed m
      → IsKeyed (insert k e m)
  insert-IsKeyed k e m same keyed j x found = elim (Bool-cases (k == j)) [
    | inl eq ↦
        let written : e ≡ x = some-injective _ _ (rw eq at (rw (lookup-insert k j e m) at found)) in
        rw (← written) (sym ((eq_iff k j).0 eq) ∙ same)
    | inr ne ↦ keyed j x (rw ne at (rw (lookup-insert k j e m) at found))
  ]

  -- The entry of a source and scan type, new or found.
  entry_for-Good :
      (source : Source) (scan_type : String) (m : List (String × ScanScope))
      → Good m
      → ((entry_for source scan_type m).source ≡ source)
        × (scope_key source scan_type
            ≡ scope_key
                (entry_for source scan_type m).source
                (entry_for source scan_type m).scan_type)
        × IsSeen candidate tests (entry_for source scan_type m)
  unfolding entry_for
  entry_for-Good source scan_type m (keyed, seen) =
      elim (Option-cases (lookup (scope_key source scan_type) m)) [
        | inl e ↦ rw (e, entry_for) (refl, refl, λ h. absurd (omega arith))
        | inr (x, e) ↦
            let key = keyed (scope_key source scan_type) x e in
            rw (e, entry_for)
              (
                sym (scope_key-injective source x.source scan_type x.scan_type key),
                key,
                All-mem (IsSeen candidate tests) (values m) seen (mem_of_lookup _ x m e),
              )
      ]

  counted-Good :
      (scope : FindingScope) (source : Source) (entry : ScanScope)
      → entry.source ≡ source
      → (scope ≡ in_scope → HasTest candidate tests source)
      → IsSeen candidate tests entry
      → ((counted scope entry).source ≡ entry.source)
        × ((counted scope entry).scan_type ≡ entry.scan_type)
        × IsSeen candidate tests (counted scope entry)
  unfolding counted
  counted-Good in_scope source entry same test seen =
      (refl, refl, λ h. subst (HasTest candidate tests) (sym same) (test refl))
  counted-Good other_repository source entry same test seen = (refl, refl, seen)
  counted-Good other_environment source entry same test seen = (refl, refl, seen)
  counted-Good other_digest source entry same test seen = (refl, refl, seen)
  counted-Good other_commit source entry same test seen = (refl, refl, seen)

  write-Good :
      (scope : FindingScope) (source : Source) (scan_type : String) (m : List (String × ScanScope))
      → (scope ≡ in_scope → HasTest candidate tests source)
      → Good m
      → Good (insert (scope_key source scan_type) (counted scope (entry_for source scan_type m)) m)
  write-Good scope source scan_type m test good =
      let (same, key, seen) = entry_for-Good source scan_type m good in
      let (kept, kept_type, still) =
        counted-Good scope source (entry_for source scan_type m) same test seen in
      (
        insert-IsKeyed (scope_key source scan_type) _ m (rw (kept, kept_type) key) good.0,
        All-insert (IsSeen candidate tests) (scope_key source scan_type) _ m still good.1,
      )

  scoped-Good :
      (scope : FindingScope) (tags : List String) (scan_type : String)
      (m : List (String × ScanScope))
      → (scope ≡ in_scope → HasTest candidate tests (finding_source tags))
      → Good m
      → Good (scoped scope tags scan_type m)
  unfolding scoped
  scoped-Good other_repository tags scan_type m test good = good
  scoped-Good scope tags scan_type m test good =
      write-Good scope (finding_source tags) scan_type m test good

  index_test-Good :
      (t : DojoTest) (index : TestIndex)
      → Memᴰ t tests
      → Good index.scan_scope
      → Good (index_test candidate t index).scan_scope
  unfolding index_test
  index_test-Good t index member good = elim (Bool-cases (is_safe_integer t.id)) [
    | inl safe ↦ rw safe (
        scoped-Good (finding_scope (lower_tags t.tags) candidate) (lower_tags t.tags) _
          index.scan_scope (λ here. (t, member, safe, here, refl)) good)
    | inr unsafe ↦ rw unsafe good
  ]

  index_tests-Good :
      (ts : List DojoTest) (index : TestIndex)
      → ((t : DojoTest) → Memᴰ t ts → Memᴰ t tests)
      → Good index.scan_scope
      → Good (index_tests candidate ts index).scan_scope
  unfolding index_tests
  index_tests-Good [] index inside good = good
  index_tests-Good (t ∷ ts) index inside good =
      index_tests-Good ts (index_test candidate t index) (λ x m. inside x (Memᴰ.tail m))
        (index_test-Good t index (inside t (Memᴰ.head refl)) good)

-- Every entry of the index of the Tests is seen.
pub index_tests-IsSeen :
    (candidate : ReleaseCandidate) (tests : List DojoTest)
    → All (IsSeen candidate tests) (values (index_tests candidate tests no_tests).scan_scope)
index_tests-IsSeen candidate tests =
    (index_tests-Good candidate tests tests no_tests (λ t m. m) ((λ k e found. cc found), tt)).1

-- The Tests are all well formed exactly when none was counted as malformed.
index_test_malformed :
    (candidate : ReleaseCandidate) (t : DojoTest) (index : TestIndex)
    → ((index_test candidate t index).malformed ≡ 0)
      ↔ ((index.malformed ≡ 0) × (is_safe_integer t.id ≡ true))
unfolding index_test
index_test_malformed candidate t index = elim (Bool-cases (is_safe_integer t.id)) [
  | inl safe ↦ rw safe ((λ h. (h, refl)), (λ h. h.0))
  | inr unsafe ↦ rw unsafe ((λ h. absurd (omega arith)), (λ h. cc (h.1)))
]

pub index_tests_malformed :
    (candidate : ReleaseCandidate) (ts : List DojoTest) (index : TestIndex)
    → ((index_tests candidate ts index).malformed ≡ 0)
      ↔ ((index.malformed ≡ 0) × All (λ t. is_safe_integer t.id ≡ true) ts)
unfolding index_tests
index_tests_malformed candidate [] index = ((λ h. (h, tt)), (λ h. h.0))
index_tests_malformed candidate (t ∷ ts) index =
    let rest = index_tests_malformed candidate ts (index_test candidate t index) in
    let here = index_test_malformed candidate t index in
    (
      (λ h. let (a, b) = rest.0 h in let (c, d) = here.0 a in (c, (d, b))),
      (λ (c, (d, b)). rest.1 (here.1 (c, d), b)),
    )
