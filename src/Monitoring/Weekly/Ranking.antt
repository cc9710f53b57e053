-- ===== src/Monitoring/Weekly/Ranking.antt =====
-- packages/monitoring/src/weekly-report.ts, `buildWeeklyFindingsSection`: lemmas on the ranking of the owners.
use guardianbot.Prelude.{
  ◌==◌, string_eq, some, none, inl, inr, ◌<◌, ◌⊎◌, List, String, ℕ, ◌∷◌, get_or_else, ◌≡◌, Bool,
  if◌then◌else◌, lookup, sort, true, All, All-members, ◌+◌, Bool-cases, arith, All-mem, ap, ◌∙◌,
  All-sort, lookup-insert, Option-cases, mem_of_lookup_entry, sym, insert,
}
use guardianbot.Monitoring.Lifecycle.{FindingsMetrics}
use guardianbot.Monitoring.Weekly.Findings.{add_owners, all_owners, add_owner_count, owner_before}
use guardianbot.Prelude.Keys.{HasDistinctKeys, insert-HasDistinctKeys, lookup_of_mem}
use guardianbot.Prelude.Distinct.{sort-AreDistinct}
use guardianbot.Prelude.Js.{Collation}
use guardianbot.Prelude.Sorted.{IsSorted}
use mathlib.Core.List.{[], Memᴰ}
use mathlib.Core.Bool.{false}

-- What the entries of one repository say of an owner.
unfoldable pub entries_total : String → List (String × ℕ) → ℕ
entries_total owner [] = 0
entries_total owner ((name, n) ∷ rest) =
    let others = entries_total owner rest in if name == owner then n + others else others

-- The findings of an owner, in all repositories.
unfoldable pub owner_total : String → List FindingsMetrics → ℕ
unfolding entries_total
owner_total owner [] = 0
owner_total owner (f ∷ rest) = entries_total owner f.by_owner + owner_total owner rest

abbrev pub counted : String → List (String × ℕ) → ℕ
counted owner owners = get_or_else (lookup owner owners) 0

counted-add_owner_count :
    (owner name : String) (n : ℕ) (owners : List (String × ℕ))
    → counted owner (add_owner_count (name, n) owners)
      ≡ counted owner owners + (if name == owner then n else 0)
unfolding add_owner_count
counted-add_owner_count owner name n owners =
    let put = get_or_else (lookup name owners) 0 + n in
    let seen : counted owner (insert name put owners)
        ≡ get_or_else (if name == owner then some put else lookup owner owners) 0 =
      ap (λ o. get_or_else o 0) (lookup-insert name owner put owners) in
    seen ∙ elim (Bool-cases (name == owner)) [
      | inr differ ↦ rw differ (omega arith)
      | inl same ↦
          rw same
            (ap (λ k. get_or_else (lookup k owners) 0 + n) ((string_eq.beq_iff name owner).0 same))
    ]

counted-add_owners :
    (owner : String) (entries owners : List (String × ℕ))
    → counted owner (add_owners entries owners) ≡ counted owner owners + entries_total owner entries
unfolding add_owners entries_total
counted-add_owners owner [] owners = omega arith
counted-add_owners owner ((name, n) ∷ rest) owners =
    counted-add_owners owner rest (add_owner_count (name, n) owners)
    ∙ ap (λ k. k + entries_total owner rest) (counted-add_owner_count owner name n owners)
    ∙ regroup (name == owner) (counted owner owners) n (entries_total owner rest)
  where
    regroup : (b : Bool) (a n e : ℕ) → a + (if b then n else 0) + e ≡ a + (if b then n + e else e)
    regroup true a n e = omega arith
    regroup false a n e = omega arith

pub counted-all_owners :
    (owner : String) (findings : List FindingsMetrics) (owners : List (String × ℕ))
    → counted owner (all_owners findings owners) ≡ counted owner owners + owner_total owner findings
unfolding all_owners owner_total
counted-all_owners owner [] owners = omega arith
counted-all_owners owner (f ∷ rest) owners = omega (
  arith,
  counted-all_owners owner rest (add_owners f.by_owner owners),
  counted-add_owners owner f.by_owner owners,
)

add_owners-HasDistinctKeys :
    (entries owners : List (String × ℕ))
    → HasDistinctKeys owners
    → HasDistinctKeys (add_owners entries owners)
unfolding add_owners add_owner_count
add_owners-HasDistinctKeys [] owners h = h
add_owners-HasDistinctKeys ((name, n) ∷ rest) owners h =
    add_owners-HasDistinctKeys rest _ (insert-HasDistinctKeys name _ owners h)

pub all_owners-HasDistinctKeys :
    (findings : List FindingsMetrics) (owners : List (String × ℕ))
    → HasDistinctKeys owners
    → HasDistinctKeys (all_owners findings owners)
unfolding all_owners
all_owners-HasDistinctKeys [] owners h = h
all_owners-HasDistinctKeys (f ∷ rest) owners h =
    all_owners-HasDistinctKeys rest _ (add_owners-HasDistinctKeys f.by_owner owners h)

module _ (before : String × ℕ → String × ℕ → Bool) (m : List (String × ℕ)) where
  -- Sorting a map by any order leaves what it has.
  pub counted-sort :
      HasDistinctKeys m → (owner : String) → counted owner (sort before m) ≡ counted owner m
  counted-sort distinct owner = elim (Option-cases (lookup owner m)) [
    | inr (n, found) ↦
        ap (λ o. get_or_else o 0)
          (lookup_of_mem owner n (sort before m) (sort-AreDistinct _ before m distinct)
              (to_sort (mem_of_lookup_entry owner n m found))
            ∙ sym found)
    | inl absent ↦ elim (Option-cases (lookup owner (sort before m))) [
      | inl missing ↦ ap (λ o. get_or_else o 0) (missing ∙ sym absent)
      | inr (n, found) ↦
          let e : none ≡ some n =
            sym absent
            ∙ lookup_of_mem owner n m distinct
                (from_sort (mem_of_lookup_entry owner n (sort before m) found)) in
          cc
    ]
  ]
    where
      to_sort : {entry : String × ℕ} → Memᴰ entry m → Memᴰ entry (sort before m)
      to_sort inside =
          All-mem (λ a. Memᴰ a (sort before m)) m
            ((All-sort before (λ a. Memᴰ a (sort before m)) m).1 (All-members _ _ (λ a h. h)))
            inside

      from_sort : {entry : String × ℕ} → Memᴰ entry (sort before m) → Memᴰ entry m
      from_sort inside =
          All-mem (λ a. Memᴰ a m) (sort before m)
            ((All-sort before (λ a. Memᴰ a m) m).0 (All-members _ _ (λ a h. h))) inside

module _ (locale : Collation) where
  -- One owner ranks before another: it has more findings, or as many and a name that does not come later.
  unfoldable pub RanksBefore : String × ℕ → String × ℕ → Type 0
  RanksBefore left right =
      (right.1 < left.1) ⊎ ((right.1 ≡ left.1) × (locale.collate left.0 right.0 ≡ true))

  -- Each owner ranks before all that follow it.
  unfoldable pub IsRanked : List (String × ℕ) → Type 0
  unfolding RanksBefore
  IsRanked [] = Unit
  IsRanked (entry ∷ rest) = All (RanksBefore entry) rest × IsRanked rest

  before-RanksBefore :
      (left right : String × ℕ) → owner_before locale left right ≡ true → RanksBefore left right
  unfolding owner_before RanksBefore
  before-RanksBefore left right h = ground (arith, h)

  pub IsSorted-IsRanked : (m : List (String × ℕ)) → IsSorted (owner_before locale) m → IsRanked m
  unfolding IsSorted IsRanked
  IsSorted-IsRanked [] h = tt
  IsSorted-IsRanked (entry ∷ rest) (first, h) = (
    All-members _ rest
        (λ other inside. before-RanksBefore entry other (All-mem _ rest first inside)),
    IsSorted-IsRanked rest h,
  )
