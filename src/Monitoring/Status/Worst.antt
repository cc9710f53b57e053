-- ===== src/Monitoring/Status/Worst.antt =====
-- `worstMonitoringStatus`: lemmas on the worst status of a list.
use native.Mathlib.Nat.{le_trans}
use guardianbot.Prelude.{
  refl, List, All, ◌≡◌, ◌≤◌, ◌⊎◌, arith, ◌∷◌, inl, inr, All-members, ◌∙◌, All-mem, map, All-map_inv,
  ◌↔◌, ◌≢◌, sym, mem-map_inv, subst, mem-map,
}
use native.Mathlib.Nat.{le_trans}
use guardianbot.Monitoring.Status.{
  worse_of, Status, worst_status, status_weight, not_applicable, worse, Check, failing,
}
use mathlib.Core.List.{Memᴰ, []}

worse-bound :
    (status worst : Status)
    → (status_weight worst ≤ status_weight (worse status worst))
      × (status_weight status ≤ status_weight (worse status worst))
unfolding worse
worse-bound status worst = ground arith

worse-mem : (status worst : Status) → (worse status worst ≡ worst) ⊎ (worse status worst ≡ status)
unfolding worse
worse-mem status worst = ground arith

worse_of-bound :
    (statuses : List Status) (worst : Status)
    → (status_weight worst ≤ status_weight (worse_of statuses worst))
      × All (λ s. status_weight s ≤ status_weight (worse_of statuses worst)) statuses
unfolding worse_of
worse_of-bound [] worst = (omega arith, tt)
worse_of-bound (s ∷ rest) worst =
    let (kept, bound) = worse_of-bound rest (worse s worst) in
    let (above_worst, above_s) = worse-bound s worst in
    (omega (arith, kept, above_worst), (omega (arith, kept, above_s), bound))

worse_of-mem :
    (statuses : List Status) (worst : Status)
    → (worse_of statuses worst ≡ worst) ⊎ Memᴰ (worse_of statuses worst) statuses
unfolding worse_of
worse_of-mem [] worst = inl refl
worse_of-mem (s ∷ rest) worst = elim (worse_of-mem rest (worse s worst)) [
  | inr m ↦ inr (Memᴰ.tail m)
  | inl e ↦ elim (worse-mem s worst) [
    | inl kept ↦ inl (e ∙ kept)
    | inr taken ↦ inr (Memᴰ.head (e ∙ taken))
  ]
]

-- No status is worse than `worst`, which is one of the list or says that nothing applies.
unfoldable pub IsWorst : Status → List Status → Type 0
IsWorst worst statuses =
    All (λ s. status_weight s ≤ status_weight worst) statuses
    × ((worst ≡ not_applicable) ⊎ Memᴰ worst statuses)

-- The worst status of a list is at least as bad as each member, and is a member unless it says that
-- nothing applies.
pub worst_status-IsWorst : (statuses : List Status) → IsWorst (worst_status statuses) statuses
unfolding IsWorst worst_status
worst_status-IsWorst statuses =
    ((worse_of-bound statuses not_applicable).1, worse_of-mem statuses not_applicable)

-- A list whose worst status is below a warning has none above `passing`.
pub worst_status-calm :
    (statuses : List Status)
    → status_weight (worst_status statuses) ≤ 1
    → All (λ s. status_weight s ≤ 1) statuses
unfolding IsWorst
worst_status-calm statuses h =
    All-members _ statuses
      (λ s m. le_trans (All-mem _ statuses (worst_status-IsWorst statuses).0 m) h)

-- A check that neither warns nor fails.
unfoldable pub IsCalm : Check → Type 0
IsCalm check = status_weight check.status ≤ 1

pub statuses-IsCalm :
    (checks : List Check)
    → status_weight (worst_status (map (λ check. check.status) checks)) ≤ 1
    → All IsCalm checks
unfolding IsCalm
statuses-IsCalm checks h =
    All-map_inv (λ check. check.status) (λ s. status_weight s ≤ 1)
      (λ check. status_weight check.status ≤ 1) (λ check k. k) checks (worst_status-calm _ h)

failing-greatest :
    (status : Status) → status_weight failing ≤ status_weight status → status ≡ failing
unfolding status_weight
failing-greatest status h = ground arith

-- The worst status is a failure exactly where some check fails.
pub failing_iff :
    (checks : List Check)
    → (worst_status (map (λ check. check.status) checks) ≡ failing)
      ↔ ((check : Check) × Memᴰ check checks × (check.status ≡ failing))
unfolding IsWorst
failing_iff checks =
    let statuses = map (λ (check : Check). check.status) checks in
    let (bound, member) = worst_status-IsWorst statuses in
    (
      (λ h. elim member [
        | inl none_apply ↦ absurd (not_applicable≢failing (sym none_apply ∙ h))
        | inr m ↦
            let (check, there, e) = mem-map_inv (λ check. check.status) checks m in
            (check, there, e ∙ h)
      ]),
      (λ (check, m, e). failing-greatest (worst_status statuses) (
          subst (λ s. status_weight s ≤ status_weight (worst_status statuses)) e
            (All-mem _ statuses bound (mem-map (λ check. check.status) checks m)))),
    )
  where
    not_applicable≢failing : not_applicable ≢ failing
    not_applicable≢failing e = cc

-- A list of checks that neither warn nor fail has a worst status that does neither.
pub worst-IsCalm :
    (checks : List Check)
    → All IsCalm checks
    → status_weight (worst_status (map (λ check. check.status) checks)) ≤ 1
unfolding IsWorst IsCalm status_weight
worst-IsCalm checks calm =
    elim (worst_status-IsWorst (map (λ (check : Check). check.status) checks)).1 [
      | inl none_apply ↦ subst (λ s. status_weight s ≤ 1) (sym none_apply) (omega arith)
      | inr m ↦
          let (check, there, e) = mem-map_inv (λ (check : Check). check.status) checks m in
          subst (λ s. status_weight s ≤ 1) e (All-mem IsCalm checks calm there)
    ]
