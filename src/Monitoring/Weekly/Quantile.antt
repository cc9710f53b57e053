-- ===== src/Monitoring/Weekly/Quantile.antt =====
-- packages/monitoring/src/weekly-report.ts, `quantile`: the nearest-rank quantile of samples. The product with
-- the fraction is the engine's.
use guardianbot.Monitoring.Weekly.{Floats}
use guardianbot.Prelude.{List, ℕ, sort, ◌∷◌, insert_sorted, leb, suc, min, length, ◌-◌}
use mathlib.Core.List.{[]}
use Prim.Native.Nat.{zero}

unfoldable pub element_at : List ℕ → ℕ → ℕ
element_at [] i = 0
element_at (x ∷ xs) zero = x
element_at (x ∷ xs) (suc i) = element_at xs i

module _ (floats : Floats) where
  -- `-` stops at 0, as `Math.max(0, ... - 1)` does
  unfoldable pub quantile : List ℕ → floats.Float → ℕ
  unfolding element_at sort insert_sorted
  quantile [] fraction = 0
  quantile (x ∷ xs) fraction =
      let ordered = sort leb (x ∷ xs) in
      element_at ordered
        (min (length ordered - 1) (floats.ceil_times (length ordered) fraction - 1))
