-- ===== src/Monitoring/Suppressions.antt =====
-- packages/monitoring/src/suppressions.ts: which suppressions have expired, expire soon, or hold.
pub mod Partition
use guardianbot.Prelude.{
  String, List, ℕ, [], length, ◌++◌, Option, ◌∷◌, filter, if◌then◌else◌, none, Bool, not, ltb, some,
  leb, is_false, ◌-◌, ◌+s◌,
}
use guardianbot.Monitoring.Status.{Status, Check, count, failing, warning, passing}
use guardianbot.Prelude.Js.{Dates}
use guardianbot.Prelude.Text.{decimal}

pub record Suppression : Type 0 where
  pub fingerprint : String
  pub owner : String
  pub reason : String
  pub ticket : String
  pub expires_at : String
  pub finding_open : Option Bool

pub record SuppressionEvaluation : Type 0 where
  pub status : Status
  pub check : Check
  pub expired : List Suppression
  pub expiring_soon : List Suppression
  pub active : List Suppression

pub record Sorted : Type 0 where
  pub expired : List Suppression
  pub expiring_soon : List Suppression
  pub active : List Suppression

pub data Standing : Type 0 where
  has_expired expires_soon is_active : Standing

unfoldable pub standing_at : ℕ → ℕ → Option ℕ → Standing
standing_at now notify_before none = has_expired
standing_at now notify_before (some expiry) =
    if leb expiry now
    then has_expired
    else if leb (expiry - now) notify_before
    then expires_soon
    else is_active

unfoldable pub standing : Dates → ℕ → ℕ → Suppression → Standing
standing dates now notify_before suppression =
    standing_at now notify_before (dates.parse suppression.expires_at)

-- The loop: each suppression goes to the end of its list.
unfoldable pub file_one : Standing → Suppression → Sorted → Sorted
file_one has_expired s sorted = record sorted { expired = sorted.expired ++ (s ∷ []) }
file_one expires_soon s sorted = record sorted { expiring_soon = sorted.expiring_soon ++ (s ∷ []) }
file_one is_active s sorted = record sorted { active = sorted.active ++ (s ∷ []) }

unfoldable pub file_all : Dates → ℕ → ℕ → List Suppression → Sorted → Sorted
file_all dates now notify_before [] sorted = sorted
file_all dates now notify_before (s ∷ rest) sorted =
    file_all dates now notify_before rest (file_one (standing dates now notify_before s) s sorted)

unfoldable pub open_expired : List Suppression → ℕ
open_expired expired = length (filter (λ s. not (is_false s.finding_open)) expired)

unfoldable pub suppressions_status : ℕ → ℕ → Status
suppressions_status open_count soon_count =
    if ltb 0 open_count then failing else if ltb 0 soon_count then warning else passing

unfoldable pub suppressions_summary : ℕ → ℕ → String
suppressions_summary open_count soon_count =
    if ltb 0 open_count
    then decimal open_count +s " suppression(s) expired while findings remain open"
    else if ltb 0 soon_count
    then decimal soon_count +s " suppression(s) expire soon"
    else "Suppressions are current"

abbrev pub none_sorted : Sorted
none_sorted = record { expired = []; expiring_soon = []; active = [] }

unfoldable pub suppressions_report : Sorted → SuppressionEvaluation
suppressions_report sorted =
    let open_count = open_expired sorted.expired in
    let soon_count = length sorted.expiring_soon in
    let verdict = suppressions_status open_count soon_count in
    record {
      status = verdict;
      expired = sorted.expired;
      expiring_soon = sorted.expiring_soon;
      active = sorted.active;
      check = record {
        key = "suppression-expiry";
        status = verdict;
        summary = suppressions_summary open_count soon_count;
        observed_at = none;
        age = none;
        metadata =
            ("activeCount", count (length sorted.active))
            ∷ ("expiringSoonCount", count soon_count)
            ∷ ("expiredCount", count (length sorted.expired))
            ∷ ("openExpiredCount", count open_count)
            ∷ [];
      };
    }

unfoldable pub evaluate_suppressions : Dates → ℕ → ℕ → List Suppression → SuppressionEvaluation
evaluate_suppressions dates now notify_before suppressions =
    suppressions_report (file_all dates now notify_before suppressions none_sorted)
