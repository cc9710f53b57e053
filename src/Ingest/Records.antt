-- ===== src/Ingest/Records.antt =====
-- apps/control-plane/src/findings-lifecycle.ts and store.ts: records, observations, runs, watermarks.
pub mod Order
use guardianbot.Prelude.{
  String, Option, ℕ, List, Bool, get_or_else, take, if◌then◌else◌, find, some, ◌==◌, ltb, leb, map,
  false, true, none, ◌&&◌, ◌||◌, ◌∷◌, ◌++◌, ◌+◌, string_eq, is_value, nat_beq, is_some, not, ◌*◌,
}
use guardianbot.Ownership.Owner.{FindingSource, strip_prefix, zap, repository_relative_path}
use guardianbot.Prelude.Js.{Dates}
use guardianbot.Prelude.Text.{code_units, is_space}
use mathlib.Core.List.{[]}
use guardianbot.Monitoring.Lifecycle.{day_ms}

pub data Severity : Type 0 where
  critical high medium low info : Severity

pub data RecordStatus : Type 0 where
  open_record fixed suppressed risk_accepted : RecordStatus

pub data TicketStatus : Type 0 where
  open_ticket closed_ticket : TicketStatus

pub record TicketState : Type 0 where
  pub ref : Option String
  pub state : Option TicketStatus
  pub content_sha : Option String
  pub error : Option String
  pub updated_at : String

-- Rules and paths are code units. `streams` has the latest observation time per stream.
pub record FindingRecord : Type 0 where
  pub fingerprint : String
  pub source : FindingSource
  pub rule_id : List ℕ
  pub severity : Severity
  pub path : Option (List ℕ)
  pub line : Option ℕ
  pub status : RecordStatus
  pub owner : String
  pub streams : List (String × String)
  pub first_seen_at : String
  pub opened_at : String
  pub last_seen_at : String
  pub fixed_at : Option String
  pub sla_due_at : Option String
  pub last_run_id : ℕ
  pub last_run_attempt : ℕ
  pub tickets : List (String × TicketState)
  pub updated_at : String

pub record FindingObservation : Type 0 where
  pub source : FindingSource
  pub fingerprint : String
  pub rule_id : List ℕ
  pub severity : Severity
  pub path : Option (List ℕ)
  pub line : Option ℕ

pub record Observation : Type 0 where
  pub stream : String
  pub complete : Bool
  pub findings : List FindingObservation

pub record Run : Type 0 where
  pub event : String
  pub head_branch : Option String
  pub started_at : Option String
  pub completed_at : Option String
  pub run_id : ℕ
  pub run_attempt : ℕ

pub record RunOrder : Type 0 where
  pub run_started_at : String
  pub run_id : ℕ
  pub run_attempt : ℕ

pub record Suppression : Type 0 where
  pub fingerprint : String
  pub expires_at : String
  pub reason : List ℕ

-- `Partial<Record<FindingLifecycleSeverity, number>>`
pub record SlaDays : Type 0 where
  pub critical : Option ℕ
  pub high : Option ℕ
  pub medium : Option ℕ
  pub low : Option ℕ
  pub info : Option ℕ

abbrev pub days_of : SlaDays → Severity → Option ℕ
days_of days critical = days.critical
days_of days high = days.high
days_of days medium = days.medium
days_of days low = days.low
days_of days info = days.info

-- `isTrustedLifecycleRun`
unfoldable pub is_trusted_run : Run → String → String → Bool
is_trusted_run run repository_state default_branch =
    repository_state == "active"
    && (run.event == "push" || run.event == "schedule")
    && is_value run.head_branch default_branch

-- `Date.parse(text) || 0`
abbrev pub time_or_zero : Dates → String → ℕ
time_or_zero dates text = get_or_else (dates.parse text) 0

-- `compareRunOrder(left, right) >= 0`: by start, then by run, then by attempt.
unfoldable pub not_older : Dates → RunOrder → RunOrder → Bool
not_older dates left right =
    let s = time_or_zero dates left.run_started_at in
    let t = time_or_zero dates right.run_started_at in
    ltb t s
    || (nat_beq s t
        && (ltb right.run_id left.run_id
            || (nat_beq left.run_id right.run_id && leb right.run_attempt left.run_attempt)))

-- The engine's `new URL(text)`: `none` where it throws. The origin is `none` where it is `null`.
pub record Url : Type 0 where
  pub origin : Option (List ℕ)
  pub pathname : List ℕ

-- What the merge needs of the engine.
pub record Engine : Type 0 where
  pub dates : Dates
  pub parse_url : List ℕ → Option Url

is_control : ℕ → Bool
is_control c = leb c 31 || nat_beq c 127

-- `boundedText`
unfoldable pub bounded_text : ℕ → List ℕ → List ℕ
unfolding is_control
bounded_text maximum text = take maximum (map (λ c. if is_control c then 32 else c) text)

is_letter : ℕ → Bool
is_letter c = (leb 65 c && leb c 90) || (leb 97 c && leb c 122)

is_digit : ℕ → Bool
is_digit c = leb 48 c && leb c 57

-- `[a-z0-9+.-]*:\/\/`
scheme_rest : List ℕ → Bool
unfolding is_letter is_digit
scheme_rest [] = false
scheme_rest (c ∷ s) =
    let rest = scheme_rest s in
    is_some (strip_prefix (58 ∷ 47 ∷ 47 ∷ []) (c ∷ s))
    || ((is_letter c || is_digit c || nat_beq c 43 || nat_beq c 46 || nat_beq c 45) && rest)

-- `/^[a-z][a-z0-9+.-]*:\/\//i`
has_scheme : List ℕ → Bool
unfolding scheme_rest
has_scheme [] = false
has_scheme (c ∷ s) = is_letter c && scheme_rest s

url_path : Option Url → Option (List ℕ)
url_path none = none
url_path (some url) = elim url.origin [ none ↦ none | some origin ↦ some (origin ++ url.pathname) ]

abbrev is_zap : FindingSource → Bool
is_zap zap = true
is_zap _ = false

-- `lifecycleRecordPath`
unfoldable pub record_path : Engine → FindingSource → Option (List ℕ) → Option (List ℕ)
unfolding has_scheme url_path
record_path engine source none = none
record_path engine source (some []) = none
record_path engine source (some (c ∷ s)) =
    if is_zap source || has_scheme (c ∷ s)
    then url_path (engine.parse_url (c ∷ s))
    else some (get_or_else (repository_relative_path (some (c ∷ s))) (c ∷ s))

lower : ℕ → ℕ
lower c = if leb 65 c && leb c 90 then c + 32 else c

-- `accepted\b`
ends_word : List ℕ → Bool
unfolding is_letter is_digit
ends_word [] = true
ends_word (c ∷ s) = not (is_letter c || is_digit c || nat_beq c 95)

accepted_word : List ℕ → Bool
unfolding ends_word
accepted_word s = elim (strip_prefix (code_units "accepted") s) [
  | none ↦ false
  | some rest ↦ ends_word rest
]

-- `[\s-]?accepted\b`
risk_rest : List ℕ → Bool
unfolding accepted_word
risk_rest [] = false
risk_rest (c ∷ s) = accepted_word (c ∷ s) || ((is_space c || nat_beq c 45) && accepted_word s)

-- `/^risk[\s-]?accepted\b/i`
unfoldable pub is_risk_reason : List ℕ → Bool
unfolding risk_rest lower
is_risk_reason reason = elim (strip_prefix (code_units "risk") (map lower reason)) [
  | none ↦ false
  | some rest ↦ risk_rest rest
]

-- `computeSlaDueAt`
unfoldable pub sla_due_at : Dates → Severity → String → SlaDays → Option String
sla_due_at dates severity opened_at days = elim (days_of days severity) [
  | none ↦ none
  | some n ↦ elim (dates.parse opened_at) [
    | none ↦ none
    | some opened ↦ some (dates.to_iso (opened + n * day_ms))
  ]
]

-- The status that a suppression gives, where it has not expired.
unfoldable pub status_until : ℕ → Bool → Option ℕ → Option RecordStatus
status_until now risk none = none
status_until now risk (some expiry) =
    if leb expiry now then none else some (if risk then risk_accepted else suppressed)

unfoldable pub suppression_status : Dates → ℕ → Option Suppression → Option RecordStatus
suppression_status dates now none = none
suppression_status dates now (some s) =
    status_until now (is_risk_reason s.reason) (dates.parse s.expires_at)

-- `activeSuppressionStatus`
unfoldable pub active_suppression : Dates → List Suppression → String → ℕ → Option RecordStatus
active_suppression dates suppressions fingerprint now =
    suppression_status dates now (find (λ s. s.fingerprint == fingerprint) suppressions)
