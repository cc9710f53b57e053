-- ===== src/Store/Retention.antt =====
-- apps/control-plane/src/store.ts: the retention options that the environment sets, for terminal
-- deliveries, review findings and superseded index generations. `Number(text)` is the engine's.

pub mod Bounded
use guardianbot.Prelude.{
  String, ℕ, Result, Option, ◌*◌, if◌then◌else◌, ◌>>=◌, ok, ltb, leb, err, some, ◌&&◌, ◌==◌,
  string_eq,
}
use guardianbot.Prelude.Js.{Number, nat, max_safe_integer}
use guardianbot.Prelude.Text.{trim}
use mathlib.Core.Option.{none}

pub data OptionsError : Type 0 where
  out_of_range : (name : String) → OptionsError
  dead_letter_too_short : OptionsError

-- The environment, and the engine's reading of a number.
pub record Environment : Type 0 where
  pub variable : String → Option String
  pub to_number : String → Number

pub record WebhookRetention : Type 0 where
  pub succeeded_retention_ms : ℕ
  pub dead_letter_retention_ms : ℕ
  pub cleanup_interval_ms : ℕ
  pub batch_limit : ℕ

pub record ReviewFindingRetention : Type 0 where
  pub retention_ms : ℕ
  pub limit : ℕ
  pub absolute_retention_ms : Option ℕ

pub record IndexGenerationRetention : Type 0 where
  pub generation_retention_ms : ℕ
  pub sweep_batch_limit : ℕ

abbrev pub hour : ℕ
hour = 60 * 60_000

abbrev pub day : ℕ
day = 24 * 60 * 60_000

-- `parsePositiveBoundedInteger`; every minimum is positive, so what is let through is a natural number
unfoldable pub bounded_number : String → ℕ → ℕ → Number → Result OptionsError ℕ
bounded_number name low high (nat n) =
    if leb n max_safe_integer && leb low n && leb n high then ok n else err (out_of_range name)
bounded_number name low high _ = err (out_of_range name)

unfoldable pub checked_webhook_retention : WebhookRetention → Result OptionsError WebhookRetention
checked_webhook_retention options =
    if ltb options.dead_letter_retention_ms options.succeeded_retention_ms
    then err dead_letter_too_short
    else ok options

module _ (env : Environment) where
  unfoldable pub read_bounded : String → ℕ → ℕ → ℕ → Option String → Result OptionsError ℕ
  unfolding bounded_number
  read_bounded name fallback low high none = ok fallback
  read_bounded name fallback low high (some raw) =
      if trim raw == "" then ok fallback else bounded_number name low high (env.to_number raw)

  unfoldable pub parse_positive_bounded_integer : String → ℕ → ℕ → ℕ → Result OptionsError ℕ
  unfolding read_bounded
  parse_positive_bounded_integer name fallback low high =
      read_bounded name fallback low high (env.variable name)

  unfoldable pub webhook_retention_options : Result OptionsError WebhookRetention
  unfolding parse_positive_bounded_integer checked_webhook_retention
  webhook_retention_options = do
    succeeded ←
        parse_positive_bounded_integer "GUARDIANBOT_WEBHOOK_SUCCEEDED_RETENTION_MS" (7 * day) hour
          (365 * day)
    dead ←
        parse_positive_bounded_integer "GUARDIANBOT_WEBHOOK_DEAD_LETTER_RETENTION_MS" (30 * day)
          hour (365 * day)
    interval ←
        parse_positive_bounded_integer "GUARDIANBOT_WEBHOOK_CLEANUP_INTERVAL_MS" hour 60_000 day
    batch ← parse_positive_bounded_integer "GUARDIANBOT_WEBHOOK_CLEANUP_BATCH_LIMIT" 1000 1 10_000
    checked_webhook_retention (record {
      succeeded_retention_ms = succeeded;
      dead_letter_retention_ms = dead;
      cleanup_interval_ms = interval;
      batch_limit = batch;
    })

  unfoldable pub review_finding_retention_options : Result OptionsError ReviewFindingRetention
  unfolding parse_positive_bounded_integer
  review_finding_retention_options = do
    retention ←
        parse_positive_bounded_integer "GUARDIANBOT_REVIEW_FINDING_RETENTION_MS" (90 * day) day
          (365 * day)
    limit ← parse_positive_bounded_integer "GUARDIANBOT_REVIEW_FINDING_LIMIT" 200 1 5_000
    absolute ←
        parse_positive_bounded_integer "GUARDIANBOT_REVIEW_FINDING_ABSOLUTE_RETENTION_MS"
          (365 * day) day (5 * 365 * day)
    ok (record { retention_ms = retention; limit = limit; absolute_retention_ms = some absolute })

  unfoldable pub index_generation_retention_options : Result OptionsError IndexGenerationRetention
  unfolding parse_positive_bounded_integer
  index_generation_retention_options = do
    retention ←
        parse_positive_bounded_integer "GUARDIANBOT_INDEX_GENERATION_RETENTION_MS" (14 * day) hour
          (365 * day)
    batch ←
        parse_positive_bounded_integer "GUARDIANBOT_INDEX_GENERATION_SWEEP_BATCH_LIMIT" 200 1 5_000
    ok (record { generation_retention_ms = retention; sweep_batch_limit = batch })
