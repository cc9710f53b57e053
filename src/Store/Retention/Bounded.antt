-- ===== src/Store/Retention/Bounded.antt =====
-- apps/control-plane/src/store.ts, the retention options: lemmas on what is accepted and what throws.
use guardianbot.Prelude.{
  refl, List, String, Result, ℕ, arith, ◌≡◌, ◌≤◌, ok, some, err, ◌*◌, leb, subst, Option, ◌<◌, sym,
  ◌∷◌, ◌==◌, ◌&&◌, ◌>>=◌, [], false, true, Bool-cases, ltb, ◌⊎◌, inl, ltb_iff, inr, string_eq, ◌∙◌,
}
use guardianbot.Store.Retention.{
  Environment, checked_webhook_retention, webhook_retention_options, OptionsError, hour,
  WebhookRetention, out_of_range, day, bounded_number, read_bounded, parse_positive_bounded_integer,
  dead_letter_too_short,
}
use mathlib.Core.List.{Memᴰ}
use guardianbot.Prelude.Js.{max_safe_integer, Number, nat, nat_injective, neg, other}
use guardianbot.Prelude.Text.{trim}
use mathlib.Core.Option.{none}

-- The variables of the retention of deliveries, with their bounds.
abbrev pub webhook_settings : List (String × (ℕ × ℕ))
webhook_settings =
    ("GUARDIANBOT_WEBHOOK_SUCCEEDED_RETENTION_MS", (hour, 365 * day))
    ∷ ("GUARDIANBOT_WEBHOOK_DEAD_LETTER_RETENTION_MS", (hour, 365 * day))
    ∷ ("GUARDIANBOT_WEBHOOK_CLEANUP_INTERVAL_MS", (60_000, day))
    ∷ ("GUARDIANBOT_WEBHOOK_CLEANUP_BATCH_LIMIT", (1, 10_000))
    ∷ []

module _ (env : Environment) where
  -- The variable is set to a text that is not blank and no number within its bounds.
  pub record Rejects (setting : String × (ℕ × ℕ)) : Type 0 where
    pub raw : String
    pub set_to : env.variable setting.0 ≡ some raw
    pub not_blank : (trim raw == "") ≡ false
    pub not_within : (n : ℕ) → env.to_number raw ≡ nat n → (n < setting.1.0) ⊎ (setting.1.1 < n)

  ParseEnds : String → ℕ → ℕ → Result OptionsError ℕ → Type 0
  ParseEnds name low high (ok n) = (low ≤ n) × (n ≤ high)
  ParseEnds name low high (err e) = (e ≡ out_of_range name) × Rejects (name, (low, high))

  module _ (name : String) (fallback low high : ℕ) (fits : (low ≤ fallback) × (fallback ≤ high))
      (safe : high ≤ max_safe_integer) where
    test_true :
        (n : ℕ)
        → (leb n max_safe_integer && leb low n && leb n high) ≡ true
        → (low ≤ n) × (n ≤ high)
    test_true n h = ground (arith, h)

    test_false :
        (n : ℕ)
        → (leb n max_safe_integer && leb low n && leb n high) ≡ false
        → (n < low) ⊎ (high < n)
    test_false n h = ground (arith, h, safe)

    bounded_number-ParseEnds :
        (raw : String) (number : Number)
        → env.variable name ≡ some raw
        → (trim raw == "") ≡ false
        → env.to_number raw ≡ number
        → ParseEnds name low high (bounded_number name low high number)
    unfolding bounded_number ParseEnds
    bounded_number-ParseEnds raw (nat n) found filled reads =
        elim (Bool-cases (leb n max_safe_integer && leb low n && leb n high)) [
          | inl good ↦ rw good (test_true n good)
          | inr bad ↦ rw bad (
            refl,
            record {
              raw = raw;
              set_to = found;
              not_blank = filled;
              not_within = λ m e.
                  subst (λ i. (i < low) ⊎ (high < i)) (nat_injective n m (sym reads ∙ e))
                    (test_false n bad);
            },
          )
        ]
    bounded_number-ParseEnds raw (neg n) found filled reads = (
      refl,
      record {
        raw = raw;
        set_to = found;
        not_blank = filled;
        not_within = λ m e. let h : neg n ≡ nat m = sym reads ∙ e in cc;
      },
    )
    bounded_number-ParseEnds raw other found filled reads = (
      refl,
      record {
        raw = raw;
        set_to = found;
        not_blank = filled;
        not_within = λ m e. let h : other ≡ nat m = sym reads ∙ e in cc;
      },
    )

    read_bounded-ParseEnds :
        (found : Option String)
        → env.variable name ≡ found
        → ParseEnds name low high (read_bounded env name fallback low high found)
    unfolding read_bounded ParseEnds
    read_bounded-ParseEnds none e = fits
    read_bounded-ParseEnds (some raw) e = elim (Bool-cases (trim raw == "")) [
      | inl blank ↦ rw blank fits
      | inr filled ↦ rw filled (bounded_number-ParseEnds raw (env.to_number raw) e filled refl)
    ]

    parse-ParseEnds :
        ParseEnds name low high (parse_positive_bounded_integer env name fallback low high)
    unfolding parse_positive_bounded_integer
    parse-ParseEnds = read_bounded-ParseEnds (env.variable name) refl

  -- How the reading of the options ends: with options within their bounds, of which dead-letter deliveries
  -- are kept at least as long as succeeded ones; with an error that names a variable which is set to no
  -- number within its bounds; or because the two retentions, each accepted, are the wrong way round.
  unfoldable pub RetentionEnds : Result OptionsError WebhookRetention → Type 0
  RetentionEnds (ok o) =
      ((hour ≤ o.succeeded_retention_ms) × (o.succeeded_retention_ms ≤ o.dead_letter_retention_ms))
      × (o.dead_letter_retention_ms ≤ 365 * day)
      × ((60_000 ≤ o.cleanup_interval_ms) × (o.cleanup_interval_ms ≤ day))
      × ((1 ≤ o.batch_limit) × (o.batch_limit ≤ 10_000))
  RetentionEnds (err (out_of_range name)) =
      (bounds : ℕ × ℕ) × Memᴰ (name, bounds) webhook_settings × Rejects (name, bounds)
  RetentionEnds (err dead_letter_too_short) =
      (succeeded dead : ℕ) × (parse_positive_bounded_integer env
          "GUARDIANBOT_WEBHOOK_SUCCEEDED_RETENTION_MS" (7 * day) hour (365 * day)
        ≡ ok succeeded)
      × (parse_positive_bounded_integer env "GUARDIANBOT_WEBHOOK_DEAD_LETTER_RETENTION_MS"
            (30 * day) hour (365 * day)
          ≡ ok dead)
      × (dead < succeeded)

  rejected-RetentionEnds :
      (name : String) (bounds : ℕ × ℕ) (e : OptionsError)
      → Memᴰ (name, bounds) webhook_settings
      → (e ≡ out_of_range name) × Rejects (name, bounds)
      → RetentionEnds (err e)
  unfolding RetentionEnds
  rejected-RetentionEnds name bounds e listed (same, why) =
      subst (λ x. RetentionEnds (err x)) (sym same) (bounds, listed, why)

  read-RetentionEnds :
      (r1 r2 r3 r4 : Result OptionsError ℕ)
      → ParseEnds "GUARDIANBOT_WEBHOOK_SUCCEEDED_RETENTION_MS" hour (365 * day) r1
      → ParseEnds "GUARDIANBOT_WEBHOOK_DEAD_LETTER_RETENTION_MS" hour (365 * day) r2
      → ParseEnds "GUARDIANBOT_WEBHOOK_CLEANUP_INTERVAL_MS" 60_000 day r3
      → ParseEnds "GUARDIANBOT_WEBHOOK_CLEANUP_BATCH_LIMIT" 1 10_000 r4
      → parse_positive_bounded_integer env "GUARDIANBOT_WEBHOOK_SUCCEEDED_RETENTION_MS"
          (7 * day)
          hour
          (365 * day)
        ≡ r1
      → parse_positive_bounded_integer env "GUARDIANBOT_WEBHOOK_DEAD_LETTER_RETENTION_MS"
          (30 * day)
          hour
          (365 * day)
        ≡ r2
      → RetentionEnds (do
        succeeded ← r1
        dead ← r2
        interval ← r3
        batch ← r4
        checked_webhook_retention (record {
          succeeded_retention_ms = succeeded;
          dead_letter_retention_ms = dead;
          cleanup_interval_ms = interval;
          batch_limit = batch;
        }))
  unfolding ParseEnds checked_webhook_retention
  read-RetentionEnds (err e) r2 r3 r4 h1 h2 h3 h4 e1 e2 =
      rejected-RetentionEnds _ _ e (Memᴰ.head refl) h1
  read-RetentionEnds (ok s) (err e) r3 r4 h1 h2 h3 h4 e1 e2 =
      rejected-RetentionEnds _ _ e (Memᴰ.tail (Memᴰ.head refl)) h2
  read-RetentionEnds (ok s) (ok d) (err e) r4 h1 h2 h3 h4 e1 e2 =
      rejected-RetentionEnds _ _ e (Memᴰ.tail (Memᴰ.tail (Memᴰ.head refl))) h3
  read-RetentionEnds (ok s) (ok d) (ok i) (err e) h1 h2 h3 h4 e1 e2 =
      rejected-RetentionEnds _ _ e (Memᴰ.tail (Memᴰ.tail (Memᴰ.tail (Memᴰ.head refl)))) h4
  read-RetentionEnds (ok s) (ok d) (ok i) (ok b) h1 h2 h3 h4 e1 e2 = elim (Bool-cases (ltb d s)) [
    | inl short ↦ rw short (unfold RetentionEnds in (s, d, e1, e2, (ltb_iff d s).0 short))
    | inr long ↦ rw long (unfold RetentionEnds in ((h1.0, ordered s d long), h2.1, h3, h4))
  ]
    where
      ordered : (s d : ℕ) → ltb d s ≡ false → s ≤ d
      ordered s d h = ground (arith, h)

  -- The retention options of deliveries are read with one of three ends: options within their bounds, of
  -- which dead-letter deliveries are kept at least as long as succeeded ones; an error naming a variable
  -- of these options that is set, not blank, to no number within its bounds; or, where the two
  -- retentions are each accepted but dead-letter deliveries would be kept shorter, the error that says so.
  pub webhook_retention-RetentionEnds : RetentionEnds (webhook_retention_options env)
  unfolding webhook_retention_options
  webhook_retention-RetentionEnds =
      read-RetentionEnds _ _ _ _ (parse-ParseEnds _ _ _ _ (omega arith, omega arith) (omega arith))
        (parse-ParseEnds _ _ _ _ (omega arith, omega arith) (omega arith))
        (parse-ParseEnds _ _ _ _ (omega arith, omega arith) (omega arith))
        (parse-ParseEnds _ _ _ _ (omega arith, omega arith) (omega arith)) refl refl
