-- ===== src/Ingest/Records/Order.antt =====
-- `compareRunOrder`: lemmas on the order of runs.
use guardianbot.Prelude.{
  ℕ, Bool, ◌≡◌, ltb, false, true, arith, ◌⊎◌, ◌||◌, nat_beq, Bool-cases, inl, ◌&&◌, leb, inr,
}
use guardianbot.Ingest.Records.{not_older, RunOrder, time_or_zero}
use guardianbot.Prelude.Js.{Dates}

-- The order of two triples, first component first.
lex_leb : ℕ → ℕ → ℕ → ℕ → ℕ → ℕ → Bool
lex_leb s r a t q b = ltb t s || (nat_beq s t && (ltb q r || (nat_beq r q && leb b a)))

lex_leb_total : (s r a t q b : ℕ) → lex_leb s r a t q b ≡ false → lex_leb t q b s r a ≡ true
unfolding lex_leb
lex_leb_total s r a t q b h = ground (arith, h)

lex_leb_trans :
    (s r a t q b u p c : ℕ)
    → lex_leb s r a t q b ≡ true
    → lex_leb t q b u p c ≡ true
    → lex_leb s r a u p c ≡ true
unfolding lex_leb
lex_leb_trans s r a t q b u p c h k = ground (arith, h, k)

-- The order in which runs are compared with watermarks is total and transitive: of two runs one is not
-- older than the other, and a run that is not older than a second is not older than any third that the
-- second is not older than.
pub not_older_order :
    (dates : Dates)
    → ((a b : RunOrder) → (not_older dates a b ≡ true) ⊎ (not_older dates b a ≡ true))
      × ((a b c : RunOrder)
          → not_older dates a b ≡ true
          → not_older dates b c ≡ true
          → not_older dates a c ≡ true)
unfolding not_older lex_leb
not_older_order dates = (
  (λ a b. elim (Bool-cases (not_older dates a b)) [
    | inl e ↦ inl e
    | inr e ↦ inr (
        lex_leb_total (time_or_zero dates a.run_started_at) a.run_id a.run_attempt
          (time_or_zero dates b.run_started_at) b.run_id b.run_attempt e)
  ]),
  (λ a b c h k.
      lex_leb_trans (time_or_zero dates a.run_started_at) a.run_id a.run_attempt
        (time_or_zero dates b.run_started_at) b.run_id b.run_attempt
        (time_or_zero dates c.run_started_at) c.run_id c.run_attempt h k),
)
