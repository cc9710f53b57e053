-- ===== src/Ingest/Observations/Blame.antt =====
-- `mergeObservations`: lemmas on why the entry of a stream is not complete.
use guardianbot.Prelude.{
  string_eq, List, ◌⊎◌, String, ◌≡◌, lookup, inl, some, Bool-cases, ◌==◌, inr, lookup-insert, ◌∙◌,
  sym, get_or_else, ◌∷◌, [], refl, Option-cases, some-injective, ap, false,
}
use guardianbot.Ingest.Records.{Observation}
use guardianbot.Ingest.Observations.{
  add_observation, StreamEntry, extend_entry, by_stream, new_entry,
}
use mathlib.Core.List.{Memᴰ}

-- An entry that is not complete has an incomplete observation of its stream among those `done`.
unfoldable pub IsBlamed : (Observation → Type 0) → List (String × StreamEntry) → Type 0
IsBlamed done streams =
    (s : String) (e : StreamEntry)
    → lookup s streams ≡ some e
    → e.complete ≡ false
    → (j : Observation) × done j × (j.stream ≡ s) × (j.complete ≡ false)

module _ (done : Observation → Type 0) (o : Observation) (streams : List (String × StreamEntry))
    (before : IsBlamed done streams) where
  entry_before :
      (get_or_else (lookup o.stream streams) new_entry).complete ≡ false
      → (j : Observation) × done j × (j.stream ≡ o.stream) × (j.complete ≡ false)
  unfolding IsBlamed
  entry_before h = elim (Option-cases (lookup o.stream streams)) [
    | inl absent ↦ let e = (rw absent at h) in cc
    | inr (e, there) ↦ before o.stream e there (rw there at h)
  ]

  extended_blame :
      (extend_entry o (get_or_else (lookup o.stream streams) new_entry)).complete ≡ false
      → (j : Observation) × (done j ⊎ (j ≡ o)) × (j.stream ≡ o.stream) × (j.complete ≡ false)
  unfolding extend_entry
  extended_blame h = elim (Bool-cases o.complete) [
    | inr incomplete ↦ (o, inr refl, refl, incomplete)
    | inl complete ↦ elim (Bool-cases (get_or_else (lookup o.stream streams) new_entry).complete) [
      | inl all_complete ↦ let e = (rw (all_complete, complete) at h) in cc
      | inr some_incomplete ↦
          let (j, known, same, incomplete) = entry_before some_incomplete in
          (j, inl known, same, incomplete)
    ]
  ]

  add_observation-IsBlamed : IsBlamed (λ j. done j ⊎ (j ≡ o)) (add_observation o streams)
  unfolding IsBlamed add_observation
  add_observation-IsBlamed s e there h =
      let after = extend_entry o (get_or_else (lookup o.stream streams) new_entry) in
      let seen = sym (lookup-insert o.stream s after streams) ∙ there in
      elim (Bool-cases (o.stream == s)) [
        | inr differ ↦
            let (j, known, same, incomplete) = before s e (rw differ at seen) h in
            (j, inl known, same, incomplete)
        | inl same ↦
            let it : after ≡ e = some-injective after e (rw same at seen) in
            let (j, known, key, incomplete) = extended_blame (ap (λ x. x.complete) it ∙ h) in
            (j, known, key ∙ (string_eq.beq_iff o.stream s).0 same, incomplete)
      ]

pub by_stream-IsBlamed :
    (done : Observation → Type 0) (os : List Observation) (streams : List (String × StreamEntry))
    → IsBlamed done streams
    → IsBlamed (λ j. done j ⊎ Memᴰ j os) (by_stream os streams)
unfolding by_stream IsBlamed
by_stream-IsBlamed done [] streams h s e there incomplete =
    let (j, known, same, why) = h s e there incomplete in (j, inl known, same, why)
by_stream-IsBlamed done (o ∷ rest) streams h s e there incomplete =
    let (j, known, same, why) =
      by_stream-IsBlamed (λ j. done j ⊎ (j ≡ o)) rest (add_observation o streams)
        (add_observation-IsBlamed done o streams h) s e there incomplete in
    (j, moved j known, same, why)
  where
    moved : (j : Observation) → (done j ⊎ (j ≡ o)) ⊎ Memᴰ j rest → done j ⊎ Memᴰ j (o ∷ rest)
    moved j (inl (inl before)) = inl before
    moved j (inl (inr e)) = inr (Memᴰ.head e)
    moved j (inr m) = inr (Memᴰ.tail m)
