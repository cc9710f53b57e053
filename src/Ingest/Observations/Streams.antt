-- ===== src/Ingest/Observations/Streams.antt =====
-- `mergeObservations`: lemmas on the entry of a stream.
use guardianbot.Prelude.{
  string_eq, List, ◌⊎◌, String, ◌≡◌, true, lookup, inl, some, Bool-cases, ◌==◌, inr, lookup-insert,
  ◌∙◌, subst, sym, lookup-insert_self, get_or_else, ◌∷◌, [], refl, Option-cases, and_iff,
  some-injective, ap,
}
use guardianbot.Ingest.Records.{Observation, FindingObservation}
use guardianbot.Prelude.Keys.{HasDistinctKeys, insert-HasDistinctKeys}
use guardianbot.Ingest.Observations.{
  add_observation, is_fingerprint, StreamEntry, extend_entry, by_stream, new_entry,
}
use mathlib.Core.List.{Memᴰ}
use guardianbot.Ingest.Observations.Found.{
  HasFinding, HasOwnKeys, add_findings-HasFinding, add_findings-HasOwnKeys, add_findings-new,
}

-- An entry accounts for an observation: it is complete only if that is, and it has its findings.
pub record AccountsFor (i : Observation) (e : StreamEntry) : Type 0 where
  pub whole : e.complete ≡ true → i.complete ≡ true
  pub has :
      (f : FindingObservation)
      → Memᴰ f i.findings
      → is_fingerprint f.fingerprint ≡ true
      → HasFinding f.fingerprint e.findings

extend_entry-AccountsFor :
    (o i : Observation) (e : StreamEntry) → AccountsFor i e → AccountsFor i (extend_entry o e)
unfolding extend_entry
extend_entry-AccountsFor o i e h = record {
  whole = λ complete. h.whole ((and_iff _ _).0 complete).0;
  has = λ f m form. add_findings-HasFinding o.findings e.findings f.fingerprint (h.has f m form);
}

extend_entry-own : (o : Observation) (e : StreamEntry) → AccountsFor o (extend_entry o e)
unfolding extend_entry
extend_entry-own o e = record {
  whole = λ complete. ((and_iff _ _).0 complete).1;
  has = λ f m form. add_findings-new o.findings e.findings f m form;
}

-- What the entries of the streams say of the observations `done`: each stream stands once, with its findings under
-- their fingerprints, and its entry accounts for each observation of the stream.
pub record Covers (done : Observation → Type 0) (streams : List (String × StreamEntry))
    : Type 0 where
  pub distinct : HasDistinctKeys streams
  pub own : (s : String) → (e : StreamEntry) → lookup s streams ≡ some e → HasOwnKeys e.findings
  pub accounts :
      (i : Observation)
      → done i
      → (e : StreamEntry) × (lookup i.stream streams ≡ some e) × AccountsFor i e

WithNew : (Observation → Type 0) → Observation → Observation → Type 0
WithNew done o i = done i ⊎ (i ≡ o)

-- The entry of a stream before and after one more observation of it.
entry_of : Observation → List (String × StreamEntry) → StreamEntry
entry_of o streams = get_or_else (lookup o.stream streams) new_entry

module _ (o : Observation) (streams : List (String × StreamEntry)) where
  entry_of-HasOwnKeys :
      ((s : String) → (e : StreamEntry) → lookup s streams ≡ some e → HasOwnKeys e.findings)
      → HasOwnKeys (entry_of o streams).findings
  unfolding entry_of HasOwnKeys
  entry_of-HasOwnKeys own = elim (Option-cases (lookup o.stream streams)) [
    | inl absent ↦ rw absent (λ fingerprint f h. cc)
    | inr (e, there) ↦ rw there (own o.stream e there)
  ]

  added-own :
      ((s : String) → (e : StreamEntry) → lookup s streams ≡ some e → HasOwnKeys e.findings)
      → (s : String) (e : StreamEntry) → lookup s (add_observation o streams) ≡ some e
      → HasOwnKeys e.findings
  unfolding add_observation entry_of extend_entry
  added-own own s e there =
      let after = extend_entry o (entry_of o streams) in
      let seen = sym (lookup-insert o.stream s after streams) ∙ there in
      elim (Bool-cases (o.stream == s)) [
        | inr differ ↦ own s e (rw differ at seen)
        | inl same ↦
            subst (λ x. HasOwnKeys x.findings) (some-injective after e (rw same at seen))
              (add_findings-HasOwnKeys o.findings (entry_of o streams).findings
                (entry_of-HasOwnKeys own))
      ]

  added-accounts :
      (i : Observation) (e : StreamEntry)
      → lookup i.stream streams ≡ some e
      → AccountsFor i e
      → (x : StreamEntry) × (lookup i.stream (add_observation o streams) ≡ some x) × AccountsFor i x
  unfolding add_observation entry_of
  added-accounts i e there h =
      let after = extend_entry o (entry_of o streams) in
      elim (Bool-cases (o.stream == i.stream)) [
        | inr differ ↦ (e, lookup-insert o.stream i.stream after streams ∙ rw differ there, h)
        | inl same ↦
            let key : o.stream ≡ i.stream = (string_eq.beq_iff o.stream i.stream).0 same in
            let found : lookup o.stream streams ≡ some e =
              subst (λ k. lookup k streams ≡ some e) (sym key) there in
            let was : entry_of o streams ≡ e = ap (λ x. get_or_else x new_entry) found in
            (
              after,
              lookup-insert o.stream i.stream after streams ∙ rw same refl,
              subst (λ x. AccountsFor i (extend_entry o x)) (sym was)
                  (extend_entry-AccountsFor o i e h),
            )
      ]

add_observation-Covers :
    (done : Observation → Type 0) (o : Observation) (streams : List (String × StreamEntry))
    → Covers done streams
    → Covers (WithNew done o) (add_observation o streams)
unfolding WithNew
add_observation-Covers done o streams h = record {
  distinct = unfold add_observation in insert-HasDistinctKeys o.stream _ streams h.distinct;
  own = added-own o streams h.own;
  accounts = λ i member. elim member [
    | inl before ↦
        let (e, there, all) = h.accounts i before in added-accounts o streams i e there all
    | inr same ↦
        subst
          (λ j.
            (x : StreamEntry) × (lookup j.stream (add_observation o streams) ≡ some x)
            × AccountsFor j x)
          (sym same)
          (
            extend_entry o (entry_of o streams),
            (unfold add_observation entry_of in lookup-insert_self o.stream _ streams),
            extend_entry-own o (entry_of o streams),
          )
  ];
}

pub by_stream-Covers :
    (done : Observation → Type 0) (os : List Observation) (streams : List (String × StreamEntry))
    → Covers done streams
    → Covers (λ i. done i ⊎ Memᴰ i os) (by_stream os streams)
unfolding by_stream WithNew
by_stream-Covers done [] streams h = record {
  distinct = h.distinct;
  own = h.own;
  accounts = λ i member. elim member [ inl before ↦ h.accounts i before | inr m ↦ elim m [ ] ];
}
by_stream-Covers done (o ∷ rest) streams h =
    let later =
      by_stream-Covers (WithNew done o) rest (add_observation o streams)
        (add_observation-Covers done o streams h) in
    record {
      distinct = later.distinct;
      own = later.own;
      accounts = λ i member. later.accounts i (moved i member);
    }
  where
    moved : (i : Observation) → done i ⊎ Memᴰ i (o ∷ rest) → WithNew done o i ⊎ Memᴰ i rest
    moved i (inl before) = inl (inl before)
    moved i (inr (Memᴰ.head e)) = inl (inr e)
    moved i (inr (Memᴰ.tail m)) = inr m
