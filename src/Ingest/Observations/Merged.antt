-- ===== src/Ingest/Observations/Merged.antt =====
-- `mergeObservations`: how an observation is found in what it is merged into.
use guardianbot.Prelude.{
  string_eq, List, ◌⊎◌, String, ◌≡◌, true, lookup, arith, inl, some, Bool-cases, inr, ◌∙◌, subst,
  sym, values, [], leb_iff, take_all, fits_or_full, mem-map, mem_of_lookup_entry, refl, and_iff,
  some-injective, ap, length, length-take, mem-map_inv, ◌≤◌, mem_of_lookup, take, false,
}
use guardianbot.Ingest.Records.{Observation, FindingObservation}
use guardianbot.Prelude.Keys.{HasDistinctKeys, lookup_of_mem}
use guardianbot.Prelude.Distinct.{AreDistinct}
use guardianbot.Ingest.Observations.{
  is_fingerprint, StreamEntry, by_stream, merged, max_findings_per_stream, merge_observations,
}
use mathlib.Core.List.{Memᴰ}
use guardianbot.Ingest.Observations.Blame.{IsBlamed, by_stream-IsBlamed}
use guardianbot.Ingest.Observations.Found.{HasFinding, HasOwnKeys}
use guardianbot.Ingest.Observations.Streams.{AccountsFor, Covers, by_stream-Covers}

-- How an observation is merged into another: within the number of findings of a stream, with each of its
-- findings, by fingerprint, unless that number is reached. The other is complete only where it is complete and
-- none of its findings is missing, and incomplete only where some observation of the stream is or that number is
-- reached.
pub record IsMergedInto (os : List Observation) (i o : Observation) : Type 0 where
  pub same_stream : o.stream ≡ i.stream
  pub bounded : length o.findings ≤ max_findings_per_stream
  pub whole : o.complete ≡ true → i.complete ≡ true
  pub kept :
      (f : FindingObservation)
      → Memᴰ f i.findings
      → is_fingerprint f.fingerprint ≡ true
      → ((g : FindingObservation) × Memᴰ g o.findings × (g.fingerprint ≡ f.fingerprint))
        ⊎ (length o.findings ≡ max_findings_per_stream)
  pub nothing_lost :
      o.complete ≡ true
      → (f : FindingObservation) → Memᴰ f i.findings
      → is_fingerprint f.fingerprint ≡ true
      → (g : FindingObservation) × Memᴰ g o.findings × (g.fingerprint ≡ f.fingerprint)
  pub excused :
      o.complete ≡ false
      → ((j : Observation) × Memᴰ j os × (j.stream ≡ i.stream) × (j.complete ≡ false))
        ⊎ (length o.findings ≡ max_findings_per_stream)

merged-IsMergedInto :
    (os : List Observation) (i : Observation) (e : StreamEntry)
    → HasOwnKeys e.findings
    → AccountsFor i e
    → (e.complete ≡ false
        → (j : Observation) × Memᴰ j os × (j.stream ≡ i.stream) × (j.complete ≡ false))
    → IsMergedInto os i (merged (i.stream, e))
unfolding merged HasFinding HasOwnKeys
merged-IsMergedInto os i e own all blame = record {
  same_stream = refl;
  bounded = omega (arith, length-take max_findings_per_stream (values e.findings));
  whole = λ complete. all.whole ((and_iff _ _).0 complete).0;
  kept = λ f m form. elim (fits_or_full max_findings_per_stream (values e.findings)) [
    | inl fits ↦ inl (there_uncut fits f m form)
    | inr full ↦ inr full
  ];
  nothing_lost = λ complete. there_uncut ((leb_iff _ _).0 ((and_iff _ _).0 complete).1);
  excused = λ incomplete. elim (Bool-cases e.complete) [
    | inr why ↦ inl (blame why)
    | inl all_complete ↦ elim (fits_or_full max_findings_per_stream (values e.findings)) [
      | inr full ↦ inr full
      | inl fits ↦
          let yes = (leb_iff _ _).1 fits in let e = (rw (all_complete, yes) at incomplete) in cc
    ]
  ];
}
  where
    there_uncut :
        length (values e.findings) ≤ max_findings_per_stream
        → (f : FindingObservation) → Memᴰ f i.findings
        → is_fingerprint f.fingerprint ≡ true
        → (g : FindingObservation) × Memᴰ g (take max_findings_per_stream (values e.findings))
          × (g.fingerprint ≡ f.fingerprint)
    there_uncut fits f m form =
        let (g, there) = all.has f m form in
        (
          g,
          subst (λ xs. Memᴰ g xs) (sym (take_all max_findings_per_stream (values e.findings) fits))
              (mem_of_lookup f.fingerprint g e.findings there),
          own f.fingerprint g there,
        )

-- A stream stands once.
only_entry :
    (p : Observation) (s : String) (e : StreamEntry) (entry : String × StreamEntry)
    (streams : List (String × StreamEntry))
    → HasDistinctKeys streams
    → lookup s streams ≡ some e
    → Memᴰ entry streams
    → p ≡ merged entry
    → p.stream ≡ s
    → p ≡ merged (s, e)
unfolding merged
only_entry p s e (k, x) streams distinct there inside from same =
    let key : k ≡ s = sym (ap (λ o. o.stream) from) ∙ same in
    let seen : lookup s streams ≡ some x =
      subst (λ j. lookup j streams ≡ some x) key (lookup_of_mem k x streams distinct inside) in
    let alike : x ≡ e = some-injective x e (sym seen ∙ there) in
    from ∙ (ap (λ j. merged (j, x)) key ∙ ap (λ y. merged (s, y)) alike)

-- Each observation is merged into exactly one of its stream, which has at most 500 findings, has each of the
-- observation's findings with a fingerprint unless it has 500, counts as complete only where that observation is
-- complete and none of those findings is missing, and as incomplete only where an observation of the stream is or
-- it has 500 findings.
pub merge_observations-IsMergedInto :
    (os : List Observation) (i : Observation)
    → Memᴰ i os
    → (o : Observation) × Memᴰ o (merge_observations os)
      × IsMergedInto os i o
      × ((p : Observation) → Memᴰ p (merge_observations os) → p.stream ≡ i.stream → p ≡ o)
unfolding merge_observations IsBlamed
merge_observations-IsMergedInto os i m =
    let streams = by_stream os [] in
    let covers = by_stream-Covers (λ j. ⊥) os [] nothing_covered in
    let blamed = by_stream-IsBlamed (λ j. ⊥) os [] (λ s e h. cc) in
    let (e, there, all) = covers.accounts i (inr m) in
    (
      merged (i.stream, e),
      mem-map merged streams (mem_of_lookup_entry i.stream e streams there),
      merged-IsMergedInto os i e (covers.own i.stream e there) all (λ incomplete.
          let (j, known, same, why) = blamed i.stream e there incomplete in
          (j, among_all j known, same, why)),
      λ p inside same.
          let (entry, at_entry, from) = mem-map_inv merged streams inside in
          only_entry p i.stream e entry streams covers.distinct there at_entry (sym from) same,
    )
  where
    among_all : (j : Observation) → ⊥ ⊎ Memᴰ j os → Memᴰ j os
    among_all j (inl none_done) = elim none_done [ ]
    among_all j (inr m) = m

    nothing_covered : Covers (λ j. ⊥) []
    nothing_covered = record {
      distinct = unfold AreDistinct in tt;
      own = λ s e h. cc;
      accounts = λ j none_done. absurd none_done;
    }
