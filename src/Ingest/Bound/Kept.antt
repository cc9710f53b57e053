-- ===== src/Ingest/Bound/Kept.antt =====
-- `enforceFindingLifecycleBound`: lemmas on the number of records that stay and leave.
use guardianbot.Prelude.{
  string_eq, refl, delete, ◌==◌, beq_of_ne, ◌∙◌, length, ap, false, arith, ◌+◌, subst, ◌≤◌, min,
  leb, ◌-◌, All-members, length-take, true, All-filter, length-sort, leb_iff,
}
use guardianbot.Prelude.{
  String, List, ℕ, sort, ◌∷◌, All, filter, ◌≢◌, Bool-cases, All-sort, ◌≡◌, suc, values, inl, inr,
  sym,
}
use guardianbot.Ingest.Merge.{Records}
use mathlib.Core.List.{[], Memᴰ}
use guardianbot.Ingest.Records.{FindingRecord}
use guardianbot.Ingest.Bound.{
  remove_all, fingerprints, retired_records, dropped_records, Enforced, drop_rest, enforce_bound,
  is_retirable, drop_before, retire_before,
}
use guardianbot.Prelude.Js.{Dates}
use guardianbot.Prelude.Distinct.{
  AreDistinct, take-AreDistinct, sort-AreDistinct, filter-AreDistinct, All-take,
}

-- Records under their own fingerprints, which differ.
unfoldable pub AreKeyed : Records → Type 0
AreKeyed [] = Unit
AreKeyed ((k, r) ∷ records) =
    (k ≡ r.fingerprint)
    × All (λ s. r.fingerprint ≢ s.fingerprint) (values records)
    × AreKeyed records

values-AreDistinct :
    (records : Records) → AreKeyed records → AreDistinct (λ r. r.fingerprint) (values records)
unfolding AreKeyed AreDistinct
values-AreDistinct [] h = tt
values-AreDistinct ((k, r) ∷ records) (e, ne, keyed) = (ne, values-AreDistinct records keyed)

pub All-delete {κ} :
    (P : FindingRecord → Type κ) (k : String) (records : Records)
    → All P (values records)
    → All P (values (delete k records))
All-delete P k [] h = tt
All-delete P k ((j, w) ∷ records) (p, h) = elim (Bool-cases (j == k)) [
  | inl same ↦ rw same (All-delete P k records h)
  | inr differ ↦ rw differ (p, All-delete P k records h)
]

pub delete-AreKeyed :
    (k : String) (records : Records) → AreKeyed records → AreKeyed (delete k records)
unfolding AreKeyed
delete-AreKeyed k [] h = tt
delete-AreKeyed k ((j, w) ∷ records) (e, ne, keyed) = elim (Bool-cases (j == k)) [
  | inl same ↦ rw same (delete-AreKeyed k records keyed)
  | inr differ ↦ rw differ (e, All-delete _ k records ne, delete-AreKeyed k records keyed)
]

delete_absent :
    (k : String) (records : Records)
    → AreKeyed records
    → All (λ s. k ≢ s.fingerprint) (values records)
    → delete k records ≡ records
unfolding AreKeyed
delete_absent k [] keyed h = refl
delete_absent k ((j, w) ∷ records) (e, ne, keyed) (other_key, h) =
    rw (beq_of_ne j k (λ same. other_key (sym same ∙ e)))
      (ap (λ rest. (j, w) ∷ rest) (delete_absent k records keyed h))

length-delete :
    (r : FindingRecord) (records : Records)
    → AreKeyed records
    → Memᴰ r (values records)
    → suc (length (delete r.fingerprint records)) ≡ length records
unfolding AreKeyed
length-delete r [] keyed m = elim m [ ]
length-delete r ((j, w) ∷ records) (e, ne, keyed) m = elim (Bool-cases (j == r.fingerprint)) [
  | inl same ↦
      let key : w.fingerprint ≡ r.fingerprint =
        sym e ∙ (string_eq.beq_iff j r.fingerprint).0 same in
      rw same (
        ap (λ (x : Records). suc (length x))
          (delete_absent r.fingerprint records keyed
            (subst (λ k. All (λ s. k ≢ s.fingerprint) (values records)) key ne)))
  | inr differ ↦ rw differ (ap suc (length-delete r records keyed (tail_of m differ)))
]
  where
    tail_of : Memᴰ r (w ∷ values records) → (j == r.fingerprint) ≡ false → Memᴰ r (values records)
    tail_of (Memᴰ.head same) differ = absurd (
        ground (
          arith,
          differ,
          (string_eq.beq_iff j r.fingerprint).1
              (e ∙ ap (λ (x : FindingRecord). x.fingerprint) (sym same)),
        ))
    tail_of (Memᴰ.tail there) differ = there

mem-delete :
    (s : FindingRecord) (k : String) (records : Records)
    → AreKeyed records
    → k ≢ s.fingerprint
    → Memᴰ s (values records)
    → Memᴰ s (values (delete k records))
unfolding AreKeyed
mem-delete s k [] keyed ne m = elim m [ ]
mem-delete s k ((j, w) ∷ records) (e, nes, keyed) ne (Memᴰ.head same) =
    rw
      (beq_of_ne j k
        (λ jk. ne (sym jk ∙ (e ∙ ap (λ (x : FindingRecord). x.fingerprint) (sym same)))))
      (Memᴰ.head same)
mem-delete s k ((j, w) ∷ records) (e, nes, keyed) ne (Memᴰ.tail m) = elim (Bool-cases (j == k)) [
  | inl jk ↦ rw jk (mem-delete s k records keyed ne m)
  | inr differ ↦ rw differ (Memᴰ.tail (mem-delete s k records keyed ne m))
]

still_there :
    (r : FindingRecord) (gone : List FindingRecord) (records : Records)
    → AreKeyed records
    → All (λ s. r.fingerprint ≢ s.fingerprint) gone
    → All (λ s. Memᴰ s (values records)) gone
    → All (λ s. Memᴰ s (values (delete r.fingerprint records))) gone
still_there r [] records keyed ne h = tt
still_there r (s ∷ gone) records keyed (n, ne) (m, h) =
    (mem-delete s r.fingerprint records keyed n m, still_there r gone records keyed ne h)

-- Removing distinct records that are there removes exactly as many.
pub length-remove_all :
    (gone : List FindingRecord) (records : Records)
    → AreKeyed records
    → AreDistinct (λ r. r.fingerprint) gone
    → All (λ s. Memᴰ s (values records)) gone
    → (length (remove_all (fingerprints gone) records) + length gone ≡ length records)
      × AreKeyed (remove_all (fingerprints gone) records)
unfolding remove_all AreDistinct
length-remove_all [] records keyed distinct there = (omega arith, keyed)
length-remove_all (r ∷ gone) records keyed (ne, distinct) (m, there) =
    let (counted, still) =
      length-remove_all gone (delete r.fingerprint records)
        (delete-AreKeyed r.fingerprint records keyed) distinct
        (still_there r gone records keyed ne there) in
    (omega (arith, counted, length-delete r records keyed m), still)

pub retired_records_lem :
    (dates : Dates) (n : ℕ) (records : Records)
    → AreKeyed records
    → AreDistinct (λ r. r.fingerprint) (retired_records dates n records)
      × All (λ s. Memᴰ s (values records)) (retired_records dates n records)
unfolding retired_records
retired_records_lem dates n records keyed =
    let retirable = filter is_retirable (values records) in
    (
      take-AreDistinct _ n (sort (retire_before dates) retirable) (
          sort-AreDistinct _ (retire_before dates) retirable (
            filter-AreDistinct _ is_retirable (values records) (values-AreDistinct records keyed))),
      All-take (λ r. r.fingerprint) _ n (sort (retire_before dates) retirable)
          ((All-sort (retire_before dates) _ retirable).0
            (All-filter _ is_retirable (values records) (λ s m h. m))),
    )

dropped_records_lem :
    (dates : Dates) (n : ℕ) (records : Records)
    → AreKeyed records
    → AreDistinct (λ r. r.fingerprint) (dropped_records dates n records)
      × All (λ s. Memᴰ s (values records)) (dropped_records dates n records)
unfolding dropped_records
dropped_records_lem dates n records keyed = (
  take-AreDistinct _ n (sort (drop_before dates) (values records))
      (sort-AreDistinct _ (drop_before dates) (values records) (values-AreDistinct records keyed)),
  All-take (λ r. r.fingerprint) _ n (sort (drop_before dates) (values records))
      ((All-sort (drop_before dates) _ (values records)).0
        (All-members _ (values records) (λ s m. m))),
)

length-dropped_records :
    (dates : Dates) (n : ℕ) (records : Records)
    → length (dropped_records dates n records) ≡ min n (length records)
unfolding dropped_records
length-dropped_records dates n records =
    length-take n (sort (drop_before dates) (values records))
    ∙ ap (min n) (length-sort (drop_before dates) (values records) ∙ length-values records)
  where
    length-values : (m : Records) → length (values m) ≡ length m
    length-values [] = refl
    length-values (x ∷ m) = ap suc (length-values m)

-- The records are within the bound, and account with those that left for all there were.
unfoldable pub IsWithin : ℕ → ℕ → Enforced → Type 0
IsWithin bound total e =
    (length e.kept ≤ bound)
    × (length e.kept + length e.retired + length e.dropped ≡ total)
    × AreKeyed e.kept

drop_rest-IsWithin :
    (dates : Dates) (bound : ℕ) (retired : List String) (records : Records)
    → AreKeyed records
    → IsWithin bound (length records + length retired) (drop_rest dates bound retired records)
unfolding drop_rest IsWithin
drop_rest-IsWithin dates bound retired records keyed =
    let n = length records - bound in
    let (distinct, there) = dropped_records_lem dates n records keyed in
    let (counted, still) =
      length-remove_all (dropped_records dates n records) records keyed distinct there in
    let size = length-dropped_records dates n records in
    (omega (arith, counted, size), omega (arith, counted, size), still)

-- Records under their own distinct fingerprints are within the bound afterwards and still so keyed, and
-- each record is kept, retired or dropped: together they are as many as there were.
pub enforce_bound-IsWithin :
    (dates : Dates) (bound : ℕ) (records : Records)
    → AreKeyed records
    → IsWithin bound (length records) (enforce_bound dates bound records)
unfolding enforce_bound IsWithin
enforce_bound-IsWithin dates bound records keyed =
    let n = length records - bound in
    let gone = retired_records dates n records in
    let (distinct, there) = retired_records_lem dates n records keyed in
    let (counted, still) = length-remove_all gone records keyed distinct there in
    let after = remove_all (fingerprints gone) records in
    let rest = drop_rest-IsWithin dates bound (fingerprints gone) after still in
    elim (Bool-cases (leb (length records) bound)) [
      | inl fits ↦ rw fits (fitting fits)
      | inr over ↦ rw over (
          subst (λ t. IsWithin bound t (drop_rest dates bound (fingerprints gone) after))
            (omega (arith, counted, length-fingerprints gone)) rest)
    ]
  where
    length-fingerprints : (rs : List FindingRecord) → length (fingerprints rs) ≡ length rs
    length-fingerprints [] = refl
    length-fingerprints (r ∷ rs) = ap suc (length-fingerprints rs)

    fitting :
        leb (length records) bound ≡ true
        → IsWithin bound (length records) (record { kept = records; retired = []; dropped = [] })
    fitting fits = ((leb_iff _ _).0 fits, omega arith, keyed)
